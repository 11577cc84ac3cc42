-- ===== src/Cpu/Gdt/Layout.antt =====
-- What the processor reads from the table.
use micron.Base.{ℕ, ◌+◌, ◌*◌, ◌/◌, ◌%◌, ◌^◌, ◌≤◌, ◌<◌, ◌≡◌, ◌≢◌, refl, arith, ap, ap₂, ◌∙◌}
use micron.Bits.Fields.{bit_and_mask, bit_and_shifted}
use micron.Cpu.Gdt.{
  Descriptor, Gdt, descriptor, tss_low, tss_high, gdt_install_descriptor, gdt_install_tss, gdt_init,
}

-- The base that a descriptor holds, and the one that a system descriptor of two slots holds.
abbrev pub base_of : Descriptor → ℕ
base_of d = d.base_low + 2 ^ 16 * d.base_mid + 2 ^ 24 * d.base_high

abbrev pub system_base : Descriptor → Descriptor → ℕ
system_base low high = base_of low + 2 ^ 32 * (high.limit + 2 ^ 16 * high.base_low)

-- The 20 bits of the limit.
abbrev pub limit_of : Descriptor → ℕ
limit_of d = d.limit + 2 ^ 16 * (d.granularity % 16)

pub base_of-descriptor :
    (base limit access granularity : ℕ)
    → base_of (descriptor base limit access granularity) ≡ base % 2 ^ 32
unfolding descriptor
base_of-descriptor base limit access granularity =
    omega
      (arith, bit_and_mask 16 base, bit_and_mask 8 (base / 2 ^ 16), bit_and_mask 8 (base / 2 ^ 24))

system_base-tss :
    (base limit : ℕ) → base < 2 ^ 64 → system_base (tss_low base limit) (tss_high base) ≡ base
unfolding tss_low tss_high
system_base-tss base limit h = omega (
  arith,
  bit_and_mask 16 base,
  bit_and_shifted 16 base 0xff,
  bit_and_mask 8 (base / 2 ^ 16),
  bit_and_shifted 24 base 0xff,
  bit_and_mask 8 (base / 2 ^ 24),
)

limit_of-tss : (base limit : ℕ) → limit < 2 ^ 20 → limit_of (tss_low base limit) ≡ limit
unfolding tss_low
limit_of-tss base limit h =
    omega
      (arith, bit_and_mask 16 limit, bit_and_shifted 16 limit 0xf, bit_and_mask 4 (limit / 2 ^ 16))

-- A descriptor is stored at the index while it is below 16, and no other slot changes; a full table
-- is left alone. So nothing is stored past the array.
pub gdt_install_descriptor_bounds :
    (base limit access granularity : ℕ) (g : Gdt)
    → g.s_gdt_index ≤ 16
    → let g' = gdt_install_descriptor base limit access granularity g in
      (g'.s_gdt_index ≤ 16)
      × ((i : ℕ) → 16 ≤ i → g'.descriptors i ≡ g.descriptors i)
      × ((i : ℕ) → i ≢ g.s_gdt_index → g'.descriptors i ≡ g.descriptors i)
unfolding gdt_install_descriptor
gdt_install_descriptor_bounds base limit access granularity g h =
    (ground arith, λ i p. ground arith, λ i p. ground arith)

-- What the selectors of the kernel find.
pub record Booted (base limit : ℕ) (g : Gdt) : Type 0 where
  pub kernel_code : (g.descriptors (0x08 / 8)).flags ≡ 0b10011010
  pub kernel_data : (g.descriptors (0x10 / 8)).flags ≡ 0b10010010
  pub user_data : (g.descriptors (0x18 / 8)).flags ≡ 0b11110010
  pub user_code : (g.descriptors (0x20 / 8)).flags ≡ 0b11111010
  pub tss_type : (g.descriptors (0x28 / 8)).flags ≡ 0b10001001
  pub tss_base : system_base (g.descriptors (0x28 / 8)) (g.descriptors (0x28 / 8 + 1)) ≡ base
  pub tss_limit : limit_of (g.descriptors (0x28 / 8)) ≡ limit
  pub next : g.s_gdt_index ≡ 7

abbrev pub empty_gdt : (ℕ → Descriptor) → Gdt
empty_gdt slots = record { descriptors = slots; s_gdt_index = 0 }

-- From an empty table, `gdt_init` and then `gdt_install_tss` put kernel code and data at the
-- selectors 0x08 and 0x10, user data and code at 0x18 and 0x20, and at 0x28, which `load_tss` is
-- given, the task state segment with the whole of a 64-bit base and of a 20-bit limit.
pub gdt_install_tss-Booted :
    (base limit : ℕ) (slots : ℕ → Descriptor)
    → base < 2 ^ 64
    → limit < 2 ^ 20
    → Booted base limit (gdt_install_tss base limit (gdt_init (empty_gdt slots)))
unfolding gdt_install_tss gdt_init gdt_install_descriptor
gdt_install_tss-Booted base limit slots hb hl = record {
  kernel_code = unfold descriptor in refl;
  kernel_data = unfold descriptor in refl;
  user_data = unfold descriptor in refl;
  user_code = unfold descriptor in refl;
  tss_type = unfold tss_low in refl;
  tss_base = system_base-tss base limit hb;
  tss_limit = limit_of-tss base limit hl;
  next = refl;
}

-- What the processor finds at a slot and the next one: the type, the base and the limit.
pub record HoldsTss (base limit i : ℕ) (g : Gdt) : Type 0 where
  pub tss_type : (g.descriptors i).flags ≡ 0b10001001
  pub tss_base : system_base (g.descriptors i) (g.descriptors (i + 1)) ≡ base
  pub tss_limit : limit_of (g.descriptors i) ≡ limit

gdt_install_tss-stored :
    (base limit : ℕ) (g : Gdt)
    → g.s_gdt_index < 15
    → let g' = gdt_install_tss base limit g in
      (g'.descriptors g.s_gdt_index ≡ tss_low base limit)
      × (g'.descriptors (g.s_gdt_index + 1) ≡ tss_high base)
      × (g'.s_gdt_index ≡ g.s_gdt_index + 2)
      × ((i : ℕ) → i < g.s_gdt_index → g'.descriptors i ≡ g.descriptors i)
unfolding gdt_install_tss
gdt_install_tss-stored base limit g room =
    (ground arith, ground arith, ground arith, λ i below. ground arith)

pub gdt_install_tss-HoldsTss :
    (base limit : ℕ) (g : Gdt)
    → g.s_gdt_index < 15
    → base < 2 ^ 64
    → limit < 2 ^ 20
    → let g' = gdt_install_tss base limit g in
      HoldsTss base limit g.s_gdt_index g'
      × (g'.s_gdt_index ≡ g.s_gdt_index + 2)
      × ((i : ℕ) → i < g.s_gdt_index → g'.descriptors i ≡ g.descriptors i)
gdt_install_tss-HoldsTss base limit g room hb hl =
    let stored = gdt_install_tss-stored base limit g room in
    (
      record {
        tss_type = ap (λ d. d.flags) stored.0 ∙ (unfold tss_low in refl);
        tss_base = ap₂ system_base stored.0 stored.1 ∙ system_base-tss base limit hb;
        tss_limit = ap limit_of stored.0 ∙ limit_of-tss base limit hl;
      },
      stored.2,
      stored.3,
    )

-- With one slot left `gdt_install_tss` still runs, and its second half lands past the array.
gdt_install_tss_overrun :
    (base limit : ℕ) (g : Gdt)
    → g.s_gdt_index ≡ 15
    → (gdt_install_tss base limit g).descriptors 16 ≡ tss_high base
unfolding gdt_install_tss
gdt_install_tss_overrun base limit g e = ground arith
