-- ===== src/Cpu/Gdt.antt =====
-- kernel/src/cpu/gdt.cpp: the global descriptor table, filled from a running index.
pub mod Layout
use micron.Base.{
  ℕ, ◌+◌, ◌*◌, ◌-◌, ◌^◌, bit_and, bit_or, Bool, leb, if◌then◌else◌, u8, u16, u32, ◌>>>◌, update,
}

-- `gdt_desc_t`
pub record Descriptor : Type 0 where
  pub limit : ℕ
  pub base_low : ℕ
  pub base_mid : ℕ
  pub flags : ℕ
  pub granularity : ℕ
  pub base_high : ℕ

-- `s_gdt_descriptors` as the memory from its start on, a slot of eight bytes at each index: the
-- array has 16 slots, and a store past them lands in what follows it.
pub record Gdt : Type 0 where
  pub descriptors : ℕ → Descriptor
  pub s_gdt_index : ℕ

abbrev pub gdt_max_descriptors : ℕ
gdt_max_descriptors = 16

abbrev pub gdt_desc_access : ℕ
gdt_desc_access = 0x01

abbrev pub gdt_desc_readwrite : ℕ
gdt_desc_readwrite = 0x02

abbrev pub gdt_desc_executable : ℕ
gdt_desc_executable = 0x08

abbrev pub gdt_desc_codedata : ℕ
gdt_desc_codedata = 0x10

abbrev pub gdt_desc_dpl : ℕ
gdt_desc_dpl = 0x60

abbrev pub gdt_desc_present : ℕ
gdt_desc_present = 0x80

abbrev pub base_desc : ℕ
base_desc = bit_or (bit_or gdt_desc_present gdt_desc_readwrite) gdt_desc_codedata

-- `GDT_GRAN_64BIT | GDT_GRAN_4K`
abbrev pub base_gran : ℕ
base_gran = bit_or 0x20 0x80

unfoldable pub descriptor : ℕ → ℕ → ℕ → ℕ → Descriptor
descriptor base limit access granularity = record {
  limit = u16 (bit_and limit 0xffff);
  base_low = u16 (bit_and base 0xffff);
  base_mid = u8 (bit_and (base >>> 16) 0xff);
  flags = access;
  granularity = bit_or (u8 (bit_and (limit >>> 16) 0x0f)) (bit_and granularity 0xf0);
  base_high = u8 (bit_and (base >>> 24) 0xff);
}

unfoldable pub gdt_install_descriptor : ℕ → ℕ → ℕ → ℕ → Gdt → Gdt
gdt_install_descriptor base limit access granularity g =
    if leb gdt_max_descriptors g.s_gdt_index then g else record {
      descriptors = update g.descriptors g.s_gdt_index (descriptor base limit access granularity);
      s_gdt_index = g.s_gdt_index + 1;
    }

-- The two halves of a `gdt_system_desc_t`, as the two slots that they lie over. The second holds
-- `addr_3` and four bytes of zero.
unfoldable pub tss_low : ℕ → ℕ → Descriptor
tss_low base limit = record {
  limit = bit_and limit 0xffff;
  base_low = bit_and base 0xffff;
  base_mid = bit_and base 0xff0000 >>> 16;
  flags =
      u16 (bit_and (bit_or (bit_or gdt_desc_access gdt_desc_executable) gdt_desc_present) 0x00ff);
  granularity = bit_and limit 0xf0000 >>> 16;
  base_high = bit_and base 0xff000000 >>> 24;
}

unfoldable pub tss_high : ℕ → Descriptor
tss_high base = record {
  limit = u16 (u32 (base >>> 32));
  base_low = u32 (base >>> 32) >>> 16;
  base_mid = 0;
  flags = 0;
  granularity = 0;
  base_high = 0;
}

unfoldable pub gdt_install_tss : ℕ → ℕ → Gdt → Gdt
gdt_install_tss base limit g = if leb gdt_max_descriptors g.s_gdt_index then g else record {
  descriptors =
      update (update g.descriptors g.s_gdt_index (tss_low base limit)) (g.s_gdt_index + 1)
        (tss_high base);
  s_gdt_index = g.s_gdt_index + 2;
}

-- Up to `load_gdt`, which hands the table to the processor.
unfoldable pub gdt_init : Gdt → Gdt
gdt_init g =
    let g₁ = gdt_install_descriptor 0 0 0 0 g in
    let g₂ = gdt_install_descriptor 0 0 (bit_or base_desc gdt_desc_executable) base_gran g₁ in
    let g₃ = gdt_install_descriptor 0 0 base_desc base_gran g₂ in
    let g₄ = gdt_install_descriptor 0 0 (bit_or base_desc gdt_desc_dpl) base_gran g₃ in
    gdt_install_descriptor 0 0 (bit_or (bit_or base_desc gdt_desc_executable) gdt_desc_dpl)
      base_gran g₄
