-- ===== src/Memory/Paging/Entry/Laws.antt =====
-- Flags and the frame number of an entry do not disturb one another.
use micron.Base.{
  min, max, ℕ, ◌+◌, ◌-◌, ◌/◌, ◌%◌, ◌^◌, ◌≤◌, ◌<◌, ◌≡◌, ◌⊎◌, inl, inr, ap, sym, ◌∙◌, arith, bit_and,
  Bool, ◌==◌, if◌then◌else◌, ◌<<<◌, complement,
}
use micron.Bits.{
  bit, bit-le, bit-pow, bit-bit_and, bit-bit_or, bit-complement, test_bit, test_bit-bit, bit_ext,
  bit-of_zero,
}
use micron.Bits.Fields.{bit_and_mask, bit_and_shifted}
use micron.Bits.Places.{bit-div, bit-mod, bit-mul_above, bit-mul_below}
use micron.Memory.Paging.Entry.{
  PtFlag, present, index, set_flag, get_flag, get_address, set_address, set_pat,
}

index-lt : (f : PtFlag) → index f < 64
index-lt f = ground arith

get_flag-bit : (v : ℕ) (f : PtFlag) → get_flag v f ≡ (bit (index f) v == 1)
unfolding get_flag test_bit
get_flag-bit v f = test_bit-bit v (index f)

pow-index-lt : (f : PtFlag) → 2 ^ index f < 2 ^ 64
pow-index-lt f = ground arith

bit-set_flag :
    (v : ℕ) (f : PtFlag) (e : Bool) (i : ℕ)
    → i < 64
    → bit i (set_flag v f e) ≡ (if index f == i then (if e then 1 else 0) else bit i v)
unfolding set_flag
bit-set_flag v f e i h =
    let off : ℕ = bit_and v (complement 64 (2 ^ index f)) in
    ground (
      arith,
      bit-bit_or i off (2 ^ index f),
      bit-bit_and i v (complement 64 (2 ^ index f)),
      bit-complement i 64 (2 ^ index f) h (pow-index-lt f),
      bit-pow i (index f),
      bit-le i v,
    )

-- A flag reads back as it was set, and setting one leaves every other as it was.
pub get_flag-set_flag :
    (v : ℕ) (f g : PtFlag) (e : Bool)
    → get_flag (set_flag v f e) g ≡ (if index f == index g then e else get_flag v g)
get_flag-set_flag v f g e = ground (
  arith,
  get_flag-bit (set_flag v f e) g,
  get_flag-bit v g,
  bit-set_flag v f e (index g) (index-lt g),
)

-- No flag stands among bits 12 to 51, where the frame number is.
index-outside : (f : PtFlag) → (index f < 12) ⊎ (52 ≤ index f)
index-outside f = ground arith

get_address-field : (v : ℕ) → get_address v ≡ v / 2 ^ 12 % 2 ^ 40
unfolding get_address
get_address-field v = omega (arith, bit_and_shifted 12 v (2 ^ 40 - 1), bit_and_mask 40 (v / 2 ^ 12))

bit-get_address : (v i : ℕ) → i < 40 → bit i (get_address v) ≡ bit (i + 12) v
bit-get_address v i h =
    ap (bit i) (get_address-field v)
    ∙ bit-mod 40 i (v / 2 ^ 12) h
    ∙ bit-div 12 i (i + 12) v (omega arith)

get_address-lt : (v : ℕ) → get_address v < 2 ^ 40
get_address-lt v = omega (arith, get_address-field v)

-- Setting a flag leaves the frame number as it was.
pub get_address-set_flag :
    (v : ℕ) (f : PtFlag) (e : Bool) → get_address (set_flag v f e) ≡ get_address v
get_address-set_flag v f e =
    bit_ext 40 (get_address (set_flag v f e)) (get_address v) (get_address-lt _) (get_address-lt v)
      λ i h. ground (
        arith,
        bit-get_address (set_flag v f e) i h,
        bit-get_address v i h,
        bit-set_flag v f e (i + 12) (omega arith),
        index-outside f,
      )

-- The mask of `set_address` has ones outside the frame number, and the new frame number is shifted
-- to its place.
abbrev keep_mask : ℕ
keep_mask = 0xfff0_0000_0000_0fff

abbrev frame : ℕ → ℕ
frame p = bit_and p 0x0000_00ff_ffff_ffff

ones_below : (i : ℕ) → i < 12 → bit i 0xfff ≡ 1
ones_below i h = bit-complement i 12 0 h (omega arith) ∙ omega (arith, bit-of_zero i)

keep_mask_frame : (i : ℕ) → i < 40 → bit (i + 12) keep_mask ≡ 0
keep_mask_frame i h =
    sym (bit-div 12 i (i + 12) keep_mask (omega arith))
    ∙ sym (bit-mod 40 i 0xfff0_0000_0000_0 h)
    ∙ bit-of_zero i

keep_mask_low : (i : ℕ) → i < 12 → bit i keep_mask ≡ 1
keep_mask_low i h = sym (bit-mod 12 i keep_mask h) ∙ ones_below i h

keep_mask_high : (i : ℕ) → 52 ≤ i → i < 64 → bit i keep_mask ≡ 1
keep_mask_high i lo hi =
    sym (bit-div 52 (i - 52) i keep_mask (omega arith)) ∙ ones_below (i - 52) (omega arith)

bit-frame : (p i : ℕ) → i < 40 → bit i (frame p) ≡ bit i p
bit-frame p i h = ap (bit i) (bit_and_mask 40 p) ∙ bit-mod 40 i p h

frame_high : (p i : ℕ) → 40 ≤ i → bit i (frame p) ≡ 0
frame_high p i h =
    sym (bit-div 40 (i - 40) i (frame p) (omega arith))
    ∙ ap (bit (i - 40)) (omega (arith, bit_and_mask 40 p))
    ∙ bit-of_zero (i - 40)

bit-set_address :
    (v p i : ℕ)
    → bit i (set_address v p) ≡ max (min (bit i v) (bit i keep_mask)) (bit i (frame p <<< 12))
unfolding set_address
bit-set_address v p i =
    omega (arith, bit-bit_or i (bit_and v keep_mask) (frame p <<< 12), bit-bit_and i v keep_mask)

frame_bits : (v p i : ℕ) → i < 40 → bit (i + 12) (set_address v p) ≡ bit i p
frame_bits v p i h = omega (
  arith,
  bit-set_address v p (i + 12),
  keep_mask_frame i h,
  bit-mul_above 12 i (i + 12) (frame p) (omega arith),
  bit-frame p i h,
)

keep_bits : (v p i : ℕ) → i < 64 → (i < 12) ⊎ (52 ≤ i) → bit i (set_address v p) ≡ bit i v
keep_bits v p i h (inl low) = omega (
  arith,
  bit-set_address v p i,
  keep_mask_low i low,
  bit-mul_below 12 i (frame p) low,
  bit-le i v,
)
keep_bits v p i h (inr high) = omega (
  arith,
  bit-set_address v p i,
  keep_mask_high i high h,
  bit-mul_above 12 (i - 12) i (frame p) (omega arith),
  frame_high p (i - 12) (omega arith),
  bit-le i v,
)

-- The frame number reads back as the low 40 bits of what was stored.
pub get_address-set_address : (v p : ℕ) → get_address (set_address v p) ≡ p % 2 ^ 40
get_address-set_address v p =
    bit_ext 40 (get_address (set_address v p)) (p % 2 ^ 40) (get_address-lt _) (omega arith)
      λ i h. bit-get_address (set_address v p) i h ∙ frame_bits v p i h ∙ sym (bit-mod 40 i p h)

-- Storing a frame number leaves every flag as it was.
get_flag-set_address : (v p : ℕ) (f : PtFlag) → get_flag (set_address v p) f ≡ get_flag v f
get_flag-set_address v p f =
    get_flag-bit (set_address v p) f
    ∙ ap (λ b. b == 1) (keep_bits v p (index f) (index-lt f) (index-outside f))
    ∙ sym (get_flag-bit v f)

pub get_address-set_pat : (v i : ℕ) → get_address (set_pat v i) ≡ get_address v
unfolding set_pat
get_address-set_pat v i = simp get_address-set_flag

pub present-set_pat : (v i : ℕ) → get_flag (set_pat v i) present ≡ get_flag v present
unfolding set_pat
present-set_pat v i = simp get_flag-set_flag
