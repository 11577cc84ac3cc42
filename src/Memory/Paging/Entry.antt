-- ===== src/Memory/Paging/Entry.antt =====
-- `page_directory_entry` of paging.h: a 64-bit word of flags around a 40-bit frame number.
pub mod Laws
use micron.Base.{
  ℕ, ◌^◌, ◌%◌, bit_and, bit_or, Bool, true, false, ltb, if◌then◌else◌, ◌<<<◌, ◌>>>◌, complement,
}
use micron.Bits.{test_bit}

pub data PtFlag : Type 0 where
  present read_write user_super write_through cache_disabled accessed larger_pages : PtFlag
  custom_0 custom_1 custom_2 nx : PtFlag

-- The values of `pt_flag`.
abbrev pub index : PtFlag → ℕ
index present = 0
index read_write = 1
index user_super = 2
index write_through = 3
index cache_disabled = 4
index accessed = 5
index larger_pages = 7
index custom_0 = 9
index custom_1 = 10
index custom_2 = 11
index nx = 63

-- `value &= ~(1 << flag)`, and then `value |= 1 << flag` if the flag is to be set.
unfoldable pub set_flag : ℕ → PtFlag → Bool → ℕ
set_flag value flag enabled =
    let bit_selector = 2 ^ index flag in
    let off = bit_and value (complement 64 bit_selector) in
    if enabled then bit_or off bit_selector else off

unfoldable pub get_flag : ℕ → PtFlag → Bool
get_flag value flag = ltb 0 (bit_and value (2 ^ index flag))

unfoldable pub get_address : ℕ → ℕ
get_address value = bit_and value 0x000f_ffff_ffff_f000 >>> 12

unfoldable pub set_address : ℕ → ℕ → ℕ
set_address value paddress =
    bit_or (bit_and value 0xfff0_0000_0000_0fff) (bit_and paddress 0x0000_00ff_ffff_ffff <<< 12)

-- A number as a `bool` argument.
abbrev truth : ℕ → Bool
truth n = ltb 0 n

unfoldable pub set_pat : ℕ → ℕ → ℕ
set_pat value index =
    let i = bit_and index 0b111 in
    let v₁ = set_flag value write_through (truth (bit_and i 1)) in
    let v₂ = set_flag v₁ cache_disabled (truth (bit_and (i >>> 1) 1)) in
    set_flag v₂ larger_pages (truth (bit_and (i >>> 1 >>> 1) 1))
