-- ===== src/Util/Bitmap.antt =====
-- kernel/src/util/bitmap.cpp: a bitmap over a byte buffer, the most significant bit first.
pub mod Laws
pub mod Count
use micron.Base.{
  ℕ, ◌/◌, ◌%◌, ◌^◌, ◌<◌, bit_and, bit_or, Bool, ltb, if◌then◌else◌, ◌>>>◌, complement, update,
}

-- `buffer` is the memory from `address` on, as a function of the byte offset; neither operation
-- checks an index against `size`.
pub record Bitmap : Type 0 where
  pub size : ℕ
  pub address : ℕ
  pub buffer : ℕ → ℕ

-- `0b10000000 >> bit_index`
abbrev pub bit_indexer : ℕ → ℕ
bit_indexer index = 0b10000000 >>> (index % 8)

unfoldable pub get : Bitmap → ℕ → Bool
get b index = ltb 0 (bit_and (b.buffer (index / 8)) (bit_indexer index))

abbrev pub cleared : Bitmap → ℕ → ℕ
cleared b index = bit_and (b.buffer (index / 8)) (complement 8 (bit_indexer index))

unfoldable pub set : Bitmap → ℕ → Bool → Bitmap
set b index value = record b {
  buffer =
      update b.buffer (index / 8)
        (if value then bit_or (cleared b index) (bit_indexer index) else cleared b index);
}
