-- ===== src/Util/Bitmap/Laws.antt =====
-- What `get` reads after `set`.
use native.Mathlib.Nat.{div-le_self}
use micron.Base.{
  ℕ, zero, suc, ◌-◌, ◌/◌, ◌%◌, ◌^◌, ◌<◌, ◌≡◌, refl, ap, ◌∙◌, arith, Bool, ltb, ◌==◌, if◌then◌else◌,
  ◌>>>◌, complement, bit_and, bit_or,
}
use micron.Bits.{
  bit, bit-le, bit-pow, bit-bit_and, bit-bit_or, bit-complement, test_bit, test_bit-bit,
}
use micron.Util.Bitmap.{Bitmap, bit_indexer, cleared, get, set}

-- The place of an index inside its byte, counted from the least significant bit.
abbrev pub place : ℕ → ℕ
place index = 7 - index % 8

bit_indexer-pow : (index : ℕ) → bit_indexer index ≡ 2 ^ place index
bit_indexer-pow index = at (index % 8) (omega arith)
  where
    at : (j : ℕ) → j < 8 → 0b10000000 >>> j ≡ 2 ^ (7 - j)
    at zero h = refl
    at (suc zero) h = refl
    at (suc (suc zero)) h = refl
    at (suc (suc (suc zero))) h = refl
    at (suc (suc (suc (suc zero)))) h = refl
    at (suc (suc (suc (suc (suc zero))))) h = refl
    at (suc (suc (suc (suc (suc (suc zero)))))) h = refl
    at (suc (suc (suc (suc (suc (suc (suc zero))))))) h = refl
    at (suc (suc (suc (suc (suc (suc (suc (suc j)))))))) h = absurd (omega arith)

bit_indexer-lt : (index : ℕ) → bit_indexer index < 2 ^ 8
bit_indexer-lt index = omega (arith, div-le_self 128 (2 ^ (index % 8)))

pub get-bit :
    (b : Bitmap) (index : ℕ) → get b index ≡ (bit (place index) (b.buffer (index / 8)) == 1)
unfolding get test_bit
get-bit b index =
    ap (λ t. ltb 0 (bit_and (b.buffer (index / 8)) t)) (bit_indexer-pow index)
    ∙ test_bit-bit (b.buffer (index / 8)) (place index)

-- The byte that `set` stores, bit by bit.
stored : Bitmap → ℕ → Bool → ℕ
stored b index value =
    if value then bit_or (cleared b index) (bit_indexer index) else cleared b index

bit-stored :
    (b : Bitmap) (index i : ℕ) (value : Bool)
    → i < 8
    → bit i (stored b index value)
      ≡ (if place index == i then (if value then 1 else 0) else bit i (b.buffer (index / 8)))
unfolding stored
bit-stored b index i value h = ground (
  arith,
  bit-bit_or i (cleared b index) (bit_indexer index),
  bit-bit_and i (b.buffer (index / 8)) (complement 8 (bit_indexer index)),
  bit-complement i 8 (bit_indexer index) h,
  ap (bit i) (bit_indexer-pow index),
  bit-pow i (place index),
  bit-le i (b.buffer (index / 8)),
  bit_indexer-lt index,
)

-- A bit that is set reads back as it was set, and every other bit as before.
pub get-set :
    (b : Bitmap) (index j : ℕ) (value : Bool)
    → get (set b index value) j ≡ (if index == j then value else get b j)
unfolding set stored
get-set b index j value =
    ground (arith, get-bit (set b index value) j, get-bit b j, bit-stored b index (place j) value)
