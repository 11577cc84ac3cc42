-- ===== src/Bits.antt =====
-- The bits of a word, and `&`, `|`, `~`, `<<`, `>>` read bit by bit, at every width.
mod Step
pub mod Fields
pub mod Places
pub use Step.{bit_or_step, bit_and_step, zero-bit_or, zero-bit_and}
use mathlib.Core.WellFounded
use native.Mathlib.Nat.{pow-suc, one-le-pow}
use micron.Base.Order.{lt_wf}
use micron.Base.{
  ℕ, zero, suc, ◌+◌, ◌-◌, ◌*◌, ◌/◌, ◌%◌, ◌^◌, ◌≤◌, ◌<◌, min, max, bit_and, bit_or, ◌≡◌, refl, ap,
  ◌∙◌, arith, complement, Bool, true, ltb, ◌==◌, if◌then◌else◌,
}

-- Bit `i` of a number, 0 or 1.
unfoldable pub bit : ℕ → ℕ → ℕ
bit zero n = n % 2
bit (suc i) n = bit i (n / 2)

pub bit-le : (i n : ℕ) → bit i n ≤ 1
unfolding bit
bit-le zero n = omega arith
bit-le (suc i) n = bit-le i (n / 2)

pub bit-bit_and : (i a b : ℕ) → bit i (bit_and a b) ≡ min (bit i a) (bit i b)
unfolding bit
bit-bit_and zero a b = omega (arith, bit_and_step a b)
bit-bit_and (suc i) a b =
    ap (bit i) (omega (arith, bit_and_step a b)) ∙ bit-bit_and i (a / 2) (b / 2)

pub bit-bit_or : (i a b : ℕ) → bit i (bit_or a b) ≡ max (bit i a) (bit i b)
unfolding bit
bit-bit_or zero a b = omega (arith, bit_or_step a b)
bit-bit_or (suc i) a b = ap (bit i) (omega (arith, bit_or_step a b)) ∙ bit-bit_or i (a / 2) (b / 2)

pub bit-complement : (i w x : ℕ) → i < w → x < 2 ^ w → bit i (complement w x) ≡ 1 - bit i x
unfolding bit
bit-complement i zero x h k = absurd (omega arith)
bit-complement zero (suc w) x h k = omega (arith, pow-suc 2 w, one-le-pow w 2)
bit-complement (suc i) (suc w) x h k =
    ap (bit i) (omega (arith, pow-suc 2 w, one-le-pow w 2))
    ∙ bit-complement i w (x / 2) (omega arith) (omega (arith, pow-suc 2 w))

pub bit-of_zero : (i : ℕ) → bit i 0 ≡ 0
unfolding bit
bit-of_zero zero = refl
bit-of_zero (suc i) = bit-of_zero i

pub bit-pow : (i k : ℕ) → bit i (2 ^ k) ≡ (if k == i then 1 else 0)
unfolding bit
bit-pow zero zero = refl
bit-pow zero (suc k) = ground (arith, pow-suc 2 k)
bit-pow (suc i) zero = bit-of_zero i ∙ ground arith
bit-pow (suc i) (suc k) = ap (bit i) (omega (arith, pow-suc 2 k)) ∙ bit-pow i k ∙ ground arith

-- What holds of 0, and of a number where it holds of its half, holds of every number.
by_halves : (P : ℕ → Type 0) → P 0 → ((n : ℕ) → P (suc n / 2) → P (suc n)) → (a : ℕ) → P a
by_halves P base half a = WellFounded.induction lt_wf {C = P} a each
  where
    each : (n : ℕ) → ((m : ℕ) → m < n → P m) → P n
    each zero smaller = base
    each (suc n) smaller = half n (smaller (suc n / 2) (omega arith))

pub bit_and-of_zero : (a : ℕ) → bit_and a 0 ≡ 0
bit_and-of_zero =
    by_halves (λ a. bit_and a 0 ≡ 0) refl λ n ih. omega (arith, bit_and_step (suc n) 0, ih)

pub bit_or-of_zero : (a : ℕ) → bit_or a 0 ≡ a
bit_or-of_zero =
    by_halves (λ a. bit_or a 0 ≡ a) refl λ n ih. omega (arith, bit_or_step (suc n) 0, ih)

-- `v & (1 << k)`, the form in which the code reads one bit, keeps that bit alone.
pub bit_and-pow : (k v : ℕ) → bit_and v (2 ^ k) ≡ bit k v * 2 ^ k
unfolding bit
bit_and-pow zero v = omega (arith, bit_and_step v 1, bit_and-of_zero (v / 2))
bit_and-pow (suc k) v =
    grind (arith, bit_and_step v (2 ^ suc k), bit_and-pow k (v / 2), pow-suc 2 k)

unfoldable pub test_bit : ℕ → ℕ → Bool
test_bit v k = ltb 0 (bit_and v (2 ^ k))

pub test_bit-bit : (v k : ℕ) → test_bit v k ≡ (bit k v == 1)
unfolding test_bit
test_bit-bit v k = grind (arith, bit_and-pow k v, bit-le k v, one-le-pow k 2)

-- Words of `w` bits with the same bits are equal.
pub bit_ext : (w a b : ℕ) → a < 2 ^ w → b < 2 ^ w → ((i : ℕ) → i < w → bit i a ≡ bit i b) → a ≡ b
unfolding bit
bit_ext zero a b p q h = omega arith
bit_ext (suc w) a b p q h = omega (
  arith,
  pow-suc 2 w,
  h 0 (omega arith),
  bit_ext w (a / 2) (b / 2) (omega (arith, pow-suc 2 w)) (omega (arith, pow-suc 2 w))
      (λ i k. h (suc i) (omega arith)),
)
