-- ===== src/Bits/Step.antt =====
-- One equation for the lowest binary digit of `&` and of `|`.
use mathlib.Core.WellFounded
use Prim.Native.Nat.{digits, bitwise, bit_and-bitwise, bit_or-bitwise}
use micron.Base.Order.{lt_wf}
use micron.Base.{
  ℕ, zero, suc, ◌+◌, ◌*◌, ◌/◌, ◌%◌, ◌≤◌, ◌<◌, min, max, bit_and, bit_or, ◌≡◌, refl, arith,
}

-- The library means `bitwise join x y` by `digits`, with `x` for the number of rounds. Any larger
-- number of rounds gives the same digits.
module _ (pass : ℕ → ℕ) (join : ℕ → ℕ → ℕ) where
  abbrev Enough : ℕ → Type 0
  Enough rounds = (x y : ℕ) → x ≤ rounds → digits pass join rounds x y ≡ bitwise pass join x y

  fuel_grows : (rounds : ℕ) → ((k : ℕ) → k < rounds → Enough k) → Enough rounds
  fuel_grows zero below zero y fits = refl
  fuel_grows zero below (suc x) y fits = elim fits [ ]
  fuel_grows (suc k) below zero y fits = refl
  fuel_grows (suc k) below (suc x) y fits =
      rw
        (
          below k (omega arith) (suc x / 2) (y / 2) (omega arith),
          below x (omega arith) (suc x / 2) (y / 2) (omega arith),
        )
        refl

  enough : (rounds : ℕ) → Enough rounds
  enough rounds = WellFounded.induction lt_wf {C = Enough} rounds fuel_grows

  lowest_digit :
      (x y : ℕ)
      → bitwise pass join (suc x) y
        ≡ 2 * bitwise pass join (suc x / 2) (y / 2) + join (suc x % 2) (y % 2)
  lowest_digit x y = omega (arith, enough x (suc x / 2) (y / 2) (omega arith))

pub zero-bit_or : (y : ℕ) → bit_or 0 y ≡ y
zero-bit_or y = bit_or-bitwise 0 y

pub zero-bit_and : (y : ℕ) → bit_and 0 y ≡ 0
zero-bit_and y = bit_and-bitwise 0 y

pub bit_or_step : (x y : ℕ) → bit_or x y ≡ 2 * bit_or (x / 2) (y / 2) + max (x % 2) (y % 2)
bit_or_step zero y = omega (arith, zero-bit_or y, zero-bit_or (y / 2))
bit_or_step (suc x) y = omega (
  arith,
  lowest_digit (λ d. d) max x y,
  bit_or-bitwise (suc x) y,
  bit_or-bitwise (suc x / 2) (y / 2),
)

pub bit_and_step : (x y : ℕ) → bit_and x y ≡ 2 * bit_and (x / 2) (y / 2) + min (x % 2) (y % 2)
bit_and_step zero y = omega (arith, zero-bit_and y, zero-bit_and (y / 2))
bit_and_step (suc x) y = omega (
  arith,
  lowest_digit (λ d. 0) min x y,
  bit_and-bitwise (suc x) y,
  bit_and-bitwise (suc x / 2) (y / 2),
)
