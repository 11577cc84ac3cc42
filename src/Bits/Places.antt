-- ===== src/Bits/Places.antt =====
-- Where a bit goes under `>>`, `<<` and a remainder by a power of two.
use native.Mathlib.Nat.{one-le-pow, mul-div_cancel, mul-mod_left}
use micron.Base.{ℕ, zero, suc, ◌+◌, ◌*◌, ◌/◌, ◌%◌, ◌^◌, ◌<◌, ◌≡◌, ap, sym, ◌∙◌, arith}
use micron.Bits.{bit, bit-of_zero}
use micron.Bits.Fields.{div-pow-suc, mod-pow-suc}

pub bit-div : (k i j n : ℕ) → j ≡ k + i → bit i (n / 2 ^ k) ≡ bit j n
unfolding bit
bit-div zero i j n e = let e' : i ≡ j = omega arith in rw e' (ap (bit j) (omega arith))
bit-div (suc k) i zero n e = absurd (omega arith)
bit-div (suc k) i (suc j) n e = ap (bit i) (div-pow-suc n k) ∙ bit-div k i j (n / 2) (omega arith)

pub bit-mod : (w i n : ℕ) → i < w → bit i (n % 2 ^ w) ≡ bit i n
unfolding bit
bit-mod zero i n h = absurd (omega arith)
bit-mod (suc w) zero n h = omega (arith, mod-pow-suc n w)
bit-mod (suc w) (suc i) n h =
    ap (bit i) (omega (arith, mod-pow-suc n w)) ∙ bit-mod w i (n / 2) (omega arith)

pub bit-mul_above : (k i j n : ℕ) → j ≡ k + i → bit j (n * 2 ^ k) ≡ bit i n
bit-mul_above k i j n e =
    sym (bit-div k i j (n * 2 ^ k) e) ∙ ap (bit i) (mul-div_cancel n (one-le-pow k 2 (omega arith)))

pub bit-mul_below : (k i n : ℕ) → i < k → bit i (n * 2 ^ k) ≡ 0
bit-mul_below k i n h =
    sym (bit-mod k i (n * 2 ^ k) h) ∙ ap (bit i) (mul-mod_left n (2 ^ k)) ∙ bit-of_zero i
