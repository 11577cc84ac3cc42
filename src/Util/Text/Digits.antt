-- ===== src/Util/Text/Digits.antt =====
-- The digits that `itoa` writes stand for the number.
use native.Mathlib.Nat.{pow-suc, pow-zero, div-add-mod', div-lt_iff_lt-mul, mod-lt}
use micron.Base.{
  ℕ, zero, suc, ◌+◌, ◌-◌, ◌*◌, ◌/◌, ◌%◌, ◌^◌, ◌≤◌, ◌<◌, ◌≡◌, ◌≢◌, refl, arith, ap, ◌∙◌, inl, inr,
  true, false, Bool-cases, Option, none, some, ◌>>=◌, List, [], ◌∷◌, get_or, ltb, leb, ◌==◌, ◌&&◌,
  if◌then◌else◌,
}
use micron.Util.Text.{digits, itoa_loop, itoa}

-- The value of a digit character, `0` to `9`, `A` to `F` or `a` to `f`; other characters have none.
unfoldable pub digit_value : ℕ → Option ℕ
digit_value c =
    if leb 48 c && leb c 57
    then some (c - 48)
    else if leb 65 c && leb c 70
    then some (c - 55)
    else if leb 97 c && leb c 102
    then some (c - 87)
    else none

-- A text read as a number in a base, after the digits that give `n`; every character has to be a
-- digit below the base.
unfoldable pub read_digits : (base n : ℕ) → List ℕ → Option ℕ
read_digits base n [] = some n
read_digits base n (c ∷ cs) =
    digit_value c >>= λ d. if ltb d base then read_digits base (n * base + d) cs else none

-- The text does not begin with a zero, and is not empty.
abbrev pub HasLead : List ℕ → Type 0
HasLead [] = ⊥
HasLead (c ∷ cs) = c ≢ 48

digit_value-digits : (d : ℕ) → d < 16 → digit_value (get_or digits d 0) ≡ some d
unfolding digit_value
digit_value-digits d h = ground arith

pub quotient_fits : (i val base : ℕ) → 2 ≤ base → val < base ^ suc i → val / base < base ^ i
quotient_fits i val base low fits =
    (div-lt_iff_lt-mul {k = base} {x = val} {y = base ^ i} (omega arith)).1
      (omega (arith, pow-suc base i))

-- The last digit of a number is read behind the others, where each digit of the table has its value.
pub read_digits-last :
    (val base : ℕ) (table cs : List ℕ)
    → 2 ≤ base
    → ((d : ℕ) → d < base → digit_value (get_or table d 0) ≡ some d)
    → read_digits base (val / base) (get_or table (val % base) 0 ∷ cs) ≡ read_digits base val cs
unfolding read_digits
read_digits-last val base table cs low values =
    rw (values (val % base) (mod-lt val {m = base} (omega arith))) (
      rw (below (val % base) base (mod-lt val {m = base} (omega arith)))
        (ap (λ v. read_digits base v cs) (div-add-mod' val base)))
  where
    below : (a b : ℕ) → a < b → ltb a b ≡ true
    below a b h = ground arith

read_digits-itoa_loop :
    (i val base : ℕ) (filled : List ℕ)
    → 2 ≤ base
    → base ≤ 16
    → val < base ^ i
    → read_digits base 0 (itoa_loop i val base filled) ≡ read_digits base val filled
unfolding itoa_loop
read_digits-itoa_loop zero val base filled low high fits =
    ap (λ v. read_digits base v filled) (omega (arith, pow-zero base))
read_digits-itoa_loop (suc i) val base filled low high fits = ground (
  arith,
  read_digits-itoa_loop i (val / base) base (get_or digits (val % base) 0 ∷ filled) low high
        (quotient_fits i val base low fits)
      ∙ read_digits-last val base digits filled low (λ d h. digit_value-digits d (omega arith)),
)

digits_lead : (d : ℕ) → 0 < d → d < 16 → get_or digits d 0 ≢ 48
digits_lead d some_digit h = ground arith

itoa_loop-zero : (i base : ℕ) (filled : List ℕ) → itoa_loop i 0 base filled ≡ filled
unfolding itoa_loop
itoa_loop-zero zero base filled = refl
itoa_loop-zero (suc i) base filled = refl

itoa_loop-HasLead :
    (i val base : ℕ) (filled : List ℕ)
    → 0 < val
    → 2 ≤ base
    → base ≤ 16
    → val < base ^ i
    → HasLead (itoa_loop i val base filled)
unfolding itoa_loop
itoa_loop-HasLead zero val base filled some_val low high fits =
    absurd (omega (arith, pow-zero base))
itoa_loop-HasLead (suc i) val base filled some_val low high fits =
    rw (not_zero val some_val) (elim (Bool-cases (val / base == 0)) [
      | inl last ↦
          rw (ap (λ q. itoa_loop i q base (get_or digits (val % base) 0 ∷ filled)) (zero_of last)) (
            rw (itoa_loop-zero i base (get_or digits (val % base) 0 ∷ filled)) (
              digits_lead (val % base) (left_over last)
                (omega (arith, mod-lt val {m = base} (omega arith)))))
      | inr more ↦
          itoa_loop-HasLead i (val / base) base (get_or digits (val % base) 0 ∷ filled)
            (ground arith) low high (quotient_fits i val base low fits)
    ])
  where
    not_zero : (n : ℕ) → 0 < n → (n == 0) ≡ false
    not_zero n h = ground arith

    zero_of : (val / base == 0) ≡ true → val / base ≡ 0
    zero_of e = ground arith

    left_over : (val / base == 0) ≡ true → 0 < val % base
    left_over e = omega (arith, div-add-mod' val base, ap (λ (q : ℕ). q * base) (zero_of e))

-- In a base from 2 to 16, a number above 0 and below 2 ^ 63 and the 60th power of the base is read
-- back from the text that `itoa` writes, every character of which is a digit of the base and the
-- first one is not zero.
pub read_digits-itoa :
    (val base : ℕ)
    → 0 < val
    → 2 ≤ base
    → base ≤ 16
    → val < 2 ^ 63
    → val < base ^ 60
    → (ds : List ℕ) × (itoa val base ≡ some ds) × (read_digits base 0 ds ≡ some val) × HasLead ds
unfolding itoa
read_digits-itoa val base some_val low high not_negative fits = (
  itoa_loop 60 val base [],
  ground arith,
  read_digits-itoa_loop 60 val base [] low high fits ∙ (unfold read_digits in refl),
  itoa_loop-HasLead 60 val base [] some_val low high fits,
)
