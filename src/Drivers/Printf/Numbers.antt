-- ===== src/Drivers/Printf/Numbers.antt =====
-- The numbers that are printed are read back.
use native.Mathlib.Nat.{pow-zero, pow-le-pow_left}
use mathlib.Core.Path.{subst}
use micron.Base.{
  ℕ, zero, suc, ◌+◌, ◌-◌, ◌/◌, ◌%◌, ◌^◌, ◌≤◌, ◌<◌, max, ◌≡◌, ◌⊎◌, inl, inr, refl, ap, sym, ◌∙◌,
  arith, true, false, some, List, [], ◌∷◌, ◌++◌, length, length-append, get_or, ltb, leb, ◌==◌,
  if◌then◌else◌, Bool-cases,
}
use micron.Util.Text.Digits.{digit_value, read_digits, quotient_fits, read_digits-last}
use micron.Drivers.Printf.{
  digit_table, places, fill_digits, repeated, sign_text, justified, fits_buffer, Layout, int_str,
}

-- The bases that the conversions use; 17 stands for base 16 in small letters.
abbrev pub IsBase : ℕ → Type 0
IsBase c = (c ≡ 8) ⊎ (c ≡ 10) ⊎ (c ≡ 16) ⊎ (c ≡ 17)

abbrev pub radix : ℕ → ℕ
radix c = if c == 17 then 16 else c

-- Every digit of a base stands for itself.
abbrev HasDigits : ℕ → Type 0
HasDigits c = (d : ℕ) → d < radix c → digit_value (get_or (digit_table c) d 0) ≡ some d

HasDigits-IsBase : (c : ℕ) → IsBase c → HasDigits c
unfolding digit_value digit_table
HasDigits-IsBase c (inl e) = subst HasDigits (sym e) (λ d h. ground arith)
HasDigits-IsBase c (inr (inl e)) = subst HasDigits (sym e) (λ d h. ground arith)
HasDigits-IsBase c (inr (inr (inl e))) = subst HasDigits (sym e) (λ d h. ground arith)
HasDigits-IsBase c (inr (inr (inr e))) = subst HasDigits (sym e) (λ d h. ground arith)

radix-le : (c : ℕ) → IsBase c → (8 ≤ radix c) × (radix c ≤ 16)
radix-le c h = ground arith

module _ (base : ℕ) (digit : List ℕ) (low : 2 ≤ base)
    (digits : (d : ℕ) → d < base → digit_value (get_or digit d 0) ≡ some d) where
  read_digits-fill_digits :
      (r i : ℕ) (filled : List ℕ)
      → i < base ^ r
      → read_digits base 0 (fill_digits r i base digit filled) ≡ read_digits base i filled
  unfolding fill_digits
  read_digits-fill_digits zero i filled h =
      ap (λ n. read_digits base n filled) (omega (arith, pow-zero base))
  read_digits-fill_digits (suc r) i filled h = elim (Bool-cases (i / base == 0)) [
    | inl e ↦ rw e (
        ap (λ q. read_digits base q (get_or digit (i % base) 0 ∷ filled)) (zero_first e)
        ∙ read_digits-last i base digit filled low digits)
    | inr e ↦ rw e (
        read_digits-fill_digits r (i / base) (get_or digit (i % base) 0 ∷ filled)
          (quotient_fits r i base low h)
        ∙ read_digits-last i base digit filled low digits)
  ]
    where
      zero_first : (i / base == 0) ≡ true → 0 ≡ i / base
      zero_first e = ground arith

length-fill_digits :
    (r i base : ℕ) (digit filled : List ℕ)
    → length (fill_digits r i base digit filled) ≡ places r i base + length filled
unfolding fill_digits places
length-fill_digits zero i base digit filled = omega arith
length-fill_digits (suc r) i base digit filled =
    ground (arith, length-fill_digits r (i / base) base digit (get_or digit (i % base) 0 ∷ filled))

places-le : (r i base : ℕ) → places r i base ≤ r
unfolding places
places-le zero i base = omega arith
places-le (suc r) i base = ground (arith, places-le r (i / base) base)

length-repeated : (n c : ℕ) → length (repeated n c) ≡ n
unfolding repeated
length-repeated zero c = refl
length-repeated (suc n) c = omega (arith, length-repeated n c)

read_digits-zeros :
    (base n : ℕ) (cs : List ℕ)
    → 2 ≤ base
    → read_digits base 0 (repeated n 48 ++ cs) ≡ read_digits base 0 cs
unfolding read_digits repeated digit_value
read_digits-zeros base zero cs low = refl
read_digits-zeros base (suc n) cs low = rw (positive base low) (
    ap (λ v. read_digits base v (repeated n 48 ++ cs)) (omega arith)
    ∙ read_digits-zeros base n cs low)
  where
    positive : (m : ℕ) → 2 ≤ m → ltb 0 m ≡ true
    positive m h = ground arith

abbrev pub zero_padded : ℕ → Layout
zero_padded n = record {
  plus_sign = false;
  space_sign = false;
  padding_no = n;
  justify = false;
  zero_pad = true;
}

small_fits : (i base : ℕ) → i < 2 ^ 63 → 8 ≤ base → i < base ^ 64
small_fits i base h low = omega (arith, pow-le-pow_left {n = 2} {m = base} (omega arith) 64)

-- The digits of a number in a base.
abbrev digits_of : ℕ → ℕ → List ℕ
digits_of i c = fill_digits 64 i (radix c) (digit_table c) []

fits_buffer-short : (text : List ℕ) → length text < 256 → fits_buffer text ≡ some text
unfolding fits_buffer
fits_buffer-short text h = ground arith

int_str-digits :
    (i c n : ℕ)
    → i < 2 ^ 63
    → int_str i c (zero_padded n)
      ≡ fits_buffer (repeated (n - length (digits_of i c)) 48 ++ digits_of i c)
unfolding int_str sign_text justified
int_str-digits i c n h = rw (small i h) (rw (least i h) refl)
  where
    small : (m : ℕ) → m < 2 ^ 63 → leb (2 ^ 63) m ≡ false
    small m q = ground arith

    least : (m : ℕ) → m < 2 ^ 63 → (m == 2 ^ 63) ≡ false
    least m q = ground arith

-- A number below 2 ^ 63, printed in base 8, 10 or 16 with leading zeros up to a width of at most 255,
-- fits the buffer; every character of the text is a digit of the base, the number is read back from
-- it, and it takes the width or its own places if they are more.
pub read_digits-int_str :
    (i c n : ℕ)
    → IsBase c
    → i < 2 ^ 63
    → n < 256
    → (b : List ℕ) × (int_str i c (zero_padded n) ≡ some b)
      × (read_digits (radix c) 0 b ≡ some i)
      × (length b ≡ max n (places 64 i (radix c)))
read_digits-int_str i c n base small width = (
  zeros ++ digits_of i c,
  int_str-digits i c n small
      ∙ fits_buffer-short (zeros ++ digits_of i c) (omega (arith, whole, count, bound)),
  read_digits-zeros (radix c) (n - length (digits_of i c)) (digits_of i c)
        (omega (arith, radix-le c base))
      ∙ read_digits-fill_digits (radix c) (digit_table c) (omega (arith, radix-le c base))
          (HasDigits-IsBase c base) 64 i [] (small_fits i (radix c) small (radix-le c base).0)
      ∙ (unfold read_digits in refl),
  omega (arith, whole, count),
)
  where
    zeros : List ℕ
    zeros = repeated (n - length (digits_of i c)) 48

    count : length (digits_of i c) ≡ places 64 i (radix c)
    count = omega (arith, length-fill_digits 64 i (radix c) (digit_table c) [])

    bound : places 64 i (radix c) ≤ 64
    bound = places-le 64 i (radix c)

    whole : length (zeros ++ digits_of i c) ≡ (n - length (digits_of i c)) + length (digits_of i c)
    whole = omega (
      arith,
      length-append {0} zeros (digits_of i c),
      length-repeated (n - length (digits_of i c)) 48,
    )

-- A number below zero is printed as its sign and the digits of its opposite; where it is padded with
-- zeros, they stand before the sign.
pub int_str-negative :
    (i c n : ℕ)
    → 2 ^ 63 < i
    → i < 2 ^ 64
    → int_str i c (zero_padded n)
      ≡ fits_buffer (
          repeated (n - suc (length (digits_of (2 ^ 64 - i) c))) 48
          ++ 45 ∷ digits_of (2 ^ 64 - i) c)
unfolding int_str sign_text justified
int_str-negative i c n low high = rw (negative i low) (rw (least i low) refl)
  where
    negative : (m : ℕ) → 2 ^ 63 < m → leb (2 ^ 63) m ≡ true
    negative m q = ground arith

    least : (m : ℕ) → 2 ^ 63 < m → (m == 2 ^ 63) ≡ false
    least m q = ground arith
