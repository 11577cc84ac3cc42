-- ===== src/Drivers/Printf/Decimals.antt =====
-- A number in the middle of a text.
use mathlib.Core.List.{append-nil, append_assoc}
use micron.Base.{
  ℕ, zero, suc, ◌+◌, ◌-◌, ◌^◌, ◌≤◌, ◌<◌, ◌≡◌, refl, ap, sym, ◌∙◌, arith, inl, inr, Option, some,
  List, [], ◌∷◌, ◌++◌, length, length-append, max, ◌>>=◌,
}
use micron.Drivers.Printf.{
  Arg, word, Out, no_spec, int_str, places, repeated, display_character, display_string, is_flag,
  read_flags, read_number, read_star, skip_precision, is_length, read_length,
}
use micron.Drivers.Printf.Convert.{
  sign_extend, signed_value, show_number, convert, take_specifier, conversion, layout_of,
  vprintf_loop, vprintf,
}
use micron.Util.Text.{isdigit}
use micron.Drivers.Printf.Numbers.{zero_padded, read_digits-int_str}
use micron.Util.Text.Digits.{read_digits}
use micron.Drivers.Printf.Formats.{NoPercent, step_plain, vprintf_loop-plain, vprintf_loop_fuel}

no_padding : (n c : ℕ) → repeated (0 - n) c ≡ []
unfolding repeated
no_padding n c = ap (λ k. repeated k c) (zero_less n)
  where
    zero_less : (n : ℕ) → 0 - n ≡ 0
    zero_less n = omega arith

int_str-plain : (i : ℕ) → int_str i 10 (layout_of no_spec) ≡ int_str i 10 (zero_padded 0)
unfolding int_str layout_of
int_str-plain i = rw (no_padding _ 32) (rw (no_padding _ 48) refl)

all_plain :
    (f : ℕ) (t : List ℕ) (o : Out)
    → NoPercent t
    → length t ≤ f
    → vprintf_loop f t [] o ≡ some (display_string t o)
unfolding vprintf_loop display_string
all_plain f [] o q enough = refl
all_plain zero (c ∷ t) o q enough = absurd (omega arith)
all_plain (suc f) (c ∷ t) o (ne, q) enough =
    step_plain f c t [] o ne ∙ all_plain f t (display_character c o) q (omega arith)

module _ (w : ℕ) (b : List ℕ) (after : List ℕ)
    (e : int_str (sign_extend 32 w) 10 (layout_of no_spec) ≡ some b) where
  conversion-decimal :
      (o : Out) → conversion (100 ∷ after) (word w ∷ []) o ≡ some (after, [], display_string b o)
  unfolding conversion read_flags is_flag read_number isdigit read_star skip_precision read_length
      is_length take_specifier convert show_number signed_value
  conversion-decimal o =
      ap
        (λ (m : Option (List ℕ)).
          (m >>= λ t. some ([], display_string t o)) >>= λ (x : List Arg × Out).
          some (after, x.0, x.1))
        e

  vprintf_loop-decimal :
      (o : Out)
      → NoPercent after
      → vprintf_loop (suc (suc (length after))) (37 ∷ 100 ∷ after) (word w ∷ []) o
        ≡ some (display_string after (display_string b o))
  unfolding vprintf_loop
  vprintf_loop-decimal o q =
      ap
        (λ (m : Option (List ℕ × List Arg × Out)).
          m >>= λ r. vprintf_loop (suc (length after)) r.0 r.1 r.2)
        (conversion-decimal o)
      ∙ all_plain (suc (length after)) after (display_string b o) q (omega arith)

shown-display_string : (cs : List ℕ) (o : Out) → (display_string cs o).shown ≡ o.shown ++ cs
unfolding display_string display_character
shown-display_string [] o = sym (append-nil o.shown)
shown-display_string (c ∷ cs) o =
    shown-display_string cs (display_character c o) ∙ append_assoc o.shown (c ∷ []) cs

abbrev start : Out
start = record { shown = []; chars = 0; stores = [] }

vprintf-number :
    (before after : List ℕ) (w : ℕ) (b : List ℕ)
    → NoPercent before
    → NoPercent after
    → int_str (sign_extend 32 w) 10 (layout_of no_spec) ≡ some b
    → vprintf (before ++ 37 ∷ 100 ∷ after) (word w ∷ [])
      ≡ some (display_string after (display_string b (display_string before start)))
unfolding vprintf
vprintf-number before after w b p q e =
    vprintf_loop-plain (length whole) before (37 ∷ 100 ∷ after) (word w ∷ []) start p
      (omega (arith, count))
    ∙ vprintf_loop_fuel (length whole) (suc (suc (length after))) (37 ∷ 100 ∷ after) (word w ∷ [])
        (display_string before start) (omega (arith, count)) (omega arith)
    ∙ vprintf_loop-decimal w b after e (display_string before start) q
  where
    whole : List ℕ
    whole = before ++ 37 ∷ 100 ∷ after

    count : length whole ≡ length before + suc (suc (length after))
    count = length-append before (37 ∷ 100 ∷ after)

not_negative : (w : ℕ) → w < 2 ^ 31 → sign_extend 32 w ≡ w
unfolding sign_extend
not_negative w h = ground arith

-- `%d` between two texts with no `%` displays the texts with the number between them, for a number
-- that is not negative: decimal digits only, which read back as the number, and no more of them than
-- the number has places.
pub vprintf-decimal :
    (before after : List ℕ) (w : ℕ)
    → NoPercent before
    → NoPercent after
    → w < 2 ^ 31
    → (b : List ℕ) × (o : Out) × (vprintf (before ++ 37 ∷ 100 ∷ after) (word w ∷ []) ≡ some o)
      × (o.shown ≡ before ++ b ++ after)
      × (read_digits 10 0 b ≡ some w)
      × (length b ≡ places 64 w 10)
vprintf-decimal before after w p q small =
    printed (read_digits-int_str w 10 0 (inr (inl refl)) (omega arith) (omega arith))
  where
    printed :
        (t : List ℕ) × (int_str w 10 (zero_padded 0) ≡ some t)
          × (read_digits 10 0 t ≡ some w)
          × (length t ≡ max 0 (places 64 w 10))
        → (b : List ℕ) × (o : Out) × (vprintf (before ++ 37 ∷ 100 ∷ after) (word w ∷ []) ≡ some o)
          × (o.shown ≡ before ++ b ++ after)
          × (read_digits 10 0 b ≡ some w)
          × (length b ≡ places 64 w 10)
    printed (b, e, value, size) = (
      b,
      display_string after (display_string b (display_string before start)),
      vprintf-number before after w b p q (
          int_str-plain (sign_extend 32 w)
          ∙ ap (λ i. int_str i 10 (zero_padded 0)) (not_negative w small)
          ∙ e),
      shown-display_string after (display_string b (display_string before start))
          ∙ ap (λ t. t ++ after)
              (shown-display_string b (display_string before start)
                ∙ ap (λ t. t ++ b) (shown-display_string before start)),
      value,
      omega (arith, size),
    )
