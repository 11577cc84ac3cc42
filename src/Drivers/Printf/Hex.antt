-- ===== src/Drivers/Printf/Hex.antt =====
-- `%x` without a length reads an `unsigned int`.
use micron.Base.{
  ℕ, suc, ◌+◌, ◌≡◌, ap, sym, ◌∙◌, arith, Option, some, List, [], ◌∷◌, ◌++◌, length, length-append,
  u32, ◌>>=◌,
}
use micron.Util.Text.{isdigit}
use micron.Drivers.Printf.{
  Arg, word, Out, no_spec, int_str, display_string, is_flag, read_flags, read_number, read_star,
  skip_precision, is_length, read_length,
}
use micron.Drivers.Printf.Convert.{
  unsigned_value, alternate, show_number, convert, take_specifier, conversion, layout_of,
  vprintf_loop, vprintf,
}
use micron.Drivers.Printf.Formats.{NoPercent, vprintf_loop-plain, vprintf_loop_fuel}

module _ (a b : ℕ) (after : List ℕ) (same : u32 a ≡ u32 b) where
  conversion-hex :
      (o : Out)
      → conversion (120 ∷ after) (word a ∷ []) o ≡ conversion (120 ∷ after) (word b ∷ []) o
  unfolding conversion read_flags is_flag read_number isdigit read_star skip_precision read_length
      is_length take_specifier convert show_number unsigned_value alternate
  conversion-hex o =
      ap
        (λ (v : ℕ).
          (int_str v 17 (layout_of no_spec) >>= λ t. some ([], display_string t o))
          >>= λ (x : List Arg × Out). some (after, x.0, x.1))
        same

  vprintf_loop-hex :
      (f : ℕ) (o : Out)
      → vprintf_loop (suc f) (37 ∷ 120 ∷ after) (word a ∷ []) o
        ≡ vprintf_loop (suc f) (37 ∷ 120 ∷ after) (word b ∷ []) o
  unfolding vprintf_loop
  vprintf_loop-hex f o =
      ap (λ (m : Option (List ℕ × List Arg × Out)). m >>= λ r. vprintf_loop f r.0 r.1 r.2)
        (conversion-hex o)

-- `%x` among texts with no `%` displays the lower 32 bits of its argument: two words that agree in
-- them give the same text.
pub vprintf-hex :
    (before after : List ℕ) (a b : ℕ)
    → NoPercent before
    → u32 a ≡ u32 b
    → vprintf (before ++ 37 ∷ 120 ∷ after) (word a ∷ [])
      ≡ vprintf (before ++ 37 ∷ 120 ∷ after) (word b ∷ [])
unfolding vprintf
vprintf-hex before after a b p same =
    start a
    ∙ vprintf_loop-hex a b after same (suc (length after)) (display_string before o)
    ∙ sym (start b)
  where
    whole : List ℕ
    whole = before ++ 37 ∷ 120 ∷ after

    o : Out
    o = record { shown = []; chars = 0; stores = [] }

    count : length whole ≡ length before + suc (suc (length after))
    count = length-append before (37 ∷ 120 ∷ after)

    start :
        (w : ℕ)
        → vprintf_loop (length whole) whole (word w ∷ []) o
          ≡ vprintf_loop
              (suc (suc (length after)))
              (37 ∷ 120 ∷ after)
              (word w ∷ [])
              (display_string before o)
    start w =
        vprintf_loop-plain (length whole) before (37 ∷ 120 ∷ after) (word w ∷ []) o p
          (omega (arith, count))
        ∙ vprintf_loop_fuel (length whole) (suc (suc (length after))) (37 ∷ 120 ∷ after)
            (word w ∷ []) (display_string before o) (omega (arith, count)) (omega arith)
