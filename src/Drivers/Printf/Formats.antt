-- ===== src/Drivers/Printf/Formats.antt =====
-- The format is read from left to right: each round of the loop shortens it, and what has been read
-- plays no further part.
use micron.Base.{
  ℕ, zero, suc, ◌+◌, ◌-◌, ◌*◌, ◌≤◌, ◌≡◌, ◌≢◌, refl, ap₂, ◌∙◌, arith, Option, none, some, List, [],
  ◌∷◌, ◌++◌, length, ◌==◌, if◌then◌else◌, ◌>>=◌,
}
use micron.Drivers.Printf.{
  Arg, Out, Spec, no_spec, display_character, display_string, set_spec_flag, read_flags,
  read_number, next_width, read_star, skip_precision, second_length, read_length,
}
use micron.Drivers.Printf.Convert.{convert, take_specifier, conversion, vprintf_loop, vprintf}
use micron.Drivers.Printf.Counts.{
  Ensures, Ensures->>=, Ensures-if, anything, Counted, vprintf_loop-Counted,
}

-- `vprintf` returns the number of characters that it has displayed, whatever the format and the
-- arguments are, where it has an outcome.
vprintf-Counted : (format : List ℕ) (list : List Arg) → Ensures Counted (vprintf format list)
unfolding vprintf
vprintf-Counted format list =
    vprintf_loop-Counted (length format) format list (record { shown = []; chars = 0; stores = [] })
      refl

length-read_flags : (format : List ℕ) (s : Spec) → length (read_flags format s).0 ≤ length format
unfolding read_flags
length-read_flags [] s = omega arith
length-read_flags (c ∷ format) s = ground (arith, length-read_flags format (set_spec_flag c s))

length-read_number : (format : List ℕ) (n : ℕ) → length (read_number format n).0 ≤ length format
unfolding read_number
length-read_number [] n = omega arith
length-read_number (c ∷ format) n = ground (arith, length-read_number format (n * 10 + (c - 48)))

module _ (bound : ℕ) where
  abbrev AtMost₂ : List ℕ × List Arg → Type 0
  AtMost₂ r = length r.0 ≤ bound

  abbrev AtMost : List ℕ × List Arg × ℕ → Type 0
  AtMost r = length r.0 ≤ bound

  abbrev AtMostOut : List ℕ × List Arg × Out → Type 0
  AtMostOut r = length r.0 ≤ bound

  length-read_star :
      (format : List ℕ) (list : List Arg) (n : ℕ)
      → length format ≤ bound
      → Ensures AtMost (read_star format list n)
  unfolding read_star
  length-read_star [] list n h = h
  length-read_star (c ∷ format) list n h =
      Ensures-if AtMost (c == 42) _ _
        (Ensures->>= (λ r. Unit {0}) AtMost (next_width list) _ (anything (next_width list))
          (λ r t. omega arith))
        h

  length-skip_precision :
      (format : List ℕ) (list : List Arg)
      → length format ≤ bound
      → Ensures AtMost₂ (skip_precision format list)
  unfolding skip_precision
  length-skip_precision [] list h = h
  length-skip_precision (c ∷ format) list h =
      Ensures-if AtMost₂ (c == 46) _ _
        (Ensures->>= AtMost AtMost₂ (read_star (read_number format 0).0 list 0) _
          (length-read_star (read_number format 0).0 list 0
            (omega (arith, length-read_number format 0)))
          (λ r p. p))
        h

  length-read_length :
      (format : List ℕ) → length format ≤ bound → length (read_length format).0 ≤ bound
  unfolding read_length second_length
  length-read_length [] h = h
  length-read_length (c ∷ []) h = ground arith
  length-read_length (c ∷ d ∷ format) h = ground arith

  length-take_specifier :
      (format : List ℕ) (s : Spec) (list : List Arg) (o : Out)
      → length format ≤ bound
      → Ensures AtMostOut (take_specifier format s list o)
  unfolding take_specifier
  length-take_specifier [] s list o h = tt
  length-take_specifier (c ∷ format) s list o h =
      Ensures->>= (λ r. Unit {0}) AtMostOut (convert c s list o) _ (anything (convert c s list o))
        (λ r t. omega arith)

length-conversion :
    (format : List ℕ) (list : List Arg) (o : Out)
    → Ensures (AtMostOut (length format)) (conversion format list o)
unfolding conversion
length-conversion format list o =
    Ensures->>= (AtMost (length format)) (AtMostOut (length format)) (read_star rest list width) _
      (length-read_star (length format) rest list width (
        omega (
          arith,
          length-read_number (read_flags format no_spec).0 0,
          length-read_flags format no_spec,
        )))
      λ r p.
        Ensures->>= (AtMost₂ (length format)) (AtMostOut (length format)) (skip_precision r.0 r.1) _
          (length-skip_precision (length format) r.0 r.1 p)
          λ q h.
            length-take_specifier (length format) _ _ q.1 o
              (length-read_length (length format) q.0 h)
  where
    rest : List ℕ
    rest = (read_number (read_flags format no_spec).0 0).0

    width : ℕ
    width = (read_number (read_flags format no_spec).0 0).1

>>=-congr {ℓ κ} :
    {A : Type ℓ} {B : Type κ} (P : A → Type 0) (m : Option A) (f g : A → Option B)
    → Ensures P m
    → ((a : A) → P a → f a ≡ g a)
    → (m >>= f) ≡ (m >>= g)
>>=-congr P none f g h same = refl
>>=-congr P (some a) f g h same = same a h

-- From a unit of fuel for each character of the format on, more of it changes nothing.
pub vprintf_loop_fuel :
    (f g : ℕ) (format : List ℕ) (list : List Arg) (o : Out)
    → length format ≤ f
    → length format ≤ g
    → vprintf_loop f format list o ≡ vprintf_loop g format list o
unfolding vprintf_loop
vprintf_loop_fuel f g [] list o hf hg = refl
vprintf_loop_fuel zero g (c ∷ format) list o hf hg = absurd (omega arith)
vprintf_loop_fuel (suc f) zero (c ∷ format) list o hf hg = absurd (omega arith)
vprintf_loop_fuel (suc f) (suc g) (c ∷ format) list o hf hg =
    ap₂ (λ (x y : Option Out). if c == 37 then x else y)
      (>>=-congr (AtMostOut (length format)) (conversion format list o) _ _
        (length-conversion format list o)
        λ r p. vprintf_loop_fuel f g r.0 r.1 r.2 (omega arith) (omega arith))
      (vprintf_loop_fuel f g format list (display_character c o) (omega arith) (omega arith))

-- No `%` stands in the text.
abbrev pub NoPercent : List ℕ → Type 0
NoPercent [] = Unit
NoPercent (c ∷ cs) = (c ≢ 37) × NoPercent cs

pub step_plain :
    (f c : ℕ) (format : List ℕ) (list : List Arg) (o : Out)
    → c ≢ 37
    → vprintf_loop (suc f) (c ∷ format) list o ≡ vprintf_loop f format list (display_character c o)
unfolding vprintf_loop
step_plain f c format list o ne = ground arith

pub vprintf_loop-plain :
    (f : ℕ) (plain rest : List ℕ) (list : List Arg) (o : Out)
    → NoPercent plain
    → length plain + length rest ≤ f
    → vprintf_loop f (plain ++ rest) list o ≡ vprintf_loop f rest list (display_string plain o)
unfolding display_string
vprintf_loop-plain f [] rest list o h enough = refl
vprintf_loop-plain zero (c ∷ plain) rest list o h enough = absurd (omega arith)
vprintf_loop-plain (suc f) (c ∷ plain) rest list o (ne, h) enough =
    step_plain f c (plain ++ rest) list o ne
    ∙ vprintf_loop-plain f plain rest list (display_character c o) h (omega arith)
    ∙ vprintf_loop_fuel f (suc f) rest list (display_string plain (display_character c o))
        (omega arith) (omega arith)
