-- ===== src/Drivers/Printf/Convert.antt =====
-- kernel/src/drivers/tty/printf.cpp: the conversions, and the loop of vprintf.
use micron.Base.{
  ℕ, zero, suc, ◌+◌, ◌-◌, ◌%◌, ◌^◌, Bool, ◌||◌, Option, none, some, List, [], ◌∷◌, length, ltb,
  ◌==◌, if◌then◌else◌, u8, u16, u32, u64, ◌>>=◌,
}
use micron.Drivers.Printf.{
  Arg, word, text, Out, Layout, Spec, no_spec, int_str, display_character, display_string,
  read_flags, read_number, read_star, skip_precision, read_length,
}

-- The 64-bit pattern of a signed number of `bits` bits.
unfoldable pub sign_extend : (bits w : ℕ) → ℕ
sign_extend bits w =
    let v = w % 2 ^ bits in if ltb v (2 ^ (bits - 1)) then v else v + 2 ^ 64 - 2 ^ bits

-- `va_arg` and the casts, by the length letter: 'H', 'h', 'l', 'q', 'j', 'z' and 't'. No letter is 0.
unfoldable pub unsigned_value : (length_char w : ℕ) → Option ℕ
unsigned_value length_char w =
    if length_char == 0
    then some (u32 w)
    else if length_char == 72
    then some (u8 w)
    else if length_char == 104
    then some (u16 w)
    else if (length_char == 108) || (length_char == 113) || (length_char == 106)
    then some (u64 w)
    else if (length_char == 122) || (length_char == 116)
    then some (u64 w)
    else none

unfoldable pub signed_value : (length_char w : ℕ) → Option ℕ
signed_value length_char w =
    if length_char == 0
    then some (sign_extend 32 w)
    else if length_char == 72
    then some (sign_extend 8 w)
    else if length_char == 104
    then some (sign_extend 16 w)
    else if (length_char == 108) || (length_char == 113) || (length_char == 106)
    then some (u64 w)
    else if (length_char == 122) || (length_char == 116)
    then some (u64 w)
    else none

-- How many bytes `%n` stores.
unfoldable pub store_width : ℕ → Option ℕ
store_width length_char =
    if length_char == 0
    then some 4
    else if length_char == 72
    then some 1
    else if length_char == 104
    then some 2
    else if (length_char == 108) || (length_char == 113) || (length_char == 106)
    then some 8
    else if (length_char == 122) || (length_char == 116)
    then some 8
    else none

unfoldable pub layout_of : Spec → Layout
layout_of s = record {
  plus_sign = s.plus_sign;
  space_sign = s.space_no_sign;
  padding_no = s.length_spec;
  justify = s.left_justify;
  zero_pad = s.zero_pad;
}

-- Displays a number; an unknown length letter displays nothing and takes no argument.
unfoldable pub show_number :
    (value : ℕ → ℕ → Option ℕ) (base : ℕ) → Spec → List Arg → Out → Option (List Arg × Out)
show_number value base s [] o = elim (value s.length_char 0) [ none ↦ some ([], o) | some i ↦ none ]
show_number value base s (text cs ∷ list) o = elim (value s.length_char 0) [
  | none ↦ some (text cs ∷ list, o)
  | some i ↦ none
]
show_number value base s (word w ∷ list) o = elim (value s.length_char w) [
  | none ↦ some (word w ∷ list, o)
  | some i ↦ do b ← int_str i base (layout_of s); some (list, display_string b o)
]

unfoldable pub show_character : List Arg → Out → Option (List Arg × Out)
show_character [] o = none
show_character (text cs ∷ list) o = none
show_character (word w ∷ list) o = some (list, display_character (u8 w) o)

unfoldable pub show_text : List Arg → Out → Option (List Arg × Out)
show_text [] o = none
show_text (word w ∷ list) o = none
show_text (text cs ∷ list) o = some (list, display_string cs o)

unfoldable pub store_chars : Spec → List Arg → Out → Option (List Arg × Out)
store_chars s [] o = elim (store_width s.length_char) [ none ↦ some ([], o) | some bytes ↦ none ]
store_chars s (text cs ∷ list) o = elim (store_width s.length_char) [
  | none ↦ some (text cs ∷ list, o)
  | some bytes ↦ none
]
store_chars s (word p ∷ list) o = elim (store_width s.length_char) [
  | none ↦ some (word p ∷ list, o)
  | some bytes ↦ some (list, record o { stores = (bytes, p, o.chars) ∷ o.stores })
]

unfoldable pub alternate : Bool → List ℕ → Out → Out
alternate alt_form prefix o = if alt_form then display_string prefix o else o

unfoldable pub is_float : ℕ → Bool
is_float c = (c == 101) || (c == 69) || (c == 102) || (c == 70) || (c == 103) || (c == 71)

-- The specifiers, in the order o, p, X, x, u, d and i, c, s, n; any other displays nothing.
unfoldable pub convert : (specifier : ℕ) → Spec → List Arg → Out → Option (List Arg × Out)
convert specifier s list o =
    if specifier == 111
    then show_number unsigned_value 8 s list (alternate s.alt_form (48 ∷ []) o)
    else if specifier == 112
    then show_number unsigned_value 16 (record s { length_char = 122 }) list o
    else if specifier == 88
    then show_number unsigned_value 16 s list (alternate s.alt_form (48 ∷ 120 ∷ []) o)
    else if specifier == 120
    then show_number unsigned_value 17 s list (alternate s.alt_form (48 ∷ 120 ∷ []) o)
    else if specifier == 117
    then show_number unsigned_value 10 s list o
    else if (specifier == 100) || (specifier == 105)
    then show_number signed_value 10 s list o
    else if specifier == 99
    then show_character list o
    else if specifier == 115
    then show_text list o
    else if specifier == 110
    then store_chars s list o
    else if is_float specifier
    then none
    else some (list, o)

-- At the end of the text the specifier is its NUL, and the loop goes on behind it.
unfoldable pub take_specifier : List ℕ → Spec → List Arg → Out → Option (List ℕ × List Arg × Out)
take_specifier [] s list o = none
take_specifier (c ∷ format) s list o = do (list', o') ← convert c s list o; some (format, list', o')

-- From behind a `%` to behind the specifier.
unfoldable pub conversion : List ℕ → List Arg → Out → Option (List ℕ × List Arg × Out)
conversion format list o = do
  let (format₁, s) = read_flags format no_spec
  let (format₂, n) = read_number format₁ 0
  (format₃, list₁, width) ← read_star format₂ list n
  (format₄, list₂) ← skip_precision format₃ list₁
  let (format₅, l) = read_length format₄
  take_specifier format₅ (record s { length_spec = width; length_char = l }) list₂ o

-- The loop of `vprintf`; each round takes a character of the format at least. `none` is a run with no
-- defined outcome, or fuel that is used up.
unfoldable pub vprintf_loop : (fuel : ℕ) → List ℕ → List Arg → Out → Option Out
vprintf_loop fuel [] list o = some o
vprintf_loop zero (c ∷ format) list o = none
vprintf_loop (suc fuel) (c ∷ format) list o =
    let converted = conversion format list o >>= λ r. vprintf_loop fuel r.0 r.1 r.2 in
    let plain = vprintf_loop fuel format list (display_character c o) in
    if c == 37 then converted else plain

unfoldable pub vprintf : List ℕ → List Arg → Option Out
vprintf format list =
    vprintf_loop (length format) format list (record { shown = []; chars = 0; stores = [] })
