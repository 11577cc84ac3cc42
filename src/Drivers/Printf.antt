-- ===== src/Drivers/Printf.antt =====
-- kernel/src/drivers/tty/printf.cpp: formatted printing. A character that is displayed is a character
-- of the result; the conversions of floating-point numbers are left out, and are `none`.
pub mod Convert
pub mod Counts
pub mod Decimals
pub mod Numbers
pub mod Formats
pub mod Hex
use micron.Base.{
  ℕ, zero, suc, ◌+◌, ◌-◌, ◌*◌, ◌/◌, ◌%◌, ◌^◌, Bool, true, false, not, ◌&&◌, ◌||◌, Option, none,
  some, List, [], ◌∷◌, ◌++◌, length, get_or, ltb, leb, ◌==◌, if◌then◌else◌, u8, u16, u32, ◌>>=◌,
}
use micron.Util.Text.{isdigit}

-- "0123456789", with "ABCDEF" behind it for base 16 and "abcdef" for base 17.
abbrev pub decimal_digits : List ℕ
decimal_digits = 48 ∷ 49 ∷ 50 ∷ 51 ∷ 52 ∷ 53 ∷ 54 ∷ 55 ∷ 56 ∷ 57 ∷ []

unfoldable pub digit_table : ℕ → List ℕ
digit_table base =
    if base == 16
    then decimal_digits ++ 65 ∷ 66 ∷ 67 ∷ 68 ∷ 69 ∷ 70 ∷ []
    else if base == 17
    then decimal_digits ++ 97 ∷ 98 ∷ 99 ∷ 100 ∷ 101 ∷ 102 ∷ []
    else decimal_digits

-- The loop that counts the places of a number; it runs at least once, and 64 rounds are enough.
unfoldable pub places : (rounds shifter base : ℕ) → ℕ
places zero shifter base = 0
places (suc rounds) shifter base =
    let rest = places rounds (shifter / base) base in if shifter / base == 0 then 1 else suc rest

-- The loop that fills the places, from the last one.
unfoldable pub fill_digits : (rounds i base : ℕ) → (digit filled : List ℕ) → List ℕ
fill_digits zero i base digit filled = filled
fill_digits (suc rounds) i base digit filled =
    let now = get_or digit (i % base) 0 ∷ filled in
    let rest = fill_digits rounds (i / base) base digit now in if i / base == 0 then now else rest

unfoldable pub repeated : (n c : ℕ) → List ℕ
repeated zero c = []
repeated (suc n) c = c ∷ repeated n c

-- What stands before the digits.
unfoldable pub sign_text : (negative plus_sign space_sign : Bool) → List ℕ
sign_text true plus_sign space_sign = 45 ∷ []
sign_text false true space_sign = 43 ∷ []
sign_text false false true = 32 ∷ []
sign_text false false false = []

unfoldable pub justified : (justify : Bool) → (padding text : List ℕ) → List ℕ
justified true padding text = text ++ padding
justified false padding text = padding ++ text

-- The buffers have 256 places, a NUL among them: `none` is a store past them.
unfoldable pub fits_buffer : List ℕ → Option (List ℕ)
fits_buffer text = if ltb (length text) 256 then some text else none

pub record Layout : Type 0 where
  pub plus_sign : Bool
  pub space_sign : Bool
  pub padding_no : ℕ
  pub justify : Bool
  pub zero_pad : Bool

-- `i` is the 64-bit pattern of an intmax_t. Its least value has no negation, and is `none`.
unfoldable pub int_str : (i base : ℕ) → Layout → Option (List ℕ)
int_str i base l =
    let negative = leb (2 ^ 63) i in
    let magnitude = if negative then 2 ^ 64 - i else i in
    let digit = digit_table base in
    let base' = if base == 17 then 16 else base in
    let b =
      sign_text negative l.plus_sign l.space_sign ++ fill_digits 64 magnitude base' digit [] in
    let padding = repeated (l.padding_no - length b) (if l.zero_pad then 48 else 32) in
    if i == 2 ^ 63 then none else fits_buffer (justified l.justify padding b)

-- An argument of the call: a word of 64 bits, or the characters that a pointer leads to.
pub data Arg : Type 0 where
  word : ℕ → Arg
  text : List ℕ → Arg

-- What has been displayed, and what `%n` has stored, the width of the store first.
pub record Out : Type 0 where
  pub shown : List ℕ
  pub chars : ℕ
  pub stores : List (ℕ × ℕ × ℕ)

unfoldable pub display_character : ℕ → Out → Out
display_character c o = record o { shown = o.shown ++ c ∷ []; chars = suc o.chars }

unfoldable pub display_string : List ℕ → Out → Out
display_string [] o = o
display_string (c ∷ cs) o = display_string cs (display_character c o)

-- What stands between the `%` and the specifier.
pub record Spec : Type 0 where
  pub left_justify : Bool
  pub plus_sign : Bool
  pub alt_form : Bool
  pub space_no_sign : Bool
  pub zero_pad : Bool
  pub length_spec : ℕ
  pub length_char : ℕ

abbrev pub no_spec : Spec
no_spec = record {
  left_justify = false;
  plus_sign = false;
  alt_form = false;
  space_no_sign = false;
  zero_pad = false;
  length_spec = 0;
  length_char = 0;
}

unfoldable pub is_flag : ℕ → Bool
is_flag c = (c == 45) || (c == 43) || (c == 35) || (c == 32) || (c == 48)

unfoldable pub set_spec_flag : ℕ → Spec → Spec
set_spec_flag c s = record s {
  left_justify = (c == 45) || s.left_justify;
  plus_sign = (c == 43) || s.plus_sign;
  alt_form = (c == 35) || s.alt_form;
  space_no_sign = (c == 32) || s.space_no_sign;
  zero_pad = (c == 48) || s.zero_pad;
}

unfoldable pub read_flags : List ℕ → Spec → List ℕ × Spec
read_flags [] s = ([], s)
read_flags (c ∷ format) s =
    let rest = read_flags format (set_spec_flag c s) in if is_flag c then rest else (c ∷ format, s)

unfoldable pub read_number : List ℕ → ℕ → List ℕ × ℕ
read_number [] n = ([], n)
read_number (c ∷ format) n =
    let rest = read_number format (n * 10 + (c - 48)) in if isdigit c then rest else (c ∷ format, n)

-- `va_arg(list, int)`; a negative width pads as 0 does.
unfoldable pub next_width : List Arg → Option (List Arg × ℕ)
next_width [] = none
next_width (text cs ∷ list) = none
next_width (word w ∷ list) = some (list, if ltb (u32 w) (2 ^ 31) then u32 w else 0)

-- A `*` in place of a number.
unfoldable pub read_star : List ℕ → List Arg → ℕ → Option (List ℕ × List Arg × ℕ)
read_star [] list n = some ([], list, n)
read_star (c ∷ format) list n =
    if c == 42
    then (do (list', w) ← next_width list; some (format, list', w))
    else some (c ∷ format, list, n)

-- The precision is read, and only the floating-point conversions use it.
unfoldable pub skip_precision : List ℕ → List Arg → Option (List ℕ × List Arg)
skip_precision [] list = some ([], list)
skip_precision (c ∷ format) list =
    if c == 46
    then (do (format', list', n) ← read_star (read_number format 0).0 list 0; some (format', list'))
    else some (c ∷ format, list)

unfoldable pub is_length : ℕ → Bool
is_length c = (c == 104) || (c == 108) || (c == 106) || (c == 122) || (c == 116) || (c == 76)

-- A second `h` is looked at and not passed over; a second `l` is passed over.
unfoldable pub second_length : ℕ → List ℕ → List ℕ × ℕ
second_length c [] = ([], c)
second_length c (d ∷ format) =
    if d == 104 then (d ∷ format, 72) else if d == 108 then (format, 113) else (d ∷ format, c)

unfoldable pub read_length : List ℕ → List ℕ × ℕ
read_length [] = ([], 0)
read_length (c ∷ format) = if is_length c then second_length c format else (c ∷ format, 0)
