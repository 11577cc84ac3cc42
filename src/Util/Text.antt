-- ===== src/Util/Text.antt =====
-- kernel/src/util/kutil.cpp: text. A string is the list of its characters before the NUL.
pub mod Digits
pub mod Prefix
use micron.Base.{
  ℕ, zero, suc, ◌/◌, ◌%◌, ◌^◌, Option, none, some, Bool, true, false, List, [], ◌∷◌, ◌++◌, length,
  get_or, ltb, leb, ◌==◌, ◌&&◌, if◌then◌else◌,
}

-- "0123456789abcdef"
abbrev pub digits : List ℕ
digits = 48 ∷ 49 ∷ 50 ∷ 51 ∷ 52 ∷ 53 ∷ 54 ∷ 55 ∷ 56 ∷ 57 ∷ 97 ∷ 98 ∷ 99 ∷ 100 ∷ 101 ∷ 102 ∷ []

-- `i` cells of the buffer are left below the ones filled; `val` is not negative.
unfoldable pub itoa_loop : (i val base : ℕ) → List ℕ → List ℕ
itoa_loop zero val base filled = filled
itoa_loop (suc i) val base filled =
    if val == 0
    then filled
    else itoa_loop i (val / base) base (get_or digits (val % base) 0 ∷ filled)

-- `val` is the 64-bit pattern of a `long int`. The digits of a negative number would be read before the
-- table, which is `none`.
unfoldable pub itoa : (val base : ℕ) → Option (List ℕ)
itoa val base = if ltb val (2 ^ 63) then some (itoa_loop 60 val base []) else none

-- Only the characters of the left string are compared.
unfoldable pub strcomp : List ℕ → List ℕ → Bool
strcomp [] rhs = true
strcomp (c ∷ lhs) [] = false
strcomp (c ∷ lhs) (d ∷ rhs) = if c == d then strcomp lhs rhs else false

unfoldable pub strlen : List ℕ → ℕ
strlen [] = 0
strlen (c ∷ str) = suc (strlen str)

unfoldable pub strcat : List ℕ → List ℕ → List ℕ
strcat [] src = src
strcat (c ∷ dest) src = c ∷ strcat dest src

unfoldable pub isdigit : ℕ → Bool
isdigit c = leb 48 c && leb c 57
