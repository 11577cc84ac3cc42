-- ===== src/User/Keyboard/Layout.antt =====
-- What shift and caps lock do to the letters.
use micron.Base.{
  ℕ, zero, suc, ◌+◌, ◌<◌, ◌≡◌, ◌≢◌, ◌⊎◌, inl, inr, refl, arith, ap, ◌∙◌, ltb, ltb→lt, leb, ◌==◌,
  not, ◌&&◌, ◌||◌, if◌then◌else◌, Bool, true, false, Bool-cases,
}
use micron.User.Keyboard.{kcascii}

unfoldable pub is_letter : ℕ → Bool
is_letter c = leb 97 c && leb c 122

all_below : (ℕ → Bool) → ℕ → Bool
all_below test zero = true
all_below test (suc n) = if test n then all_below test n else false

all_below-at : (test : ℕ → Bool) (n i : ℕ) → all_below test n ≡ true → i < n → test i ≡ true
unfolding all_below
all_below-at test zero i all h = absurd (omega arith)
all_below-at test (suc n) i all h =
    split (all_below-at test n i) (Bool-cases (test n)) (below_last i n h)
  where
    below_last : (i n : ℕ) → i < suc n → (i ≡ n) ⊎ (i < n)
    below_last i n h = omega arith

    split :
        (all_below test n ≡ true → i < n → test i ≡ true)
        → ((test n ≡ true) ⊎ (test n ≡ false))
        → ((i ≡ n) ⊎ (i < n))
        → test i ≡ true
    split later (inl e) (inl same) = ap test same ∙ e
    split later (inl e) (inr less) = later (ground arith) less
    split later (inr e) d = ground arith

-- With shift the letter's capital, with shift and caps lock the letter again.
unfoldable pub shifts_letter : ℕ → Bool
shifts_letter kc =
    not (is_letter (kcascii kc false false))
    || ((kcascii kc true false + 32 == kcascii kc false false)
        && (kcascii kc true true == kcascii kc false false))

no_letter : (kc : ℕ) → ltb kc 84 ≡ false → is_letter (kcascii kc false false) ≢ true
unfolding kcascii is_letter
no_letter kc e letter = ground arith

caps_alone : (kc : ℕ) → kcascii kc false true ≡ 0
unfolding kcascii
caps_alone kc = ground arith

from_table :
    (kc : ℕ)
    → shifts_letter kc ≡ true
    → is_letter (kcascii kc false false) ≡ true
    → (kcascii kc true false + 32 ≡ kcascii kc false false)
      × (kcascii kc true true ≡ kcascii kc false false)
      × (kcascii kc false true ≡ 0)
unfolding shifts_letter
from_table kc e letter = (ground arith, ground arith, caps_alone kc)

-- Each key that gives a letter gives its capital with shift, and the letter again with shift and caps
-- lock; with caps lock alone, no key gives a character.
kcascii-shift :
    (kc : ℕ)
    → is_letter (kcascii kc false false) ≡ true
    → (kcascii kc true false + 32 ≡ kcascii kc false false)
      × (kcascii kc true true ≡ kcascii kc false false)
      × (kcascii kc false true ≡ 0)
unfolding all_below shifts_letter is_letter kcascii
kcascii-shift kc letter = elim (Bool-cases (ltb kc 84)) [
  | inl e ↦ from_table kc (all_below-at shifts_letter 84 kc refl (ltb→lt kc 84 e)) letter
  | inr e ↦ absurd (no_letter kc e letter)
]
