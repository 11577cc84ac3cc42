-- ===== src/Drivers/Printf/Counts.antt =====
-- `vprintf` returns the number of characters that it displays.
use micron.Base.{
  ℕ, zero, suc, ◌≡◌, arith, Bool, true, false, Option, none, some, List, [], ◌∷◌, length,
  length-append, ◌==◌, if◌then◌else◌, ◌>>=◌, u8, ◌||◌,
}
use micron.Drivers.Printf.{
  Arg, word, text, Out, Spec, int_str, display_character, display_string, read_star, skip_precision,
}
use micron.Drivers.Printf.Convert.{
  store_width, layout_of, show_number, show_character, show_text, store_chars, alternate, is_float,
  convert, take_specifier, conversion, vprintf_loop,
}

-- What holds of each outcome that a step has.
abbrev pub Ensures {ℓ} : {A : Type ℓ} → (A → Type 0) → Option A → Type 0
Ensures P none = Unit
Ensures P (some a) = P a

pub Ensures->>= {ℓ κ} :
    {A : Type ℓ} {B : Type κ} (P : A → Type 0) (Q : B → Type 0) (m : Option A) (f : A → Option B)
    → Ensures P m
    → ((a : A) → P a → Ensures Q (f a))
    → Ensures Q (m >>= f)
Ensures->>= P Q none f h k = tt
Ensures->>= P Q (some a) f h k = k a h

-- `chars` counts the characters on the screen.
abbrev pub Counted : Out → Type 0
Counted o = o.chars ≡ length o.shown

abbrev CountedWith : List Arg × Out → Type 0
CountedWith r = Counted r.1

display_character-Counted : (c : ℕ) (o : Out) → Counted o → Counted (display_character c o)
unfolding display_character
display_character-Counted c o h = omega (arith, length-append {0} o.shown (c ∷ []))

display_string-Counted : (cs : List ℕ) (o : Out) → Counted o → Counted (display_string cs o)
unfolding display_string
display_string-Counted [] o h = h
display_string-Counted (c ∷ cs) o h =
    display_string-Counted cs (display_character c o) (display_character-Counted c o h)

show_number-Counted :
    (value : ℕ → ℕ → Option ℕ) (base : ℕ) (s : Spec) (list : List Arg) (o : Out)
    → Counted o
    → Ensures CountedWith (show_number value base s list o)
unfolding show_number
show_number-Counted value base s [] o h =
    elim (value s.length_char 0)
      as (λ r.
        Ensures CountedWith
          (elim r as (λ _. Option (List Arg × Out)) [ none ↦ some ([], o) | some i ↦ none ])) [
            | none ↦ h
            | some i ↦ tt
          ]
show_number-Counted value base s (text cs ∷ list) o h =
    elim (value s.length_char 0)
      as (λ r. Ensures CountedWith (elim r as (λ _. Option (List Arg × Out)) [
        | none ↦ some (text cs ∷ list, o)
        | some i ↦ none
      ])) [ none ↦ h | some i ↦ tt ]
show_number-Counted value base s (word w ∷ list) o h =
    elim (value s.length_char w)
      as (λ r. Ensures CountedWith (elim r as (λ _. Option (List Arg × Out)) [
        | none ↦ some (word w ∷ list, o)
        | some i ↦ int_str i base (layout_of s) >>= λ b. some (list, display_string b o)
      ])) [
        | none ↦ h
        | some i ↦
            Ensures->>= (λ b. Unit {0}) CountedWith (int_str i base (layout_of s))
              (λ b. some (list, display_string b o)) (anything (int_str i base (layout_of s)))
              (λ b t. display_string-Counted b o h)
      ]
  where
    anything : (m : Option (List ℕ)) → Ensures (λ b. Unit {0}) m
    anything none = tt
    anything (some b) = tt

store_chars-Counted :
    (s : Spec) (list : List Arg) (o : Out) → Counted o → Ensures CountedWith (store_chars s list o)
unfolding store_chars
store_chars-Counted s [] o h =
    elim (store_width s.length_char)
      as (λ r.
        Ensures CountedWith
          (elim r as (λ _. Option (List Arg × Out)) [ none ↦ some ([], o) | some b ↦ none ])) [
            | none ↦ h
            | some b ↦ tt
          ]
store_chars-Counted s (text cs ∷ list) o h =
    elim (store_width s.length_char)
      as (λ r. Ensures CountedWith (elim r as (λ _. Option (List Arg × Out)) [
        | none ↦ some (text cs ∷ list, o)
        | some b ↦ none
      ])) [ none ↦ h | some b ↦ tt ]
store_chars-Counted s (word p ∷ list) o h =
    elim (store_width s.length_char)
      as (λ r. Ensures CountedWith (elim r as (λ _. Option (List Arg × Out)) [
        | none ↦ some (word p ∷ list, o)
        | some b ↦ some (list, record o { stores = (b, p, o.chars) ∷ o.stores })
      ])) [ none ↦ h | some b ↦ h ]

show_character-Counted :
    (list : List Arg) (o : Out) → Counted o → Ensures CountedWith (show_character list o)
unfolding show_character
show_character-Counted [] o h = tt
show_character-Counted (text cs ∷ list) o h = tt
show_character-Counted (word w ∷ list) o h = display_character-Counted (u8 w) o h

show_text-Counted : (list : List Arg) (o : Out) → Counted o → Ensures CountedWith (show_text list o)
unfolding show_text
show_text-Counted [] o h = tt
show_text-Counted (word w ∷ list) o h = tt
show_text-Counted (text cs ∷ list) o h = display_string-Counted cs o h

alternate-Counted : (b : Bool) (cs : List ℕ) (o : Out) → Counted o → Counted (alternate b cs o)
unfolding alternate
alternate-Counted true cs o h = display_string-Counted cs o h
alternate-Counted false cs o h = h

pub Ensures-if {ℓ} :
    {A : Type ℓ} (P : A → Type 0) (b : Bool) (m k : Option A)
    → Ensures P m
    → Ensures P k
    → Ensures P (if b then m else k)
Ensures-if P true m k p q = p
Ensures-if P false m k p q = q

convert-Counted :
    (c : ℕ) (s : Spec) (list : List Arg) (o : Out)
    → Counted o
    → Ensures CountedWith (convert c s list o)
unfolding convert
convert-Counted c s list o h =
    branch (c == 111) _ _ (show_number-Counted _ 8 s list _ (alternate-Counted s.alt_form _ o h)) (
      branch (c == 112) _ _ (show_number-Counted _ 16 _ list o h) (
        branch (c == 88) _ _
          (show_number-Counted _ 16 s list _ (alternate-Counted s.alt_form _ o h))
          (branch (c == 120) _ _
            (show_number-Counted _ 17 s list _ (alternate-Counted s.alt_form _ o h))
            (branch (c == 117) _ _ (show_number-Counted _ 10 s list o h) (
              branch ((c == 100) || (c == 105)) _ _ (show_number-Counted _ 10 s list o h) (
                branch (c == 99) _ _ (show_character-Counted list o h) (
                  branch (c == 115) _ _ (show_text-Counted list o h) (
                    branch (c == 110) _ _ (store_chars-Counted s list o h)
                      (branch (is_float c) none (some (list, o)) tt h)))))))))
  where
    branch :
        (b : Bool) (m k : Option (List Arg × Out))
        → Ensures CountedWith m
        → Ensures CountedWith k
        → Ensures CountedWith (if b then m else k)
    branch = Ensures-if CountedWith

abbrev CountedAfter : List ℕ × List Arg × Out → Type 0
CountedAfter r = Counted r.2

take_specifier-Counted :
    (format : List ℕ) (s : Spec) (list : List Arg) (o : Out)
    → Counted o
    → Ensures CountedAfter (take_specifier format s list o)
unfolding take_specifier
take_specifier-Counted [] s list o h = tt
take_specifier-Counted (c ∷ format) s list o h =
    Ensures->>= CountedWith CountedAfter (convert c s list o) _ (convert-Counted c s list o h)
      (λ r p. p)

pub anything {ℓ} : {A : Type ℓ} (m : Option A) → Ensures (λ a. Unit {0}) m
anything none = tt
anything (some a) = tt

conversion-Counted :
    (format : List ℕ) (list : List Arg) (o : Out)
    → Counted o
    → Ensures CountedAfter (conversion format list o)
unfolding conversion
conversion-Counted format list o h =
    Ensures->>= (λ r. Unit {0}) CountedAfter (read_star _ list _) _ (anything (read_star _ list _))
      λ r t.
        Ensures->>= (λ q. Unit {0}) CountedAfter (skip_precision r.0 r.1) _
          (anything (skip_precision r.0 r.1)) λ q u. take_specifier-Counted _ _ q.1 o h

pub vprintf_loop-Counted :
    (fuel : ℕ) (format : List ℕ) (list : List Arg) (o : Out)
    → Counted o
    → Ensures Counted (vprintf_loop fuel format list o)
unfolding vprintf_loop
vprintf_loop-Counted fuel [] list o h = h
vprintf_loop-Counted zero (c ∷ format) list o h = tt
vprintf_loop-Counted (suc fuel) (c ∷ format) list o h =
    Ensures-if Counted (c == 37) _ _
      (Ensures->>= CountedAfter Counted (conversion format list o) _
        (conversion-Counted format list o h) λ r p. vprintf_loop-Counted fuel r.0 r.1 r.2 p)
      (vprintf_loop-Counted fuel format list (display_character c o)
        (display_character-Counted c o h))
