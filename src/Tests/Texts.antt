-- ===== src/Tests/Texts.antt =====
-- Strings, the bitmap, and the typed line.
use micron.Base.{ℕ, ◌+◌, ◌≡◌, inl, refl, arith, true, false, some, List, [], ◌∷◌, update}
use micron.Util.Bitmap.{Bitmap}
use micron.Util.Text.{strcat, itoa}
use micron.Util.Text.Digits.{HasLead, read_digits, read_digits-itoa}
use micron.Util.Strings.{strcat_at}
use micron.Util.Strings.Copies.{Written, strcat_at-text}
use micron.User.Prompt.{key, poll, run}
use micron.User.Prompt.Echo.{AllTyped, IsWaiting, character_of, run-one_by_one, run-two_keys}
use micron.User.Keyboard.{kcascii, CommandLine, KeyboardEventArgs}
use micron.User.Keyboard.Layout.{is_letter}

read_digits-itoa_example :
    (ds : List ℕ) × (itoa 48879 16 ≡ some ds) × (read_digits 16 0 ds ≡ some 48879) × HasLead ds
read_digits-itoa_example =
    read_digits-itoa 48879 16 (omega arith) (omega arith) (omega arith) (omega arith) (omega arith)

key_a-is_letter : is_letter (kcascii 30 false false) ≡ true
unfolding is_letter kcascii
key_a-is_letter = refl

abbrev line : CommandLine
line = record {
  command_buffer_index = 0;
  command_buffer = λ i. 0;
  prompt_waiting = true;
  event_occured = false;
  unhandled_backspace = false;
}

abbrev bitmap : Bitmap
bitmap = record { size = 2; address = 0; buffer = λ i. 0b01010101 }

-- The keys of "a" and "s".
abbrev key_a : KeyboardEventArgs
key_a = record { key_code = 30; release_or_press = true; shifted = false; caps_lock = false }

abbrev key_s : KeyboardEventArgs
key_s = record { key_code = 31; release_or_press = true; shifted = false; caps_lock = false }

keys-AllTyped : AllTyped (key_a ∷ key_s ∷ [])
unfolding kcascii
keys-AllTyped = (
  refl,
  record {
    not_nul = omega arith;
    not_backspace = omega arith;
    not_tab = omega arith;
    not_newline = omega arith;
  },
  (
    refl,
    record {
      not_nul = omega arith;
      not_backspace = omega arith;
      not_tab = omega arith;
      not_newline = omega arith;
    },
    tt,
  ),
)

line-IsWaiting : IsWaiting line
line-IsWaiting = record {
  waiting = refl;
  no_event = refl;
  no_backspace = refl;
  blank = λ i h below. refl;
}

run-one_by_one_example :
    (l' : CommandLine) × (run (key key_a ∷ poll ∷ key key_s ∷ poll ∷ []) line
      ≡ some (character_of key_a ∷ character_of key_s ∷ [], l'))
    × (l'.command_buffer_index ≡ 0 + 2)
    × IsWaiting l'
run-one_by_one_example =
    run-one_by_one (key_a ∷ key_s ∷ []) line keys-AllTyped line-IsWaiting (omega arith)

run-two_keys_example :
    (l' : CommandLine) × (run (key key_a ∷ key key_s ∷ poll ∷ []) line
      ≡ some (character_of key_s ∷ [], l'))
    × (l'.command_buffer 0 ≡ character_of key_a)
    × (l'.command_buffer 1 ≡ character_of key_s)
run-two_keys_example = run-two_keys key_a key_s line keys-AllTyped line-IsWaiting (omega arith)

-- "ab" at address 0, and "c" at address 16.
abbrev two_texts : ℕ → ℕ
two_texts = update (update (update (λ i. 0) 0 97) 1 98) 16 99

strcat_at-text_example :
    (m : ℕ → ℕ) × (strcat_at 3 0 16 two_texts ≡ some m)
    × Written two_texts m 0 (strcat (97 ∷ 98 ∷ []) (99 ∷ []))
strcat_at-text_example =
    strcat_at-text 3 0 16 two_texts (97 ∷ 98 ∷ []) (99 ∷ [])
      (refl, omega arith, (refl, omega arith, refl)) (refl, omega arith, refl) (omega arith)
      (omega arith) (inl (omega arith))
