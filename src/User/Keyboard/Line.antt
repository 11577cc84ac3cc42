-- ===== src/User/Keyboard/Line.antt =====
-- Text typed into the command line.
use micron.Base.{
  ℕ, suc, ◌+◌, ◌≤◌, ◌<◌, ◌≡◌, ◌≢◌, refl, arith, ap, ap₂, ◌∙◌, update, Bool, true, List, [], ◌∷◌,
  length, Option, none, some,
}
use micron.User.Keyboard.{buffer_size, CommandLine, type_character}

unfoldable pub type_characters : List ℕ → CommandLine → Option CommandLine
type_characters [] l = some l
type_characters (c ∷ cs) l = elim (type_character c l) [
  | none ↦ none
  | some l' ↦ type_characters cs l'
]

-- Not a NUL, a backspace, a tab or a newline.
pub record IsTyped (c : ℕ) : Type 0 where
  pub not_nul : c ≢ 0
  pub not_backspace : c ≢ 8
  pub not_tab : c ≢ 9
  pub not_newline : c ≢ 10

abbrev pub AllTyped : List ℕ → Type 0
AllTyped [] = Unit
AllTyped (c ∷ cs) = IsTyped c × AllTyped cs

-- A buffer with a text stored from a place on.
unfoldable pub stored : List ℕ → ℕ → (ℕ → ℕ) → ℕ → ℕ
stored [] i buffer = buffer
stored (c ∷ cs) i buffer = stored cs (suc i) (update buffer i c)

type_character-plain :
    (c : ℕ) (l : CommandLine)
    → IsTyped c
    → l.command_buffer_index < buffer_size
    → type_character c l
      ≡ some (record l {
        command_buffer = update l.command_buffer l.command_buffer_index c;
        command_buffer_index = suc l.command_buffer_index;
        event_occured = true;
      })
unfolding type_character
type_character-plain c l typed room = ground arith

type_characters-cons :
    (c : ℕ) (cs : List ℕ) (l l' : CommandLine)
    → type_character c l ≡ some l'
    → type_characters (c ∷ cs) l ≡ type_characters cs l'
unfolding type_characters
type_characters-cons c cs l l' e =
    ap (λ (o : Option CommandLine). elim o [ none ↦ none | some k ↦ type_characters cs k ]) e

-- Whether anything has been typed.
unfoldable pub noted : List ℕ → Bool → Bool
noted [] before = before
noted (c ∷ cs) before = true

noted-true : (cs : List ℕ) → noted cs true ≡ true
unfolding noted
noted-true [] = refl
noted-true (c ∷ cs) = refl

-- Characters that fit the buffer, typed one after the other, stand in the buffer in that order, from the index on, the
-- index ends behind them, and nothing else changes but that the typing is noted.
type_characters-stored :
    (cs : List ℕ) (l : CommandLine)
    → AllTyped cs
    → l.command_buffer_index + length cs ≤ buffer_size
    → type_characters cs l
      ≡ some (record l {
        command_buffer = stored cs l.command_buffer_index l.command_buffer;
        command_buffer_index = l.command_buffer_index + length cs;
        event_occured = noted cs l.event_occured;
      })
unfolding type_characters stored noted
type_characters-stored [] l typed room =
    ap (λ n. some (record l { command_buffer_index = n })) (no_more l.command_buffer_index)
  where
    no_more : (n : ℕ) → n ≡ n + 0
    no_more n = omega arith
type_characters-stored (c ∷ cs) l (one, typed) room =
    (type_characters-cons c cs l
        (record l {
          command_buffer = update l.command_buffer l.command_buffer_index c;
          command_buffer_index = suc l.command_buffer_index;
          event_occured = true;
        })
        (type_character-plain c l one (omega arith))
      ∙ type_characters-stored cs
          (record l {
            command_buffer = update l.command_buffer l.command_buffer_index c;
            command_buffer_index = suc l.command_buffer_index;
            event_occured = true;
          })
          typed (omega arith)
      ∙ ap₂
          (λ (n : ℕ) (b : Bool). some (record l {
            command_buffer =
                stored cs (suc l.command_buffer_index)
                  (update l.command_buffer l.command_buffer_index c);
            command_buffer_index = n;
            event_occured = b;
          }))
          (one_more l.command_buffer_index (length cs)) (noted-true cs))
  where
    one_more : (a b : ℕ) → suc a + b ≡ a + suc b
    one_more a b = omega arith

type_character-erase :
    (l : CommandLine) (i : ℕ)
    → l.command_buffer_index ≡ suc i
    → i < buffer_size
    → type_character 8 l
      ≡ some (record l {
        command_buffer = update l.command_buffer i 0;
        command_buffer_index = i;
        unhandled_backspace = true;
      })
unfolding type_character
type_character-erase l i e room = ground arith

-- A character that is typed and taken back leaves the index as it was, a NUL in its place, and both
-- noted.
type_character-backspace :
    (c : ℕ) (l : CommandLine)
    → IsTyped c
    → l.command_buffer_index < buffer_size
    → type_characters (c ∷ 8 ∷ []) l
      ≡ some (record l {
        command_buffer =
            update (update l.command_buffer l.command_buffer_index c) l.command_buffer_index 0;
        unhandled_backspace = true;
        event_occured = true;
      })
unfolding type_characters
type_character-backspace c l typed room =
    type_characters-cons c (8 ∷ []) l typed_line (type_character-plain c l typed room)
    ∙ type_characters-cons 8 [] typed_line
        (record typed_line {
          command_buffer = update typed_line.command_buffer l.command_buffer_index 0;
          command_buffer_index = l.command_buffer_index;
          unhandled_backspace = true;
        })
        (type_character-erase typed_line l.command_buffer_index refl room)
  where
    typed_line : CommandLine
    typed_line = record l {
      command_buffer = update l.command_buffer l.command_buffer_index c;
      command_buffer_index = suc l.command_buffer_index;
      event_occured = true;
    }
