-- ===== src/User/Prompt/Echo.antt =====
-- What the prompt shows of the keys that are typed.
use micron.Base.{
  text_at, ℕ, suc, ◌+◌, ◌-◌, ◌≤◌, ◌<◌, ◌≡◌, ◌≢◌, refl, arith, true, false, some, List, [], ◌∷◌,
  length, update,
}
use micron.User.Keyboard.{
  buffer_size, CommandLine, KeyboardEventArgs, kcascii, type_character, keyboard_event,
}
use micron.User.Keyboard.Line.{IsTyped}
use micron.User.Prompt.{round, Step, key, poll, run}

abbrev pub character_of : KeyboardEventArgs → ℕ
character_of args = kcascii args.key_code args.shifted args.caps_lock

-- The keys are pressed, and give characters that are stored.
abbrev pub AllTyped : List KeyboardEventArgs → Type 0
AllTyped [] = Unit
AllTyped (args ∷ keys) =
    (args.release_or_press ≡ true) × IsTyped (character_of args) × AllTyped keys

abbrev pub characters : List KeyboardEventArgs → List ℕ
characters [] = []
characters (args ∷ keys) = character_of args ∷ characters keys

-- A round after each key.
abbrev pub one_by_one : List KeyboardEventArgs → List Step
one_by_one [] = []
one_by_one (args ∷ keys) = key args ∷ poll ∷ one_by_one keys

-- The prompt waits, nothing is left to be shown, and the buffer, a page, is empty from its index on.
pub record IsWaiting (l : CommandLine) : Type 0 where
  pub waiting : l.prompt_waiting ≡ true
  pub no_event : l.event_occured ≡ false
  pub no_backspace : l.unhandled_backspace ≡ false
  pub blank : (i : ℕ) → l.command_buffer_index ≤ i → i < buffer_size → l.command_buffer i ≡ 0

abbrev stored : ℕ → CommandLine → CommandLine
stored c l = record l {
  command_buffer = update l.command_buffer l.command_buffer_index c;
  command_buffer_index = suc l.command_buffer_index;
  event_occured = true;
}

keyboard_event-stored :
    (args : KeyboardEventArgs) (l : CommandLine)
    → args.release_or_press ≡ true
    → IsTyped (character_of args)
    → l.command_buffer_index < buffer_size
    → keyboard_event args l ≡ some (stored (character_of args) l)
unfolding keyboard_event type_character
keyboard_event-stored args l pressed t room = ground arith

text_at-last :
    (left c i : ℕ) (buffer : ℕ → ℕ)
    → c ≢ 0
    → buffer (suc i) ≡ 0
    → text_at (suc (suc left)) i (update buffer i c) ≡ c ∷ []
unfolding text_at
text_at-last left c i buffer ne blank = ground arith

round-stored :
    (c : ℕ) (l : CommandLine)
    → c ≢ 0
    → l.prompt_waiting ≡ true
    → l.unhandled_backspace ≡ false
    → l.command_buffer (suc l.command_buffer_index) ≡ 0
    → round (stored c l)
      ≡ some (c ∷ [], record (stored c l) { event_occured = false; unhandled_backspace = false })
unfolding round
round-stored c l ne waiting no_backspace blank = ground (
  arith,
  text_at-last 4094 c l.command_buffer_index l.command_buffer ne blank,
  less l.command_buffer_index,
)
  where
    less : (i : ℕ) → suc i - 1 ≡ i
    less i = omega arith

abbrev after : ℕ → CommandLine → CommandLine
after c l = record (stored c l) { event_occured = false; unhandled_backspace = false }

after-IsWaiting : (c : ℕ) (l : CommandLine) → IsWaiting l → IsWaiting (after c l)
after-IsWaiting c l w = record {
  waiting = w.waiting;
  no_event = refl;
  no_backspace = refl;
  blank = λ i h below. ground (arith, w.blank i (omega arith) below);
}

-- At a waiting prompt whose buffer is empty from its index on, keys that type characters and leave a
-- NUL in the page of the buffer, with a round of the loop after each of them, are echoed one by one:
-- the prompt prints the characters in order, and is then ready for the next key.
pub run-one_by_one :
    (keys : List KeyboardEventArgs) (l : CommandLine)
    → AllTyped keys
    → IsWaiting l
    → l.command_buffer_index + length keys < buffer_size
    → (l' : CommandLine) × (run (one_by_one keys) l ≡ some (characters keys, l'))
      × (l'.command_buffer_index ≡ l.command_buffer_index + length keys)
      × IsWaiting l'
unfolding run
run-one_by_one [] l typed w room = (l, refl, omega arith, w)
run-one_by_one (args ∷ keys) l (pressed, t, typed) w room =
    let (l', e, i, w') =
      run-one_by_one keys (after (character_of args) l) typed
        (after-IsWaiting (character_of args) l w) (omega arith) in
    (
      l',
      rw (keyboard_event-stored args l pressed t (omega arith)) (
          rw
            (round-stored (character_of args) l t.not_nul w.waiting w.no_backspace
              (w.blank (suc l.command_buffer_index) (omega arith) (omega arith)))
            (rw e refl)),
      omega (arith, i),
      w',
    )

-- At a waiting prompt whose buffer is empty from its index on, of two keys that type characters, leave
-- a NUL in the page of the buffer and come before the next round only the second is echoed, though
-- both are in the buffer.
pub run-two_keys :
    (a b : KeyboardEventArgs) (l : CommandLine)
    → AllTyped (a ∷ b ∷ [])
    → IsWaiting l
    → l.command_buffer_index + 2 < buffer_size
    → (l' : CommandLine) × (run (key a ∷ key b ∷ poll ∷ []) l ≡ some (character_of b ∷ [], l'))
      × (l'.command_buffer l.command_buffer_index ≡ character_of a)
      × (l'.command_buffer (suc l.command_buffer_index) ≡ character_of b)
unfolding run
run-two_keys a b l (pa, ta, (pb, tb, u)) w room = (
  after (character_of b) (stored (character_of a) l),
  rw (keyboard_event-stored a l pa ta (omega arith)) (
      rw (keyboard_event-stored b (stored (character_of a) l) pb tb (omega arith)) (
        rw
          (round-stored (character_of b) (stored (character_of a) l) tb.not_nul w.waiting
            w.no_backspace next)
          refl)),
  ground arith,
  ground arith,
)
  where
    next :
        update l.command_buffer l.command_buffer_index
          (character_of a)
          (suc (suc l.command_buffer_index))
        ≡ 0
    next = ground (arith, w.blank (suc (suc l.command_buffer_index)) (omega arith) (omega arith))
