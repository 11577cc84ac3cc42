-- ===== src/User/Keyboard.antt =====
-- kernel/src/userspace/entry/kcascii.cpp and umain.cpp: the characters of the keys, and the command
-- line that they are typed into.
pub mod Layout
pub mod Line
use micron.Base.{
  ℕ, zero, suc, ◌+◌, ◌-◌, ◌*◌, ◌/◌, ◌%◌, ◌^◌, Bool, true, false, not, ◌&&◌, ◌||◌, Option, none,
  some, List, [], ◌∷◌, get_or, ltb, leb, ◌==◌, if◌then◌else◌, update, u8,
}

abbrev pub kbdus : List ℕ
kbdus =
    0 ∷ 0 ∷ 49 ∷ 50 ∷ 51 ∷ 52 ∷ 53 ∷ 54 ∷ 55 ∷ 56 ∷ 57 ∷ 48 ∷ 45 ∷ 61 ∷ 8 ∷ 9 ∷ 113 ∷ 119 ∷ 101
    ∷ 114 ∷ 116 ∷ 121 ∷ 117 ∷ 105 ∷ 111 ∷ 112 ∷ 91 ∷ 93 ∷ 10 ∷ 0 ∷ 97 ∷ 115 ∷ 100 ∷ 102 ∷ 103 ∷ 104
    ∷ 106 ∷ 107 ∷ 108 ∷ 59 ∷ 39 ∷ 96 ∷ 0 ∷ 92 ∷ 122 ∷ 120 ∷ 99 ∷ 118 ∷ 98 ∷ 110 ∷ 109 ∷ 44 ∷ 46 ∷ 47
    ∷ 0 ∷ 42 ∷ 0 ∷ 32 ∷ 0 ∷ 0 ∷ 0 ∷ 0 ∷ 0 ∷ 0 ∷ 0 ∷ 0 ∷ 0 ∷ 0 ∷ 0 ∷ 0 ∷ 0 ∷ 55 ∷ 56 ∷ 57 ∷ 45 ∷ 52
    ∷ 53 ∷ 54 ∷ 43 ∷ 49 ∷ 50 ∷ 51 ∷ 48 ∷ 46 ∷ []

abbrev pub kbdus_c : List ℕ
kbdus_c =
    0 ∷ 0 ∷ 49 ∷ 50 ∷ 51 ∷ 52 ∷ 53 ∷ 54 ∷ 55 ∷ 56 ∷ 57 ∷ 48 ∷ 45 ∷ 61 ∷ 8 ∷ 9 ∷ 81 ∷ 87 ∷ 69 ∷ 82
    ∷ 84 ∷ 89 ∷ 85 ∷ 73 ∷ 79 ∷ 80 ∷ 91 ∷ 93 ∷ 10 ∷ 0 ∷ 65 ∷ 83 ∷ 68 ∷ 70 ∷ 71 ∷ 72 ∷ 74 ∷ 75 ∷ 76
    ∷ 59 ∷ 39 ∷ 96 ∷ 0 ∷ 92 ∷ 90 ∷ 88 ∷ 67 ∷ 86 ∷ 66 ∷ 78 ∷ 77 ∷ 44 ∷ 46 ∷ 47 ∷ 0 ∷ 42 ∷ 0 ∷ 32 ∷ 0
    ∷ 0 ∷ 0 ∷ 0 ∷ 0 ∷ 0 ∷ 0 ∷ 0 ∷ 0 ∷ 0 ∷ 0 ∷ 0 ∷ 0 ∷ 55 ∷ 56 ∷ 57 ∷ 45 ∷ 52 ∷ 53 ∷ 54 ∷ 43 ∷ 49
    ∷ 50 ∷ 51 ∷ 48 ∷ 46 ∷ []

abbrev pub kbdus_s : List ℕ
kbdus_s =
    0 ∷ 0 ∷ 33 ∷ 64 ∷ 35 ∷ 36 ∷ 37 ∷ 94 ∷ 38 ∷ 42 ∷ 40 ∷ 41 ∷ 95 ∷ 43 ∷ 8 ∷ 9 ∷ 81 ∷ 87 ∷ 69 ∷ 82
    ∷ 84 ∷ 89 ∷ 85 ∷ 73 ∷ 79 ∷ 80 ∷ 123 ∷ 125 ∷ 10 ∷ 0 ∷ 65 ∷ 83 ∷ 68 ∷ 70 ∷ 71 ∷ 72 ∷ 74 ∷ 75 ∷ 76
    ∷ 59 ∷ 39 ∷ 126 ∷ 0 ∷ 124 ∷ 90 ∷ 88 ∷ 67 ∷ 86 ∷ 66 ∷ 78 ∷ 77 ∷ 60 ∷ 62 ∷ 63 ∷ 0 ∷ 42 ∷ 0 ∷ 32
    ∷ 0 ∷ 0 ∷ 0 ∷ 0 ∷ 0 ∷ 0 ∷ 0 ∷ 0 ∷ 0 ∷ 0 ∷ 0 ∷ 0 ∷ 0 ∷ 55 ∷ 56 ∷ 57 ∷ 45 ∷ 52 ∷ 53 ∷ 54 ∷ 43 ∷ 49
    ∷ 50 ∷ 51 ∷ 48 ∷ 46 ∷ []

abbrev pub kbdus_sc : List ℕ
kbdus_sc =
    0 ∷ 0 ∷ 33 ∷ 64 ∷ 35 ∷ 36 ∷ 37 ∷ 94 ∷ 38 ∷ 42 ∷ 40 ∷ 41 ∷ 95 ∷ 43 ∷ 8 ∷ 9 ∷ 113 ∷ 119 ∷ 101
    ∷ 114 ∷ 116 ∷ 121 ∷ 117 ∷ 105 ∷ 111 ∷ 112 ∷ 123 ∷ 125 ∷ 10 ∷ 0 ∷ 97 ∷ 115 ∷ 100 ∷ 102 ∷ 103
    ∷ 104 ∷ 106 ∷ 107 ∷ 108 ∷ 59 ∷ 39 ∷ 126 ∷ 0 ∷ 124 ∷ 122 ∷ 120 ∷ 99 ∷ 118 ∷ 98 ∷ 110 ∷ 109 ∷ 60
    ∷ 62 ∷ 63 ∷ 0 ∷ 42 ∷ 0 ∷ 32 ∷ 0 ∷ 0 ∷ 0 ∷ 0 ∷ 0 ∷ 0 ∷ 0 ∷ 0 ∷ 0 ∷ 0 ∷ 0 ∷ 0 ∷ 0 ∷ 55 ∷ 56 ∷ 57
    ∷ 45 ∷ 52 ∷ 53 ∷ 54 ∷ 43 ∷ 49 ∷ 50 ∷ 51 ∷ 48 ∷ 46 ∷ []

-- `keypad_period` of keyboard.h.
abbrev pub keypad_period : ℕ
keypad_period = 83

unfoldable pub kcascii : (kc : ℕ) → (shift caps : Bool) → ℕ
kcascii kc shift caps =
    if ltb keypad_period kc
    then 0
    else if not shift && not caps
    then get_or kbdus kc 0
    else if shift && not caps
    then get_or kbdus_s kc 0
    else if shift && caps
    then get_or kbdus_sc kc 0
    else 0

-- The command buffer is a page.
abbrev pub buffer_size : ℕ
buffer_size = 0x1000

-- The variables of the command line; the buffer's index is an `int`, and `none` stands for a store
-- outside the buffer, below zero or behind the page.
pub record CommandLine : Type 0 where
  pub command_buffer_index : ℕ
  pub command_buffer : ℕ → ℕ
  pub prompt_waiting : Bool
  pub event_occured : Bool
  pub unhandled_backspace : Bool

pub record KeyboardEventArgs : Type 0 where
  pub key_code : ℕ
  pub release_or_press : Bool
  pub shifted : Bool
  pub caps_lock : Bool

unfoldable pub type_character : ℕ → CommandLine → Option CommandLine
type_character character l =
    if character == 9
    then some (record l { command_buffer_index = (l.command_buffer_index / 4 + 1) * 4 })
    else if character == 8
    then (if (l.command_buffer_index == 0) || ltb buffer_size l.command_buffer_index
        then none
        else some (record l {
          command_buffer_index = l.command_buffer_index - 1;
          command_buffer = update l.command_buffer (l.command_buffer_index - 1) 0;
          unhandled_backspace = true;
        }))
    else if character == 10
    then some (record l { prompt_waiting = false })
    else if character == 0
    then some l
    else if leb buffer_size l.command_buffer_index
    then none
    else some (record l {
      command_buffer = update l.command_buffer l.command_buffer_index character;
      command_buffer_index = suc l.command_buffer_index;
      event_occured = true;
    })

unfoldable pub keyboard_event : KeyboardEventArgs → CommandLine → Option CommandLine
keyboard_event args l =
    if args.release_or_press
    then type_character (kcascii args.key_code args.shifted args.caps_lock) l
    else some l

-- `$strcmp` of umain.cpp: a prefix test that an empty left string fails.
unfoldable pub begins : List ℕ → List ℕ → Bool
begins [] rhs = true
begins (c ∷ lhs) [] = false
begins (c ∷ lhs) (d ∷ rhs) = if c == d then begins lhs rhs else false

unfoldable pub strcmp : List ℕ → List ℕ → Bool
strcmp [] rhs = false
strcmp (c ∷ lhs) rhs = begins (c ∷ lhs) rhs

pub data Action : Type 0 where
  cpu_info : Action
  meminfo : Action
  show_help : Action
  nothing : Action
  unknown_command : Action

-- The last lines: an empty command does nothing.
unfoldable pub no_command : List ℕ → Action
no_command [] = nothing
no_command (c ∷ command) = unknown_command

unfoldable pub perform_command : List ℕ → Action
perform_command command =
    if strcmp command (99 ∷ 112 ∷ 117 ∷ 105 ∷ 110 ∷ 102 ∷ 111 ∷ [])
    then cpu_info
    else if strcmp command (109 ∷ 101 ∷ 109 ∷ 105 ∷ 110 ∷ 102 ∷ 111 ∷ [])
    then meminfo
    else if strcmp command (104 ∷ 101 ∷ 108 ∷ 112 ∷ [])
    then show_help
    else no_command command
