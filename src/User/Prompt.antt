-- ===== src/User/Prompt.antt =====
-- kernel/src/userspace/entry/umain.cpp and cpuid.cpp: the loop of the prompt, between whose rounds the
-- keys are handled, and what the commands print. Each print is a text.
pub mod Echo
use micron.Base.{
  ℕ, zero, suc, ◌+◌, ◌-◌, ◌*◌, ◌/◌, ◌%◌, ◌^◌, bit_and, Bool, true, false, not, Option, none, some,
  List, [], ◌∷◌, ◌++◌, ltb, ◌==◌, if◌then◌else◌, u64, ◌<<<◌, ◌>>=◌, codes, text_at,
}
use micron.Util.Text.{itoa}
use micron.User.Keyboard.{
  buffer_size, CommandLine, KeyboardEventArgs, keyboard_event, Action, cpu_info, meminfo, show_help,
  nothing, unknown_command, perform_command,
}

-- A round of the loop of `$prompt`: what it prints. Where the loop has ended it prints nothing. With
-- nothing in the buffer the text begins below it, which is `none`.
unfoldable pub round : CommandLine → Option (List ℕ × CommandLine)
round l =
    let i = l.command_buffer_index in
    let typed = text_at buffer_size (i - 1) l.command_buffer in
    let back = if l.unhandled_backspace then 8 ∷ [] else [] in
    if not l.prompt_waiting
    then some ([], l)
    else if not l.event_occured
    then some (back, record l { unhandled_backspace = false })
    else if i == 0
    then none
    else some (typed ++ back, record l { event_occured = false; unhandled_backspace = false })

-- The interrupt of a key comes between two rounds.
pub data Step : Type 0 where
  key : KeyboardEventArgs → Step
  poll : Step

unfoldable pub run : List Step → CommandLine → Option (List ℕ × CommandLine)
run [] l = some ([], l)
run (key args ∷ steps) l = keyboard_event args l >>= λ m. run steps m
run (poll ∷ steps) l = round l >>= λ r. run steps r.1 >>= λ s. some (r.0 ++ s.0, s.1)

-- The end of `$prompt`, after a new line: the command, and the empty buffer.
unfoldable pub finish_prompt : CommandLine → Action × CommandLine
finish_prompt l = (
  perform_command (text_at buffer_size 0 l.command_buffer),
  record l {
    command_buffer_index = 0;
    command_buffer = λ i. if ltb i buffer_size then 0 else l.command_buffer i;
  },
)

pub data CpuidRegister : Type 0 where
  eax : CpuidRegister
  ebx : CpuidRegister
  ecx : CpuidRegister
  edx : CpuidRegister

-- The answer of the instruction is given by its third and fourth register.
unfoldable pub cpuid_get_field : (ecx_value edx_value : ℕ) → CpuidRegister → (field : ℕ) → Bool
cpuid_get_field ecx_value edx_value eax field = false
cpuid_get_field ecx_value edx_value ebx field = false
cpuid_get_field ecx_value edx_value ecx field = not (bit_and ecx_value field == 0)
cpuid_get_field ecx_value edx_value edx field = not (bit_and edx_value field == 0)

abbrev pub yes_or_no : Bool → List ℕ
yes_or_no b = if b then codes "$GREEN!yes\n" else codes "$RED!no\n"

-- `$$cpu_info`
unfoldable pub cpu_info_texts : (ecx_value edx_value : ℕ) → List (List ℕ)
cpu_info_texts ecx_value edx_value =
    let has = cpuid_get_field ecx_value edx_value ecx in
    codes "\n\tsupports x64: $GREEN!yes\n"
    ∷ codes "\tsupports acpi: $GREEN!yes\n"
    ∷ codes "\tsupports apic: "
    ∷ yes_or_no (has (1 <<< 9))
    ∷ codes "\tsupports pae: $GREEN!yes\n"
    ∷ codes "\tsupports mmx: $GREEN!yes\n"
    ∷ codes "\tsupports sse: $GREEN!yes\n"
    ∷ codes "\tsupports sse2: $GREEN!yes\n"
    ∷ codes "\tsupports sse3: "
    ∷ yes_or_no (has (1 <<< 0))
    ∷ codes "\tsupports ssse3: "
    ∷ yes_or_no (has (1 <<< 9))
    ∷ codes "\tsupports sse4.1: "
    ∷ yes_or_no (has (1 <<< 19))
    ∷ codes "\tsupports sse4.2: "
    ∷ yes_or_no (has (1 <<< 20))
    ∷ codes "\tsupports avx: "
    ∷ (if has (1 <<< 28) then codes "$GREEN!yes\n\n" else codes "$RED!no\n\n")
    ∷ []

-- `$$meminfo`; `itoa` of umain.cpp is that of kutil.cpp.
unfoldable pub meminfo_texts : (total_ram free_ram : ℕ) → Option (List (List ℕ))
meminfo_texts total_ram free_ram = do
  total ← itoa (total_ram / 1024 / 1024) 10
  free ← itoa (free_ram / 1024 / 1024) 10
  used ← itoa (u64 (total_ram + 2 ^ 64 - free_ram) / 1024 / 1024) 10
  some (
      codes "\n\t$LIGHT_GREY!total ram: "
      ∷ total
      ∷ codes "M\n\t$LIGHT_GREY!free ram: "
      ∷ free
      ∷ codes "M\n\t$LIGHT_GREY!used ram: "
      ∷ used
      ∷ codes "M\n\n"
      ∷ [])

-- `$$help`
unfoldable pub help_texts : List (List ℕ)
help_texts =
    codes "\n\tmeminfo:        $LIGHT_GREEN!get info about memory\n"
    ∷ codes "\tcpuinfo:          $LIGHT_GREEN!get info about the cpu\n"
    ∷ codes "\thelp:             $LIGHT_GREEN!display this current menu\n\n"
    ∷ []

-- What `$perform_command` prints.
unfoldable pub action_texts :
    (total_ram free_ram ecx_value edx_value : ℕ) → Action → Option (List (List ℕ))
action_texts total_ram free_ram ecx_value edx_value cpu_info =
    some (cpu_info_texts ecx_value edx_value)
action_texts total_ram free_ram ecx_value edx_value meminfo = meminfo_texts total_ram free_ram
action_texts total_ram free_ram ecx_value edx_value show_help = some help_texts
action_texts total_ram free_ram ecx_value edx_value nothing = some []
action_texts total_ram free_ram ecx_value edx_value unknown_command =
    some (codes "$RED!error: $WHITE!unknown command\n" ∷ [])
