-- ===== src/Cpu/Exceptions.antt =====
-- kernel/src/cpu/interrupts.cpp: the report of an exception and the symbols of the kernel. What is
-- displayed is given as the calls of `printf`, each with its format and its arguments; the screen is
-- cleared first, and the processor stops behind the report.
pub mod Shown
pub mod Trace
use micron.Base.{
  ℕ, zero, suc, ◌+◌, ◌-◌, ◌%◌, ◌^◌, bit_and, Bool, true, false, not, ◌&&◌, Option, none, some, List,
  [], ◌∷◌, ◌++◌, get_or, ltb, leb, ◌==◌, if◌then◌else◌, u64, ◌>>>◌, ◌>>=◌, codes,
}
use micron.Drivers.Printf.{Arg, word, text, Out}
use micron.Drivers.Printf.Convert.{vprintf}

-- The registers that the report reads.
pub record Registers : Type 0 where
  pub cr2 : ℕ
  pub rbp : ℕ
  pub interrupt_number : ℕ
  pub error_code : ℕ
  pub rip : ℕ

abbrev pub exception_messages : List (List ℕ)
exception_messages =
    codes "Division by Zero"
    ∷ codes "Debug"
    ∷ codes "Non-maskable interrupt"
    ∷ codes "Breakpoint"
    ∷ codes "Overflow"
    ∷ codes "Bound Range Exceeded"
    ∷ codes "Invalid Opcode"
    ∷ codes "Device Not Available"
    ∷ codes "Double Fault"
    ∷ codes "Coprocessor Segment Overrun"
    ∷ codes "Invalid TSS"
    ∷ codes "Segment Not Present"
    ∷ codes "Stack-Segment Fault"
    ∷ codes "General Protection Fault"
    ∷ codes "Page Fault"
    ∷ codes "Reserved"
    ∷ codes "x87 Floating-Point"
    ∷ codes "Alignment Check"
    ∷ codes "Machine Check"
    ∷ codes "SIMD Floating-Point"
    ∷ codes "Virtualization"
    ∷ codes "Reserved"
    ∷ codes "Reserved"
    ∷ codes "Reserved"
    ∷ codes "Reserved"
    ∷ codes "Reserved"
    ∷ codes "Reserved"
    ∷ codes "Reserved"
    ∷ codes "Reserved"
    ∷ codes "Reserved"
    ∷ codes "Security"
    ∷ codes "Reserved"
    ∷ []

-- An entry of `__kernel_symtab`.
pub record Symbol : Type 0 where
  pub addr : ℕ
  pub name : List ℕ

abbrev pub symtab_end : ℕ
symtab_end = 0xFFFFFFFFFFFFFFFF

-- The address of the entry that follows: behind the listed ones stands the end of the table.
abbrev pub next_addr : List Symbol → ℕ
next_addr [] = symtab_end
next_addr (s ∷ symtab) = s.addr

unfoldable pub get_symbol_label : (kernel_end addr : ℕ) → List Symbol → List ℕ
get_symbol_label kernel_end addr [] = codes "<unidentified function>"
get_symbol_label kernel_end addr (s ∷ symtab) =
    if s.addr == symtab_end
    then codes "<unidentified function>"
    else if leb s.addr addr && (ltb addr (next_addr symtab) && ltb addr kernel_end)
    then s.name
    else get_symbol_label kernel_end addr symtab

-- The kernel's symbols, its place in memory, and the memory by words of 64 bits.
pub record Kernel : Type 0 where
  pub symtab : List Symbol
  pub kernel_start : ℕ
  pub kernel_end : ℕ
  pub memory : ℕ → ℕ

abbrev pub Call : Type 0
Call = List ℕ × List Arg

unfoldable pub kaslr_slide : Kernel → ℕ
kaslr_slide k = u64 (k.kernel_start + 2 ^ 64 - 0x200000)

-- The symbol of an address, without the slide.
unfoldable pub label_of : Kernel → ℕ → List ℕ
label_of k addr = get_symbol_label k.kernel_end (u64 (addr + 2 ^ 64 - kaslr_slide k)) k.symtab

abbrev pub frame_line : List ℕ → Call
frame_line name = (codes "\t\t\t >> %s\n", text name ∷ [])

-- The loop over the frames; `none` is fuel that is used up.
unfoldable pub stack_trace : (fuel : ℕ) → Kernel → (rbp : ℕ) → Option (List Call)
stack_trace zero k rbp = none
stack_trace (suc fuel) k rbp =
    let rest = stack_trace fuel k (k.memory rbp) in
    if rbp == 0
    then some []
    else (rest >>= λ lines. some (frame_line (label_of k (k.memory (u64 (rbp + 8)))) ∷ lines))

abbrev pub has_bit : ℕ → ℕ → Bool
has_bit error_code bit = not (bit_and (error_code >>> bit) 1 == 0)

-- The lines about the access of a page fault; the bits are present, write, user, reserved write and
-- no execute.
unfoldable pub page_access_lines : Registers → List Call
page_access_lines regs =
    (
      codes "\t\t\t >> accessed %s page\n",
      text (if has_bit regs.error_code 0 then codes "protected" else codes "non-present") ∷ [],
    )
      ∷ (if has_bit regs.error_code 4
          then (codes "\t\t\t >> executed non-executable page\n", []) ∷ []
          else [])
    ++ (
      codes "\t\t\t >> during %s\n",
      text (if has_bit regs.error_code 1 then codes "write" else codes "read") ∷ [],
    )
      ∷ (
        codes "\t\t\t >> inside %s\n",
        text (if has_bit regs.error_code 2 then codes "userspace" else codes "kernel") ∷ [],
      )
      ∷ []

unfoldable pub page_fault_lines : Registers → List Call
page_fault_lines regs =
    (codes "\t\t >>> Page Fault accessing %x\n", word regs.cr2 ∷ []) ∷ page_access_lines regs

-- The calls up to the loop. An exception has a number below 32.
unfoldable pub report_head : Kernel → Registers → List Call
report_head k regs =
    (
      codes "\n\tFATAL ERROR: CPU Exception: %s\n\n",
      text (get_or exception_messages regs.interrupt_number []) ∷ [],
    )
      ∷ (codes "\tERROR CODE: %x\n\n\n", word regs.error_code ∷ [])
      ∷ (if regs.interrupt_number == 0xE then page_fault_lines regs else [])
    ++ (codes "\n\t\t >>> [de-KASLR'd] Instruction Pointer\n", [])
      ∷ (codes "\t\t\t >> %x \n", word (u64 (regs.rip + 2 ^ 64 - kaslr_slide k)) ∷ [])
      ∷ (codes "\n\t\t >>> Stacktrace\n", [])
      ∷ frame_line (label_of k regs.rip)
      ∷ []

unfoldable pub exception_handler : (fuel : ℕ) → Kernel → Registers → Option (List Call)
exception_handler fuel k regs =
    stack_trace fuel k regs.rbp >>= λ lines. some (report_head k regs ++ lines)

-- The characters that a row of calls displays.
unfoldable pub displayed : List Call → Option (List ℕ)
displayed [] = some []
displayed ((format, list) ∷ calls) =
    vprintf format list >>= λ o. displayed calls >>= λ rest. some (o.shown ++ rest)
