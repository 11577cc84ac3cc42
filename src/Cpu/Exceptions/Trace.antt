-- ===== src/Cpu/Exceptions/Trace.antt =====
-- The symbol of an address, and the frames of the stack.
use mathlib.Core.Path.{subst}
use mathlib.Core.List.{append_assoc}
use micron.Base.{
  ℕ, zero, suc, ◌+◌, ◌^◌, ◌≤◌, ◌<◌, ◌≡◌, ◌≢◌, ap, ap₂, sym, ◌∙◌, arith, some, List, [], ◌∷◌, ◌++◌,
  length, u64, ◌>>=◌, codes,
}
use micron.Drivers.Printf.{text}
use micron.Cpu.Exceptions.{
  Registers, Symbol, symtab_end, next_addr, get_symbol_label, Kernel, Call, kaslr_slide, label_of,
  frame_line, stack_trace, report_head, exception_handler,
}

-- The entries are in the order of their addresses, and none is the end mark.
abbrev pub IsOrdered : List Symbol → Type 0
IsOrdered [] = Unit
IsOrdered (s ∷ symtab) = (s.addr ≤ next_addr symtab) × (s.addr < symtab_end) × IsOrdered symtab

next_addr-le :
    (before rest : List Symbol) (s : Symbol)
    → IsOrdered (before ++ s ∷ rest)
    → next_addr (before ++ s ∷ rest) ≤ s.addr
next_addr-le [] rest s o = omega arith
next_addr-le (t ∷ before) rest s o = omega (arith, next_addr-le before rest s o.2)

-- In a table in the order of its addresses, an address inside the kernel, from a symbol on and before
-- the next one, gets the name of that symbol.
get_symbol_label-name :
    (kernel_end addr : ℕ) (before rest : List Symbol) (s : Symbol)
    → IsOrdered (before ++ s ∷ rest)
    → s.addr ≤ addr
    → addr < next_addr rest
    → addr < kernel_end
    → get_symbol_label kernel_end addr (before ++ s ∷ rest) ≡ s.name
unfolding get_symbol_label
get_symbol_label-name kernel_end addr [] rest s o from below inside = ground arith
get_symbol_label-name kernel_end addr (t ∷ before) rest s o from below inside = ground (
  arith,
  next_addr-le before rest s o.2,
  get_symbol_label-name kernel_end addr before rest s o.2 from below inside,
)

-- The symbol whose code the return address lies in, and its name: less the kernel's slide, the
-- address is one of the kernel's, from the symbol on and before the next one.
pub record IsNamed (k : Kernel) (r : ℕ) (name : List ℕ) : Type 0 where
  pub before : List Symbol
  pub symbol : Symbol
  pub rest : List Symbol
  pub link : ℕ
  pub listed : k.symtab ≡ before ++ symbol ∷ rest
  pub named : symbol.name ≡ name
  pub slid : link + k.kernel_start ≡ r + 0x200000
  pub link_fits : link < 2 ^ 64
  pub from : symbol.addr ≤ link
  pub below : link < next_addr rest
  pub inside : link < k.kernel_end

label_of-name :
    (k : Kernel) (r : ℕ) (name : List ℕ)
    → IsOrdered k.symtab
    → k.kernel_start < 2 ^ 64
    → IsNamed k r name
    → label_of k r ≡ name
unfolding label_of kaslr_slide
label_of-name k r name o fits n =
    ap₂ (get_symbol_label k.kernel_end) (omega (arith, n.slid, n.link_fits)) n.listed
    ∙ get_symbol_label-name k.kernel_end n.link n.before n.rest n.symbol
        (subst IsOrdered n.listed o) n.from n.below n.inside
    ∙ n.named

-- The saved frames from `rbp` on return into the functions of these names, and the last one is
-- marked by 0.
abbrev pub IsStack : Kernel → ℕ → List (List ℕ) → Type 0
IsStack k rbp [] = rbp ≡ 0
IsStack k rbp (name ∷ names) =
    (rbp ≢ 0) × IsNamed k (k.memory (u64 (rbp + 8))) name × IsStack k (k.memory rbp) names

-- A line for each name.
abbrev pub name_lines : List (List ℕ) → List Call
name_lines [] = []
name_lines (name ∷ names) = (codes "\t\t\t >> %s\n", text name ∷ []) ∷ name_lines names

stack_trace-names :
    (fuel : ℕ) (k : Kernel) (rbp : ℕ) (names : List (List ℕ))
    → IsOrdered k.symtab
    → k.kernel_start < 2 ^ 64
    → IsStack k rbp names
    → length names < fuel
    → stack_trace fuel k rbp ≡ some (name_lines names)
unfolding stack_trace
stack_trace-names zero k rbp names o fits st enough = absurd (omega arith)
stack_trace-names (suc fuel) k rbp [] o fits st enough = ground arith
stack_trace-names (suc fuel) k rbp (name ∷ names) o fits st enough = ground (
  arith,
  label_of-name k (k.memory (u64 (rbp + 8))) name o fits st.1,
  stack_trace-names fuel k (k.memory rbp) names o fits st.2 (omega arith),
)

under_heading :
    (calls lines : List Call) (a b c d : Call)
    → (head : List Call) × ((calls ++ a ∷ b ∷ c ∷ d ∷ []) ++ lines ≡ head ++ c ∷ d ∷ lines)
under_heading calls lines a b c d = (
  calls ++ a ∷ b ∷ [],
  append_assoc calls (a ∷ b ∷ c ∷ d ∷ []) lines
      ∙ sym (append_assoc calls (a ∷ b ∷ []) (c ∷ d ∷ lines)),
)

-- The report up to the line above the names.
report_head-last :
    (k : Kernel) (regs : Registers) (lines : List Call)
    → (head : List Call) × (report_head k regs ++ lines
        ≡ head ++ (codes "\n\t\t >>> Stacktrace\n", []) ∷ frame_line (label_of k regs.rip) ∷ lines)
unfolding report_head
report_head-last k regs lines = under_heading (_ ∷ _ ∷ _) lines _ _ _ _

-- In a kernel whose symbols are in the order of their addresses, over a stack of frames that ends in
-- 0, where the interrupted address and each one returned to is, less the kernel's slide, inside the
-- kernel, from a symbol on and before the next one, and with a unit of fuel more than there are
-- frames, the report of an exception ends; under its last heading it names, in order, the function
-- that was interrupted and those that the frames return to.
pub exception_handler-ends :
    (fuel : ℕ) (k : Kernel) (regs : Registers) (name : List ℕ) (names : List (List ℕ))
    → IsOrdered k.symtab
    → k.kernel_start < 2 ^ 64
    → IsNamed k regs.rip name
    → IsStack k regs.rbp names
    → length names < fuel
    → (head : List Call) × (exception_handler fuel k regs
        ≡ some (head ++ (codes "\n\t\t >>> Stacktrace\n", []) ∷ name_lines (name ∷ names)))
unfolding exception_handler
exception_handler-ends fuel k regs name names o fits n st enough = (
  last.0,
  ap (λ m. m >>= λ lines. some (report_head k regs ++ lines))
        (stack_trace-names fuel k regs.rbp names o fits st enough)
      ∙ ap some last.1
      ∙ ap
          (λ t.
            some
              (last.0 ++ (codes "\n\t\t >>> Stacktrace\n", []) ∷ frame_line t ∷ name_lines names))
          (label_of-name k regs.rip name o fits n),
)
  where
    last :
        (head : List Call) × (report_head k regs ++ name_lines names
          ≡ head
            ++ (codes "\n\t\t >>> Stacktrace\n", [])
              ∷ frame_line (label_of k regs.rip)
              ∷ name_lines names)
    last = report_head-last k regs (name_lines names)
