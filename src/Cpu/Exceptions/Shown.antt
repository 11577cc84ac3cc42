-- ===== src/Cpu/Exceptions/Shown.antt =====
-- What the report of a page fault shows of the address.
use micron.Base.{
  ℕ, ◌≡◌, refl, ap₂, arith, Bool, true, false, Option, none, some, List, [], ◌∷◌, ◌++◌, ◌==◌,
  if◌then◌else◌, u32, ◌>>=◌, codes,
}
use micron.Drivers.Printf.{Out}
use micron.Drivers.Printf.Convert.{vprintf}
use micron.Drivers.Printf.Hex.{vprintf-hex}
use micron.Cpu.Exceptions.{
  Registers, Kernel, Call, page_access_lines, page_fault_lines, report_head, displayed,
  exception_handler, stack_trace,
}

-- Two rows of calls that display the same, one by one.
abbrev Alike : List Call → List Call → Type 0
Alike [] [] = Unit
Alike [] (c ∷ calls) = ⊥
Alike (c ∷ calls) [] = ⊥
Alike (c ∷ calls) (d ∷ others) = (vprintf c.0 c.1 ≡ vprintf d.0 d.1) × Alike calls others

displayed-Alike :
    (calls others : List Call) → Alike calls others → displayed calls ≡ displayed others
unfolding displayed
displayed-Alike [] [] h = refl
displayed-Alike [] (c ∷ others) h = absurd h
displayed-Alike (c ∷ calls) [] h = absurd h
displayed-Alike ((f, l) ∷ calls) ((f', l') ∷ others) (e, h) =
    ap₂ (λ (m : Option Out) (n : Option (List ℕ)). m >>= λ o. n >>= λ rest. some (o.shown ++ rest))
      e (displayed-Alike calls others h)

Alike-self : (calls : List Call) → Alike calls calls
Alike-self [] = tt
Alike-self (c ∷ calls) = (refl, Alike-self calls)

Alike-append :
    (calls others rest : List Call) → Alike calls others → Alike (calls ++ rest) (others ++ rest)
Alike-append [] [] rest h = Alike-self rest
Alike-append [] (c ∷ others) rest h = absurd h
Alike-append (c ∷ calls) [] rest h = absurd h
Alike-append (c ∷ calls) (d ∷ others) rest (e, h) = (e, Alike-append calls others rest h)

Alike-if :
    (b : Bool) (calls others : List Call)
    → Alike calls others
    → Alike (if b then calls else []) (if b then others else [])
Alike-if true calls others h = h
Alike-if false calls others h = tt

module _ (k : Kernel) (regs : Registers) (a b : ℕ) (same : u32 a ≡ u32 b) where
  page_fault-Alike :
      Alike
        (page_fault_lines (record regs { cr2 = a }))
        (page_fault_lines (record regs { cr2 = b }))
  unfolding page_fault_lines page_access_lines
  page_fault-Alike = (
    vprintf-hex (codes "\t\t >>> Page Fault accessing ") (codes "\n") a b (omega arith) same,
    Alike-self (page_access_lines regs),
  )

  head-Alike :
      Alike (report_head k (record regs { cr2 = a })) (report_head k (record regs { cr2 = b }))
  unfolding report_head
  head-Alike = (
    refl,
    (refl, Alike-append _ _ _ (Alike-if (regs.interrupt_number == 0xE) _ _ page_fault-Alike)),
  )

-- Two exceptions whose `cr2` agree in the lower 32 bits, with the other registers alike, display the
-- same report: the upper half of the address of a page fault is not shown.
pub exception_handler_low_half :
    (fuel : ℕ) (k : Kernel) (regs : Registers) (a b : ℕ)
    → u32 a ≡ u32 b
    → (exception_handler fuel k (record regs { cr2 = a }) >>= displayed)
      ≡ (exception_handler fuel k (record regs { cr2 = b }) >>= displayed)
unfolding exception_handler
exception_handler_low_half fuel k regs a b same = shown (stack_trace fuel k regs.rbp)
  where
    shown :
        (m : Option (List Call))
        → (m >>= (λ lines. some (report_head k (record regs { cr2 = a }) ++ lines)) >>= displayed)
          ≡ (m >>= (λ lines. some (report_head k (record regs { cr2 = b }) ++ lines)) >>= displayed)
    shown none = refl
    shown (some lines) = displayed-Alike _ _ (Alike-append _ _ lines (head-Alike k regs a b same))
