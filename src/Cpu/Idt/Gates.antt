-- ===== src/Cpu/Idt/Gates.antt =====
-- The gates that `load_idt` leaves.
use micron.Base.{
  ℕ, zero, suc, ◌+◌, ◌*◌, ◌/◌, ◌^◌, ◌≤◌, ◌<◌, ◌≡◌, ◌⊎◌, inl, inr, refl, ◌∙◌, arith, ltb,
  if◌then◌else◌,
}
use micron.Bits.Fields.{bit_and_mask}
use micron.Cpu.Idt.{IdtDescriptor, Idt, gate, idt_set, null_gate, set_gates, load_idt}

-- The address that the processor reads from a gate.
abbrev pub handler_of : IdtDescriptor → ℕ
handler_of d = d.base_low + 2 ^ 16 * d.base_mid + 2 ^ 32 * d.base_high

pub handler_of-gate :
    (number base selector flags : ℕ)
    → base < 2 ^ 64
    → handler_of (gate number base selector flags) ≡ base
unfolding gate
handler_of-gate number base selector flags h =
    omega (
      arith,
      bit_and_mask 16 base,
      bit_and_mask 16 (base / 2 ^ 16),
      bit_and_mask 32 (base / 2 ^ 32),
    )

set_gates-outside :
    (first : ℕ) (handler : ℕ → ℕ) (n : ℕ) (idt : Idt) (i : ℕ)
    → (i < first) ⊎ (first + n ≤ i)
    → set_gates first handler n idt i ≡ idt i
unfolding set_gates idt_set
set_gates-outside first handler zero idt i out = refl
set_gates-outside first handler (suc n) idt i out =
    ground (arith, set_gates-outside first handler n idt i)

set_gates-inside :
    (first : ℕ) (handler : ℕ → ℕ) (n : ℕ) (idt : Idt) (i k : ℕ)
    → i ≡ first + k
    → k < n
    → set_gates first handler n idt i ≡ gate i (handler k) 0x08 0x8e
unfolding set_gates idt_set
set_gates-inside first handler zero idt i k e h = absurd (omega arith)
set_gates-inside first handler (suc n) idt i k e h =
    ground (arith, set_gates-inside first handler n idt i k)

-- A present interrupt gate of the kernel's code segment that leads to `handler`, on the stack `ist`.
pub record LeadsTo (handler ist : ℕ) (d : IdtDescriptor) : Type 0 where
  pub address : handler_of d ≡ handler
  pub selector : d.selector ≡ 0x08
  pub flags : d.flags ≡ 0x8e
  pub stack : d.reserved_ist ≡ ist

gate-LeadsTo :
    (number handler ist : ℕ)
    → handler < 2 ^ 64
    → (if ltb number 32 then 1 else if ltb number 48 then 2 else 3) ≡ ist
    → LeadsTo handler ist (gate number handler 0x08 0x8e)
gate-LeadsTo number handler ist h e = record {
  address = handler_of-gate number handler 0x08 0x8e h;
  selector = unfold gate in refl;
  flags = unfold gate in refl;
  stack = unfold gate in e;
}

-- After `load_idt` each of the 32 exceptions leads to its own entry point on the first interrupt
-- stack, each of the 16 interrupt requests to its own on the second, and every later gate is empty.
load_idt-LeadsTo :
    (isr irq : ℕ → ℕ) (idt : Idt)
    → ((i : ℕ) → isr i < 2 ^ 64)
    → ((i : ℕ) → irq i < 2 ^ 64)
    → ((i : ℕ) → i < 32 → LeadsTo (isr i) 1 (load_idt isr irq idt i))
      × ((i : ℕ) → i < 16 → LeadsTo (irq i) 2 (load_idt isr irq idt (32 + i)))
      × ((i : ℕ) → 48 ≤ i → i < 256 → load_idt isr irq idt i ≡ null_gate)
unfolding load_idt
load_idt-LeadsTo isr irq idt hs hr = (
  λ i h.
      rw
        (
          set_gates-outside 32 irq 16 exceptions i (inl h),
          set_gates-inside 0 isr 32 cleared i i (omega arith) h,
        )
        (gate-LeadsTo i (isr i) 1 (hs i) (ground arith)),
  λ i h.
      rw (set_gates-inside 32 irq 16 exceptions (32 + i) i refl h)
        (gate-LeadsTo (32 + i) (irq i) 2 (hr i) (ground arith)),
  λ i lo hi.
      set_gates-outside 32 irq 16 exceptions i (inr (omega arith))
      ∙ set_gates-outside 0 isr 32 cleared i (inr (omega arith))
      ∙ ground arith,
)
  where
    cleared : Idt
    cleared number = if ltb number 256 then null_gate else idt number

    exceptions : Idt
    exceptions = set_gates 0 isr 32 cleared
