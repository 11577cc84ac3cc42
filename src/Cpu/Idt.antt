-- ===== src/Cpu/Idt.antt =====
-- kernel/src/cpu/interrupts.cpp, the interrupt descriptor table: `idt_set` and `load_idt`.
pub mod Gates
use micron.Base.{
  ℕ, zero, suc, ◌+◌, ◌*◌, ◌-◌, ◌^◌, bit_and, ltb, if◌then◌else◌, u8, u16, u32, ◌>>>◌, update,
}

-- `idt_descriptor`
pub record IdtDescriptor : Type 0 where
  pub base_low : ℕ
  pub selector : ℕ
  pub reserved_ist : ℕ
  pub flags : ℕ
  pub base_mid : ℕ
  pub base_high : ℕ
  pub reserved : ℕ

-- `idt_s`, by the number of the gate, a `uint08`.
abbrev pub Idt : Type 0
Idt = ℕ → IdtDescriptor

unfoldable pub gate : ℕ → ℕ → ℕ → ℕ → IdtDescriptor
gate number base selector flags = record {
  base_low = u16 (bit_and base 0xffff);
  base_mid = u16 (bit_and (base >>> 16) 0xffff);
  base_high = u32 (bit_and (base >>> 32) 0xffff_ffff);
  selector = selector;
  flags = flags;
  reserved_ist = if ltb number 32 then 1 else if ltb number 48 then 2 else 3;
  reserved = 0;
}

unfoldable pub idt_set : ℕ → ℕ → ℕ → ℕ → Idt → Idt
idt_set number base selector flags idt = update idt number (gate number base selector flags)

abbrev pub null_gate : IdtDescriptor
null_gate = record {
  base_low = 0;
  selector = 0;
  reserved_ist = 0;
  flags = 0;
  base_mid = 0;
  base_high = 0;
  reserved = 0;
}

-- The first `n` of a row of calls `idt_set(first + i, handler i, 0x08, 0x8E)`.
unfoldable pub set_gates : (first : ℕ) → (handler : ℕ → ℕ) → ℕ → Idt → Idt
set_gates first handler zero idt = idt
set_gates first handler (suc n) idt =
    idt_set (first + n) (handler n) 0x08 0x8e (set_gates first handler n idt)

-- `isr` and `irq` are the addresses of the entry points of interrupts.asm; the table is cleared
-- first, and `lidt` is left out.
unfoldable pub load_idt : (isr irq : ℕ → ℕ) → Idt → Idt
load_idt isr irq idt =
    set_gates 32 irq 16
      (set_gates 0 isr 32 (λ number. if ltb number 256 then null_gate else idt number))
