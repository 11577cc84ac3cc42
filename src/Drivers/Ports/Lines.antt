-- ===== src/Drivers/Ports/Lines.antt =====
-- The interrupt lines that are masked.
use native.Mathlib.Nat.{pow-le-pow_right}
use micron.Base.{
  ℕ, ◌-◌, ◌*◌, ◌^◌, ◌≤◌, ◌<◌, ◌≡◌, arith, ap, ◌∙◌, bit_and, bit_or, min, max, ◌==◌, if◌then◌else◌,
  ◌<<<◌, complement,
}
use micron.Bits.{bit, bit-le, bit-bit_and, bit-bit_or, bit-complement, bit-pow}
use micron.Bits.Places.{bit-mod}
use micron.Drivers.Ports.{line_port, line_bit, irq_mask, irq_unmask}

line_bit-lt : (irq : ℕ) → irq < 16 → line_bit irq < 8
unfolding line_bit
line_bit-lt irq h = ground arith

bit-line : (k i : ℕ) → bit i (1 <<< k) ≡ (if k == i then 1 else 0)
bit-line k i = ap (bit i) (one_times (2 ^ k)) ∙ bit-pow i k
  where
    one_times : (n : ℕ) → 1 * n ≡ n
    one_times n = omega arith

with_line : (b k i : ℕ) → b ≤ 1 → max b (if k == i then 1 else 0) ≡ (if k == i then 1 else b)
with_line b k i h = ground arith

without_line :
    (b k i : ℕ) → b ≤ 1 → min b (1 - (if k == i then 1 else 0)) ≡ (if k == i then 0 else b)
without_line b k i h = ground arith

pow_fits : (k : ℕ) → k < 8 → 1 <<< k < 2 ^ 32
pow_fits k h = omega (arith, pow-le-pow_right {n = 2} (omega arith) {i = k} {j = 8} (omega arith))

-- `irq_mask` sets the line's bit in the mask of its chip and leaves the other seven as they were
-- read; `irq_unmask` clears it and leaves the others.
irq_mask-irq_unmask :
    (inb : ℕ → ℕ) (irq i : ℕ)
    → irq < 16
    → i < 8
    → (bit i (irq_mask inb irq).1 ≡ (if line_bit irq == i then 1 else bit i (inb (line_port irq))))
      × (bit i (irq_unmask inb irq).1
          ≡ (if line_bit irq == i then 0 else bit i (inb (line_port irq))))
unfolding irq_mask irq_unmask
irq_mask-irq_unmask inb irq i h hi = (
  bit-mod 8 i (bit_or (inb (line_port irq)) (1 <<< line_bit irq)) hi
      ∙ bit-bit_or i (inb (line_port irq)) (1 <<< line_bit irq)
      ∙ ap (max (bit i (inb (line_port irq)))) (bit-line (line_bit irq) i)
      ∙ with_line (bit i (inb (line_port irq))) (line_bit irq) i (bit-le i (inb (line_port irq))),
  bit-mod 8 i (bit_and (inb (line_port irq)) (complement 32 (1 <<< line_bit irq))) hi
      ∙ bit-bit_and i (inb (line_port irq)) (complement 32 (1 <<< line_bit irq))
      ∙ ap (min (bit i (inb (line_port irq)))) (
          bit-complement i 32 (1 <<< line_bit irq) (omega arith)
            (pow_fits (line_bit irq) (line_bit-lt irq h))
          ∙ ap (λ (n : ℕ). 1 - n) (bit-line (line_bit irq) i))
      ∙ without_line (bit i (inb (line_port irq))) (line_bit irq) i
          (bit-le i (inb (line_port irq))),
)
