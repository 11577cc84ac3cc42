-- ===== src/Cpu/Clock.antt =====
-- kernel/src/cpu/interrupts.cpp, `irq_handler`: the clock, the devices, and the end of interrupt.
pub mod Ticks
use micron.Base.{ℕ, ◌+◌, ◌^◌, Bool, List, [], ◌∷◌, ◌++◌, leb, ◌==◌, if◌then◌else◌, u32, u64}

-- `sys::chrono::ms_clock`, and the globals `milliseconds` and `seconds`; `frequency_hz` is that of
-- the interval timer.
pub record Clock : Type 0 where
  pub ms_clock : ℕ
  pub milliseconds : ℕ
  pub seconds : ℕ
  pub frequency_hz : ℕ

unfoldable pub tick : Clock → Clock
tick c =
    let ms = u32 (c.milliseconds + 1) in
    if leb c.frequency_hz ms
    then record c {
      ms_clock = u64 (c.ms_clock + 1);
      milliseconds = 0;
      seconds = u64 (c.seconds + 1);
    }
    else record c { ms_clock = u64 (c.ms_clock + 1); milliseconds = ms }

-- What the handler does besides the clock, in order.
pub data Effect : Type 0 where
  kbd_irq_handler read_character : Effect
  outb : (port value : ℕ) → Effect

unfoldable pub irq_handler : ℕ → Clock → Clock × List Effect
irq_handler interrupt_number c = (
  (if interrupt_number == 32 then tick c else c),
  (if interrupt_number == 33 then kbd_irq_handler ∷ [] else [])
      ++ ((if interrupt_number == 36 then read_character ∷ [] else [])
          ++ ((if leb 40 interrupt_number then outb 0xa0 0x20 ∷ [] else [])
              ++ (outb 0x20 0x20 ∷ []))),
)
