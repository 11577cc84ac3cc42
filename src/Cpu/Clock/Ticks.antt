-- ===== src/Cpu/Clock/Ticks.antt =====
-- The clock over many interrupts, and the acknowledgements.
use micron.Base.{
  Bool, true, false, ℕ, zero, suc, ◌+◌, ◌*◌, ◌^◌, ◌≤◌, ◌<◌, ◌≡◌, refl, ap, arith, leb,
  if◌then◌else◌, u32, u64,
}
use micron.Cpu.Clock.{Clock, tick, irq_handler}

-- The state after `n` interrupts of the timer, which is interrupt 32.
pub ticks : ℕ → Clock → Clock
ticks zero c = c
ticks (suc n) c = (irq_handler 32 (ticks n c)).0

abbrev pub start : ℕ → Clock
start hz = record { ms_clock = 0; milliseconds = 0; seconds = 0; frequency_hz = hz }

-- What the clock holds after `n` ticks at `hz` to the second.
pub record Shows (n hz : ℕ) (c : Clock) : Type 0 where
  pub ms_clock : c.ms_clock ≡ n
  pub split : c.seconds * hz + c.milliseconds ≡ n
  pub below : c.milliseconds < hz
  pub bounded : c.seconds ≤ n
  pub rate : c.frequency_hz ≡ hz

if-Shows :
    (n hz : ℕ) (b : Bool) (c d : Clock)
    → (b ≡ true → Shows n hz c)
    → (b ≡ false → Shows n hz d)
    → Shows n hz (if b then c else d)
if-Shows n hz true c d h k = h refl
if-Shows n hz false c d h k = k refl

module _ (n hz : ℕ) (c : Clock) (small : hz < 2 ^ 32) (fits : suc n < 2 ^ 64)
    (h : Shows n hz c) where
  -- The milliseconds of the next tick do not wrap.
  next_ms : u32 (c.milliseconds + 1) ≡ c.milliseconds + 1
  next_ms = omega (arith, h.below)

  carry :
      leb c.frequency_hz (u32 (c.milliseconds + 1)) ≡ true
      → Shows (suc n) hz (record c {
        ms_clock = u64 (c.ms_clock + 1);
        milliseconds = 0;
        seconds = u64 (c.seconds + 1);
      })
  carry due = record {
    ms_clock = omega (arith, h.ms_clock);
    split = ground (arith, ap (λ (t : ℕ). t * hz) next_second, h.split, next_ms, h.rate, h.below);
    below = omega (arith, h.below);
    bounded = ground (arith, next_second, second_room);
    rate = h.rate;
  }
    where
      at_end : c.milliseconds + 1 ≡ hz
      at_end = ground (arith, next_ms, h.rate, h.below)

      second_room : c.seconds + 1 ≤ suc n
      second_room = omega (arith, h.bounded)

      next_second : u64 (c.seconds + 1) ≡ c.seconds + 1
      next_second = omega (arith, second_room)

  count_on :
      leb c.frequency_hz (u32 (c.milliseconds + 1)) ≡ false
      → Shows
          (suc n)
          hz
          (record c { ms_clock = u64 (c.ms_clock + 1); milliseconds = u32 (c.milliseconds + 1) })
  count_on waiting = record {
    ms_clock = omega (arith, h.ms_clock);
    split = omega (arith, next_ms, h.split);
    below = ground (arith, next_ms, h.rate, h.below);
    bounded = omega (arith, h.bounded);
    rate = h.rate;
  }

  tick-Shows : Shows (suc n) hz (tick c)
  unfolding tick
  tick-Shows =
      if-Shows (suc n) hz (leb c.frequency_hz (u32 (c.milliseconds + 1))) _ _ carry count_on

-- Started at zero, after `n` timer interrupts the clock has counted `n` milliseconds, and its
-- seconds and milliseconds split them by the timer's frequency.
pub ticks-Shows : (n hz : ℕ) → 0 < hz → hz < 2 ^ 32 → n < 2 ^ 64 → Shows n hz (ticks n (start hz))
unfolding ticks irq_handler
ticks-Shows zero hz pos small fits = record {
  ms_clock = refl;
  split = omega arith;
  below = pos;
  bounded = omega arith;
  rate = refl;
}
ticks-Shows (suc n) hz pos small fits =
    tick-Shows n hz (ticks n (start hz)) small fits (ticks-Shows n hz pos small (omega arith))
