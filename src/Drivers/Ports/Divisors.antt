-- ===== src/Drivers/Ports/Divisors.antt =====
-- The divisors of the timer's channels.
use micron.Base.{
  ℕ, ◌+◌, ◌*◌, ◌/◌, ◌^◌, ◌<◌, ◌≡◌, ◌≢◌, arith, bit_and, ◌==◌, u8, u16, ◌>>>◌, Option, none, some,
  ◌∷◌, false,
}
use micron.Bits.Fields.{bit_and_mask}
use micron.Drivers.Ports.{Outs, Pit, set_c0_frequency, set_c2_frequency}

-- A word is put together from the two bytes that are sent for it.
two_bytes : (d : ℕ) → d < 2 ^ 16 → bit_and d 0xFF + u8 (d >>> 8) * 2 ^ 8 ≡ d
two_bytes d h = omega (arith, bit_and_mask 8 d)

-- The divisor that a channel counts from after these writes: the low byte is sent first.
unfoldable pub sent : Outs → ℕ
sent (command ∷ low ∷ high ∷ rest) = low.1 + high.1 * 2 ^ 8
sent outs = 0

abbrev pub SendsDivisor : ℕ → Option (Pit × Outs) → Type 0
SendsDivisor d none = ⊥
SendsDivisor d (some (p, outs)) = sent outs ≡ d

-- For a frequency that is not 0, channel 0 is sent the divisor that belongs to it; channel 2 is sent
-- channel 0's divisor, from before the call, whatever the frequency is.
set_c0_frequency-set_c2_frequency :
    (hz : ℕ) (p : Pit)
    → hz ≢ 0
    → p.divisor < 2 ^ 16
    → SendsDivisor (u16 (1193182 / hz)) (set_c0_frequency hz p)
      × SendsDivisor p.divisor (set_c2_frequency hz p)
unfolding set_c0_frequency set_c2_frequency sent
set_c0_frequency-set_c2_frequency hz p nonzero fits =
    rw (is_nonzero hz nonzero)
      (two_bytes (u16 (1193182 / hz)) (omega arith), two_bytes p.divisor fits)
  where
    is_nonzero : (n : ℕ) → n ≢ 0 → (n == 0) ≡ false
    is_nonzero n ne = ground arith
