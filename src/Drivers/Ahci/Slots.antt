-- ===== src/Drivers/Ahci/Slots.antt =====
-- The slot for a command.
use micron.Base.{
  ℕ, zero, suc, ◌+◌, ◌/◌, ◌<◌, ◌≡◌, ◌⊎◌, inl, inr, refl, arith, ◌∙◌, bit_and, bit_or, Option, none,
  some, ◌==◌, ◌>>>◌, if◌then◌else◌, true, false, Bool-cases,
}
use micron.Bits.{bit, bit-le, bit_and-pow}
use micron.Drivers.Ahci.{HbaPort, slot_loop, find_command_slot}

-- The first clear bit, counted from the lowest, among `n` bits, or none where all of them are set.
abbrev pub FirstClear : ℕ → ℕ → Option ℕ → Type 0
FirstClear n slots none = (j : ℕ) → j < n → bit j slots ≡ 1
FirstClear n slots (some k) = (k < n) × (bit k slots ≡ 0) × ((j : ℕ) → j < k → bit j slots ≡ 1)

-- The answer of the loop, for a loop that began at `i`.
abbrev FirstFrom : ℕ → ℕ → ℕ → Option ℕ → Type 0
FirstFrom i n slots none = FirstClear n slots none
FirstFrom i n slots (some k) = (m : ℕ) × (k ≡ i + m) × FirstClear n slots (some m)

bit-suc : (j v : ℕ) → bit (suc j) v ≡ bit j (v / 2)
unfolding bit
bit-suc j v = refl

bit-lowest : (v : ℕ) → bit_and v 1 ≡ bit 0 v
bit-lowest v = omega (arith, bit_and-pow 0 v)

below_suc :
    (P : ℕ → Type 0) (n : ℕ) → P 0 → ((j : ℕ) → j < n → P (suc j)) → (j : ℕ) → j < suc n → P j
below_suc P n first later zero h = first
below_suc P n first later (suc j) h = later j (omega arith)

FirstFrom-later :
    (n i slots : ℕ) (r : Option ℕ)
    → bit 0 slots ≡ 1
    → FirstFrom (suc i) n (slots / 2) r
    → FirstFrom i (suc n) slots r
FirstFrom-later n i slots none taken rest =
    below_suc (λ j. bit j slots ≡ 1) n taken (λ j h. bit-suc j slots ∙ rest j h)
FirstFrom-later n i slots (some k) taken (m, e, (below, clear, lower)) = (
  suc m,
  omega arith,
  (
    omega arith,
    bit-suc m slots ∙ clear,
    below_suc (λ j. bit j slots ≡ 1) m taken (λ j h. bit-suc j slots ∙ lower j h),
  ),
)

lowest_clear : (slots : ℕ) → (bit_and slots 1 == 0) ≡ true → bit 0 slots ≡ 0
lowest_clear slots e = ground (arith, bit-lowest slots)

lowest_set : (slots : ℕ) → (bit_and slots 1 == 0) ≡ false → bit 0 slots ≡ 1
lowest_set slots e = ground (arith, bit-lowest slots, bit-le 0 slots)

slot_loop-FirstFrom : (n i slots : ℕ) → FirstFrom i n slots (slot_loop n i slots)
unfolding slot_loop
slot_loop-FirstFrom zero i slots = λ j h. absurd (omega arith)
slot_loop-FirstFrom (suc n) i slots =
    choose (slot_loop n (suc i) (slots >>> 1)) (Bool-cases (bit_and slots 1 == 0))
      (slot_loop-FirstFrom n (suc i) (slots >>> 1))
  where
    choose :
        (r : Option ℕ)
        → ((bit_and slots 1 == 0) ≡ true) ⊎ ((bit_and slots 1 == 0) ≡ false)
        → FirstFrom (suc i) n (slots >>> 1) r
        → FirstFrom i (suc n) slots (if bit_and slots 1 == 0 then some i else r)
    choose r (inl e) rest =
        rw e (0, omega arith, (omega arith, lowest_clear slots e, λ j h. absurd (omega arith)))
    choose r (inr e) rest = rw e (FirstFrom-later n i slots r (lowest_set slots e) rest)

FirstFrom-zero : (n slots : ℕ) (r : Option ℕ) → FirstFrom 0 n slots r → FirstClear n slots r
FirstFrom-zero n slots none found = found
FirstFrom-zero n slots (some k) (m, e, found) = rw (k_is k m e) found
  where
    k_is : (k m : ℕ) → k ≡ 0 + m → k ≡ m
    k_is k m e = omega arith

-- The slot for a command is the lowest of the 32 whose bit is clear both in the active and in the
-- issued commands; `-1` says that each of them is set in one of the two.
pub find_command_slot-FirstClear :
    (port : HbaPort)
    → FirstClear 32 (bit_or port.sata_active port.command_issue) (find_command_slot port)
unfolding find_command_slot
find_command_slot-FirstClear port =
    FirstFrom-zero 32 (bit_or port.sata_active port.command_issue)
      (slot_loop 32 0 (bit_or port.sata_active port.command_issue))
      (slot_loop-FirstFrom 32 0 (bit_or port.sata_active port.command_issue))
