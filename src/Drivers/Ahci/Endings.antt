-- ===== src/Drivers/Ahci/Endings.antt =====
-- How a command ends, whatever the device does.
use mathlib.Core.Path.{subst}
use micron.Base.{
  ℕ, zero, suc, ◌+◌, ◌≤◌, ◌<◌, ◌≡◌, ◌⊎◌, inl, inr, refl, ap, lt→ltb, sym, ◌∙◌, arith, true, false,
  Option, some, ltb, if◌then◌else◌, bit_or, ◌<<<◌,
}
use micron.Drivers.Ahci.{HbaPort, Command, find_command_slot, set_up_command}
use micron.Drivers.Ahci.Issue.{
  Device, AhciStatus, success, device_hung, task_file_error, is_busy, spin, is_done, has_error,
  wait, Outcome, header_address, issue, command_at, spin_limit, command_read, command_write,
}

-- The device frees its lines at the n-th read, and no sooner.
pub record FreeAt (n : ℕ) (d : Device) : Type 0 where
  pub free : is_busy (d.task_file_data n) ≡ false
  pub before : (k : ℕ) → k < n → is_busy (d.task_file_data k) ≡ true

-- In its n-th round the second loop sees the command done, or an error, and no sooner.
pub record EndsAt (n slot : ℕ) (d : Device) : Type 0 where
  pub ends : (is_done (d.command_issue n) slot ≡ true) ⊎ (has_error (d.interrupt_status n) ≡ true)
  pub waits :
      (k : ℕ)
      → k < n
      → (is_done (d.command_issue k) slot ≡ false) × (has_error (d.interrupt_status k) ≡ false)

spin-FreeAt : (left s n : ℕ) (d : Device) → FreeAt n d → s ≤ n → n < s + left → spin left s d ≡ n
unfolding spin
spin-FreeAt zero s n d f h k = absurd (omega arith)
spin-FreeAt (suc left) s n d f h k = elim (lt_or_eq s n h) [
  | inl less ↦ rw (f.before s less) (spin-FreeAt left (suc s) n d f (omega arith) (omega arith))
  | inr same ↦ ground (arith, f.free, ap d.task_file_data same)
]
  where
    lt_or_eq : (a b : ℕ) → a ≤ b → (a < b) ⊎ (a ≡ b)
    lt_or_eq a b q = omega arith

spin_busy :
    (left s : ℕ) (d : Device)
    → ((k : ℕ) → k < s + left → is_busy (d.task_file_data k) ≡ true)
    → spin left s d ≡ s + left
unfolding spin
spin_busy zero s d busy = omega arith
spin_busy (suc left) s d busy =
    rw (busy s (omega arith)) (spin_busy left (suc s) d (λ k h. busy k (omega arith)) ∙ omega arith)

-- The status that the round decides.
unfoldable pub ending : (n slot : ℕ) → Device → AhciStatus
ending n slot d = if is_done (d.command_issue n) slot then success else task_file_error

wait-EndsAt :
    (fuel k n slot : ℕ) (d : Device)
    → EndsAt n slot d
    → k ≤ n
    → n < k + fuel
    → wait fuel k slot d ≡ some (ending n slot d)
unfolding wait ending
wait-EndsAt zero k n slot d e h q = absurd (omega arith)
wait-EndsAt (suc fuel) k n slot d e h q = elim (lt_or_eq k n h) [
  | inl less ↦
      rw ((e.waits k less).0)
        (rw ((e.waits k less).1) (wait-EndsAt fuel (suc k) n slot d e (omega arith) (omega arith)))
  | inr same ↦
      subst (λ j. wait (suc fuel) j slot d ≡ some (ending n slot d)) (sym same) (decide e.ends)
]
  where
    lt_or_eq : (a b : ℕ) → a ≤ b → (a < b) ⊎ (a ≡ b)
    lt_or_eq a b r = omega arith

    decide :
        (is_done (d.command_issue n) slot ≡ true) ⊎ (has_error (d.interrupt_status n) ≡ true)
        → wait (suc fuel) n slot d ≡ some (ending n slot d)
    decide ends = ground arith

-- A result: the status, what is issued, and what is written for the controller.
pub record Finishes (status : AhciStatus) (issued : ℕ) (slot : ℕ) (port : HbaPort)
    (table_of : ℕ → ℕ × ℕ) (c : Command) (r : Option Outcome) : Type 0 where
  pub outcome : Outcome
  pub returns : r ≡ some outcome
  pub status_is : outcome.status ≡ status
  pub issue_is : outcome.port.command_issue ≡ issued
  pub written_is :
      outcome.written
      ≡ some (
        header_address port slot,
        bit_or
            (table_of (header_address port slot)).0
            ((table_of (header_address port slot)).1 <<< 32),
        c,
      )

module _ (limit slot : ℕ) (port : HbaPort) (table_of : ℕ → ℕ × ℕ) (d : Device) (c : Command) where
  command_at-Finishes :
      (fuel n m : ℕ)
      → FreeAt n d
      → n < limit
      → EndsAt m slot d
      → m < fuel
      → Finishes
          (ending m slot d)
          (bit_or port.command_issue (1 <<< slot))
          slot
          port
          table_of
          c
          (command_at limit fuel (some slot) port table_of d c)
  unfolding command_at issue
  command_at-Finishes fuel n m free soon ends enough =
      rw
        (lt→ltb (spin limit 0 d) limit
          (rw (spin-FreeAt limit 0 n d free (omega arith) (omega arith)) soon))
        (rw (wait-EndsAt fuel 0 m slot d ends (omega arith) (omega arith)) (record {
          outcome = _;
          returns = refl;
          status_is = refl;
          issue_is = refl;
          written_is = refl;
        }))

  command_at_hung :
      (fuel : ℕ)
      → ((k : ℕ) → k < limit → is_busy (d.task_file_data k) ≡ true)
      → Finishes device_hung port.command_issue slot port table_of c
          (command_at limit fuel (some slot) port table_of d c)
  unfolding command_at issue
  command_at_hung fuel busy =
      rw (not_below (spin limit 0 d) (spin_busy limit 0 d (λ k h. busy k (omega arith)))) (record {
        outcome = _;
        returns = refl;
        status_is = refl;
        issue_is = refl;
        written_is = refl;
      })
    where
      not_below : (n : ℕ) → n ≡ 0 + limit → ltb n limit ≡ false
      not_below n e = ground arith

module _ (port : HbaPort) (slot : ℕ) (table_of : ℕ → ℕ × ℕ) (d : Device)
    (sector sector_count buffer : ℕ) (has_slot : find_command_slot port ≡ some slot) where
  -- With a free slot, a device that frees its lines within the million reads, and that then
  -- answers at some read that the command is done or has failed, `command_read` and
  -- `command_write` return with fuel for that read, with success if it is done and with an error
  -- if not; the command has been written and issued.
  pub command-ends :
      (fuel n m : ℕ)
      → FreeAt n d
      → n < spin_limit
      → EndsAt m slot d
      → m < fuel
      → Finishes
          (ending m slot d)
          (bit_or port.command_issue (1 <<< slot))
          slot
          port
          table_of
          (set_up_command false 0x25 sector sector_count buffer)
          (command_read fuel port table_of d sector sector_count buffer)
        × Finishes
            (ending m slot d)
            (bit_or port.command_issue (1 <<< slot))
            slot
            port
            table_of
            (set_up_command true 0x35 sector sector_count buffer)
            (command_write fuel port table_of d sector sector_count buffer)
  unfolding command_read command_write
  command-ends fuel n m free soon ends enough = rw has_slot (
    command_at-Finishes spin_limit slot port table_of d _ fuel n m free soon ends enough,
    command_at-Finishes spin_limit slot port table_of d _ fuel n m free soon ends enough,
  )

  -- With a free slot, and a device that is busy for a million reads, `command_read` and
  -- `command_write` return that it hangs, with any fuel; nothing is issued.
  pub command_hung :
      (fuel : ℕ)
      → ((k : ℕ) → k < spin_limit → is_busy (d.task_file_data k) ≡ true)
      → Finishes device_hung port.command_issue slot port table_of
          (set_up_command false 0x25 sector sector_count buffer)
          (command_read fuel port table_of d sector sector_count buffer)
        × Finishes device_hung port.command_issue slot port table_of
            (set_up_command true 0x35 sector sector_count buffer)
            (command_write fuel port table_of d sector sector_count buffer)
  unfolding command_read command_write
  command_hung fuel busy = rw has_slot (
    command_at_hung spin_limit slot port table_of d _ fuel busy,
    command_at_hung spin_limit slot port table_of d _ fuel busy,
  )
