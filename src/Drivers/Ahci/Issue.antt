-- ===== src/Drivers/Ahci/Issue.antt =====
-- kernel/src/drivers/disk/ahci/ahci.cpp: command_read and command_write, with the device's answers to
-- the reads as functions of how often a loop has read.
use micron.Base.{
  ℕ, zero, suc, ◌+◌, ◌-◌, ◌*◌, ◌^◌, bit_and, bit_or, Bool, true, false, Option, none, some, ltb,
  ◌==◌, if◌then◌else◌, ◌<<<◌, ◌>>>◌,
}
use micron.Drivers.Ahci.{HbaPort, Command, find_command_slot, set_up_command}

-- What the n-th read of a register in a loop gives.
pub record Device : Type 0 where
  pub task_file_data : ℕ → ℕ
  pub command_issue : ℕ → ℕ
  pub interrupt_status : ℕ → ℕ

pub data AhciStatus : Type 0 where
  success : AhciStatus
  device_hung : AhciStatus
  task_file_error : AhciStatus
  device_too_busy : AhciStatus

-- `busy | drq`
unfoldable pub is_busy : ℕ → Bool
is_busy task_file_data = ltb 0 (bit_and task_file_data (bit_or 0x80 0x08))

-- The count that the first loop ends with, with `left` rounds before the limit.
unfoldable pub spin : (left spinlock : ℕ) → Device → ℕ
spin zero spinlock d = spinlock
spin (suc left) spinlock d =
    let rest = spin left (suc spinlock) d in
    if is_busy (d.task_file_data spinlock) then rest else spinlock

unfoldable pub is_done : (command_issue slot : ℕ) → Bool
is_done command_issue slot = bit_and (command_issue >>> slot) 1 == 0

unfoldable pub has_error : ℕ → Bool
has_error interrupt_status = ltb 0 (bit_and interrupt_status (1 <<< 30))

-- The second loop, from its n-th round on; it has no bound, and `none` is fuel that is used up.
unfoldable pub wait : (fuel n slot : ℕ) → Device → Option AhciStatus
wait zero n slot d = none
wait (suc fuel) n slot d =
    let rest = wait fuel (suc n) slot d in
    if is_done (d.command_issue n) slot
    then some success
    else if has_error (d.interrupt_status n)
    then some task_file_error
    else rest

-- What a command leaves behind: the port's registers, and what it has written for the controller,
-- with the address of the header and that of the table.
pub record Outcome : Type 0 where
  pub status : AhciStatus
  pub port : HbaPort
  pub written : Option (ℕ × ℕ × Command)

unfoldable pub header_address : HbaPort → ℕ → ℕ
header_address port slot =
    bit_or port.command_list_base (port.command_list_base_upper <<< 32) + slot * 32

unfoldable pub issue : (limit fuel slot : ℕ) → HbaPort → Device → ℕ × ℕ × Command → Option Outcome
issue limit fuel slot port d written =
    let cleared = record port { interrupt_status = 2 ^ 32 - 1 } in
    let issued = record cleared { command_issue = bit_or port.command_issue (1 <<< slot) } in
    if ltb (spin limit 0 d) limit
    then elim (wait fuel 0 slot d) [
      | none ↦ none
      | some status ↦ some (record { status = status; port = issued; written = some written })
    ]
    else some (record { status = device_hung; port = cleared; written = some written })

-- `table_of` gives the two words of a header's table address.
unfoldable pub command_at :
    (limit fuel : ℕ)
    → Option ℕ
    → HbaPort
    → (table_of : ℕ → ℕ × ℕ) → Device
    → Command
    → Option Outcome
command_at limit fuel none port table_of d c =
    some (record { status = device_too_busy; port = port; written = none })
command_at limit fuel (some slot) port table_of d c =
    let header = header_address port slot in
    let (low, high) = table_of header in
    issue limit fuel slot port d (header, bit_or low (high <<< 32), c)

unfoldable pub spin_limit : ℕ
spin_limit = 1000000

unfoldable pub command_read :
    (fuel : ℕ)
    → HbaPort
    → (table_of : ℕ → ℕ × ℕ) → Device
    → (sector sector_count buffer : ℕ) → Option Outcome
command_read fuel port table_of d sector sector_count buffer =
    command_at spin_limit fuel (find_command_slot port) port table_of d
      (set_up_command false 0x25 sector sector_count buffer)

unfoldable pub command_write :
    (fuel : ℕ)
    → HbaPort
    → (table_of : ℕ → ℕ × ℕ) → Device
    → (sector sector_count buffer : ℕ) → Option Outcome
command_write fuel port table_of d sector sector_count buffer =
    command_at spin_limit fuel (find_command_slot port) port table_of d
      (set_up_command true 0x35 sector sector_count buffer)
