-- ===== src/Tests/Drivers.antt =====
-- The keyboard's subscribers, the disk controller, the search for devices and the small drivers.
use micron.Base.{
  codes, ℕ, zero, suc, ◌+◌, ◌<◌, inl, ◌≡◌, refl, arith, true, false, some, [], ◌∷◌, ◌++◌, bit_or,
  ◌==◌, if◌then◌else◌,
}
use micron.Drivers.Kbd.{
  Modifiers, Subscribers, find_subscriber, keyboard_event_subscribe, keyboard_event_unsubscribe,
  published_to, entries, track,
}
use micron.Drivers.Kbd.Codes.{event, right_modifiers_ignored}
use micron.Drivers.Kbd.Publish.{erase, contains, published_to-subscribe, published_to-unsubscribe}
use micron.Drivers.Ahci.{HbaPort, slot_loop, find_command_slot, served_ports, set_up_command}
use micron.Drivers.Ahci.Slots.{FirstClear, find_command_slot-FirstClear}
use micron.Drivers.Ahci.Ports.{is_served, select, served_ports-select}
use micron.Drivers.Ahci.Issue.{
  Device, device_hung, is_busy, is_done, has_error, spin_limit, command_read, command_write,
}
use micron.Drivers.Ahci.Endings.{FreeAt, EndsAt, Finishes, ending, command-ends, command_hung}
use micron.Drivers.Serial.{read_command, prompt, receive_all}
use micron.Drivers.Serial.Lines.{receive_all-line}
use micron.Drivers.Pci.{DeviceHeader, DeviceConfiguration, enumerate_pci}
use micron.Drivers.Pci.Search.{AllSuit, enumerate_pci-AllSuit}
use micron.Drivers.Ports.{Pit, Console}

abbrev modifiers : Modifiers
modifiers = record {
  shifted = false;
  ctrl_down = false;
  alt_down = false;
  fn_down = false;
  caps_lock = false;
  scroll_lock = true;
  num_lock = false;
}

abbrev port : HbaPort
port = record {
  command_list_base = 0;
  command_list_base_upper = 0;
  fis_base = 0;
  fis_base_upper = 0;
  interrupt_status = 0;
  command_status = 0;
  task_file_data = 0;
  signature = 0x101;
  sata_status = 0x123;
  sata_active = 1;
  command_issue = 2;
}

-- The third read finds the lines free, and the second round of the loop the command done.
abbrev device : Device
device = record {
  task_file_data = λ k. if k == 2 then 0 else 0x80;
  command_issue = λ k. if k == 0 then bit_or 2 4 else 2;
  interrupt_status = λ k. 0;
}

abbrev dead : Device
dead = record { task_file_data = λ k. 0x80; command_issue = λ k. 0; interrupt_status = λ k. 0 }

abbrev table_of : ℕ → ℕ × ℕ
table_of header = (0x5000, 0)

port-slot : find_command_slot port ≡ some 2
unfolding find_command_slot slot_loop
port-slot = refl

find_command_slot-FirstClear_example : FirstClear 32 (bit_or 1 2) (find_command_slot port)
find_command_slot-FirstClear_example = find_command_slot-FirstClear port

device-FreeAt : FreeAt 2 device
unfolding is_busy
device-FreeAt = record { free = refl; before = early }
  where
    early : (k : ℕ) → k < 2 → is_busy (device.task_file_data k) ≡ true
    early zero h = refl
    early (suc zero) h = refl
    early (suc (suc k)) h = absurd (omega arith)

device-EndsAt : EndsAt 1 2 device
unfolding is_done has_error
device-EndsAt = record { ends = inl refl; waits = early }
  where
    early :
        (k : ℕ)
        → k < 1
        → (is_done (device.command_issue k) 2 ≡ false)
          × (has_error (device.interrupt_status k) ≡ false)
    early zero h = (refl, refl)
    early (suc k) h = absurd (omega arith)

command-ends_example :
    Finishes
      (ending 1 2 device)
      (bit_or 2 4)
      2
      port
      table_of
      (set_up_command false 0x25 0x12345 8 0x9000)
      (command_read 2 port table_of device 0x12345 8 0x9000)
    × Finishes
        (ending 1 2 device)
        (bit_or 2 4)
        2
        port
        table_of
        (set_up_command true 0x35 0x12345 8 0x9000)
        (command_write 2 port table_of device 0x12345 8 0x9000)
unfolding spin_limit
command-ends_example =
    command-ends port 2 table_of device 0x12345 8 0x9000 port-slot 2 2 1 device-FreeAt (omega arith)
      device-EndsAt (omega arith)

dead_busy : is_busy 0x80 ≡ true
unfolding is_busy
dead_busy = refl

command_hung_example :
    Finishes device_hung 2 2 port table_of
      (set_up_command false 0x25 0x12345 8 0x9000)
      (command_read 2 port table_of dead 0x12345 8 0x9000)
    × Finishes device_hung 2 2 port table_of
        (set_up_command true 0x35 0x12345 8 0x9000)
        (command_write 2 port table_of dead 0x12345 8 0x9000)
command_hung_example =
    command_hung port 2 table_of dead 0x12345 8 0x9000 port-slot 2 (λ k h. dead_busy)

served_ports-select_example : served_ports 5 (λ i. port) ≡ select (is_served 5 (λ i. port)) 32 0
served_ports-select_example = served_ports-select 5 (λ i. port)

abbrev bridge : DeviceHeader
bridge = record { device_id = 0x2922; program_interface = 1; device_subclass = 6; device_class = 1 }

abbrev configuration : DeviceConfiguration
configuration = record { base = 0xb0000000; start_bus = 0; end_bus = 1 }

enumerate_pci-AllSuit_example :
    AllSuit (λ a. bridge) (enumerate_pci (λ a. bridge) (configuration ∷ []))
enumerate_pci-AllSuit_example = enumerate_pci-AllSuit (λ a. bridge) (configuration ∷ [])

abbrev pit : Pit
pit = record { divisor = 1193; frequency_hz = 1000; c2_divisor = 0; c2_frequency_hz = 0 }

abbrev subscribers : Subscribers
subscribers = record { table = λ i. if i == 0 then 0x1000 else 0x2000; count = 2 }

found : find_subscriber 0x1000 subscribers.table 0 2 ≡ some 0
unfolding find_subscriber
found = refl

published_to-subscribe_example :
    published_to (keyboard_event_subscribe 0x3000 subscribers)
    ≡ published_to subscribers ++ (0x3000 ∷ [])
published_to-subscribe_example = published_to-subscribe 0x3000 subscribers

published_to-unsubscribe_example :
    published_to (keyboard_event_unsubscribe 0x1000 subscribers)
    ≡ erase 0x1000 (published_to subscribers)
published_to-unsubscribe_example = published_to-unsubscribe 0x1000 subscribers 0 found (omega arith)

not_there : contains 0x3000 (published_to subscribers) ≡ false
unfolding contains entries
not_there = refl

right_modifiers_ignored_example :
    (track (event (0x1d + 0x50) true) modifiers ≡ modifiers)
    × (track (event (0x38 + 0x50) true) modifiers ≡ modifiers)
right_modifiers_ignored_example = right_modifiers_ignored modifiers true

receive_all-line_example :
    (c : Console) × (receive_all
        ((116 ∷ 101 ∷ []) ++ 10 ∷ [])
        (record { serial_buffer = λ i. 7; buffer_index = 0 })
      ≡ some (
        (116 ∷ 101 ∷ []) ++ (codes "\r\n" ++ read_command (116 ∷ 101 ∷ []) ++ prompt ++ 0 ∷ []),
        c,
      ))
    × (c.buffer_index ≡ 0)
    × ((i : ℕ) → i < 512 → c.serial_buffer i ≡ 0)
receive_all-line_example =
    receive_all-line (116 ∷ 101 ∷ []) (λ i. 7)
      (omega arith, omega arith, (omega arith, omega arith, tt)) (omega arith)
