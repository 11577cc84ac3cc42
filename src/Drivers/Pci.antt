-- ===== src/Drivers/Pci.antt =====
-- kernel/src/drivers/acpi/pci.cpp and acpi.cpp: the tables of the firmware and the search for devices.
pub mod Search
use micron.Base.{
  ℕ, zero, suc, ◌+◌, ◌-◌, ◌*◌, ◌/◌, ◌^◌, Bool, true, false, not, ◌&&◌, ◌||◌, Option, none, some,
  List, [], ◌∷◌, ◌++◌, ltb, ◌==◌, if◌then◌else◌, ◌<<<◌,
}

-- The fields of `device_header` that the search reads.
pub record DeviceHeader : Type 0 where
  pub device_id : ℕ
  pub program_interface : ℕ
  pub device_subclass : ℕ
  pub device_class : ℕ

pub record DeviceConfiguration : Type 0 where
  pub base : ℕ
  pub start_bus : ℕ
  pub end_bus : ℕ

-- What the search does: it maps a page on itself, or hands a device to the disk driver.
pub data Visit : Type 0 where
  map_memory : ℕ → Visit
  ahci_initialize : ℕ → Visit

unfoldable pub is_absent : DeviceHeader → Bool
is_absent header = (header.device_id == 0) || (header.device_id == 0xFFFF)

-- A mass storage controller (1), for serial ATA (6), that speaks AHCI 1.0 (1).
unfoldable pub is_ahci : DeviceHeader → Bool
is_ahci header =
    (header.device_class == 0x01)
    && (header.device_subclass == 0x06)
    && (header.program_interface == 0x01)

-- `memory` gives the header that stands at an address.
module _ (memory : ℕ → DeviceHeader) where
  unfoldable pub enumerate_function : (device_address function : ℕ) → List Visit
  enumerate_function device_address function =
      let function_address = device_address + (function <<< 12) in
      map_memory function_address
      ∷ (if is_absent (memory function_address)
          then []
          else if is_ahci (memory function_address)
          then ahci_initialize function_address ∷ []
          else [])

  -- `n` functions are left from `function` on; the same for devices and buses.
  unfoldable pub enumerate_functions : (n device_address function : ℕ) → List Visit
  enumerate_functions zero device_address function = []
  enumerate_functions (suc n) device_address function =
      enumerate_function device_address function
      ++ enumerate_functions n device_address (suc function)

  unfoldable pub enumerate_device : (bus_address device : ℕ) → List Visit
  enumerate_device bus_address device =
      let device_address = bus_address + (device <<< 15) in
      map_memory device_address
      ∷ (if is_absent (memory device_address) then [] else enumerate_functions 8 device_address 0)

  unfoldable pub enumerate_devices : (n bus_address device : ℕ) → List Visit
  enumerate_devices zero bus_address device = []
  enumerate_devices (suc n) bus_address device =
      enumerate_device bus_address device ++ enumerate_devices n bus_address (suc device)

  unfoldable pub enumerate_bus : (base bus : ℕ) → List Visit
  enumerate_bus base bus =
      let bus_address = base + (bus <<< 20) in
      map_memory bus_address
      ∷ (if is_absent (memory bus_address) then [] else enumerate_devices 32 bus_address 0)

  unfoldable pub enumerate_buses : (n base bus : ℕ) → List Visit
  enumerate_buses zero base bus = []
  enumerate_buses (suc n) base bus = enumerate_bus base bus ++ enumerate_buses n base (suc bus)

  -- The entries of the table; each loop over the buses stops before `end_bus`.
  unfoldable pub enumerate_pci : List DeviceConfiguration → List Visit
  enumerate_pci [] = []
  enumerate_pci (d ∷ entries) =
      enumerate_buses (d.end_bus - d.start_bus) d.base d.start_bus ++ enumerate_pci entries

-- The first four characters are compared one by one; `signature_at` reads those of a table.
unfoldable pub same_signature : (n j : ℕ) → (signature other : ℕ → ℕ) → Bool
same_signature zero j signature other = true
same_signature (suc n) j signature other =
    if signature j == other j then same_signature n (suc j) signature other else false

-- The addresses of the tables that the XSDT lists; `none` is `nullptr`.
unfoldable pub get_table : (signature : ℕ → ℕ) → (signature_at : ℕ → ℕ → ℕ) → List ℕ → Option ℕ
get_table signature signature_at [] = none
get_table signature signature_at (table ∷ tables) =
    if same_signature 4 0 signature (signature_at table)
    then some table
    else get_table signature signature_at tables
