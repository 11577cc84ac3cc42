-- ===== src/Drivers/Ahci.antt =====
-- kernel/src/drivers/disk/ahci/ahci.cpp and ahci.h: the ports of the disk controller and the commands.
pub mod Issue
pub mod Engine
pub mod Configure
pub mod Controller
pub mod Overlap
pub mod Lost
pub mod Endings
pub mod Slots
pub mod Ports
use micron.Base.{
  ℕ, zero, suc, ◌+◌, ◌-◌, ◌*◌, ◌/◌, ◌%◌, ◌^◌, bit_and, bit_or, Bool, true, false, not, ◌&&◌, Option,
  none, some, List, [], ◌∷◌, ◌++◌, ltb, ◌==◌, if◌then◌else◌, u8, u16, u32, ◌<<<◌, ◌>>>◌, complement,
}

-- The registers of `hba_port` that the code reads and writes.
pub record HbaPort : Type 0 where
  pub command_list_base : ℕ
  pub command_list_base_upper : ℕ
  pub fis_base : ℕ
  pub fis_base_upper : ℕ
  pub interrupt_status : ℕ
  pub command_status : ℕ
  pub task_file_data : ℕ
  pub signature : ℕ
  pub sata_status : ℕ
  pub sata_active : ℕ
  pub command_issue : ℕ

-- `n` slots are left from `i` on; -1 is `none`.
unfoldable pub slot_loop : (n i slots : ℕ) → Option ℕ
slot_loop zero i slots = none
slot_loop (suc n) i slots =
    if bit_and slots 1 == 0 then some i else slot_loop n (suc i) (slots >>> 1)

unfoldable pub find_command_slot : HbaPort → Option ℕ
find_command_slot port = slot_loop 32 0 (bit_or port.sata_active port.command_issue)

pub data PortType : Type 0 where
  no_port : PortType
  sata : PortType
  semb : PortType
  pm : PortType
  sata_pi : PortType

unfoldable pub port_type_of : ℕ → PortType
port_type_of signature =
    if signature == 0x00000101
    then sata
    else if signature == 0xC33C0101
    then semb
    else if signature == 0xEB140101
    then sata_pi
    else if signature == 0x96690101
    then pm
    else no_port

unfoldable pub get_port_type : HbaPort → PortType
get_port_type port =
    if not (bit_and port.sata_status 0x7 == 0x03)
    then no_port
    else if not (bit_and (port.sata_status >>> 8) 0x7 == 0x01)
    then no_port
    else port_type_of port.signature

unfoldable pub is_usable : PortType → Bool
is_usable no_port = false
is_usable sata = true
is_usable semb = true
is_usable pm = true
is_usable sata_pi = true

-- The numbers of the ports that get an `ahci_port`, in order, with `n` ports left from `i` on; the
-- place in the list is `ahci_port_number`, with `usable_ports` 0 at first and memory for each.
unfoldable pub probe_loop : (n i implemented : ℕ) → (ℕ → HbaPort) → List ℕ
probe_loop zero i implemented ports = []
probe_loop (suc n) i implemented ports =
    let rest = probe_loop n (suc i) implemented ports in
    if bit_and implemented (1 <<< i) == 0
    then rest
    else if is_usable (get_port_type (ports i))
    then i ∷ rest
    else rest

unfoldable pub served_ports : (implemented : ℕ) → (ℕ → HbaPort) → List ℕ
served_ports implemented ports = probe_loop 32 0 implemented ports

-- What a command leaves in the memory that the controller reads: the header's fields, the entry of
-- the region table and the command's FIS.
pub record Command : Type 0 where
  pub command_fis_length : ℕ
  pub write : Bool
  pub prdt_length : ℕ
  pub data_base_address : ℕ
  pub data_base_address_upper : ℕ
  pub byte_count : ℕ
  pub interrupt_on_completion : ℕ
  pub fis_type : ℕ
  pub cc : ℕ
  pub command : ℕ
  pub lba0 : ℕ
  pub lba1 : ℕ
  pub lba2 : ℕ
  pub lba3 : ℕ
  pub lba4 : ℕ
  pub lba5 : ℕ
  pub device : ℕ
  pub count_low : ℕ
  pub count_high : ℕ

-- A cast binds closer than a shift. `byte_count` is a field of 22 bits.
unfoldable pub set_up_command : (writes : Bool) (code sector sector_count buffer : ℕ) → Command
set_up_command writes code sector sector_count buffer =
    let sector_low = u32 sector in
    let sector_high = u32 (sector >>> 32) in
    record {
      command_fis_length = 5;
      write = writes;
      prdt_length = 1;
      data_base_address = u32 buffer;
      data_base_address_upper = u32 (buffer >>> 32);
      byte_count = ((sector_count <<< 9) + 2 ^ 32 - 1) % 2 ^ 22;
      interrupt_on_completion = 1;
      fis_type = 0x27;
      cc = 1;
      command = code;
      lba0 = u8 sector_low;
      lba1 = u8 (u8 sector_low >>> 8);
      lba2 = u8 (u8 sector_low >>> 16);
      lba3 = u8 (u8 sector_low >>> 24);
      lba4 = u8 sector_high;
      lba5 = u8 (u8 sector_high >>> 8);
      device = 1 <<< 6;
      count_low = bit_and sector_count 0xFF;
      count_high = bit_and (sector_count >>> 8) 0xFF;
    }

unfoldable pub command_stop_masks : HbaPort → HbaPort
command_stop_masks port = record port {
  command_status =
      bit_and (bit_and port.command_status (complement 32 0x0010)) (complement 32 0x0001);
}

unfoldable pub command_start_bits : HbaPort → HbaPort
command_start_bits port = record port {
  command_status = bit_or (bit_or port.command_status 0x0010) 0x0001;
}
