-- ===== src/Tests/Disk.antt =====
-- Three disk ports in a fresh heap.
use micron.Base.{◌≡◌, refl, arith, true, false, some, [], ◌∷◌, ◌==◌, if◌then◌else◌}
use micron.Memory.Paging.{Space}
use micron.Memory.Heap.{Heap, initialize_heap}
use micron.Memory.Mapping.{heap_address}
use micron.Drivers.Ahci.{HbaPort, probe_loop, served_ports, get_port_type, port_type_of, is_usable}
use micron.Drivers.Ahci.Engine.{Engine, is_receiving, is_running}
use micron.Drivers.Ahci.Configure.{IdleFrom}
use micron.Drivers.Ahci.Controller.{Controller, port_address, set_up_ports}
use micron.Drivers.Ahci.Overlap.{behind}
use micron.Drivers.Ahci.Lost.{set_up_ports-three}

abbrev space : Space
space = record {
  pmm = record {
    free_memory_size = 0;
    used_memory_size = 0x10000;
    total_memory_size = 0x10000;
    reserved_memory_size = 0;
    page_bitmap_map = record { size = 2; address = 0; buffer = λ i. 0xff };
    initialized = true;
    memory_size_bytes = 0x10000;
  };
  memory = λ i. 0;
  pml_4 = 0x1000;
}

abbrev heap : Heap
heap = record {
  heap_start = 0;
  heap_end = 0;
  headers = λ a. record { length = 0; next = 0; last = 0; free = false };
}

abbrev sata_port : HbaPort
sata_port = record {
  command_list_base = 0;
  command_list_base_upper = 0;
  fis_base = 0;
  fis_base_upper = 0;
  interrupt_status = 0;
  command_status = 0;
  task_file_data = 0;
  signature = 0x101;
  sata_status = 0x123;
  sata_active = 0;
  command_issue = 0;
}

-- The device stops at the third read.
abbrev engine : Engine
engine = record {
  stop_status = λ n. if n == 0 then 0xc000 else if n == 1 then 0x8000 else 0;
  start_status = λ n. 0;
}

engine-IdleFrom : IdleFrom 3 engine
unfolding is_receiving is_running
engine-IdleFrom = record {
  not_receiving = λ k h. ground arith;
  not_running = λ k h. ground arith;
  not_started = λ k h. ground arith;
}

three_served : served_ports 0b111 (λ m. sata_port) ≡ 0 ∷ 1 ∷ 2 ∷ []
unfolding served_ports probe_loop get_port_type port_type_of is_usable
three_served = refl

set_up_ports-three_example :
    let c : Controller = record {
      ports = [];
      heap = initialize_heap heap_address 0x100000 heap;
      space = space;
      registers = λ a. sata_port;
      tables = λ a. [];
    } in
    (c' : Controller) × (set_up_ports 8 (λ a. engine) 0xfebf1000 0b111 c ≡ some c')
    × (c'.ports ≡ heap_address ∷ behind heap_address ∷ behind heap_address ∷ [])
    × (c'.registers (port_address 0xfebf1000 1) ≡ sata_port)
set_up_ports-three_example =
    set_up_ports-three 8 3 0xfebf1000 0b111 0 1 2 heap_address 0x100000 (λ a. engine) heap space
      (λ a. sata_port) (λ a. []) (omega arith) (omega arith) (omega arith) (omega arith)
      (omega arith) (omega arith) (omega arith) three_served (λ port. engine-IdleFrom) (omega arith)
      (omega arith)
