-- ===== src/Boot.antt =====
-- kernel/src/boot/kmain.cpp and kconf.cpp: what mnkmain calls, in its order.
pub mod Endings
use micron.Base.{
  ℕ, zero, suc, ◌+◌, ◌*◌, ◌/◌, Bool, false, Option, none, some, ◌>>=◌, get_or, List, [], ◌∷◌, ◌++◌,
}
use micron.Memory.Pmm.{Pmm, MmapEntry}
use micron.Memory.Heap.{Heap}
use micron.Memory.Paging.{Space, map_memory, donate_to_userspace}
use micron.Memory.Mapping.{Framebuffer, request_pages, configure_memory, calculate_kernel_size}
use micron.Cpu.Tss.{Tasks, tss_install}
use micron.Cpu.Idt.{Idt, load_idt}
use micron.Drivers.Gfx.{Gfx}
use micron.Drivers.Tty.Screen.{Screen}
use micron.Drivers.Tty.Screen
use micron.Drivers.Pci
use micron.Drivers.Pci.{DeviceHeader, DeviceConfiguration, Visit, get_table, enumerate_pci}
use micron.Drivers.Ahci.{HbaPort}
use micron.Drivers.Ahci.Engine.{Engine}
use micron.Drivers.Ahci.Controller.{Controller}
use micron.Drivers.Ahci.Controller
use micron.Drivers.Kbd.{Modifiers}
use micron.Drivers.Ports.{Pit, Outs, irq_unmask, set_c0_frequency, speaker_init, pit_init}

-- The globals that the calls change, and the bytes that have been written to ports.
pub record Machine : Type 0 where
  pub tasks : Tasks
  pub heap : Heap
  pub idt : Idt
  pub screen : Screen
  pub frame_copy : ℕ
  pub disk_ports : List ℕ
  pub registers : ℕ → HbaPort
  pub tables : ℕ → List (ℕ × ℕ)
  pub pit : Pit
  pub modifiers : Modifiers
  pub outs : Outs

-- What the boot loader and the devices give: `stivale_struct`, the addresses of the linker, memory
-- that is only read, and what the n-th read of a port gives.
pub record BootInfo : Type 0 where
  pub memory_map : List MmapEntry
  pub framebuffer : Framebuffer
  pub kernel_start : ℕ
  pub kernel_end : ℕ
  pub tss_base : ℕ
  pub uentry : ℕ
  pub isr : ℕ → ℕ
  pub irq : ℕ → ℕ
  pub bytes : ℕ → ℕ
  pub words : ℕ → ℕ → ℕ
  pub firmware_tables : List ℕ
  pub signature_at : ℕ → ℕ → ℕ
  pub mcfg_entries : ℕ → List DeviceConfiguration
  pub device_headers : ℕ → DeviceHeader
  pub bar5 : ℕ → ℕ
  pub ports_implemented : ℕ → ℕ
  pub engines : ℕ → Engine
  pub inb : (n : ℕ) → (port : ℕ) → ℕ

-- The characters of "MCFG".
abbrev pub mcfg_signature : ℕ → ℕ
mcfg_signature i = get_or (77 ∷ 67 ∷ 70 ∷ 71 ∷ []) i 0

abbrev pub space_of : Machine → Space
space_of m = m.tasks.space

abbrev pub with_space : Space → Machine → Machine
with_space s m = record m { tasks = record m.tasks { space = s } }

-- The kernel's size is computed first, and the memory is set up with it.
unfoldable pub boot_memory : (fuel : ℕ) → BootInfo → Machine → Option Machine
boot_memory fuel env m = do
  let (size, pages) = calculate_kernel_size env.kernel_start env.kernel_end
  (space, heap) ←
      configure_memory fuel env.bytes env.kernel_start pages env.framebuffer env.memory_map
        (space_of m) m.heap
  some (record (with_space space m) { heap = heap })

-- `configure_graphics`
unfoldable pub configure_graphics : (fuel : ℕ) → BootInfo → Machine → Option Machine
configure_graphics fuel env m = do
  let f = env.framebuffer
  let gop = record m.screen.gfx {
    framebuffer_width = f.framebuffer_width;
    framebuffer_height = f.framebuffer_height;
  }
  let pages = f.framebuffer_width * f.framebuffer_height * (f.framebuffer_bpp / 8) / 0x1000 + 1
  (buffer, space) ← request_pages fuel pages (space_of m)
  let (screen, pmm) = Screen.initialize env.words gop space.pmm
  some (record (with_space (record space { pmm = pmm }) m) { screen = screen; frame_copy = buffer })

-- What the search for devices does at one place.
unfoldable pub visit : (fuel : ℕ) → BootInfo → Visit → Machine → Option Machine
visit fuel env (Pci.map_memory a) m =
    map_memory fuel a a false (space_of m) >>= λ s. some (with_space s m)
visit fuel env (Pci.ahci_initialize header) m = do
  let abar = env.bar5 header
  let disk : Controller = record {
    ports = m.disk_ports;
    heap = m.heap;
    space = space_of m;
    registers = m.registers;
    tables = m.tables;
  }
  disk ← Controller.initialize fuel env.engines abar (env.ports_implemented abar) disk
  some (record (with_space disk.space m) {
    heap = disk.heap;
    disk_ports = disk.ports;
    registers = disk.registers;
    tables = disk.tables;
  })

unfoldable pub visit_all : (fuel : ℕ) → BootInfo → List Visit → Machine → Option Machine
visit_all fuel env [] m = some m
visit_all fuel env (v ∷ visits) m = visit fuel env v m >>= λ n. visit_all fuel env visits n

-- The address of the table, and 0 where there is none.
unfoldable pub mcfg_address : BootInfo → ℕ
mcfg_address env = elim (get_table mcfg_signature env.signature_at env.firmware_tables) [
  | none ↦ 0
  | some table ↦ table
]

-- `configure_pci`
unfoldable pub configure_pci : (fuel : ℕ) → BootInfo → Machine → Option Machine
configure_pci fuel env m =
    visit_all fuel env (enumerate_pci env.device_headers (env.mcfg_entries (mcfg_address env))) m

-- `io::keyboard::init`: `shifted` is not set.
unfoldable pub keyboard_init : (inb : ℕ → ℕ) → Modifiers → Modifiers × (ℕ × ℕ)
keyboard_init inb m = (
  record m {
    num_lock = false;
    caps_lock = false;
    scroll_lock = false;
    alt_down = false;
    ctrl_down = false;
    fn_down = false;
  },
  irq_unmask inb 1,
)

-- `configure_userspace`
unfoldable pub configure_userspace : BootInfo → Machine → Machine
configure_userspace env m = with_space (donate_to_userspace env.uentry (space_of m)) m

-- The calls up to the search for devices, and the search.
unfoldable pub before_devices : (fuel stack : ℕ) → BootInfo → Machine → Option Machine
before_devices fuel stack env m = do
  m ← boot_memory fuel env m
  tasks ← tss_install fuel env.tss_base stack m.tasks
  let tabled = record m { tasks = tasks; idt = load_idt env.isr env.irq m.idt }
  configure_graphics fuel env tabled

unfoldable pub boot_devices : (fuel stack : ℕ) → BootInfo → Machine → Option Machine
boot_devices fuel stack env m = before_devices fuel stack env m >>= configure_pci fuel env

-- The calls behind it.
unfoldable pub start_devices : BootInfo → Machine → Option Machine
start_devices env m = do
  (pit, timer) ← set_c0_frequency 1000 m.pit
  let clock = pit_init (env.inb 0)
  let speaker = speaker_init (env.inb 1 0x61)
  let (modifiers, keyboard) = keyboard_init (env.inb 2) m.modifiers
  some (
      configure_userspace env (record m {
        pit = pit;
        modifiers = modifiers;
        outs = m.outs ++ timer ++ clock ∷ speaker ∷ keyboard ∷ [];
      }))

-- `mnkmain`; `cli` and `sti` are left out.
unfoldable pub mnkmain : (fuel stack : ℕ) → BootInfo → Machine → Option Machine
mnkmain fuel stack env m = boot_devices fuel stack env m >>= start_devices env
