-- ===== src/Drivers/Ahci/Controller.antt =====
-- kernel/src/drivers/disk/ahci/ahci.cpp: initialize, and the memory for each port that is served.
use micron.Base.{
  ℕ, suc, ◌+◌, ◌*◌, false, not, Option, some, ◌>>=◌, List, [], ◌∷◌, ◌++◌, length, ◌==◌, u64, update,
}
use micron.Memory.Heap.{Headers, Heap, malloc}
use micron.Memory.Paging.{Space, map_memory}
use micron.Drivers.Ahci.{HbaPort, served_ports}
use micron.Drivers.Ahci.Engine.{Engine, configure_port}

-- `&abar->ports[i]`: the ports follow 256 bytes of other registers, and each has 128 bytes.
unfoldable pub port_address : (abar i : ℕ) → ℕ
port_address abar i = u64 (abar + 0x100 + i * 0x80)

-- `sizeof(ahci_port)`
abbrev pub ahci_port_size : ℕ
ahci_port_size = 32

-- The two stores into the `ahci_port` at the address. `malloc` answers the address of the segment's
-- header, so that the pointer `port` is where the header has `length`, and `ahci_port_number` where
-- it has `free`.
unfoldable pub store_port : (at port number : ℕ) → Headers → Headers
store_port at port number h =
    update h at (record (h at) { length = port; free = not (number == 0) })

-- `ports[number]->port`
abbrev pub port_of : Headers → (at : ℕ) → ℕ
port_of h at = (h at).length

-- Memory for the ports of the list, the first of which is given the number `usable_ports`.
unfoldable pub place_ports : (fuel usable_ports abar : ℕ) → List ℕ → Heap → Option (List ℕ × Heap)
place_ports fuel usable_ports abar [] h = some ([], h)
place_ports fuel usable_ports abar (i ∷ served) h = do
  (at, h) ← malloc fuel ahci_port_size h
  let stored = store_port at (port_address abar i) usable_ports h.headers
  (ports, h) ← place_ports fuel (suc usable_ports) abar served (record h { headers = stored })
  some (at ∷ ports, h)

-- `probe_ports`: the entries of `ports` from `usable_ports` on.
unfoldable pub probe_ports :
    (fuel usable_ports abar implemented : ℕ) → (ℕ → HbaPort) → Heap → Option (List ℕ × Heap)
probe_ports fuel usable_ports abar implemented registers h =
    place_ports fuel usable_ports abar
      (served_ports implemented (λ i. registers (port_address abar i))) h

-- What the driver works on: its array `ports`, the heap, the pages, and the registers and the command
-- tables of each port, by the port's address.
pub record Controller : Type 0 where
  pub ports : List ℕ
  pub heap : Heap
  pub space : Space
  pub registers : ℕ → HbaPort
  pub tables : ℕ → List (ℕ × ℕ)

-- The loop over the array.
unfoldable pub configure_ports : (fuel : ℕ) → (ℕ → Engine) → List ℕ → Controller → Option Controller
configure_ports fuel engines [] c = some c
configure_ports fuel engines (at ∷ ports) c = do
  let port = port_of c.heap.headers at
  (registers, tables, pmm) ← configure_port fuel (engines port) (c.registers port) c.space.pmm
  configure_ports fuel engines ports (record c {
    space = record c.space { pmm = pmm };
    registers = update c.registers port registers;
    tables = update c.tables port tables;
  })

-- `probe_ports` and the loop behind it.
unfoldable pub set_up_ports :
    (fuel : ℕ) → (ℕ → Engine) → (abar implemented : ℕ) → Controller → Option Controller
set_up_ports fuel engines abar implemented c = do
  (places, heap) ← probe_ports fuel (length c.ports) abar implemented c.registers c.heap
  let ports = c.ports ++ places
  configure_ports fuel engines ports (record c { ports = ports; heap = heap })

unfoldable pub initialize :
    (fuel : ℕ) → (ℕ → Engine) → (abar implemented : ℕ) → Controller → Option Controller
initialize fuel engines abar implemented c = do
  space ← map_memory fuel abar abar false c.space
  set_up_ports fuel engines abar implemented (record c { space = space })
