-- ===== src/Drivers/Ahci/Lost.antt =====
-- Setting up the ports that are served.
use micron.Base.{
  ℕ, zero, suc, ◌+◌, ◌^◌, ◌≤◌, ◌<◌, ◌≡◌, ◌≢◌, ◌∙◌, refl, arith, some, List, [], ◌∷◌, update,
}
use micron.Memory.Paging.{Space}
use micron.Memory.Heap.{Headers, Heap, initialize_heap}
use micron.Drivers.Ahci.{HbaPort, served_ports}
use micron.Drivers.Ahci.Engine.{Engine}
use micron.Drivers.Ahci.Configure.{IdleFrom, port_set_up, configure_port-ends}
use micron.Drivers.Ahci.Controller.{
  port_address, port_of, place_ports, probe_ports, Controller, configure_ports, set_up_ports,
}
use micron.Drivers.Ahci.Overlap.{
  behind, s₃, first_found, second_found, third_found, low_at_last, second_at_last,
}

-- No entry of the array leads to the port at the address.
abbrev pub Leaves : (h : Headers) (address : ℕ) → List ℕ → Type 0
Leaves h address [] = Unit
Leaves h address (at ∷ ports) = (port_of h at ≢ address) × Leaves h address ports

-- What the loop over the array leaves as it is.
record Configured (address : ℕ) (c c' : Controller) : Type 0 where
  pub ports : c'.ports ≡ c.ports
  pub registers : c'.registers address ≡ c.registers address
  pub tables : c'.tables address ≡ c.tables address

-- The controller with one more port set up.
abbrev configured : Controller → (port : ℕ) → Controller
configured c port =
    let (registers, tables, pmm) = port_set_up (c.registers port) c.space.pmm in
    record c {
      space = record c.space { pmm = pmm };
      registers = update c.registers port registers;
      tables = update c.tables port tables;
    }

configure_ports-ends :
    (fuel n address : ℕ) (engines : ℕ → Engine) (ports : List ℕ) (c : Controller)
    → ((port : ℕ) → IdleFrom n (engines port))
    → n < fuel
    → Leaves c.heap.headers address ports
    → (c' : Controller) × (configure_ports fuel engines ports c ≡ some c') × Configured address c c'
unfolding configure_ports
configure_ports-ends fuel n address engines [] c idle enough leaves =
    (c, refl, record { ports = refl; registers = refl; tables = refl })
configure_ports-ends fuel n address engines (at ∷ ports) c idle enough leaves =
    let rest =
      configure_ports-ends fuel n address engines ports (configured c (port_of c.heap.headers at))
        idle enough leaves.1 in
    let set_up =
      configure_port-ends fuel n (engines (port_of c.heap.headers at))
        (c.registers (port_of c.heap.headers at)) c.space.pmm (idle (port_of c.heap.headers at))
        enough in
    (
      rest.0,
      rw set_up rest.1,
      record {
        ports = rest.2.ports;
        registers = rest.2.registers ∙ ground arith;
        tables = rest.2.tables ∙ ground arith;
      },
    )

-- The places of three ports that are served, from a heap from which nothing was taken.
module _ (abar i j k low size : ℕ) (h : Heap) (some_low : 0 < low) (room : 240 ≤ size)
    (within : low + size < 2 ^ 64) (above : 32 ≤ port_address abar j) where
  abbrev p : ℕ
  p = port_address abar i

  abbrev q : ℕ
  q = port_address abar j

  abbrev r : ℕ
  r = port_address abar k

  place_ports-three :
      (fuel : ℕ)
      → place_ports (suc (suc fuel)) 0 abar (i ∷ j ∷ k ∷ []) (initialize_heap low size h)
        ≡ some (
          low ∷ behind low ∷ behind low ∷ [],
          record (initialize_heap low size h) {
            headers = s₃ low size p q r h some_low room within above;
          },
        )
  unfolding place_ports
  place_ports-three fuel = rw (first_found low size p q r h some_low room within above fuel) (
      rw (second_found low size p q r h some_low room within above fuel)
        (rw (third_found low size p q r h some_low room within above fuel) refl))

port_address-apart :
    (abar i j : ℕ) → abar < 2 ^ 32 → i < j → j < 32 → port_address abar i < port_address abar j
unfolding port_address
port_address-apart abar i j low_bar less small = omega arith

port_address-above : (abar j : ℕ) → abar < 2 ^ 32 → j < 32 → 32 ≤ port_address abar j
unfolding port_address
port_address-above abar j low_bar small = omega arith

-- Where three ports are served, the heap has been initialized with 240 bytes or more, at an address that is not 0 and to an end
-- below 2 ^ 64, and nothing was taken from it (`probe_ports` is the only caller of `malloc`), the
-- controller's registers stand below 2 ^ 32, every port neither receives nor runs from the n-th read on, and there is fuel for
-- the waits and for two segments, the setting up of the ports ends. The second and the third port are then given the
-- same memory, and the registers of the second port are left as they were.
pub set_up_ports-three :
    (fuel n abar implemented i j k low size : ℕ) (engines : ℕ → Engine) (h : Heap) (space : Space)
    (registers : ℕ → HbaPort) (tables : ℕ → List (ℕ × ℕ))
    → 0 < low
    → 240 ≤ size
    → low + size < 2 ^ 64
    → abar < 2 ^ 32
    → i < j
    → j < k
    → k < 32
    → served_ports implemented (λ m. registers (port_address abar m)) ≡ i ∷ j ∷ k ∷ []
    → ((port : ℕ) → IdleFrom n (engines port))
    → n < fuel
    → 2 ≤ fuel
    → let c : Controller = record {
      ports = [];
      heap = initialize_heap low size h;
      space = space;
      registers = registers;
      tables = tables;
    } in
      (c' : Controller) × (set_up_ports fuel engines abar implemented c ≡ some c')
      × (c'.ports ≡ low ∷ behind low ∷ behind low ∷ [])
      × (c'.registers (port_address abar j) ≡ registers (port_address abar j))
unfolding set_up_ports probe_ports
set_up_ports-three zero n abar implemented i j k low size engines h space registers tables some_low
      room within low_bar less less' small served idle enough two =
    absurd (omega arith)
set_up_ports-three (suc zero) n abar implemented i j k low size engines h space registers tables
      some_low room within low_bar less less' small served idle enough two =
    absurd (omega arith)
set_up_ports-three (suc (suc fuel)) n abar implemented i j k low size engines h space registers
      tables some_low room within low_bar less less' small served idle enough two =
    (rest.0, rw served (rw placed rest.1), rest.2.ports, rest.2.registers)
  where
    above : 32 ≤ port_address abar j
    above = port_address-above abar j low_bar (omega arith)

    heap : Heap
    heap = record (initialize_heap low size h) {
      headers =
          s₃ low size (port_address abar i) (port_address abar j) (port_address abar k) h some_low
            room within above;
    }

    placed :
        place_ports (suc (suc fuel)) 0 abar (i ∷ j ∷ k ∷ []) (initialize_heap low size h)
        ≡ some (low ∷ behind low ∷ behind low ∷ [], heap)
    placed = place_ports-three abar i j k low size h some_low room within above fuel

    at_low : port_of heap.headers low ≢ port_address abar j
    at_low = omega (
      arith,
      port_address-apart abar i j low_bar less (omega arith),
      low_at_last low size (port_address abar i) (port_address abar j) (port_address abar k) h
          some_low room within above,
    )

    at_second : port_of heap.headers (behind low) ≢ port_address abar j
    at_second = omega (
      arith,
      port_address-apart abar j k low_bar less' small,
      second_at_last low size (port_address abar i) (port_address abar j) (port_address abar k) h
          some_low room within above,
    )

    three : Controller
    three = record {
      ports = low ∷ behind low ∷ behind low ∷ [];
      heap = heap;
      space = space;
      registers = registers;
      tables = tables;
    }

    rest :
        (c' : Controller) × (configure_ports
            (suc (suc fuel))
            engines
            (low ∷ behind low ∷ behind low ∷ [])
            three
          ≡ some c')
        × Configured (port_address abar j) three c'
    rest =
        configure_ports-ends (suc (suc fuel)) n (port_address abar j) engines
          (low ∷ behind low ∷ behind low ∷ []) three idle enough
          (at_low, (at_second, (at_second, tt)))
