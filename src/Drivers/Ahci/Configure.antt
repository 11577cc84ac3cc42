-- ===== src/Drivers/Ahci/Configure.antt =====
-- How a port is set up.
use micron.Base.{
  ℕ, zero, suc, ◌+◌, ◌≤◌, ◌<◌, ◌≡◌, refl, ap, ap₂, ◌||◌, arith, Bool-cases, inl, inr, false, List,
  [], ◌∷◌, some, if◌then◌else◌, u32, u64, ◌<<<◌,
}
use micron.Memory.Pmm.{Pmm, request_page}
use micron.Memory.Pmm.Fresh.{requests}
use micron.Drivers.Ahci.{HbaPort, command_stop_masks, command_start_bits}
use micron.Drivers.Ahci.Engine.{
  Engine, is_receiving, is_running, stop_wait, start_wait, command_stop, command_start,
  configure_headers, set_bases, configure_port,
}

-- The tables in the pages, from the `i`-th on.
unfoldable pub tables_in : List ℕ → ℕ → List (ℕ × ℕ)
tables_in [] i = []
tables_in (page ∷ pages) i = (u32 (u64 (page + (i <<< 8))), 0) ∷ tables_in pages (suc i)

upper_dropped : (a : ℕ) → u32 (u64 (a <<< 32)) ≡ 0
upper_dropped a = omega arith

tables_in-requests : (n i : ℕ) (s : Pmm) → (configure_headers n i s).0 ≡ tables_in (requests n s) i
unfolding configure_headers tables_in requests
tables_in-requests zero i s = refl
tables_in-requests (suc n) i s =
    ap₂ (λ (x : ℕ) (rest : List (ℕ × ℕ)). (u32 (u64 ((request_page s).0 + (i <<< 8))), x) ∷ rest)
      (upper_dropped (u64 ((request_page s).0 + (i <<< 8))))
      (tables_in-requests n (suc i) (request_page s).1)

-- From the n-th read on the device neither receives nor runs.
pub record IdleFrom (n : ℕ) (e : Engine) : Type 0 where
  pub not_receiving : (k : ℕ) → n ≤ k → is_receiving (e.stop_status k) ≡ false
  pub not_running : (k : ℕ) → n ≤ k → is_running (e.stop_status k) ≡ false
  pub not_started : (k : ℕ) → n ≤ k → is_running (e.start_status k) ≡ false

stop_wait-ends :
    (fuel k n : ℕ) (e : Engine)
    → IdleFrom n e
    → n ≤ k + fuel
    → (reads : ℕ) × (stop_wait (suc fuel) k e ≡ some reads)
unfolding stop_wait
stop_wait-ends zero k n e idle enough =
    (suc (suc k), ground (arith, idle.not_receiving k, idle.not_running (suc k)))
stop_wait-ends (suc fuel) k n e idle enough =
    elim (Bool-cases (is_receiving (e.stop_status k) || is_running (e.stop_status (suc k)))) [
      | inl busy ↦
          let rest =
            stop_wait-ends fuel (if is_receiving (e.stop_status k) then suc k else suc (suc k)) n e
              idle (ground arith) in
          (rest.0, rw busy rest.1)
      | inr done ↦ ((if is_receiving (e.stop_status k) then suc k else suc (suc k)), rw done refl)
    ]

start_wait-ends :
    (fuel k n : ℕ) (e : Engine)
    → IdleFrom n e
    → n ≤ k + fuel
    → (reads : ℕ) × (start_wait (suc fuel) k e ≡ some reads)
unfolding start_wait
start_wait-ends zero k n e idle enough = (suc k, ground (arith, idle.not_started k))
start_wait-ends (suc fuel) k n e idle enough = elim (Bool-cases (is_running (e.start_status k))) [
  | inl busy ↦
      let rest = start_wait-ends fuel (suc k) n e idle (omega arith) in (rest.0, rw busy rest.1)
  | inr done ↦ (suc k, rw done refl)
]

-- A port that is set up, its tables, and the allocator.
unfoldable pub port_set_up : HbaPort → Pmm → HbaPort × List (ℕ × ℕ) × Pmm
port_set_up port s =
    let s₁ = (request_page s).1 in
    let s₂ = (request_page s₁).1 in
    (
      command_start_bits
          (set_bases (request_page s).0 (request_page s₁).0 (command_stop_masks port)),
      tables_in (requests 32 s₂) 0,
      (configure_headers 32 0 s₂).1,
    )

-- Where the device neither receives nor runs from the n-th read on, and there is more fuel than that,
-- `configure_port` ends: the port has its bits set and its two pages, and the tables of the 32 commands stand in the pages that 32 requests in a row answer, after one for the
-- command list and one for the answers of the device; the upper word of each table's address is 0,
-- wherever its page is.
pub configure_port-ends :
    (fuel n : ℕ) (e : Engine) (port : HbaPort) (s : Pmm)
    → IdleFrom n e
    → n < fuel
    → configure_port fuel e port s ≡ some (port_set_up port s)
unfolding configure_port command_stop command_start port_set_up
configure_port-ends zero n e port s idle enough = absurd (omega arith)
configure_port-ends (suc fuel) n e port s idle enough =
    let stopped = stop_wait-ends fuel 0 n e idle (omega arith) in
    let started = start_wait-ends fuel 0 n e idle (omega arith) in
    let s₂ = (request_page (request_page s).1).1 in
    rw stopped.1 (
      rw started.1 (
        ap
          (λ (t : List (ℕ × ℕ)). some (
            command_start_bits (
                set_bases (request_page s).0 (request_page (request_page s).1).0
                  (command_stop_masks port)),
            t,
            (configure_headers 32 0 s₂).1,
          ))
          (tables_in-requests 32 0 s₂)))
