-- ===== src/Drivers/Ahci/Overlap.antt =====
-- The memory of the ports that are served, in a heap from which nothing was taken.
use micron.Base.{ℕ, suc, ◌+◌, ◌^◌, ◌≤◌, ◌<◌, ◌≡◌, ◌≢◌, arith, true, false, some, ltb}
use micron.Memory.Heap.{
  Headers, Heap, initialize_heap, take_segment, malloc, malloc_loop, rounded_size,
}
use micron.Memory.Heap.Fit.{take_segment-elsewhere}
use micron.Memory.Heap.Chain.{CanSplit, split-Halves}
use micron.Drivers.Ahci.Controller.{ahci_port_size, store_port}

malloc_first :
    (fuel : ℕ) (h : Heap)
    → (h.headers h.heap_start).free ≡ true
    → 32 ≤ (h.headers h.heap_start).length
    → malloc (suc fuel) ahci_port_size h
      ≡ some (h.heap_start, record h { headers = take_segment 32 h.heap_start h.headers })
unfolding malloc malloc_loop rounded_size
malloc_first fuel h is_free long = ground arith

malloc_second :
    (fuel q : ℕ) (h : Heap)
    → (h.headers h.heap_start).free ≡ false
    → (h.headers h.heap_start).next ≡ q
    → q ≢ 0
    → (h.headers q).free ≡ true
    → 32 ≤ (h.headers q).length
    → malloc (suc (suc fuel)) ahci_port_size h
      ≡ some (q, record h { headers = take_segment 32 q h.headers })
unfolding malloc malloc_loop rounded_size
malloc_second fuel q h taken e some_q is_free long = ground arith

-- The address behind the first 32 bytes of a segment and their header.
abbrev pub behind : ℕ → ℕ
behind x = x + 32 + 32

-- A segment of which 32 bytes are taken.
record Taken (h h' : Headers) (x : ℕ) : Type 0 where
  pub taken : (h' x).free ≡ false
  pub next : (h' x).next ≡ behind x
  pub rest_free : (h' (behind x)).free ≡ (h x).free
  pub rest_length : (h' (behind x)).length + 96 ≡ (h x).length
  pub rest_next : (h' (behind x)).next ≡ (h x).next

take_segment-Taken : (h : Headers) (x : ℕ) → CanSplit h x 32 → Taken h (take_segment 32 x h) x
unfolding take_segment
take_segment-Taken h x c =
    let v = split-Halves h x 32 c in
    let longer : ltb 32 (h x).length ≡ true = ground (arith, c.room) in
    rw longer (record {
      taken = ground arith;
      next = ground (arith, v.first_next);
      rest_free = ground (arith, v.second_free);
      rest_length = ground (arith, v.second_length);
      rest_next = ground (arith, v.second_next);
    })

-- Three ports in a fresh heap.
module _ (low size p q r : ℕ) (h : Heap) (some_low : 0 < low) (room : 240 ≤ size)
    (within : low + size < 2 ^ 64) (above : 32 ≤ q) where
  abbrev pub fresh : Heap
  fresh = initialize_heap low size h

  abbrev h₁ : Headers
  h₁ = take_segment 32 low fresh.headers

  abbrev s₁ : Headers
  s₁ = store_port low p 0 h₁

  abbrev h₂ : Headers
  h₂ = take_segment 32 (behind low) s₁

  abbrev s₂ : Headers
  s₂ = store_port (behind low) q 1 h₂

  abbrev pub s₃ : Headers
  s₃ = store_port (behind low) r 2 (take_segment 32 (behind low) s₂)

  fresh-CanSplit : CanSplit fresh.headers low 32
  unfolding initialize_heap
  fresh-CanSplit = record {
    enough = omega arith;
    room = ground arith;
    length_fits = ground arith;
    no_wrap = omega arith;
    this_ne = omega arith;
    next_apart = ground arith;
    next_ne_this = ground arith;
  }

  first : Taken fresh.headers h₁ low
  first = take_segment-Taken fresh.headers low fresh-CanSplit

  rest :
      ((s₁ (behind low)).free ≡ true)
      × ((s₁ (behind low)).length + 128 ≡ size)
      × ((s₁ (behind low)).next ≡ 0)
  unfolding store_port initialize_heap
  rest = ground (arith, first.rest_free, first.rest_length, first.rest_next)

  at_low : ((s₁ low).free ≡ false) × ((s₁ low).length ≡ p) × ((s₁ low).next ≡ behind low)
  unfolding store_port
  at_low = ground (arith, first.next)

  rest-CanSplit : CanSplit s₁ (behind low) 32
  rest-CanSplit = record {
    enough = omega arith;
    room = omega (arith, rest.1);
    length_fits = omega (arith, rest.1);
    no_wrap = omega arith;
    this_ne = omega arith;
    next_apart = omega (arith, rest.2);
    next_ne_this = omega (arith, rest.2);
  }

  second : Taken s₁ h₂ (behind low)
  second = take_segment-Taken s₁ (behind low) rest-CanSplit

  low_after : s₂ low ≡ s₁ low
  unfolding store_port
  low_after =
      let same =
        take_segment-elsewhere s₁ (behind low) 32 low (omega arith) (omega arith)
          (omega (arith, rest.2)) in
      ground (arith, same)

  at_second :
      ((s₂ (behind low)).free ≡ true)
      × ((s₂ (behind low)).length ≡ q)
      × ((s₂ (behind low)).next ≡ behind (behind low))
  unfolding store_port
  at_second = ground (arith, second.next)

  pub low_at_last : (s₃ low).length ≡ p
  unfolding store_port
  low_at_last =
      let same =
        take_segment-elsewhere s₂ (behind low) 32 low (omega arith) (omega arith)
          (omega (arith, at_second.2)) in
      ground (arith, same, low_after, at_low.1)

  pub second_at_last : (s₃ (behind low)).length ≡ r
  unfolding store_port
  second_at_last = ground arith

  pub third_found :
      (fuel : ℕ)
      → malloc (suc (suc fuel)) ahci_port_size (record fresh { headers = s₂ })
        ≡ some (behind low, record fresh { headers = take_segment 32 (behind low) s₂ })
  unfolding initialize_heap
  third_found fuel =
      malloc_second fuel (behind low) (record fresh { headers = s₂ }) (rw low_after at_low.0)
        (rw low_after at_low.2) (omega arith) at_second.0 (omega (arith, at_second.1))

  pub second_found :
      (fuel : ℕ)
      → malloc (suc (suc fuel)) ahci_port_size (record fresh { headers = s₁ })
        ≡ some (behind low, record fresh { headers = h₂ })
  unfolding initialize_heap
  second_found fuel =
      malloc_second fuel (behind low) (record fresh { headers = s₁ }) at_low.0 at_low.2
        (omega arith) rest.0 (omega (arith, rest.1))

  pub first_found :
      (fuel : ℕ)
      → malloc (suc (suc fuel)) ahci_port_size fresh ≡ some (low, record fresh { headers = h₁ })
  unfolding initialize_heap
  first_found fuel = malloc_first (suc fuel) fresh (ground arith) (ground arith)
