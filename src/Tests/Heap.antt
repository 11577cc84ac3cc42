-- ===== src/Tests/Heap.antt =====
-- The heap with one free segment of 4 KiB.
use micron.Base.{
  ℕ, ◌+◌, ◌^◌, ◌≤◌, ◌<◌, ◌⊎◌, inl, inr, ◌≡◌, refl, arith, true, false, some, [], ◌∷◌, update,
}
use micron.Memory.Heap.{
  Headers, Heap, initialize_heap, take_segment, malloc_loop, malloc, rounded_size, split,
  insert_segment, combine_forward,
}
use micron.Memory.Heap.Fit.{IsChain, IsFirstFit, malloc-IsFirstFit}
use micron.Memory.Heap.Chain.{CanSplit, combine_forward-split}
use micron.Memory.Heap.Live.{Blocks, Calls, took, start, next}
use micron.Memory.Heap.Used.{Calls-apart, malloc-ends}
use micron.Memory.Heap.Wraps.{split-wraps}

abbrev headers : Headers
headers =
    update (λ a. record { length = 0; next = 0; last = 0; free = false }) 0x1000
      (record { length = 0x1000; next = 0; last = 0; free = true })

abbrev heap : Heap
heap = record { heap_start = 0x1000; heap_end = 0x2020; headers = headers }

headers-IsChain : IsChain headers 0x1000 (0x1000 ∷ [])
headers-IsChain = (refl, omega arith, refl)

headers-CanSplit : CanSplit headers 0x1000 64
headers-CanSplit = record {
  enough = omega arith;
  room = omega arith;
  length_fits = omega arith;
  no_wrap = omega arith;
  this_ne = omega arith;
  next_apart = omega arith;
  next_ne_this = omega arith;
}

malloc-IsFirstFit_example :
    (answer : ℕ) × (after : Headers) × (malloc 1 64 heap
      ≡ some (answer, record heap { headers = after }))
    × IsFirstFit headers 64 (0x1000 ∷ []) answer after
malloc-IsFirstFit_example =
    malloc-IsFirstFit 1 64 heap 0x1000 [] (omega arith) refl headers-IsChain (omega arith)

combine_forward-split_example :
    let h' = combine_forward 0x1000 (split 0x1000 64 headers) in
    ((h' 0x1000).length + 32 ≡ (headers 0x1000).length) × ((h' 0x1000).next ≡ (headers 0x1000).next)
combine_forward-split_example = combine_forward-split headers 0x1000 64 headers-CanSplit refl

-- Two blocks of 64 bytes.
abbrev fresh : Heap
fresh = initialize_heap 0x1000 0x1000 heap

abbrev one_taken : Heap
one_taken = record fresh { headers = take_segment 64 0x1000 fresh.headers }

abbrev two_taken : Heap
two_taken = record one_taken { headers = take_segment 64 0x1060 one_taken.headers }

abbrev two_blocks : Blocks
two_blocks = (0x1060, 64) ∷ (0x1000, 64) ∷ []

first_taken : malloc 1 64 fresh ≡ some (0x1000, one_taken)
unfolding malloc malloc_loop rounded_size initialize_heap
first_taken = refl

second_taken : malloc 2 64 one_taken ≡ some (0x1060, two_taken)
unfolding malloc malloc_loop rounded_size initialize_heap take_segment split insert_segment
second_taken = refl

first_room : rounded_size 64 + 64 ≤ (fresh.headers 0x1000).length
unfolding rounded_size initialize_heap
first_room = omega arith

second_room : rounded_size 64 + 64 ≤ (one_taken.headers 0x1060).length
unfolding rounded_size initialize_heap take_segment split insert_segment
second_room = omega arith

two_calls : Calls fresh [] two_taken two_blocks
two_calls =
    next (next start (took 1 64 0x1000 first_taken (omega arith) (inr first_room)))
      (took 2 64 0x1060 second_taken (omega arith) (inr second_room))

Calls-apart_example :
    (0x1000 ≤ 0x1060)
    × (0x1060 + 32 + rounded_size 64 ≤ 0x1000 + 0x1000)
    × ((0x1060 + 32 + rounded_size 64 ≤ 0x1000) ⊎ (0x1000 + 32 + rounded_size 64 ≤ 0x1060))
Calls-apart_example =
    Calls-apart heap two_taken 0x1000 0x1000 two_blocks 0x1060 0x1000 64 64 (omega arith)
      (omega arith) (omega arith) two_calls (inl (refl, refl)) (inr (inl (refl, refl)))
      (omega arith)

malloc-ends_example : (a : ℕ) × (h : Heap) × (malloc 128 0x2000 two_taken ≡ some (a, h))
malloc-ends_example =
    malloc-ends heap two_taken 0x1000 0x1000 two_blocks 128 0x2000 (omega arith) (omega arith)
      (omega arith) two_calls (omega arith)

split-wraps_example :
    let new = 0x1000 + 0xfe0 + 32 in
    let h' = split 0x1000 0xfe0 headers in
    ((h' new).length + 0xfe0 + 64 ≡ (headers 0x1000).length + 2 ^ 64)
    × (0x2020 < new + 32 + (h' new).length)
    × ((h' 0x1000).next ≡ new)
split-wraps_example =
    split-wraps headers 0x2020 0x1000 0xfe0 (omega arith) (omega arith) (omega arith) (omega arith)
      (omega arith) (omega arith) (omega arith)
