-- ===== src/Tests/Pmm.antt =====
-- The page allocator on a bitmap of 16 pages, of which the first 2 are taken.
use micron.Base.{ℕ, ◌<◌, ◌≡◌, ◌≢◌, ◌⊎◌, refl, arith, true, false, List, [], ◌∷◌, update}
use micron.Util.Bitmap
use micron.Util.Bitmap.{Bitmap}
use micron.Memory.Pmm.{
  Pmm, MmapEntry, lock_page, free_page, reserve_page, unreserve_page, request_page, request_loop,
}
use micron.Memory.Pmm.Accounts.{Balanced, pages-Balanced}
use micron.Memory.Pmm.Request.{Allocated, IsTaken, request_page-Allocated}
use micron.Memory.Pmm.Fresh.{
  Ready, SamePages, NoRepeats, requests, requests-NoRepeats, free_page-request_page,
}
use micron.Memory.Pmm.Contract.{
  request, lock, release, unreserve, perform_all, answer_all, pages_of, perform_all-refines,
}

abbrev pub bits : Bitmap
bits = record { size = 2; address = 0x2000; buffer = update (λ i. 0) 0 0b11000000 }

abbrev pub state : Pmm
state = record {
  free_memory_size = 0xe000;
  used_memory_size = 0x1000;
  total_memory_size = 0x10000;
  reserved_memory_size = 0x1000;
  page_bitmap_map = bits;
  initialized = true;
  memory_size_bytes = 0x10000;
}

state-Balanced : Balanced state
unfolding Bitmap.Count.count_set Bitmap.get
state-Balanced = record { counters = refl; marked = refl }

state-Ready : Ready state
unfolding Bitmap.get
state-Ready = record { small = omega arith; zero_taken = refl }

request_page-state : (request_page state).0 ≡ 0x2000
unfolding request_page request_loop Bitmap.get
request_page-state = refl

pages-Balanced_example :
    Balanced (lock_page 0x5000 state)
    × Balanced (free_page 0x5000 state)
    × Balanced (reserve_page 0x5000 state)
    × Balanced (unreserve_page 0x5000 state)
pages-Balanced_example = pages-Balanced 0x5000 state (omega arith) state-Balanced

request_page-Allocated_example :
    let (page, s') = request_page state in
    ((page ≡ 0) × (s' ≡ state) × ((j : ℕ) → j < 16 → IsTaken state j))
    ⊎ ((page ≢ 0) × Allocated state page s')
unfolding Bitmap.get
request_page-Allocated_example = request_page-Allocated state (omega arith) refl

requests-NoRepeats_example : NoRepeats (requests 15 state)
requests-NoRepeats_example = requests-NoRepeats 15 state state-Ready

free_page-request_page_example :
    let (page, s') = request_page state in (page ≡ 0) ⊎ SamePages state (free_page page s')
free_page-request_page_example =
    free_page-request_page state state-Ready (record { free = omega arith; used = omega arith })

perform_all-refines_example :
    let os = request ∷ lock 0x5000 ∷ release 0x2000 ∷ unreserve 0x1000 ∷ request ∷ [] in
    ((perform_all os state).0 ≡ (answer_all os (pages_of state)).0)
    × (pages_of (perform_all os state).1 ≡ (answer_all os (pages_of state)).1)
perform_all-refines_example =
    perform_all-refines (request ∷ lock 0x5000 ∷ release 0x2000 ∷ unreserve 0x1000 ∷ request ∷ [])
      state (omega arith)

-- Two MiB, with a reserved region near the end.
abbrev memory_map : List MmapEntry
memory_map =
    record { base = 0; length = 0x200000; type = 1 }
    ∷ record { base = 0x1f0000; length = 0x10000; type = 2 }
    ∷ []

abbrev unbooted : Pmm
unbooted = record {
  free_memory_size = 0;
  used_memory_size = 0;
  total_memory_size = 0;
  reserved_memory_size = 0;
  page_bitmap_map = record { size = 0; address = 0; buffer = λ i. 0 };
  initialized = false;
  memory_size_bytes = 0;
}
