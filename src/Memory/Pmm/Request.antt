-- ===== src/Memory/Pmm/Request.antt =====
-- `request_page`: which page it hands out, and what it leaves alone.
use native.Mathlib.Decide.{ℕ_discrete}
use micron.Base.{
  ℕ, zero, suc, ◌+◌, ◌*◌, ◌%◌, ◌^◌, ◌≤◌, ◌<◌, ◌≡◌, ◌≢◌, ◌⊎◌, inl, inr, refl, arith, u64, true,
  false, sub64, Bool-cases,
}
use micron.Util.Bitmap
use micron.Util.Bitmap.Laws.{get-set}
use micron.Memory.Pmm.{Pmm, page_index, lock_page, request_loop, request_page}
use micron.Memory.Pmm.Accounts.{page_limit}

abbrev pub IsTaken : Pmm → ℕ → Type 0
IsTaken s i = Bitmap.get s.page_bitmap_map i ≡ true

abbrev pub IsFree : Pmm → ℕ → Type 0
IsFree s i = Bitmap.get s.page_bitmap_map i ≡ false

-- The first free page from `lo` up to `hi`, locked.
pub record Found (lo hi : ℕ) (s : Pmm) (page : ℕ) (s' : Pmm) : Type 0 where
  pub index : ℕ
  pub above : lo ≤ index
  pub below : index < hi
  pub was_free : IsFree s index
  pub first : (j : ℕ) → lo ≤ j → j < index → IsTaken s j
  pub address : page ≡ u64 (index * 4096)
  pub locked : s' ≡ lock_page page s

-- No page from `lo` up to `hi` is free.
pub record Exhausted (lo hi : ℕ) (s : Pmm) (page : ℕ) (s' : Pmm) : Type 0 where
  pub all_taken : (j : ℕ) → lo ≤ j → j < hi → IsTaken s j
  pub null : page ≡ 0
  pub unchanged : s' ≡ s

abbrev pub Searched : ℕ → ℕ → Pmm → ℕ × Pmm → Type 0
Searched lo hi s (page, s') = Found lo hi s page s' ⊎ Exhausted lo hi s page s'

IsTaken-from :
    (lo hi : ℕ) (s : Pmm) (j : ℕ)
    → IsTaken s lo
    → ((i : ℕ) → lo + 1 ≤ i → i < hi → IsTaken s i)
    → lo ≤ j
    → j < hi
    → IsTaken s j
IsTaken-from lo hi s j taken rest p q = elim (ℕ_discrete lo j) [
  | yes e ↦ rw e at taken
  | no ne ↦ rest j (omega arith) q
]

Searched-taken :
    (lo hi : ℕ) (s : Pmm) (r : ℕ × Pmm)
    → IsTaken s lo
    → Searched (lo + 1) hi s r
    → Searched lo hi s r
Searched-taken lo hi s (page, s') taken (inl f) = inl (record {
  index = f.index;
  above = omega arith;
  below = f.below;
  was_free = f.was_free;
  first = λ j p q. IsTaken-from lo f.index s j taken f.first p q;
  address = f.address;
  locked = f.locked;
})
Searched-taken lo hi s (page, s') taken (inr e) = inr (record {
  all_taken = λ j p q. IsTaken-from lo hi s j taken e.all_taken p q;
  null = e.null;
  unchanged = e.unchanged;
})

request_loop-Searched :
    (left lo hi : ℕ) (s : Pmm) → lo + left ≡ hi → Searched lo hi s (request_loop left lo s)
unfolding request_loop
request_loop-Searched zero lo hi s e =
    inr (record { all_taken = λ j p q. absurd (omega arith); null = refl; unchanged = refl })
request_loop-Searched (suc left) lo hi s e = elim (Bool-cases (Bitmap.get s.page_bitmap_map lo)) [
  | inl taken ↦ rw taken (
      Searched-taken lo hi s (request_loop left (lo + 1) s) taken
        (request_loop-Searched left (lo + 1) hi s (omega arith)))
  | inr unused ↦ rw unused (
      inl (record {
        index = lo;
        above = omega arith;
        below = omega arith;
        was_free = unused;
        first = λ j p q. absurd (omega arith);
        address = refl;
        locked = refl;
      }))
]

-- The pages of the bitmap lie inside the 64-bit address space.
abbrev pub IsSmall : Pmm → Type 0
IsSmall s = page_limit s * 4096 ≤ 2 ^ 64

-- `request_page` hands out the lowest free page, locked, or nothing when every page is taken.
pub request_page-Searched : (s : Pmm) → IsSmall s → Searched 0 (page_limit s) s (request_page s)
unfolding request_page
request_page-Searched s small =
    request_loop-Searched (u64 (page_limit s)) 0 (page_limit s) s (omega arith)

-- What a successful request leaves behind.
pub record Allocated (s : Pmm) (page : ℕ) (s' : Pmm) : Type 0 where
  pub aligned : page % 4096 ≡ 0
  pub inside : page_index page < page_limit s
  pub was_free : IsFree s (page_index page)
  pub now_taken : IsTaken s' (page_index page)
  pub lowest : (j : ℕ) → j < page_index page → IsTaken s j
  pub others :
      (j : ℕ)
      → j ≢ page_index page
      → Bitmap.get s'.page_bitmap_map j ≡ Bitmap.get s.page_bitmap_map j
  pub free_memory_size : s'.free_memory_size ≡ sub64 s.free_memory_size 4096

lock_page-Allocated :
    (s : Pmm) (page : ℕ)
    → page % 4096 ≡ 0
    → page_index page < page_limit s
    → IsFree s (page_index page)
    → ((j : ℕ) → j < page_index page → IsTaken s j)
    → Allocated s page (lock_page page s)
unfolding lock_page Bitmap.set
lock_page-Allocated s page aligned inside unused lowest = record {
  aligned = aligned;
  inside = inside;
  was_free = unused;
  now_taken = ground (arith, get-set s.page_bitmap_map (page_index page) (page_index page) true);
  lowest = lowest;
  others = λ j ne. ground (arith, get-set s.page_bitmap_map (page_index page) j true);
  free_memory_size = ground arith;
}

Found-Allocated :
    (s : Pmm) (page : ℕ) (s' : Pmm)
    → IsSmall s
    → Found 0 (page_limit s) s page s'
    → Allocated s page s'
Found-Allocated s page s' small f = rw f.locked (
    lock_page-Allocated s page (omega arith) (omega arith) (rw index f.was_free)
      (λ j h. f.first j (omega arith) (omega arith)))
  where
    open f use {below, address}

    index : page_index page ≡ f.index
    index = omega arith

-- With page 0 reserved, as `initialize` leaves it, a request returns `nullptr` exactly when every
-- page is taken, and any other answer is a fresh page.
pub request_page-Allocated :
    (s : Pmm)
    → IsSmall s
    → IsTaken s 0
    → let (page, s') = request_page s in
      ((page ≡ 0) × (s' ≡ s) × ((j : ℕ) → j < page_limit s → IsTaken s j))
      ⊎ ((page ≢ 0) × Allocated s page s')
request_page-Allocated s small zero_taken = elim (request_page-Searched s small) [
  | inl f ↦ inr (found_ne_zero f, Found-Allocated s page s' small f)
  | inr e ↦ inl (e.null, e.unchanged, λ j h. e.all_taken j (omega arith) h)
]
  where
    page : ℕ
    page = (request_page s).0

    s' : Pmm
    s' = (request_page s).1

    found_ne_zero : Found 0 (page_limit s) s page s' → page ≢ 0
    found_ne_zero f = λ z. ground (arith, f.was_free, f.address, f.below)
