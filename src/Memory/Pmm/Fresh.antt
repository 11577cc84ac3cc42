-- ===== src/Memory/Pmm/Fresh.antt =====
-- Successive calls of `request_page`, and `free_page` after one.
use micron.Base.{
  ℕ, zero, suc, ◌^◌, ◌<◌, ◌≡◌, ◌≢◌, ◌⊎◌, inl, inr, arith, true, false, Bool-cases, List, [], ◌∷◌,
  ◌==◌, ap, ◌∙◌,
}
use micron.Util.Bitmap
use micron.Util.Bitmap.Laws.{get-set}
use micron.Memory.Pmm.{Pmm, page_index, lock_page, free_page, request_page}
use micron.Memory.Pmm.Accounts.{page_limit}
use micron.Memory.Pmm.Request.{
  IsTaken, IsFree, IsSmall, Found, request_page-Searched, request_page-Allocated,
}

-- What holds between two requests.
pub record Ready (s : Pmm) : Type 0 where
  pub small : IsSmall s
  pub zero_taken : IsTaken s 0

size-lock_page : (a : ℕ) (s : Pmm) → page_limit (lock_page a s) ≡ page_limit s
unfolding lock_page Bitmap.set
size-lock_page a s = ground arith

size-request_page : (s : Pmm) → IsSmall s → page_limit (request_page s).1 ≡ page_limit s
size-request_page s small = elim (request_page-Searched s small) [
  | inl f ↦ ap page_limit f.locked ∙ size-lock_page (request_page s).0 s
  | inr e ↦ ap page_limit e.unchanged
]

-- A page that is taken stays taken while pages are requested.
IsTaken-request_page : (s : Pmm) (j : ℕ) → Ready s → IsTaken s j → IsTaken (request_page s).1 j
IsTaken-request_page s j r taken = elim (request_page-Allocated s r.small r.zero_taken) [
  | inl (null, same, all) ↦ rw same taken
  | inr (ne, a) ↦ elim (Bool-cases (page_index (request_page s).0 == j)) [
    | inl hit ↦ ground (arith, a.now_taken)
    | inr miss ↦ a.others j (ground arith) ∙ taken
  ]
]

request_page-Ready : (s : Pmm) → Ready s → Ready (request_page s).1
request_page-Ready s r = record {
  small = rw (size-request_page s r.small) r.small;
  zero_taken = IsTaken-request_page s 0 r r.zero_taken;
}

-- The answers of `n` successive requests.
unfoldable pub requests : ℕ → Pmm → List ℕ
requests zero s = []
requests (suc n) s = let (page, s') = request_page s in page ∷ requests n s'

abbrev pub Each : (ℕ → Type 0) → List ℕ → Type 0
Each P [] = Unit
Each P (x ∷ xs) = P x × Each P xs

-- No page but `nullptr` is handed out twice.
abbrev pub NoRepeats : List ℕ → Type 0
NoRepeats [] = Unit
NoRepeats (x ∷ xs) = Each (λ y. (y ≡ 0) ⊎ (y ≢ x)) xs × NoRepeats xs

-- Whatever is taken at the start is never handed out.
requests-avoid :
    (n : ℕ) (s : Pmm) (page : ℕ)
    → Ready s
    → IsTaken s (page_index page)
    → Each (λ y. (y ≡ 0) ⊎ (y ≢ page)) (requests n s)
unfolding requests
requests-avoid zero s page r taken = tt
requests-avoid (suc n) s page r taken = (
  answer,
  requests-avoid n (request_page s).1 page (request_page-Ready s r)
      (IsTaken-request_page s (page_index page) r taken),
)
  where
    answer : ((request_page s).0 ≡ 0) ⊎ ((request_page s).0 ≢ page)
    answer = elim (request_page-Allocated s r.small r.zero_taken) [
      | inl (null, _, _) ↦ inl null
      | inr (_, a) ↦ inr (λ e. ground (arith, a.was_free))
    ]

-- With page 0 taken, and the bitmap's pages inside the address space, however many pages are
-- requested in a row, none is handed out twice.
pub requests-NoRepeats : (n : ℕ) (s : Pmm) → Ready s → NoRepeats (requests n s)
unfolding requests
requests-NoRepeats zero s r = tt
requests-NoRepeats (suc n) s r = (rest, requests-NoRepeats n s' (request_page-Ready s r))
  where
    page : ℕ
    page = (request_page s).0

    s' : Pmm
    s' = (request_page s).1

    page_taken : IsTaken s' (page_index page)
    page_taken = elim (request_page-Allocated s r.small r.zero_taken) [
      | inl (null, _, _) ↦ rw null (IsTaken-request_page s 0 r r.zero_taken)
      | inr (_, a) ↦ a.now_taken
    ]

    rest : Each (λ y. (y ≡ 0) ⊎ (y ≢ page)) (requests n s')
    rest = requests-avoid n s' page (request_page-Ready s r) page_taken

-- The counters of a state that lie in 64 bits.
pub record InRange (s : Pmm) : Type 0 where
  pub free : s.free_memory_size < 2 ^ 64
  pub used : s.used_memory_size < 2 ^ 64

-- Two states with the same counters that mark the same pages.
pub record SamePages (s t : Pmm) : Type 0 where
  pub free : t.free_memory_size ≡ s.free_memory_size
  pub used : t.used_memory_size ≡ s.used_memory_size
  pub reserved : t.reserved_memory_size ≡ s.reserved_memory_size
  pub pages : (j : ℕ) → Bitmap.get t.page_bitmap_map j ≡ Bitmap.get s.page_bitmap_map j

free_page-lock_page :
    (a : ℕ) (s : Pmm)
    → InRange s
    → IsFree s (page_index a)
    → SamePages s (free_page a (lock_page a s))
unfolding free_page lock_page
free_page-lock_page a s range unused = record {
  free = ground (arith, marked);
  used = ground (arith, marked);
  reserved = ground (arith, marked);
  pages = λ j. ground (
    arith,
    marked,
    get-set s.page_bitmap_map (page_index a) j true,
    get-set (Bitmap.set s.page_bitmap_map (page_index a) true) (page_index a) j false,
  );
}
  where
    marked : Bitmap.get (Bitmap.set s.page_bitmap_map (page_index a) true) (page_index a) ≡ true
    marked = ground (arith, get-set s.page_bitmap_map (page_index a) (page_index a) true)

-- With page 0 taken, the bitmap's pages inside the address space and the counters inside the word,
-- freeing the page of a successful request puts the counters and every bit back.
pub free_page-request_page :
    (s : Pmm)
    → Ready s
    → InRange s
    → let (page, s') = request_page s in (page ≡ 0) ⊎ SamePages s (free_page page s')
free_page-request_page s r range = elim (request_page-Searched s r.small) [
  | inl f ↦ inr (rw f.locked (free_page-lock_page (request_page s).0 s range (unused f)))
  | inr e ↦ inl e.null
]
  where
    small : IsSmall s
    small = r.small

    unused :
        Found 0 (page_limit s) s (request_page s).0 (request_page s).1
        → IsFree s (page_index (request_page s).0)
    unused f = rw (index f) f.was_free
      where
        index :
            (f : Found 0 (page_limit s) s (request_page s).0 (request_page s).1)
            → page_index (request_page s).0 ≡ f.index
        index f = omega (arith, f.address, f.below)
