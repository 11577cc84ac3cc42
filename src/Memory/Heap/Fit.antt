-- ===== src/Memory/Heap/Fit.antt =====
-- `malloc` takes the first free segment of the chain that is long enough.
use micron.Base.{
  ℕ, zero, suc, ◌%◌, ◌≤◌, ◌<◌, ◌≡◌, ◌≢◌, ◌⊎◌, inl, inr, refl, ap, ◌∙◌, arith, Bool, true, false,
  Bool-cases, not, ◌&&◌, some, List, [], ◌∷◌, ltb, if◌then◌else◌, length, add64,
}
use micron.Memory.Heap.{
  header_size, Headers, Heap, rounded_size, take_segment, split, insert_segment, malloc_loop,
  malloc,
}

-- The `next` pointers lead from an address through these segments to the end.
abbrev pub IsChain : Headers → ℕ → List ℕ → Type 0
IsChain h p [] = p ≡ 0
IsChain h p (x ∷ xs) = (p ≡ x) × (x ≢ 0) × IsChain h (h x).next xs

abbrev pub fits : Headers → ℕ → ℕ → Bool
fits h size x = (h x).free && not (ltb (h x).length size)

-- The first segment that fits, or 0.
unfoldable pub first_fit : Headers → ℕ → List ℕ → ℕ
first_fit h size [] = 0
first_fit h size (x ∷ xs) = if fits h size x then x else first_fit h size xs

-- What is left of the memory once that segment is taken.
unfoldable pub taken : Headers → ℕ → List ℕ → Headers
taken h size [] = h
taken h size (x ∷ xs) = if fits h size x then take_segment size x h else taken h size xs

malloc_loop-first_fit :
    (fuel size : ℕ) (h : Headers) (p x : ℕ) (xs : List ℕ)
    → IsChain h p (x ∷ xs)
    → length xs < fuel
    → malloc_loop fuel size p h ≡ some (first_fit h size (x ∷ xs), taken h size (x ∷ xs))
unfolding malloc_loop first_fit taken
malloc_loop-first_fit zero size h p x xs chain enough = absurd (omega arith)
malloc_loop-first_fit (suc fuel) size h p x [] chain enough = ground arith
malloc_loop-first_fit (suc fuel) size h p x (y ∷ ys) chain enough =
    ground (arith, malloc_loop-first_fit fuel size h (h x).next y ys chain.2)

-- `malloc` gives a size that is a multiple of 16 as it is; any other size from 32 on is not rounded
-- up but down, below what was asked for, to less than 32.
rounded_size-lt :
    (size : ℕ)
    → (size % 16 ≡ 0 → rounded_size size ≡ size)
      × (size % 16 ≢ 0 → 32 ≤ size → (rounded_size size < size) × (rounded_size size < 32))
unfolding rounded_size
rounded_size-lt size = (λ e. ground arith, λ ne h. ground arith)

malloc-taken :
    (fuel size : ℕ) (h : Heap) (x : ℕ) (xs : List ℕ)
    → size ≢ 0
    → IsChain h.headers h.heap_start (x ∷ xs)
    → length xs < fuel
    → let rounded = rounded_size size in
      malloc fuel size h
      ≡ some (
        first_fit h.headers rounded (x ∷ xs),
        record h { headers = taken h.headers rounded (x ∷ xs) },
      )
unfolding malloc
malloc-taken fuel size h x xs nonzero chain enough =
    ground (
      arith,
      malloc_loop-first_fit fuel (rounded_size size) h.headers h.heap_start x xs chain enough,
    )

-- Taking a segment leaves the headers that it does not link as they are.
pub take_segment-elsewhere :
    (h : Headers) (x size a : ℕ)
    → a ≢ x
    → a ≢ add64 (add64 x size) header_size
    → a ≢ (h x).next
    → take_segment size x h a ≡ h a
unfolding take_segment split insert_segment
take_segment-elsewhere h x size a p q r = ground arith

-- What becomes of a segment that is taken: it is no longer free, it is still long enough, and the only
-- other headers that change are the one behind its first `size` bytes and the next one.
pub record IsTakenBy (h h' : Headers) (size a : ℕ) : Type 0 where
  pub not_free : (h' a).free ≡ false
  pub long_enough : size ≤ (h' a).length
  pub others : (b : ℕ) → b ≢ a → b ≢ add64 (add64 a size) header_size → b ≢ (h a).next → h' b ≡ h b

take_segment-IsTakenBy :
    (h : Headers) (size a : ℕ) → size ≤ (h a).length → IsTakenBy h (take_segment size a h) size a
take_segment-IsTakenBy h size a long = record {
  not_free = unfold take_segment in ground arith;
  long_enough = unfold take_segment split insert_segment in ground arith;
  others = λ b p q r. take_segment-elsewhere h a size b p q r;
}

-- The answer is the first of these segments that is free and has the length, and it was taken; where
-- there is none, the answer is 0 and the headers are as they were.
abbrev pub IsFirstFit : Headers → ℕ → List ℕ → (answer : ℕ) (after : Headers) → Type 0
IsFirstFit h size [] answer after = (answer ≡ 0) × (after ≡ h)
IsFirstFit h size (x ∷ xs) answer after =
    (((h x).free ≡ true) × (size ≤ (h x).length) × (answer ≡ x) × IsTakenBy h after size x)
    ⊎ ((((h x).free ≡ false) ⊎ ((h x).length < size)) × IsFirstFit h size xs answer after)

first_fit-IsFirstFit :
    (h : Headers) (size : ℕ) (xs : List ℕ)
    → IsFirstFit h size xs (first_fit h size xs) (taken h size xs)
unfolding first_fit taken
first_fit-IsFirstFit h size [] = (refl, refl)
first_fit-IsFirstFit h size (x ∷ xs) = elim (Bool-cases (fits h size x)) [
  | inl e ↦
      rw e (inl (ground arith, ground arith, refl, take_segment-IsTakenBy h size x (ground arith)))
  | inr e ↦ rw e (inr (missed e, first_fit-IsFirstFit h size xs))
]
  where
    missed : fits h size x ≡ false → ((h x).free ≡ false) ⊎ ((h x).length < size)
    missed e = ground arith

-- For a multiple of 16 that is not 0, on a chain of segments, and with a unit of fuel for each of
-- them, `malloc` ends: it answers the first segment of the chain that is free and at least as long
-- as the size, which is then no longer free and still long enough, and of the other headers only the
-- one behind its first `size` bytes and the next one may change; or, where no segment is free and
-- long enough, it answers 0 and every header is as before.
pub malloc-IsFirstFit :
    (fuel size : ℕ) (h : Heap) (x : ℕ) (xs : List ℕ)
    → size ≢ 0
    → size % 16 ≡ 0
    → IsChain h.headers h.heap_start (x ∷ xs)
    → length xs < fuel
    → (answer : ℕ) × (after : Headers) × (malloc fuel size h
        ≡ some (answer, record h { headers = after }))
      × IsFirstFit h.headers size (x ∷ xs) answer after
malloc-IsFirstFit fuel size h x xs nonzero even chain enough = (
  first_fit h.headers size (x ∷ xs),
  taken h.headers size (x ∷ xs),
  malloc-taken fuel size h x xs nonzero chain enough
      ∙ ap
          (λ n.
            some
              (first_fit h.headers n (x ∷ xs), record h { headers = taken h.headers n (x ∷ xs) }))
          ((rounded_size-lt size).0 even),
  first_fit-IsFirstFit h.headers size (x ∷ xs),
)
