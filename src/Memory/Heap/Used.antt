-- ===== src/Memory/Heap/Used.antt =====
-- The heap after any calls of `malloc` and `free`.
use mathlib.Core.Path.{subst}
use micron.Base.{
  ℕ, zero, suc, ◌+◌, ◌*◌, ◌^◌, ◌≤◌, ◌<◌, ◌≡◌, ◌≢◌, ◌⊎◌, inl, inr, ◌∙◌, refl, sym, ap, arith, List,
  [], ◌∷◌, ◌==◌, Bool-cases, some, not, ◌&&◌, ltb,
}
use micron.Memory.Heap.{
  Headers, Heap, initialize_heap, take_segment, malloc_loop, malloc, rounded_size,
}
use micron.Memory.Heap.Tiles.{start_of, Tiles, Holds-le, Holds-apart}
use micron.Memory.Heap.Live.{
  Blocks, IsLive, took, had_none, gave_back, Calls, start, next, Sound, IsHeld, malloc-Sound,
  had_none-Sound, free-Sound, Holds-above,
}

module _ (low high : ℕ) where
  Calls-Sound :
      {h : Heap} {blocks : Blocks} {h' : Heap} {blocks' : Blocks}
      → Calls h blocks h' blocks'
      → Sound low high h blocks
      → Sound low high h' blocks'
  Calls-Sound start s = s
  Calls-Sound (next calls (took {h} {h'} {blocks} fuel size a e some_a divides)) s =
      malloc-Sound low high h h' blocks fuel size a (Calls-Sound calls s) e some_a divides
  Calls-Sound (next calls (had_none {h} {h'} {blocks} fuel size e)) s =
      had_none-Sound low high h h' blocks fuel size (Calls-Sound calls s) e
  Calls-Sound (next calls (gave_back {h} {blocks} a size live)) s =
      free-Sound low high h blocks a size live (Calls-Sound calls s)

initialize_heap-Sound :
    (h : Heap) (low length : ℕ)
    → 0 < low
    → 32 ≤ length
    → low + length < 2 ^ 64
    → Sound low (low + length) (initialize_heap low length h) []
unfolding initialize_heap
initialize_heap-Sound h low length some_low room fits = record {
  list = low ∷ [];
  low_kept = refl;
  high_kept = omega arith;
  some_low = some_low;
  fits = omega arith;
  tiles = (refl, some_low, ground arith, ground arith, ground arith);
  held = λ a size live. absurd live;
}

Calls-fresh :
    (h h' : Heap) (low length : ℕ) (blocks : Blocks)
    → 0 < low
    → 32 ≤ length
    → low + length < 2 ^ 64
    → Calls (initialize_heap low length h) [] h' blocks
    → Sound low (low + length) h' blocks
Calls-fresh h h' low length blocks some_low room fits calls =
    Calls-Sound low (low + length) calls (initialize_heap-Sound h low length some_low room fits)

-- The heap is initialized at an address that is not 0 with at least 32 bytes, which end below
-- 2 ^ 64, and `malloc` and `free` are called in any order, `free` with blocks that are in use, where
-- each segment that `malloc` takes is as long as the rounded size or at least 64 bytes longer. Then
-- of two blocks in use at different addresses each begins within the heap and ends within it, with
-- its header and the rounded size, and one ends before the other begins.
pub Calls-apart :
    (h h' : Heap) (low length : ℕ) (blocks : Blocks) (a b n m : ℕ)
    → 0 < low
    → 32 ≤ length
    → low + length < 2 ^ 64
    → Calls (initialize_heap low length h) [] h' blocks
    → IsLive a n blocks
    → IsLive b m blocks
    → a ≢ b
    → (low ≤ a)
      × (a + 32 + rounded_size n ≤ low + length)
      × ((a + 32 + rounded_size n ≤ b) ⊎ (b + 32 + rounded_size m ≤ a))
Calls-apart h h' low length blocks a b n m some_low room fits calls live live' ne = (
  omega (arith, within.0, s.low_kept, start_le),
  omega (arith, within.1, s.high_kept, p.long),
  elim (Holds-apart h'.headers h'.heap_end 0 h'.heap_start a b s.list s.tiles p.holds q.holds) [
    | inl same ↦ absurd (ne same)
    | inr (inl before) ↦ inl (omega (arith, p.long))
    | inr (inr behind) ↦ inr (omega (arith, q.long))
  ],
)
  where
    s : Sound low (low + length) h' blocks
    s = Calls-fresh h h' low length blocks some_low room fits calls

    p : IsHeld h'.headers s.list a n
    p = s.held a n live

    q : IsHeld h'.headers s.list b m
    q = s.held b m live'

    within : (start_of h'.heap_end s.list ≤ a) × (a + 32 + (h'.headers a).length ≤ h'.heap_end)
    within = Holds-le h'.headers h'.heap_end 0 h'.heap_start a s.list s.tiles p.holds

    start_le : h'.heap_start ≤ a
    start_le = Holds-above h'.headers h'.heap_end 0 h'.heap_start a s.list s.tiles p.holds

next-behind :
    (h : Headers) (end prev p x : ℕ) (xs : List ℕ)
    → Tiles h end prev p (x ∷ xs)
    → (h p).next ≢ 0
    → p + 32 ≤ (h p).next
next-behind h end prev p x [] t some_next =
    absurd (some_next (ap (λ (w : ℕ). (h w).next) t.0 ∙ t.4))
next-behind h end prev p x (y ∷ ys) t some_next =
    omega (arith, t.0, t.3, t.4.0, ap (λ (w : ℕ). (h w).next) t.0)

malloc_loop-ends :
    (fuel size : ℕ) (h : Headers) (end prev p : ℕ) (xs : List ℕ)
    → Tiles h end prev p xs
    → 0 < p
    → end ≤ p + 32 * fuel
    → (r : ℕ × Headers) × (malloc_loop fuel size p h ≡ some r)
unfolding malloc_loop
malloc_loop-ends fuel size h end prev p [] t some_p room = absurd (omega arith)
malloc_loop-ends zero size h end prev p (x ∷ xs) t some_p room =
    absurd (omega (arith, t.0, (Holds-le h end prev p x (x ∷ xs) t (inl refl)).1))
malloc_loop-ends (suc fuel) size h end prev p (x ∷ xs) t some_p room =
    elim (Bool-cases ((h p).free && not (ltb (h p).length size))) [
      | inl fits ↦ ((p, take_segment size p h), rw fits refl)
      | inr skip ↦ elim (Bool-cases ((h p).next == 0)) [
        | inl done ↦ ((0, h), rw skip (rw done refl))
        | inr more ↦
            let r =
              malloc_loop-ends fuel size h end x (h p).next xs
                (subst (λ (w : ℕ). Tiles h end x (h w).next xs) (sym t.0) t.4) (ground arith)
                (omega (arith, next-behind h end prev p x xs t (ground arith))) in
            (r.0, rw skip (rw more r.1))
      ]
    ]

-- After calls of `malloc` and `free` in any order `malloc` ends for every size: one unit of fuel for each 32 bytes of the heap is
-- enough for an answer. The heap is initialized at an address that is not 0 with at least 32 bytes,
-- which end below 2 ^ 64, `free` is called with blocks that are in use, and each segment that
-- `malloc` has taken was as long as the rounded size or at least 64 bytes longer.
pub malloc-ends :
    (h h' : Heap) (low length : ℕ) (blocks : Blocks) (fuel size : ℕ)
    → 0 < low
    → 32 ≤ length
    → low + length < 2 ^ 64
    → Calls (initialize_heap low length h) [] h' blocks
    → length ≤ 32 * fuel
    → (a : ℕ) × (h'' : Heap) × (malloc fuel size h' ≡ some (a, h''))
unfolding malloc
malloc-ends h h' low length blocks fuel size some_low room fits calls enough =
    let s = Calls-fresh h h' low length blocks some_low room fits calls in
    let r =
      malloc_loop-ends fuel (rounded_size size) h'.headers h'.heap_end 0 h'.heap_start s.list
        s.tiles s.some_low (omega (arith, s.low_kept, s.high_kept)) in
    elim (Bool-cases (size == 0)) [
      | inl none_asked ↦ (0, h', rw none_asked refl)
      | inr asked ↦ (r.0.0, record h' { headers = r.0.1 }, rw asked (rw r.1 refl))
    ]
