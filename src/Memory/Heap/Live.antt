-- ===== src/Memory/Heap/Live.antt =====
-- The blocks that `malloc` has handed out and `free` has not taken back.
use mathlib.Core.Path.{subst}
use micron.Base.{
  ℕ, ◌^◌, ◌≤◌, ◌<◌, ◌≡◌, ◌≢◌, ◌⊎◌, inl, inr, sym, arith, Bool, true, false, List, [], ◌∷◌, ◌==◌,
  if◌then◌else◌, Bool-cases, some,
}
use micron.Memory.Heap.{Headers, Heap, take_segment, malloc, rounded_size, free}
use micron.Memory.Heap.Tiles.{Tiles, Holds, Holds-le, Kept, Retiled}
use micron.Memory.Heap.Steps.{
  Divides, take_segment-Retiled, take_segment-taken, malloc-found, rounded_size-large,
}
use micron.Memory.Heap.Frees.{Regrouped, free-Regrouped}

-- The address of each block, and the size it was asked for with.
abbrev pub Blocks : Type 0
Blocks = List (ℕ × ℕ)

-- A block of the list.
abbrev pub IsLive : (a size : ℕ) → Blocks → Type 0
IsLive a size [] = ⊥
IsLive a size ((b, n) ∷ blocks) = ((b ≡ a) × (n ≡ size)) ⊎ IsLive a size blocks

-- The blocks without the one at the address.
unfoldable pub without : ℕ → Blocks → Blocks
without a [] = []
without a ((b, n) ∷ blocks) = let rest = without a blocks in if b == a then rest else (b, n) ∷ rest

IsLive-without :
    (a b size : ℕ) (blocks : Blocks)
    → IsLive b size (without a blocks)
    → (b ≢ a) × IsLive b size blocks
unfolding without
IsLive-without a b size [] m = absurd m
IsLive-without a b size ((c, n) ∷ blocks) m = elim (Bool-cases (c == a)) [
  | inl same ↦
      let k = IsLive-without a b size blocks (
        subst
          (λ (q : Bool). IsLive b size (if q then without a blocks else (c, n) ∷ without a blocks))
          same m) in
      (k.0, inr k.1)
  | inr other ↦
      elim (subst
        (λ (q : Bool). IsLive b size (if q then without a blocks else (c, n) ∷ without a blocks))
        other m) [
          | inl e ↦ (ground arith, inl e)
          | inr behind ↦ let k = IsLive-without a b size blocks behind in (k.0, inr k.1)
        ]
]

-- A segment is not both taken and free.
taken_free : (h : Headers) (a b : ℕ) → b ≡ a → (h b).free ≡ false → (h a).free ≡ true → ⊥
taken_free h a b e taken is_free =
    let f : (h b).free ≡ true = subst (λ (c : ℕ). (h c).free ≡ true) (sym e) is_free in cc

pub Holds-above :
    (h : Headers) (end prev p a : ℕ) (xs : List ℕ) → Tiles h end prev p xs → Holds a xs → p ≤ a
Holds-above h end prev p a [] t m = absurd m
Holds-above h end prev p a (x ∷ xs) t m =
    omega (arith, t.0, (Holds-le h end prev p a (x ∷ xs) t m).0)

-- One call: `malloc` hands out a block, or has none; `free` takes one back. The segment that `malloc`
-- takes is as long as the size or at least 64 bytes longer.
pub data Call : Heap → Blocks → Heap → Blocks → Type 0 where
  took :
      {h h' : Heap} {blocks : Blocks} (fuel size a : ℕ)
      → malloc fuel size h ≡ some (a, h')
      → a ≢ 0
      → Divides h.headers (rounded_size size) a
      → Call h blocks h' ((a, size) ∷ blocks)
  had_none :
      {h h' : Heap} {blocks : Blocks} (fuel size : ℕ)
      → malloc fuel size h ≡ some (0, h')
      → Call h blocks h' blocks
  gave_back :
      {h : Heap} {blocks : Blocks} (a size : ℕ)
      → IsLive a size blocks
      → Call h blocks (free a h) (without a blocks)

-- Calls, one after the other.
pub data Calls (h : Heap) (blocks : Blocks) : Heap → Blocks → Type 0 where
  start : Calls h blocks h blocks
  next :
      {h₁ h₂ : Heap} {blocks₁ blocks₂ : Blocks}
      → Calls h blocks h₁ blocks₁
      → Call h₁ blocks₁ h₂ blocks₂
      → Calls h blocks h₂ blocks₂

-- A block is a segment that is taken, and long enough for the rounded size.
pub record IsHeld (h : Headers) (list : List ℕ) (a size : ℕ) : Type 0 where
  pub holds : Holds a list
  pub taken : (h a).free ≡ false
  pub long : rounded_size size ≤ (h a).length

-- The heap is a list of segments one behind the other, and every block is held.
pub record Sound (low high : ℕ) (h : Heap) (blocks : Blocks) : Type 0 where
  pub list : List ℕ
  pub low_kept : h.heap_start ≡ low
  pub high_kept : h.heap_end ≡ high
  pub some_low : 0 < h.heap_start
  pub fits : h.heap_end < 2 ^ 64
  pub tiles : Tiles h.headers h.heap_end 0 h.heap_start list
  pub held : (a size : ℕ) → IsLive a size blocks → IsHeld h.headers list a size

-- A block that is taken stays held.
still-IsHeld :
    (h h' : Headers) (xs ys : List ℕ) (a size : ℕ)
    → IsHeld h xs a size
    → Kept h h' a ys
    → IsHeld h' ys a size
still-IsHeld h h' xs ys a size k (m, taken, same) = record {
  holds = m;
  taken = taken;
  long = omega (arith, k.long, same);
}

module _ (low high : ℕ) where
  take_segment-Sound :
      (h : Heap) (blocks : Blocks) (size a : ℕ) (s : Sound low high h blocks)
      → size ≢ 0
      → Holds a s.list
      → (h.headers a).free ≡ true
      → rounded_size size ≤ (h.headers a).length
      → Divides h.headers (rounded_size size) a
      → Sound low high
          (record h { headers = take_segment (rounded_size size) a h.headers })
          ((a, size) ∷ blocks)
  take_segment-Sound h blocks size a s asked m is_free long divides = record {
    list = r.list;
    low_kept = s.low_kept;
    high_kept = s.high_kept;
    some_low = s.some_low;
    fits = s.fits;
    tiles = r.tiles;
    held = held;
  }
    where
      large : 16 ≤ rounded_size size
      large = rounded_size-large size asked

      h' : Headers
      h' = take_segment (rounded_size size) a h.headers

      r : Retiled h.headers h' h.heap_end 0 h.heap_start a s.list
      r =
          take_segment-Retiled h.headers h.heap_end 0 h.heap_start a (rounded_size size) s.list
            s.fits large s.tiles m divides

      got : IsHeld h' r.list a size
      got =
          let k =
            take_segment-taken h.headers h.heap_end 0 h.heap_start a (rounded_size size) s.list
              s.fits large s.tiles m divides long in
          record { holds = r.itself; taken = k.0; long = k.1 }

      held : (b n : ℕ) → IsLive b n ((a, size) ∷ blocks) → IsHeld h' r.list b n
      held b n (inl (e, e')) =
          subst (λ (c : ℕ). IsHeld h' r.list c n) e (subst (λ (k : ℕ). IsHeld h' r.list a k) e' got)
      held b n (inr live) =
          let k = s.held b n live in
          still-IsHeld h.headers h' s.list r.list b n k
            (r.kept b k.holds (λ e. absurd (taken_free h.headers a b e k.taken is_free)) k.taken)

  pub malloc-Sound :
      (h h' : Heap) (blocks : Blocks) (fuel size a : ℕ) (s : Sound low high h blocks)
      → malloc fuel size h ≡ some (a, h')
      → a ≢ 0
      → Divides h.headers (rounded_size size) a
      → Sound low high h' ((a, size) ∷ blocks)
  malloc-Sound h h' blocks fuel size a s e some_a divides =
      elim (malloc-found fuel size h h' 0 a s.list s.tiles s.some_low e) [
        | inl (none_found, same) ↦ absurd (some_a none_found)
        | inr (asked, m, is_free, long, e') ↦
            subst (λ (k : Heap). Sound low high k ((a, size) ∷ blocks)) (sym e')
              (take_segment-Sound h blocks size a s asked m is_free long divides)
      ]

  pub had_none-Sound :
      (h h' : Heap) (blocks : Blocks) (fuel size : ℕ) (s : Sound low high h blocks)
      → malloc fuel size h ≡ some (0, h')
      → Sound low high h' blocks
  had_none-Sound h h' blocks fuel size s e =
      elim (malloc-found fuel size h h' 0 0 s.list s.tiles s.some_low e) [
        | inl (none_found, same) ↦ subst (λ (k : Heap). Sound low high k blocks) (sym same) s
        | inr (asked, m, is_free, long, e') ↦ absurd (
            omega (
              arith,
              s.some_low,
              Holds-above h.headers h.heap_end 0 h.heap_start 0 s.list s.tiles m,
            ))
      ]

  pub free-Sound :
      (h : Heap) (blocks : Blocks) (a size : ℕ)
      → IsLive a size blocks
      → Sound low high h blocks
      → Sound low high (free a h) (without a blocks)
  unfolding free
  free-Sound h blocks a size live s = record {
    list = r.list;
    low_kept = s.low_kept;
    high_kept = s.high_kept;
    some_low = s.some_low;
    fits = s.fits;
    tiles = r.tiles;
    held = held;
  }
    where
      r : Regrouped h.headers (free a h).headers h.heap_end 0 h.heap_start a s.list
      r = free-Regrouped h h.heap_start a s.list s.fits s.tiles (s.held a size live).holds

      held : (b n : ℕ) → IsLive b n (without a blocks) → IsHeld (free a h).headers r.list b n
      held b n m =
          let (ne, before) = IsLive-without a b n blocks m in
          let k = s.held b n before in
          still-IsHeld h.headers (free a h).headers s.list r.list b n k
            (r.kept b k.holds ne k.taken)
