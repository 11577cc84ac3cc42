-- ===== src/Memory/Heap/Ops.antt =====
-- What the stores of the heap's operations do to its segments.
use mathlib.Core.Path.{subst}
use native.Mathlib.Decide.{ℕ_discrete}
use micron.Base.{
  ℕ, ◌+◌, ◌^◌, ◌≤◌, ◌<◌, ◌≡◌, ◌≢◌, ◌⊎◌, inl, inr, ◌∙◌, refl, sym, ap, arith, Bool, false, List, [],
  ◌∷◌,
}
use micron.Memory.Heap.{Header, Headers, set_free, split}
use micron.Memory.Heap.Chain.{CanSplit, Halves, split-Halves}
use micron.Memory.Heap.Tiles.{
  start_of, Tiles, Tiles-above, Tiles-at, Holds, Holds-le, Kept, Retiled, Retiled-from,
}

-- The same headers are segments still.
pub Retiled-refl :
    (h : Headers) (end prev p x : ℕ) (xs : List ℕ)
    → Tiles h end prev p xs
    → Holds x xs
    → Retiled h h end prev p x xs
Retiled-refl h end prev p x xs t m = record {
  list = xs;
  tiles = t;
  start = refl;
  itself = m;
  kept = λ a n ne taken. (n, taken, refl);
}

-- The segments are given by the lengths and the links.
Tiles-same_fields :
    (h h' : Headers) (end prev p : ℕ) (xs : List ℕ)
    → ((a : ℕ)
        → ((h' a).length ≡ (h a).length) × ((h' a).next ≡ (h a).next) × ((h' a).last ≡ (h a).last))
    → Tiles h end prev p xs
    → Tiles h' end prev p xs
Tiles-same_fields h h' end prev p [] same t = t
Tiles-same_fields h h' end prev p (x ∷ xs) same (e, some_x, last, room, rest) = (
  e,
  some_x,
  (same x).2 ∙ last,
  omega (arith, (same x).0),
  rw (same x).1 (Tiles-same_fields h h' end x (h x).next xs same rest),
)

pub set_free-Retiled :
    (h : Headers) (b : Bool) (end prev p x : ℕ) (xs : List ℕ)
    → Tiles h end prev p xs
    → Holds x xs
    → Retiled h (set_free h x b) end prev p x xs
set_free-Retiled h b end prev p x xs t m = record {
  list = xs;
  tiles =
      Tiles-same_fields h (set_free h x b) end prev p xs
        (λ a. (ground arith, ground arith, ground arith)) t;
  start = refl;
  itself = m;
  kept = λ a n ne taken. (n, ground arith, ground arith);
}

-- A segment of the list can be split for a size that leaves room for the rest.
Tiles-CanSplit :
    (h : Headers) (end before q x size : ℕ) (ys : List ℕ)
    → end < 2 ^ 64
    → 16 ≤ size
    → size + 80 ≤ (h x).length
    → Tiles h end before q (x ∷ ys)
    → CanSplit h x size
Tiles-CanSplit h end before q x size [] fits large room (e, some_x, last, bound, rest) = record {
  enough = large;
  room = room;
  length_fits = omega arith;
  no_wrap = omega arith;
  this_ne = omega arith;
  next_apart = omega arith;
  next_ne_this = omega arith;
}
Tiles-CanSplit h end before q x size (y ∷ ys) fits large room (e, some_x, last, bound, rest) =
    record {
      enough = large;
      room = room;
      length_fits = omega (arith, below);
      no_wrap = omega (arith, below);
      this_ne = omega arith;
      next_apart = omega (arith, rest.0);
      next_ne_this = omega (arith, rest.0);
    }
  where
    below : y + 32 + (h y).length ≤ end
    below = (Holds-le h end x (h x).next y (y ∷ ys) rest (inl refl)).1

module _ (h : Headers) (end before q x size : ℕ) (ys : List ℕ) (fits : end < 2 ^ 64)
    (large : 16 ≤ size) (room : size + 80 ≤ (h x).length) (t : Tiles h end before q (x ∷ ys)) where
  pub halves : Halves h x size (split x size h)
  halves = split-Halves h x size (Tiles-CanSplit h end before q x size ys fits large room t)

  -- The header that follows the segment that is split.
  split-next :
      (y : ℕ)
      → (h x).next ≡ y
      → ((split x size h y).last ≡ x + size + 32)
        × ((split x size h y).next ≡ (h y).next)
        × ((split x size h y).length ≡ (h y).length)
        × ((split x size h y).free ≡ (h y).free)
  split-next y e =
      subst
        (λ (z : ℕ).
          ((split x size h z).last ≡ x + size + 32)
          × ((split x size h z).next ≡ (h z).next)
          × ((split x size h z).length ≡ (h z).length)
          × ((split x size h z).free ≡ (h z).free))
        e (halves.back_link, halves.next_kept, halves.next_length, halves.next_free)

  split-free :
      (a : ℕ)
      → start_of end ys ≤ a
      → ((split x size h a).free ≡ (h a).free) × ((split x size h a).length ≡ (h a).length)
  split-free a behind = elim (ℕ_discrete (h x).next a) [
    | yes e ↦ ((split-next a e).3, (split-next a e).2)
    | no ne ↦ (
      ap (λ (d : Header). d.free)
          (halves.others a (omega (arith, t.3)) (omega (arith, t.3)) (λ e. ne (sym e))),
      ap (λ (d : Header). d.length)
          (halves.others a (omega (arith, t.3)) (omega (arith, t.3)) (λ e. ne (sym e))),
    )
  ]

-- The segments behind the one that is split.
split-behind :
    (h : Headers) (end before q x size : ℕ) (ys : List ℕ) (fits : end < 2 ^ 64) (large : 16 ≤ size)
    (room : size + 80 ≤ (h x).length) (t : Tiles h end before q (x ∷ ys))
    → Tiles (split x size h) end (x + size + 32) (split x size h (x + size + 32)).next ys
split-behind h end before q x size [] fits large room t =
    (halves h end before q x size [] fits large room t).second_next ∙ t.4
split-behind h end before q x size (y ∷ ys) fits large room t = (
  (halves h end before q x size (y ∷ ys) fits large room t).second_next ∙ t.4.0,
  t.4.1,
  at_y.0,
  rw at_y.2 t.4.3,
  rw at_y.1
      (Tiles-above h (split x size h) end y (h y).next y ys above (omega (arith, t.4.3)) t.4.4),
)
  where
    at_y :
        ((split x size h y).last ≡ x + size + 32)
        × ((split x size h y).next ≡ (h y).next)
        × ((split x size h y).length ≡ (h y).length)
        × ((split x size h y).free ≡ (h y).free)
    at_y = split-next h end before q x size (y ∷ ys) fits large room t y t.4.0

    above : (a : ℕ) → y < a → split x size h a ≡ h a
    above a behind =
        (halves h end before q x size (y ∷ ys) fits large room t).others a (omega (arith, t.3))
          (omega (arith, t.3)) (omega (arith, t.4.0))

split-local :
    (h : Headers) (end before q x size : ℕ) (ys : List ℕ)
    → end < 2 ^ 64
    → 16 ≤ size
    → size + 80 ≤ (h x).length
    → Tiles h end before q (x ∷ ys)
    → Retiled h (split x size h) end before q x (x ∷ ys)
split-local h end before q x size ys fits large room t = record {
  list = x ∷ (x + size + 32) ∷ ys;
  tiles = (
    t.0,
    t.1,
    v.first_last ∙ t.2,
    omega (arith, v.first_length),
    (
      v.first_next,
      omega arith,
      v.second_last,
      omega (arith, v.second_length, t.3),
      split-behind h end before q x size ys fits large room t,
    ),
  );
  start = refl;
  itself = inl refl;
  kept = kept;
}
  where
    v : Halves h x size (split x size h)
    v = halves h end before q x size ys fits large room t

    kept :
        (a : ℕ)
        → Holds a (x ∷ ys)
        → a ≢ x
        → (h a).free ≡ false
        → Kept h (split x size h) a (x ∷ (x + size + 32) ∷ ys)
    kept a (inl e) ne taken = absurd (ne (sym e))
    kept a (inr m) ne taken =
        let k =
          split-free h end before q x size ys fits large room t a
            (Holds-le h end x (h x).next a ys t.4 m).0 in
        (inr (inr m), k.0 ∙ taken, k.1)

-- Segments of the list lead on to 0 or behind themselves.
pub next-above :
    (h : Headers) (end before q x : ℕ) (ys : List ℕ)
    → Tiles h end before q (x ∷ ys)
    → ((h x).next ≡ 0) ⊎ (x < (h x).next)
next-above h end before q x [] t = inl t.4
next-above h end before q x (y ∷ ys) t = inr (omega (arith, t.3, t.4.0))

pub split-Retiled :
    (h : Headers) (end prev p x size : ℕ) (xs : List ℕ)
    → end < 2 ^ 64
    → 16 ≤ size
    → size + 80 ≤ (h x).length
    → Tiles h end prev p xs
    → Holds x xs
    → Retiled h (split x size h) end prev p x xs
split-Retiled h end prev p x size xs fits large room t m =
    Retiled-from h (split x size h) end prev p x xs below
      (λ before q ys u. split-local h end before q x size ys fits large room u) t m
  where
    below : (a : ℕ) → 0 < a → a < x → split x size h a ≡ h a
    below a some_a less =
        let (before, q, ys, u) = Tiles-at h end prev p x xs t m in
        (halves h end before q x size ys fits large room u).others a (omega arith) (omega arith)
          (omega (arith, next-above h end before q x ys u))
