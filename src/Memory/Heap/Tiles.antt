-- ===== src/Memory/Heap/Tiles.antt =====
-- The segments of the heap: one behind the other, linked both ways.
use mathlib.Core.Path.{subst}
use micron.Base.{
  ℕ, ◌+◌, ◌≤◌, ◌<◌, ◌≡◌, ◌≢◌, ◌⊎◌, inl, inr, ◌∙◌, refl, sym, arith, false, List, [], ◌∷◌,
}
use micron.Memory.Heap.{Headers}

-- Where the first segment begins, or what is behind the last one.
abbrev pub start_of : ℕ → List ℕ → ℕ
start_of end [] = end
start_of end (x ∷ xs) = x

-- From `p` the `next` pointers lead through the segments of the list and end in 0, the `last`
-- pointers lead back, to `prev` from the first, and each segment ends where the next one begins, or
-- before it; the last one ends at `end` or before it.
abbrev pub Tiles : Headers → (end prev p : ℕ) → List ℕ → Type 0
Tiles h end prev p [] = p ≡ 0
Tiles h end prev p (x ∷ xs) =
    (p ≡ x)
    × (0 < x)
    × ((h x).last ≡ prev)
    × (x + 32 + (h x).length ≤ start_of end xs)
    × Tiles h end x (h x).next xs

-- A segment of the list.
abbrev pub Holds : ℕ → List ℕ → Type 0
Holds a [] = ⊥
Holds a (x ∷ xs) = (x ≡ a) ⊎ Holds a xs

-- Segments behind `n` stay where the headers there do.
pub Tiles-above :
    (h h' : Headers) (end prev p n : ℕ) (xs : List ℕ)
    → ((a : ℕ) → n < a → h' a ≡ h a)
    → n < start_of end xs
    → Tiles h end prev p xs
    → Tiles h' end prev p xs
Tiles-above h h' end prev p n [] same below t = t
Tiles-above h h' end prev p n (x ∷ xs) same below (e, some_x, last, room, rest) =
    rw (same x below)
      (e, some_x, last, room, Tiles-above h h' end x (h x).next n xs same (omega arith) rest)

-- Every segment of the list begins at the first one or behind it, and ends before `end`.
pub Holds-le :
    (h : Headers) (end prev p a : ℕ) (xs : List ℕ)
    → Tiles h end prev p xs
    → Holds a xs
    → (start_of end xs ≤ a) × (a + 32 + (h a).length ≤ end)
Holds-le h end prev p a [] t m = absurd m
Holds-le h end prev p a (x ∷ []) (e, some_x, last, room, rest) (inl same) =
    (omega arith, subst (λ (b : ℕ). b + 32 + (h b).length ≤ end) same room)
Holds-le h end prev p a (x ∷ []) t (inr m) = absurd m
Holds-le h end prev p a (x ∷ y ∷ ys) (e, some_x, last, room, rest) (inl same) = (
  omega arith,
  subst (λ (b : ℕ). b + 32 + (h b).length ≤ end) same
      (omega (arith, Holds-le h end x (h x).next y (y ∷ ys) rest (inl refl))),
)
Holds-le h end prev p a (x ∷ y ∷ ys) (e, some_x, last, room, rest) (inr m) =
    omega (arith, Holds-le h end x (h x).next a (y ∷ ys) rest m)

-- The segment before one of the list is in the list too, but for the first one.
pub Holds-last :
    (h : Headers) (end prev p a : ℕ) (xs : List ℕ)
    → Tiles h end prev p xs
    → Holds a xs
    → ((h a).last ≡ prev) ⊎ Holds (h a).last xs
Holds-last h end prev p a [] t m = absurd m
Holds-last h end prev p a (x ∷ xs) (e, some_x, last, room, rest) (inl same) =
    inl (subst (λ (b : ℕ). (h b).last ≡ prev) same last)
Holds-last h end prev p a (x ∷ xs) (e, some_x, last, room, rest) (inr m) =
    elim (Holds-last h end x (h x).next a xs rest m) [
      | inl first ↦ inr (inl (sym first))
      | inr before ↦ inr (inr before)
    ]

-- The list from one of its segments on.
pub Tiles-at :
    (h : Headers) (end prev p x : ℕ) (xs : List ℕ)
    → Tiles h end prev p xs
    → Holds x xs
    → (before : ℕ) × (q : ℕ) × (ys : List ℕ) × Tiles h end before q (x ∷ ys)
Tiles-at h end prev p x [] t m = absurd m
Tiles-at h end prev p x (w ∷ ws) t (inl e) =
    (prev, p, ws, subst (λ (v : ℕ). Tiles h end prev p (v ∷ ws)) e t)
Tiles-at h end prev p x (w ∷ ws) t (inr m) = Tiles-at h end w (h w).next x ws t.4 m

-- No two segments of the list overlap.
pub Holds-apart :
    (h : Headers) (end prev p a b : ℕ) (xs : List ℕ)
    → Tiles h end prev p xs
    → Holds a xs
    → Holds b xs
    → (a ≡ b) ⊎ (a + 32 + (h a).length ≤ b) ⊎ (b + 32 + (h b).length ≤ a)
Holds-apart h end prev p a b [] t m n = absurd m
Holds-apart h end prev p a b (x ∷ xs) t (inl e) (inl e') = inl (sym e ∙ e')
Holds-apart h end prev p a b (x ∷ xs) (e₀, some_x, last, room, rest) (inl e) (inr n) = inr (
    inl (
      subst (λ (c : ℕ). c + 32 + (h c).length ≤ b) e
        (omega (arith, Holds-le h end x (h x).next b xs rest n))))
Holds-apart h end prev p a b (x ∷ xs) (e₀, some_x, last, room, rest) (inr m) (inl e) = inr (
    inr (
      subst (λ (c : ℕ). c + 32 + (h c).length ≤ a) e
        (omega (arith, Holds-le h end x (h x).next a xs rest m))))
Holds-apart h end prev p a b (x ∷ xs) (e₀, some_x, last, room, rest) (inr m) (inr n) =
    Holds-apart h end x (h x).next a b xs rest m n

-- A taken segment other than `x`, and its length, after a change of the headers.
abbrev pub Kept : (h h' : Headers) → ℕ → List ℕ → Type 0
Kept h h' a ys = Holds a ys × ((h' a).free ≡ false) × ((h' a).length ≡ (h a).length)

-- What a change at the segment `x` leaves: segments again, from the same address on, among them `x`
-- and every other one that was taken, with its length.
pub record Retiled (h h' : Headers) (end prev p x : ℕ) (xs : List ℕ) : Type 0 where
  pub list : List ℕ
  pub tiles : Tiles h' end prev p list
  pub start : start_of end list ≡ start_of end xs
  pub itself : Holds x list
  pub kept : (a : ℕ) → Holds a xs → a ≢ x → (h a).free ≡ false → Kept h h' a list

-- A segment that does not change, before others that have been changed at `x`.
Retiled-cons :
    (h h' : Headers) (end prev p x w : ℕ) (ws : List ℕ)
    → h' w ≡ h w
    → Tiles h end prev p (w ∷ ws)
    → Retiled h h' end w (h w).next x ws
    → Retiled h h' end prev p x (w ∷ ws)
Retiled-cons h h' end prev p x w ws unchanged (e, some_w, last, room, rest) r = record {
  list = w ∷ r.list;
  tiles = rw unchanged (e, some_w, last, rw r.start room, r.tiles);
  start = refl;
  itself = inr r.itself;
  kept = kept;
}
  where
    kept : (a : ℕ) → Holds a (w ∷ ws) → a ≢ x → (h a).free ≡ false → Kept h h' a (w ∷ r.list)
    kept a (inl first) ne taken =
        let k =
          subst (λ (b : ℕ). ((h' b).free ≡ false) × ((h' b).length ≡ (h b).length)) first
            (rw unchanged (subst (λ (b : ℕ). (h b).free ≡ false) (sym first) taken, refl)) in
        (inl first, k.0, k.1)
    kept a (inr behind) ne taken = let k = r.kept a behind ne taken in (inr k.0, k.1, k.2)

-- A change at `x` and behind it can be looked at from `x` on.
pub Retiled-from :
    (h h' : Headers) (end prev p x : ℕ) (xs : List ℕ)
    → ((a : ℕ) → 0 < a → a < x → h' a ≡ h a)
    → ((before q : ℕ) (ys : List ℕ)
        → Tiles h end before q (x ∷ ys)
        → Retiled h h' end before q x (x ∷ ys))
    → Tiles h end prev p xs
    → Holds x xs
    → Retiled h h' end prev p x xs
Retiled-from h h' end prev p x [] same local t m = absurd m
Retiled-from h h' end prev p x (w ∷ ws) same local t (inl e) =
    subst (λ (v : ℕ). Tiles h end prev p (v ∷ ws) → Retiled h h' end prev p x (v ∷ ws)) (sym e)
      (local prev p ws) t
Retiled-from h h' end prev p x (w ∷ ws) same local t (inr m) =
    Retiled-cons h h' end prev p x w ws
      (same w t.1 (omega (arith, t.3, Holds-le h end w (h w).next x ws t.4 m))) t
      (Retiled-from h h' end w (h w).next x ws same local t.4 m)
