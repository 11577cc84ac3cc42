-- ===== src/Memory/Heap/Joins.antt =====
-- Joining segments.
use mathlib.Core.Path.{subst}
use native.Mathlib.Decide.{ℕ_discrete}
use micron.Base.{
  ℕ, ◌+◌, ◌^◌, ◌≤◌, ◌<◌, ◌≡◌, ◌≢◌, ◌⊎◌, inl, inr, ◌∙◌, refl, sym, ap, arith, true, false, List, [],
  ◌∷◌, Bool-cases, add64,
}
use micron.Memory.Heap.{Header, Headers, combine_forward}
use micron.Memory.Heap.Tiles.{
  start_of, Tiles, Tiles-above, Tiles-at, Holds, Holds-le, Kept, Retiled, Retiled-from,
}
use micron.Memory.Heap.Ops.{Retiled-refl, next-above}

-- The segment `y` is joined to `x`, in front of it; behind it stands `z`, if that is not 0.
record Joined (h h' : Headers) (x y z : ℕ) : Type 0 where
  pub length : (h' x).length ≡ add64 (add64 (h x).length (h y).length) 32
  pub next : (h' x).next ≡ z
  pub last : (h' x).last ≡ (h x).last
  pub back_link : z ≢ 0 → h' z ≡ record (h z) { last = x }
  pub others : (a : ℕ) → a ≢ 0 → a ≢ x → a ≢ z → h' a ≡ h a

combine_forward-Joined :
    (h : Headers) (x y z : ℕ)
    → (h x).next ≡ y
    → (h y).next ≡ z
    → y ≢ 0
    → (h y).free ≡ true
    → x ≢ y
    → z ≢ x
    → z ≢ y
    → Joined h (combine_forward x h) x y z
unfolding combine_forward
combine_forward-Joined h x y z e e' some_y is_free p q r = record {
  length = ground arith;
  next = ground arith;
  last = ground arith;
  back_link = λ some_z. ground arith;
  others = λ a some_a ne ne'. ground arith;
}

module _ (h : Headers) (end before q x y : ℕ) (zs : List ℕ) (fits : end < 2 ^ 64)
    (t : Tiles h end before q (x ∷ y ∷ zs)) (is_free : (h y).free ≡ true) where
  apart : ((h y).next ≡ 0) ⊎ (y < (h y).next)
  apart = next-above h end x (h x).next y zs t.4

  joined : Joined h (combine_forward x h) x y (h y).next
  joined =
      combine_forward-Joined h x y (h y).next t.4.0 refl (omega (arith, t.4.1)) is_free
        (omega (arith, t.3)) (omega (arith, t.3, apart, t.1)) (omega (arith, apart, t.4.1))

  joined_room : x + 32 + (combine_forward x h x).length ≤ start_of end zs
  joined_room = omega (arith, joined.length, t.3, t.4.3, below)
    where
      below : y + 32 + (h y).length ≤ end
      below = (Holds-le h end x (h x).next y (y ∷ zs) t.4 (inl refl)).1

-- The segments behind the two.
joined-behind :
    (h : Headers) (end before q x y : ℕ) (zs : List ℕ) (fits : end < 2 ^ 64)
    (t : Tiles h end before q (x ∷ y ∷ zs)) (is_free : (h y).free ≡ true)
    → Tiles (combine_forward x h) end x (h y).next zs
joined-behind h end before q x y [] fits t is_free = t.4.4
joined-behind h end before q x y (z ∷ zs) fits t is_free =
    let (e, some_z, last, room, rest) = t.4.4 in
    (
      e,
      some_z,
      ap (λ (d : Header). d.last) at_z,
      rw at_z room,
      rw at_z (
          Tiles-above h (combine_forward x h) end z (h z).next z zs above (omega (arith, room))
            rest),
    )
  where
    j : Joined h (combine_forward x h) x y (h y).next
    j = joined h end before q x y (z ∷ zs) fits t is_free

    at_z : combine_forward x h z ≡ record (h z) { last = x }
    at_z =
        subst (λ (w : ℕ). combine_forward x h w ≡ record (h w) { last = x }) t.4.4.0
          (j.back_link (omega (arith, t.4.4.0, t.4.4.1)))

    above : (a : ℕ) → z < a → combine_forward x h a ≡ h a
    above a behind = j.others a (omega arith) (omega (arith, t.3, t.4.3)) (omega (arith, t.4.4.0))

-- A segment behind the two keeps its length and whether it is free.
free_after_join :
    (h : Headers) (x y a : ℕ)
    → Joined h (combine_forward x h) x y (h y).next
    → a ≢ 0
    → a ≢ x
    → ((combine_forward x h a).free ≡ (h a).free) × ((combine_forward x h a).length ≡ (h a).length)
free_after_join h x y a j some_a ne = elim (ℕ_discrete (h y).next a) [
  | yes e ↦
      let same : combine_forward x h a ≡ record (h a) { last = x } =
        subst (λ (w : ℕ). combine_forward x h w ≡ record (h w) { last = x }) e
          (j.back_link (omega arith)) in
      (ap (λ (d : Header). d.free) same, ap (λ (d : Header). d.length) same)
  | no other ↦
      let same : combine_forward x h a ≡ h a = j.others a some_a ne (λ e. other (sym e)) in
      (ap (λ (d : Header). d.free) same, ap (λ (d : Header). d.length) same)
]

joined-Retiled :
    (h : Headers) (end before q x y : ℕ) (zs : List ℕ)
    → end < 2 ^ 64
    → Tiles h end before q (x ∷ y ∷ zs)
    → (h y).free ≡ true
    → Retiled h (combine_forward x h) end before q x (x ∷ y ∷ zs)
joined-Retiled h end before q x y zs fits t is_free = record {
  list = x ∷ zs;
  tiles = (
    t.0,
    t.1,
    j.last ∙ t.2,
    joined_room h end before q x y zs fits t is_free,
    rw j.next (joined-behind h end before q x y zs fits t is_free),
  );
  start = refl;
  itself = inl refl;
  kept = kept;
}
  where
    j : Joined h (combine_forward x h) x y (h y).next
    j = joined h end before q x y zs fits t is_free

    kept :
        (a : ℕ)
        → Holds a (x ∷ y ∷ zs)
        → a ≢ x
        → (h a).free ≡ false
        → Kept h (combine_forward x h) a (x ∷ zs)
    kept a (inl e) ne taken = absurd (ne (sym e))
    kept a (inr (inl e)) ne taken =
        let f : (h a).free ≡ true = subst (λ (b : ℕ). (h b).free ≡ true) e is_free in cc
    kept a (inr (inr m)) ne taken =
        let k =
          free_after_join h x y a j
            (omega (arith, t.4.3, (Holds-le h end y (h y).next a zs t.4.4 m).0)) ne in
        (inr m, k.0 ∙ taken, k.1)

combine_forward-unchanged :
    (h : Headers) (x : ℕ)
    → ((h x).next ≡ 0) ⊎ ((h (h x).next).free ≡ false)
    → combine_forward x h ≡ h
unfolding combine_forward
combine_forward-unchanged h x none_behind = ground arith

combine_forward-local :
    (h : Headers) (end before q x : ℕ) (ys : List ℕ)
    → end < 2 ^ 64
    → Tiles h end before q (x ∷ ys)
    → Retiled h (combine_forward x h) end before q x (x ∷ ys)
combine_forward-local h end before q x [] fits t =
    rw (combine_forward-unchanged h x (inl t.4))
      (Retiled-refl h end before q x (x ∷ []) t (inl refl))
combine_forward-local h end before q x (y ∷ zs) fits t = elim (Bool-cases (h y).free) [
  | inl is_free ↦ joined-Retiled h end before q x y zs fits t is_free
  | inr taken ↦
      rw (combine_forward-unchanged h x (inr (ap (λ (w : ℕ). (h w).free) t.4.0 ∙ taken)))
        (Retiled-refl h end before q x (x ∷ y ∷ zs) t (inl refl))
]

combine_forward-others :
    (h : Headers) (x a : ℕ) → a ≢ x → a ≢ (h (h x).next).next → combine_forward x h a ≡ h a
unfolding combine_forward
combine_forward-others h x a ne ne' = ground arith

combine_forward-below :
    (h : Headers) (end before q x a : ℕ) (ys : List ℕ)
    → Tiles h end before q (x ∷ ys)
    → 0 < a
    → a < x
    → combine_forward x h a ≡ h a
combine_forward-below h end before q x a [] t some_a less =
    ap (λ (g : Headers). g a) (combine_forward-unchanged h x (inl t.4))
combine_forward-below h end before q x a (y ∷ zs) t some_a less =
    combine_forward-others h x a (omega arith) (
      subst (λ (w : ℕ). a ≢ (h w).next) (sym t.4.0)
        (omega (arith, t.3, next-above h end x (h x).next y zs t.4)))

pub combine_forward-Retiled :
    (h : Headers) (end prev p x : ℕ) (xs : List ℕ)
    → end < 2 ^ 64
    → Tiles h end prev p xs
    → Holds x xs
    → Retiled h (combine_forward x h) end prev p x xs
combine_forward-Retiled h end prev p x xs fits t m =
    Retiled-from h (combine_forward x h) end prev p x xs below
      (λ before q ys u. combine_forward-local h end before q x ys fits u) t m
  where
    below : (a : ℕ) → 0 < a → a < x → combine_forward x h a ≡ h a
    below a some_a less =
        let (before, q, ys, u) = Tiles-at h end prev p x xs t m in
        combine_forward-below h end before q x a ys u some_a less
