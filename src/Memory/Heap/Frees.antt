-- ===== src/Memory/Heap/Frees.antt =====
-- What `free` does to the segments of the heap.
use mathlib.Core.Path.{subst}
use micron.Base.{
  ℕ, ◌^◌, ◌<◌, ◌≡◌, ◌≢◌, inl, inr, ◌∙◌, refl, sym, arith, Bool, true, false, List, not, ◌==◌, ◌&&◌,
  if◌then◌else◌, Bool-cases,
}
use micron.Memory.Heap.{Headers, Heap, set_free, combine_forward, combine_backward, free}
use micron.Memory.Heap.Tiles.{Tiles, Holds, Holds-last, Kept, Retiled}
use micron.Memory.Heap.Ops.{Retiled-refl, set_free-Retiled}
use micron.Memory.Heap.Joins.{combine_forward-Retiled}
use micron.Memory.Heap.Steps.{Retiled-trans}

-- The joins of `free`.
module _ (h : Headers) (end p x : ℕ) (xs : List ℕ) (fits : end < 2 ^ 64) (t : Tiles h end 0 p xs)
    (m : Holds x xs) where
  join_next : (c : Bool) → Retiled h (if c then combine_forward x h else h) end 0 p x xs
  join_next true = combine_forward-Retiled h end 0 p x xs fits t m
  join_next false = Retiled-refl h end 0 p x xs t m

-- The segments after a change that may lose `x`.
pub record Regrouped (h h' : Headers) (end prev p x : ℕ) (xs : List ℕ) : Type 0 where
  pub list : List ℕ
  pub tiles : Tiles h' end prev p list
  pub kept : (a : ℕ) → Holds a xs → a ≢ x → (h a).free ≡ false → Kept h h' a list

join_back :
    (h : Headers) (end p w x : ℕ) (xs : List ℕ)
    → end < 2 ^ 64
    → Tiles h end 0 p xs
    → Holds w xs
    → (h w).free ≡ true
    → Regrouped h (combine_forward w h) end 0 p x xs
join_back h end p w x xs fits t m is_free = record {
  list = r.list;
  tiles = r.tiles;
  kept = λ a n ne taken.
      r.kept a n
        (λ e.
          let f : (h a).free ≡ true = subst (λ (b : ℕ). (h b).free ≡ true) (sym e) is_free in cc)
        taken;
}
  where
    r : Retiled h (combine_forward w h) end 0 p w xs
    r = combine_forward-Retiled h end 0 p w xs fits t m

join_last :
    (h : Headers) (end p x : ℕ) (xs : List ℕ)
    → end < 2 ^ 64
    → Tiles h end 0 p xs
    → Holds x xs
    → (c : Bool) → (c ≡ true → (h (h x).last).free ≡ true)
    → Regrouped h (if c then combine_backward x h else h) end 0 p x xs
unfolding combine_backward
join_last h end p x xs fits t m false is_free = record {
  list = xs;
  tiles = t;
  kept = λ a n ne taken. (n, taken, refl);
}
join_last h end p x xs fits t m true is_free = elim (Bool-cases ((h x).last == 0)) [
  | inl first ↦ rw first (record { list = xs; tiles = t; kept = λ a n ne taken. (n, taken, refl) })
  | inr behind ↦ elim (Holds-last h end 0 p x xs t m) [
    | inl none_before ↦ absurd (ground arith)
    | inr before ↦ rw behind (join_back h end p (h x).last x xs fits t before (is_free refl))
  ]
]

pub free-Regrouped :
    (h : Heap) (p x : ℕ) (xs : List ℕ)
    → h.heap_end < 2 ^ 64
    → Tiles h.headers h.heap_end 0 p xs
    → Holds x xs
    → Regrouped h.headers (free x h).headers h.heap_end 0 p x xs
unfolding free
free-Regrouped h p x xs fits t m = record {
  list = v.list;
  tiles = v.tiles;
  kept = λ a n ne taken.
      let k = u.kept a n ne taken in let k' = v.kept a k.0 ne k.1 in (k'.0, k'.1, k'.2 ∙ k.2);
}
  where
    h₁ : Headers
    h₁ = set_free h.headers x true

    c₁ : Bool
    c₁ = not ((h₁ x).next == 0) && (h₁ (h₁ x).next).free

    h₂ : Headers
    h₂ = if c₁ then combine_forward x h₁ else h₁

    c₂ : Bool
    c₂ = not ((h₂ x).last == 0) && (h₂ (h₂ x).last).free

    s : Retiled h.headers h₁ h.heap_end 0 p x xs
    s = set_free-Retiled h.headers true h.heap_end 0 p x xs t m

    u : Retiled h.headers h₂ h.heap_end 0 p x xs
    u = Retiled-trans s (join_next h₁ h.heap_end p x s.list fits s.tiles s.itself c₁)

    v : Regrouped h₂ (if c₂ then combine_backward x h₂ else h₂) h.heap_end 0 p x u.list
    v = join_last h₂ h.heap_end p x u.list fits u.tiles u.itself c₂ (λ e. ground arith)
