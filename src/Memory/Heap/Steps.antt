-- ===== src/Memory/Heap/Steps.antt =====
-- What `malloc` does to the segments of the heap.
use mathlib.Core.Path.{subst}
use micron.Base.{
  ℕ, zero, suc, ◌+◌, ◌^◌, ◌≤◌, ◌<◌, ◌≡◌, ◌≢◌, ◌⊎◌, inl, inr, ◌∙◌, refl, sym, ap, arith, true, false,
  List, [], ◌∷◌, not, ltb, ◌==◌, ◌&&◌, Bool-cases, Option, none, some,
}
use micron.Memory.Heap.{
  Headers, Heap, set_free, split, split_seg_length, take_segment, malloc_loop, malloc, rounded_size,
}
use micron.Memory.Heap.Tiles.{Tiles, Tiles-at, Holds, Holds-le, Retiled}
use micron.Memory.Heap.Ops.{halves, Retiled-refl, set_free-Retiled, split-Retiled}

-- One change at `x` after another.
pub Retiled-trans :
    {h h' h'' : Headers} {end prev p x : ℕ} {xs : List ℕ} (r : Retiled h h' end prev p x xs)
    → Retiled h' h'' end prev p x r.list
    → Retiled h h'' end prev p x xs
Retiled-trans r r' = record {
  list = r'.list;
  tiles = r'.tiles;
  start = r'.start ∙ r.start;
  itself = r'.itself;
  kept = λ a m ne taken.
      let k = r.kept a m ne taken in let k' = r'.kept a k.0 ne k.1 in (k'.0, k'.1, k'.2 ∙ k.2);
}

-- The segment is no longer than the size, or long enough for the size and a further header: 64 bytes
-- more. In between, the length of the rest wraps.
abbrev pub Divides : Headers → (size x : ℕ) → Type 0
Divides h size x = ((h x).length ≤ size) ⊎ (size + 64 ≤ (h x).length)

-- With less than 16 bytes left for it, no new segment is made.
split_short :
    (h : Headers) (x size : ℕ)
    → (h x).length < 2 ^ 64
    → size + 64 ≤ (h x).length
    → (h x).length < size + 80
    → split x size h ≡ h
unfolding split
split_short h x size fits room short =
    let less : split_seg_length h x size < 16 = omega arith in ground arith

module _ (h : Headers) (end prev p x size : ℕ) (xs : List ℕ) (fits : end < 2 ^ 64)
    (large : 16 ≤ size) (t : Tiles h end prev p xs) (m : Holds x xs) where
  split_any-Retiled : size + 64 ≤ (h x).length → Retiled h (split x size h) end prev p x xs
  split_any-Retiled room = elim (Bool-cases (ltb (h x).length (size + 80))) [
    | inl short ↦
        rw
          (split_short h x size (omega (arith, Holds-le h end prev p x xs t m)) room (ground arith))
          (Retiled-refl h end prev p x xs t m)
    | inr long ↦ split-Retiled h end prev p x size xs fits large (ground arith) t m
  ]

  split_then-Retiled :
      size + 64 ≤ (h x).length → Retiled h (set_free (split x size h) x false) end prev p x xs
  split_then-Retiled room =
      let r = split_any-Retiled room in
      Retiled-trans r (set_free-Retiled (split x size h) false end prev p x r.list r.tiles r.itself)

  pub take_segment-Retiled : Divides h size x → Retiled h (take_segment size x h) end prev p x xs
  unfolding take_segment
  take_segment-Retiled d = elim (Bool-cases (ltb size (h x).length)) [
    | inl longer ↦ rw longer (split_then-Retiled (ground arith))
    | inr same ↦ rw same (set_free-Retiled h false end prev p x xs t m)
  ]

  split_any-length : size + 64 ≤ (h x).length → size ≤ (split x size h x).length
  split_any-length room = elim (Bool-cases (ltb (h x).length (size + 80))) [
    | inl short ↦
        rw
          (split_short h x size (omega (arith, Holds-le h end prev p x xs t m)) room (ground arith))
          (omega arith)
    | inr long ↦
        let (before, q, ys, u) = Tiles-at h end prev p x xs t m in
        omega (arith, (halves h end before q x size ys fits large (ground arith) u).first_length)
  ]

  pub take_segment-taken :
      Divides h size x
      → size ≤ (h x).length
      → ((take_segment size x h x).free ≡ false) × (size ≤ (take_segment size x h x).length)
  unfolding take_segment
  take_segment-taken d long = elim (Bool-cases (ltb size (h x).length)) [
    | inl longer ↦
        let room = split_any-length (ground arith) in rw longer (ground arith, ground arith)
    | inr same ↦ rw same (ground arith, ground arith)
  ]

same_pair :
    {A : Type 0} {n n' : ℕ} {a a' : A}
    → ◌≡◌ {A = Option (ℕ × A)} (some (n, a)) (some (n', a'))
    → (n ≡ n') × (a ≡ a')
same_pair e = (cc, cc)

-- What the loop of `malloc` has found.
malloc_loop-found :
    (fuel size : ℕ) (h h' : Headers) (end prev p a : ℕ) (xs : List ℕ)
    → Tiles h end prev p xs
    → 0 < p
    → malloc_loop fuel size p h ≡ some (a, h')
    → ((a ≡ 0) × (h' ≡ h))
      ⊎ (Holds a xs × ((h a).free ≡ true) × (size ≤ (h a).length) × (h' ≡ take_segment size a h))
unfolding malloc_loop
malloc_loop-found zero size h h' end prev p a xs t some_p e = ground arith
malloc_loop-found (suc fuel) size h h' end prev p a [] t some_p e = absurd (omega arith)
malloc_loop-found (suc fuel) size h h' end prev p a (x ∷ xs) t some_p e =
    elim (Bool-cases ((h p).free && not (ltb (h p).length size))) [
      | inl fits ↦
          let answer : ◌≡◌ {A = Option (ℕ × Headers)} (some (p, take_segment size p h))
              (some (a, h')) =
            cc in
          let same = same_pair answer in
          inr (
            inl (sym t.0 ∙ same.0),
            subst (λ (b : ℕ). (h b).free ≡ true) same.0 (ground arith),
            subst (λ (b : ℕ). size ≤ (h b).length) same.0 (ground arith),
            subst (λ (b : ℕ). h' ≡ take_segment size b h) same.0 (sym same.1),
          )
      | inr skip ↦ elim (Bool-cases ((h p).next == 0)) [
        | inl done ↦
            let answer : ◌≡◌ {A = Option (ℕ × Headers)} (some (0, h)) (some (a, h')) = cc in
            let same = same_pair answer in inl (sym same.0, sym same.1)
        | inr more ↦
            elim (malloc_loop-found fuel size h h' end x (h p).next a xs
              (subst (λ (w : ℕ). Tiles h end x (h w).next xs) (sym t.0) t.4) (ground arith) cc) [
                | inl none_fits ↦ inl none_fits
                | inr (m, is_free, long, e') ↦ inr (inr m, is_free, long, e')
              ]
      ]
    ]

-- `malloc` answers 0 and changes nothing, or takes a free segment that is long enough.
pub malloc-found :
    (fuel size : ℕ) (h h' : Heap) (prev a : ℕ) (xs : List ℕ)
    → Tiles h.headers h.heap_end prev h.heap_start xs
    → 0 < h.heap_start
    → malloc fuel size h ≡ some (a, h')
    → ((a ≡ 0) × (h' ≡ h))
      ⊎ ((size ≢ 0)
          × Holds a xs
          × ((h.headers a).free ≡ true)
          × (rounded_size size ≤ (h.headers a).length)
          × (h' ≡ record h { headers = take_segment (rounded_size size) a h.headers }))
unfolding malloc
malloc-found fuel size h h' prev a xs t some_start e = elim (Bool-cases (size == 0)) [
  | inl none_asked ↦
      let answer : ◌≡◌ {A = Option (ℕ × Heap)} (some (0, h)) (some (a, h')) = cc in
      let same = same_pair answer in inl (sym same.0, sym same.1)
  | inr asked ↦
      found (ground arith) (malloc_loop fuel (rounded_size size) h.heap_start h.headers) refl cc
]
  where
    after : Option (ℕ × Headers) → Option (ℕ × Heap)
    after o = elim o [
      | none ↦ none
      | some (segment, headers) ↦ some (segment, record h { headers = headers })
    ]

    found :
        size ≢ 0
        → (o : Option (ℕ × Headers))
        → malloc_loop fuel (rounded_size size) h.heap_start h.headers ≡ o
        → after o ≡ some (a, h')
        → ((a ≡ 0) × (h' ≡ h))
          ⊎ ((size ≢ 0)
              × Holds a xs
              × ((h.headers a).free ≡ true)
              × (rounded_size size ≤ (h.headers a).length)
              × (h' ≡ record h { headers = take_segment (rounded_size size) a h.headers }))
    found asked none e' answer = cc
    found asked (some (b, k)) e' answer =
        let same : (b ≡ a) × (record h { headers = k } ≡ h') = same_pair answer in
        elim (malloc_loop-found fuel (rounded_size size) h.headers k h.heap_end prev h.heap_start b
          xs t some_start e') [
            | inl (zero_answer, unchanged) ↦ inl (
              sym same.0 ∙ zero_answer,
              sym same.1 ∙ ap (λ (l : Headers). record h { headers = l }) unchanged,
            )
            | inr (m, is_free, long, taken) ↦ inr (
              asked,
              subst (λ (c : ℕ). Holds c xs) same.0 m,
              subst (λ (c : ℕ). (h.headers c).free ≡ true) same.0 is_free,
              subst (λ (c : ℕ). rounded_size size ≤ (h.headers c).length) same.0 long,
              subst
                  (λ (c : ℕ).
                    h' ≡ record h { headers = take_segment (rounded_size size) c h.headers })
                  same.0 (sym same.1 ∙ ap (λ (l : Headers). record h { headers = l }) taken),
            )
          ]

pub rounded_size-large : (size : ℕ) → size ≢ 0 → 16 ≤ rounded_size size
unfolding rounded_size
rounded_size-large size ne = ground arith
