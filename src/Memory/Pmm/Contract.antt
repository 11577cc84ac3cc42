-- ===== src/Memory/Pmm/Contract.antt =====
-- What the page allocator promises: a set of pages that are taken, and requests that are answered by
-- the lowest page outside it. The allocator over the bitmap refines it.
use native.Mathlib.Decide.{ℕ_discrete}
use mathlib.Core.Path.{subst}
use micron.Base.{
  ℕ, zero, suc, ◌+◌, ◌*◌, ◌/◌, ◌^◌, ◌≤◌, ◌≡◌, refl, ap, ap₂, sym, ◌∙◌, arith, fun_ext, Bool, true,
  false, not, Bool-cases, inl, inr, ◌⊎◌, List, [], ◌∷◌, ◌==◌, if◌then◌else◌, u64,
}
use micron.Util.Bitmap
use micron.Util.Bitmap.Laws.{get-set}
use micron.Memory.Pmm.{
  Pmm, lock_page, free_page, reserve_page, unreserve_page, request_loop, request_page,
}
use micron.Memory.Pmm.Accounts.{page_limit}
use micron.Memory.Pmm.Request.{IsSmall}

pub data Operation : Type 0 where
  request : Operation
  lock : ℕ → Operation
  release : ℕ → Operation
  reserve : ℕ → Operation
  unreserve : ℕ → Operation

-- The pages below `limit` are there, and those in `taken` are not to be had.
pub record PageSet : Type 0 where
  pub limit : ℕ
  pub taken : ℕ → Bool

abbrev pub with_page : ℕ → Bool → PageSet → PageSet
with_page i value p = record p { taken = λ j. if i == j then value else p.taken j }

-- The lowest page outside the set from `i` on, with `left` pages to look at, is answered and taken.
unfoldable pub take_lowest : (left i : ℕ) → PageSet → ℕ × PageSet
take_lowest zero i p = (0, p)
take_lowest (suc left) i p =
    if p.taken i then take_lowest left (i + 1) p else (u64 (i * 4096), with_page i true p)

unfoldable pub answer : Operation → PageSet → ℕ × PageSet
answer request p = take_lowest p.limit 0 p
answer (lock a) p = (0, with_page (a / 4096) true p)
answer (release a) p = (0, with_page (a / 4096) false p)
answer (reserve a) p = (0, with_page (a / 4096) true p)
answer (unreserve a) p = (0, with_page (a / 4096) false p)

-- The same operations of the allocator.
unfoldable pub perform : Operation → Pmm → ℕ × Pmm
perform request s = request_page s
perform (lock a) s = (0, lock_page a s)
perform (release a) s = (0, free_page a s)
perform (reserve a) s = (0, reserve_page a s)
perform (unreserve a) s = (0, unreserve_page a s)

-- What the operations answer one after the other, and the state they end in.
unfoldable pub perform_all : List Operation → Pmm → List ℕ × Pmm
perform_all [] s = ([], s)
perform_all (o ∷ os) s =
    let (r, s') = perform o s in let (rs, s'') = perform_all os s' in (r ∷ rs, s'')

unfoldable pub answer_all : List Operation → PageSet → List ℕ × PageSet
answer_all [] p = ([], p)
answer_all (o ∷ os) p =
    let (r, p') = answer o p in let (rs, p'') = answer_all os p' in (r ∷ rs, p'')

-- The set that a bitmap stands for.
unfoldable pub pages_of : Pmm → PageSet
pages_of s = record { limit = page_limit s; taken = Bitmap.get s.page_bitmap_map }

same_set : (p q : PageSet) → p.limit ≡ q.limit → ((j : ℕ) → p.taken j ≡ q.taken j) → p ≡ q
same_set p q e h = ap₂ (λ l t. record { limit = l; taken = t }) e (fun_ext h)

-- A function changed where it has the value already is the function.
kept : (f : ℕ → Bool) (i j : ℕ) (v : Bool) → f i ≡ v → f j ≡ (if i == j then v else f j)
kept f i j v e = elim (ℕ_discrete i j) [
  | yes same ↦ rw same (ground (arith, sym (ap f same) ∙ e))
  | no other ↦ ground arith
]

-- A bit is stored where it has the other value.
unfoldable pub set_unless : Bitmap.Bitmap → ℕ → Bool → Bitmap.Bitmap
set_unless b i true = if Bitmap.get b i then b else Bitmap.set b i true
set_unless b i false = if not (Bitmap.get b i) then b else Bitmap.set b i false

pages_of-set_unless :
    (s s' : Pmm) (i : ℕ) (v : Bool)
    → s'.page_bitmap_map ≡ set_unless s.page_bitmap_map i v
    → pages_of s' ≡ with_page i v (pages_of s)
unfolding pages_of
pages_of-set_unless s s' i v e =
    same_set (pages_of s') (with_page i v (pages_of s)) (ap (λ b. b.size * 8) e ∙ size v)
      λ j. ap (λ b. Bitmap.get b j) e ∙ bits v j
  where
    size : (v : Bool) → (set_unless s.page_bitmap_map i v).size * 8 ≡ page_limit s
    size true = unfold set_unless Bitmap.set in ground arith
    size false = unfold set_unless Bitmap.set in ground arith

    bits :
        (v : Bool) (j : ℕ)
        → Bitmap.get (set_unless s.page_bitmap_map i v) j
          ≡ (if i == j then v else Bitmap.get s.page_bitmap_map j)
    bits true j =
        unfold set_unless in
        ground
          (arith, get-set s.page_bitmap_map i j true, kept (Bitmap.get s.page_bitmap_map) i j true)
    bits false j =
        unfold set_unless in
        ground (
          arith,
          get-set s.page_bitmap_map i j false,
          kept (Bitmap.get s.page_bitmap_map) i j false,
        )

module _ (a : ℕ) (s : Pmm) where
  pages_of-lock_page : pages_of (lock_page a s) ≡ with_page (a / 4096) true (pages_of s)
  unfolding lock_page set_unless
  pages_of-lock_page = pages_of-set_unless s (lock_page a s) (a / 4096) true (ground arith)

  pages_of-reserve_page : pages_of (reserve_page a s) ≡ with_page (a / 4096) true (pages_of s)
  unfolding reserve_page set_unless
  pages_of-reserve_page = pages_of-set_unless s (reserve_page a s) (a / 4096) true (ground arith)

  pages_of-free_page : pages_of (free_page a s) ≡ with_page (a / 4096) false (pages_of s)
  unfolding free_page set_unless
  pages_of-free_page = pages_of-set_unless s (free_page a s) (a / 4096) false (ground arith)

  pages_of-unreserve_page : pages_of (unreserve_page a s) ≡ with_page (a / 4096) false (pages_of s)
  unfolding unreserve_page set_unless
  pages_of-unreserve_page =
      pages_of-set_unless s (unreserve_page a s) (a / 4096) false (ground arith)

-- The result of an operation as the set sees it.
abbrev pub seen : ℕ × Pmm → ℕ × PageSet
seen (r, s) = (r, pages_of s)

seen-request_loop :
    (left i : ℕ) (s : Pmm)
    → (i + left) * 4096 ≤ 2 ^ 64
    → seen (request_loop left i s) ≡ take_lowest left i (pages_of s)
unfolding request_loop take_lowest
seen-request_loop zero i s h = refl
seen-request_loop (suc left) i s h =
    choose (Bool-cases (Bitmap.get s.page_bitmap_map i))
      (seen-request_loop left (i + 1) s (omega arith))
  where
    here : u64 (i * 4096) / 4096 ≡ i
    here = omega arith

    choose :
        (Bitmap.get s.page_bitmap_map i ≡ true) ⊎ (Bitmap.get s.page_bitmap_map i ≡ false)
        → seen (request_loop left (i + 1) s) ≡ take_lowest left (i + 1) (pages_of s)
        → seen (request_loop (suc left) i s) ≡ take_lowest (suc left) i (pages_of s)
    choose (inl e) ih = unfold pages_of in rw e ih
    choose (inr e) ih =
        unfold pages_of in
        rw e (
          ap (λ p. (u64 (i * 4096), p))
            (pages_of-lock_page (u64 (i * 4096)) s ∙ ap (λ k. with_page k true (pages_of s)) here))

seen-perform : (o : Operation) (s : Pmm) → IsSmall s → seen (perform o s) ≡ answer o (pages_of s)
unfolding perform answer
seen-perform request s small = unfold request_page in whole
  where
    whole :
        seen (request_loop (u64 (page_limit s)) 0 s) ≡ take_lowest (pages_of s).limit 0 (pages_of s)
    whole =
        unfold pages_of in
        rw (fits (page_limit s) small) (seen-request_loop (page_limit s) 0 s (omega arith))
      where
        fits : (n : ℕ) → n * 4096 ≤ 2 ^ 64 → u64 n ≡ n
        fits n h = omega arith
seen-perform (lock a) s small = ap (λ p. (0, p)) (pages_of-lock_page a s)
seen-perform (release a) s small = ap (λ p. (0, p)) (pages_of-free_page a s)
seen-perform (reserve a) s small = ap (λ p. (0, p)) (pages_of-reserve_page a s)
seen-perform (unreserve a) s small = ap (λ p. (0, p)) (pages_of-unreserve_page a s)

limit-take_lowest : (left i : ℕ) (p : PageSet) → (take_lowest left i p).1.limit ≡ p.limit
unfolding take_lowest
limit-take_lowest zero i p = refl
limit-take_lowest (suc left) i p = ground (arith, limit-take_lowest left (i + 1) p)

limit-answer : (o : Operation) (p : PageSet) → (answer o p).1.limit ≡ p.limit
unfolding answer
limit-answer request p = limit-take_lowest p.limit 0 p
limit-answer (lock a) p = refl
limit-answer (release a) p = refl
limit-answer (reserve a) p = refl
limit-answer (unreserve a) p = refl

perform-IsSmall : (o : Operation) (s : Pmm) → IsSmall s → IsSmall (perform o s).1
unfolding pages_of
perform-IsSmall o s small = subst (λ n. n * 4096 ≤ 2 ^ 64) (sym same) small
  where
    same : page_limit (perform o s).1 ≡ page_limit s
    same = ap (λ r. r.1.limit) (seen-perform o s small) ∙ limit-answer o (pages_of s)

-- With the bitmap's pages inside the address space, whatever operations follow one another, the
-- allocator over the bitmap answers what the set of taken pages answers, and ends in a state that
-- stands for the set that those operations lead to.
pub perform_all-refines :
    (os : List Operation) (s : Pmm)
    → IsSmall s
    → ((perform_all os s).0 ≡ (answer_all os (pages_of s)).0)
      × (pages_of (perform_all os s).1 ≡ (answer_all os (pages_of s)).1)
unfolding perform_all answer_all
perform_all-refines [] s small = (refl, refl)
perform_all-refines (o ∷ os) s small =
    let step = seen-perform o s small in
    let rest = perform_all-refines os (perform o s).1 (perform-IsSmall o s small) in
    (
      ap₂ (λ (r : ℕ) (rs : List ℕ). r ∷ rs) (ap (λ r. r.0) step)
          (rest.0 ∙ ap (λ r. (answer_all os r.1).0) step),
      rest.1 ∙ ap (λ r. (answer_all os r.1).1) step,
    )
