-- ===== src/Drivers/Kbd/Publish.antt =====
-- The subscribers as a list, in the order in which they are told of a key.
use micron.Base.{
  ℕ, zero, suc, ◌+◌, ◌-◌, ◌≤◌, ◌<◌, ◌≡◌, inl, inr, refl, ap, ap₂, ◌∙◌, sym, arith, Bool, false,
  ◌||◌, none, some, List, [], ◌∷◌, ◌++◌, ◌==◌, if◌then◌else◌, update, Bool-cases,
}
use micron.Drivers.Kbd.{
  Subscribers, keyboard_event_subscribe, keyboard_event_unsubscribe, find_subscriber, move_down,
  entries, published_to,
}

entries_cong :
    (f g : ℕ → ℕ) (i n : ℕ)
    → ((j : ℕ) → i ≤ j → j < i + n → f j ≡ g j)
    → entries f i n ≡ entries g i n
unfolding entries
entries_cong f g i zero h = refl
entries_cong f g i (suc n) h =
    ap₂ ◌∷◌ (h i (omega arith) (omega arith))
      (entries_cong f g (i + 1) n (λ j p q. h j (omega arith) (omega arith)))

entries-snoc :
    (f : ℕ → ℕ) (i n j : ℕ) → j ≡ i + n → entries f i (suc n) ≡ entries f i n ++ (f j ∷ [])
unfolding entries
entries-snoc f i zero j e = ground arith
entries-snoc f i (suc n) j e = ap (λ l. f i ∷ l) (entries-snoc f (i + 1) n j (omega arith))

-- A new subscriber is told last, and the others as before.
pub published_to-subscribe :
    (f : ℕ) (s : Subscribers)
    → published_to (keyboard_event_subscribe f s) ≡ published_to s ++ (f ∷ [])
unfolding keyboard_event_subscribe
published_to-subscribe f s =
    ap (entries table 0) one_more
    ∙ entries-snoc table 0 s.count s.count (omega arith)
    ∙ ap₂ (λ l x. l ++ (x ∷ [])) (entries_cong table s.table 0 s.count (λ j p q. ground arith))
        (ground arith)
  where
    table : ℕ → ℕ
    table = update s.table s.count f

    one_more : s.count + 1 ≡ suc s.count
    one_more = omega arith

move_down_below : (i left : ℕ) (t : ℕ → ℕ) (j : ℕ) → j < i → move_down i left t j ≡ t j
unfolding move_down
move_down_below i zero t j h = refl
move_down_below i (suc left) t j h =
    ground (arith, move_down_below (i + 1) left (update t i (t (i + 1))) j)

move_down_inside :
    (i left : ℕ) (t : ℕ → ℕ) (j : ℕ) → i ≤ j → j < i + left → move_down i left t j ≡ t (j + 1)
unfolding move_down
move_down_inside i zero t j lo hi = absurd (omega arith)
move_down_inside i (suc left) t j lo hi = ground (
  arith,
  move_down_below (i + 1) left (update t i (t (i + 1))) j,
  move_down_inside (i + 1) left (update t i (t (i + 1))) j,
)

unfoldable pub erase : ℕ → List ℕ → List ℕ
erase a [] = []
erase a (x ∷ xs) = if x == a then xs else x ∷ erase a xs

unfoldable pub contains : ℕ → List ℕ → Bool
contains a [] = false
contains a (x ∷ xs) = (x == a) || contains a xs

entries-shift :
    (t u : ℕ → ℕ) (i n : ℕ)
    → ((k : ℕ) → i ≤ k → k < i + n → u k ≡ t (k + 1))
    → entries u i n ≡ entries t (i + 1) n
unfolding entries
entries-shift t u i zero h = refl
entries-shift t u i (suc n) h =
    ap₂ ◌∷◌ (h i (omega arith) (omega arith))
      (entries-shift t u (i + 1) n (λ k p q. h k (omega arith) (omega arith)))

find_subscriber-bounds :
    (f : ℕ) (t : ℕ → ℕ) (i n j : ℕ) → find_subscriber f t i n ≡ some j → (i ≤ j) × (j < i + n)
unfolding find_subscriber
find_subscriber-bounds f t i zero j e = cc
find_subscriber-bounds f t i (suc n) j e = ground (arith, find_subscriber-bounds f t (i + 1) n j)

-- A table in which the entries behind `j`, the first place of `f`, are moved down by one.
erase-entries :
    (f : ℕ) (t u : ℕ → ℕ) (i n j : ℕ)
    → find_subscriber f t i n ≡ some j
    → ((k : ℕ) → k < j → u k ≡ t k)
    → ((k : ℕ) → j ≤ k → k + 1 < i + n → u k ≡ t (k + 1))
    → erase f (entries t i n) ≡ entries u i (n - 1)
unfolding find_subscriber erase entries
erase-entries f t u i zero j e below above = cc
erase-entries f t u i (suc n) j e below above = elim (Bool-cases (t i == f)) [
  | inl hit ↦
      let here : i ≡ j = ground arith in
      rw hit (
        sym (entries-shift t u i n (λ k p q. above k (omega arith) (omega arith)))
        ∙ ap (entries u i) (omega arith))
  | inr miss ↦
      let later : find_subscriber f t (i + 1) n ≡ some j = ground arith in
      let bounds = find_subscriber-bounds f t (i + 1) n j later in
      let fewer : suc (n - 1) ≡ suc n - 1 = omega arith in
      let rest = erase-entries f t u (i + 1) n j later below (λ k p q. above k p (omega arith)) in
      rw miss (ap₂ ◌∷◌ (sym (below i (omega arith))) rest ∙ ap (entries u i) fewer)
]

-- Where the function is subscribed and there are at most 64 subscribers, unsubscribing takes its
-- first place off the list and keeps the others in order.
pub published_to-unsubscribe :
    (f : ℕ) (s : Subscribers) (j : ℕ)
    → find_subscriber f s.table 0 s.count ≡ some j
    → s.count ≤ 64
    → published_to (keyboard_event_unsubscribe f s) ≡ erase f (published_to s)
unfolding keyboard_event_unsubscribe
published_to-unsubscribe f s j found small =
    ap published_to after ∙ sym (erase-entries f s.table table 0 s.count j found below above)
  where
    table : ℕ → ℕ
    table = move_down j (64 - j) (update s.table j 0)

    after : keyboard_event_unsubscribe f s ≡ record { table = table; count = s.count - 1 }
    after = ground arith

    below : (k : ℕ) → k < j → table k ≡ s.table k
    below k h = move_down_below j (64 - j) (update s.table j 0) k h ∙ ground arith

    above : (k : ℕ) → j ≤ k → k + 1 < 0 + s.count → table k ≡ s.table (k + 1)
    above k p q = move_down_inside j (64 - j) (update s.table j 0) k p (omega arith) ∙ ground arith

find_subscriber-none :
    (f : ℕ) (t : ℕ → ℕ) (i n : ℕ)
    → contains f (entries t i n) ≡ false
    → find_subscriber f t i n ≡ none
unfolding find_subscriber entries contains
find_subscriber-none f t i zero h = refl
find_subscriber-none f t i (suc n) h = ground (arith, find_subscriber-none f t (i + 1) n)

-- Unsubscribing a function that is not subscribed drops the first subscriber all the same, keeps
-- the count, and lets the last place be filled from behind the list.
published_to-unsubscribe_absent :
    (f : ℕ) (s : Subscribers)
    → contains f (published_to s) ≡ false
    → s.count ≤ 64
    → published_to (keyboard_event_unsubscribe f s) ≡ entries s.table 1 s.count
unfolding keyboard_event_unsubscribe
published_to-unsubscribe_absent f s h small =
    ap published_to after
    ∙ entries-shift s.table (move_down 0 64 s.table) 0 s.count
        (λ k p q. move_down_inside 0 64 s.table k p (omega arith))
  where
    after :
        keyboard_event_unsubscribe f s ≡ record { table = move_down 0 64 s.table; count = s.count }
    after = ground (arith, find_subscriber-none f s.table 0 s.count h)
