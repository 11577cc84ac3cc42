-- ===== src/Memory/Heap/Chain.antt =====
-- Splitting a segment and joining it again.
use micron.Base.{
  ap₂, ◌∙◌, sym, ℕ, ◌+◌, ◌-◌, ◌^◌, ◌≤◌, ◌<◌, ◌≡◌, ◌≢◌, ap, arith, true, false, ltb, if◌then◌else◌,
  add64,
}
use micron.Memory.Heap.{
  Header, Headers, header_size, split_header, split_seg_length, insert_segment, split,
  combine_forward,
}

-- The stores of a split at each address, with the three headers apart.
module _ (h : Headers) (this new rest size : ℕ) (new_ne : new ≢ this)
    (next_ne : (h this).next ≢ new) (next_apart : (h this).next ≢ this) where
  pub insert_this :
      insert_segment this new rest size h this ≡ record (h this) { length = size; next = new }
  unfolding insert_segment
  insert_this = ground arith

  pub insert_new :
      insert_segment this new rest size h new
      ≡ record { length = rest; next = (h this).next; last = this; free = (h this).free }
  unfolding insert_segment
  insert_new = ground arith

  insert_next :
      insert_segment this new rest size h (h this).next ≡ record (h (h this).next) { last = new }
  unfolding insert_segment
  insert_next = ground arith

  insert_other :
      (a : ℕ) → a ≢ this → a ≢ new → a ≢ (h this).next → insert_segment this new rest size h a ≡ h a
  unfolding insert_segment
  insert_other a p q r = ground arith

-- A segment that is long enough to be split, and the places of the headers around it.
pub record CanSplit (h : Headers) (this size : ℕ) : Type 0 where
  pub enough : 16 ≤ size
  pub room : size + 80 ≤ (h this).length
  pub length_fits : (h this).length < 2 ^ 64
  pub no_wrap : this + size + 32 < 2 ^ 64
  pub this_ne : this ≢ 0
  pub next_apart : (h this).next ≢ this + size + 32
  pub next_ne_this : (h this).next ≢ this

-- What a split makes of the segment, of the header behind it, and of the header that followed.
pub record Halves (h : Headers) (this size : ℕ) (h' : Headers) : Type 0 where
  pub first_length : (h' this).length ≡ size
  pub first_next : (h' this).next ≡ this + size + 32
  pub first_last : (h' this).last ≡ (h this).last
  pub first_free : (h' this).free ≡ (h this).free
  pub second_length : (h' (this + size + 32)).length + size + 64 ≡ (h this).length
  pub second_next : (h' (this + size + 32)).next ≡ (h this).next
  pub second_last : (h' (this + size + 32)).last ≡ this
  pub second_free : (h' (this + size + 32)).free ≡ (h this).free
  pub back_link : (h' (h this).next).last ≡ this + size + 32
  pub next_length : (h' (h this).next).length ≡ (h (h this).next).length
  pub next_free : (h' (h this).next).free ≡ (h (h this).next).free
  pub next_kept : (h' (h this).next).next ≡ (h (h this).next).next
  pub others : (a : ℕ) → a ≢ this → a ≢ this + size + 32 → a ≢ (h this).next → h' a ≡ h a

-- The stores of a split that is made.
pub split-insert :
    (h : Headers) (this size new rest : ℕ)
    → 16 ≤ size
    → 16 ≤ rest
    → split_header this size ≡ new
    → split_seg_length h this size ≡ rest
    → split this size h ≡ insert_segment this new rest size h
unfolding split
split-insert h this size new rest enough some_rest e e' =
    ap
      (λ b.
        if b
        then h
        else if ltb left 16
        then h
        else insert_segment this (split_header this size) left size h)
      large
    ∙ ap (λ b. if b then h else insert_segment this (split_header this size) left size h) longer
    ∙ ap₂ (λ n r. insert_segment this n r size h) e e'
  where
    left : ℕ
    left = split_seg_length h this size

    large : ltb size 16 ≡ false
    large = ground arith

    longer : ltb left 16 ≡ false
    longer = ground arith

split-insert_segment :
    (h : Headers) (this size : ℕ)
    → CanSplit h this size
    → split this size h
      ≡ insert_segment this (this + size + 32) ((h this).length - size - 64) size h
split-insert_segment h this size c =
    split-insert h this size (this + size + 32) ((h this).length - size - 64) c.enough
      (omega (arith, c.room)) (omega (arith, c.no_wrap)) (omega (arith, c.room, c.length_fits))

-- A segment that has room for 80 bytes more than the size is split in two: the first half has the
-- size, the second begins behind it and its header with 64 bytes less than what is left, both are
-- as free as the segment was, the header that followed points back at the second half (where
-- nothing followed, that store goes to address 0), and no other header changes.
pub split-Halves :
    (h : Headers) (this size : ℕ) → CanSplit h this size → Halves h this size (split this size h)
split-Halves h this size c = rw (split-insert_segment h this size c) (record {
  first_length = ap (λ d. d.length) at_this;
  first_next = ap (λ d. d.next) at_this;
  first_last = ap (λ d. d.last) at_this;
  first_free = ap (λ d. d.free) at_this;
  second_length = rw (ap (λ (d : Header). d.length) at_new) (omega arith);
  second_next = ap (λ d. d.next) at_new;
  second_last = ap (λ d. d.last) at_new;
  second_free = ap (λ d. d.free) at_new;
  back_link =
      ap (λ d. d.last) (insert_next h this new rest size new_ne c.next_apart c.next_ne_this);
  next_length =
      ap (λ d. d.length) (insert_next h this new rest size new_ne c.next_apart c.next_ne_this);
  next_free =
      ap (λ d. d.free) (insert_next h this new rest size new_ne c.next_apart c.next_ne_this);
  next_kept =
      ap (λ d. d.next) (insert_next h this new rest size new_ne c.next_apart c.next_ne_this);
  others = insert_other h this new rest size new_ne c.next_apart c.next_ne_this;
})
  where
    new : ℕ
    new = this + size + 32

    rest : ℕ
    rest = (h this).length - size - 64

    new_ne : new ≢ this
    new_ne = omega arith

    at_this :
        insert_segment this new rest size h this ≡ record (h this) { length = size; next = new }
    at_this = insert_this h this new rest size new_ne c.next_apart c.next_ne_this

    at_new :
        insert_segment this new rest size h new
        ≡ record { length = rest; next = (h this).next; last = this; free = (h this).free }
    at_new = insert_new h this new rest size new_ne c.next_apart c.next_ne_this

-- What joining a segment to a free one behind it leaves, with the headers apart.
pub combine_forward-joined :
    (h : Headers) (this : ℕ)
    → (h this).next ≢ 0
    → (h (h this).next).free ≡ true
    → (h this).next ≢ this
    → (h (h this).next).next ≢ this
    → (h (h this).next).next ≢ (h this).next
    → ((combine_forward this h this).length
        ≡ add64 (add64 (h this).length (h (h this).next).length) header_size)
      × ((combine_forward this h this).next ≡ (h (h this).next).next)
unfolding combine_forward
combine_forward-joined h this some_next is_free p q r = (ground arith, ground arith)

-- Splitting a free segment and joining the halves again gives back the link to what followed, and
-- 32 bytes less than the segment had.
pub combine_forward-split :
    (h : Headers) (this size : ℕ)
    → CanSplit h this size
    → (h this).free ≡ true
    → let h' = combine_forward this (split this size h) in
      ((h' this).length + 32 ≡ (h this).length) × ((h' this).next ≡ (h this).next)
combine_forward-split h this size c is_free = (
  ap (λ n. n + 32) (joined.0 ∙ lengths) ∙ omega arith,
  joined.1 ∙ ap (λ n. (s n).next) v.first_next ∙ v.second_next,
)
  where
    s : Headers
    s = split this size h

    v : Halves h this size s
    v = split-Halves h this size c

    after : (s (s this).next).next ≡ (h this).next
    after = ap (λ n. (s n).next) v.first_next ∙ v.second_next

    joined :
        ((combine_forward this s this).length
          ≡ add64 (add64 (s this).length (s (s this).next).length) header_size)
        × ((combine_forward this s this).next ≡ (s (s this).next).next)
    joined =
        combine_forward-joined s this (omega (arith, v.first_next))
          (ap (λ n. (s n).free) v.first_next ∙ v.second_free ∙ is_free)
          (omega (arith, v.first_next)) (λ e. c.next_ne_this (sym after ∙ e))
          (λ e. c.next_apart (sym after ∙ e ∙ v.first_next))

    lengths :
        add64 (add64 (s this).length (s (s this).next).length) header_size ≡ (h this).length - 32
    lengths =
        omega (arith, v.first_length, v.second_length, ap (λ (n : ℕ). (s n).length) v.first_next)
