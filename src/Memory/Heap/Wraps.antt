-- ===== src/Memory/Heap/Wraps.antt =====
-- Where `split` subtracts more than the segment has.
use micron.Base.{ℕ, ◌+◌, ◌-◌, ◌^◌, ◌≤◌, ◌<◌, ◌≡◌, ◌≢◌, ap, arith}
use micron.Memory.Heap.{Header, Headers, insert_segment, split}
use micron.Memory.Heap.Chain.{insert_new, insert_this, split-insert}

-- Where a segment within the heap is longer than the size, but by less than 64 bytes, and the
-- header behind the size is neither that of the segment nor the one that follows, `split` makes a
-- segment there: its length is 2 ^ 64 more than what is left, so that it ends behind the heap.
pub split-wraps :
    (h : Headers) (end this size : ℕ)
    → end < 2 ^ 64
    → this + 32 + (h this).length ≤ end
    → 16 ≤ size
    → size < (h this).length
    → (h this).length < size + 64
    → (h this).next ≢ this + size + 32
    → (h this).next ≢ this
    → let new = this + size + 32 in
      let h' = split this size h in
      ((h' new).length + size + 64 ≡ (h this).length + 2 ^ 64)
      × (end < new + 32 + (h' new).length)
      × ((h' this).next ≡ new)
split-wraps h end this size fits within enough longer short apart apart' = rw same (
  rw (ap (λ (d : Header). d.length) at_new) (omega arith),
  rw (ap (λ (d : Header). d.length) at_new) (omega arith),
  ap (λ (d : Header). d.next)
      (insert_this h this (this + size + 32) rest size (omega arith) apart apart'),
)
  where
    rest : ℕ
    rest = (h this).length + 2 ^ 64 - size - 64

    same : split this size h ≡ insert_segment this (this + size + 32) rest size h
    same =
        split-insert h this size (this + size + 32) rest enough (omega arith) (omega arith)
          (omega arith)

    at_new :
        insert_segment this (this + size + 32) rest size h (this + size + 32)
        ≡ record { length = rest; next = (h this).next; last = this; free = (h this).free }
    at_new = insert_new h this (this + size + 32) rest size (omega arith) apart apart'
