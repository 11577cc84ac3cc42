-- ===== src/Memory/Heap.antt =====
-- kernel/src/memory/heap.cpp: segments in a doubly linked list, first fit.
pub mod Fit
pub mod Chain
pub mod Tiles
pub mod Ops
pub mod Joins
pub mod Steps
pub mod Frees
pub mod Live
pub mod Used
pub mod Wraps
use micron.Base.{
  ℕ, zero, suc, ◌+◌, ◌*◌, ◌-◌, ◌%◌, ◌^◌, Bool, true, false, not, ◌&&◌, Option, none, some, ltb,
  ◌==◌, if◌then◌else◌, add64, sub64, update,
}

-- `heap_segment_header`, of 32 bytes.
pub record Header : Type 0 where
  pub length : ℕ
  pub next : ℕ
  pub last : ℕ
  pub free : Bool

abbrev pub header_size : ℕ
header_size = 32

-- The header at each address. Address 0 is memory like any other: the kernel maps it, so a store
-- through a null pointer does not fault.
abbrev pub Headers : Type 0
Headers = ℕ → Header

-- `heap_start` and `heap_end`, and the memory.
pub record Heap : Type 0 where
  pub heap_start : ℕ
  pub heap_end : ℕ
  pub headers : Headers

unfoldable pub initialize_heap : ℕ → ℕ → Heap → Heap
initialize_heap heap_address heap_length h = record {
  heap_start = heap_address;
  heap_end = add64 heap_address heap_length;
  headers =
      update h.headers heap_address
        (record { length = sub64 heap_length header_size; next = 0; last = 0; free = true });
}

abbrev pub set_next : Headers → ℕ → ℕ → Headers
set_next h p v = update h p (record (h p) { next = v })

abbrev pub set_last : Headers → ℕ → ℕ → Headers
set_last h p v = update h p (record (h p) { last = v })

abbrev pub set_length : Headers → ℕ → ℕ → Headers
set_length h p v = update h p (record (h p) { length = v })

abbrev pub set_free : Headers → ℕ → Bool → Headers
set_free h p v = update h p (record (h p) { free = v })

-- What `split` leaves to the new segment.
abbrev pub split_seg_length : Headers → ℕ → ℕ → ℕ
split_seg_length h this split_length = sub64 (sub64 (h this).length split_length) (header_size * 2)

-- The new header stands behind the first `split_length` bytes.
abbrev pub split_header : ℕ → ℕ → ℕ
split_header this split_length = add64 (add64 this split_length) header_size

-- The stores of `split`, with the address and the length of the new segment.
unfoldable pub insert_segment : (this new rest split_length : ℕ) → Headers → Headers
insert_segment this new rest split_length h =
    let h₁ = set_last h (h this).next new in
    let h₂ = set_next h₁ new (h₁ this).next in
    let h₃ = set_next h₂ this new in
    let h₄ = set_last h₃ new this in
    let h₅ = set_length h₄ new rest in
    let h₆ = set_free h₅ new (h₅ this).free in set_length h₆ this split_length

unfoldable pub split : ℕ → ℕ → Headers → Headers
split this split_length h =
    if ltb split_length 0x10
    then h
    else if ltb (split_seg_length h this split_length) 0x10
    then h
    else insert_segment this (split_header this split_length) (split_seg_length h this split_length)
        split_length h

unfoldable pub combine_forward : ℕ → Headers → Headers
combine_forward this h =
    if (h this).next == 0
    then h
    else if not (h (h this).next).free
    then h
    else (let next = (h this).next in
        let h₁ = if (h next).next == 0 then h else set_last h (h next).next this in
        let h₂ = set_length h₁ this (add64 (add64 (h₁ this).length (h₁ next).length) header_size) in
        set_next h₂ this (h₂ next).next)

unfoldable pub combine_backward : ℕ → Headers → Headers
combine_backward this h = if (h this).last == 0 then h else combine_forward (h this).last h

-- "Make sure to round up to 0x10".
unfoldable pub rounded_size : ℕ → ℕ
rounded_size size = if size % 0x10 == 0 then size else size % 0x10 + 0x10

-- A free segment that is long enough is split where it is longer, and taken.
unfoldable pub take_segment : ℕ → ℕ → Headers → Headers
take_segment size segment h =
    if ltb size (h segment).length
    then set_free (split segment size h) segment false
    else set_free h segment false

-- The loop of `malloc`. The answer 0 is `nullptr`, and `none` says that the fuel ran out.
unfoldable pub malloc_loop : (fuel : ℕ) → ℕ → ℕ → Headers → Option (ℕ × Headers)
malloc_loop zero size segment h = none
malloc_loop (suc fuel) size segment h =
    let rest = malloc_loop fuel size (h segment).next h in
    if (h segment).free && not (ltb (h segment).length size)
    then some (segment, take_segment size segment h)
    else if (h segment).next == 0
    then some (0, h)
    else rest

unfoldable pub malloc : (fuel : ℕ) → ℕ → Heap → Option (ℕ × Heap)
malloc fuel size h =
    if size == 0
    then some (0, h)
    else elim (malloc_loop fuel (rounded_size size) h.heap_start h.headers) [
      | none ↦ none
      | some (segment, headers) ↦ some (segment, record h { headers = headers })
    ]

unfoldable pub free : ℕ → Heap → Heap
free addr h =
    let h₁ = set_free h.headers addr true in
    let h₂ =
      if not ((h₁ addr).next == 0) && (h₁ (h₁ addr).next).free
      then combine_forward addr h₁
      else h₁ in
    let h₃ =
      if not ((h₂ addr).last == 0) && (h₂ (h₂ addr).last).free
      then combine_backward addr h₂
      else h₂ in
    record h { headers = h₃ }
