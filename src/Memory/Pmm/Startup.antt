-- ===== src/Memory/Pmm/Startup.antt =====
-- `initialize` leaves the counters and the bitmap in step.
use micron.Base.{ℕ, zero, suc, ◌+◌, ◌*◌, ◌/◌, ◌<◌, ◌≡◌, ◌≢◌, arith, false, List, [], ◌∷◌}
use micron.Bits.{zero-bit_and}
use micron.Util.Bitmap
use micron.Memory.Pmm.{
  Pmm, MmapEntry, zero_fill, init_bitmap, get_total_memory_size, largest_segment,
}
use micron.Memory.Pmm.Ranges.{RunInside}

zero_fill-below : (n : ℕ) (f : ℕ → ℕ) (i : ℕ) → i < n → zero_fill n f i ≡ 0
unfolding zero_fill
zero_fill-below zero f i h = absurd (omega arith)
zero_fill-below (suc n) f i h = ground (arith, zero_fill-below n f i)

-- A new bitmap has every page free.
pub get-init_bitmap :
    (memory : ℕ → ℕ) (size addr i : ℕ)
    → i < size * 8
    → Bitmap.get (init_bitmap memory size addr) i ≡ false
unfolding init_bitmap Bitmap.get
get-init_bitmap memory size addr i h =
    rw (zero_fill-below size (λ j. memory (addr + j)) (i / 8) (omega arith), zero-bit_and)

-- Every region that the second loop reserves ends inside the bitmap.
abbrev pub EntriesInside : ℕ → ℕ → List MmapEntry → Type 0
EntriesInside limit memory_size [] = Unit
EntriesInside limit memory_size (desc ∷ map) =
    (desc.type ≢ 1 → desc.base < memory_size → RunInside limit desc.base (desc.length / 0x1000))
    × EntriesInside limit memory_size map

-- The bits that the bitmap has for a memory of `memory_size` bytes.
abbrev pub bitmap_limit : ℕ → ℕ
bitmap_limit memory_size = (memory_size / 4096 / 8 + 1) * 8

-- What a boot relies on: a zeroed state, and every run of pages that `initialize` marks inside the
-- bitmap.
pub record BootInside (kernel_start kernel_pages : ℕ) (map : List MmapEntry) (s : Pmm)
    : Type 0 where
  pub fresh : s.initialized ≡ false
  pub used_zero : s.used_memory_size ≡ 0
  pub reserved_zero : s.reserved_memory_size ≡ 0
  pub entries :
      let memory_size = (get_total_memory_size map s).0 in
      EntriesInside (bitmap_limit memory_size) memory_size map
  pub bitmap :
      let memory_size = (get_total_memory_size map s).0 in
      RunInside
        (bitmap_limit memory_size)
        (largest_segment map 0 0)
        ((memory_size / 4096 / 8 + 1) / 4096 + 1)
  pub low_memory :
      let memory_size = (get_total_memory_size map s).0 in
      RunInside (bitmap_limit memory_size) 0 256
  pub kernel :
      let memory_size = (get_total_memory_size map s).0 in
      RunInside (bitmap_limit memory_size) kernel_start kernel_pages
