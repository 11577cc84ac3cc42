-- ===== src/Memory/Pmm/Accounts.antt =====
-- The counters agree with the bitmap, whatever page is locked, freed or reserved.
use micron.Base.{ℕ, ◌+◌, ◌*◌, ◌%◌, ◌^◌, ◌<◌, ◌≡◌, arith, true, false}
use micron.Util.Bitmap
use micron.Util.Bitmap.Count.{count_set, count_set-set}
use micron.Memory.Pmm.{Pmm, page_index, reserve_page, unreserve_page, lock_page, free_page}

-- The number of pages that the bitmap has a bit for.
abbrev pub page_limit : Pmm → ℕ
page_limit s = s.page_bitmap_map.size * 8

abbrev pub taken_pages : Pmm → ℕ
taken_pages s = count_set (page_limit s) s.page_bitmap_map

-- The three counters add up to the total, and what is not free is what the bitmap marks. Both hold
-- modulo `2 ^ 64`, since the counters wrap.
pub record Balanced (s : Pmm) : Type 0 where
  pub counters :
      (s.free_memory_size + s.used_memory_size + s.reserved_memory_size) % 2 ^ 64
      ≡ s.total_memory_size % 2 ^ 64
  pub marked : (s.free_memory_size + 4096 * taken_pages s) % 2 ^ 64 ≡ s.total_memory_size % 2 ^ 64

abbrev pub InBitmap : ℕ → Pmm → Type 0
InBitmap vaddress s = page_index vaddress < page_limit s

module _ (vaddress : ℕ) (s : Pmm) (inside : InBitmap vaddress s) (b : Balanced s) where
  pub lock_page-Balanced : Balanced (lock_page vaddress s)
  unfolding lock_page Bitmap.set
  lock_page-Balanced =
      ground
        (arith, count_set-set (page_limit s) s.page_bitmap_map (page_index vaddress) true inside)

  pub free_page-Balanced : Balanced (free_page vaddress s)
  unfolding free_page Bitmap.set
  free_page-Balanced =
      ground
        (arith, count_set-set (page_limit s) s.page_bitmap_map (page_index vaddress) false inside)

  pub reserve_page-Balanced : Balanced (reserve_page vaddress s)
  unfolding reserve_page Bitmap.set
  reserve_page-Balanced =
      ground
        (arith, count_set-set (page_limit s) s.page_bitmap_map (page_index vaddress) true inside)

  pub unreserve_page-Balanced : Balanced (unreserve_page vaddress s)
  unfolding unreserve_page Bitmap.set
  unreserve_page-Balanced =
      ground
        (arith, count_set-set (page_limit s) s.page_bitmap_map (page_index vaddress) false inside)

  -- Locking, freeing, reserving or releasing a page inside the bitmap keeps the counters in step
  -- with each other and with the bits.
  pub pages-Balanced :
      Balanced (lock_page vaddress s)
      × Balanced (free_page vaddress s)
      × Balanced (reserve_page vaddress s)
      × Balanced (unreserve_page vaddress s)
  pages-Balanced =
      (lock_page-Balanced, free_page-Balanced, reserve_page-Balanced, unreserve_page-Balanced)
