-- ===== src/Memory/Pmm/Ranges.antt =====
-- Runs of pages: `lock_pages`, `free_pages`, `reserve_pages`, `unreserve_pages`.
use micron.Base.{ℕ, zero, suc, ◌+◌, ◌*◌, ◌/◌, ◌^◌, ◌≤◌, ◌<◌, ◌≡◌, arith, u64}
use micron.Memory.Pmm.{
  Pmm, reserve_page, unreserve_page, lock_page, free_page, for_pages, reserve_pages,
  unreserve_pages, lock_pages, free_pages,
}
use micron.Util.Bitmap
use micron.Memory.Pmm.Accounts.{
  Balanced, page_limit, lock_page-Balanced, free_page-Balanced, reserve_page-Balanced,
  unreserve_page-Balanced,
}

-- The run of pages from an address lies inside the bitmap, and inside the 64-bit address space.
pub record RunInside (limit vaddress page_count : ℕ) : Type 0 where
  pub inside : vaddress / 4096 + page_count ≤ limit
  pub no_wrap : limit * 4096 ≤ 2 ^ 64

-- Balanced, with the bitmap at `addr` and of `limit` bits.
abbrev pub Sound : ℕ → ℕ → Pmm → Type 0
Sound limit addr s = Balanced s × (page_limit s ≡ limit) × (s.page_bitmap_map.address ≡ addr)

abbrev Keeps : ℕ → ℕ → (ℕ → Pmm → Pmm) → Type 0
Keeps limit addr page =
    (a : ℕ) (s : Pmm) → a / 4096 < limit → Sound limit addr s → Sound limit addr (page a s)

for_pages-Sound :
    (limit addr vaddress : ℕ) (page : ℕ → Pmm → Pmm) (left t : ℕ) (s : Pmm)
    → Keeps limit addr page
    → RunInside limit vaddress (t + left)
    → Sound limit addr s
    → Sound limit addr (for_pages page vaddress left t s)
unfolding for_pages
for_pages-Sound limit addr vaddress page zero t s keep run h = h
for_pages-Sound limit addr vaddress page (suc left) t s keep run h =
    for_pages-Sound limit addr vaddress page left (t + 1) (page (u64 (vaddress + t * 4096)) s) keep
      (omega arith) (keep (u64 (vaddress + t * 4096)) s (omega arith) h)

lock_page-Keeps : (limit addr : ℕ) → Keeps limit addr lock_page
unfolding lock_page Bitmap.set
lock_page-Keeps limit addr a s h sound = ground (arith, lock_page-Balanced a s)

free_page-Keeps : (limit addr : ℕ) → Keeps limit addr free_page
unfolding free_page Bitmap.set
free_page-Keeps limit addr a s h sound = ground (arith, free_page-Balanced a s)

reserve_page-Keeps : (limit addr : ℕ) → Keeps limit addr reserve_page
unfolding reserve_page Bitmap.set
reserve_page-Keeps limit addr a s h sound = ground (arith, reserve_page-Balanced a s)

unreserve_page-Keeps : (limit addr : ℕ) → Keeps limit addr unreserve_page
unfolding unreserve_page Bitmap.set
unreserve_page-Keeps limit addr a s h sound = ground (arith, unreserve_page-Balanced a s)

module _ (limit addr vaddress page_count : ℕ) (s : Pmm) (run : RunInside limit vaddress page_count)
    (sound : Sound limit addr s) where
  pub lock_pages-Sound : Sound limit addr (lock_pages vaddress page_count s)
  unfolding lock_pages
  lock_pages-Sound =
      for_pages-Sound limit addr vaddress lock_page page_count 0 s (lock_page-Keeps limit addr)
        (omega arith) sound

  pub reserve_pages-Sound : Sound limit addr (reserve_pages vaddress page_count s)
  unfolding reserve_pages
  reserve_pages-Sound =
      for_pages-Sound limit addr vaddress reserve_page page_count 0 s
        (reserve_page-Keeps limit addr) (omega arith) sound

  pub free_pages-Sound : Sound limit addr (free_pages vaddress page_count s)
  unfolding free_pages
  free_pages-Sound =
      for_pages-Sound limit addr vaddress free_page page_count 0 s (free_page-Keeps limit addr)
        (omega arith) sound

  pub unreserve_pages-Sound : Sound limit addr (unreserve_pages vaddress page_count s)
  unfolding unreserve_pages
  unreserve_pages-Sound =
      for_pages-Sound limit addr vaddress unreserve_page page_count 0 s
        (unreserve_page-Keeps limit addr) (omega arith) sound
