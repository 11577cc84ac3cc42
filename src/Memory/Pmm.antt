-- ===== src/Memory/Pmm.antt =====
-- kernel/src/memory/pmm.cpp: physical pages handed out from a bitmap, with counters of the bytes
-- that are free, used and reserved. The messages to the serial port are left out.
pub mod Accounts
pub mod Contract
pub mod Fresh
pub mod Ranges
pub mod Request
pub mod Startup
use micron.Base.{
  ℕ, zero, suc, ◌+◌, ◌*◌, ◌/◌, Bool, true, false, not, ◌&&◌, List, [], ◌∷◌, ltb, ◌==◌,
  if◌then◌else◌, u64, add64, sub64, update,
}
use micron.Util.Bitmap
use micron.Util.Bitmap.{Bitmap}

-- `stivale_mmap_entry`
pub record MmapEntry : Type 0 where
  pub base : ℕ
  pub length : ℕ
  pub type : ℕ

-- The globals of pmm.cpp; `memory_size_bytes` is the static of `get_total_memory_size`.
pub record Pmm : Type 0 where
  pub free_memory_size : ℕ
  pub used_memory_size : ℕ
  pub total_memory_size : ℕ
  pub reserved_memory_size : ℕ
  pub page_bitmap_map : Bitmap
  pub initialized : Bool
  pub memory_size_bytes : ℕ

-- A zero for each byte below `n`, written in order of the index.
zero_fill : ℕ → (ℕ → ℕ) → ℕ → ℕ
zero_fill zero f = f
zero_fill (suc n) f = update (zero_fill n f) n 0

-- `memory` is the physical memory, byte by byte.
pub init_bitmap : (memory : ℕ → ℕ) → ℕ → ℕ → Bitmap
unfolding zero_fill
init_bitmap memory bitmap_size addr = record {
  size = bitmap_size;
  address = addr;
  buffer = zero_fill bitmap_size (λ i. memory (addr + i));
}

total_loop : List MmapEntry → ℕ → ℕ
total_loop [] bytes = bytes
total_loop (desc ∷ map) bytes =
    total_loop map (if desc.type == 1 then add64 desc.base desc.length else bytes)

-- The list holds the `map_size / desc_size` entries of the map.
unfoldable pub get_total_memory_size : List MmapEntry → Pmm → ℕ × Pmm
unfolding total_loop
get_total_memory_size memory_map s =
    if ltb 0 s.memory_size_bytes
    then (s.memory_size_bytes, s)
    else (let bytes = total_loop memory_map 0 / 0x100000 * 0x100000 in
        (bytes, record s { memory_size_bytes = bytes }))

abbrev pub page_index : ℕ → ℕ
page_index vaddress = vaddress / 4096

unfoldable pub reserve_page : ℕ → Pmm → Pmm
reserve_page vaddress s =
    if Bitmap.get s.page_bitmap_map (page_index vaddress) then s else record s {
      page_bitmap_map = Bitmap.set s.page_bitmap_map (page_index vaddress) true;
      free_memory_size = sub64 s.free_memory_size 4096;
      reserved_memory_size = add64 s.reserved_memory_size 4096;
    }

unfoldable pub unreserve_page : ℕ → Pmm → Pmm
unreserve_page vaddress s =
    if not (Bitmap.get s.page_bitmap_map (page_index vaddress)) then s else record s {
      page_bitmap_map = Bitmap.set s.page_bitmap_map (page_index vaddress) false;
      free_memory_size = add64 s.free_memory_size 4096;
      reserved_memory_size = sub64 s.reserved_memory_size 4096;
    }

unfoldable pub lock_page : ℕ → Pmm → Pmm
lock_page vaddress s = if Bitmap.get s.page_bitmap_map (page_index vaddress) then s else record s {
  page_bitmap_map = Bitmap.set s.page_bitmap_map (page_index vaddress) true;
  free_memory_size = sub64 s.free_memory_size 4096;
  used_memory_size = add64 s.used_memory_size 4096;
}

unfoldable pub free_page : ℕ → Pmm → Pmm
free_page vaddress s =
    if not (Bitmap.get s.page_bitmap_map (page_index vaddress)) then s else record s {
      page_bitmap_map = Bitmap.set s.page_bitmap_map (page_index vaddress) false;
      free_memory_size = add64 s.free_memory_size 4096;
      used_memory_size = sub64 s.used_memory_size 4096;
    }

-- `for (t = 0; t < pageCount; t++) page(vaddress + t * 4096)`, with the rounds left.
unfoldable pub for_pages : (ℕ → Pmm → Pmm) → ℕ → ℕ → ℕ → Pmm → Pmm
for_pages page vaddress zero t s = s
for_pages page vaddress (suc left) t s =
    for_pages page vaddress left (t + 1) (page (u64 (vaddress + t * 4096)) s)

unfoldable pub reserve_pages : ℕ → ℕ → Pmm → Pmm
reserve_pages vaddress page_count s = for_pages reserve_page vaddress page_count 0 s

unfoldable pub unreserve_pages : ℕ → ℕ → Pmm → Pmm
unreserve_pages vaddress page_count s = for_pages unreserve_page vaddress page_count 0 s

unfoldable pub lock_pages : ℕ → ℕ → Pmm → Pmm
lock_pages vaddress page_count s = for_pages lock_page vaddress page_count 0 s

unfoldable pub free_pages : ℕ → ℕ → Pmm → Pmm
free_pages vaddress page_count s = for_pages free_page vaddress page_count 0 s

-- The loop of `request_page` at `index`, with the rounds left; address 0 is `nullptr`.
unfoldable pub request_loop : ℕ → ℕ → Pmm → ℕ × Pmm
request_loop zero index s = (0, s)
request_loop (suc left) index s =
    if Bitmap.get s.page_bitmap_map index
    then request_loop left (index + 1) s
    else (u64 (index * 4096), lock_page (u64 (index * 4096)) s)

unfoldable pub request_page : Pmm → ℕ × Pmm
request_page s = request_loop (u64 (s.page_bitmap_map.size * 8)) 0 s

-- The usable region that `initialize` puts the bitmap in: the first of the longest.
unfoldable pub largest_segment : List MmapEntry → ℕ → ℕ → ℕ
largest_segment [] segment size = segment
largest_segment (desc ∷ map) segment size =
    if (desc.type == 1) && ltb size (desc.length / 0x1000 * 4096)
    then largest_segment map desc.base (desc.length / 0x1000 * 4096)
    else largest_segment map segment size

-- The second loop of `initialize`, and its body.
reserve_entry : ℕ → MmapEntry → Pmm → Pmm
reserve_entry memory_size desc s =
    if not (desc.type == 1) && ltb desc.base memory_size
    then reserve_pages desc.base (desc.length / 0x1000) s
    else s

reserve_entries : ℕ → List MmapEntry → Pmm → Pmm
reserve_entries memory_size [] s = s
reserve_entries memory_size (desc ∷ map) s =
    reserve_entries memory_size map (reserve_entry memory_size desc s)

-- What `initialize` does up to the second loop: the sizes are set and the bitmap is cleared.
with_bitmap : (memory : ℕ → ℕ) → List MmapEntry → Pmm → Pmm
unfolding largest_segment
with_bitmap memory memory_map s =
    let (memory_size, s') = get_total_memory_size memory_map s in
    record s' {
      initialized = true;
      total_memory_size = memory_size;
      free_memory_size = memory_size;
      page_bitmap_map =
          init_bitmap memory (memory_size / 4096 / 8 + 1) (largest_segment memory_map 0 0);
    }

-- The rest of it: the pages that are in use from the start are marked.
mark_pages : (kernel_start kernel_pages : ℕ) → List MmapEntry → Pmm → Pmm
unfolding reserve_entries reserve_entry
mark_pages kernel_start kernel_pages memory_map s =
    let s₂ = reserve_entries s.total_memory_size memory_map s in
    let bitmap = s₂.page_bitmap_map in
    let s₃ = lock_pages bitmap.address (bitmap.size / 4096 + 1) s₂ in
    let s₄ = reserve_pages 0 (0x100000 / 0x1000) s₃ in reserve_pages kernel_start kernel_pages s₄

pub initialize : (memory : ℕ → ℕ) (kernel_start kernel_pages : ℕ) → List MmapEntry → Pmm → Pmm
initialize memory kernel_start kernel_pages memory_map s =
    if s.initialized
    then s
    else mark_pages kernel_start kernel_pages memory_map (with_bitmap memory memory_map s)
