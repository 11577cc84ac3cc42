-- ===== src/Memory/Mapping.antt =====
-- The loops that map pages: request_pages of kernel/src/memory/pmm.cpp, and setup_paging and
-- configure_memory of kernel/src/boot/kconf.cpp. `fuel` is that of `map_memory`.
pub mod Fixed
pub mod Ranges
use micron.Base.{
  ℕ, zero, suc, ◌+◌, ◌-◌, ◌*◌, ◌/◌, ◌^◌, Bool, true, false, Option, none, some, leb, ◌==◌,
  if◌then◌else◌, u64, ◌>>=◌, List,
}
use micron.Memory.Pmm.{Pmm, MmapEntry, request_page, initialize}
use micron.Memory.Heap
use micron.Memory.Heap.{Heap, initialize_heap}
use micron.Memory.Paging.{Space, cleared, map_memory}

-- A page is requested and mapped at `address i`, in each of `left` rounds from `i` on.
unfoldable pub map_requested : (fuel : ℕ) → (address : ℕ → ℕ) → (left i : ℕ) → Space → Option Space
map_requested fuel address zero i s = some s
map_requested fuel address (suc left) i s =
    let (page, pmm) = request_page s.pmm in
    map_memory fuel (address i) page false (record s { pmm = pmm }) >>= λ t.
    map_requested fuel address left (suc i) t

-- The addresses from a page on, page by page.
abbrev pub page_from : ℕ → ℕ → ℕ
page_from start i = u64 (start + i * 0x1000)

-- The answer is the first page, or 0 for `nullptr`.
unfoldable pub request_pages : (fuel page_count : ℕ) → Space → Option (ℕ × Space)
request_pages fuel page_count s =
    if leb page_count 1
    then some (0, s)
    else (let (start_ptr, pmm) = request_page s.pmm in
        map_memory fuel start_ptr start_ptr false (record s { pmm = pmm }) >>= λ t.
        map_requested fuel (page_from start_ptr) (page_count - 1) 1 t >>= λ u. some (start_ptr, u))

-- Pages that are mapped to themselves, `left` of them from `t` on.
unfoldable pub map_identity : (fuel left t : ℕ) → (quickwrite : Bool) → Space → Option Space
map_identity fuel zero t quickwrite s = some s
map_identity fuel (suc left) t quickwrite s =
    map_memory fuel t t quickwrite s >>= λ u. map_identity fuel left (u64 (t + 0x1000)) quickwrite u

-- `stivale_framebuffer`
pub record Framebuffer : Type 0 where
  pub framebuffer_addr : ℕ
  pub framebuffer_width : ℕ
  pub framebuffer_height : ℕ
  pub framebuffer_bpp : ℕ

unfoldable pub fb_size : Framebuffer → ℕ
fb_size f = u64 (f.framebuffer_width * f.framebuffer_height * (f.framebuffer_bpp / 8) + 1024)

-- How often a loop that goes on by a page runs until it has passed `size`.
abbrev pub rounds : ℕ → ℕ
rounds size = (size + 0xfff) / 0x1000

-- A new top table, which is mapped itself, then the memory and the frame; the frame ends below 2 ^ 64.
-- The size of the memory is the one that `initialize` has computed; where it is 0, it is computed
-- again, and a division by zero traps, which is `none`.
unfoldable pub setup_paging : (fuel : ℕ) → Framebuffer → Space → Option Space
setup_paging fuel f s =
    let (pml_4, pmm) = request_page s.pmm in
    let empty : Space = record { pmm = pmm; memory = cleared s.memory pml_4; pml_4 = pml_4 } in
    map_memory fuel pml_4 pml_4 false empty >>= λ t.
    if t.pmm.memory_size_bytes == 0
    then none
    else (map_identity fuel (rounds t.pmm.memory_size_bytes) 0 false t >>= λ u.
        map_identity fuel (rounds (fb_size f)) f.framebuffer_addr true u)

abbrev pub heap_address : ℕ
heap_address = 0xffff800000000000

-- The loop of `configure_memory`: `pos` is set anew in each round.
unfoldable pub map_heap : (fuel rounds : ℕ) → Space → Option Space
map_heap fuel rounds s = map_requested fuel (λ i. heap_address) rounds 0 s

-- `memory` is the memory by bytes, for the bitmap. What is written into the frame first is left out.
unfoldable pub configure_memory :
    (fuel : ℕ) (memory : ℕ → ℕ) (kernel_start kernel_pages : ℕ)
    → Framebuffer
    → List MmapEntry
    → Space
    → Heap
    → Option (Space × Heap)
configure_memory fuel memory kernel_start kernel_pages f memory_map s h =
    let booted = record s { pmm = initialize memory kernel_start kernel_pages memory_map s.pmm } in
    setup_paging fuel f booted >>= λ t.
    map_heap fuel 0x100 t >>= λ u. some (u, initialize_heap heap_address 0x100000 h)

-- `calculate_kernel_size`: the size in bytes and in pages.
unfoldable pub calculate_kernel_size : (kernel_start kernel_end : ℕ) → ℕ × ℕ
calculate_kernel_size kernel_start kernel_end =
    let kernel_size = u64 (kernel_end + 2 ^ 64 - kernel_start) in
    (kernel_size, kernel_size / 4096 + 1)
