-- ===== src/Tests/Mapping.antt =====
-- Pages that are requested and mapped, with the tables of the addresses below 2 MiB in place.
use micron.Base.{
  ℕ, zero, suc, ◌+◌, ◌*◌, ◌/◌, ◌^◌, ◌<◌, ◌≡◌, ◌≢◌, ◌⊎◌, refl, ap, ap₂, arith, true, some, get_or,
  update,
}
use micron.Bits.Fields.{bit_and_mask}
use micron.Util.Bitmap
use micron.Memory.Pmm.{lock_page, request_page, request_loop}
use micron.Memory.Pmm.Accounts.{page_limit}
use micron.Memory.Pmm.Request.{Allocated, IsTaken}
use micron.Memory.Pmm.Fresh.{requests}
use micron.Memory.Paging.{Space, page_map_indexer, table_of, get_physical_address}
use micron.Memory.Paging.Entry.{present, get_flag, get_address}
use micron.Memory.Paging.Walk.{pdp_slot, pd_slot, pt_slot, page_slot, HasTables}
use micron.Memory.Paging.Map.{EndsApart, Untouched}
use micron.Memory.Mapping.{request_pages, page_from, map_heap, heap_address}
use micron.Memory.Mapping.Ranges.{Apart, IsMappable, Distinct, frame, request_pages-translates}
use micron.Memory.Mapping.Fixed.{map_heap-one_page}
use micron.Cpu.Gdt.{descriptor}
use micron.Cpu.Gdt.Layout.{HoldsTss}
use micron.Cpu.Tss.{Tasks, null_tss, tss_size, stack_top, tss_install, sys_allocate_page}
use micron.Cpu.Tss.Stacks.{stack_page, tss_install-stacks, sys_allocate_page-Allocated}

-- The allocator has 16 pages, the first 5 of which are taken.
abbrev space : Space
space = record {
  pmm = record {
    free_memory_size = 0xb000;
    used_memory_size = 0x5000;
    total_memory_size = 0x10000;
    reserved_memory_size = 0;
    page_bitmap_map = record { size = 2; address = 0; buffer = update (λ i. 0) 0 0b11111000 };
    initialized = true;
    memory_size_bytes = 0x10000;
  };
  memory = update (update (update (λ i. 0) 0x1000 0x2003) 0x2000 0x3003) 0x3000 0x4003;
  pml_4 = 0x1000;
}

-- The entries of an address below 2 MiB.
record Low (va : ℕ) : Type 0 where
  pub tables : HasTables space va
  pub pdp : pdp_slot space va ≡ 0x1000
  pub pd : pd_slot space va ≡ 0x2000
  pub pt : pt_slot space va ≡ 0x3000
  pub page : page_slot space va ≡ 0x4000 + 8 * (va / 4096)

indices :
    (va : ℕ)
    → va < 2 ^ 21
    → ((page_map_indexer va).pdp_i ≡ 0)
      × ((page_map_indexer va).pd_i ≡ 0)
      × ((page_map_indexer va).pt_i ≡ 0)
      × ((page_map_indexer va).p_i ≡ va / 4096)
unfolding page_map_indexer
indices va h = omega (
  arith,
  bit_and_mask 9 (va / 2 ^ 12),
  bit_and_mask 9 (va / 2 ^ 12 / 2 ^ 9),
  bit_and_mask 9 (va / 2 ^ 12 / 2 ^ 9 / 2 ^ 9),
  bit_and_mask 9 (va / 2 ^ 12 / 2 ^ 9 / 2 ^ 9 / 2 ^ 9),
)

low : (va : ℕ) → va < 2 ^ 21 → Low va
unfolding get_flag get_address
low va h = record {
  tables = record {
    pdp = ap (λ (a : ℕ). get_flag (space.memory a) present) at_pdp;
    pd = ap (λ (a : ℕ). get_flag (space.memory a) present) at_pd;
    pt = ap (λ (a : ℕ). get_flag (space.memory a) present) at_pt;
  };
  pdp = at_pdp;
  pd = at_pd;
  pt = at_pt;
  page = ap₂ (λ (a i : ℕ). table_of (space.memory a) + 8 * i) at_pt (indices va h).3;
}
  where
    at_pdp : pdp_slot space va ≡ 0x1000
    at_pdp = ap (λ (i : ℕ). 0x1000 + 8 * i) (indices va h).0

    at_pd : pd_slot space va ≡ 0x2000
    at_pd = ap₂ (λ (a i : ℕ). table_of (space.memory a) + 8 * i) at_pdp (indices va h).1

    at_pt : pt_slot space va ≡ 0x3000
    at_pt = ap₂ (λ (a i : ℕ). table_of (space.memory a) + 8 * i) at_pd (indices va h).2

space-IsMappable :
    (address : ℕ → ℕ) (n : ℕ) → ((i : ℕ) → i < n → address i < 2 ^ 21) → IsMappable space address n
space-IsMappable address n below = record {
  tables = λ i h. (low (address i) (below i h)).tables;
  apart = λ i j hi hj. apart (low (address i) (below i hi)) (low (address j) (below j hj));
}
  where
    apart : {va vb : ℕ} → Low va → Low vb → Apart space va vb
    apart a b = record {
      from_pdp = omega (arith, a.page, b.pdp);
      from_pd = omega (arith, a.page, b.pd);
      from_pt = omega (arith, a.page, b.pt);
    }

-- Pages in a row have entries of their own.
space-Distinct :
    (address : ℕ → ℕ) (n first : ℕ)
    → ((i : ℕ) → i < n → address i < 2 ^ 21)
    → ((i : ℕ) → i < n → address i ≡ (first + i) * 4096)
    → Distinct space address n
space-Distinct address n first below rows i j hi hj ne =
    apart (low (address i) (below i hi)) (low (address j) (below j hj)) (rows i hi) (rows j hj)
  where
    apart :
        {va vb : ℕ}
        → Low va
        → Low vb
        → va ≡ (first + i) * 4096
        → vb ≡ (first + j) * 4096
        → page_slot space va ≢ page_slot space vb
    apart a b ea eb = omega (arith, a.page, b.page)

rows_to_below :
    (address : ℕ → ℕ) (n first : ℕ)
    → first + n < 512
    → ((i : ℕ) → i < n → address i ≡ (first + i) * 4096)
    → (i : ℕ) → i < n
    → address i < 2 ^ 21
rows_to_below address n first few rows i h = omega (arith, rows i h)

space-page_from : (i : ℕ) → i < 2 → page_from (request_page space.pmm).0 i ≡ (5 + i) * 4096
unfolding request_page request_loop Bitmap.get
space-page_from zero h = refl
space-page_from (suc zero) h = refl
space-page_from (suc (suc i)) h = absurd (omega arith)

space-start : (request_page space.pmm).0 ≡ 0x5000
unfolding request_page request_loop Bitmap.get
space-start = refl

request_pages-translates_example :
    let start = (request_page space.pmm).0 in
    (s' : Space) × (request_pages 1 2 space ≡ some (start, s'))
    × ((i : ℕ)
        → i < 2
        → get_physical_address (page_from start i) s'
          ≡ frame (get_or (requests 2 space.pmm) i 0) (page_from start i))
request_pages-translates_example =
    request_pages-translates 0 2 space (omega arith)
      (space-IsMappable _ 2 (rows_to_below _ 2 5 (omega arith) space-page_from))
      (space-Distinct _ 2 5 (rows_to_below _ 2 5 (omega arith) space-page_from) space-page_from)

abbrev tasks : Tasks
tasks = record {
  isr_stack = 0;
  irq_stack = 0;
  sgi_stack = 0;
  tss = null_tss;
  gdt = record { descriptors = λ i. descriptor 0 0 0 0; s_gdt_index = 5 };
  space = space;
}

stack_page-rows : (i : ℕ) → i < 3 → stack_page tasks i ≡ (5 + i) * 4096
unfolding requests request_page request_loop lock_page Bitmap.get Bitmap.set
stack_page-rows zero h = refl
stack_page-rows (suc zero) h = refl
stack_page-rows (suc (suc zero)) h = refl
stack_page-rows (suc (suc (suc i))) h = absurd (omega arith)

tss_install-stacks_example :
    (t' : Tasks) × (tss_install 1 0x9000 0x8000 tasks ≡ some t')
    × ((i : ℕ)
        → i < 3
        → (t'.tss.ist i ≡ stack_top (stack_page tasks i))
          × (get_physical_address (stack_page tasks i) t'.space
              ≡ frame (stack_page tasks i) (stack_page tasks i)))
    × (t'.tss.rsp 0 ≡ 0x8000)
    × HoldsTss 0x9000 tss_size 5 t'.gdt
    × (t'.gdt.s_gdt_index ≡ 7)
    × ((i : ℕ) → i < 5 → t'.gdt.descriptors i ≡ tasks.gdt.descriptors i)
tss_install-stacks_example =
    tss_install-stacks 0 0x9000 0x8000 tasks (omega arith) (omega arith)
      (space-IsMappable _ 3 (rows_to_below _ 3 5 (omega arith) stack_page-rows))
      (space-Distinct _ 3 5 (rows_to_below _ 3 5 (omega arith) stack_page-rows) stack_page-rows)

sys_allocate_page-Allocated_example :
    let (page, s') = sys_allocate_page space in
    (((page ≡ 0)
        × (s'.pmm ≡ space.pmm)
        × ((j : ℕ) → j < page_limit space.pmm → IsTaken space.pmm j))
      ⊎ ((page ≢ 0) × Allocated space.pmm page s'.pmm))
    × ((other : ℕ) → get_physical_address other s' ≡ get_physical_address other space)
unfolding Bitmap.get
sys_allocate_page-Allocated_example = sys_allocate_page-Allocated space (omega arith) refl

-- The same tables, for the addresses of the heap.
abbrev high : Space
high = record space { memory = update space.memory 0x1800 0x2003 }

high-HasTables : HasTables high heap_address
unfolding get_flag get_address page_map_indexer
high-HasTables = record { pdp = refl; pd = refl; pt = refl }

high-EndsApart : EndsApart high heap_address
unfolding get_flag get_address page_map_indexer
high-EndsApart = record { from_pdp = omega arith; from_pd = omega arith; from_pt = omega arith }

map_heap-one_page_example :
    (s' : Space) × (map_heap 1 2 high ≡ some s')
    × (get_physical_address heap_address s' ≡ frame (get_or (requests 2 high.pmm) 1 0) heap_address)
    × ((other : ℕ)
        → Untouched high heap_address other
        → get_physical_address other s' ≡ get_physical_address other high)
map_heap-one_page_example = map_heap-one_page 0 1 high high-HasTables high-EndsApart
