-- ===== src/Tests/Grow.antt =====
-- A page at 2 MiB, of which the last table is missing.
use micron.Base.{◌+◌, ◌*◌, ◌/◌, ◌%◌, ◌^◌, ◌≡◌, refl, arith, true, some, update}
use micron.Util.Bitmap
use micron.Memory.Pmm.{request_page, request_loop, lock_page}
use micron.Memory.Paging.{Space, page_map_indexer, map_memory, get_physical_address}
use micron.Memory.Paging.Entry.{get_flag, get_address}
use micron.Memory.Paging.Leads.{Leads}
use micron.Memory.Paging.Grow.{LacksTable, map_memory-grows}

abbrev space : Space
space = record {
  pmm = record {
    free_memory_size = 0xb000;
    used_memory_size = 0x5000;
    total_memory_size = 0x10000;
    reserved_memory_size = 0;
    page_bitmap_map = record { size = 2; address = 0; buffer = update (λ i. 0) 0 0b11111000 };
    initialized = true;
    memory_size_bytes = 0x10000;
  };
  memory = update (update (update (λ i. 0) 0x1000 0x2003) 0x2000 0x3003) 0x3000 0x4003;
  pml_4 = 0x1000;
}

next_page : (request_page space.pmm).0 ≡ 0x5000
unfolding request_page request_loop lock_page Bitmap.get
next_page = refl

next_page-Leads : Leads space.memory 0x1000 (request_page space.pmm).0 0x2000 0x3000 0x4000
unfolding page_map_indexer get_flag get_address
next_page-Leads =
    rw next_page (record { pdp = refl; to₁ = refl; pd = refl; to₂ = refl; pt = refl; to₃ = refl })

space-LacksTable : LacksTable space 0x200000 0x2000 0x3000 0x2000 0x3000 0x4000
unfolding page_map_indexer get_flag get_address
space-LacksTable = record {
  pdp = refl;
  to₁ = refl;
  pd = refl;
  to₂ = refl;
  missing = refl;
  aligned = rw next_page refl;
  itself = next_page-Leads;
  off_pdp = rw next_page (omega arith);
  off_pd = rw next_page (omega arith);
  off_pt = rw next_page (omega arith);
  off_pdp' = rw next_page (omega arith);
  off_pd' = rw next_page (omega arith);
  off_pt' = rw next_page (omega arith);
  from_pdp = rw next_page (omega arith);
  from_pd = rw next_page (omega arith);
  from_pt = rw next_page (omega arith);
}

map_memory-grows_example :
    (s' : Space) × (map_memory 2 0x200000 0x7000 true space ≡ some s')
    × (get_physical_address 0x200000 s' ≡ 0x7000 / 4096 % 2 ^ 40 * 4096 + 0x200000 % 4096)
    × (s'.pmm ≡ (request_page space.pmm).1)
    × Leads s'.memory s'.pml_4 0x200000 0x2000 0x3000 (request_page space.pmm).0
map_memory-grows_example =
    map_memory-grows 0 0x200000 0x7000 0x2000 0x3000 0x2000 0x3000 0x4000 true space
      space-LacksTable
