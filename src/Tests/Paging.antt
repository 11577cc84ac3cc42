-- ===== src/Tests/Paging.antt =====
-- Paging, with the four tables of the lowest addresses in place.
use micron.Base.{ℕ, ◌+◌, ◌*◌, ◌/◌, ◌%◌, ◌^◌, ◌≡◌, refl, arith, true, false, some, update}
use micron.Memory.Paging.{Space, page_map_indexer, map_memory, get_physical_address}
use micron.Memory.Paging.Entry.{get_flag, get_address}
use micron.Memory.Paging.Walk.{HasTables}
use micron.Memory.Paging.Map.{EndsApart, Untouched, map_memory-translates}

abbrev space : Space
space = record {
  pmm = record {
    free_memory_size = 0;
    used_memory_size = 0;
    total_memory_size = 0;
    reserved_memory_size = 0;
    page_bitmap_map = record { size = 0; address = 0; buffer = λ i. 0 };
    initialized = true;
    memory_size_bytes = 0;
  };
  memory = update (update (update (λ i. 0) 0x1000 0x2003) 0x2000 0x3003) 0x3000 0x4003;
  pml_4 = 0x1000;
}

space-HasTables : HasTables space 0x5123
unfolding get_flag get_address page_map_indexer
space-HasTables = record { pdp = refl; pd = refl; pt = refl }

space-EndsApart : EndsApart space 0x5123
unfolding get_flag get_address page_map_indexer
space-EndsApart = record { from_pdp = omega arith; from_pd = omega arith; from_pt = omega arith }

map_memory-translates_example :
    (s' : Space) × (map_memory 1 0x5123 0x9000 false space ≡ some s')
    × (get_physical_address 0x5123 s' ≡ 0x9000 / 4096 % 2 ^ 40 * 4096 + 0x5123 % 4096)
    × ((other : ℕ)
        → Untouched space 0x5123 other
        → get_physical_address other s' ≡ get_physical_address other space)
map_memory-translates_example =
    map_memory-translates 0 0x5123 0x9000 false space space-HasTables space-EndsApart
