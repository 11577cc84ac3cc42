-- ===== src/Memory/Paging.antt =====
-- kernel/src/memory/paging.cpp: the four-level page tables, kept in physical memory.
pub mod Entry
pub mod Walk
pub mod Map
pub mod Leads
pub mod Grow
use Entry.{
  PtFlag, present, read_write, user_super, get_flag, set_flag, get_address, set_address, set_pat,
}
use micron.Base.{
  ℕ, zero, suc, ◌+◌, ◌-◌, ◌*◌, ◌^◌, bit_and, bit_or, Bool, true, false, Option, none, some, ltb,
  leb, ◌&&◌, if◌then◌else◌, u16, u64, ◌<<<◌, ◌>>>◌, complement, update,
}
use micron.Memory.Pmm.{Pmm, request_page}

pub record PageMapIndexer : Type 0 where
  pub pdp_i : ℕ
  pub pd_i : ℕ
  pub pt_i : ℕ
  pub p_i : ℕ

-- The constructor of `page_map_indexer`.
unfoldable pub page_map_indexer : ℕ → PageMapIndexer
page_map_indexer virtual_address = record {
  p_i = bit_and (virtual_address >>> 12) 0x1ff;
  pt_i = bit_and (virtual_address >>> 12 >>> 9) 0x1ff;
  pd_i = bit_and (virtual_address >>> 12 >>> 9 >>> 9) 0x1ff;
  pdp_i = bit_and (virtual_address >>> 12 >>> 9 >>> 9 >>> 9) 0x1ff;
}

-- `memory` gives the 64-bit word at an address, and `pml_4` is the address of the top table. The
-- bitmap of the page allocator lies apart from the tables.
pub record Space : Type 0 where
  pub pmm : Pmm
  pub memory : ℕ → ℕ
  pub pml_4 : ℕ

-- `&table->entries[index]`
abbrev pub slot : ℕ → ℕ → ℕ
slot table index = table + 8 * index

-- `memset(page, 0, 0x1000)` on a page of words.
abbrev pub cleared : (ℕ → ℕ) → ℕ → ℕ → ℕ
cleared memory page a = if leb page a && ltb a (page + 0x1000) then 0 else memory a

-- The entry that points to a table: its address and two flags.
abbrev pub table_entry : ℕ → ℕ → ℕ
table_entry pde table =
    set_flag (set_flag (set_address pde (table >>> 12)) present true) read_write true

-- The entry of a mapped page.
abbrev pub page_entry : ℕ → ℕ → Bool → ℕ
page_entry pde physical_memory quickwrite =
    set_pat
      (set_flag (set_flag (set_address pde (physical_memory >>> 12)) present true) read_write true)
      (if quickwrite then 1 else 0)

-- The table that an entry points to.
abbrev pub table_of : ℕ → ℕ
table_of pde = get_address pde <<< 12

infixl 5 ◌>>=◌
abbrev ◌>>=◌ {ℓ κ} : {A : Type ℓ} {B : Type κ} → Option A → (A → Option B) → Option B
none >>= f = none
some a >>= f = f a

-- One level of the walk in `map_memory`: the table behind an entry. A table that is missing is
-- taken from the allocator, cleared, entered, and mapped itself by `identity`.
unfoldable pub enter_table : (identity : ℕ → Space → Option Space) → ℕ → Space → Option (ℕ × Space)
enter_table identity entry s =
    let pde = s.memory entry in
    if get_flag pde present
    then some (table_of pde, s)
    else (let (page, pmm) = request_page s.pmm in
        let memory = update (cleared s.memory page) entry (table_entry pde page) in
        do s ← identity page (record s { pmm = pmm; memory = memory }); some (page, s))

unfoldable pub set_entry : ℕ → ℕ → Space → Space
set_entry entry value s = record s { memory = update s.memory entry value }

-- The calls that map new tables nest; `fuel` bounds their depth, and `none` says that it ran out.
unfoldable pub map_memory : (fuel : ℕ) → ℕ → ℕ → Bool → Space → Option Space
map_memory zero virtual_memory physical_memory quickwrite s = none
map_memory (suc fuel) virtual_memory physical_memory quickwrite s = do
  let indexer = page_map_indexer virtual_memory
  let identity = λ (table : ℕ) (t : Space). map_memory fuel table table false t
  (pdp, s) ← enter_table identity (slot s.pml_4 indexer.pdp_i) s
  (pd, s) ← enter_table identity (slot pdp indexer.pd_i) s
  (pt, s) ← enter_table identity (slot pd indexer.pt_i) s
  let entry = slot pt indexer.p_i
  some (set_entry entry (page_entry (s.memory entry) physical_memory quickwrite) s)

-- `(void *)-1`
abbrev pub unmapped : ℕ
unmapped = 2 ^ 64 - 1

-- A level of the walk in `get_physical_address`.
abbrev pub follow : (ℕ → ℕ) → ℕ → (ℕ → ℕ) → ℕ
follow memory entry next =
    if get_flag (memory entry) present then next (table_of (memory entry)) else unmapped

unfoldable pub get_physical_address : ℕ → Space → ℕ
get_physical_address virtual_address s =
    let indexer = page_map_indexer virtual_address in
    let address_offset = bit_and (u16 virtual_address) 0xfff in
    follow s.memory (slot s.pml_4 indexer.pdp_i) λ pdp.
      follow s.memory (slot pdp indexer.pd_i) λ pd.
        follow s.memory (slot pd indexer.pt_i)
          λ pt. follow s.memory (slot pt indexer.p_i) λ page. bit_or page address_offset

abbrev set_user : ℕ → Space → Space
set_user entry s = set_entry entry (set_flag (s.memory entry) user_super true) s

unfoldable pub donate_to_userspace : ℕ → Space → Space
donate_to_userspace virtual_address s =
    let indexer = page_map_indexer virtual_address in
    let pdp_slot = slot s.pml_4 indexer.pdp_i in
    let pdp = table_of (s.memory pdp_slot) in
    let s₁ = set_user pdp_slot s in
    let pd_slot = slot pdp indexer.pd_i in
    let s₂ = set_user pd_slot s₁ in
    let pd = table_of (s₂.memory pd_slot) in
    let pt_slot = slot pd indexer.pt_i in
    let s₃ = set_user pt_slot s₂ in
    let pt = table_of (s₃.memory pt_slot) in set_user (slot pt indexer.p_i) s₃
