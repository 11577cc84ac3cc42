-- ===== src/Memory/Paging/Leads.antt =====
-- The walk of an address whose tables are there, by the addresses of the tables.
use micron.Base.{
  ℕ, suc, ◌+◌, ◌*◌, ◌/◌, ◌%◌, ◌^◌, ◌≤◌, ◌<◌, ◌≡◌, ◌⊎◌, refl, ap, ◌∙◌, arith, Bool, true, false,
  some,
}
use micron.Memory.Paging.Entry.{present, get_flag, get_address}
use micron.Memory.Paging.Entry.Laws.{
  get_address-set_flag, get_flag-set_flag, get_address-set_address,
}
use micron.Memory.Paging.{
  Space, slot, page_map_indexer, table_of, table_entry, page_entry, set_entry, map_memory,
  get_physical_address,
}
use micron.Memory.Paging.Walk.{HasTables, get_physical_address-frame}
use micron.Memory.Paging.Map.{enter_table-present}

-- The walk of an address leads through the three tables, which are there.
pub record Leads (m : ℕ → ℕ) (pml_4 va t₁ t₂ t₃ : ℕ) : Type 0 where
  pub pdp : get_flag (m (slot pml_4 (page_map_indexer va).pdp_i)) present ≡ true
  pub to₁ : table_of (m (slot pml_4 (page_map_indexer va).pdp_i)) ≡ t₁
  pub pd : get_flag (m (slot t₁ (page_map_indexer va).pd_i)) present ≡ true
  pub to₂ : table_of (m (slot t₁ (page_map_indexer va).pd_i)) ≡ t₂
  pub pt : get_flag (m (slot t₂ (page_map_indexer va).pt_i)) present ≡ true
  pub to₃ : table_of (m (slot t₂ (page_map_indexer va).pt_i)) ≡ t₃

pub Leads-same :
    (m n : ℕ → ℕ) (pml_4 va t₁ t₂ t₃ : ℕ)
    → Leads m pml_4 va t₁ t₂ t₃
    → n (slot pml_4 (page_map_indexer va).pdp_i) ≡ m (slot pml_4 (page_map_indexer va).pdp_i)
    → n (slot t₁ (page_map_indexer va).pd_i) ≡ m (slot t₁ (page_map_indexer va).pd_i)
    → n (slot t₂ (page_map_indexer va).pt_i) ≡ m (slot t₂ (page_map_indexer va).pt_i)
    → Leads n pml_4 va t₁ t₂ t₃
Leads-same m n pml_4 va t₁ t₂ t₃ l e₁ e₂ e₃ = record {
  pdp = rw e₁ l.pdp;
  to₁ = rw e₁ l.to₁;
  pd = rw e₂ l.pd;
  to₂ = rw e₂ l.to₂;
  pt = rw e₃ l.pt;
  to₃ = rw e₃ l.to₃;
}

pub get_physical_address-Leads :
    (s : Space) (va t₁ t₂ t₃ : ℕ)
    → Leads s.memory s.pml_4 va t₁ t₂ t₃
    → get_flag (s.memory (slot t₃ (page_map_indexer va).p_i)) present ≡ true
    → get_physical_address va s
      ≡ get_address (s.memory (slot t₃ (page_map_indexer va).p_i)) * 4096 + va % 4096
get_physical_address-Leads s va t₁ t₂ t₃ l page =
    get_physical_address-frame s va tables (rw l.to₁ (rw l.to₂ (rw l.to₃ page)))
    ∙ ap (λ a. get_address (s.memory a) * 4096 + va % 4096) (rw l.to₁ (rw l.to₂ (rw l.to₃ refl)))
  where
    tables : HasTables s va
    tables = record { pdp = l.pdp; pd = rw l.to₁ l.pd; pt = rw l.to₁ (rw l.to₂ l.pt) }

pub map_memory-Leads :
    (fuel va pa t₁ t₂ t₃ : ℕ) (quickwrite : Bool) (s : Space)
    → Leads s.memory s.pml_4 va t₁ t₂ t₃
    → let entry = slot t₃ (page_map_indexer va).p_i in
      map_memory (suc fuel) va pa quickwrite s
      ≡ some (set_entry entry (page_entry (s.memory entry) pa quickwrite) s)
unfolding map_memory
map_memory-Leads fuel va pa t₁ t₂ t₃ quickwrite s l =
    rw
      (enter_table-present (λ (table : ℕ) (t : Space). map_memory fuel table table false t)
        (slot s.pml_4 (page_map_indexer va).pdp_i) s l.pdp)
      (rw l.to₁ (
        rw
          (enter_table-present (λ (table : ℕ) (t : Space). map_memory fuel table table false t)
            (slot t₁ (page_map_indexer va).pd_i) s l.pd)
          (rw l.to₂ (
            rw
              (enter_table-present (λ (table : ℕ) (t : Space). map_memory fuel table table false t)
                (slot t₂ (page_map_indexer va).pt_i) s l.pt)
              (rw l.to₃ refl)))))

-- The address is not in the page.
abbrev pub IsOff : (page a : ℕ) → Type 0
IsOff page a = (a < page) ⊎ (page + 0x1000 ≤ a)

pub table_entry-present : (pde table : ℕ) → get_flag (table_entry pde table) present ≡ true
table_entry-present pde table = simp get_flag-set_flag

pub table_entry-table :
    (pde table : ℕ)
    → table / 4096 % 2 ^ 40 * 4096 ≡ table
    → table_of (table_entry pde table) ≡ table
table_entry-table pde table aligned =
    let e : get_address (table_entry pde table) ≡ table / 4096 % 2 ^ 40 =
      simp (get_address-set_flag, get_address-set_address) in
    omega (arith, e)
