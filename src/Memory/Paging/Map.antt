-- ===== src/Memory/Paging/Map.antt =====
-- `map_memory` and `donate_to_userspace` on an address whose tables are there.
use micron.Base.{
  ℕ, suc, ◌+◌, ◌*◌, ◌/◌, ◌%◌, ◌^◌, ◌≡◌, ◌≢◌, refl, ap, ◌∙◌, arith, Bool, true, update, Option, some,
}
use micron.Memory.Paging.Entry.{present, get_flag, get_address}
use micron.Memory.Paging.Entry.Laws.{
  get_address-set_flag, get_flag-set_flag, get_address-set_address, get_address-set_pat,
  present-set_pat,
}
use micron.Memory.Paging.{
  Space, table_of, page_entry, set_entry, enter_table, map_memory, get_physical_address,
}
use micron.Memory.Paging.Walk.{
  pdp_slot, pd_slot, pt_slot, page_slot, HasTables, SameStep, get_physical_address-write,
  get_physical_address-SameStep,
}

pub enter_table-present :
    (identity : ℕ → Space → Option Space) (entry : ℕ) (s : Space)
    → get_flag (s.memory entry) present ≡ true
    → enter_table identity entry s ≡ some (table_of (s.memory entry), s)
unfolding enter_table
enter_table-present identity entry s h = rw h

-- The space after `map_memory`: one entry is written.
abbrev pub mapped : ℕ → ℕ → Bool → Space → Space
mapped va pa quickwrite s =
    set_entry (page_slot s va) (page_entry (s.memory (page_slot s va)) pa quickwrite) s

-- Where the tables of an address are there, `map_memory` calls itself for no table: with any fuel
-- it ends, and it writes the last entry of the walk and nothing else.
pub map_memory-mapped :
    (fuel va pa : ℕ) (quickwrite : Bool) (s : Space)
    → HasTables s va
    → map_memory (suc fuel) va pa quickwrite s ≡ some (mapped va pa quickwrite s)
unfolding map_memory
map_memory-mapped fuel va pa quickwrite s t = rw (enter_table-present _ (pdp_slot s va) s t.pdp) (
    rw (enter_table-present _ (pd_slot s va) s t.pd)
      (rw (enter_table-present _ (pt_slot s va) s t.pt) refl))

pub page_entry-present :
    (pde pa : ℕ) (quickwrite : Bool) → get_flag (page_entry pde pa quickwrite) present ≡ true
page_entry-present pde pa quickwrite = simp (present-set_pat, get_flag-set_flag)

pub page_entry-frame :
    (pde pa : ℕ) (quickwrite : Bool)
    → get_address (page_entry pde pa quickwrite) ≡ pa / 4096 % 2 ^ 40
page_entry-frame pde pa quickwrite =
    simp (get_address-set_pat, get_address-set_flag, get_address-set_address)

-- The entry that a walk ends in is none of those that lead to it.
pub record EndsApart (s : Space) (va : ℕ) : Type 0 where
  pub from_pdp : page_slot s va ≢ pdp_slot s va
  pub from_pd : page_slot s va ≢ pd_slot s va
  pub from_pt : page_slot s va ≢ pt_slot s va

-- The walk of `other` reads no entry that the mapping of `va` writes.
pub record Untouched (s : Space) (va other : ℕ) : Type 0 where
  pub from_pdp : page_slot s va ≢ pdp_slot s other
  pub from_pd : page_slot s va ≢ pd_slot s other
  pub from_pt : page_slot s va ≢ pt_slot s other
  pub from_page : page_slot s va ≢ page_slot s other

write-SameStep : (m : ℕ → ℕ) (entry value a : ℕ) → entry ≢ a → SameStep (update m entry value) m a
write-SameStep m entry value a ne = ground arith

-- Mapping a page leaves the translation of an address whose walk does not read the written entry.
pub get_physical_address-mapped_other :
    (s : Space) (va pa other : ℕ) (quickwrite : Bool)
    → Untouched s va other
    → get_physical_address other (mapped va pa quickwrite s) ≡ get_physical_address other s
unfolding set_entry
get_physical_address-mapped_other s va pa other quickwrite u =
    get_physical_address-SameStep s (update s.memory (page_slot s va) value) other
      (write-SameStep s.memory (page_slot s va) value (pdp_slot s other) u.from_pdp)
      (write-SameStep s.memory (page_slot s va) value (pd_slot s other) u.from_pd)
      (write-SameStep s.memory (page_slot s va) value (pt_slot s other) u.from_pt)
      (write-SameStep s.memory (page_slot s va) value (page_slot s other) u.from_page)
  where
    value : ℕ
    value = page_entry (s.memory (page_slot s va)) pa quickwrite

pub update_ne : (m : ℕ → ℕ) (entry value a : ℕ) → entry ≢ a → update m entry value a ≡ m a
update_ne m entry value a ne = ground arith

pub update_self : (m : ℕ → ℕ) (entry value : ℕ) → update m entry value entry ≡ value
update_self m entry value = ground arith

-- After `map_memory` an address is translated to the frame that it was mapped to, with its offset
-- in the page.
pub get_physical_address-mapped :
    (s : Space) (va pa : ℕ) (quickwrite : Bool)
    → HasTables s va
    → EndsApart s va
    → get_physical_address va (mapped va pa quickwrite s) ≡ pa / 4096 % 2 ^ 40 * 4096 + va % 4096
unfolding set_entry
get_physical_address-mapped s va pa quickwrite t e =
    get_physical_address-write s (update s.memory entry value) va value t
      (update_ne s.memory entry value _ e.from_pdp) (update_ne s.memory entry value _ e.from_pd)
      (update_ne s.memory entry value _ e.from_pt) (update_self s.memory entry value)
      (page_entry-present pde pa quickwrite)
    ∙ ap (λ f. f * 4096 + va % 4096) (page_entry-frame pde pa quickwrite)
  where
    entry : ℕ
    entry = page_slot s va

    pde : ℕ
    pde = s.memory entry

    value : ℕ
    value = page_entry pde pa quickwrite

-- With the tables of an address there, and its last entry apart from those above it, `map_memory`
-- ends with any fuel but 0; the address is then translated to the frame that it was mapped to, with
-- its offset in the page, and every address whose walk does not read that entry is translated as
-- before.
pub map_memory-translates :
    (fuel va pa : ℕ) (quickwrite : Bool) (s : Space)
    → HasTables s va
    → EndsApart s va
    → (s' : Space) × (map_memory (suc fuel) va pa quickwrite s ≡ some s')
      × (get_physical_address va s' ≡ pa / 4096 % 2 ^ 40 * 4096 + va % 4096)
      × ((other : ℕ)
          → Untouched s va other
          → get_physical_address other s' ≡ get_physical_address other s)
map_memory-translates fuel va pa quickwrite s t e = (
  mapped va pa quickwrite s,
  map_memory-mapped fuel va pa quickwrite s t,
  get_physical_address-mapped s va pa quickwrite t e,
  λ other u. get_physical_address-mapped_other s va pa other quickwrite u,
)
