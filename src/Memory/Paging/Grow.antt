-- ===== src/Memory/Paging/Grow.antt =====
-- `map_memory` on an address whose last table is missing.
use micron.Base.{
  ℕ, suc, ◌+◌, ◌*◌, ◌/◌, ◌%◌, ◌^◌, ◌<◌, ◌≡◌, ◌≢◌, refl, ap, ◌∙◌, arith, Bool, true, false, update,
  some,
}
use micron.Bits.Fields.{bit_and_mask}
use micron.Memory.Pmm.{request_page}
use micron.Memory.Paging.Entry.{present, get_flag}
use micron.Memory.Paging.{
  Space, slot, cleared, page_map_indexer, table_of, table_entry, page_entry, set_entry, enter_table,
  map_memory, get_physical_address,
}
use micron.Memory.Paging.Map.{
  enter_table-present, page_entry-present, page_entry-frame, update_ne, update_self,
}
use micron.Memory.Paging.Leads.{
  Leads, Leads-same, get_physical_address-Leads, map_memory-Leads, IsOff, table_entry-present,
  table_entry-table,
}

-- The last table of an address is missing: the others are there, the page that the allocator answers
-- is an aligned one below 2 ^ 52 which the tables lead to already, none of the entries that the two
-- walks read is in that page, and the entry that maps the page is none of those of the address.
pub record LacksTable (s : Space) (va t₁ t₂ u₁ u₂ u₃ : ℕ) : Type 0 where
  pub pdp : get_flag (s.memory (slot s.pml_4 (page_map_indexer va).pdp_i)) present ≡ true
  pub to₁ : table_of (s.memory (slot s.pml_4 (page_map_indexer va).pdp_i)) ≡ t₁
  pub pd : get_flag (s.memory (slot t₁ (page_map_indexer va).pd_i)) present ≡ true
  pub to₂ : table_of (s.memory (slot t₁ (page_map_indexer va).pd_i)) ≡ t₂
  pub missing : get_flag (s.memory (slot t₂ (page_map_indexer va).pt_i)) present ≡ false
  pub aligned : (request_page s.pmm).0 / 4096 % 2 ^ 40 * 4096 ≡ (request_page s.pmm).0
  pub itself : Leads s.memory s.pml_4 (request_page s.pmm).0 u₁ u₂ u₃
  pub off_pdp : IsOff (request_page s.pmm).0 (slot s.pml_4 (page_map_indexer va).pdp_i)
  pub off_pd : IsOff (request_page s.pmm).0 (slot t₁ (page_map_indexer va).pd_i)
  pub off_pt : IsOff (request_page s.pmm).0 (slot t₂ (page_map_indexer va).pt_i)
  pub off_pdp' :
      IsOff (request_page s.pmm).0 (slot s.pml_4 (page_map_indexer (request_page s.pmm).0).pdp_i)
  pub off_pd' :
      IsOff (request_page s.pmm).0 (slot u₁ (page_map_indexer (request_page s.pmm).0).pd_i)
  pub off_pt' :
      IsOff (request_page s.pmm).0 (slot u₂ (page_map_indexer (request_page s.pmm).0).pt_i)
  pub from_pdp :
      slot u₃ (page_map_indexer (request_page s.pmm).0).p_i
      ≢ slot s.pml_4 (page_map_indexer va).pdp_i
  pub from_pd :
      slot u₃ (page_map_indexer (request_page s.pmm).0).p_i ≢ slot t₁ (page_map_indexer va).pd_i
  pub from_pt :
      slot u₃ (page_map_indexer (request_page s.pmm).0).p_i ≢ slot t₂ (page_map_indexer va).pt_i

-- Entries of which one is present and the other is not are apart.
present_apart :
    (m : ℕ → ℕ) (a b : ℕ) → get_flag (m a) present ≡ true → get_flag (m b) present ≡ false → b ≢ a
present_apart m a b p q e =
    let r : get_flag (m b) present ≡ get_flag (m a) present = ap (λ c. get_flag (m c) present) e in
    cc

-- The new table is entered in a cleared page.
entered-same :
    (m : ℕ → ℕ) (page entry value a : ℕ)
    → entry ≢ a
    → IsOff page a
    → update (cleared m page) entry value a ≡ m a
entered-same m page entry value a ne off = ground arith

module _ (s : Space) (va t₁ t₂ u₁ u₂ u₃ pa : ℕ) (quickwrite : Bool)
    (l : LacksTable s va t₁ t₂ u₁ u₂ u₃) where
  abbrev page : ℕ
  page = (request_page s.pmm).0

  abbrev missing_slot : ℕ
  missing_slot = slot t₂ (page_map_indexer va).pt_i

  -- The space with the table entered, and with the page of the table mapped.
  abbrev entered : Space
  entered = record s {
    pmm = (request_page s.pmm).1;
    memory = update (cleared s.memory page) missing_slot (table_entry (s.memory missing_slot) page);
  }

  abbrev page_slot' : ℕ
  page_slot' = slot u₃ (page_map_indexer page).p_i

  abbrev grown : Space
  grown = set_entry page_slot' (page_entry (entered.memory page_slot') page false) entered

  abbrev last_slot : ℕ
  last_slot = slot page (page_map_indexer va).p_i

  abbrev final : Space
  final = set_entry last_slot (page_entry (grown.memory last_slot) pa quickwrite) grown

  entered-Leads : Leads entered.memory s.pml_4 page u₁ u₂ u₃
  entered-Leads =
      Leads-same s.memory entered.memory s.pml_4 page u₁ u₂ u₃ l.itself
        (entered-same s.memory page missing_slot _ _
          (present_apart s.memory _ missing_slot l.itself.pdp l.missing) l.off_pdp')
        (entered-same s.memory page missing_slot _ _
          (present_apart s.memory _ missing_slot l.itself.pd l.missing) l.off_pd')
        (entered-same s.memory page missing_slot _ _
          (present_apart s.memory _ missing_slot l.itself.pt l.missing) l.off_pt')

  page_mapped : (fuel : ℕ) → map_memory (suc fuel) page page false entered ≡ some grown
  page_mapped fuel = map_memory-Leads fuel page page u₁ u₂ u₃ false entered entered-Leads

  index-lt : (page_map_indexer va).p_i < 512
  unfolding page_map_indexer
  index-lt = omega (arith, bit_and_mask 9 (va / 2 ^ 12))

  -- An entry outside the new table that the mapping of its page leaves.
  final-entered : (a : ℕ) → page_slot' ≢ a → IsOff page a → final.memory a ≡ entered.memory a
  unfolding set_entry
  final-entered a ne off =
      update_ne grown.memory last_slot _ a (omega (arith, index-lt))
      ∙ update_ne entered.memory page_slot' _ a ne

  final-same :
      (a : ℕ)
      → get_flag (s.memory a) present ≡ true
      → page_slot' ≢ a
      → IsOff page a
      → final.memory a ≡ s.memory a
  final-same a there ne off =
      final-entered a ne off
      ∙ entered-same s.memory page missing_slot _ a
          (present_apart s.memory a missing_slot there l.missing) off

  final-missing : final.memory missing_slot ≡ table_entry (s.memory missing_slot) page
  final-missing =
      final-entered missing_slot l.from_pt l.off_pt
      ∙ update_self (cleared s.memory page) missing_slot (table_entry (s.memory missing_slot) page)

  final-Leads : Leads final.memory s.pml_4 va t₁ t₂ page
  final-Leads = record {
    pdp = rw (final-same _ l.pdp l.from_pdp l.off_pdp) l.pdp;
    to₁ = rw (final-same _ l.pdp l.from_pdp l.off_pdp) l.to₁;
    pd = rw (final-same _ l.pd l.from_pd l.off_pd) l.pd;
    to₂ = rw (final-same _ l.pd l.from_pd l.off_pd) l.to₂;
    pt = rw final-missing (table_entry-present (s.memory missing_slot) page);
    to₃ = rw final-missing (table_entry-table (s.memory missing_slot) page l.aligned);
  }

  final-page : final.memory last_slot ≡ page_entry (grown.memory last_slot) pa quickwrite
  unfolding set_entry
  final-page =
      update_self grown.memory last_slot (page_entry (grown.memory last_slot) pa quickwrite)

  table_entered :
      (fuel : ℕ)
      → enter_table
          (λ (table : ℕ) (t : Space). map_memory (suc fuel) table table false t)
          missing_slot
          s
        ≡ some (page, grown)
  unfolding enter_table
  table_entered fuel = rw l.missing (rw (page_mapped fuel) refl)

  map_memory-final : (fuel : ℕ) → map_memory (suc (suc fuel)) va pa quickwrite s ≡ some final
  unfolding map_memory
  map_memory-final fuel =
      rw
        (enter_table-present (λ (table : ℕ) (t : Space). map_memory (suc fuel) table table false t)
          (slot s.pml_4 (page_map_indexer va).pdp_i) s l.pdp)
        (rw l.to₁ (
          rw
            (enter_table-present
              (λ (table : ℕ) (t : Space). map_memory (suc fuel) table table false t)
              (slot t₁ (page_map_indexer va).pd_i) s l.pd)
            (rw l.to₂ (rw (table_entered fuel) refl))))

-- Where the last table of an address is missing and the two above it are there, the page that the
-- allocator answers is aligned, below 2 ^ 52 and led to by tables that are there, no entry that the
-- two walks read is in that page, and the entry that maps it is none of the address's, `map_memory`
-- ends with two units of fuel: it takes that page for the table and no other, and the address is
-- then translated to the frame that it was mapped to, with its offset in the page.
pub map_memory-grows :
    (fuel va pa t₁ t₂ u₁ u₂ u₃ : ℕ) (quickwrite : Bool) (s : Space)
    → LacksTable s va t₁ t₂ u₁ u₂ u₃
    → (s' : Space) × (map_memory (suc (suc fuel)) va pa quickwrite s ≡ some s')
      × (get_physical_address va s' ≡ pa / 4096 % 2 ^ 40 * 4096 + va % 4096)
      × (s'.pmm ≡ (request_page s.pmm).1)
      × Leads s'.memory s'.pml_4 va t₁ t₂ (request_page s.pmm).0
unfolding set_entry
map_memory-grows fuel va pa t₁ t₂ u₁ u₂ u₃ quickwrite s l = (
  final s va t₁ t₂ u₁ u₂ u₃ pa quickwrite l,
  map_memory-final s va t₁ t₂ u₁ u₂ u₃ pa quickwrite l fuel,
  get_physical_address-Leads (final s va t₁ t₂ u₁ u₂ u₃ pa quickwrite l) va t₁ t₂
        (request_page s.pmm).0 leads (rw at_last (page_entry-present old pa quickwrite))
      ∙ ap (λ f. f * 4096 + va % 4096) (rw at_last (page_entry-frame old pa quickwrite)),
  refl,
  leads,
)
  where
    leads :
        Leads
          (final s va t₁ t₂ u₁ u₂ u₃ pa quickwrite l).memory
          s.pml_4
          va
          t₁
          t₂
          (request_page s.pmm).0
    leads = final-Leads s va t₁ t₂ u₁ u₂ u₃ pa quickwrite l

    last : ℕ
    last = last_slot s va t₁ t₂ u₁ u₂ u₃ pa quickwrite l

    old : ℕ
    old = (grown s va t₁ t₂ u₁ u₂ u₃ pa quickwrite l).memory last

    at_last : (final s va t₁ t₂ u₁ u₂ u₃ pa quickwrite l).memory last ≡ page_entry old pa quickwrite
    at_last = final-page s va t₁ t₂ u₁ u₂ u₃ pa quickwrite l
