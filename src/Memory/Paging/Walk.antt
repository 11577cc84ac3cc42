-- ===== src/Memory/Paging/Walk.antt =====
-- The walk through the tables, and what leaves every translation as it was.
use micron.Base.{
  ℕ, ◌+◌, ◌*◌, ◌/◌, ◌%◌, ◌^◌, ◌<◌, ◌≡◌, refl, arith, bit_and, bit_or, true, u16, update,
}
use micron.Bits.Fields.{bit_and_mask, bit_or_fields}
use micron.Memory.Paging.Entry.{present, user_super, get_flag, set_flag, get_address}
use micron.Memory.Paging.Entry.Laws.{get_address-set_flag, get_flag-set_flag}
use micron.Memory.Paging.{
  Space, slot, page_map_indexer, table_of, follow, set_entry, get_physical_address,
  donate_to_userspace,
}

-- The entries that the walk of an address reads, top level first.
module _ (s : Space) (va : ℕ) where
  abbrev pub pdp_slot : ℕ
  pdp_slot = slot s.pml_4 (page_map_indexer va).pdp_i

  abbrev pub pd_slot : ℕ
  pd_slot = slot (table_of (s.memory pdp_slot)) (page_map_indexer va).pd_i

  abbrev pub pt_slot : ℕ
  pt_slot = slot (table_of (s.memory pd_slot)) (page_map_indexer va).pt_i

  abbrev pub page_slot : ℕ
  page_slot = slot (table_of (s.memory pt_slot)) (page_map_indexer va).p_i

-- The four indices of an address below 2 ^ 48 and its offset are the address's base-512 digits and
-- its rest by a page.
page_map_indexer-digits :
    (va : ℕ)
    → va < 2 ^ 48
    → let i = page_map_indexer va in
      va ≡ (((i.pdp_i * 512 + i.pd_i) * 512 + i.pt_i) * 512 + i.p_i) * 4096 + va % 4096
unfolding page_map_indexer
page_map_indexer-digits va h = omega (
  arith,
  bit_and_mask 9 (va / 2 ^ 12),
  bit_and_mask 9 (va / 2 ^ 12 / 2 ^ 9),
  bit_and_mask 9 (va / 2 ^ 12 / 2 ^ 9 / 2 ^ 9),
  bit_and_mask 9 (va / 2 ^ 12 / 2 ^ 9 / 2 ^ 9 / 2 ^ 9),
)

offset-mod : (va : ℕ) → bit_and (u16 va) 0xfff ≡ va % 4096
offset-mod va = omega (arith, bit_and_mask 12 (u16 va))

-- The tables of the three upper levels are there.
pub record HasTables (s : Space) (va : ℕ) : Type 0 where
  pub pdp : get_flag (s.memory (pdp_slot s va)) present ≡ true
  pub pd : get_flag (s.memory (pd_slot s va)) present ≡ true
  pub pt : get_flag (s.memory (pt_slot s va)) present ≡ true

-- With the tables there and the page present, an address is translated to its frame and offset.
pub get_physical_address-frame :
    (s : Space) (va : ℕ)
    → HasTables s va
    → get_flag (s.memory (page_slot s va)) present ≡ true
    → get_physical_address va s ≡ get_address (s.memory (page_slot s va)) * 4096 + va % 4096
unfolding get_physical_address
get_physical_address-frame s va t page = ground (
  arith,
  t.pdp,
  t.pd,
  t.pt,
  offset-mod va,
  bit_or_fields 12 (get_address (s.memory (page_slot s va))) (bit_and (u16 va) 0xfff),
)

-- So too in a memory `m` that agrees with `s` on the way to the last entry, which holds `value`.
pub get_physical_address-write :
    (s : Space) (m : ℕ → ℕ) (va value : ℕ)
    → HasTables s va
    → m (pdp_slot s va) ≡ s.memory (pdp_slot s va)
    → m (pd_slot s va) ≡ s.memory (pd_slot s va)
    → m (pt_slot s va) ≡ s.memory (pt_slot s va)
    → m (page_slot s va) ≡ value
    → get_flag value present ≡ true
    → get_physical_address va (record s { memory = m }) ≡ get_address value * 4096 + va % 4096
unfolding get_physical_address
get_physical_address-write s m va value t e₁ e₂ e₃ e₄ there =
    ground (arith, offset-mod va, bit_or_fields 12 (get_address value) (bit_and (u16 va) 0xfff))

follow_cong :
    (m n : ℕ → ℕ) (entry : ℕ) (f g : ℕ → ℕ)
    → get_flag (m entry) present ≡ get_flag (n entry) present
    → get_address (m entry) ≡ get_address (n entry)
    → f (table_of (n entry)) ≡ g (table_of (n entry))
    → follow m entry f ≡ follow n entry g
follow_cong m n entry f g p e h = ground arith

-- The entry at `a` leads the walk the same way in both memories.
pub record SameStep (m n : ℕ → ℕ) (a : ℕ) : Type 0 where
  pub presence : get_flag (m a) present ≡ get_flag (n a) present
  pub frame : get_address (m a) ≡ get_address (n a)

abbrev at_page : ℕ → ℕ → ℕ
at_page va page = bit_or page (bit_and (u16 va) 0xfff)

-- What `get_physical_address` does behind each level.
module _ (m : ℕ → ℕ) (va : ℕ) where
  abbrev at_pt : ℕ → ℕ
  at_pt pt = follow m (slot pt (page_map_indexer va).p_i) (at_page va)

  abbrev at_pd : ℕ → ℕ
  at_pd pd = follow m (slot pd (page_map_indexer va).pt_i) at_pt

  abbrev at_pdp : ℕ → ℕ
  at_pdp pdp = follow m (slot pdp (page_map_indexer va).pd_i) at_pd

-- A change of memory that keeps the steps of a walk keeps the translation.
pub get_physical_address-SameStep :
    (s : Space) (m : ℕ → ℕ) (va : ℕ)
    → SameStep m s.memory (pdp_slot s va)
    → SameStep m s.memory (pd_slot s va)
    → SameStep m s.memory (pt_slot s va)
    → SameStep m s.memory (page_slot s va)
    → get_physical_address va (record s { memory = m }) ≡ get_physical_address va s
unfolding get_physical_address
get_physical_address-SameStep s m va e₁ e₂ e₃ e₄ =
    follow_cong m s.memory (pdp_slot s va) (at_pdp m va) (at_pdp s.memory va) e₁.presence e₁.frame (
      follow_cong m s.memory (pd_slot s va) (at_pd m va) (at_pd s.memory va) e₂.presence e₂.frame (
        follow_cong m s.memory (pt_slot s va) (at_pt m va) (at_pt s.memory va) e₃.presence e₃.frame
          (follow_cong m s.memory (page_slot s va) (at_page va) (at_page va) e₄.presence e₄.frame
            refl)))

-- The memory after `user_super` is set in an entry.
abbrev with_user : (ℕ → ℕ) → ℕ → ℕ → ℕ
with_user m entry = update m entry (set_flag (m entry) user_super true)

with_user-SameStep : (m n : ℕ → ℕ) (entry a : ℕ) → SameStep m n a → SameStep (with_user m entry) n a
with_user-SameStep m n entry a e = ground (
  arith,
  get_flag-set_flag (m entry) user_super present true,
  get_address-set_flag (m entry) user_super true,
)

SameStep-self : (m : ℕ → ℕ) (a : ℕ) → SameStep m m a
SameStep-self m a = record { presence = refl; frame = refl }

-- The entries that `donate_to_userspace` marks, in order, with the memory that each is read from.
module _ (s : Space) (va : ℕ) where
  abbrev user₁ : ℕ → ℕ
  user₁ = with_user s.memory (pdp_slot s va)

  abbrev user₂ : ℕ → ℕ
  user₂ = with_user user₁ (pd_slot s va)

  abbrev pt_slot' : ℕ
  pt_slot' = slot (table_of (user₂ (pd_slot s va))) (page_map_indexer va).pt_i

  abbrev user₃ : ℕ → ℕ
  user₃ = with_user user₂ pt_slot'

  abbrev page_slot' : ℕ
  page_slot' = slot (table_of (user₃ pt_slot')) (page_map_indexer va).p_i

  user_SameStep : (a : ℕ) → SameStep (with_user user₃ page_slot') s.memory a
  user_SameStep a = with_user-SameStep user₃ s.memory page_slot' a (
      with_user-SameStep user₂ s.memory pt_slot' a (
        with_user-SameStep user₁ s.memory (pd_slot s va) a
          (with_user-SameStep s.memory s.memory (pdp_slot s va) a (SameStep-self s.memory a))))

-- Giving a page to userspace changes no translation: neither of its address nor of any other.
pub get_physical_address-donate_to_userspace :
    (s : Space) (va other : ℕ)
    → get_physical_address other (donate_to_userspace va s) ≡ get_physical_address other s
unfolding donate_to_userspace set_entry
get_physical_address-donate_to_userspace s va other =
    get_physical_address-SameStep s (with_user (user₃ s va) (page_slot' s va)) other
      (user_SameStep s va _) (user_SameStep s va _) (user_SameStep s va _) (user_SameStep s va _)
