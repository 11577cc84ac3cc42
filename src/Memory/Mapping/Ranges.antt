-- ===== src/Memory/Mapping/Ranges.antt =====
-- A range of addresses whose tables are there, and pages mapped at them one after the other.
use mathlib.Core.Path.{subst}
use micron.Base.{
  ℕ, zero, suc, ◌+◌, ◌-◌, ◌*◌, ◌/◌, ◌%◌, ◌^◌, ◌≤◌, ◌<◌, ◌≡◌, ◌≢◌, ◌∙◌, sym, refl, ap, ap₂, arith,
  Bool, false, Option, some, leb, u64, get_or, ◌>>=◌, >>=-assoc,
}
use micron.Memory.Pmm.{Pmm, request_loop, request_page}
use micron.Memory.Pmm.Fresh.{requests}
use micron.Memory.Paging.{
  Space, slot, page_map_indexer, set_entry, table_of, map_memory, get_physical_address,
}
use micron.Memory.Paging.Entry.{present, get_flag}
use micron.Memory.Paging.Walk.{pdp_slot, pd_slot, pt_slot, page_slot, HasTables}
use micron.Memory.Paging.Map.{
  update_ne, mapped, map_memory-mapped, get_physical_address-mapped,
  get_physical_address-mapped_other,
}
use micron.Memory.Mapping.{map_requested, request_pages, page_from}

-- The last entry of one walk leads no other walk on.
pub record Apart (s : Space) (va vb : ℕ) : Type 0 where
  pub from_pdp : page_slot s va ≢ pdp_slot s vb
  pub from_pd : page_slot s va ≢ pd_slot s vb
  pub from_pt : page_slot s va ≢ pt_slot s vb

-- The addresses have their tables, which none of their last entries lies in.
pub record IsMappable (s : Space) (address : ℕ → ℕ) (n : ℕ) : Type 0 where
  pub tables : (i : ℕ) → i < n → HasTables s (address i)
  pub apart : (i j : ℕ) → i < n → j < n → Apart s (address i) (address j)

-- No two of the addresses have the same last entry.
abbrev pub Distinct : Space → (ℕ → ℕ) → ℕ → Type 0
Distinct s address n =
    (i j : ℕ) → i < n → j < n → i ≢ j → page_slot s (address i) ≢ page_slot s (address j)

-- The frame of a page, with the offset of an address.
abbrev pub frame : (page va : ℕ) → ℕ
frame page va = page / 4096 % 2 ^ 40 * 4096 + va % 4096

-- A memory that agrees with that of a space on the upper entries of a walk leads it the same way.
module _ (s : Space) (m : ℕ → ℕ) (vb : ℕ) (at_pdp : m (pdp_slot s vb) ≡ s.memory (pdp_slot s vb))
    (at_pd : m (pd_slot s vb) ≡ s.memory (pd_slot s vb))
    (at_pt : m (pt_slot s vb) ≡ s.memory (pt_slot s vb)) where
  abbrev pub other : Space
  other = record s { memory = m }

  pub same_pd : pd_slot other vb ≡ pd_slot s vb
  same_pd = ap (λ (e : ℕ). slot (table_of e) (page_map_indexer vb).pd_i) at_pdp

  pub same_pt : pt_slot other vb ≡ pt_slot s vb
  same_pt =
      ap (λ (a : ℕ). slot (table_of (m a)) (page_map_indexer vb).pt_i) same_pd
      ∙ ap (λ (e : ℕ). slot (table_of e) (page_map_indexer vb).pt_i) at_pd

  pub same_page : page_slot other vb ≡ page_slot s vb
  same_page =
      ap (λ (a : ℕ). slot (table_of (m a)) (page_map_indexer vb).p_i) same_pt
      ∙ ap (λ (e : ℕ). slot (table_of e) (page_map_indexer vb).p_i) at_pt

  pub same_tables : HasTables s vb → HasTables other vb
  same_tables t = record {
    pdp = ap (λ e. get_flag e present) at_pdp ∙ t.pdp;
    pd = ap (λ a. get_flag (m a) present) same_pd ∙ ap (λ e. get_flag e present) at_pd ∙ t.pd;
    pt = ap (λ a. get_flag (m a) present) same_pt ∙ ap (λ e. get_flag e present) at_pt ∙ t.pt;
  }

-- The walks of a mappable range stay as they are while its pages are mapped.
module _ (s : Space) (address : ℕ → ℕ) (n : ℕ) (g : IsMappable s address n) (i pa : ℕ)
    (quickwrite : Bool) (below : i < n) where
  abbrev pub after : Space
  after = mapped (address i) pa quickwrite s

  pub kept : (a : ℕ) → page_slot s (address i) ≢ a → after.memory a ≡ s.memory a
  unfolding set_entry
  kept a ne = update_ne s.memory (page_slot s (address i)) _ a ne

  -- The slots of another address of the range, after the mapping.
  pub record SameWalk (j : ℕ) : Type 0 where
    pub pd : pd_slot after (address j) ≡ pd_slot s (address j)
    pub pt : pt_slot after (address j) ≡ pt_slot s (address j)
    pub page : page_slot after (address j) ≡ page_slot s (address j)
    pub tables : HasTables after (address j)

  pub walk-mapped : (j : ℕ) → j < n → SameWalk j
  unfolding set_entry
  walk-mapped j h = record {
    pd = same_pd s after.memory (address j) e₁ e₂ e₃;
    pt = same_pt s after.memory (address j) e₁ e₂ e₃;
    page = same_page s after.memory (address j) e₁ e₂ e₃;
    tables = same_tables s after.memory (address j) e₁ e₂ e₃ (g.tables j h);
  }
    where
      a : Apart s (address i) (address j)
      a = g.apart i j below h

      e₁ : after.memory (pdp_slot s (address j)) ≡ s.memory (pdp_slot s (address j))
      e₁ = kept (pdp_slot s (address j)) a.from_pdp

      e₂ : after.memory (pd_slot s (address j)) ≡ s.memory (pd_slot s (address j))
      e₂ = kept (pd_slot s (address j)) a.from_pd

      e₃ : after.memory (pt_slot s (address j)) ≡ s.memory (pt_slot s (address j))
      e₃ = kept (pt_slot s (address j)) a.from_pt

  Apart-mapped : (j k : ℕ) → j < n → k < n → Apart after (address j) (address k)
  unfolding set_entry
  Apart-mapped j k hj hk = record {
    from_pdp = λ e. (g.apart j k hj hk).from_pdp (sym wj.page ∙ e);
    from_pd = λ e. (g.apart j k hj hk).from_pd (sym wj.page ∙ e ∙ wk.pd);
    from_pt = λ e. (g.apart j k hj hk).from_pt (sym wj.page ∙ e ∙ wk.pt);
  }
    where
      wj : SameWalk j
      wj = walk-mapped j hj

      wk : SameWalk k
      wk = walk-mapped k hk

  pub IsMappable-mapped : IsMappable after address n
  IsMappable-mapped = record { tables = λ j h. (walk-mapped j h).tables; apart = Apart-mapped }

  pub Distinct-mapped : Distinct s address n → Distinct after address n
  Distinct-mapped d j k hj hk ne =
      λ e. d j k hj hk ne (sym (walk-mapped j hj).page ∙ e ∙ (walk-mapped k hk).page)

  -- The address is translated to the page.
  pub get_physical_address-after : get_physical_address (address i) after ≡ frame pa (address i)
  get_physical_address-after =
      get_physical_address-mapped s (address i) pa quickwrite (g.tables i below)
        (record { from_pdp = a.from_pdp; from_pd = a.from_pd; from_pt = a.from_pt })
    where
      a : Apart s (address i) (address i)
      a = g.apart i i below below

  -- The others are translated as before.
  pub get_physical_address-after_other :
      Distinct s address n
      → (j : ℕ) → j < n
      → i ≢ j
      → get_physical_address (address j) after ≡ get_physical_address (address j) s
  get_physical_address-after_other d j h ne =
      get_physical_address-mapped_other s (address i) pa (address j) quickwrite (record {
        from_pdp = (g.apart i j below h).from_pdp;
        from_pd = (g.apart i j below h).from_pd;
        from_pt = (g.apart i j below h).from_pt;
        from_page = d i j below h ne;
      })

-- What the loop leaves behind, for `left` rounds from `i` on.
pub record Mapped (s : Space) (address : ℕ → ℕ) (left i : ℕ) (r : Option Space) : Type 0 where
  pub space : Space
  pub ends : r ≡ some space
  pub translated :
      (k : ℕ)
      → k < left
      → get_physical_address (address (i + k)) space
        ≡ frame (get_or (requests left s.pmm) k 0) (address (i + k))
  pub kept :
      (j : ℕ) → j < i → get_physical_address (address j) space ≡ get_physical_address (address j) s

-- The allocator's state plays no part.
pub IsMappable-pmm :
    (s : Space) (pmm : Pmm) (address : ℕ → ℕ) (n : ℕ)
    → IsMappable s address n
    → IsMappable (record s { pmm = pmm }) address n
IsMappable-pmm s pmm address n g = record {
  tables =
      λ i h. record { pdp = (g.tables i h).pdp; pd = (g.tables i h).pd; pt = (g.tables i h).pt };
  apart = λ i j hi hj. record {
    from_pdp = (g.apart i j hi hj).from_pdp;
    from_pd = (g.apart i j hi hj).from_pd;
    from_pt = (g.apart i j hi hj).from_pt;
  };
}

pub get_physical_address-pmm :
    (s : Space) (pmm : Pmm) (va : ℕ)
    → get_physical_address va (record s { pmm = pmm }) ≡ get_physical_address va s
unfolding get_physical_address
get_physical_address-pmm s pmm va = refl

plus_zero : (i : ℕ) → i ≡ i + 0
plus_zero i = omega arith

plus_suc : (i k : ℕ) → suc i + k ≡ i + suc k
plus_suc i k = omega arith

-- The first round of the loop, and what the later ones make of it.
module _ (address : ℕ → ℕ) (n left i : ℕ) (s : Space) (below : i < n) (g : IsMappable s address n)
    (d : Distinct s address n) where
  abbrev page : ℕ
  page = (request_page s.pmm).0

  abbrev next : Space
  next = record s { pmm = (request_page s.pmm).1 }

  next-IsMappable : IsMappable next address n
  next-IsMappable = IsMappable-pmm s (request_page s.pmm).1 address n g

  Mapped-suc :
      (r : Option Space)
      → i + suc left ≡ n
      → Mapped (mapped (address i) page false next) address left (suc i) r
      → Mapped s address (suc left) i r
  unfolding requests set_entry
  Mapped-suc r e rest = record {
    space = rest.space;
    ends = rest.ends;
    translated = places;
    kept = λ j h.
        rest.kept j (omega arith)
        ∙ get_physical_address-after_other next address n next-IsMappable i page false below d j
            (omega arith) (omega arith)
        ∙ get_physical_address-pmm s (request_page s.pmm).1 (address j);
  }
    where
      places :
          (k : ℕ)
          → k < suc left
          → get_physical_address (address (i + k)) rest.space
            ≡ frame (get_or (requests (suc left) s.pmm) k 0) (address (i + k))
      places zero h =
          subst (λ (j : ℕ). get_physical_address (address j) rest.space ≡ frame page (address j))
            (plus_zero i)
            (rest.kept i (omega arith)
              ∙ get_physical_address-after next address n next-IsMappable i page false below)
      places (suc k) h =
          subst
            (λ (j : ℕ).
              get_physical_address (address j) rest.space
              ≡ frame (get_or (requests left (request_page s.pmm).1) k 0) (address j))
            (plus_suc i k) (rest.translated k (omega arith))

module _ (fuel : ℕ) (address : ℕ → ℕ) (n : ℕ) where
  map_requested-Mapped :
      (left i : ℕ) (s : Space)
      → i + left ≡ n
      → IsMappable s address n
      → Distinct s address n
      → Mapped s address left i (map_requested (suc fuel) address left i s)
  unfolding map_requested requests
  map_requested-Mapped zero i s e g d = record {
    space = s;
    ends = refl;
    translated = λ k h. absurd (omega arith);
    kept = λ j h. refl;
  }
  map_requested-Mapped (suc left) i s e g d =
      rw (map_memory-mapped fuel (address i) new false t (g'.tables i below)) (
        Mapped-suc address n left i s below g d _ e (
          map_requested-Mapped left (suc i) (mapped (address i) new false t) (omega arith)
            (IsMappable-mapped t address n g' i new false below)
            (Distinct-mapped t address n g' i new false below d)))
    where
      below : i < n
      below = omega arith

      new : ℕ
      new = (request_page s.pmm).0

      t : Space
      t = record s { pmm = (request_page s.pmm).1 }

      g' : IsMappable t address n
      g' = IsMappable-pmm s (request_page s.pmm).1 address n g

pub request_loop-lt : (left index : ℕ) (s : Pmm) → (request_loop left index s).0 < 2 ^ 64
unfolding request_loop
request_loop-lt zero index s = omega arith
request_loop-lt (suc left) index s = ground (arith, request_loop-lt left (index + 1) s)

page_from-zero : (s : Pmm) → page_from (request_page s).0 0 ≡ (request_page s).0
unfolding request_page
page_from-zero s = omega (arith, request_loop-lt (u64 (s.page_bitmap_map.size * 8)) 0 s)

request_pages-map_requested :
    (fuel page_count : ℕ) (s : Space)
    → 2 ≤ page_count
    → request_pages fuel page_count s ≡ (
        map_requested fuel (page_from (request_page s.pmm).0) page_count 0 s >>= λ u.
        some ((request_page s.pmm).0, u))
unfolding request_pages map_requested
request_pages-map_requested fuel zero s h = absurd (omega arith)
request_pages-map_requested fuel (suc zero) s h = absurd (omega arith)
request_pages-map_requested fuel (suc (suc c)) s h = rw (several c) (
    ap₂
      (λ (va n : ℕ). map_memory fuel va start false next >>= λ t.
        map_requested fuel (page_from start) n 1 t >>= λ u. some (start, u))
      (sym (page_from-zero s.pmm)) (one_less c)
    ∙ sym (>>=-assoc (map_memory fuel (page_from start 0) start false next) _ _))
  where
    start : ℕ
    start = (request_page s.pmm).0

    next : Space
    next = record s { pmm = (request_page s.pmm).1 }

    several : (c : ℕ) → leb (suc (suc c)) 1 ≡ false
    several c = ground arith

    one_less : (c : ℕ) → suc (suc c) - 1 ≡ suc c
    one_less c = omega arith

zero_plus : (i : ℕ) → 0 + i ≡ i
zero_plus i = omega arith

-- Two pages or more are requested from a space in which the addresses from the first page on have
-- their tables, no last entry of theirs is an upper entry of one of them, and no two share a last
-- entry: with any fuel but 0 `request_pages` ends and answers the first page, and the address `i`
-- pages behind it is translated to the page that the `i`-th request of the allocator answers.
pub request_pages-translates :
    (fuel page_count : ℕ) (s : Space)
    → 2 ≤ page_count
    → IsMappable s (page_from (request_page s.pmm).0) page_count
    → Distinct s (page_from (request_page s.pmm).0) page_count
    → let start = (request_page s.pmm).0 in
      (s' : Space) × (request_pages (suc fuel) page_count s ≡ some (start, s'))
      × ((i : ℕ)
          → i < page_count
          → get_physical_address (page_from start i) s'
            ≡ frame (get_or (requests page_count s.pmm) i 0) (page_from start i))
request_pages-translates fuel page_count s h g d = (
  m.space,
  request_pages-map_requested (suc fuel) page_count s h
      ∙ ap (λ r. r >>= λ u. some (start, u)) m.ends,
  λ i below.
      subst
        (λ (j : ℕ).
          get_physical_address (page_from start j) m.space
          ≡ frame (get_or (requests page_count s.pmm) i 0) (page_from start j))
        (zero_plus i) (m.translated i below),
)
  where
    start : ℕ
    start = (request_page s.pmm).0

    m :
        Mapped s
          (page_from start)
          page_count
          0
          (map_requested (suc fuel) (page_from start) page_count 0 s)
    m = map_requested-Mapped fuel (page_from start) page_count page_count 0 s (omega arith) g d
