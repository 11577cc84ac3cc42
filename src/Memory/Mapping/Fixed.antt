-- ===== src/Memory/Mapping/Fixed.antt =====
-- The loop of `configure_memory` that is to map the heap maps one page of it.
use micron.Base.{ℕ, zero, suc, ◌≡◌, ◌∙◌, sym, refl, arith, false, Option, some, get_or}
use micron.Memory.Pmm.{Pmm, request_page}
use micron.Memory.Pmm.Fresh.{requests}
use micron.Memory.Paging.{Space, set_entry, map_memory, get_physical_address}
use micron.Memory.Paging.Walk.{pdp_slot, pd_slot, pt_slot, page_slot, HasTables}
use micron.Memory.Paging.Map.{
  mapped, update_ne, map_memory-mapped, EndsApart, Untouched, get_physical_address-mapped_other,
}
use micron.Memory.Mapping.{map_requested, map_heap, heap_address}
use micron.Memory.Mapping.Ranges.{
  IsMappable, IsMappable-mapped, IsMappable-pmm, frame, walk-mapped, same_pd, same_pt, same_page,
  get_physical_address-pmm, get_physical_address-after,
}

-- The range that is one address.
abbrev at : ℕ → ℕ → ℕ
at va i = va

IsMappable-at : (s : Space) (va : ℕ) → HasTables s va → EndsApart s va → IsMappable s (at va) 1
IsMappable-at s va t e = record {
  tables = λ i h. t;
  apart = λ i j hi hj. record { from_pdp = e.from_pdp; from_pd = e.from_pd; from_pt = e.from_pt };
}

module _ (s : Space) (va : ℕ) (g : IsMappable s (at va) 1) (pa : ℕ) where
  -- A walk that does not read the entry does not read it after the mapping either.
  Untouched-mapped : (other : ℕ) → Untouched s va other → Untouched (mapped va pa false s) va other
  unfolding set_entry
  Untouched-mapped other u = record {
    from_pdp = λ e. u.from_pdp (sym page ∙ e);
    from_pd = λ e. u.from_pd (sym page ∙ e ∙ same_pd s m other e₁ e₂ e₃);
    from_pt = λ e. u.from_pt (sym page ∙ e ∙ same_pt s m other e₁ e₂ e₃);
    from_page = λ e. u.from_page (sym page ∙ e ∙ same_page s m other e₁ e₂ e₃);
  }
    where
      m : ℕ → ℕ
      m = (mapped va pa false s).memory

      page : page_slot (mapped va pa false s) va ≡ page_slot s va
      page = (walk-mapped s (at va) 1 g 0 pa false (omega arith) 0 (omega arith)).page

      e₁ : m (pdp_slot s other) ≡ s.memory (pdp_slot s other)
      e₁ = update_ne s.memory (page_slot s va) _ (pdp_slot s other) u.from_pdp

      e₂ : m (pd_slot s other) ≡ s.memory (pd_slot s other)
      e₂ = update_ne s.memory (page_slot s va) _ (pd_slot s other) u.from_pd

      e₃ : m (pt_slot s other) ≡ s.memory (pt_slot s other)
      e₃ = update_ne s.memory (page_slot s va) _ (pt_slot s other) u.from_pt

-- What the rounds leave, the last of which maps the address to the last page.
record Remapped (s : Space) (va m : ℕ) (r : Option Space) : Type 0 where
  pub space : Space
  pub ends : r ≡ some space
  pub last : get_physical_address va space ≡ frame (get_or (requests (suc m) s.pmm) m 0) va
  pub others :
      (other : ℕ)
      → Untouched s va other
      → get_physical_address other space ≡ get_physical_address other s

Untouched-pmm :
    (s : Space) (pmm : Pmm) (va other : ℕ)
    → Untouched s va other
    → Untouched (record s { pmm = pmm }) va other
Untouched-pmm s pmm va other u = record {
  from_pdp = u.from_pdp;
  from_pd = u.from_pd;
  from_pt = u.from_pt;
  from_page = u.from_page;
}

-- One round.
module _ (s : Space) (va : ℕ) (g : IsMappable s (at va) 1) where
  abbrev new : ℕ
  new = (request_page s.pmm).0

  abbrev next : Space
  next = record s { pmm = (request_page s.pmm).1 }

  next-IsMappable : IsMappable next (at va) 1
  next-IsMappable = IsMappable-pmm s (request_page s.pmm).1 (at va) 1 g

  abbrev round : Space
  round = mapped va new false next

  round-IsMappable : IsMappable round (at va) 1
  round-IsMappable = IsMappable-mapped next (at va) 1 next-IsMappable 0 new false (omega arith)

  round_ends : (fuel : ℕ) → map_memory (suc fuel) va new false next ≡ some round
  round_ends fuel =
      map_memory-mapped fuel va new false next (next-IsMappable.tables 0 (omega arith))

  round_others :
      (other : ℕ)
      → Untouched s va other
      → get_physical_address other round ≡ get_physical_address other s
  round_others other u =
      get_physical_address-mapped_other next va new other false
        (Untouched-pmm s (request_page s.pmm).1 va other u)
      ∙ get_physical_address-pmm s (request_page s.pmm).1 other

  round-Untouched : (other : ℕ) → Untouched s va other → Untouched round va other
  round-Untouched other u =
      Untouched-mapped next va next-IsMappable new other
        (Untouched-pmm s (request_page s.pmm).1 va other u)

Remapped-suc :
    (s : Space) (va : ℕ) (g : IsMappable s (at va) 1) (m : ℕ) (r : Option Space)
    → Remapped (round s va g) va m r
    → Remapped s va (suc m) r
unfolding requests set_entry
Remapped-suc s va g m r rest = record {
  space = rest.space;
  ends = rest.ends;
  last = rest.last;
  others =
      λ other u. rest.others other (round-Untouched s va g other u) ∙ round_others s va g other u;
}

map_requested-Remapped :
    (fuel va m i : ℕ) (s : Space)
    → IsMappable s (at va) 1
    → Remapped s va m (map_requested (suc fuel) (at va) (suc m) i s)
unfolding map_requested requests set_entry
map_requested-Remapped fuel va zero i s g = rw (round_ends s va g fuel) (record {
  space = round s va g;
  ends = refl;
  last =
      get_physical_address-after (next s va g) (at va) 1 (next-IsMappable s va g) 0 (new s va g)
        false (omega arith);
  others = round_others s va g;
})
map_requested-Remapped fuel va (suc m) i s g = rw (round_ends s va g fuel) (
    Remapped-suc s va g m _
      (map_requested-Remapped fuel va m (suc i) (round s va g) (round-IsMappable s va g)))

-- With the tables of the heap's address there, and its last entry apart from those above it, the
-- loop ends with any fuel but 0, however many rounds it makes, one at least: its first page is
-- translated to the page that was requested last, and every address whose walk does not read that
-- page's entry, as those of the other pages of the heap, is translated as before.
pub map_heap-one_page :
    (fuel m : ℕ) (s : Space)
    → HasTables s heap_address
    → EndsApart s heap_address
    → (s' : Space) × (map_heap (suc fuel) (suc m) s ≡ some s')
      × (get_physical_address heap_address s'
          ≡ frame (get_or (requests (suc m) s.pmm) m 0) heap_address)
      × ((other : ℕ)
          → Untouched s heap_address other
          → get_physical_address other s' ≡ get_physical_address other s)
unfolding map_heap
map_heap-one_page fuel m s t e = (r.space, r.ends, r.last, r.others)
  where
    r : Remapped s heap_address m (map_requested (suc fuel) (at heap_address) (suc m) 0 s)
    r = map_requested-Remapped fuel heap_address m 0 s (IsMappable-at s heap_address t e)
