-- ===== src/Cpu/Tss/Stacks.antt =====
-- The stacks of interrupts, and the page of a system call.
use micron.Base.{
  ℕ, zero, suc, ◌+◌, ◌-◌, ◌*◌, ◌^◌, ◌<◌, ◌≡◌, ◌≢◌, ◌⊎◌, ◌∙◌, refl, ap, arith, false, some, [], ◌∷◌,
  get_or, u64, update,
}
use micron.Memory.Pmm.{Pmm, request_page}
use micron.Memory.Pmm.Request.{Allocated, IsTaken, IsSmall, request_page-Allocated}
use micron.Memory.Pmm.Accounts.{page_limit}
use micron.Memory.Pmm.Fresh.{requests}
use micron.Memory.Paging.{Space, set_entry, map_memory, get_physical_address, donate_to_userspace}
use micron.Memory.Paging.Walk.{get_physical_address-donate_to_userspace}
use micron.Memory.Paging.Map.{mapped, map_memory-mapped}
use micron.Memory.Mapping.Ranges.{
  IsMappable, Distinct, frame, IsMappable-mapped, Distinct-mapped, IsMappable-pmm,
  get_physical_address-after, get_physical_address-after_other, get_physical_address-pmm,
  request_loop-lt,
}
use micron.Cpu.Gdt.Layout.{HoldsTss, gdt_install_tss-HoldsTss}
use micron.Cpu.Tss.{Tasks, tss_size, stack_top, map_stack, tss_install, sys_allocate_page}

request_page-lt : (s : Pmm) → (request_page s).0 < 2 ^ 64
unfolding request_page
request_page-lt s = request_loop-lt (u64 (s.page_bitmap_map.size * 8)) 0 s

map_stack-page :
    (fuel page : ℕ) (s : Space)
    → page < 2 ^ 64
    → map_stack fuel (stack_top page) s ≡ map_memory fuel page page false s
unfolding map_stack
map_stack-page fuel page s small = ap (λ (p : ℕ). map_memory fuel p p false s) (below page small)
  where
    below : (p : ℕ) → p < 2 ^ 64 → u64 (u64 (p + 0x1000) + 2 ^ 64 - 0x1000) ≡ p
    below p h = omega arith

-- The pages of the stacks, by their numbers in the segment.
abbrev pub stack_page : Tasks → ℕ → ℕ
stack_page t i = get_or (requests 3 t.space.pmm) i 0

module _ (t : Tasks) (g : IsMappable t.space (stack_page t) 3)
    (d : Distinct t.space (stack_page t) 3) where
  abbrev p₀ : Pmm
  p₀ = t.space.pmm

  abbrev p₁ : Pmm
  p₁ = (request_page p₀).1

  abbrev p₂ : Pmm
  p₂ = (request_page p₁).1

  abbrev s₀ : Space
  s₀ = record (t.space) { pmm = (request_page p₂).1 }

  abbrev address : ℕ → ℕ
  address = stack_page t

  -- The page tables after each of the three mappings.
  abbrev s₁ : Space
  s₁ = mapped (address 0) (address 0) false s₀

  abbrev s₂ : Space
  s₂ = mapped (address 1) (address 1) false s₁

  abbrev s₃ : Space
  s₃ = mapped (address 2) (address 2) false s₂

  g₀ : IsMappable s₀ address 3
  g₀ = IsMappable-pmm t.space (request_page p₂).1 address 3 g

  g₁ : IsMappable s₁ address 3
  g₁ = IsMappable-mapped s₀ address 3 g₀ 0 (address 0) false (omega arith)

  g₂ : IsMappable s₂ address 3
  g₂ = IsMappable-mapped s₁ address 3 g₁ 1 (address 1) false (omega arith)

  d₁ : Distinct s₁ address 3
  d₁ = Distinct-mapped s₀ address 3 g₀ 0 (address 0) false (omega arith) d

  d₂ : Distinct s₂ address 3
  d₂ = Distinct-mapped s₁ address 3 g₁ 1 (address 1) false (omega arith) d₁

  -- Each page is translated to itself in the end.
  translated : (i : ℕ) → i < 3 → get_physical_address (address i) s₃ ≡ frame (address i) (address i)
  translated zero h =
      get_physical_address-after_other s₂ address 3 g₂ 2 (address 2) false (omega arith) d₂ 0
        (omega arith) (omega arith)
      ∙ get_physical_address-after_other s₁ address 3 g₁ 1 (address 1) false (omega arith) d₁ 0
          (omega arith) (omega arith)
      ∙ get_physical_address-after s₀ address 3 g₀ 0 (address 0) false (omega arith)
  translated (suc zero) h =
      get_physical_address-after_other s₂ address 3 g₂ 2 (address 2) false (omega arith) d₂ 1
        (omega arith) (omega arith)
      ∙ get_physical_address-after s₁ address 3 g₁ 1 (address 1) false (omega arith)
  translated (suc (suc zero)) h =
      get_physical_address-after s₂ address 3 g₂ 2 (address 2) false (omega arith)
  translated (suc (suc (suc i))) h = absurd (omega arith)

  module _ (fuel : ℕ) where
    first : map_stack (suc fuel) (stack_top (request_page p₀).0) s₀ ≡ some s₁
    unfolding requests
    first =
        map_stack-page (suc fuel) (request_page p₀).0 s₀ (request_page-lt p₀)
        ∙ map_memory-mapped fuel (address 0) (address 0) false s₀ (g₀.tables 0 (omega arith))

    second : map_stack (suc fuel) (stack_top (request_page p₁).0) s₁ ≡ some s₂
    unfolding requests
    second =
        map_stack-page (suc fuel) (request_page p₁).0 s₁ (request_page-lt p₁)
        ∙ map_memory-mapped fuel (address 1) (address 1) false s₁ (g₁.tables 1 (omega arith))

    third : map_stack (suc fuel) (stack_top (request_page p₂).0) s₂ ≡ some s₃
    unfolding requests
    third =
        map_stack-page (suc fuel) (request_page p₂).0 s₂ (request_page-lt p₂)
        ∙ map_memory-mapped fuel (address 2) (address 2) false s₂ (g₂.tables 2 (omega arith))

ist_lem :
    (a b c i : ℕ)
    → i < 3
    → update (update (update (λ k. 0) 0 (stack_top a)) 1 (stack_top b)) 2 (stack_top c) i
      ≡ stack_top (get_or (a ∷ b ∷ c ∷ []) i 0)
ist_lem a b c zero h = refl
ist_lem a b c (suc zero) h = refl
ist_lem a b c (suc (suc zero)) h = refl
ist_lem a b c (suc (suc (suc i))) h = absurd (omega arith)

-- Where the next three pages that the allocator hands out have their tables, no last entry of
-- theirs is an upper entry of one of them, and no two share a last entry, `tss_install` ends with
-- any fuel but 0: entry `i` of the interrupt stacks is the upper end of the `i`-th page, each of
-- the pages is translated to itself, and the kernel's stack is the one given. Where the descriptor
-- table has two slots left, the processor finds the segment at the first of them, with the type of
-- a task state segment, its whole 64-bit base and its size, and the slots before it are as they were.
pub tss_install-stacks :
    (fuel tss_base stack : ℕ) (t : Tasks)
    → t.gdt.s_gdt_index < 15
    → tss_base < 2 ^ 64
    → IsMappable t.space (stack_page t) 3
    → Distinct t.space (stack_page t) 3
    → (t' : Tasks) × (tss_install (suc fuel) tss_base stack t ≡ some t')
      × ((i : ℕ)
          → i < 3
          → (t'.tss.ist i ≡ stack_top (stack_page t i))
            × (get_physical_address (stack_page t i) t'.space
                ≡ frame (stack_page t i) (stack_page t i)))
      × (t'.tss.rsp 0 ≡ stack)
      × HoldsTss tss_base tss_size t.gdt.s_gdt_index t'.gdt
      × (t'.gdt.s_gdt_index ≡ t.gdt.s_gdt_index + 2)
      × ((i : ℕ) → i < t.gdt.s_gdt_index → t'.gdt.descriptors i ≡ t.gdt.descriptors i)
unfolding tss_install requests
tss_install-stacks fuel tss_base stack t room fits g d =
    let segment = gdt_install_tss-HoldsTss tss_base tss_size t.gdt room fits (omega arith) in
    rw (first t g d fuel) (
      rw (second t g d fuel) (
        rw (third t g d fuel) (
          _,
          refl,
          λ i h. (
            ist_lem (request_page (p₀ t g d)).0 (request_page (p₁ t g d)).0
                (request_page (p₂ t g d)).0 i h,
            translated t g d i h,
          ),
          refl,
          segment.0,
          segment.1,
          segment.2,
        )))

-- With page 0 taken, and the bitmap's pages inside the address space, a system call for a page
-- answers what the allocator answers: 0 where every page is taken, with the allocator as it was,
-- and otherwise a fresh page; no address is translated otherwise than before.
pub sys_allocate_page-Allocated :
    (s : Space)
    → IsSmall s.pmm
    → IsTaken s.pmm 0
    → let (page, s') = sys_allocate_page s in
      (((page ≡ 0) × (s'.pmm ≡ s.pmm) × ((j : ℕ) → j < page_limit s.pmm → IsTaken s.pmm j))
        ⊎ ((page ≢ 0) × Allocated s.pmm page s'.pmm))
      × ((other : ℕ) → get_physical_address other s' ≡ get_physical_address other s)
unfolding sys_allocate_page donate_to_userspace set_entry
sys_allocate_page-Allocated s small zero_taken = (
  request_page-Allocated s.pmm small zero_taken,
  λ other.
      get_physical_address-donate_to_userspace (record s { pmm = (request_page s.pmm).1 })
        (request_page s.pmm).0 other
      ∙ get_physical_address-pmm s (request_page s.pmm).1 other,
)
