-- ===== src/Cpu/Tss.antt =====
-- kernel/src/cpu/tss.cpp and tss.h: the task state segment, with three stacks for interrupts, and the
-- calls of kernel/src/userspace/syscalls.cpp.
pub mod Stacks
use micron.Base.{
  ℕ, zero, suc, ◌+◌, ◌-◌, ◌*◌, ◌^◌, Bool, true, false, Option, none, some, ltb, ◌==◌, if◌then◌else◌,
  u64, update, ◌>>=◌,
}
use micron.Memory.Pmm.{Pmm, request_page}
use micron.Memory.Paging.{Space, map_memory, donate_to_userspace}
use micron.Cpu.Gdt.{Gdt, gdt_install_tss}

-- `tss_t`, without its padding; the array has one, `CONFIG_MAX_CPUS`.
pub record Tss : Type 0 where
  pub rsp : ℕ → ℕ
  pub ist : ℕ → ℕ
  pub io_map : ℕ

abbrev pub null_tss : Tss
null_tss = record { rsp = λ i. 0; ist = λ i. 0; io_map = 0 }

-- `sizeof(tss_t)`
abbrev pub tss_size : ℕ
tss_size = 4 + 3 * 8 + 8 + 7 * 8 + 8 + 2 + 2

-- The globals: the stacks by their upper ends, the segment, and what the code changes elsewhere.
pub record Tasks : Type 0 where
  pub isr_stack : ℕ
  pub irq_stack : ℕ
  pub sgi_stack : ℕ
  pub tss : Tss
  pub gdt : Gdt
  pub space : Space

-- `tss_init`
unfoldable pub tss_init : Tasks → Tasks
tss_init t = record t { tss = null_tss }

abbrev pub stack_top : ℕ → ℕ
stack_top page = u64 (page + 0x1000)

-- The page below the end of a stack is mapped to itself.
unfoldable pub map_stack : (fuel top : ℕ) → Space → Option Space
map_stack fuel top s =
    map_memory fuel (u64 (top + 2 ^ 64 - 0x1000)) (u64 (top + 2 ^ 64 - 0x1000)) false s

-- `tss_base` is the address of the segment. The selector 0x28 is then loaded.
unfoldable pub tss_install : (fuel tss_base stack : ℕ) → Tasks → Option Tasks
tss_install fuel tss_base stack t = do
  let (isr, p₁) = request_page t.space.pmm
  let (irq, p₂) = request_page p₁
  let (sgi, p₃) = request_page p₂
  let space₀ = record (t.space) { pmm = p₃ }
  space₁ ← map_stack fuel (stack_top isr) space₀
  space₂ ← map_stack fuel (stack_top irq) space₁
  space₃ ← map_stack fuel (stack_top sgi) space₂
  let cleared = null_tss
  some (record {
    isr_stack = stack_top isr;
    irq_stack = stack_top irq;
    sgi_stack = stack_top sgi;
    tss = record {
      rsp = update cleared.rsp 0 stack;
      ist =
          update (update (update cleared.ist 0 (stack_top isr)) 1 (stack_top irq)) 2
            (stack_top sgi);
      io_map = tss_size;
    };
    gdt = gdt_install_tss tss_base tss_size t.gdt;
    space = space₃;
  })

unfoldable pub tss_setstack : (stack : ℕ) → Tss → Tss
tss_setstack stack t = record t { rsp = update t.rsp 0 stack }

-- `sys_get_info`: the fields are those of `sys_info_field`.
unfoldable pub sys_get_info : (field : ℕ) → Pmm → ℕ
sys_get_info field s =
    if field == 0 then s.total_memory_size else if field == 1 then s.free_memory_size else 0

-- `sys_allocate_page`: a page is requested and given to user mode.
unfoldable pub sys_allocate_page : Space → ℕ × Space
sys_allocate_page s =
    let (page, pmm) = request_page s.pmm in
    (page, donate_to_userspace page (record s { pmm = pmm }))

-- How many bytes `sys_copy_framebuffer` copies; the factors are `uint16`.
unfoldable pub copy_framebuffer_size : (pitch width height : ℕ) → ℕ
copy_framebuffer_size pitch width height = pitch * width * height
