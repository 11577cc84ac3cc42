-- ===== src/Tests/Cpu.antt =====
-- The descriptor tables and the clock.
use micron.Base.{ℕ, ◌≤◌, ◌≡◌, ◌≢◌, arith}
use micron.Cpu.Gdt.{Descriptor, Gdt, gdt_install_descriptor, gdt_install_tss, gdt_init}
use micron.Cpu.Gdt.Layout.{Booted, empty_gdt, gdt_install_tss-Booted, gdt_install_descriptor_bounds}
use micron.Cpu.Idt.{Idt, null_gate}
use micron.Cpu.Clock.Ticks.{Shows, ticks, start, ticks-Shows}

abbrev slots : ℕ → Descriptor
slots i = record {
  limit = 0;
  base_low = 0;
  base_mid = 0;
  flags = 0;
  granularity = 0;
  base_high = 0;
}

abbrev full : Gdt
full = record { descriptors = slots; s_gdt_index = 15 }

gdt_install_tss-Booted_example :
    Booted 0xffffffff80210000 104
      (gdt_install_tss 0xffffffff80210000 104 (gdt_init (empty_gdt slots)))
gdt_install_tss-Booted_example =
    gdt_install_tss-Booted 0xffffffff80210000 104 slots (omega arith) (omega arith)

gdt_install_descriptor_bounds_example :
    let g' = gdt_install_descriptor 0 0 0x9a 0xaf full in
    (g'.s_gdt_index ≤ 16)
    × ((i : ℕ) → 16 ≤ i → g'.descriptors i ≡ full.descriptors i)
    × ((i : ℕ) → i ≢ 15 → g'.descriptors i ≡ full.descriptors i)
gdt_install_descriptor_bounds_example =
    gdt_install_descriptor_bounds 0 0 0x9a 0xaf full (omega arith)

abbrev gates : Idt
gates i = null_gate

ticks-Shows_example : Shows 2500 1000 (ticks 2500 (start 1000))
ticks-Shows_example = ticks-Shows 2500 1000 (omega arith) (omega arith) (omega arith)
