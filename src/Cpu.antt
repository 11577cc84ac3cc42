-- ===== src/Cpu.antt =====
-- kernel/src/cpu: descriptor tables and interrupts.
pub mod Exceptions
pub mod Gdt
pub mod Idt
pub mod Tss
pub mod Clock
