-- ===== src/Tests.antt =====
-- The theorems at concrete inputs, and runs of the code on small states.
mod Pmm
mod Paging
mod Grow
mod Heap
mod Cpu
mod Drivers
mod Disk
mod Tty
mod Texts
mod Mapping
mod Screen
mod Printf
