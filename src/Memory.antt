-- ===== src/Memory.antt =====
-- kernel/src/memory: the physical memory manager, the page tables and the heap.
pub mod Heap
pub mod Mapping
pub mod Paging
pub mod Pmm
