-- ===== src/Pmm.antt =====
-- kern/pmm, and the memory map of kern/dev/mboot.c: the physical memory manager.
pub mod MemoryMap
pub mod AllocTable
pub mod Init
pub mod Palloc
pub mod Container
