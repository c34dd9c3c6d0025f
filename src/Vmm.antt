-- ===== src/Vmm.antt =====
-- kern/vmm: the page structures of the processes.
pub mod Tables
pub mod Address
pub mod Init
pub mod Mapping
