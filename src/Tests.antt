-- ===== src/Tests.antt =====
-- The theorems at concrete states.
mod Memory
mod Boot
mod Paging
mod Threads
mod Strings
mod Locks
mod Files
mod Inodes
mod Traps
