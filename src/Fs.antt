-- ===== src/Fs.antt =====
-- kern/fs: the file system, from the disk up.
pub mod Disk
pub mod Bufcache
pub mod Log
pub mod Block
pub mod Inode
pub mod Path
pub mod Dir
pub mod Namei
pub mod File
