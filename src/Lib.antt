-- ===== src/Lib.antt =====
-- A verification library for the mCertiKOS kernel: physical memory, page tables, threads, the string
-- functions, the reentrant lock, the file system, processes and system calls.
--
-- The kernel is built in layers; each calls the ones below it. A layer is modelled by a record of its
-- static variables, which holds the record of the layer below, and by one function per C function,
-- under the name of the C function. The layers and their files:
--   Pmm/MemoryMap   kern/dev/mboot.c: the sorted list of memory ranges from the boot loader
--   Pmm/AllocTable  kern/pmm/MATIntro/MATIntro.c: the table of physical pages, record Pmm
--   Pmm/Init        kern/pmm/MATInit/MATInit.c: pmem_init
--   Pmm/Palloc      kern/pmm/MATOp/MATOp.c: palloc and pfree
--   Pmm/Container   kern/pmm/MContainer/MContainer.c: quotas and process tree, record Containers
--   Vmm/Tables      kern/vmm/MPTIntro/MPTIntro.c: page directories and tables, record Vmm
--   Vmm/Address     kern/vmm/MPTOp/MPTOp.c: the functions by virtual address
--   Vmm/Init        the initialisers of kern/vmm: MPTOp, MPTComm, MPTKern and MPTInit
--   Vmm/Mapping     kern/vmm/MPTComm, MPTKern and MPTNew: map_page, unmap_page, alloc_page
--   Thread/Tcb      kern/thread/PTCBIntro, PTQueueIntro and PTCBInit, record Threads
--   Thread/Context  kern/thread/PKCtxIntro, PKCtxNew and PCurID
--   Thread/Queue    kern/thread/PTQueueInit/PTQueueInit.c: the doubly linked thread queues
--   Thread/Sched    kern/thread/PThread/PThread.c: spawn, yield, sleep and wakeup
--   Fs/Disk         the disk with its buffers, as the log sees them, and a power supply that may fail
--   Fs/Bufcache     kern/fs/bufcache.c, with ide_rw of kern/dev/disk/ide.c, record Cache
--   Fs/Log          kern/fs/log.c: the redo log, record Log
--   Fs/Block        kern/fs/block.c: the bitmap of the used blocks
--   Fs/Inode        kern/fs/inode.c: the cache of the inodes and their content, record Inodes
--   Fs/Dir          kern/fs/dir.c: the entries of a directory
--   Fs/Path         kern/fs/path.c: skipelem
--   Fs/Namei        kern/fs/path.c: namex and its callers
--   Fs/File         kern/fs/file.c: the table of the open files, record Files
--   UserMemory      kern/lib/pmap.c: the copies to and from the memory of a process
--   Elf             kern/lib/elf.c: the loader
--   Proc            kern/proc/PProc/PProc.c: proc_create, record Kernel
--   Trap            kern/trap: the arguments of system calls, sys_puts, sys_spawn, sys_yield, page faults
--   Strings         kern/lib/string.c: memset, memmove and the string functions, over Bytes
--   Locks           kern/lib/reentrant_lock.c: the reentrant lock, record Lock
-- Base holds what they share: Boolean tests, arrays, counted loops, 32-bit masks and the outcomes of
-- a call. The children of a module prove what they are named for. Tests has the theorems at concrete
-- states.
--
-- How the state corresponds. A C array is a function from the index, so a read or write out of its
-- bounds, which C leaves undefined, reads or writes the function there; theorems about valid states
-- have the bounds as hypotheses where they matter. A 32-bit word is a number with its wrap-around
-- written out; the signed fields of a container are given by their bit patterns. The physical memory
-- is a function from addresses to words; the page tables lie in it, and the identity tables lie at
-- idptbl, the address that the linker chooses. The linked list of mboot.c is a
-- list in the order of its links. A pointer is its address.
--
-- How calls correspond. A call is a function from the state to an outcome: it returns a result and a
-- state, hangs on a lock that is never released, or panics, as KERN_PANIC and KERN_ASSERT do in the
-- builds of kern/Makefile.inc, which set DEBUG_MSG. One call runs at a time, from its start to its end
-- or to its context switch; locks are Booleans of the state, and acquiring a held one hangs.
-- Locks alone is about several processors: its Step is one atomic access by one of them.
-- thread_sleep is split at its switch into thread_sleep and thread_resume. kctx_switch saves and
-- loads the six registers of cswitch.S.
--
-- Loops. The counted loops are for_range, structural in the count. The search of palloc is recursion on
-- fuel, of one round for each index up to the end of the user pages and one more (palloc_fuel); the
-- theorem on palloc shows that this is enough from every valid state. strcmp and strchr, which have no
-- size, take a number of rounds too; their theorems show that one more than the length is enough.
--
-- The file system. Fs/Log and the layers on it see the buffer cache as Store: a block for each sector,
-- which bufcache_read gives, and which bufcache_write also writes to the disk. Fs/Bufcache models the
-- buffers themselves, and its theorems are about the same view. The power of a Store is the number of
-- writes that still reach the disk, so that a theorem for every power is about a failure between any
-- two writes; log_init on what is left of the disk is the next start of the machine. A block is read
-- as its 128 words; Fs/Inode/ReadWrite has its bytes. The loops of inode_read, inode_write, dir_lookup
-- and namex have fuel, a round for each byte, entry or character; the theorems on inode_read and
-- dir_lookup show that it is enough. That there are NBUF buffers only, of which those logged in a
-- transaction are dirty and not recycled, is in the log: log_write, block_alloc and block_free panic
-- when bufcache_get finds no buffer.
--
-- Processes. The copies of pmap.c share one loop on pages, each_page, with a round for each byte at
-- most; load_pages of the loader has a round for each page of a segment, and puts_loop a round for each
-- byte. The theorems on pt_copyout and sys_puts show that theirs are enough. The five programs that
-- the build links into the kernel are an argument of sys_spawn, and what they must be like is
-- is_elf and IsUserProgram. The addresses of the kernel stacks, of proc_start_user and of the
-- buffers of sys_puts, which the linker chooses, are arguments, as is the register CR2.
--
-- Not modelled: the device drivers except for ide_rw, the system calls of kern/fs/sysfile.c
-- and kern/trap/TSyscall on files (namei("/"), which tcb_init_at_id calls, is the argument root), the
-- dispatch and the return of traps, interrupts, the descriptors of kern/lib/seg.c, the start of the processors,
-- the lists by type of mboot.c, which no other file reads, and interleavings of several processors
-- in the layers above the locks.
pub mod Base
pub mod Pmm
pub mod Vmm
pub mod Thread
pub mod Fs
pub mod UserMemory
pub mod Elf
pub mod Proc
pub mod Trap
pub mod Strings
pub mod Locks
pub mod Tests
