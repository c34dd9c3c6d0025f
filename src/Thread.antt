-- ===== src/Thread.antt =====
-- kern/thread: thread control blocks, thread queues and the scheduler.
pub mod Tcb
pub mod Context
pub mod Queue
pub mod Sched
