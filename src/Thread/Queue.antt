-- ===== src/Thread/Queue.antt =====
-- kern/thread/PTQueueInit: queues of threads, doubly linked through the thread control blocks.
pub mod Segment
pub mod Refine
pub mod Enqueue
pub mod Remove
pub mod Leave
pub mod Frame
use mcertikos.Base.{ℕ, ◌+◌, Bool, not, ◌==◌, if◌then◌else◌, List, for_range}
use mcertikos.Pmm.MemoryMap.{Entry}
use mcertikos.Pmm.Container.{num_ids}
use mcertikos.Thread.Tcb.{
  Threads, num_cpus, tcb_init, tcb_get_prev, tcb_get_next, tcb_set_prev, tcb_set_next,
  tqueue_get_head, tqueue_get_tail, tqueue_set_head, tqueue_set_tail, tqueue_init_at_id,
}

unfoldable pub tqueue_init : ℕ → List Entry → Threads → Threads
unfolding tcb_init tqueue_init_at_id
tqueue_init root es s = for_range (num_ids + num_cpus) 0 tqueue_init_at_id (tcb_init root es s)

unfoldable pub tqueue_enqueue : ℕ → ℕ → Threads → Threads
unfolding tqueue_get_tail tcb_set_prev tcb_set_next tqueue_set_head tqueue_set_tail
tqueue_enqueue chid pid s =
    let tail = tqueue_get_tail s chid in
    if tail == num_ids
    then (let a = tcb_set_prev pid num_ids s in
        let b = tcb_set_next pid num_ids a in tqueue_set_tail chid pid (tqueue_set_head chid pid b))
    else (let a = tcb_set_next tail pid s in
        let b = tcb_set_prev pid tail a in tqueue_set_tail chid pid (tcb_set_next pid num_ids b))

-- Both links of a thread are cut.
abbrev pub unlink : ℕ → Threads → Threads
unlink pid s = tcb_set_next pid num_ids (tcb_set_prev pid num_ids s)

-- `tqueue_set_head(chid, NUM_IDS); tqueue_set_tail(chid, NUM_IDS)`
abbrev pub empty_queue : ℕ → Threads → Threads
empty_queue chid s = tqueue_set_tail chid num_ids (tqueue_set_head chid num_ids s)

-- The head of the queue is the thread after the one that leaves.
abbrev pub drop_head : ℕ → ℕ → Threads → Threads
drop_head chid next s =
    if next == num_ids
    then empty_queue chid s
    else tqueue_set_head chid next (tcb_set_prev next num_ids s)

unfoldable pub tqueue_dequeue : ℕ → Threads → ℕ × Threads
unfolding tqueue_get_head tcb_get_next tcb_set_prev tcb_set_next tqueue_set_head tqueue_set_tail
tqueue_dequeue chid s =
    let head = tqueue_get_head s chid in
    if not (head == num_ids)
    then (head, unlink head (drop_head chid (tcb_get_next s head) s))
    else (num_ids, s)

unfoldable pub tqueue_remove : ℕ → ℕ → Threads → Threads
unfolding tcb_get_prev tcb_get_next tcb_set_prev tcb_set_next tqueue_set_head tqueue_set_tail
tqueue_remove chid pid s =
    let prev = tcb_get_prev s pid in
    let next = tcb_get_next s pid in
    unlink pid (
      if prev == num_ids
      then drop_head chid next s
      else if next == num_ids
      then tqueue_set_tail chid prev (tcb_set_next prev num_ids s)
      else tcb_set_prev next prev (if not (prev == next) then tcb_set_next prev next s else s))
