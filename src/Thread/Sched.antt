-- ===== src/Thread/Sched.antt =====
-- kern/thread/PThread: the scheduler.
pub mod Yield
pub mod Sleepers
pub mod Wakeup
pub mod Sleep
pub mod Start
pub mod Spawn
use mcertikos.Base.{
  ℕ, ◌+◌, ◌-◌, ◌/◌, ◌%◌, ◌^◌, Bool, true, false, not, ◌&&◌, ◌==◌, leb, if◌then◌else◌, List,
  for_range, update, Outcome, ok, hang, panic, Call, ◌>>=◌, ◌>>◌, pure, gets, modify,
}
use mcertikos.Pmm.MemoryMap.{Entry}
use mcertikos.Pmm.Container.{num_ids}
use mcertikos.Thread.Tcb.{
  TState, ready, run, sleep, dead, Threads, num_cpus, tcb_get_state, tcb_set_state, tcb_get_chan,
  tcb_set_chan,
}
use mcertikos.Thread.Context.{kctx_switch, get_curid, set_curid, kctx_new}
use mcertikos.Thread.Queue.{tqueue_init, tqueue_enqueue, tqueue_dequeue}

-- `SCHED_SLICE` and `LAPIC_TIMER_INTR_FREQ`
abbrev pub sched_slice : ℕ
sched_slice = 5

abbrev pub lapic_timer_intr_freq : ℕ
lapic_timer_intr_freq = 1000

-- `spinlock_acquire(&sched_lk)` and `spinlock_release(&sched_lk)`
unfoldable pub acquire_sched : Call Threads (Unit {0})
acquire_sched s = elim s.sched_lk [ true ↦ hang | false ↦ ok (tt, record s { sched_lk = true }) ]

unfoldable pub release_sched : Call Threads (Unit {0})
release_sched = modify λ s. record s { sched_lk = false }

-- The lock at an address.
unfoldable pub acquire_lock : ℕ → Call Threads (Unit {0})
acquire_lock lk s = elim (s.lks lk) [
  | true ↦ hang
  | false ↦ ok (tt, record s { lks = update s.lks lk true })
]

unfoldable pub release_lock : ℕ → Call Threads (Unit {0})
release_lock lk = modify λ s. record s { lks = update s.lks lk false }

unfoldable pub thread_init : ℕ → List Entry → Threads → Threads
unfolding tqueue_init set_curid tcb_set_state
thread_init root es s =
    let ticks = for_range num_cpus 0 (λ i f. update f i 0) s.sched_ticks in
    let s' : Threads = record s { sched_ticks = ticks; sched_lk = false } in
    tcb_set_state 0 run (set_curid 0 (tqueue_init root es s'))

unfoldable pub thread_spawn : (ℕ → ℕ) → ℕ → ℕ → ℕ → Call Threads ℕ
unfolding acquire_sched release_sched
thread_spawn kstack_hi entry id quota = do
  acquire_sched
  pid ← kctx_new kstack_hi entry id quota
  if not (pid == num_ids)
      then (do modify (tcb_set_state pid ready); modify (tqueue_enqueue num_ids pid); pure tt)
      else pure tt
  release_sched
  pure pid

-- `new = tqueue_dequeue(NUM_IDS); tcb_set_state(new, TSTATE_RUN); set_curid(new)`
unfoldable pub run_next : Call Threads ℕ
run_next s =
    let (new_pid, s') = tqueue_dequeue num_ids s in
    ok (new_pid, set_curid new_pid (tcb_set_state new_pid run s'))

unfoldable pub thread_yield : Call Threads (Unit {0})
unfolding acquire_sched release_sched run_next
thread_yield = do
  acquire_sched
  old_cur_pid ← gets get_curid
  modify (tcb_set_state old_cur_pid ready)
  modify (tqueue_enqueue num_ids old_cur_pid)
  new_cur_pid ← run_next
  release_sched
  if not (old_cur_pid == new_cur_pid) then modify (kctx_switch old_cur_pid new_cur_pid) else pure tt

-- `sched_ticks[get_pcpu_idx()] = v`
abbrev pub put_ticks : ℕ → Threads → Threads
put_ticks v s = record s { sched_ticks = update s.sched_ticks s.cpu v }

unfoldable pub sched_update : Call Threads (Unit {0})
unfolding acquire_sched release_sched
sched_update = do
  acquire_sched
  modify λ s. put_ticks ((s.sched_ticks s.cpu + 1000 / lapic_timer_intr_freq) % 2 ^ 32) s
  ticks ← gets (λ s. s.sched_ticks s.cpu)
  if leb sched_slice ticks
      then (do modify (put_ticks 0); release_sched; thread_yield)
      else release_sched

-- `thread_sleep` up to its switch, which another thread continues.
unfoldable pub thread_sleep : ℕ → ℕ → Call Threads (Unit {0})
unfolding acquire_sched release_sched release_lock run_next
thread_sleep chan lk = if lk == 0 then (λ s. panic) else (do
  curid ← gets get_curid
  acquire_sched
  release_lock lk
  modify (tcb_set_state curid sleep)
  modify (tcb_set_chan curid chan)
  new_pid ← run_next
  release_sched
  modify (kctx_switch curid new_pid))

-- The rest of `thread_sleep`, once another thread has switched back to `curid`.
unfoldable pub thread_resume : ℕ → ℕ → Call Threads (Unit {0})
unfolding acquire_sched release_sched acquire_lock
thread_resume curid lk = do
  acquire_sched
  modify (tcb_set_chan curid 0)
  release_sched
  acquire_lock lk

abbrev pub is_sleep : TState → Bool
is_sleep sleep = true
is_sleep _ = false

abbrev pub sleeps_on : ℕ → ℕ → Threads → Bool
sleeps_on chan pid s = (tcb_get_chan s pid == chan) && is_sleep (tcb_get_state s pid)

unfoldable pub wake : ℕ → ℕ → Threads → Threads
unfolding tcb_get_chan tcb_get_state
wake chan pid s =
    if sleeps_on chan pid s
    then tqueue_enqueue num_ids pid (tcb_set_chan pid 0 (tcb_set_state pid ready s))
    else s

unfoldable pub thread_wakeup : ℕ → Call Threads (Unit {0})
unfolding acquire_sched release_sched wake
thread_wakeup chan = do acquire_sched; modify (for_range (num_ids - 1) 1 (wake chan)); release_sched
