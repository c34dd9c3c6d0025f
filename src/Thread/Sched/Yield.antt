-- ===== src/Thread/Sched/Yield.antt =====
-- `thread_yield` is a round robin over the ready queue.
pub mod Rotation
use mcertikos.Base.{
  ℕ, ◌+◌, ◌<◌, ◌≡◌, ◌≢◌, ◌⊎◌, inl, inr, refl, sym, ◌∙◌, ap, arith, true, false, not, ◌==◌,
  if◌then◌else◌, List, [], ◌∷◌, ◌++◌, update, Outcome, ok, hang, Bool, Call, ◌>>=◌, ◌>>◌, pure,
  gets, modify, bind_ok,
}
use mathlib.Core.Path.{subst}
use native.Mathlib.Decide.{ℕ_discrete}
use mcertikos.Pmm.Container.{num_ids}
use mcertikos.Thread.Tcb.{TState, ready, run, sleep, Tcb, Threads, tcb_set_state, tcb_set_chan}
use mcertikos.Thread.Context.{kctx_switch, get_curid, set_curid}
use mcertikos.Thread.Queue.{tqueue_enqueue, tqueue_dequeue, tqueue_remove}
use mcertikos.Thread.Queue.Segment.{In, SameLinks, In-append}
use mcertikos.Thread.Queue.Refine.{num_queues, IsQueues, IsLoose}
use mcertikos.Thread.Queue.Enqueue.{tqueue_enqueue-IsQueues}
use mcertikos.Thread.Queue.Leave.{Dequeued, tqueue_dequeue-Dequeued}
use mcertikos.Thread.Queue.Frame.{
  OnlyQueues, tqueue_enqueue-OnlyQueues, tqueue_remove-OnlyQueues, keep-IsQueues,
}
use mcertikos.Thread.Sched.{
  acquire_sched, release_sched, release_lock, run_next, thread_yield, thread_sleep,
}

-- The dispatch of thread `n` from the ready queue `n ∷ rest`.
pub record Dispatched (s : Threads) (qs : ℕ → List ℕ) (n : ℕ) (rest : List ℕ) (t : Threads)
    : Type 0 where
  pub result : run_next s ≡ ok (n, t)
  pub current : t.curid t.cpu ≡ n
  pub queues : IsQueues t (update qs num_ids rest)
  pub running : (t.tcb n).state ≡ run
  pub others : (y : ℕ) → y ≢ n → (t.tcb y).state ≡ (s.tcb y).state
  pub channels : (y : ℕ) → (t.tcb y).channel ≡ (s.tcb y).channel
  pub same_regs : t.regs ≡ s.regs
  pub same_kctx : (y : ℕ) → t.kctx y ≡ s.kctx y
  pub same_cpu : t.cpu ≡ s.cpu
  pub same_lks : (l : ℕ) → t.lks l ≡ s.lks l

-- `run_next` on a queue with a thread.
abbrev pub next_state : ℕ → Threads → Threads
next_state n s = set_curid n (tcb_set_state n run (tqueue_remove num_ids n s))

pub run_next-Dispatched :
    (s : Threads) (qs : ℕ → List ℕ) (n : ℕ) (rest : List ℕ)
    → IsQueues s qs
    → qs num_ids ≡ n ∷ rest
    → Dispatched s qs n rest (next_state n s)
unfolding run_next set_curid tcb_set_state
run_next-Dispatched s qs n rest h e =
    let (r, k) =
      subst (Dequeued qs num_ids s) e (tqueue_dequeue-Dequeued s qs num_ids h (omega arith)) in
    let o = tqueue_remove-OnlyQueues num_ids n s in
    record {
      result = ap finish r;
      current = ground arith;
      queues =
          keep-IsQueues (tqueue_remove num_ids n s) (next_state n s) (update qs num_ids rest)
            (λ c. refl) (λ y. (ground arith, ground arith)) k;
      running = ground arith;
      others = λ y ne. ground (arith, o.same_state y);
      channels = λ y. ground (arith, o.same_chan y);
      same_regs = o.same_regs;
      same_kctx = o.same_kctx;
      same_cpu = o.same_cpu;
      same_lks = o.same_lks;
    }
  where
    finish : ℕ × Threads → Outcome (ℕ × Threads)
    finish (m, u) = ok (m, set_curid m (tcb_set_state m run u))

-- The state in which the current thread `c` has joined the ready queue.
abbrev pub queued : ℕ → Threads → Threads
queued c s = tqueue_enqueue num_ids c (tcb_set_state c ready (record s { sched_lk = true }))

-- The state after `thread_yield` from thread `c` to thread `n`.
abbrev pub yielded : ℕ → ℕ → Threads → Threads
yielded c n s =
    let t : Threads = record (next_state n (queued c s)) { sched_lk = false } in
    if not (c == n) then kctx_switch c n t else t

pub if_modify :
    (b : Bool) (f : Threads → Threads) (t : Threads)
    → (if b then modify f else pure tt) t ≡ ok (tt, if b then f t else t)
if_modify true f t = refl
if_modify false f t = refl

pub acquire_free :
    (s : Threads) → s.sched_lk ≡ false → acquire_sched s ≡ ok (tt, record s { sched_lk = true })
unfolding acquire_sched
acquire_free s free =
    ap (λ b. elim b [ true ↦ hang | false ↦ ok (tt, record s { sched_lk = true }) ]) free

-- What `thread_yield` does when it has taken the lock, and what it does behind `run_next`.
after_next : ℕ → ℕ → Call Threads (Unit {0})
unfolding release_sched
after_next c n = do release_sched; if not (c == n) then modify (kctx_switch c n) else pure tt

after_lock : Call Threads (Unit {0})
unfolding after_next
after_lock = do
  c ← gets get_curid
  modify (tcb_set_state c ready)
  modify (tqueue_enqueue num_ids c)
  n ← run_next
  after_next c n

pub thread_yield_run :
    (s t : Threads) (n : ℕ)
    → s.sched_lk ≡ false
    → run_next (queued (s.curid s.cpu) s) ≡ ok (n, t)
    → let c = s.curid s.cpu in
      let u : Threads = record t { sched_lk = false } in
      thread_yield s ≡ ok (tt, if not (c == n) then kctx_switch c n u else u)
unfolding thread_yield after_lock after_next release_sched get_curid
thread_yield_run s t n free e =
    let c = s.curid s.cpu in
    let s' : Threads = record s { sched_lk = true } in
    bind_ok acquire_sched (λ _. after_lock) s s' tt (acquire_free s free)
    ∙ bind_ok run_next (after_next c) (queued c s) t n e
    ∙ if_modify (not (c == n)) (kctx_switch c n) (record t { sched_lk = false })

-- A turn of the round robin from thread `c` to thread `n`, the head of `n ∷ rest`.
pub record Turn (s : Threads) (qs : ℕ → List ℕ) (c n : ℕ) (rest : List ℕ) (t : Threads)
    : Type 0 where
  pub current : t.curid t.cpu ≡ n
  pub same_cpu : t.cpu ≡ s.cpu
  pub queues : IsQueues t (update qs num_ids rest)
  pub loose : IsLoose (update qs num_ids rest) n
  pub running : (t.tcb n).state ≡ run
  pub waiting : c ≢ n → (t.tcb c).state ≡ ready
  pub others : (y : ℕ) → y ≢ c → y ≢ n → (t.tcb y).state ≡ (s.tcb y).state
  pub switched : c ≢ n → (t.regs ≡ s.kctx n) × (t.kctx c ≡ s.regs)
  pub stayed : c ≡ n → t.regs ≡ s.regs
  pub unlocked : t.sched_lk ≡ false

pub queued-IsQueues :
    (s : Threads) (qs : ℕ → List ℕ) (c : ℕ)
    → IsQueues s qs
    → c < num_ids
    → IsLoose qs c
    → IsQueues (queued c s) (update qs num_ids (qs num_ids ++ c ∷ []))
unfolding tcb_set_state
queued-IsQueues s qs c h lt new =
    let s' = tcb_set_state c ready (record s { sched_lk = true }) in
    tqueue_enqueue-IsQueues s' qs num_ids c
      (keep-IsQueues s s' qs (λ _. refl) (λ y. (ground arith, ground arith)) h) (omega arith) lt new
