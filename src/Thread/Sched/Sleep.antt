-- ===== src/Thread/Sched/Sleep.antt =====
-- `thread_sleep` and its waking.
use mcertikos.Base.{
  ℕ, ◌<◌, ◌≡◌, ◌≢◌, inl, refl, sym, ◌∙◌, ap, arith, true, false, ◌==◌, if◌then◌else◌, List, [], ◌∷◌,
  update, Outcome, ok, panic, Call, ◌>>=◌, ◌>>◌, gets, modify, bind_ok,
}
use mathlib.Core.Path.{subst}
use mcertikos.Pmm.Container.{num_ids}
use mcertikos.Thread.Tcb.{run, sleep, Threads, tcb_set_state, tcb_set_chan}
use mcertikos.Thread.Context.{kctx_switch, get_curid, set_curid}
use mcertikos.Thread.Queue.Segment.{In}
use mcertikos.Thread.Queue.Refine.{IsQueues, IsLoose}
use mcertikos.Thread.Queue.Leave.{Dequeued, tqueue_dequeue-Dequeued}
use mcertikos.Thread.Queue.Frame.{keep-IsQueues}
use mcertikos.Thread.Sched.{acquire_sched, release_sched, release_lock, run_next, thread_sleep}
use mcertikos.Thread.Sched.Yield.{Dispatched, next_state, run_next-Dispatched, acquire_free}

-- The state in which the current thread `c` sleeps, and `run_next` starts.
abbrev pub asleep : ℕ → ℕ → ℕ → Threads → Threads
asleep chan lk c s =
    let t : Threads = record s { sched_lk = true; lks = update s.lks lk false } in
    tcb_set_chan c chan (tcb_set_state c sleep t)

-- The state after `thread_sleep` from thread `c` to thread `n`.
abbrev pub slept : ℕ → ℕ → ℕ → ℕ → Threads → Threads
slept chan lk c n s =
    kctx_switch c n (record (next_state n (asleep chan lk c s)) { sched_lk = false })

-- The state after `thread_sleep` with nothing to run.
abbrev pub lost : ℕ → ℕ → Threads → Threads
lost chan lk s =
    let c = s.curid s.cpu in
    let t = set_curid num_ids (tcb_set_state num_ids run (asleep chan lk c s)) in
    kctx_switch c num_ids (record t { sched_lk = false })

after_next : ℕ → ℕ → Call Threads (Unit {0})
unfolding release_sched
after_next c n = do release_sched; modify (kctx_switch c n)

after_lock : ℕ → ℕ → ℕ → Call Threads (Unit {0})
unfolding release_lock after_next
after_lock chan lk c = do
  release_lock lk
  modify (tcb_set_state c sleep)
  modify (tcb_set_chan c chan)
  n ← run_next
  after_next c n

thread_sleep_run :
    (chan lk : ℕ) (s t : Threads) (n : ℕ)
    → s.sched_lk ≡ false
    → lk ≢ 0
    → run_next (asleep chan lk (s.curid s.cpu) s) ≡ ok (n, t)
    → thread_sleep chan lk s
      ≡ ok (tt, kctx_switch (s.curid s.cpu) n (record t { sched_lk = false }))
unfolding thread_sleep after_lock after_next release_sched release_lock get_curid
thread_sleep_run chan lk s t n free ne e =
    let c = s.curid s.cpu in
    let some : (lk == 0) ≡ false = ground arith in
    ap
      (λ b.
        (if b
            then (λ s. panic)
            else (gets get_curid >>= λ c. acquire_sched >> after_lock chan lk c))
          s)
      some
    ∙ bind_ok acquire_sched (λ _. after_lock chan lk c) s (record s { sched_lk = true }) tt
        (acquire_free s free)
    ∙ bind_ok run_next (after_next c) (asleep chan lk c s) t n e

-- What `thread_sleep` does for the current thread `c`, with `n ∷ rest` the ready queue.
pub record Slept (chan lk : ℕ) (s : Threads) (qs : ℕ → List ℕ) (c n : ℕ) (rest : List ℕ)
    (t : Threads) : Type 0 where
  pub current : t.curid t.cpu ≡ n
  pub queues : IsQueues t (update qs num_ids rest)
  pub running : (t.tcb n).state ≡ run
  pub sleeping : ((t.tcb c).state ≡ sleep) × ((t.tcb c).channel ≡ chan)
  pub others : (y : ℕ) → y ≢ c → y ≢ n → (t.tcb y).state ≡ (s.tcb y).state
  pub switched : (t.regs ≡ s.kctx n) × (t.kctx c ≡ s.regs)
  pub unlocked : (t.sched_lk ≡ false) × (t.lks lk ≡ false)

slept-Slept :
    (chan lk : ℕ) (s : Threads) (qs : ℕ → List ℕ) (c n : ℕ) (rest : List ℕ)
    → c ≢ n
    → Dispatched (asleep chan lk c s) qs n rest (next_state n (asleep chan lk c s))
    → Slept chan lk s qs c n rest (slept chan lk c n s)
unfolding kctx_switch tcb_set_state tcb_set_chan
slept-Slept chan lk s qs c n rest ne d = record {
  current = d.current;
  queues =
      keep-IsQueues (next_state n (asleep chan lk c s)) (slept chan lk c n s)
        (update qs num_ids rest) (λ _. refl) (λ _. (refl, refl)) d.queues;
  running = d.running;
  sleeping = (d.others c ne ∙ ground arith, d.channels c ∙ ground arith);
  others = λ y nc nn. d.others y nn ∙ ground arith;
  switched = (ground (arith, d.same_kctx n), ground (arith, d.same_regs));
  unlocked = (refl, d.same_lks lk ∙ ground arith);
}

-- Let no one hold the scheduler's lock, `lk` be a lock, the queues hold the lists `qs`, the current
-- thread `c` be in none of them and `n ∷ rest` be the ready queue. Then `thread_sleep` reaches its
-- switch, with `c` asleep on the channel, thread `n` current and running, `rest` as the ready queue,
-- both locks free, and the registers of `c` saved and those of `n` loaded.
pub thread_sleep_total :
    (chan lk : ℕ) (s : Threads) (qs : ℕ → List ℕ) (n : ℕ) (rest : List ℕ)
    → s.sched_lk ≡ false
    → lk ≢ 0
    → IsQueues s qs
    → IsLoose qs (s.curid s.cpu)
    → qs num_ids ≡ n ∷ rest
    → let c = s.curid s.cpu in
      (thread_sleep chan lk s ≡ ok (tt, slept chan lk c n s))
      × Slept chan lk s qs c n rest (slept chan lk c n s)
unfolding tcb_set_state tcb_set_chan
thread_sleep_total chan lk s qs n rest free ne h loose e =
    let c = s.curid s.cpu in
    let u : Threads = asleep chan lk c s in
    let q : IsQueues u qs =
      keep-IsQueues s u qs (λ _. refl) (λ y. (ground arith, ground arith)) h in
    let d = run_next-Dispatched u qs n rest q e in
    let other : c ≢ n = λ z. loose num_ids (omega arith) (subst (In c) (sym e) (inl z)) in
    (
      thread_sleep_run chan lk s (next_state n u) n free ne d.result,
      slept-Slept chan lk s qs c n rest other d,
    )

-- Let no one hold the scheduler's lock, `lk` be a lock and the ready queue be empty. Then
-- `thread_sleep` makes the null index the current thread, and loads the context behind the last one.
pub thread_sleep-empty :
    (chan lk : ℕ) (s : Threads) (qs : ℕ → List ℕ)
    → s.sched_lk ≡ false
    → lk ≢ 0
    → IsQueues s qs
    → s.curid s.cpu < num_ids
    → qs num_ids ≡ []
    → let t = lost chan lk s in
      (thread_sleep chan lk s ≡ ok (tt, t)) × (t.curid t.cpu ≡ num_ids) × (t.regs ≡ s.kctx num_ids)
unfolding tcb_set_state tcb_set_chan set_curid run_next kctx_switch
thread_sleep-empty chan lk s qs free ne h lt e =
    let c = s.curid s.cpu in
    let u : Threads = asleep chan lk c s in
    let q : IsQueues u qs =
      keep-IsQueues s u qs (λ _. refl) (λ y. (ground arith, ground arith)) h in
    let none =
      subst (Dequeued qs num_ids u) e (tqueue_dequeue-Dequeued u qs num_ids q (omega arith)) in
    (
      thread_sleep_run chan lk s (set_curid num_ids (tcb_set_state num_ids run u)) num_ids free ne
          (ap finish none),
      ground arith,
      ground arith,
    )
  where
    finish : ℕ × Threads → Outcome (ℕ × Threads)
    finish (m, u) = ok (m, set_curid m (tcb_set_state m run u))
