-- ===== src/Thread/Sched/Yield/Rotation.antt =====
-- `thread_yield` gives the turn to the next thread of the ready queue.
use mcertikos.Base.{
  ℕ, ◌<◌, ◌≡◌, inl, refl, sym, ◌∙◌, ap, arith, true, false, List, [], ◌∷◌, ◌++◌, update, ok,
}
use mathlib.Core.Path.{subst}
use native.Mathlib.Decide.{ℕ_discrete}
use mcertikos.Pmm.Container.{num_ids}
use mcertikos.Thread.Tcb.{ready, Threads, tcb_set_state}
use mcertikos.Thread.Context.{kctx_switch}
use mcertikos.Thread.Queue.Segment.{In}
use mcertikos.Thread.Queue.Refine.{IsQueue, IsQueues, IsLoose}
use mcertikos.Thread.Queue.Frame.{tqueue_enqueue-OnlyQueues, keep-IsQueues}
use mcertikos.Thread.Sched.{thread_yield}
use mcertikos.Thread.Sched.Yield.{
  Dispatched, next_state, run_next-Dispatched, queued, yielded, thread_yield_run, Turn,
  queued-IsQueues,
}

-- Lists for the queues that agree.
pub same_lists :
    (s : Threads) (qs qs' : ℕ → List ℕ) → ((c : ℕ) → qs c ≡ qs' c) → IsQueues s qs → IsQueues s qs'
same_lists s qs qs' e h = subst (IsQueues s) (λ i c. e c i) h

twice :
    (qs : ℕ → List ℕ) (xs ys : List ℕ) (c : ℕ)
    → update (update qs num_ids xs) num_ids ys c ≡ update qs num_ids ys c
twice qs xs ys c = ground arith

at_ready : (qs : ℕ → List ℕ) (xs : List ℕ) → update qs num_ids xs num_ids ≡ xs
at_ready qs xs = ground arith

-- The thread that leaves the ready queue is in no queue.
pub dispatched-IsLoose :
    (s : Threads) (qs : ℕ → List ℕ) (n : ℕ) (rest : List ℕ)
    → IsQueues s (update qs num_ids (n ∷ rest))
    → IsLoose (update qs num_ids rest) n
dispatched-IsLoose s qs n rest h d lt i = elim (ℕ_discrete d num_ids) [
  | yes e ↦
      let q = subst (IsQueue s num_ids) (at_ready qs (n ∷ rest)) (h.queue num_ids (omega arith)) in
      let (new, _) = q.once in
      new (subst (In n) (ap (update qs num_ids rest) e ∙ at_ready qs rest) i)
  | no ne ↦
      let off : update qs num_ids rest d ≡ update qs num_ids (n ∷ rest) d = ground arith in
      let j : In n (update qs num_ids (n ∷ rest) num_ids) =
        subst (In n) (sym (at_ready qs (n ∷ rest))) (inl refl) in
      ne (h.apart d num_ids n lt (omega arith) (subst (In n) off i) j)
]

switched-Turn :
    (s : Threads) (qs : ℕ → List ℕ) (c n : ℕ) (rest : List ℕ)
    → IsQueues (queued c s) (update qs num_ids (n ∷ rest))
    → Dispatched (queued c s) (update qs num_ids (n ∷ rest)) n rest (next_state n (queued c s))
    → Turn s qs c n rest (yielded c n s)
unfolding kctx_switch tcb_set_state
switched-Turn s qs c n rest q d =
    let s' : Threads = tcb_set_state c ready (record s { sched_lk = true }) in
    let o = tqueue_enqueue-OnlyQueues num_ids c s' in
    let v : Threads = record (next_state n (queued c s)) { sched_lk = false } in
    let k : IsQueues v (update qs num_ids rest) =
      same_lists v (update (update qs num_ids (n ∷ rest)) num_ids rest) (update qs num_ids rest)
        (twice qs (n ∷ rest) rest)
        (keep-IsQueues (next_state n (queued c s)) v
          (update (update qs num_ids (n ∷ rest)) num_ids rest) (λ _. refl) (λ y. (refl, refl))
          d.queues) in
    record {
      current = ground (arith, d.current);
      same_cpu = ground (arith, d.same_cpu, o.same_cpu);
      queues =
          keep-IsQueues v (yielded c n s) (update qs num_ids rest) (λ d. ground arith)
            (λ y. (ground arith, ground arith)) k;
      loose = dispatched-IsLoose (queued c s) qs n rest q;
      running = ground (arith, d.running);
      waiting = λ ne. ground (arith, d.others c ne, o.same_state c);
      others = λ y ne ne'. ground (arith, d.others y ne', o.same_state y);
      switched = λ ne.
          (ground (arith, d.same_kctx n, o.same_kctx n), ground (arith, d.same_regs, o.same_regs));
      stayed = λ z. ground (arith, d.same_regs, o.same_regs);
      unlocked = ground arith;
    }

-- Let no one hold the scheduler's lock, the queues hold the lists `qs`, and the current thread `c` be
-- in none of them, so that the ready queue and then `c` are the threads `n ∷ rest`. Then
-- `thread_yield` returns, with thread `n` current and running, `rest` as the ready queue and the other
-- queues as they were, the lock free, and the registers of `c` saved and those of `n` loaded if the
-- two differ.
pub thread_yield_total :
    (s : Threads) (qs : ℕ → List ℕ) (n : ℕ) (rest : List ℕ)
    → s.sched_lk ≡ false
    → IsQueues s qs
    → s.curid s.cpu < num_ids
    → IsLoose qs (s.curid s.cpu)
    → qs num_ids ++ s.curid s.cpu ∷ [] ≡ n ∷ rest
    → let c = s.curid s.cpu in
      (thread_yield s ≡ ok (tt, yielded c n s)) × Turn s qs c n rest (yielded c n s)
thread_yield_total s qs n rest free h lt new e =
    let c = s.curid s.cpu in
    let q : IsQueues (queued c s) (update qs num_ids (n ∷ rest)) =
      subst (λ l. IsQueues (queued c s) (update qs num_ids l)) e
        (queued-IsQueues s qs c h lt new) in
    let d =
      run_next-Dispatched (queued c s) (update qs num_ids (n ∷ rest)) n rest q
        (at_ready qs (n ∷ rest)) in
    (
      thread_yield_run s (next_state n (queued c s)) n free d.result,
      switched-Turn s qs c n rest q d,
    )
