-- ===== src/Thread/Sched/Start.antt =====
-- `tcb_init`, `tqueue_init` and `thread_init`: the threads at boot.
use mcertikos.Base.{
  ℕ, ◌+◌, ◌≤◌, ◌<◌, ◌≡◌, ◌≢◌, refl, sym, ◌∙◌, arith, false, List, [], update, for_range,
  for_range_inv,
}
use mathlib.Core.Path.{subst}
use native.Mathlib.Decide.{ℕ_discrete}
use mcertikos.Pmm.MemoryMap.{Entry}
use mcertikos.Pmm.Container.{num_ids}
use mcertikos.Vmm.Init.{paging_init}
use mcertikos.Thread.Tcb.{
  run, dead, Tcb, Threads, num_cpus, tcb_set_state, tcb_init_at_id, tcb_init, tqueue_init_at_id,
}
use mcertikos.Thread.Context.{set_curid}
use mcertikos.Thread.Queue.{tqueue_init}
use mcertikos.Thread.Queue.Refine.{num_queues, IsQueues}
use mcertikos.Thread.Sched.{thread_init}

-- A thread control block that `tcb_init_at_id` has set up over `old`.
pub record Fresh (root : ℕ) (old new : Tcb) : Type 0 where
  pub state : new.state ≡ dead
  pub prev : new.prev ≡ num_ids
  pub next : new.next ≡ num_ids
  pub channel : new.channel ≡ 0
  pub cwd : new.cwd ≡ root
  pub first_file : new.openfiles 0 ≡ 0
  pub other_files : (fd : ℕ) → 0 < fd → new.openfiles fd ≡ old.openfiles fd

-- The blocks below `n` are set up, and those above are as in `s`.
record Blocks (root : ℕ) (s : Threads) (n : ℕ) (t : Threads) : Type 0 where
  done : (pid : ℕ) → pid < n → Fresh root (s.tcb pid) (t.tcb pid)
  todo : (pid : ℕ) → n ≤ pid → t.tcb pid ≡ s.tcb pid
  same_vmm : t.vmm ≡ s.vmm
  same_cpu : t.cpu ≡ s.cpu
  same_lk : t.sched_lk ≡ s.sched_lk

init-Fresh :
    (root : ℕ) (n : ℕ) (t : Threads) → Fresh root (t.tcb n) ((tcb_init_at_id root n t).tcb n)
unfolding tcb_init_at_id
init-Fresh root n t = record {
  state = ground arith;
  prev = ground arith;
  next = ground arith;
  channel = ground arith;
  cwd = ground arith;
  first_file = ground arith;
  other_files = λ fd p. ground arith;
}

init_off : (root n pid : ℕ) (t : Threads) → pid ≢ n → (tcb_init_at_id root n t).tcb pid ≡ t.tcb pid
unfolding tcb_init_at_id
init_off root n pid t ne = ground arith

Blocks-step :
    (root : ℕ) (s : Threads) (n : ℕ) (t : Threads)
    → Blocks root s n t
    → Blocks root s (n + 1) (tcb_init_at_id root n t)
unfolding tcb_init_at_id
Blocks-step root s n t b =
    let u = tcb_init_at_id root n t in
    record {
      done = λ pid lt. elim (ℕ_discrete pid n) [
        | yes e ↦
            subst (λ j. Fresh root (s.tcb j) (u.tcb j)) (sym e)
              (subst (λ o. Fresh root o (u.tcb n)) (b.todo n (omega arith)) (init-Fresh root n t))
        | no ne ↦
            subst (Fresh root (s.tcb pid)) (sym (init_off root n pid t ne))
              (b.done pid (omega arith))
      ];
      todo = λ pid le. init_off root n pid t (omega arith) ∙ b.todo pid (omega arith);
      same_vmm = b.same_vmm;
      same_cpu = b.same_cpu;
      same_lk = b.same_lk;
    }

tcb_init-Blocks :
    (root : ℕ) (es : List Entry) (s : Threads)
    → Blocks root (record s { vmm = paging_init es s.vmm }) num_ids (tcb_init root es s)
unfolding tcb_init
tcb_init-Blocks root es s =
    let s' : Threads = record s { vmm = paging_init es s.vmm } in
    for_range_inv (Blocks root s') (tcb_init_at_id root) num_ids 0 num_ids s' refl
      (λ n t lo hi b. Blocks-step root s' n t b)
      (record {
        done = λ pid lt. absurd (omega arith);
        todo = λ pid le. refl;
        same_vmm = refl;
        same_cpu = refl;
        same_lk = refl;
      })

-- The queues below `n` are empty.
record Emptied (s : Threads) (n : ℕ) (t : Threads) : Type 0 where
  heads : (c : ℕ) → c < n → (t.tq c).head ≡ num_ids
  tails : (c : ℕ) → c < n → (t.tq c).tail ≡ num_ids
  same_tcb : (pid : ℕ) → t.tcb pid ≡ s.tcb pid
  same_vmm : t.vmm ≡ s.vmm
  same_cpu : t.cpu ≡ s.cpu
  same_lk : t.sched_lk ≡ s.sched_lk

tqueue_init-Emptied :
    (root : ℕ) (es : List Entry) (s : Threads)
    → Emptied (tcb_init root es s) num_queues (tqueue_init root es s)
unfolding tqueue_init tqueue_init_at_id
tqueue_init-Emptied root es s =
    let s' = tcb_init root es s in
    for_range_inv (Emptied s') tqueue_init_at_id num_queues 0 num_queues s' refl
      (λ n t lo hi b. record {
        heads = λ c lt. ground (arith, b.heads c);
        tails = λ c lt. ground (arith, b.tails c);
        same_tcb = b.same_tcb;
        same_vmm = b.same_vmm;
        same_cpu = b.same_cpu;
        same_lk = b.same_lk;
      })
      (record {
        heads = λ c lt. absurd (omega arith);
        tails = λ c lt. absurd (omega arith);
        same_tcb = λ pid. refl;
        same_vmm = refl;
        same_cpu = refl;
        same_lk = refl;
      })

-- `thread_init` runs the initialisers of the layers below, and leaves every queue empty, the
-- scheduler's lock free, and thread 0 current and running on this processor. Every other thread is
-- dead, and of the open files of a thread only the first is cleared.
pub thread_init_lem :
    (root : ℕ) (es : List Entry) (s : Threads)
    → let t = thread_init root es s in
      (t.vmm ≡ paging_init es s.vmm)
      × IsQueues t (λ _. [])
      × (t.sched_lk ≡ false)
      × (t.curid t.cpu ≡ 0)
      × ((t.tcb 0).state ≡ run)
      × ((pid : ℕ) → 0 < pid → pid < num_ids → Fresh root (s.tcb pid) (t.tcb pid))
unfolding thread_init set_curid tcb_set_state
thread_init_lem root es s =
    let ticks = for_range num_cpus 0 (λ i f. update f i 0) s.sched_ticks in
    let s' : Threads = record s { sched_ticks = ticks; sched_lk = false } in
    let b = tcb_init-Blocks root es s' in
    let q = tqueue_init-Emptied root es s' in
    let t : Threads = tqueue_init root es s' in
    (
      q.same_vmm ∙ b.same_vmm,
      record {
        queue = λ c lt. record { head = q.heads c lt; tail = q.tails c lt; links = tt; once = tt };
        apart = λ c c' y lt lt' i. elim i [ ];
      },
      q.same_lk ∙ b.same_lk,
      at_cpu t.curid t.cpu,
      refl,
      λ pid lo hi.
          subst (Fresh root (s.tcb pid)) (sym (other_pid t pid lo ∙ q.same_tcb pid))
            (b.done pid hi),
    )
  where
    at_cpu : (f : ℕ → ℕ) (c : ℕ) → update f c 0 c ≡ 0
    at_cpu f c = ground arith

    other_pid : (t : Threads) (pid : ℕ) → 0 < pid → (tcb_set_state 0 run t).tcb pid ≡ t.tcb pid
    other_pid t pid lo = ground arith
