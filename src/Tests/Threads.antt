-- ===== src/Tests/Threads.antt =====
-- The theorems of kern/thread at concrete states.
use mcertikos.Base.{
  ℕ, ◌<◌, ◌≡◌, ◌≢◌, ◌⊎◌, inl, inr, refl, sym, arith, true, false, ◌==◌, if◌then◌else◌, List, [],
  ◌∷◌, update, ok,
}
use mathlib.Core.Path.{subst}
use native.Mathlib.Decide.{ℕ_discrete}
use mcertikos.Pmm.Container.{num_ids}
use mcertikos.Thread.Tcb.{TState, ready, run, sleep, dead, Tcb, Threads, num_cpus}
use mcertikos.Thread.Queue.{tqueue_remove}
use mcertikos.Thread.Queue.Segment.{In}
use mcertikos.Thread.Queue.Refine.{IsQueue, IsQueues, IsLoose}
use mcertikos.Thread.Queue.Leave.{Dequeued, tqueue_remove-IsQueues, tqueue_dequeue-Dequeued}
use mcertikos.Thread.Sched.{thread_yield, thread_sleep, thread_wakeup}
use mcertikos.Thread.Sched.Sleepers.{Woken}
use mcertikos.Thread.Sched.Yield.{Turn, yielded}
use mcertikos.Thread.Sched.Yield.Rotation.{thread_yield_total}
use mcertikos.Thread.Sched.Wakeup.{awake, thread_wakeup_total}
use mcertikos.Thread.Sched.Sleep.{Slept, slept, lost, thread_sleep_total, thread_sleep-empty}
use mcertikos.Tests.Memory.{small}

abbrev blank : TState → ℕ → ℕ → ℕ → Tcb
blank state prev next channel = record {
  state = state;
  cpuid = num_cpus;
  prev = prev;
  next = next;
  channel = channel;
  openfiles = λ _. 0;
  cwd = 0;
}

-- Thread 1 runs, threads 2 and 3 are ready, thread 5 sleeps on channel 9, and the others are dead.
abbrev threads : ℕ → Tcb
threads i =
    if i == 1
    then blank run 64 64 0
    else if i == 2
    then blank ready 64 3 0
    else if i == 3
    then blank ready 2 64 0
    else if i == 5
    then blank sleep 64 64 9
    else blank dead 64 64 0

abbrev pub start : Threads
start = record {
  vmm = record {
    con = small;
    pdir = λ _ _. 0;
    memory = λ _. 0;
    idptbl = 0x10_0000;
    cr3 = 0;
    paging = true;
  };
  tcb = threads;
  tq = λ c. if c == 64 then record { head = 2; tail = 3 } else record { head = 64; tail = 64 };
  kctx = λ i. record { esp = i; edi = 0; esi = 0; ebx = 0; ebp = 0; eip = i };
  curid = λ _. 1;
  sched_ticks = λ _. 0;
  sched_lk = false;
  lks = λ _. true;
  cpu = 0;
  regs = record { esp = 0; edi = 0; esi = 0; ebx = 0; ebp = 0; eip = 0 };
}

abbrev pub lists : ℕ → List ℕ
lists c = if c == 64 then 2 ∷ 3 ∷ [] else []

ready_queue : IsQueue start 64 (2 ∷ 3 ∷ [])
ready_queue = record {
  head = refl;
  tail = refl;
  links = (omega arith, refl, refl, (omega arith, refl, refl, tt));
  once = (λ i. elim i [ inl e ↦ absurd (omega arith) | inr n ↦ elim n [ ] ], (λ i. elim i [ ], tt));
}

no_list : (c : ℕ) → c ≢ 64 → lists c ≡ []
no_list c ne = ground arith

only_ready : (c y : ℕ) → In y (lists c) → c ≡ 64
only_ready c y i = elim (ℕ_discrete c 64) [
  | yes e ↦ e
  | no ne ↦ elim (subst (In y) (no_list c ne) i) [ ]
]

empty_at : (c : ℕ) → c ≢ 64 → IsQueue start c (lists c)
empty_at c ne =
    subst (IsQueue start c) (sym (no_list c ne))
      (record { head = ground arith; tail = ground arith; links = tt; once = tt })

pub start-IsQueues : IsQueues start lists
start-IsQueues = record {
  queue = λ c lt. elim (ℕ_discrete c 64) [
    | yes e ↦ subst (λ d. IsQueue start d (lists d)) (sym e) ready_queue
    | no ne ↦ empty_at c ne
  ];
  apart = λ c c' y lt lt' i i'. omega (arith, only_ready c y i, only_ready c' y i');
}

In-ready : (y : ℕ) → In y (2 ∷ 3 ∷ []) → (y ≡ 2) ⊎ (y ≡ 3)
In-ready y (inl e) = inl e
In-ready y (inr (inl e)) = inr e
In-ready y (inr (inr n)) = elim n [ ]

pub loose : (pid : ℕ) → pid ≢ 2 → pid ≢ 3 → IsLoose lists pid
loose pid a b c lt i =
    let e = only_ready c pid i in
    elim (In-ready pid (subst (λ d. In pid (lists d)) e i)) [ inl z ↦ a z | inr z ↦ b z ]

tqueue_remove-IsQueues_example :
    let t = tqueue_remove 64 2 start in
    IsQueues t (update lists 64 (3 ∷ [])) × ((t.tcb 2).prev ≡ 64) × ((t.tcb 2).next ≡ 64)
tqueue_remove-IsQueues_example =
    tqueue_remove-IsQueues start lists 64 2 [] (3 ∷ []) start-IsQueues (omega arith) refl

tqueue_dequeue-Dequeued_example : Dequeued lists 64 start (2 ∷ 3 ∷ [])
tqueue_dequeue-Dequeued_example =
    tqueue_dequeue-Dequeued start lists 64 start-IsQueues (omega arith)

thread_yield_total_example :
    (thread_yield start ≡ ok (tt, yielded 1 2 start))
    × Turn start lists 1 2 (3 ∷ 1 ∷ []) (yielded 1 2 start)
thread_yield_total_example =
    thread_yield_total start lists 2 (3 ∷ 1 ∷ []) refl start-IsQueues (omega arith)
      (loose 1 (λ z. absurd (omega arith)) (λ z. absurd (omega arith))) refl

asleep_five : (pid : ℕ) → (start.tcb pid).state ≡ sleep → pid ≡ 5
asleep_five pid e = ground arith

thread_wakeup_total_example :
    let t = awake 9 start in
    (thread_wakeup 9 start ≡ ok (tt, t))
    × (t.sched_lk ≡ false)
    × IsQueues t (update lists 64 (2 ∷ 3 ∷ 5 ∷ []))
    × ((pid : ℕ) → pid < num_ids → Woken 9 start t pid)
thread_wakeup_total_example = thread_wakeup_total 9 start lists refl start-IsQueues (λ pid e.
    loose pid (λ z. absurd (omega (arith, asleep_five pid e)))
      (λ z. absurd (omega (arith, asleep_five pid e))))

thread_sleep_total_example :
    (thread_sleep 7 4096 start ≡ ok (tt, slept 7 4096 1 2 start))
    × Slept 7 4096 start lists 1 2 (3 ∷ []) (slept 7 4096 1 2 start)
thread_sleep_total_example =
    thread_sleep_total 7 4096 start lists 2 (3 ∷ []) refl (λ z. absurd (omega arith)) start-IsQueues
      (loose 1 (λ z. absurd (omega arith)) (λ z. absurd (omega arith))) refl

-- Thread 1 alone.
abbrev alone : Threads
alone = record start {
  tcb = λ i. if i == 1 then blank run 64 64 0 else blank dead 64 64 0;
  tq = λ _. record { head = 64; tail = 64 };
}

alone-IsQueues : IsQueues alone (λ _. [])
alone-IsQueues = record {
  queue = λ c lt. record { head = refl; tail = refl; links = tt; once = tt };
  apart = λ c c' y lt lt' i. elim i [ ];
}

thread_sleep-empty_example :
    let t = lost 7 4096 alone in
    (thread_sleep 7 4096 alone ≡ ok (tt, t))
    × (t.curid t.cpu ≡ num_ids)
    × (t.regs ≡ alone.kctx num_ids)
thread_sleep-empty_example =
    thread_sleep-empty 7 4096 alone (λ _. []) refl (λ z. absurd (omega arith)) alone-IsQueues
      (omega arith) refl
