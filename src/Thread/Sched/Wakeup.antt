-- ===== src/Thread/Sched/Wakeup.antt =====
-- `thread_wakeup` makes the sleepers of a channel ready.
use mcertikos.Base.{
  ℕ, ◌+◌, ◌-◌, ◌≤◌, ◌<◌, ◌≡◌, ◌≢◌, inl, inr, refl, sym, ◌∙◌, ap, arith, true, false, ◌&&◌, ◌==◌,
  leb, if◌then◌else◌, List, [], ◌∷◌, ◌++◌, update, ok, Bool, Bool-cases, for_range, for_range_inv,
  ◌>>◌, modify, bind_ok,
}
use mathlib.Core.Path.{subst}
use mathlib.Core.List.{append-nil}
use native.Mathlib.Decide.{ℕ_discrete}
use mcertikos.Pmm.Container.{num_ids}
use mcertikos.Thread.Tcb.{
  TState, ready, run, sleep, dead, Threads, tcb_get_chan, tcb_get_state, tcb_set_state,
  tcb_set_chan,
}
use mcertikos.Thread.Queue.{tqueue_enqueue}
use mcertikos.Thread.Queue.Refine.{IsQueues, IsLoose}
use mcertikos.Thread.Queue.Enqueue.{tqueue_enqueue-IsQueues}
use mcertikos.Thread.Queue.Frame.{tqueue_enqueue-OnlyQueues, keep-IsQueues}
use mcertikos.Thread.Sched.{acquire_sched, release_sched, is_sleep, sleeps_on, wake, thread_wakeup}
use mcertikos.Thread.Sched.Yield.{acquire_free}
use mcertikos.Thread.Sched.Yield.Rotation.{same_lists}
use mcertikos.Thread.Sched.Sleepers.{
  is_sleeper, sleepers, Woken, Below, later-IsLoose, lists, one_more, no_more,
}

module _ (chan : ℕ) (s : Threads) (qs : ℕ → List ℕ) (k : ℕ) where
  module _ (t : Threads) (b : Below chan s qs k t) (lo : 1 ≤ k) (hi : k < num_ids) where
    same_test : sleeps_on chan k t ≡ is_sleeper chan s k
    unfolding tcb_get_chan tcb_get_state
    same_test =
        let (st, ch) = b.todo k (omega arith) in
        let low : leb 1 k ≡ true = ground arith in
        ap (λ c. (c == chan) && is_sleep (t.tcb k).state) ch
        ∙ ap (λ x. ((s.tcb k).channel == chan) && is_sleep x) st
        ∙ ap (λ x. x && (((s.tcb k).channel == chan) && is_sleep (s.tcb k).state)) (sym low)

    woken_state : Threads
    woken_state = tqueue_enqueue num_ids k (tcb_set_chan k 0 (tcb_set_state k ready t))

    wake_yes : is_sleeper chan s k ≡ true → wake chan k t ≡ woken_state
    unfolding wake woken_state tcb_get_chan tcb_get_state
    wake_yes y =
        ap
          (λ x.
            if x then tqueue_enqueue num_ids k (tcb_set_chan k 0 (tcb_set_state k ready t)) else t)
          (same_test ∙ y)

    wake_no : is_sleeper chan s k ≡ false → wake chan k t ≡ t
    unfolding wake tcb_get_chan tcb_get_state
    wake_no y =
        ap
          (λ x.
            if x then tqueue_enqueue num_ids k (tcb_set_chan k 0 (tcb_set_state k ready t)) else t)
          (same_test ∙ y)

    wake-IsQueues :
        IsLoose qs k → is_sleeper chan s k ≡ true → IsQueues woken_state (lists chan s qs (k + 1))
    unfolding woken_state tcb_set_chan tcb_set_state lists
    wake-IsQueues new y =
        let u : Threads = tcb_set_chan k 0 (tcb_set_state k ready t) in
        same_lists woken_state
          (update (lists chan s qs k) num_ids (lists chan s qs k num_ids ++ k ∷ []))
          (lists chan s qs (k + 1)) (one_more chan s qs k y)
          (tqueue_enqueue-IsQueues u (lists chan s qs k) num_ids k
            (keep-IsQueues t u (lists chan s qs k) (λ _. refl) (λ y. (ground arith, ground arith))
              b.queues)
            (omega arith) hi (later-IsLoose chan s qs k new))

    at_state : (y : ℕ) → (woken_state.tcb y).state ≡ (if k == y then ready else (t.tcb y).state)
    unfolding woken_state tcb_set_chan tcb_set_state
    at_state y =
        let u : Threads = tcb_set_chan k 0 (tcb_set_state k ready t) in
        (tqueue_enqueue-OnlyQueues num_ids k u).same_state y ∙ ground arith

    at_chan : (y : ℕ) → (woken_state.tcb y).channel ≡ (if k == y then 0 else (t.tcb y).channel)
    unfolding woken_state tcb_set_chan tcb_set_state
    at_chan y =
        let u : Threads = tcb_set_chan k 0 (tcb_set_state k ready t) in
        (tqueue_enqueue-OnlyQueues num_ids k u).same_chan y ∙ ground arith

    -- One thread more has been handled.
    more :
        (u : Threads)
        → IsQueues u (lists chan s qs (k + 1))
        → Woken chan s u k
        → ((y : ℕ)
            → y ≢ k
            → ((u.tcb y).state ≡ (t.tcb y).state) × ((u.tcb y).channel ≡ (t.tcb y).channel))
        → Below chan s qs (k + 1) u
    unfolding lists
    more u q w same = record {
      queues = q;
      done = λ y lt. elim (ℕ_discrete y k) [
        | yes e ↦ subst (Woken chan s u) (sym e) w
        | no ne ↦
            let (st, ch) = same y ne in
            let d = b.done y (omega arith) in
            record {
              woken = λ z. let (st', ch') = d.woken z in (st ∙ st', ch ∙ ch');
              kept = λ z. let (st', ch') = d.kept z in (st ∙ st', ch ∙ ch');
            }
      ];
      todo = λ y le.
          let (st, ch) = same y (omega arith) in
          let (st', ch') = b.todo y (omega arith) in (st ∙ st', ch ∙ ch');
    }

    Below-wake :
        (is_sleeper chan s k ≡ true → IsLoose qs k) → Below chan s qs (k + 1) (wake chan k t)
    unfolding lists
    Below-wake new = elim (Bool-cases (is_sleeper chan s k)) [
      | inl y ↦ subst (Below chan s qs (k + 1)) (sym (wake_yes y)) (
          more woken_state (wake-IsQueues (new y) y)
            (record {
              woken = λ _. (at_state k ∙ ground arith, at_chan k ∙ ground arith);
              kept = λ z. ground arith;
            })
            (λ y ne. (at_state y ∙ ground arith, at_chan y ∙ ground arith)))
      | inr n ↦ subst (Below chan s qs (k + 1)) (sym (wake_no n)) (
          more t
            (same_lists t (lists chan s qs k) (lists chan s qs (k + 1)) (no_more chan s qs k n)
              b.queues)
            (record { woken = λ z. ground arith; kept = λ _. b.todo k (omega arith) })
            (λ y ne. (refl, refl)))
    ]

is_sleep_lem : (x : TState) → is_sleep x ≡ true → x ≡ sleep
is_sleep_lem ready e = ground arith
is_sleep_lem run e = ground arith
is_sleep_lem sleep e = refl
is_sleep_lem dead e = ground arith

&&-last : (a b : Bool) → (a && b) ≡ true → b ≡ true
&&-last a b e = ground arith

sleeper-sleep :
    (chan : ℕ) (s : Threads) (k : ℕ) → is_sleeper chan s k ≡ true → (s.tcb k).state ≡ sleep
sleeper-sleep chan s k y = is_sleep_lem (s.tcb k).state (
    &&-last ((s.tcb k).channel == chan) (is_sleep (s.tcb k).state)
      (&&-last (leb 1 k) (((s.tcb k).channel == chan) && is_sleep (s.tcb k).state) y))

-- The state in which `thread_wakeup` ends.
abbrev pub awake : ℕ → Threads → Threads
awake chan s =
    let t : Threads = for_range (num_ids - 1) 1 (wake chan) (record s { sched_lk = true }) in
    record t { sched_lk = false }

handled :
    (chan : ℕ) (s : Threads) (qs : ℕ → List ℕ)
    → IsQueues s qs
    → ((pid : ℕ) → (s.tcb pid).state ≡ sleep → IsLoose qs pid)
    → Below chan s qs num_ids (for_range (num_ids - 1) 1 (wake chan) s)
handled chan s qs h loose =
    for_range_inv (Below chan s qs) (wake chan) (num_ids - 1) 1 num_ids s refl
      (λ k t lo hi b. Below-wake chan s qs k t b lo hi (λ y. loose k (sleeper-sleep chan s k y)))
      (record {
        queues = same_lists s qs (update qs num_ids (qs num_ids ++ [])) none_woken h;
        done = λ y lt. record { woken = λ z. ground arith; kept = λ z. (refl, refl) };
        todo = λ y le. (refl, refl);
      })
  where
    none_woken : (c : ℕ) → qs c ≡ update qs num_ids (qs num_ids ++ []) c
    none_woken c =
        let e : qs num_ids ++ [] ≡ qs num_ids = append-nil (qs num_ids) in
        let same : update qs num_ids (qs num_ids) c ≡ qs c = elim (ℕ_discrete c num_ids) [
          | yes z ↦ subst (λ j. update qs num_ids (qs num_ids) j ≡ qs j) (sym z) refl
          | no ne ↦ ground arith
        ] in
        sym same ∙ ap (λ l. update qs num_ids l c) (sym e)

thread_wakeup_run :
    (chan : ℕ) (s : Threads) → s.sched_lk ≡ false → thread_wakeup chan s ≡ ok (tt, awake chan s)
unfolding thread_wakeup release_sched
thread_wakeup_run chan s free =
    bind_ok acquire_sched (λ _. modify (for_range (num_ids - 1) 1 (wake chan)) >> release_sched) s
      (record s { sched_lk = true }) tt (acquire_free s free)

-- Let no one hold the scheduler's lock, the queues hold the lists `qs`, and no sleeping thread be in a
-- queue. Then `thread_wakeup` returns with the lock free, appends to the ready queue the threads other
-- than 0 that sleep on the channel, in the order of their numbers, makes them ready and clears their
-- channel, and keeps the other queues and the state and channel of every other thread.
pub thread_wakeup_total :
    (chan : ℕ) (s : Threads) (qs : ℕ → List ℕ)
    → s.sched_lk ≡ false
    → IsQueues s qs
    → ((pid : ℕ) → (s.tcb pid).state ≡ sleep → IsLoose qs pid)
    → let t = awake chan s in
      (thread_wakeup chan s ≡ ok (tt, t))
      × (t.sched_lk ≡ false)
      × IsQueues t (update qs num_ids (qs num_ids ++ sleepers chan s num_ids))
      × ((pid : ℕ) → pid < num_ids → Woken chan s t pid)
thread_wakeup_total chan s qs free h loose =
    let s' : Threads = record s { sched_lk = true } in
    let b = handled chan s' qs (keep-IsQueues s s' qs (λ _. refl) (λ _. (refl, refl)) h) loose in
    (
      thread_wakeup_run chan s free,
      refl,
      keep-IsQueues (for_range (num_ids - 1) 1 (wake chan) s') (awake chan s)
          (update qs num_ids (qs num_ids ++ sleepers chan s num_ids)) (λ _. refl)
          (λ _. (refl, refl)) b.queues,
      λ pid lt. let w = b.done pid lt in record { woken = w.woken; kept = w.kept },
    )
