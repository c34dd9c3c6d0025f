-- ===== src/Thread/Sched/Sleepers.antt =====
-- The sleepers of a channel, and the ready queue that they join.
use mcertikos.Base.{
  ℕ, zero, suc, ◌+◌, ◌≤◌, ◌<◌, ◌≡◌, ◌≢◌, inl, inr, sym, ◌∙◌, ap, arith, true, false, ◌&&◌, ◌==◌,
  leb, if◌then◌else◌, List, [], ◌∷◌, ◌++◌, update, Bool, Bool-cases,
}
use mathlib.Core.Path.{subst}
use mathlib.Core.List.{append-nil, append_assoc}
use native.Mathlib.Decide.{ℕ_discrete}
use mcertikos.Pmm.Container.{num_ids}
use mcertikos.Thread.Tcb.{ready, Threads}
use mcertikos.Thread.Queue.Segment.{In, In-append}
use mcertikos.Thread.Queue.Refine.{IsQueues, IsLoose}
use mcertikos.Thread.Sched.{is_sleep}

-- Thread `pid`, not 0, sleeps on the channel.
abbrev pub is_sleeper : ℕ → Threads → ℕ → Bool
is_sleeper chan s pid = leb 1 pid && (((s.tcb pid).channel == chan) && is_sleep (s.tcb pid).state)

-- Those of the threads below `k`, in order.
abbrev pub sleepers : ℕ → Threads → ℕ → List ℕ
sleepers chan s zero = []
sleepers chan s (suc k) = sleepers chan s k ++ (if is_sleeper chan s k then k ∷ [] else [])

-- What `thread_wakeup` has done to a thread.
pub record Woken (chan : ℕ) (s t : Threads) (pid : ℕ) : Type 0 where
  pub woken : is_sleeper chan s pid ≡ true → ((t.tcb pid).state ≡ ready) × ((t.tcb pid).channel ≡ 0)
  pub kept :
      is_sleeper chan s pid ≡ false
      → ((t.tcb pid).state ≡ (s.tcb pid).state) × ((t.tcb pid).channel ≡ (s.tcb pid).channel)

-- The loop has handled the threads below `k`.
pub record Below (chan : ℕ) (s : Threads) (qs : ℕ → List ℕ) (k : ℕ) (t : Threads) : Type 0 where
  pub queues : IsQueues t (update qs num_ids (qs num_ids ++ sleepers chan s k))
  pub done : (y : ℕ) → y < k → Woken chan s t y
  pub todo :
      (y : ℕ)
      → k ≤ y
      → ((t.tcb y).state ≡ (s.tcb y).state) × ((t.tcb y).channel ≡ (s.tcb y).channel)

-- The sleepers below `k` are threads below `k`.
sleepers-lt : (chan : ℕ) (s : Threads) (k y : ℕ) → In y (sleepers chan s k) → y < k
sleepers-lt chan s zero y i = elim i [ ]
sleepers-lt chan s (suc k) y i =
    elim (In-append y (sleepers chan s k) (if is_sleeper chan s k then k ∷ [] else []) i) [
      | inl j ↦ omega (arith, sleepers-lt chan s k y j)
      | inr j ↦ elim (Bool-cases (is_sleeper chan s k)) [
        | inl e ↦
            let z : In y (k ∷ []) = subst (λ b. In y (if b then k ∷ [] else [])) e j in
            elim z [ inl w ↦ omega arith | inr n ↦ elim n [ ] ]
        | inr e ↦ elim (subst (λ b. In y (if b then k ∷ [] else [])) e j) [ ]
      ]
    ]

-- A sleeper that is in no queue of `s` is in none once those below it are woken.
pub later-IsLoose :
    (chan : ℕ) (s : Threads) (qs : ℕ → List ℕ) (k : ℕ)
    → IsLoose qs k
    → IsLoose (update qs num_ids (qs num_ids ++ sleepers chan s k)) k
later-IsLoose chan s qs k new c lt i = elim (ℕ_discrete c num_ids) [
  | yes e ↦
      let at : update qs num_ids (qs num_ids ++ sleepers chan s k) c
          ≡ qs num_ids ++ sleepers chan s k =
        ground arith in
      elim (In-append k (qs num_ids) (sleepers chan s k) (subst (In k) at i)) [
        | inl j ↦ new num_ids (omega arith) j
        | inr j ↦ omega (arith, sleepers-lt chan s k k j)
      ]
  | no ne ↦
      let off : update qs num_ids (qs num_ids ++ sleepers chan s k) c ≡ qs c = ground arith in
      new c lt (subst (In k) off i)
]

-- The lists with the sleepers below `k` in the ready queue, and one more of them.
module _ (chan : ℕ) (s : Threads) (qs : ℕ → List ℕ) where
  unfoldable pub lists : ℕ → ℕ → List ℕ
  lists j = update qs num_ids (qs num_ids ++ sleepers chan s j)

  lists_ready : (j : ℕ) → lists j num_ids ≡ qs num_ids ++ sleepers chan s j
  unfolding lists
  lists_ready j = ground arith

  lists_other : (j c : ℕ) → c ≢ num_ids → lists j c ≡ qs c
  unfolding lists
  lists_other j c ne = ground arith

  pub one_more :
      (k : ℕ)
      → is_sleeper chan s k ≡ true
      → (c : ℕ) → update (lists k) num_ids (lists k num_ids ++ k ∷ []) c ≡ lists (k + 1) c
  one_more k y c = elim (ℕ_discrete c num_ids) [
    | yes e ↦
        let at : update (lists k) num_ids (lists k num_ids ++ k ∷ []) c
            ≡ lists k num_ids ++ k ∷ [] =
          ground arith in
        let longer : sleepers chan s (suc k) ≡ sleepers chan s k ++ k ∷ [] =
          ap (λ b. sleepers chan s k ++ (if b then k ∷ [] else [])) y in
        at
        ∙ ap (λ l. l ++ k ∷ []) (lists_ready k)
        ∙ append_assoc (qs num_ids) (sleepers chan s k) (k ∷ [])
        ∙ ap (λ l. qs num_ids ++ l) (sym longer)
        ∙ sym (lists_ready (suc k))
        ∙ ap (lists (suc k)) (sym e)
        ∙ ap (λ j. lists j c) suc_lem
    | no ne ↦
        let off : update (lists k) num_ids (lists k num_ids ++ k ∷ []) c ≡ lists k c =
          ground arith in
        off ∙ lists_other k c ne ∙ sym (lists_other (k + 1) c ne)
  ]
    where
      suc_lem : suc k ≡ k + 1
      suc_lem = omega arith

  pub no_more : (k : ℕ) → is_sleeper chan s k ≡ false → (c : ℕ) → lists k c ≡ lists (k + 1) c
  no_more k y c = elim (ℕ_discrete c num_ids) [
    | yes e ↦
        let same : sleepers chan s (suc k) ≡ sleepers chan s k =
          ap (λ b. sleepers chan s k ++ (if b then k ∷ [] else [])) y
          ∙ append-nil (sleepers chan s k) in
        ap (lists k) e
        ∙ lists_ready k
        ∙ ap (λ l. qs num_ids ++ l) (sym same)
        ∙ sym (lists_ready (suc k))
        ∙ ap (lists (suc k)) (sym e)
        ∙ ap (λ j. lists j c) suc_lem
    | no ne ↦ lists_other k c ne ∙ sym (lists_other (k + 1) c ne)
  ]
    where
      suc_lem : suc k ≡ k + 1
      suc_lem = omega arith
