-- ===== src/Thread/Queue/Leave.antt =====
-- `tqueue_remove` and `tqueue_dequeue` among all the queues.
use mcertikos.Base.{
  ℕ, ◌<◌, ◌≡◌, ◌≢◌, inl, inr, refl, sym, ◌∙◌, ap, arith, false, ◌==◌, List, [], ◌∷◌, ◌++◌, update,
}
use mathlib.Core.Path.{subst}
use native.Mathlib.Decide.{ℕ_discrete}
use mcertikos.Pmm.Container.{num_ids}
use mcertikos.Thread.Tcb.{Threads, tcb_get_prev, tcb_get_next, tqueue_get_head}
use mcertikos.Thread.Queue.{unlink, drop_head, tqueue_dequeue, tqueue_remove}
use mcertikos.Thread.Queue.Segment.{
  In, first, final, SameLinks, In-append, In-left, In-right, segment-bound,
}
use mcertikos.Thread.Queue.Refine.{num_queues, IsQueue, IsQueues, replace_queue}
use mcertikos.Thread.Queue.Remove.{Removed, remove-IsQueue, first-In, last-In}

module _ (s : Threads) (qs : ℕ → List ℕ) (chid pid : ℕ) (xs ys : List ℕ) (h : IsQueues s qs)
    (lt : chid < num_queues) (e : qs chid ≡ xs ++ pid ∷ ys) where
  t : Threads
  t = tqueue_remove chid pid s

  q : IsQueue s chid (xs ++ pid ∷ ys)
  q = subst (IsQueue s chid) e (h.queue chid lt)

  gone : IsQueue t chid (xs ++ ys) × Removed chid pid (final num_ids xs) (first ys num_ids) s t
  unfolding t
  gone = remove-IsQueue s chid pid xs ys q

  -- A thread of another queue is none of those around `pid`.
  apart : (c y z : ℕ) → c < num_queues → c ≢ chid → In y (qs c) → In z (xs ++ pid ∷ ys) → y ≢ z
  apart c y z c_lt ne i j w =
      ne (h.apart c chid z c_lt lt (subst (λ u. In u (qs c)) w i) (subst (In z) (sym e) j))

  y_lt : (c y : ℕ) → c < num_queues → In y (qs c) → y < num_ids
  y_lt c y c_lt i = segment-bound s.tcb num_ids (qs c) num_ids y (h.queue c c_lt).links i

  not_first : (c y : ℕ) → c < num_queues → c ≢ chid → In y (qs c) → y ≢ first ys num_ids
  not_first c y c_lt ne i w = elim (ℕ_discrete (first ys num_ids) num_ids) [
    | yes z ↦ omega (arith, y_lt c y c_lt i)
    | no nz ↦
        apart c y (first ys num_ids) c_lt ne i
          (In-right (first ys num_ids) xs (pid ∷ ys) (inr (first-In ys num_ids nz))) w
  ]

  not_last : (c y : ℕ) → c < num_queues → c ≢ chid → In y (qs c) → y ≢ final num_ids xs
  not_last c y c_lt ne i w = elim (ℕ_discrete (final num_ids xs) num_ids) [
    | yes z ↦ omega (arith, y_lt c y c_lt i)
    | no nz ↦
        apart c y (final num_ids xs) c_lt ne i
          (In-left (final num_ids xs) xs (pid ∷ ys) (last-In xs num_ids nz)) w
  ]

  same_links : (c y : ℕ) → c < num_queues → c ≢ chid → In y (qs c) → SameLinks s.tcb t.tcb y
  same_links c y c_lt ne i =
      let (_, d) = gone in
      let other : y ≢ pid = apart c y pid c_lt ne i (In-right pid xs (pid ∷ ys) (inl refl)) in
      (d.same_prev y other (not_first c y c_lt ne i), d.same_next y other (not_last c y c_lt ne i))

  kept_In : (y : ℕ) → In y (xs ++ ys) → In y (xs ++ pid ∷ ys)
  kept_In y i = elim (In-append y xs ys i) [
    | inl j ↦ In-left y xs (pid ∷ ys) j
    | inr j ↦ In-right y xs (pid ∷ ys) (inr j)
  ]

  remove-IsQueues : IsQueues t (update qs chid (xs ++ ys))
  remove-IsQueues =
      let (g, d) = gone in
      replace_queue s t qs chid (xs ++ ys) h d.other_tq same_links g
        (λ c y c_lt ne i j. apart c y y c_lt ne j (kept_In y i) refl)

-- If the queues hold the lists `qs` and thread `pid` is in the list of queue `chid`, then removing it
-- leaves that list without the thread and the other queues as they were, and cuts the thread's links.
pub tqueue_remove-IsQueues :
    (s : Threads) (qs : ℕ → List ℕ) (chid pid : ℕ) (xs ys : List ℕ)
    → IsQueues s qs
    → chid < num_queues
    → qs chid ≡ xs ++ pid ∷ ys
    → let t = tqueue_remove chid pid s in
      IsQueues t (update qs chid (xs ++ ys))
      × ((t.tcb pid).prev ≡ num_ids)
      × ((t.tcb pid).next ≡ num_ids)
unfolding t
tqueue_remove-IsQueues s qs chid pid xs ys h lt e =
    let (_, d) = gone s qs chid pid xs ys h lt e in
    let (a, b) = d.cut in (remove-IsQueues s qs chid pid xs ys h lt e, a, b)

remove_first :
    (s : Threads) (chid pid : ℕ)
    → (s.tcb pid).prev ≡ num_ids
    → tqueue_remove chid pid s ≡ unlink pid (drop_head chid (s.tcb pid).next s)
unfolding tqueue_remove tcb_get_prev tcb_get_next
remove_first s chid pid e = rw e refl

dequeue_first :
    (s : Threads) (chid : ℕ)
    → (s.tq chid).head ≢ num_ids
    → let pid = (s.tq chid).head in
      tqueue_dequeue chid s ≡ (pid, unlink pid (drop_head chid (s.tcb pid).next s))
unfolding tqueue_dequeue tqueue_get_head tcb_get_next
dequeue_first s chid ne =
    let full : ((s.tq chid).head == num_ids) ≡ false = ground arith in rw full refl

dequeue_lem :
    (s : Threads) (chid pid : ℕ)
    → (s.tq chid).head ≡ pid
    → pid < num_ids
    → (s.tcb pid).prev ≡ num_ids
    → tqueue_dequeue chid s ≡ (pid, tqueue_remove chid pid s)
dequeue_lem s chid pid e lt f =
    dequeue_first s chid (omega arith)
    ∙ ap (λ p. (p, unlink p (drop_head chid (s.tcb p).next s))) e
    ∙ ap (λ t. (pid, t)) (sym (remove_first s chid pid f))

dequeue_empty :
    (s : Threads) (chid : ℕ) → (s.tq chid).head ≡ num_ids → tqueue_dequeue chid s ≡ (num_ids, s)
unfolding tqueue_dequeue tqueue_get_head
dequeue_empty s chid e = rw e refl

-- What `tqueue_dequeue` does to queue `chid`, which holds `xs`.
abbrev pub Dequeued : (ℕ → List ℕ) → ℕ → Threads → List ℕ → Type 0
Dequeued qs chid s [] = tqueue_dequeue chid s ≡ (num_ids, s)
Dequeued qs chid s (pid ∷ rest) =
    (tqueue_dequeue chid s ≡ (pid, tqueue_remove chid pid s))
    × IsQueues (tqueue_remove chid pid s) (update qs chid rest)

-- If the queues hold the lists `qs`, then dequeuing from an empty queue changes nothing and returns
-- the null index, and dequeuing from another returns the first thread of its list and removes it,
-- while the other queues keep their lists.
pub tqueue_dequeue-Dequeued :
    (s : Threads) (qs : ℕ → List ℕ) (chid : ℕ)
    → IsQueues s qs
    → chid < num_queues
    → Dequeued qs chid s (qs chid)
tqueue_dequeue-Dequeued s qs chid h lt = go (qs chid) refl
  where
    go : (xs : List ℕ) → qs chid ≡ xs → Dequeued qs chid s xs
    go [] e =
        let q : IsQueue s chid [] = subst (IsQueue s chid) e (h.queue chid lt) in
        dequeue_empty s chid q.head
    go (pid ∷ rest) e =
        let q : IsQueue s chid (pid ∷ rest) = subst (IsQueue s chid) e (h.queue chid lt) in
        let (pid_lt, pr, _, _) = q.links in
        let (left, _, _) = tqueue_remove-IsQueues s qs chid pid [] rest h lt e in
        (dequeue_lem s chid pid q.head pid_lt pr, left)
