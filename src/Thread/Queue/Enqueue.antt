-- ===== src/Thread/Queue/Enqueue.antt =====
-- `tqueue_enqueue` appends to a queue.
use mcertikos.Base.{ℕ, ◌<◌, ◌≡◌, ◌≢◌, inl, inr, refl, sym, ◌∙◌, arith, List, [], ◌∷◌, ◌++◌, update}
use mathlib.Core.Path.{subst}
use mcertikos.Pmm.Container.{num_ids}
use mcertikos.Thread.Tcb.{
  Threads, tcb_set_prev, tcb_set_next, tqueue_get_tail, tqueue_set_head, tqueue_set_tail,
}
use mcertikos.Thread.Queue.{tqueue_enqueue}
use mcertikos.Thread.Queue.Segment.{
  In, final, SameLinks, final-In, segment_next, segment_join, segment-bound, In-append, NoDup-join,
  final-append,
}
use mcertikos.Thread.Queue.Refine.{num_queues, IsQueue, IsQueues, IsLoose, replace_queue}

-- What `tqueue_enqueue` changes, with the old tail `l`.
record Enqueued (chid pid l : ℕ) (s t : Threads) : Type 0 where
  tail : (t.tq chid).tail ≡ pid
  at_prev : (t.tcb pid).prev ≡ l
  at_next : (t.tcb pid).next ≡ num_ids
  same_prev : (y : ℕ) → y ≢ pid → (t.tcb y).prev ≡ (s.tcb y).prev
  same_next : (y : ℕ) → y ≢ pid → y ≢ l → (t.tcb y).next ≡ (s.tcb y).next

module _ (s : Threads) (chid pid : ℕ) where
  t : Threads
  unfolding tqueue_enqueue
  t = tqueue_enqueue chid pid s

  same_tq : (c : ℕ) → c ≢ chid → t.tq c ≡ s.tq c
  unfolding t tqueue_enqueue tqueue_get_tail tcb_set_prev tcb_set_next tqueue_set_head
      tqueue_set_tail
  same_tq c ne = ground arith

  Enqueued-first :
      (s.tq chid).tail ≡ num_ids
      → Enqueued chid pid num_ids s t
        × ((t.tq chid).head ≡ pid)
        × ((y : ℕ) → y ≢ pid → (t.tcb y).next ≡ (s.tcb y).next)
  unfolding t tqueue_enqueue tqueue_get_tail tcb_set_prev tcb_set_next tqueue_set_head
      tqueue_set_tail
  Enqueued-first e = (
    record {
      tail = ground arith;
      at_prev = ground arith;
      at_next = ground arith;
      same_prev = λ y ne. ground arith;
      same_next = λ y ne ne'. ground arith;
    },
    ground arith,
    λ y ne. ground arith,
  )

  Enqueued-last :
      (l : ℕ)
      → (s.tq chid).tail ≡ l
      → l ≢ num_ids
      → pid ≢ l
      → Enqueued chid pid l s t × ((t.tq chid).head ≡ (s.tq chid).head) × ((t.tcb l).next ≡ pid)
  unfolding t tqueue_enqueue tqueue_get_tail tcb_set_prev tcb_set_next tqueue_set_head
      tqueue_set_tail
  Enqueued-last l e ne apart = (
    record {
      tail = ground arith;
      at_prev = ground arith;
      at_next = ground arith;
      same_prev = λ y ne. ground arith;
      same_next = λ y ne ne'. ground arith;
    },
    ground arith,
    ground arith,
  )

  module _ (qs : ℕ → List ℕ) (h : IsQueues s qs) (lt : chid < num_queues) (hp : pid < num_ids)
      (new : IsLoose qs pid) where
    IsQueue-enqueue : (xs : List ℕ) → qs chid ≡ xs → IsQueue t chid (xs ++ pid ∷ [])
    IsQueue-enqueue [] e =
        let q : IsQueue s chid [] = subst (IsQueue s chid) e (h.queue chid lt) in
        let (d, hd, _) = Enqueued-first q.tail in
        record {
          head = hd;
          tail = d.tail;
          links = (hp, d.at_prev, d.at_next, tt);
          once = (λ i. elim i [ ], tt);
        }
    IsQueue-enqueue (x ∷ xs) e =
        let q : IsQueue s chid (x ∷ xs) = subst (IsQueue s chid) e (h.queue chid lt) in
        let away : ¬ In pid (x ∷ xs) = λ i. new chid lt (subst (In pid) (sym e) i) in
        let l = final x xs in
        let l_lt : l < num_ids =
          segment-bound s.tcb num_ids (x ∷ xs) num_ids l q.links (final-In x xs) in
        let apart : pid ≢ l = λ z. away (subst (λ u. In u (x ∷ xs)) (sym z) (final-In x xs)) in
        let other : (y : ℕ) → In y (x ∷ xs) → y ≢ pid =
          λ y i z. away (subst (λ u. In u (x ∷ xs)) z i) in
        let (d, hd, nx) = Enqueued-last l q.tail (omega arith) apart in
        record {
          head = hd ∙ q.head;
          tail = d.tail ∙ sym (final-append num_ids (x ∷ xs) (pid ∷ []));
          links =
              segment_join t.tcb num_ids (x ∷ xs) (pid ∷ []) num_ids
                (segment_next s.tcb t.tcb num_ids x xs num_ids pid q.once
                  (λ y i. d.same_prev y (other y i)) (λ y i ne. d.same_next y (other y i) ne) nx
                  q.links)
                (hp, d.at_prev, d.at_next, tt);
          once =
              NoDup-join (x ∷ xs) (pid ∷ []) q.once ((λ i. elim i [ ]), tt)
                (λ y i j. elim j [ inl z ↦ other y i z | inr k ↦ elim k [ ] ]);
        }

    -- The threads of the other queues keep their links.
    same_links : (c y : ℕ) → c < num_queues → c ≢ chid → In y (qs c) → SameLinks s.tcb t.tcb y
    same_links c y c_lt ne i = go (qs chid) refl
      where
        other : y ≢ pid
        other z = new c c_lt (subst (λ u. In u (qs c)) z i)

        go : (xs : List ℕ) → qs chid ≡ xs → SameLinks s.tcb t.tcb y
        go [] e =
            let q : IsQueue s chid [] = subst (IsQueue s chid) e (h.queue chid lt) in
            let (d, _, nx) = Enqueued-first q.tail in (d.same_prev y other, nx y other)
        go (x ∷ xs) e =
            let q : IsQueue s chid (x ∷ xs) = subst (IsQueue s chid) e (h.queue chid lt) in
            let l = final x xs in
            let l_in : In l (qs chid) = subst (In l) (sym e) (final-In x xs) in
            let l_lt : l < num_ids =
              segment-bound s.tcb num_ids (x ∷ xs) num_ids l q.links (final-In x xs) in
            let apart : pid ≢ l = λ z. new chid lt (subst (λ u. In u (qs chid)) (sym z) l_in) in
            let (d, _, _) = Enqueued-last l q.tail (omega arith) apart in
            (
              d.same_prev y other,
              d.same_next y other
                  (λ z. ne (h.apart c chid y c_lt lt i (subst (λ u. In u (qs chid)) (sym z) l_in))),
            )

    enqueue-IsQueues : IsQueues t (update qs chid (qs chid ++ pid ∷ []))
    enqueue-IsQueues =
        replace_queue s t qs chid (qs chid ++ pid ∷ []) h same_tq same_links
          (IsQueue-enqueue (qs chid) refl)
          (λ c y c_lt ne i j. elim (In-append y (qs chid) (pid ∷ []) i) [
            | inl k ↦ ne (h.apart c chid y c_lt lt j k)
            | inr k ↦ elim k [
              | inl z ↦ new c c_lt (subst (λ u. In u (qs c)) z j)
              | inr n ↦ elim n [ ]
            ]
          ])

-- If the queues hold the lists `qs` and thread `pid` is in none of them, then enqueuing it on queue
-- `chid` appends it to that list, and every other queue keeps its list.
pub tqueue_enqueue-IsQueues :
    (s : Threads) (qs : ℕ → List ℕ) (chid pid : ℕ)
    → IsQueues s qs
    → chid < num_queues
    → pid < num_ids
    → IsLoose qs pid
    → IsQueues (tqueue_enqueue chid pid s) (update qs chid (qs chid ++ pid ∷ []))
unfolding t
tqueue_enqueue-IsQueues s qs chid pid h lt hp new = enqueue-IsQueues s chid pid qs h lt hp new
