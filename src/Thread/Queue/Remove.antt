-- ===== src/Thread/Queue/Remove.antt =====
-- `tqueue_remove` and `tqueue_dequeue` take a thread out of a queue.
use mcertikos.Base.{ℕ, ◌<◌, ◌≡◌, ◌≢◌, inl, inr, refl, sym, ◌∙◌, ap, arith, List, [], ◌∷◌, ◌++◌}
use mathlib.Core.Path.{subst}
use native.Mathlib.Decide.{ℕ_discrete}
use mcertikos.Pmm.Container.{num_ids}
use mcertikos.Thread.Tcb.{
  Threads, tcb_get_prev, tcb_get_next, tcb_set_prev, tcb_set_next, tqueue_set_head, tqueue_set_tail,
}
use mcertikos.Thread.Queue.{tqueue_remove}
use mcertikos.Thread.Queue.Segment.{
  In, NoDup, first, final, IsSegment, final-In, segment_next, segment_prev, segment_split,
  segment_join, segment-bound, In-left, In-right, NoDup-apart, NoDup-split, NoDup-join,
  final-append,
}
use mcertikos.Thread.Queue.Refine.{IsQueue}

-- What `tqueue_remove` does with a thread between `p` and `n`.
pub record Removed (chid pid p n : ℕ) (s t : Threads) : Type 0 where
  pub other_tq : (c : ℕ) → c ≢ chid → t.tq c ≡ s.tq c
  pub head_first : p ≡ num_ids → (t.tq chid).head ≡ n
  pub head_later : p ≢ num_ids → (t.tq chid).head ≡ (s.tq chid).head
  pub tail_last : n ≡ num_ids → (t.tq chid).tail ≡ p
  pub tail_earlier : n ≢ num_ids → (t.tq chid).tail ≡ (s.tq chid).tail
  pub at_prev : p ≢ num_ids → (t.tcb p).next ≡ n
  pub at_next : n ≢ num_ids → (t.tcb n).prev ≡ p
  pub same_prev : (y : ℕ) → y ≢ pid → y ≢ n → (t.tcb y).prev ≡ (s.tcb y).prev
  pub same_next : (y : ℕ) → y ≢ pid → y ≢ p → (t.tcb y).next ≡ (s.tcb y).next
  pub cut : ((t.tcb pid).prev ≡ num_ids) × ((t.tcb pid).next ≡ num_ids)

removed :
    (s : Threads) (chid pid p n : ℕ)
    → (s.tcb pid).prev ≡ p
    → (s.tcb pid).next ≡ n
    → p ≢ pid
    → n ≢ pid
    → (p ≡ n → p ≡ num_ids)
    → Removed chid pid p n s (tqueue_remove chid pid s)
unfolding tqueue_remove tcb_get_prev tcb_get_next tcb_set_prev tcb_set_next tqueue_set_head
    tqueue_set_tail
removed s chid pid p n ep en np nn apart = record {
  other_tq = λ c ne. ground arith;
  head_first = λ z. ground arith;
  head_later = λ z. ground arith;
  tail_last = λ z. ground arith;
  tail_earlier = λ z. ground arith;
  at_prev = λ z. ground arith;
  at_next = λ z. ground arith;
  same_prev = λ y ne ne'. ground arith;
  same_next = λ y ne ne'. ground arith;
  cut = (ground arith, ground arith);
}

-- The neighbours of a thread are in the parts of the queue around it.
pub first-In : (ys : List ℕ) (n : ℕ) → first ys n ≢ n → In (first ys n) ys
first-In [] n ne = absurd (ne refl)
first-In (y ∷ ys) n ne = inl refl

pub last-In : (xs : List ℕ) (q : ℕ) → final q xs ≢ q → In (final q xs) xs
last-In [] q ne = absurd (ne refl)
last-In (x ∷ xs) q ne = final-In x xs

module _ (s : Threads) (chid pid : ℕ) (xs ys : List ℕ) (q : IsQueue s chid (xs ++ pid ∷ ys)) where
  t : Threads
  t = tqueue_remove chid pid s

  p : ℕ
  p = final num_ids xs

  n : ℕ
  n = first ys num_ids

  bound : (y : ℕ) → In y (xs ++ pid ∷ ys) → y < num_ids
  bound y i = segment-bound s.tcb num_ids (xs ++ pid ∷ ys) num_ids y q.links i

  left : IsSegment s.tcb num_ids xs pid
  left = let (a, _) = segment_split s.tcb num_ids xs (pid ∷ ys) num_ids q.links in a

  right : IsSegment s.tcb p (pid ∷ ys) num_ids
  unfolding p
  right = let (_, b) = segment_split s.tcb num_ids xs (pid ∷ ys) num_ids q.links in b

  once_ys : NoDup (pid ∷ ys)
  once_ys = let (_, b) = NoDup-split xs (pid ∷ ys) q.once in b

  before : (y : ℕ) → In y xs → (y < num_ids) × (y ≢ pid) × ¬ In y ys
  before y i =
      let apart = NoDup-apart xs (pid ∷ ys) y q.once i in
      (bound y (In-left y xs (pid ∷ ys) i), λ z. apart (inl z), λ j. apart (inr j))

  behind : (y : ℕ) → In y ys → (y < num_ids) × (y ≢ pid) × ¬ In y xs
  behind y i =
      let (new, _) = once_ys in
      (
        bound y (In-right y xs (pid ∷ ys) (inr i)),
        λ z. new (subst (λ u. In u ys) z i),
        λ j. NoDup-apart xs (pid ∷ ys) y q.once j (inr i),
      )

  p-In : p ≢ num_ids → In p xs
  unfolding p
  p-In ne = last-In xs num_ids ne

  n-In : n ≢ num_ids → In n ys
  unfolding n
  n-In ne = first-In ys num_ids ne

  pid_lt : pid < num_ids
  pid_lt = bound pid (In-right pid xs (pid ∷ ys) (inl refl))

  p_ne : p ≢ pid
  p_ne z = elim (ℕ_discrete p num_ids) [
    | yes e ↦ omega (arith, pid_lt)
    | no ne ↦ let (_, d, _) = before p (p-In ne) in d z
  ]

  n_ne : n ≢ pid
  n_ne z = elim (ℕ_discrete n num_ids) [
    | yes e ↦ omega (arith, pid_lt)
    | no ne ↦ let (_, d, _) = behind n (n-In ne) in d z
  ]

  p_n : p ≡ n → p ≡ num_ids
  p_n z = elim (ℕ_discrete p num_ids) [
    | yes e ↦ e
    | no ne ↦
        let (_, _, d) = before p (p-In ne) in
        absurd (d (subst (λ u. In u ys) (sym z) (n-In (λ w. ne (z ∙ w)))))
  ]

  d : Removed chid pid p n s t
  unfolding t p n
  d = let (_, ep, en, _) = right in removed s chid pid p n ep en p_ne n_ne p_n

  not_n : (y : ℕ) → In y xs → y ≢ n
  not_n y i z = elim (ℕ_discrete n num_ids) [
    | yes e ↦ let (lt, _, _) = before y i in omega arith
    | no ne ↦ let (_, _, new) = before y i in new (subst (λ u. In u ys) (sym z) (n-In ne))
  ]

  not_p : (y : ℕ) → In y ys → y ≢ p
  not_p y i z = elim (ℕ_discrete p num_ids) [
    | yes e ↦ let (lt, _, _) = behind y i in omega arith
    | no ne ↦ let (_, _, new) = behind y i in new (subst (λ u. In u xs) (sym z) (p-In ne))
  ]

  p_lem : final num_ids xs ≡ p
  unfolding p
  p_lem = refl

  n_lem : first ys num_ids ≡ n
  unfolding n
  n_lem = refl

  left_kept :
      (zs : List ℕ) → zs ≡ xs → IsSegment s.tcb num_ids zs pid → IsSegment t.tcb num_ids zs n
  left_kept [] e h = tt
  left_kept (x ∷ zs) e h =
      let member : (y : ℕ) → In y (x ∷ zs) → In y xs = λ y i. subst (In y) e i in
      let end_lt : final x zs < num_ids =
        (let (lt, _, _) = before (final x zs) (member (final x zs) (final-In x zs)) in lt) in
      let same : final x zs ≡ p = ap (final num_ids) e ∙ p_lem in
      let once_xs : NoDup xs = (let (a, _) = NoDup-split xs (pid ∷ ys) q.once in a) in
      segment_next s.tcb t.tcb num_ids x zs pid n (subst NoDup (sym e) once_xs)
        (λ y i. let (_, ne, _) = before y (member y i) in d.same_prev y ne (not_n y (member y i)))
        (λ y i ne'.
          let (_, ne, _) = before y (member y i) in d.same_next y ne (λ z. ne' (z ∙ sym same)))
        (subst (λ u. (t.tcb u).next ≡ n) (sym same) (d.at_prev (λ z. omega (arith, end_lt, same))))
        h

  right_kept :
      (zs : List ℕ) → zs ≡ ys → IsSegment s.tcb pid zs num_ids → IsSegment t.tcb p zs num_ids
  right_kept [] e h = tt
  right_kept (y ∷ zs) e h =
      let member : (z : ℕ) → In z (y ∷ zs) → In z ys = λ z i. subst (In z) e i in
      let same : y ≡ n = ap (λ l. first l num_ids) e ∙ n_lem in
      let y_lt : y < num_ids = (let (lt, _, _) = behind y (member y (inl refl)) in lt) in
      let once : NoDup (y ∷ zs) = subst NoDup (sym e) (let (_, b) = once_ys in b) in
      let (new, _) = once in
      segment_prev s.tcb t.tcb pid p y zs num_ids
        (λ z i. let (_, ne, _) = behind z (member z i) in d.same_next z ne (not_p z (member z i)))
        (λ z i.
          let (_, ne, _) = behind z (member z (inr i)) in
          d.same_prev z ne (λ w. new (subst (λ u. In u zs) (w ∙ sym same) i)))
        (subst (λ u. (t.tcb u).prev ≡ p) (sym same) (d.at_next (λ z. omega (arith, y_lt, same)))) h

  removed-IsQueue : IsQueue t chid (xs ++ ys)
  removed-IsQueue = record {
    head = head_at xs refl;
    tail = tail_at ys refl;
    links =
        segment_join t.tcb num_ids xs ys num_ids
          (subst (IsSegment t.tcb num_ids xs) (sym n_lem) (left_kept xs refl left))
          (subst (λ u. IsSegment t.tcb u ys num_ids) (sym p_lem)
            (right_kept ys refl (let (_, _, _, h) = right in h)));
    once =
        NoDup-join xs ys (let (a, _) = NoDup-split xs (pid ∷ ys) q.once in a)
          (let (_, b) = once_ys in b) (λ y i. let (_, _, new) = before y i in new);
  }
    where
      head_at : (zs : List ℕ) → zs ≡ xs → (t.tq chid).head ≡ first (zs ++ ys) num_ids
      head_at [] e = d.head_first (sym p_lem ∙ ap (final num_ids) (sym e)) ∙ sym n_lem
      head_at (x ∷ zs) e =
          let later : p ≢ num_ids = λ z.
            let i : In (final x zs) xs = subst (In (final x zs)) e (final-In x zs) in
            let (lt, _, _) = before (final x zs) i in
            omega (arith, lt, z, p_lem, ap (final num_ids) e) in
          d.head_later later ∙ q.head ∙ ap (λ l. first (l ++ pid ∷ ys) num_ids) (sym e)

      tail_at : (zs : List ℕ) → zs ≡ ys → (t.tq chid).tail ≡ final num_ids (xs ++ zs)
      tail_at [] e =
          d.tail_last (sym n_lem ∙ ap (λ l. first l num_ids) (sym e))
          ∙ sym p_lem
          ∙ sym (final-append num_ids xs [])
      tail_at (y ∷ zs) e =
          let earlier : n ≢ num_ids = λ z.
            let (lt, _, _) = behind y (subst (In y) e (inl refl)) in
            omega (arith, lt, z, n_lem, ap (λ l. first l num_ids) e) in
          d.tail_earlier earlier
          ∙ q.tail
          ∙ final-append num_ids xs (pid ∷ ys)
          ∙ ap (final pid) (sym e)
          ∙ sym (final-append num_ids xs (y ∷ zs))

pub remove-IsQueue :
    (s : Threads) (chid pid : ℕ) (xs ys : List ℕ)
    → IsQueue s chid (xs ++ pid ∷ ys)
    → IsQueue (tqueue_remove chid pid s) chid (xs ++ ys)
      × Removed chid pid (final num_ids xs) (first ys num_ids) s (tqueue_remove chid pid s)
unfolding t p n
remove-IsQueue s chid pid xs ys q = (removed-IsQueue s chid pid xs ys q, d s chid pid xs ys q)
