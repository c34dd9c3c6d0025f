-- ===== src/Thread/Queue/Refine.antt =====
-- The thread queues as lists of threads.
use mcertikos.Base.{ℕ, ◌+◌, ◌<◌, ◌≡◌, ◌≢◌, sym, ◌∙◌, ap, arith, List, update}
use mathlib.Core.Path.{subst}
use native.Mathlib.Decide.{ℕ_discrete}
use mcertikos.Pmm.Container.{num_ids}
use mcertikos.Thread.Tcb.{TQueue, Threads, num_cpus}
use mcertikos.Thread.Queue.Segment.{In, NoDup, first, final, IsSegment, SameLinks, segment_same}

abbrev pub num_queues : ℕ
num_queues = num_ids + num_cpus

-- Queue `chid` holds the threads `xs`, in this order.
pub record IsQueue (s : Threads) (chid : ℕ) (xs : List ℕ) : Type 0 where
  pub head : (s.tq chid).head ≡ first xs num_ids
  pub tail : (s.tq chid).tail ≡ final num_ids xs
  pub links : IsSegment s.tcb num_ids xs num_ids
  pub once : NoDup xs

-- The queues hold the lists `qs`, and no thread is in two of them.
pub record IsQueues (s : Threads) (qs : ℕ → List ℕ) : Type 0 where
  pub queue : (chid : ℕ) → chid < num_queues → IsQueue s chid (qs chid)
  pub apart : (c c' y : ℕ) → c < num_queues → c' < num_queues → In y (qs c) → In y (qs c') → c ≡ c'

-- The thread is in no queue.
abbrev pub IsLoose : (ℕ → List ℕ) → ℕ → Type 0
IsLoose qs pid = (c : ℕ) → c < num_queues → ¬ In pid (qs c)

update_at : (qs : ℕ → List ℕ) (c : ℕ) (xs : List ℕ) → update qs c xs c ≡ xs
update_at qs c xs = ground arith

update_off : (qs : ℕ → List ℕ) (c d : ℕ) (xs : List ℕ) → d ≢ c → update qs c xs d ≡ qs d
update_off qs c d xs ne = ground arith

-- One queue becomes another list.
pub replace_queue :
    (s t : Threads) (qs : ℕ → List ℕ) (chid : ℕ) (xs : List ℕ)
    → IsQueues s qs
    → ((c : ℕ) → c ≢ chid → t.tq c ≡ s.tq c)
    → ((c y : ℕ) → c < num_queues → c ≢ chid → In y (qs c) → SameLinks s.tcb t.tcb y)
    → IsQueue t chid xs
    → ((c y : ℕ) → c < num_queues → c ≢ chid → In y xs → ¬ In y (qs c))
    → IsQueues t (update qs chid xs)
replace_queue s t qs chid xs h same_tq same q fresh = record {
  queue = λ c lt. elim (ℕ_discrete c chid) [
    | yes e ↦
        subst (λ d. IsQueue t d (update qs chid xs d)) (sym e)
          (subst (IsQueue t chid) (sym (update_at qs chid xs)) q)
    | no ne ↦ subst (IsQueue t c) (sym (update_off qs chid c xs ne)) (other c lt ne)
  ];
  apart = apart;
}
  where
    other : (c : ℕ) → c < num_queues → c ≢ chid → IsQueue t c (qs c)
    other c lt ne =
        let o = h.queue c lt in
        record {
          head = ap (λ (q : TQueue). q.head) (same_tq c ne) ∙ o.head;
          tail = ap (λ (q : TQueue). q.tail) (same_tq c ne) ∙ o.tail;
          links = segment_same s.tcb t.tcb num_ids (qs c) num_ids (λ y i. same c y lt ne i) o.links;
          once = o.once;
        }

    at_chid : (y : ℕ) → In y (update qs chid xs chid) → In y xs
    at_chid y i = subst (In y) (update_at qs chid xs) i

    off_chid : (c y : ℕ) → c ≢ chid → In y (update qs chid xs c) → In y (qs c)
    off_chid c y ne i = subst (In y) (update_off qs chid c xs ne) i

    to_chid : (c y : ℕ) → c ≡ chid → In y (update qs chid xs c) → In y xs
    to_chid c y e i = at_chid y (subst (λ d. In y (update qs chid xs d)) e i)

    apart :
        (c c' y : ℕ)
        → c < num_queues
        → c' < num_queues
        → In y (update qs chid xs c)
        → In y (update qs chid xs c')
        → c ≡ c'
    apart c c' y lt lt' i i' = elim (ℕ_discrete c chid) [
      | yes e ↦ elim (ℕ_discrete c' chid) [
        | yes e' ↦ e ∙ sym e'
        | no ne' ↦ absurd (fresh c' y lt' ne' (to_chid c y e i) (off_chid c' y ne' i'))
      ]
      | no ne ↦ elim (ℕ_discrete c' chid) [
        | yes e' ↦ absurd (fresh c y lt ne (to_chid c' y e' i') (off_chid c y ne i))
        | no ne' ↦ h.apart c c' y lt lt' (off_chid c y ne i) (off_chid c' y ne' i')
      ]
    ]
