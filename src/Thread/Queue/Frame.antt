-- ===== src/Thread/Queue/Frame.antt =====
-- What the queue operations leave alone.
use mcertikos.Base.{ℕ, ◌≡◌, ◌∙◌, ap, arith, List}
use mcertikos.Pmm.Container.{num_ids}
use mcertikos.Thread.Tcb.{
  TQueue, Threads, tcb_get_prev, tcb_get_next, tcb_set_prev, tcb_set_next, tqueue_get_tail,
  tqueue_set_head, tqueue_set_tail,
}
use mcertikos.Thread.Queue.{tqueue_enqueue, tqueue_remove}
use mcertikos.Thread.Queue.Segment.{SameLinks, segment_same}
use mcertikos.Thread.Queue.Refine.{IsQueues}

-- Only the queues and the links have changed.
pub record OnlyQueues (s t : Threads) : Type 0 where
  pub same_con : t.vmm.con ≡ s.vmm.con
  pub same_pdir : t.vmm.pdir ≡ s.vmm.pdir
  pub same_curid : (c : ℕ) → t.curid c ≡ s.curid c
  pub same_cpu : t.cpu ≡ s.cpu
  pub same_kctx : (y : ℕ) → t.kctx y ≡ s.kctx y
  pub same_regs : t.regs ≡ s.regs
  pub same_lk : t.sched_lk ≡ s.sched_lk
  pub same_lks : (l : ℕ) → t.lks l ≡ s.lks l
  pub same_state : (y : ℕ) → (t.tcb y).state ≡ (s.tcb y).state
  pub same_chan : (y : ℕ) → (t.tcb y).channel ≡ (s.tcb y).channel

pub tqueue_enqueue-OnlyQueues :
    (chid pid : ℕ) (s : Threads) → OnlyQueues s (tqueue_enqueue chid pid s)
unfolding tqueue_enqueue tqueue_get_tail tcb_set_prev tcb_set_next tqueue_set_head tqueue_set_tail
tqueue_enqueue-OnlyQueues chid pid s = record {
  same_con = ground arith;
  same_pdir = ground arith;
  same_curid = λ c. ground arith;
  same_cpu = ground arith;
  same_kctx = λ y. ground arith;
  same_regs = ground arith;
  same_lk = ground arith;
  same_lks = λ l. ground arith;
  same_state = λ y. ground arith;
  same_chan = λ y. ground arith;
}

pub tqueue_remove-OnlyQueues :
    (chid pid : ℕ) (s : Threads) → OnlyQueues s (tqueue_remove chid pid s)
unfolding tqueue_remove tcb_get_prev tcb_get_next tcb_set_prev tcb_set_next tqueue_set_head
    tqueue_set_tail
tqueue_remove-OnlyQueues chid pid s = record {
  same_con = ground arith;
  same_pdir = ground arith;
  same_curid = λ c. ground arith;
  same_cpu = ground arith;
  same_kctx = λ y. ground arith;
  same_regs = ground arith;
  same_lk = ground arith;
  same_lks = λ l. ground arith;
  same_state = λ y. ground arith;
  same_chan = λ y. ground arith;
}

-- A change that leaves the queues and the links alone.
pub keep-IsQueues :
    (s t : Threads) (qs : ℕ → List ℕ)
    → ((c : ℕ) → t.tq c ≡ s.tq c)
    → ((y : ℕ) → SameLinks s.tcb t.tcb y)
    → IsQueues s qs
    → IsQueues t qs
keep-IsQueues s t qs tq same h = record {
  queue = λ c lt.
      let o = h.queue c lt in
      record {
        head = ap (λ (q : TQueue). q.head) (tq c) ∙ o.head;
        tail = ap (λ (q : TQueue). q.tail) (tq c) ∙ o.tail;
        links = segment_same s.tcb t.tcb num_ids (qs c) num_ids (λ y i. same y) o.links;
        once = o.once;
      };
  apart = h.apart;
}
