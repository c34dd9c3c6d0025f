-- ===== src/Thread/Tcb.antt =====
-- kern/thread/PTCBIntro, PTQueueIntro and PTCBInit: the pools of thread control blocks and of queues.
use mcertikos.Base.{ℕ, Bool, List, update, Call, lift, for_range}
use mcertikos.Pmm.MemoryMap.{Entry}
use mcertikos.Pmm.Container.{num_ids}
use mcertikos.Vmm.Tables.{Vmm}
use mcertikos.Vmm.Init.{paging_init}

abbrev pub num_cpus : ℕ
num_cpus = 8

-- `t_state`
pub data TState : Type 0 where
  ready : TState
  run : TState
  sleep : TState
  dead : TState

-- `struct TCB`; a pointer is its address, and `num_ids` is the null index.
pub record Tcb : Type 0 where
  pub state : TState
  pub cpuid : ℕ
  pub prev : ℕ
  pub next : ℕ
  pub channel : ℕ
  pub openfiles : ℕ → ℕ
  pub cwd : ℕ

-- `struct TQueue`
pub record TQueue : Type 0 where
  pub head : ℕ
  pub tail : ℕ

-- `struct kctx`
pub record Kctx : Type 0 where
  pub esp : ℕ
  pub edi : ℕ
  pub esi : ℕ
  pub ebx : ℕ
  pub ebp : ℕ
  pub eip : ℕ

-- The static variables of kern/thread: `tcb` is `TCBPool`, `tq` is `TQueuePool`, `kctx` is
-- `kctx_pool`, `curid` is `CURID`, and `lks` the locks of the callers of `thread_sleep`, by address.
-- `cpu` is the processor that runs the call, the result of `get_pcpu_idx`, and `regs` its registers.
pub record Threads : Type 0 where
  pub vmm : Vmm
  pub tcb : ℕ → Tcb
  pub tq : ℕ → TQueue
  pub kctx : ℕ → Kctx
  pub curid : ℕ → ℕ
  pub sched_ticks : ℕ → ℕ
  pub sched_lk : Bool
  pub lks : ℕ → Bool
  pub cpu : ℕ
  pub regs : Kctx

abbrev pub in_vmm : {A : Type 0} → Call Vmm A → Call Threads A
in_vmm = lift (λ s. s.vmm) (λ s v. record s { vmm = v })

-- `TCBPool[pid] = f(TCBPool[pid])`, and the same for a queue.
abbrev pub with_tcb : ℕ → (Tcb → Tcb) → Threads → Threads
with_tcb pid f s = record s { tcb = update s.tcb pid (f (s.tcb pid)) }

abbrev pub with_tq : ℕ → (TQueue → TQueue) → Threads → Threads
with_tq chid f s = record s { tq = update s.tq chid (f (s.tq chid)) }

unfoldable pub tcb_get_state : Threads → ℕ → TState
tcb_get_state s pid = (s.tcb pid).state

unfoldable pub tcb_set_state : ℕ → TState → Threads → Threads
tcb_set_state pid state = with_tcb pid λ t. record t { state = state }

unfoldable pub tcb_get_cpu : Threads → ℕ → ℕ
tcb_get_cpu s pid = (s.tcb pid).cpuid

unfoldable pub tcb_set_cpu : ℕ → ℕ → Threads → Threads
tcb_set_cpu pid cpu = with_tcb pid λ t. record t { cpuid = cpu }

unfoldable pub tcb_get_prev : Threads → ℕ → ℕ
tcb_get_prev s pid = (s.tcb pid).prev

unfoldable pub tcb_set_prev : ℕ → ℕ → Threads → Threads
tcb_set_prev pid prev_pid = with_tcb pid λ t. record t { prev = prev_pid }

unfoldable pub tcb_get_next : Threads → ℕ → ℕ
tcb_get_next s pid = (s.tcb pid).next

unfoldable pub tcb_set_next : ℕ → ℕ → Threads → Threads
tcb_set_next pid next_pid = with_tcb pid λ t. record t { next = next_pid }

unfoldable pub tcb_get_chan : Threads → ℕ → ℕ
tcb_get_chan s pid = (s.tcb pid).channel

unfoldable pub tcb_set_chan : ℕ → ℕ → Threads → Threads
tcb_set_chan pid chan = with_tcb pid λ t. record t { channel = chan }

unfoldable pub tcb_get_openfiles : Threads → ℕ → ℕ → ℕ
tcb_get_openfiles s pid = (s.tcb pid).openfiles

unfoldable pub tcb_set_openfiles : ℕ → ℕ → ℕ → Threads → Threads
tcb_set_openfiles pid fd f = with_tcb pid λ t. record t { openfiles = update t.openfiles fd f }

unfoldable pub tcb_get_cwd : Threads → ℕ → ℕ
tcb_get_cwd s pid = (s.tcb pid).cwd

unfoldable pub tcb_set_cwd : ℕ → ℕ → Threads → Threads
tcb_set_cwd pid d = with_tcb pid λ t. record t { cwd = d }

-- `root` is the inode of "/" that `namei` returns. `memzero` is given the size of one pointer, so it
-- clears one open file.
unfoldable pub tcb_init_at_id : ℕ → ℕ → Threads → Threads
tcb_init_at_id root pid = with_tcb pid λ t. record {
  state = dead;
  cpuid = num_cpus;
  prev = num_ids;
  next = num_ids;
  channel = 0;
  openfiles = update t.openfiles 0 0;
  cwd = root;
}

unfoldable pub tqueue_get_head : Threads → ℕ → ℕ
tqueue_get_head s chid = (s.tq chid).head

unfoldable pub tqueue_set_head : ℕ → ℕ → Threads → Threads
tqueue_set_head chid head = with_tq chid λ q. record q { head = head }

unfoldable pub tqueue_get_tail : Threads → ℕ → ℕ
tqueue_get_tail s chid = (s.tq chid).tail

unfoldable pub tqueue_set_tail : ℕ → ℕ → Threads → Threads
tqueue_set_tail chid tail = with_tq chid λ q. record q { tail = tail }

unfoldable pub tqueue_init_at_id : ℕ → Threads → Threads
tqueue_init_at_id chid = with_tq chid λ q. record { head = num_ids; tail = num_ids }

unfoldable pub tcb_init : ℕ → List Entry → Threads → Threads
unfolding paging_init tcb_init_at_id
tcb_init root es s =
    for_range num_ids 0 (tcb_init_at_id root) (record s { vmm = paging_init es s.vmm })
