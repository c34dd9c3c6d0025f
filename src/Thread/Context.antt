-- ===== src/Thread/Context.antt =====
-- kern/thread/PKCtxIntro, PKCtxNew and PCurID: kernel contexts and the current thread.
use mcertikos.Base.{ℕ, not, ◌==◌, if◌then◌else◌, update, Call, ◌>>=◌, ◌>>◌, pure, gets, modify}
use mcertikos.Pmm.Container.{num_ids, container_can_consume}
use mcertikos.Vmm.Mapping.{alloc_mem_quota}
use mcertikos.Thread.Tcb.{Threads, in_vmm}

unfoldable pub kctx_set_esp : ℕ → ℕ → Threads → Threads
kctx_set_esp pid esp s = record s { kctx = update s.kctx pid (record (s.kctx pid) { esp = esp }) }

unfoldable pub kctx_set_eip : ℕ → ℕ → Threads → Threads
kctx_set_eip pid eip s = record s { kctx = update s.kctx pid (record (s.kctx pid) { eip = eip }) }

-- `cswitch` saves the registers of the processor, then loads the others.
unfoldable pub kctx_switch : ℕ → ℕ → Threads → Threads
kctx_switch from_pid to_pid s =
    let saved = update s.kctx from_pid s.regs in record s { kctx = saved; regs = saved to_pid }

unfoldable pub get_curid : Threads → ℕ
get_curid s = s.curid s.cpu

unfoldable pub set_curid : ℕ → Threads → Threads
set_curid curid s = record s { curid = update s.curid s.cpu curid }

-- `kstack_hi` gives the top of each kernel stack, `proc_kstack[pid].kstack_hi`.
unfoldable pub kctx_new : (ℕ → ℕ) → ℕ → ℕ → ℕ → Call Threads ℕ
kctx_new kstack_hi entry id quota = do
  can ← gets (λ s. container_can_consume s.vmm.con id quota)
  if not (can == 0)
      then (do
        pid ← in_vmm (alloc_mem_quota id quota)
        if not (pid == num_ids)
            then (do
              modify (kctx_set_esp pid (kstack_hi pid))
              modify (kctx_set_eip pid entry)
              pure pid)
            else pure pid)
      else pure num_ids
