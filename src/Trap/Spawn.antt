-- ===== src/Trap/Spawn.antt =====
-- When `sys_spawn` succeeds.
use mcertikos.Base.{
  ℕ, ◌+◌, ◌^◌, ◌≤◌, ◌<◌, ◌≡◌, ◌≢◌, ◌∙◌, ap, arith, true, false, ◌==◌, if◌then◌else◌, List, ok,
  bind_ok, pure,
}
use mcertikos.Pmm.Container.{
  num_ids, max_children, child_of, container_can_consume, container_get_nchildren,
}
use mcertikos.Pmm.Container.Budget.{IsFunded}
use mcertikos.Pmm.Container.Tree.{IsTree}
use mcertikos.Vmm.Mapping.Owned.{IsOwned}
use mcertikos.Thread.Context.{get_curid}
use mcertikos.Thread.Queue.Refine.{IsQueues, IsLoose}
use mcertikos.Elf.{Program, is_elf}
use mcertikos.Elf.Load.{IsUserProgram}
use mcertikos.Proc.{Trapframe, Kernel, proc_create}
use mcertikos.Proc.Create.{IsCreated, proc_create_total}
use mcertikos.Trap.{
  e_succ, e_inval_pid, syscall_get_arg2, syscall_get_arg3, answer, syscall_set_errno,
  syscall_set_retval1, spawn_elf, sys_spawn,
}

sys_spawn-spawn_elf :
    (kstack_hi : ℕ → ℕ) (start : ℕ) (programs : ℕ → Program) (s : Kernel) (tf : Trapframe)
    → let id = get_curid s.threads in
      let c = s.threads.vmm.con.container id in
      c.quota < 2 ^ 31
      → c.usage + syscall_get_arg3 tf ≤ c.quota
      → id ≤ 20
      → c.nchildren < max_children
      → 1 ≤ syscall_get_arg2 tf
      → syscall_get_arg2 tf ≤ 5
      → sys_spawn kstack_hi start programs tf s
        ≡ spawn_elf kstack_hi start (programs (syscall_get_arg2 tf)) (syscall_get_arg3 tf) tf s
unfolding sys_spawn container_can_consume container_get_nchildren
sys_spawn-spawn_elf kstack_hi start programs s tf word room few n lo hi = ground arith

spawn_elf_run :
    (kstack_hi : ℕ → ℕ) (start : ℕ) (elf : Program) (quota : ℕ) (s t : Kernel) (tf : Trapframe)
    (k : ℕ)
    → k ≢ num_ids
    → proc_create kstack_hi start elf quota s ≡ ok (k, t)
    → spawn_elf kstack_hi start elf quota tf s ≡ ok (record tf { eax = 0; ebx = k }, t)
unfolding spawn_elf syscall_set_errno syscall_set_retval1
spawn_elf_run kstack_hi start elf quota s t tf k ne e =
    let b : (k == num_ids) ≡ false = ground arith in
    bind_ok (proc_create kstack_hi start elf quota)
      (λ pid.
        if pid == num_ids
        then pure (answer e_inval_pid num_ids tf)
        else pure (answer e_succ pid tf))
      s t k e
    ∙ ap (λ b. (if b then pure (answer e_inval_pid num_ids tf) else pure (answer e_succ k tf)) t) b

-- Let the quotas be backed by free pages, the process tree be well formed, the page tables be owned, no one hold
-- the scheduler's lock and the queues hold the lists `qs`. Let the current process be live, have a
-- number up to 20, fewer than three children and the requested pages left, let its next child be in no
-- queue, and let the number of the program be from 1 to 5, and the program pass the loader's
-- assertions and lie in the user's addresses. Then `sys_spawn` sets EAX to 0, which is `E_SUCC`, and EBX to the
-- number of the child, and leaves the other registers. The child has the requested quota, is ready and last
-- in the ready queue, starts in the kernel at `start` on its own kernel stack, and in user mode at the
-- entry of the program with the stack at the end of the user's addresses and interrupts on. The lock is
-- free and the page tables stay owned.
pub sys_spawn_total :
    (kstack_hi : ℕ → ℕ) (start : ℕ) (programs : ℕ → Program) (s : Kernel) (tf : Trapframe)
    (qs : ℕ → List ℕ)
    → IsFunded s.threads.vmm.con
    → IsTree s.threads.vmm.con
    → IsOwned s.threads.vmm
    → s.threads.sched_lk ≡ false
    → IsQueues s.threads qs
    → let id = get_curid s.threads in
      let c = s.threads.vmm.con.container id in
      let k = child_of id c.nchildren in
      let elf = programs (syscall_get_arg2 tf) in
      is_elf elf ≡ true
      → IsUserProgram elf.headers
      → id ≤ 20
      → c.used ≢ 0
      → c.nchildren < max_children
      → c.usage + syscall_get_arg3 tf ≤ c.quota
      → 1 ≤ syscall_get_arg2 tf
      → syscall_get_arg2 tf ≤ 5
      → IsLoose qs k
      → (t : Kernel) × (sys_spawn kstack_hi start programs tf s
          ≡ ok (record tf { eax = 0; ebx = k }, t))
        × IsCreated kstack_hi start elf (syscall_get_arg3 tf) qs k t
sys_spawn_total kstack_hi start programs s tf qs f tree o free h e user small alive few room lo hi
      loose =
    let id = get_curid s.threads in
    let k = child_of id (s.threads.vmm.con.container id).nchildren in
    let elf = programs (syscall_get_arg2 tf) in
    let quota = syscall_get_arg3 tf in
    let below : k < num_ids = omega arith in
    let word : (s.threads.vmm.con.container id).quota < 2 ^ 31 = omega (arith, f.valid.word id) in
    let (t, run, c) =
      proc_create_total kstack_hi start elf quota s qs f tree o free h e user (omega arith) alive
        few room below loose in
    (
      t,
      sys_spawn-spawn_elf kstack_hi start programs s tf word room small few lo hi
          ∙ spawn_elf_run kstack_hi start elf quota s t tf k (omega arith) run,
      c,
    )
