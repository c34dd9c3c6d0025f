-- ===== src/Trap/Refusals.antt =====
-- When `sys_spawn` refuses.
use mcertikos.Base.{ℕ, ◌+◌, ◌^◌, ◌≤◌, ◌<◌, ◌≡◌, ◌≢◌, ◌⊎◌, inl, inr, arith, ok}
use mcertikos.Pmm.Container.{SContainer, num_ids, container_can_consume, container_get_nchildren}
use mcertikos.Thread.Context.{get_curid}
use mcertikos.Elf.{Program}
use mcertikos.Proc.{Trapframe, Kernel}
use mcertikos.Trap.{
  e_inval_pid, e_exceeds_quota, e_max_num_childen_reached, e_inval_child_id, syscall_get_arg2,
  syscall_get_arg3, syscall_set_errno, syscall_set_retval1, sys_spawn,
}

-- Why process `id`, with the container `c`, may not spawn the program `elf_id` with `quota` pages, and the
-- error number for it: it has not so many pages left; its children would have numbers above
-- those of processes; it has three children; or there is no such program.
pub data Refused (id : ℕ) (c : SContainer) (elf_id quota : ℕ) (errno : ℕ) : Type 0 where
  poor : c.quota < c.usage + quota → errno ≡ e_exceeds_quota → Refused id c elf_id quota errno
  deep :
      c.usage + quota ≤ c.quota
      → 20 < id
      → errno ≡ e_max_num_childen_reached
      → Refused id c elf_id quota errno
  full :
      c.usage + quota ≤ c.quota
      → id ≤ 20
      → c.nchildren ≡ 3
      → errno ≡ e_inval_child_id
      → Refused id c elf_id quota errno
  unknown :
      c.usage + quota ≤ c.quota
      → id ≤ 20
      → c.nchildren ≢ 3
      → (elf_id ≡ 0) ⊎ (5 < elf_id)
      → errno ≡ e_inval_pid
      → Refused id c elf_id quota errno

-- For a current process below `num_ids`, whose usage and the request together fit in a word, `sys_spawn` of a
-- request that is refused sets the error number of the first reason, in the order of the source,
-- in EAX, and 64, which is `NUM_IDS`, in EBX, and changes nothing else.
pub sys_spawn-refuses :
    (kstack_hi : ℕ → ℕ) (start : ℕ) (programs : ℕ → Program) (s : Kernel) (tf : Trapframe)
    (errno : ℕ)
    → let id = get_curid s.threads in
      let c = s.threads.vmm.con.container id in
      id < num_ids
      → c.usage + syscall_get_arg3 tf < 2 ^ 32
      → Refused id c (syscall_get_arg2 tf) (syscall_get_arg3 tf) errno
      → sys_spawn kstack_hi start programs tf s ≡ ok (record tf { eax = errno; ebx = 64 }, s)
unfolding syscall_set_errno syscall_set_retval1 sys_spawn container_can_consume
    container_get_nchildren
sys_spawn-refuses kstack_hi start programs s tf errno lt word (Refused.poor p e) = ground arith
sys_spawn-refuses kstack_hi start programs s tf errno lt word (Refused.deep p d e) = ground arith
sys_spawn-refuses kstack_hi start programs s tf errno lt word (Refused.full p d n e) = ground arith
sys_spawn-refuses kstack_hi start programs s tf errno lt word (Refused.unknown p d n (inl z) e) =
    ground arith
sys_spawn-refuses kstack_hi start programs s tf errno lt word (Refused.unknown p d n (inr z) e) =
    ground arith
