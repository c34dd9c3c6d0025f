-- ===== src/Trap.antt =====
-- kern/trap: the arguments of a system call, the calls `sys_puts`, `sys_spawn` and `sys_yield`, and the page
-- fault handler. A handler gets the trap frame and returns it as it leaves it.
pub mod Refusals
pub mod Spawn
pub mod Puts
pub mod Fault
use Prim.Native.Nat.{bit_and}
use mcertikos.Base.{
  ℕ, zero, suc, ◌+◌, ◌-◌, ◌*◌, ◌%◌, ◌^◌, ◌&&◌, not, ◌==◌, ltb, leb, if◌then◌else◌, ◌∷◌, update, ok,
  hang, panic, Call, ◌>>=◌, ◌>>◌, pure, gets, modify,
}
use mcertikos.Strings.{Bytes}
use mcertikos.Pmm.Container.{num_ids, max_children, container_can_consume, container_get_nchildren}
use mcertikos.Vmm.Tables.{Vmm, ptu}
use mcertikos.Vmm.Mapping.{magic_number, alloc_page}
use mcertikos.Thread.Tcb.{in_vmm}
use mcertikos.Thread.Context.{get_curid}
use mcertikos.Thread.Sched.{thread_yield}
use mcertikos.UserMemory.{vm_userlo, vm_userhi, pt_copyin}
use mcertikos.Elf.{Program}
use mcertikos.Proc.{Trapframe, Kernel, in_threads, proc_create}

-- `enum __error_nr`, as far as these calls use it
abbrev pub e_succ : ℕ
e_succ = 0

abbrev pub e_mem : ℕ
e_mem = 1

abbrev pub e_inval_addr : ℕ
e_inval_addr = 4

abbrev pub e_inval_pid : ℕ
e_inval_pid = 5

abbrev pub e_exceeds_quota : ℕ
e_exceeds_quota = 23

abbrev pub e_max_num_childen_reached : ℕ
e_max_num_childen_reached = 24

abbrev pub e_inval_child_id : ℕ
e_inval_child_id = 25

unfoldable pub syscall_get_arg1 : Trapframe → ℕ
syscall_get_arg1 tf = tf.eax

unfoldable pub syscall_get_arg2 : Trapframe → ℕ
syscall_get_arg2 tf = tf.ebx

unfoldable pub syscall_get_arg3 : Trapframe → ℕ
syscall_get_arg3 tf = tf.ecx

unfoldable pub syscall_get_arg4 : Trapframe → ℕ
syscall_get_arg4 tf = tf.edx

unfoldable pub syscall_get_arg5 : Trapframe → ℕ
syscall_get_arg5 tf = tf.esi

unfoldable pub syscall_get_arg6 : Trapframe → ℕ
syscall_get_arg6 tf = tf.edi

unfoldable pub syscall_set_errno : ℕ → Trapframe → Trapframe
syscall_set_errno errno tf = record tf { eax = errno }

unfoldable pub syscall_set_retval1 : ℕ → Trapframe → Trapframe
syscall_set_retval1 retval tf = record tf { ebx = retval }

unfoldable pub syscall_set_retval2 : ℕ → Trapframe → Trapframe
syscall_set_retval2 retval tf = record tf { ecx = retval }

unfoldable pub syscall_set_retval3 : ℕ → Trapframe → Trapframe
syscall_set_retval3 retval tf = record tf { edx = retval }

unfoldable pub syscall_set_retval4 : ℕ → Trapframe → Trapframe
syscall_set_retval4 retval tf = record tf { esi = retval }

unfoldable pub syscall_set_retval5 : ℕ → Trapframe → Trapframe
syscall_set_retval5 retval tf = record tf { edi = retval }

-- An error number with a first result.
abbrev pub answer : (errno retval : ℕ) → Trapframe → Trapframe
answer errno retval tf = syscall_set_retval1 retval (syscall_set_errno errno tf)

abbrev pub in_kernel_vmm : {A : Type 0} → Call Vmm A → Call Kernel A
in_kernel_vmm m = in_threads (in_vmm m)

-- How much a round of `sys_puts` copies.
abbrev pub puts_share : ℕ → ℕ
puts_share remain = if ltb remain 4095 then remain else 4095

-- The loop of `sys_puts`; a round takes a byte at least, so `str_len` rounds are enough. `kva` is the address
-- of `sys_buf[cur_pid]`.
unfoldable pub puts_loop : (kva cur_pid fuel cur_pos remain : ℕ) → Trapframe → Call Kernel Trapframe
unfolding pt_copyin syscall_set_errno
puts_loop kva cur_pid zero cur_pos remain tf s =
    if remain == 0 then ok (syscall_set_errno e_succ tf, s) else hang
puts_loop kva cur_pid (suc fuel) cur_pos remain tf s =
    let nbytes = puts_share remain in
    let rest = puts_loop kva cur_pid fuel ((cur_pos + nbytes) % 2 ^ 32) (remain - nbytes) tf in
    if remain == 0
    then ok (syscall_set_errno e_succ tf, s)
    else (do
      (copied, b) ← in_kernel_vmm (pt_copyin cur_pid cur_pos kva nbytes (s.sys_buf cur_pid))
      modify λ s. record s { sys_buf = update s.sys_buf cur_pid b }
      if not (copied == nbytes) then pure (syscall_set_errno e_mem tf) else (do
        let text = update b nbytes 0
        modify λ s. record s { sys_buf = update s.sys_buf cur_pid text; printed = text ∷ s.printed }
        rest))
        s

unfoldable pub sys_puts : (ℕ → ℕ) → Trapframe → Call Kernel Trapframe
unfolding puts_loop syscall_get_arg2 syscall_get_arg3 get_curid
sys_puts kva tf s =
    let cur_pid = get_curid s.threads in
    let str_uva = syscall_get_arg2 tf in
    let str_len = syscall_get_arg3 tf in
    if not (leb vm_userlo str_uva && leb ((str_uva + str_len) % 2 ^ 32) vm_userhi)
    then ok (syscall_set_errno e_inval_addr tf, s)
    else puts_loop (kva cur_pid) cur_pid str_len str_uva str_len tf s

-- The call of `proc_create` in `sys_spawn`.
unfoldable pub spawn_elf :
    (ℕ → ℕ) → (start : ℕ) → Program → (quota : ℕ) → Trapframe → Call Kernel Trapframe
unfolding proc_create syscall_set_errno syscall_set_retval1
spawn_elf kstack_hi start elf quota tf = do
  new_pid ← proc_create kstack_hi start elf quota
  if new_pid == num_ids
      then pure (answer e_inval_pid num_ids tf)
      else pure (answer e_succ new_pid tf)

-- `programs` are the five programs that the build links into the kernel.
unfoldable pub sys_spawn :
    (ℕ → ℕ) → (start : ℕ) → (programs : ℕ → Program) → Trapframe → Call Kernel Trapframe
unfolding spawn_elf syscall_get_arg2 syscall_get_arg3 get_curid container_get_nchildren
sys_spawn kstack_hi start programs tf s =
    let curid = get_curid s.threads in
    let elf_id = syscall_get_arg2 tf in
    let quota = syscall_get_arg3 tf in
    let con = s.threads.vmm.con in
    if container_can_consume con curid quota == 0
    then ok (answer e_exceeds_quota num_ids tf, s)
    else if ltb num_ids ((curid * max_children + 1 + max_children) % 2 ^ 32)
    then ok (answer e_max_num_childen_reached num_ids tf, s)
    else if container_get_nchildren con curid == max_children
    then ok (answer e_inval_child_id num_ids tf, s)
    else if leb 1 elf_id && leb elf_id 5
    then spawn_elf kstack_hi start (programs elf_id) quota tf s
    else ok (answer e_inval_pid num_ids tf, s)

unfoldable pub sys_yield : Trapframe → Call Kernel Trapframe
unfolding thread_yield syscall_set_errno
sys_yield tf = do in_threads thread_yield; pure (syscall_set_errno e_succ tf)

-- `PFE_PR`
abbrev pub pfe_pr : ℕ
pfe_pr = 1

-- `fault_va` is the register CR2.
unfoldable pub pgflt_handler : (fault_va : ℕ) → Trapframe → Call Kernel Trapframe
unfolding get_curid
pgflt_handler fault_va tf = do
  cur_pid ← gets (λ s. get_curid s.threads)
  if not (bit_and tf.err pfe_pr == 0) then (λ s. panic) else (do
    r ← in_kernel_vmm (alloc_page cur_pid fault_va ptu)
    if r == magic_number then (λ s. panic) else pure tf)

-- `T_PGFLT`; every other exception panics.
unfoldable pub exception_handler : (fault_va : ℕ) → Trapframe → Call Kernel Trapframe
unfolding pgflt_handler
exception_handler fault_va tf = if tf.trapno == 14 then pgflt_handler fault_va tf else λ s. panic
