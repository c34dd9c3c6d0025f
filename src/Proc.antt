-- ===== src/Proc.antt =====
-- kern/proc/PProc: `proc_create` makes a process from a program. Of the segments that kern/lib/seg.c sets up
-- for it, the stack of the kernel and the processor are modelled, and the constant descriptors are not.
pub mod Create
use Prim.Native.Nat.{bit_or}
use mcertikos.Base.{
  ℕ, not, ◌==◌, if◌then◌else◌, List, update, Call, ◌>>=◌, ◌>>◌, pure, gets, modify, lift,
}
use mcertikos.Strings.{Bytes}
use mcertikos.Pmm.Container.{num_ids}
use mcertikos.Thread.Tcb.{Threads, in_vmm}
use mcertikos.Thread.Context.{get_curid}
use mcertikos.Thread.Sched.{thread_spawn}
use mcertikos.UserMemory.{vm_userhi}
use mcertikos.Elf.{Program, elf_load, elf_entry}

-- `tf_t`, less the paddings
pub record Trapframe : Type 0 where
  pub edi : ℕ
  pub esi : ℕ
  pub ebp : ℕ
  pub oesp : ℕ
  pub ebx : ℕ
  pub edx : ℕ
  pub ecx : ℕ
  pub eax : ℕ
  pub es : ℕ
  pub ds : ℕ
  pub trapno : ℕ
  pub err : ℕ
  pub eip : ℕ
  pub cs : ℕ
  pub eflags : ℕ
  pub esp : ℕ
  pub ss : ℕ

-- `struct kstack`, less the constant descriptors
pub record Kstack : Type 0 where
  pub ts_esp0 : ℕ
  pub magic : ℕ
  pub cpu_idx : ℕ

-- The static variables of kern/proc, kern/trap and kern/lib/seg.c and those of the layers below: `uctx` is
-- `uctx_pool`, `loaded_esp0` the stack in the task state of each processor, `sys_buf` the buffers of
-- the system calls by process, and `printed` the strings on the console, the last one first.
pub record Kernel : Type 0 where
  pub threads : Threads
  pub uctx : ℕ → Trapframe
  pub last_active : ℕ → ℕ
  pub proc_kstack : ℕ → Kstack
  pub loaded_esp0 : ℕ → ℕ
  pub sys_buf : ℕ → Bytes
  pub printed : List Bytes

abbrev pub in_threads : {A : Type 0} → Call Threads A → Call Kernel A
in_threads = lift (λ s. s.threads) (λ s t. record s { threads = t })

abbrev pub kstack_magic : ℕ
kstack_magic = 0x9876_5432

-- `CPU_GDT_UCODE | 3`, `CPU_GDT_UDATA | 3` and `FL_IF`
abbrev pub user_code : ℕ
user_code = bit_or 0x18 3

abbrev pub user_data : ℕ
user_data = bit_or 0x20 3

abbrev pub fl_if : ℕ
fl_if = 0x200

-- `kstack_hi pid` is the address of the field of `proc_kstack[pid]`.
unfoldable pub kstack_switch : (ℕ → ℕ) → ℕ → Kernel → Kernel
kstack_switch kstack_hi pid s = record s {
  loaded_esp0 = update s.loaded_esp0 s.threads.cpu (kstack_hi pid);
}

unfoldable pub seg_init_proc : (ℕ → ℕ) → (cpu_idx pid : ℕ) → Kernel → Kernel
seg_init_proc kstack_hi cpu_idx pid s =
    let k : Kstack = record { ts_esp0 = kstack_hi pid; magic = kstack_magic; cpu_idx = cpu_idx } in
    record s { proc_kstack = update s.proc_kstack pid k }

-- `uctx_pool[pid] = f(uctx_pool[pid])`
abbrev pub with_uctx : ℕ → (Trapframe → Trapframe) → Kernel → Kernel
with_uctx pid f s = record s { uctx = update s.uctx pid (f (s.uctx pid)) }

abbrev pub user_segments : Trapframe → Trapframe
user_segments tf = record tf {
  es = user_data;
  ds = user_data;
  cs = user_code;
  ss = user_data;
  esp = vm_userhi;
  eflags = fl_if;
}

-- What `proc_create` does to the new process.
unfoldable pub proc_load : (ℕ → ℕ) → Program → ℕ → Call Kernel (Unit {0})
unfolding elf_load elf_entry seg_init_proc
proc_load kstack_hi elf pid = do
  in_threads (in_vmm (elf_load elf pid))
  modify (with_uctx pid user_segments)
  entry ← in_threads (in_vmm (elf_entry elf))
  modify (with_uctx pid (λ tf. record tf { eip = entry }))
  modify (λ s. seg_init_proc kstack_hi s.threads.cpu pid s)

-- `start` is the address of `proc_start_user`.
unfoldable pub proc_create : (ℕ → ℕ) → (start : ℕ) → Program → (quota : ℕ) → Call Kernel ℕ
unfolding get_curid thread_spawn proc_load
proc_create kstack_hi start elf quota = do
  id ← gets (λ s. get_curid s.threads)
  pid ← in_threads (thread_spawn kstack_hi start id quota)
  if not (pid == num_ids) then proc_load kstack_hi elf pid else pure tt
  pure pid
