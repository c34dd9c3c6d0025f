-- ===== src/Tests/Traps.antt =====
-- The theorems of kern/trap, kern/proc, kern/lib/elf.c and kern/lib/pmap.c at concrete states.
use mcertikos.Base.{
  ℕ, ◌+◌, ◌*◌, ◌/◌, ◌%◌, ◌<◌, ◌≤◌, ◌≡◌, ◌≢◌, ◌⊎◌, inr, ap, ◌∙◌, refl, arith, List, [], ◌∷◌, ok,
}
use mcertikos.Vmm.Tables.{slot}
use mcertikos.Vmm.Address.{pde_addr}
use mcertikos.Vmm.Mapping.Owned.{IsOwned, entry_at, by_va-entry_at}
use mcertikos.Tests.Paging.{mapped}
use mcertikos.Thread.Context.{get_curid}
use mcertikos.UserMemory.{load_byte, pt_copyout}
use mcertikos.UserMemory.Range.{entry, entry_slot, frame_of, IsPrivate}
use mcertikos.UserMemory.Copyout.{pt_copyout-moves}
use mcertikos.Elf.{ProgramHeader, Program, elf_magic}
use mcertikos.Elf.Load.{IsUserProgram, IsUserSegment}
use mcertikos.Proc.{Trapframe, Kernel}
use mcertikos.Proc.Create.{IsCreated}
use mcertikos.Trap.{e_inval_pid, sys_puts, sys_spawn, syscall_get_arg2, syscall_get_arg3}
use mcertikos.Trap.Spawn.{sys_spawn_total}
use mcertikos.Trap.Refusals.{Refused, sys_spawn-refuses}
use mcertikos.Trap.Fault.{Handles, exception_handler_total}
use mcertikos.Trap.Puts.{Said, sys_puts_total}
use mcertikos.Tests.Memory.{small-IsValid, small-IsFunded, small-IsTree}
use mcertikos.Tests.Threads.{start, lists, start-IsQueues, loose}

-- The registers of a call of `sys_spawn` for program 2 with one page, which as the registers of a page fault
-- are those of a write to a page that is not there.
abbrev frame : Trapframe
frame = record {
  edi = 0;
  esi = 0;
  ebp = 0;
  oesp = 0;
  ebx = 2;
  edx = 0;
  ecx = 1;
  eax = 1;
  es = 35;
  ds = 35;
  trapno = 14;
  err = 6;
  eip = 0x4000_0000;
  cs = 27;
  eflags = 0x200;
  esp = 0xf000_0000;
  ss = 35;
}

abbrev kernel : Kernel
kernel = record {
  threads = start;
  uctx = λ _. frame;
  last_active = λ _. 1;
  proc_kstack = λ _. record { ts_esp0 = 0; magic = 0; cpu_idx = 0 };
  loaded_esp0 = λ _. 0;
  sys_buf = λ _ _. 0;
  printed = [];
}

-- A segment of two pages, with bytes in the first one, and one that is not loaded.
abbrev headers : List ProgramHeader
headers =
    record {
      p_type = 1;
      p_offset = 0x1000;
      p_va = 0x4000_0010;
      p_filesz = 100;
      p_memsz = 5000;
      p_flags = 2;
    }
    ∷ record { p_type = 0; p_offset = 0; p_va = 0; p_filesz = 0; p_memsz = 0; p_flags = 0 }
    ∷ []

abbrev program : Program
program = record {
  exe = 0x20_0000;
  e_magic = elf_magic;
  e_shstrndx = 1;
  sh_type = 3;
  headers = headers;
  e_entry = 0x4000_0010;
  kernel = λ a. a;
}

headers-IsUserProgram : IsUserProgram headers
unfolding IsUserProgram
headers-IsUserProgram = (
  IsUserSegment.inside (omega arith) (omega arith),
  (IsUserSegment.ignored (λ z. absurd (omega arith)), tt),
)

start-IsOwned : IsOwned start.vmm
start-IsOwned = record {
  valid = small-IsValid;
  pointer = λ proc pde own used. absurd (used refl);
  allocated = λ proc pde own used. absurd (used refl);
  apart = λ proc pde proc' pde' own own' used. absurd (used refl);
}

-- The page at the first user addresses of process 1 in `mapped`, and the word with its entry.
mapped-entry : (a : ℕ) → 0x4000_0000 ≤ a → a < 0x4000_1000 → entry mapped 1 a ≡ 0x4000_1007
unfolding slot
mapped-entry a lo hi =
    let d : pde_addr a ≡ 256 = omega arith in
    let p : a / 4096 % 1024 ≡ 0 = omega arith in
    by_va-entry_at mapped 1 a
    ∙ ap (λ d. entry_at mapped 1 d (a / 4096 % 1024)) d
    ∙ ap (entry_at mapped 1 256) p

mapped-slot : (a : ℕ) → 0x4000_0000 ≤ a → a < 0x4000_1000 → entry_slot mapped 1 a ≡ 0x4000_0000
unfolding slot
mapped-slot a lo hi =
    let d : pde_addr a ≡ 256 = omega arith in
    let p : a / 4096 % 1024 ≡ 0 = omega arith in
    ap (λ d. slot mapped 1 d (a / 4096 % 1024)) d ∙ ap (slot mapped 1 256) p

mapped-IsPrivate : IsPrivate mapped 1 0x4000_0010 4
mapped-IsPrivate = record {
  present = record {
    word = λ a lo hi. omega (arith, mapped-entry a (omega arith) (omega arith));
    there = λ a lo hi. omega (arith, mapped-entry a (omega arith) (omega arith));
  };
  apart = λ a b lo hi lo' hi' e. omega (
    arith,
    mapped-entry a (omega arith) (omega arith),
    mapped-entry b (omega arith) (omega arith),
    e,
  );
  tables = λ a b lo hi lo' hi' e. omega (
    arith,
    mapped-entry a (omega arith) (omega arith),
    mapped-slot b (omega arith) (omega arith),
    e,
  );
}

pt_copyout-moves_example :
    (m : ℕ → ℕ) × (pt_copyout 0x20_0000 (λ j. j) 1 0x4000_0010 4 mapped
      ≡ ok (4, record mapped { memory = m }))
    × ((j : ℕ) → j < 4 → load_byte m (frame_of mapped 1 (0x4000_0010 + j)) ≡ j % 256)
    × ((x : ℕ)
        → ((j : ℕ) → j < 4 → frame_of mapped 1 (0x4000_0010 + j) ≢ x)
        → load_byte m x ≡ load_byte mapped.memory x)
pt_copyout-moves_example =
    pt_copyout-moves mapped 1 0x4000_0010 4 0x20_0000 (λ j. j) mapped-IsPrivate (omega arith)
      (omega arith) (omega arith)

sys_spawn_total_example :
    (t : Kernel) × (sys_spawn (λ pid. pid * 4096) 0x10_0000 (λ _. program) frame kernel
      ≡ ok (record frame { eax = 0; ebx = 4 }, t))
    × IsCreated (λ pid. pid * 4096) 0x10_0000 program 1 lists 4 t
unfolding get_curid syscall_get_arg2 syscall_get_arg3
sys_spawn_total_example =
    sys_spawn_total (λ pid. pid * 4096) 0x10_0000 (λ _. program) kernel frame lists small-IsFunded
      small-IsTree start-IsOwned refl start-IsQueues refl headers-IsUserProgram (omega arith)
      (λ z. absurd (omega arith)) (omega arith) (omega arith) (omega arith) (omega arith)
      (loose 4 (λ z. absurd (omega arith)) (λ z. absurd (omega arith)))

sys_spawn-refuses_example :
    sys_spawn (λ pid. pid * 4096) 0x10_0000 (λ _. program) (record frame { ebx = 6 }) kernel
    ≡ ok (record frame { eax = 5; ebx = 64 }, kernel)
unfolding get_curid syscall_get_arg2 syscall_get_arg3
sys_spawn-refuses_example =
    sys_spawn-refuses (λ pid. pid * 4096) 0x10_0000 (λ _. program) kernel (record frame { ebx = 6 })
      e_inval_pid (omega arith) (omega arith)
      (Refused.unknown (omega arith) (omega arith) (λ z. absurd (omega arith)) (inr (omega arith))
        refl)

exception_handler_total_example : Handles 1 0x4000_2000 frame kernel
unfolding get_curid syscall_get_arg2 syscall_get_arg3
exception_handler_total_example =
    exception_handler_total 0x4000_2000 frame kernel refl refl (λ z. absurd (omega arith))
      (omega arith, omega arith) start-IsOwned

-- Process 1 with a page, and the registers of a call for four bytes in it.
abbrev resident : Kernel
resident = record kernel { threads = record start { vmm = mapped } }

abbrev text_frame : Trapframe
text_frame = record frame { ebx = 0x4000_0010; ecx = 4 }

sys_puts_total_example :
    ((0x4000_0000 ≤ 0x4000_0010)
      × (0x4000_0014 ≤ 0xf000_0000)
      × (t : Kernel) × (sys_puts (λ _. 0x30_0000) text_frame resident
          ≡ ok (record text_frame { eax = 0 }, t))
      × Said mapped 1 0x4000_0010 4 [] t.printed
      × (t.threads ≡ resident.threads))
    ⊎ (((0x4000_0010 < 0x4000_0000) ⊎ (0xf000_0000 < 0x4000_0014))
        × (sys_puts (λ _. 0x30_0000) text_frame resident
            ≡ ok (record text_frame { eax = 4 }, resident)))
unfolding get_curid
sys_puts_total_example =
    sys_puts_total (λ _. 0x30_0000) text_frame resident (λ z. absurd (omega arith)) (omega arith)
      (omega arith) (λ _ _. mapped-IsPrivate.present)
