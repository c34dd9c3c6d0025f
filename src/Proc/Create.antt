-- ===== src/Proc/Create.antt =====
-- `proc_create` spawns a thread and loads the program.
use mcertikos.Base.{
  ℕ, ◌+◌, ◌/◌, ◌≤◌, ◌<◌, ◌≡◌, ◌≢◌, refl, sym, ◌∙◌, ap, arith, true, false, not, ◌==◌, if◌then◌else◌,
  List, [], ◌∷◌, ◌++◌, update, ok, panic, Call, bind_ok, lift_ok, Keeps-ok, ◌>>=◌, ◌>>◌, pure,
  modify,
}
use mathlib.Core.Path.{subst}
use mcertikos.Pmm.AllocTable.{at_is_allocated}
use mcertikos.Pmm.Container.{num_ids, max_children, child_of}
use mcertikos.Pmm.Container.Budget.{IsFunded}
use mcertikos.Pmm.Container.Tree.{IsTree}
use mcertikos.Vmm.Tables.{Vmm}
use mcertikos.Vmm.Mapping.Owned.{IsOwned}
use mcertikos.Thread.Tcb.{ready, Threads, in_vmm}
use mcertikos.Thread.Context.{get_curid}
use mcertikos.Thread.Queue.Refine.{IsQueues, IsLoose}
use mcertikos.Thread.Queue.Frame.{keep-IsQueues}
use mcertikos.Thread.Sched.{thread_spawn}
use mcertikos.Thread.Sched.Spawn.{thread_spawn_total}
use mcertikos.UserMemory.{vm_userhi}
use mcertikos.Elf.{Program, elf_magic, is_elf, elf_load, elf_entry}
use mcertikos.Vmm.Mapping.Quotas.{AtQuotas}
use mcertikos.Elf.Quotas.{elf_load-Keeps}
use mcertikos.Elf.Load.{IsUserProgram, elf_load_total}
use mcertikos.Proc.{
  Trapframe, Kstack, Kernel, in_threads, kstack_magic, user_code, user_data, fl_if, seg_init_proc,
  with_uctx, user_segments, proc_load, proc_create,
}

-- The page tables stay owned when the directories and the pages do not change.
moved-IsOwned :
    (s t : Vmm) → IsFunded t.con → t.pdir ≡ s.pdir → t.con.pmm ≡ s.con.pmm → IsOwned s → IsOwned t
moved-IsOwned s t f d p o =
    let own = subst (λ x. IsOwned (record s { pdir = x })) (sym d) o in
    record {
      valid = f.valid;
      pointer = own.pointer;
      allocated = λ proc pde u nz z.
          own.allocated proc pde u nz
            (ap (λ p. at_is_allocated p (t.pdir proc pde / 4096)) (sym p) ∙ z);
      apart = own.apart;
    }

-- The trap frame with which a program starts.
pub record IsFresh (tf : Trapframe) (entry : ℕ) : Type 0 where
  pub starts : tf.eip ≡ entry
  pub stack : tf.esp ≡ vm_userhi
  pub flags : tf.eflags ≡ fl_if
  pub code : tf.cs ≡ user_code
  pub data_segments : (tf.ds ≡ user_data) × (tf.es ≡ user_data) × (tf.ss ≡ user_data)

-- A call of kern/vmm from kern/proc.
pub in_vmm_ok :
    {A : Type 0} (m : Call Vmm A) (s : Kernel) (a : A) (v : Vmm)
    → m s.threads.vmm ≡ ok (a, v)
    → in_threads (in_vmm m) s ≡ ok (a, record s { threads = record s.threads { vmm = v } })
in_vmm_ok m s a v e =
    lift_ok (λ (s : Kernel). s.threads) (λ s t. record s { threads = t }) (in_vmm m) s a
      (record s.threads { vmm = v })
      (lift_ok (λ (s : Threads). s.vmm) (λ s v. record s { vmm = v }) m s.threads a v e)

module _ (kstack_hi : ℕ → ℕ) (elf : Program) (pid : ℕ) where
  -- The state after `proc_load`, where `elf_load` has left `v`.
  pub loaded : Vmm → Kernel → Kernel
  loaded v s = seg_init_proc kstack_hi s.threads.cpu pid (
      with_uctx pid (λ tf. record tf { eip = elf.e_entry })
        (with_uctx pid user_segments (record s { threads = record s.threads { vmm = v } })))

  elf-magic : is_elf elf ≡ true → (elf.e_magic == elf_magic) ≡ true
  elf-magic e = ground (arith, e)

  elf_entry_lem : (s : Vmm) → is_elf elf ≡ true → elf_entry elf s ≡ ok (elf.e_entry, s)
  unfolding elf_entry
  elf_entry_lem s e = ap (λ b. (if b then pure elf.e_entry else λ s. panic) s) (elf-magic e)

  proc_load_run :
      (s : Kernel) (v : Vmm)
      → is_elf elf ≡ true
      → elf_load elf pid s.threads.vmm ≡ ok (tt, v)
      → proc_load kstack_hi elf pid s ≡ ok (tt, loaded v s)
  unfolding proc_load loaded
  proc_load_run s v e run =
      let u : Kernel = record s { threads = record s.threads { vmm = v } } in
      let w : Kernel = with_uctx pid user_segments u in
      let last : ℕ → Call Kernel (Unit {0}) = λ entry.
        modify (with_uctx pid (λ tf. record tf { eip = entry }))
        >> modify (λ s. seg_init_proc kstack_hi s.threads.cpu pid s) in
      let enter : Call Kernel ℕ = in_threads (in_vmm (elf_entry elf)) in
      bind_ok (in_threads (in_vmm (elf_load elf pid)))
        (λ _. modify (with_uctx pid user_segments) >> (enter >>= last)) s u tt
        (in_vmm_ok (elf_load elf pid) s tt v run)
      ∙ bind_ok enter last w w elf.e_entry
          (in_vmm_ok (elf_entry elf) w elf.e_entry v (elf_entry_lem v e))

  loaded-IsFresh : (s : Kernel) (v : Vmm) → IsFresh ((loaded v s).uctx pid) elf.e_entry
  unfolding loaded seg_init_proc
  loaded-IsFresh s v = record {
    starts = ground arith;
    stack = ground arith;
    flags = ground arith;
    code = ground arith;
    data_segments = (ground arith, ground arith, ground arith);
  }

  loaded-kstack :
      (s : Kernel) (v : Vmm)
      → (loaded v s).proc_kstack pid
        ≡ record { ts_esp0 = kstack_hi pid; magic = kstack_magic; cpu_idx = s.threads.cpu }
  unfolding loaded seg_init_proc
  loaded-kstack s v = ground arith

  loaded-threads : (s : Kernel) (v : Vmm) → (loaded v s).threads ≡ record s.threads { vmm = v }
  unfolding loaded seg_init_proc
  loaded-threads s v = refl

-- Process `k` has been created with `quota` pages, in the last place of the ready queue, and starts at the entry of
-- `elf`.
pub record IsCreated (kstack_hi : ℕ → ℕ) (start : ℕ) (elf : Program) (quota : ℕ) (qs : ℕ → List ℕ)
    (k : ℕ) (t : Kernel) : Type 0 where
  pub queues : IsQueues t.threads (update qs num_ids (qs num_ids ++ k ∷ []))
  pub is_ready : (t.threads.tcb k).state ≡ ready
  pub unlocked : t.threads.sched_lk ≡ false
  pub kernel_entry : (t.threads.kctx k).eip ≡ start
  pub kernel_stack : (t.threads.kctx k).esp ≡ kstack_hi k
  pub trap_stack : (t.proc_kstack k).ts_esp0 ≡ kstack_hi k
  pub fresh : IsFresh (t.uctx k) elf.e_entry
  pub has_quota : (t.threads.vmm.con.container k).quota ≡ quota
  pub owned : IsOwned t.threads.vmm

module _ (kstack_hi : ℕ → ℕ) (start : ℕ) (elf : Program) (quota : ℕ) where
  proc_create_run :
      (s : Kernel) (t : Threads) (v : Vmm) (k : ℕ)
      → is_elf elf ≡ true
      → k ≢ num_ids
      → thread_spawn kstack_hi start (get_curid s.threads) quota s.threads ≡ ok (k, t)
      → elf_load elf k t.vmm ≡ ok (tt, v)
      → proc_create kstack_hi start elf quota s
        ≡ ok (k, loaded kstack_hi elf k v (record s { threads = t }))
  unfolding proc_create
  proc_create_run s t v k e ne spawn load =
      let id = get_curid s.threads in
      let u : Kernel = record s { threads = t } in
      let finish : ℕ → Call Kernel ℕ = λ pid.
        (if not (pid == num_ids) then proc_load kstack_hi elf pid else pure tt) >> pure pid in
      let b : (k == num_ids) ≡ false = ground arith in
      bind_ok (in_threads (thread_spawn kstack_hi start id quota)) finish s u k (
        lift_ok (λ (s : Kernel). s.threads) (λ s t. record s { threads = t })
          (thread_spawn kstack_hi start id quota) s k t spawn)
      ∙ ap (λ b. ((if not b then proc_load kstack_hi elf k else pure tt) >> pure k) u) b
      ∙ bind_ok (proc_load kstack_hi elf k) (λ _. pure k) u (loaded kstack_hi elf k v u) tt
          (proc_load_run kstack_hi elf k u v e load)

  loaded-IsCreated :
      (s : Kernel) (t : Threads) (v : Vmm) (k : ℕ) (qs : ℕ → List ℕ)
      → IsQueues t (update qs num_ids (qs num_ids ++ k ∷ []))
      → (t.tcb k).state ≡ ready
      → t.sched_lk ≡ false
      → (t.kctx k).eip ≡ start
      → (t.kctx k).esp ≡ kstack_hi k
      → (v.con.container k).quota ≡ quota
      → IsOwned v
      → IsCreated kstack_hi start elf quota qs k
          (loaded kstack_hi elf k v (record s { threads = t }))
  loaded-IsCreated s t v k qs h r free ip sp pages o =
      let u : Kernel = record s { threads = t } in
      let e = sym (loaded-threads kstack_hi elf k u v) in
      let q : IsQueues (record t { vmm = v }) (update qs num_ids (qs num_ids ++ k ∷ [])) =
        keep-IsQueues t (record t { vmm = v }) (update qs num_ids (qs num_ids ++ k ∷ []))
          (λ _. refl) (λ _. (refl, refl)) h in
      record {
        queues = subst (λ t. IsQueues t (update qs num_ids (qs num_ids ++ k ∷ []))) e q;
        is_ready = ap (λ (t : Threads). (t.tcb k).state) (sym e) ∙ r;
        unlocked = ap (λ (t : Threads). t.sched_lk) (sym e) ∙ free;
        kernel_entry = ap (λ (t : Threads). (t.kctx k).eip) (sym e) ∙ ip;
        kernel_stack = ap (λ (t : Threads). (t.kctx k).esp) (sym e) ∙ sp;
        trap_stack = ap (λ (x : Kstack). x.ts_esp0) (loaded-kstack kstack_hi elf k u v);
        fresh = loaded-IsFresh kstack_hi elf k u v;
        has_quota = ap (λ (t : Threads). (t.vmm.con.container k).quota) (sym e) ∙ pages;
        owned = subst (λ (t : Threads). IsOwned t.vmm) e o;
      }

  -- Let the quotas be backed by free pages, the process tree be well formed, the page tables be owned, no one
  -- hold the scheduler's lock and the queues hold the lists `qs`. For a current process with
  -- fewer than three children, whose remaining quota covers the request, and whose next child is in
  -- no queue and has a number below `num_ids`, and for a program that passes the loader's
  -- assertions and lies in the user's addresses, `proc_create` returns the number of that child. The child is
  -- ready and last in the ready queue, and starts in the kernel at `start` on its own kernel
  -- stack, and in the program at its entry with the stack at the end of the user's addresses and
  -- interrupts on. It has the requested quota, the lock is free and the page tables stay owned.
  pub proc_create_total :
      (s : Kernel) (qs : ℕ → List ℕ)
      → IsFunded s.threads.vmm.con
      → IsTree s.threads.vmm.con
      → IsOwned s.threads.vmm
      → s.threads.sched_lk ≡ false
      → IsQueues s.threads qs
      → is_elf elf ≡ true
      → IsUserProgram elf.headers
      → let id = get_curid s.threads in
        let c = s.threads.vmm.con.container id in
        let k = child_of id c.nchildren in
        id < num_ids
        → c.used ≢ 0
        → c.nchildren < max_children
        → c.usage + quota ≤ c.quota
        → k < num_ids
        → IsLoose qs k
        → (t : Kernel) × (proc_create kstack_hi start elf quota s ≡ ok (k, t))
          × IsCreated kstack_hi start elf quota qs k t
  proc_create_total s qs f tree o free h e user lt alive few room k_lt loose =
      let id = get_curid s.threads in
      let k = child_of id (s.threads.vmm.con.container id).nchildren in
      let (t, spawn, h', r, sp, ip, granted, free', f', _, d, p) =
        thread_spawn_total kstack_hi start id quota s.threads qs f tree free h lt alive few room
          k_lt loose in
      let (v, load, o') =
        elf_load_total elf k t.vmm (omega arith) e user
          (moved-IsOwned s.threads.vmm t.vmm f' d p o) in
      let u : Kernel = record s { threads = t } in
      let old : ℕ → ℕ = λ i. (t.vmm.con.container i).quota in
      let pages =
        Keeps-ok (AtQuotas old) (elf_load elf k) t.vmm v tt (elf_load-Keeps old elf k) (λ i. refl)
          load in
      (
        loaded kstack_hi elf k v u,
        proc_create_run s t v k e (omega arith) spawn load,
        loaded-IsCreated s t v k qs h' r free' ip sp (pages k ∙ granted) o',
      )
