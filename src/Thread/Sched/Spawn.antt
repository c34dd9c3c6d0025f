-- ===== src/Thread/Sched/Spawn.antt =====
-- `thread_spawn` splits a container, sets up a context and queues the child.
use mcertikos.Base.{
  ℕ, ◌+◌, ◌^◌, ◌≤◌, ◌<◌, ◌≡◌, ◌≢◌, refl, sym, ◌∙◌, ap, arith, true, false, not, ◌==◌, if◌then◌else◌,
  List, [], ◌∷◌, ◌++◌, update, ok, Call, ◌>>=◌, ◌>>◌, pure, modify, bind_ok, lift_ok,
}
use mathlib.Core.Path.{subst}
use mcertikos.Pmm.Container.{
  SContainer, Containers, num_ids, max_children, child_of, container_split, container_can_consume,
}
use mcertikos.Pmm.Container.Budget.{IsFunded}
use mcertikos.Pmm.Container.Tree.{IsTree}
use mcertikos.Pmm.Container.Split.{container_split-IsFunded, container_split-pmm, can_consume_exact}
use mcertikos.Vmm.Tables.{Vmm}
use mcertikos.Vmm.Mapping.{alloc_mem_quota}
use mcertikos.Thread.Tcb.{ready, Kctx, Threads, in_vmm, tcb_set_state}
use mcertikos.Thread.Context.{kctx_set_esp, kctx_set_eip, kctx_new}
use mcertikos.Thread.Queue.{tqueue_enqueue}
use mcertikos.Thread.Queue.Refine.{IsQueues, IsLoose}
use mcertikos.Thread.Queue.Enqueue.{tqueue_enqueue-IsQueues}
use mcertikos.Thread.Queue.Frame.{tqueue_enqueue-OnlyQueues, keep-IsQueues}
use mcertikos.Thread.Sched.{acquire_sched, release_sched, thread_spawn}
use mcertikos.Thread.Sched.Yield.{acquire_free}

module _ (kstack_hi : ℕ → ℕ) (entry id quota k : ℕ) where
  -- The state after `kctx_new`, with the containers `c`.
  abbrev born : Containers → Threads → Threads
  born c s =
      kctx_set_eip k entry
        (kctx_set_esp k (kstack_hi k) (record s { vmm = record s.vmm { con = c } }))

  set_up : ℕ → Call Threads ℕ
  set_up pid =
      if not (pid == num_ids)
      then (do modify (kctx_set_esp pid (kstack_hi pid)); modify (kctx_set_eip pid entry); pure pid)
      else pure pid

  set_up_lem :
      (s : Threads)
      → k ≢ num_ids
      → set_up k s ≡ ok (k, kctx_set_eip k entry (kctx_set_esp k (kstack_hi k) s))
  unfolding set_up
  set_up_lem s ne = let b : (k == num_ids) ≡ false = ground arith in ground arith

  kctx_new_run :
      (s : Threads) (c : Containers)
      → container_can_consume s.vmm.con id quota ≡ 1
      → container_split id quota s.vmm.con ≡ ok (k, c)
      → k ≢ num_ids
      → kctx_new kstack_hi entry id quota s ≡ ok (k, born c s)
  unfolding kctx_new alloc_mem_quota set_up
  kctx_new_run s c can e ne =
      let u : Threads = record s { vmm = record s.vmm { con = c } } in
      ap
        (λ n.
          (if not (n == 0) then (in_vmm (alloc_mem_quota id quota) >>= set_up) else pure num_ids) s)
        can
      ∙ bind_ok (in_vmm (alloc_mem_quota id quota)) set_up s u k (
          lift_ok (λ (s : Threads). s.vmm) (λ s v. record s { vmm = v }) (alloc_mem_quota id quota)
            s k (record s.vmm { con = c })
            (lift_ok (λ (v : Vmm). v.con) (λ v d. record v { con = d }) (container_split id quota)
              s.vmm k c e))
      ∙ set_up_lem u ne

  -- The state after `thread_spawn`.
  abbrev spawned : Containers → Threads → Threads
  spawned c s =
      let u : Threads = born c (record s { sched_lk = true }) in
      record (tqueue_enqueue num_ids k (tcb_set_state k ready u)) { sched_lk = false }

  after_new : ℕ → Call Threads ℕ
  unfolding release_sched
  after_new pid = do
    if not (pid == num_ids)
        then (do modify (tcb_set_state pid ready); modify (tqueue_enqueue num_ids pid); pure tt)
        else pure tt
    release_sched
    pure pid

  after_new_lem :
      (s : Threads)
      → k ≢ num_ids
      → after_new k s
        ≡ ok (k, record (tqueue_enqueue num_ids k (tcb_set_state k ready s)) { sched_lk = false })
  unfolding after_new release_sched
  after_new_lem s ne =
      let u = tqueue_enqueue num_ids k (tcb_set_state k ready s) in
      let b : not (k == num_ids) ≡ true = ground arith in
      bind_ok
        (if not (k == num_ids)
          then (do modify (tcb_set_state k ready); modify (tqueue_enqueue num_ids k); pure tt)
          else pure tt)
        (λ _. release_sched >> pure k) s u tt
        (ap
          (λ x.
            (if x
                then (do modify (tcb_set_state k ready); modify (tqueue_enqueue num_ids k); pure tt)
                else pure tt)
              s)
          b)

  thread_spawn_run :
      (s : Threads) (c : Containers)
      → s.sched_lk ≡ false
      → container_can_consume s.vmm.con id quota ≡ 1
      → container_split id quota s.vmm.con ≡ ok (k, c)
      → k ≢ num_ids
      → thread_spawn kstack_hi entry id quota s ≡ ok (k, spawned c s)
  unfolding thread_spawn after_new
  thread_spawn_run s c free can e ne =
      let s' : Threads = record s { sched_lk = true } in
      bind_ok acquire_sched (λ _. kctx_new kstack_hi entry id quota >>= after_new) s s' tt
        (acquire_free s free)
      ∙ bind_ok (kctx_new kstack_hi entry id quota) after_new s' (born c s') k
          (kctx_new_run s' c can e ne)
      ∙ after_new_lem (born c s') ne

  spawned-IsQueues :
      (s : Threads) (c : Containers) (qs : ℕ → List ℕ)
      → k < num_ids
      → IsQueues s qs
      → IsLoose qs k
      → IsQueues (spawned c s) (update qs num_ids (qs num_ids ++ k ∷ []))
  unfolding kctx_set_esp kctx_set_eip tcb_set_state
  spawned-IsQueues s c qs lt h loose =
      let u : Threads = tcb_set_state k ready (born c (record s { sched_lk = true })) in
      keep-IsQueues (tqueue_enqueue num_ids k u) (spawned c s)
        (update qs num_ids (qs num_ids ++ k ∷ [])) (λ _. refl) (λ _. (refl, refl))
        (tqueue_enqueue-IsQueues u qs num_ids k
          (keep-IsQueues s u qs (λ _. refl) (λ y. (ground arith, ground arith)) h) (omega arith) lt
          loose)

  spawned-state : (s : Threads) (c : Containers) → ((spawned c s).tcb k).state ≡ ready
  unfolding tcb_set_state
  spawned-state s c =
      let u : Threads = tcb_set_state k ready (born c (record s { sched_lk = true })) in
      (tqueue_enqueue-OnlyQueues num_ids k u).same_state k ∙ ground arith

  spawned-kctx :
      (s : Threads) (c : Containers)
      → (((spawned c s).kctx k).esp ≡ kstack_hi k) × (((spawned c s).kctx k).eip ≡ entry)
  unfolding tcb_set_state kctx_set_esp kctx_set_eip
  spawned-kctx s c =
      let u : Threads = tcb_set_state k ready (born c (record s { sched_lk = true })) in
      let o = (tqueue_enqueue-OnlyQueues num_ids k u).same_kctx k in
      (ap (λ (x : Kctx). x.esp) o ∙ ground arith, ap (λ (x : Kctx). x.eip) o ∙ ground arith)

  spawned-vmm : (s : Threads) (c : Containers) → (spawned c s).vmm.con ≡ c
  unfolding tcb_set_state kctx_set_esp kctx_set_eip
  spawned-vmm s c =
      let u : Threads = tcb_set_state k ready (born c (record s { sched_lk = true })) in
      (tqueue_enqueue-OnlyQueues num_ids k u).same_con

  spawned-pdir : (s : Threads) (c : Containers) → (spawned c s).vmm.pdir ≡ s.vmm.pdir
  unfolding tcb_set_state kctx_set_esp kctx_set_eip
  spawned-pdir s c =
      let u : Threads = tcb_set_state k ready (born c (record s { sched_lk = true })) in
      (tqueue_enqueue-OnlyQueues num_ids k u).same_pdir

-- Let the quotas be backed by free pages, the process tree be well formed, no one hold the scheduler's
-- lock and the queues hold the lists `qs`. For a live process `id` with fewer than three children, whose
-- remaining quota covers the request, and whose next child is in no queue and has a number below
-- `num_ids`, `thread_spawn` returns that child: it is ready and last in the ready queue, starts at the
-- entry on its own kernel stack, and has the requested quota; the lock is free, the quotas stay backed
-- and the tree well formed, and the page directories and the pages are as before.
pub thread_spawn_total :
    (kstack_hi : ℕ → ℕ) (entry id quota : ℕ) (s : Threads) (qs : ℕ → List ℕ)
    → IsFunded s.vmm.con
    → IsTree s.vmm.con
    → s.sched_lk ≡ false
    → IsQueues s qs
    → id < num_ids
    → (s.vmm.con.container id).used ≢ 0
    → (s.vmm.con.container id).nchildren < max_children
    → (s.vmm.con.container id).usage + quota ≤ (s.vmm.con.container id).quota
    → child_of id (s.vmm.con.container id).nchildren < num_ids
    → IsLoose qs (child_of id (s.vmm.con.container id).nchildren)
    → let k = child_of id (s.vmm.con.container id).nchildren in
      (t : Threads) × (thread_spawn kstack_hi entry id quota s ≡ ok (k, t))
      × IsQueues t (update qs num_ids (qs num_ids ++ k ∷ []))
      × ((t.tcb k).state ≡ ready)
      × ((t.kctx k).esp ≡ kstack_hi k)
      × ((t.kctx k).eip ≡ entry)
      × ((t.vmm.con.container k).quota ≡ quota)
      × (t.sched_lk ≡ false)
      × IsFunded t.vmm.con
      × IsTree t.vmm.con
      × (t.vmm.pdir ≡ s.vmm.pdir)
      × (t.vmm.con.pmm ≡ s.vmm.con.pmm)
thread_spawn_total kstack_hi entry id quota s qs f tree free h lt alive few room k_lt loose =
    let k = child_of id (s.vmm.con.container id).nchildren in
    let (c, e, ch, _, _, f', tree') =
      container_split-IsFunded s.vmm.con id quota f tree lt alive few room k_lt in
    let word : (s.vmm.con.container id).usage + quota < 2 ^ 32 =
      omega (arith, f.valid.word id, room) in
    let (_, can) = can_consume_exact id quota s.vmm.con word in
    let v = sym (spawned-vmm kstack_hi entry id quota k s c) in
    let (sp, ip) = spawned-kctx kstack_hi entry id quota k s c in
    (
      spawned kstack_hi entry id quota k c s,
      thread_spawn_run kstack_hi entry id quota k s c free (can room) e (omega arith),
      spawned-IsQueues kstack_hi entry id quota k s c qs k_lt h loose,
      spawned-state kstack_hi entry id quota k s c,
      sp,
      ip,
      ap (λ (d : Containers). (d.container k).quota) (sym v) ∙ ap (λ (x : SContainer). x.quota) ch,
      refl,
      subst IsFunded v f',
      subst IsTree v tree',
      spawned-pdir kstack_hi entry id quota k s c,
      ap (λ (d : Containers). d.pmm) (sym v)
          ∙ container_split-pmm id quota k s.vmm.con c (f.valid.unlocked id) k_lt e,
    )
