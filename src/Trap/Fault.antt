-- ===== src/Trap/Fault.antt =====
-- The page fault of a process maps a page, or the kernel panics.
use Prim.Native.Nat.{bit_and}
use mcertikos.Base.{
  ℕ, ◌+◌, ◌*◌, ◌≡◌, ◌≢◌, refl, ◌∙◌, ap, arith, Bool, true, false, not, ◌==◌, if◌then◌else◌, ok,
  panic, Call, bind_ok, ◌>>=◌, pure,
}
use mcertikos.Pmm.Palloc.{is_free}
use mcertikos.Vmm.Tables.{Vmm, ptu}
use mcertikos.Vmm.Address.{get_ptbl_entry_by_va}
use mcertikos.Vmm.Mapping.{magic_number, alloc_page}
use mcertikos.Vmm.Mapping.Owned.{IsOwned}
use mcertikos.Vmm.Mapping.Written.{IsUserVa, SameBut}
use mcertikos.Vmm.Mapping.AllocPage.{AllocsPage, Starved, alloc_page_total}
use mcertikos.Thread.Context.{get_curid}
use mcertikos.Proc.{Trapframe, Kernel}
use mcertikos.Proc.Create.{in_vmm_ok}
use mcertikos.Trap.{in_kernel_vmm, pfe_pr, pgflt_handler, exception_handler}

-- The handler's two outcomes for a fault at `va` in process `pid`.
pub data Handles (pid va : ℕ) (tf : Trapframe) (s : Kernel) : Type 0 where
  no_page : exception_handler va tf s ≡ panic → Starved pid va s.threads.vmm → Handles pid va tf s
  mapped :
      (t : Vmm) (page : ℕ)
      → exception_handler va tf s ≡ ok (tf, record s { threads = record s.threads { vmm = t } })
      → is_free s.threads.vmm.con.pmm page ≡ true
      → get_ptbl_entry_by_va t pid va ≡ page * 4096 + 7
      → SameBut pid va s.threads.vmm t
      → IsOwned t
      → Handles pid va tf s

module _ (va : ℕ) (tf : Trapframe) (s : Kernel) (fault : tf.trapno ≡ 14)
    (absent : bit_and tf.err pfe_pr ≡ 0) where
  handler_run :
      (r : ℕ) (t : Vmm)
      → alloc_page (get_curid s.threads) va ptu s.threads.vmm ≡ ok (r, t)
      → exception_handler va tf s ≡ (
          if r == magic_number
          then panic
          else ok (tf, record s { threads = record s.threads { vmm = t } }))
  unfolding exception_handler pgflt_handler
  handler_run r t e =
      let a : (tf.trapno == 14) ≡ true = ground arith in
      let b : (bit_and tf.err pfe_pr == 0) ≡ true = ground arith in
      let id = get_curid s.threads in
      let u : Kernel = record s { threads = record s.threads { vmm = t } } in
      let k : ℕ → Call Kernel Trapframe =
        λ r. if r == magic_number then (λ s. panic) else pure tf in
      let map : Call Kernel ℕ = in_kernel_vmm (alloc_page id va ptu) in
      ap (λ a. (if a then pgflt_handler va tf else λ s. panic) s) a
      ∙ ap (λ b. (if not b then (λ s. panic) else (map >>= k)) s) b
      ∙ bind_ok map k s u r (in_vmm_ok (alloc_page id va ptu) s r t e)
      ∙ apply_if r u
    where
      apply_if :
          (r : ℕ) (u : Kernel)
          → (if r == magic_number then (λ s. panic) else pure tf) u
            ≡ (if r == magic_number then panic else ok (tf, u))
      apply_if r u = go (r == magic_number)
        where
          go :
              (b : Bool)
              → (if b then (λ s. panic) else pure tf) u ≡ (if b then panic else ok (tf, u))
          go true = refl
          go false = refl

-- On a state whose page tables are owned, let the current process not be 0 and cause a page fault at a user
-- address whose page is not there. Then either the kernel panics, and the process gets no page, or none for the
-- page table that is missing, since it is at its quota or no user page is free but perhaps the one
-- numbered `num_pages`; or `exception_handler` returns with the trap frame as it was: the address
-- is mapped to a page that was free, with all permissions of a user page, and every entry for another
-- user page or another process other than 0 reads as before, and the page tables stay owned.
pub exception_handler_total :
    (va : ℕ) (tf : Trapframe) (s : Kernel)
    → tf.trapno ≡ 14
    → bit_and tf.err pfe_pr ≡ 0
    → get_curid s.threads ≢ 0
    → IsUserVa va
    → IsOwned s.threads.vmm
    → Handles (get_curid s.threads) va tf s
exception_handler_total va tf s fault absent ne user o =
    let id = get_curid s.threads in
    let (r, t, e, o', how) = alloc_page_total id va 7 ne user (omega arith) s.threads.vmm o in
    go r t (handler_run va tf s fault absent r t e) o' how
  where
    go :
        (r : ℕ) (t : Vmm)
        → exception_handler va tf s ≡ (
            if r == magic_number
            then panic
            else ok (tf, record s { threads = record s.threads { vmm = t } }))
        → IsOwned t
        → AllocsPage (get_curid s.threads) va 7 s.threads.vmm r t
        → Handles (get_curid s.threads) va tf s
    go r t e o' (AllocsPage.failed z starved _) =
        let b : (r == magic_number) ≡ true = ground arith in
        Handles.no_page
          (e
            ∙ ap
                (λ b.
                  if b then panic else ok (tf, record s { threads = record s.threads { vmm = t } }))
                b)
          starved
    go r t e o' (AllocsPage.fresh page nz free at_va same) =
        let b : (r == magic_number) ≡ false = ground arith in
        Handles.mapped t page
          (e
            ∙ ap
                (λ b.
                  if b then panic else ok (tf, record s { threads = record s.threads { vmm = t } }))
                b)
          free at_va same o'
