-- ===== src/Vmm/Init/Paging.antt =====
-- `paging_init`: which addresses the directories map once paging is on.
use mcertikos.Base.{
  ℕ, ◌+◌, ◌*◌, ◌/◌, ◌%◌, ◌^◌, ◌≤◌, ◌<◌, ◌≡◌, ◌≢◌, ◌⊎◌, inl, inr, refl, sym, ap, ◌∙◌, arith,
  Bool-cases, true, false, ◌||◌, ◌==◌, if◌then◌else◌, List,
}
use mathlib.Core.Path.{subst}
use native.Mathlib.Decide.{ℕ_discrete}
use mcertikos.Pmm.MemoryMap.{Entry}
use mcertikos.Pmm.Init.Pages.{AllRanges}
use mcertikos.Pmm.Container.{num_ids, container_init}
use mcertikos.Pmm.Container.Calls.{IsValid}
use mcertikos.Pmm.Container.Boot.{IsBoot, container_init-IsFunded}
use mcertikos.Pmm.Container.Budget.{IsFunded}
use mcertikos.Vmm.Tables.{Vmm, set_pdir_base, get_pdir_entry, identity_table}
use mcertikos.Vmm.Address.{get_ptbl_entry_by_va}
use mcertikos.Vmm.Init.{
  vm_userlo_pde, vm_userhi_pde, is_kernel, identity_perm, idptbl_init, paging_init,
}
use mcertikos.Vmm.Init.Identity.{idptbl_init-Filled}
use mcertikos.Vmm.Init.Directories.{
  identity_dir, first_dir, Kern, pdir_init_kern-Kern, by_va-identity,
}
use mcertikos.Vmm.Mapping.Owned.{IsOwn, IsOwned}

-- The page table entry that `paging_init` leaves for an address.
abbrev pub first_entry : ℕ → ℕ → ℕ
first_entry proc vaddr =
    let pde = vaddr / 2 ^ 22 in
    if is_kernel pde || (proc == 0) then vaddr / 4096 * 4096 + identity_perm pde else 0

kernel_dir : (s : Vmm) (pde : ℕ) → is_kernel pde ≡ true → first_dir s pde ≡ identity_dir s pde
kernel_dir s pde y = rw y refl

user_dir : (s : Vmm) (pde : ℕ) → is_kernel pde ≡ false → first_dir s pde ≡ 0
user_dir s pde n = rw n refl

entry_kernel :
    (proc vaddr : ℕ)
    → is_kernel (vaddr / 2 ^ 22) ≡ true
    → vaddr / 4096 * 4096 + identity_perm (vaddr / 2 ^ 22) ≡ first_entry proc vaddr
entry_kernel proc vaddr y = ground arith

entry_zero :
    (proc vaddr : ℕ)
    → proc ≡ 0
    → vaddr / 4096 * 4096 + identity_perm (vaddr / 2 ^ 22) ≡ first_entry proc vaddr
entry_zero proc vaddr z = ground arith

entry_none :
    (proc vaddr : ℕ) → is_kernel (vaddr / 2 ^ 22) ≡ false → proc ≢ 0 → 0 ≡ first_entry proc vaddr
entry_none proc vaddr n nz = ground arith

below_or_not : (a n : ℕ) → (a < n) ⊎ (n ≤ a)
below_or_not a n = ground arith

user_low : (pde : ℕ) → is_kernel pde ≡ false → vm_userlo_pde ≤ pde
user_low pde n = ground arith

user_high : (pde : ℕ) → is_kernel pde ≡ false → pde < vm_userhi_pde
user_high pde n = ground arith

module _ (es : List Entry) (s : Vmm) where
  unfoldable started : Vmm
  unfolding paging_init
  started = paging_init es s

  dirs : Kern (idptbl_init es s) vm_userhi_pde started
  unfolding paging_init set_pdir_base started
  dirs =
      let h = pdir_init_kern-Kern es s in
      record {
        same_con = h.same_con;
        same_memory = h.same_memory;
        same_id = h.same_id;
        beyond = h.beyond;
        user = h.user;
        kernel = h.kernel;
        others = h.others;
      }

  mapped :
      (proc vaddr : ℕ)
      → s.idptbl % 4096 ≡ 0
      → s.idptbl + 2 ^ 22 ≤ 2 ^ 32
      → vaddr < 2 ^ 32
      → started.pdir proc (vaddr / 2 ^ 22) ≡ identity_dir (idptbl_init es s) (vaddr / 2 ^ 22)
      → get_ptbl_entry_by_va started proc vaddr
        ≡ vaddr / 4096 * 4096 + identity_perm (vaddr / 2 ^ 22)
  mapped proc vaddr al top lt e =
      let f = idptbl_init-Filled es s in
      let id : (idptbl_init es s).idptbl ≡ s.idptbl = f.same_id in
      let pde = vaddr / 2 ^ 22 in
      let pte = vaddr / 4096 % 1024 in
      let addr : identity_table (idptbl_init es s) pde + 4 * pte ≡ identity_table s pde + 4 * pte =
        ap (λ a. a + pde * 4096 + 4 * pte) id in
      by_va-identity (idptbl_init es s) started proc vaddr (omega (arith, id)) (omega (arith, id))
        lt e
      ∙ ap (λ m. m (identity_table (idptbl_init es s) pde + 4 * pte)) dirs.same_memory
      ∙ ap (idptbl_init es s).memory addr
      ∙ f.entries pde pte (omega arith) (omega arith)
      ∙ omega arith

  unmapped :
      (proc vaddr : ℕ)
      → started.pdir proc (vaddr / 2 ^ 22) ≡ 0
      → get_ptbl_entry_by_va started proc vaddr ≡ 0
  unfolding get_ptbl_entry_by_va get_pdir_entry
  unmapped proc vaddr e = rw e refl

  entry :
      (proc vaddr : ℕ)
      → s.idptbl % 4096 ≡ 0
      → s.idptbl + 2 ^ 22 ≤ 2 ^ 32
      → proc < num_ids
      → vaddr < 2 ^ 32
      → get_ptbl_entry_by_va started proc vaddr ≡ first_entry proc vaddr
  entry proc vaddr al top hp hv =
      let pde = vaddr / 2 ^ 22 in
      elim (Bool-cases (is_kernel pde)) [
        | inl y ↦
            mapped proc vaddr al top hv (elim (ℕ_discrete proc 0) [
              | yes z ↦ ap (λ p. started.pdir p pde) z ∙ dirs.kernel pde y (omega arith)
              | no nz ↦
                  dirs.others proc pde (omega arith) hp (omega arith)
                  ∙ kernel_dir (idptbl_init es s) pde y
            ])
            ∙ entry_kernel proc vaddr y
        | inr n ↦ elim (ℕ_discrete proc 0) [
          | yes z ↦
              mapped proc vaddr al top hv
                (ap (λ p. started.pdir p pde) z ∙ dirs.user pde (user_low pde n) (user_high pde n))
              ∙ entry_zero proc vaddr z
          | no nz ↦
              unmapped proc vaddr (
                dirs.others proc pde (omega arith) hp (omega arith)
                ∙ user_dir (idptbl_init es s) pde n)
              ∙ entry_none proc vaddr n nz
        ]
      ]

started_entry :
    (es : List Entry) (s : Vmm) (proc vaddr : ℕ)
    → s.idptbl % 4096 ≡ 0
    → s.idptbl + 2 ^ 22 ≤ 2 ^ 32
    → proc < num_ids
    → vaddr < 2 ^ 32
    → get_ptbl_entry_by_va (paging_init es s) proc vaddr ≡ first_entry proc vaddr
unfolding started
started_entry = entry

-- Let the identity tables be page aligned, within the 4 GB of addresses. After `paging_init`, paging
-- is on with the directory of process 0, and for every process and address the page table entry is
-- the page of the address itself, with the global bit for kernel addresses, if the address is the
-- kernel's or the process is 0; a user address of any other process has no entry.
pub paging_init_lem :
    (es : List Entry) (s : Vmm)
    → s.idptbl % 4096 ≡ 0
    → s.idptbl + 2 ^ 22 ≤ 2 ^ 32
    → let t = paging_init es s in
      (t.paging ≡ true)
      × (t.cr3 ≡ 0)
      × ((proc vaddr : ℕ)
          → proc < num_ids
          → vaddr < 2 ^ 32
          → get_ptbl_entry_by_va t proc vaddr ≡ first_entry proc vaddr)
unfolding paging_init set_pdir_base
paging_init_lem es s al top =
    (refl, refl, λ proc vaddr hp hv. started_entry es s proc vaddr al top hp hv)

own_user : (proc pde : ℕ) → IsOwn proc pde → is_kernel pde ≡ false
own_user proc pde (ne, lo, hi) = ground arith

module _ (es : List Entry) (s : Vmm) (zeroed : (proc pde : ℕ) → s.pdir proc pde ≡ 0) where
  empty : (proc pde : ℕ) → IsOwn proc pde → (started es s).pdir proc pde ≡ 0
  empty proc pde own =
      let d = dirs es s in
      let f = idptbl_init-Filled es s in
      let (ne, lo, hi) = own in
      elim (below_or_not proc num_ids) [
        | inl lt ↦
            d.others proc pde (omega arith) lt (omega arith)
            ∙ user_dir (idptbl_init es s) pde (own_user proc pde own)
        | inr le ↦ d.beyond proc pde le ∙ ap (λ g. g proc pde) f.same_pdir ∙ zeroed proc pde
      ]

  con_boot : (started es s).con ≡ container_init es s.con
  con_boot = (dirs es s).same_con ∙ (idptbl_init-Filled es s).same_con

  started-IsOwned : IsValid (started es s).con → IsOwned (started es s)
  started-IsOwned v = record {
    valid = v;
    pointer = λ proc pde own used. absurd (used (empty proc pde own));
    allocated = λ proc pde own used. absurd (used (empty proc pde own));
    apart = λ proc pde proc' pde' own own' used. absurd (used (empty proc pde own));
  }

-- Let the memory map have proper ranges, the kernel's variables be zero at boot and the identity
-- tables page aligned, within the 4 GB. After `paging_init` no lock is held, the quotas are backed by
-- free pages, and every page table in use by a process other than 0 is a page of its own.
pub paging_init-IsOwned :
    (es : List Entry) (s : Vmm)
    → AllRanges es
    → IsBoot s.con
    → ((proc pde : ℕ) → s.pdir proc pde ≡ 0)
    → let t = paging_init es s in IsFunded t.con × IsOwned t
unfolding started
paging_init-IsOwned es s all b z =
    let (_, boot, _) = container_init-IsFunded es s.con all b in
    let funded : IsFunded (started es s).con = subst IsFunded (sym (con_boot es s z)) boot in
    (funded, started-IsOwned es s z funded.valid)
