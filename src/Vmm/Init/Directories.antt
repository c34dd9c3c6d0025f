-- ===== src/Vmm/Init/Directories.antt =====
-- `paging_init` fills the page directories and starts paging on the identity map.
use Prim.Native.Nat.{bit_or}
use mcertikos.Base.{
  ℕ, ◌+◌, ◌-◌, ◌*◌, ◌/◌, ◌%◌, ◌^◌, ◌≤◌, ◌<◌, ◌≡◌, refl, ap, ◌∙◌, arith, Bool-cases, inl, inr, true,
  if◌then◌else◌, List, for_range, for_range_inv,
}
use mcertikos.Base.Bits.{bit_or-shifted}
use mcertikos.Pmm.MemoryMap.{Entry}
use mcertikos.Pmm.Container.{num_ids}
use mcertikos.Vmm.Tables.{
  Vmm, ptu, put_pdir, set_pdir_entry_identity, rmv_pdir_entry, get_pdir_entry, slot, get_ptbl_entry,
  identity_table,
}
use mcertikos.Vmm.Tables.Words.{addr_mask-entry, pte_index}
use mcertikos.Vmm.Address.{get_ptbl_entry_by_va}
use mcertikos.Vmm.Init.{
  vm_userlo_pde, vm_userhi_pde, is_kernel, init_entry, idptbl_init, pdir_init, pdir_init_kern,
}

-- The directory entry of an identity table.
abbrev pub identity_dir : Vmm → ℕ → ℕ
identity_dir s pde = bit_or (identity_table s pde) ptu

-- What `pdir_init` puts in every directory.
abbrev pub first_dir : Vmm → ℕ → ℕ
first_dir s pde = if is_kernel pde then identity_dir s pde else 0

-- Only the directories have changed since `s`, and those below `n` are filled.
record Rows (s : Vmm) (n : ℕ) (t : Vmm) : Type 0 where
  same_con : t.con ≡ s.con
  same_memory : t.memory ≡ s.memory
  same_id : t.idptbl ≡ s.idptbl
  beyond : (proc pde : ℕ) → num_ids ≤ proc → t.pdir proc pde ≡ s.pdir proc pde
  entries : (proc pde : ℕ) → proc < n → pde < 1024 → t.pdir proc pde ≡ first_dir s pde

-- So with the first `k` entries of directory `n`.
record Partly (s : Vmm) (n k : ℕ) (t : Vmm) : Type 0 where
  below : Rows s n t
  row : (pde : ℕ) → pde < k → t.pdir n pde ≡ first_dir s pde

init_entry_lem :
    (s : Vmm) (n k : ℕ) (t : Vmm)
    → t.idptbl ≡ s.idptbl
    → init_entry n k t ≡ put_pdir n k (first_dir s k) t
unfolding init_entry set_pdir_entry_identity rmv_pdir_entry
init_entry_lem s n k t e =
    let same : identity_dir t k ≡ identity_dir s k = ap (λ a. bit_or (a + k * 4096) ptu) e in
    elim (Bool-cases (is_kernel k)) [
      | inl y ↦ rw y (ap (λ v. put_pdir n k v t) same)
      | inr y ↦ rw y refl
    ]

Partly-entry :
    (s : Vmm) (n k : ℕ) (t : Vmm)
    → n < num_ids
    → Partly s n k t
    → Partly s n (k + 1) (init_entry n k t)
unfolding put_pdir
Partly-entry s n k t hn p = rw (init_entry_lem s n k t p.below.same_id) (record {
  below = record {
    same_con = p.below.same_con;
    same_memory = p.below.same_memory;
    same_id = p.below.same_id;
    beyond = λ proc pde le. ground (arith, p.below.beyond proc pde le);
    entries = λ proc pde lt lt'. ground (arith, p.below.entries proc pde lt lt');
  };
  row = λ pde lt. ground (arith, p.row pde);
})

Rows-table :
    (s : Vmm) (n : ℕ) (t : Vmm)
    → n < num_ids
    → Rows s n t
    → Rows s (n + 1) (for_range 1024 0 (init_entry n) t)
Rows-table s n t hn f =
    let p =
      for_range_inv (Partly s n) (init_entry n) 1024 0 1024 t refl
        (λ k u lo hi q. Partly-entry s n k u hn q)
        (record { below = f; row = λ pde lt. absurd (omega arith) }) in
    record {
      same_con = p.below.same_con;
      same_memory = p.below.same_memory;
      same_id = p.below.same_id;
      beyond = p.below.beyond;
      entries = λ proc pde lt lt'. ground (arith, p.below.entries proc pde, p.row pde);
    }

pdir_init-Rows : (es : List Entry) (s : Vmm) → Rows (idptbl_init es s) num_ids (pdir_init es s)
unfolding pdir_init
pdir_init-Rows es s =
    let s' = idptbl_init es s in
    for_range_inv (Rows s') (λ n. for_range 1024 0 (init_entry n)) num_ids 0 num_ids s' refl
      (λ n t lo hi f. Rows-table s' n t hi f)
      (record {
        same_con = refl;
        same_memory = refl;
        same_id = refl;
        beyond = λ proc pde le. refl;
        entries = λ proc pde lt lt'. absurd (omega arith);
      })

-- The user part of directory 0 below `k` is the identity too.
pub record Kern (s : Vmm) (k : ℕ) (t : Vmm) : Type 0 where
  pub same_con : t.con ≡ s.con
  pub same_memory : t.memory ≡ s.memory
  pub same_id : t.idptbl ≡ s.idptbl
  pub beyond : (proc pde : ℕ) → num_ids ≤ proc → t.pdir proc pde ≡ s.pdir proc pde
  pub user : (pde : ℕ) → vm_userlo_pde ≤ pde → pde < k → t.pdir 0 pde ≡ identity_dir s pde
  pub kernel : (pde : ℕ) → is_kernel pde ≡ true → pde < 1024 → t.pdir 0 pde ≡ identity_dir s pde
  pub others :
      (proc pde : ℕ) → 0 < proc → proc < num_ids → pde < 1024 → t.pdir proc pde ≡ first_dir s pde

Kern-entry :
    (s : Vmm) (k : ℕ) (t : Vmm)
    → vm_userlo_pde ≤ k
    → k < vm_userhi_pde
    → Kern s k t
    → Kern s (k + 1) (set_pdir_entry_identity 0 k t)
unfolding set_pdir_entry_identity put_pdir
Kern-entry s k t lo hi h =
    let same : identity_dir t k ≡ identity_dir s k =
      ap (λ a. bit_or (a + k * 4096) ptu) h.same_id in
    record {
      same_con = h.same_con;
      same_memory = h.same_memory;
      same_id = h.same_id;
      beyond = λ proc pde le. ground (arith, h.beyond proc pde le);
      user = λ pde lo' hi'. ground (arith, h.user pde, same);
      kernel = λ pde y lt. ground (arith, h.kernel pde y lt);
      others = λ proc pde p lt lt'. ground (arith, h.others proc pde p lt lt');
    }

pub pdir_init_kern-Kern :
    (es : List Entry) (s : Vmm) → Kern (idptbl_init es s) vm_userhi_pde (pdir_init_kern es s)
unfolding pdir_init_kern
pdir_init_kern-Kern es s =
    let s' = idptbl_init es s in
    let r = pdir_init-Rows es s in
    let first : (pde : ℕ) → is_kernel pde ≡ true → first_dir s' pde ≡ identity_dir s' pde =
      λ pde y. rw y refl in
    for_range_inv (Kern s') (set_pdir_entry_identity 0) (vm_userhi_pde - vm_userlo_pde)
      vm_userlo_pde vm_userhi_pde (pdir_init es s) refl (λ k t lo hi h. Kern-entry s' k t lo hi h)
      (record {
        same_con = r.same_con;
        same_memory = r.same_memory;
        same_id = r.same_id;
        beyond = r.beyond;
        user = λ pde lo hi. absurd (omega arith);
        kernel = λ pde y lt. r.entries 0 pde (omega arith) lt ∙ first pde y;
        others = λ proc pde p lt lt'. r.entries proc pde lt lt';
      })

identity_dir_word :
    (s : Vmm) (pde : ℕ)
    → s.idptbl % 4096 ≡ 0
    → identity_dir s pde ≡ (s.idptbl / 4096 + pde) * 4096 + 7
identity_dir_word s pde h =
    let whole : identity_table s pde ≡ (s.idptbl / 4096 + pde) * 2 ^ 12 = omega arith in
    let user : ptu ≡ 7 = refl in
    rw whole
      (omega (arith, bit_or-shifted 12 (s.idptbl / 4096 + pde) ptu (omega (arith, user)), user))

-- A directory entry of the identity leads to the identity table.
pub by_va-identity :
    (s t : Vmm) (proc vaddr : ℕ)
    → s.idptbl % 4096 ≡ 0
    → s.idptbl + 2 ^ 22 ≤ 2 ^ 32
    → vaddr < 2 ^ 32
    → t.pdir proc (vaddr / 2 ^ 22) ≡ identity_dir s (vaddr / 2 ^ 22)
    → get_ptbl_entry_by_va t proc vaddr
      ≡ t.memory (identity_table s (vaddr / 2 ^ 22) + 4 * (vaddr / 4096 % 1024))
unfolding get_ptbl_entry_by_va get_pdir_entry get_ptbl_entry slot
by_va-identity s t proc vaddr al top lt e =
    let pde = vaddr / 2 ^ 22 in
    let w = e ∙ identity_dir_word s pde al in
    ground (
      arith,
      w,
      addr_mask-entry (s.idptbl / 4096 + pde) 7 (omega arith) (omega arith),
      pte_index vaddr,
    )
