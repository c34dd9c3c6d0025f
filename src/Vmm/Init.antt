-- ===== src/Vmm/Init.antt =====
-- The initialisers of kern/vmm: MPTOp, MPTComm, MPTKern and MPTInit.
pub mod Identity
pub mod Directories
pub mod Paging
use Prim.Native.Nat.{bit_or}
use mcertikos.Base.{ℕ, ◌-◌, Bool, ◌||◌, true, ltb, leb, if◌then◌else◌, List, for_range}
use mcertikos.Pmm.MemoryMap.{Entry}
use mcertikos.Pmm.Container.{num_ids, container_init}
use mcertikos.Vmm.Tables.{
  Vmm, pte_p, pte_w, pte_g, set_pdir_base, set_pdir_entry_identity, rmv_pdir_entry,
  set_ptbl_entry_identity,
}

-- `VM_USERLO_PDE` and `VM_USERHI_PDE`
abbrev pub vm_userlo_pde : ℕ
vm_userlo_pde = 256

abbrev pub vm_userhi_pde : ℕ
vm_userhi_pde = 960

-- `(pde_index < VM_USERLO_PDE) || (VM_USERHI_PDE <= pde_index)`
abbrev pub is_kernel : ℕ → Bool
is_kernel pde_index = ltb pde_index vm_userlo_pde || leb vm_userhi_pde pde_index

abbrev pub identity_perm : ℕ → ℕ
identity_perm pde_index =
    if is_kernel pde_index then bit_or (bit_or pte_p pte_w) pte_g else bit_or pte_p pte_w

-- The inner loop of `idptbl_init`: one identity table.
unfoldable pub fill_table : ℕ → Vmm → Vmm
fill_table pde_index =
    for_range 1024 0
      λ pte_index. set_ptbl_entry_identity pde_index pte_index (identity_perm pde_index)

unfoldable pub idptbl_init : List Entry → Vmm → Vmm
unfolding container_init fill_table
idptbl_init es s = for_range 1024 0 fill_table (record s { con = container_init es s.con })

unfoldable pub init_entry : ℕ → ℕ → Vmm → Vmm
unfolding set_pdir_entry_identity rmv_pdir_entry
init_entry proc_index pde_index =
    if is_kernel pde_index
    then set_pdir_entry_identity proc_index pde_index
    else rmv_pdir_entry proc_index pde_index

unfoldable pub pdir_init : List Entry → Vmm → Vmm
unfolding idptbl_init init_entry
pdir_init es s =
    for_range num_ids 0 (λ proc_index. for_range 1024 0 (init_entry proc_index)) (idptbl_init es s)

unfoldable pub pdir_init_kern : List Entry → Vmm → Vmm
unfolding pdir_init set_pdir_entry_identity
pdir_init_kern es s =
    for_range (vm_userhi_pde - vm_userlo_pde) vm_userlo_pde (set_pdir_entry_identity 0)
      (pdir_init es s)

unfoldable pub paging_init : List Entry → Vmm → Vmm
unfolding pdir_init_kern set_pdir_base
paging_init es s = record (set_pdir_base 0 (pdir_init_kern es s)) { paging = true }

unfoldable pub paging_init_ap : Vmm → Vmm
unfolding set_pdir_base
paging_init_ap s = record (set_pdir_base 0 s) { paging = true }
