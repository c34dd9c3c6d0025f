-- ===== src/Vmm/Address.antt =====
-- kern/vmm/MPTOp: page structures by virtual address.
use Prim.Native.Nat.{bit_and}
use mcertikos.Base.{ℕ, ◌/◌, ◌^◌, not, ◌==◌, if◌then◌else◌}
use mcertikos.Vmm.Tables.{
  Vmm, get_pdir_entry, set_pdir_entry, rmv_pdir_entry, get_ptbl_entry, set_ptbl_entry,
  rmv_ptbl_entry,
}

-- `PDE_ADDR(x)` and `PTE_ADDR(x)`
abbrev pub pde_addr : ℕ → ℕ
pde_addr x = x / 2 ^ 22

abbrev pub pte_addr : ℕ → ℕ
pte_addr x = bit_and (x / 2 ^ 12) 0x3ff

unfoldable pub get_ptbl_entry_by_va : Vmm → ℕ → ℕ → ℕ
unfolding get_pdir_entry get_ptbl_entry
get_ptbl_entry_by_va s proc_index vaddr =
    let pde_index = pde_addr vaddr in
    if not (get_pdir_entry s proc_index pde_index == 0)
    then get_ptbl_entry s proc_index pde_index (pte_addr vaddr)
    else 0

unfoldable pub get_pdir_entry_by_va : Vmm → ℕ → ℕ → ℕ
unfolding get_pdir_entry
get_pdir_entry_by_va s proc_index vaddr = get_pdir_entry s proc_index (pde_addr vaddr)

unfoldable pub rmv_ptbl_entry_by_va : ℕ → ℕ → Vmm → Vmm
unfolding get_pdir_entry rmv_ptbl_entry
rmv_ptbl_entry_by_va proc_index vaddr s =
    let pde_index = pde_addr vaddr in
    if not (get_pdir_entry s proc_index pde_index == 0)
    then rmv_ptbl_entry proc_index pde_index (pte_addr vaddr) s
    else s

unfoldable pub rmv_pdir_entry_by_va : ℕ → ℕ → Vmm → Vmm
unfolding rmv_pdir_entry
rmv_pdir_entry_by_va proc_index vaddr = rmv_pdir_entry proc_index (pde_addr vaddr)

unfoldable pub set_ptbl_entry_by_va : ℕ → ℕ → ℕ → ℕ → Vmm → Vmm
unfolding set_ptbl_entry
set_ptbl_entry_by_va proc_index vaddr = set_ptbl_entry proc_index (pde_addr vaddr) (pte_addr vaddr)

unfoldable pub set_pdir_entry_by_va : ℕ → ℕ → ℕ → Vmm → Vmm
unfolding set_pdir_entry
set_pdir_entry_by_va proc_index vaddr = set_pdir_entry proc_index (pde_addr vaddr)
