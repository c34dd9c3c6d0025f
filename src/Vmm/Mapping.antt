-- ===== src/Vmm/Mapping.antt =====
-- kern/vmm/MPTComm, MPTKern and MPTNew: page tables and pages are allocated and mapped.
pub mod Clear
pub mod Owned
pub mod NewTable
pub mod Written
pub mod Isolation
pub mod Unmap
pub mod AllocPage
pub mod Quotas
use Prim.Native.Nat.{bit_or}
use mcertikos.Base.{
  ℕ, ◌/◌, ◌^◌, not, ◌&&◌, ◌==◌, if◌then◌else◌, Call, ◌>>=◌, ◌>>◌, pure, gets, modify, for_range,
}
use mcertikos.Pmm.Container.{container_alloc, container_free, container_split}
use mcertikos.Vmm.Tables.{Vmm, in_con, rmv_pdir_entry, rmv_ptbl_entry}
use mcertikos.Vmm.Address.{
  pde_addr, get_ptbl_entry_by_va, get_pdir_entry_by_va, rmv_ptbl_entry_by_va, set_ptbl_entry_by_va,
  set_pdir_entry_by_va,
}

abbrev pub magic_number : ℕ
magic_number = 1048577

-- The loop that clears a page table.
pub clear_table : ℕ → ℕ → Vmm → Vmm
clear_table proc_index pde_index = for_range 1024 0 (rmv_ptbl_entry proc_index pde_index)

unfoldable pub alloc_ptbl : ℕ → ℕ → Call Vmm ℕ
unfolding clear_table
alloc_ptbl proc_index vaddr = do
  page_index ← in_con (container_alloc proc_index)
  if page_index == 0 then pure 0 else (do
    modify (set_pdir_entry_by_va proc_index vaddr page_index)
    modify (clear_table proc_index (pde_addr vaddr))
    pure page_index)

unfoldable pub free_ptbl : ℕ → ℕ → Call Vmm (Unit {0})
free_ptbl proc_index vaddr = do
  pde_entry ← gets (λ s. get_pdir_entry_by_va s proc_index vaddr)
  modify (rmv_pdir_entry proc_index (pde_addr vaddr))
  in_con (container_free proc_index (pde_entry / 2 ^ 12))

unfoldable pub map_page : ℕ → ℕ → ℕ → ℕ → Call Vmm ℕ
unfolding alloc_ptbl
map_page proc_index vaddr page_index perm = do
  pde_entry ← gets (λ s. get_pdir_entry_by_va s proc_index vaddr)
  pde_page_index ←
      (if pde_entry == 0 then alloc_ptbl proc_index vaddr else pure (pde_entry / 2 ^ 12))
  if (pde_entry == 0) && (pde_page_index == 0)
      then pure magic_number
      else (do modify (set_ptbl_entry_by_va proc_index vaddr page_index perm); pure pde_page_index)

unfoldable pub unmap_page : ℕ → ℕ → Call Vmm ℕ
unmap_page proc_index vaddr = do
  pte_entry ← gets (λ s. get_ptbl_entry_by_va s proc_index vaddr)
  if not (pte_entry == 0) then modify (rmv_ptbl_entry_by_va proc_index vaddr) else pure tt
  pure pte_entry

unfoldable pub alloc_page : ℕ → ℕ → ℕ → Call Vmm ℕ
unfolding map_page
alloc_page proc_index vaddr perm = do
  page_index ← in_con (container_alloc proc_index)
  if not (page_index == 0) then map_page proc_index vaddr page_index perm else pure magic_number

unfoldable pub alloc_mem_quota : ℕ → ℕ → Call Vmm ℕ
alloc_mem_quota id quota = in_con (container_split id quota)
