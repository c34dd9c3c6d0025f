-- ===== src/Vmm/Mapping/Unmap.antt =====
-- `unmap_page` removes the mapping of one page.
use mcertikos.Base.{ℕ, ◌/◌, ◌%◌, ◌≡◌, ◌≢◌, refl, sym, ◌∙◌, ap, arith, ok}
use native.Mathlib.Decide.{ℕ_discrete}
use mcertikos.Vmm.Tables.{Vmm}
use mcertikos.Vmm.Tables.Words.{pte_index}
use mcertikos.Vmm.Address.{pde_addr, get_ptbl_entry_by_va, rmv_ptbl_entry_by_va}
use mcertikos.Vmm.Mapping.{unmap_page}
use mcertikos.Vmm.Mapping.Owned.{IsOwned}
use mcertikos.Vmm.Mapping.Written.{
  IsUserVa, SameBut, written, IsOwned-written, by_va-written_self, SameBut-written,
}

unmap-mapped :
    (s : Vmm) (proc va : ℕ)
    → get_ptbl_entry_by_va s proc va ≢ 0
    → unmap_page proc va s ≡ ok (get_ptbl_entry_by_va s proc va, rmv_ptbl_entry_by_va proc va s)
unfolding unmap_page
unmap-mapped s proc va ne = ground arith

unmap-none :
    (s : Vmm) (proc va : ℕ) → get_ptbl_entry_by_va s proc va ≡ 0 → unmap_page proc va s ≡ ok (0, s)
unfolding unmap_page
unmap-none s proc va z = ground arith

rmv_by_va-written :
    (s : Vmm) (proc va : ℕ)
    → s.pdir proc (pde_addr va) ≢ 0
    → rmv_ptbl_entry_by_va proc va s ≡ written s proc (pde_addr va) (va / 4096 % 1024) 0
unfolding rmv_ptbl_entry_by_va
rmv_by_va-written s proc va ne = rw (← pte_index va) (ground arith)

table_used :
    (s : Vmm) (proc va : ℕ) → get_ptbl_entry_by_va s proc va ≢ 0 → s.pdir proc (pde_addr va) ≢ 0
unfolding get_ptbl_entry_by_va
table_used s proc va nz = ground arith

-- `unmap_page` of a user address of a process other than 0 returns the entry that was there. After it
-- the entry reads 0, every entry for another page or another process other than 0 reads as before,
-- and the page tables stay owned.
pub unmap_page_total :
    (s : Vmm) (proc va : ℕ)
    → IsOwned s
    → proc ≢ 0
    → IsUserVa va
    → (t : Vmm) × (unmap_page proc va s ≡ ok (get_ptbl_entry_by_va s proc va, t))
      × (get_ptbl_entry_by_va t proc va ≡ 0)
      × SameBut proc va s t
      × IsOwned t
unmap_page_total s proc va o ne user = elim (ℕ_discrete (get_ptbl_entry_by_va s proc va) 0) [
  | yes z ↦ (s, unmap-none s proc va z ∙ ap (λ x. ok (x, s)) (sym z), z, λ q w _ _ _. refl, o)
  | no nz ↦
      let used : s.pdir proc (pde_addr va) ≢ 0 = table_used s proc va nz in
      let same = rmv_by_va-written s proc va used in
      (
        _,
        unmap-mapped s proc va nz,
        rw same (by_va-written_self s proc va 0 o ne user used),
        rw same (SameBut-written s proc va 0 o ne user used),
        rw same (IsOwned-written s proc (pde_addr va) (va / 4096 % 1024) 0 o),
      )
]
