-- ===== src/Vmm/Mapping/Written.antt =====
-- A word written into a slot of a page table in use changes that entry alone.
use mcertikos.Base.{ℕ, ◌/◌, ◌%◌, ◌≤◌, ◌<◌, ◌≡◌, ◌≢◌, refl, sym, ◌∙◌, arith, update}
use native.Mathlib.Decide.{ℕ_discrete}
use mcertikos.Vmm.Tables.{Vmm, slot}
use mcertikos.Vmm.Address.{pde_addr, get_ptbl_entry_by_va}
use mcertikos.Vmm.Mapping.Owned.{IsOwn, IsOwned, entry_at, by_va-entry_at, slot-injective}

-- A word written into a slot of a table in use.
abbrev pub written : Vmm → ℕ → ℕ → ℕ → ℕ → Vmm
written s proc pde pte v = record s { memory = update s.memory (slot s proc pde pte) v }

slot-written :
    (s : Vmm) (proc pde pte v q r i : ℕ) → slot (written s proc pde pte v) q r i ≡ slot s q r i
unfolding slot
slot-written s proc pde pte v q r i = refl

pub IsOwned-written :
    (s : Vmm) (proc pde pte v : ℕ) → IsOwned s → IsOwned (written s proc pde pte v)
IsOwned-written s proc pde pte v o = record {
  valid = o.valid;
  pointer = o.pointer;
  allocated = o.allocated;
  apart = o.apart;
}

module _ (s : Vmm) (proc pde pte v : ℕ) (o : IsOwned s) (own : IsOwn proc pde)
    (used : s.pdir proc pde ≢ 0) (lt : pte < 1024) where
  pub entry_at-written_self : entry_at (written s proc pde pte v) proc pde pte ≡ v
  entry_at-written_self = ground (arith, slot-written s proc pde pte v proc pde pte)

  pub entry_at-written_other :
      (q r i : ℕ)
      → IsOwn q r
      → i < 1024
      → ((proc ≡ q) × (pde ≡ r) × (pte ≡ i) → ⊥)
      → entry_at (written s proc pde pte v) q r i ≡ entry_at s q r i
  entry_at-written_other q r i own' lt' other = elim (ℕ_discrete (s.pdir q r) 0) [
    | yes z ↦ ground (arith, z)
    | no nz ↦
        let apart : slot s proc pde pte ≢ slot s q r i =
          λ e. other (slot-injective s proc pde pte q r i o own own' used nz lt lt' e) in
        ground (arith, slot-written s proc pde pte v q r i)
  ]

-- A virtual address of the user range.
abbrev pub IsUserVa : ℕ → Type 0
IsUserVa va = (0x4000_0000 ≤ va) × (va < 0xf000_0000)

-- Every entry of a process other than 0 reads in `t` as in `s`, but perhaps that for `va` of `proc`.
abbrev pub SameBut : ℕ → ℕ → Vmm → Vmm → Type 0
SameBut proc va s t =
    (q w : ℕ)
    → q ≢ 0
    → IsUserVa w
    → ((proc ≡ q) × (va / 4096 ≡ w / 4096) → ⊥)
    → get_ptbl_entry_by_va t q w ≡ get_ptbl_entry_by_va s q w

module _ (s : Vmm) (proc va v : ℕ) (o : IsOwned s) (ne : proc ≢ 0) (user : IsUserVa va)
    (used : s.pdir proc (pde_addr va) ≢ 0) where
  at_va : (w : ℕ) → IsUserVa w → (q : ℕ) → q ≢ 0 → IsOwn q (pde_addr w)
  at_va w uw q nq = (nq, omega (arith, uw), omega (arith, uw))

  abbrev after : Vmm
  after = written s proc (pde_addr va) (va / 4096 % 1024) v

  pub by_va-written_self : get_ptbl_entry_by_va after proc va ≡ v
  by_va-written_self =
      by_va-entry_at after proc va
      ∙ entry_at-written_self s proc (pde_addr va) (va / 4096 % 1024) v o (at_va va user proc ne)
          used (omega arith)

  pub SameBut-written : SameBut proc va s after
  SameBut-written q w nq uw other =
      by_va-entry_at after q w
      ∙ entry_at-written_other s proc (pde_addr va) (va / 4096 % 1024) v o (at_va va user proc ne)
          used (omega arith) q (pde_addr w) (w / 4096 % 1024) (at_va w uw q nq) (omega arith)
          (λ (p, d, i). other (p, omega (arith, d, i)))
      ∙ sym (by_va-entry_at s q w)
