-- ===== src/Vmm/Mapping/NewTable.antt =====
-- `alloc_ptbl` gives a process an empty table of its own, and disturbs no entry.
use mcertikos.Base.{
  ℕ, ◌+◌, ◌*◌, ◌<◌, ◌≡◌, ◌≢◌, ◌⊎◌, inl, inr, refl, sym, ◌∙◌, ap, arith, ok, ◌==◌, if◌then◌else◌,
}
use mathlib.Core.Path.{ap₂}
use native.Mathlib.Decide.{ℕ_discrete}
use mcertikos.Pmm.AllocTable.{at_is_allocated}
use mcertikos.Pmm.Container.{Containers, container_alloc}
use mcertikos.Vmm.Tables.{Vmm, addr_mask, slot, set_pdir_entry}
use mcertikos.Vmm.Tables.Words.{entry_word, addr_mask-entry}
use mcertikos.Vmm.Address.{pde_addr, set_pdir_entry_by_va}
use mcertikos.Vmm.Mapping.{clear_table, alloc_ptbl}
use mcertikos.Vmm.Mapping.Clear.{Cleared, clear_table-Cleared}
use mcertikos.Vmm.Mapping.Owned.{
  IsOwn, IsOwned, Granted, frame, entry_at, slot-frame, not_allocated, allocated-took,
}

-- The page directory entry of the new table.
abbrev pub with_entry : Vmm → Containers → ℕ → ℕ → ℕ → Vmm
with_entry s d proc pde page = set_pdir_entry proc pde page (record s { con = d })

pub alloc_ptbl-none :
    (s : Vmm) (d : Containers) (proc vaddr : ℕ)
    → container_alloc proc s.con ≡ ok (0, d)
    → alloc_ptbl proc vaddr s ≡ ok (0, record s { con = d })
unfolding alloc_ptbl
alloc_ptbl-none s d proc vaddr e = ground arith

pub alloc_ptbl-some :
    (s : Vmm) (d : Containers) (proc vaddr page : ℕ)
    → container_alloc proc s.con ≡ ok (page, d)
    → page ≢ 0
    → alloc_ptbl proc vaddr s
      ≡ ok (page, clear_table proc (pde_addr vaddr) (with_entry s d proc (pde_addr vaddr) page))
unfolding alloc_ptbl set_pdir_entry_by_va
alloc_ptbl-some s d proc vaddr page e ne = ground arith

module _ (s : Vmm) (d : Containers) (proc pde page : ℕ) (o : IsOwned s) (own : IsOwn proc pde)
    (empty : s.pdir proc pde ≡ 0) (g : Granted s.con page d) where
  abbrev mid : Vmm
  mid = with_entry s d proc pde page

  abbrev t : Vmm
  t = clear_table proc pde mid

  cleared : Cleared mid proc pde 1024 t
  cleared = clear_table-Cleared mid proc pde

  mid-pdir :
      (q r : ℕ)
      → mid.pdir q r
        ≡ (if proc == q then (if pde == r then page * 4096 + 7 else s.pdir q r) else s.pdir q r)
  unfolding set_pdir_entry
  mid-pdir q r = ground (arith, entry_word page 7 (omega (arith, g.user)) (omega arith))

  mid-other : (mid.con ≡ d) × (mid.memory ≡ s.memory) × (mid.idptbl ≡ s.idptbl)
  unfolding set_pdir_entry
  mid-other = (refl, refl, refl)

  t-pdir :
      (q r : ℕ)
      → t.pdir q r
        ≡ (if proc == q then (if pde == r then page * 4096 + 7 else s.pdir q r) else s.pdir q r)
  t-pdir q r = ap (λ (f : ℕ → ℕ → ℕ). f q r) cleared.same_pdir ∙ mid-pdir q r

  -- The new page is no table yet.
  new_page : (q r : ℕ) → IsOwn q r → s.pdir q r ≢ 0 → frame s q r ≢ page
  new_page q r own' ne e =
      o.allocated q r own' ne
        (ap (at_is_allocated s.con.pmm) e ∙ not_allocated s.con.pmm page g.free)

  mid-slot : (i : ℕ) → slot mid proc pde i ≡ page * 4096 + 4 * i
  unfolding slot
  mid-slot i = omega (
    arith,
    ap addr_mask (mid-pdir proc pde ∙ self),
    addr_mask-entry page 7 (omega (arith, g.user)) (omega arith),
  )
    where
      self :
          (if proc == proc
            then (if pde == pde then page * 4096 + 7 else s.pdir proc pde)
            else s.pdir proc pde)
          ≡ page * 4096 + 7
      self = ground arith

  t-slot_new : (i : ℕ) → slot t proc pde i ≡ slot mid proc pde i
  unfolding slot
  t-slot_new i = ap (λ (f : ℕ → ℕ → ℕ). addr_mask (f proc pde) + 4 * i) cleared.same_pdir

  t-slot_old : (q r i : ℕ) → t.pdir q r ≡ s.pdir q r → slot t q r i ≡ slot s q r i
  unfolding slot
  t-slot_old q r i e = ap (λ a. addr_mask a + 4 * i) e

  t-memory_old :
      (q r i : ℕ)
      → IsOwn q r
      → s.pdir q r ≢ 0
      → i < 1024
      → t.memory (slot s q r i) ≡ s.memory (slot s q r i)
  t-memory_old q r i own' ne lt =
      cleared.same_out (slot s q r i) (λ j lt' e.
        new_page q r own' ne (omega (arith, e, mid-slot j, slot-frame s q r i o own' ne)))
      ∙ ap (λ (m : ℕ → ℕ). m (slot s q r i)) mid-other.1

  entry_new : (i : ℕ) → i < 1024 → entry_at t proc pde i ≡ entry_at s proc pde i
  entry_new i lt =
      ground (arith, empty, t-pdir proc pde, cleared.zero_in i lt, ap t.memory (t-slot_new i))

  entry_old :
      (q r i : ℕ)
      → IsOwn q r
      → i < 1024
      → t.pdir q r ≡ s.pdir q r
      → entry_at t q r i ≡ entry_at s q r i
  entry_old q r i own' lt e = elim (ℕ_discrete (s.pdir q r) 0) [
    | yes z ↦ ground (arith, z, e)
    | no nz ↦ ground (arith, e, ap t.memory (t-slot_old q r i e), t-memory_old q r i own' nz lt)
  ]

  pdir_cases :
      (q r : ℕ)
      → ((proc ≡ q) × (pde ≡ r) × (t.pdir q r ≡ page * 4096 + 7)) ⊎ (t.pdir q r ≡ s.pdir q r)
  pdir_cases q r = ground (arith, t-pdir q r)

  -- No entry changes.
  pub new_table-entry_at : (q r i : ℕ) → IsOwn q r → i < 1024 → entry_at t q r i ≡ entry_at s q r i
  new_table-entry_at q r i own' lt = elim (pdir_cases q r) [
    | inl (p, d, e) ↦
        ap₂ (λ a b. entry_at t a b i) (sym p) (sym d)
        ∙ entry_new i lt
        ∙ ap₂ (λ a b. entry_at s a b i) p d
    | inr e ↦ entry_old q r i own' lt e
  ]

  still_allocated : (i : ℕ) → at_is_allocated s.con.pmm i ≢ 0 → at_is_allocated t.con.pmm i ≢ 0
  still_allocated i a =
      rw (cleared.same_con, mid-other.0, g.pages) (ground (arith, allocated-took s.con.pmm page i))

  page_allocated : at_is_allocated t.con.pmm page ≢ 0
  page_allocated =
      rw (cleared.same_con, mid-other.0, g.pages)
        (ground (arith, allocated-took s.con.pmm page page))

  t-frame_old : (q r : ℕ) → t.pdir q r ≡ s.pdir q r → frame t q r ≡ frame s q r
  t-frame_old q r e = omega (arith, e)

  t-allocated : (q r : ℕ) → IsOwn q r → t.pdir q r ≢ 0 → at_is_allocated t.con.pmm (frame t q r) ≢ 0
  t-allocated q r own' ne = elim (pdir_cases q r) [
    | inl (p, d', e) ↦ let same : frame t q r ≡ page = omega (arith, e) in rw same page_allocated
    | inr e ↦
        rw (t-frame_old q r e)
          (still_allocated (frame s q r) (o.allocated q r own' (λ z. ne (e ∙ z))))
  ]

  t-apart :
      (q r q' r' : ℕ)
      → IsOwn q r
      → IsOwn q' r'
      → t.pdir q r ≢ 0
      → t.pdir q' r' ≢ 0
      → frame t q r ≡ frame t q' r'
      → (q ≡ q') × (r ≡ r')
  t-apart q r q' r' own' own'' ne ne' same = elim (pdir_cases q r) [
    | inl (p, d', e) ↦ elim (pdir_cases q' r') [
      | inl (p', d'', e') ↦ (sym p ∙ p', sym d' ∙ d'')
      | inr e' ↦ absurd (new_page q' r' own'' (λ z. ne' (e' ∙ z)) (omega (arith, e, e', same)))
    ]
    | inr e ↦ elim (pdir_cases q' r') [
      | inl (p', d'', e') ↦
          absurd (new_page q r own' (λ z. ne (e ∙ z)) (omega (arith, e, e', same)))
      | inr e' ↦
          o.apart q r q' r' own' own'' (λ z. ne (e ∙ z)) (λ z. ne' (e' ∙ z))
            (omega (arith, e, e', same))
    ]
  ]

  pub new_table-IsOwned : IsOwned t
  new_table-IsOwned = record {
    valid = rw (cleared.same_con, mid-other.0) g.valid;
    pointer = λ q r own' ne. elim (pdir_cases q r) [
      | inl (p, d', e) ↦ (omega (arith, e), omega (arith, e, g.user))
      | inr e ↦ rw e (o.pointer q r own' (λ z. ne (e ∙ z)))
    ];
    allocated = t-allocated;
    apart = t-apart;
  }

  -- The entry of the page directory points to the new table.
  pub new_table-pdir : t.pdir proc pde ≡ page * 4096 + 7
  new_table-pdir = ground (arith, t-pdir proc pde)
