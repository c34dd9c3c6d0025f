-- ===== src/Vmm/Mapping/Owned.antt =====
-- Who owns the page tables: each user entry of a page directory has a page of its own.
use mcertikos.Base.{
  ℕ, ◌+◌, ◌*◌, ◌/◌, ◌%◌, ◌≤◌, ◌<◌, ◌≡◌, ◌≢◌, ◌⊎◌, inl, inr, refl, sym, ◌∙◌, ap, true, arith, ok,
  ok-injective, ◌==◌, if◌then◌else◌,
}
use mathlib.Core.Path.{subst}
use mcertikos.Pmm.AllocTable.{Pmm, at_is_allocated, at_set_allocated}
use mcertikos.Pmm.Palloc.{vm_userlo_pi, is_free}
use mcertikos.Pmm.Palloc.Search.{IsUser}
use mcertikos.Pmm.Palloc.Laws.{Alloc, took}
use mcertikos.Pmm.Container.{Containers, container_alloc}
use mcertikos.Pmm.Container.Calls.{IsValid, Allocs, container_alloc_total, Allocs-IsValid}
use mcertikos.Vmm.Tables.{Vmm, addr_mask, slot}
use mcertikos.Vmm.Tables.Words.{addr_mask-entry, pte_index}
use mcertikos.Vmm.Address.{pde_addr, get_ptbl_entry_by_va}
use mcertikos.Vmm.Init.{vm_userlo_pde, vm_userhi_pde}

-- The page directory entries that processes other than 0 use for themselves.
abbrev pub IsOwn : ℕ → ℕ → Type 0
IsOwn proc pde = (proc ≢ 0) × (vm_userlo_pde ≤ pde) × (pde < vm_userhi_pde)

abbrev pub frame : Vmm → ℕ → ℕ → ℕ
frame s proc pde = s.pdir proc pde / 4096

pub record IsOwned (s : Vmm) : Type 0 where
  pub valid : IsValid s.con
  -- An entry in use points to a page, with the permissions of a page directory entry, ...
  pub pointer :
      (proc pde : ℕ)
      → IsOwn proc pde
      → s.pdir proc pde ≢ 0
      → (s.pdir proc pde ≡ frame s proc pde * 4096 + 7) × IsUser (frame s proc pde)
  -- ... which is allocated, ...
  pub allocated :
      (proc pde : ℕ)
      → IsOwn proc pde
      → s.pdir proc pde ≢ 0
      → at_is_allocated s.con.pmm (frame s proc pde) ≢ 0
  -- ... and is the table of no other entry.
  pub apart :
      (proc pde proc' pde' : ℕ)
      → IsOwn proc pde
      → IsOwn proc' pde'
      → s.pdir proc pde ≢ 0
      → s.pdir proc' pde' ≢ 0
      → frame s proc pde ≡ frame s proc' pde'
      → (proc ≡ proc') × (pde ≡ pde')

pub allocated-took :
    (p : Pmm) (r i : ℕ) → at_is_allocated (took r p) i ≡ (if r == i then 1 else at_is_allocated p i)
unfolding at_is_allocated at_set_allocated
allocated-took p r i = ground arith

allocated-took_self : (p : Pmm) (r : ℕ) → at_is_allocated (took r p) r ≡ 1
unfolding at_is_allocated at_set_allocated
allocated-took_self p r = ground arith

allocated-last :
    (p : Pmm) (n i : ℕ)
    → at_is_allocated (record p { last_palloc_index = n }) i ≡ at_is_allocated p i
unfolding at_is_allocated
allocated-last p n i = refl

pub not_allocated : (p : Pmm) (i : ℕ) → is_free p i ≡ true → at_is_allocated p i ≡ 0
unfolding is_free
not_allocated p i f = ground arith

-- What a successful allocation has done.
pub record Granted (c : Containers) (page : ℕ) (d : Containers) : Type 0 where
  pub valid : IsValid d
  pub user : IsUser page
  pub free : is_free c.pmm page ≡ true
  pub pages : d.pmm ≡ took page c.pmm

-- Why process `id` gets no page: it is at its quota, or no user page is free but perhaps the one numbered
-- `num_pages`.
pub data NoPage (id : ℕ) (c : Containers) : Type 0 where
  at_quota : (c.container id).usage ≡ (c.container id).quota → NoPage id c
  no_free : ((j : ℕ) → IsUser j → is_free c.pmm j ≡ true → j ≡ c.pmm.num_pages) → NoPage id c

pub container_alloc-Granted :
    (id : ℕ) (c : Containers)
    → IsValid c
    → (r : ℕ) × (d : Containers) × (container_alloc id c ≡ ok (r, d))
      × (((r ≡ 0) × NoPage id c) ⊎ Granted c r d)
      × IsValid d
      × ((i : ℕ) → at_is_allocated c.pmm i ≢ 0 → at_is_allocated d.pmm i ≢ 0)
container_alloc-Granted id c v =
    let (r, d, e, a, l) = container_alloc_total id c v in
    let v' = Allocs-IsValid id c v a l in let (g, k) = go a v' in (r, d, e, g, v', k)
  where
    go :
        {r : ℕ} {d : Containers}
        → Allocs id c r d
        → IsValid d
        → (((r ≡ 0) × NoPage id c) ⊎ Granted c r d)
          × ((i : ℕ) → at_is_allocated c.pmm i ≢ 0 → at_is_allocated d.pmm i ≢ 0)
    go (Allocs.at_quota full z p _) v = (inl (z, NoPage.at_quota full), rw p (λ i h. h))
    go (Allocs.granted _ (Alloc.full z e none) _) v = (
      inl (z, NoPage.no_free none),
      rw e (λ i h z'. h (sym (allocated-last c.pmm vm_userlo_pi i) ∙ z')),
    )
    go (Allocs.granted _ (Alloc.page {r} u f ne e) _) v = (
      inr (record { valid = v; user = u; free = f; pages = e }),
      rw e (λ i h. ground (arith, allocated-took c.pmm r i)),
    )

-- The page that `container_alloc` returns is allocated.
pub container_alloc-allocated :
    (id : ℕ) (c : Containers) (r : ℕ) (d : Containers)
    → IsValid c
    → container_alloc id c ≡ ok (r, d)
    → r ≢ 0
    → at_is_allocated d.pmm r ≢ 0
container_alloc-allocated id c r d v run ne =
    let (r', d', e, g, _, _) = container_alloc-Granted id c v in
    let same = ok-injective (sym e ∙ run) in
    subst (λ (x : ℕ × Containers). x.0 ≢ 0 → at_is_allocated x.1.pmm x.0 ≢ 0) same (go r' d' g) ne
  where
    go :
        (r : ℕ) (d : Containers)
        → ((r ≡ 0) × NoPage id c) ⊎ Granted c r d
        → r ≢ 0
        → at_is_allocated d.pmm r ≢ 0
    go r d (inl (z, _)) ne = absurd (ne z)
    go r d (inr g) ne = rw g.pages (λ z. omega (arith, allocated-took_self c.pmm r, z))

-- The entry for a page of a process, as `get_ptbl_entry_by_va` reads it.
abbrev pub entry_at : Vmm → ℕ → ℕ → ℕ → ℕ
entry_at s proc pde pte = if s.pdir proc pde == 0 then 0 else s.memory (slot s proc pde pte)

pub by_va-entry_at :
    (s : Vmm) (proc vaddr : ℕ)
    → get_ptbl_entry_by_va s proc vaddr ≡ entry_at s proc (pde_addr vaddr) (vaddr / 4096 % 1024)
unfolding get_ptbl_entry_by_va
by_va-entry_at s proc vaddr = rw (pte_index vaddr) (ground arith)

-- The slots of a table in use.
pub slot-frame :
    (s : Vmm) (proc pde pte : ℕ)
    → IsOwned s
    → IsOwn proc pde
    → s.pdir proc pde ≢ 0
    → slot s proc pde pte ≡ frame s proc pde * 4096 + 4 * pte
unfolding slot
slot-frame s proc pde pte o own ne =
    let (e, u) = o.pointer proc pde own ne in
    omega (arith, ap addr_mask e, addr_mask-entry (frame s proc pde) 7 (omega arith) (omega arith))

-- Two slots at one address are one.
pub slot-injective :
    (s : Vmm) (proc pde pte proc' pde' pte' : ℕ)
    → IsOwned s
    → IsOwn proc pde
    → IsOwn proc' pde'
    → s.pdir proc pde ≢ 0
    → s.pdir proc' pde' ≢ 0
    → pte < 1024
    → pte' < 1024
    → slot s proc pde pte ≡ slot s proc' pde' pte'
    → (proc ≡ proc') × (pde ≡ pde') × (pte ≡ pte')
slot-injective s proc pde pte proc' pde' pte' o own own' ne ne' lt lt' e =
    let a = slot-frame s proc pde pte o own ne in
    let b = slot-frame s proc' pde' pte' o own' ne' in
    let (p, q) = o.apart proc pde proc' pde' own own' ne ne' (omega (arith, a, b, e)) in
    (p, q, omega (arith, a, b, e))
