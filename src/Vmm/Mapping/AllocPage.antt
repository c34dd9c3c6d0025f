-- ===== src/Vmm/Mapping/AllocPage.antt =====
-- `alloc_page` maps a fresh page, and what it loses when it fails half-way.
use mcertikos.Base.{ℕ, ◌+◌, ◌*◌, ◌<◌, ◌≡◌, ◌≢◌, ◌⊎◌, inl, inr, refl, sym, ◌∙◌, ap, true, arith, ok}
use mcertikos.Pmm.AllocTable.{at_is_allocated}
use mcertikos.Pmm.Palloc.{is_free}
use mcertikos.Pmm.Container.{Containers, num_ids, container_alloc, bump_usage}
use mcertikos.Pmm.Container.Calls.{IsValid, Allocs, container_alloc_total, charged}
use mcertikos.Pmm.Container.Budget.{IsFunded, container_alloc-granted}
use mcertikos.Vmm.Tables.{Vmm}
use mcertikos.Vmm.Address.{pde_addr, get_ptbl_entry_by_va}
use mcertikos.Vmm.Mapping.{magic_number, map_page, alloc_page}
use mcertikos.Vmm.Mapping.Owned.{
  IsOwned, Granted, NoPage, container_alloc-Granted, container_alloc-allocated,
}
use mcertikos.Vmm.Mapping.NewTable.{alloc_ptbl-none}
use mcertikos.Vmm.Mapping.Written.{IsUserVa, SameBut}
use mcertikos.Vmm.Mapping.Isolation.{Maps, by_va-con, con-IsOwned, map_page_total, map_page-none}

alloc_page-none :
    (s : Vmm) (d : Containers) (proc va perm : ℕ)
    → container_alloc proc s.con ≡ ok (0, d)
    → alloc_page proc va perm s ≡ ok (magic_number, record s { con = d })
unfolding alloc_page
alloc_page-none s d proc va perm e = ground arith

alloc_page-some :
    (s : Vmm) (d : Containers) (proc va perm page : ℕ)
    → container_alloc proc s.con ≡ ok (page, d)
    → page ≢ 0
    → alloc_page proc va perm s ≡ map_page proc va page perm (record s { con = d })
unfolding alloc_page
alloc_page-some s d proc va perm page e ne = ground arith

-- Why `alloc_page` fails: there is no page, or, behind the page, none for the table that is missing.
pub data Starved (proc va : ℕ) (s : Vmm) : Type 0 where
  no_page : NoPage proc s.con → Starved proc va s
  no_table :
      (page : ℕ) (d : Containers)
      → s.pdir proc (pde_addr va) ≡ 0
      → container_alloc proc s.con ≡ ok (page, d)
      → NoPage proc d
      → Starved proc va s

-- The two ways in which `alloc_page` returns.
pub data AllocsPage (proc va perm : ℕ) (s : Vmm) (r : ℕ) (t : Vmm) : Type 0 where
  failed :
      r ≡ magic_number
      → Starved proc va s
      → ((q w : ℕ) → q ≢ 0 → IsUserVa w → get_ptbl_entry_by_va t q w ≡ get_ptbl_entry_by_va s q w)
      → AllocsPage proc va perm s r t
  fresh :
      (page : ℕ)
      → r ≢ magic_number
      → is_free s.con.pmm page ≡ true
      → get_ptbl_entry_by_va t proc va ≡ page * 4096 + perm
      → SameBut proc va s t
      → AllocsPage proc va perm s r t

module _ (proc va perm : ℕ) (ne : proc ≢ 0) (user : IsUserVa va) (h' : perm < 4096) where
  AllocsPage-Maps :
      (s : Vmm) (d : Containers) (page r : ℕ) (t : Vmm)
      → is_free s.con.pmm page ≡ true
      → container_alloc proc s.con ≡ ok (page, d)
      → Maps proc va page perm (record s { con = d }) r t
      → AllocsPage proc va perm s r t
  AllocsPage-Maps s d page r t free run (Maps.failed e z none same) =
      failed e (Starved.no_table page d z run none) λ q w nq uw. same q w nq uw ∙ by_va-con s d q w
  AllocsPage-Maps s d page r t free run (Maps.mapped nr at_va same) =
      fresh page nr free at_va λ q w nq uw other. same q w nq uw other ∙ by_va-con s d q w

  -- On a state whose page tables are owned, `alloc_page` always returns, for a user address of a
  -- process other than 0. Either it returns `MagicNumber` and every entry of every process other than
  -- 0 reads as before; or the address is mapped to a page that was free, and every entry for another
  -- page or another process other than 0 reads as before. The page tables stay owned.
  pub alloc_page_total :
      (s : Vmm)
      → IsOwned s
      → (r : ℕ) × (t : Vmm) × (alloc_page proc va perm s ≡ ok (r, t))
        × IsOwned t
        × AllocsPage proc va perm s r t
  alloc_page_total s o =
      let (p, d, e, g, v, keep) = container_alloc-Granted proc s.con o.valid in
      go p d e g (con-IsOwned proc va 0 0 ne user (omega arith) (omega arith) s d o v keep)
    where
      go :
          (p : ℕ) (d : Containers)
          → container_alloc proc s.con ≡ ok (p, d)
          → ((p ≡ 0) × NoPage proc s.con) ⊎ Granted s.con p d
          → IsOwned (record s { con = d })
          → (r : ℕ) × (t : Vmm) × (alloc_page proc va perm s ≡ ok (r, t))
            × IsOwned t
            × AllocsPage proc va perm s r t
      go p d e (inl (z, none)) o' = (
        magic_number,
        record s { con = d },
        alloc_page-none s d proc va perm (e ∙ ap (λ x. ok (x, d)) z),
        o',
        failed refl (Starved.no_page none) (λ q w nq uw. by_va-con s d q w),
      )
      go p d e (inr g) o' =
          let (r, t, e', o'', m) =
            map_page_total proc va p perm ne user (omega (arith, g.user)) h' (record s { con = d })
              o' in
          (
            r,
            t,
            alloc_page-some s d proc va perm p e (omega (arith, g.user)) ∙ e',
            o'',
            AllocsPage-Maps s d p r t g.free e m,
          )

now_full :
    (id : ℕ) (c d : Containers)
    → IsValid c
    → d.container ≡ (bump_usage id c).container
    → (c.container id).usage + 1 ≡ (c.container id).quota
    → (d.container id).usage ≡ (d.container id).quota
now_full id c d v e one =
    rw (e, (charged id c v id (omega arith)).0, (charged id c v id (omega arith)).1) (ground arith)

at_quota_none :
    (id : ℕ) (c : Containers)
    → IsValid c
    → (c.container id).usage ≡ (c.container id).quota
    → (d : Containers) × (container_alloc id c ≡ ok (0, d))
      × (d.container ≡ c.container)
      × (d.pmm ≡ c.pmm)
at_quota_none id c v full = let (r, d, e, a, _) = container_alloc_total id c v in go r d e a
  where
    go :
        (r : ℕ) (d : Containers)
        → container_alloc id c ≡ ok (r, d)
        → Allocs id c r d
        → (d : Containers) × (container_alloc id c ≡ ok (0, d))
          × (d.container ≡ c.container)
          × (d.pmm ≡ c.pmm)
    go r d e (Allocs.at_quota _ z pages same) = (d, e ∙ ap (λ x. ok (x, d)) z, same, pages)
    go r d e (Allocs.granted lt _ _) = absurd (omega arith)

-- A process with one page left in its quota and no table for the address loses that page: the page
-- is taken for the mapping, no table can be allocated for it, and `alloc_page` returns `MagicNumber`
-- with the quota used up. A page that was free stays allocated, and the directories and the memory are as
-- before, so that it is mapped nowhere.
pub alloc_page-loses :
    (s : Vmm) (proc va perm : ℕ)
    → IsFunded s.con
    → proc < num_ids
    → (s.con.container proc).usage + 1 ≡ (s.con.container proc).quota
    → s.pdir proc (pde_addr va) ≡ 0
    → (t : Vmm) × (alloc_page proc va perm s ≡ ok (magic_number, t))
      × ((t.con.container proc).usage ≡ (t.con.container proc).quota)
      × (t.pdir ≡ s.pdir)
      × (t.memory ≡ s.memory)
      × (page : ℕ) × (is_free s.con.pmm page ≡ true)
      × (at_is_allocated t.con.pmm page ≢ 0)
alloc_page-loses s proc va perm f lt one empty =
    let (page, d, e, nz, free, charge, f') =
      container_alloc-granted proc s.con f lt (omega arith) in
    let used : (d.container proc).usage ≡ (d.container proc).quota =
      now_full proc s.con d f.valid charge one in
    let (d', e', same, pages) = at_quota_none proc d f'.valid used in
    let t : Vmm = record s { con = d' } in
    (
      t,
      alloc_page-some s d proc va perm page e nz
          ∙ map_page-none proc va page perm (record s { con = d }) t empty
              (alloc_ptbl-none (record s { con = d }) d' proc va e'),
      rw same used,
      refl,
      refl,
      page,
      free,
      λ z.
          container_alloc-allocated proc s.con page d f.valid e nz
            (ap (λ p. at_is_allocated p page) (sym pages) ∙ z),
    )
