-- ===== src/Vmm/Mapping/Isolation.antt =====
-- What `map_page` and `unmap_page` do to the entries of all processes.
use mcertikos.Base.{
  ℕ, ◌+◌, ◌*◌, ◌/◌, ◌%◌, ◌^◌, ◌<◌, ◌≡◌, ◌≢◌, ◌⊎◌, inl, inr, refl, sym, ◌∙◌, ap, arith, ok,
}
use mathlib.Core.Path.{ap₂}
use native.Mathlib.Decide.{ℕ_discrete}
use mcertikos.Pmm.AllocTable.{at_is_allocated}
use mcertikos.Pmm.Container.Calls.{IsValid}
use mcertikos.Pmm.Container.{Containers, container_alloc}
use mcertikos.Vmm.Tables.{Vmm}
use mcertikos.Vmm.Tables.Words.{entry_word, pte_index}
use mcertikos.Vmm.Address.{
  pde_addr, get_ptbl_entry_by_va, get_pdir_entry_by_va, set_ptbl_entry_by_va,
}
use mcertikos.Vmm.Mapping.{magic_number, clear_table, alloc_ptbl, map_page}
use mcertikos.Vmm.Mapping.Owned.{
  IsOwn, IsOwned, Granted, NoPage, container_alloc-Granted, frame, entry_at, by_va-entry_at,
}
use mcertikos.Vmm.Mapping.Written.{
  IsUserVa, SameBut, written, IsOwned-written, by_va-written_self, SameBut-written,
}
use mcertikos.Vmm.Mapping.NewTable.{
  with_entry, alloc_ptbl-none, alloc_ptbl-some, new_table-entry_at, new_table-IsOwned,
  new_table-pdir,
}

-- The two ways in which `map_page` returns.
pub data Maps (proc va page perm : ℕ) (s : Vmm) (r : ℕ) (t : Vmm) : Type 0 where
  failed :
      r ≡ magic_number
      → s.pdir proc (pde_addr va) ≡ 0
      → NoPage proc s.con
      → ((q w : ℕ) → q ≢ 0 → IsUserVa w → get_ptbl_entry_by_va t q w ≡ get_ptbl_entry_by_va s q w)
      → Maps proc va page perm s r t
  mapped :
      r ≢ magic_number
      → get_ptbl_entry_by_va t proc va ≡ page * 4096 + perm
      → SameBut proc va s t
      → Maps proc va page perm s r t

set_by_va-written :
    (s : Vmm) (proc va page perm : ℕ)
    → page < 2 ^ 20
    → perm < 4096
    → set_ptbl_entry_by_va proc va page perm s
      ≡ written s proc (pde_addr va) (va / 4096 % 1024) (page * 4096 + perm)
unfolding set_ptbl_entry_by_va
set_by_va-written s proc va page perm h h' =
    ap₂ (λ i v. written s proc (pde_addr va) i v) (pte_index va) (entry_word page perm h h')

pub by_va-con :
    (s : Vmm) (d : Containers) (q w : ℕ)
    → get_ptbl_entry_by_va (record s { con = d }) q w ≡ get_ptbl_entry_by_va s q w
unfolding get_ptbl_entry_by_va
by_va-con s d q w = refl

module _ (proc va page perm : ℕ) where
  map_page-old :
      (s : Vmm)
      → s.pdir proc (pde_addr va) ≢ 0
      → map_page proc va page perm s
        ≡ ok (s.pdir proc (pde_addr va) / 4096, set_ptbl_entry_by_va proc va page perm s)
  unfolding map_page get_pdir_entry_by_va
  map_page-old s nz = ground arith

  pub map_page-none :
      (s t : Vmm)
      → s.pdir proc (pde_addr va) ≡ 0
      → alloc_ptbl proc va s ≡ ok (0, t)
      → map_page proc va page perm s ≡ ok (magic_number, t)
  unfolding map_page get_pdir_entry_by_va
  map_page-none s t z e = ground arith

  map_page-new :
      (s t : Vmm) (r : ℕ)
      → s.pdir proc (pde_addr va) ≡ 0
      → alloc_ptbl proc va s ≡ ok (r, t)
      → r ≢ 0
      → map_page proc va page perm s ≡ ok (r, set_ptbl_entry_by_va proc va page perm t)
  unfolding map_page get_pdir_entry_by_va
  map_page-new s t r z e nr = ground arith

module _ (proc va page perm : ℕ) (ne : proc ≢ 0) (user : IsUserVa va) (h : page < 2 ^ 20)
    (h' : perm < 4096) where
  abbrev own : IsOwn proc (pde_addr va)
  own = (ne, omega (arith, user), omega (arith, user))

  -- A state with a table for the address, and the same entries as before.
  record Ready (s t : Vmm) : Type 0 where
    owned : IsOwned t
    used : t.pdir proc (pde_addr va) ≢ 0
    same : (q r i : ℕ) → IsOwn q r → i < 1024 → entry_at t q r i ≡ entry_at s q r i

  at_va : (w : ℕ) → IsUserVa w → (q : ℕ) → q ≢ 0 → IsOwn q (pde_addr w)
  at_va w uw q nq = (nq, omega (arith, uw), omega (arith, uw))

  same_va :
      (s t : Vmm)
      → Ready s t
      → (q w : ℕ) → q ≢ 0
      → IsUserVa w
      → get_ptbl_entry_by_va t q w ≡ get_ptbl_entry_by_va s q w
  same_va s t ready q w nq uw =
      by_va-entry_at t q w
      ∙ ready.same q (pde_addr w) (w / 4096 % 1024) (at_va w uw q nq) (omega arith)
      ∙ sym (by_va-entry_at s q w)

  written-mapped :
      (s t : Vmm) (r : ℕ)
      → Ready s t
      → r < 0xf_0000
      → let u = set_ptbl_entry_by_va proc va page perm t in IsOwned u × Maps proc va page perm s r u
  written-mapped s t r ready small =
      let v = page * 4096 + perm in
      let o = ready.owned in
      rw (set_by_va-written t proc va page perm h h') (
        IsOwned-written t proc (pde_addr va) (va / 4096 % 1024) v o,
        mapped (omega arith) (by_va-written_self t proc va v o ne user ready.used)
            (λ q w nq uw other.
              SameBut-written t proc va v o ne user ready.used q w nq uw other
              ∙ same_va s t ready q w nq uw),
      )

  pub con-IsOwned :
      (s : Vmm) (d : Containers)
      → IsOwned s
      → IsValid d
      → ((i : ℕ) → at_is_allocated s.con.pmm i ≢ 0 → at_is_allocated d.pmm i ≢ 0)
      → IsOwned (record s { con = d })
  con-IsOwned s d o v keep = record {
    valid = v;
    pointer = o.pointer;
    allocated = λ q r own' nz. keep _ (o.allocated q r own' nz);
    apart = o.apart;
  }

  map_page-empty :
      (s : Vmm)
      → IsOwned s
      → s.pdir proc (pde_addr va) ≡ 0
      → (r : ℕ) × (t : Vmm) × (map_page proc va page perm s ≡ ok (r, t))
        × IsOwned t
        × Maps proc va page perm s r t
  map_page-empty s o z =
      let (p, d, e, g, v, keep) = container_alloc-Granted proc s.con o.valid in go p d e g v keep
    where
      go :
          (p : ℕ) (d : Containers)
          → container_alloc proc s.con ≡ ok (p, d)
          → ((p ≡ 0) × NoPage proc s.con) ⊎ Granted s.con p d
          → IsValid d
          → ((i : ℕ) → at_is_allocated s.con.pmm i ≢ 0 → at_is_allocated d.pmm i ≢ 0)
          → (r : ℕ) × (t : Vmm) × (map_page proc va page perm s ≡ ok (r, t))
            × IsOwned t
            × Maps proc va page perm s r t
      go p d e (inl (zero_page, starved)) v keep =
          let t : Vmm = record s { con = d } in
          (
            magic_number,
            t,
            map_page-none proc va page perm s t z
                (alloc_ptbl-none s d proc va (e ∙ ap (λ x. ok (x, d)) zero_page)),
            con-IsOwned s d o v keep,
            failed refl z starved (λ q w nq uw. by_va-con s d q w),
          )
      go p d e (inr g) v keep =
          let t = clear_table proc (pde_addr va) (with_entry s d proc (pde_addr va) p) in
          let ready : Ready s t = record {
            owned = new_table-IsOwned s d proc (pde_addr va) p o own z g;
            used = omega (arith, new_table-pdir s d proc (pde_addr va) p o own z g);
            same = new_table-entry_at s d proc (pde_addr va) p o own z g;
          } in
          let (o', m) = written-mapped s t p ready (omega (arith, g.user)) in
          (
            p,
            set_ptbl_entry_by_va proc va page perm t,
            map_page-new proc va page perm s t p z
                (alloc_ptbl-some s d proc va p e (omega (arith, g.user))) (omega (arith, g.user)),
            o',
            m,
          )

  -- On a state whose page tables are owned, `map_page` always returns, for a user address of a process
  -- other than 0. Either it returns `MagicNumber`, the process had no table for the address and gets no page for one,
  -- and every entry for a user address of every process other than 0 reads as before; or the address is mapped to the page with the permission, and every entry for another
  -- user page or another process other than 0 reads as before. The page tables stay owned.
  pub map_page_total :
      (s : Vmm)
      → IsOwned s
      → (r : ℕ) × (t : Vmm) × (map_page proc va page perm s ≡ ok (r, t))
        × IsOwned t
        × Maps proc va page perm s r t
  map_page_total s o = elim (ℕ_discrete (s.pdir proc (pde_addr va)) 0) [
    | yes z ↦ map_page-empty s o z
    | no nz ↦
        let ready : Ready s s = record { owned = o; used = nz; same = λ q r i _ _. refl } in
        let small : frame s proc (pde_addr va) < 0xf_0000 =
          omega (arith, (o.pointer proc (pde_addr va) own nz).1) in
        let (o', m) = written-mapped s s (frame s proc (pde_addr va)) ready small in
        (frame s proc (pde_addr va), _, map_page-old proc va page perm s nz, o', m)
  ]
