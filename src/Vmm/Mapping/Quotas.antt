-- ===== src/Vmm/Mapping/Quotas.antt =====
-- No mapping changes a quota.
use mcertikos.Base.{
  ℕ, ◌+◌, ◌/◌, ◌%◌, ◌^◌, ◌≡◌, ap, ◌∙◌, arith, Bool, true, false, not, ◌&&◌, ◌==◌, if◌then◌else◌,
  update, ok, hang, Outcome, Call, ◌>>=◌, ◌>>◌, pure, gets, modify, Good, Keeps, bind-Keeps,
  if-Keeps, lift-Keeps, always-Keeps,
}
use mcertikos.Pmm.Palloc.{palloc}
use mcertikos.Pmm.Container.{
  Containers, acquire, release, bump_usage, in_pmm, int_le, container_alloc,
}
use mcertikos.Vmm.Tables.{Vmm, in_con, set_pdir_entry, set_ptbl_entry, put_pdir}
use mcertikos.Vmm.Address.{
  pde_addr, get_pdir_entry_by_va, set_pdir_entry_by_va, set_ptbl_entry_by_va,
}
use mcertikos.Vmm.Mapping.{magic_number, clear_table, alloc_ptbl, map_page, alloc_page}
use mcertikos.Vmm.Mapping.Clear.{clear_table-Cleared}

-- The quotas are `q`.
abbrev pub HasQuotas : (ℕ → ℕ) → Containers → Type 0
HasQuotas q c = (i : ℕ) → (c.container i).quota ≡ q i

abbrev pub AtQuotas : (ℕ → ℕ) → Vmm → Type 0
AtQuotas q s = HasQuotas q s.con

module _ (q : ℕ → ℕ) where
  acquire-Keeps : (id : ℕ) → Keeps (HasQuotas q) (acquire id)
  unfolding acquire
  acquire-Keeps id s h = go (s.lks id)
    where
      taken : Bool → Outcome (Unit {0} × Containers)
      taken b = elim b [ true ↦ hang | false ↦ ok (tt, record s { lks = update s.lks id true }) ]

      go : (b : Bool) → Good (HasQuotas q) (taken b)
      go true = tt
      go false = h

  bump-Keeps : (id : ℕ) → Keeps (HasQuotas q) (modify (bump_usage id))
  bump-Keeps id s h i = ground (arith, h i)

  pure-Keeps : {A : Type 0} (P : Containers → Type 0) (a : A) → Keeps P (pure a)
  pure-Keeps P a s h = h

  container_alloc-Keeps : (id : ℕ) → Keeps (HasQuotas q) (container_alloc id)
  unfolding container_alloc release acquire
  container_alloc-Keeps id =
      let P = HasQuotas q in
      let alloc : Call Containers ℕ = in_pmm palloc in
      let take : Call Containers ℕ = modify (bump_usage id) >> alloc in
      let alloc-Keeps : Keeps P alloc =
        lift-Keeps P (λ _. Unit {0}) (λ s. s.pmm) (λ s p. record s { pmm = p }) palloc (λ _ _. tt)
          (λ s p h _. h) (always-Keeps (λ _. Unit {0}) palloc (λ _. tt)) in
      let last : ℕ → Call Containers ℕ = λ page. release id >> pure page in
      let body : Call Containers ℕ = gets (λ s. s.container id) >>= λ c.
      (if int_le ((c.usage + 1) % 2 ^ 32) c.quota then take else pure 0) >>= last in
      bind-Keeps P (acquire id) (λ _. body) (acquire-Keeps id)
        (λ _.
          bind-Keeps P (gets (λ s. s.container id))
            (λ c. (if int_le ((c.usage + 1) % 2 ^ 32) c.quota then take else pure 0) >>= last)
            (λ s h. h)
            (λ c.
              bind-Keeps P (if int_le ((c.usage + 1) % 2 ^ 32) c.quota then take else pure 0) last
                (if-Keeps P (int_le ((c.usage + 1) % 2 ^ 32) c.quota) take (pure 0)
                  (bind-Keeps P (modify (bump_usage id)) (λ _. alloc) (bump-Keeps id)
                    (λ _. alloc-Keeps))
                  (λ s h. h))
                (λ page s h. h)))

  in_con-Keeps : (id : ℕ) → Keeps (AtQuotas q) (in_con (container_alloc id))
  in_con-Keeps id =
      lift-Keeps (AtQuotas q) (HasQuotas q) (λ s. s.con) (λ s c. record s { con = c })
        (container_alloc id) (λ _ h. h) (λ _ _ _ h. h) (container_alloc-Keeps id)

  clear-Keeps : (proc pde : ℕ) → Keeps (AtQuotas q) (modify (clear_table proc pde))
  clear-Keeps proc pde s h i =
      let c = clear_table-Cleared s proc pde in
      ap (λ (c : Containers). (c.container i).quota) c.same_con ∙ h i

  alloc_ptbl-Keeps : (proc va : ℕ) → Keeps (AtQuotas q) (alloc_ptbl proc va)
  unfolding alloc_ptbl set_pdir_entry_by_va set_pdir_entry put_pdir
  alloc_ptbl-Keeps proc va =
      let P = AtQuotas q in
      let rest : ℕ → Call Vmm ℕ = λ page.
        modify (set_pdir_entry_by_va proc va page)
        >> (modify (clear_table proc (pde_addr va)) >> pure page) in
      let clear : ℕ → Call Vmm ℕ = λ page. modify (clear_table proc (pde_addr va)) >> pure page in
      bind-Keeps P (in_con (container_alloc proc)) (λ page. if page == 0 then pure 0 else rest page)
        (in_con-Keeps proc)
        (λ page.
          if-Keeps P (page == 0) (pure 0) (rest page) (λ s h. h)
            (bind-Keeps P (modify (set_pdir_entry_by_va proc va page)) (λ _. clear page) (λ s h. h)
              (λ _.
                bind-Keeps P (modify (clear_table proc (pde_addr va))) (λ _. pure page)
                  (clear-Keeps proc (pde_addr va)) (λ _ s h. h))))

  map_page-Keeps : (proc va page perm : ℕ) → Keeps (AtQuotas q) (map_page proc va page perm)
  unfolding map_page set_ptbl_entry_by_va set_ptbl_entry
  map_page-Keeps proc va page perm =
      let P = AtQuotas q in
      let last : (e r : ℕ) → Call Vmm ℕ = λ e r.
        if (e == 0) && (r == 0)
        then pure magic_number
        else (modify (set_ptbl_entry_by_va proc va page perm) >> pure r) in
      let table : ℕ → Call Vmm ℕ = λ e. if e == 0 then alloc_ptbl proc va else pure (e / 2 ^ 12) in
      bind-Keeps P (gets (λ s. get_pdir_entry_by_va s proc va)) (λ e. table e >>= last e) (λ s h. h)
        (λ e.
          bind-Keeps P (table e) (last e)
            (if-Keeps P (e == 0) (alloc_ptbl proc va) (pure (e / 2 ^ 12)) (alloc_ptbl-Keeps proc va)
              (λ s h. h))
            (λ r.
              if-Keeps P ((e == 0) && (r == 0)) (pure magic_number)
                (modify (set_ptbl_entry_by_va proc va page perm) >> pure r) (λ s h. h) (λ s h. h)))

  -- `alloc_page` changes no quota.
  pub alloc_page-Keeps : (proc va perm : ℕ) → Keeps (AtQuotas q) (alloc_page proc va perm)
  unfolding alloc_page
  alloc_page-Keeps proc va perm =
      let P = AtQuotas q in
      bind-Keeps P (in_con (container_alloc proc))
        (λ page. if not (page == 0) then map_page proc va page perm else pure magic_number)
        (in_con-Keeps proc)
        (λ page.
          if-Keeps P (not (page == 0)) (map_page proc va page perm) (pure magic_number)
            (map_page-Keeps proc va page perm) (λ s h. h))
