-- ===== src/Pmm/Container/Calls.antt =====
-- What the calls of MContainer do to quotas, locks and pages.
use mcertikos.Base.{
  ℕ, ◌+◌, ◌-◌, ◌^◌, ◌≤◌, ◌<◌, ◌≡◌, ◌≢◌, refl, inl, inr, true, false, arith, ◌==◌, if◌then◌else◌,
  update, ok, Bool-cases, ◌∙◌,
}
use native.Mathlib.Decide.{ℕ_discrete}
use mcertikos.Pmm.AllocTable.{Pmm, at_is_allocated}
use mcertikos.Pmm.Palloc.{palloc, pfree}
use mcertikos.Pmm.Palloc.Laws.{
  Alloc, palloc_total, pfree_total, Alloc-IsValid, pfree-at_set_allocated, freed-IsValid,
}
use mcertikos.Pmm.Palloc.Laws as Laws
use mcertikos.Pmm.Container.{Containers, container_alloc, container_free, bump_usage, drop_usage}

-- Between calls no lock is held and each process keeps to its quota, where
-- counting one past it does not overflow an `int`.
pub record IsValid (s : Containers) : Type 0 where
  pub pages : Laws.IsValid s.pmm
  pub unlocked : (id : ℕ) → s.lks id ≡ false
  pub word : (id : ℕ) → (s.container id).quota + 1 < 2 ^ 31
  pub within : (id : ℕ) → (s.container id).usage ≤ (s.container id).quota

-- The two ways in which `container_alloc` returns.
pub data Allocs (id : ℕ) (s : Containers) (r : ℕ) (t : Containers) : Type 0 where
  at_quota :
      (s.container id).usage ≡ (s.container id).quota
      → r ≡ 0
      → t.pmm ≡ s.pmm
      → t.container ≡ s.container
      → Allocs id s r t
  granted :
      (s.container id).usage < (s.container id).quota
      → Alloc s.pmm r t.pmm
      → t.container ≡ (bump_usage id s).container
      → Allocs id s r t

module _ (id : ℕ) (s : Containers) (v : IsValid s) where
  alloc_at_quota :
      (s.container id).usage ≡ (s.container id).quota
      → container_alloc id s ≡ ok (0, record s { lks = update (update s.lks id true) id false })
  unfolding container_alloc
  alloc_at_quota e = ground (arith, v.unlocked id, v.word id)

  alloc_granted :
      (r : ℕ) (p : Pmm)
      → (s.container id).usage < (s.container id).quota
      → palloc s.pmm ≡ ok (r, p)
      → container_alloc id s
        ≡ ok (
          r,
          record {
            pmm = p;
            container = (bump_usage id s).container;
            lks = update (update s.lks id true) id false;
          },
        )
  unfolding container_alloc
  alloc_granted r p lt e = ground (arith, v.unlocked id, v.word id)

  -- On a valid state `container_alloc` returns with all locks as they were. A process at its quota
  -- gets 0 and nothing changes; any other is charged one page, and gets what `palloc` returns.
  pub container_alloc_total :
      (r : ℕ) × (t : Containers) × (container_alloc id s ≡ ok (r, t))
      × Allocs id s r t
      × ((i : ℕ) → t.lks i ≡ s.lks i)
  container_alloc_total = elim (Bool-cases ((s.container id).usage == (s.container id).quota)) [
    | inl e ↦ (
      0,
      _,
      alloc_at_quota (ground arith),
      at_quota (ground arith) refl refl refl,
      λ i. ground (arith, v.unlocked id),
    )
    | inr ne ↦
        let (r, p, e, a) = palloc_total s.pmm v.pages in
        let lt : (s.container id).usage < (s.container id).quota = ground (arith, v.within id) in
        (r, _, alloc_granted r p lt e, granted lt a refl, λ i. ground (arith, v.unlocked id))
  ]

  pub charged :
      (i : ℕ)
      → (s.container id).usage < (s.container id).quota
      → ((bump_usage id s).container i).quota ≡ (s.container i).quota
        × (((bump_usage id s).container i).usage
            ≡ (if id == i then (s.container i).usage + 1 else (s.container i).usage))
  charged i lt = ground (arith, v.word id)

  free_unallocated :
      (page : ℕ)
      → at_is_allocated s.pmm page ≡ 0
      → container_free id page s
        ≡ ok (tt, record s { lks = update (update s.lks id true) id false })
  unfolding container_free
  free_unallocated page e = ground (arith, v.unlocked id)

  free_allocated :
      (page : ℕ) (p : Pmm)
      → at_is_allocated s.pmm page ≢ 0
      → pfree page s.pmm ≡ ok (tt, p)
      → container_free id page s
        ≡ ok (
          tt,
          record {
            pmm = p;
            container = (drop_usage id s).container;
            lks = update (update s.lks id true) id false;
          },
        )
  unfolding container_free
  free_allocated page p ne e = ground (arith, v.unlocked id)

  pub uncharged :
      (i : ℕ)
      → (((drop_usage id s).container i).quota ≡ (s.container i).quota)
        × (((drop_usage id s).container i).usage
            ≡ (if id == i then (s.container i).usage - 1 else (s.container i).usage))
  uncharged i = ground (arith, v.word id, v.within id)

-- The two ways in which `container_free` returns.
pub data Frees (id page : ℕ) (s t : Containers) : Type 0 where
  unallocated :
      at_is_allocated s.pmm page ≡ 0 → t.pmm ≡ s.pmm → t.container ≡ s.container → Frees id page s t
  freed :
      at_is_allocated s.pmm page ≢ 0
      → pfree page s.pmm ≡ ok (tt, t.pmm)
      → t.container ≡ (drop_usage id s).container
      → Frees id page s t

module _ (id : ℕ) (s : Containers) (v : IsValid s) where
  -- On a valid state `container_free` returns with all locks as they were. It does nothing to a page
  -- that is not allocated; any other is freed, and the process has one page less, but not below 0.
  pub container_free_total :
      (page : ℕ)
      → (t : Containers) × (container_free id page s ≡ ok (tt, t))
        × Frees id page s t
        × ((i : ℕ) → t.lks i ≡ s.lks i)
  container_free_total page = elim (ℕ_discrete (at_is_allocated s.pmm page) 0) [
    | yes e ↦ (
      _,
      free_unallocated id s v page e,
      unallocated e refl refl,
      λ i. ground (arith, v.unlocked id),
    )
    | no ne ↦
        let (p, e, _, _) = pfree_total s.pmm page v.pages in
        (_, free_allocated id s v page p ne e, freed ne e refl, λ i. ground (arith, v.unlocked id))
  ]

  pub Allocs-IsValid :
      {r : ℕ} {t : Containers} → Allocs id s r t → ((i : ℕ) → t.lks i ≡ s.lks i) → IsValid t
  Allocs-IsValid (at_quota e z p c) l = record {
    pages = rw p v.pages;
    unlocked = λ i. l i ∙ v.unlocked i;
    word = rw c v.word;
    within = rw c v.within;
  }
  Allocs-IsValid (granted lt a c) l = record {
    pages = Alloc-IsValid v.pages a;
    unlocked = λ i. l i ∙ v.unlocked i;
    word = λ i. rw (c, (charged id s v i lt).0) (v.word i);
    within =
        λ i. rw (c, (charged id s v i lt).0, (charged id s v i lt).1) (ground (arith, v.within i));
  }

  pub Frees-IsValid :
      {page : ℕ} {t : Containers} → Frees id page s t → ((i : ℕ) → t.lks i ≡ s.lks i) → IsValid t
  Frees-IsValid (unallocated e p c) l = record {
    pages = rw p v.pages;
    unlocked = λ i. l i ∙ v.unlocked i;
    word = rw c v.word;
    within = rw c v.within;
  }
  Frees-IsValid {page} {t} (freed ne e c) l = record {
    pages = rw (pfree-at_set_allocated s.pmm page v.pages e) (freed-IsValid s.pmm page v.pages);
    unlocked = λ i. l i ∙ v.unlocked i;
    word = λ i. rw (c, (uncharged id s v i).0) (v.word i);
    within = λ i. ground (arith, c, uncharged id s v i, v.within i);
  }
