-- ===== src/Pmm/Container/Split.antt =====
-- What `container_split` does: to the tree, to the quotas and to the lock.
use mcertikos.Base.{
  ℕ, ◌+◌, ◌^◌, ◌≤◌, ◌<◌, ◌≡◌, ◌≢◌, ◌↔◌, refl, sym, ◌∙◌, ap, true, false, arith, ◌==◌, if◌then◌else◌,
  update, ok-injective, ok, hang,
}
use mcertikos.Pmm.Container.{
  Containers, num_ids, max_children, child_of, split_update, container_split, container_alloc,
  container_free, container_can_consume,
}
use mcertikos.Pmm.Container.Calls.{IsValid}
use mcertikos.Pmm.Container.Budget.{sum_change, budget, left, free_pages, IsFunded}
use mcertikos.Pmm.Container.Tree.{
  IsTree, IsBlank, child-IsBlank, child_of_lem, split-IsTree, split-quota, split-usage,
  split-parent,
}

split_pair :
    (s t : Containers) (id k quota : ℕ)
    → id < num_ids
    → k < num_ids
    → id ≢ k
    → (s.container id).usage + quota ≤ (s.container id).quota
    → left s k ≡ 0
    → left t k ≡ quota
    → left t id + quota ≡ left s id
    → ((i : ℕ) → id ≢ i → k ≢ i → left t i ≡ left s i)
    → budget t ≡ budget s
split_pair s t id k quota lt lt' ne room bs bt bi same = omega (
  arith,
  sum_change (left s) mid num_ids id lt (λ i ni. ground arith),
  sum_change mid (left t) num_ids k lt' (λ i nk. ground (arith, same i)),
  mid_id,
  mid_k,
)
  where
    mid : ℕ → ℕ
    mid i = if id == i then left t id else left s i

    mid_id : mid id ≡ left t id
    mid_id = ground arith

    mid_k : mid k ≡ left s k
    mid_k = ground arith

split_runs :
    (id quota : ℕ) (s : Containers)
    → s.lks id ≡ false
    → child_of id (s.container id).nchildren < num_ids
    → let k = child_of id (s.container id).nchildren in
      container_split id quota s
      ≡ ok (k, record (split_update id k quota s) { lks = update (update s.lks id true) id false })
unfolding container_split
split_runs id quota s e lt = ground arith

split-pmm : (id k quota : ℕ) (s : Containers) → (split_update id k quota s).pmm ≡ s.pmm
unfolding split_update
split-pmm id k quota s = refl

-- `container_split` of a free container leaves the pages as they are.
pub container_split-pmm :
    (id quota r : ℕ) (s t : Containers)
    → s.lks id ≡ false
    → child_of id (s.container id).nchildren < num_ids
    → container_split id quota s ≡ ok (r, t)
    → t.pmm ≡ s.pmm
container_split-pmm id quota r s t e lt run =
    let k = child_of id (s.container id).nchildren in
    ap (λ (x : ℕ × Containers). x.1.pmm) (ok-injective (sym run ∙ split_runs id quota s e lt))
    ∙ split-pmm id k quota s

split_refuses :
    (id quota : ℕ) (s : Containers)
    → s.lks id ≡ false
    → num_ids ≤ child_of id (s.container id).nchildren
    → container_split id quota s ≡ ok (num_ids, record s { lks = update s.lks id true })
unfolding container_split
split_refuses id quota s e le = ground arith

-- For words whose sum does not wrap, the test asks what its comment says.
pub can_consume_exact :
    (id n : ℕ) (s : Containers)
    → (s.container id).usage + n < 2 ^ 32
    → (container_can_consume s id n ≡ 1) ↔ ((s.container id).usage + n ≤ (s.container id).quota)
unfolding container_can_consume
can_consume_exact id n s h = ground arith

-- The sum in `container_can_consume` wraps: for a process that uses some memory there are requests
-- `n` above its whole quota that pass the test, among them every `n` of at least `2 ^ 32 - usage`.
pub can_consume_wraps :
    (id n : ℕ) (s : Containers)
    → IsValid s
    → n < 2 ^ 32
    → 2 ^ 32 ≤ (s.container id).usage + n
    → (container_can_consume s id n ≡ 1) × ((s.container id).quota < n)
unfolding container_can_consume
can_consume_wraps id n s v word wrap = ground (arith, v.word id, v.within id)

module _ (id : ℕ) (s : Containers) (held : s.lks id ≡ true) where
  split_hangs : (q : ℕ) → container_split id q s ≡ hang
  unfolding container_split
  split_hangs q = ground arith

  alloc_hangs : container_alloc id s ≡ hang
  unfolding container_alloc
  alloc_hangs = ground arith

  free_hangs : (page : ℕ) → container_free id page s ≡ hang
  unfolding container_free
  free_hangs page = ground arith

-- A split that finds no number for the child returns `num_ids` and leaves the lock of the parent
-- held: from then on every split, allocation and release for that process spins for ever.
pub container_split-blocks :
    (id quota : ℕ) (s : Containers)
    → s.lks id ≡ false
    → num_ids ≤ child_of id (s.container id).nchildren
    → (t : Containers) × (container_split id quota s ≡ ok (num_ids, t))
      × ((q : ℕ) → container_split id q t ≡ hang)
      × (container_alloc id t ≡ hang)
      × ((page : ℕ) → container_free id page t ≡ hang)
container_split-blocks id quota s e le =
    let t : Containers = record s { lks = update s.lks id true } in
    let held : t.lks id ≡ true = ground arith in
    (
      t,
      split_refuses id quota s e le,
      split_hangs id t held,
      alloc_hangs id t held,
      free_hangs id t held,
    )

module _ (s : Containers) (id quota : ℕ) (f : IsFunded s) (tree : IsTree s) (lt : id < num_ids)
    (alive : (s.container id).used ≢ 0) (few : (s.container id).nchildren < max_children)
    (room : (s.container id).usage + quota ≤ (s.container id).quota) where
  abbrev k : ℕ
  k = child_of id (s.container id).nchildren

  abbrev t : Containers
  t = record (split_update id k quota s) { lks = update (update s.lks id true) id false }

  above : id < k
  above = (child_of_lem id (s.container id).nchildren lt few).2

  blank : IsBlank (s.container k)
  blank = child-IsBlank s id quota lt few tree

  t-IsValid : IsValid t
  t-IsValid = record {
    pages = rw split-pmm f.valid.pages;
    unlocked = λ i. ground (arith, f.valid.unlocked i);
    word = λ i. ground (arith, split-quota id k quota s above i, f.valid.word i, f.valid.word id);
    within = λ i. within i;
  }
    where
      within : (i : ℕ) → (t.container i).usage ≤ (t.container i).quota
      within i = ground (
        arith,
        split-quota id k quota s above i,
        split-usage id k quota s above i,
        f.valid.within i,
        f.valid.word id,
        above,
      )

  t-budget : k < num_ids → budget t ≡ budget s
  t-budget lt' =
      split_pair s t id k quota lt lt' (omega (arith, above)) room (ground (arith, blank))
        (ground (
          arith,
          split-quota id k quota s above k,
          split-usage id k quota s above k,
          f.valid.word id,
          above,
        ))
        (ground (
          arith,
          split-quota id k quota s above id,
          split-usage id k quota s above id,
          f.valid.word id,
          above,
        ))
        (λ i ni nk. ground (
          arith,
          split-quota id k quota s above i,
          split-usage id k quota s above i,
          f.valid.word id,
        ))

  t-child :
      t.container k ≡ record { quota = quota; usage = 0; parent = id; nchildren = 0; used = 1 }
  unfolding split_update
  t-child = ground (arith, above)

  t-usage : (t.container id).usage ≡ (s.container id).usage + quota
  t-usage = ground (arith, split-usage id k quota s above id, f.valid.word id)

  t-IsTree : IsTree t
  t-IsTree =
      let tr = split-IsTree s id quota lt few tree alive in
      record { few = tr.few; known = tr.known; unborn = tr.unborn }

  t-IsFunded : k < num_ids → IsFunded t
  t-IsFunded lt' = record {
    valid = t-IsValid;
    table = rw split-pmm f.table;
    backed = omega (arith, t-budget lt', f.backed, ap free_pages (split-pmm id k quota s));
  }

-- A process in use with fewer than three children, whose unused quota covers the request and whose
-- next child has a number below `num_ids`, gets that child: the child has the requested quota and no
-- usage, the parent is charged for it, what all processes together may still allocate is as before,
-- and the quotas stay backed by free pages and the process tree well formed.
pub container_split-IsFunded :
    (s : Containers) (id quota : ℕ)
    → IsFunded s
    → IsTree s
    → id < num_ids
    → (s.container id).used ≢ 0
    → (s.container id).nchildren < max_children
    → (s.container id).usage + quota ≤ (s.container id).quota
    → child_of id (s.container id).nchildren < num_ids
    → let k = child_of id (s.container id).nchildren in
      (t : Containers) × (container_split id quota s ≡ ok (k, t))
      × (t.container k ≡ record { quota = quota; usage = 0; parent = id; nchildren = 0; used = 1 })
      × ((t.container id).usage ≡ (s.container id).usage + quota)
      × (budget t ≡ budget s)
      × IsFunded t
      × IsTree t
container_split-IsFunded s id quota f tree lt alive few room lt' = (
  t s id quota f tree lt alive few room,
  split_runs id quota s (f.valid.unlocked id) lt',
  t-child s id quota f tree lt alive few room,
  t-usage s id quota f tree lt alive few room,
  t-budget s id quota f tree lt alive few room lt',
  t-IsFunded s id quota f tree lt alive few room lt',
  t-IsTree s id quota f tree lt alive few room,
)

-- A fourth child of process `id` gets the number of the first child of process `id + 1`, and its
-- container is overwritten: the source does not test `nchildren` against `MAX_CHILDREN`.
pub fourth_child_collides :
    (s : Containers) (id quota : ℕ)
    → (s.container id).nchildren ≡ max_children
    → s.lks id ≡ false
    → child_of (id + 1) 0 < num_ids
    → id < num_ids
    → (t : Containers) × (container_split id quota s ≡ ok (child_of (id + 1) 0, t))
      × ((t.container (child_of (id + 1) 0)).parent ≡ id)
fourth_child_collides s id quota full e lt h =
    let k = child_of id (s.container id).nchildren in
    let same : k ≡ child_of (id + 1) 0 = omega arith in
    (
      record (split_update id k quota s) { lks = update (update s.lks id true) id false },
      rw (← same) (split_runs id quota s e (omega arith)),
      ground (arith, split-parent id k quota s (omega arith) (child_of (id + 1) 0)),
    )
