-- ===== src/Pmm/Container/Tree.antt =====
-- The numbering of the processes: process `id` has the children `3 * id + 1` to `3 * id + 3`.
use mcertikos.Base.{ℕ, ◌+◌, ◌-◌, ◌/◌, ◌%◌, ◌^◌, ◌≤◌, ◌<◌, ◌≡◌, ◌≢◌, arith, ◌==◌, if◌then◌else◌}
use mcertikos.Pmm.Container.{SContainer, Containers, num_ids, max_children, child_of, split_update}

-- The parent that the numbering gives to a process, and which of its children this is.
abbrev pub parent_of : ℕ → ℕ
parent_of child = (child - 1) / 3

abbrev pub rank : ℕ → ℕ
rank child = (child - 1) % 3

-- A container that no process has used.
pub record IsBlank (c : SContainer) : Type 0 where
  pub no_quota : c.quota ≡ 0
  pub no_usage : c.usage ≡ 0
  pub no_children : c.nchildren ≡ 0
  pub unused : c.used ≡ 0

-- A process in use other than 0 is one of the children that its parent has counted, and knows its
-- parent; a child that its parent has not counted is blank.
pub record IsTree (s : Containers) : Type 0 where
  pub few : (id : ℕ) → (s.container id).nchildren ≤ max_children
  pub known :
      (c : ℕ)
      → c ≢ 0
      → (s.container c).used ≢ 0
      → (s.container c).parent ≡ parent_of c × (rank c < (s.container (parent_of c)).nchildren)
  pub unborn :
      (c : ℕ) → c ≢ 0 → (s.container (parent_of c)).nchildren ≤ rank c → IsBlank (s.container c)

-- With at most three children each, two processes never give the same number to a child.
pub child_of-injective :
    (id id' nc nc' : ℕ)
    → id < num_ids
    → id' < num_ids
    → nc < max_children
    → nc' < max_children
    → child_of id nc ≡ child_of id' nc'
    → (id ≡ id') × (nc ≡ nc')
child_of-injective id id' nc nc' h h' n n' e = omega arith

pub child_of_lem :
    (id nc : ℕ)
    → id < num_ids
    → nc < max_children
    → (parent_of (child_of id nc) ≡ id) × (rank (child_of id nc) ≡ nc) × (id < child_of id nc)
child_of_lem id nc h n = omega arith

-- The fields of the containers behind a split.
module _ (id k quota : ℕ) (s : Containers) (above : id < k) (i : ℕ) where
  pub split-nchildren :
      (s.container id).nchildren ≤ max_children
      → ((split_update id k quota s).container i).nchildren ≡ (
          if id == i
          then (s.container i).nchildren + 1
          else if k == i
          then 0
          else (s.container i).nchildren)
  unfolding split_update
  split-nchildren h = ground arith

  pub split-quota :
      ((split_update id k quota s).container i).quota
      ≡ (if k == i then quota else (s.container i).quota)
  unfolding split_update
  split-quota = ground arith

  pub split-usage :
      (s.container id).usage + quota < 2 ^ 32
      → ((split_update id k quota s).container i).usage ≡ (
          if id == i
          then (s.container i).usage + quota
          else if k == i
          then 0
          else (s.container i).usage)
  unfolding split_update
  split-usage h = ground arith

  pub split-parent :
      ((split_update id k quota s).container i).parent
      ≡ (if k == i then id else (s.container i).parent)
  unfolding split_update
  split-parent = ground arith

  pub split-used :
      ((split_update id k quota s).container i).used ≡ (if k == i then 1 else (s.container i).used)
  unfolding split_update
  split-used = ground arith

  pub split-IsBlank :
      id ≢ i → k ≢ i → IsBlank (s.container i) → IsBlank ((split_update id k quota s).container i)
  unfolding split_update
  split-IsBlank ni nk b = ground (arith, b)

module _ (s : Containers) (id quota : ℕ) (lt : id < num_ids)
    (room : (s.container id).nchildren < max_children) (tree : IsTree s) where
  abbrev pub child : ℕ
  child = child_of id (s.container id).nchildren

  -- A process that can have another child finds its container blank.
  pub child-IsBlank : IsBlank (s.container child)
  child-IsBlank =
      let l = child_of_lem id (s.container id).nchildren lt room in
      tree.unborn child (omega arith) (rw l.0 (omega arith))

  split-known :
      (c k : ℕ)
      → c ≢ 0
      → id < k
      → parent_of k ≡ id
      → rank k ≡ (s.container id).nchildren
      → IsBlank (s.container k)
      → ((split_update id k quota s).container c).used ≢ 0
      → (((split_update id k quota s).container c).parent ≡ parent_of c)
        × (rank c < ((split_update id k quota s).container (parent_of c)).nchildren)
  split-known c k ne above p r blank used = ground (
    arith,
    split-used id k quota s above c,
    split-parent id k quota s above c,
    split-nchildren id k quota s above (parent_of c),
    tree.known c,
  )

  split-unborn :
      (c k : ℕ)
      → c ≢ 0
      → id < k
      → parent_of k ≡ id
      → rank k ≡ (s.container id).nchildren
      → (s.container id).used ≢ 0
      → IsBlank (s.container k)
      → ((split_update id k quota s).container (parent_of c)).nchildren ≤ rank c
      → IsBlank ((split_update id k quota s).container c)
  split-unborn c k ne above p r alive blank le =
      let n = split-nchildren id k quota s above (parent_of c) (omega arith) in
      let not_id : id ≢ c = λ e. ground (arith, n, tree.known id) in
      let not_k : k ≢ c = λ e. ground (arith, n) in
      split-IsBlank id k quota s above c not_id not_k (tree.unborn c ne (ground (arith, n, blank)))

  pub split-IsTree : (s.container id).used ≢ 0 → IsTree (split_update id child quota s)
  split-IsTree alive =
      let l = child_of_lem id (s.container id).nchildren lt room in
      record {
        few = λ i. ground (arith, split-nchildren id child quota s l.2 i, tree.few i);
        known = λ c ne used. split-known c child ne l.2 l.0 l.1 child-IsBlank used;
        unborn = λ c ne le. split-unborn c child ne l.2 l.0 l.1 alive child-IsBlank le;
      }
