-- ===== src/Tests/Memory.antt =====
-- The theorems of kern/pmm at concrete states.
use mcertikos.Base.{
  ℕ, ◌+◌, ◌≤◌, ◌<◌, ◌≡◌, ◌≢◌, refl, arith, true, false, Bool, ◌&&◌, ◌==◌, leb, ltb, if◌then◌else◌,
  update, ok, hang,
}
use mcertikos.Pmm.AllocTable.{
  Pmm, mem_lock, mem_unlock, get_nps, at_is_norm, at_is_allocated, at_set_allocated,
}
use mcertikos.Pmm.Palloc.{is_free, search, next_index, run_search, take_page, palloc, pfree}
use mcertikos.Pmm.Palloc.Laws
use mcertikos.Pmm.Palloc.Laws.{Alloc, palloc_total, pfree_total, pfree-palloc, palloc-palloc_ne}
use mcertikos.Pmm.Container.{
  SContainer, Containers, num_ids, child_of, acquire, release, bump_usage, container_can_consume,
  container_split, container_alloc, container_free,
}
use mcertikos.Pmm.Container.Calls
use mcertikos.Pmm.Container.Calls.{Allocs, Frees, container_alloc_total, container_free_total}
use mcertikos.Pmm.Container.Count.{count, count_drop}
use mcertikos.Pmm.Container.Tree.{IsTree}
use mcertikos.Pmm.Container.Budget.{
  IsTable, IsFunded, free_pages, budget, left, sum_change, sum_zero, container_alloc-granted,
}
use mcertikos.Pmm.Container.Split.{
  can_consume_wraps, container_split-blocks, container_split-IsFunded, fourth_child_collides,
}

-- Two user pages, both free.
abbrev pub two_pages : Pmm
two_pages = record {
  mem_lk = false;
  num_pages = 0x40002;
  at = λ i.
      if leb 0x40000 i && ltb i 0x40002
      then record { perm = 2; allocated = 0 }
      else record { perm = 1; allocated = 0 };
  last_palloc_index = 0x40000;
}

-- The same with pages `p` and `q` handed out in turn.
abbrev pub taken : ℕ → Pmm → Pmm
taken p s = record s {
  at = update s.at p (record { perm = 2; allocated = 1 });
  last_palloc_index = p;
}

pub two_pages-IsValid : Laws.IsValid two_pages
two_pages-IsValid = record { unlocked = refl; last_user = (omega arith, omega arith) }

first_palloc : palloc two_pages ≡ ok (0x40000, taken 0x40000 two_pages)
unfolding palloc mem_lock mem_unlock run_search search next_index take_page get_nps is_free
    at_is_norm at_is_allocated at_set_allocated
first_palloc = refl

second_palloc :
    palloc (taken 0x40000 two_pages) ≡ ok (0x40001, taken 0x40001 (taken 0x40000 two_pages))
unfolding palloc mem_lock mem_unlock run_search search next_index take_page get_nps is_free
    at_is_norm at_is_allocated at_set_allocated
second_palloc = refl

abbrev released : Pmm
released = record (taken 0x40000 two_pages) {
  at = update (taken 0x40000 two_pages).at 0x40000 (record { perm = 2; allocated = 0 });
}

first_pfree : pfree 0x40000 (taken 0x40000 two_pages) ≡ ok (tt, released)
unfolding pfree mem_lock mem_unlock at_set_allocated
first_pfree = refl

palloc_total_example : (r : ℕ) × (t : Pmm) × (palloc two_pages ≡ ok (r, t)) × Alloc two_pages r t
palloc_total_example = palloc_total two_pages two_pages-IsValid

-- Process 0 has given its one page of quota to its child 1.
abbrev pub family : ℕ → SContainer
family i =
    if i == 0
    then record { quota = 1; usage = 1; parent = 0; nchildren = 1; used = 1 }
    else if i == 1
    then record { quota = 1; usage = 0; parent = 0; nchildren = 0; used = 1 }
    else record { quota = 0; usage = 0; parent = 0; nchildren = 0; used = 0 }

abbrev pub small : Containers
small = record { pmm = two_pages; container = family; lks = λ _. false }

pub small-IsValid : Calls.IsValid small
small-IsValid = record {
  pages = two_pages-IsValid;
  unlocked = λ id. refl;
  word = λ id. ground arith;
  within = λ id. ground arith;
}

two_pages-IsTable : IsTable two_pages
unfolding at_is_norm at_is_allocated
two_pages-IsTable = record { user = λ i h. ground arith; normal = λ i h. ground arith }

some_pass : (f : ℕ → Bool) (n p : ℕ) → p < n → f p ≡ true → 1 ≤ count f n
some_pass f n p lt fp =
    omega (arith, count_drop f (λ i. if p == i then false else f i) n p lt fp (λ i. refl))

two_pages-free : 1 ≤ free_pages two_pages
unfolding is_free at_is_norm at_is_allocated
two_pages-free = some_pass (is_free two_pages) 0x40002 0x40000 (omega arith) refl

at_most : (a b : ℕ) → a ≡ 1 → 1 ≤ b → a ≤ b
at_most a b e h = omega arith

small-budget : budget small ≡ 1
small-budget = omega (
  arith,
  sum_change (λ _. 0) (left small) num_ids 1 (omega arith) (λ i ne. ground arith),
  sum_zero num_ids,
)

pub small-IsFunded : IsFunded small
small-IsFunded = record {
  valid = small-IsValid;
  table = two_pages-IsTable;
  backed = at_most (budget small) (free_pages two_pages) small-budget two_pages-free;
}

pub small-IsTree : IsTree small
small-IsTree = record {
  few = λ id. ground arith;
  known = λ c ne used. (ground arith, ground arith);
  unborn = λ c ne le. record {
    no_quota = ground arith;
    no_usage = ground arith;
    no_children = ground arith;
    unused = ground arith;
  };
}

container_alloc-granted_example :
    (r : ℕ) × (t : Containers) × (container_alloc 1 small ≡ ok (r, t))
    × (r ≢ 0)
    × (is_free two_pages r ≡ true)
    × (t.container ≡ (bump_usage 1 small).container)
    × IsFunded t
container_alloc-granted_example =
    container_alloc-granted 1 small small-IsFunded (omega arith) (omega arith)

unallocated_free :
    container_free 1 0x40000 small
    ≡ ok (tt, record small { lks = update (update small.lks 1 true) 1 false })
unfolding container_free at_is_allocated acquire release
unallocated_free = refl

can_consume_wraps_example :
    (container_can_consume small 0 0xffff_ffff ≡ 1) × ((small.container 0).quota < 0xffff_ffff)
can_consume_wraps_example =
    can_consume_wraps 0 0xffff_ffff small small-IsValid (omega arith) (omega arith)

container_split-IsFunded_example :
    (t : Containers) × (container_split 1 1 small ≡ ok (4, t))
    × (t.container 4 ≡ record { quota = 1; usage = 0; parent = 1; nchildren = 0; used = 1 })
    × ((t.container 1).usage ≡ (small.container 1).usage + 1)
    × (budget t ≡ budget small)
    × IsFunded t
    × IsTree t
container_split-IsFunded_example =
    container_split-IsFunded small 1 1 small-IsFunded small-IsTree (omega arith)
      (λ z. absurd (omega arith)) (omega arith) (omega arith) (omega arith)

-- Process 21 has no number left for a child.
container_split-blocks_example :
    (t : Containers) × (container_split 21 0 small ≡ ok (num_ids, t))
    × ((q : ℕ) → container_split 21 q t ≡ hang)
    × (container_alloc 21 t ≡ hang)
    × ((page : ℕ) → container_free 21 page t ≡ hang)
container_split-blocks_example = container_split-blocks 21 0 small refl (omega arith)

-- Process 1 has its three children.
abbrev full : Containers
full = record small {
  container =
      update family 1 (record { quota = 1; usage = 0; parent = 0; nchildren = 3; used = 1 });
}

fourth_child_collides_example :
    (t : Containers) × (container_split 1 0 full ≡ ok (child_of 2 0, t))
    × ((t.container (child_of 2 0)).parent ≡ 1)
fourth_child_collides_example = fourth_child_collides full 1 0 refl refl (omega arith) (omega arith)
