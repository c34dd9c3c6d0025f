-- ===== src/Pmm/Container.antt =====
-- kern/pmm/MContainer: the memory quota of each process, and the tree of processes.
pub mod Calls
pub mod Split
pub mod Tree
pub mod Count
pub mod Budget
pub mod Boot
use mcertikos.Base.{
  ℕ, ◌+◌, ◌-◌, ◌*◌, ◌%◌, ◌^◌, Bool, true, false, ◌==◌, ltb, leb, if◌then◌else◌, List, for_range,
  update, ok, hang, panic, Call, ◌>>=◌, ◌>>◌, pure, gets, modify, lift,
}
use mcertikos.Pmm.MemoryMap.{Entry}
use mcertikos.Pmm.AllocTable.{Pmm, get_nps, at_is_allocated}
use mcertikos.Pmm.Init.{pmem_init}
use mcertikos.Pmm.Palloc.{is_free, palloc, pfree}

abbrev pub num_ids : ℕ
num_ids = 64

abbrev pub max_children : ℕ
max_children = 3

-- `struct SContainer`; each field is an `int`, given by its bit pattern below `2 ^ 32`.
pub record SContainer : Type 0 where
  pub quota : ℕ
  pub usage : ℕ
  pub parent : ℕ
  pub nchildren : ℕ
  pub used : ℕ

-- The static variables of MContainer.c, and those of the layers below.
pub record Containers : Type 0 where
  pub pmm : Pmm
  pub container : ℕ → SContainer
  pub lks : ℕ → Bool

-- `a <= b` of two signed words.
abbrev pub int_le : ℕ → ℕ → Bool
int_le a b = leb ((a + 2 ^ 31) % 2 ^ 32) ((b + 2 ^ 31) % 2 ^ 32)

unfoldable pub acquire : ℕ → Call Containers (Unit {0})
acquire id s = elim (s.lks id) [
  | true ↦ hang
  | false ↦ ok (tt, record s { lks = update s.lks id true })
]

unfoldable pub release : ℕ → Call Containers (Unit {0})
release id = modify λ s. record s { lks = update s.lks id false }

-- `CONTAINER[id] = c`
abbrev pub put : ℕ → SContainer → Containers → Containers
put id c s = record s { container = update s.container id c }

-- A call of the layer below.
abbrev pub in_pmm : {A : Type 0} → Call Pmm A → Call Containers A
in_pmm = lift (λ s. s.pmm) (λ s p. record s { pmm = p })

-- The counting loop of `container_init`.
pub count_quota : Pmm → ℕ → ℕ → ℕ
count_quota p idx real_quota = if is_free p idx then (real_quota + 1) % 2 ^ 32 else real_quota

unfoldable pub container_init : List Entry → Containers → Containers
unfolding pmem_init get_nps count_quota
container_init es s =
    let p = pmem_init es s.pmm in
    let real_quota = for_range (get_nps p - 1) 1 (count_quota p) 0 in
    let root : SContainer = record {
      quota = real_quota;
      usage = 0;
      parent = 0;
      nchildren = 0;
      used = 1;
    } in
    record {
      pmm = p;
      container = update s.container 0 root;
      lks = for_range num_ids 0 (λ idx lks. update lks idx false) s.lks;
    }

unfoldable pub container_get_parent : Containers → ℕ → ℕ
container_get_parent s id = (s.container id).parent

unfoldable pub container_get_nchildren : Containers → ℕ → ℕ
container_get_nchildren s id = (s.container id).nchildren

unfoldable pub container_get_quota : Containers → ℕ → ℕ
container_get_quota s id = (s.container id).quota

unfoldable pub container_get_usage : Containers → ℕ → ℕ
container_get_usage s id = (s.container id).usage

-- `n` is unsigned, so the sum and the comparison are.
unfoldable pub container_can_consume : Containers → ℕ → ℕ → ℕ
container_can_consume s id n =
    let c = s.container id in if leb ((c.usage + n) % 2 ^ 32) c.quota then 1 else 0

-- `id * MAX_CHILDREN + 1 + nc`
abbrev pub child_of : ℕ → ℕ → ℕ
child_of id nc = (id * max_children + 1 + nc) % 2 ^ 32

-- The updates of both containers.
unfoldable pub split_update : ℕ → ℕ → ℕ → Containers → Containers
split_update id child quota s =
    let born : Containers =
      put child (record { quota = quota; usage = 0; parent = id; nchildren = 0; used = 1 }) s in
    let c = born.container id in
    put id (record c { usage = (c.usage + quota) % 2 ^ 32; nchildren = (c.nchildren + 1) % 2 ^ 32 })
      born

-- The first return leaves the lock held, as in the source.
unfoldable pub container_split : ℕ → ℕ → Call Containers ℕ
unfolding acquire release split_update
container_split id quota = do
  acquire id
  nc ← gets (λ s. (s.container id).nchildren)
  let child = child_of id nc
  if leb num_ids child
      then pure num_ids
      else (do modify (split_update id child quota); release id; pure child)

abbrev pub bump_usage : ℕ → Containers → Containers
bump_usage id s = let c = s.container id in put id (record c { usage = (c.usage + 1) % 2 ^ 32 }) s

unfoldable pub container_alloc : ℕ → Call Containers ℕ
unfolding acquire release
container_alloc id = do
  acquire id
  c ← gets (λ s. s.container id)
  page_index ←
      (if int_le ((c.usage + 1) % 2 ^ 32) c.quota
        then (do modify (bump_usage id); in_pmm palloc)
        else pure 0)
  release id
  pure page_index

abbrev pub drop_usage : ℕ → Containers → Containers
drop_usage id s =
    let c = s.container id in
    if int_le c.usage 0 then s else put id (record c { usage = (c.usage + 2 ^ 32 - 1) % 2 ^ 32 }) s

unfoldable pub container_free : ℕ → ℕ → Call Containers (Unit {0})
unfolding acquire release at_is_allocated
container_free id page_index = do
  acquire id
  allocated ← gets (λ s. at_is_allocated s.pmm page_index)
  if allocated == 0 then pure tt else (do in_pmm (pfree page_index); modify (drop_usage id))
  release id
