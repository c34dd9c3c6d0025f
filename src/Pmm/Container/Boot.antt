-- ===== src/Pmm/Container/Boot.antt =====
-- `container_init`: the state that the memory manager starts in.
use mcertikos.Base.{
  ℕ, zero, suc, ◌+◌, ◌-◌, ◌^◌, ◌<◌, ◌≡◌, ◌≢◌, refl, ◌∙◌, ap, sym, Bool, false, arith, ltb, List,
  for_range, for_range_inv, Bool-cases, inl, inr,
}
use native.Mathlib.Decide.{ℕ_discrete}
use mcertikos.Pmm.MemoryMap.{Entry}
use mcertikos.Pmm.AllocTable.{Pmm, AtEntry, get_nps, at_is_norm, at_is_allocated}
use mcertikos.Pmm.Palloc.{vm_userlo_pi, is_free}
use mcertikos.Pmm.Palloc.Search.{IsUser}
use mcertikos.Pmm.Init.{pmem_init}
use mcertikos.Pmm.Init.Pages.{AllRanges, highest_end-word, pmem_init_lem}
use mcertikos.Pmm.Container.{SContainer, Containers, num_ids, count_quota, container_init}
use mcertikos.Pmm.Container.Count.{count, count-le, count_quota-count}
use mcertikos.Pmm.Container.Calls.{IsValid}
use mcertikos.Pmm.Container.Budget.{
  sum_change, sum_zero, budget, left, free_pages, IsTable, IsFunded,
}
use mcertikos.Pmm.Container.Tree.{IsTree, IsBlank}

-- The zeroed static variables, with the initial value of `last_palloc_index`.
pub record IsBoot (s : Containers) : Type 0 where
  pub blank : (id : ℕ) → IsBlank (s.container id)
  pub table : (i : ℕ) → s.pmm.at i ≡ record { perm = 0; allocated = 0 }
  pub last : s.pmm.last_palloc_index ≡ vm_userlo_pi
  pub locks : (id : ℕ) → s.lks id ≡ false

module _ (es : List Entry) (s : Containers) (all : AllRanges es) (b : IsBoot s) where
  abbrev p : Pmm
  p = pmem_init es s.pmm

  few : p.num_pages < 2 ^ 20
  few = let i = pmem_init_lem es s.pmm all in omega (arith, i.1, highest_end-word es all)

  entry : (i : ℕ) → (p.at i).allocated ≡ 0
  entry i = elim (Bool-cases (ltb i p.num_pages)) [
    | inl lt ↦ ap (λ (e : AtEntry). e.allocated) ((pmem_init_lem es s.pmm all).3 i (ground arith))
    | inr ge ↦
        ap (λ (e : AtEntry). e.allocated)
          ((pmem_init_lem es s.pmm all).4 i (ground arith) ∙ b.table i)
  ]

  norm-IsUser : (i : ℕ) → 1 < (p.at i).perm → IsUser i × (i < p.num_pages)
  norm-IsUser i h = elim (Bool-cases (ltb i p.num_pages)) [
    | inl lt ↦ ground (arith, (pmem_init_lem es s.pmm all).3 i)
    | inr ge ↦ ground (arith, (pmem_init_lem es s.pmm all).4 i, b.table i)
  ]

  table : IsTable p
  unfolding at_is_norm at_is_allocated
  table = record {
    user = λ i n. norm-IsUser i (ground arith);
    normal = λ i a. ground (arith, entry i);
  }

  zero_busy : is_free p 0 ≡ false
  unfolding is_free
  zero_busy = ground (arith, norm-IsUser 0)

  abbrev real_quota : ℕ
  real_quota = for_range (get_nps p - 1) 1 (count_quota p) 0

  quota_loop : (n : ℕ) → n < 2 ^ 32 → for_range (n - 1) 1 (count_quota p) 0 ≡ count (is_free p) n
  unfolding for_range
  quota_loop zero h = refl
  quota_loop (suc n) h =
      count_quota-count p (suc n - 1) 1 (suc n) 0 (ground (arith, zero_busy)) (omega arith) h

  real_quota-free_pages : real_quota ≡ free_pages p
  unfolding get_nps
  real_quota-free_pages = quota_loop p.num_pages (omega (arith, few))

  abbrev t : Containers
  t = container_init es s

  t-pmm : t.pmm ≡ p
  unfolding container_init
  t-pmm = refl

  t-root :
      t.container 0 ≡ record { quota = real_quota; usage = 0; parent = 0; nchildren = 0; used = 1 }
  unfolding container_init
  t-root = refl

  t-other : (i : ℕ) → i ≢ 0 → t.container i ≡ s.container i
  unfolding container_init
  t-other i ne = ground arith

  t-unlocked : (i : ℕ) → t.lks i ≡ false
  unfolding container_init
  t-unlocked =
      for_range_inv (λ _ (lks : ℕ → Bool). (i : ℕ) → lks i ≡ false) _ num_ids 0 num_ids s.lks
        (omega arith) (λ k lks lo hi h i. ground (arith, h i)) b.locks

  t-word : (i : ℕ) → (t.container i).quota + 1 < 2 ^ 31
  t-word i = elim (ℕ_discrete i 0) [
    | yes z ↦ omega (
      arith,
      ap (λ (k : ℕ). (t.container k).quota) z,
      ap (λ (c : SContainer). c.quota) t-root,
      real_quota-free_pages,
      count-le (is_free p) p.num_pages,
      few,
    )
    | no nz ↦ omega (arith, ap (λ (c : SContainer). c.quota) (t-other i nz), (b.blank i).no_quota)
  ]

  t-usage : (i : ℕ) → (t.container i).usage ≡ 0
  t-usage i = elim (ℕ_discrete i 0) [
    | yes z ↦ ap (λ (k : ℕ). (t.container k).usage) z ∙ ap (λ (c : SContainer). c.usage) t-root
    | no nz ↦ ap (λ (c : SContainer). c.usage) (t-other i nz) ∙ (b.blank i).no_usage
  ]

  t-IsValid : IsValid t
  t-IsValid = record {
    pages = rw t-pmm (record {
      unlocked = (pmem_init_lem es s.pmm all).0;
      last_user = omega (arith, (pmem_init_lem es s.pmm all).2, b.last);
    });
    unlocked = t-unlocked;
    word = t-word;
    within = λ i. omega (arith, t-usage i);
  }

  t-budget : budget t ≡ free_pages p
  t-budget = omega (
    arith,
    sum_change (λ _. 0) (left t) num_ids 0 (omega arith) others,
    sum_zero num_ids,
    ap (λ (c : SContainer). c.quota) t-root,
    t-usage 0,
    real_quota-free_pages,
  )
    where
      others : (i : ℕ) → 0 ≢ i → left t i ≡ 0
      others i ne =
          let o = t-other i (λ z. ne (sym z)) in
          omega (arith, ap (λ (c : SContainer). c.quota) o, (b.blank i).no_quota)

  t-blank : (i : ℕ) → i ≢ 0 → IsBlank (t.container i)
  t-blank i ne = rw (t-other i ne) (b.blank i)

  t-nchildren : (i : ℕ) → (t.container i).nchildren ≡ 0
  t-nchildren i = elim (ℕ_discrete i 0) [
    | yes z ↦
        ap (λ (k : ℕ). (t.container k).nchildren) z ∙ ap (λ (c : SContainer). c.nchildren) t-root
    | no nz ↦ (t-blank i nz).no_children
  ]

  t-IsTree : IsTree t
  t-IsTree = record {
    few = λ i. omega (arith, t-nchildren i);
    known = λ c ne used. absurd (used (t-blank c ne).unused);
    unborn = λ c ne le. t-blank c ne;
  }

-- From the zeroed variables and a memory map of proper ranges, `container_init` gives process 0 a
-- quota of exactly the free pages, and leaves a state in which no lock is held, the quotas are backed
-- by free pages and the process tree is well formed.
pub container_init-IsFunded :
    (es : List Entry) (s : Containers)
    → AllRanges es
    → IsBoot s
    → let t = container_init es s in
      ((t.container 0).quota ≡ free_pages t.pmm) × IsFunded t × IsTree t
container_init-IsFunded es s all b =
    let same = t-pmm es s all b in
    (
      omega (
        arith,
        ap (λ (c : SContainer). c.quota) (t-root es s all b),
        real_quota-free_pages es s all b,
        ap free_pages same,
      ),
      record {
        valid = t-IsValid es s all b;
        table = rw same (table es s all b);
        backed = omega (arith, t-budget es s all b, ap free_pages same);
      },
      t-IsTree es s all b,
    )
