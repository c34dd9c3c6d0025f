-- ===== src/Pmm/Container/Budget.antt =====
-- The quotas that processes have not used up are backed by free pages.
use mcertikos.Base.{
  ℕ, zero, suc, ◌+◌, ◌-◌, ◌≤◌, ◌<◌, ◌≡◌, ◌≢◌, refl, ◌∙◌, ap, sym, Bool, true, false, arith, ◌==◌,
  if◌then◌else◌, ok, ok-injective, Bool-cases, inl, inr,
}
use mathlib.Core.Path.{subst}
use native.Mathlib.Decide.{ℕ_discrete}
use mcertikos.Pmm.AllocTable.{Pmm, at_is_norm, at_is_allocated, at_set_allocated}
use mcertikos.Pmm.Palloc.{is_free}
use mcertikos.Pmm.Palloc.Search.{IsUser}
use mcertikos.Pmm.Palloc.Laws.{Alloc, took, is_free-took, is_free-freed, pfree-at_set_allocated}
use mcertikos.Pmm.Container.{
  SContainer, Containers, num_ids, bump_usage, drop_usage, container_alloc, container_free,
}
use mcertikos.Pmm.Container.Count.{count, count_drop, count_none}
use mcertikos.Pmm.Container.Calls.{
  IsValid, Allocs, Frees, container_alloc_total, container_free_total, Allocs-IsValid,
  Frees-IsValid, charged, uncharged,
}

pub sum_below : (ℕ → ℕ) → ℕ → ℕ
sum_below f zero = 0
sum_below f (suc n) = sum_below f n + f n

sum_ext : (f g : ℕ → ℕ) (n : ℕ) → ((i : ℕ) → i < n → g i ≡ f i) → sum_below g n ≡ sum_below f n
unfolding sum_below
sum_ext f g zero h = refl
sum_ext f g (suc n) h = omega (arith, sum_ext f g n (λ i lt. h i (omega arith)), h n (omega arith))

-- Two summands that differ at `p` alone.
pub sum_change :
    (f g : ℕ → ℕ) (n p : ℕ)
    → p < n
    → ((i : ℕ) → p ≢ i → g i ≡ f i)
    → sum_below g n + f p ≡ sum_below f n + g p
unfolding sum_below
sum_change f g zero p lt h = absurd (omega arith)
sum_change f g (suc n) p lt h = elim (ℕ_discrete p n) [
  | yes e ↦
      let same = sum_ext f g n (λ i lt'. h i (λ q. absurd (omega arith))) in
      omega (arith, same, ap f e, ap g e)
  | no ne ↦ omega (arith, sum_change f g n p (omega arith) h, h n ne)
]

pub sum_zero : (n : ℕ) → sum_below (λ _. 0) n ≡ 0
unfolding sum_below
sum_zero zero = refl
sum_zero (suc n) = omega (arith, sum_zero n)

-- What process `id` may still allocate, and what all may.
abbrev pub left : Containers → ℕ → ℕ
left s id = (s.container id).quota - (s.container id).usage

abbrev pub budget : Containers → ℕ
budget s = sum_below (left s) num_ids

abbrev pub free_pages : Pmm → ℕ
free_pages p = count (is_free p) p.num_pages

-- Only user pages below `num_pages` have the normal permission, and only they are allocated.
pub record IsTable (p : Pmm) : Type 0 where
  pub user : (i : ℕ) → at_is_norm p i ≢ 0 → IsUser i × (i < p.num_pages)
  pub normal : (i : ℕ) → at_is_allocated p i ≢ 0 → at_is_norm p i ≢ 0

pub record IsFunded (s : Containers) : Type 0 where
  pub valid : IsValid s
  pub table : IsTable s.pmm
  pub backed : budget s ≤ free_pages s.pmm

free-IsUser : (p : Pmm) → IsTable p → (i : ℕ) → is_free p i ≡ true → IsUser i × (i < p.num_pages)
unfolding is_free
free-IsUser p t i f = t.user i (ground arith)

IsTable-took : (p : Pmm) (r : ℕ) → IsTable p → is_free p r ≡ true → IsTable (took r p)
unfolding is_free at_is_norm at_is_allocated at_set_allocated
IsTable-took p r t f = record {
  user = λ i n. ground (arith, t.user i);
  normal = λ i a. ground (arith, t.normal i);
}

IsTable-freed : (p : Pmm) (page : ℕ) → IsTable p → IsTable (at_set_allocated page 0 p)
unfolding at_is_norm at_is_allocated at_set_allocated
IsTable-freed p page t = record {
  user = λ i n. ground (arith, t.user i);
  normal = λ i a. ground (arith, t.normal i);
}

count_false : (f : ℕ → Bool) (n p : ℕ) → p < n → f p ≡ true → 0 < count f n
count_false f zero p lt h = absurd (omega arith)
count_false f (suc n) p lt h = elim (ℕ_discrete p n) [
  | yes e ↦ ground (arith, ap f e)
  | no ne ↦ omega (arith, count_false f n p (omega arith) h)
]

free_pages-took :
    (p : Pmm) (r : ℕ) → IsTable p → is_free p r ≡ true → free_pages (took r p) + 1 ≡ free_pages p
unfolding at_set_allocated
free_pages-took p r t f =
    count_drop (is_free p) (is_free (took r p)) p.num_pages r (free-IsUser p t r f).1 f
      (is_free-took p r)

busy_of_allocated : (p : Pmm) (i : ℕ) → at_is_allocated p i ≢ 0 → is_free p i ≡ false
unfolding is_free
busy_of_allocated p i a = ground arith

-- Freeing an allocated page of the table adds a free page.
free_pages-freed :
    (p : Pmm) (page : ℕ)
    → IsTable p
    → at_is_allocated p page ≢ 0
    → free_pages (at_set_allocated page 0 p) ≡ free_pages p + 1
unfolding at_set_allocated
free_pages-freed p page t a = sym (
    count_drop (is_free (at_set_allocated page 0 p)) (is_free p) p.num_pages page
      (t.user page (t.normal page a)).1 (ground (arith, is_free-freed p page page, t.normal page))
      (λ i. ground (arith, is_free-freed p page i, busy_of_allocated p page a)))

module _ (id : ℕ) (s t : Containers) (v : IsValid s) (lt : id < num_ids) where
  budget-charged :
      (s.container id).usage < (s.container id).quota
      → t.container ≡ (bump_usage id s).container
      → budget t + 1 ≡ budget s
  budget-charged room c =
      omega
        (arith, sum_change (left s) (left t) num_ids id lt (λ i ne. ground (arith, step i)), at_id)
    where
      step : (i : ℕ) → left t i ≡ (if id == i then left s i - 1 else left s i)
      step i = rw (c, (charged id s v i room).0, (charged id s v i room).1) (ground arith)

      at_id : left t id + 1 ≡ left s id
      at_id = ground (arith, step id)

  budget-uncharged : t.container ≡ (drop_usage id s).container → budget t ≤ budget s + 1
  budget-uncharged c =
      omega
        (arith, sum_change (left s) (left t) num_ids id lt (λ i ne. ground (arith, step i)), at_id)
    where
      step :
          (i : ℕ)
          → left t i
            ≡ (if id == i then (s.container i).quota - ((s.container i).usage - 1) else left s i)
      step i = rw (c, (uncharged id s v i).0, (uncharged id s v i).1) (ground arith)

      at_id : left t id ≤ left s id + 1
      at_id = ground (arith, step id)

sum-term : (f : ℕ → ℕ) (n p : ℕ) → p < n → f p ≤ sum_below f n
unfolding sum_below
sum-term f zero p lt = absurd (omega arith)
sum-term f (suc n) p lt = elim (ℕ_discrete p n) [
  | yes e ↦ omega (arith, ap f e)
  | no ne ↦ omega (arith, sum-term f n p (omega arith))
]

-- `palloc` finds a page if the table has a free one.
pub Alloc-free_pages :
    (p : Pmm) {r : ℕ} {q : Pmm}
    → IsTable p
    → Alloc p r q
    → 0 < free_pages p
    → (r ≢ 0) × (is_free p r ≡ true) × (q ≡ took r p)
Alloc-free_pages p t (Alloc.page user free ne eq) some_free =
    ((λ z. absurd (omega arith)), free, eq)
Alloc-free_pages p t (Alloc.full z eq none) some_free =
    absurd (omega (arith, count_none (is_free p) p.num_pages busy))
  where
    busy : (i : ℕ) → i < p.num_pages → is_free p i ≡ false
    busy i lt = elim (Bool-cases (is_free p i)) [
      | inl f ↦ absurd (omega (arith, none i (free-IsUser p t i f).0 f))
      | inr f ↦ f
    ]

-- A process below its quota always gets a page: on a funded state `container_alloc` returns a page
-- that was free, the process is charged one page, and the state stays funded.
pub container_alloc-granted :
    (id : ℕ) (s : Containers)
    → IsFunded s
    → id < num_ids
    → (s.container id).usage < (s.container id).quota
    → (r : ℕ) × (t : Containers) × (container_alloc id s ≡ ok (r, t))
      × (r ≢ 0)
      × (is_free s.pmm r ≡ true)
      × (t.container ≡ (bump_usage id s).container)
      × IsFunded t
container_alloc-granted id s f lt room =
    let (r, t, e, a, l) = container_alloc_total id s f.valid in
    let (ne, free, charge, funded) = go a (Allocs-IsValid id s f.valid a l) in
    (r, t, e, ne, free, charge, funded)
  where
    go :
        {r : ℕ} {t : Containers}
        → Allocs id s r t
        → IsValid t
        → (r ≢ 0)
          × (is_free s.pmm r ≡ true)
          × (t.container ≡ (bump_usage id s).container)
          × IsFunded t
    go (Allocs.at_quota full _ _ _) v = absurd (omega arith)
    go {r} {t} (Allocs.granted _ a c) v =
        let (ne, free, eq) =
          Alloc-free_pages s.pmm f.table a
            (omega (arith, f.backed, sum-term (left s) num_ids id lt)) in
        (
          ne,
          free,
          c,
          record {
            valid = v;
            table = rw eq (IsTable-took s.pmm r f.table free);
            backed = omega (
              arith,
              budget-charged id s t f.valid lt room c,
              f.backed,
              free_pages-took s.pmm r f.table free,
              ap free_pages eq,
            );
          },
        )

pub budget-container : (s t : Containers) → t.container ≡ s.container → budget t ≡ budget s
budget-container s t c =
    ap (λ (f : ℕ → SContainer). sum_below (λ i. (f i).quota - (f i).usage) num_ids) c

-- `container_free` keeps a state funded, whatever page it is given.
pub container_free-IsFunded :
    (id page : ℕ) (s : Containers) {t : Containers}
    → IsFunded s
    → id < num_ids
    → container_free id page s ≡ ok (tt, t)
    → IsFunded t
container_free-IsFunded id page s {t} f lt e =
    let (t', e', fr, l) = container_free_total id s f.valid page in
    let same : t' ≡ t = ap (λ (x : Unit {0} × Containers). x.1) (ok-injective (sym e' ∙ e)) in
    subst IsFunded same (go fr (Frees-IsValid id s f.valid fr l))
  where
    go : {t : Containers} → Frees id page s t → IsValid t → IsFunded t
    go {t} (Frees.unallocated _ p c) v = record {
      valid = v;
      table = rw p f.table;
      backed = omega (arith, f.backed, budget-container s t c, ap free_pages p);
    }
    go {t} (Frees.freed a p c) v =
        let eq = pfree-at_set_allocated s.pmm page f.valid.pages p in
        record {
          valid = v;
          table = rw eq (IsTable-freed s.pmm page f.table);
          backed = omega (
            arith,
            budget-uncharged id s t f.valid lt c,
            f.backed,
            free_pages-freed s.pmm page f.table a,
            ap free_pages eq,
          );
        }
