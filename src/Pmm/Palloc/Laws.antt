-- ===== src/Pmm/Palloc/Laws.antt =====
-- What `palloc` and `pfree` do to the allocation table.
use mcertikos.Base.{
  ℕ, ◌≡◌, ◌≢◌, refl, Bool, true, false, not, arith, ◌==◌, if◌then◌else◌, ok, sym, ◌∙◌, ok-injective,
}
use mathlib.Core.Path.{subst}
use mcertikos.Pmm.AllocTable.{Pmm, at_is_norm, at_set_allocated}
use mcertikos.Pmm.Palloc.{vm_userlo_pi, palloc_fuel, is_free, search, palloc, pfree}
use mcertikos.Pmm.Palloc.Search.{IsUser, Searched, search_total}

-- No call holds the lock, and the place where the next search starts is a user page.
pub record IsValid (s : Pmm) : Type 0 where
  pub unlocked : s.mem_lk ≡ false
  pub last_user : IsUser s.last_palloc_index

-- The state with page `page` handed out.
abbrev pub took : ℕ → Pmm → Pmm
took page s = record (at_set_allocated page 1 s) { last_palloc_index = page }

-- The two results of `palloc`: a page that was free, or 0 when no user page is free.
pub data Alloc (s : Pmm) : ℕ → Pmm → Type 0 where
  page :
      {r : ℕ} {t : Pmm}
      → IsUser r
      → is_free s r ≡ true
      → r ≢ s.num_pages
      → t ≡ took r s
      → Alloc s r t
  full :
      {r : ℕ} {t : Pmm}
      → r ≡ 0
      → t ≡ record s { last_palloc_index = vm_userlo_pi }
      → ((j : ℕ) → IsUser j → is_free s j ≡ true → j ≡ s.num_pages)
      → Alloc s r t

pub is_free-took :
    (s : Pmm) (p j : ℕ) → is_free (took p s) j ≡ (if p == j then false else is_free s j)
unfolding is_free at_set_allocated
is_free-took s p j = ground arith

pub is_free_locked :
    (s : Pmm) (b : Bool) (j : ℕ) → is_free (record s { mem_lk = b }) j ≡ is_free s j
unfolding is_free
is_free_locked s b j = refl

module _ (s : Pmm) (unlocked : s.mem_lk ≡ false) (r : ℕ) where
  abbrev Finds : Type 0
  Finds =
      search (record s { mem_lk = true }) palloc_fuel s.last_palloc_index s.num_pages true ≡ ok r

  palloc-took : Finds → r ≢ s.num_pages → palloc s ≡ ok (r, took r s)
  unfolding palloc
  palloc-took e ne = ground arith

  palloc_none :
      Finds → r ≡ s.num_pages → palloc s ≡ ok (0, record s { last_palloc_index = vm_userlo_pi })
  unfolding palloc
  palloc_none e eq = ground arith

  palloc_cases :
      Finds
      → Searched (record s { mem_lk = true }) r
      → (p : ℕ) × (t : Pmm) × (palloc s ≡ ok (p, t)) × Alloc s p t
  palloc_cases e (Searched.page u f ne) =
      (r, took r s, palloc-took e ne, page u (rw (is_free_locked s true r) at f) ne refl)
  palloc_cases e (Searched.full eq busy) = (
    0,
    record s { last_palloc_index = vm_userlo_pi },
    palloc_none e eq,
    full refl refl λ j uj fj. busy j uj (rw (is_free_locked s true j) fj),
  )

-- On a valid state `palloc` always returns and releases the lock. It hands out a user page that was
-- free and is not numbered `num_pages`, and marks that page alone; or it returns 0, leaves the table
-- as it was, and then no user page but the one numbered `num_pages` is free.
pub palloc_total :
    (s : Pmm) → IsValid s → (r : ℕ) × (t : Pmm) × (palloc s ≡ ok (r, t)) × Alloc s r t
palloc_total s v =
    let (r, e, found) =
      search_total (record s { mem_lk = true }) v.last_user palloc_fuel (omega arith) in
    palloc_cases s v.unlocked r e found

pub Alloc-IsValid : {s : Pmm} {r : ℕ} {t : Pmm} → IsValid s → Alloc s r t → IsValid t
unfolding at_set_allocated
Alloc-IsValid v (page u f ne e) = ground arith
Alloc-IsValid v (full z e busy) = ground arith

-- `pfree` always returns on a valid state, keeps it valid, and frees the page that it is given and
-- no other: a page counts as free afterwards exactly if it is that page and has the normal
-- permission, or was free before.
pub pfree_total :
    (s : Pmm) (p : ℕ)
    → IsValid s
    → (t : Pmm) × (pfree p s ≡ ok (tt, t))
      × IsValid t
      × ((j : ℕ) → is_free t j ≡ (if p == j then not (at_is_norm s p == 0) else is_free s j))
unfolding pfree is_free
pfree_total s p v = (at_set_allocated p 0 s, ground arith, ground arith, λ j. ground arith)

-- What a call of `palloc` on a valid state has returned.
pub Alloc-palloc : (s : Pmm) {r : ℕ} {t : Pmm} → IsValid s → palloc s ≡ ok (r, t) → Alloc s r t
Alloc-palloc s v e =
    let (r', t', e', a) = palloc_total s v in
    subst (λ (p : ℕ × Pmm). Alloc s p.0 p.1) (ok-injective (sym e' ∙ e)) a

pfree-took :
    (s u : Pmm) (r j : ℕ)
    → s.mem_lk ≡ false
    → is_free s r ≡ true
    → pfree r (took r s) ≡ ok (tt, u)
    → is_free u j ≡ is_free s j
unfolding pfree is_free at_set_allocated
pfree-took s u r j v f e = ground arith

-- Freeing the page that `palloc` has just handed out leaves free exactly the pages that were free.
pub pfree-palloc :
    (s : Pmm) {r : ℕ} {t u : Pmm}
    → IsValid s
    → palloc s ≡ ok (r, t)
    → r ≢ 0
    → pfree r t ≡ ok (tt, u)
    → (j : ℕ) → is_free u j ≡ is_free s j
pfree-palloc s {r} {t} {u} v e ne e' j = go (Alloc-palloc s v e) ne e'
  where
    go :
        {r : ℕ} {t : Pmm} → Alloc s r t → r ≢ 0 → pfree r t ≡ ok (tt, u) → is_free u j ≡ is_free s j
    go (page {r} user f _ eq) ne e' = pfree-took s u r j v.unlocked f (rw eq at e')
    go (full z _ _) ne e' = absurd (ne z)

-- Two calls of `palloc` in a row that both find a page find two different pages.
pub palloc-palloc_ne :
    (s : Pmm) {p q : ℕ} {t u : Pmm}
    → IsValid s
    → palloc s ≡ ok (p, t)
    → palloc t ≡ ok (q, u)
    → p ≢ 0
    → q ≢ 0
    → p ≢ q
palloc-palloc_ne s v e e' np nq =
    let a = Alloc-palloc s v e in go a (Alloc-palloc _ (Alloc-IsValid v a) e') np nq
  where
    go : {p q : ℕ} {t u : Pmm} → Alloc s p t → Alloc t q u → p ≢ 0 → q ≢ 0 → p ≢ q
    go (full z _ _) b np nq = absurd (np z)
    go (page _ _ _ _) (full z _ _) np nq = absurd (nq z)
    go (page {r = p} {t} _ _ _ eq) (page {r = q} _ f _ _) np nq =
        λ same. ground (arith, is_free-took s p q)

-- The state behind a call of `pfree` on a valid state.
pub pfree-at_set_allocated :
    (s : Pmm) (p : ℕ) {t : Pmm} → IsValid s → pfree p s ≡ ok (tt, t) → t ≡ at_set_allocated p 0 s
unfolding pfree
pfree-at_set_allocated s p v e = ground arith

pub is_free-freed :
    (s : Pmm) (p j : ℕ)
    → is_free (at_set_allocated p 0 s) j
      ≡ (if p == j then not (at_is_norm s p == 0) else is_free s j)
unfolding is_free at_set_allocated
is_free-freed s p j = ground arith

pub freed-IsValid : (s : Pmm) (p : ℕ) → IsValid s → IsValid (at_set_allocated p 0 s)
unfolding at_set_allocated
freed-IsValid s p v = ground arith
