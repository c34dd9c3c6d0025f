-- ===== src/Pmm/Init/Pages.antt =====
-- What `pmem_init` leaves in the allocation table.
use mcertikos.Base.{
  ℕ, zero, suc, ◌+◌, ◌*◌, ◌/◌, ◌^◌, ◌≤◌, ◌<◌, ◌≡◌, refl, ◌∙◌, ap, Bool, true, false, arith, ◌&&◌,
  ◌||◌, ◌==◌, ltb, leb, if◌then◌else◌, List, [], ◌∷◌, for_range, for_range_inv, max, length, some,
  inl, inr, Bool-cases,
}
use native.Mathlib.Numerals.{add-one}
use mcertikos.Pmm.MemoryMap.{Entry, mem_ram, nth, get_size, is_usable}
use mcertikos.Pmm.MemoryMap.Sorted.{IsRange}
use mcertikos.Pmm.AllocTable.{Pmm, at_set_perm}
use mcertikos.Pmm.Palloc.{vm_userlo_pi, vm_userhi_pi}
use mcertikos.Pmm.Init.{highest, holds_page, find_range, init_page, count_pages, pmem_init}

abbrev pub AllRanges : List Entry → Type 0
AllRanges [] = Unit
AllRanges (e ∷ es) = IsRange e × AllRanges es

-- The highest end of a range.
abbrev pub highest_end : List Entry → ℕ
highest_end [] = 0
highest_end (e ∷ es) = max e.end (highest_end es)

-- The whole page lies in the range.
abbrev pub inside : ℕ → Entry → Bool
inside pg e = leb e.start (pg * 4096) && leb ((pg + 1) * 4096) e.end

-- The permission of a page for users: that of the first range which the page lies in.
abbrev pub user_perm : List Entry → ℕ → ℕ
user_perm [] pg = 0
user_perm (e ∷ es) pg =
    if inside pg e then (if e.type == mem_ram then 2 else 0) else user_perm es pg

abbrev pub page_perm : List Entry → ℕ → ℕ
page_perm es pg = if ltb pg vm_userlo_pi || leb vm_userhi_pi pg then 1 else user_perm es pg

-- The list `rest` stands in `es` from index `i` on.
abbrev Suffix : List Entry → ℕ → List Entry → Type 0
Suffix es i [] = Unit
Suffix es i (e ∷ rest) = (nth es i ≡ some e) × Suffix es (i + 1) rest

Suffix-cons :
    (e : Entry) (es : List Entry) (i : ℕ) (rest : List Entry)
    → Suffix es i rest
    → Suffix (e ∷ es) (i + 1) rest
unfolding nth
Suffix-cons e es i [] s = tt
Suffix-cons e es i (x ∷ rest) (h, s) = (rw add-one h, Suffix-cons e es (i + 1) rest s)

Suffix-self : (es : List Entry) → Suffix es 0 es
unfolding nth
Suffix-self [] = tt
Suffix-self (e ∷ es) = (refl, Suffix-cons e es 0 es (Suffix-self es))

highest-end :
    (es : List Entry) (i acc : ℕ) (e : Entry)
    → IsRange e
    → nth es i ≡ some e
    → highest es i acc ≡ max acc e.end
unfolding highest
highest-end es i acc e r h = ground arith

highest_loop :
    (es : List Entry) (i acc : ℕ) (rest : List Entry)
    → AllRanges rest
    → Suffix es i rest
    → for_range (length rest) i (highest es) acc ≡ max acc (highest_end rest)
unfolding for_range
highest_loop es i acc [] all s = omega arith
highest_loop es i acc (e ∷ rest) (r, all) (h, s) =
    ap (for_range (length rest) (i + 1) (highest es)) (highest-end es i acc e r h)
    ∙ highest_loop es (i + 1) (max acc e.end) rest all s
    ∙ omega arith

-- A page below the highest one has no wrap in the test.
holds_page-inside :
    (es : List Entry) (pg i : ℕ) (e : Entry)
    → IsRange e
    → pg + 1 < 2 ^ 20
    → nth es i ≡ some e
    → holds_page es pg i ≡ inside pg e
unfolding holds_page
holds_page-inside es pg i e r h eq = ground arith

find_range-true :
    (es : List Entry) (pg n i : ℕ) (norm : Bool) → find_range es pg n i true norm ≡ (true, norm)
unfolding find_range
find_range-true es pg zero i norm = refl
find_range-true es pg (suc n) i norm = refl

find_range-zero :
    (es : List Entry) (pg i : ℕ) (flag norm : Bool)
    → find_range es pg zero i flag norm ≡ (flag, norm)
unfolding find_range
find_range-zero es pg i flag norm = refl

find_range_step :
    (es : List Entry) (pg n i : ℕ) (isnorm : Bool)
    → find_range es pg (suc n) i false isnorm
      ≡ find_range es pg n (i + 1) (holds_page es pg i) (is_usable es i)
unfolding find_range
find_range_step es pg n i isnorm = refl

is_usable-type :
    (es : List Entry) (i : ℕ) (e : Entry) → nth es i ≡ some e → is_usable es i ≡ (e.type == mem_ram)
unfolding is_usable
is_usable-type es i e h = ground arith

find_range_lem :
    (es : List Entry) (pg i : ℕ) (isnorm : Bool) (rest : List Entry)
    → AllRanges rest
    → pg + 1 < 2 ^ 20
    → Suffix es i rest
    → let (flag, norm) = find_range es pg (length rest) i false isnorm in
      (if flag && norm then 2 else 0) ≡ user_perm rest pg
find_range_lem es pg i isnorm [] all h s = rw find_range-zero
find_range_lem es pg i isnorm (e ∷ rest) (r, all) h (eq, s) =
    let next = find_range_step es pg (length rest) i isnorm in
    elim (Bool-cases (inside pg e)) [
      | inl b ↦ ground (
        arith,
        next,
        holds_page-inside es pg i e r h eq,
        is_usable-type es i e eq,
        find_range-true es pg (length rest) (i + 1) (e.type == mem_ram),
      )
      | inr b ↦ ground (
        arith,
        next,
        holds_page-inside es pg i e r h eq,
        is_usable-type es i e eq,
        find_range_lem es pg (i + 1) (e.type == mem_ram) rest all h s,
      )
    ]

init_page-perm :
    (es : List Entry) (pg : ℕ) (s : Pmm)
    → AllRanges es
    → pg + 1 < 2 ^ 20
    → init_page es pg s ≡ at_set_perm pg (page_perm es pg) s
unfolding init_page get_size
init_page-perm es pg s all h =
    ground (arith, find_range_lem es pg 0 false es all h (Suffix-self es))

count_pages-highest_end : (es : List Entry) → AllRanges es → count_pages es ≡ highest_end es / 4096
unfolding count_pages get_size
count_pages-highest_end es all = rw (highest_loop es 0 0 es all (Suffix-self es)) (omega arith)

pub highest_end-word : (es : List Entry) → AllRanges es → highest_end es < 2 ^ 32
highest_end-word [] all = omega arith
highest_end-word (e ∷ es) (r, all) = omega (arith, highest_end-word es all)

-- The table with the pages below `n` set up.
record Filled (es : List Entry) (s0 : Pmm) (n : ℕ) (s : Pmm) : Type 0 where
  pub unlocked : s.mem_lk ≡ false
  pub pages : s.num_pages ≡ count_pages es
  pub last : s.last_palloc_index ≡ s0.last_palloc_index
  pub filled : (pg : ℕ) → pg < n → s.at pg ≡ record { perm = page_perm es pg; allocated = 0 }
  pub beyond : (pg : ℕ) → n ≤ pg → s.at pg ≡ s0.at pg

Filled-init_page :
    (es : List Entry) (s0 : Pmm) (n : ℕ) (s : Pmm)
    → AllRanges es
    → n + 1 < 2 ^ 20
    → Filled es s0 n s
    → Filled es s0 (n + 1) (init_page es n s)
unfolding at_set_perm
Filled-init_page es s0 n s all h f = rw (init_page-perm es n s all h) (record {
  unlocked = f.unlocked;
  pages = f.pages;
  last = f.last;
  filled = λ pg lt. ground (arith, f.filled pg);
  beyond = λ pg le. ground (arith, f.beyond pg);
})

pmem_init-Filled :
    (es : List Entry) (s : Pmm) → AllRanges es → Filled es s (count_pages es) (pmem_init es s)
unfolding pmem_init
pmem_init-Filled es s all =
    let few = count_pages-highest_end es all in
    for_range_inv (Filled es s) (init_page es) (count_pages es) 0 (count_pages es) _ (omega arith)
      (λ k t lo hi f. Filled-init_page es s k t all (omega (arith, highest_end-word es all)) f)
      (record {
        unlocked = refl;
        pages = refl;
        last = refl;
        filled = λ pg lt. absurd (omega arith);
        beyond = λ pg le. refl;
      })

-- From a memory map of proper 32-bit ranges, `pmem_init` releases the lock, sets `num_pages` to the
-- number of whole pages below the highest end of a range, and marks each of these pages unallocated:
-- with permission 1 outside the user pages, else 2 if the first range that holds the whole page is
-- usable, and 0 otherwise. The entries behind them, and the start of the search, stay.
pub pmem_init_lem :
    (es : List Entry) (s : Pmm)
    → AllRanges es
    → let t = pmem_init es s in
      (t.mem_lk ≡ false)
      × (t.num_pages ≡ highest_end es / 4096)
      × (t.last_palloc_index ≡ s.last_palloc_index)
      × ((pg : ℕ) → pg < t.num_pages → t.at pg ≡ record { perm = page_perm es pg; allocated = 0 })
      × ((pg : ℕ) → t.num_pages ≤ pg → t.at pg ≡ s.at pg)
pmem_init_lem es s all =
    let f = pmem_init-Filled es s all in
    (
      f.unlocked,
      f.pages ∙ count_pages-highest_end es all,
      f.last,
      λ pg lt. f.filled pg (rw f.pages at lt),
      λ pg le. f.beyond pg (rw f.pages at le),
    )
