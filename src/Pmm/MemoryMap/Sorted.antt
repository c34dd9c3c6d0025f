-- ===== src/Pmm/MemoryMap/Sorted.antt =====
-- The memory map is a list of proper ranges, sorted by their starts.
use mcertikos.Base.{
  ℕ, ◌≤◌, ◌<◌, ◌^◌, ◌≡◌, arith, List, [], ◌∷◌, ok, Bool-cases, inl, inr, ok-injective, ◌==◌, ◌∙◌,
  sym,
}
use mathlib.Core.Path.{subst}
use native.Mathlib.Decide.{ℕ_discrete}
use mcertikos.Pmm.MemoryMap.Cover.{
  inserted, empty_map, copy_rows-high, copy_rows-low, copy_rows-full,
}
use mcertikos.Pmm.MemoryMap.{
  Entry, Row, Map, slots, insert_sorted, overlaps, pmmap_merge, row_end, row_entry, copy_rows,
  pmmap_init,
}

-- The fields of a row are 32-bit words.
pub record IsRow (p : Row) : Type 0 where
  pub base_word : p.base_addr_low < 2 ^ 32
  pub length_word : p.length_low < 2 ^ 32

abbrev pub AllRows : List Row → Type 0
AllRows [] = Unit
AllRows (p ∷ rows) = IsRow p × AllRows rows

pub record IsRange (e : Entry) : Type 0 where
  pub ordered : e.start ≤ e.end
  pub word : e.end < 2 ^ 32

-- Proper ranges, each starting no lower than `lo` and than those before it.
abbrev pub SortedFrom : ℕ → List Entry → Type 0
SortedFrom lo [] = Unit
SortedFrom lo (e ∷ es) = (lo ≤ e.start) × IsRange e × SortedFrom e.start es

SortedFrom-weaken : (lo lo' : ℕ) (es : List Entry) → lo ≤ lo' → SortedFrom lo' es → SortedFrom lo es
SortedFrom-weaken lo lo' [] h s = tt
SortedFrom-weaken lo lo' (e ∷ es) h (a, r, t) = (omega arith, r, t)

row_entry-IsRange : (p : Row) → IsRow p → IsRange (row_entry p)
unfolding row_entry row_end
row_entry-IsRange p r = ground arith

insert_sorted-SortedFrom :
    (lo : ℕ) (e : Entry) (es : List Entry)
    → lo ≤ e.start
    → IsRange e
    → SortedFrom lo es
    → SortedFrom lo (insert_sorted e es)
unfolding insert_sorted
insert_sorted-SortedFrom lo e [] h r s = (h, r, tt)
insert_sorted-SortedFrom lo e (x ∷ es) h r (a, b, c) =
    ground (arith, insert_sorted-SortedFrom x.start e es)

pmmap_merge-SortedFrom :
    (lo : ℕ) (es : List Entry) → SortedFrom lo es → SortedFrom lo (pmmap_merge es)
unfolding pmmap_merge overlaps
pmmap_merge-SortedFrom lo [] s = tt
pmmap_merge-SortedFrom lo (e ∷ []) s = s
pmmap_merge-SortedFrom lo (e ∷ n ∷ es) (a, r, (b, r', c)) = ground (
  arith,
  SortedFrom-weaken e.start n.start es b c,
  pmmap_merge-SortedFrom e.start es,
  pmmap_merge-SortedFrom e.start (n ∷ es),
)

copy_rows-SortedFrom :
    (rows : List Row) (m : Map) {m' : Map}
    → AllRows rows
    → SortedFrom 0 m.list
    → copy_rows rows m ≡ ok m'
    → SortedFrom 0 m'.list
unfolding copy_rows
copy_rows-SortedFrom [] m all s e = subst (λ (x : Map). SortedFrom 0 x.list) (ok-injective e) s
copy_rows-SortedFrom (p ∷ rows) m (r, all) s e = elim (Bool-cases (p.base_addr_high == 0)) [
  | inr high ↦ copy_rows-SortedFrom rows m all s (sym (copy_rows-high p rows m high) ∙ e)
  | inl low ↦ elim (ℕ_discrete m.slots_next_free slots) [
    | yes f ↦ absurd (cc (copy_rows-full p rows m low f))
    | no room ↦
        copy_rows-SortedFrom rows (inserted p m) all
          (insert_sorted-SortedFrom 0 (row_entry p) m.list (omega arith) (row_entry-IsRange p r) s)
          (sym (copy_rows-low p rows m low room) ∙ e)
  ]
]

pmmap_init-ok :
    (rows : List Row) {es : List Entry}
    → pmmap_init rows ≡ ok es
    → (m : Map) × (copy_rows rows empty_map ≡ ok m) × (es ≡ pmmap_merge m.list)
unfolding pmmap_init
pmmap_init-ok rows e = ground arith

-- On a table of 32-bit rows, a map that `pmmap_init` returns is sorted by the starts of its entries,
-- and each entry is a range with its start no higher than its end and its end below `2 ^ 32`.
pub pmmap_init-SortedFrom :
    (rows : List Row) {es : List Entry} → AllRows rows → pmmap_init rows ≡ ok es → SortedFrom 0 es
pmmap_init-SortedFrom rows all e =
    let (m, e', eq) = pmmap_init-ok rows e in
    rw eq (pmmap_merge-SortedFrom 0 m.list (copy_rows-SortedFrom rows empty_map all tt e'))
