-- ===== src/Pmm/MemoryMap/Cover.antt =====
-- Which addresses the memory map covers, entry by entry and row by row.
use mcertikos.Base.{
  ℕ, ◌+◌, ◌*◌, ◌^◌, ◌≤◌, ◌<◌, ◌≡◌, ◌≢◌, refl, Bool, true, false, arith, ◌&&◌, ◌||◌, ◌==◌, ltb, leb,
  if◌then◌else◌, List, [], ◌∷◌, ok, panic, length, Bool-cases, ◌⊎◌, inl, inr, ap, ◌∙◌, max,
}
use native.Mathlib.Decide.{ℕ_discrete}
use mcertikos.Pmm.MemoryMap.{
  Entry, Row, Map, slots, insert_sorted, pmmap_insert, overlaps, pmmap_merge, row_end, row_entry,
  copy_rows, known_type, known_types, pmmap_init,
}

-- Address `a` lies in the range of an entry of type `t`.
abbrev pub within : ℕ → ℕ → Entry → Bool
within t a e = (e.type == t) && (leb e.start a && ltb a e.end)

abbrev pub covered : ℕ → ℕ → List Entry → Bool
covered t a [] = false
covered t a (e ∷ es) = within t a e || covered t a es

-- The rows of the boot loader below 4 GB, and what they cover.
abbrev pub low_rows : List Row → List Row
low_rows [] = []
low_rows (p ∷ rows) = if p.base_addr_high == 0 then p ∷ low_rows rows else low_rows rows

-- A row of 64-bit length covers the addresses from its base on; an entry does not reach 0xffffffff.
abbrev pub row_covers : ℕ → ℕ → Row → Bool
row_covers t a p =
    (p.type == t)
    && (leb p.base_addr_low a
        && (ltb a (p.base_addr_low + p.length_low + 2 ^ 32 * p.length_high) && ltb a 0xffff_ffff))

abbrev pub rows_cover : ℕ → ℕ → List Row → Bool
rows_cover t a [] = false
rows_cover t a (p ∷ rows) = row_covers t a p || rows_cover t a rows

-- The types of those rows are known.
abbrev pub rows_known : List Row → Bool
rows_known [] = true
rows_known (p ∷ rows) = known_type p.type && rows_known rows

known_types-insert_sorted :
    (e : Entry) (es : List Entry)
    → known_types (insert_sorted e es) ≡ (known_type e.type && known_types es)
unfolding insert_sorted
known_types-insert_sorted e [] = refl
known_types-insert_sorted e (s ∷ es) = ground (arith, known_types-insert_sorted e es)

known_types-pmmap_merge : (es : List Entry) → known_types (pmmap_merge es) ≡ known_types es
unfolding pmmap_merge overlaps
known_types-pmmap_merge [] = refl
known_types-pmmap_merge (s ∷ []) = refl
known_types-pmmap_merge (s ∷ n ∷ es) =
    ground (arith, known_types-pmmap_merge es, known_types-pmmap_merge (n ∷ es))

covered-insert_sorted :
    (t a : ℕ) (e : Entry) (es : List Entry)
    → covered t a (insert_sorted e es) ≡ (within t a e || covered t a es)
unfolding insert_sorted
covered-insert_sorted t a e [] = refl
covered-insert_sorted t a e (s ∷ es) = ground (arith, covered-insert_sorted t a e es)

within-merge :
    (t a : ℕ) (s n : Entry)
    → overlaps s n ≡ true
    → within t a (record s { end = max s.end n.end }) ≡ (within t a s || within t a n)
unfolding overlaps
within-merge t a s n h = ground arith

covered-pmmap_merge : (t a : ℕ) (es : List Entry) → covered t a (pmmap_merge es) ≡ covered t a es
unfolding pmmap_merge
covered-pmmap_merge t a [] = refl
covered-pmmap_merge t a (s ∷ []) = refl
covered-pmmap_merge t a (s ∷ n ∷ es) =
    ground
      (arith, within-merge t a s n, covered-pmmap_merge t a es, covered-pmmap_merge t a (n ∷ es))

-- What the copying loop has done when it returns: it has used a slot for each low row.
pub record Copied (rows : List Row) (m m' : Map) : Type 0 where
  pub used : m'.slots_next_free ≡ m.slots_next_free + length (low_rows rows)
  pub covers :
      (t a : ℕ) → covered t a m'.list ≡ (rows_cover t a (low_rows rows) || covered t a m.list)
  pub types : known_types m'.list ≡ (rows_known (low_rows rows) && known_types m.list)

few_or_many : (a b : ℕ) → (a ≤ b) ⊎ (b < a)
few_or_many a b = ground arith

-- The state behind the insertion of a row.
abbrev pub inserted : Row → Map → Map
inserted p m = record {
  slots_next_free = m.slots_next_free + 1;
  list = insert_sorted (row_entry p) m.list;
}

pub copy_rows-high :
    (p : Row) (rows : List Row) (m : Map)
    → (p.base_addr_high == 0) ≡ false
    → copy_rows (p ∷ rows) m ≡ copy_rows rows m
unfolding copy_rows
copy_rows-high p rows m h = ground arith

pub copy_rows-low :
    (p : Row) (rows : List Row) (m : Map)
    → (p.base_addr_high == 0) ≡ true
    → m.slots_next_free ≢ slots
    → copy_rows (p ∷ rows) m ≡ copy_rows rows (inserted p m)
unfolding copy_rows pmmap_insert
copy_rows-low p rows m h room = ground arith

pub copy_rows-full :
    (p : Row) (rows : List Row) (m : Map)
    → (p.base_addr_high == 0) ≡ true
    → m.slots_next_free ≡ slots
    → copy_rows (p ∷ rows) m ≡ panic
unfolding copy_rows pmmap_insert
copy_rows-full p rows m h room = ground arith

within-row_entry : (t a : ℕ) (p : Row) → within t a (row_entry p) ≡ row_covers t a p
unfolding row_entry row_end
within-row_entry t a p = ground arith

row_type : (p : Row) → (row_entry p).type ≡ p.type
unfolding row_entry
row_type p = refl

module _ (p : Row) (rows : List Row) (m : Map) {m' : Map} where
  Copied-high : (p.base_addr_high == 0) ≡ false → Copied rows m m' → Copied (p ∷ rows) m m'
  Copied-high h c = record {
    used = ground (arith, c.used);
    covers = λ t a. ground (arith, c.covers t a);
    types = ground (arith, c.types);
  }

  Copied-low :
      (p.base_addr_high == 0) ≡ true → Copied rows (inserted p m) m' → Copied (p ∷ rows) m m'
  Copied-low h c = record {
    used = ground (arith, c.used);
    covers = λ t a. ground (
      arith,
      c.covers t a,
      covered-insert_sorted t a (row_entry p) m.list,
      within-row_entry t a p,
    );
    types = ground (arith, c.types, row_type p, known_types-insert_sorted (row_entry p) m.list);
  }

pub copy_rows-Copied :
    (rows : List Row) (m : Map)
    → m.slots_next_free + length (low_rows rows) ≤ slots
    → (m' : Map) × (copy_rows rows m ≡ ok m') × Copied rows m m'
unfolding copy_rows
copy_rows-Copied [] m h =
    (m, refl, record { used = omega arith; covers = λ t a. refl; types = refl })
copy_rows-Copied (p ∷ rows) m h = elim (Bool-cases (p.base_addr_high == 0)) [
  | inr high ↦
      let (m', e, c) = copy_rows-Copied rows m (ground arith) in
      (m', copy_rows-high p rows m high ∙ e, Copied-high p rows m high c)
  | inl low ↦
      let (m', e, c) = copy_rows-Copied rows (inserted p m) (ground arith) in
      (m', copy_rows-low p rows m low (ground arith) ∙ e, Copied-low p rows m low c)
]

pub copy_rows-panic :
    (rows : List Row) (m : Map)
    → m.slots_next_free ≤ slots
    → slots < m.slots_next_free + length (low_rows rows)
    → copy_rows rows m ≡ panic
copy_rows-panic [] m le h = absurd (omega arith)
copy_rows-panic (p ∷ rows) m le h = elim (Bool-cases (p.base_addr_high == 0)) [
  | inr high ↦ copy_rows-high p rows m high ∙ copy_rows-panic rows m le (ground arith)
  | inl low ↦ elim (ℕ_discrete m.slots_next_free slots) [
    | yes f ↦ copy_rows-full p rows m low f
    | no room ↦
        copy_rows-low p rows m low room
        ∙ copy_rows-panic rows (inserted p m) (omega arith) (ground arith)
  ]
]

abbrev pub empty_map : Map
empty_map = record { slots_next_free = 0; list = [] }

pmmap_init-copied :
    (rows : List Row) (m : Map)
    → copy_rows rows empty_map ≡ ok m
    → pmmap_init rows ≡ (if known_types m.list then ok (pmmap_merge m.list) else panic)
unfolding pmmap_init
pmmap_init-copied rows m e =
    rw (e, pmmap_init)
      (ap (λ b. if b then ok (pmmap_merge m.list) else panic) (known_types-pmmap_merge m.list))

-- With at most 128 rows that start below 4 GB, each of a known type, `pmmap_init` returns a map that covers an
-- address with a type exactly if the address is below 0xffffffff and one of those rows, with its
-- length of 64 bits, covers it: neither sorting nor merging changes what is covered.
pub pmmap_init-covered :
    (rows : List Row)
    → length (low_rows rows) ≤ slots
    → rows_known (low_rows rows) ≡ true
    → (es : List Entry) × (pmmap_init rows ≡ ok es)
      × ((t a : ℕ) → covered t a es ≡ rows_cover t a (low_rows rows))
pmmap_init-covered rows h known =
    let (m', e, c) = copy_rows-Copied rows empty_map (omega arith) in
    let all : known_types m'.list ≡ true = ground (arith, c.types) in
    (
      pmmap_merge m'.list,
      pmmap_init-copied rows m' e ∙ ap (λ b. if b then ok (pmmap_merge m'.list) else panic) all,
      λ t a. ground (arith, covered-pmmap_merge t a m'.list, c.covers t a),
    )

pmmap_init-full : (rows : List Row) → slots < length (low_rows rows) → pmmap_init rows ≡ panic
unfolding pmmap_init
pmmap_init-full rows h = rw (copy_rows-panic rows empty_map (omega arith) (omega arith), pmmap_init)

-- With more than 128 rows below 4 GB, or with one of an unknown type, `pmmap_init` panics.
pub pmmap_init-panic :
    (rows : List Row)
    → (slots < length (low_rows rows)) ⊎ (rows_known (low_rows rows) ≡ false)
    → pmmap_init rows ≡ panic
pmmap_init-panic rows (inl h) = pmmap_init-full rows h
pmmap_init-panic rows (inr unknown) = elim (few_or_many (length (low_rows rows)) slots) [
  | inr h ↦ pmmap_init-full rows h
  | inl le ↦
      let (m', e, c) = copy_rows-Copied rows empty_map (omega arith) in
      let bad : known_types m'.list ≡ false = ground (arith, c.types) in
      pmmap_init-copied rows m' e ∙ ap (λ b. if b then ok (pmmap_merge m'.list) else panic) bad
]
