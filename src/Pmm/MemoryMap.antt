-- ===== src/Pmm/MemoryMap.antt =====
-- kern/dev/mboot.c: the memory map that the boot loader hands over, as a list sorted by address.
pub mod Cover
pub mod Sorted
use mcertikos.Base.{
  ℕ, zero, suc, ◌+◌, ◌-◌, ◌%◌, ◌^◌, Option, none, some, Bool, true, false, not, ◌&&◌, ◌||◌, ◌==◌,
  ltb, leb, if◌then◌else◌, List, [], ◌∷◌, Outcome, ok, hang, panic, max, length,
}

-- `struct pmmap`; the two link fields are the lists that the entries stand in.
pub record Entry : Type 0 where
  pub start : ℕ
  pub end : ℕ
  pub type : ℕ

-- A row of the boot loader's table, `mboot_mmap_t`.
pub record Row : Type 0 where
  pub base_addr_low : ℕ
  pub base_addr_high : ℕ
  pub length_low : ℕ
  pub length_high : ℕ
  pub type : ℕ

-- The slots in use, `pmmap_slots_next_free`, and the list `pmmap_list`.
pub record Map : Type 0 where
  pub slots_next_free : ℕ
  pub list : List Entry

abbrev pub slots : ℕ
slots = 128

abbrev pub mem_ram : ℕ
mem_ram = 1

-- The list with the new entry behind the last one that does not start above it.
unfoldable pub insert_sorted : Entry → List Entry → List Entry
insert_sorted e [] = e ∷ []
insert_sorted e (s ∷ rest) = if ltb e.start s.start then e ∷ s ∷ rest else s ∷ insert_sorted e rest

unfoldable pub pmmap_insert : Entry → Map → Outcome Map
pmmap_insert e m =
    if m.slots_next_free == slots
    then panic
    else ok (record { slots_next_free = m.slots_next_free + 1; list = insert_sorted e m.list })

unfoldable pub overlaps : Entry → Entry → Bool
overlaps slot next_slot =
    (leb slot.start next_slot.start && leb next_slot.start slot.end)
    && (slot.type == next_slot.type)

-- Step 1 of `pmmap_merge`. Behind a merge the loop goes on at what follows the removed entry.
unfoldable pub pmmap_merge : List Entry → List Entry
pmmap_merge [] = []
pmmap_merge (slot ∷ []) = slot ∷ []
pmmap_merge (slot ∷ next_slot ∷ rest) = elim (overlaps slot next_slot) [
  | true ↦ record slot { end = max slot.end next_slot.end } ∷ pmmap_merge rest
  | false ↦ slot ∷ pmmap_merge (next_slot ∷ rest)
]

-- The end of a row's range, at most `0xffffffff`.
unfoldable pub row_end : Row → ℕ
row_end p =
    if not (p.length_high == 0) || leb (0xffff_ffff - p.base_addr_low) p.length_low
    then 0xffff_ffff
    else p.base_addr_low + p.length_low

unfoldable pub row_entry : Row → Entry
row_entry p = record { start = p.base_addr_low; end = row_end p; type = p.type }

-- The copying loop of `pmmap_init`; rows above 4 GB are skipped.
unfoldable pub copy_rows : List Row → Map → Outcome Map
copy_rows [] m = ok m
copy_rows (p ∷ rows) m = elim (p.base_addr_high == 0) [
  | false ↦ copy_rows rows m
  | true ↦ elim (pmmap_insert (row_entry p) m) [ ok m' ↦ copy_rows rows m' | other ↦ other ]
]

-- `PMMAP_SUBLIST_NR(type) != -1`, which step 2 of `pmmap_merge` asserts of every entry.
abbrev pub known_type : ℕ → Bool
known_type type = leb 1 type && leb type 4

abbrev pub known_types : List Entry → Bool
known_types [] = true
known_types (slot ∷ rest) = known_type slot.type && known_types rest

unfoldable pub pmmap_init : List Row → Outcome (List Entry)
pmmap_init rows = elim (copy_rows rows (record { slots_next_free = 0; list = [] })) [
  | ok m ↦ let es = pmmap_merge m.list in if known_types es then ok es else panic
  | hang ↦ hang
  | panic ↦ panic
]

-- The row getters walk the list to the index.
unfoldable pub nth : List Entry → ℕ → Option Entry
nth [] i = none
nth (e ∷ es) zero = some e
nth (e ∷ es) (suc i) = nth es i

unfoldable pub get_size : List Entry → ℕ
get_size es = length es

unfoldable pub get_mms : List Entry → ℕ → ℕ
unfolding nth
get_mms es i = elim (nth es i) [ none ↦ 0 | some e ↦ e.start ]

unfoldable pub get_mml : List Entry → ℕ → ℕ
unfolding nth
get_mml es i = elim (nth es i) [ none ↦ 0 | some e ↦ (e.end + 2 ^ 32 - e.start) % 2 ^ 32 ]

unfoldable pub is_usable : List Entry → ℕ → Bool
unfolding nth
is_usable es i = elim (nth es i) [ none ↦ false | some e ↦ e.type == mem_ram ]
