-- ===== src/Pmm/Palloc.antt =====
-- kern/pmm/MATOp: allocation and release of a physical page.
pub mod Search
pub mod Laws
use mcertikos.Base.{
  ℕ, zero, suc, ◌+◌, ◌%◌, ◌^◌, Bool, true, false, not, ◌&&◌, ◌||◌, ◌==◌, leb, if◌then◌else◌,
  Outcome, ok, hang, panic, Call, ◌>>=◌, ◌>>◌, pure, gets, modify,
}
use mcertikos.Pmm.AllocTable.{
  Pmm, mem_lock, mem_unlock, get_nps, at_is_norm, at_is_allocated, at_set_allocated,
}

abbrev pub vm_userlo_pi : ℕ
vm_userlo_pi = 0x40000

abbrev pub vm_userhi_pi : ℕ
vm_userhi_pi = 0xf0000

-- `at_is_norm(i) && !at_is_allocated(i)`
unfoldable pub is_free : Pmm → ℕ → Bool
unfolding at_is_norm at_is_allocated
is_free s i = not (at_is_norm s i == 0) && (at_is_allocated s i == 0)

-- `palloc_index++`, and back to the start of the user pages at their end.
unfoldable pub next_index : ℕ → ℕ
next_index i = let j = (i + 1) % 2 ^ 32 in if leb vm_userhi_pi j then vm_userlo_pi else j

-- The loop over `palloc_index`, `palloc_free_index` and `first`; without fuel it spins.
unfoldable pub search : Pmm → ℕ → (palloc_index palloc_free_index : ℕ) → (first : Bool) → Outcome ℕ
search s zero i free first = hang
search s (suc fuel) i free first =
    elim ((not (i == s.last_palloc_index) || first) && (free == s.num_pages)) [
      | true ↦ search s fuel (next_index i) (if is_free s i then i else free) false
      | false ↦ ok free
    ]

-- One round for each user page, and one to see that all have been looked at.
abbrev pub palloc_fuel : ℕ
palloc_fuel = vm_userhi_pi + 1

unfoldable pub run_search : Call Pmm ℕ
run_search s = elim (search s palloc_fuel s.last_palloc_index (get_nps s) true) [
  | ok free ↦ ok (free, s)
  | hang ↦ hang
  | panic ↦ panic
]

-- What follows the loop, with its result `free`.
unfoldable pub take_page : ℕ → Call Pmm ℕ
take_page free = do
  nps ← gets get_nps
  if free == nps
      then (do modify (λ s. record s { last_palloc_index = vm_userlo_pi }); pure 0)
      else (do
        modify (at_set_allocated free 1)
        modify (λ s. record s { last_palloc_index = free })
        pure free)

unfoldable pub palloc : Call Pmm ℕ
unfolding mem_lock mem_unlock take_page run_search get_nps at_set_allocated
palloc = do mem_lock; free ← run_search; page ← take_page free; mem_unlock; pure page

unfoldable pub pfree : ℕ → Call Pmm (Unit {0})
unfolding mem_lock mem_unlock at_set_allocated
pfree pfree_index = do mem_lock; modify (at_set_allocated pfree_index 0); mem_unlock
