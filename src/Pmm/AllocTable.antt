-- ===== src/Pmm/AllocTable.antt =====
-- kern/pmm/MATIntro: the allocation table of the physical pages and the lock over it.
use mcertikos.Base.{ℕ, Bool, true, false, ltb, if◌then◌else◌, update, ok, hang, Call, modify}

-- `struct ATStruct`
pub record AtEntry : Type 0 where
  pub perm : ℕ
  pub allocated : ℕ

-- The static variables of MATIntro.c and MATOp.c. `mem_lk` tells whether the lock is held.
pub record Pmm : Type 0 where
  pub mem_lk : Bool
  pub num_pages : ℕ
  pub at : ℕ → AtEntry
  pub last_palloc_index : ℕ

unfoldable pub mem_spinlock_init : Pmm → Pmm
mem_spinlock_init s = record s { mem_lk = false }

-- One call runs at a time, so a lock that is found held is never released: the call spins.
unfoldable pub mem_lock : Call Pmm (Unit {0})
mem_lock s = elim s.mem_lk [ true ↦ hang | false ↦ ok (tt, record s { mem_lk = true }) ]

unfoldable pub mem_unlock : Call Pmm (Unit {0})
mem_unlock = modify λ s. record s { mem_lk = false }

unfoldable pub get_nps : Pmm → ℕ
get_nps s = s.num_pages

unfoldable pub set_nps : ℕ → Pmm → Pmm
set_nps nps s = record s { num_pages = nps }

unfoldable pub at_is_norm : Pmm → ℕ → ℕ
at_is_norm s page_index = if ltb 1 (s.at page_index).perm then 1 else 0

unfoldable pub at_set_perm : ℕ → ℕ → Pmm → Pmm
at_set_perm page_index perm s = record s {
  at = update s.at page_index (record { perm = perm; allocated = 0 });
}

unfoldable pub at_is_allocated : Pmm → ℕ → ℕ
at_is_allocated s page_index =
    let allocated = (s.at page_index).allocated in if ltb 0 allocated then 1 else allocated

unfoldable pub at_set_allocated : ℕ → ℕ → Pmm → Pmm
at_set_allocated page_index allocated s = record s {
  at = update s.at page_index (record (s.at page_index) { allocated = allocated });
}
