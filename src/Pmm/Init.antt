-- ===== src/Pmm/Init.antt =====
-- kern/pmm/MATInit: the allocation table is filled from the memory map.
pub mod Pages
use mcertikos.Base.{
  ℕ, zero, suc, ◌+◌, ◌-◌, ◌*◌, ◌/◌, ◌%◌, ◌^◌, Bool, true, false, ◌&&◌, ◌||◌, ltb, leb,
  if◌then◌else◌, List, for_range,
}
use mcertikos.Pmm.MemoryMap.{Entry, get_size, get_mms, get_mml, is_usable}
use mcertikos.Pmm.AllocTable.{Pmm, mem_spinlock_init, set_nps, at_set_perm}
use mcertikos.Pmm.Palloc.{vm_userlo_pi, vm_userhi_pi}

abbrev pub page_size : ℕ
page_size = 4096

abbrev pub round_down : ℕ → ℕ → ℕ
round_down a n = a - a % n

-- The first loop: the highest address at which a range ends, in 32-bit arithmetic.
pub highest : List Entry → ℕ → ℕ → ℕ
unfolding get_mms get_mml
highest es entry_idx nps =
    let cur_addr = (get_mms es entry_idx + get_mml es entry_idx) % 2 ^ 32 in
    if ltb nps cur_addr then cur_addr else nps

-- `start <= pg_idx * PAGESIZE && (pg_idx + 1) * PAGESIZE <= start + len`
pub holds_page : List Entry → ℕ → ℕ → Bool
unfolding get_mms get_mml
holds_page es pg_idx entry_idx =
    let start = get_mms es entry_idx in
    let len = get_mml es entry_idx in
    leb start (pg_idx * page_size % 2 ^ 32)
    && leb ((pg_idx + 1) * page_size % 2 ^ 32) ((start + len) % 2 ^ 32)

-- The inner loop, with `n` entries left; it returns `flag` and `isnorm`.
pub find_range : List Entry → ℕ → ℕ → ℕ → Bool → Bool → Bool × Bool
find_range es pg_idx zero entry_idx flag isnorm = (flag, isnorm)
find_range es pg_idx (suc n) entry_idx flag isnorm = elim flag [
  | true ↦ (true, isnorm)
  | false ↦
      find_range es pg_idx n (entry_idx + 1) (holds_page es pg_idx entry_idx)
        (is_usable es entry_idx)
]

-- The body of the page loop.
pub init_page : List Entry → ℕ → Pmm → Pmm
unfolding find_range holds_page is_usable get_size at_set_perm
init_page es pg_idx s =
    if ltb pg_idx vm_userlo_pi || leb vm_userhi_pi pg_idx
    then at_set_perm pg_idx 1 s
    else let (flag, isnorm) = find_range es pg_idx (get_size es) 0 false false in
      at_set_perm pg_idx (if flag && isnorm then 2 else 0) s

pub count_pages : List Entry → ℕ
unfolding highest get_size
count_pages es = round_down (for_range (get_size es) 0 (highest es) 0) page_size / page_size

-- `devinit` has built the memory map `es` and does not touch these variables.
unfoldable pub pmem_init : List Entry → Pmm → Pmm
unfolding mem_spinlock_init set_nps count_pages init_page
pmem_init es s =
    let nps = count_pages es in for_range nps 0 (init_page es) (set_nps nps (mem_spinlock_init s))
