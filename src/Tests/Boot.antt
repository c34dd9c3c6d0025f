-- ===== src/Tests/Boot.antt =====
-- The theorems on the initialisers of kern/dev/mboot.c and kern/pmm at concrete states.
use mcertikos.Base.{ℕ, zero, suc, ◌≤◌, ◌<◌, ◌≡◌, refl, arith, false, List, [], ◌∷◌, ok}
use mcertikos.Pmm.MemoryMap.{
  Entry, Row, mem_ram, pmmap_init, insert_sorted, pmmap_insert, overlaps, pmmap_merge, row_end,
  row_entry, copy_rows,
}
use mcertikos.Pmm.MemoryMap.Cover.{covered, low_rows, rows_cover, pmmap_init-covered}
use mcertikos.Pmm.MemoryMap.Sorted.{AllRows}
use mcertikos.Pmm.Init.{pmem_init}
use mcertikos.Pmm.Init.Pages.{AllRanges, page_perm, pmem_init_lem}
use mcertikos.Pmm.Container.{Containers, container_init}
use mcertikos.Pmm.Container.Tree.{IsTree}
use mcertikos.Pmm.Container.Budget.{IsFunded, free_pages}
use mcertikos.Pmm.Container.Boot.{IsBoot, container_init-IsFunded}
use mcertikos.Tests.Memory.{two_pages}

-- Three rows of a boot loader's table: two that meet, and one above 4 GB.
abbrev rows : List Row
rows =
    record {
      base_addr_low = 0x10_0000;
      base_addr_high = 0;
      length_low = 0x4000_0000;
      length_high = 0;
      type = mem_ram;
    }
    ∷ record {
      base_addr_low = 0;
      base_addr_high = 0;
      length_low = 0x10_0000;
      length_high = 0;
      type = mem_ram;
    }
    ∷ record {
      base_addr_low = 0;
      base_addr_high = 1;
      length_low = 0x1000;
      length_high = 0;
      type = mem_ram;
    }
    ∷ []

abbrev pub ranges : List Entry
ranges = record { start = 0; end = 0x4010_0000; type = mem_ram } ∷ []

rows_init : pmmap_init rows ≡ ok ranges
unfolding pmmap_init copy_rows pmmap_insert insert_sorted row_entry row_end pmmap_merge overlaps
rows_init = refl

rows-AllRows : AllRows rows
rows-AllRows = (
  record { base_word = omega arith; length_word = omega arith },
  (
    record { base_word = omega arith; length_word = omega arith },
    (record { base_word = omega arith; length_word = omega arith }, tt),
  ),
)

pmmap_init-covered_example :
    (es : List Entry) × (pmmap_init rows ≡ ok es)
    × ((t a : ℕ) → covered t a es ≡ rows_cover t a (low_rows rows))
pmmap_init-covered_example = pmmap_init-covered rows (omega arith) refl

-- The same row many times over.
abbrev many : ℕ → List Row
many zero = []
many (suc n) =
    record {
      base_addr_low = 0;
      base_addr_high = 0;
      length_low = 1;
      length_high = 0;
      type = mem_ram;
    }
    ∷ many n

pub ranges-AllRanges : AllRanges ranges
ranges-AllRanges = (record { ordered = omega arith; word = omega arith }, tt)

pmem_init_lem_example :
    let t = pmem_init ranges two_pages in
    (t.mem_lk ≡ false)
    × (t.num_pages ≡ 0x40100)
    × (t.last_palloc_index ≡ 0x40000)
    × ((pg : ℕ) → pg < t.num_pages → t.at pg ≡ record { perm = page_perm ranges pg; allocated = 0 })
    × ((pg : ℕ) → t.num_pages ≤ pg → t.at pg ≡ two_pages.at pg)
pmem_init_lem_example = pmem_init_lem ranges two_pages ranges-AllRanges

-- The zeroed variables.
abbrev pub boot : Containers
boot = record {
  pmm = record {
    mem_lk = false;
    num_pages = 0;
    at = λ _. record { perm = 0; allocated = 0 };
    last_palloc_index = 0x40000;
  };
  container = λ _. record { quota = 0; usage = 0; parent = 0; nchildren = 0; used = 0 };
  lks = λ _. false;
}

pub boot-IsBoot : IsBoot boot
boot-IsBoot = record {
  blank = λ id. record { no_quota = refl; no_usage = refl; no_children = refl; unused = refl };
  table = λ i. refl;
  last = refl;
  locks = λ id. refl;
}

container_init-IsFunded_example :
    let t = container_init ranges boot in
    ((t.container 0).quota ≡ free_pages t.pmm) × IsFunded t × IsTree t
container_init-IsFunded_example = container_init-IsFunded ranges boot ranges-AllRanges boot-IsBoot
