-- ===== src/Tests/Paging.antt =====
-- The theorems of kern/vmm at concrete states.
use mcertikos.Base.{ℕ, ◌^◌, ◌<◌, ◌≡◌, ◌≢◌, refl, arith, true, false, ◌&&◌, ◌==◌, if◌then◌else◌, ok}
use mcertikos.Pmm.AllocTable.{at_is_allocated}
use mcertikos.Pmm.Palloc.{is_free}
use mcertikos.Pmm.Container.{num_ids}
use mcertikos.Pmm.Container.Calls
use mcertikos.Pmm.Container.Budget.{IsFunded}
use mcertikos.Vmm.Tables.{Vmm}
use mcertikos.Vmm.Address.{get_ptbl_entry_by_va}
use mcertikos.Vmm.Init.{paging_init}
use mcertikos.Vmm.Init.Paging.{first_entry, paging_init_lem, paging_init-IsOwned}
use mcertikos.Vmm.Mapping.{magic_number, map_page, alloc_page}
use mcertikos.Vmm.Mapping.Owned.{IsOwned}
use mcertikos.Vmm.Mapping.Isolation.{Maps, map_page_total}
use mcertikos.Vmm.Mapping.AllocPage.{alloc_page-loses}
use mcertikos.Tests.Memory.{two_pages, taken, small, small-IsValid, small-IsFunded}
use mcertikos.Tests.Boot.{ranges, ranges-AllRanges, boot, boot-IsBoot}

-- No directory entry is in use, and process 1 has one page of quota.
abbrev bare : Vmm
bare = record {
  con = small;
  pdir = λ _ _. 0;
  memory = λ _. 0;
  idptbl = 0x10_0000;
  cr3 = 0;
  paging = true;
}

bare-IsOwned : IsOwned bare
bare-IsOwned = record {
  valid = small-IsValid;
  pointer = λ proc pde own used. absurd (used refl);
  allocated = λ proc pde own used. absurd (used refl);
  apart = λ proc pde proc' pde' own own' used. absurd (used refl);
}

-- Process 1 has a table in page 0x40000 for the first user addresses, and one page mapped there.
abbrev pub mapped : Vmm
mapped = record {
  con = record small { pmm = taken 0x40000 two_pages };
  pdir = λ proc pde. if (proc == 1) && (pde == 256) then 0x4000_0007 else 0;
  memory = λ a. if a == 0x4000_0000 then 0x4000_1007 else 0;
  idptbl = 0x10_0000;
  cr3 = 0;
  paging = true;
}

mapped-IsValid : Calls.IsValid (record small { pmm = taken 0x40000 two_pages })
mapped-IsValid = record {
  pages = record { unlocked = refl; last_user = (omega arith, omega arith) };
  unlocked = λ id. refl;
  word = small-IsValid.word;
  within = small-IsValid.within;
}

mapped-used :
    (proc pde : ℕ)
    → mapped.pdir proc pde ≢ 0
    → (proc ≡ 1) × (pde ≡ 256) × (mapped.pdir proc pde ≡ 0x4000_0007)
mapped-used proc pde used = ground arith

mapped-IsOwned : IsOwned mapped
unfolding at_is_allocated
mapped-IsOwned = record {
  valid = mapped-IsValid;
  pointer = λ proc pde own used.
      let (_, _, e) = mapped-used proc pde used in
      (omega (arith, e), (omega (arith, e), omega (arith, e)));
  allocated = λ proc pde own used. let (_, _, e) = mapped-used proc pde used in ground (arith, e);
  apart = λ proc pde proc' pde' own own' used used' same.
      let (a, b, _) = mapped-used proc pde used in
      let (a', b', _) = mapped-used proc' pde' used' in
      (omega (arith, a, a'), omega (arith, b, b'));
}

map_page_total_example :
    (r : ℕ) × (t : Vmm) × (map_page 1 0x4000_0000 0x40001 7 bare ≡ ok (r, t))
    × IsOwned t
    × Maps 1 0x4000_0000 0x40001 7 bare r t
map_page_total_example =
    map_page_total 1 0x4000_0000 0x40001 7 (λ z. absurd (omega arith)) (omega arith, omega arith)
      (omega arith) (omega arith) bare bare-IsOwned

alloc_page-loses_example :
    (t : Vmm) × (alloc_page 1 0x4000_0000 7 bare ≡ ok (magic_number, t))
    × ((t.con.container 1).usage ≡ (t.con.container 1).quota)
    × (t.pdir ≡ bare.pdir)
    × (t.memory ≡ bare.memory)
    × (page : ℕ) × (is_free bare.con.pmm page ≡ true)
    × (at_is_allocated t.con.pmm page ≢ 0)
alloc_page-loses_example =
    alloc_page-loses bare 1 0x4000_0000 7 small-IsFunded (omega arith) refl refl

-- The kernel's variables at boot.
abbrev start : Vmm
start = record {
  con = boot;
  pdir = λ _ _. 0;
  memory = λ _. 0;
  idptbl = 0x10_0000;
  cr3 = 0;
  paging = false;
}

paging_init_lem_example :
    let t = paging_init ranges start in
    (t.paging ≡ true)
    × (t.cr3 ≡ 0)
    × ((proc vaddr : ℕ)
        → proc < num_ids
        → vaddr < 2 ^ 32
        → get_ptbl_entry_by_va t proc vaddr ≡ first_entry proc vaddr)
paging_init_lem_example = paging_init_lem ranges start (omega arith) (omega arith)

paging_init-IsOwned_example : let t = paging_init ranges start in IsFunded t.con × IsOwned t
paging_init-IsOwned_example =
    paging_init-IsOwned ranges start ranges-AllRanges boot-IsBoot (λ proc pde. refl)
