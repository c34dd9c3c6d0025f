-- ===== src/Vmm/Tables.antt =====
-- kern/vmm/MPTIntro: page directories, page tables and the identity page tables.
pub mod Words
use Prim.Native.Nat.{bit_and, bit_or}
use mcertikos.Base.{ℕ, ◌+◌, ◌*◌, ◌%◌, ◌^◌, Bool, update, Call, lift, for_range}
use mcertikos.Pmm.Container.{Containers}

-- The static variables of MPTIntro.c and those of the layers below. `pdir` is `PDirPool`; `memory`
-- is the physical memory by word address, with the page tables in it and the identity tables at
-- `idptbl`, the address that the linker gives to `IDPTbl`. `cr3` is the process whose directory is
-- loaded, and `paging` tells whether paging is on.
pub record Vmm : Type 0 where
  pub con : Containers
  pub pdir : ℕ → ℕ → ℕ
  pub memory : ℕ → ℕ
  pub idptbl : ℕ
  pub cr3 : ℕ
  pub paging : Bool

abbrev pub in_con : {A : Type 0} → Call Containers A → Call Vmm A
in_con = lift (λ s. s.con) (λ s c. record s { con = c })

abbrev pub pte_p : ℕ
pte_p = 0x001

abbrev pub pte_w : ℕ
pte_w = 0x002

abbrev pub pte_u : ℕ
pte_u = 0x004

abbrev pub pte_g : ℕ
pte_g = 0x100

-- `PT_PERM_PTU`
abbrev pub ptu : ℕ
ptu = bit_or (bit_or pte_p pte_w) pte_u

-- `ADDR_MASK(x)`
abbrev pub addr_mask : ℕ → ℕ
addr_mask x = bit_and x 0xffff_f000

-- `x << k` of a word
abbrev pub shl : ℕ → ℕ → ℕ
shl x k = x * 2 ^ k % 2 ^ 32

unfoldable pub set_pdir_base : ℕ → Vmm → Vmm
set_pdir_base index s = record s { cr3 = index }

unfoldable pub get_pdir_entry : Vmm → ℕ → ℕ → ℕ
get_pdir_entry s proc_index pde_index = s.pdir proc_index pde_index

-- `PDirPool[proc_index][pde_index] = v`
unfoldable pub put_pdir : ℕ → ℕ → ℕ → Vmm → Vmm
put_pdir proc_index pde_index v s = record s {
  pdir = update s.pdir proc_index (update (s.pdir proc_index) pde_index v);
}

unfoldable pub set_pdir_entry : ℕ → ℕ → ℕ → Vmm → Vmm
unfolding put_pdir
set_pdir_entry proc_index pde_index page_index =
    put_pdir proc_index pde_index (bit_or (shl page_index 12) ptu)

-- The address of `IDPTbl[pde_index]`.
abbrev pub identity_table : Vmm → ℕ → ℕ
identity_table s pde_index = s.idptbl + pde_index * 4096

unfoldable pub set_pdir_entry_identity : ℕ → ℕ → Vmm → Vmm
unfolding put_pdir
set_pdir_entry_identity proc_index pde_index s =
    put_pdir proc_index pde_index (bit_or (identity_table s pde_index) ptu) s

unfoldable pub rmv_pdir_entry : ℕ → ℕ → Vmm → Vmm
unfolding put_pdir
rmv_pdir_entry proc_index pde_index = put_pdir proc_index pde_index 0

-- The address of `pt[pte_index]`.
unfoldable pub slot : Vmm → ℕ → ℕ → ℕ → ℕ
slot s proc_index pde_index pte_index = addr_mask (s.pdir proc_index pde_index) + 4 * pte_index

unfoldable pub get_ptbl_entry : Vmm → ℕ → ℕ → ℕ → ℕ
unfolding slot
get_ptbl_entry s proc_index pde_index pte_index = s.memory (slot s proc_index pde_index pte_index)

unfoldable pub set_ptbl_entry : ℕ → ℕ → ℕ → ℕ → ℕ → Vmm → Vmm
unfolding slot
set_ptbl_entry proc_index pde_index pte_index page_index perm s = record s {
  memory =
      update s.memory (slot s proc_index pde_index pte_index) (bit_or (shl page_index 12) perm);
}

unfoldable pub set_ptbl_entry_identity : ℕ → ℕ → ℕ → Vmm → Vmm
set_ptbl_entry_identity pde_index pte_index perm s =
    let addr = bit_or (shl pde_index 22) (shl pte_index 12) in
    record s {
      memory = update s.memory (identity_table s pde_index + 4 * pte_index) (bit_or addr perm);
    }

unfoldable pub rmv_ptbl_entry : ℕ → ℕ → ℕ → Vmm → Vmm
unfolding slot
rmv_ptbl_entry proc_index pde_index pte_index s = record s {
  memory = update s.memory (slot s proc_index pde_index pte_index) 0;
}
