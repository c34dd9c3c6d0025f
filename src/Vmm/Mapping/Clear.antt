-- ===== src/Vmm/Mapping/Clear.antt =====
-- A cleared page table, and the steps of `alloc_ptbl`.
use mcertikos.Base.{ℕ, ◌+◌, ◌<◌, ◌≡◌, ◌≢◌, refl, arith, for_range_inv}
use mcertikos.Vmm.Tables.{Vmm, rmv_ptbl_entry, slot}
use mcertikos.Vmm.Mapping.{clear_table}

-- The state with the first `n` entries of a table cleared.
pub record Cleared (s : Vmm) (proc pde n : ℕ) (t : Vmm) : Type 0 where
  pub same_con : t.con ≡ s.con
  pub same_pdir : t.pdir ≡ s.pdir
  pub same_id : t.idptbl ≡ s.idptbl
  pub zero_in : (i : ℕ) → i < n → t.memory (slot s proc pde i) ≡ 0
  pub same_out : (a : ℕ) → ((i : ℕ) → i < n → slot s proc pde i ≢ a) → t.memory a ≡ s.memory a

Cleared-rmv_ptbl_entry :
    (s : Vmm) (proc pde n : ℕ) (t : Vmm)
    → Cleared s proc pde n t
    → Cleared s proc pde (n + 1) (rmv_ptbl_entry proc pde n t)
unfolding rmv_ptbl_entry
Cleared-rmv_ptbl_entry s proc pde n t c = record {
  same_con = c.same_con;
  same_pdir = c.same_pdir;
  same_id = c.same_id;
  zero_in = λ i lt. ground (arith, c.same_pdir, c.zero_in i);
  same_out =
      λ a out. ground (arith, c.same_pdir, c.same_out a (λ i lt. out i (omega arith)), out n);
}

pub clear_table-Cleared :
    (s : Vmm) (proc pde : ℕ) → Cleared s proc pde 1024 (clear_table proc pde s)
unfolding clear_table
clear_table-Cleared s proc pde =
    for_range_inv (Cleared s proc pde) (rmv_ptbl_entry proc pde) 1024 0 1024 s (omega arith)
      (λ k t lo hi c. Cleared-rmv_ptbl_entry s proc pde k t c)
      (record {
        same_con = refl;
        same_pdir = refl;
        same_id = refl;
        zero_in = λ i lt. absurd (omega arith);
        same_out = λ a out. refl;
      })
