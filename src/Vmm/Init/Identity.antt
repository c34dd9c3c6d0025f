-- ===== src/Vmm/Init/Identity.antt =====
-- `idptbl_init` fills the identity page tables.
use Prim.Native.Nat.{bit_or}
use mcertikos.Base.{ℕ, ◌+◌, ◌*◌, ◌<◌, ◌≡◌, refl, arith, List, for_range_inv}
use mcertikos.Pmm.MemoryMap.{Entry}
use mcertikos.Pmm.Container.{container_init}
use mcertikos.Vmm.Tables.{Vmm, pte_p, pte_w, pte_g, identity_table, set_ptbl_entry_identity}
use mcertikos.Vmm.Tables.Words.{identity_word}
use mcertikos.Vmm.Init.{identity_perm, fill_table, idptbl_init}

-- The entry that maps page `pde * 1024 + pte` to itself.
abbrev pub identity_entry : ℕ → ℕ → ℕ
identity_entry pde pte = (pde * 1024 + pte) * 4096 + identity_perm pde

-- The identity tables below `n` are filled, and nothing but the memory has changed since `s`.
pub record Filled (s : Vmm) (n : ℕ) (t : Vmm) : Type 0 where
  pub same_con : t.con ≡ s.con
  pub same_pdir : t.pdir ≡ s.pdir
  pub same_id : t.idptbl ≡ s.idptbl
  pub entries :
      (pde pte : ℕ)
      → pde < n
      → pte < 1024
      → t.memory (identity_table s pde + 4 * pte) ≡ identity_entry pde pte

-- So with the first `k` entries of table `n`.
record Partly (s : Vmm) (n k : ℕ) (t : Vmm) : Type 0 where
  below : Filled s n t
  row : (pte : ℕ) → pte < k → t.memory (identity_table s n + 4 * pte) ≡ identity_entry n pte

perm-user : bit_or pte_p pte_w ≡ 3
perm-user = refl

perm-global : bit_or (bit_or pte_p pte_w) pte_g ≡ 259
perm-global = refl

identity_perm-lt : (pde : ℕ) → identity_perm pde < 4096
identity_perm-lt pde = ground (arith, perm-user, perm-global)

Partly-entry :
    (s : Vmm) (n k : ℕ) (t : Vmm)
    → n < 1024
    → k < 1024
    → Partly s n k t
    → Partly s n (k + 1) (set_ptbl_entry_identity n k (identity_perm n) t)
unfolding set_ptbl_entry_identity
Partly-entry s n k t hn hk p =
    let w = identity_word n k (identity_perm n) hn hk (identity_perm-lt n) in
    record {
      below = record {
        same_con = p.below.same_con;
        same_pdir = p.below.same_pdir;
        same_id = p.below.same_id;
        entries = λ pde pte lt lt'. ground (arith, p.below.entries pde pte lt lt', p.below.same_id);
      };
      row = λ pte lt. ground (arith, p.row pte, p.below.same_id, w);
    }

Filled-table :
    (s : Vmm) (n : ℕ) (t : Vmm) → n < 1024 → Filled s n t → Filled s (n + 1) (fill_table n t)
unfolding fill_table
Filled-table s n t hn f =
    let p =
      for_range_inv (Partly s n) (λ k. set_ptbl_entry_identity n k (identity_perm n)) 1024 0 1024 t
        refl (λ k u lo hi q. Partly-entry s n k u hn hi q)
        (record { below = f; row = λ pte lt. absurd (omega arith) }) in
    record {
      same_con = p.below.same_con;
      same_pdir = p.below.same_pdir;
      same_id = p.below.same_id;
      entries = λ pde pte lt lt'. ground (arith, p.below.entries pde pte, p.row pte);
    }

pub idptbl_init-Filled :
    (es : List Entry) (s : Vmm)
    → Filled (record s { con = container_init es s.con }) 1024 (idptbl_init es s)
unfolding idptbl_init
idptbl_init-Filled es s =
    let s' : Vmm = record s { con = container_init es s.con } in
    for_range_inv (Filled s') fill_table 1024 0 1024 s' refl
      (λ n t lo hi f. Filled-table s' n t hi f)
      (record {
        same_con = refl;
        same_pdir = refl;
        same_id = refl;
        entries = λ pde pte lt lt'. absurd (omega arith);
      })
