-- ===== src/Vmm/Tables/Words.antt =====
-- The words of MPTIntro as numbers: an entry is a page index times 4096 plus its permission.
use Prim.Native.Nat.{bit_and, bit_or}
use mcertikos.Base.{ℕ, ◌+◌, ◌*◌, ◌/◌, ◌%◌, ◌^◌, ◌<◌, ◌≡◌, ap, ◌∙◌, arith}
use mcertikos.Base.Bits.{bit_or-shifted, page_mask, index_mask}
use mcertikos.Vmm.Tables.{addr_mask, shl}

pub entry_word :
    (page perm : ℕ) → page < 2 ^ 20 → perm < 4096 → bit_or (shl page 12) perm ≡ page * 4096 + perm
entry_word page perm h h' =
    let e : shl page 12 ≡ page * 2 ^ 12 = omega arith in rw e (bit_or-shifted 12 page perm h')

-- A page directory entry leads back to its page.
pub addr_mask-entry :
    (page perm : ℕ) → page < 2 ^ 20 → perm < 4096 → addr_mask (page * 4096 + perm) ≡ page * 4096
addr_mask-entry page perm h h' = page_mask (page * 4096 + perm) (omega arith) ∙ omega arith

pub identity_word :
    (pde pte perm : ℕ)
    → pde < 1024
    → pte < 1024
    → perm < 4096
    → bit_or (bit_or (shl pde 22) (shl pte 12)) perm ≡ (pde * 1024 + pte) * 4096 + perm
identity_word pde pte perm h h' h'' =
    let high : shl pde 22 ≡ pde * 2 ^ 22 = omega arith in
    let both : bit_or (shl pde 22) (shl pte 12) ≡ (pde * 1024 + pte) * 2 ^ 12 =
      ap (λ a. bit_or a (shl pte 12)) high
      ∙ bit_or-shifted 22 pde (shl pte 12) (omega arith)
      ∙ omega arith in
    rw both (bit_or-shifted 12 (pde * 1024 + pte) perm h'')

pub pte_index : (vaddr : ℕ) → bit_and (vaddr / 2 ^ 12) 0x3ff ≡ vaddr / 4096 % 1024
pte_index vaddr = index_mask (vaddr / 4096)
