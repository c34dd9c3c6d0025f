-- ===== src/UserMemory/Range.antt =====
-- Ranges of user addresses whose pages are there.
use Prim.Native.Nat.{bit_and}
use mcertikos.Base.{
  ℕ, ◌+◌, ◌-◌, ◌*◌, ◌/◌, ◌%◌, ◌^◌, ◌≤◌, ◌<◌, min, ◌≡◌, ◌≢◌, sym, ap, ◌∙◌, arith, false, ◌==◌,
  if◌then◌else◌, ok, ◌>>=◌, pure, gets,
}
use mcertikos.Base.Bits.{bit_and-halves, page_mask}
use mcertikos.Vmm.Tables.{Vmm, pte_p, ptu, slot}
use mcertikos.Vmm.Address.{pde_addr, get_ptbl_entry_by_va}
use mcertikos.Vmm.Mapping.{alloc_page}
use mcertikos.Vmm.Mapping.Owned.{entry_at, by_va-entry_at}
use mcertikos.UserMemory.{present_entry, physical, share}

-- The page table entry for an address, the address at which it lies, and the physical address for a virtual one.
abbrev pub entry : Vmm → (pid va : ℕ) → ℕ
entry s pid va = get_ptbl_entry_by_va s pid va

abbrev pub entry_slot : Vmm → (pid va : ℕ) → ℕ
entry_slot s pid va = slot s pid (pde_addr va) (va / 4096 % 1024)

abbrev pub frame_of : Vmm → (pid va : ℕ) → ℕ
frame_of s pid va = entry s pid va / 4096 * 4096 + va % 4096

-- The pages of the range are there.
pub record IsPresent (s : Vmm) (pid uva len : ℕ) : Type 0 where
  pub word : (a : ℕ) → uva ≤ a → a < uva + len → entry s pid a < 2 ^ 32
  pub there : (a : ℕ) → uva ≤ a → a < uva + len → entry s pid a % 2 ≡ 1

-- The pages of the range are there, are different, and hold no page table entry of the range.
pub record IsPrivate (s : Vmm) (pid uva len : ℕ) : Type 0 where
  pub present : IsPresent s pid uva len
  pub apart :
      (a b : ℕ)
      → uva ≤ a
      → a < uva + len
      → uva ≤ b
      → b < uva + len
      → frame_of s pid a ≡ frame_of s pid b
      → a ≡ b
  pub tables :
      (a b : ℕ)
      → uva ≤ a
      → a < uva + len
      → uva ≤ b
      → b < uva + len
      → 4 * (frame_of s pid a / 4) ≢ entry_slot s pid b

present_bit : (e : ℕ) → e % 2 ≡ 1 → bit_and e pte_p ≢ 0
present_bit e odd z = omega (arith, bit_and-halves e 1, odd, z)

pub present_entry-there :
    (s : Vmm) (pid va : ℕ)
    → entry s pid va % 2 ≡ 1
    → present_entry pid va s ≡ ok (entry s pid va, s)
unfolding present_entry
present_entry-there s pid va odd =
    let ne = present_bit (entry s pid va) odd in
    let b : (bit_and (entry s pid va) pte_p == 0) ≡ false = ground arith in
    ap
      (λ b.
        (if b
            then (alloc_page pid va ptu >>= λ _. gets (λ s. get_ptbl_entry_by_va s pid va))
            else pure (get_ptbl_entry_by_va s pid va))
          s)
      b

pub physical-frame_of :
    (s : Vmm) (pid va : ℕ)
    → entry s pid va < 2 ^ 32
    → physical (entry s pid va) va ≡ frame_of s pid va
physical-frame_of s pid va word = ap (λ p. p + va % 4096) (page_mask (entry s pid va) word)

-- How much of a page a round takes.
pub share-page :
    (s : Vmm) (pid va len : ℕ)
    → entry s pid va < 2 ^ 32
    → share (entry s pid va) va len ≡ min len (4096 - va % 4096)
share-page s pid va len word =
    let e = physical-frame_of s pid va word in
    let r : physical (entry s pid va) va % 4096 ≡ va % 4096 = ap (λ x. x % 4096) e ∙ omega arith in
    ground (arith, r)

-- Two addresses of one page have one entry.
pub entry-page :
    (s : Vmm) (pid va i : ℕ) → va % 4096 + i < 4096 → entry s pid (va + i) ≡ entry s pid va
entry-page s pid va i lt =
    let d : pde_addr (va + i) ≡ pde_addr va = omega arith in
    let p : (va + i) / 4096 % 1024 ≡ va / 4096 % 1024 = omega arith in
    by_va-entry_at s pid (va + i)
    ∙ ap (λ d. entry_at s pid d ((va + i) / 4096 % 1024)) d
    ∙ ap (entry_at s pid (pde_addr va)) p
    ∙ sym (by_va-entry_at s pid va)

pub frame_of-page :
    (s : Vmm) (pid va i : ℕ)
    → va % 4096 + i < 4096
    → frame_of s pid (va + i) ≡ frame_of s pid va + i
frame_of-page s pid va i lt = omega (arith, entry-page s pid va i lt)

-- An entry that lies in a word that has not changed.
pub entry-memory :
    (s : Vmm) (m : ℕ → ℕ) (pid va : ℕ)
    → m (entry_slot s pid va) ≡ s.memory (entry_slot s pid va)
    → entry (record s { memory = m }) pid va ≡ entry s pid va
unfolding slot
entry-memory s m pid va same =
    by_va-entry_at (record s { memory = m }) pid va
    ∙ ap (λ v. if s.pdir pid (pde_addr va) == 0 then 0 else v) same
    ∙ sym (by_va-entry_at s pid va)
