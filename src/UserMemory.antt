-- ===== src/UserMemory.antt =====
-- kern/lib/pmap.c: the kernel reads and writes the memory of a process through its page tables. A page that
-- is not there is allocated first; the source does not look at the result of `alloc_page`.
pub mod Copy
pub mod Store
pub mod Range
pub mod Copyout
pub mod Copyin
use Prim.Native.Nat.{bit_and}
use mcertikos.Base.{
  ℕ, zero, suc, ◌+◌, ◌-◌, ◌*◌, ◌/◌, ◌%◌, ◌^◌, min, Bool, ◌&&◌, not, ◌==◌, ltb, leb, if◌then◌else◌,
  ok, hang, Call, ◌>>=◌, ◌>>◌, pure, gets,
}
use mcertikos.Strings.{Bytes, byte_of}
use mcertikos.Vmm.Tables.{Vmm, pte_p, ptu, addr_mask}
use mcertikos.Vmm.Address.{get_ptbl_entry_by_va}
use mcertikos.Vmm.Mapping.{alloc_page}

abbrev pub vm_userhi : ℕ
vm_userhi = 0xf000_0000

abbrev pub vm_userlo : ℕ
vm_userlo = 0x4000_0000

-- The byte at a physical address of a memory of words.
abbrev pub load_byte : (ℕ → ℕ) → ℕ → ℕ
load_byte m a = byte_of (m (4 * (a / 4))) (a % 4)

-- The memory with bytes `b` at `n` addresses from `pa` on; only the words in which they lie are written.
unfoldable pub store_bytes : (pa n : ℕ) → Bytes → (ℕ → ℕ) → ℕ → ℕ
store_bytes pa n b m w =
    let at : ℕ → ℕ = λ a. if leb pa a && ltb a (pa + n) then b (a - pa) % 256 else load_byte m a in
    if w % 4 == 0 && (ltb w (pa + n) && ltb pa (w + 4))
    then at w + 2 ^ 8 * at (w + 1) + 2 ^ 16 * at (w + 2) + 2 ^ 24 * at (w + 3)
    else m w

-- What a round does to what it has read so far and to the memory, at a physical address, with the number of
-- the bytes before and in the round.
abbrev pub Move : Type 0 → Type 0
Move A = (pa done size : ℕ) → A → (ℕ → ℕ) → A × (ℕ → ℕ)

-- The bytes of `memcpy(kva, pa, size)`, `memcpy(pa, kva, size)` and `memset(pa, c, size)`.
abbrev pub move_in : Move Bytes
move_in pa done size dst m =
    ((λ j. if leb done j && ltb j (done + size) then load_byte m (pa + (j - done)) else dst j), m)

abbrev pub move_out : Bytes → Move (Unit {0})
move_out src pa done size a m = (a, store_bytes pa size (λ j. src (done + j)) m)

abbrev pub move_set : ℕ → Move (Unit {0})
move_set c pa done size a m = (a, store_bytes pa size (λ _. c) m)

unfoldable pub move_page : {A : Type 0} → Move A → (pa done size : ℕ) → A → Call Vmm A
move_page move pa done size a s =
    let (b, m) = move pa done size a s.memory in ok (b, record s { memory = m })

-- The entry for an address, after `alloc_page` where no page was present.
unfoldable pub present_entry : (pmap_id uva : ℕ) → Call Vmm ℕ
unfolding alloc_page
present_entry pmap_id uva = do
  pa ← gets (λ s. get_ptbl_entry_by_va s pmap_id uva)
  if bit_and pa pte_p == 0
      then (alloc_page pmap_id uva ptu >>= λ _. gets (λ s. get_ptbl_entry_by_va s pmap_id uva))
      else pure pa

-- The physical address for a virtual one, and how much of its page a round takes.
abbrev pub physical : (pa uva : ℕ) → ℕ
physical pa uva = addr_mask pa + uva % 4096

abbrev pub share : (pa uva len : ℕ) → ℕ
share pa uva len = let rest = 4096 - physical pa uva % 4096 in if ltb len rest then len else rest

-- The loop that the three functions share; a round takes a byte at least, so `len` rounds are enough. It
-- returns the number of the bytes.
unfoldable pub each_page :
    {A : Type 0} → Move A → (pmap_id : ℕ) → (fuel uva len done : ℕ) → A → Call Vmm (ℕ × A)
unfolding present_entry move_page
each_page move pmap_id zero uva len done a s = if len == 0 then ok ((done, a), s) else hang
each_page move pmap_id (suc fuel) uva len done a s =
    let rest = each_page move pmap_id fuel in
    if len == 0
    then ok ((done, a), s)
    else (do
      pa ← present_entry pmap_id uva
      let size = share pa uva len
      b ← move_page move (physical pa uva) done size a
      rest ((uva + size) % 2 ^ 32) (len - size) (done + size) b)
        s

-- The tests of `pt_copyin` and `pt_copyout`.
abbrev pub in_bounds : (uva kva len : ℕ) → Bool
in_bounds uva kva len =
    leb vm_userlo uva
    && leb ((uva + len) % 2 ^ 32) vm_userhi
    && leb ((kva + len) % 2 ^ 32) vm_userhi

-- The buffer at `kva` is given by its bytes.
unfoldable pub pt_copyin : (pmap_id uva kva len : ℕ) → Bytes → Call Vmm (ℕ × Bytes)
unfolding each_page
pt_copyin pmap_id uva kva len dst s =
    if in_bounds uva kva len
    then each_page move_in pmap_id len uva len 0 dst s
    else ok ((0, dst), s)

unfoldable pub pt_copyout : (kva : ℕ) → Bytes → (pmap_id uva len : ℕ) → Call Vmm ℕ
unfolding each_page
pt_copyout kva src pmap_id uva len s =
    if in_bounds uva kva len
    then (each_page (move_out src) pmap_id len uva len 0 tt >>= λ r. pure r.0) s
    else ok (0, s)

unfoldable pub pt_memset : (pmap_id va c len : ℕ) → Call Vmm ℕ
unfolding each_page
pt_memset pmap_id va c len = do r ← each_page (move_set c) pmap_id len va len 0 tt; pure r.0
