-- ===== src/UserMemory/Copy.antt =====
-- The writes to the memory of a process return, also where pages are allocated, and keep the page tables owned.
use mcertikos.Base.{
  ℕ, zero, suc, ◌+◌, ◌-◌, ◌%◌, ◌^◌, ◌≤◌, ◌<◌, ◌≡◌, ◌≢◌, refl, ◌∙◌, ap, arith, Bool, true, false,
  ◌==◌, if◌then◌else◌, ok, hang, Call, bind_ok, ◌>>=◌, pure, gets,
}
use Prim.Native.Nat.{bit_and}
use native.Mathlib.Decide.{ℕ_discrete}
use mcertikos.Strings.{Bytes}
use mcertikos.Vmm.Tables.{Vmm, pte_p, ptu}
use mcertikos.Vmm.Address.{get_ptbl_entry_by_va}
use mcertikos.Vmm.Mapping.{alloc_page}
use mcertikos.Vmm.Mapping.Owned.{IsOwned}
use mcertikos.Vmm.Mapping.Written.{IsUserVa}
use mcertikos.Vmm.Mapping.AllocPage.{alloc_page_total}
use mcertikos.UserMemory.{
  vm_userlo, vm_userhi, Move, move_out, move_set, move_page, present_entry, physical, share,
  each_page, in_bounds, pt_copyout, pt_memset,
}

-- A call that returns a value `r` and keeps the page tables owned.
abbrev pub Returns : {A : Type 0} → Call Vmm A → Vmm → A → Type 0
Returns m s r = (t : Vmm) × (m s ≡ ok (r, t)) × IsOwned t

IsOwned-memory : (s : Vmm) (m : ℕ → ℕ) → IsOwned s → IsOwned (record s { memory = m })
IsOwned-memory s m o = record {
  valid = o.valid;
  pointer = o.pointer;
  allocated = o.allocated;
  apart = o.apart;
}

present_entry_total :
    (pmap_id uva : ℕ) (s : Vmm)
    → pmap_id ≢ 0
    → IsUserVa uva
    → IsOwned s
    → (pa : ℕ) × Returns (present_entry pmap_id uva) s pa
unfolding present_entry
present_entry_total pmap_id uva s ne user o =
    let pa = get_ptbl_entry_by_va s pmap_id uva in
    let again : Call Vmm ℕ = gets (λ s. get_ptbl_entry_by_va s pmap_id uva) in
    elim (ℕ_discrete (bit_and pa pte_p) 0) [
      | yes z ↦
          let (r, t, e, o', _) = alloc_page_total pmap_id uva 7 ne user (omega arith) s o in
          let b : (bit_and pa pte_p == 0) ≡ true = ground arith in
          (
            get_ptbl_entry_by_va t pmap_id uva,
            (
              t,
              ap (λ b. (if b then (alloc_page pmap_id uva ptu >>= λ _. again) else pure pa) s) b
                  ∙ bind_ok (alloc_page pmap_id uva ptu) (λ _. again) s t r e,
              o',
            ),
          )
      | no nz ↦
          let b : (bit_and pa pte_p == 0) ≡ false = ground arith in
          (
            pa,
            (
              s,
              ap (λ b. (if b then (alloc_page pmap_id uva ptu >>= λ _. again) else pure pa) s) b,
              o,
            ),
          )
    ]

module _ {A : Type 0} (move : Move A) (pmap_id : ℕ) (ne : pmap_id ≢ 0) where
  each_page_total :
      (fuel uva len done : ℕ) (a : A) (s : Vmm)
      → IsOwned s
      → len ≤ fuel
      → vm_userlo ≤ uva
      → uva + len ≤ vm_userhi
      → (b : A) × Returns (each_page move pmap_id fuel uva len done a) s (done + len, b)
  unfolding each_page move_page
  each_page_total zero uva len done a s o enough lo hi =
      let b : (len == 0) ≡ true = ground arith in
      let e : done ≡ done + len = omega arith in
      (a, (s, ap (λ b. if b then ok ((done, a), s) else hang) b ∙ ap (λ n. ok ((n, a), s)) e, o))
  each_page_total (suc fuel) uva len done a s o enough lo hi =
      let round = λ (pa : ℕ).
        move_page move (physical pa uva) done (share pa uva len) a
        >>= each_page move pmap_id fuel ((uva + share pa uva len) % 2 ^ 32) (len - share pa uva len)
            (done + share pa uva len) in
      let body =
        λ (b : Bool). if b then ok ((done, a), s) else (present_entry pmap_id uva >>= round) s in
      elim (ℕ_discrete len 0) [
        | yes z ↦
            let b : (len == 0) ≡ true = ground arith in
            let e : done ≡ done + len = omega arith in
            (a, (s, ap body b ∙ ap (λ n. ok ((n, a), s)) e, o))
        | no nz ↦
            let b : (len == 0) ≡ false = ground arith in
            let (pa, (t, e, o')) = present_entry_total pmap_id uva s ne (lo, omega arith) o in
            let size = share pa uva len in
            let positive : 0 < size = ground arith in
            let most : size ≤ len = ground arith in
            let word : (uva + size) % 2 ^ 32 ≡ uva + size = omega arith in
            let all : done + size + (len - size) ≡ done + len = omega arith in
            let (c, m) = move (physical pa uva) done size a t.memory in
            let (d, (u, e', o'')) =
              each_page_total fuel (uva + size) (len - size) (done + size) c
                (record t { memory = m }) (IsOwned-memory t m o') (omega arith) (omega arith)
                (omega arith) in
            (
              d,
              (
                u,
                ap body b
                    ∙ bind_ok (present_entry pmap_id uva) round s t pa e
                    ∙ ap
                        (λ v.
                          each_page move pmap_id fuel v (len - size) (done + size) c
                            (record t { memory = m }))
                        word
                    ∙ e'
                    ∙ ap (λ n. ok ((n, d), u)) all,
                o'',
              ),
            )
      ]

  -- The loop from its start.
  each_page_all :
      (uva len : ℕ) (a : A) (s : Vmm)
      → IsOwned s
      → vm_userlo ≤ uva
      → uva + len ≤ vm_userhi
      → (b : A) × Returns (each_page move pmap_id len uva len 0 a) s (len, b)
  each_page_all uva len a s o lo hi =
      let (b, (t, e, o')) = each_page_total len uva len 0 a s o (omega arith) lo hi in
      let all : 0 + len ≡ len = omega arith in (b, (t, e ∙ ap (λ n. ok ((n, b), t)) all, o'))

module _ (pmap_id : ℕ) (s : Vmm) (ne : pmap_id ≢ 0) (o : IsOwned s) where
  -- On a state whose page tables are owned and for a process other than 0, `pt_memset` of a range of user
  -- addresses returns its length, and the page tables stay owned.
  pub pt_memset_total :
      (va c len : ℕ)
      → vm_userlo ≤ va
      → va + len ≤ vm_userhi
      → Returns (pt_memset pmap_id va c len) s len
  unfolding pt_memset
  pt_memset_total va c len lo hi =
      let (b, (t, e, o')) = each_page_all (move_set c) pmap_id ne va len tt s o lo hi in
      let k = λ (r : ℕ × Unit {0}). pure r.0 in
      (t, bind_ok (each_page (move_set c) pmap_id len va len 0 tt) k s t (len, b) e, o')

  bounds :
      (uva kva len : ℕ)
      → uva + len < 2 ^ 32
      → in_bounds uva kva len ≡ true
      → (vm_userlo ≤ uva) × (uva + len ≤ vm_userhi)
  bounds uva kva len word e = (ground arith, ground arith)

  -- On a state whose page tables are owned and for a process other than 0, `pt_copyout` of a range of addresses
  -- that does not wrap returns the length of the range if it lies in the user's addresses and the buffer
  -- ends below their end, and otherwise 0. The page tables stay owned.
  pub pt_copyout_total :
      (kva : ℕ) (src : Bytes) (uva len : ℕ)
      → uva + len < 2 ^ 32
      → Returns (pt_copyout kva src pmap_id uva len) s (if in_bounds uva kva len then len else 0)
  unfolding pt_copyout
  pt_copyout_total kva src uva len word = go (in_bounds uva kva len) refl
    where
      go :
          (b : Bool)
          → in_bounds uva kva len ≡ b
          → Returns
              (λ s.
                if b
                then (each_page (move_out src) pmap_id len uva len 0 tt >>= λ r. pure r.0) s
                else ok (0, s))
              s
              (if b then len else 0)
      go true e =
          let (lo, hi) = bounds uva kva len word e in
          let (b, (t, e', o')) = each_page_all (move_out src) pmap_id ne uva len tt s o lo hi in
          (
            t,
            bind_ok (each_page (move_out src) pmap_id len uva len 0 tt)
                (λ (r : ℕ × Unit {0}). pure r.0) s t (len, b) e',
            o',
          )
      go false e = (s, refl, o)
