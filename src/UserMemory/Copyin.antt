-- ===== src/UserMemory/Copyin.antt =====
-- `pt_copyin` from pages that are there.
use mcertikos.Base.{
  ℕ, zero, suc, ◌+◌, ◌-◌, ◌%◌, ◌^◌, ◌≤◌, ◌<◌, min, ◌≡◌, refl, sym, ap, ◌∙◌, arith, true, false,
  ◌&&◌, ◌==◌, ltb, leb, if◌then◌else◌, ok, ◌>>=◌, bind_ok,
}
use native.Mathlib.Decide.{dec_lt, ℕ_discrete}
use mcertikos.Strings.{Bytes}
use mcertikos.Vmm.Tables.{Vmm}
use mcertikos.UserMemory.{
  load_byte, move_in, move_page, present_entry, physical, share, each_page, in_bounds, pt_copyin,
}
use mcertikos.UserMemory.Range.{
  entry, frame_of, IsPresent, present_entry-there, physical-frame_of, share-page, frame_of-page,
}

-- A byte of the memory of a process.
abbrev pub user_byte : Vmm → (pid va : ℕ) → ℕ
user_byte s pid va = load_byte s.memory (frame_of s pid va)

module _ (s : Vmm) (pid u0 len0 : ℕ) (h : IsPresent s pid u0 len0) where
  -- The buffer `d'` after `len` bytes from `uva` on have been read to index `done` of `d`.
  record IsRead (uva len done : ℕ) (d d' : Bytes) : Type 0 where
    moved : (j : ℕ) → j < len → d' (done + j) ≡ user_byte s pid (uva + j)
    kept : (i : ℕ) → (i < done → ⊥) → (i < done + len → ⊥) → d' i ≡ d i
    before : (i : ℕ) → i < done → d' i ≡ d i

  module _ (uva len done : ℕ) (d : Bytes) (lo : u0 ≤ uva) (hi : uva + len ≤ u0 + len0)
      (on : 0 < len) where
    size : ℕ
    size = min len (4096 - uva % 4096)

    after : Bytes
    after j =
        if leb done j && ltb j (done + size)
        then load_byte s.memory (frame_of s pid uva + (j - done))
        else d j

    after-here : (j : ℕ) → j < size → after (done + j) ≡ user_byte s pid (uva + j)
    unfolding after size
    after-here j lt =
        let b : (leb done (done + j) && ltb (done + j) (done + size)) ≡ true = ground arith in
        let k : done + j - done ≡ j = omega arith in
        ap
          (λ b.
            if b then load_byte s.memory (frame_of s pid uva + (done + j - done)) else d (done + j))
          b
        ∙ ap (λ k. load_byte s.memory (frame_of s pid uva + k)) k
        ∙ ap (load_byte s.memory) (sym (frame_of-page s pid uva j (omega arith)))

    after-before : (i : ℕ) → i < done → after i ≡ d i
    unfolding after
    after-before i lt = ground arith

    after-behind : (i : ℕ) → done + size ≤ i → after i ≡ d i
    unfolding after
    after-behind i le = ground arith

    round :
        (fuel : ℕ)
        → uva + len < 2 ^ 32
        → each_page move_in pid (suc fuel) uva len done d s
          ≡ each_page move_in pid fuel (uva + size) (len - size) (done + size) after s
    unfolding each_page move_page after size
    round fuel small =
        let word = h.word uva lo (omega arith) in
        let there = present_entry-there s pid uva (h.there uva lo (omega arith)) in
        let e = entry s pid uva in
        let n : share e uva len ≡ size = share-page s pid uva len word in
        let p : physical e uva ≡ frame_of s pid uva = physical-frame_of s pid uva word in
        let next : (uva + size) % 2 ^ 32 ≡ uva + size = omega arith in
        let more : (len == 0) ≡ false = ground arith in
        let step = λ (v n pa : ℕ).
          each_page move_in pid fuel v (len - n) (done + n)
            (λ j.
              if leb done j && ltb j (done + n) then load_byte s.memory (pa + (j - done)) else d j)
            s in
        let body = λ (e : ℕ).
          move_page move_in (physical e uva) done (share e uva len) d
          >>= each_page move_in pid fuel ((uva + share e uva len) % 2 ^ 32) (len - share e uva len)
              (done + share e uva len) in
        ap (λ b. if b then ok ((done, d), s) else (present_entry pid uva >>= body) s) more
        ∙ bind_ok (present_entry pid uva) body s s e there
        ∙ ap (λ n. step ((uva + n) % 2 ^ 32) n (physical e uva)) n
        ∙ ap (λ v. step v size (physical e uva)) next
        ∙ ap (step (uva + size) size) p

    round-IsRead :
        (d' : Bytes)
        → IsRead (uva + size) (len - size) (done + size) after d'
        → IsRead uva len done d d'
    unfolding size
    round-IsRead d' r = record {
      moved = λ j lt. elim (dec_lt j size) [
        | yes here ↦ r.before (done + j) (omega arith) ∙ after-here j here
        | no later ↦
            let a : done + j ≡ done + size + (j - size) = omega arith in
            let b : uva + size + (j - size) ≡ uva + j = omega arith in
            ap d' a ∙ r.moved (j - size) (omega arith) ∙ ap (user_byte s pid) b
      ];
      kept = λ i a b. r.kept i (λ c. omega arith) (λ c. omega arith) ∙ after-behind i (omega arith);
      before = λ i lt. r.before i (omega arith) ∙ after-before i lt;
    }

  stop :
      (fuel uva len done : ℕ) (d : Bytes)
      → len ≡ 0
      → each_page move_in pid fuel uva len done d s ≡ ok ((done + len, d), s)
  unfolding each_page
  stop zero uva len done d z = ground arith
  stop (suc fuel) uva len done d z = ground arith

  nothing : (uva len done : ℕ) (d : Bytes) → len ≡ 0 → IsRead uva len done d d
  nothing uva len done d z = record {
    moved = λ j lt. absurd (omega arith);
    kept = λ i _ _. refl;
    before = λ i _. refl;
  }

  each_page-IsRead :
      (fuel uva len done : ℕ) (d : Bytes)
      → u0 ≤ uva
      → uva + len ≤ u0 + len0
      → uva + len < 2 ^ 32
      → len ≤ fuel
      → (d' : Bytes) × (each_page move_in pid fuel uva len done d s ≡ ok ((done + len, d'), s))
        × IsRead uva len done d d'
  unfolding size
  each_page-IsRead zero uva len done d lo hi small enough =
      (d, stop zero uva len done d (omega arith), nothing uva len done d (omega arith))
  each_page-IsRead (suc fuel) uva len done d lo hi small enough = elim (ℕ_discrete len 0) [
    | yes z ↦ (d, stop (suc fuel) uva len done d z, nothing uva len done d z)
    | no nz ↦
        let on : 0 < len = omega arith in
        let n = size uva len done d lo hi on in
        let (d', e, r) =
          each_page-IsRead fuel (uva + n) (len - n) (done + n) (after uva len done d lo hi on)
            (omega arith) (omega arith) (omega arith) (omega arith) in
        let all : done + n + (len - n) ≡ done + len = omega arith in
        (
          d',
          round uva len done d lo hi on fuel small ∙ e ∙ ap (λ k. ok ((k, d'), s)) all,
          round-IsRead uva len done d lo hi on d' r,
        )
  ]

-- `pt_copyin` of a range of user addresses whose pages are there reads the bytes of the process into the buffer, and
-- changes nothing else.
pub pt_copyin-reads :
    (s : Vmm) (pid uva len kva : ℕ) (dst : Bytes)
    → IsPresent s pid uva len
    → 0x4000_0000 ≤ uva
    → uva + len ≤ 0xf000_0000
    → kva + len ≤ 0xf000_0000
    → (d : Bytes) × (pt_copyin pid uva kva len dst s ≡ ok ((len, d), s))
      × ((j : ℕ) → j < len → d j ≡ user_byte s pid (uva + j))
unfolding pt_copyin
pt_copyin-reads s pid uva len kva dst h lo hi k_hi =
    let fits : in_bounds uva kva len ≡ true = ground arith in
    let (d, e, r) =
      each_page-IsRead s pid uva len h len uva len 0 dst (omega arith) (omega arith) (omega arith)
        (omega arith) in
    let zero_done : 0 + len ≡ len = omega arith in
    (
      d,
      ap (λ b. if b then each_page move_in pid len uva len 0 dst s else ok ((0, dst), s)) fits
          ∙ e
          ∙ ap (λ n. ok ((n, d), s)) zero_done,
      λ j lt. let z : j ≡ 0 + j = omega arith in ap d z ∙ r.moved j lt,
    )
