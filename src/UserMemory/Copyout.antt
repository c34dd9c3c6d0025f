-- ===== src/UserMemory/Copyout.antt =====
-- `pt_copyout` to pages that are there.
use mcertikos.Base.{
  ℕ, zero, suc, ◌+◌, ◌-◌, ◌*◌, ◌/◌, ◌%◌, ◌^◌, ◌≤◌, ◌<◌, min, ◌≡◌, ◌≢◌, refl, sym, ap, ◌∙◌, arith,
  true, false, ◌&&◌, ◌==◌, ltb, leb, if◌then◌else◌, ok, Call, ◌>>=◌, pure, bind_ok,
}
use native.Mathlib.Decide.{dec_lt, ℕ_discrete}
use mcertikos.Strings.{Bytes}
use mcertikos.Vmm.Tables.{Vmm}
use mcertikos.UserMemory.{
  load_byte, store_bytes, move_out, move_page, present_entry, physical, share, each_page, in_bounds,
  pt_copyout,
}
use mcertikos.UserMemory.Store.{load_byte-store_bytes, store_bytes-other}
use mcertikos.UserMemory.Range.{
  entry, entry_slot, frame_of, IsPrivate, present_entry-there, physical-frame_of, share-page,
  frame_of-page, entry-memory,
}

module _ (s : Vmm) (pid u0 len0 : ℕ) (src : Bytes) (h : IsPrivate s pid u0 len0) where
  abbrev at : (ℕ → ℕ) → Vmm
  at m = record s { memory = m }

  -- The words with the entries of the range are as in `s`.
  HasTables : (ℕ → ℕ) → Type 0
  HasTables m =
      (a : ℕ) → u0 ≤ a → a < u0 + len0 → m (entry_slot s pid a) ≡ s.memory (entry_slot s pid a)

  -- The memory `m'` after `len` bytes, from byte `done` of the source on, have been copied to `uva`.
  record IsCopied (uva len done : ℕ) (m m' : ℕ → ℕ) : Type 0 where
    tables : HasTables m'
    moved : (j : ℕ) → j < len → load_byte m' (frame_of s pid (uva + j)) ≡ src (done + j) % 256
    kept :
        (x : ℕ)
        → ((j : ℕ) → j < len → frame_of s pid (uva + j) ≢ x)
        → load_byte m' x ≡ load_byte m x

  module _ (uva len done : ℕ) (m : ℕ → ℕ) (lo : u0 ≤ uva) (hi : uva + len ≤ u0 + len0)
      (some_left : 0 < len) (t : HasTables m) where
    size : ℕ
    size = min len (4096 - uva % 4096)

    after : ℕ → ℕ
    after = store_bytes (frame_of s pid uva) size (λ j. src (done + j)) m

    in_frame : (i : ℕ) → i < size → frame_of s pid (uva + i) ≡ frame_of s pid uva + i
    unfolding size
    in_frame i lt = frame_of-page s pid uva i (omega arith)

    after-HasTables : HasTables after
    unfolding after HasTables size
    after-HasTables a a_lo a_hi =
        store_bytes-other (frame_of s pid uva) size (λ j. src (done + j)) m (entry_slot s pid a)
          (omega arith)
          (λ i lt _ e.
            h.tables (uva + i) a (omega arith) (omega arith) a_lo a_hi
              (ap (λ x. 4 * (x / 4)) (in_frame i lt) ∙ e))
        ∙ t a a_lo a_hi

    after-here :
        (j : ℕ) → j < size → load_byte after (frame_of s pid (uva + j)) ≡ src (done + j) % 256
    unfolding after
    after-here j lt =
        let e = in_frame j lt in
        let b : (leb (frame_of s pid uva) (frame_of s pid uva + j)
              && ltb (frame_of s pid uva + j) (frame_of s pid uva + size))
            ≡ true =
          ground arith in
        let k : frame_of s pid uva + j - frame_of s pid uva ≡ j = omega arith in
        ap (load_byte after) e
        ∙ load_byte-store_bytes (frame_of s pid uva) size (λ j. src (done + j)) m
            (frame_of s pid uva + j)
        ∙ ap
            (λ b.
              if b
              then src (done + (frame_of s pid uva + j - frame_of s pid uva)) % 256
              else load_byte m (frame_of s pid uva + j))
            b
        ∙ ap (λ k. src (done + k) % 256) k

    after-else :
        (x : ℕ)
        → ((j : ℕ) → j < size → frame_of s pid (uva + j) ≢ x)
        → load_byte after x ≡ load_byte m x
    unfolding after
    after-else x other =
        let p = frame_of s pid uva in
        let b : (leb p x && ltb x (p + size)) ≡ false = elim (dec_lt x p) [
          | yes lt ↦ ground arith
          | no ge ↦ elim (dec_lt x (p + size)) [
            | no out ↦ ground arith
            | yes lt ↦
                absurd (other (x - p) (omega arith) (in_frame (x - p) (omega arith) ∙ omega arith))
          ]
        ] in
        load_byte-store_bytes p size (λ j. src (done + j)) m x
        ∙ ap (λ b. if b then src (done + (x - p)) % 256 else load_byte m x) b

    -- One round.
    round :
        (fuel : ℕ)
        → uva + len < 2 ^ 32
        → each_page (move_out src) pid (suc fuel) uva len done tt (at m)
          ≡ each_page (move_out src) pid fuel (uva + size) (len - size) (done + size) tt (at after)
    unfolding each_page move_page after size HasTables
    round fuel small =
        let word = h.present.word uva lo (omega arith) in
        let e = entry-memory s m pid uva (t uva lo (omega arith)) in
        let there =
          present_entry-there (at m) pid uva
            (omega (arith, e, h.present.there uva lo (omega arith)))
          ∙ ap (λ e. ok (e, at m)) e in
        let n : share (entry s pid uva) uva len ≡ size = share-page s pid uva len word in
        let p : physical (entry s pid uva) uva ≡ frame_of s pid uva =
          physical-frame_of s pid uva word in
        let next : (uva + size) % 2 ^ 32 ≡ uva + size = omega arith in
        let more : (len == 0) ≡ false = ground arith in
        let step = λ (v n pa : ℕ).
          each_page (move_out src) pid fuel v (len - n) (done + n) tt
            (at (store_bytes pa n (λ j. src (done + j)) m)) in
        let body = λ (e : ℕ).
          move_page (move_out src) (physical e uva) done (share e uva len) tt
          >>= each_page (move_out src) pid fuel ((uva + share e uva len) % 2 ^ 32)
              (len - share e uva len) (done + share e uva len) in
        ap (λ b. if b then ok ((done, tt), at m) else (present_entry pid uva >>= body) (at m)) more
        ∙ bind_ok (present_entry pid uva) body (at m) (at m) (entry s pid uva) there
        ∙ ap (λ n. step ((uva + n) % 2 ^ 32) n (physical (entry s pid uva) uva)) n
        ∙ ap (λ v. step v size (physical (entry s pid uva) uva)) next
        ∙ ap (step (uva + size) size) p

    -- A round and the rest.
    round-IsCopied :
        (m' : ℕ → ℕ)
        → IsCopied (uva + size) (len - size) (done + size) after m'
        → IsCopied uva len done m m'
    unfolding size
    round-IsCopied m' r = record {
      tables = r.tables;
      moved = λ j lt. elim (dec_lt j size) [
        | yes here ↦
            r.kept (frame_of s pid (uva + j)) (λ i i_lt e.
              let same =
                h.apart (uva + size + i) (uva + j) (omega arith) (omega arith) (omega arith)
                  (omega arith) e in
              omega (arith, same))
            ∙ after-here j here
        | no later ↦
            let a : uva + j ≡ uva + size + (j - size) = omega arith in
            let b : done + size + (j - size) ≡ done + j = omega arith in
            ap (λ v. load_byte m' (frame_of s pid v)) a
            ∙ r.moved (j - size) (omega arith)
            ∙ ap (λ k. src k % 256) b
      ];
      kept = λ x other.
          r.kept x (λ j lt e.
            let a : uva + size + j ≡ uva + (size + j) = omega arith in
            other (size + j) (omega arith) (ap (frame_of s pid) (sym a) ∙ e))
          ∙ after-else x (λ j lt. other j (omega arith));
    }

  stop :
      (fuel uva len done : ℕ) (m : ℕ → ℕ)
      → len ≡ 0
      → each_page (move_out src) pid fuel uva len done tt (at m) ≡ ok ((done + len, tt), at m)
  unfolding each_page
  stop zero uva len done m z = ground arith
  stop (suc fuel) uva len done m z = ground arith

  nothing : (uva len done : ℕ) (m : ℕ → ℕ) → len ≡ 0 → HasTables m → IsCopied uva len done m m
  nothing uva len done m z t = record {
    tables = t;
    moved = λ j lt. absurd (omega arith);
    kept = λ x other. refl;
  }

  each_page-IsCopied :
      (fuel uva len done : ℕ) (m : ℕ → ℕ)
      → u0 ≤ uva
      → uva + len ≤ u0 + len0
      → uva + len < 2 ^ 32
      → len ≤ fuel
      → HasTables m
      → (m' : ℕ → ℕ) × (each_page (move_out src) pid fuel uva len done tt (at m)
          ≡ ok ((done + len, tt), at m'))
        × IsCopied uva len done m m'
  unfolding size
  each_page-IsCopied zero uva len done m lo hi small enough t =
      (m, stop zero uva len done m (omega arith), nothing uva len done m (omega arith) t)
  each_page-IsCopied (suc fuel) uva len done m lo hi small enough t = elim (ℕ_discrete len 0) [
    | yes z ↦ (m, stop (suc fuel) uva len done m z, nothing uva len done m z t)
    | no nz ↦
        let on : 0 < len = omega arith in
        let n = size uva len done m lo hi on t in
        let (m', e, r) =
          each_page-IsCopied fuel (uva + n) (len - n) (done + n) (after uva len done m lo hi on t)
            (omega arith) (omega arith) (omega arith) (omega arith)
            (after-HasTables uva len done m lo hi on t) in
        let all : done + n + (len - n) ≡ done + len = omega arith in
        (
          m',
          round uva len done m lo hi on t fuel small ∙ e ∙ ap (λ k. ok ((k, tt), at m')) all,
          round-IsCopied uva len done m lo hi on t m' r,
        )
  ]

-- Let a range of user addresses of a process have its pages there, all different and none of them with a page table
-- entry of the range, and let the buffer of the kernel end below the end of the user's addresses. Then
-- `pt_copyout` returns the length of the range and changes nothing but the memory: byte `j` of
-- the buffer is at the physical address of byte `j` of the range, and every byte at any other
-- physical address is as before.
pub pt_copyout-moves :
    (s : Vmm) (pid uva len kva : ℕ) (src : Bytes)
    → IsPrivate s pid uva len
    → 0x4000_0000 ≤ uva
    → uva + len ≤ 0xf000_0000
    → kva + len ≤ 0xf000_0000
    → (m : ℕ → ℕ) × (pt_copyout kva src pid uva len s ≡ ok (len, record s { memory = m }))
      × ((j : ℕ) → j < len → load_byte m (frame_of s pid (uva + j)) ≡ src j % 256)
      × ((x : ℕ)
          → ((j : ℕ) → j < len → frame_of s pid (uva + j) ≢ x)
          → load_byte m x ≡ load_byte s.memory x)
unfolding pt_copyout HasTables
pt_copyout-moves s pid uva len kva src h lo hi k_hi =
    let fits : in_bounds uva kva len ≡ true = ground arith in
    let (m, e, c) =
      each_page-IsCopied s pid uva len src h len uva len 0 s.memory (omega arith) (omega arith)
        (omega arith) (omega arith) (λ a _ _. refl) in
    let zero_done : 0 + len ≡ len = omega arith in
    let loop = each_page (move_out src) pid len uva len 0 tt in
    let k : ℕ × Unit {0} → Call Vmm ℕ = λ r. pure r.0 in
    (
      m,
      ap (λ b. if b then (loop >>= k) s else ok (0, s)) fits
          ∙ bind_ok loop k s (record s { memory = m }) (0 + len, tt) e
          ∙ ap (λ n. ok (n, record s { memory = m })) zero_done,
      λ j lt. let z : 0 + j ≡ j = omega arith in c.moved j lt ∙ ap (λ j. src j % 256) z,
      c.kept,
    )
