-- ===== src/Strings/Compare.antt =====
-- What the comparing and copying loops of kern/lib/string.c decide.
use mcertikos.Base.{
  ℕ, zero, suc, ◌+◌, ◌-◌, ◌≤◌, ◌<◌, ◌≡◌, ◌≢◌, ◌↔◌, ◌⊎◌, inl, inr, refl, sym, ap, ◌∙◌, arith, ◌&&◌,
  ltb, leb, if◌then◌else◌, update, for_range_inv,
}
use native.Mathlib.Decide.{ℕ_discrete}
use mcertikos.Strings.Blocks.{IsBlock}
use mcertikos.Strings.{Bytes, strncmp, strnlen, memcmp, pad_zero, strncpy}

-- Every location holds a byte.
abbrev pub IsBytes : Bytes → Type 0
IsBytes m = (a : ℕ) → m a < 256

-- One byte under two names of its address.
shift : (m : Bytes) (s k a : ℕ) → s + k ≡ a → m (s + k) ≡ m a
shift m s k a e = ap m e

block_first : (m : Bytes) (p q : ℕ) → m (p + 0) ≡ m (q + 0) → m p ≡ m q
block_first m p q e = ap m (omega arith) ∙ e ∙ ap m (omega arith)

block_next :
    (m : Bytes) (p q k : ℕ) → m (p + (k + 1)) ≡ m (q + (k + 1)) → m (p + 1 + k) ≡ m (q + 1 + k)
block_next m p q k e = ap m (omega arith) ∙ e ∙ ap m (omega arith)

block_at :
    (m : Bytes) (p q k : ℕ)
    → m p ≡ m q
    → ((k' : ℕ) → k ≡ k' + 1 → m (p + 1 + k') ≡ m (q + 1 + k'))
    → m (p + k) ≡ m (q + k)
block_at m p q k first next = elim (ℕ_discrete k 0) [
  | yes z ↦ ap m (omega arith) ∙ first ∙ ap m (omega arith)
  | no nz ↦ ap m (omega arith) ∙ next (k - 1) (omega arith) ∙ ap m (omega arith)
]

-- The length of the string at `s`, at most `size`: no zero below it, and a zero at it if it is smaller.
pub strnlen_lem :
    (m : Bytes) (s size : ℕ)
    → let r = strnlen m s size in
      (r ≤ size) × ((k : ℕ) → k < r → m (s + k) ≢ 0) × (r < size → m (s + r) ≡ 0)
unfolding strnlen
strnlen_lem m s zero = (omega arith, λ k lt. absurd (omega arith), λ lt. absurd (omega arith))
strnlen_lem m s (suc size) =
    let (a, b, c) = strnlen_lem m (s + 1) size in
    elim (ℕ_discrete (m s) 0) [
      | yes z ↦ (ground arith, λ k lt. ground arith, λ lt. z_at z (ground arith))
      | no nz ↦
          let e : strnlen m s (suc size) ≡ strnlen m (s + 1) size + 1 = ground arith in
          (
            omega (arith, e, a),
            λ k lt. elim (ℕ_discrete k 0) [
              | yes w ↦ λ q. nz (sym (shift m s k s (omega arith)) ∙ q)
              | no nw ↦ λ q.
                  b (k - 1) (omega (arith, e)) (shift m (s + 1) (k - 1) (s + k) (omega arith) ∙ q)
            ],
            λ lt.
                shift m s (strnlen m s (suc size)) (s + 1 + strnlen m (s + 1) size)
                  (omega (arith, e))
                ∙ c (omega (arith, e)),
          )
    ]
  where
    z_at : m s ≡ 0 → strnlen m s (suc size) ≡ 0 → m (s + strnlen m s (suc size)) ≡ 0
    z_at z e = ap (λ r. m (s + r)) e ∙ ap m (omega arith) ∙ z

-- Two blocks compare equal exactly if they hold the same bytes.
pub memcmp_iff :
    (m : Bytes) (s1 s2 n : ℕ)
    → IsBytes m
    → (memcmp m s1 s2 n ≡ 0) ↔ ((k : ℕ) → k < n → m (s1 + k) ≡ m (s2 + k))
unfolding memcmp
memcmp_iff m s1 s2 zero b = (λ e k lt. absurd (omega arith), λ h. refl)
memcmp_iff m s1 s2 (suc n) b =
    let (to, of) = memcmp_iff m (s1 + 1) (s2 + 1) n b in
    (
      λ e k lt.
          let first : m s1 ≡ m s2 = ground (arith, b s1, b s2) in
          let rest : memcmp m (s1 + 1) (s2 + 1) n ≡ 0 = ground arith in
          block_at m s1 s2 k first (λ k' lt'. to rest k' (omega arith)),
      λ h.
          let first : m s1 ≡ m s2 = block_first m s1 s2 (h 0 (omega arith)) in
          let rest : memcmp m (s1 + 1) (s2 + 1) n ≡ 0 =
            of (λ k lt. block_next m s1 s2 k (h (k + 1) (omega arith))) in
          ground arith,
    )

-- Two strings compare equal in their first `n` bytes exactly if they agree up to there or up to a zero
-- in both.
pub strncmp_iff :
    (m : Bytes) (p q n : ℕ)
    → IsBytes m
    → (strncmp m p q n ≡ 0)
      ↔ ((k : ℕ) → k < n → ((j : ℕ) → j < k → m (p + j) ≢ 0) → m (p + k) ≡ m (q + k))
unfolding strncmp
strncmp_iff m p q zero b = (λ e k lt z. absurd (omega arith), λ h. refl)
strncmp_iff m p q (suc n) b =
    let (to, of) = strncmp_iff m (p + 1) (q + 1) n b in
    (
      λ e k lt nz.
          let first : m p ≡ m q = ground (arith, b p, b q) in
          elim (ℕ_discrete k 0) [
            | yes z ↦ shift m p k p (omega arith) ∙ first ∙ sym (shift m q k q (omega arith))
            | no later ↦
                let used : m p ≢ 0 = λ z. nz 0 (omega arith) (shift m p 0 p (omega arith) ∙ z) in
                let rest : strncmp m (p + 1) (q + 1) n ≡ 0 = ground arith in
                shift m p k (p + 1 + (k - 1)) (omega arith)
                ∙ to rest (k - 1) (omega arith) (λ j j_lt z.
                  nz (j + 1) (omega arith) (shift m p (j + 1) (p + 1 + j) (omega arith) ∙ z))
                ∙ shift m (q + 1) (k - 1) (q + k) (omega arith)
          ],
      λ h.
          let first : m p ≡ m q =
            block_first m p q (h 0 (omega arith) (λ j lt. absurd (omega arith))) in
          elim (ℕ_discrete (m p) 0) [
            | yes z ↦ ground arith
            | no nz ↦
                let rest : strncmp m (p + 1) (q + 1) n ≡ 0 = of (λ k lt before. block_next m p q k (
                  h (k + 1) (omega arith) (λ j j_lt. elim (ℕ_discrete j 0) [
                    | yes w ↦ λ z. nz (sym (shift m p j p (omega arith)) ∙ z)
                    | no later ↦ λ z.
                        before (j - 1) (omega arith)
                          (shift m (p + 1) (j - 1) (p + j) (omega arith) ∙ z)
                  ]))) in
                ground arith
          ],
    )

pad_zero-at :
    (s n : ℕ) (m : Bytes) (a : ℕ) → pad_zero s n m a ≡ (if leb s a && ltb a (s + n) then 0 else m a)
unfolding pad_zero
pad_zero-at s n m a =
    for_range_inv (λ k t. (a : ℕ) → t a ≡ (if leb s a && ltb a (s + k) then 0 else m a))
      (λ k t. update t (s + k) 0) n 0 n m (omega arith) (λ k t lo hi h a. ground (arith, h a))
      (λ a. ground arith) a

-- A store outside of a block does not change its length.
strnlen-update :
    (m : Bytes) (t n a v : ℕ) → (a < t) ⊎ (t + n ≤ a) → strnlen (update m a v) t n ≡ strnlen m t n
unfolding strnlen
strnlen-update m t zero a v out = refl
strnlen-update m t (suc n) a v out =
    let off : update m a v t ≡ m t = ground arith in
    ground (arith, off, strnlen-update m (t + 1) n a v (further a t n out))
  where
    further : (a t n : ℕ) → (a < t) ⊎ (t + suc n ≤ a) → (a < t + 1) ⊎ (t + 1 + n ≤ a)
    further a t n (inl lt) = inl (omega arith)
    further a t n (inr le) = inr (omega arith)

-- The bytes that `strncpy` writes: those of the string, then zeros.
abbrev pub padded : Bytes → ℕ → ℕ → ℕ → ℕ
padded m t n k = if ltb k (strnlen m t n) then m (t + k) else 0

strnlen-zero : (m : Bytes) (t n : ℕ) → m t ≡ 0 → strnlen m t (suc n) ≡ 0
unfolding strnlen
strnlen-zero m t n z = ground arith

strnlen-more : (m : Bytes) (t n : ℕ) → m t ≢ 0 → strnlen m t (suc n) ≡ strnlen m (t + 1) n + 1
unfolding strnlen
strnlen-more m t n nz = ground arith

-- The block behind the first byte of the string.
padded_next :
    (s t n k : ℕ) (m : Bytes)
    → (s + suc n ≤ t) ⊎ (t + suc n ≤ s)
    → m t ≢ 0
    → k < n
    → padded (update m s (m t)) (t + 1) n k ≡ padded m t (suc n) (k + 1)
padded_next s t n k m apart nz lt =
    let len = strnlen-more m t n nz in
    let same = strnlen-update m (t + 1) n s (m t) (ground arith) in
    let off : update m s (m t) (t + 1 + k) ≡ m (t + 1 + k) = ground arith in
    let next : m (t + 1 + k) ≡ m (t + (k + 1)) = ap m (omega arith) in
    ground (arith, len, same, off, next)

padded_first : (m : Bytes) (t n : ℕ) → m t ≢ 0 → padded m t (suc n) 0 ≡ m t
padded_first m t n nz =
    let len = strnlen-more m t n nz in
    let first : m (t + 0) ≡ m t = ap m (omega arith) in ground (arith, len, first)

padded_step :
    (s t n : ℕ) (m : Bytes)
    → (s + suc n ≤ t) ⊎ (t + suc n ≤ s)
    → m t ≢ 0
    → (a : ℕ)
    → (if leb (s + 1) a && ltb a (s + 1 + n)
        then padded (update m s (m t)) (t + 1) n (a - (s + 1))
        else update m s (m t) a)
      ≡ (if leb s a && ltb a (s + suc n) then padded m t (suc n) (a - s) else m a)
padded_step s t n m apart nz a = elim (ℕ_discrete a s) [
  | yes e ↦
      let len = strnlen-more m t n nz in
      let zero_off : a - s ≡ 0 = omega arith in
      let first : padded m t (suc n) (a - s) ≡ m t =
        ap (padded m t (suc n)) zero_off ∙ padded_first m t n nz in
      ground (arith, first)
  | no ne ↦
      let index : s < a → a - (s + 1) + 1 ≡ a - s = λ lt. omega arith in
      ground (
        arith,
        λ (lt : s < a). ap (padded m t (suc n)) (index lt),
        padded_next s t n (a - (s + 1)) m apart nz,
      )
]

-- If the source and the destination do not overlap, `strncpy` writes the bytes of the source up to its
-- zero or to the size, fills the rest of the destination with zeros, and changes nothing else.
pub strncpy_lem :
    (s t n : ℕ) (m : Bytes)
    → (s + n ≤ t) ⊎ (t + n ≤ s)
    → IsBlock s n (padded m t n) m (strncpy s t n m)
unfolding strncpy
strncpy_lem s t zero m apart a = ground arith
strncpy_lem s t (suc n) m apart a = elim (ℕ_discrete (m t) 0) [
  | yes z ↦
      let len : strnlen m t (suc n) ≡ 0 = strnlen-zero m t n z in
      let other : padded m t (suc n) (a - s) ≡ 0 = ground (arith, len) in
      ground (arith, other, pad_zero-at (s + 1) n (update m s (m t)) a)
  | no nz ↦
      let m' = update m s (m t) in
      let further : (s + 1 + n ≤ t + 1) ⊎ (t + 1 + n ≤ s + 1) = ground arith in
      let h = strncpy_lem (s + 1) (t + 1) n m' further a in
      let same : strncpy s t (suc n) m a ≡ strncpy (s + 1) (t + 1) n m' a = ground arith in
      same ∙ h ∙ padded_step s t n m apart nz a
]
