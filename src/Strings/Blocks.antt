-- ===== src/Strings/Blocks.antt =====
-- `memset` and `memmove` as changes of a block.
use Prim.Native.Nat.{bit_and, bit_or}
use mcertikos.Base.{
  ℕ, zero, suc, ◌+◌, ◌-◌, ◌*◌, ◌/◌, ◌%◌, ◌^◌, ◌≤◌, ◌<◌, ◌≡◌, ap, ◌∙◌, arith, ◌&&◌, ltb, leb,
  if◌then◌else◌, update, for_range_inv, Bool-cases, inl, inr,
}
use mcertikos.Base.Bits.{bit_or-shifted, bit_and-mod}
use mcertikos.Strings.{
  Bytes, byte_of, store_word, stosb, stosl, shl, spread, memset, move_byte, move_word, movsb_up,
  movsl_up, movsb_down, movsl_down, memmove,
}

-- `m'` is `m` with the bytes of the block at `d` taken from `f`.
abbrev pub IsBlock : ℕ → ℕ → (ℕ → ℕ) → Bytes → Bytes → Type 0
IsBlock d n f m m' = (a : ℕ) → m' a ≡ (if leb d a && ltb a (d + n) then f (a - d) else m a)

stosb-IsBlock : (v c n : ℕ) (m : Bytes) → IsBlock v n (λ _. c) m (stosb v c n m)
unfolding stosb
stosb-IsBlock v c n m =
    for_range_inv (λ k t. IsBlock v k (λ _. c) m t) (λ k t. update t (v + k) c) n 0 n m
      (omega arith) (λ k t lo hi h a. ground (arith, h a)) (λ a. ground arith)

module _ (v w b n : ℕ) (m : Bytes) (all : (j : ℕ) → j < 4 → byte_of w j ≡ b) where
  stosl-IsBlock : IsBlock v (4 * n) (λ _. b) m (stosl v w n m)
  unfolding stosl
  stosl-IsBlock =
      for_range_inv (λ k t. IsBlock v (4 * k) (λ _. b) m t) (λ k t. store_word (v + 4 * k) w t) n 0
        n m (omega arith)
        (λ k t lo hi h a. ground (
          arith,
          h a,
          all 0 (omega arith),
          all 1 (omega arith),
          all 2 (omega arith),
          all 3 (omega arith),
        ))
        (λ a. ground arith)

spread_lem : (c : ℕ) → c < 256 → spread c ≡ c * 0x101_0101
spread_lem c lt =
    let a : shl c 24 ≡ c * 2 ^ 24 = omega arith in
    let b : shl c 16 ≡ c * 2 ^ 16 = omega arith in
    let d : shl c 8 ≡ c * 2 ^ 8 = omega arith in
    let two : bit_or (shl c 24) (shl c 16) ≡ (c * 257) * 2 ^ 16 =
      ap (λ x. bit_or x (shl c 16)) a
      ∙ bit_or-shifted 24 c (shl c 16) (omega arith)
      ∙ omega arith in
    let three : bit_or (bit_or (shl c 24) (shl c 16)) (shl c 8) ≡ (c * 65793) * 2 ^ 8 =
      ap (λ x. bit_or x (shl c 8)) two
      ∙ bit_or-shifted 16 (c * 257) (shl c 8) (omega arith)
      ∙ omega arith in
    ap (λ x. bit_or x c) three ∙ bit_or-shifted 8 (c * 65793) c (omega arith) ∙ omega arith

spread-byte : (c : ℕ) → c < 256 → (j : ℕ) → j < 4 → byte_of (spread c) j ≡ c
spread-byte c lt j j_lt = ap (λ w. byte_of w j) (spread_lem c lt) ∙ digit c j lt j_lt
  where
    digit : (c j : ℕ) → c < 256 → j < 4 → byte_of (c * 0x101_0101) j ≡ c
    digit c zero lt j_lt = omega arith
    digit c (suc zero) lt j_lt = omega arith
    digit c (suc (suc zero)) lt j_lt = omega arith
    digit c (suc (suc (suc zero))) lt j_lt = omega arith
    digit c (suc (suc (suc (suc j)))) lt j_lt = absurd (omega arith)

low_byte : (c : ℕ) → bit_and c 0xff ≡ c % 256
low_byte c = bit_and-mod 8 c

-- `memset` fills a block with the low byte of its argument, whether it stores words or bytes, and
-- changes nothing else.
pub memset-IsBlock : (v c n : ℕ) (m : Bytes) → IsBlock v n (λ _. c % 256) m (memset v c n m)
unfolding memset
memset-IsBlock v c n m a =
    let b : c % 256 < 256 = omega arith in
    let low : spread (bit_and c 0xff) ≡ spread (c % 256) = ap spread (low_byte c) in
    let words =
      stosl-IsBlock v (spread (c % 256)) (c % 256) (n / 4) m (spread-byte (c % 256) b) a in
    let same = ap (λ w. stosl v w (n / 4) m a) low in
    ground (arith, same, words, stosb-IsBlock v (c % 256) n m a)

move_word_at :
    (d s a : ℕ) (t : Bytes)
    → move_word d s t a ≡ (if leb d a && ltb a (d + 4) then t (s + (a - d)) else t a)
move_word_at d s a t = ground arith

module _ (d s : ℕ) (m : Bytes) where
  from : ℕ → ℕ
  from k = m (s + k)

  movsb_up-IsBlock : (n : ℕ) → (s < d → s + n ≤ d) → IsBlock d n from m (movsb_up d s n m)
  unfolding movsb_up from
  movsb_up-IsBlock n apart =
      for_range_inv (λ k t. IsBlock d k from m t) (λ k. move_byte (d + k) (s + k)) n 0 n m
        (omega arith) (λ k t lo hi h a. ground (arith, h a, h (s + k))) (λ a. ground arith)

  -- The last `k` bytes of the block have been moved.
  Down : ℕ → ℕ → Bytes → Type 0
  Down n k t = (a : ℕ) → t a ≡ (if leb (d + (n - k)) a && ltb a (d + n) then from (a - d) else m a)

  movsb_down-IsBlock : (n : ℕ) → s < d → IsBlock d n from m (movsb_down d s n m)
  unfolding movsb_down from Down
  movsb_down-IsBlock n lt a =
      let h =
        for_range_inv (Down n) (λ k. move_byte (d + (n - 1 - k)) (s + (n - 1 - k))) n 0 n m
          (omega arith) (λ k t lo hi h a. ground (arith, h a, h (s + (n - 1 - k))))
          (λ a. ground arith) in
      ground (arith, h a)

  movsl_up-IsBlock : (n : ℕ) → (s < d → s + 4 * n ≤ d) → IsBlock d (4 * n) from m (movsl_up d s n m)
  unfolding movsl_up from
  movsl_up-IsBlock n apart =
      for_range_inv (λ k t. IsBlock d (4 * k) from m t) (λ k. move_word (d + 4 * k) (s + 4 * k)) n 0
        n m (omega arith)
        (λ k t lo hi h a.
          let w = move_word_at (d + 4 * k) (s + 4 * k) a t in
          w ∙ ground (arith, h a, h (s + 4 * k + (a - (d + 4 * k)))))
        (λ a. ground arith)

  movsl_down-IsBlock : (n : ℕ) → s < d → IsBlock d (4 * n) from m (movsl_down d s n m)
  unfolding movsl_down from Down
  movsl_down-IsBlock n lt a =
      let h =
        for_range_inv (λ k. Down (4 * n) (4 * k))
          (λ k. move_word (d + 4 * (n - 1 - k)) (s + 4 * (n - 1 - k))) n 0 n m (omega arith)
          (λ k t lo hi h a.
            let j = 4 * (n - 1 - k) in
            let w = move_word_at (d + j) (s + j) a t in
            w ∙ ground (arith, h a, h (s + j + (a - (d + j)))))
          (λ a. ground arith) in
      ground (arith, h a)

-- For a source block that ends below `2 ^ 32`, `memmove` makes the destination a copy of what the
-- source block held, also where the two overlap and whether it moves words or bytes, and changes
-- nothing else.
pub memmove-IsBlock :
    (dst src n : ℕ) (m : Bytes)
    → src + n < 2 ^ 32
    → IsBlock dst n (λ k. m (src + k)) m (memmove dst src n m)
unfolding memmove from
memmove-IsBlock dst src n m hs a = elim (Bool-cases (ltb src dst && ltb dst ((src + n) % 2 ^ 32))) [
  | inl y ↦
      let lt : src < dst = ground arith in
      ground (arith, movsb_down-IsBlock dst src m n lt a, movsl_down-IsBlock dst src m (n / 4) lt a)
  | inr away ↦
      let apart : src < dst → src + n ≤ dst = λ lt. ground arith in
      ground (
        arith,
        movsb_up-IsBlock dst src m n apart a,
        movsl_up-IsBlock dst src m (n / 4) (λ lt. omega (arith, apart lt)) a,
      )
]
