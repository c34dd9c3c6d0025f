-- ===== src/Fs/Block/Bits.antt =====
-- The bits of a word, by halving: `w & (1 << k)`, `w | (1 << k)` and `w & ~(1 << k)`.
use mcertikos.Base.{
  ℕ, zero, suc, ◌+◌, ◌-◌, ◌*◌, ◌/◌, ◌%◌, ◌≡◌, ◌<◌, ap, ◌∙◌, arith, ◌==◌, if◌then◌else◌,
}

-- The bit, as 0 or 1.
unfoldable pub bit_at : ℕ → ℕ → ℕ
bit_at zero w = w % 2
bit_at (suc k) w = bit_at k (w / 2)

unfoldable pub with_bit : ℕ → ℕ → ℕ
with_bit zero w = w - w % 2 + 1
with_bit (suc k) w = w % 2 + 2 * with_bit k (w / 2)

unfoldable pub without_bit : ℕ → ℕ → ℕ
without_bit zero w = w - w % 2
without_bit (suc k) w = w % 2 + 2 * without_bit k (w / 2)

pub bit_at-with_bit : (j k w : ℕ) → bit_at j (with_bit k w) ≡ (if k == j then 1 else bit_at j w)
unfolding bit_at with_bit
bit_at-with_bit zero zero w = ground arith
bit_at-with_bit zero (suc k) w = ground arith
bit_at-with_bit (suc j) zero w =
    let e : (w - w % 2 + 1) / 2 ≡ w / 2 = omega arith in ap (bit_at j) e ∙ ground arith
bit_at-with_bit (suc j) (suc k) w =
    let e : (w % 2 + 2 * with_bit k (w / 2)) / 2 ≡ with_bit k (w / 2) = omega arith in
    ap (bit_at j) e ∙ bit_at-with_bit j k (w / 2) ∙ ground arith

pub bit_at-without_bit :
    (j k w : ℕ) → bit_at j (without_bit k w) ≡ (if k == j then 0 else bit_at j w)
unfolding bit_at without_bit
bit_at-without_bit zero zero w = ground arith
bit_at-without_bit zero (suc k) w = ground arith
bit_at-without_bit (suc j) zero w =
    let e : (w - w % 2) / 2 ≡ w / 2 = omega arith in ap (bit_at j) e ∙ ground arith
bit_at-without_bit (suc j) (suc k) w =
    let e : (w % 2 + 2 * without_bit k (w / 2)) / 2 ≡ without_bit k (w / 2) = omega arith in
    ap (bit_at j) e ∙ bit_at-without_bit j k (w / 2) ∙ ground arith

pub bit_at-lt : (k w : ℕ) → bit_at k w < 2
unfolding bit_at
bit_at-lt zero w = omega arith
bit_at-lt (suc k) w = bit_at-lt k (w / 2)
