-- ===== src/Base/Bits.antt =====
-- Bitwise operations on words: masks and disjoint unions as arithmetic.
use Prim.Native.Nat.{
  ℕ, zero, suc, ◌+◌, ◌-◌, ◌*◌, ◌/◌, ◌%◌, ◌^◌, ◌≤◌, ◌<◌, min, max, bit_and, bit_or, digits,
  bit_and-bitwise, bit_or-bitwise,
}
use mathlib.Core.Path.{◌≡◌, refl, ◌∙◌, ap}
use native.Mathlib.Omega.{arith}
use native.Mathlib.Nat.{pow-suc, div-div-eq-div-mul, div-add-mod}

-- The digit recursion does not depend on its count of digits to go, once that is large enough.
digits_count :
    (z : ℕ → ℕ) (f : ℕ → ℕ → ℕ) (n m a b : ℕ) → a ≤ n → a ≤ m → digits z f n a b ≡ digits z f m a b
digits_count z f zero zero zero b p q = refl
digits_count z f zero (suc m) zero b p q = refl
digits_count z f (suc n) zero zero b p q = refl
digits_count z f (suc n) (suc m) zero b p q = refl
digits_count z f zero m (suc a) b p q = absurd (omega arith)
digits_count z f (suc n) zero (suc a) b p q = absurd (omega arith)
digits_count z f (suc n) (suc m) (suc a) b p q =
    ap (λ r. r * 2 + f (suc a % 2) (b % 2))
      (digits_count z f n m (suc a / 2) (b / 2) (omega arith) (omega arith))

digits_halves :
    (z : ℕ → ℕ) (f : ℕ → ℕ → ℕ) (a b : ℕ)
    → digits z f (suc a) (suc a) b
      ≡ digits z f (suc a / 2) (suc a / 2) (b / 2) * 2 + f (suc a % 2) (b % 2)
digits_halves z f a b =
    ap (λ r. r * 2 + f (suc a % 2) (b % 2))
      (digits_count z f a (suc a / 2) (suc a / 2) (b / 2) (omega arith) (omega arith))

-- The lowest digit and the rest.
pub bit_and-halves : (a b : ℕ) → bit_and a b ≡ bit_and (a / 2) (b / 2) * 2 + min (a % 2) (b % 2)
bit_and-halves zero b = omega (arith, bit_and-bitwise 0 b, bit_and-bitwise 0 (b / 2))
bit_and-halves (suc a) b = omega (
  arith,
  bit_and-bitwise (suc a) b,
  bit_and-bitwise (suc a / 2) (b / 2),
  digits_halves (λ _. 0) min a b,
)

pub bit_or-halves : (a b : ℕ) → bit_or a b ≡ bit_or (a / 2) (b / 2) * 2 + max (a % 2) (b % 2)
bit_or-halves zero b = omega (arith, bit_or-bitwise 0 b, bit_or-bitwise 0 (b / 2))
bit_or-halves (suc a) b = omega (
  arith,
  bit_or-bitwise (suc a) b,
  bit_or-bitwise (suc a / 2) (b / 2),
  digits_halves (λ c. c) max a b,
)

bit_or-zero : (n a : ℕ) → a ≤ n → bit_or a 0 ≡ a
bit_or-zero zero a h = omega (arith, bit_or-bitwise 0 0, ap (λ x. bit_or x 0) (zero_of a h))
  where
    zero_of : (a : ℕ) → a ≤ 0 → a ≡ 0
    zero_of a h = omega arith
bit_or-zero (suc n) zero h = bit_or-bitwise 0 0
bit_or-zero (suc n) (suc a) h =
    omega (arith, bit_or-halves (suc a) 0, bit_or-zero n (suc a / 2) (omega arith))

pow-pos : (k : ℕ) → 0 < 2 ^ k
pow-pos zero = omega arith
pow-pos (suc k) = omega (arith, pow-suc 2 k, pow-pos k)

-- A number whose digits begin above those of another.
pub bit_or-shifted : (k a b : ℕ) → b < 2 ^ k → bit_or (a * 2 ^ k) b ≡ a * 2 ^ k + b
bit_or-shifted zero a b h =
    let z : b ≡ 0 = omega arith in rw z (bit_or-zero (a * 1) (a * 1) (omega arith) ∙ omega arith)
bit_or-shifted (suc k) a b h =
    let twice : a * 2 ^ suc k ≡ a * (2 ^ k * 2) = ap (λ t. a * t) (pow-suc 2 k) in
    let half : a * 2 ^ suc k / 2 ≡ a * 2 ^ k = omega (arith, twice) in
    omega (
      arith,
      twice,
      bit_or-halves (a * 2 ^ suc k) b,
      ap (λ x. bit_or x (b / 2)) half,
      bit_or-shifted k a (b / 2) (omega (arith, pow-suc 2 k)),
    )

and_zero_steps : (n a : ℕ) → a ≤ n → bit_and a 0 ≡ 0
and_zero_steps n zero h = bit_and-bitwise 0 0
and_zero_steps zero (suc a) h = absurd (omega arith)
and_zero_steps (suc n) (suc a) h =
    omega (arith, bit_and-halves (suc a) 0, and_zero_steps n (suc a / 2) (omega arith))

and_zero : (a : ℕ) → bit_and a 0 ≡ 0
and_zero a = and_zero_steps a a (omega arith)

mod_halves : (a m : ℕ) → a / 2 % m * 2 + a % 2 ≡ a % (2 * m)
mod_halves a m = omega (
  arith,
  div-add-mod (a / 2) m,
  div-add-mod a (2 * m),
  ap (λ q. m * q) (div-div-eq-div-mul a 2 m),
)

-- A mask of `k` ones takes the remainder by `2 ^ k`.
pub bit_and-mod : (k a : ℕ) → bit_and a (2 ^ k - 1) ≡ a % 2 ^ k
bit_and-mod zero a = omega (arith, and_zero a)
bit_and-mod (suc k) a =
    let half : (2 ^ suc k - 1) / 2 ≡ 2 ^ k - 1 = omega (arith, pow-suc 2 k) in
    let whole : 2 * 2 ^ k ≡ 2 ^ suc k = omega (arith, pow-suc 2 k) in
    omega (
      arith,
      pow-suc 2 k,
      pow-pos k,
      bit_and-halves a (2 ^ suc k - 1),
      ap (bit_and (a / 2)) half,
      bit_and-mod k (a / 2),
      mod_halves a (2 ^ k),
      ap (λ t. a % t) whole,
    )

-- A mask without the low digits.
pub bit_and-shifted : (k a m : ℕ) → bit_and a (m * 2 ^ k) ≡ bit_and (a / 2 ^ k) m * 2 ^ k
bit_and-shifted zero a m =
    let m_one : m * 1 ≡ m = omega arith in
    let a_one : a / 1 ≡ a = omega arith in
    omega (arith, ap (bit_and a) m_one, ap (λ t. bit_and t m) a_one)
bit_and-shifted (suc k) a m =
    let twice : m * 2 ^ suc k ≡ m * (2 ^ k * 2) = ap (λ t. m * t) (pow-suc 2 k) in
    let half : m * 2 ^ suc k / 2 ≡ m * 2 ^ k = omega (arith, twice) in
    let quot : a / 2 / 2 ^ k ≡ a / 2 ^ suc k =
      div-div-eq-div-mul a 2 (2 ^ k) ∙ ap (λ t. a / t) (omega (arith, pow-suc 2 k)) in
    omega (
      arith,
      twice,
      bit_and-halves a (m * 2 ^ suc k),
      ap (bit_and (a / 2)) half,
      bit_and-shifted k (a / 2) m,
      ap (λ t. bit_and t m * 2 ^ k) quot,
      ap (λ t. bit_and (a / 2 ^ suc k) m * t) (pow-suc 2 k),
    )

-- The masks of kern/vmm: the page of an address, and the index in a page table.
pub page_mask : (a : ℕ) → a < 2 ^ 32 → bit_and a 0xffff_f000 ≡ a / 4096 * 4096
page_mask a h = omega (arith, bit_and-shifted 12 a 0xf_ffff, bit_and-mod 20 (a / 4096))

pub index_mask : (a : ℕ) → bit_and a 0x3ff ≡ a % 1024
index_mask a = bit_and-mod 10 a
