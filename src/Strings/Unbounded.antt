-- ===== src/Strings/Unbounded.antt =====
-- `strcmp` and `strchr`, which go on to a zero.
use mcertikos.Base.{ℕ, zero, suc, ◌+◌, ◌-◌, ◌<◌, ◌≡◌, ◌≢◌, refl, sym, ap, ◌∙◌, arith, ok}
use native.Mathlib.Decide.{ℕ_discrete}
use mcertikos.Strings.{Bytes, strncmp, strcmp, strchr}

-- The zero at `k` lies one earlier in the rest of the string.
next_zero : (m : Bytes) (p k : ℕ) → m (p + k) ≡ 0 → m p ≢ 0 → (0 < k) × (m (p + 1 + (k - 1)) ≡ 0)
next_zero m p k z nz = elim (ℕ_discrete k 0) [
  | yes e ↦ absurd (nz (ap m (omega arith) ∙ z))
  | no ne ↦ (omega arith, ap m (omega arith) ∙ z)
]

-- If the first string has a zero below the number of rounds, then `strcmp` returns, with the result of
-- `strncmp` for that size.
pub strcmp-strncmp :
    (m : Bytes) (p q n k : ℕ) → m (p + k) ≡ 0 → k < n → strcmp m p q n ≡ ok (strncmp m p q n)
unfolding strcmp strncmp
strcmp-strncmp m p q zero k z lt = absurd (omega arith)
strcmp-strncmp m p q (suc n) k z lt = elim (ℕ_discrete (m p) 0) [
  | yes e ↦ ground arith
  | no nz ↦
      let (pos, z') = next_zero m p k z nz in
      ground (arith, strcmp-strncmp m (p + 1) (q + 1) n (k - 1) z' (omega arith))
]

-- What `strchr` finds for the byte `c` in the string at `s`.
pub data Finds (m : Bytes) (s c : ℕ) (r : ℕ) : Type 0 where
  found :
      (j : ℕ)
      → r ≡ s + j
      → m (s + j) ≡ c
      → ((i : ℕ) → i < j → (m (s + i) ≢ c) × (m (s + i) ≢ 0))
      → Finds m s c r
  absent :
      (j : ℕ)
      → r ≡ 0
      → m (s + j) ≡ 0
      → ((i : ℕ) → i < j → (m (s + i) ≢ c) × (m (s + i) ≢ 0))
      → Finds m s c r

one_more :
    (m : Bytes) (s c j : ℕ)
    → m s ≢ c
    → m s ≢ 0
    → ((i : ℕ) → i < j → (m (s + 1 + i) ≢ c) × (m (s + 1 + i) ≢ 0))
    → (i : ℕ) → i < j + 1
    → (m (s + i) ≢ c) × (m (s + i) ≢ 0)
one_more m s c j nc nz before i lt = elim (ℕ_discrete i 0) [
  | yes e ↦
      let here : m (s + i) ≡ m s = ap m (omega arith) in
      (λ z. nc (sym here ∙ z), λ z. nz (sym here ∙ z))
  | no ne ↦
      let (a, b) = before (i - 1) (omega arith) in
      let there : m (s + i) ≡ m (s + 1 + (i - 1)) = ap m (omega arith) in
      (λ z. a (sym there ∙ z), λ z. b (sym there ∙ z))
]

Finds-next : (m : Bytes) (s c r : ℕ) → m s ≢ c → m s ≢ 0 → Finds m (s + 1) c r → Finds m s c r
Finds-next m s c r nc nz (found j e at before) =
    found (j + 1) (omega (arith, e)) (ap m (omega arith) ∙ at) (one_more m s c j nc nz before)
Finds-next m s c r nc nz (absent j e at before) =
    absent (j + 1) e (ap m (omega arith) ∙ at) (one_more m s c j nc nz before)

-- If the string has a zero below the number of rounds, then `strchr` returns, for a byte other than
-- zero: the address of the first such byte, or the null pointer if there is none before the first zero.
pub strchr_total :
    (m : Bytes) (s c n k : ℕ)
    → c ≢ 0
    → m (s + k) ≡ 0
    → k < n
    → (r : ℕ) × (strchr m s c n ≡ ok r) × Finds m s c r
unfolding strchr
strchr_total m s c zero k nc z lt = absurd (omega arith)
strchr_total m s c (suc n) k nc z lt = elim (ℕ_discrete (m s) 0) [
  | yes e ↦
      (0, ground arith, absent 0 refl (ap m (omega arith) ∙ e) (λ i i_lt. absurd (omega arith)))
  | no nz ↦ elim (ℕ_discrete (m s) c) [
    | yes here ↦ (
      s,
      ground arith,
      found 0 (omega arith) (ap m (omega arith) ∙ here) (λ i i_lt. absurd (omega arith)),
    )
    | no away ↦
        let (pos, z') = next_zero m s k z nz in
        let (r, e, f) = strchr_total m (s + 1) c n (k - 1) nc z' (omega arith) in
        (r, ground (arith, e), Finds-next m s c r away nz f)
  ]
]
