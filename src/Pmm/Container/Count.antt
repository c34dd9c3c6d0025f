-- ===== src/Pmm/Container/Count.antt =====
-- The number of free pages, and what marking one page does to it.
use mcertikos.Base.{
  ℕ, zero, suc, ◌+◌, ◌^◌, ◌≤◌, ◌<◌, ◌≡◌, refl, ◌∙◌, Bool, true, false, arith, ◌==◌, if◌then◌else◌,
  for_range, ap,
}
use native.Mathlib.Decide.{ℕ_discrete}
use native.Mathlib.Numerals.{add-one}
use mcertikos.Pmm.AllocTable.{Pmm}
use mcertikos.Pmm.Palloc.{is_free}
use mcertikos.Pmm.Container.{count_quota}

-- How many of the first `n` indices pass the test.
abbrev pub count : (ℕ → Bool) → ℕ → ℕ
count f zero = 0
count f (suc n) = count f n + (if f n then 1 else 0)

pub count-le : (f : ℕ → Bool) (n : ℕ) → count f n ≤ n
count-le f zero = omega arith
count-le f (suc n) = ground (arith, count-le f n)

pub count_ext : (f g : ℕ → Bool) (n : ℕ) → ((i : ℕ) → i < n → f i ≡ g i) → count f n ≡ count g n
count_ext f g zero h = refl
count_ext f g (suc n) h =
    ground (arith, count_ext f g n (λ i lt. h i (omega arith)), h n (omega arith))

-- Two tests that differ at `p` alone, where the first holds.
pub count_drop :
    (f g : ℕ → Bool) (n p : ℕ)
    → p < n
    → f p ≡ true
    → ((i : ℕ) → g i ≡ (if p == i then false else f i))
    → count g n + 1 ≡ count f n
count_drop f g zero p lt fp h = absurd (omega arith)
count_drop f g (suc n) p lt fp h = elim (ℕ_discrete p n) [
  | yes e ↦ ground (arith, h n, count_ext g f n (λ i lt'. ground (arith, h i)))
  | no ne ↦ ground (arith, h n, count_drop f g n p (omega arith) fp h)
]

pub count_none : (f : ℕ → Bool) (n : ℕ) → ((i : ℕ) → i < n → f i ≡ false) → count f n ≡ 0
count_none f zero h = refl
count_none f (suc n) h =
    ground (arith, count_none f n (λ i lt. h i (omega arith)), h n (omega arith))

count_quota_step :
    (p : Pmm) (i : ℕ)
    → i + 1 < 2 ^ 32
    → count_quota p i (count (is_free p) i) ≡ count (is_free p) (i + 1)
unfolding count_quota
count_quota_step p i h = rw add-one (ground (arith, count-le (is_free p) i))

-- The counting loop from index `i` on, while no sum wraps.
pub count_quota-count :
    (p : Pmm) (n i j acc : ℕ)
    → acc ≡ count (is_free p) i
    → i + n ≡ j
    → j < 2 ^ 32
    → for_range n i (count_quota p) acc ≡ count (is_free p) j
unfolding for_range
count_quota-count p zero i j acc e eq h = e ∙ ap (count (is_free p)) (omega arith)
count_quota-count p (suc n) i j acc e eq h =
    count_quota-count p n (i + 1) j (count_quota p i acc)
      (ap (count_quota p i) e ∙ count_quota_step p i (omega arith)) (omega arith) h
