-- ===== src/Base/Arrays.antt =====
-- C arrays as functions from the index, and the counted loops that fill them.
use Prim.Native.Nat.{ℕ, zero, suc, ◌+◌, ◌≤◌, ◌<◌}
use mathlib.Core.Path.{◌≡◌, subst}
use native.Mathlib.Omega.{arith}
use mcertikos.Base.Tests.{◌==◌, if◌then◌else◌}

-- `a[i] = v`
abbrev pub update {ℓ} : {A : Type ℓ} → (ℕ → A) → ℕ → A → ℕ → A
update f i v j = if i == j then v else f j

-- `for (k = from; k < from + rounds; k++) s = step(k, s)`
unfoldable pub for_range {ℓ} : {S : Type ℓ} → ℕ → ℕ → (ℕ → S → S) → S → S
for_range zero from step s = s
for_range (suc rounds) from step s = let t = step from s in for_range rounds (from + 1) step t

-- A property that each round hands on, from the first index to the end `to`, holds at the end.
pub for_range_inv {ℓ κ} :
    {S : Type ℓ} (Holds : ℕ → S → Type κ) (step : ℕ → S → S) (rounds from to : ℕ) (s : S)
    → from + rounds ≡ to
    → ((k : ℕ) (t : S) → from ≤ k → k < to → Holds k t → Holds (k + 1) (step k t))
    → Holds from s
    → Holds to (for_range rounds from step s)
unfolding for_range
for_range_inv Holds step zero from to s e round h = subst (λ k. Holds k s) (omega arith) h
for_range_inv Holds step (suc rounds) from to s e round h =
    for_range_inv Holds step rounds (from + 1) to (step from s) (omega arith)
      (λ k t lo hi. round k t (omega arith) hi) (round from s (omega arith) (omega arith) h)
