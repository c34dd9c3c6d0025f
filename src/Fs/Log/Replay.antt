-- ===== src/Fs/Log/Replay.antt =====
-- What a log does to the blocks of the disk when it is replayed, and that a replay may be cut and
-- started again.
use mcertikos.Base.{ℕ, zero, suc, ◌≤◌, ◌<◌, ◌≡◌, ◌≢◌, refl, ap, ◌∙◌, arith, ◌==◌, if◌then◌else◌}
use native.Mathlib.Decide.{ℕ_discrete}
use mcertikos.Fs.Disk.{Block}

-- The first `n` blocks of a log, written home in their order.
unfoldable pub replay : (ℕ → ℕ) → (ℕ → Block) → ℕ → (ℕ → Block) → ℕ → Block
replay target from zero m = m
replay target from (suc n) m =
    let rest = replay target from n m in λ a. if target n == a then from n else rest a

module _ (target : ℕ → ℕ) (from : ℕ → Block) where
  pub replay-suc :
      (n : ℕ) (m : ℕ → Block) (a : ℕ)
      → replay target from (suc n) m a
        ≡ (if target n == a then from n else replay target from n m a)
  unfolding replay
  replay-suc n m a = refl

  pub replay_none : (n : ℕ) (m : ℕ → Block) (a : ℕ) → n ≡ 0 → replay target from n m a ≡ m a
  unfolding replay
  replay_none zero m a e = refl
  replay_none (suc n) m a e = absurd (omega arith)

  pub replay_same :
      (n : ℕ) (m k : ℕ → Block) (a : ℕ)
      → m a ≡ k a
      → replay target from n m a ≡ replay target from n k a
  unfolding replay
  replay_same zero m k a e = e
  replay_same (suc n) m k a e =
      ap (λ b. if target n == a then from n else b) (replay_same n m k a e)

  pub replay_away :
      (n : ℕ) (m : ℕ → Block) (a : ℕ)
      → ((i : ℕ) → i < n → target i ≢ a)
      → replay target from n m a ≡ m a
  unfolding replay
  replay_away zero m a away = refl
  replay_away (suc n) m a away =
      ground (arith, away n (omega arith), replay_away n m a (λ i lt. away i (omega arith)))

  -- A replay that was cut after `j` blocks and is run again from the start ends like a whole one.
  pub replay_again :
      (n j : ℕ) (m : ℕ → Block) (a : ℕ)
      → j ≤ n
      → replay target from n (replay target from j m) a ≡ replay target from n m a
  unfolding replay
  replay_again zero zero m a le = refl
  replay_again zero (suc j) m a le = absurd (omega arith)
  replay_again (suc n) j m a le = elim (ℕ_discrete (target n) a) [
    | yes hit ↦ ground arith
    | no miss ↦ elim (ℕ_discrete j (suc n)) [
      | yes last ↦ ground (
        arith,
        last,
        replay_same n (replay target from j m) (replay target from n m) a
            (ap (λ j. replay target from j m a) last ∙ ground arith),
        replay_again n n m a (omega arith),
      )
      | no more ↦ ground (arith, replay_again n j m a (omega arith))
    ]
  ]

-- The same targets and blocks give the same replay.
pub replay_congr :
    (target target' : ℕ → ℕ) (from from' : ℕ → Block) (n : ℕ) (m : ℕ → Block) (a : ℕ)
    → ((i : ℕ) → i < n → target i ≡ target' i)
    → ((i : ℕ) → i < n → from i ≡ from' i)
    → replay target from n m a ≡ replay target' from' n m a
unfolding replay
replay_congr target target' from from' zero m a t f = refl
replay_congr target target' from from' (suc n) m a t f =
    ap (λ x. if x == a then from n else replay target from n m a) (t n (omega arith))
    ∙ ap (λ x. if target' n == a then x else replay target from n m a) (f n (omega arith))
    ∙ ap (λ x. if target' n == a then from' n else x)
        (replay_congr target target' from from' n m a (λ i lt. t i (omega arith))
          (λ i lt. f i (omega arith)))
