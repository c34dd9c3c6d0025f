-- ===== src/Locks/Exclusion.antt =====
-- The reentrant lock excludes: one processor at a time.
use mcertikos.Base.{
  ℕ, ◌+◌, ◌-◌, ◌%◌, ◌^◌, ◌<◌, ◌≡◌, ◌≢◌, ◌⊎◌, inl, inr, refl, sym, ◌∙◌, arith, Bool, true, false,
  ◌==◌, if◌then◌else◌, update,
}
use mathlib.Core.Path.{subst}
use native.Mathlib.Decide.{ℕ_discrete}
use mcertikos.Locks.{
  Lock, unlocked, reentrantlock_init, cmpxchg, got, count_up, count_down, unlock, Place, between,
  entering, leaving, Machine, Step, Reachable, reentrantlock_try_acquire, reentrantlock_release,
}

-- A processor outside of the lock.
abbrev pub IsOutside : Place → Type 0
IsOutside (between d) = d ≡ 0
IsOutside (entering d) = ⊥
IsOutside leaving = ⊥

-- The count that goes with the place of the owner.
abbrev pub Counts : Place → ℕ → Type 0
Counts (between d) n = (d ≡ n) × (0 < n)
Counts (entering d) n = d ≡ n
Counts leaving n = n ≡ 0

-- A free lock has a count of 0 and no processor in it; a taken one belongs to a processor, whose place
-- goes with the count, and every other processor is outside.
pub record IsExclusive (s : Machine) : Type 0 where
  pub free : s.lk.lock ≡ unlocked → (s.lk.count ≡ 0) × ((c : ℕ) → IsOutside (s.at c))
  pub owned : s.lk.lock ≢ unlocked → Counts (s.at s.lk.lock) s.lk.count
  pub others : (c : ℕ) → s.lk.lock ≢ c → IsOutside (s.at c)
  pub word : s.lk.count < 2 ^ 32

at_self : (f : ℕ → Place) (c : ℕ) (p : Place) → update f c p c ≡ p
at_self f c p = ground arith

at_other : (f : ℕ → Place) (c e : ℕ) (p : Place) → c ≢ e → update f c p e ≡ f e
at_other f c e p ne = ground arith

-- Only the owner is not outside.
owner :
    (s : Machine) → IsExclusive s → (c : ℕ) (p : Place) → s.at c ≡ p → ¬ IsOutside p → s.lk.lock ≡ c
owner s x c p e inside = elim (ℕ_discrete s.lk.lock c) [
  | yes z ↦ z
  | no ne ↦ absurd (inside (subst IsOutside e (x.others c ne)))
]

-- The owner `c` of a lock moves to the place `p` with the count `n`.
moved :
    (s : Machine) (c n : ℕ) (p : Place)
    → IsExclusive s
    → s.lk.lock ≡ c
    → c < unlocked
    → n < 2 ^ 32
    → Counts p n
    → IsExclusive (record { lk = record s.lk { count = n }; at = update s.at c p })
moved s c n p x e lt n_lt k = record {
  free = λ z. absurd (omega arith);
  owned = λ ne.
      subst (λ o. Counts (update s.at c p o) n) (sym e)
        (subst (λ q. Counts q n) (sym (at_self s.at c p)) k);
  others = λ d ne. subst IsOutside (sym (at_other s.at c d p (λ z. ne (e ∙ z)))) (x.others d ne);
  word = n_lt;
}

-- The machine behind an exchange, with its two tests decided.
exchanged : ℕ → Machine → ℕ → Bool → Bool → Machine
exchanged c s d was_free taken = record {
  lk = if was_free then record s.lk { lock = c } else s.lk;
  at = if taken then update s.at c (entering d) else s.at;
}

-- The lock was free.
took_free :
    (c : ℕ) (s : Machine) (d : ℕ)
    → IsExclusive s
    → c < unlocked
    → s.at c ≡ between d
    → s.lk.lock ≡ unlocked
    → IsExclusive (exchanged c s d true true)
unfolding exchanged
took_free c s d x lt e z =
    let (none, out) = x.free z in
    let outside : d ≡ 0 = subst IsOutside e (out c) in
    record {
      free = λ w. absurd (omega arith);
      owned = λ ne.
          subst (λ p. Counts p s.lk.count) (sym (at_self s.at c (entering d))) (outside ∙ sym none);
      others = λ f ne. subst IsOutside (sym (at_other s.at c f (entering d) ne)) (out f);
      word = x.word;
    }

exchange-IsExclusive :
    (c : ℕ) (s : Machine) (d : ℕ)
    → IsExclusive s
    → c < unlocked
    → s.at c ≡ between d
    → IsExclusive (exchanged c s d (s.lk.lock == unlocked) (got c s.lk.lock))
unfolding exchanged
exchange-IsExclusive c s d x lt e = elim (ℕ_discrete s.lk.lock unlocked) [
  | yes z ↦
      let a : (s.lk.lock == unlocked) ≡ true = ground arith in
      let b : got c s.lk.lock ≡ true = ground arith in
      subst (λ b. IsExclusive (exchanged c s d (s.lk.lock == unlocked) b)) (sym b)
        (subst (λ a. IsExclusive (exchanged c s d a true)) (sym a) (took_free c s d x lt e z))
  | no nz ↦
      let a : (s.lk.lock == unlocked) ≡ false = ground arith in
      subst (λ a. IsExclusive (exchanged c s d a (got c s.lk.lock))) (sym a)
        (elim (ℕ_discrete s.lk.lock c) [
          | yes mine ↦
              let b : got c s.lk.lock ≡ true = ground arith in
              let k : Counts (between d) s.lk.count =
                subst (λ p. Counts p s.lk.count) e
                  (subst (λ o. Counts (s.at o) s.lk.count) mine (x.owned nz)) in
              let (depth, _) = k in
              subst (λ b. IsExclusive (exchanged c s d false b)) (sym b)
                (moved s c s.lk.count (entering d) x mine lt x.word depth)
          | no ne ↦
              let b : got c s.lk.lock ≡ false = ground arith in
              subst (λ b. IsExclusive (exchanged c s d false b)) (sym b)
                (record { free = x.free; owned = x.owned; others = x.others; word = x.word })
        ])
]

-- The count of the owner at a place.
count_at :
    (s : Machine) (c : ℕ) (p : Place)
    → IsExclusive s
    → s.lk.lock ≡ c
    → c < unlocked
    → s.at c ≡ p
    → Counts p s.lk.count
count_at s c p x mine lt e =
    subst (λ p. Counts p s.lk.count) e
      (subst (λ o. Counts (s.at o) s.lk.count) mine (x.owned (omega arith)))

Step-IsExclusive :
    (c : ℕ) (s t : Machine)
    → IsExclusive s
    → c < unlocked
    → s.lk.count + 1 < 2 ^ 32
    → Step c s t
    → IsExclusive t
unfolding cmpxchg count_up count_down unlock exchanged
Step-IsExclusive c s t x lt room (Step.exchange d e) = exchange-IsExclusive c s d x lt e
Step-IsExclusive c s t x lt room (Step.counted d e) =
    let mine = owner s x c (entering d) e (λ z. z) in
    let k = count_at s c (entering d) x mine lt e in
    moved s c ((s.lk.count + 1) % 2 ^ 32) (between (d + 1)) x mine lt (omega arith)
      (omega (arith, k), omega arith)
Step-IsExclusive c s t x lt room (Step.released d e) =
    let mine = owner s x c (between (d + 1)) e (λ z. absurd (omega arith)) in
    let (k, _) = count_at s c (between (d + 1)) x mine lt e in
    let n = (s.lk.count + 2 ^ 32 - 1) % 2 ^ 32 in
    elim (ℕ_discrete n 0) [
      | yes z ↦
          let b : (n == 0) ≡ true = ground arith in
          subst
            (λ b. IsExclusive (record {
              lk = record s.lk { count = n };
              at = update s.at c (if b then leaving else between d);
            }))
            (sym b) (moved s c n leaving x mine lt (omega arith) z)
      | no nz ↦
          let b : (n == 0) ≡ false = ground arith in
          subst
            (λ b. IsExclusive (record {
              lk = record s.lk { count = n };
              at = update s.at c (if b then leaving else between d);
            }))
            (sym b)
            (moved s c n (between d) x mine lt (omega arith) (omega (arith, k), omega arith))
    ]
Step-IsExclusive c s t x lt room (Step.freed e) =
    let mine = owner s x c leaving e (λ z. z) in
    let k = count_at s c leaving x mine lt e in
    record {
      free = λ z. (k, out);
      owned = λ ne. absurd (ne refl);
      others = λ f ne. out f;
      word = x.word;
    }
  where
    out : (f : ℕ) → IsOutside (update s.at c (between 0) f)
    out f = elim (ℕ_discrete c f) [
      | yes z ↦
          subst (λ g. IsOutside (update s.at c (between 0) g)) z
            (subst IsOutside (sym (at_self s.at c (between 0))) refl)
      | no ne ↦
          subst IsOutside (sym (at_other s.at c f (between 0) ne))
            (x.others f (λ z. ne (sym (owner s x c leaving e (λ w. w)) ∙ z)))
    ]

Reachable-IsExclusive : (s : Machine) → Reachable s → IsExclusive s
unfolding reentrantlock_init
Reachable-IsExclusive s (Reachable.start lk) = record {
  free = λ z. (refl, λ c. refl);
  owned = λ ne. absurd (ne refl);
  others = λ c ne. refl;
  word = omega arith;
}
Reachable-IsExclusive s (Reachable.step c r t reach lt room st) =
    Step-IsExclusive c r t (Reachable-IsExclusive r reach) lt room st

-- In every machine that is reached by steps of the processors, in any order, no two of them are inside
-- the lock, and the processor inside is the one that the lock names.
pub reentrantlock-exclusion :
    (s : Machine) (c d : ℕ)
    → Reachable s
    → ¬ IsOutside (s.at c)
    → ¬ IsOutside (s.at d)
    → (c ≡ d) × (s.lk.lock ≡ c)
reentrantlock-exclusion s c d r a b =
    let x = Reachable-IsExclusive s r in
    let mine = owner s x c (s.at c) refl a in (sym mine ∙ owner s x d (s.at d) refl b, mine)

-- For a processor that finds the lock free, or holds it fewer than 2^32 - 1 times,
-- `reentrantlock_try_acquire` succeeds, and the `reentrantlock_release` that follows restores the lock.
pub release-try_acquire :
    (c : ℕ) (lk : Lock)
    → c < unlocked
    → lk.count + 1 < 2 ^ 32
    → ((lk.lock ≡ unlocked) × (lk.count ≡ 0)) ⊎ ((lk.lock ≡ c) × (0 < lk.count))
    → let (ok, lk') = reentrantlock_try_acquire c lk in
      let lk'' = reentrantlock_release lk' in
      (ok ≡ 1) × (lk''.lock ≡ lk.lock) × (lk''.count ≡ lk.count)
unfolding reentrantlock_try_acquire reentrantlock_release cmpxchg count_up count_down unlock
release-try_acquire c lk lt room (inl (z, n)) = (ground arith, ground arith, ground arith)
release-try_acquire c lk lt room (inr (z, n)) = (ground arith, ground arith, ground arith)
