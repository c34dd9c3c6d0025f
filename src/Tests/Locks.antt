-- ===== src/Tests/Locks.antt =====
-- The theorems of kern/lib/reentrant_lock.c at concrete locks.
use mcertikos.Base.{ℕ, ◌≡◌, refl, arith, if◌then◌else◌, update}
use mcertikos.Locks.{
  Lock, reentrantlock_init, cmpxchg, got, Machine, between, entering, Step, Reachable,
}
use mcertikos.Locks.Exclusion.{IsOutside, reentrantlock-exclusion}

-- Processor 3 has taken the lock, and has not counted yet.
abbrev first : Machine
first = record { lk = reentrantlock_init (record { lock = 0; count = 0 }); at = λ _. between 0 }

abbrev second : Machine
second = record {
  lk = (cmpxchg 3 first.lk).1;
  at = if got 3 (cmpxchg 3 first.lk).0 then update first.at 3 (entering 0) else first.at;
}

second-Reachable : Reachable second
unfolding reentrantlock_init
second-Reachable =
    Reachable.step 3 first second (Reachable.start (record { lock = 0; count = 0 })) (omega arith)
      (omega arith) (Step.exchange 0 refl)

second_inside : ¬ IsOutside (second.at 3)
unfolding cmpxchg reentrantlock_init
second_inside z = z

reentrantlock-exclusion_example : (◌≡◌ {A = ℕ} 3 3) × (second.lk.lock ≡ 3)
reentrantlock-exclusion_example =
    reentrantlock-exclusion second 3 3 second-Reachable second_inside second_inside

abbrev held : Lock
held = record { lock = 3; count = 2 }
