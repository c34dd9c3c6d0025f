-- ===== src/Locks.antt =====
-- kern/lib/reentrant_lock.c: a lock that its owner may take again, under any interleaving.
pub mod Exclusion
use mcertikos.Base.{
  ℕ, zero, suc, ◌+◌, ◌-◌, ◌%◌, ◌^◌, ◌<◌, ◌≡◌, Bool, ◌||◌, ◌==◌, ltb, if◌then◌else◌, update,
}

-- `reentrantlock`, and `UNLOCKED`
pub record Lock : Type 0 where
  pub lock : ℕ
  pub count : ℕ

abbrev pub unlocked : ℕ
unlocked = 0xffff_ffff

unfoldable pub reentrantlock_init : Lock → Lock
reentrantlock_init lk = record { lock = unlocked; count = 0 }

unfoldable pub reentrantlock_holding : Lock → Bool
reentrantlock_holding lk = ltb 0 lk.count

-- `cmpxchg(&lk->lock, UNLOCKED, cpuid)`: the old value, and the lock behind it.
unfoldable pub cmpxchg : ℕ → Lock → ℕ × Lock
cmpxchg cpuid lk = (lk.lock, if lk.lock == unlocked then record lk { lock = cpuid } else lk)

-- `lv == cpuid || lv == UNLOCKED`
abbrev pub got : ℕ → ℕ → Bool
got cpuid lv = (lv == cpuid) || (lv == unlocked)

-- `lk->count++` and `lk->count--`
unfoldable pub count_up : Lock → Lock
count_up lk = record lk { count = (lk.count + 1) % 2 ^ 32 }

unfoldable pub count_down : Lock → Lock
count_down lk = record lk { count = (lk.count + 2 ^ 32 - 1) % 2 ^ 32 }

-- `xchg(&lk->lock, UNLOCKED)`
unfoldable pub unlock : Lock → Lock
unlock lk = record lk { lock = unlocked }

-- A call by itself, as it runs when no other processor interferes.
unfoldable pub reentrantlock_try_acquire : ℕ → Lock → ℕ × Lock
unfolding cmpxchg count_up
reentrantlock_try_acquire cpuid lk =
    let (lv, lk') = cmpxchg cpuid lk in if got cpuid lv then (1, count_up lk') else (0, lk')

unfoldable pub reentrantlock_release : Lock → Lock
unfolding count_down unlock
reentrantlock_release lk = let lk' = count_down lk in if lk'.count == 0 then unlock lk' else lk'

-- Where a processor stands: between calls, with the lock taken `d` times, between the exchange and
-- the count of an acquisition, or between the count and the exchange of a release.
pub data Place : Type 0 where
  between : ℕ → Place
  entering : ℕ → Place
  leaving : Place

-- The lock, and the place of each processor.
pub record Machine : Type 0 where
  pub lk : Lock
  pub at : ℕ → Place

-- A step of processor `c`, which releases only what it has taken: one atomic access to the lock. A round of the loop of
-- `reentrantlock_acquire` that fails, or a failed `reentrantlock_try_acquire`, changes nothing.
pub data Step (c : ℕ) (s : Machine) : Machine → Type 0 where
  exchange :
      (d : ℕ)
      → s.at c ≡ between d
      → Step c s (record {
        lk = (cmpxchg c s.lk).1;
        at = if got c (cmpxchg c s.lk).0 then update s.at c (entering d) else s.at;
      })
  counted :
      (d : ℕ)
      → s.at c ≡ entering d
      → Step c s (record { lk = count_up s.lk; at = update s.at c (between (d + 1)) })
  released :
      (d : ℕ)
      → s.at c ≡ between (d + 1)
      → Step c s (record {
        lk = count_down s.lk;
        at = update s.at c (if (count_down s.lk).count == 0 then leaving else between d);
      })
  freed : s.at c ≡ leaving → Step c s (record { lk = unlock s.lk; at = update s.at c (between 0) })

-- The machines that steps of processors below `UNLOCKED` lead to, each of which takes the lock fewer
-- than 2^32 - 1 times at once.
pub data Reachable : Machine → Type 0 where
  start : (lk : Lock) → Reachable (record { lk = reentrantlock_init lk; at = λ _. between 0 })
  step :
      (c : ℕ) (s : Machine) (t : Machine)
      → Reachable s
      → c < unlocked
      → s.lk.count + 1 < 2 ^ 32
      → Step c s t
      → Reachable t
