-- ===== src/Fs/Log/Absorb.antt =====
-- `log_write` with absorption: the log of a transaction is replayed as its writes in their order.
use mcertikos.Base.{
  ℕ, zero, suc, ◌+◌, ◌-◌, ◌≤◌, ◌<◌, ◌≡◌, ◌≢◌, ◌⊎◌, inl, inr, refl, ap, sym, ◌∙◌, arith, ◌||◌, ◌==◌,
  leb, false, if◌then◌else◌, update, ok, panic,
}
use mathlib.Core.Path.{subst}
use native.Mathlib.Decide.{ℕ_discrete, dec_lt}
use mcertikos.Fs.Disk.{Block, nbuf, fill, write_through}
use mcertikos.Fs.Log.{Log, log_size, find_sector, in_use, append_block, log_write}
use mcertikos.Fs.Log.Replay.{replay, replay-suc, replay_congr}
use mcertikos.Fs.Log.Commit.{blocks}

-- `r` is the first index from `i` on, and below `to`, with the sector `s`, or `to` if there is none.
record IsFirst (sector : ℕ → ℕ) (s i to r : ℕ) : Type 0 where
  from : i ≤ r
  within : r ≤ to
  found : r < to → sector r ≡ s
  first : (j : ℕ) → i ≤ j → j < r → sector j ≢ s

find_sector-IsFirst :
    (sector : ℕ → ℕ) (s rounds i : ℕ)
    → IsFirst sector s i (i + rounds) (find_sector sector s rounds i)
unfolding find_sector
find_sector-IsFirst sector s zero i = record {
  from = omega arith;
  within = omega arith;
  found = λ lt. absurd (omega arith);
  first = λ j lo hi. absurd (omega arith);
}
find_sector-IsFirst sector s (suc rounds) i =
    let h = find_sector-IsFirst sector s rounds (i + 1) in
    elim (ℕ_discrete (sector i) s) [
      | yes e ↦ record {
        from = ground arith;
        within = ground arith;
        found = λ lt. ground arith;
        first = λ j lo hi. absurd (ground arith);
      }
      | no ne ↦ record {
        from = ground (arith, h.from);
        within = ground (arith, h.within);
        found = λ lt. ground (arith, h.found);
        first = λ j lo hi. ground (arith, h.first j);
      }
    ]

-- A block of the log is written again.
replay-update :
    (target : ℕ → ℕ) (from : ℕ → Block) (n i : ℕ) (b : Block) (m : ℕ → Block) (a : ℕ)
    → i < n
    → ((j k : ℕ) → j < k → k < n → target j ≢ target k)
    → replay target (update from i b) n m a
      ≡ (if target i == a then b else replay target from n m a)
unfolding replay
replay-update target from zero i b m a lt distinct = absurd (omega arith)
replay-update target from (suc n) i b m a lt distinct = elim (ℕ_discrete i n) [
  | yes e ↦
      let same =
        replay_congr target target (update from i b) from n m a (λ j lt. refl)
          (λ j lt. ground arith) in
      ground (arith, same)
  | no ne ↦
      let h =
        replay-update target from n i b m a (omega arith)
          (λ j k lt hi. distinct j k lt (omega arith)) in
      ground (arith, h, distinct i n (omega arith) (omega arith))
]

-- A transaction under way, whose writes so far make the blocks `m` of the blocks `d` on the disk.
pub record IsLogging (d m : ℕ → Block) (l : Log) : Type 0 where
  pub busy : l.busy ≡ 1
  pub alone : l.pinned ≡ 0
  pub small : l.n ≤ log_size
  pub home : (i : ℕ) → i < l.n → l.sector i < l.start
  pub not_super : (i : ℕ) → i < l.n → l.sector i ≢ 1
  pub distinct : (i j : ℕ) → i < j → j < l.n → l.sector i ≢ l.sector j
  pub logged : 0 < l.power → (i : ℕ) → i < l.n → l.disk (l.start + i + 1) ≡ blocks l i
  pub unwritten : (a : ℕ) → a ≤ l.start → l.disk a ≡ d a
  pub effect : (a : ℕ) → a < l.start → replay l.sector (blocks l) l.n d a ≡ m a

module _ (d m : ℕ → Block) (l : Log) (s : ℕ) (b : Block) (h : IsLogging d m l)
    (lt : s < l.start) where
  -- The log once the caller has put `b` into the buffer of `s`, and where `log_write` finds it.
  unfoldable pub filled : Log
  filled = record l { store = fill s b l.store }

  place : ℕ
  place = find_sector l.sector s l.n 0

  place-IsFirst : IsFirst l.sector s 0 l.n place
  unfolding place
  place-IsFirst =
      let e : 0 + l.n ≡ l.n = omega arith in
      subst (λ n. IsFirst l.sector s 0 n (find_sector l.sector s l.n 0)) e
        (find_sector-IsFirst l.sector s l.n 0)

  pub append : Log
  unfolding filled
  append = append_block s filled

  append-sector : (j : ℕ) → j < l.n → append.sector j ≡ l.sector j
  unfolding append append_block filled place
  append-sector j le = let f = place-IsFirst in ground (arith, f.found)

  append-here : append.sector place ≡ s
  unfolding append append_block filled place
  append-here = ground arith

  append-blocks : (j : ℕ) → blocks append j ≡ update (blocks l) place b j
  unfolding append append_block filled place write_through
  append-blocks j = ground (arith, lt)

  append-n : append.n ≡ (if place == l.n then l.n + 1 else l.n)
  unfolding append append_block filled place
  append-n = refl

  pub append-n_le : append.n ≤ l.n + 1
  append-n_le = let n = append-n in ground (arith, n)

  pub append-fields : (append.start ≡ l.start) × (append.size ≡ l.size)
  unfolding append append_block filled
  append-fields = (refl, refl)

  -- `log_write` after the caller has filled the buffer.
  pub log_write-ok : l.n + 1 < nbuf → l.n + 1 < l.size → log_write s filled ≡ ok (tt, append)
  unfolding append log_write filled
  log_write-ok room fits =
      let busy = h.busy in
      let a : leb log_size l.n ≡ false = ground arith in
      let b : leb (l.size - 1) l.n ≡ false = ground arith in
      let c : (l.busy == 0) ≡ false = ground arith in
      let d : leb nbuf (in_use s filled) ≡ false = ground (arith, h.alone) in
      let run = if leb nbuf (in_use s filled) then panic else ok (tt, append_block s filled) in
      ap (λ x. if x || leb (l.size - 1) l.n then panic else if l.busy == 0 then panic else run) a
      ∙ ap (λ x. if x then panic else if l.busy == 0 then panic else run) b
      ∙ ap (λ x. if x then panic else run) c
      ∙ ap (λ x. if x then panic else ok (tt, append_block s filled)) d

  append-effect :
      (a : ℕ) → a < l.start → replay append.sector (blocks append) append.n d a ≡ update m s b a
  append-effect a a_lt = elim (ℕ_discrete place l.n) [
    | yes e ↦
        let n : append.n ≡ suc l.n = append-n ∙ ground arith in
        let same : replay append.sector (blocks append) l.n d a ≡ m a =
          replay_congr append.sector l.sector (blocks append) (blocks l) l.n d a append-sector
            (λ j le. append-blocks j ∙ ground arith)
          ∙ h.effect a a_lt in
        let here : append.sector l.n ≡ s = ap append.sector (sym e) ∙ append-here in
        let block : blocks append l.n ≡ b = append-blocks l.n ∙ ground arith in
        ap (λ n. replay append.sector (blocks append) n d a) n
        ∙ replay-suc append.sector (blocks append) l.n d a
        ∙ ground (arith, here, block, same)
    | no ne ↦
        let f = place-IsFirst in
        let le : place < l.n = omega (arith, f.within) in
        let n : append.n ≡ l.n = append-n ∙ ground arith in
        let again = replay-update l.sector (blocks l) l.n place b d a le h.distinct in
        ap (λ n. replay append.sector (blocks append) n d a) n
        ∙ replay_congr append.sector l.sector (blocks append) (update (blocks l) place b) l.n d a
            append-sector (λ j le. append-blocks j)
        ∙ again
        ∙ ground (arith, f.found le, h.effect a a_lt)
  ]

  -- Each index of the longer log is one of the old log, or the place of the new sector.
  append_cases :
      (j : ℕ) → j < append.n → (append.sector j ≡ s) ⊎ ((j < l.n) × (append.sector j ≡ l.sector j))
  append_cases j le = elim (dec_lt j l.n) [
    | yes old ↦ inr (old, append-sector j old)
    | no new ↦
        let f = place-IsFirst in
        let n = append-n in
        let e : place ≡ j = ground (arith, f.within, n) in
        inl (ap append.sector (sym e) ∙ append-here)
  ]

  append-distinct : (i j : ℕ) → i < j → j < append.n → append.sector i ≢ append.sector j
  append-distinct i j lo hi e =
      let f = place-IsFirst in
      let n = append-n in
      elim (dec_lt j l.n) [
        | yes old ↦
            h.distinct i j lo old (sym (append-sector i (omega arith)) ∙ e ∙ append-sector j old)
        | no new ↦
            let p : place ≡ j = ground (arith, f.within, n) in
            f.first i (omega arith) (omega arith) (
              sym (append-sector i (omega (arith, f.within)))
              ∙ e
              ∙ ap append.sector (sym p)
              ∙ append-here)
      ]

  append-disk :
      (i : ℕ)
      → 0 < l.power
      → append.disk (l.start + i + 1) ≡ (if place == i then b else l.disk (l.start + i + 1))
  unfolding append append_block filled place write_through
  append-disk i on = ground (arith, lt)

  pub append-power : append.power ≡ l.power - 1
  unfolding append append_block filled place write_through
  append-power = refl

  append-unwritten : (a : ℕ) → a ≤ l.start → append.disk a ≡ l.disk a
  unfolding append append_block filled place write_through
  append-unwritten a le = ground arith

  append-logged :
      0 < append.power → (i : ℕ) → i < append.n → append.disk (l.start + i + 1) ≡ blocks append i
  append-logged on i le =
      let p : 0 < l.power = omega (arith, append-power) in
      let n = append-n in
      elim (ℕ_discrete place i) [
        | yes e ↦ append-disk i p ∙ ground arith ∙ sym (append-blocks i)
        | no ne ↦
            append-disk i p
            ∙ ground (arith, h.logged p i (ground (arith, n)))
            ∙ sym (append-blocks i)
      ]

  pub append-IsLogging : l.n < log_size → s ≢ 1 → IsLogging d (update m s b) append
  unfolding append append_block filled
  append-IsLogging room ne =
      let n = append-n in
      record {
        busy = h.busy;
        alone = h.alone;
        small = ground (arith, n);
        home = λ i le. elim (append_cases i le) [
          | inl e ↦ omega (arith, e)
          | inr (old, e) ↦ omega (arith, e, h.home i old)
        ];
        not_super = λ i le z. elim (append_cases i le) [
          | inl e ↦ ne (sym e ∙ z)
          | inr (old, e) ↦ h.not_super i old (sym e ∙ z)
        ];
        distinct = append-distinct;
        logged = append-logged;
        unwritten = λ a le. append-unwritten a le ∙ h.unwritten a le;
        effect = append-effect;
      }
