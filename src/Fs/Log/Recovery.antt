-- ===== src/Fs/Log/Recovery.antt =====
-- What a recovery by `log_init` makes of a disk, whenever the power fails, and any number of them.
use mcertikos.Base.{
  ℕ, ◌+◌, ◌-◌, ◌^◌, ◌≤◌, ◌<◌, ◌≡◌, ◌≢◌, refl, ap, sym, ◌∙◌, arith, update, for_range_inv,
}
use mathlib.Core.Path.{subst}
use native.Mathlib.Decide.{dec_lt}
use mcertikos.Fs.Disk.{Block, reboot}
use mcertikos.Fs.Log.{Log, rounds, log_size, read_head, recover_from_log, log_init}
use mcertikos.Fs.Log.Replay.{replay, replay_away, replay_congr}
use mcertikos.Fs.Log.Commit.{
  blocks, HoldsHeader, pending, finish, IsHome, finish-pending, finish_clean, finish_cut,
  finish_done, away,
}

-- A disk whose log, at `start`, can be recovered.
pub record IsRecoverable (start : ℕ) (d : ℕ → Block) : Type 0 where
  pub past : 1 < start
  pub super : d 1 0 - d 1 3 ≡ start
  pub small : d start 0 ≤ log_size
  pub home : (i : ℕ) → i < d start 0 → d start (i + 1) < start
  pub not_super : (i : ℕ) → i < d start 0 → d start (i + 1) ≢ 1

module _ (l : Log) (h : IsHome l) where
  finish-super : 1 < l.start → (finish l).disk 1 ≡ l.disk 1
  finish-super lt = elim (dec_lt l.n l.power) [
    | yes done ↦ finish_done l h 1 done (omega arith) ∙ kept l.n (omega arith)
    | no cut ↦ finish_cut l h 1 (omega arith) ∙ kept l.power (omega arith)
  ]
    where
      kept : (k : ℕ) → k ≤ l.n → replay l.sector (blocks l) k l.disk 1 ≡ l.disk 1
      kept k le = replay_away l.sector (blocks l) k l.disk 1 (λ i lt. h.not_super i (omega arith))

  pub finish-IsRecoverable :
      1 < l.start
      → l.disk 1 0 - l.disk 1 3 ≡ l.start
      → l.n ≤ log_size
      → HoldsHeader l l.n (l.disk l.start)
      → IsRecoverable l.start (finish l).disk
  finish-IsRecoverable past super small (count, sectors) =
      let one = finish-super past in
      let s : (finish l).disk 1 0 - (finish l).disk 1 3 ≡ l.start =
        ap (λ b. b 0 - b 3) one ∙ super in
      elim (dec_lt l.n l.power) [
        | yes done ↦
            let z = finish_clean l h done in
            record {
              past = past;
              super = s;
              small = omega (arith, z);
              home = λ i lt. absurd (omega (arith, z));
              not_super = λ i lt. absurd (omega (arith, z));
            }
        | no cut ↦
            let e : (finish l).disk l.start ≡ l.disk l.start =
              finish_cut l h l.start (omega arith)
              ∙ away l h l.power l.start (omega arith) (omega arith) in
            let n : (finish l).disk l.start 0 ≡ l.n = ap (λ b. b 0) e ∙ count in
            let at : (i : ℕ) → i < l.n → (finish l).disk l.start (i + 1) ≡ l.sector i =
              λ i lt. ap (λ b. b (i + 1)) e ∙ sectors i lt in
            record {
              past = past;
              super = s;
              small = omega (arith, n);
              home = λ i lt. omega (arith, h.home i (omega (arith, n)), at i (omega (arith, n)));
              not_super =
                  λ i lt z. h.not_super i (omega (arith, n)) (sym (at i (omega (arith, n))) ∙ z);
            }
      ]

-- The log in memory once its header has been read from the disk.
loaded : (ℕ → Block) → ℕ → Log
unfolding read_head
loaded d power = read_head (record {
  store = reboot d power;
  start = d 1 0 - d 1 3;
  size = d 1 3;
  busy = 0;
  n = 0;
  sector = λ _. 0;
  pinned = 0;
})

loaded-sector :
    (d : ℕ → Block) (power i : ℕ)
    → (loaded d power).n < 2 ^ 31
    → i < (loaded d power).n
    → (loaded d power).sector i ≡ d (d 1 0 - d 1 3) (i + 1)
unfolding loaded read_head
loaded-sector d power i small lt =
    let lh = d (d 1 0 - d 1 3) in
    let e : rounds (lh 0) ≡ lh 0 = ground arith in
    for_range_inv (λ k s. (j : ℕ) → j < k → s j ≡ lh (j + 1)) (λ j s. update s j (lh (j + 1)))
      (rounds (lh 0)) 0 (lh 0) (λ _. 0) (omega (arith, e)) (λ k s lo hi h j lt. ground (arith, h j))
      (λ j lt. absurd (omega arith)) i lt

-- The log of a machine that starts on the disk `d`.
abbrev pub restarted : (ℕ → Block) → ℕ → Log
restarted d power = log_init (reboot d power)

-- What a recovery does, which the power may cut short.
pub record IsRecovery (start : ℕ) (d : ℕ → Block) (power : ℕ) (l : Log) : Type 0 where
  pub again : IsRecoverable start l.disk
  pub same : (a : ℕ) → a < start → pending start l.disk a ≡ pending start d a
  pub clean : log_size < power → l.disk start 0 ≡ 0

log_init-here :
    (d : ℕ → Block) (power : ℕ)
    → IsRecoverable (d 1 0 - d 1 3) d
    → IsRecovery (d 1 0 - d 1 3) d power (restarted d power)
unfolding log_init recover_from_log loaded read_head pending
log_init-here d power r =
    let l = loaded d power in
    let small : l.n < 2 ^ 31 = omega (arith, r.small) in
    let at = loaded-sector d power in
    let h : IsHome l = record {
      small = small;
      home = λ i lt. omega (arith, at i small lt, r.home i lt);
      not_super = λ i lt z. r.not_super i lt (sym (at i small lt) ∙ z);
    } in
    let head : HoldsHeader l l.n (l.disk l.start) = (refl, λ i lt. sym (at i small lt)) in
    record {
      again = finish-IsRecoverable l h r.past refl r.small head;
      same = λ a lt.
          finish-pending l h a lt head (λ i lt. refl)
          ∙ replay_congr l.sector (λ i. d l.start (i + 1)) (blocks l) (blocks l) l.n d a
              (λ i lt. at i small lt) (λ i lt. refl);
      clean = λ lt. finish_clean l h (omega (arith, r.small));
    }

pub log_init-IsRecovery :
    (start : ℕ) (d : ℕ → Block) (power : ℕ)
    → IsRecoverable start d
    → IsRecovery start d power (restarted d power)
log_init-IsRecovery start d power r =
    subst (λ s. IsRecoverable s d → IsRecovery s d power (restarted d power)) r.super
      (log_init-here d power) r

-- The disks that recoveries lead to, each of which the power may cut short.
pub data Recoveries (d : ℕ → Block) : (ℕ → Block) → Type 0 where
  none_yet : Recoveries d d
  once_more : (e : ℕ → Block) (power : ℕ) → Recoveries d e → Recoveries d (restarted e power).disk

pub Recoveries-lem :
    (start : ℕ) (d e : ℕ → Block)
    → IsRecoverable start d
    → Recoveries d e
    → IsRecoverable start e × ((a : ℕ) → a < start → pending start e a ≡ pending start d a)
Recoveries-lem start d e r none_yet = (r, λ a lt. refl)
Recoveries-lem start d e r (once_more f power rs) =
    let (q, same) = Recoveries-lem start d f r rs in
    let s = log_init-IsRecovery start f power q in (s.again, λ a lt. s.same a lt ∙ same a lt)
