-- ===== src/Fs/Log/Crash.antt =====
-- The power fails in `commit_trans`, and in any of the recoveries that follow.
use mcertikos.Base.{ℕ, ◌+◌, ◌-◌, ◌≤◌, ◌<◌, ◌≡◌, ◌≢◌, ◌⊎◌, inl, inr, refl, ap, sym, ◌∙◌, arith}
use mathlib.Core.Path.{subst}
use native.Mathlib.Decide.{ℕ_discrete, dec_lt}
use mcertikos.Fs.Disk.{Block, write_through, reboot}
use mcertikos.Fs.Log.{Log, log_size, header, write_head, write_trans, commit_trans, log_init}
use mcertikos.Fs.Log.Replay.{replay, replay_none, replay_same, replay_congr}
use mcertikos.Fs.Log.Commit.{
  blocks, HoldsHeader, header-HoldsHeader, pending, pending_clean, finish, IsHome, finish-pending,
  finish_cut,
}
use mcertikos.Fs.Log.Recovery.{
  IsRecoverable, finish-IsRecoverable, log_init-IsRecovery, Recoveries, Recoveries-lem,
}

-- A transaction that has been logged and not committed.
pub record IsOpen (l : Log) : Type 0 where
  pub past : 1 < l.start
  pub super : l.disk 1 0 - l.disk 1 3 ≡ l.start
  pub small : l.n ≤ log_size
  pub home : (i : ℕ) → i < l.n → l.sector i < l.start
  pub not_super : (i : ℕ) → i < l.n → l.sector i ≢ 1
  pub clean : l.disk l.start 0 ≡ 0
  pub logged : 0 < l.power → (i : ℕ) → i < l.n → l.disk (l.start + i + 1) ≡ blocks l i

-- The disk behind a commit, and the blocks it stands for.
record IsCommitted (l : Log) (d : ℕ → Block) : Type 0 where
  recoverable : IsRecoverable l.start d
  all :
      0 < l.power
      → (a : ℕ) → a < l.start
      → pending l.start d a ≡ replay l.sector (blocks l) l.n l.disk a
  nothing : l.power ≡ 0 → (a : ℕ) → a < l.start → pending l.start d a ≡ l.disk a

module _ (l : Log) (o : IsOpen l) where
  -- A disk with the super block and the empty log of `l`.
  unwritten-IsRecoverable :
      (d : ℕ → Block) → d 1 ≡ l.disk 1 → d l.start ≡ l.disk l.start → IsRecoverable l.start d
  unwritten-IsRecoverable d one head =
      let n : d l.start 0 ≡ 0 = ap (λ b. b 0) head ∙ o.clean in
      record {
        past = o.past;
        super = ap (λ b. b 0 - b 3) one ∙ o.super;
        small = omega (arith, n);
        home = λ i lt. absurd (omega (arith, n));
        not_super = λ i lt. absurd (omega (arith, n));
      }

  write_head-IsHome : IsHome (write_head l)
  unfolding write_head
  write_head-IsHome = record {
    small = omega (arith, o.small);
    home = o.home;
    not_super = o.not_super;
  }

  write_head-disk : (a : ℕ) → a ≢ l.start → (write_head l).disk a ≡ l.disk a
  unfolding write_head write_through
  write_head-disk a ne = ground arith

  write_head-blocks : (i : ℕ) → blocks (write_head l) i ≡ blocks l i
  unfolding write_head write_through
  write_head-blocks i = ground arith

  write_head-HoldsHeader : 0 < l.power → HoldsHeader l l.n ((write_head l).disk l.start)
  unfolding write_head write_through
  write_head-HoldsHeader on =
      let e : (write_head l).disk l.start ≡ header l (l.buffers l.start) = ground arith in
      subst (λ b. HoldsHeader l l.n b) (sym e)
        (header-HoldsHeader l (l.buffers l.start) (omega (arith, o.small)))

  -- The power has failed before the commit.
  finish_off : (a : ℕ) → l.power ≡ 0 → (finish (write_head l)).disk a ≡ l.disk a
  unfolding write_head write_through
  finish_off a off =
      let l1 = write_head l in
      finish_cut l1 write_head-IsHome a (omega arith)
      ∙ replay_none l1.sector (blocks l1) l1.power l1.disk a (omega arith)
      ∙ ground (arith, off)

  finish-IsCommitted : IsCommitted l (finish (write_head l)).disk
  unfolding write_head
  finish-IsCommitted = elim (dec_lt 0 l.power) [
    | yes on ↦
        let h = write_head-IsHome in
        let head = write_head-HoldsHeader on in
        record {
          recoverable =
              finish-IsRecoverable (write_head l) h o.past
                (ap (λ b. b 0 - b 3) (write_head-disk 1 (omega (arith, o.past))) ∙ o.super) o.small
                head;
          all = λ p a lt.
              finish-pending (write_head l) h a lt head (λ i le.
                write_head-disk (l.start + i + 1) (omega arith)
                ∙ o.logged on i le
                ∙ sym (write_head-blocks i))
              ∙ replay_congr l.sector l.sector (blocks (write_head l)) (blocks l) l.n
                  (write_head l).disk a (λ i lt. refl) (λ i lt. write_head-blocks i)
              ∙ replay_same l.sector (blocks l) l.n (write_head l).disk l.disk a
                  (write_head-disk a (omega arith));
          nothing = λ off. absurd (omega arith);
        }
    | no off ↦
        let z : l.power ≡ 0 = omega arith in
        record {
          recoverable =
              unwritten-IsRecoverable (finish (write_head l)).disk (finish_off 1 z)
                (finish_off l.start z);
          all = λ on. absurd (off on);
          nothing = λ _ a lt.
              pending_clean l.start (finish (write_head l)).disk a
                (ap (λ b. b 0) (finish_off l.start z) ∙ o.clean)
              ∙ finish_off a z;
        }
  ]

  commit_trans-IsCommitted : IsCommitted l (commit_trans l).disk
  unfolding commit_trans write_trans
  commit_trans-IsCommitted = elim (ℕ_discrete l.n 0) [
    | yes z ↦
        let e : (commit_trans l).disk ≡ l.disk = ground arith in
        subst (λ d. IsCommitted l d) (sym e)
          (record {
            recoverable = unwritten-IsRecoverable l.disk refl refl;
            all = λ on a lt.
                pending_clean l.start l.disk a o.clean
                ∙ sym (replay_none l.sector (blocks l) l.n l.disk a z);
            nothing = λ off a lt. pending_clean l.start l.disk a o.clean;
          })
    | no some ↦
        let e : (commit_trans l).disk ≡ (finish (write_head l)).disk = ground (arith, o.small) in
        subst (λ d. IsCommitted l d) (sym e) finish-IsCommitted
  ]

  -- The power may fail at any write of `commit_trans` of an open transaction, and at any write of the
  -- recoveries by `log_init` that follow. Once the power has held for the 11 writes that one more
  -- `log_init` needs, the log is empty, and either every block in front of it is as it was before the commit, or every
  -- block is as the whole transaction makes it. It is the latter if the first write of the commit got to the disk.
  pub commit_trans-atomic :
      (d : ℕ → Block) (power : ℕ)
      → Recoveries (commit_trans l).disk d
      → log_size < power
      → let final = (log_init (reboot d power)).disk in
        (final l.start 0 ≡ 0)
        × (((a : ℕ) → a < l.start → final a ≡ l.disk a)
            ⊎ ((a : ℕ) → a < l.start → final a ≡ replay l.sector (blocks l) l.n l.disk a))
        × (0 < l.power → (a : ℕ) → a < l.start → final a ≡ replay l.sector (blocks l) l.n l.disk a)
  commit_trans-atomic d power rs on =
      let c = commit_trans-IsCommitted in
      let (r, same) = Recoveries-lem l.start (commit_trans l).disk d c.recoverable rs in
      let s = log_init-IsRecovery l.start d power r in
      let final : ℕ → Block = (log_init (reboot d power)).disk in
      let clean : final l.start 0 ≡ 0 = s.clean on in
      let stands : (a : ℕ) → a < l.start → final a ≡ pending l.start (commit_trans l).disk a =
        λ a lt. sym (pending_clean l.start final a clean) ∙ s.same a lt ∙ same a lt in
      let all : 0 < l.power
          → (a : ℕ) → a < l.start
          → final a ≡ replay l.sector (blocks l) l.n l.disk a =
        λ p a lt. stands a lt ∙ c.all p a lt in
      (
        clean,
        elim (dec_lt 0 l.power) [
          | yes p ↦ inr (all p)
          | no off ↦ inl (λ a lt. stands a lt ∙ c.nothing (omega arith) a lt)
        ],
        all,
      )
