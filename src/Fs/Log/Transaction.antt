-- ===== src/Fs/Log/Transaction.antt =====
-- A whole transaction: `begin_trans`, the writes of its caller, and `commit_trans`.
use mcertikos.Base.{
  ℕ, ◌+◌, ◌-◌, ◌≤◌, ◌<◌, ◌≡◌, ◌≢◌, ◌⊎◌, inl, inr, refl, ap, sym, ◌∙◌, arith, update, List, [], ◌∷◌,
  length, Call, ok, ◌>>◌, modify, bind_ok,
}
use mathlib.Core.Path.{subst}
use mcertikos.Fs.Disk.{Block, nbuf, fill, reboot}
use mcertikos.Fs.Log.{Log, log_size, log_write, begin_trans, commit_trans, log_init}
use mcertikos.Fs.Log.Replay.{replay, replay_none, replay_same}
use mcertikos.Fs.Log.Commit.{blocks}
use mcertikos.Fs.Log.Recovery.{Recoveries}
use mcertikos.Fs.Log.Absorb.{
  IsLogging, append, append-power, append-n_le, append-fields, append-IsLogging, filled,
  log_write-ok,
}
use mcertikos.Fs.Log.Crash.{IsOpen, commit_trans-atomic}

-- The use of `log_write` that its comment gives: the block goes into the buffer, and into the log.
unfoldable pub write_block : ℕ × Block → Call Log (Unit {0})
write_block (s, b) = do modify (λ l. record l { store = fill s b l.store }); log_write s

unfoldable pub write_all : List (ℕ × Block) → Call Log (Unit {0})
unfolding write_block
write_all [] l = ok (tt, l)
write_all (w ∷ ws) l = (write_block w >> write_all ws) l

unfoldable pub transaction : List (ℕ × Block) → Call Log (Unit {0})
unfolding write_all begin_trans
transaction ws = do begin_trans; write_all ws; modify commit_trans

-- The blocks behind the writes, one after the other.
unfoldable pub written : List (ℕ × Block) → (ℕ → Block) → ℕ → Block
written [] m = m
written ((s, b) ∷ ws) m = written ws (update m s b)

-- The writes go to blocks in front of the log, other than the super block.
abbrev pub IsTargets : ℕ → List (ℕ × Block) → Type 0
IsTargets start [] = Unit
IsTargets start ((s, b) ∷ ws) = (s < start) × (s ≢ 1) × IsTargets start ws

-- The log behind the writes.
record IsWritten (d m : ℕ → Block) (writes : ℕ) (l l' : Log) : Type 0 where
  logging : IsLogging d m l'
  start : l'.start ≡ l.start
  power : l'.power ≡ l.power - writes

write_all-IsWritten :
    (ws : List (ℕ × Block)) (d m : ℕ → Block) (l : Log)
    → IsLogging d m l
    → l.n + length ws < nbuf
    → l.n + length ws < l.size
    → IsTargets l.start ws
    → (l' : Log) × (write_all ws l ≡ ok (tt, l')) × IsWritten d (written ws m) (length ws) l l'
unfolding write_all written write_block filled
write_all-IsWritten [] d m l h room fits t =
    (l, refl, record { logging = h; start = refl; power = omega arith })
write_all-IsWritten ((s, b) ∷ ws) d m l h room fits (lt, ne, t) =
    let l1 = append d m l s b h lt in
    let (start, size) = append-fields d m l s b h lt in
    let n = append-n_le d m l s b h lt in
    let e = log_write-ok d m l s b h lt (omega arith) (omega arith) in
    let (l', f, w) =
      write_all-IsWritten ws d (update m s b) l1 (append-IsLogging d m l s b h lt (omega arith) ne)
        (omega arith) (omega (arith, size)) (subst (λ st. IsTargets st ws) (sym start) t) in
    (
      l',
      bind_ok (log_write s) (λ _. write_all ws) (filled d m l s b h lt) l1 tt e ∙ f,
      record {
        logging = w.logging;
        start = w.start ∙ start;
        power = omega (arith, w.power, append-power d m l s b h lt);
      },
    )

-- No transaction is under way, and the log on the disk is empty.
pub record IsIdle (l : Log) : Type 0 where
  pub busy : l.busy ≡ 0
  pub none : l.n ≡ 0
  pub alone : l.pinned ≡ 0
  pub clean : l.disk l.start 0 ≡ 0
  pub past : 1 < l.start
  pub super : l.disk 1 0 - l.disk 1 3 ≡ l.start

module _ (l : Log) (h : IsIdle l) where
  begun : Log
  begun = record l { busy = 1 }

  begin_trans-ok : begin_trans l ≡ ok (tt, begun)
  unfolding begin_trans begun
  begin_trans-ok = ground (arith, h.busy)

  begun-IsLogging : IsLogging l.disk l.disk begun
  unfolding begun
  begun-IsLogging =
      let none : (i : ℕ) → ¬ (i < l.n) = λ i lt. omega (arith, h.none) in
      record {
        busy = refl;
        alone = h.alone;
        small = omega (arith, h.none);
        home = λ i lt. absurd (none i lt);
        not_super = λ i lt. absurd (none i lt);
        distinct = λ i j lt lt'. absurd (none j lt');
        logged = λ on i lt. absurd (none i lt);
        unwritten = λ a le. refl;
        effect = λ a lt. replay_none l.sector (blocks l) l.n l.disk a h.none;
      }

  module _ (ws : List (ℕ × Block)) (room : length ws < nbuf) (fits : length ws < l.size)
      (targets : IsTargets l.start ws) where
    writing :
        (l' : Log) × (write_all ws begun ≡ ok (tt, l'))
        × IsWritten l.disk (written ws l.disk) (length ws) begun l'
    unfolding begun
    writing =
        write_all-IsWritten ws l.disk l.disk begun begun-IsLogging (omega (arith, h.none))
          (omega (arith, h.none)) targets

    logged-IsOpen : IsOpen writing.0
    unfolding begun
    logged-IsOpen =
        let l' = writing.0 in
        let w = writing.2 in
        let g = w.logging in
        let at : (a : ℕ) → a ≤ l.start → l'.disk a ≡ l.disk a =
          λ a le. g.unwritten a (omega (arith, w.start)) in
        record {
          past = omega (arith, w.start, h.past);
          super = ap (λ b. b 0 - b 3) (at 1 (omega (arith, h.past))) ∙ h.super ∙ sym w.start;
          small = g.small;
          home = g.home;
          not_super = g.not_super;
          clean =
              ap (λ a. l'.disk a 0) w.start ∙ ap (λ b. b 0) (at l.start (omega arith)) ∙ h.clean;
          logged = g.logged;
        }

    -- Let no transaction be under way, no buffer be held, and the log on the disk be empty. A transaction of at
    -- most nine writes, none to the super block or to the log, and with room in the log on the disk,
    -- returns and leaves no transaction under way. Let the power fail at any write
    -- of it, and at any write of the recoveries by `log_init` that follow. Once the power has held for
    -- a whole `log_init`, either every block in front of the log is as before, or every block is as the
    -- writes make it, one after the other; the latter if the power held for the writes to the log and
    -- the first write of the commit.
    pub transaction-atomic :
        (l' : Log) × (transaction ws l ≡ ok (tt, l'))
        × (l'.busy ≡ 0)
        × ((d : ℕ → Block) (power : ℕ)
            → Recoveries l'.disk d
            → log_size < power
            → let final = (log_init (reboot d power)).disk in
              (((a : ℕ) → a < l.start → final a ≡ l.disk a)
                ⊎ ((a : ℕ) → a < l.start → final a ≡ written ws l.disk a))
              × (length ws < l.power → (a : ℕ) → a < l.start → final a ≡ written ws l.disk a))
    unfolding transaction commit_trans begun
    transaction-atomic =
        let l1 = writing.0 in
        let w = writing.2 in
        let g = w.logging in
        let start : l1.start ≡ l.start = w.start in
        let power : l1.power ≡ l.power - length ws = w.power in
        let new : (a : ℕ)
            → a < l.start
            → replay l1.sector (blocks l1) l1.n l1.disk a ≡ written ws l.disk a =
          λ a lt.
            replay_same l1.sector (blocks l1) l1.n l1.disk l.disk a
              (g.unwritten a (omega (arith, start)))
            ∙ g.effect a (omega (arith, start)) in
        (
          commit_trans l1,
          bind_ok begin_trans (λ _. write_all ws >> modify commit_trans) l begun tt begin_trans-ok
              ∙ bind_ok (write_all ws) (λ _. modify commit_trans) begun l1 tt writing.1,
          refl,
          λ d p rs on.
              let (_, either, all) = commit_trans-atomic l1 logged-IsOpen d p rs on in
              (
                elim either [
                  | inl none ↦
                      inl (λ a lt.
                        none a (omega (arith, start)) ∙ g.unwritten a (omega (arith, start)))
                  | inr some ↦ inr (λ a lt. some a (omega (arith, start)) ∙ new a lt)
                ],
                λ held a lt. all (omega (arith, power)) a (omega (arith, start)) ∙ new a lt,
              ),
        )
