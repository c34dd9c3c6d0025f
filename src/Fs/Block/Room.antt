-- ===== src/Fs/Block/Room.antt =====
-- A block that is logged within the room of a transaction.
use mcertikos.Base.{
  ℕ, ◌+◌, ◌-◌, ◌≤◌, ◌<◌, ◌≡◌, refl, ap, ◌∙◌, arith, false, ◌||◌, ◌==◌, leb, if◌then◌else◌, update,
  ok, panic,
}
use mcertikos.Fs.Disk.{Block, nbuf, fill, write_through}
use mcertikos.Fs.Log.{Log, log_size, in_use, append_block, log_write}
use mcertikos.Fs.Block.{log_block}

-- `log_write` has room in the log and among the buffers, in a transaction.
pub record HasRoom (writes : ℕ) (l : Log) : Type 0 where
  pub busy : l.busy ≡ 1
  pub small : l.n + writes + l.pinned < nbuf
  pub fits : l.n + writes < l.size

-- The log behind `log_block`.
pub record IsLogged (bno : ℕ) (x : Block) (l l' : Log) : Type 0 where
  pub start : l'.start ≡ l.start
  pub room : (writes : ℕ) → HasRoom (writes + 1) l → HasRoom writes l'
  pub buffers : (a : ℕ) → a ≤ l.start → l'.buffers a ≡ update l.buffers bno x a

pub log_block-IsLogged :
    (bno : ℕ) (x : Block) (l : Log)
    → HasRoom 1 l
    → (l' : Log) × (log_block bno x l ≡ ok (tt, l')) × IsLogged bno x l l'
unfolding log_write append_block write_through
log_block-IsLogged bno x l r =
    let l1 : Log = record l { store = fill bno x l.store } in
    let busy : (l.busy == 0) ≡ false = ground (arith, r.busy) in
    let a : leb log_size l.n ≡ false = ground (arith, r.small) in
    let b : leb (l.size - 1) l.n ≡ false = ground (arith, r.fits) in
    let c : leb nbuf (in_use bno l1) ≡ false = ground (arith, r.small) in
    let run = if leb nbuf (in_use bno l1) then panic else ok (tt, append_block bno l1) in
    (
      append_block bno l1,
      ap (λ x. if x || leb (l.size - 1) l.n then panic else if l.busy == 0 then panic else run) a
          ∙ ap (λ x. if x then panic else if l.busy == 0 then panic else run) b
          ∙ ap (λ x. if x then panic else run) busy
          ∙ ap (λ x. if x then panic else ok (tt, append_block bno l1)) c,
      record {
        start = refl;
        room = λ w r. record {
          busy = r.busy;
          small = ground (arith, r.small);
          fits = ground (arith, r.fits);
        };
        buffers = λ a le. ground arith;
      },
    )
