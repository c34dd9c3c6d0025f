-- ===== src/Fs/Log/Commit.antt =====
-- What `install_trans` and `write_head` do to the disk, whenever the power fails.
use mcertikos.Base.{
  ℕ, suc, ◌+◌, ◌-◌, ◌^◌, ◌≤◌, ◌<◌, min, ◌≡◌, ◌≢◌, refl, ap, sym, ◌∙◌, arith, ◌==◌, if◌then◌else◌,
  update, for_range_inv,
}
use native.Mathlib.Decide.{ℕ_discrete, dec_lt}
use mcertikos.Fs.Disk.{Block, Store, write_through}
use mcertikos.Fs.Log.{Log, rounds, install_block, install_trans, header, write_head}
use mcertikos.Fs.Log.Replay.{
  replay, replay-suc, replay_none, replay_same, replay_away, replay_again, replay_congr,
}

abbrev pub blocks : Log → ℕ → Block
blocks l i = l.buffers (l.start + i + 1)

-- The store after `k` blocks have been installed.
record IsInstalled (l : Log) (k : ℕ) (s : Store) : Type 0 where
  power : s.power ≡ l.power - k
  kept : (a : ℕ) → l.start ≤ a → s.buffers a ≡ l.buffers a
  disk : (a : ℕ) → s.disk a ≡ replay l.sector (blocks l) (min k l.power) l.disk a

module _ (l : Log) where
  replay-min :
      (k : ℕ) (a : ℕ)
      → replay l.sector (blocks l) (min (k + 1) l.power) l.disk a ≡ (
          if l.power - k == 0
          then replay l.sector (blocks l) (min k l.power) l.disk a
          else if l.sector k == a
          then blocks l k
          else replay l.sector (blocks l) (min k l.power) l.disk a)
  replay-min k a = elim (ℕ_discrete (l.power - k) 0) [
    | yes out ↦
        let e : min (k + 1) l.power ≡ min k l.power = omega arith in
        ap (λ n. replay l.sector (blocks l) n l.disk a) e ∙ ground arith
    | no on ↦
        let e : min (k + 1) l.power ≡ suc k = omega arith in
        let f : k ≡ min k l.power = omega arith in
        ap (λ n. replay l.sector (blocks l) n l.disk a) e
        ∙ replay-suc l.sector (blocks l) k l.disk a
        ∙ ap (λ n. if l.sector k == a then blocks l k else replay l.sector (blocks l) n l.disk a) f
        ∙ ground arith
  ]

  install_block-IsInstalled :
      (k : ℕ) (s : Store)
      → l.sector k < l.start
      → IsInstalled l k s
      → IsInstalled l (k + 1) (install_block l k s)
  unfolding install_block write_through
  install_block-IsInstalled k s lt h = record {
    power = omega (arith, h.power);
    kept = λ a le. ground (arith, h.kept a le);
    disk = λ a.
        ground (arith, h.power, h.disk a, replay-min k a, h.kept (l.start + k + 1) (omega arith));
  }

  install_trans-IsInstalled :
      l.n < 2 ^ 31
      → ((i : ℕ) → i < l.n → l.sector i < l.start)
      → IsInstalled l l.n (install_trans l).store
  unfolding install_trans
  install_trans-IsInstalled small home =
      let e : rounds l.n ≡ l.n = ground arith in
      for_range_inv (λ k. IsInstalled l k) (install_block l) (rounds l.n) 0 l.n l.store
        (omega (arith, e)) (λ k s lo hi. install_block-IsInstalled k s (home k hi))
        (record {
          power = omega arith;
          kept = λ a le. refl;
          disk = λ a. sym (replay_none l.sector (blocks l) (min 0 l.power) l.disk a (omega arith));
        })

  -- The header block after `k` sectors have been stored.
  abbrev pub HoldsHeader : ℕ → Block → Type 0
  HoldsHeader k b = (b 0 ≡ l.n) × ((i : ℕ) → i < k → b (i + 1) ≡ l.sector i)

  pub header-HoldsHeader : (hb : Block) → l.n < 2 ^ 31 → HoldsHeader l.n (header l hb)
  unfolding header
  header-HoldsHeader hb small =
      let e : rounds l.n ≡ l.n = ground arith in
      for_range_inv HoldsHeader (λ i b. update b (i + 1) (l.sector i)) (rounds l.n) 0 l.n
        (update hb 0 l.n) (omega (arith, e))
        (λ k b lo hi h. (ground (arith, h.0), λ i lt. ground (arith, h.1 i)))
        (ground arith, λ i lt. absurd (omega arith))

-- The blocks of the disk `d` once the log at `start` that it holds has been replayed.
unfoldable pub pending : ℕ → (ℕ → Block) → ℕ → Block
unfolding replay
pending start d = replay (λ i. d start (i + 1)) (λ i. d (start + i + 1)) (d start 0) d

-- A log on the disk with the header and the blocks of `l` is replayed as `l`, from blocks of which the
-- first `k` may have been written home before.
pending-replay :
    (l : Log) (d : ℕ → Block) (k a : ℕ)
    → HoldsHeader l l.n (d l.start)
    → ((i : ℕ) → i < l.n → d (l.start + i + 1) ≡ blocks l i)
    → k ≤ l.n
    → d a ≡ replay l.sector (blocks l) k l.disk a
    → pending l.start d a ≡ replay l.sector (blocks l) l.n l.disk a
unfolding pending
pending-replay l d k a (count, sectors) logged le e =
    let target : ℕ → ℕ = λ i. d l.start (i + 1) in
    let from : ℕ → Block = λ i. d (l.start + i + 1) in
    ap (λ n. replay target from n d a) count
    ∙ replay_congr target l.sector from (blocks l) l.n d a sectors logged
    ∙ replay_same l.sector (blocks l) l.n d (replay l.sector (blocks l) k l.disk) a e
    ∙ replay_again l.sector (blocks l) l.n k l.disk a le

-- A disk with an empty log stands for itself.
pub pending_clean : (start : ℕ) (d : ℕ → Block) (a : ℕ) → d start 0 ≡ 0 → pending start d a ≡ d a
unfolding pending
pending_clean start d a e =
    replay_none (λ i. d start (i + 1)) (λ i. d (start + i + 1)) (d start 0) d a e

-- The blocks are installed, and the log is erased: the end of a commit and of a recovery.
abbrev pub finish : Log → Log
finish l = let l1 = install_trans l in write_head (record l1 { n = 0 })

-- The log in memory is small, its sectors lie in front of the log on the disk, and are not the super
-- block.
pub record IsHome (l : Log) : Type 0 where
  pub small : l.n < 2 ^ 31
  pub home : (i : ℕ) → i < l.n → l.sector i < l.start
  pub not_super : (i : ℕ) → i < l.n → l.sector i ≢ 1

module _ (l : Log) (h : IsHome l) where
  installed : IsInstalled l l.n (install_trans l).store
  installed = install_trans-IsInstalled l h.small h.home

  pub away : (k a : ℕ) → k ≤ l.n → l.start ≤ a → replay l.sector (blocks l) k l.disk a ≡ l.disk a
  away k a le out =
      replay_away l.sector (blocks l) k l.disk a (λ i lt. omega (arith, h.home i (omega arith)))

  -- The power fails before the log is erased.
  pub finish_cut :
      (a : ℕ) → l.power ≤ l.n → (finish l).disk a ≡ replay l.sector (blocks l) l.power l.disk a
  unfolding write_head write_through install_trans
  finish_cut a le =
      let e : min l.n l.power ≡ l.power = omega arith in
      let p = installed.power in
      ground (arith, p) ∙ installed.disk a ∙ ap (λ k. replay l.sector (blocks l) k l.disk a) e

  -- The power holds.
  pub finish_done :
      (a : ℕ)
      → l.n < l.power
      → a ≢ l.start
      → (finish l).disk a ≡ replay l.sector (blocks l) l.n l.disk a
  unfolding write_head write_through install_trans
  finish_done a lt ne =
      let e : min l.n l.power ≡ l.n = omega arith in
      let p = installed.power in
      ground (arith, p) ∙ installed.disk a ∙ ap (λ k. replay l.sector (blocks l) k l.disk a) e

  pub finish_clean : l.n < l.power → (finish l).disk l.start 0 ≡ 0
  unfolding write_head write_through install_trans
  finish_clean lt =
      let p = installed.power in
      let z =
        header-HoldsHeader (record (install_trans l) { n = 0 }) ((install_trans l).buffers l.start)
          (omega arith) in
      ground (arith, p, z.0)

  -- Whenever the power fails, the disk stands for the blocks of `l` written home, if its log holds them.
  pub finish-pending :
      (a : ℕ)
      → a < l.start
      → HoldsHeader l l.n (l.disk l.start)
      → ((i : ℕ) → i < l.n → l.disk (l.start + i + 1) ≡ blocks l i)
      → pending l.start (finish l).disk a ≡ replay l.sector (blocks l) l.n l.disk a
  finish-pending a lt head logged = elim (dec_lt l.n l.power) [
    | yes done ↦
        pending_clean l.start (finish l).disk a (finish_clean done)
        ∙ finish_done a done (omega arith)
    | no cut ↦
        let kept : (b : ℕ) → l.start ≤ b → (finish l).disk b ≡ l.disk b =
          λ b out. finish_cut b (omega arith) ∙ away l.power b (omega arith) out in
        let k = kept l.start (omega arith) in
        pending-replay l (finish l).disk l.power a
          (ap (λ b. b 0) k ∙ head.0, λ i le. ap (λ b. b (i + 1)) k ∙ head.1 i le)
          (λ i le. kept (l.start + i + 1) (omega arith) ∙ logged i le) (omega arith)
          (finish_cut a (omega arith))
  ]
