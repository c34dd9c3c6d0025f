-- ===== src/Fs/Log.antt =====
-- kern/fs/log.c: the redo log. The header block is overlaid with `struct logheader`: word 0 is `n`,
-- and word `i + 1` is `sector[i]`. The sectors of a transaction lie outside of the log, as no buffer is
-- read while it is held. `begin_trans` and `commit_trans` run under `log.lock`, so that a call is
-- modelled from one lock to the next; `thread_sleep` with nobody to wake the caller hangs.
pub mod Replay
pub mod Absorb
pub mod Commit
pub mod Recovery
pub mod Crash
pub mod Transaction
use mcertikos.Base.{
  ℕ, zero, suc, ◌+◌, ◌-◌, ◌^◌, Bool, ◌||◌, ◌==◌, ltb, leb, if◌then◌else◌, update, for_range, ok,
  hang, panic, Outcome, Call, ◌>>=◌, ◌>>◌, pure, gets, modify,
}
use mcertikos.Fs.Disk.{Block, Store, nbuf, fill, write_through, reboot}

abbrev pub log_size : ℕ
log_size = 10

-- `struct log`, with `lh.n` and `lh.sector` of its header, in front of the disk. The `n` logged buffers are
-- the dirty ones, which `bufcache_get` does not recycle; `pinned` is the number of the clean buffers that
-- a caller holds while it calls on.
pub record Log : Type 0 where
  pub store : Store
  pub open store use *
  pub start : ℕ
  pub size : ℕ
  pub busy : ℕ
  pub n : ℕ
  pub sector : ℕ → ℕ
  pub pinned : ℕ

-- The rounds of `for (i = 0; i < n; i++)`, where `n` is an `int`.
abbrev pub rounds : ℕ → ℕ
rounds n = if ltb n (2 ^ 31) then n else 0

-- One round of `install_trans`: `memmove(dbuf->data, lbuf->data, BSIZE)` and `bufcache_write(dbuf)`.
unfoldable pub install_block : Log → ℕ → Store → Store
install_block l tail s = write_through (l.sector tail) (s.buffers (l.start + tail + 1)) s

unfoldable pub install_trans : Log → Log
unfolding install_block
install_trans l = record l { store = for_range (rounds l.n) 0 (install_block l) l.store }

unfoldable pub read_head : Log → Log
read_head l =
    let lh = l.buffers l.start in
    let n = lh 0 in
    record l { n = n; sector = for_range (rounds n) 0 (λ i s. update s i (lh (i + 1))) l.sector }

-- The header block that `write_head` makes of a buffer.
unfoldable pub header : Log → Block → Block
header l hb = for_range (rounds l.n) 0 (λ i b. update b (i + 1) (l.sector i)) (update hb 0 l.n)

unfoldable pub write_head : Log → Log
unfolding header
write_head l = record l { store = write_through l.start (header l (l.buffers l.start)) l.store }

unfoldable pub recover_from_log : Log → Log
unfolding read_head install_trans write_head
recover_from_log l = let l1 = install_trans (read_head l) in write_head (record l1 { n = 0 })

-- `log_init` on a machine that starts: the fields are zero, and the super block is sector 1, with `size`
-- in word 0 and `nlog` in word 3. The lock is set up by `spinlock_init`.
unfoldable pub log_init : Store → Log
unfolding recover_from_log
log_init s =
    let sb = s.buffers 1 in
    recover_from_log (record {
      store = s;
      start = sb 0 - sb 3;
      size = sb 3;
      busy = 0;
      n = 0;
      sector = λ _. 0;
      pinned = 0;
    })

unfoldable pub begin_trans : Call Log (Unit {0})
begin_trans l = if l.busy == 0 then ok (tt, record l { busy = 1 }) else hang

-- The part of `commit_trans` that writes the disk.
unfoldable pub write_trans : Log → Log
unfolding write_head install_trans
write_trans l =
    if ltb 0 (rounds l.n)
    then (let l1 = install_trans (write_head l) in write_head (record l1 { n = 0 }))
    else l

unfoldable pub commit_trans : Log → Log
unfolding write_trans
commit_trans l = record (write_trans l) { busy = 0 }

-- The loop of `log_write` that looks for the sector: the first `i` with it, or `log.lh.n`.
unfoldable pub find_sector : (ℕ → ℕ) → ℕ → (rounds i : ℕ) → ℕ
find_sector sector s zero i = i
find_sector sector s (suc rounds) i =
    let rest = find_sector sector s rounds (i + 1) in if sector i == s then i else rest

-- What `log_write` does when neither guard panics.
unfoldable pub append_block : ℕ → Log → Log
unfolding find_sector
append_block b l =
    let i = find_sector l.sector b l.n 0 in
    record l {
      sector = update l.sector i b;
      store = write_through (l.start + i + 1) (l.buffers b) l.store;
      n = if i == l.n then l.n + 1 else l.n;
    }

-- The number of the dirty or busy buffers in `log_write`: the logged ones, the one of the sector `b`, and those
-- that are held.
abbrev pub in_use : ℕ → Log → ℕ
in_use b l = (if find_sector l.sector b l.n 0 == l.n then l.n + 1 else l.n) + l.pinned

-- `bufcache_get` of a sector that is not logged and not held finds a buffer to recycle.
abbrev pub has_buffer : Log → Bool
has_buffer l = ltb (l.n + l.pinned) nbuf

-- A call under which its caller holds the buffer of `b`, which counts unless it is dirty.
abbrev pub holding {ℓ} : {A : Type ℓ} → ℕ → Call Log A → Call Log A
holding b m l =
    let more = if find_sector l.sector b l.n 0 == l.n then 1 else 0 in
    (m >>= λ a t. ok (a, record t { pinned = l.pinned })) (record l { pinned = l.pinned + more })

-- `log_write` of the buffer that holds the sector `b`; the last panic is that of `bufcache_get`, for the block
-- of the log.
unfoldable pub log_write : ℕ → Call Log (Unit {0})
unfolding append_block
log_write b l =
    if leb log_size l.n || leb (l.size - 1) l.n
    then panic
    else if l.busy == 0
    then panic
    else if leb nbuf (in_use b l)
    then panic
    else ok (tt, append_block b l)
