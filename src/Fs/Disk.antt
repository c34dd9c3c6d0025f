-- ===== src/Fs/Disk.antt =====
-- The disk under the log of kern/fs: blocks of 128 words, the buffers in front of it, and a power
-- supply that may fail between two writes.
use mcertikos.Base.{ℕ, ◌-◌, ◌==◌, if◌then◌else◌, update}

-- `data` of `struct buf`, read as words
abbrev pub Block : Type 0
Block = ℕ → ℕ

-- `NBUF`, the number of the buffers
abbrev pub nbuf : ℕ
nbuf = 10

-- `buffers` is what `bufcache_read` gives for a sector, `disk` what lies on the platter, and `power`
-- the number of writes that still reach it. Which of the `nbuf` buffers holds a sector is left to
-- Fs/Bufcache; that the buffers are enough is what `log_write` and `has_buffer` of Fs/Log test.
pub record Store : Type 0 where
  pub disk : ℕ → Block
  pub buffers : ℕ → Block
  pub power : ℕ

-- The caller changes `data` of a buffer that it holds.
abbrev pub fill : ℕ → Block → Store → Store
fill sector block s = record s { buffers = update s.buffers sector block }

-- `bufcache_write` of a buffer whose `data` has been changed to the given block
unfoldable pub write_through : ℕ → Block → Store → Store
write_through sector block s = record {
  disk = if s.power == 0 then s.disk else update s.disk sector block;
  buffers = update s.buffers sector block;
  power = s.power - 1;
}

-- The machine starts again: the cache is cold, and the power may fail once more.
abbrev pub reboot : (ℕ → Block) → ℕ → Store
reboot disk power = record { disk = disk; buffers = disk; power = power }
