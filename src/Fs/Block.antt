-- ===== src/Fs/Block.antt =====
-- kern/fs/block.c: the super block and the bitmap of the used blocks, on top of the log. Bit `i` of a
-- bitmap block, which C finds in byte `i / 8`, is bit `i % 32` of word `i / 32`.
pub mod Bits
pub mod Room
pub mod Search
pub mod Bitmap
use mcertikos.Base.{
  ℕ, zero, suc, ◌+◌, ◌-◌, ◌/◌, ◌%◌, ◌*◌, not, ◌==◌, ltb, if◌then◌else◌, update, Option, none, some,
  ok, panic, Call, ◌>>=◌, ◌>>◌, pure, gets, modify,
}
use mcertikos.Fs.Disk.{Block, fill}
use mcertikos.Fs.Log.{Log, has_buffer, log_write}
use Bits.{bit_at, with_bit, without_bit}

-- `BPB`, and `BBLOCK`
abbrev pub bpb : ℕ
bpb = 4096

abbrev pub bblock : ℕ → ℕ → ℕ
bblock b ninodes = b / bpb + ninodes / 8 + 3

-- `struct superblock`
pub record Superblock : Type 0 where
  pub blocks : ℕ
  pub nblocks : ℕ
  pub ninodes : ℕ
  pub nlog : ℕ

unfoldable pub read_superblock : Log → Superblock
read_superblock l =
    let bp = l.buffers 1 in record { blocks = bp 0; nblocks = bp 1; ninodes = bp 2; nlog = bp 3 }

-- The caller puts a block into a buffer and logs it: the writes to `bp->data`, and `log_write(bp)`.
abbrev pub log_block : ℕ → Block → Call Log (Unit {0})
log_block bno data' = do modify (λ l. record l { store = fill bno data' l.store }); log_write bno

unfoldable pub block_zero : ℕ → Call Log (Unit {0})
block_zero bno = log_block bno (λ _. 0)

-- `data[bi / 8] & m`, with `|= m` and `&= ~m`, where `m` is `1 << (bi % 8)`
unfoldable pub get_bit : Block → ℕ → ℕ
unfolding bit_at
get_bit x bi = bit_at (bi % 32) (x (bi / 32))

unfoldable pub set_bit : Block → ℕ → Block
unfolding with_bit
set_bit x bi = update x (bi / 32) (with_bit (bi % 32) (x (bi / 32)))

unfoldable pub clear_bit : Block → ℕ → Block
unfolding without_bit
clear_bit x bi = update x (bi / 32) (without_bit (bi % 32) (x (bi / 32)))

-- The inner loop of `block_alloc`: the first free bit of one bitmap block.
unfoldable pub find_bit : Block → (b size : ℕ) → (rounds bi : ℕ) → Option ℕ
unfolding get_bit
find_bit x b size zero bi = none
find_bit x b size (suc rounds) bi =
    let rest = find_bit x b size rounds (bi + 1) in
    if ltb (b + bi) size then (if get_bit x bi == 0 then some bi else rest) else none

-- The outer loop, over the bitmap blocks.
unfoldable pub find_block : Log → Superblock → (rounds b : ℕ) → Option (ℕ × ℕ)
unfolding find_bit
find_block l sb zero b = none
find_block l sb (suc rounds) b =
    let rest = find_block l sb rounds (b + bpb) in
    elim (find_bit (l.buffers (bblock b sb.ninodes)) b sb.blocks bpb 0) [
      | some bi ↦ some (b, bi)
      | none ↦ rest
    ]

-- What `block_alloc` does with the bit that it finds.
unfoldable pub take_block : ℕ → (b bi : ℕ) → Call Log ℕ
unfolding block_zero set_bit
take_block ninodes b bi = do
  bp ← gets (λ l. l.buffers (bblock b ninodes))
  log_block (bblock b ninodes) (set_bit bp bi)
  block_zero (b + bi)
  pure (b + bi)

-- The buffer of the super block is the first one that `block_alloc` needs. It is free again for the next one.
unfoldable pub block_alloc : Call Log ℕ
unfolding read_superblock find_block take_block
block_alloc l =
    let sb = read_superblock l in
    let rounds = (sb.blocks + bpb - 1) / bpb in
    if has_buffer l
    then elim (find_block l sb rounds 0) [
      | none ↦ panic
      | some (b, bi) ↦ take_block sb.ninodes b bi l
    ]
    else panic

unfoldable pub block_free : ℕ → Call Log (Unit {0})
unfolding read_superblock get_bit clear_bit
block_free b l =
    let sb = read_superblock l in
    let bp = l.buffers (bblock b sb.ninodes) in
    let bi = b % bpb in
    if not (has_buffer l)
    then panic
    else if get_bit bp bi == 0
    then panic
    else log_block (bblock b sb.ninodes) (clear_bit bp bi) l
