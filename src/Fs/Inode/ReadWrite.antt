-- ===== src/Fs/Inode/ReadWrite.antt =====
-- kern/fs/inode.c: `inode_read` and `inode_write`. The bytes of a block are those of its words, and the
-- memory of the caller is a function from the offset to the byte. `devsw` is a null pointer that the kernel never
-- sets, so an access to a device that passes the tests of its number traps.
pub mod Packing
pub mod Mapped
pub mod Read
use mcertikos.Base.{
  ℕ, zero, suc, ◌+◌, ◌-◌, ◌*◌, ◌/◌, ◌%◌, ◌^◌, min, Bool, ◌&&◌, ◌||◌, ◌==◌, ltb, leb, if◌then◌else◌,
  Option, none, some, ok, hang, panic, Call, ◌>>=◌, ◌>>◌, pure, gets, modify,
}
use mcertikos.Strings.{Bytes, byte_of}
use mcertikos.Fs.Disk.{Block}
use mcertikos.Fs.Block.{log_block}
use mcertikos.Fs.Inode.{
  ndirect, nindirect, Content, Inode, Inodes, set_inode, in_log, bmap, inode_update,
}

-- `BSIZE`, `MAXFILE`, `T_DEV` and `NDEV`
abbrev pub bsize : ℕ
bsize = 512

abbrev pub maxfile : ℕ
maxfile = ndirect + nindirect

abbrev pub t_dev : ℕ
t_dev = 3

abbrev pub ndev : ℕ
ndev = 10

-- Byte `i` of a block, and the block of given bytes.
unfoldable pub byte_at : Block → ℕ → ℕ
byte_at x i = byte_of (x (i / 4)) (i % 4)

unfoldable pub of_bytes : Bytes → Block
of_bytes b i = b (4 * i) + 2 ^ 8 * b (4 * i + 1) + 2 ^ 16 * b (4 * i + 2) + 2 ^ 24 * b (4 * i + 3)

-- `memmove(dst, bp->data + o, m)`, and `memmove(bp->data + o, src, m)`, where `dst` and `src` have gone on by `tot`
abbrev pub copy_out : Block → (o tot m : ℕ) → Bytes → Bytes
copy_out x o tot m dst j = if leb tot j && ltb j (tot + m) then byte_at x (o + (j - tot)) else dst j

abbrev pub copy_in : Bytes → (o tot m : ℕ) → Block → Block
copy_in src o tot m x =
    of_bytes (λ j. if leb o j && ltb j (o + m) then src (tot + (j - o)) else byte_at x j)

-- The test of a device number, an `int16_t`.
abbrev pub is_bad_device : Inode → Bool
is_bad_device x = leb (2 ^ 15) x.major || leb ndev x.major

-- How much a round copies.
abbrev pub chunk : (n tot off : ℕ) → ℕ
chunk n tot off = min (n - tot) (bsize - off % bsize)

-- `bufcache_read(ip->dev, bmap(ip, off / BSIZE))`, for its data
unfoldable pub read_block : (ip bn : ℕ) → Call Inodes Block
unfolding bmap
read_block ip bn = do block ← bmap ip bn; gets (λ s. s.log.buffers block)

-- The loop of `inode_read`; each round copies a byte at least, so `n` rounds are enough.
unfoldable pub read_loop : (ip n : ℕ) → (fuel tot off : ℕ) → Bytes → Call Inodes Bytes
unfolding read_block
read_loop ip n zero tot off dst s = if ltb tot n then hang else ok (dst, s)
read_loop ip n (suc fuel) tot off dst s =
    let m = chunk n tot off in
    let rest = read_loop ip n fuel (tot + m) (off + m) in
    if ltb tot n
    then (read_block ip (off / bsize) >>= λ x. rest (copy_out x (off % bsize) tot m dst)) s
    else ok (dst, s)

-- The result -1 is `none`, and otherwise the number of the bytes comes with the bytes.
unfoldable pub inode_read : (ip : ℕ) → (off n : ℕ) → Bytes → Call Inodes (Option (ℕ × Bytes))
unfolding read_loop
inode_read ip off n dst s =
    let x = s.inode ip in
    let n' = if ltb x.size (off + n) then x.size - off else n in
    if x.kind == t_dev
    then (if is_bad_device x then ok (none, s) else panic)
    else if ltb x.size off || ltb ((off + n) % 2 ^ 32) off
    then ok (none, s)
    else (do dst ← read_loop ip n' n' 0 off dst; pure (some (n', dst))) s

unfoldable pub write_loop : (ip n : ℕ) → Bytes → (fuel tot off : ℕ) → Call Inodes ℕ
unfolding bmap of_bytes byte_at
write_loop ip n src zero tot off s = if ltb tot n then hang else ok (off, s)
write_loop ip n src (suc fuel) tot off s =
    let m = chunk n tot off in
    let rest = write_loop ip n src fuel (tot + m) (off + m) in
    if ltb tot n
    then (do
      block ← bmap ip (off / bsize)
      x ← gets (λ s. s.log.buffers block)
      in_log (log_block block (copy_in src (off % bsize) tot m x))
      rest)
        s
    else ok (off, s)

-- The end of `inode_write`, with the offset behind the loop.
unfoldable pub grow : (ip n off : ℕ) → Call Inodes (Unit {0})
unfolding inode_update
grow ip n off s =
    if ltb 0 n && ltb (s.inode ip).size off
    then (do
      modify (set_inode ip (λ x. record x { content = record x.content { size = off } }))
      inode_update ip)
        s
    else ok (tt, s)

unfoldable pub inode_write : (ip : ℕ) → Bytes → (off n : ℕ) → Call Inodes (Option ℕ)
unfolding write_loop grow
inode_write ip src off n s =
    let x = s.inode ip in
    if x.kind == t_dev
    then (if is_bad_device x then ok (none, s) else panic)
    else if ltb x.size off || ltb ((off + n) % 2 ^ 32) off
    then ok (none, s)
    else if ltb (maxfile * bsize) (off + n)
    then ok (none, s)
    else (do off' ← write_loop ip n src n 0 off; grow ip n off'; pure (some n)) s
