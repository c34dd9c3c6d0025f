-- ===== src/Fs/Bufcache.antt =====
-- kern/fs/bufcache.c, with `ide_rw` of kern/dev/disk/ide.c for one request at a time. The ring of
-- buffers through `prev` and `next` is the list of its buffers from `head.next` on, each flag is a
-- Boolean, and a call that sleeps on a busy buffer hangs, as nobody releases it meanwhile.
pub mod View
pub mod Read
pub mod Cycle
use mcertikos.Base.{
  ℕ, suc, ◌+◌, ◌%◌, ◌^◌, Bool, true, false, not, ◌&&◌, ◌||◌, ◌==◌, if◌then◌else◌, update, List, [],
  ◌∷◌, Option, none, some, ok, hang, panic, Call, ◌>>=◌, ◌>>◌, pure, gets, modify, for_range,
}
use mcertikos.Fs.Disk.{Block, nbuf}

-- `struct buf`, with `flags` as `B_BUSY`, `B_VALID` and `B_DIRTY`
pub record Buf : Type 0 where
  pub busy : Bool
  pub valid : Bool
  pub dirty : Bool
  pub dev : ℕ
  pub sector : ℕ
  pub contents : Block

-- `bcache`, and the disks with `havedisk1`
pub record Cache : Type 0 where
  pub buf : ℕ → Buf
  pub order : List ℕ
  pub disk : ℕ → ℕ → Block
  pub havedisk1 : Bool

abbrev pub set_buf : ℕ → Buf → Cache → Cache
set_buf b x c = record c { buf = update c.buf b x }

-- The loop puts each buffer, of device -1, in front of the ring.
unfoldable pub bufcache_init : Cache → Cache
bufcache_init c =
    for_range nbuf 0
      (λ b c. record c {
        buf = update c.buf b (record (c.buf b) { dev = 0xffff_ffff });
        order = b ∷ c.order;
      })
      (record c { order = [] })

-- The walk along `next` to the first buffer that passes.
unfoldable pub find_next : (ℕ → Bool) → List ℕ → Option ℕ
find_next test [] = none
find_next test (b ∷ bs) = let rest = find_next test bs in if test b then some b else rest

-- The walk along `prev`, from the end of the list.
unfoldable pub find_prev : (ℕ → Bool) → List ℕ → Option ℕ
find_prev test [] = none
find_prev test (b ∷ bs) =
    let rest = find_prev test bs in
    elim rest [ some found ↦ some found | none ↦ if test b then some b else none ]

abbrev pub holds : ℕ → ℕ → Buf → Bool
holds dev sector x = (x.dev == dev) && (x.sector == sector)

abbrev pub is_spare : Buf → Bool
is_spare x = not x.busy && not x.dirty

unfoldable pub recycle : ℕ → ℕ → Call Cache ℕ
unfolding find_prev
recycle dev sector c = elim (find_prev (λ b. is_spare (c.buf b)) c.order) [
  | none ↦ panic
  | some b ↦ ok (
    b,
    set_buf b
        (record (c.buf b) { busy = true; valid = false; dirty = false; dev = dev; sector = sector })
        c,
  )
]

unfoldable pub bufcache_get : ℕ → ℕ → Call Cache ℕ
unfolding find_next recycle
bufcache_get dev sector c = elim (find_next (λ b. holds dev sector (c.buf b)) c.order) [
  | none ↦ recycle dev sector c
  | some b ↦ if (c.buf b).busy then hang else ok (b, set_buf b (record (c.buf b) { busy = true }) c)
]

-- The place on a disk that `ide_start` asks for: `b->dev & 1`, and 28 bits of the sector.
abbrev pub on_disk : (ℕ → ℕ → Block) → ℕ → ℕ → Block
on_disk disk dev sector = disk (dev % 2) (sector % 2 ^ 28)

abbrev pub put_disk : (ℕ → ℕ → Block) → ℕ → ℕ → Block → ℕ → ℕ → Block
put_disk disk dev sector x = update disk (dev % 2) (update (disk (dev % 2)) (sector % 2 ^ 28) x)

-- What `ide_start` and `ide_intr` do for one buffer.
unfoldable pub transfer : ℕ → Cache → Cache
transfer b c =
    let x = c.buf b in
    if x.dirty
    then record (set_buf b (record x { valid = true; dirty = false }) c) {
      disk = put_disk c.disk x.dev x.sector x.contents;
    }
    else set_buf b
        (record x { valid = true; dirty = false; contents = on_disk c.disk x.dev x.sector }) c

unfoldable pub ide_rw : ℕ → Call Cache (Unit {0})
unfolding transfer
ide_rw b c =
    let x = c.buf b in
    if not x.busy
    then panic
    else if x.valid && not x.dirty
    then panic
    else if not (x.dev == 0) && not c.havedisk1
    then panic
    else ok (tt, transfer b c)

unfoldable pub read_if : ℕ → Call Cache ℕ
unfolding ide_rw
read_if b c = if not (c.buf b).valid then (ide_rw b >> pure b) c else ok (b, c)

unfoldable pub bufcache_read : ℕ → ℕ → Call Cache ℕ
unfolding bufcache_get read_if
bufcache_read dev sector = do b ← bufcache_get dev sector; read_if b

unfoldable pub bufcache_write : ℕ → Call Cache (Unit {0})
unfolding ide_rw
bufcache_write b c =
    if not (c.buf b).busy then panic else ide_rw b (set_buf b (record (c.buf b) { dirty = true }) c)

-- The buffer is taken out of the ring.
unfoldable pub without : ℕ → List ℕ → List ℕ
without b [] = []
without b (x ∷ xs) = let rest = without b xs in if x == b then xs else x ∷ rest

unfoldable pub bufcache_release : ℕ → Call Cache (Unit {0})
unfolding without
bufcache_release b c =
    if not (c.buf b).busy
    then panic
    else ok (
      tt,
      record (set_buf b (record (c.buf b) { busy = false }) c) { order = b ∷ without b c.order },
    )
