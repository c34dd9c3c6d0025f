-- ===== src/Fs/Inode.antt =====
-- kern/fs/inode.c: the cache of the inodes in use, and what they hold. A pointer to an inode is its
-- index in the cache, a null pointer is left to the callers, and each flag is a Boolean. The 16-bit
-- fields are bit patterns. `ref` is an `int` whose overflow C leaves undefined. The lock of the cache is
-- held inside one call only, and sleeping on a busy inode hangs, as nobody unlocks it meanwhile.
pub mod Disk
pub mod Count
pub mod Refs
pub mod ReadWrite
use mcertikos.Base.{
  ℕ, zero, suc, ◌+◌, ◌-◌, ◌*◌, ◌/◌, ◌%◌, ◌^◌, Bool, true, false, not, ◌&&◌, ◌||◌, ◌==◌, ltb,
  if◌then◌else◌, update, Option, none, some, ok, hang, panic, Call, ◌>>=◌, ◌>>◌, pure, gets, modify,
  lift,
}
use mcertikos.Fs.Disk.{Block}
use mcertikos.Fs.Log.{Log, holding}
use mcertikos.Fs.Block.{read_superblock, log_block, block_alloc, block_free}

-- `NINODE`, `NDIRECT` and `NINDIRECT`
abbrev pub ninode : ℕ
ninode = 50

abbrev pub ndirect : ℕ
ndirect = 12

abbrev pub nindirect : ℕ
nindirect = 128

-- What `struct dinode` and `struct inode` have in common
pub record Content : Type 0 where
  pub kind : ℕ
  pub major : ℕ
  pub minor : ℕ
  pub nlink : ℕ
  pub size : ℕ
  pub addrs : ℕ → ℕ

-- `struct inode`, with `flags` as `I_BUSY` and `I_VALID`
pub record Inode : Type 0 where
  pub dev : ℕ
  pub inum : ℕ
  pub ref : ℕ
  pub busy : Bool
  pub valid : Bool
  pub content : Content
  pub open content use *

-- `inode_cache`, on top of the log
pub record Inodes : Type 0 where
  pub log : Log
  pub inode : ℕ → Inode

abbrev pub set_inode : ℕ → (Inode → Inode) → Inodes → Inodes
set_inode ip f s = record s { inode = update s.inode ip (f (s.inode ip)) }

abbrev pub in_log {ℓ} : {A : Type ℓ} → Call Log A → Call Inodes A
in_log m = lift (λ s. s.log) (λ s l. record s { log = l }) m

-- `IBLOCK`, and the first word of an inode in its block
abbrev pub iblock : ℕ → ℕ
iblock inum = inum / 8 + 2

abbrev pub islot : ℕ → ℕ
islot inum = 16 * (inum % 8)

-- `dip` in a block, and the block with a new `dip`
unfoldable pub read_dinode : ℕ → Block → Content
read_dinode inum x =
    let w = islot inum in
    record {
      kind = x w % 2 ^ 16;
      major = x w / 2 ^ 16;
      minor = x (w + 1) % 2 ^ 16;
      nlink = x (w + 1) / 2 ^ 16;
      size = x (w + 2);
      addrs = λ k. x (w + 3 + k);
    }

unfoldable pub write_dinode : ℕ → Content → Block → Block
write_dinode inum c x i =
    let w = islot inum in
    if i == w
    then c.kind + 2 ^ 16 * c.major
    else if i == w + 1
    then c.minor + 2 ^ 16 * c.nlink
    else if i == w + 2
    then c.size
    else if ltb (w + 2) i && ltb i (w + 16)
    then c.addrs (i - (w + 3))
    else x i

-- The loop of `inode_get`: the entry of the inode, and the empty one that it remembers.
unfoldable pub find_inode :
    (ℕ → Inode) → (dev inum : ℕ) → (rounds ip : ℕ) → Option ℕ → Option ℕ × Option ℕ
find_inode inode dev inum zero ip empty = (none, empty)
find_inode inode dev inum (suc rounds) ip empty =
    let next : Option ℕ = elim empty [
      | some e ↦ some e
      | none ↦ if (inode ip).ref == 0 then some ip else none
    ] in
    let rest = find_inode inode dev inum rounds (ip + 1) next in
    if ltb 0 (inode ip).ref && (inode ip).dev == dev && (inode ip).inum == inum
    then (some ip, empty)
    else rest

-- What `inode_get` does with the two entries.
unfoldable pub take_entry : (dev inum : ℕ) → Option ℕ × Option ℕ → Call Inodes ℕ
take_entry dev inum (some ip, empty) s = ok (ip, set_inode ip (λ x. record x { ref = x.ref + 1 }) s)
take_entry dev inum (none, some ip) s = ok (
  ip,
  set_inode ip (λ x. record x { dev = dev; inum = inum; ref = 1; busy = false; valid = false }) s,
)
take_entry dev inum (none, none) s = panic

unfoldable pub inode_get : (dev inum : ℕ) → Call Inodes ℕ
inode_get dev inum s = take_entry dev inum (find_inode s.inode dev inum ninode 0 none) s

unfoldable pub inode_dup : ℕ → Call Inodes ℕ
inode_dup ip s = ok (ip, set_inode ip (λ x. record x { ref = x.ref + 1 }) s)

-- The search of `inode_alloc` for an inode of type 0.
unfoldable pub find_free : (ℕ → Block) → (ninodes : ℕ) → (rounds inum : ℕ) → Option ℕ
unfolding read_dinode
find_free buffers ninodes zero inum = none
find_free buffers ninodes (suc rounds) inum =
    let rest = find_free buffers ninodes rounds (inum + 1) in
    if (read_dinode inum (buffers (iblock inum))).kind == 0 then some inum else rest

-- `memset(dip, 0, sizeof(*dip))` and `dip->type = type`
abbrev pub fresh : ℕ → Content
fresh kind = record { kind = kind; major = 0; minor = 0; nlink = 0; size = 0; addrs = λ _. 0 }

unfoldable pub inode_alloc : (dev kind : ℕ) → Call Inodes ℕ
unfolding find_free write_dinode inode_get
inode_alloc dev kind s =
    let ninodes = (read_superblock s.log).ninodes in
    elim (find_free s.log.buffers ninodes (ninodes - 1) 1) [
      | none ↦ panic
      | some inum ↦
          (in_log (
                log_block (iblock inum)
                  (write_dinode inum (fresh kind) (s.log.buffers (iblock inum))))
              >> inode_get dev inum)
            s
    ]

unfoldable pub inode_update : ℕ → Call Inodes (Unit {0})
unfolding write_dinode
inode_update ip s =
    let x = s.inode ip in
    in_log
      (log_block (iblock x.inum) (write_dinode x.inum x.content (s.log.buffers (iblock x.inum)))) s

-- The part of `inode_lock` that reads the inode.
unfoldable pub load_inode : ℕ → Call Inodes (Unit {0})
unfolding read_dinode
load_inode ip s =
    let x = s.inode ip in
    let c = read_dinode x.inum (s.log.buffers (iblock x.inum)) in
    if x.valid
    then ok (tt, s)
    else if c.kind == 0
    then panic
    else ok (tt, set_inode ip (λ x. record x { valid = true; content = c }) s)

unfoldable pub inode_lock : ℕ → Call Inodes (Unit {0})
unfolding load_inode
inode_lock ip s =
    if (s.inode ip).ref == 0
    then panic
    else if (s.inode ip).busy
    then hang
    else load_inode ip (set_inode ip (λ x. record x { busy = true }) s)

unfoldable pub inode_unlock : ℕ → Call Inodes (Unit {0})
inode_unlock ip s =
    if not (s.inode ip).busy || (s.inode ip).ref == 0
    then panic
    else ok (tt, set_inode ip (λ x. record x { busy = false }) s)

abbrev pub set_addr : ℕ → ℕ → Inode → Inode
set_addr k addr x = record x { content = record x.content { addrs = update x.addrs k addr } }

-- The first loop of `inode_trunc`.
unfoldable pub free_direct : ℕ → (rounds i : ℕ) → Call Inodes (Unit {0})
free_direct ip zero i s = ok (tt, s)
free_direct ip (suc rounds) i s =
    let rest = free_direct ip rounds (i + 1) in
    let addr = (s.inode ip).addrs i in
    if addr == 0
    then rest s
    else (do in_log (block_free addr); modify (set_inode ip (set_addr i 0)); rest) s

-- Its second loop, over the words `a` of the indirect block `addr`.
unfoldable pub free_indirect : (addr : ℕ) → Block → (rounds j : ℕ) → Call Inodes (Unit {0})
free_indirect addr a zero j s = ok (tt, s)
free_indirect addr a (suc rounds) j s =
    let rest = free_indirect addr a rounds (j + 1) in
    if a j == 0 then rest s else (in_log (holding addr (block_free (a j))) >> rest) s

-- What `inode_trunc` does about the indirect block.
unfoldable pub drop_indirect : ℕ → Call Inodes (Unit {0})
unfolding free_indirect
drop_indirect ip s =
    let addr = (s.inode ip).addrs ndirect in
    if addr == 0
    then ok (tt, s)
    else (do
      free_indirect addr (s.log.buffers addr) nindirect 0
      in_log (block_free addr)
      modify (set_inode ip (set_addr ndirect 0)))
        s

unfoldable pub inode_trunc : ℕ → Call Inodes (Unit {0})
unfolding free_direct drop_indirect inode_update
inode_trunc ip = do
  free_direct ip ndirect 0
  drop_indirect ip
  modify (set_inode ip (λ x. record x { content = record x.content { size = 0 } }))
  inode_update ip

-- What `inode_put` does with the last reference to an inode without links.
unfoldable pub free_inode : ℕ → Call Inodes (Unit {0})
unfolding inode_trunc inode_update
free_inode ip s =
    if (s.inode ip).busy
    then panic
    else (do
      modify (set_inode ip (λ x. record x { busy = true }))
      inode_trunc ip
      modify (set_inode ip (λ x. record x { content = record x.content { kind = 0 } }))
      inode_update ip
      modify (set_inode ip (λ x. record x { busy = false; valid = false })))
        s

abbrev pub is_last : Inode → Bool
is_last x = x.ref == 1 && x.valid && x.nlink == 0

unfoldable pub inode_put : ℕ → Call Inodes (Unit {0})
unfolding free_inode
inode_put ip s =
    let drop = modify (set_inode ip (λ x. record x { ref = x.ref - 1 })) in
    if is_last (s.inode ip) then (free_inode ip >> drop) s else drop s

unfoldable pub inode_unlockput : ℕ → Call Inodes (Unit {0})
unfolding inode_unlock inode_put
inode_unlockput ip = do inode_unlock ip; inode_put ip

-- `bmap` for a direct block, and for an indirect one.
unfoldable pub bmap_direct : ℕ → (bn : ℕ) → Call Inodes ℕ
bmap_direct ip bn s =
    let addr = (s.inode ip).addrs bn in
    if addr == 0
    then (do addr ← in_log block_alloc; modify (set_inode ip (set_addr bn addr)); pure addr) s
    else ok (addr, s)

unfoldable pub bmap_indirect : (block bn : ℕ) → Call Inodes ℕ
bmap_indirect block bn s =
    let a = s.log.buffers block in
    if a bn == 0
    then (do
      addr ← in_log (holding block block_alloc)
      in_log (log_block block (update a bn addr))
      pure addr)
        s
    else ok (a bn, s)

unfoldable pub bmap : ℕ → (bn : ℕ) → Call Inodes ℕ
unfolding bmap_direct bmap_indirect
bmap ip bn =
    if ltb bn ndirect
    then bmap_direct ip bn
    else if ltb (bn - ndirect) nindirect
    then (do block ← bmap_direct ip ndirect; bmap_indirect block (bn - ndirect))
    else λ s. panic

-- `struct file_stat`
pub record Stat : Type 0 where
  pub kind : ℕ
  pub dev : ℕ
  pub ino : ℕ
  pub nlink : ℕ
  pub size : ℕ

unfoldable pub inode_stat : Inode → Stat
inode_stat x = record { kind = x.kind; dev = x.dev; ino = x.inum; nlink = x.nlink; size = x.size }
