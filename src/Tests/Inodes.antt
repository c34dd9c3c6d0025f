-- ===== src/Tests/Inodes.antt =====
-- The theorems of kern/fs above the log, at concrete states.
use mcertikos.Base.{
  ℕ, zero, suc, ◌+◌, ◌-◌, ◌%◌, ◌<◌, ◌≤◌, min, ◌≡◌, ◌≢◌, ◌⊎◌, refl, ap, arith, true, false, ◌==◌,
  if◌then◌else◌, List, [], ◌∷◌, ok, panic, none, some,
}
use mcertikos.Strings.{Bytes}
use mcertikos.Fs.Disk.{Block, reboot}
use mcertikos.Fs.Log.{Log}
use mcertikos.Fs.Block.{bblock, read_superblock, get_bit, block_alloc, block_free}
use mcertikos.Fs.Block.Bits.{bit_at}
use mcertikos.Fs.Block.Room.{HasRoom}
use mcertikos.Fs.Block.Search.{used}
use mcertikos.Fs.Block.Bitmap.{HasBitmap, IsAllocated, block_alloc_total, block_free_total}
use mcertikos.Fs.Inode.{
  ninode, Content, Inode, Inodes, set_inode, iblock, find_inode, take_entry, inode_get,
  inode_update,
}
use mcertikos.Fs.Inode.Count.{Counts}
use mcertikos.Fs.Inode.Refs.{IsTaken, inode_get_total}
use mcertikos.Fs.Inode.Disk.{SameContent, on_disk, inode_update_total}
use mcertikos.Fs.Inode.ReadWrite.{inode_read}
use mcertikos.Fs.Inode.ReadWrite.Mapped.{block_of}
use mcertikos.Fs.Inode.ReadWrite.Read.{file_byte, IsWhole, inode_read_total}
use mcertikos.Fs.Path.Elements.{names, spell, elements, names-spell}
use mcertikos.Fs.Dir.{dir_lookup}
use mcertikos.Fs.Dir.Lookup.{IsDir}
use mcertikos.Fs.Dir.Named.{HasName, get_at, dir_lookup_total}
use mcertikos.Fs.File.{fd_inode, File, Files, file_dup, file_close, file_read}
use mcertikos.Fs.File.Refs.{file_close-file_dup}
use mcertikos.Fs.File.Read.{file_read_total}

-- A file system of 20 blocks, with a bitmap in block 4 that marks the first five as used, and a log behind it.
abbrev blocks : ℕ → Block
blocks a i =
    if a == 1
    then (if i == 0 then 20 else if i == 2 then 8 else 0)
    else if a == 4
    then (if i == 0 then 31 else 0)
    else a + i

abbrev log : Log
log = record {
  store = reboot blocks 100;
  start = 20;
  size = 10;
  busy = 1;
  n = 0;
  sector = λ _. 0;
  pinned = 0;
}

log-HasRoom : HasRoom 2 log
log-HasRoom = record { busy = refl; small = omega arith; fits = omega arith }

log-HasRoom_one : HasRoom 1 log
log-HasRoom_one = record { busy = refl; small = omega arith; fits = omega arith }

four : (b : ℕ) → b < 20 → bblock b 8 ≡ 4
four b lt = omega arith

log-HasBitmap : HasBitmap log
unfolding read_superblock used get_bit bit_at
log-HasBitmap = record {
  in_front = λ b lt. omega (arith, four b lt);
  super_used = λ e. omega arith;
  bitmap_used = λ b lt e.
      let one : used (read_superblock log) log 4 ≡ 1 = refl in
      omega (arith, one, ap (used (read_superblock log) log) (four b lt));
  log_used = λ b lo hi. absurd (omega arith);
}

block_alloc_total_example :
    (((j : ℕ) → j < (read_superblock log).blocks → used (read_superblock log) log j ≢ 0)
      × (block_alloc log ≡ panic))
    ⊎ ((r : ℕ) × (l' : Log) × (block_alloc log ≡ ok (r, l')) × IsAllocated log r l')
block_alloc_total_example = block_alloc_total log log-HasBitmap log-HasRoom

block_free_total_example :
    ((used (read_superblock log) log 2 ≡ 0) × (block_free 2 log ≡ panic))
    ⊎ ((used (read_superblock log) log 2 ≢ 0)
        × (l' : Log) × (block_free 2 log ≡ ok (tt, l'))
        × ((j : ℕ)
            → j < (read_superblock log).blocks
            → used (read_superblock log) l' j
              ≡ (if 2 == j then 0 else used (read_superblock log) log j)))
unfolding read_superblock
block_free_total_example = block_free_total 2 log (omega arith) log-HasBitmap log-HasRoom_one

-- A file of 600 bytes in the blocks 5 and 6, in the first entry of the cache; the others are not in use.
abbrev content : Content
content = record {
  kind = 2;
  major = 0;
  minor = 0;
  nlink = 1;
  size = 600;
  addrs = λ k. if k == 0 then 5 else if k == 1 then 6 else 0;
}

abbrev unused : Inode
unused = record { dev = 0; inum = 0; ref = 0; busy = false; valid = false; content = content }

abbrev empty : Inodes
empty = record { log = log; inode = λ _. unused }

empty-Counts : Counts empty.inode (λ _ _. 0)
empty-Counts = record {
  entry = λ ip lt on. absurd (omega arith);
  found = λ dev inum on. absurd (omega arith);
  unique = λ dev inum a b a_lt b_lt p q. absurd (ground (arith, p));
}

inode_get_total_example :
    ((◌≡◌ {A = ℕ} 0 0)
      × ((a : ℕ) → a < ninode → (empty.inode a).ref ≢ 0)
      × (inode_get 1 2 empty ≡ panic))
    ⊎ ((ip : ℕ) × (s' : Inodes) × (inode_get 1 2 empty ≡ ok (ip, s'))
        × IsTaken (λ _ _. 0) 1 2 ip empty s')
inode_get_total_example = inode_get_total 1 2 empty (λ _ _. 0) empty-Counts

abbrev got : Inodes
got = set_inode 0 (λ x. record x { dev = 1; inum = 2; ref = 1; busy = false; valid = false }) empty

empty_got : inode_get 1 2 empty ≡ ok (0, got)
unfolding inode_get take_entry find_inode
empty_got = refl

-- The entry is in use, and its inode has been read.
abbrev file_inode : Inode
file_inode = record { dev = 1; inum = 2; ref = 1; busy = false; valid = true; content = content }

abbrev inodes : Inodes
inodes = record { log = log; inode = λ a. if a == 0 then file_inode else unused }

inode_update_total_example :
    (s' : Inodes) × (inode_update 0 inodes ≡ ok (tt, s'))
    × (s'.inode ≡ inodes.inode)
    × SameContent (on_disk 2 s') content
    × ((other : ℕ)
        → other ≢ 2
        → iblock other < 20
        → SameContent (on_disk other s') (on_disk other inodes))
inode_update_total_example =
    inode_update_total 0 inodes log-HasRoom_one
      (record {
        kind_lt = omega arith;
        major_lt = omega arith;
        minor_lt = omega arith;
        nlink_lt = omega arith;
      })
      (omega arith)

whole : IsWhole inodes 0
unfolding block_of
whole zero lt = record {
  in_range = omega arith;
  there = λ z. omega arith;
  indirect = λ le. absurd (omega arith);
}
whole (suc zero) lt = record {
  in_range = omega arith;
  there = λ z. omega arith;
  indirect = λ le. absurd (omega arith);
}
whole (suc (suc k)) lt = absurd (omega arith)

inode_read_total_example :
    (dst : Bytes) × (inode_read 0 500 200 (λ _. 0) inodes
      ≡ ok (some (min 200 (600 - 500), dst), inodes))
    × ((j : ℕ) → j < min 200 (600 - 500) → dst j ≡ file_byte inodes 0 (500 + j))
    × ((j : ℕ) → min 200 (600 - 500) ≤ j → dst j ≡ 0)
inode_read_total_example =
    inode_read_total inodes 0 500 200 (λ _. 0) whole (λ z. omega arith) (omega arith) (omega arith)

-- "/usr//fs/"
abbrev path : List (ℕ × List ℕ)
path = (1, 117 ∷ 115 ∷ 114 ∷ []) ∷ (2, 102 ∷ 115 ∷ []) ∷ []

names-spell_example : names 3 (spell path 1) ≡ elements path
names-spell_example =
    names-spell path 1 3
      (
        (λ e. omega arith, (λ e. omega arith, (λ e. omega arith, tt))),
        (omega arith, (λ e. omega arith, (λ e. omega arith, tt)), tt),
      )
      (omega arith)

-- A directory of two entries.
abbrev directory : Inodes
directory = record inodes {
  inode = λ a. record file_inode { content = record content { kind = 1; size = 32 } };
}

directory-IsDir : IsDir directory 0
unfolding block_of
directory-IsDir = record { whole = one; kind = refl; even = refl; small = omega arith }
  where
    one : IsWhole directory 0
    one zero lt = record {
      in_range = omega arith;
      there = λ z. omega arith;
      indirect = λ le. absurd (omega arith);
    }
    one (suc k) lt = absurd (omega arith)

dir_lookup_total_example :
    ((off : ℕ) × (off % 16 ≡ 0)
      × (off < 32)
      × HasName directory 0 directory-IsDir (λ _. 9) off
      × ((o : ℕ) → o % 16 ≡ 0 → o < off → HasName directory 0 directory-IsDir (λ _. 9) o → ⊥)
      × (dir_lookup 0 (λ _. 9) directory ≡ get_at directory 0 directory-IsDir off directory))
    ⊎ (((o : ℕ) → o % 16 ≡ 0 → o < 32 → HasName directory 0 directory-IsDir (λ _. 9) o → ⊥)
        × (dir_lookup 0 (λ _. 9) directory ≡ ok (none, directory)))
dir_lookup_total_example = dir_lookup_total directory 0 directory-IsDir (λ _. 9) (λ a. omega arith)

-- A file that is open for reading, at offset 500.
abbrev opened : File
opened = record { kind = fd_inode; ref = 1; readable = true; writable = false; ip = 0; off = 500 }

abbrev files : Files
files = record { inodes = inodes; file = λ _. opened }

file_close-file_dup_example :
    (s1 : Files) × (s2 : Files) × (file_dup 3 files ≡ ok (3, s1))
    × (file_close 3 s1 ≡ ok (tt, s2))
    × ((g : ℕ) → s2.file g ≡ files.file g)
    × (s2.inodes ≡ files.inodes)
file_close-file_dup_example = file_close-file_dup 3 files (omega arith)

file_read_total_example :
    (dst : Bytes) × (s' : Files) × (file_read 3 200 (λ _. 0) files
      ≡ ok (some (min 200 (600 - 500), dst), s'))
    × ((j : ℕ) → j < min 200 (600 - 500) → dst j ≡ file_byte inodes 0 (500 + j))
    × ((s'.file 3).off ≡ 500 + min 200 (600 - 500))
    × ((g : ℕ) → g ≢ 3 → s'.file g ≡ files.file g)
    × ((a : ℕ) → s'.inodes.inode a ≡ inodes.inode a)
    × (s'.inodes.log ≡ log)
file_read_total_example =
    file_read_total 3 200 (λ _. 0) files
      (record {
        readable = refl;
        kind = refl;
        in_use = λ z. omega arith;
        idle = refl;
        valid = refl;
        no_device = λ z. omega arith;
        whole = whole;
        before_end = omega arith;
      })
      (omega arith)
