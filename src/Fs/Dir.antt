-- ===== src/Fs/Dir.antt =====
-- kern/fs/dir.c: the entries of a directory, each of 16 bytes: the number of an inode, and a name. A
-- name is given by its bytes.
pub mod Lookup
pub mod Named
use mcertikos.Base.{
  ℕ, zero, suc, ◌+◌, ◌-◌, ◌*◌, ◌/◌, ◌%◌, ◌^◌, not, ◌&&◌, ◌==◌, ltb, if◌then◌else◌, Option, none,
  some, ok, hang, panic, Call, ◌>>=◌, ◌>>◌, pure,
}
use mcertikos.Strings.{Bytes, strncmp, strncpy}
use mcertikos.Fs.Inode.{Inodes, inode_get, inode_put}
use mcertikos.Fs.Inode.ReadWrite.{inode_read, inode_write}
use mcertikos.Fs.Path.{dirsiz}

-- `T_DIR`, and `sizeof(struct dirent)`
abbrev pub t_dir : ℕ
t_dir = 1

abbrev pub dirent : ℕ
dirent = 16

-- The fields of a `struct dirent`.
abbrev pub de_inum : Bytes → ℕ
de_inum de = de 0 + 2 ^ 8 * de 1

abbrev pub de_name : Bytes → Bytes
de_name de i = de (2 + i)

-- Two names in one memory, the second one behind the first.
abbrev pub beside : Bytes → Bytes → Bytes
beside s t a = if ltb a dirsiz then s a else t (a - dirsiz)

unfoldable pub dir_namecmp : Bytes → Bytes → ℕ
dir_namecmp s t = strncmp (beside s t) 0 dirsiz dirsiz

-- `inode_read(dp, &de, off, size)`, which panics if the entry is not read whole.
unfoldable pub whole_entry : Option (ℕ × Bytes) → Call Inodes Bytes
whole_entry none s = panic
whole_entry (some (n, de)) s = if n == dirent then ok (de, s) else panic

unfoldable pub read_entry : (dp off : ℕ) → Call Inodes Bytes
read_entry dp off = do r ← inode_read dp off dirent (λ _. 0); whole_entry r

-- `*poff = off` and `return inode_get(dp->dev, inum)`
unfoldable pub found : (dev inum off : ℕ) → Call Inodes (Option (ℕ × ℕ))
found dev inum off = do ip ← inode_get dev inum; pure (some (ip, off))

-- The loop of `dir_lookup`: null, or the inode and the offset of the entry. A round moves on by 16 bytes.
unfoldable pub lookup_loop : (dp : ℕ) → Bytes → (fuel off : ℕ) → Call Inodes (Option (ℕ × ℕ))
lookup_loop dp name zero off s = if ltb off (s.inode dp).size then hang else ok (none, s)
lookup_loop dp name (suc fuel) off s =
    let rest = lookup_loop dp name fuel (off + dirent) in
    if ltb off (s.inode dp).size
    then (read_entry dp off >>= λ de.
          if not (de_inum de == 0) && (dir_namecmp (de_name de) name == 0)
          then found (s.inode dp).dev (de_inum de) off
          else rest)
        s
    else ok (none, s)

unfoldable pub dir_lookup : (dp : ℕ) → Bytes → Call Inodes (Option (ℕ × ℕ))
dir_lookup dp name s =
    if not ((s.inode dp).kind == t_dir)
    then panic
    else lookup_loop dp name ((s.inode dp).size / dirent + 1) 0 s

-- The loop of `dir_link`: the offset of the first empty entry, or the end, with the entry read last.
unfoldable pub empty_loop : (dp : ℕ) → (fuel off : ℕ) → Bytes → Call Inodes (ℕ × Bytes)
empty_loop dp zero off de s = if ltb off (s.inode dp).size then hang else ok ((off, de), s)
empty_loop dp (suc fuel) off de s =
    let rest = empty_loop dp fuel (off + dirent) in
    if ltb off (s.inode dp).size
    then (read_entry dp off >>= λ de. if de_inum de == 0 then pure (off, de) else rest de) s
    else ok ((off, de), s)

-- `de.inum = inum` and `strncpy(de.name, name, DIRSIZ)`
abbrev pub new_entry : ℕ → Bytes → Bytes
new_entry inum name i =
    if i == 0
    then inum % 2 ^ 8
    else if i == 1
    then inum / 2 ^ 8 % 2 ^ 8
    else strncpy 0 dirsiz dirsiz (beside (λ _. 0) name) (i - 2)

-- The entry is written, whole.
unfoldable pub write_entry : (dp : ℕ) → Bytes → (off : ℕ) → Call Inodes (Unit {0})
write_entry dp de off = do
  r ← inode_write dp de off dirent
  elim r [ none ↦ λ s. panic | some n ↦ if n == dirent then pure tt else λ s. panic ]

-- What `dir_link` does if the name is not there, with as many rounds as the directory has entries.
unfoldable pub link_entry : (dp : ℕ) → Bytes → (inum rounds : ℕ) → Call Inodes (Option (Unit {0}))
link_entry dp name inum rounds = do
  (off, de) ← empty_loop dp rounds 0 (λ _. 0)
  write_entry dp (new_entry inum name) off
  pure (some tt)

-- The result -1 is `none`.
unfoldable pub dir_link : (dp : ℕ) → Bytes → (inum : ℕ) → Call Inodes (Option (Unit {0}))
dir_link dp name inum s =
    let rounds = (s.inode dp).size / dirent + 1 in
    (dir_lookup dp name >>= λ there. elim there [
      | some (ip, off) ↦ (inode_put ip >> pure none)
      | none ↦ link_entry dp name inum rounds
    ])
      s
