-- ===== src/Fs/Namei.antt =====
-- kern/fs/path.c: the walk along a path. `cwd` is the inode of the current directory of the process.
use mcertikos.Base.{
  ℕ, zero, suc, ◌-◌, Bool, true, false, not, ◌&&◌, ◌==◌, if◌then◌else◌, List, [], ◌∷◌, length,
  Option, none, some, hang, Call, ◌>>=◌, ◌>>◌, pure,
}
use mcertikos.Strings.{Bytes}
use mcertikos.Fs.Path.{slash, skipelem}
use mcertikos.Fs.Inode.{
  Inodes, inode_get, inode_dup, inode_lock, inode_unlock, inode_put, inode_unlockput,
}
use mcertikos.Fs.Dir.{t_dir, dir_lookup}

-- `ROOTDEV` and `ROOTINO`
abbrev pub root_dev : ℕ
root_dev = 1

abbrev pub root_ino : ℕ
root_ino = 1

-- The buffer that holds a name: its characters, and the zero.
unfoldable pub as_bytes : List ℕ → Bytes
as_bytes [] i = 0
as_bytes (c ∷ p) i = let rest = as_bytes p (i - 1) in if i == 0 then c else rest

abbrev is_end : List ℕ → Bool
is_end [] = true
is_end (c ∷ p) = false

-- What `namex` does when the path is at its end.
unfoldable pub namex_end : (ip : ℕ) → Bool → Call Inodes (Option (ℕ × List ℕ))
namex_end ip true = do inode_put ip; pure none
namex_end ip false = pure (some (ip, []))

-- What it does with the inode of the directory, which is locked, for the next name. The rest of the
-- walk is `next`.
unfoldable pub namex_step :
    (ip : ℕ)
    → Bool
    → (rest name : List ℕ) → (ℕ → Call Inodes (Option (ℕ × List ℕ)))
    → Call Inodes (Option (ℕ × List ℕ))
namex_step ip parent rest name next s =
    if not ((s.inode ip).kind == t_dir)
    then (inode_unlockput ip >> pure none) s
    else if parent && is_end rest
    then (inode_unlock ip >> pure (some (ip, name))) s
    else (dir_lookup ip (as_bytes name) >>= λ dir. elim dir [
      | none ↦ (inode_unlockput ip >> pure none)
      | some (dir, off) ↦ (inode_unlockput ip >> next dir)
    ])
        s

-- The loop of `namex`; a round takes a character of the path at least.
unfoldable pub namex_loop :
    Bool → (fuel ip : ℕ) → (path : List ℕ) → Call Inodes (Option (ℕ × List ℕ))
namex_loop parent zero ip path s = hang
namex_loop parent (suc fuel) ip path s =
    let next : List ℕ → ℕ → Call Inodes (Option (ℕ × List ℕ)) =
      λ rest ip. namex_loop parent fuel ip rest in
    elim (skipelem path) [
      | none ↦ namex_end ip parent s
      | some (rest, name) ↦ (inode_lock ip >> namex_step ip parent rest name (next rest)) s
    ]

-- `if (*path == '/')`
abbrev pub namex_start : (cwd : ℕ) → List ℕ → Call Inodes ℕ
namex_start cwd [] = inode_dup cwd
namex_start cwd (c ∷ p) = if c == slash then inode_get root_dev root_ino else inode_dup cwd

-- The inode, or null, and the last name.
unfoldable pub namex : (cwd : ℕ) → Bool → List ℕ → Call Inodes (Option (ℕ × List ℕ))
namex cwd parent path = do ip ← namex_start cwd path; namex_loop parent (suc (length path)) ip path

unfoldable pub namei : (cwd : ℕ) → List ℕ → Call Inodes (Option (ℕ × List ℕ))
namei cwd path = namex cwd false path

unfoldable pub nameiparent : (cwd : ℕ) → List ℕ → Call Inodes (Option (ℕ × List ℕ))
nameiparent cwd path = namex cwd true path
