-- ===== src/Fs/File.antt =====
-- kern/fs/file.c: the table of the open files. A pointer to a file is its index in the table. The lock of the
-- table is held inside one call only. `ref` is an `int` whose overflow C leaves undefined.
pub mod Refs
pub mod Read
use mcertikos.Base.{
  ℕ, zero, suc, ◌+◌, ◌-◌, ◌*◌, ◌/◌, ◌%◌, ◌^◌, min, Bool, true, false, not, ◌&&◌, ◌||◌, ◌==◌, ltb,
  leb, if◌then◌else◌, update, Option, none, some, ok, hang, panic, Call, ◌>>=◌, ◌>>◌, pure, gets,
  modify, lift,
}
use mcertikos.Strings.{Bytes}
use mcertikos.Fs.Log.{log_size, begin_trans, commit_trans}
use mcertikos.Fs.Inode.{Inodes, in_log, inode_lock, inode_unlock, inode_put, Stat, inode_stat}
use mcertikos.Fs.Inode.ReadWrite.{inode_read, inode_write}

-- `NFILE`
abbrev pub nfile : ℕ
nfile = 100

pub data Kind : Type 0 where
  fd_none fd_pipe fd_inode : Kind

-- `struct file`
pub record File : Type 0 where
  pub kind : Kind
  pub ref : ℕ
  pub readable : Bool
  pub writable : Bool
  pub ip : ℕ
  pub off : ℕ

-- `ftable`, on top of the inodes
pub record Files : Type 0 where
  pub inodes : Inodes
  pub file : ℕ → File

abbrev pub set_file : ℕ → (File → File) → Files → Files
set_file f g s = record s { file = update s.file f (g (s.file f)) }

abbrev pub in_inodes {ℓ} : {A : Type ℓ} → Call Inodes A → Call Files A
in_inodes m = lift (λ s. s.inodes) (λ s i. record s { inodes = i }) m

-- The loop of `file_alloc`.
unfoldable pub find_file : (ℕ → File) → (rounds f : ℕ) → Option ℕ
find_file file zero f = none
find_file file (suc rounds) f =
    let rest = find_file file rounds (f + 1) in if (file f).ref == 0 then some f else rest

unfoldable pub file_alloc : Call Files (Option ℕ)
file_alloc s = elim (find_file s.file nfile 0) [
  | none ↦ ok (none, s)
  | some f ↦ ok (some f, set_file f (λ x. record x { ref = 1 }) s)
]

unfoldable pub file_dup : ℕ → Call Files ℕ
file_dup f s =
    if (s.file f).ref == 0 then panic else ok (f, set_file f (λ x. record x { ref = x.ref + 1 }) s)

-- What `file_close` does for the last reference to a file on an inode.
unfoldable pub put_in_trans : ℕ → Call Inodes (Unit {0})
put_in_trans ip = do in_log begin_trans; inode_put ip; in_log (modify commit_trans)

-- The last reference: `ff` is what the entry held.
unfoldable pub close_last : ℕ → (ff : File) → Call Files (Unit {0})
close_last f ff = do
  modify (set_file f (λ x. record x { ref = 0; kind = fd_none }))
  elim ff.kind [ fd_inode ↦ in_inodes (put_in_trans ff.ip) | fd_none ↦ pure tt | fd_pipe ↦ pure tt ]

unfoldable pub file_close : ℕ → Call Files (Unit {0})
file_close f s =
    let x = s.file f in
    if x.ref == 0
    then panic
    else if ltb 0 (x.ref - 1)
    then ok (tt, set_file f (λ x. record x { ref = x.ref - 1 }) s)
    else close_last f (record x { ref = x.ref - 1 }) s

-- The result -1 is `none`.
unfoldable pub file_stat : ℕ → Call Files (Option Stat)
file_stat f s = elim (s.file f).kind [
  | fd_inode ↦
      (do
        in_inodes (inode_lock (s.file f).ip)
        st ← gets (λ s. inode_stat (s.inodes.inode (s.file f).ip))
        in_inodes (inode_unlock (s.file f).ip)
        pure (some st))
        s
  | fd_none ↦ ok (none, s)
  | fd_pipe ↦ ok (none, s)
]

-- `f->off += r`, if `r > 0`
abbrev pub advance : ℕ → ℕ → Files → Files
advance f r s =
    set_file f (λ x. record x { off = if ltb 0 r then (x.off + r) % 2 ^ 32 else x.off }) s

abbrev pub advance_by : ℕ → Option (ℕ × Bytes) → Files → Files
advance_by f none s = s
advance_by f (some (r, dst)) s = advance f r s

-- What `file_read` does for a file on an inode.
unfoldable pub read_file : ℕ → File → (n : ℕ) → Bytes → Call Files (Option (ℕ × Bytes))
read_file f x n addr = do
  in_inodes (inode_lock x.ip)
  r ← in_inodes (inode_read x.ip x.off n addr)
  modify (advance_by f r)
  in_inodes (inode_unlock x.ip)
  pure r

-- The result -1 is `none`, and otherwise the number of the bytes comes with the bytes.
unfoldable pub file_read : ℕ → (n : ℕ) → Bytes → Call Files (Option (ℕ × Bytes))
file_read f n addr s =
    let x = s.file f in
    if not x.readable
    then ok (none, s)
    else elim x.kind [ fd_inode ↦ read_file f x n addr s | fd_none ↦ panic | fd_pipe ↦ panic ]

-- `max` of `file_write`
abbrev pub max_write : ℕ
max_write = (log_size - 1 - 1 - 2) / 2 * 512

-- What a round of `file_write` does with the result of `inode_write`.
abbrev advance_written : ℕ → Option ℕ → Files → Files
advance_written f none s = s
advance_written f (some r) s = advance f r s

-- One round: a transaction of its own, for `n1` bytes from `i` on.
unfoldable pub write_round : ℕ → Bytes → (i n1 : ℕ) → Call Files (Option ℕ)
write_round f addr i n1 s =
    let x = s.file f in
    (do
      in_inodes (in_log begin_trans)
      in_inodes (inode_lock x.ip)
      r ← in_inodes (inode_write x.ip (λ j. addr (i + j)) x.off n1)
      modify (advance_written f r)
      in_inodes (inode_unlock x.ip)
      in_inodes (in_log (modify commit_trans))
      pure r)
      s

-- The loop; a round writes all of its bytes or is the last.
unfoldable pub file_write_loop : ℕ → Bytes → (n fuel i : ℕ) → Call Files (Option ℕ)
file_write_loop f addr n zero i s = if ltb i n then hang else ok (some n, s)
file_write_loop f addr n (suc fuel) i s =
    let n1 = min (n - i) max_write in
    let rest = file_write_loop f addr n fuel in
    if ltb i n
    then (write_round f addr i n1 >>= λ r. elim r [
      | none ↦ pure none
      | some r ↦ if r == n1 then rest (i + r) else λ s. panic
    ])
        s
    else ok (some n, s)

-- The result -1 is `none`. `n` is not negative.
unfoldable pub file_write : ℕ → Bytes → (n : ℕ) → Call Files (Option ℕ)
file_write f addr n s =
    let x = s.file f in
    if not x.writable then ok (none, s) else elim x.kind [
      | fd_inode ↦ file_write_loop f addr n n 0 s
      | fd_none ↦ panic
      | fd_pipe ↦ panic
    ]
