-- ===== src/Fs/File/Read.antt =====
-- `file_read` on top of `inode_read`: what the reader gets, and the offset behind it.
use mcertikos.Base.{
  ℕ, ◌+◌, ◌-◌, ◌/◌, ◌%◌, ◌^◌, ◌≤◌, ◌<◌, min, ◌≡◌, ◌≢◌, refl, ap, sym, ◌∙◌, arith, Bool, true, false,
  not, ◌||◌, ◌==◌, ltb, if◌then◌else◌, Option, none, some, ok, hang, panic, Outcome, Call, ◌>>=◌,
  ◌>>◌, pure, modify, bind_ok, lift_ok,
}
use native.Mathlib.Decide.{ℕ_discrete}
use mcertikos.Strings.{Bytes}
use mcertikos.Fs.Disk.{Block}
use mcertikos.Fs.Inode.{
  ndirect, Content, Inode, Inodes, set_inode, load_inode, inode_lock, inode_unlock,
}
use mcertikos.Fs.Inode.ReadWrite.{bsize, t_dev, byte_at, inode_read}
use mcertikos.Fs.Inode.ReadWrite.Mapped.{block_of}
use mcertikos.Fs.Inode.ReadWrite.Read.{file_byte, IsWhole, inode_read_total}
use mcertikos.Fs.File.{
  fd_none, fd_pipe, fd_inode, Files, in_inodes, advance, advance_by, read_file, file_read,
}

-- The blocks of a file by the content of its inode.
block_in : (ℕ → Block) → Content → ℕ → ℕ
block_in buffers c k = if ltb k ndirect then c.addrs k else buffers (c.addrs ndirect) (k - ndirect)

block_of-block_in :
    (s : Inodes) (ip k : ℕ) → block_of s ip k ≡ block_in s.log.buffers (s.inode ip).content k
unfolding block_of block_in
block_of-block_in s ip k = refl

-- Two states with the same log and the same content of an inode.
module _ (s t : Inodes) (ip : ℕ) (c : (t.inode ip).content ≡ (s.inode ip).content)
    (l : t.log ≡ s.log) where
  same_block : (k : ℕ) → block_of t ip k ≡ block_of s ip k
  same_block k =
      block_of-block_in t ip k
      ∙ ap (λ c. block_in t.log.buffers c k) c
      ∙ ap (λ l. block_in l.buffers (s.inode ip).content k) l
      ∙ sym (block_of-block_in s ip k)

  same_byte : (j : ℕ) → file_byte t ip j ≡ file_byte s ip j
  unfolding file_byte
  same_byte j =
      ap (λ b. byte_at (t.log.buffers b) (j % bsize)) (same_block (j / bsize))
      ∙ ap (λ l. byte_at (l.buffers (block_of s ip (j / bsize))) (j % bsize)) l

  same-IsWhole : IsWhole s ip → IsWhole t ip
  same-IsWhole h k lt =
      let m = h k (omega (arith, ap (λ c. c.size) c)) in
      record {
        in_range = m.in_range;
        there = λ z. m.there (sym (same_block k) ∙ z);
        indirect = λ le z. m.indirect le (sym (ap (λ c. c.addrs ndirect) c) ∙ z);
      }

-- An open file on an inode that is in use, read and not locked.
pub record IsReadable (s : Files) (f : ℕ) : Type 0 where
  pub readable : (s.file f).readable ≡ true
  pub kind : (s.file f).kind ≡ fd_inode
  pub in_use : (s.inodes.inode (s.file f).ip).ref ≢ 0
  pub idle : (s.inodes.inode (s.file f).ip).busy ≡ false
  pub valid : (s.inodes.inode (s.file f).ip).valid ≡ true
  pub no_device : (s.inodes.inode (s.file f).ip).kind ≢ t_dev
  pub whole : IsWhole s.inodes (s.file f).ip
  pub before_end : (s.file f).off ≤ (s.inodes.inode (s.file f).ip).size

load_inode-valid : (s : Inodes) (ip : ℕ) → (s.inode ip).valid ≡ true → load_inode ip s ≡ ok (tt, s)
unfolding load_inode
load_inode-valid s ip valid = ground (arith, valid)

with_busy : Inode → Bool → Inode
with_busy x b = record x { busy = b }

released : Inode → Inode
released x = record x { busy = false }

module _ (s : Inodes) (ip : ℕ) where
  locked : Inodes
  locked = set_inode ip (λ x. record x { busy = true }) s

  locked_self : locked.inode ip ≡ record (s.inode ip) { busy = true }
  unfolding locked
  locked_self = ground arith

  locked-log : locked.log ≡ s.log
  unfolding locked
  locked-log = refl

  inode_lock-ok :
      (s.inode ip).ref ≢ 0
      → (s.inode ip).busy ≡ false
      → (s.inode ip).valid ≡ true
      → inode_lock ip s ≡ ok (tt, locked)
  unfolding inode_lock locked
  inode_lock-ok used idle valid =
      let t : ((s.inode ip).ref == 0) ≡ false = ground arith in
      ap (λ t. if t then panic else if (s.inode ip).busy then hang else load_inode ip locked) t
      ∙ ap (λ t. if t then hang else load_inode ip locked) idle
      ∙ load_inode-valid locked ip (ap (λ x. x.valid) locked_self ∙ valid)

  unlocked : Inodes
  unfolding locked
  unlocked = set_inode ip (λ x. record x { busy = false }) locked

  inode_unlock-ok : (s.inode ip).ref ≢ 0 → inode_unlock ip locked ≡ ok (tt, unlocked)
  unfolding inode_unlock unlocked
  inode_unlock-ok used =
      let self = locked_self in
      let a : (locked.inode ip).busy ≡ true = ap (λ x. x.busy) self in
      let b : ((locked.inode ip).ref == 0) ≡ false = ap (λ x. x.ref == 0) self ∙ ground arith in
      ap (λ t. if not t || (locked.inode ip).ref == 0 then panic else ok (tt, unlocked)) a
      ∙ ap (λ t. if t then panic else ok (tt, unlocked)) b

  unlocked-log : unlocked.log ≡ s.log
  unfolding unlocked locked
  unlocked-log = refl

  unlocked-same : (s.inode ip).busy ≡ false → (a : ℕ) → unlocked.inode a ≡ s.inode a
  unfolding unlocked locked with_busy released
  unlocked-same idle a = elim (ℕ_discrete a ip) [
    | yes e ↦
        let here : unlocked.inode a ≡ record (locked.inode ip) { busy = false } =
          ground (arith, e) in
        here ∙ ap released locked_self ∙ ap (with_busy (s.inode ip)) (sym idle) ∙ ap s.inode (sym e)
    | no ne ↦ ground arith
  ]

abbrev put_inodes : Files → Inodes → Files
put_inodes s i = record s { inodes = i }

-- `read_file` when its parts return.
read_file-ok :
    (f n : ℕ) (addr dst : Bytes) (s : Files) (m : ℕ)
    → let x = s.file f in
      let i1 = locked s.inodes x.ip in
      (s.inodes.inode x.ip).ref ≢ 0
      → (s.inodes.inode x.ip).busy ≡ false
      → (s.inodes.inode x.ip).valid ≡ true
      → inode_read x.ip x.off n addr i1 ≡ ok (some (m, dst), i1)
      → read_file f x n addr s
        ≡ ok (some (m, dst), put_inodes (advance f m (put_inodes s i1)) (unlocked s.inodes x.ip))
unfolding read_file
read_file-ok f n addr dst s m used idle valid e =
    let x = s.file f in
    let i1 = locked s.inodes x.ip in
    let s1 = put_inodes s i1 in
    let s2 = advance f m s1 in
    let s3 = put_inodes s2 (unlocked s.inodes x.ip) in
    let r : Option (ℕ × Bytes) = some (m, dst) in
    let lock : Call Files (Unit {0}) = in_inodes (inode_lock x.ip) in
    let read : Call Files (Option (ℕ × Bytes)) = in_inodes (inode_read x.ip x.off n addr) in
    let unlock : Call Files (Unit {0}) = in_inodes (inode_unlock x.ip) in
    let end : Option (ℕ × Bytes) → Call Files (Option (ℕ × Bytes)) = λ r. unlock >> pure r in
    let rest : Option (ℕ × Bytes) → Call Files (Option (ℕ × Bytes)) =
      λ r. modify (advance_by f r) >> end r in
    bind_ok lock (λ _. read >>= rest) s s1 tt
      (lift_ok (λ s. s.inodes) put_inodes (inode_lock x.ip) s tt i1
        (inode_lock-ok s.inodes x.ip used idle valid))
    ∙ bind_ok read rest s1 s1 r
        (lift_ok (λ s. s.inodes) put_inodes (inode_read x.ip x.off n addr) s1 r i1 e)
    ∙ bind_ok unlock (λ _. pure r) s2 s3 tt
        (lift_ok (λ s. s.inodes) put_inodes (inode_unlock x.ip) s2 tt (unlocked s.inodes x.ip)
          (inode_unlock-ok s.inodes x.ip used))

-- `file_read` of a readable file on an inode that is in use, read, not locked, no device, and has all its blocks returns as
-- many bytes as are asked for and are there. They are the bytes of the file from the offset of the
-- reader on, which moves behind them, and no other file, no inode and no block changes.
pub file_read_total :
    (f n : ℕ) (addr : Bytes) (s : Files)
    → IsReadable s f
    → (s.file f).off + n < 2 ^ 32
    → let x = s.file f in
      let m = min n ((s.inodes.inode x.ip).size - x.off) in
      (dst : Bytes) × (s' : Files) × (file_read f n addr s ≡ ok (some (m, dst), s'))
      × ((j : ℕ) → j < m → dst j ≡ file_byte s.inodes x.ip (x.off + j))
      × ((s'.file f).off ≡ x.off + m)
      × ((g : ℕ) → g ≢ f → s'.file g ≡ s.file g)
      × ((a : ℕ) → s'.inodes.inode a ≡ s.inodes.inode a)
      × (s'.inodes.log ≡ s.inodes.log)
unfolding file_read
file_read_total f n addr s h small =
    let x = s.file f in
    let i0 = s.inodes in
    let i1 = locked i0 x.ip in
    let self = locked_self i0 x.ip in
    let c : (i1.inode x.ip).content ≡ (i0.inode x.ip).content = ap (λ y. y.content) self in
    let size = ap (λ y. y.size) self in
    let (dst, e, done, kept) =
      inode_read_total i1 x.ip x.off n addr (same-IsWhole i0 i1 x.ip c (locked-log i0 x.ip) h.whole)
        (λ z. h.no_device (sym (ap (λ y. y.kind) self) ∙ z)) (omega (arith, size, h.before_end))
        small in
    let m1 = min n ((i1.inode x.ip).size - x.off) in
    let m = min n ((i0.inode x.ip).size - x.off) in
    let same : m1 ≡ m = ap (λ y. min n (y - x.off)) size in
    let after = λ (k : ℕ). put_inodes (advance f k (put_inodes s i1)) (unlocked i0 x.ip) in
    let run = read_file-ok f n addr dst s m1 h.in_use h.idle h.valid e in
    let r : Outcome (Option (ℕ × Bytes) × Files) = read_file f x n addr s in
    (
      dst,
      after m,
      ap
            (λ t.
              if not t
              then ok (none, s)
              else elim x.kind [ fd_inode ↦ r | fd_none ↦ panic | fd_pipe ↦ panic ])
            h.readable
          ∙ ap (λ k. elim k [ fd_inode ↦ r | fd_none ↦ panic | fd_pipe ↦ panic ]) h.kind
          ∙ run
          ∙ ap (λ k. ok (some (k, dst), after k)) same,
      λ j lt. done j (omega arith) ∙ same_byte i0 i1 x.ip c (locked-log i0 x.ip) (x.off + j),
      ground (arith, small),
      λ g ne. ground arith,
      unlocked-same i0 x.ip h.idle,
      unlocked-log i0 x.ip,
    )
