-- ===== src/Fs/Inode/ReadWrite/Read.antt =====
-- `inode_read` of a file whose blocks are there.
use mcertikos.Base.{
  ℕ, zero, suc, ◌+◌, ◌-◌, ◌*◌, ◌/◌, ◌%◌, ◌^◌, ◌≤◌, ◌<◌, min, ◌≡◌, ◌≢◌, refl, ap, sym, ◌∙◌, arith,
  Bool, true, false, ◌||◌, ◌==◌, ltb, if◌then◌else◌, none, some, ok, hang, panic, bind_ok, ◌>>=◌,
  pure,
}
use mathlib.Core.Path.{subst}
use native.Mathlib.Decide.{dec_lt}
use mcertikos.Strings.{Bytes}
use mcertikos.Fs.Disk.{Block}
use mcertikos.Fs.Inode.{Inodes}
use mcertikos.Fs.Inode.ReadWrite.{
  bsize, t_dev, byte_at, copy_out, is_bad_device, chunk, read_block, read_loop, inode_read,
}
use mcertikos.Fs.Inode.ReadWrite.Mapped.{block_of, IsMapped, read_block-mapped}

-- Byte `j` of the file.
unfoldable pub file_byte : Inodes → (ip j : ℕ) → ℕ
unfolding byte_at block_of
file_byte s ip j = byte_at (s.log.buffers (block_of s ip (j / bsize))) (j % bsize)

-- Every block of the file is there.
abbrev pub IsWhole : Inodes → ℕ → Type 0
IsWhole s ip = (k : ℕ) → bsize * k < (s.inode ip).size → IsMapped s ip k

module _ (s : Inodes) (ip : ℕ) (whole : IsWhole s ip) (off n : ℕ)
    (inside : off + n ≤ (s.inode ip).size) where
  -- The first `tot` bytes have been read, and no other has changed.
  record IsRead (old : Bytes) (tot : ℕ) (dst : Bytes) : Type 0 where
    done : (j : ℕ) → j < tot → dst j ≡ file_byte s ip (off + j)
    kept : (j : ℕ) → tot ≤ j → dst j ≡ old j

  -- One round.
  copy_out-IsRead :
      (old dst : Bytes) (tot : ℕ)
      → tot < n
      → IsRead old tot dst
      → IsRead old (tot + chunk n tot (off + tot)) (
          copy_out
            (s.log.buffers (block_of s ip ((off + tot) / bsize)))
            ((off + tot) % bsize)
            tot
            (chunk n tot (off + tot))
            dst)
  unfolding file_byte
  copy_out-IsRead old dst tot lt h = record {
    done = λ j j_lt. elim (dec_lt j tot) [
      | yes before ↦ ground (arith, h.done j before)
      | no here ↦
          let m = chunk n tot (off + tot) in
          let small : m ≤ bsize - (off + tot) % bsize = omega arith in
          let b : (off + j) / bsize ≡ (off + tot) / bsize = omega arith in
          let o : (off + j) % bsize ≡ (off + tot) % bsize + (j - tot) = omega arith in
          let x = s.log.buffers (block_of s ip ((off + tot) / bsize)) in
          let copied : copy_out x ((off + tot) % bsize) tot m dst j
              ≡ byte_at x ((off + tot) % bsize + (j - tot)) =
            ground arith in
          copied
          ∙ ap (byte_at x) (sym o)
          ∙ ap (λ k. byte_at (s.log.buffers (block_of s ip k)) ((off + j) % bsize)) (sym b)
    ];
    kept = λ j le. ground (arith, h.kept j (omega arith));
  }

  read_loop-IsRead :
      (fuel tot : ℕ) (old dst : Bytes)
      → n ≤ tot + fuel
      → tot ≤ n
      → IsRead old tot dst
      → (dst' : Bytes) × (read_loop ip n fuel tot (off + tot) dst s ≡ ok (dst', s))
        × IsRead old n dst'
  unfolding read_loop
  read_loop-IsRead zero tot old dst enough le h =
      let t : ltb tot n ≡ false = ground arith in
      let e : tot ≡ n = omega arith in
      (dst, ap (λ t. if t then hang else ok (dst, s)) t, subst (λ k. IsRead old k dst) e h)
  read_loop-IsRead (suc fuel) tot old dst enough le h =
      let m = chunk n tot (off + tot) in
      let again : Block → Bytes = λ x. copy_out x ((off + tot) % bsize) tot m dst in
      let next = λ (x : Block). read_loop ip n fuel (tot + m) (off + tot + m) (again x) in
      let round =
        λ (t : Bool). if t then (read_block ip ((off + tot) / bsize) >>= next) s else ok (dst, s) in
      elim (dec_lt tot n) [
        | no done ↦
            let t : ltb tot n ≡ false = ground arith in
            let e : tot ≡ n = omega arith in (dst, ap round t, subst (λ k. IsRead old k dst) e h)
        | yes more ↦
            let t : ltb tot n ≡ true = ground arith in
            let k = (off + tot) / bsize in
            let x = s.log.buffers (block_of s ip k) in
            let positive : 0 < m = omega arith in
            let (dst', e, r) =
              read_loop-IsRead fuel (tot + m) old (again x) (omega arith) (omega arith)
                (copy_out-IsRead old dst tot more h) in
            let o : off + tot + m ≡ off + (tot + m) = omega arith in
            (
              dst',
              ap round t
                  ∙ bind_ok (read_block ip k) next s s x
                      (read_block-mapped s ip k (whole k (omega arith)))
                  ∙ ap (λ o. read_loop ip n fuel (tot + m) o (again x) s) o
                  ∙ e,
              r,
            )
      ]

-- Of an inode that is no device and whose blocks are there, `inode_read` at an offset up to the size, where
-- `off + n` does not wrap, returns as many bytes as are asked for and are there. They are
-- the bytes of the file from the offset on, the rest of the destination is as before, and
-- nothing else changes.
pub inode_read_total :
    (s : Inodes) (ip off n : ℕ) (old : Bytes)
    → IsWhole s ip
    → (s.inode ip).kind ≢ t_dev
    → off ≤ (s.inode ip).size
    → off + n < 2 ^ 32
    → (dst : Bytes) × (inode_read ip off n old s
        ≡ ok (some (min n ((s.inode ip).size - off), dst), s))
      × ((j : ℕ) → j < min n ((s.inode ip).size - off) → dst j ≡ file_byte s ip (off + j))
      × ((j : ℕ) → min n ((s.inode ip).size - off) ≤ j → dst j ≡ old j)
unfolding inode_read
inode_read_total s ip off n old whole kind inside small =
    let x = s.inode ip in
    let m = min n (x.size - off) in
    let n' = if ltb x.size (off + n) then x.size - off else n in
    let count : n' ≡ m = ground arith in
    let start : off ≡ off + 0 = omega arith in
    let a : (x.kind == t_dev) ≡ false = ground arith in
    let b : (ltb x.size off || ltb ((off + n) % 2 ^ 32) off) ≡ false = ground arith in
    let (dst, e, r) =
      read_loop-IsRead s ip whole off m (omega arith) m 0 old old (omega arith) (omega arith)
        (record { done = λ j lt. absurd (omega arith); kept = λ j le. refl }) in
    let loop = λ (k : ℕ). (read_loop ip k k 0 off old >>= λ dst. pure (some (k, dst))) s in
    (
      dst,
      ap
            (λ t.
              if t
              then (if is_bad_device x then ok (none, s) else panic)
              else if ltb x.size off || ltb ((off + n) % 2 ^ 32) off
              then ok (none, s)
              else loop n')
            a
          ∙ ap (λ t. if t then ok (none, s) else loop n') b
          ∙ ap loop count
          ∙ bind_ok (read_loop ip m m 0 off old) (λ dst. pure (some (m, dst))) s s dst
              (ap (λ o. read_loop ip m m 0 o old s) start ∙ e),
      r.done,
      r.kept,
    )
