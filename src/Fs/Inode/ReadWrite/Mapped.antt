-- ===== src/Fs/Inode/ReadWrite/Mapped.antt =====
-- The blocks of an inode that `bmap` finds without an allocation.
use mcertikos.Base.{
  ℕ, ◌+◌, ◌-◌, ◌≤◌, ◌<◌, ◌≡◌, ◌≢◌, ap, sym, ◌∙◌, arith, true, false, ltb, if◌then◌else◌, ok, panic,
  bind_ok, ◌>>=◌, gets,
}
use native.Mathlib.Decide.{dec_lt}
use mcertikos.Fs.Inode.{ndirect, nindirect, Inodes, bmap_direct, bmap_indirect, bmap}
use mcertikos.Fs.Inode.ReadWrite.{read_block}

-- The number of the `k`-th block of the inode.
unfoldable pub block_of : Inodes → ℕ → ℕ → ℕ
block_of s ip k =
    if ltb k ndirect
    then (s.inode ip).addrs k
    else s.log.buffers ((s.inode ip).addrs ndirect) (k - ndirect)

-- The block is there.
pub record IsMapped (s : Inodes) (ip k : ℕ) : Type 0 where
  pub in_range : k < ndirect + nindirect
  pub there : block_of s ip k ≢ 0
  pub indirect : ndirect ≤ k → (s.inode ip).addrs ndirect ≢ 0

bmap_direct-mapped :
    (s : Inodes) (ip k : ℕ)
    → (s.inode ip).addrs k ≢ 0
    → bmap_direct ip k s ≡ ok ((s.inode ip).addrs k, s)
unfolding bmap_direct
bmap_direct-mapped s ip k ne = ground arith

bmap_indirect-mapped :
    (s : Inodes) (block k : ℕ)
    → s.log.buffers block k ≢ 0
    → bmap_indirect block k s ≡ ok (s.log.buffers block k, s)
unfolding bmap_indirect
bmap_indirect-mapped s block k ne = ground arith

bmap-mapped : (s : Inodes) (ip k : ℕ) → IsMapped s ip k → bmap ip k s ≡ ok (block_of s ip k, s)
unfolding bmap block_of
bmap-mapped s ip k h = elim (dec_lt k ndirect) [
  | yes direct ↦
      let t : ltb k ndirect ≡ true = ground arith in
      let e : block_of s ip k ≡ (s.inode ip).addrs k =
        ap
          (λ t.
            if t
            then (s.inode ip).addrs k
            else s.log.buffers ((s.inode ip).addrs ndirect) (k - ndirect))
          t in
      ap
        (λ t.
          (if t
              then bmap_direct ip k
              else if ltb (k - ndirect) nindirect
              then (bmap_direct ip ndirect >>= λ block. bmap_indirect block (k - ndirect))
              else λ s. panic)
            s)
        t
      ∙ bmap_direct-mapped s ip k (λ z. h.there (e ∙ z))
      ∙ ap (λ b. ok (b, s)) (sym e)
  | no indirect ↦
      let t : ltb k ndirect ≡ false = ground arith in
      let u : ltb (k - ndirect) nindirect ≡ true = ground (arith, h.in_range) in
      let a = (s.inode ip).addrs ndirect in
      let e : block_of s ip k ≡ s.log.buffers a (k - ndirect) =
        ap
          (λ t.
            if t
            then (s.inode ip).addrs k
            else s.log.buffers ((s.inode ip).addrs ndirect) (k - ndirect))
          t in
      ap
        (λ t.
          (if t
              then bmap_direct ip k
              else if ltb (k - ndirect) nindirect
              then (bmap_direct ip ndirect >>= λ block. bmap_indirect block (k - ndirect))
              else λ s. panic)
            s)
        t
      ∙ ap
          (λ u.
            (if u
                then (bmap_direct ip ndirect >>= λ block. bmap_indirect block (k - ndirect))
                else λ s. panic)
              s)
          u
      ∙ bind_ok (bmap_direct ip ndirect) (λ block. bmap_indirect block (k - ndirect)) s s a
          (bmap_direct-mapped s ip ndirect (h.indirect (omega arith)))
      ∙ bmap_indirect-mapped s a (k - ndirect) (λ z. h.there (e ∙ z))
      ∙ ap (λ b. ok (b, s)) (sym e)
]

pub read_block-mapped :
    (s : Inodes) (ip k : ℕ)
    → IsMapped s ip k
    → read_block ip k s ≡ ok (s.log.buffers (block_of s ip k), s)
unfolding read_block
read_block-mapped s ip k h =
    bind_ok (bmap ip k) (λ block. gets (λ s. s.log.buffers block)) s s (block_of s ip k)
      (bmap-mapped s ip k h)
