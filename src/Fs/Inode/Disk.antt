-- ===== src/Fs/Inode/Disk.antt =====
-- The inodes in their blocks: what `inode_update` writes is what `inode_lock` reads.
use mcertikos.Base.{
  ℕ, ◌+◌, ◌/◌, ◌%◌, ◌^◌, ◌≤◌, ◌<◌, ◌≡◌, ◌≢◌, ◌⊎◌, inl, inr, refl, ap, sym, ◌∙◌, arith, ok, lift_ok,
}
use mathlib.Core.Path.{subst}
use native.Mathlib.Decide.{ℕ_discrete, dec_lt}
use mcertikos.Fs.Disk.{Block}
use mcertikos.Fs.Block.{log_block}
use mcertikos.Fs.Block.Room.{HasRoom, log_block-IsLogged}
use mcertikos.Fs.Inode.{
  ndirect, Content, Inodes, iblock, islot, read_dinode, write_dinode, inode_update,
}

-- The fields have the widths of `struct dinode`.
pub record HasWidths (c : Content) : Type 0 where
  pub kind_lt : c.kind < 2 ^ 16
  pub major_lt : c.major < 2 ^ 16
  pub minor_lt : c.minor < 2 ^ 16
  pub nlink_lt : c.nlink < 2 ^ 16

-- The same fields, with the addresses that there are.
pub record SameContent (c d : Content) : Type 0 where
  pub kind_same : c.kind ≡ d.kind
  pub major_same : c.major ≡ d.major
  pub minor_same : c.minor ≡ d.minor
  pub nlink_same : c.nlink ≡ d.nlink
  pub size_same : c.size ≡ d.size
  pub addrs_same : (k : ℕ) → k ≤ ndirect → c.addrs k ≡ d.addrs k

module _ (inum : ℕ) (c : Content) (x : Block) where
  read_dinode-write_dinode : HasWidths c → SameContent (read_dinode inum (write_dinode inum c x)) c
  unfolding read_dinode write_dinode
  read_dinode-write_dinode h = record {
    kind_same = ground (arith, h.kind_lt);
    major_same = ground (arith, h.kind_lt);
    minor_same = ground (arith, h.minor_lt);
    nlink_same = ground (arith, h.minor_lt);
    size_same = ground arith;
    addrs_same = λ k le. ground arith;
  }

  write_dinode-outside :
      (i : ℕ) → (i + 1 ≤ islot inum) ⊎ (islot inum + 16 ≤ i) → write_dinode inum c x i ≡ x i
  unfolding write_dinode
  write_dinode-outside i (inl lt) = ground arith
  write_dinode-outside i (inr le) = ground arith

  apart :
      (other k : ℕ)
      → iblock other ≡ iblock inum
      → other ≢ inum
      → k < 16
      → (islot other + k + 1 ≤ islot inum) ⊎ (islot inum + 16 ≤ islot other + k)
  apart other k same ne lt = elim (dec_lt (other % 8) (inum % 8)) [
    | yes below ↦ inl (omega arith)
    | no above ↦ inr (omega arith)
  ]

  -- The other inodes of the block stay.
  read_dinode-other :
      (other : ℕ)
      → iblock other ≡ iblock inum
      → other ≢ inum
      → SameContent (read_dinode other (write_dinode inum c x)) (read_dinode other x)
  unfolding read_dinode
  read_dinode-other other same ne =
      let out : (k : ℕ) → k < 16 → write_dinode inum c x (islot other + k) ≡ x (islot other + k) =
        λ k lt. write_dinode-outside (islot other + k) (apart other k same ne lt) in
      let first : write_dinode inum c x (islot other) ≡ x (islot other) =
        write_dinode-outside (islot other) (elim (apart other 0 same ne (omega arith)) [
          | inl h ↦ inl (omega arith)
          | inr h ↦ inr (omega arith)
        ]) in
      record {
        kind_same = ap (λ w. w % 2 ^ 16) first;
        major_same = ap (λ w. w / 2 ^ 16) first;
        minor_same = ap (λ w. w % 2 ^ 16) (out 1 (omega arith));
        nlink_same = ap (λ w. w / 2 ^ 16) (out 1 (omega arith));
        size_same = out 2 (omega arith);
        addrs_same = λ k le.
            let e : islot other + 3 + k ≡ islot other + (3 + k) = omega arith in
            ap (write_dinode inum c x) e ∙ out (3 + k) (omega arith) ∙ ap x (sym e);
      }

-- The content of an inode that is read from the disk.
abbrev pub on_disk : ℕ → Inodes → Content
on_disk inum s = read_dinode inum (s.log.buffers (iblock inum))

-- In a transaction with room for a block, for an inode in front of the log whose fields fit their widths,
-- `inode_update` returns. The inode that is read back has the same fields, and every other
-- inode in front of the log is read back as before.
pub inode_update_total :
    (ip : ℕ) (s : Inodes)
    → HasRoom 1 s.log
    → HasWidths (s.inode ip).content
    → iblock (s.inode ip).inum < s.log.start
    → (s' : Inodes) × (inode_update ip s ≡ ok (tt, s'))
      × (s'.inode ≡ s.inode)
      × SameContent (on_disk (s.inode ip).inum s') (s.inode ip).content
      × ((other : ℕ)
          → other ≢ (s.inode ip).inum
          → iblock other < s.log.start
          → SameContent (on_disk other s') (on_disk other s))
unfolding inode_update
inode_update_total ip s room widths inside =
    let x = s.inode ip in
    let b = iblock x.inum in
    let old = s.log.buffers b in
    let new = write_dinode x.inum x.content old in
    let (l', e, w) = log_block-IsLogged b new s.log room in
    let here : l'.buffers b ≡ new = w.buffers b (omega arith) ∙ ground arith in
    (
      record s { log = l' },
      lift_ok (λ s. s.log) (λ s l. record s { log = l }) (log_block b new) s tt l' e,
      refl,
      subst (λ y. SameContent (read_dinode x.inum y) x.content) (sym here)
          (read_dinode-write_dinode x.inum x.content old widths),
      λ other ne lt. elim (ℕ_discrete (iblock other) b) [
        | yes same ↦
            let y : l'.buffers (iblock other) ≡ new = ap l'.buffers same ∙ here in
            let z : s.log.buffers (iblock other) ≡ old = ap s.log.buffers same in
            subst (λ y. SameContent (read_dinode other y) (on_disk other s)) (sym y)
              (subst (λ z. SameContent (read_dinode other new) (read_dinode other z)) (sym z)
                (read_dinode-other x.inum x.content old other same ne))
        | no far ↦
            let y : l'.buffers (iblock other) ≡ s.log.buffers (iblock other) =
              w.buffers (iblock other) (omega arith) ∙ ground arith in
            subst (λ y. SameContent (read_dinode other y) (on_disk other s)) (sym y)
              (record {
                kind_same = refl;
                major_same = refl;
                minor_same = refl;
                nlink_same = refl;
                size_same = refl;
                addrs_same = λ k le. refl;
              })
      ],
    )
