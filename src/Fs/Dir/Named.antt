-- ===== src/Fs/Dir/Named.antt =====
-- What `dir_lookup` finds, by the bytes of the directory and of the name.
use mcertikos.Base.{
  ℕ, ◌+◌, ◌-◌, ◌*◌, ◌/◌, ◌%◌, ◌<◌, ◌≡◌, ◌≢◌, ◌⊎◌, inl, inr, ap, sym, ◌∙◌, arith, true, false,
  Option, none, some, ok, Call, ◌>>=◌, pure,
}
use mcertikos.Strings.{Bytes}
use mcertikos.Strings.Compare.{IsBytes, strncmp_iff}
use mcertikos.Fs.Inode.{Inodes, inode_get}
use mcertikos.Fs.Inode.ReadWrite.Packing.{byte_at-lt}
use mcertikos.Fs.Inode.ReadWrite.Mapped.{block_of}
use mcertikos.Fs.Inode.ReadWrite.Read.{file_byte}
use mcertikos.Fs.Dir.{de_inum, de_name, beside, dir_namecmp, found, dir_lookup}
use mcertikos.Fs.Dir.Lookup.{IsDir, entry_at, matches, entry_at-in, dir_lookup-Finds}

module _ (s : Inodes) (dp : ℕ) (h : IsDir s dp) where
  -- The number in the entry at an offset.
  abbrev pub number : ℕ → ℕ
  number off = file_byte s dp off + 256 * file_byte s dp (off + 1)

  -- The entry at an offset is in use, and agrees with the name in its 14 bytes or up to a zero in both.
  pub record HasName (name : Bytes) (off : ℕ) : Type 0 where
    pub in_use : number off ≢ 0
    pub agrees :
        (k : ℕ)
        → k < 14
        → ((j : ℕ) → j < k → file_byte s dp (off + (2 + j)) ≢ 0)
        → file_byte s dp (off + (2 + k)) ≡ name k

  entry-number : (off : ℕ) → de_inum (entry_at s dp off) ≡ number off
  entry-number off =
      let zeroth : file_byte s dp (off + 0) ≡ file_byte s dp off =
        ap (file_byte s dp) (omega arith) in
      omega
        (arith, entry_at-in s dp off 0 (omega arith), entry_at-in s dp off 1 (omega arith), zeroth)

  file_byte-lt : (j : ℕ) → file_byte s dp j < 256
  unfolding file_byte
  file_byte-lt j = byte_at-lt (s.log.buffers (block_of s dp (j / 512))) (j % 512)

  entry-lt : (off i : ℕ) → entry_at s dp off i < 256
  unfolding entry_at
  entry-lt off i = ground (arith, file_byte-lt (off + i))

  module _ (name : Bytes) (chars : IsBytes name) (off : ℕ) where
    both : Bytes
    both = beside (de_name (entry_at s dp off)) name

    both-entry : (j : ℕ) → j < 14 → both (0 + j) ≡ file_byte s dp (off + (2 + j))
    unfolding both
    both-entry j lt =
        let z : 0 + j ≡ j = omega arith in
        let b : both j ≡ entry_at s dp off (2 + j) = ground arith in
        ap both z ∙ b ∙ entry_at-in s dp off (2 + j) (omega arith)

    both-name : (k : ℕ) → both (14 + k) ≡ name k
    unfolding both
    both-name k =
        let b : both (14 + k) ≡ name (14 + k - 14) = ground arith in
        let e : 14 + k - 14 ≡ k = omega arith in b ∙ ap name e

    both-IsBytes : IsBytes both
    unfolding both
    both-IsBytes a = ground (arith, entry-lt off (2 + a), chars (a - 14))

    matches-HasName : matches s dp name off ≡ true → HasName name off
    unfolding matches dir_namecmp both
    matches-HasName m =
        let (to, _) = strncmp_iff both 0 14 14 both-IsBytes in
        let same : dir_namecmp (de_name (entry_at s dp off)) name ≡ 0 = ground (arith, m) in
        let used : de_inum (entry_at s dp off) ≢ 0 = λ z. absurd (ground (arith, m, z)) in
        record {
          in_use = λ z. used (entry-number off ∙ z);
          agrees = λ k lt nz.
              sym (both-entry k lt)
              ∙ to same k lt (λ j j_lt z. nz j j_lt (sym (both-entry j (omega arith)) ∙ z))
              ∙ both-name k;
        }

    HasName-matches : HasName name off → matches s dp name off ≡ true
    unfolding matches dir_namecmp both
    HasName-matches h =
        let (_, of) = strncmp_iff both 0 14 14 both-IsBytes in
        let same : dir_namecmp (de_name (entry_at s dp off)) name ≡ 0 = of (λ k lt nz.
          both-entry k lt
          ∙ h.agrees k lt (λ j j_lt z. nz j j_lt (both-entry j (omega arith) ∙ z))
          ∙ sym (both-name k)) in
        let used : de_inum (entry_at s dp off) ≢ 0 = λ z. h.in_use (sym (entry-number off) ∙ z) in
        ground (arith, same, used)

  -- What `inode_get` returns for the entry at an offset, with the offset.
  abbrev pub get_at : ℕ → Call Inodes (Option (ℕ × ℕ))
  get_at off = inode_get (s.inode dp).dev (number off) >>= λ ip. pure (some (ip, off))

  found-get_at :
      (off : ℕ) → found (s.inode dp).dev (de_inum (entry_at s dp off)) off s ≡ get_at off s
  unfolding found
  found-get_at off =
      ap (λ n. (inode_get (s.inode dp).dev n >>= λ ip. pure (some (ip, off))) s) (entry-number off)

  no_match :
      (name : Bytes) (o : ℕ) → IsBytes name → matches s dp name o ≡ false → HasName name o → ⊥
  no_match name o chars miss h =
      let hit = HasName-matches name chars o h in absurd (ground (arith, hit, miss))

  -- Of a directory of whole entries whose blocks are there, `dir_lookup` of a name takes the first entry in use with
  -- the name: it returns the inode that `inode_get` returns for the number in the entry, with the offset of
  -- the entry. If there is none, it returns null and changes nothing. A name has 14 bytes, or ends at a
  -- zero in front of that.
  pub dir_lookup_total :
      (name : Bytes)
      → IsBytes name
      → ((off : ℕ) × (off % 16 ≡ 0)
          × (off < (s.inode dp).size)
          × HasName name off
          × ((o : ℕ) → o % 16 ≡ 0 → o < off → HasName name o → ⊥)
          × (dir_lookup dp name s ≡ get_at off s))
        ⊎ (((o : ℕ) → o % 16 ≡ 0 → o < (s.inode dp).size → HasName name o → ⊥)
            × (dir_lookup dp name s ≡ ok (none, s)))
  dir_lookup_total name chars = elim (dir_lookup-Finds s dp h name) [
    | inl (off, even, _, inside, m, before, run) ↦ inl (
      off,
      even,
      inside,
      matches-HasName name chars off m,
      λ o e lt h. no_match name o chars (before o e (omega arith) lt) h,
      run ∙ found-get_at off,
    )
    | inr (none_there, run) ↦
        inr (λ o e lt h. no_match name o chars (none_there o e (omega arith) lt) h, run)
  ]
