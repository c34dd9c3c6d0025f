-- ===== src/Fs/Dir/Lookup.antt =====
-- `dir_lookup` finds the first entry with the name.
use mcertikos.Base.{
  ℕ, zero, suc, ◌+◌, ◌-◌, ◌*◌, ◌/◌, ◌%◌, ◌^◌, ◌≤◌, ◌<◌, min, ◌≡◌, ◌⊎◌, inl, inr, ap, sym, ◌∙◌,
  arith, Bool, true, false, not, ◌&&◌, ◌==◌, ltb, if◌then◌else◌, Option, none, some, ok, hang,
  panic, Call, ◌>>=◌, bind_ok, Bool-cases,
}
use mathlib.Core.Path.{fun_ext}
use native.Mathlib.Decide.{dec_lt, ℕ_discrete}
use mcertikos.Strings.{Bytes}
use mcertikos.Fs.Inode.{Inodes}
use mcertikos.Fs.Inode.ReadWrite.{inode_read}
use mcertikos.Fs.Inode.ReadWrite.Read.{file_byte, IsWhole, inode_read_total}
use mcertikos.Fs.Dir.{
  t_dir, dirent, de_inum, de_name, dir_namecmp, whole_entry, read_entry, found, lookup_loop,
  dir_lookup,
}

-- A directory whose blocks are there, of whole entries.
pub record IsDir (s : Inodes) (dp : ℕ) : Type 0 where
  pub whole : IsWhole s dp
  pub kind : (s.inode dp).kind ≡ t_dir
  pub even : (s.inode dp).size % dirent ≡ 0
  pub small : (s.inode dp).size + dirent < 2 ^ 32

-- The entry at an offset.
unfoldable pub entry_at : Inodes → (dp off : ℕ) → Bytes
unfolding file_byte
entry_at s dp off i = if ltb i dirent then file_byte s dp (off + i) else 0

-- An entry in use with the name.
unfoldable pub matches : Inodes → (dp : ℕ) → Bytes → (off : ℕ) → Bool
unfolding entry_at dir_namecmp
matches s dp name off =
    not (de_inum (entry_at s dp off) == 0) && (dir_namecmp (de_name (entry_at s dp off)) name == 0)

pub entry_at-in :
    (s : Inodes) (dp off i : ℕ) → i < dirent → entry_at s dp off i ≡ file_byte s dp (off + i)
unfolding entry_at
entry_at-in s dp off i lt =
    let t : ltb i dirent ≡ true = ground arith in
    ap (λ t. if t then file_byte s dp (off + i) else 0) t

entry_at-out : (s : Inodes) (dp off i : ℕ) → dirent ≤ i → entry_at s dp off i ≡ 0
unfolding entry_at
entry_at-out s dp off i le =
    let t : ltb i dirent ≡ false = ground arith in
    ap (λ t. if t then file_byte s dp (off + i) else 0) t

module _ (s : Inodes) (dp : ℕ) (h : IsDir s dp) where
  read_entry-ok :
      (off : ℕ) → off + dirent ≤ (s.inode dp).size → read_entry dp off s ≡ ok (entry_at s dp off, s)
  unfolding read_entry whole_entry
  read_entry-ok off le =
      let size = (s.inode dp).size in
      let m = min dirent (size - off) in
      let full : m ≡ dirent = omega arith in
      let (dst, e, done, kept) =
        inode_read_total s dp off dirent (λ _. 0) h.whole (λ z. omega (arith, h.kind)) (omega arith)
          (omega (arith, h.small)) in
      let same : dst ≡ entry_at s dp off = fun_ext (λ i. elim (dec_lt i dirent) [
        | yes lt ↦ done i (omega arith) ∙ sym (entry_at-in s dp off i lt)
        | no ge ↦ kept i (omega arith) ∙ sym (entry_at-out s dp off i (omega arith))
      ]) in
      bind_ok (inode_read dp off dirent (λ _. 0)) whole_entry s s (some (m, dst)) e
      ∙ ap (λ n. whole_entry (some (n, dst)) s) full
      ∙ ap (λ de. ok (de, s)) same

  -- The round at an offset inside of the directory.
  lookup_loop-step :
      (name : Bytes) (fuel off : ℕ)
      → off + dirent ≤ (s.inode dp).size
      → lookup_loop dp name (suc fuel) off s
        ≡ (if matches s dp name off
              then found (s.inode dp).dev (de_inum (entry_at s dp off)) off
              else lookup_loop dp name fuel (off + dirent))
            s
  unfolding lookup_loop matches
  lookup_loop-step name fuel off le =
      let rest = lookup_loop dp name fuel (off + dirent) in
      let k : Bytes → Call Inodes (Option (ℕ × ℕ)) = λ de.
        if not (de_inum de == 0) && (dir_namecmp (de_name de) name == 0)
        then found (s.inode dp).dev (de_inum de) off
        else rest in
      let t : ltb off (s.inode dp).size ≡ true = ground arith in
      ap (λ t. if t then (read_entry dp off >>= k) s else ok (none, s)) t
      ∙ bind_ok (read_entry dp off) k s s (entry_at s dp off) (read_entry-ok off le)

  -- The end of the loop.
  lookup_loop-end :
      (name : Bytes) (fuel off : ℕ)
      → (s.inode dp).size ≤ off
      → lookup_loop dp name (suc fuel) off s ≡ ok (none, s)
  unfolding lookup_loop
  lookup_loop-end name fuel off le =
      let rest = lookup_loop dp name fuel (off + dirent) in
      let k : Bytes → Call Inodes (Option (ℕ × ℕ)) = λ de.
        if not (de_inum de == 0) && (dir_namecmp (de_name de) name == 0)
        then found (s.inode dp).dev (de_inum de) off
        else rest in
      let t : ltb off (s.inode dp).size ≡ false = ground arith in
      ap (λ t. if t then (read_entry dp off >>= k) s else ok (none, s)) t

  -- What the loop does from an offset on.
  abbrev pub Finds : Bytes → ℕ → Call Inodes (Option (ℕ × ℕ)) → Type 0
  Finds name from m =
      ((off : ℕ) × (off % dirent ≡ 0)
        × (from ≤ off)
        × (off < (s.inode dp).size)
        × (matches s dp name off ≡ true)
        × ((o : ℕ) → o % dirent ≡ 0 → from ≤ o → o < off → matches s dp name o ≡ false)
        × (m s ≡ found (s.inode dp).dev (de_inum (entry_at s dp off)) off s))
      ⊎ (((o : ℕ) → o % dirent ≡ 0 → from ≤ o → o < (s.inode dp).size → matches s dp name o ≡ false)
          × (m s ≡ ok (none, s)))

  lookup_loop-Finds :
      (name : Bytes) (fuel from : ℕ)
      → from % dirent ≡ 0
      → (s.inode dp).size ≤ from + dirent * fuel
      → Finds name from (lookup_loop dp name fuel from)
  unfolding lookup_loop
  lookup_loop-Finds name zero from even enough =
      let t : ltb from (s.inode dp).size ≡ false = ground arith in
      inr (λ o e lo hi. absurd (omega arith), ap (λ t. if t then hang else ok (none, s)) t)
  lookup_loop-Finds name (suc fuel) from even enough = elim (dec_lt from (s.inode dp).size) [
    | no out ↦
        let t : ltb from (s.inode dp).size ≡ false = ground arith in
        inr (λ o e lo hi. absurd (omega arith), lookup_loop-end name fuel from (omega arith))
    | yes in_range ↦
        let whole : from + dirent ≤ (s.inode dp).size = omega (arith, h.even) in
        let step = lookup_loop-step name fuel from whole in
        let rest = lookup_loop dp name fuel (from + dirent) in
        elim (Bool-cases (matches s dp name from)) [
          | inl hit ↦ inl (
            from,
            even,
            omega arith,
            in_range,
            hit,
            λ o e lo hi. absurd (omega arith),
            step
                ∙ ap
                    (λ t.
                      (if t
                          then found (s.inode dp).dev (de_inum (entry_at s dp from)) from
                          else rest)
                        s)
                    hit,
          )
          | inr miss ↦
              let on =
                step
                ∙ ap
                    (λ t.
                      (if t
                          then found (s.inode dp).dev (de_inum (entry_at s dp from)) from
                          else rest)
                        s)
                    miss in
              let before : (o : ℕ)
                  → o % dirent ≡ 0
                  → from ≤ o
                  → (from + dirent ≤ o → matches s dp name o ≡ false)
                  → matches s dp name o ≡ false =
                λ o e lo later. elim (ℕ_discrete o from) [
                  | yes same ↦ ap (matches s dp name) same ∙ miss
                  | no ne ↦ later (omega arith)
                ] in
              elim (lookup_loop-Finds name fuel (from + dirent) (omega arith) (omega arith)) [
                | inl (off, e, lo, hi, m, first, run) ↦ inl (
                  off,
                  e,
                  omega arith,
                  hi,
                  m,
                  λ o oe olo ohi. before o oe olo (λ l. first o oe l ohi),
                  on ∙ run,
                )
                | inr (none_there, run) ↦
                    inr (λ o oe olo ohi. before o oe olo (λ l. none_there o oe l ohi), on ∙ run)
              ]
        ]
  ]

  -- The whole of `dir_lookup`.
  pub dir_lookup-Finds : (name : Bytes) → Finds name 0 (dir_lookup dp name)
  unfolding dir_lookup
  dir_lookup-Finds name =
      let size = (s.inode dp).size in
      let loop = lookup_loop dp name (size / dirent + 1) 0 in
      let t : (not ((s.inode dp).kind == t_dir)) ≡ false = ground (arith, h.kind) in
      let e : dir_lookup dp name s ≡ loop s = ap (λ t. if t then panic else loop s) t in
      elim (lookup_loop-Finds name (size / dirent + 1) 0 (omega arith) (omega arith)) [
        | inl (off, a, b, c, d, first, run) ↦ inl (off, a, b, c, d, first, e ∙ run)
        | inr (none_there, run) ↦ inr (none_there, e ∙ run)
      ]
