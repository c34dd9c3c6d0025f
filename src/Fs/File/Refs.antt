-- ===== src/Fs/File/Refs.antt =====
-- The references to the open files.
use mcertikos.Base.{
  ℕ, zero, suc, ◌+◌, ◌-◌, ◌≤◌, ◌<◌, ◌≡◌, ◌≢◌, ◌⊎◌, inl, inr, refl, ap, sym, ◌∙◌, arith, true, false,
  ◌==◌, ltb, if◌then◌else◌, none, some, ok, panic, Option-cases,
}
use native.Mathlib.Decide.{ℕ_discrete}
use mcertikos.Fs.File.{
  nfile, File, Files, set_file, find_file, file_alloc, file_dup, close_last, file_close,
}

find_file-none :
    (file : ℕ → File) (rounds f : ℕ)
    → find_file file rounds f ≡ none
    → (g : ℕ) → f ≤ g
    → g < f + rounds
    → (file g).ref ≢ 0
unfolding find_file
find_file-none file zero f e g lo hi = absurd (omega arith)
find_file-none file (suc rounds) f e g lo hi = elim (ℕ_discrete (file f).ref 0) [
  | yes z ↦ absurd (ground (arith, e, z))
  | no nz ↦ elim (ℕ_discrete g f) [
    | yes same ↦ λ z. nz (sym (ap (λ g. (file g).ref) same) ∙ z)
    | no ne ↦
        let later : find_file file rounds (f + 1) ≡ none = ground (arith, e, nz) in
        find_file-none file rounds (f + 1) later g (omega arith) (omega arith)
  ]
]

find_file-some :
    (file : ℕ → File) (rounds f g : ℕ)
    → find_file file rounds f ≡ some g
    → (f ≤ g) × (g < f + rounds) × ((file g).ref ≡ 0) × ((h : ℕ) → f ≤ h → h < g → (file h).ref ≢ 0)
unfolding find_file
find_file-some file zero f g e = absurd (ground arith)
find_file-some file (suc rounds) f g e = elim (ℕ_discrete (file f).ref 0) [
  | yes z ↦
      let same : f ≡ g = ground (arith, e, z) in
      (
        omega arith,
        omega arith,
        ap (λ g. (file g).ref) (sym same) ∙ z,
        λ h lo hi. absurd (omega arith),
      )
  | no nz ↦
      let later : find_file file rounds (f + 1) ≡ some g = ground (arith, e, nz) in
      let (lo, hi, free, before) = find_file-some file rounds (f + 1) g later in
      (
        omega arith,
        omega arith,
        free,
        λ h h_lo h_hi. elim (ℕ_discrete h f) [
          | yes same ↦ λ z. nz (sym (ap (λ g. (file g).ref) same) ∙ z)
          | no ne ↦ before h (omega arith) h_hi
        ],
      )
]

-- `file_alloc` returns null and changes nothing if all 100 files are in use. Otherwise it returns the first
-- file that is not, which then has one reference, and changes no other file.
pub file_alloc_total :
    (s : Files)
    → (((g : ℕ) → g < nfile → (s.file g).ref ≢ 0) × (file_alloc s ≡ ok (none, s)))
      ⊎ ((f : ℕ) × (s' : Files) × (file_alloc s ≡ ok (some f, s'))
          × (f < nfile)
          × ((s.file f).ref ≡ 0)
          × ((h : ℕ) → h < f → (s.file h).ref ≢ 0)
          × ((s'.file f).ref ≡ 1)
          × ((h : ℕ) → h ≢ f → s'.file h ≡ s.file h))
unfolding file_alloc
file_alloc_total s = elim (Option-cases (find_file s.file nfile 0)) [
  | inl full ↦ inl (
    λ g lt. find_file-none s.file nfile 0 full g (omega arith) lt,
    ap
        (λ o. elim o [
          | none ↦ ok (none, s)
          | some f ↦ ok (some f, set_file f (λ x. record x { ref = 1 }) s)
        ])
        full,
  )
  | inr (f, hit) ↦
      let (lo, hi, free, before) = find_file-some s.file nfile 0 f hit in
      inr (
        f,
        set_file f (λ x. record x { ref = 1 }) s,
        ap
            (λ o. elim o [
              | none ↦ ok (none, s)
              | some f ↦ ok (some f, set_file f (λ x. record x { ref = 1 }) s)
            ])
            hit,
        hi,
        free,
        λ h lt. before h (omega arith) lt,
        ground arith,
        λ h ne. ground arith,
      )
]

-- `file_dup` of a file in use, and then `file_close` of it, both return. Every file is as before, and so are
-- the inodes and the log: nothing is put or committed.
pub file_close-file_dup :
    (f : ℕ) (s : Files)
    → 0 < (s.file f).ref
    → (s1 : Files) × (s2 : Files) × (file_dup f s ≡ ok (f, s1))
      × (file_close f s1 ≡ ok (tt, s2))
      × ((g : ℕ) → s2.file g ≡ s.file g)
      × (s2.inodes ≡ s.inodes)
unfolding file_dup file_close
file_close-file_dup f s on =
    let s1 : Files = set_file f (λ x. record x { ref = x.ref + 1 }) s in
    let s2 : Files = set_file f (λ x. record x { ref = x.ref - 1 }) s1 in
    let self : s1.file f ≡ record (s.file f) { ref = (s.file f).ref + 1 } = ground arith in
    let n : (s1.file f).ref ≡ (s.file f).ref + 1 = ap (λ x. x.ref) self in
    let used : ((s.file f).ref == 0) ≡ false = ground arith in
    let a : ((s1.file f).ref == 0) ≡ false = ground (arith, n) in
    let b : ltb 0 ((s1.file f).ref - 1) ≡ true = ground (arith, n) in
    let last = close_last f (record (s1.file f) { ref = (s1.file f).ref - 1 }) s1 in
    (
      s1,
      s2,
      ap (λ t. if t then panic else ok (f, s1)) used,
      ap (λ t. if t then panic else if ltb 0 ((s1.file f).ref - 1) then ok (tt, s2) else last) a
          ∙ ap (λ t. if t then ok (tt, s2) else last) b,
      λ g. ground (arith, self),
      refl,
    )
