-- ===== src/Fs/Bufcache/View.antt =====
-- What a client sees through the buffer cache: one block for each sector, whichever buffers hold it.
use mcertikos.Base.{
  ℕ, ◌^◌, ◌<◌, ◌≡◌, ◌≢◌, ◌⊎◌, inl, inr, refl, ap, sym, ◌∙◌, arith, Bool, true, false, update, List,
  [], ◌∷◌, none, some,
}
use mathlib.Core.Path.{subst}
use native.Mathlib.Decide.{ℕ_discrete}
use mcertikos.Fs.Disk.{Block}
use mcertikos.Fs.Bufcache.{Buf, Cache, set_buf, find_next, find_prev, holds, is_spare, on_disk}

abbrev pub IsIn : ℕ → List ℕ → Type 0
IsIn b [] = ⊥
IsIn b (x ∷ xs) = (x ≡ b) ⊎ IsIn b xs

pub find_next-some :
    (test : ℕ → Bool) (bs : List ℕ) (b : ℕ)
    → find_next test bs ≡ some b
    → IsIn b bs × (test b ≡ true)
unfolding find_next
find_next-some test [] b e = ground arith
find_next-some test (x ∷ bs) b e = ground (arith, find_next-some test bs b)

pub find_next-none :
    (test : ℕ → Bool) (bs : List ℕ) (b : ℕ) → find_next test bs ≡ none → IsIn b bs → test b ≡ false
unfolding find_next
find_next-none test [] b e h = absurd h
find_next-none test (x ∷ bs) b e (inl h) = ground arith
find_next-none test (x ∷ bs) b e (inr h) = ground (arith, find_next-none test bs b)

pub find_prev-some :
    (test : ℕ → Bool) (bs : List ℕ) (b : ℕ)
    → find_prev test bs ≡ some b
    → IsIn b bs × (test b ≡ true)
unfolding find_prev
find_prev-some test [] b e = ground arith
find_prev-some test (x ∷ bs) b e = ground (arith, find_prev-some test bs b)

pub find_prev-none :
    (test : ℕ → Bool) (bs : List ℕ) (b : ℕ) → find_prev test bs ≡ none → IsIn b bs → test b ≡ false
unfolding find_prev
find_prev-none test [] b e h = absurd h
find_prev-none test (x ∷ bs) b e (inl h) = ground arith
find_prev-none test (x ∷ bs) b e (inr h) = ground (arith, find_prev-none test bs b)

-- The client's view `v` of the cache `c`: a valid buffer shows it, the disk holds it unless a valid
-- buffer that is busy or dirty does, and no sector has two buffers.
pub record IsView (v : ℕ → ℕ → Block) (c : Cache) : Type 0 where
  pub cached :
      (b : ℕ)
      → IsIn b c.order
      → (c.buf b).valid ≡ true
      → (c.buf b).contents ≡ v (c.buf b).dev (c.buf b).sector
  pub stored :
      (dev sector : ℕ)
      → dev < 2
      → sector < 2 ^ 28
      → (v dev sector ≡ on_disk c.disk dev sector)
        ⊎ ((b : ℕ) × IsIn b c.order
            × (holds dev sector (c.buf b) ≡ true)
            × ((c.buf b).valid ≡ true)
            × (is_spare (c.buf b) ≡ false))
  pub clean : (b : ℕ) → IsIn b c.order → (c.buf b).valid ≡ false → (c.buf b).dirty ≡ false
  pub unique :
      (dev sector a b : ℕ)
      → IsIn a c.order
      → IsIn b c.order
      → dev < 2
      → holds dev sector (c.buf a) ≡ true
      → holds dev sector (c.buf b) ≡ true
      → a ≡ b

-- A property of a buffer after a change of one of them.
pub with_buf {ℓ} :
    (P : ℕ → Buf → Type ℓ) (c : Cache) (b : ℕ) (x : Buf) (a : ℕ)
    → P b x
    → (a ≢ b → P a (c.buf a))
    → P a (update c.buf b x a)
with_buf P c b x a here there = elim (ℕ_discrete a b) [
  | yes e ↦
      let f : update c.buf b x a ≡ x = ground arith in
      subst (λ y. P a y) (sym f) (subst (λ a. P a x) (sym e) here)
  | no ne ↦
      let f : update c.buf b x a ≡ c.buf a = ground arith in subst (λ y. P a y) (sym f) (there ne)
]

-- The buffer that `recycle` makes of one, and the one that a read of the disk makes of it.
abbrev pub recycled : ℕ → ℕ → Buf → Buf
recycled dev sector x = record x {
  busy = true;
  valid = false;
  dirty = false;
  dev = dev;
  sector = sector;
}

abbrev pub loaded : (ℕ → ℕ → Block) → Buf → Buf
loaded disk x = record x { valid = true; dirty = false; contents = on_disk disk x.dev x.sector }

module _ (v : ℕ → ℕ → Block) (c : Cache) (h : IsView v c) (b : ℕ) (in_ring : IsIn b c.order) where
  -- A buffer is taken by a client: nothing but its flags changes.
  pub take-IsView : IsView v (set_buf b (record (c.buf b) { busy = true }) c)
  take-IsView = record {
    cached = λ a i.
        with_buf (λ a y. y.valid ≡ true → y.contents ≡ v y.dev y.sector) c b
          (record (c.buf b) { busy = true }) a (h.cached b in_ring) (λ ne. h.cached a i);
    stored = λ dev sector d_lt s_lt. elim (h.stored dev sector d_lt s_lt) [
      | inl e ↦ inl e
      | inr (a, i, name, valid, kept) ↦ inr (
        a,
        i,
        with_buf (λ a y. holds dev sector (c.buf a) ≡ true → holds dev sector y ≡ true) c b
            (record (c.buf b) { busy = true }) a (λ e. e) (λ ne e. e) name,
        with_buf (λ a y. (c.buf a).valid ≡ true → y.valid ≡ true) c b
            (record (c.buf b) { busy = true }) a (λ e. e) (λ ne e. e) valid,
        with_buf (λ a y. is_spare (c.buf a) ≡ false → is_spare y ≡ false) c b
            (record (c.buf b) { busy = true }) a (λ e. refl) (λ ne e. e) kept,
      )
    ];
    clean = λ a i.
        with_buf (λ a y. y.valid ≡ false → y.dirty ≡ false) c b (record (c.buf b) { busy = true }) a
          (h.clean b in_ring) (λ ne. h.clean a i);
    unique = λ dev sector a d i j lt p q.
        h.unique dev sector a d i j lt
          (with_buf (λ a y. holds dev sector y ≡ true → holds dev sector (c.buf a) ≡ true) c b
            (record (c.buf b) { busy = true }) a (λ e. e) (λ ne e. e) p)
          (with_buf (λ a y. holds dev sector y ≡ true → holds dev sector (c.buf a) ≡ true) c b
            (record (c.buf b) { busy = true }) d (λ e. e) (λ ne e. e) q);
  }

  -- A spare buffer is given to a sector that has none.
  pub recycle-IsView :
      (dev sector : ℕ)
      → is_spare (c.buf b) ≡ true
      → ((a : ℕ) → IsIn a c.order → holds dev sector (c.buf a) ≡ false)
      → IsView v (set_buf b (recycled dev sector (c.buf b)) c)
  recycle-IsView dev sector spare absent =
      let x = recycled dev sector (c.buf b) in
      record {
        cached = λ a i.
            with_buf (λ a y. y.valid ≡ true → y.contents ≡ v y.dev y.sector) c b x a
              (λ e. ground arith) (λ ne. h.cached a i);
        stored = λ d s d_lt s_lt. elim (h.stored d s d_lt s_lt) [
          | inl e ↦ inl e
          | inr (a, i, name, valid, kept) ↦
              let ne : a ≢ b = λ e.
                let f : is_spare (c.buf a) ≡ true = ap (λ a. is_spare (c.buf a)) e ∙ spare in
                ground arith in
              let f : update c.buf b x a ≡ c.buf a = ground arith in
              inr (a, i, ap (holds d s) f ∙ name, ap (λ y. y.valid) f ∙ valid, ap is_spare f ∙ kept)
        ];
        clean = λ a i.
            with_buf (λ a y. y.valid ≡ false → y.dirty ≡ false) c b x a (λ e. refl)
              (λ ne. h.clean a i);
        unique = λ d s a e i j lt p q. elim (ℕ_discrete a b) [
          | yes u ↦ elim (ℕ_discrete e b) [
            | yes w ↦ u ∙ sym w
            | no w ↦
                let f : update c.buf b x e ≡ c.buf e = ground arith in
                let g : update c.buf b x a ≡ x = ground arith in
                let same : (d ≡ dev) × (s ≡ sector) = (
                  ground (arith, sym (ap (holds d s) g) ∙ p),
                  ground (arith, sym (ap (holds d s) g) ∙ p),
                ) in
                absurd (ground (arith, absent e j, sym (ap (holds d s) f) ∙ q, same))
          ]
          | no u ↦ elim (ℕ_discrete e b) [
            | yes w ↦
                let f : update c.buf b x a ≡ c.buf a = ground arith in
                let g : update c.buf b x e ≡ x = ground arith in
                let same : (d ≡ dev) × (s ≡ sector) = (
                  ground (arith, sym (ap (holds d s) g) ∙ q),
                  ground (arith, sym (ap (holds d s) g) ∙ q),
                ) in
                absurd (ground (arith, absent a i, sym (ap (holds d s) f) ∙ p, same))
            | no w ↦
                let f : update c.buf b x a ≡ c.buf a = ground arith in
                let g : update c.buf b x e ≡ c.buf e = ground arith in
                h.unique d s a e i j lt (sym (ap (holds d s) f) ∙ p) (sym (ap (holds d s) g) ∙ q)
          ]
        ];
      }

  holds_self : holds (c.buf b).dev (c.buf b).sector (c.buf b) ≡ true
  holds_self = ground arith

  -- The disk has the block of a buffer that is not valid.
  pub invalid_stored :
      (c.buf b).valid ≡ false
      → (c.buf b).dev < 2
      → (c.buf b).sector < 2 ^ 28
      → v (c.buf b).dev (c.buf b).sector ≡ on_disk c.disk (c.buf b).dev (c.buf b).sector
  invalid_stored invalid lt s_lt = elim (h.stored (c.buf b).dev (c.buf b).sector lt s_lt) [
    | inl e ↦ e
    | inr (a, i, name, valid, kept) ↦
        let e = h.unique (c.buf b).dev (c.buf b).sector a b i in_ring lt name holds_self in
        absurd (ground (arith, sym (ap (λ a. (c.buf a).valid) e) ∙ valid, invalid))
  ]

  -- A buffer that is not valid is read.
  pub load-IsView :
      (c.buf b).valid ≡ false
      → (c.buf b).dev < 2
      → (c.buf b).sector < 2 ^ 28
      → IsView v (set_buf b (loaded c.disk (c.buf b)) c)
  load-IsView invalid lt s_lt = record {
    cached = λ a i.
        with_buf (λ a y. y.valid ≡ true → y.contents ≡ v y.dev y.sector) c b
          (loaded c.disk (c.buf b)) a (λ e. sym (invalid_stored invalid lt s_lt))
          (λ ne. h.cached a i);
    stored = λ d s d_lt s_lt. elim (h.stored d s d_lt s_lt) [
      | inl e ↦ inl e
      | inr (a, i, name, valid, kept) ↦
          let ne : a ≢ b =
            λ e. ground (arith, sym (ap (λ a. (c.buf a).valid) e) ∙ valid, invalid) in
          let f : update c.buf b (loaded c.disk (c.buf b)) a ≡ c.buf a = ground arith in
          inr (a, i, ap (holds d s) f ∙ name, ap (λ y. y.valid) f ∙ valid, ap is_spare f ∙ kept)
    ];
    clean = λ a i.
        with_buf (λ a y. y.valid ≡ false → y.dirty ≡ false) c b (loaded c.disk (c.buf b)) a
          (λ e. refl) (λ ne. h.clean a i);
    unique = λ d s a e i j lt p q.
        h.unique d s a e i j lt
          (with_buf (λ a y. holds d s y ≡ true → holds d s (c.buf a) ≡ true) c b
            (loaded c.disk (c.buf b)) a (λ e. e) (λ ne e. e) p)
          (with_buf (λ a y. holds d s y ≡ true → holds d s (c.buf a) ≡ true) c b
            (loaded c.disk (c.buf b)) e (λ e. e) (λ ne e. e) q);
  }

-- A client holds the buffer `b` of a sector, with the block that it sees there.
pub record IsHeld (v : ℕ → ℕ → Block) (dev sector b : ℕ) (c : Cache) : Type 0 where
  pub view : IsView v c
  pub in_ring : IsIn b c.order
  pub busy : (c.buf b).busy ≡ true
  pub valid : (c.buf b).valid ≡ true
  pub dev_is : (c.buf b).dev ≡ dev
  pub sector_is : (c.buf b).sector ≡ sector
  pub contents : (c.buf b).contents ≡ v dev sector
  pub synced : ((c.buf b).dirty ≡ true) ⊎ (v dev sector ≡ on_disk c.disk dev sector)
  pub disks : c.havedisk1 ≡ true
