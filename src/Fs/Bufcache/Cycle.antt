-- ===== src/Fs/Bufcache/Cycle.antt =====
-- A buffer from `bufcache_read` to `bufcache_release`, with and without a write between them.
use mcertikos.Base.{
  ℕ, ◌^◌, ◌<◌, ◌≡◌, ◌≢◌, ◌⊎◌, inl, inr, refl, ap, sym, ◌∙◌, arith, true, false, not, ◌&&◌, ◌==◌,
  if◌then◌else◌, List, [], ◌∷◌, ok, panic, Call, ◌>>◌, modify, bind_ok, Bool-cases,
}
use mathlib.Core.Path.{subst}
use native.Mathlib.Decide.{ℕ_discrete}
use mcertikos.Fs.Disk.{Block}
use mcertikos.Fs.Bufcache.{
  Buf, Cache, set_buf, holds, is_spare, on_disk, put_disk, transfer, ide_rw, bufcache_write,
  without, bufcache_release,
}
use mcertikos.Fs.Bufcache.View.{IsIn, IsView, IsHeld}

without-IsIn : (b : ℕ) (bs : List ℕ) (a : ℕ) → IsIn a (without b bs) → IsIn a bs
unfolding without
without-IsIn b [] a i = absurd i
without-IsIn b (x ∷ bs) a i = elim (Bool-cases (x == b)) [
  | inl e ↦ inr (subst (λ t. IsIn a (if t then bs else x ∷ without b bs)) e i)
  | inr e ↦ elim (subst (λ t. IsIn a (if t then bs else x ∷ without b bs)) e i) [
    | inl h ↦ inl h
    | inr h ↦ inr (without-IsIn b bs a h)
  ]
]

kept-IsIn : (b : ℕ) (bs : List ℕ) (a : ℕ) → IsIn a bs → a ≢ b → IsIn a (without b bs)
unfolding without
kept-IsIn b [] a i ne = absurd i
kept-IsIn b (x ∷ bs) a i ne = elim (Bool-cases (x == b)) [
  | inl e ↦
      subst (λ t. IsIn a (if t then bs else x ∷ without b bs)) (sym e)
        (elim i [ inl h ↦ absurd (ne (sym h ∙ ground (arith, e))) | inr h ↦ h ])
  | inr e ↦
      subst (λ t. IsIn a (if t then bs else x ∷ without b bs)) (sym e)
        (elim i [ inl h ↦ inl h | inr h ↦ inr (kept-IsIn b bs a h ne) ])
]

-- The ring holds the same buffers with `b` in front.
front-IsIn : (b : ℕ) (bs : List ℕ) (a : ℕ) → IsIn b bs → IsIn a (b ∷ without b bs) → IsIn a bs
front-IsIn b bs a i (inl e) = subst (λ a. IsIn a bs) e i
front-IsIn b bs a i (inr j) = without-IsIn b bs a j

into_front-IsIn : (b : ℕ) (bs : List ℕ) (a : ℕ) → IsIn a bs → IsIn a (b ∷ without b bs)
into_front-IsIn b bs a i = elim (ℕ_discrete a b) [
  | yes e ↦ inl (sym e)
  | no ne ↦ inr (kept-IsIn b bs a i ne)
]

-- What the client does with a buffer it has read: new contents, `bufcache_write`, `bufcache_release`.
unfoldable pub write_back : ℕ → Block → Call Cache (Unit {0})
unfolding bufcache_write bufcache_release
write_back b x = do
  modify (λ c. set_buf b (record (c.buf b) { contents = x }) c)
  bufcache_write b
  bufcache_release b

-- The blocks `v` with one of them changed.
abbrev pub revised : (ℕ → ℕ → Block) → ℕ → ℕ → Block → ℕ → ℕ → Block
revised v dev sector x d s = if (d == dev) && (s == sector) then x else v d s

module _ (v : ℕ → ℕ → Block) (dev sector b : ℕ) (c : Cache) (held : IsHeld v dev sector b c)
    (x : Block) where
  written_buf : Buf
  written_buf = record (c.buf b) { busy = false; valid = true; dirty = false; contents = x }

  -- The cache once the buffer is filled, written and released.
  filled : Cache
  filled = set_buf b (record (c.buf b) { contents = x }) c

  marked : Cache
  unfolding filled
  marked = set_buf b (record (filled.buf b) { dirty = true }) filled

  flushed : Cache
  unfolding marked
  flushed = transfer b marked

  released : Cache
  unfolding flushed
  released = record (set_buf b (record (flushed.buf b) { busy = false }) flushed) {
    order = b ∷ without b flushed.order;
  }

  marked-buf : marked.buf b ≡ record (c.buf b) { dirty = true; contents = x }
  unfolding marked filled
  marked-buf = ground arith

  bufcache_write-ok : bufcache_write b filled ≡ ok (tt, flushed)
  unfolding bufcache_write ide_rw flushed marked filled
  bufcache_write-ok = let self = marked-buf in ground (arith, self, held.busy, held.disks)

  flushed-buf : flushed.buf b ≡ record (c.buf b) { valid = true; dirty = false; contents = x }
  unfolding flushed transfer
  flushed-buf = let self = marked-buf in ground (arith, self)

  bufcache_release-ok : bufcache_release b flushed ≡ ok (tt, released)
  unfolding bufcache_release released
  bufcache_release-ok =
      ap (λ t. if not t then panic else ok (tt, released))
        (ap (λ y. y.busy) flushed-buf ∙ held.busy)

  released_self : released.buf b ≡ written_buf
  unfolding released written_buf
  released_self = let self = flushed-buf in ground (arith, self)

  released-other : (a : ℕ) → a ≢ b → released.buf a ≡ c.buf a
  unfolding released flushed transfer marked filled
  released-other a ne = let self = marked-buf in ground (arith, self)

  released-disk : released.disk ≡ put_disk c.disk (c.buf b).dev (c.buf b).sector x
  unfolding released flushed transfer
  released-disk = let self = marked-buf in ground (arith, self)

  released-order : released.order ≡ b ∷ without b c.order
  unfolding released flushed transfer marked filled
  released-order = let self = marked-buf in ground (arith, self)

  was-IsIn : (a : ℕ) → IsIn a released.order → IsIn a c.order
  was-IsIn a i = front-IsIn b c.order a held.in_ring (subst (λ o. IsIn a o) released-order i)

  still-IsIn : (a : ℕ) → IsIn a c.order → IsIn a released.order
  still-IsIn a i = subst (λ o. IsIn a o) (sym released-order) (into_front-IsIn b c.order a i)

  self_holds : holds dev sector (c.buf b) ≡ true
  self_holds = ground (arith, held.dev_is, held.sector_is)

  -- The buffers keep their sectors.
  same_name : (d s a : ℕ) → holds d s (released.buf a) ≡ holds d s (c.buf a)
  unfolding written_buf
  same_name d s a = elim (ℕ_discrete a b) [
    | yes e ↦
        ap (λ a. holds d s (released.buf a)) e
        ∙ ap (holds d s) released_self
        ∙ ap (λ a. holds d s (c.buf a)) (sym e)
    | no ne ↦ ap (holds d s) (released-other a ne)
  ]

  revised_here : (d s : ℕ) → d ≡ dev → s ≡ sector → revised v dev sector x d s ≡ x
  revised_here d s p q = ground (arith, p, q)

  module _ (dev_lt : dev < 2) (sector_lt : sector < 2 ^ 28) where
    disk_here : (d s : ℕ) → d ≡ dev → s ≡ sector → on_disk released.disk d s ≡ x
    disk_here d s p q =
        ap (λ disk. on_disk disk d s) released-disk
        ∙ ground (arith, p, q, held.dev_is, held.sector_is)

    disk_there :
        (d s : ℕ)
        → d < 2
        → s < 2 ^ 28
        → (d ≢ dev) ⊎ (s ≢ sector)
        → on_disk released.disk d s ≡ on_disk c.disk d s
    disk_there d s d_lt s_lt (inl ne) =
        ap (λ disk. on_disk disk d s) released-disk
        ∙ ground (arith, ne, held.dev_is, held.sector_is)
    disk_there d s d_lt s_lt (inr ne) =
        ap (λ disk. on_disk disk d s) released-disk
        ∙ ground (arith, ne, held.dev_is, held.sector_is)

    stored_again :
        (d s : ℕ)
        → d < 2
        → s < 2 ^ 28
        → (d ≢ dev) ⊎ (s ≢ sector)
        → (revised v dev sector x d s ≡ on_disk released.disk d s)
          ⊎ ((a : ℕ) × IsIn a released.order
              × (holds d s (released.buf a) ≡ true)
              × ((released.buf a).valid ≡ true)
              × (is_spare (released.buf a) ≡ false))
    stored_again d s d_lt s_lt ne =
        let other : revised v dev sector x d s ≡ v d s = elim ne [
          | inl n ↦ ground arith
          | inr n ↦ ground arith
        ] in
        elim (held.view.stored d s d_lt s_lt) [
          | inl e ↦ inl (other ∙ e ∙ sym (disk_there d s d_lt s_lt ne))
          | inr (a, i, name, valid, kept) ↦
              let apart : a ≢ b = λ e.
                let n : holds d s (c.buf b) ≡ true = sym (ap (λ a. holds d s (c.buf a)) e) ∙ name in
                elim ne [
                  | inl z ↦ z (ground (arith, n, held.dev_is))
                  | inr z ↦ z (ground (arith, n, held.sector_is))
                ] in
              let f = released-other a apart in
              inr (
                a,
                still-IsIn a i,
                ap (holds d s) f ∙ name,
                ap (λ y. y.valid) f ∙ valid,
                ap is_spare f ∙ kept,
              )
        ]

    released-IsView : IsView (revised v dev sector x) released
    unfolding written_buf
    released-IsView = record {
      cached = λ a i valid. elim (ℕ_discrete a b) [
        | yes e ↦
            let y : released.buf a ≡ written_buf = ap released.buf e ∙ released_self in
            ap (λ y. y.contents) y
            ∙ sym (
                ap (λ y. revised v dev sector x y.dev y.sector) y
                ∙ revised_here (c.buf b).dev (c.buf b).sector held.dev_is held.sector_is)
        | no ne ↦
            let f = released-other a ne in
            let y = c.buf a in
            let apart : holds dev sector y ≡ false = elim (Bool-cases (holds dev sector y)) [
              | inl name ↦ absurd (
                  ne (
                    held.view.unique dev sector a b (was-IsIn a i) held.in_ring dev_lt name
                      self_holds))
              | inr e ↦ e
            ] in
            ap (λ y. y.contents) f
            ∙ held.view.cached a (was-IsIn a i) (sym (ap (λ y. y.valid) f) ∙ valid)
            ∙ sym (
                ap (λ y. revised v dev sector x y.dev y.sector) f
                ∙ ap (λ t. if t then x else v y.dev y.sector) apart)
      ];
      stored = λ d s d_lt s_lt. elim (ℕ_discrete d dev) [
        | yes p ↦ elim (ℕ_discrete s sector) [
          | yes q ↦ inl (revised_here d s p q ∙ sym (disk_here d s p q))
          | no q ↦ stored_again d s d_lt s_lt (inr q)
        ]
        | no p ↦ stored_again d s d_lt s_lt (inl p)
      ];
      clean = λ a i invalid. elim (ℕ_discrete a b) [
        | yes e ↦
            let y : released.buf a ≡ written_buf = ap released.buf e ∙ released_self in
            ap (λ y. y.dirty) y
        | no ne ↦
            let f = released-other a ne in
            ap (λ y. y.dirty) f
            ∙ held.view.clean a (was-IsIn a i) (sym (ap (λ y. y.valid) f) ∙ invalid)
      ];
      unique = λ d s a e i j lt p q.
          held.view.unique d s a e (was-IsIn a i) (was-IsIn e j) lt (sym (same_name d s a) ∙ p)
            (sym (same_name d s e) ∙ q);
    }

    -- Let a client hold the buffer of a sector on a disk with a cache that shows it the blocks `v`. If it
    -- changes the contents, calls `bufcache_write` and then `bufcache_release`, both return, the block is on
    -- the disk, and the cache shows `v` with that one block changed.
    pub write_back-IsView :
        (c' : Cache) × (write_back b x c ≡ ok (tt, c'))
        × IsView (revised v dev sector x) c'
        × (on_disk c'.disk dev sector ≡ x)
    unfolding write_back filled
    write_back-IsView = (
      released,
      bind_ok (bufcache_write b) (λ _. bufcache_release b) filled flushed tt bufcache_write-ok
          ∙ bufcache_release-ok,
      released-IsView,
      disk_here dev sector refl refl,
    )
