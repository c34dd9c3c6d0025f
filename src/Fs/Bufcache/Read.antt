-- ===== src/Fs/Bufcache/Read.antt =====
-- What `bufcache_read` gives its client.
use mcertikos.Base.{
  ℕ, ◌^◌, ◌<◌, ◌≡◌, ◌⊎◌, inl, inr, ap, sym, ◌∙◌, arith, true, false, not, if◌then◌else◌, update,
  none, some, ok, hang, panic, ◌>>◌, pure, bind_ok, Bool-cases, Option-cases,
}
use mcertikos.Fs.Disk.{Block}
use mcertikos.Fs.Bufcache.{
  Cache, set_buf, find_next, find_prev, holds, is_spare, recycle, bufcache_get, on_disk, transfer,
  ide_rw, read_if, bufcache_read,
}
use mcertikos.Fs.Bufcache.View.{
  IsIn, IsView, IsHeld, find_next-some, find_next-none, find_prev-some, find_prev-none, recycled,
  loaded, take-IsView, recycle-IsView, invalid_stored, load-IsView,
}

-- What `bufcache_get` gives.
record IsGot (v : ℕ → ℕ → Block) (dev sector b : ℕ) (c : Cache) : Type 0 where
  view : IsView v c
  in_ring : IsIn b c.order
  busy : (c.buf b).busy ≡ true
  dev_is : (c.buf b).dev ≡ dev
  sector_is : (c.buf b).sector ≡ sector
  clean_if : (c.buf b).valid ≡ false → (c.buf b).dirty ≡ false
  synced :
      (c.buf b).valid ≡ true → ((c.buf b).dirty ≡ true) ⊎ (v dev sector ≡ on_disk c.disk dev sector)
  disks : c.havedisk1 ≡ true

ide_rw-read :
    (c : Cache) (b : ℕ)
    → (c.buf b).busy ≡ true
    → (c.buf b).valid ≡ false
    → (c.buf b).dirty ≡ false
    → c.havedisk1 ≡ true
    → ide_rw b c ≡ ok (tt, set_buf b (loaded c.disk (c.buf b)) c)
unfolding ide_rw transfer
ide_rw-read c b busy invalid clean disks = ground (arith, busy, invalid, clean, disks)

read_if-IsHeld :
    (v : ℕ → ℕ → Block) (dev sector b : ℕ) (c : Cache)
    → dev < 2
    → sector < 2 ^ 28
    → IsGot v dev sector b c
    → (c' : Cache) × (read_if b c ≡ ok (b, c')) × IsHeld v dev sector b c'
unfolding read_if
read_if-IsHeld v dev sector b c lt s_lt g = elim (Bool-cases (c.buf b).valid) [
  | inl valid ↦ (
    c,
    ap (λ t. if not t then (ide_rw b >> pure b) c else ok (b, c)) valid,
    record {
      view = g.view;
      in_ring = g.in_ring;
      busy = g.busy;
      valid = valid;
      dev_is = g.dev_is;
      sector_is = g.sector_is;
      contents =
          g.view.cached b g.in_ring valid
          ∙ ap (λ d. v d (c.buf b).sector) g.dev_is
          ∙ ap (v dev) g.sector_is;
      synced = g.synced valid;
      disks = g.disks;
    },
  )
  | inr invalid ↦
      let x = loaded c.disk (c.buf b) in
      let c' : Cache = set_buf b x c in
      let dev_lt : (c.buf b).dev < 2 = omega (arith, g.dev_is) in
      let in_disk : (c.buf b).sector < 2 ^ 28 = omega (arith, g.sector_is) in
      let self : c'.buf b ≡ x = ground arith in
      (
        c',
        ap (λ t. if not t then (ide_rw b >> pure b) c else ok (b, c)) invalid
            ∙ bind_ok (ide_rw b) (λ _. pure b) c c' tt
                (ide_rw-read c b g.busy invalid (g.clean_if invalid) g.disks),
        record {
          view = load-IsView v c g.view b g.in_ring invalid dev_lt in_disk;
          in_ring = g.in_ring;
          busy = ap (λ y. y.busy) self ∙ g.busy;
          valid = ap (λ y. y.valid) self;
          dev_is = ap (λ y. y.dev) self ∙ g.dev_is;
          sector_is = ap (λ y. y.sector) self ∙ g.sector_is;
          contents =
              ap (λ y. y.contents) self
              ∙ sym (invalid_stored v c g.view b g.in_ring invalid dev_lt in_disk)
              ∙ ap (λ d. v d (c.buf b).sector) g.dev_is
              ∙ ap (v dev) g.sector_is;
          synced = inr (
              sym (ap (λ d. v d (c.buf b).sector) g.dev_is ∙ ap (v dev) g.sector_is)
              ∙ invalid_stored v c g.view b g.in_ring invalid dev_lt in_disk
              ∙ ap (λ d. on_disk c.disk d (c.buf b).sector) g.dev_is
              ∙ ap (on_disk c.disk dev) g.sector_is);
          disks = g.disks;
        },
      )
]

-- No client has a buffer of the sector, there is a buffer to recycle, and disk 1 is there.
pub record IsReady (dev sector : ℕ) (c : Cache) : Type 0 where
  pub idle : (b : ℕ) → IsIn b c.order → holds dev sector (c.buf b) ≡ true → (c.buf b).busy ≡ false
  pub spare : (b : ℕ) × IsIn b c.order × (is_spare (c.buf b) ≡ true)
  pub disks : c.havedisk1 ≡ true

bufcache_get-IsGot :
    (v : ℕ → ℕ → Block) (dev sector : ℕ) (c : Cache)
    → dev < 2
    → sector < 2 ^ 28
    → IsView v c
    → IsReady dev sector c
    → (b : ℕ) × (c' : Cache) × (bufcache_get dev sector c ≡ ok (b, c')) × IsGot v dev sector b c'
unfolding bufcache_get recycle
bufcache_get-IsGot v dev sector c lt s_lt h r =
    elim (Option-cases (find_next (λ b. holds dev sector (c.buf b)) c.order)) [
      | inl absent ↦ elim (Option-cases (find_prev (λ b. is_spare (c.buf b)) c.order)) [
        | inl full ↦
            let (a, i, spare) = r.spare in
            absurd
              (ground (arith, spare, find_prev-none (λ b. is_spare (c.buf b)) c.order a full i))
        | inr (b, found) ↦
            let (i, spare) = find_prev-some (λ b. is_spare (c.buf b)) c.order b found in
            let x = recycled dev sector (c.buf b) in
            let self : update c.buf b x b ≡ x = ground arith in
            (
              b,
              set_buf b x c,
              ap
                    (λ o. elim o [
                      | none ↦ recycle dev sector c
                      | some b ↦
                          if (c.buf b).busy
                          then hang
                          else ok (b, set_buf b (record (c.buf b) { busy = true }) c)
                    ])
                    absent
                  ∙ ap
                      (λ o. elim o [
                        | none ↦ panic
                        | some b ↦ ok (b, set_buf b (recycled dev sector (c.buf b)) c)
                      ])
                      found,
              record {
                view =
                    recycle-IsView v c h b i dev sector spare
                      (λ a j. find_next-none (λ b. holds dev sector (c.buf b)) c.order a absent j);
                in_ring = i;
                busy = ap (λ y. y.busy) self;
                dev_is = ap (λ y. y.dev) self;
                sector_is = ap (λ y. y.sector) self;
                clean_if = λ e. ap (λ y. y.dirty) self;
                synced = λ e. absurd (ground (arith, sym (ap (λ y. y.valid) self) ∙ e));
                disks = r.disks;
              },
            )
      ]
      | inr (b, found) ↦
          let (i, name) = find_next-some (λ b. holds dev sector (c.buf b)) c.order b found in
          let x = record (c.buf b) { busy = true } in
          let self : update c.buf b x b ≡ x = ground arith in
          let free = r.idle b i name in
          (
            b,
            set_buf b x c,
            ap
                  (λ o. elim o [
                    | none ↦ recycle dev sector c
                    | some b ↦
                        if (c.buf b).busy
                        then hang
                        else ok (b, set_buf b (record (c.buf b) { busy = true }) c)
                  ])
                  found
                ∙ ap (λ t. if t then hang else ok (b, set_buf b x c)) free,
            record {
              view = take-IsView v c h b i;
              in_ring = i;
              busy = ap (λ y. y.busy) self;
              dev_is = ap (λ y. y.dev) self ∙ ground (arith, name);
              sector_is = ap (λ y. y.sector) self ∙ ground (arith, name);
              clean_if =
                  λ e. ap (λ y. y.dirty) self ∙ h.clean b i (sym (ap (λ y. y.valid) self) ∙ e);
              synced = λ e. elim (h.stored dev sector lt s_lt) [
                | inl e ↦ inr e
                | inr (a, j, n, valid, kept) ↦
                    let same = h.unique dev sector a b j i lt n name in
                    let k : is_spare (c.buf b) ≡ false =
                      sym (ap (λ a. is_spare (c.buf a)) same) ∙ kept in
                    inl (ap (λ y. y.dirty) self ∙ ground (arith, k, free))
              ];
              disks = r.disks;
            },
          )
    ]

-- Let a cache show its client the blocks `v`, and let no client have a buffer of the sector, some buffer
-- be neither busy nor dirty, and disk 1 be there. Then `bufcache_read` returns a busy buffer of the
-- sector that holds the block that `v` has there, whether it was cached or is read into a
-- recycled buffer, and the cache still shows `v`.
pub bufcache_read-IsHeld :
    (v : ℕ → ℕ → Block) (dev sector : ℕ) (c : Cache)
    → dev < 2
    → sector < 2 ^ 28
    → IsView v c
    → IsReady dev sector c
    → (b : ℕ) × (c' : Cache) × (bufcache_read dev sector c ≡ ok (b, c')) × IsHeld v dev sector b c'
unfolding bufcache_read
bufcache_read-IsHeld v dev sector c lt s_lt h r =
    let (b, c1, e, g) = bufcache_get-IsGot v dev sector c lt s_lt h r in
    let (c2, f, held) = read_if-IsHeld v dev sector b c1 lt s_lt g in
    (b, c2, bind_ok (bufcache_get dev sector) read_if c c1 b e ∙ f, held)
