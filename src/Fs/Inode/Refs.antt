-- ===== src/Fs/Inode/Refs.antt =====
-- The references that `inode_get` and `inode_dup` take, and that `inode_put` drops.
use mcertikos.Base.{
  ℕ, ◌+◌, ◌-◌, ◌<◌, ◌≡◌, ◌≢◌, ◌⊎◌, inl, inr, refl, ap, sym, ◌∙◌, arith, true, false, if◌then◌else◌,
  update, Option, none, some, ok, panic, modify, Bool-cases, Option-cases, some-injective,
  ok-injective, ◌>>◌,
}
use mathlib.Core.Path.{subst}
use native.Mathlib.Decide.{dec_lt}
use mcertikos.Fs.Inode.{
  ninode, Inode, Inodes, set_inode, find_inode, take_entry, inode_get, inode_dup, is_last,
  free_inode, inode_put,
}
use mcertikos.Fs.Inode.Count.{names, Counts, recount, find_inode-IsFound, Counts-replace}

-- An entry of a valid cache is replaced by one of the same inode.
module _ (inode : ℕ → Inode) (count : ℕ → ℕ → ℕ) (c : Counts inode count) (ip : ℕ)
    (ip_lt : ip < ninode) (on : 0 < (inode ip).ref) where
  self_names : names (inode ip).dev (inode ip).inum (inode ip) ≡ true
  self_names = ground arith

  alone : (a : ℕ) → a < ninode → a ≢ ip → names (inode ip).dev (inode ip).inum (inode a) ≡ false
  alone a lt ne = elim (Bool-cases (names (inode ip).dev (inode ip).inum (inode a))) [
    | inl e ↦ absurd (ne (c.unique (inode ip).dev (inode ip).inum a ip lt ip_lt e self_names))
    | inr e ↦ e
  ]

  Counts-again :
      (n : ℕ)
      → Counts
          (update inode ip (record (inode ip) { ref = n }))
          (recount count (inode ip).dev (inode ip).inum n)
  Counts-again n =
      Counts-replace inode count c ip (record (inode ip) { ref = n }) ip_lt alone
        (λ d i e. (ground (arith, e), ground (arith, e)))

-- The reference that a caller gets: the entry `ip` is of the inode, and only the count of this inode has
-- grown, by one.
pub record IsTaken (count : ℕ → ℕ → ℕ) (dev inum ip : ℕ) (s s' : Inodes) : Type 0 where
  pub inside : ip < ninode
  pub dev_is : (s'.inode ip).dev ≡ dev
  pub inum_is : (s'.inode ip).inum ≡ inum
  pub in_use : 0 < (s'.inode ip).ref
  pub counts : Counts s'.inode (recount count dev inum (count dev inum + 1))
  pub log_same : s'.log ≡ s.log
  pub kept : (a : ℕ) → a ≢ ip → s'.inode a ≡ s.inode a

raised-IsTaken :
    (s : Inodes) (count : ℕ → ℕ → ℕ) (dev inum ip : ℕ)
    → Counts s.inode count
    → ip < ninode
    → names dev inum (s.inode ip) ≡ true
    → IsTaken count dev inum ip s (set_inode ip (λ x. record x { ref = x.ref + 1 }) s)
raised-IsTaken s count dev inum ip c lt name =
    let x = s.inode ip in
    let on : 0 < x.ref = ground (arith, name) in
    let d : x.dev ≡ dev = ground (arith, name) in
    let i : x.inum ≡ inum = ground (arith, name) in
    let n : x.ref ≡ count dev inum =
      sym (c.entry ip lt on) ∙ ap (λ d. count d x.inum) d ∙ ap (count dev) i in
    let y = record x { ref = x.ref + 1 } in
    let self : update s.inode ip y ip ≡ y = ground arith in
    let again : Counts (update s.inode ip y) (recount count x.dev x.inum (x.ref + 1)) =
      Counts-again s.inode count c ip lt on (x.ref + 1) in
    record {
      inside = lt;
      dev_is = ap (λ y. y.dev) self ∙ d;
      inum_is = ap (λ y. y.inum) self ∙ i;
      in_use = omega (arith, ap (λ y. y.ref) self);
      counts =
          subst (λ f. Counts (update s.inode ip y) f)
            (ap (λ d. recount count d x.inum (x.ref + 1)) d
              ∙ ap (λ i. recount count dev i (x.ref + 1)) i
              ∙ ap (λ n. recount count dev inum (n + 1)) n)
            again;
      log_same = refl;
      kept = λ a ne. ground arith;
    }

take_entry-cached :
    (dev inum : ℕ) (r : Option ℕ × Option ℕ) (s : Inodes) (ip : ℕ)
    → r.0 ≡ some ip
    → take_entry dev inum r s ≡ ok (ip, set_inode ip (λ x. record x { ref = x.ref + 1 }) s)
unfolding take_entry
take_entry-cached dev inum (some a, e) s ip q =
    ap (λ a. ok (a, set_inode a (λ x. record x { ref = x.ref + 1 }) s)) (some-injective q)
take_entry-cached dev inum (none, e) s ip q = absurd (ground (arith, q))

abbrev renamed : (dev inum : ℕ) → Inode → Inode
renamed dev inum x = record x { dev = dev; inum = inum; ref = 1; busy = false; valid = false }

take_entry-empty :
    (dev inum : ℕ) (r : Option ℕ × Option ℕ) (s : Inodes) (ip : ℕ)
    → r.0 ≡ none
    → r.1 ≡ some ip
    → take_entry dev inum r s ≡ ok (ip, set_inode ip (renamed dev inum) s)
unfolding take_entry
take_entry-empty dev inum (none, some a) s ip q q' =
    ap (λ a. ok (a, set_inode a (renamed dev inum) s)) (some-injective q')
take_entry-empty dev inum (none, none) s ip q q' = absurd (ground (arith, q'))
take_entry-empty dev inum (some a, e) s ip q q' = absurd (ground (arith, q))

take_entry-full :
    (dev inum : ℕ) (r : Option ℕ × Option ℕ) (s : Inodes)
    → r.0 ≡ none
    → r.1 ≡ none
    → take_entry dev inum r s ≡ panic
unfolding take_entry
take_entry-full dev inum (none, none) s q q' = refl
take_entry-full dev inum (none, some a) s q q' = absurd (ground (arith, q'))
take_entry-full dev inum (some a, e) s q q' = absurd (ground (arith, q))

-- An entry that is not in use is given to an inode that has none.
renamed-IsTaken :
    (s : Inodes) (count : ℕ → ℕ → ℕ) (dev inum ip : ℕ)
    → Counts s.inode count
    → ip < ninode
    → (s.inode ip).ref ≡ 0
    → count dev inum ≡ 0
    → ((a : ℕ) → a < ninode → names dev inum (s.inode a) ≡ false)
    → IsTaken count dev inum ip s (set_inode ip (renamed dev inum) s)
renamed-IsTaken s count dev inum ip c lt z none_counted absent =
    let y = renamed dev inum (s.inode ip) in
    let self : update s.inode ip y ip ≡ y = ground arith in
    let replaced : Counts (update s.inode ip y) (recount count dev inum 1) =
      Counts-replace s.inode count c ip y lt (λ a a_lt ne. absent a a_lt)
        (λ d i e. absurd (ground (arith, e, z))) in
    let n : 1 ≡ count dev inum + 1 = omega arith in
    record {
      inside = lt;
      dev_is = ap (λ y. y.dev) self;
      inum_is = ap (λ y. y.inum) self;
      in_use = omega (arith, ap (λ y. y.ref) self);
      counts = subst (λ n. Counts (update s.inode ip y) (recount count dev inum n)) n replaced;
      log_same = refl;
      kept = λ a ne. ground arith;
    }

-- Let the cache count references. Then `inode_get` panics if the inode has none and all 50 entries are in use.
-- Otherwise it returns an entry of the inode, and the cache counts one more reference to it and
-- the same for every other inode.
pub inode_get_total :
    (dev inum : ℕ) (s : Inodes) (count : ℕ → ℕ → ℕ)
    → Counts s.inode count
    → ((count dev inum ≡ 0)
        × ((a : ℕ) → a < ninode → (s.inode a).ref ≢ 0)
        × (inode_get dev inum s ≡ panic))
      ⊎ ((ip : ℕ) × (s' : Inodes) × (inode_get dev inum s ≡ ok (ip, s'))
          × IsTaken count dev inum ip s s')
unfolding inode_get
inode_get_total dev inum s count c =
    let f = find_inode-IsFound s.inode dev inum ninode 0 none (λ a q. absurd (ground (arith, q))) in
    let r : Option ℕ × Option ℕ = find_inode s.inode dev inum ninode 0 none in
    elim (Option-cases r.0) [
      | inr (ip, hit) ↦
          let (lt, name) = f.cached ip hit in
          inr (
            ip,
            set_inode ip (λ x. record x { ref = x.ref + 1 }) s,
            take_entry-cached dev inum r s ip hit,
            raised-IsTaken s count dev inum ip c lt name,
          )
      | inl miss ↦
          let absent : (a : ℕ) → a < ninode → names dev inum (s.inode a) ≡ false =
            λ a lt. f.absent miss a (omega arith) lt in
          let none_counted : count dev inum ≡ 0 = elim (dec_lt 0 (count dev inum)) [
            | yes on ↦
                let (a, lt, name) = c.found dev inum on in
                let no = absent a lt in absurd (ground (arith, name, no))
            | no off ↦ omega arith
          ] in
          elim (Option-cases r.1) [
            | inl full ↦ inl (
              none_counted,
              λ a lt. f.full miss full a (omega arith) lt,
              take_entry-full dev inum r s miss full,
            )
            | inr (ip, free) ↦
                let (lt, z) = f.empty ip free in
                inr (
                  ip,
                  set_inode ip (renamed dev inum) s,
                  take_entry-empty dev inum r s ip miss free,
                  renamed-IsTaken s count dev inum ip c lt z none_counted absent,
                )
          ]
    ]

-- `inode_dup` of an entry in use returns it, with one more reference to its inode and the same for every
-- other.
pub inode_dup_total :
    (ip : ℕ) (s : Inodes) (count : ℕ → ℕ → ℕ)
    → Counts s.inode count
    → ip < ninode
    → 0 < (s.inode ip).ref
    → (s' : Inodes) × (inode_dup ip s ≡ ok (ip, s'))
      × IsTaken count (s.inode ip).dev (s.inode ip).inum ip s s'
unfolding inode_dup
inode_dup_total ip s count c lt on = (
  set_inode ip (λ x. record x { ref = x.ref + 1 }) s,
  refl,
  raised-IsTaken s count (s.inode ip).dev (s.inode ip).inum ip c lt
      (self_names s.inode count c ip lt on),
)

Counts-same :
    (inode : ℕ → Inode) (f g : ℕ → ℕ → ℕ)
    → ((d i : ℕ) → f d i ≡ g d i)
    → Counts inode f
    → Counts inode g
Counts-same inode f g e c = record {
  entry = λ ip lt on. sym (e (inode ip).dev (inode ip).inum) ∙ c.entry ip lt on;
  found = λ d i on. c.found d i (omega (arith, e d i));
  unique = c.unique;
}

-- Let the cache count references, and the entry be in use and not the last reference to an inode without
-- links. Then `inode_put` returns, the cache counts one reference less to its inode and the same for
-- every other, and nothing is written.
pub inode_put_total :
    (ip : ℕ) (s : Inodes) (count : ℕ → ℕ → ℕ)
    → Counts s.inode count
    → ip < ninode
    → 0 < (s.inode ip).ref
    → is_last (s.inode ip) ≡ false
    → (s' : Inodes) × (inode_put ip s ≡ ok (tt, s'))
      × Counts s'.inode (
          recount count
            (s.inode ip).dev
            (s.inode ip).inum
            (count (s.inode ip).dev (s.inode ip).inum - 1))
      × (s'.log ≡ s.log)
unfolding inode_put
inode_put_total ip s count c lt on kept =
    let x = s.inode ip in
    let drop = modify (set_inode ip (λ x. record x { ref = x.ref - 1 })) in
    let n : x.ref ≡ count x.dev x.inum = sym (c.entry ip lt on) in
    let again : Counts (update s.inode ip (record x { ref = x.ref - 1 }))
        (recount count x.dev x.inum (x.ref - 1)) =
      Counts-again s.inode count c ip lt on (x.ref - 1) in
    (
      set_inode ip (λ x. record x { ref = x.ref - 1 }) s,
      ap (λ t. if t then (free_inode ip >> drop) s else drop s) kept,
      subst
          (λ n.
            Counts (update s.inode ip (record x { ref = x.ref - 1 }))
              (recount count x.dev x.inum (n - 1)))
          n again,
      refl,
    )

-- An `inode_put` of the entry that `inode_get` returned, unless it is the last reference to an inode
-- without links, leaves as many references to each inode as there were.
pub inode_put-inode_get :
    (dev inum : ℕ) (s s1 : Inodes) (ip : ℕ) (count : ℕ → ℕ → ℕ)
    → Counts s.inode count
    → inode_get dev inum s ≡ ok (ip, s1)
    → is_last (s1.inode ip) ≡ false
    → (s2 : Inodes) × (inode_put ip s1 ≡ ok (tt, s2)) × Counts s2.inode count
inode_put-inode_get dev inum s s1 ip count c e kept = elim (inode_get_total dev inum s count c) [
  | inl (none_counted, full, panics) ↦ absurd (ground (arith, sym e ∙ panics))
  | inr (ip', s', f, t) ↦
      let same : (◌≡◌ {A = ℕ × Inodes} (ip', s') (ip, s1)) = ok-injective (sym f ∙ e) in
      let t1 : IsTaken count dev inum ip s s1 =
        subst (λ p. IsTaken count dev inum p.0 s p.1) same t in
      let more = recount count dev inum (count dev inum + 1) in
      let x = s1.inode ip in
      let (s2, g, counts, _) = inode_put_total ip s1 more t1.counts t1.inside t1.in_use kept in
      let d = t1.dev_is in
      let i = t1.inum_is in
      let back : (a b : ℕ) → recount more x.dev x.inum (more x.dev x.inum - 1) a b ≡ count a b =
        λ a b.
          ap (λ d. recount more d x.inum (more d x.inum - 1) a b) d
          ∙ ap (λ i. recount more dev i (more dev i - 1) a b) i
          ∙ ground arith in
      (
        s2,
        g,
        Counts-same s2.inode (recount more x.dev x.inum (more x.dev x.inum - 1)) count back counts,
      )
]
