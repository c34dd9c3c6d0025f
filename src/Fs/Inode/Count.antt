-- ===== src/Fs/Inode/Count.antt =====
-- The inode cache as a count of the references to each inode.
use mcertikos.Base.{
  ℕ, zero, suc, ◌+◌, ◌≤◌, ◌<◌, ◌≡◌, ◌≢◌, inl, inr, refl, ap, sym, ◌∙◌, arith, Bool, true, false,
  ◌&&◌, ◌==◌, ltb, if◌then◌else◌, update, Option, none, some, Bool-cases, some-injective,
}
use mathlib.Core.Path.{subst}
use native.Mathlib.Decide.{ℕ_discrete}
use mcertikos.Fs.Inode.{ninode, Inode, find_inode}

-- An entry in use for the inode.
abbrev pub names : ℕ → ℕ → Inode → Bool
names dev inum x = ltb 0 x.ref && x.dev == dev && x.inum == inum

-- The cache `inode` has `count dev inum` references to each inode, all in one entry.
pub record Counts (inode : ℕ → Inode) (count : ℕ → ℕ → ℕ) : Type 0 where
  pub entry :
      (ip : ℕ)
      → ip < ninode
      → 0 < (inode ip).ref
      → count (inode ip).dev (inode ip).inum ≡ (inode ip).ref
  pub found :
      (dev inum : ℕ)
      → 0 < count dev inum
      → (ip : ℕ) × (ip < ninode) × (names dev inum (inode ip) ≡ true)
  pub unique :
      (dev inum a b : ℕ)
      → a < ninode
      → b < ninode
      → names dev inum (inode a) ≡ true
      → names dev inum (inode b) ≡ true
      → a ≡ b

-- What the loop of `inode_get` finds from the entry `ip` on.
pub record IsFound (inode : ℕ → Inode) (dev inum ip to : ℕ) (e : Option ℕ) (r : Option ℕ × Option ℕ)
    : Type 0 where
  pub cached : (a : ℕ) → r.0 ≡ some a → (a < to) × (names dev inum (inode a) ≡ true)
  pub absent : r.0 ≡ none → (a : ℕ) → ip ≤ a → a < to → names dev inum (inode a) ≡ false
  pub empty : (a : ℕ) → r.1 ≡ some a → (a < to) × ((inode a).ref ≡ 0)
  pub none_before : r.0 ≡ none → r.1 ≡ none → e ≡ none
  pub full : r.0 ≡ none → r.1 ≡ none → (a : ℕ) → ip ≤ a → a < to → (inode a).ref ≢ 0

module _ (inode : ℕ → Inode) (dev inum : ℕ) where
  -- The empty entry that the loop remembers behind the entry `ip`.
  remember : Option ℕ → ℕ → Option ℕ
  remember e ip = elim e [ some e ↦ some e | none ↦ if (inode ip).ref == 0 then some ip else none ]

  remember-some :
      (e : Option ℕ) (ip a : ℕ)
      → ((a : ℕ) → e ≡ some a → (a < ip) × ((inode a).ref ≡ 0))
      → remember e ip ≡ some a
      → (a < ip + 1) × ((inode a).ref ≡ 0)
  unfolding remember
  remember-some (some e) ip a h q = let (lt, z) = h a q in (omega arith, z)
  remember-some none ip a h q = elim (ℕ_discrete (inode ip).ref 0) [
    | yes z ↦
        let e : ip ≡ a = ground (arith, q, z) in (omega arith, ap (λ a. (inode a).ref) (sym e) ∙ z)
    | no nz ↦ absurd (ground (arith, q, nz))
  ]

  remember-none : (e : Option ℕ) (ip : ℕ) → remember e ip ≡ none → (e ≡ none) × ((inode ip).ref ≢ 0)
  unfolding remember
  remember-none (some e) ip q = absurd (ground arith)
  remember-none none ip q = (refl, λ z. ground (arith, q, z))

  pub find_inode-IsFound :
      (rounds ip : ℕ) (e : Option ℕ)
      → ((a : ℕ) → e ≡ some a → (a < ip) × ((inode a).ref ≡ 0))
      → IsFound inode dev inum ip (ip + rounds) e (find_inode inode dev inum rounds ip e)
  unfolding find_inode remember
  find_inode-IsFound zero ip e h = record {
    cached = λ a q. ground arith;
    absent = λ q a lo hi. absurd (omega arith);
    empty = λ a q. ground (arith, h a q);
    none_before = λ q q'. q';
    full = λ q q' a lo hi. absurd (omega arith);
  }
  find_inode-IsFound (suc rounds) ip e h =
      let next = remember e ip in
      let f = find_inode-IsFound rounds (ip + 1) next (λ a q. remember-some e ip a h q) in
      let rest = find_inode inode dev inum rounds (ip + 1) next in
      elim (Bool-cases (names dev inum (inode ip))) [
        | inl hit ↦
            subst
              (λ t.
                IsFound inode dev inum ip (ip + suc rounds) e (if t then (some ip, e) else rest))
              (sym hit)
              (record {
                cached = λ a q.
                    let same : ip ≡ a = some-injective q in
                    (omega arith, ap (λ a. names dev inum (inode a)) (sym same) ∙ hit);
                absent = λ q. absurd (ground (arith, q));
                empty = λ a q. let (lt, z) = h a q in (omega arith, z);
                none_before = λ q. absurd (ground (arith, q));
                full = λ q. absurd (ground (arith, q));
              })
        | inr miss ↦
            subst
              (λ t.
                IsFound inode dev inum ip (ip + suc rounds) e (if t then (some ip, e) else rest))
              (sym miss)
              (record {
                cached = λ a q. let (lt, z) = f.cached a q in (omega arith, z);
                absent = λ q a lo hi. elim (ℕ_discrete a ip) [
                  | yes same ↦ ap (λ a. names dev inum (inode a)) same ∙ miss
                  | no ne ↦ f.absent q a (omega arith) (omega arith)
                ];
                empty = λ a q. let (lt, z) = f.empty a q in (omega arith, z);
                none_before = λ q q'. (remember-none e ip (f.none_before q q')).0;
                full = λ q q' a lo hi. elim (ℕ_discrete a ip) [
                  | yes same ↦ λ z.
                      (remember-none e ip (f.none_before q q')).1
                        (sym (ap (λ a. (inode a).ref) same) ∙ z)
                  | no ne ↦ f.full q q' a (omega arith) (omega arith)
                ];
              })
      ]

-- The count with one inode's references set to `n`.
abbrev pub recount : (ℕ → ℕ → ℕ) → (dev inum n : ℕ) → ℕ → ℕ → ℕ
recount count dev inum n d i = if d == dev && i == inum then n else count d i

-- An entry is replaced by one of the inode `dev`, `inum`, which no other entry has. Before, the entry was
-- of the same inode, or not in use.
module _ (inode : ℕ → Inode) (count : ℕ → ℕ → ℕ) (c : Counts inode count) (ip : ℕ) (x : Inode)
    (ip_lt : ip < ninode)
    (others : (a : ℕ) → a < ninode → a ≢ ip → names x.dev x.inum (inode a) ≡ false)
    (before : (d i : ℕ) → names d i (inode ip) ≡ true → (d ≡ x.dev) × (i ≡ x.inum)) where
  at_other : (a : ℕ) → a ≢ ip → update inode ip x a ≡ inode a
  at_other a ne = ground arith

  at_self : (a : ℕ) → a ≡ ip → update inode ip x a ≡ x
  at_self a e = ground arith

  elsewhere :
      (a : ℕ)
      → a < ninode
      → a ≢ ip
      → 0 < (inode a).ref
      → recount count x.dev x.inum x.ref (inode a).dev (inode a).inum
        ≡ count (inode a).dev (inode a).inum
  elsewhere a lt ne on = let o = others a lt ne in ground (arith, o)

  pub Counts-replace : Counts (update inode ip x) (recount count x.dev x.inum x.ref)
  Counts-replace = record {
    entry = λ a lt on. elim (ℕ_discrete a ip) [
      | yes e ↦
          let y = at_self a e in
          ap (λ y. recount count x.dev x.inum x.ref y.dev y.inum) y
          ∙ ground arith
          ∙ sym (ap (λ y. y.ref) y)
      | no ne ↦
          let y = at_other a ne in
          let on' : 0 < (inode a).ref = omega (arith, ap (λ y. y.ref) y) in
          ap (λ y. recount count x.dev x.inum x.ref y.dev y.inum) y
          ∙ elsewhere a lt ne on'
          ∙ c.entry a lt on'
          ∙ sym (ap (λ y. y.ref) y)
    ];
    found = λ d i on. elim (Bool-cases (d == x.dev && i == x.inum)) [
      | inl here ↦
          let on' : 0 < x.ref = ground (arith, here, on) in
          (ip, ip_lt, ap (names d i) (at_self ip refl) ∙ ground (arith, here, on'))
      | inr there ↦
          let on' : 0 < count d i = ground (arith, there, on) in
          let (a, lt, name) = c.found d i on' in
          let ne : a ≢ ip = λ e.
            let z = before d i (sym (ap (λ a. names d i (inode a)) e) ∙ name) in
            absurd (ground (arith, there, z)) in
          (a, lt, ap (names d i) (at_other a ne) ∙ name)
    ];
    unique = λ d i a b a_lt b_lt p q. elim (ℕ_discrete a ip) [
      | yes e ↦ elim (ℕ_discrete b ip) [
        | yes f ↦ e ∙ sym f
        | no f ↦ absurd (
            clash d i b b_lt f (sym (ap (names d i) (at_self a e)) ∙ p)
              (sym (ap (names d i) (at_other b f)) ∙ q))
      ]
      | no e ↦ elim (ℕ_discrete b ip) [
        | yes f ↦ absurd (
            clash d i a a_lt e (sym (ap (names d i) (at_self b f)) ∙ q)
              (sym (ap (names d i) (at_other a e)) ∙ p))
        | no f ↦
            c.unique d i a b a_lt b_lt (sym (ap (names d i) (at_other a e)) ∙ p)
              (sym (ap (names d i) (at_other b f)) ∙ q)
      ]
    ];
  }
    where
      clash :
          (d i a : ℕ) → a < ninode → a ≢ ip → names d i x ≡ true → ¬ (names d i (inode a) ≡ true)
      clash d i a lt ne p q = let o = others a lt ne in ground (arith, o, p, q)
