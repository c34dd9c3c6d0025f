-- ===== src/Fs/Block/Bitmap.antt =====
-- `block_alloc` and `block_free` on the bitmap of the used blocks.
use mcertikos.Base.{
  ℕ, ◌+◌, ◌-◌, ◌/◌, ◌%◌, ◌≤◌, ◌<◌, ◌≡◌, ◌≢◌, ◌⊎◌, inl, inr, ap, sym, ◌∙◌, arith, Bool, true, false,
  not, ◌==◌, if◌then◌else◌, none, some, Outcome, ok, panic, ◌>>◌, pure, bind_ok, Option-cases,
}
use native.Mathlib.Decide.{ℕ_discrete, dec_lt}
use mcertikos.Fs.Log.{Log, has_buffer}
use mcertikos.Fs.Block.{
  bpb, bblock, Superblock, read_superblock, log_block, block_zero, get_bit, set_bit, clear_bit,
  find_block, take_block, block_alloc, block_free,
}
use mcertikos.Fs.Block.Room.{HasRoom, IsLogged, log_block-IsLogged}
use mcertikos.Fs.Block.Search.{
  get_bit-set_bit, get_bit-clear_bit, used, IsFirstFree, find_block-some, find_block-none,
}

abbrev super : Log → Superblock
super l = read_superblock l

-- The bitmap lies in front of the log, and marks the super block, itself and the log as used.
pub record HasBitmap (l : Log) : Type 0 where
  pub in_front : (b : ℕ) → b < (super l).blocks → bblock b (super l).ninodes < l.start
  pub super_used : used (super l) l 1 ≢ 0
  pub bitmap_used :
      (b : ℕ) → b < (super l).blocks → used (super l) l (bblock b (super l).ninodes) ≢ 0
  pub log_used : (b : ℕ) → l.start ≤ b → b < (super l).blocks → used (super l) l b ≢ 0

-- The block `r` is marked and zero, and no other block of the file system is marked or changed, except
-- for the block of the bitmap with its mark.
pub record IsAllocated (l : Log) (r : ℕ) (l' : Log) : Type 0 where
  pub inside : r < (super l).blocks
  pub free : used (super l) l r ≡ 0
  pub first : (j : ℕ) → j < r → used (super l) l j ≢ 0
  pub marked :
      (j : ℕ)
      → j < (super l).blocks
      → used (super l) l' j ≡ (if r == j then 1 else used (super l) l j)
  pub zeroed : (i : ℕ) → l'.buffers r i ≡ 0
  pub others :
      (a : ℕ) → a < l.start → a ≢ r → a ≢ bblock r (super l).ninodes → l'.buffers a ≡ l.buffers a

module _ (l : Log) (h : HasBitmap l) (room : HasRoom 2 l) (b bi : ℕ)
    (f : IsFirstFree (super l) l 0 b bi) where
  block : ℕ
  block = b + bi

  same_block : bblock block (super l).ninodes ≡ bblock b (super l).ninodes
  unfolding block
  same_block = omega (arith, f.aligned, f.bit)

  block-free : used (super l) l block ≡ 0
  unfolding used block
  block-free =
      let e : block % bpb ≡ bi = omega (arith, f.aligned, f.bit) in
      ap (λ a. get_bit (l.buffers a) (block % bpb)) same_block
      ∙ ap (get_bit (l.buffers (bblock b (super l).ninodes))) e
      ∙ f.free

  -- The logs behind the mark and behind the zeros.
  module _ (l1 l2 : Log)
      (s1 : IsLogged
        (bblock b (super l).ninodes)
        (set_bit (l.buffers (bblock b (super l).ninodes)) bi)
        l
        l1)
      (s2 : IsLogged block (λ _. 0) l1 l2) where
    both :
        (a : ℕ)
        → a ≤ l.start
        → l2.buffers a ≡ (
            if block == a
            then (λ _. 0)
            else if bblock b (super l).ninodes == a
            then set_bit (l.buffers (bblock b (super l).ninodes)) bi
            else l.buffers a)
    both a le =
        s2.buffers a (omega (arith, s1.start))
        ∙ ap (λ x. if block == a then (λ _. 0) else x) (s1.buffers a le)

    block_lt : block < l.start
    unfolding block
    block_lt = elim (dec_lt block l.start) [
      | yes lt ↦ lt
      | no ge ↦ absurd (h.log_used block (omega arith) f.inside block-free)
    ]

    -- The new block is no block of the bitmap.
    apart : (j : ℕ) → j < (super l).blocks → block ≢ bblock j (super l).ninodes
    apart j lt e = h.bitmap_used j lt (sym (ap (used (super l) l) e) ∙ block-free)

    taken-marked :
        (j : ℕ)
        → j < (super l).blocks
        → used (super l) l2 j ≡ (if block == j then 1 else used (super l) l j)
    unfolding used block
    taken-marked j lt =
        let a = bblock j (super l).ninodes in
        let bno = bblock b (super l).ninodes in
        let ne = apart j lt in
        let now = both a (omega (arith, h.in_front j lt)) in
        elim (ℕ_discrete bno a) [
          | yes e ↦
              let x : l2.buffers a ≡ set_bit (l.buffers bno) bi = now ∙ ground (arith, ne, e) in
              ap (λ x. get_bit x (j % bpb)) x
              ∙ get_bit-set_bit (l.buffers bno) bi (j % bpb)
              ∙ ap (λ y. if bi == j % bpb then 1 else get_bit (l.buffers y) (j % bpb)) e
              ∙ ground (arith, f.aligned, f.bit)
          | no far ↦
              let x : l2.buffers a ≡ l.buffers a = now ∙ ground (arith, ne, far) in
              ap (λ x. get_bit x (j % bpb)) x ∙ ground (arith, far, f.aligned, f.bit)
        ]

    taken-IsAllocated : IsAllocated l block l2
    unfolding block
    taken-IsAllocated =
        let zero_block : l2.buffers block ≡ (λ _. 0) =
          both block (omega (arith, block_lt)) ∙ ground arith in
        record {
          inside = f.inside;
          free = block-free;
          first = λ j lt. f.before j (omega arith) lt;
          marked = taken-marked;
          zeroed = λ i. ap (λ x. x i) zero_block;
          others = λ a lt ne ne'. both a (omega arith) ∙ ground (arith, ne, ne', same_block);
        }

  taken :
      (l' : Log) × (take_block (super l).ninodes b bi l ≡ ok (block, l')) × IsAllocated l block l'
  unfolding take_block block_zero block
  taken =
      let bno = bblock b (super l).ninodes in
      let x = set_bit (l.buffers bno) bi in
      let (l1, e1, s1) = log_block-IsLogged bno x l (record {
        busy = room.busy;
        small = omega (arith, room.small);
        fits = omega (arith, room.fits);
      }) in
      let (l2, e2, s2) = log_block-IsLogged (b + bi) (λ _. 0) l1 (s1.room 1 room) in
      (
        l2,
        bind_ok (log_block bno x) (λ _. block_zero (b + bi) >> pure (b + bi)) l l1 tt e1
            ∙ bind_ok (log_block (b + bi) (λ _. 0)) (λ _. pure (b + bi)) l1 l2 tt e2,
        taken-IsAllocated l1 l2 s1 s2,
      )

-- In a transaction with room for two blocks, on a disk whose bitmap marks the super block, itself and
-- the log, `block_alloc` panics if all blocks are used. Otherwise it returns the first free block,
-- which is then marked in the bitmap and zero, and no other block of the file system is marked or changed.
pub block_alloc_total :
    (l : Log)
    → HasBitmap l
    → HasRoom 2 l
    → (((j : ℕ) → j < (super l).blocks → used (super l) l j ≢ 0) × (block_alloc l ≡ panic))
      ⊎ ((r : ℕ) × (l' : Log) × (block_alloc l ≡ ok (r, l')) × IsAllocated l r l')
unfolding block_alloc
block_alloc_total l h room =
    let sb = super l in
    let rounds = (sb.blocks + bpb - 1) / bpb in
    let ready : has_buffer l ≡ true = ground (arith, room.small) in
    let start : Bool → Outcome (ℕ × Log) = λ t.
      if t
      then elim (find_block l sb rounds 0) [
        | none ↦ panic
        | some (b, bi) ↦ take_block sb.ninodes b bi l
      ]
      else panic in
    elim (Option-cases (find_block l sb rounds 0)) [
      | inl full ↦ inl (
        λ j lt. find_block-none sb l rounds 0 (omega arith) full j (omega arith) (omega arith) lt,
        ap start ready
            ∙ ap (λ o. elim o [ none ↦ panic | some (b, bi) ↦ take_block sb.ninodes b bi l ]) full,
      )
      | inr ((b, bi), found) ↦
          let f = find_block-some sb l rounds 0 b bi (omega arith) found in
          let (l', e, a) = taken l h room b bi f in
          inr (
            block l h room b bi f,
            l',
            ap start ready
                ∙ ap (λ o. elim o [ none ↦ panic | some (b, bi) ↦ take_block sb.ninodes b bi l ])
                    found
                ∙ e,
            a,
          )
    ]

-- In a transaction with room for one block, `block_free` of a block of the file system panics if the
-- block is free. Otherwise it returns, the block is free, and no other block is freed or marked.
pub block_free_total :
    (b : ℕ) (l : Log)
    → b < (super l).blocks
    → HasBitmap l
    → HasRoom 1 l
    → ((used (super l) l b ≡ 0) × (block_free b l ≡ panic))
      ⊎ ((used (super l) l b ≢ 0)
          × (l' : Log) × (block_free b l ≡ ok (tt, l'))
          × ((j : ℕ)
              → j < (super l).blocks
              → used (super l) l' j ≡ (if b == j then 0 else used (super l) l j)))
unfolding block_free used
block_free_total b l lt h room =
    let sb = super l in
    let bno = bblock b sb.ninodes in
    let x = clear_bit (l.buffers bno) (b % bpb) in
    let ready : has_buffer l ≡ true = ground (arith, room.small) in
    let start : Bool → Outcome (Unit {0} × Log) = λ t.
      if not t
      then panic
      else if get_bit (l.buffers bno) (b % bpb) == 0
      then panic
      else log_block bno x l in
    elim (ℕ_discrete (used sb l b) 0) [
      | yes z ↦ inl (z, ap start ready ∙ ap (λ v. if v == 0 then panic else log_block bno x l) z)
      | no nz ↦
          let (l', e, s) = log_block-IsLogged bno x l room in
          let test : (get_bit (l.buffers bno) (b % bpb) == 0) ≡ false = ground arith in
          inr (
            nz,
            l',
            ap start ready ∙ ap (λ t. if t then panic else log_block bno x l) test ∙ e,
            λ j j_lt.
                let a = bblock j sb.ninodes in
                let now = s.buffers a (omega (arith, h.in_front j j_lt)) in
                let hit : bno ≡ a → l'.buffers a ≡ x = λ same. now ∙ ground (arith, same) in
                let miss : bno ≢ a → l'.buffers a ≡ l.buffers a =
                  λ far. now ∙ ground (arith, far) in
                elim (ℕ_discrete bno a) [
                  | yes same ↦
                      ap (λ x. get_bit x (j % bpb)) (hit same)
                      ∙ get_bit-clear_bit (l.buffers bno) (b % bpb) (j % bpb)
                      ∙ ap (λ y. if b % bpb == j % bpb then 0 else get_bit (l.buffers y) (j % bpb))
                          same
                      ∙ ground arith
                  | no far ↦ ap (λ x. get_bit x (j % bpb)) (miss far) ∙ ground (arith, far)
                ],
          )
    ]
