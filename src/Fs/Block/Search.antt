-- ===== src/Fs/Block/Search.antt =====
-- The bits of a bitmap block, and the search of `block_alloc` for the first free one.
use mcertikos.Base.{
  ℕ, zero, suc, ◌+◌, ◌-◌, ◌*◌, ◌/◌, ◌%◌, ◌≤◌, ◌<◌, ◌≡◌, ◌≢◌, inl, inr, ap, sym, ◌∙◌, arith, true,
  ◌==◌, ltb, if◌then◌else◌, none, some, Option-cases, some-injective,
}
use mathlib.Core.Path.{subst}
use native.Mathlib.Decide.{ℕ_discrete, dec_lt}
use mcertikos.Fs.Disk.{Block}
use mcertikos.Fs.Log.{Log}
use mcertikos.Fs.Block.{bpb, bblock, Superblock, get_bit, set_bit, clear_bit, find_bit, find_block}
use mcertikos.Fs.Block.Bits.{bit_at, with_bit, without_bit, bit_at-with_bit, bit_at-without_bit}

pub get_bit-set_bit :
    (x : Block) (i j : ℕ) → get_bit (set_bit x i) j ≡ (if i == j then 1 else get_bit x j)
unfolding get_bit set_bit
get_bit-set_bit x i j = elim (ℕ_discrete (i / 32) (j / 32)) [
  | yes e ↦
      let w = x (i / 32) in
      let here : set_bit x i (j / 32) ≡ with_bit (i % 32) w = ground (arith, e) in
      ap (bit_at (j % 32)) here ∙ bit_at-with_bit (j % 32) (i % 32) w ∙ ground (arith, e)
  | no ne ↦ ground arith
]

pub get_bit-clear_bit :
    (x : Block) (i j : ℕ) → get_bit (clear_bit x i) j ≡ (if i == j then 0 else get_bit x j)
unfolding get_bit clear_bit
get_bit-clear_bit x i j = elim (ℕ_discrete (i / 32) (j / 32)) [
  | yes e ↦
      let w = x (i / 32) in
      let here : clear_bit x i (j / 32) ≡ without_bit (i % 32) w = ground (arith, e) in
      ap (bit_at (j % 32)) here ∙ bit_at-without_bit (j % 32) (i % 32) w ∙ ground (arith, e)
  | no ne ↦ ground arith
]

-- `find_bit` stops at the first free bit.
record IsFirstBit (x : Block) (b size to bi r : ℕ) : Type 0 where
  from : bi ≤ r
  within : r < to
  inside : b + r < size
  free : get_bit x r ≡ 0
  before : (j : ℕ) → bi ≤ j → j < r → get_bit x j ≢ 0

find_bit-some :
    (x : Block) (b size rounds bi r : ℕ)
    → find_bit x b size rounds bi ≡ some r
    → IsFirstBit x b size (bi + rounds) bi r
unfolding find_bit
find_bit-some x b size zero bi r e = absurd (ground arith)
find_bit-some x b size (suc rounds) bi r e =
    let h = find_bit-some x b size rounds (bi + 1) r in
    elim (dec_lt (b + bi) size) [
      | no out ↦ absurd (ground (arith, e))
      | yes in_range ↦ elim (ℕ_discrete (get_bit x bi) 0) [
        | yes z ↦
            let here : bi ≡ r = ground (arith, e, z, in_range) in
            record {
              from = omega arith;
              within = omega arith;
              inside = omega arith;
              free = ap (get_bit x) (sym here) ∙ z;
              before = λ j lo hi. absurd (omega arith);
            }
        | no nz ↦
            let later : find_bit x b size rounds (bi + 1) ≡ some r =
              ground (arith, e, nz, in_range) in
            let f = h later in
            record {
              from = omega (arith, f.from);
              within = omega (arith, f.within);
              inside = f.inside;
              free = f.free;
              before = λ j lo hi. elim (ℕ_discrete j bi) [
                | yes same ↦ λ z. nz (sym (ap (get_bit x) same) ∙ z)
                | no ne ↦ f.before j (omega arith) hi
              ];
            }
      ]
    ]

find_bit-none :
    (x : Block) (b size rounds bi : ℕ)
    → find_bit x b size rounds bi ≡ none
    → (j : ℕ) → bi ≤ j
    → j < bi + rounds
    → b + j < size
    → get_bit x j ≢ 0
unfolding find_bit
find_bit-none x b size zero bi e j lo hi lt = absurd (omega arith)
find_bit-none x b size (suc rounds) bi e j lo hi lt =
    let in_range : ltb (b + bi) size ≡ true = ground arith in
    let nz : get_bit x bi ≢ 0 = λ z. absurd (ground (arith, e, z, in_range)) in
    elim (ℕ_discrete j bi) [
      | yes same ↦ λ z. nz (sym (ap (get_bit x) same) ∙ z)
      | no ne ↦
          find_bit-none x b size rounds (bi + 1) (ground (arith, e, nz, in_range)) j (omega arith)
            (omega arith) lt
    ]

-- The bit of a block in the bitmap.
unfoldable pub used : Superblock → Log → ℕ → ℕ
used sb l b = get_bit (l.buffers (bblock b sb.ninodes)) (b % bpb)

-- The block `b + bi` is free, and all blocks before it, from `from` on, are used.
pub record IsFirstFree (sb : Superblock) (l : Log) (from b bi : ℕ) : Type 0 where
  pub aligned : b % bpb ≡ 0
  pub bit : bi < bpb
  pub inside : b + bi < sb.blocks
  pub free : get_bit (l.buffers (bblock b sb.ninodes)) bi ≡ 0
  pub before : (j : ℕ) → from ≤ j → j < b + bi → used sb l j ≢ 0

-- A bit of the bitmap block at `b`.
used_at :
    (sb : Superblock) (l : Log) (b j : ℕ)
    → b % bpb ≡ 0
    → b ≤ j
    → j < b + bpb
    → used sb l j ≡ get_bit (l.buffers (bblock b sb.ninodes)) (j - b)
unfolding used
used_at sb l b j aligned lo hi =
    let e : bblock j sb.ninodes ≡ bblock b sb.ninodes = omega arith in
    let f : j % bpb ≡ j - b = omega arith in
    ap (λ a. get_bit (l.buffers a) (j % bpb)) e ∙ ap (get_bit (l.buffers (bblock b sb.ninodes))) f

pub find_block-some :
    (sb : Superblock) (l : Log) (rounds from b bi : ℕ)
    → from % bpb ≡ 0
    → find_block l sb rounds from ≡ some (b, bi)
    → IsFirstFree sb l from b bi
unfolding find_block
find_block-some sb l zero from b bi aligned e = absurd (ground arith)
find_block-some sb l (suc rounds) from b bi aligned e =
    let x = l.buffers (bblock from sb.ninodes) in
    elim (Option-cases (find_bit x from sb.blocks bpb 0)) [
      | inl full ↦
          let later : find_block l sb rounds (from + bpb) ≡ some (b, bi) =
            sym (
              ap
                (λ o. elim o [
                  | some bi ↦ some (from, bi)
                  | none ↦ find_block l sb rounds (from + bpb)
                ])
                full)
            ∙ e in
          let f = find_block-some sb l rounds (from + bpb) b bi (omega arith) later in
          record {
            aligned = f.aligned;
            bit = f.bit;
            inside = f.inside;
            free = f.free;
            before = λ j lo hi. elim (dec_lt j (from + bpb)) [
              | yes here ↦ λ z.
                  find_bit-none x from sb.blocks bpb 0 full (j - from) (omega arith) (omega arith)
                    (omega (arith, f.inside)) (sym (used_at sb l from j aligned lo here) ∙ z)
              | no there ↦ f.before j (omega arith) hi
            ];
          }
      | inr (r, found) ↦
          let f = find_bit-some x from sb.blocks bpb 0 r found in
          let here : IsFirstFree sb l from from r = record {
            aligned = aligned;
            bit = omega (arith, f.within);
            inside = f.inside;
            free = f.free;
            before = λ j lo hi z.
                f.before (j - from) (omega arith) (omega arith)
                  (sym (used_at sb l from j aligned lo (omega (arith, f.within))) ∙ z);
          } in
          let same : (from, r) ≡ (b, bi) = some-injective (
            sym (
              ap
                (λ o. elim o [
                  | some bi ↦ some (from, bi)
                  | none ↦ find_block l sb rounds (from + bpb)
                ])
                found)
            ∙ e) in
          subst (λ p. IsFirstFree sb l from p.0 p.1) same here
    ]

pub find_block-none :
    (sb : Superblock) (l : Log) (rounds from : ℕ)
    → from % bpb ≡ 0
    → find_block l sb rounds from ≡ none
    → (j : ℕ) → from ≤ j
    → j < from + bpb * rounds
    → j < sb.blocks
    → used sb l j ≢ 0
unfolding find_block
find_block-none sb l zero from aligned e j lo hi lt = absurd (omega arith)
find_block-none sb l (suc rounds) from aligned e j lo hi lt =
    let x = l.buffers (bblock from sb.ninodes) in
    elim (Option-cases (find_bit x from sb.blocks bpb 0)) [
      | inl full ↦
          let later : find_block l sb rounds (from + bpb) ≡ none =
            sym (
              ap
                (λ o. elim o [
                  | some bi ↦ some (from, bi)
                  | none ↦ find_block l sb rounds (from + bpb)
                ])
                full)
            ∙ e in
          elim (dec_lt j (from + bpb)) [
            | yes here ↦ λ z.
                find_bit-none x from sb.blocks bpb 0 full (j - from) (omega arith) (omega arith)
                  (omega arith) (sym (used_at sb l from j aligned lo here) ∙ z)
            | no there ↦
                find_block-none sb l rounds (from + bpb) (omega arith) later j (omega arith)
                  (omega arith) lt
          ]
      | inr (r, found) ↦
          let clash : some (from, r) ≡ none =
            sym (
              ap
                (λ o. elim o [
                  | some bi ↦ some (from, bi)
                  | none ↦ find_block l sb rounds (from + bpb)
                ])
                found)
            ∙ e in
          absurd (ground (arith, clash))
    ]
