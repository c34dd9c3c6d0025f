-- ===== src/Fs/Inode/ReadWrite/Packing.antt =====
-- A block as its bytes and as its words.
use mcertikos.Base.{
  ℕ, suc, ◌+◌, ◌*◌, ◌/◌, ◌%◌, ◌^◌, ◌<◌, ◌≡◌, ◌∙◌, arith, zero, ◌==◌, if◌then◌else◌,
}
use mcertikos.Strings.{Bytes, byte_of}
use mcertikos.Fs.Disk.{Block}
use mcertikos.Fs.Inode.ReadWrite.{byte_at, of_bytes}

pub digit :
    (b0 b1 b2 b3 r : ℕ)
    → b0 < 256
    → b1 < 256
    → b2 < 256
    → b3 < 256
    → r < 4
    → byte_of (b0 + 2 ^ 8 * b1 + 2 ^ 16 * b2 + 2 ^ 24 * b3) r
      ≡ (if r == 0 then b0 else if r == 1 then b1 else if r == 2 then b2 else b3)
digit b0 b1 b2 b3 zero h0 h1 h2 h3 lt = omega arith
digit b0 b1 b2 b3 (suc zero) h0 h1 h2 h3 lt = omega arith
digit b0 b1 b2 b3 (suc (suc zero)) h0 h1 h2 h3 lt = omega arith
digit b0 b1 b2 b3 (suc (suc (suc zero))) h0 h1 h2 h3 lt = omega arith
digit b0 b1 b2 b3 (suc (suc (suc (suc r)))) h0 h1 h2 h3 lt = absurd (omega arith)

-- Byte `i` of the block that is made of bytes is byte `i`.
pub byte_at-of_bytes : (b : Bytes) (i : ℕ) → ((j : ℕ) → b j < 256) → byte_at (of_bytes b) i ≡ b i
unfolding byte_at of_bytes
byte_at-of_bytes b i h =
    let q = 4 * (i / 4) in
    digit (b q) (b (q + 1)) (b (q + 2)) (b (q + 3)) (i % 4) (h q) (h (q + 1)) (h (q + 2))
      (h (q + 3)) (omega arith)
    ∙ choose
  where
    choose :
        (if i % 4 == 0
          then b (4 * (i / 4))
          else if i % 4 == 1
          then b (4 * (i / 4) + 1)
          else if i % 4 == 2
          then b (4 * (i / 4) + 2)
          else b (4 * (i / 4) + 3))
        ≡ b i
    choose = ground arith

pub byte_at-lt : (x : Block) (i : ℕ) → byte_at x i < 256
unfolding byte_at
byte_at-lt x i = omega arith
