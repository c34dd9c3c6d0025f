-- ===== src/UserMemory/Store.antt =====
-- The bytes of a memory of words after a store of bytes.
use mcertikos.Base.{
  ℕ, ◌+◌, ◌-◌, ◌*◌, ◌/◌, ◌%◌, ◌^◌, ◌<◌, ◌≡◌, inl, inr, sym, ap, ◌∙◌, arith, Bool, true, false, ◌&&◌,
  ◌==◌, ltb, leb, if◌then◌else◌, Bool-cases,
}
use native.Mathlib.Decide.{dec_lt}
use mcertikos.Strings.{Bytes, byte_of}
use mcertikos.Fs.Inode.ReadWrite.{byte_at, of_bytes}
use mcertikos.Fs.Inode.ReadWrite.Packing.{byte_at-of_bytes}
use mcertikos.UserMemory.{load_byte, store_bytes}

module _ (pa n : ℕ) (b : Bytes) (m : ℕ → ℕ) where
  -- The bytes behind the store.
  stored : ℕ → ℕ
  stored a = if leb pa a && ltb a (pa + n) then b (a - pa) % 256 else load_byte m a

  stored-lt : (a : ℕ) → stored a < 256
  unfolding stored
  stored-lt a = ground arith

  touched : ℕ → Bool
  touched w = w % 4 == 0 && (ltb w (pa + n) && ltb pa (w + 4))

  store_bytes-touched :
      (w : ℕ)
      → touched w ≡ true
      → store_bytes pa n b m w
        ≡ stored w + 2 ^ 8 * stored (w + 1) + 2 ^ 16 * stored (w + 2) + 2 ^ 24 * stored (w + 3)
  unfolding store_bytes stored touched
  store_bytes-touched w t =
      ap
        (λ t.
          if t
          then stored w + 2 ^ 8 * stored (w + 1) + 2 ^ 16 * stored (w + 2) + 2 ^ 24 * stored (w + 3)
          else m w)
        t

  store_bytes-untouched : (w : ℕ) → touched w ≡ false → store_bytes pa n b m w ≡ m w
  unfolding store_bytes stored touched
  store_bytes-untouched w t =
      ap
        (λ t.
          if t
          then stored w + 2 ^ 8 * stored (w + 1) + 2 ^ 16 * stored (w + 2) + 2 ^ 24 * stored (w + 3)
          else m w)
        t

  load_byte-touched :
      (a : ℕ) → touched (4 * (a / 4)) ≡ true → load_byte (store_bytes pa n b m) a ≡ stored a
  unfolding byte_at of_bytes
  load_byte-touched a t =
      ap (λ v. byte_of v (a % 4)) (store_bytes-touched (4 * (a / 4)) t)
      ∙ byte_at-of_bytes stored a stored-lt

  -- A byte that the store covers is the new one, and any other is as before.
  pub load_byte-store_bytes :
      (a : ℕ)
      → load_byte (store_bytes pa n b m) a
        ≡ (if leb pa a && ltb a (pa + n) then b (a - pa) % 256 else load_byte m a)
  unfolding touched stored
  load_byte-store_bytes a = elim (Bool-cases (touched (4 * (a / 4)))) [
    | inl t ↦ load_byte-touched a t
    | inr t ↦
        let out : (leb pa a && ltb a (pa + n)) ≡ false = ground (arith, t) in
        ap (λ v. byte_of v (a % 4)) (store_bytes-untouched (4 * (a / 4)) t)
        ∙ ap (λ t. if t then b (a - pa) % 256 else load_byte m a) (sym out)
  ]

  -- A word in which no stored byte lies is as before.
  pub store_bytes-other :
      (w : ℕ)
      → 0 < n
      → ((i : ℕ) → i < n → w % 4 ≡ 0 → 4 * ((pa + i) / 4) ≡ w → ⊥)
      → store_bytes pa n b m w ≡ m w
  unfolding touched
  store_bytes-other w positive other = elim (Bool-cases (touched w)) [
    | inr t ↦ store_bytes-untouched w t
    | inl t ↦
        let aligned : w % 4 ≡ 0 = ground (arith, t) in
        let before : w < pa + n = ground (arith, t) in
        let behind : pa < w + 4 = ground (arith, t) in
        absurd (elim (dec_lt pa w) [
          | no le ↦ other 0 (omega arith) aligned (omega arith)
          | yes lt ↦ other (w - pa) (omega arith) aligned (omega arith)
        ])
  ]
