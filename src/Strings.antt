-- ===== src/Strings.antt =====
-- kern/lib/string.c: blocks of memory and strings.
pub mod Blocks
pub mod Compare
pub mod Unbounded
use Prim.Native.Nat.{bit_and, bit_or}
use mcertikos.Base.{
  ℕ, zero, suc, ◌+◌, ◌-◌, ◌*◌, ◌/◌, ◌%◌, ◌^◌, Bool, not, ◌&&◌, ◌==◌, ltb, if◌then◌else◌, update,
  for_range, Outcome, ok, hang,
}

-- The bytes of the memory by address. A block is taken not to run over the end of the addresses.
abbrev pub Bytes : Type 0
Bytes = ℕ → ℕ

-- Byte `j` of a word in memory, and a store of a word.
abbrev pub byte_of : ℕ → ℕ → ℕ
byte_of w j = w / 256 ^ j % 256

abbrev pub store_word : ℕ → ℕ → Bytes → Bytes
store_word a w m =
    update (update (update (update m a (byte_of w 0)) (a + 1) (byte_of w 1)) (a + 2) (byte_of w 2))
      (a + 3) (byte_of w 3)

-- `rep stosb` and `rep stosl`
unfoldable pub stosb : ℕ → ℕ → ℕ → Bytes → Bytes
stosb v c n = for_range n 0 λ k m. update m (v + k) c

unfoldable pub stosl : ℕ → ℕ → ℕ → Bytes → Bytes
stosl v w n = for_range n 0 λ k m. store_word (v + 4 * k) w m

-- `c << k` of a word
abbrev pub shl : ℕ → ℕ → ℕ
shl c k = c * 2 ^ k % 2 ^ 32

abbrev pub spread : ℕ → ℕ
spread c = bit_or (bit_or (bit_or (shl c 24) (shl c 16)) (shl c 8)) c

-- `rep stosb` stores the low byte of `c`.
unfoldable pub memset : ℕ → ℕ → ℕ → Bytes → Bytes
unfolding stosb stosl
memset v c n m =
    if n == 0
    then m
    else if (v % 4 == 0) && (n % 4 == 0)
    then stosl v (spread (bit_and c 0xff)) (n / 4) m
    else stosb v (c % 256) n m

unfoldable pub memzero : ℕ → ℕ → Bytes → Bytes
unfolding memset
memzero v n = memset v 0 n

-- A move of one byte, and of four, which are read before they are stored.
abbrev pub move_byte : ℕ → ℕ → Bytes → Bytes
move_byte d s m = update m d (m s)

abbrev pub move_word : ℕ → ℕ → Bytes → Bytes
move_word d s m =
    update (update (update (update m d (m s)) (d + 1) (m (s + 1))) (d + 2) (m (s + 2))) (d + 3)
      (m (s + 3))

-- `rep movsb` and `rep movsl`, upwards from `d` and `s`, or downwards to them.
unfoldable pub movsb_up : ℕ → ℕ → ℕ → Bytes → Bytes
movsb_up d s n = for_range n 0 λ k. move_byte (d + k) (s + k)

unfoldable pub movsl_up : ℕ → ℕ → ℕ → Bytes → Bytes
movsl_up d s n = for_range n 0 λ k. move_word (d + 4 * k) (s + 4 * k)

unfoldable pub movsb_down : ℕ → ℕ → ℕ → Bytes → Bytes
movsb_down d s n = for_range n 0 λ k. move_byte (d + (n - 1 - k)) (s + (n - 1 - k))

unfoldable pub movsl_down : ℕ → ℕ → ℕ → Bytes → Bytes
movsl_down d s n = for_range n 0 λ k. move_word (d + 4 * (n - 1 - k)) (s + 4 * (n - 1 - k))

-- The instructions move words if the two pointers and the size are multiples of four. The pointers
-- are compared as 32-bit words.
unfoldable pub memmove : ℕ → ℕ → ℕ → Bytes → Bytes
unfolding movsb_up movsl_up movsb_down movsl_down
memmove dst src n m =
    if ltb src dst && ltb dst ((src + n) % 2 ^ 32)
    then if ((src + n) % 4 == 0) && (((dst + n) % 4 == 0) && (n % 4 == 0))
      then movsl_down dst src (n / 4) m
      else movsb_down dst src n m
    else if (src % 4 == 0) && ((dst % 4 == 0) && (n % 4 == 0))
    then movsl_up dst src (n / 4) m
    else movsb_up dst src n m

unfoldable pub memcpy : ℕ → ℕ → ℕ → Bytes → Bytes
unfolding memmove
memcpy dst src n = memmove dst src n

-- `(int) a - (int) b` of two bytes, as a word
abbrev pub byte_diff : ℕ → ℕ → ℕ
byte_diff a b = (a + 2 ^ 32 - b) % 2 ^ 32

unfoldable pub strncmp : Bytes → ℕ → ℕ → ℕ → ℕ
strncmp m p q zero = 0
strncmp m p q (suc n) =
    let rest = strncmp m (p + 1) (q + 1) n in
    if not (m p == 0) && (m p == m q) then rest else byte_diff (m p) (m q)

unfoldable pub strnlen : Bytes → ℕ → ℕ → ℕ
strnlen m s zero = 0
strnlen m s (suc size) = let rest = strnlen m (s + 1) size in if not (m s == 0) then rest + 1 else 0

unfoldable pub memcmp : Bytes → ℕ → ℕ → ℕ → ℕ
memcmp m s1 s2 zero = 0
memcmp m s1 s2 (suc n) =
    let rest = memcmp m (s1 + 1) (s2 + 1) n in
    if not (m s1 == m s2) then byte_diff (m s1) (m s2) else rest

-- The second loop of `strncpy`, and the function for a size that is not negative.
unfoldable pub pad_zero : ℕ → ℕ → Bytes → Bytes
pad_zero s n = for_range n 0 λ k m. update m (s + k) 0

unfoldable pub strncpy : ℕ → ℕ → ℕ → Bytes → Bytes
unfolding pad_zero
strncpy s t zero m = m
strncpy s t (suc n) m =
    let m' = update m s (m t) in
    let rest = strncpy (s + 1) (t + 1) n m' in
    if not (m t == 0) then rest else pad_zero (s + 1) n m'

-- The loops without a size go on to a zero; they are given a number of rounds.
unfoldable pub strcmp : Bytes → ℕ → ℕ → ℕ → Outcome ℕ
strcmp m p q zero = hang
strcmp m p q (suc fuel) =
    let rest = strcmp m (p + 1) (q + 1) fuel in
    if not (m p == 0) && (m p == m q) then rest else ok (byte_diff (m p) (m q))

unfoldable pub strchr : Bytes → ℕ → ℕ → ℕ → Outcome ℕ
strchr m s c zero = hang
strchr m s c (suc fuel) =
    let rest = strchr m (s + 1) c fuel in
    if not (m s == 0) then (if m s == c then ok s else rest) else ok 0
