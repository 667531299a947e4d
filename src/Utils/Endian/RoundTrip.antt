-- ===== src/Utils/Endian/RoundTrip.antt =====
-- Reading and writing little-endian words: the numbers that the bytes stand for, and round trips.
use Prim.Native.Nat.{bit_or}
use juno_miner.Base.{
  ℕ, ◌+◌, ◌*◌, ◌/◌, ◌%◌, ◌^◌, ◌≤◌, ◌<◌, ◌≡◌, ap, ◌∙◌, [], ◌∷◌, arith, length, take, All, IsByte,
  Bytes, le_value, ◌>>=◌, ok,
}
use juno_miner.Base.Bits.{bit_or-add, bit_and_mask}
use juno_miner.Utils.Endian.{shl32, shl64, byte_at, read_le32, write_le32, read_le64, write_le64}

-- One more byte above the `k` bits that are there.
or-shl32 : (k r b : ℕ) → r < 2 ^ k → b * 2 ^ k < 2 ^ 32 → bit_or r (shl32 b k) ≡ r + b * 2 ^ k
or-shl32 k r b h fits = ground (arith, bit_or-add k r b)

or-shl64 : (k r b : ℕ) → r < 2 ^ k → b * 2 ^ k < 2 ^ 64 → bit_or r (shl64 b k) ≡ r + b * 2 ^ k
or-shl64 k r b h fits = ground (arith, bit_or-add k r b)

pub byte_at-mod : (value k : ℕ) → byte_at value k ≡ value / 2 ^ k % 256
byte_at-mod value k = bit_and_mask 8 (value / 2 ^ k)

read_le32_bytes :
    (a b c d : ℕ) (rest : Bytes)
    → a < 256
    → b < 256
    → c < 256
    → d < 256
    → read_le32 (a ∷ b ∷ c ∷ d ∷ rest) ≡ ok (a + b * 2 ^ 8 + c * 2 ^ 16 + d * 2 ^ 24)
unfolding read_le32
read_le32_bytes a b c d rest ha hb hc hd = ap ok (
    rw (or-shl32 8 a b (omega arith) (omega arith)) (
      rw (or-shl32 16 (a + b * 2 ^ 8) c (omega arith) (omega arith))
        (or-shl32 24 (a + b * 2 ^ 8 + c * 2 ^ 16) d (omega arith) (omega arith))))

-- The word at a pointer to four bytes or more is the number of the first four.
pub read_le32-le_value :
    (memory : Bytes)
    → All IsByte memory
    → 4 ≤ length memory
    → read_le32 memory ≡ ok (le_value (take 4 memory))
read_le32-le_value [] v h = absurd (omega arith)
read_le32-le_value (a ∷ []) v h = absurd (omega arith)
read_le32-le_value (a ∷ b ∷ []) v h = absurd (omega arith)
read_le32-le_value (a ∷ b ∷ c ∷ []) v h = absurd (omega arith)
read_le32-le_value (a ∷ b ∷ c ∷ d ∷ rest) (ha, (hb, (hc, (hd, _)))) h =
    rw (read_le32_bytes a b c d rest ha hb hc hd) (ap ok (omega arith))

pub byte_at-lt : (value k : ℕ) → byte_at value k < 256
byte_at-lt value k = omega (arith, byte_at-mod value k)

bytes_of_word :
    (v : ℕ)
    → v < 2 ^ 32
    → byte_at v 0 + byte_at v 8 * 2 ^ 8 + byte_at v 16 * 2 ^ 16 + byte_at v 24 * 2 ^ 24 ≡ v
bytes_of_word v h =
    omega (arith, byte_at-mod v 0, byte_at-mod v 8, byte_at-mod v 16, byte_at-mod v 24)

-- A 32-bit word that is written reads back, and a word that is read and written again leaves its
-- object as it was, in an object of four bytes or more.
pub read_le32-write_le32 :
    (memory : Bytes) (value : ℕ)
    → All IsByte memory
    → 4 ≤ length memory
    → value < 2 ^ 32
    → ((write_le32 memory value >>= read_le32) ≡ ok value)
      × ((read_le32 memory >>= write_le32 memory) ≡ ok memory)
unfolding write_le32
read_le32-write_le32 [] v i h w = absurd (omega arith)
read_le32-write_le32 (a ∷ []) v i h w = absurd (omega arith)
read_le32-write_le32 (a ∷ b ∷ []) v i h w = absurd (omega arith)
read_le32-write_le32 (a ∷ b ∷ c ∷ []) v i h w = absurd (omega arith)
read_le32-write_le32 (a ∷ b ∷ c ∷ d ∷ rest) v (ha, (hb, (hc, (hd, _)))) h w = (
  read_le32_bytes (byte_at v 0) (byte_at v 8) (byte_at v 16) (byte_at v 24) rest (byte_at-lt v 0)
        (byte_at-lt v 8) (byte_at-lt v 16) (byte_at-lt v 24)
      ∙ ap ok (bytes_of_word v w),
  rw (read_le32_bytes a b c d rest ha hb hc hd) (
      ground (
        arith,
        byte_at-mod (a + b * 2 ^ 8 + c * 2 ^ 16 + d * 2 ^ 24) 0,
        byte_at-mod (a + b * 2 ^ 8 + c * 2 ^ 16 + d * 2 ^ 24) 8,
        byte_at-mod (a + b * 2 ^ 8 + c * 2 ^ 16 + d * 2 ^ 24) 16,
        byte_at-mod (a + b * 2 ^ 8 + c * 2 ^ 16 + d * 2 ^ 24) 24,
      )),
)

read_le64_bytes :
    (a b c d e f g h : ℕ) (rest : Bytes)
    → All IsByte (a ∷ b ∷ c ∷ d ∷ e ∷ f ∷ g ∷ h ∷ [])
    → read_le64 (a ∷ b ∷ c ∷ d ∷ e ∷ f ∷ g ∷ h ∷ rest)
      ≡ ok (le_value (a ∷ b ∷ c ∷ d ∷ e ∷ f ∷ g ∷ h ∷ []))
unfolding read_le64
read_le64_bytes a b c d e f g h rest v = ap ok (
    rw (or-shl64 8 a b (omega arith) (omega arith)) (
      rw (or-shl64 16 (a + b * 2 ^ 8) c (omega arith) (omega arith)) (
        rw (or-shl64 24 (a + b * 2 ^ 8 + c * 2 ^ 16) d (omega arith) (omega arith))
          (high (a + b * 2 ^ 8 + c * 2 ^ 16 + d * 2 ^ 24) (omega arith) ∙ omega arith))))
  where
    high :
        (low : ℕ)
        → low < 2 ^ 32
        → bit_or (bit_or (bit_or (bit_or low (shl64 e 32)) (shl64 f 40)) (shl64 g 48)) (shl64 h 56)
          ≡ low + e * 2 ^ 32 + f * 2 ^ 40 + g * 2 ^ 48 + h * 2 ^ 56
    high low small = rw (or-shl64 32 low e (omega arith) (omega arith)) (
        rw (or-shl64 40 (low + e * 2 ^ 32) f (omega arith) (omega arith)) (
          rw (or-shl64 48 (low + e * 2 ^ 32 + f * 2 ^ 40) g (omega arith) (omega arith)) (
            or-shl64 56 (low + e * 2 ^ 32 + f * 2 ^ 40 + g * 2 ^ 48) h (omega arith)
              (omega arith))))

bytes_of_long :
    (v : ℕ)
    → v < 2 ^ 64
    → le_value (
        byte_at v 0
        ∷ byte_at v 8
        ∷ byte_at v 16
        ∷ byte_at v 24
        ∷ byte_at v 32
        ∷ byte_at v 40
        ∷ byte_at v 48
        ∷ byte_at v 56
        ∷ [])
      ≡ v
bytes_of_long v h = omega (
  arith,
  byte_at-mod v 0,
  byte_at-mod v 8,
  byte_at-mod v 16,
  byte_at-mod v 24,
  byte_at-mod v 32,
  byte_at-mod v 40,
  byte_at-mod v 48,
  byte_at-mod v 56,
)

-- A 64-bit word that is written into an object of eight bytes or more reads back.
pub read_le64-write_le64 :
    (memory : Bytes) (value : ℕ)
    → 8 ≤ length memory
    → value < 2 ^ 64
    → (write_le64 memory value >>= read_le64) ≡ ok value
unfolding write_le64
read_le64-write_le64 (a ∷ b ∷ c ∷ d ∷ e ∷ f ∷ g ∷ h ∷ rest) v len w =
    read_le64_bytes (byte_at v 0) (byte_at v 8) (byte_at v 16) (byte_at v 24) (byte_at v 32)
      (byte_at v 40) (byte_at v 48) (byte_at v 56) rest (omega (arith, byte_at-lt))
    ∙ ap ok (bytes_of_long v w)
read_le64-write_le64 short v len w = absurd (omega arith)
