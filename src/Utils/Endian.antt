-- ===== src/Utils/Endian.antt =====
-- src/utils.cpp: `read_le32`, `write_le32`, `read_le64` and `write_le64`. A pointer is the list of the
-- bytes from it to the end of its object; an access past that end is undefined.
pub mod RoundTrip
mod Tests
use juno_miner.Base.{ℕ, ◌*◌, ◌/◌, ◌%◌, ◌^◌, ◌∷◌, Bytes, Outcome, ok, undefined}
use Prim.Native.Nat.{bit_and, bit_or}

-- `static_cast<uint32_t>(b) << k`, and the same at 64 bits
abbrev pub shl32 : ℕ → ℕ → ℕ
shl32 b k = b * 2 ^ k % 2 ^ 32

abbrev pub shl64 : ℕ → ℕ → ℕ
shl64 b k = b * 2 ^ k % 2 ^ 64

-- `(value >> k) & 0xff`
abbrev pub byte_at : ℕ → ℕ → ℕ
byte_at value k = bit_and (value / 2 ^ k) 0xff

unfoldable pub read_le32 : Bytes → Outcome ℕ
read_le32 (a ∷ b ∷ c ∷ d ∷ rest) =
    ok (bit_or (bit_or (bit_or a (shl32 b 8)) (shl32 c 16)) (shl32 d 24))
read_le32 short = undefined

-- The object after the write.
unfoldable pub write_le32 : Bytes → ℕ → Outcome Bytes
write_le32 (a ∷ b ∷ c ∷ d ∷ rest) value =
    ok (byte_at value 0 ∷ byte_at value 8 ∷ byte_at value 16 ∷ byte_at value 24 ∷ rest)
write_le32 short value = undefined

pub read_le64 : Bytes → Outcome ℕ
read_le64 (a ∷ b ∷ c ∷ d ∷ e ∷ f ∷ g ∷ h ∷ rest) =
    let low = bit_or (bit_or (bit_or a (shl64 b 8)) (shl64 c 16)) (shl64 d 24) in
    ok (bit_or (bit_or (bit_or (bit_or low (shl64 e 32)) (shl64 f 40)) (shl64 g 48)) (shl64 h 56))
read_le64 short = undefined

pub write_le64 : Bytes → ℕ → Outcome Bytes
write_le64 (a ∷ b ∷ c ∷ d ∷ e ∷ f ∷ g ∷ h ∷ rest) value = ok (
    byte_at value 0
    ∷ byte_at value 8
    ∷ byte_at value 16
    ∷ byte_at value 24
    ∷ byte_at value 32
    ∷ byte_at value 40
    ∷ byte_at value 48
    ∷ byte_at value 56
    ∷ rest)
write_le64 short value = undefined
