-- ===== src/Utils/Varint.antt =====
-- src/utils.cpp: `encode_varint`, Bitcoin's compact size: one byte, or a marker and 2, 4 or 8 bytes.
pub mod Decode
mod Tests
use juno_miner.Base.{ℕ, ◌/◌, ◌^◌, [], ◌∷◌, ltb, leb, if◌then◌else◌, Bytes}
use Prim.Native.Nat.{bit_and}

-- `static_cast<char>((n >> k) & 0xff)`
abbrev pub nth_byte : ℕ → ℕ → ℕ
nth_byte n k = bit_and (n / 2 ^ k) 0xff

unfoldable pub encode_varint : ℕ → Bytes
encode_varint n =
    if ltb n 0xfd
    then n ∷ []
    else if leb n 0xffff
    then 0xfd ∷ nth_byte n 0 ∷ nth_byte n 8 ∷ []
    else if leb n 0xffffffff
    then 0xfe ∷ nth_byte n 0 ∷ nth_byte n 8 ∷ nth_byte n 16 ∷ nth_byte n 24 ∷ []
    else 0xff
      ∷ nth_byte n 0
      ∷ nth_byte n 8
      ∷ nth_byte n 16
      ∷ nth_byte n 24
      ∷ nth_byte n 32
      ∷ nth_byte n 40
      ∷ nth_byte n 48
      ∷ nth_byte n 56
      ∷ []
