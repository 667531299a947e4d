-- ===== src/Utils/Varint/Decode.antt =====
-- A reader of compact sizes, which the program does not have, and the encoder against it.
use juno_miner.Base.{
  ℕ, zero, suc, ◌+◌, ◌*◌, ◌/◌, ◌%◌, ◌^◌, ◌<◌, ◌≡◌, refl, Option, none, some, [], ◌∷◌, ◌++◌, arith,
  ltb, ◌==◌, if◌then◌else◌, length, All, IsByte, Bytes, le_value,
}
use juno_miner.Base.Bits.{bit_and_mask}
use juno_miner.Utils.Varint.{nth_byte, encode_varint}

nth_byte-mod : (n k : ℕ) → nth_byte n k ≡ n / 2 ^ k % 256
nth_byte-mod n k = bit_and_mask 8 (n / 2 ^ k)

-- The number, the rest of the input, and nothing for input that ends early.
unfoldable pub decode_long : ℕ → Bytes → Option (ℕ × Bytes)
decode_long zero bs = some (0, bs)
decode_long (suc k) [] = none
decode_long (suc k) (b ∷ bs) = elim (decode_long k bs) [
  | none ↦ none
  | some (n, rest) ↦ some (b + 256 * n, rest)
]

unfoldable pub decode_varint : Bytes → Option (ℕ × Bytes)
unfolding decode_long
decode_varint [] = none
decode_varint (b ∷ bs) =
    if ltb b 0xfd
    then some (b, bs)
    else if b == 0xfd
    then decode_long 2 bs
    else if b == 0xfe
    then decode_long 4 bs
    else decode_long 8 bs

decode_long-append :
    (xs rest : Bytes) → decode_long (length xs) (xs ++ rest) ≡ some (le_value xs, rest)
unfolding decode_long
decode_long-append [] rest = refl
decode_long-append (x ∷ xs) rest = rw (decode_long-append xs rest)

-- How long the shortest form of a number is
abbrev pub varint_size : ℕ → ℕ
varint_size n =
    if ltb n 0xfd then 1 else if ltb n (2 ^ 16) then 3 else if ltb n (2 ^ 32) then 5 else 9

-- Every 64-bit number is read back from its encoding, and what follows is left.
pub decode_varint-encode_varint :
    (n : ℕ) (rest : Bytes) → n < 2 ^ 64 → decode_varint (encode_varint n ++ rest) ≡ some (n, rest)
unfolding decode_varint encode_varint
decode_varint-encode_varint n rest h = ground (
  arith,
  nth_byte-mod n 0,
  nth_byte-mod n 8,
  nth_byte-mod n 16,
  nth_byte-mod n 24,
  nth_byte-mod n 32,
  nth_byte-mod n 40,
  nth_byte-mod n 48,
  nth_byte-mod n 56,
)

-- The encoding of a 64-bit number is a string of bytes, of the size of its form.
pub encode_varint_size :
    (n : ℕ) → n < 2 ^ 64 → All IsByte (encode_varint n) × (length (encode_varint n) ≡ varint_size n)
unfolding encode_varint
encode_varint_size n h = ground (
  arith,
  nth_byte-mod n 0,
  nth_byte-mod n 8,
  nth_byte-mod n 16,
  nth_byte-mod n 24,
  nth_byte-mod n 32,
  nth_byte-mod n 40,
  nth_byte-mod n 48,
  nth_byte-mod n 56,
)
