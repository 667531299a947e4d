-- ===== src/Utils/Hex/Tests.antt =====
-- The hexadecimal conversions at concrete texts.
use juno_miner.Base.{◌*◌, ◌≡◌, refl, [], ◌∷◌, arith, length, Bytes, ok, undefined}
use juno_miner.Utils.Hex.{bytes_to_hex, hex_to_bytes}
use juno_miner.Utils.Hex.RoundTrip.{hex_to_bytes-bytes_to_hex}

abbrev three_bytes : Bytes
three_bytes = 0x0a ∷ 0xff ∷ 0x30 ∷ []

bytes_to_hex_run : bytes_to_hex three_bytes 3 ≡ ok (b'0' ∷ b'a' ∷ b'f' ∷ b'f' ∷ b'3' ∷ b'0' ∷ [])
unfolding bytes_to_hex
bytes_to_hex_run = refl

bytes_to_hex_past_end : bytes_to_hex three_bytes 4 ≡ undefined
unfolding bytes_to_hex
bytes_to_hex_past_end = refl

hex_to_bytes-bytes_to_hex_example :
    (hex : Bytes) × (bytes_to_hex three_bytes (length three_bytes) ≡ ok hex)
    × (length hex ≡ 2 * length three_bytes)
    × (hex_to_bytes hex ≡ ok three_bytes)
hex_to_bytes-bytes_to_hex_example =
    hex_to_bytes-bytes_to_hex three_bytes (omega arith, (omega arith, (omega arith, tt)))
