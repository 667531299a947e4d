-- ===== src/Utils/Varint/Tests.antt =====
-- Compact sizes at concrete numbers.
use juno_miner.Base.{◌≡◌, refl, some, [], ◌∷◌, ◌++◌, arith}
use juno_miner.Utils.Varint.{encode_varint}
use juno_miner.Utils.Varint.Decode.{decode_varint, decode_varint-encode_varint}

encode_varint_300 : encode_varint 300 ≡ 0xfd ∷ 0x2c ∷ 0x01 ∷ []
unfolding encode_varint
encode_varint_300 = refl

decode_varint-encode_varint_example :
    decode_varint (encode_varint 70000 ++ 5 ∷ []) ≡ some (70000, 5 ∷ [])
decode_varint-encode_varint_example = decode_varint-encode_varint 70000 (5 ∷ []) (omega arith)
