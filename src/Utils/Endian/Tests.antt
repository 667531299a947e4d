-- ===== src/Utils/Endian/Tests.antt =====
-- The round trips at concrete objects.
use juno_miner.Base.{◌≡◌, refl, [], ◌∷◌, Bytes, ok, undefined}
use juno_miner.Utils.Endian.{read_le32}

abbrev object : Bytes
object = 1 ∷ 2 ∷ 3 ∷ 4 ∷ 5 ∷ 6 ∷ 7 ∷ 8 ∷ 9 ∷ []

read_le32-object : read_le32 object ≡ ok 0x04030201
unfolding read_le32
read_le32-object = refl

read_le32_short : read_le32 (1 ∷ 2 ∷ 3 ∷ []) ≡ undefined
unfolding read_le32
read_le32_short = refl
