-- ===== src/Utils/Numbers/Tests.antt =====
-- The conversions on the texts " -7", "0x1F", "12ab" and "x".
use juno_miner.Base.{◌-◌, ◌^◌, ◌≡◌, refl, [], ◌∷◌, ok, throws, invalid_argument}
use juno_miner.Utils.Numbers.{atoi_u32, stoul16, stoi16_u8}

atoi_negative : atoi_u32 (b' ' ∷ b'-' ∷ b'7' ∷ []) ≡ ok (2 ^ 32 - 7)
unfolding atoi_u32
atoi_negative = refl

stoul16_prefixed : stoul16 (b'0' ∷ b'x' ∷ b'1' ∷ b'F' ∷ []) ≡ ok 31
unfolding stoul16
stoul16_prefixed = refl

atoi_rest : atoi_u32 (b'1' ∷ b'2' ∷ b'a' ∷ b'b' ∷ []) ≡ ok 12
unfolding atoi_u32
atoi_rest = refl

stoi16_invalid : stoi16_u8 (b'x' ∷ []) ≡ throws invalid_argument
unfolding stoi16_u8
stoi16_invalid = refl
