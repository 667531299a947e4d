-- ===== src/Utils/Block/Tests.antt =====
-- A block with one transaction besides the coinbase.
use juno_miner.Base.{◌≡◌, refl, some, [], ◌∷◌, arith, replicate, Bytes, ok}
use juno_miner.Utils.Numbers.{stoi16_u8}
use juno_miner.Utils.Hex.{hex_to_bytes}
use juno_miner.Utils.Block.{serialize_block}
use juno_miner.Utils.Block.Parse.{read_block, read_block-serialize_block}

read_block-serialize_block_example :
    (text : Bytes) × (block : Bytes) × (serialize_block
        (replicate 140 1)
        (replicate 32 2)
        (b'0' ∷ b'a' ∷ [])
        ((b'f' ∷ b'f' ∷ []) ∷ [])
      ≡ ok text)
    × (hex_to_bytes text ≡ ok block)
    × (read_block block
        ≡ some (record {
          header = replicate 140 1;
          solution = replicate 32 2;
          tx_count = 2;
          transactions = 10 ∷ 255 ∷ [];
        }))
unfolding hex_to_bytes stoi16_u8
read_block-serialize_block_example =
    read_block-serialize_block (replicate 140 1) (replicate 32 2) (b'0' ∷ b'a' ∷ [])
      ((b'f' ∷ b'f' ∷ []) ∷ []) (10 ∷ 255 ∷ []) (omega arith) (omega arith) refl (omega arith)
      (omega arith) refl
