-- ===== src/Utils/Block.antt =====
-- src/utils.cpp: `serialize_block`.
pub mod Parse
mod Tests
use juno_miner.Base.{◌+◌, List, [], ◌∷◌, ◌++◌, length, Bytes, Outcome, ◌>>=◌, ◌>>◌, ok}
use juno_miner.Utils.Hex.{bytes_to_hex, hex_to_bytes}
use juno_miner.Utils.Varint.{encode_varint}

-- `for (const auto& tx_hex : txn_hex)`
unfoldable pub append_transactions : Bytes → List Bytes → Outcome Bytes
append_transactions result [] = ok result
append_transactions result (tx_hex ∷ txn_hex) = do
  tx_bytes ← hex_to_bytes tx_hex
  append_transactions (result ++ tx_bytes) txn_hex

unfoldable pub serialize_block : Bytes → Bytes → Bytes → List Bytes → Outcome Bytes
unfolding append_transactions
serialize_block header solution coinbase_hex txn_hex =
    let head = header ++ (encode_varint (length solution) ++ solution) in
    let tx_count = 1 + length txn_hex in
    do
      coinbase_bytes ← hex_to_bytes coinbase_hex
      result ← append_transactions ((head ++ encode_varint tx_count) ++ coinbase_bytes) txn_hex
      bytes_to_hex result (length result)
