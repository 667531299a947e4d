-- ===== src/Template.antt =====
-- src/miner.h and src/miner.cpp: `BlockTemplate` and `parse_block_template`.
pub mod Header
pub mod Fields
pub mod HeaderBytes
pub mod Tests
use juno_miner.Base.{
  ℕ, ◌%◌, ◌^◌, Bool, false, List, [], ◌∷◌, ◌++◌, ◌==◌, if◌then◌else◌, length, take, drop, replicate,
  Bytes, Outcome, require, ◌>>=◌, ◌>>◌, ok, runtime_error,
}
use Prim.Native.String.{String}
use mathlib.Core.List.{reverse}
use juno_miner.Json.{Json}
use juno_miner.Utils.Numbers.{stoul16}
use juno_miner.Utils.Endian.{write_le32}
use juno_miner.Utils.Hex.{hex_to_bytes}
use juno_miner.Utils.Target.{compact_to_target}
use juno_miner.Miner.Nonce.{copy_at}

pub record BlockTemplate : Type 0 where
  pub version : ℕ
  pub previous_block_hash : Bytes
  pub merkle_root : Bytes
  pub block_commitments_hash : Bytes
  pub time : ℕ
  pub bits : ℕ
  pub target : Bytes
  pub target_hex : Bytes
  pub height : ℕ
  pub seed_height : ℕ
  pub seed_hash : Bytes
  pub next_seed_hash : Bytes
  pub header_base : Bytes
  pub coinbase_txn_hex : Bytes
  pub txn_hex : List Bytes

-- `utils::write_le32(&buffer[offset], value)`
abbrev pub write_word : Bytes → ℕ → ℕ → Outcome Bytes
write_word buffer offset value = do
  tail ← write_le32 (drop offset buffer) value
  ok (take offset buffer ++ tail)

-- A hash in display order is 32 bytes of text; it is copied in reverse.
abbrev pub copy_hash : Bytes → ℕ → Bytes → String → Outcome Bytes
copy_hash buffer offset hex message = do
  bytes ← hex_to_bytes hex
  require (length bytes == 32) (runtime_error message)
  ok (copy_at buffer offset (reverse bytes))

-- The 140-byte header without its nonce
unfoldable pub build_header : ℕ → Bytes → Bytes → Bytes → ℕ → ℕ → Outcome Bytes
build_header version previous_block_hash merkle_root block_commitments_hash time bits = do
  with_version ← write_word (replicate 140 0) 0 version
  with_prev ← copy_hash with_version 4 previous_block_hash "Invalid previousblockhash size"
  with_merkle ← copy_hash with_prev 36 merkle_root "Invalid merkleroot size"
  with_commitments ←
      copy_hash with_merkle 68 block_commitments_hash "Invalid blockcommitmentshash size"
  with_time ← write_word with_commitments 100 time
  with_bits ← write_word with_time 104 bits
  ok (copy_at with_bits 108 (replicate 32 0))

module _ (json : Json) where
  open json use {Value, is_member, member, as_uint, as_uint64, as_string, is_array, elements}

  -- `if (!v.isMember(key)) throw std::runtime_error(message);` and `v[key]`
  abbrev need : Value → String → String → Outcome Value
  need v key message = do
    present ← is_member v key
    require present (runtime_error message)
    member v key

  -- `v.isMember(outer) && v[outer].isMember(inner)`
  abbrev has_inner : Value → String → String → Outcome Bool
  has_inner v outer inner = do
    present ← is_member v outer
    if present then (do o ← member v outer; is_member o inner) else ok false

  -- `v[outer][inner].asString()`
  abbrev inner_string : Value → String → String → Outcome Bytes
  inner_string v outer inner = do o ← member v outer; i ← member o inner; as_string i

  abbrev require_length : Bytes → String → Outcome (Unit {0})
  require_length text message = require (length text == 64) (runtime_error message)

  -- `randomxnextseedhash`, which is left out where it has another length
  unfoldable pub read_next_seed : Value → Outcome Bytes
  read_next_seed template_data = do
    value ← member template_data "randomxnextseedhash"
    next_seed_hex ← as_string value
    if length next_seed_hex == 64 then hex_to_bytes next_seed_hex else ok []

  unfoldable pub read_seeds : Value → Outcome (Bytes × Bytes)
  unfolding read_next_seed
  read_seeds template_data = do
    value ← need template_data "randomxseedhash" "Missing randomxseedhash in block template"
    seed_hash_hex ← as_string value
    require_length seed_hash_hex "Invalid randomxseedhash length"
    seed_hash ← hex_to_bytes seed_hash_hex
    has_next ← is_member template_data "randomxnextseedhash"
    next_seed_hash ← if has_next then read_next_seed template_data else ok []
    ok (seed_hash, next_seed_hash)

  unfoldable pub read_target_hex : Value → Outcome Bytes
  read_target_hex template_data = do
    present ← is_member template_data "target"
    if present then (do value ← member template_data "target"; as_string value) else ok []

  unfoldable pub read_merkle_root : Value → Outcome Bytes
  read_merkle_root template_data = do
    present ← has_inner template_data "defaultroots" "merkleroot"
    require present (runtime_error "Missing defaultroots.merkleroot in block template")
    merkle_root ← inner_string template_data "defaultroots" "merkleroot"
    require_length merkle_root "Invalid merkleroot length"
    ok merkle_root

  -- In `defaultroots`, or else in the template itself
  unfoldable pub read_commitments : Value → Outcome Bytes
  read_commitments template_data = do
    in_roots ← has_inner template_data "defaultroots" "blockcommitmentshash"
    block_commitments_hash ←
        if in_roots then inner_string template_data "defaultroots" "blockcommitmentshash" else (do
          value ←
              need template_data "blockcommitmentshash"
                "Missing blockcommitmentshash in block template"
          as_string value)
    require_length block_commitments_hash "Invalid blockcommitmentshash length"
    ok block_commitments_hash

  unfoldable pub read_coinbase : Value → Outcome Bytes
  read_coinbase template_data = do
    present ← has_inner template_data "coinbasetxn" "data"
    require present (runtime_error "Missing coinbasetxn.data in block template")
    inner_string template_data "coinbasetxn" "data"

  -- Entries without "data" are passed over.
  unfoldable pub read_txns : List Value → Outcome (List Bytes)
  read_txns [] = ok []
  read_txns (txn ∷ txns) = do
    present ← is_member txn "data"
    head ←
        if present
        then (do value ← member txn "data"; hex ← as_string value; ok (hex ∷ []))
        else ok []
    rest ← read_txns txns
    ok (head ++ rest)

  unfoldable pub read_transactions : Value → Outcome (List Bytes)
  unfolding read_txns
  read_transactions template_data = do
    present ← is_member template_data "transactions"
    if present
        then (do
          value ← member template_data "transactions"
          if is_array value then read_txns (elements value) else ok [])
        else ok []

  -- An exception leaves no template.
  unfoldable pub parse_block_template : Value → Outcome BlockTemplate
  parse_block_template template_data = do
    version_value ← need template_data "version" "Missing version in block template"
    version ← as_uint version_value
    previous_value ←
        need template_data "previousblockhash" "Missing previousblockhash in block template"
    previous_block_hash ← as_string previous_value
    time_value ← need template_data "curtime" "Missing curtime in block template"
    time ← as_uint time_value
    bits_value ← need template_data "bits" "Missing bits in block template"
    bits_hex ← as_string bits_value
    bits_long ← stoul16 bits_hex
    let bits = bits_long % 2 ^ 32
    height_value ← need template_data "height" "Missing height in block template"
    height ← as_uint height_value
    seed_height_value ←
        need template_data "randomxseedheight" "Missing randomxseedheight in block template"
    seed_height ← as_uint64 seed_height_value
    seeds ← read_seeds template_data
    target_hex ← read_target_hex template_data
    merkle_root ← read_merkle_root template_data
    block_commitments_hash ← read_commitments template_data
    coinbase_txn_hex ← read_coinbase template_data
    txn_hex ← read_transactions template_data
    header_base ←
        build_header version previous_block_hash merkle_root block_commitments_hash time bits
    ok (record {
      version = version;
      previous_block_hash = previous_block_hash;
      merkle_root = merkle_root;
      block_commitments_hash = block_commitments_hash;
      time = time;
      bits = bits;
      target = compact_to_target bits;
      target_hex = target_hex;
      height = height;
      seed_height = seed_height;
      seed_hash = seeds.0;
      next_seed_hash = seeds.1;
      header_base = header_base;
      coinbase_txn_hex = coinbase_txn_hex;
      txn_hex = txn_hex;
    })
