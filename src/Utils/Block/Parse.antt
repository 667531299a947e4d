-- ===== src/Utils/Block/Parse.antt =====
-- A serialized block read back field by field.
use juno_miner.Base.{
  ℕ, ◌+◌, ◌^◌, ◌<◌, ◌≡◌, refl, ap, ◌∙◌, Option, none, some, List, [], ◌∷◌, ◌++◌, append_assoc,
  append-nil, arith, length, take, drop, All, All-append, drop-append, take-append, count, IsByte,
  Bytes, Outcome, ◌>>=◌, >>=-eq-ok, ok,
}
use juno_miner.Utils.Numbers.Bounds.{stoi16_u8-lt}
use juno_miner.Utils.Numbers.{stoi16_u8}
use juno_miner.Utils.Hex.{hex_to_bytes}
use juno_miner.Utils.Hex.RoundTrip.{hex_to_bytes-bytes_to_hex}
use juno_miner.Utils.Varint.{encode_varint}
use juno_miner.Utils.Varint.Decode.{decode_varint, decode_varint-encode_varint, encode_varint_size}
use juno_miner.Utils.Block.{append_transactions, serialize_block}

-- What a node reads of a block: header, solution, number of transactions and their bytes.
pub record BlockView : Type 0 where
  pub header : Bytes
  pub solution : Bytes
  pub tx_count : ℕ
  pub transactions : Bytes

-- A reader of blocks with a 140-byte header, which the program does not have.
pub read_block : Bytes → Option BlockView
read_block block = elim (decode_varint (drop 140 block)) [
  | none ↦ none
  | some (size, rest) ↦ elim (decode_varint (drop size rest)) [
    | none ↦ none
    | some (count, body) ↦ some (record {
      header = take 140 block;
      solution = take size rest;
      tx_count = count;
      transactions = body;
    })
  ]
]

-- The bytes of each transaction, one after the other
abbrev pub decode_all : List Bytes → Outcome Bytes
decode_all [] = ok []
decode_all (hex ∷ more) = do bytes ← hex_to_bytes hex; rest ← decode_all more; ok (bytes ++ rest)

append_transactions-decode_all :
    (result body : Bytes) (txn_hex : List Bytes)
    → decode_all txn_hex ≡ ok body
    → append_transactions result txn_hex ≡ ok (result ++ body)
unfolding append_transactions
append_transactions-decode_all result body [] h = ground (arith, append-nil result)
append_transactions-decode_all result body (tx ∷ txn_hex) h =
    let (bytes, read, h') = >>=-eq-ok (hex_to_bytes tx) _ h in
    let (rest, reads, joined) = >>=-eq-ok (decode_all txn_hex) _ h' in
    rw (read, append_transactions-decode_all (result ++ bytes) rest txn_hex reads)
      (ground (arith, append_assoc result bytes rest))

pub hex_to_bytes-IsByte : (hex bs : Bytes) → hex_to_bytes hex ≡ ok bs → All IsByte bs
unfolding hex_to_bytes
hex_to_bytes-IsByte [] bs h = ground arith
hex_to_bytes-IsByte (c ∷ []) bs h =
    let (b, read, e) = >>=-eq-ok (stoi16_u8 (c ∷ [])) _ h in
    ground (arith, stoi16_u8-lt (c ∷ []) b read)
hex_to_bytes-IsByte (c ∷ d ∷ hex) bs h =
    let (b, read, h') = >>=-eq-ok (stoi16_u8 (c ∷ d ∷ [])) _ h in
    let (rest, reads, e) = >>=-eq-ok (hex_to_bytes hex) _ h' in
    ground (arith, stoi16_u8-lt (c ∷ d ∷ []) b read, hex_to_bytes-IsByte hex rest reads)

decode_all-IsByte :
    (txn_hex : List Bytes) (body : Bytes) → decode_all txn_hex ≡ ok body → All IsByte body
decode_all-IsByte [] body h = ground arith
decode_all-IsByte (tx ∷ txn_hex) body h =
    let (bytes, read, h') = >>=-eq-ok (hex_to_bytes tx) _ h in
    let (rest, reads, joined) = >>=-eq-ok (decode_all txn_hex) _ h' in
    ground (
      arith,
      All-append IsByte bytes rest (hex_to_bytes-IsByte tx bytes read)
          (decode_all-IsByte txn_hex rest reads),
    )

-- The bytes of a block, bracketed to the right
abbrev block_bytes : Bytes → Bytes → ℕ → Bytes → Bytes
block_bytes header solution count body =
    header ++ (encode_varint (length solution) ++ (solution ++ (encode_varint count ++ body)))

read_block-block_bytes :
    (header solution body : Bytes) (count : ℕ)
    → length header ≡ 140
    → length solution < 2 ^ 64
    → count < 2 ^ 64
    → read_block (block_bytes header solution count body)
      ≡ some
          (record { header = header; solution = solution; tx_count = count; transactions = body })
unfolding read_block
read_block-block_bytes header solution body count h s c =
    let inner = solution ++ (encode_varint count ++ body) in
    ground (
      arith,
      drop-append header (encode_varint (length solution) ++ inner) 140,
      take-append header (encode_varint (length solution) ++ inner) 140,
      decode_varint-encode_varint (length solution) inner s,
      drop-append solution (encode_varint count ++ body) (length solution) refl,
      take-append solution (encode_varint count ++ body) (length solution) refl,
      decode_varint-encode_varint count body c,
    )

-- The order in which `serialize_block` appends gives the same bytes.
appended :
    (h v s c coinbase rest : Bytes)
    → (((h ++ (v ++ s)) ++ c) ++ coinbase) ++ rest ≡ h ++ (v ++ (s ++ (c ++ (coinbase ++ rest))))
appended h v s c coinbase rest = simp append_assoc

block_bytes-IsByte :
    (header solution body : Bytes) (count : ℕ)
    → All IsByte header
    → All IsByte solution
    → All IsByte body
    → length solution < 2 ^ 64
    → count < 2 ^ 64
    → All IsByte (block_bytes header solution count body)
block_bytes-IsByte header solution body count vh vs vb s c = All-append IsByte header _ vh (
    All-append IsByte (encode_varint (length solution)) _ (encode_varint_size (length solution) s).0
      (All-append IsByte solution _ vs
        (All-append IsByte (encode_varint count) body (encode_varint_size count c).0 vb)))

-- A block of a 140-byte header, a solution and transactions whose texts decode is serialized to a text
-- from which a node reads the same header, solution, number of transactions and transaction bytes.
pub read_block-serialize_block :
    (header solution coinbase_hex : Bytes) (txn_hex : List Bytes) (body : Bytes)
    → All IsByte header
    → All IsByte solution
    → length header ≡ 140
    → length solution < 2 ^ 64
    → 1 + length txn_hex < 2 ^ 64
    → decode_all (coinbase_hex ∷ txn_hex) ≡ ok body
    → (text : Bytes) × (block : Bytes) × (serialize_block header solution coinbase_hex txn_hex
        ≡ ok text)
      × (hex_to_bytes text ≡ ok block)
      × (read_block block
          ≡ some (record {
            header = header;
            solution = solution;
            tx_count = 1 + length txn_hex;
            transactions = body;
          }))
unfolding serialize_block
read_block-serialize_block header solution coinbase_hex txn_hex body vh vs hl sl tl h =
    let (coinbase, read, h') = >>=-eq-ok (hex_to_bytes coinbase_hex) _ h in
    let (rest, reads, joined) = >>=-eq-ok (decode_all txn_hex) _ h' in
    let count = 1 + length txn_hex in
    let size = encode_varint (length solution) in
    let head = (header ++ (size ++ solution)) ++ encode_varint count in
    let block = block_bytes header solution count body in
    let same : (head ++ coinbase) ++ rest ≡ block =
      appended header size solution (encode_varint count) coinbase rest
      ∙ ap (block_bytes header solution count) (ground arith) in
    let (text, printed, _, back) = hex_to_bytes-bytes_to_hex block (
      block_bytes-IsByte header solution body count vh vs
        (decode_all-IsByte (coinbase_hex ∷ txn_hex) body h) sl tl) in
    (
      text,
      block,
      rw (read, append_transactions-decode_all (head ++ coinbase) rest txn_hex reads, same) printed,
      back,
      read_block-block_bytes header solution body count hl sl tl,
    )
