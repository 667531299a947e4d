-- ===== src/Template/Tests.antt =====
-- A template parsed from a small JSON document.
use juno_miner.Base.{
  ℕ, ◌≡◌, refl, Bool, true, false, Option, none, some, List, [], ◌∷◌, ◌++◌, if◌then◌else◌, length,
  replicate, Bytes, Outcome, ok, throws, json_error,
}
use Prim.Native.String.{String}
use package.text.Mathlib.Text.{◌==◌ as str_eq}
use juno_miner.Json.{Json}
use juno_miner.Utils.Numbers.{stoi16_u8, stoul16}
use juno_miner.Utils.Endian.{write_le32}
use juno_miner.Utils.Hex.{hex_to_bytes}
use juno_miner.Utils.Target.{compact_to_target}
use juno_miner.Template.{
  BlockTemplate, build_header, read_seeds, read_target_hex, read_merkle_root, read_commitments,
  read_coinbase, read_transactions, parse_block_template,
}
use juno_miner.Template.Header.{header_layout, build_header-eq-ok}
use juno_miner.Template.Fields.{IsMinable, parse_block_template-IsMinable}

mutual
  pub data Doc : Type 0 where
    num : ℕ → Doc
    text : Bytes → Doc
    arr : Docs → Doc
    obj : Members → Doc

  pub data Docs : Type 0 where
    none_left : Docs
    entry : Doc → Docs → Docs

  pub data Members : Type 0 where
    no_more : Members
    field : String → Doc → Members → Members

abbrev pub lookup : String → Members → Option Doc
lookup key no_more = none
lookup key (field name value members) = if str_eq name key then some value else lookup key members

abbrev pub entries : Docs → List Doc
entries none_left = []
entries (entry d ds) = d ∷ entries ds

abbrev pub has_member : Doc → String → Outcome Bool
has_member (obj members) key = ok (elim (lookup key members) [ none ↦ false | some _ ↦ true ])
has_member _ key = throws json_error

abbrev pub get_member : Doc → String → Outcome Doc
get_member (obj members) key = elim (lookup key members) [
  | none ↦ throws json_error
  | some d ↦ ok d
]
get_member _ key = throws json_error

abbrev pub number : Doc → Outcome ℕ
number (num n) = ok n
number _ = throws json_error

abbrev pub string : Doc → Outcome Bytes
string (text s) = ok s
string _ = throws json_error

abbrev pub is_arr : Doc → Bool
is_arr (arr ds) = true
is_arr _ = false

abbrev pub is_text : Doc → Bool
is_text (text s) = true
is_text _ = false

abbrev pub elements_of : Doc → List Doc
elements_of (arr ds) = entries ds
elements_of _ = []

abbrev pub docs : Json
docs = record {
  Value = Doc;
  is_member = has_member;
  member = get_member;
  as_uint = number;
  as_uint64 = number;
  as_string = string;
  is_array = is_arr;
  is_null = λ d. false;
  is_string = is_text;
  elements = elements_of;
}

abbrev pub hash_text : Bytes
hash_text = replicate 64 b'1'

abbrev pub coinbase_text : Bytes
coinbase_text = b'0' ∷ b'a' ∷ []

abbrev pub template_doc : Doc
template_doc = obj (
    field "version" (num 4) (
      field "previousblockhash" (text hash_text) (
        field "curtime" (num 1700000000) (
          field "bits" (text (b'1' ∷ b'f' ∷ b'0' ∷ b'9' ∷ b'd' ∷ b'a' ∷ b'a' ∷ b'8' ∷ [])) (
            field "height" (num 5000) (
              field "randomxseedheight" (num 4096) (
                field "randomxseedhash" (text hash_text) (
                  field "defaultroots"
                    (obj (
                      field "merkleroot" (text hash_text)
                        (field "blockcommitmentshash" (text hash_text) no_more)))
                    (field "coinbasetxn" (obj (field "data" (text coinbase_text) no_more))
                      no_more)))))))))

abbrev pub ones : Bytes
ones = replicate 32 0x11

abbrev pub parsed : BlockTemplate
parsed = record {
  version = 4;
  previous_block_hash = hash_text;
  merkle_root = hash_text;
  block_commitments_hash = hash_text;
  time = 1700000000;
  bits = 0x1f09daa8;
  target = compact_to_target 0x1f09daa8;
  target_hex = [];
  height = 5000;
  seed_height = 4096;
  seed_hash = ones;
  next_seed_hash = [];
  header_base =
      4
      ∷ 0
      ∷ 0
      ∷ 0
      ∷ (ones
          ++ (ones
              ++ (ones
                  ++ (0x00 ∷ 0xf1 ∷ 0x53 ∷ 0x65 ∷ 0xa8 ∷ 0xda ∷ 0x09 ∷ 0x1f ∷ replicate 32 0))));
  coinbase_txn_hex = coinbase_text;
  txn_hex = [];
}

pub template_parses : parse_block_template docs template_doc ≡ ok parsed
unfolding parse_block_template read_seeds read_target_hex read_merkle_root read_commitments
    read_coinbase read_transactions build_header stoul16 stoi16_u8 hex_to_bytes write_le32
template_parses = refl

parse_block_template-IsMinable_example : IsMinable parsed
parse_block_template-IsMinable_example =
    parse_block_template-IsMinable docs template_doc parsed template_parses

header_built :
    build_header 4 hash_text hash_text hash_text 1700000000 0x1f09daa8 ≡ ok (parsed.header_base)
unfolding build_header hex_to_bytes stoi16_u8 write_le32
header_built = refl

build_header-eq-ok_example :
    (prev merkle commitments : Bytes) × (hex_to_bytes hash_text ≡ ok prev)
    × (hex_to_bytes hash_text ≡ ok merkle)
    × (hex_to_bytes hash_text ≡ ok commitments)
    × (parsed.header_base ≡ header_layout 4 prev merkle commitments 1700000000 0x1f09daa8)
    × (length (parsed.header_base) ≡ 140)
build_header-eq-ok_example =
    build_header-eq-ok 4 hash_text hash_text hash_text 1700000000 0x1f09daa8 (parsed.header_base)
      header_built
