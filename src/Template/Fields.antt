-- ===== src/Template/Fields.antt =====
-- What a parsed template promises to the miner.
use juno_miner.Base.{
  ℕ, zero, suc, ◌*◌, ◌%◌, ◌^◌, ◌<◌, ◌≡◌, refl, ◌⊎◌, inl, inr, Bool, true, false, [], ◌∷◌, arith,
  ◌==◌, if◌then◌else◌, Bool-cases, length, Bytes, require, ◌>>=◌, >>=-eq-ok, Ensures, Ensures-bind,
  Ensures-eq-ok, Ensures-intro, returns, ok, runtime_error,
}
use juno_miner.Json.{Json}
use juno_miner.Utils.Numbers.{stoi16_u8, stoul16}
use juno_miner.Utils.Hex.{hex_to_bytes}
use juno_miner.Utils.Target.{compact_to_target}
use juno_miner.Template.{
  need, read_target_hex, read_merkle_root, read_commitments, read_coinbase, read_transactions,
  BlockTemplate, build_header, read_next_seed, read_seeds, parse_block_template,
}
use juno_miner.Template.Header.{header_layout, build_header-eq-ok}

-- Two characters make a byte.
hex_to_bytes_half :
    (hex : Bytes) (n : ℕ) {bs : Bytes}
    → hex_to_bytes hex ≡ ok bs
    → length hex ≡ 2 * n
    → length bs ≡ n
unfolding hex_to_bytes
hex_to_bytes_half [] n h e = ground arith
hex_to_bytes_half (c ∷ []) n h e = absurd (omega arith)
hex_to_bytes_half (c ∷ d ∷ hex) zero h e = absurd (omega arith)
hex_to_bytes_half (c ∷ d ∷ hex) (suc n) h e =
    let (b, read, h') = >>=-eq-ok (stoi16_u8 (c ∷ d ∷ [])) _ h in
    let (rest, reads, joined) = >>=-eq-ok (hex_to_bytes hex) _ h' in
    ground (arith, hex_to_bytes_half hex n reads (omega arith))

module _ (json : Json) where
  open json use {Value, is_member, member, as_string}

  read_next_seed_size :
      (template_data : Value)
      → Ensures (λ next. (next ≡ []) ⊎ (length next ≡ 32)) (read_next_seed json template_data)
  unfolding read_next_seed
  read_next_seed_size template_data =
      Ensures-bind (member template_data "randomxnextseedhash") _
        λ value _. Ensures-bind (as_string value) _ λ hex _. half hex
    where
      half :
          (hex : Bytes)
          → Ensures
              (λ next. (next ≡ []) ⊎ (length next ≡ 32))
              (if length hex == 64 then hex_to_bytes hex else ok [])
      half hex = elim (Bool-cases (length hex == 64)) [
        | inl full ↦ rw full (
            Ensures-intro (hex_to_bytes hex)
              (λ bs read. inr (hex_to_bytes_half hex 32 read (ground arith))))
        | inr other ↦ rw other (returns (inl refl))
      ]

  abbrev AreSeeds : Bytes × Bytes → Type 0
  AreSeeds seeds = (length seeds.0 ≡ 32) × ((seeds.1 ≡ []) ⊎ (length seeds.1 ≡ 32))

  read_seeds_size : (template_data : Value) → Ensures AreSeeds (read_seeds json template_data)
  unfolding read_seeds
  read_seeds_size template_data = Ensures-bind _ _ λ value _.
      Ensures-bind (as_string value) _ λ hex _.
        Ensures-bind (require (length hex == 64) (runtime_error "Invalid randomxseedhash length")) _
          λ _ full. Ensures-bind (hex_to_bytes hex) _ λ seed_hash read.
            Ensures-bind (is_member template_data "randomxnextseedhash") _ λ has_next _.
              with_next seed_hash (hex_to_bytes_half hex 32 read (ground (arith, full))) has_next
    where
      with_next :
          (seed_hash : Bytes)
          → length seed_hash ≡ 32
          → (has_next : Bool)
          → Ensures AreSeeds (
              (if has_next then read_next_seed json template_data else ok []) >>= λ next_seed_hash.
              ok (seed_hash, next_seed_hash))
      with_next seed_hash size true =
          Ensures-bind (read_next_seed json template_data) _
            λ next e. returns (size, Ensures-eq-ok (read_next_seed_size template_data) e)
      with_next seed_hash size false = returns (size, inl refl)

-- A template that the miner can work on: 32-byte seeds, where there is a next one, the target of the
-- bits, and a header of 140 bytes made of the other fields.
pub record IsMinable (bt : BlockTemplate) : Type 0 where
  pub seed_size : length bt.seed_hash ≡ 32
  pub next_seed_size : (bt.next_seed_hash ≡ []) ⊎ (length bt.next_seed_hash ≡ 32)
  pub bits_range : bt.bits < 2 ^ 32
  pub target : bt.target ≡ compact_to_target bt.bits
  pub header :
      (prev merkle commitments : Bytes) × (hex_to_bytes bt.previous_block_hash ≡ ok prev)
      × (hex_to_bytes bt.merkle_root ≡ ok merkle)
      × (hex_to_bytes bt.block_commitments_hash ≡ ok commitments)
      × (bt.header_base ≡ header_layout bt.version prev merkle commitments bt.time bt.bits)
      × (length bt.header_base ≡ 140)

parse_block_template-Ensures :
    (json : Json) (template_data : json.Value)
    → Ensures IsMinable (parse_block_template json template_data)
unfolding parse_block_template
parse_block_template-Ensures json template_data =
    Ensures-bind (need json template_data "version" "Missing version in block template") _ λ v1 _.
      Ensures-bind (json.as_uint v1) _ λ version _.
        Ensures-bind
          (need json template_data "previousblockhash"
            "Missing previousblockhash in block template")
          _
          λ v2 _. Ensures-bind (json.as_string v2) _ λ previous _.
            Ensures-bind (need json template_data "curtime" "Missing curtime in block template") _
              λ v3 _. Ensures-bind (json.as_uint v3) _ λ time _.
                Ensures-bind (need json template_data "bits" "Missing bits in block template") _
                  λ v4 _. Ensures-bind (json.as_string v4) _ λ bits_hex _.
                    Ensures-bind (stoul16 bits_hex) _ λ bits_long _.
                      Ensures-bind
                        (need json template_data "height" "Missing height in block template") _
                        λ v5 _. Ensures-bind (json.as_uint v5) _ λ height _.
                          Ensures-bind
                            (need json template_data "randomxseedheight"
                              "Missing randomxseedheight in block template")
                            _
                            λ v6 _. Ensures-bind (json.as_uint64 v6) _ λ seed_height _.
                              Ensures-bind (read_seeds json template_data) _ λ seeds seeds_read.
                                Ensures-bind (read_target_hex json template_data) _ λ target_hex _.
                                  Ensures-bind (read_merkle_root json template_data) _
                                    λ merkle_root _.
                                      Ensures-bind (read_commitments json template_data) _
                                        λ commitments _.
                                          Ensures-bind (read_coinbase json template_data) _
                                            λ coinbase _.
                                              Ensures-bind (read_transactions json template_data) _
                                                λ txn_hex _.
                                                  Ensures-bind
                                                    (build_header version previous merkle_root
                                                      commitments time (bits_long % 2 ^ 32))
                                                    _
                                                    λ header_base built.
                                                      let (seed_size, next_size) =
                                                        Ensures-eq-ok
                                                          (read_seeds_size json template_data)
                                                          seeds_read in
                                                      returns (record {
                                                        seed_size = seed_size;
                                                        next_seed_size = next_size;
                                                        bits_range = omega arith;
                                                        target = refl;
                                                        header =
                                                            build_header-eq-ok version previous
                                                            merkle_root commitments time
                                                            (bits_long % 2 ^ 32) header_base built;
                                                      })

-- Whatever JsonCpp returns, a template that is parsed without an exception has a 32-byte seed hash, a next
-- seed hash of 32 bytes or none, the target of its bits, and a header of 140 bytes that is the layout of
-- its version, its three hashes, reversed, its time and its bits.
pub parse_block_template-IsMinable :
    (json : Json) (template_data : json.Value) (bt : BlockTemplate)
    → parse_block_template json template_data ≡ ok bt
    → IsMinable bt
parse_block_template-IsMinable json template_data bt e =
    Ensures-eq-ok (parse_block_template-Ensures json template_data) e
