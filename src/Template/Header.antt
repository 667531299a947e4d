-- ===== src/Template/Header.antt =====
-- The layout of the header that `build_header` makes.
use juno_miner.Base.{
  ℕ, zero, suc, ◌+◌, ◌≡◌, refl, sym, ap, ◌∙◌, subst, [], ◌∷◌, ◌++◌, append_assoc, append-nil, arith,
  ◌==◌, length, drop, replicate, length-append, drop-append, take-append, Bytes, Outcome, require,
  ◌>>=◌, >>=-eq-ok, require-eq-ok, ok-injective, ok, runtime_error,
}
use Prim.Native.String.{String}
use mathlib.Core.List.{reverse, reverse-cons}
use juno_miner.Utils.Endian.{byte_at, write_le32}
use juno_miner.Utils.Hex.{hex_to_bytes}
use juno_miner.Miner.Nonce.{copy_at}
use juno_miner.Template.{write_word, copy_hash, build_header}

-- Four bytes, lowest first
abbrev pub le32 : ℕ → Bytes
le32 value = byte_at value 0 ∷ byte_at value 8 ∷ byte_at value 16 ∷ byte_at value 24 ∷ []

drop-replicate : (k n m : ℕ) → k ≡ n + m → drop n (replicate k zero) ≡ replicate m zero
drop-replicate k zero m e = ap (λ (t : ℕ). replicate t zero) (omega arith)
drop-replicate zero (suc n) m e = absurd (omega arith)
drop-replicate (suc k) (suc n) m e = drop-replicate k n m (omega arith)

drop-prefix :
    (p : Bytes) (k n m i : ℕ)
    → k ≡ n + m
    → i ≡ length p + n
    → drop i (p ++ replicate k zero) ≡ replicate m zero
drop-prefix [] k n m i e f = drop-replicate k i m (omega arith)
drop-prefix (x ∷ p) k n m zero e f = absurd (omega arith)
drop-prefix (x ∷ p) k n m (suc i) e f = drop-prefix p k n m i e (omega arith)

-- A copy behind what is written takes the place of as many zeros.
copy_at-fill :
    (p bytes : Bytes) (k m offset : ℕ)
    → offset ≡ length p
    → k ≡ length bytes + m
    → copy_at (p ++ replicate k zero) offset bytes ≡ (p ++ bytes) ++ replicate m zero
copy_at-fill p bytes k m offset e f =
    rw
      (
        take-append p (replicate k zero) offset e,
        drop-prefix p k (length bytes) m (offset + length bytes) f (omega arith),
      )
      (sym (append_assoc p bytes (replicate m zero)))

write_word-fill :
    (p : Bytes) (m offset value : ℕ)
    → offset ≡ length p
    → write_word (p ++ replicate (suc (suc (suc (suc m)))) zero) offset value
      ≡ ok ((p ++ le32 value) ++ replicate m zero)
unfolding write_le32
write_word-fill p m offset value e =
    rw
      (
        drop-append p (replicate (suc (suc (suc (suc m)))) zero) offset e,
        take-append p (replicate (suc (suc (suc (suc m)))) zero) offset e,
      )
      (ap ok (sym (append_assoc p (le32 value) (replicate m zero))))

length-reverse : (xs : Bytes) → length (reverse xs) ≡ length xs
length-reverse [] = refl
length-reverse (x ∷ xs) =
    omega
      (arith, ap length (reverse-cons x xs), length-append (reverse xs) (x ∷ []), length-reverse xs)

-- A hash that was read and copied, and the buffer after it
abbrev Copied : Bytes → ℕ → Bytes → Bytes → Type 0
Copied p m hex buffer =
    (bytes : Bytes) × (hex_to_bytes hex ≡ ok bytes)
    × (length bytes ≡ 32)
    × (buffer ≡ (p ++ reverse bytes) ++ replicate m zero)

copy_hash-eq-ok :
    (p : Bytes) (k m offset : ℕ) (hex : Bytes) (message : String) (buffer : Bytes)
    → offset ≡ length p
    → k ≡ 32 + m
    → copy_hash (p ++ replicate k zero) offset hex message ≡ ok buffer
    → Copied p m hex buffer
copy_hash-eq-ok p k m offset hex message buffer e f h =
    let (bytes, read, h') = >>=-eq-ok (hex_to_bytes hex) _ h in
    let (_, checked, h'') = >>=-eq-ok (require (length bytes == 32) (runtime_error message)) _ h' in
    let size : length bytes ≡ 32 =
      ground (arith, require-eq-ok (length bytes == 32) (runtime_error message)) in
    (
      bytes,
      read,
      size,
      ground (
        arith,
        copy_at-fill p (reverse bytes) k m offset e (omega (arith, length-reverse bytes)),
      ),
    )

-- What stands between the parts of a header, from the time on, for what is written before it
time_layout : Bytes → ℕ → ℕ → Bytes
time_layout p time bits = p ++ (le32 time ++ (le32 bits ++ replicate 32 0))

-- The serialization that the daemon hashes: version, three hashes in internal order, time and bits
abbrev pub header_layout : ℕ → Bytes → Bytes → Bytes → ℕ → ℕ → Bytes
header_layout version prev merkle commitments time bits =
    le32 version
    ++ (reverse prev
        ++ (reverse merkle
            ++ (reverse commitments ++ (le32 time ++ (le32 bits ++ replicate 32 0)))))

unfolded :
    (v a b c : Bytes) (time bits : ℕ)
    → time_layout (((v ++ a) ++ b) ++ c) time bits
      ≡ v ++ (a ++ (b ++ (c ++ (le32 time ++ (le32 bits ++ replicate 32 0)))))
unfolding time_layout
unfolded v a b c time bits = simp append_assoc

length-time_layout :
    (v a b c : Bytes) (time bits : ℕ)
    → length a ≡ 32
    → length b ≡ 32
    → length c ≡ 32
    → length (time_layout (((v ++ reverse a) ++ reverse b) ++ reverse c) time bits) ≡ length v + 136
unfolding time_layout
length-time_layout v a b c time bits la lb lc =
    let rest = le32 time ++ (le32 bits ++ replicate 32 0) in
    omega (
      arith,
      length-append (((v ++ reverse a) ++ reverse b) ++ reverse c) rest,
      length-append ((v ++ reverse a) ++ reverse b) (reverse c),
      length-append (v ++ reverse a) (reverse b),
      length-append v (reverse a),
      length-reverse a,
      length-reverse b,
      length-reverse c,
    )

module _ (time bits : ℕ) (header : Bytes) where
  -- The stages of `build_header`, from the last one back
  abbrev bits_stage : Bytes → Outcome Bytes
  bits_stage buffer = do
    with_bits ← write_word buffer 104 bits
    ok (copy_at with_bits 108 (replicate 32 zero))

  abbrev time_stage : Bytes → Outcome Bytes
  time_stage buffer = do with_time ← write_word buffer 100 time; bits_stage with_time

  abbrev commitments_stage : Bytes → Bytes → Outcome Bytes
  commitments_stage hex buffer = do
    with_commitments ← copy_hash buffer 68 hex "Invalid blockcommitmentshash size"
    time_stage with_commitments

  abbrev merkle_stage : Bytes → Bytes → Bytes → Outcome Bytes
  merkle_stage merkle_hex commitments_hex buffer = do
    with_merkle ← copy_hash buffer 36 merkle_hex "Invalid merkleroot size"
    commitments_stage commitments_hex with_merkle

  bits_stage-eq-ok :
      (p : Bytes)
      → length p ≡ 104
      → bits_stage (p ++ replicate 36 zero) ≡ ok header
      → header ≡ p ++ (le32 bits ++ replicate 32 zero)
  bits_stage-eq-ok p len h =
      ok-injective (
        sym h
        ∙ ap (λ (r : Outcome Bytes). r >>= λ b. ok (copy_at b 108 (replicate 32 zero)))
            (write_word-fill p 32 104 bits (sym len))
        ∙ ap ok (
            copy_at-fill (p ++ le32 bits) (replicate 32 zero) 32 0 108
              (omega (arith, length-append p (le32 bits))) refl))
      ∙ simp (append-nil, append_assoc)

  time_stage-eq-ok :
      (p : Bytes)
      → length p ≡ 100
      → time_stage (p ++ replicate 40 zero) ≡ ok header
      → header ≡ time_layout p time bits
  unfolding time_layout
  time_stage-eq-ok p len h =
      bits_stage-eq-ok (p ++ le32 time) (omega (arith, length-append p (le32 time))) (
        sym (ap (λ (r : Outcome Bytes). r >>= bits_stage) (write_word-fill p 36 100 time (sym len)))
        ∙ h)
      ∙ append_assoc p (le32 time) (le32 bits ++ replicate 32 zero)

  -- The stage of a hash: the text decodes to 32 bytes, and the next stage goes on behind them.
  hash_stage-eq-ok :
      (p : Bytes) (k m offset : ℕ) (hex : Bytes) (message : String) (next : Bytes → Outcome Bytes)
      → length p ≡ offset
      → k ≡ 32 + m
      → (copy_hash (p ++ replicate k zero) offset hex message >>= next) ≡ ok header
      → (bytes : Bytes) × (hex_to_bytes hex ≡ ok bytes)
        × (length bytes ≡ 32)
        × (length (p ++ reverse bytes) ≡ offset + 32)
        × (next ((p ++ reverse bytes) ++ replicate m zero) ≡ ok header)
  hash_stage-eq-ok p k m offset hex message next len e h =
      let (buffer, copied, h') =
        >>=-eq-ok (copy_hash (p ++ replicate k zero) offset hex message) next h in
      let (bytes, read, size, same) =
        copy_hash-eq-ok p k m offset hex message buffer (sym len) e copied in
      (
        bytes,
        read,
        size,
        length-append p (reverse bytes) ∙ omega (arith, length-reverse bytes),
        subst (λ (b : Bytes). next b ≡ ok header) same h',
      )

  commitments_stage-eq-ok :
      (p hex : Bytes)
      → length p ≡ 68
      → commitments_stage hex (p ++ replicate 72 zero) ≡ ok header
      → (bytes : Bytes) × (hex_to_bytes hex ≡ ok bytes)
        × (length bytes ≡ 32)
        × (header ≡ time_layout (p ++ reverse bytes) time bits)
  commitments_stage-eq-ok p hex len h =
      let (bytes, read, full, size, next) =
        hash_stage-eq-ok p 72 40 68 hex "Invalid blockcommitmentshash size" time_stage len refl h in
      (bytes, read, full, time_stage-eq-ok (p ++ reverse bytes) size next)

  merkle_stage-eq-ok :
      (p merkle_hex commitments_hex : Bytes)
      → length p ≡ 36
      → merkle_stage merkle_hex commitments_hex (p ++ replicate 104 zero) ≡ ok header
      → (merkle commitments : Bytes) × (hex_to_bytes merkle_hex ≡ ok merkle)
        × (hex_to_bytes commitments_hex ≡ ok commitments)
        × (length merkle ≡ 32)
        × (length commitments ≡ 32)
        × (header ≡ time_layout ((p ++ reverse merkle) ++ reverse commitments) time bits)
  merkle_stage-eq-ok p merkle_hex commitments_hex len h =
      let (merkle, read, full, size, next) =
        hash_stage-eq-ok p 104 72 36 merkle_hex "Invalid merkleroot size"
          (commitments_stage commitments_hex) len refl h in
      let (commitments, reads, full_too, e) =
        commitments_stage-eq-ok (p ++ reverse merkle) commitments_hex size next in
      (merkle, commitments, read, reads, full, full_too, e)

-- A header that is built consists of the version, the three hashes in reverse order of their texts, the
-- time and the bits, as little-endian words, and 32 zeros for the nonce; that is 140 bytes.
pub build_header-eq-ok :
    (version : ℕ) (prev_hex merkle_hex commitments_hex : Bytes) (time bits : ℕ) (header : Bytes)
    → build_header version prev_hex merkle_hex commitments_hex time bits ≡ ok header
    → (prev merkle commitments : Bytes) × (hex_to_bytes prev_hex ≡ ok prev)
      × (hex_to_bytes merkle_hex ≡ ok merkle)
      × (hex_to_bytes commitments_hex ≡ ok commitments)
      × (header ≡ header_layout version prev merkle commitments time bits)
      × (length header ≡ 140)
unfolding build_header time_layout
build_header-eq-ok version prev_hex merkle_hex commitments_hex time bits header h =
    let stage = merkle_stage time bits header merkle_hex commitments_hex in
    let (prev, r2, full, l2, h2) =
      hash_stage-eq-ok time bits header (le32 version) 136 104 4 prev_hex
        "Invalid previousblockhash size" stage refl refl
        (sym (
            ap
              (λ (r : Outcome Bytes).
                r >>= λ b. copy_hash b 4 prev_hex "Invalid previousblockhash size" >>= stage)
              (write_word-fill [] 136 0 version refl))
          ∙ h) in
    let (merkle, commitments, r3, r4, full3, full4, e) =
      merkle_stage-eq-ok time bits header (le32 version ++ reverse prev) merkle_hex commitments_hex
        l2 h2 in
    (
      prev,
      merkle,
      commitments,
      r2,
      r3,
      r4,
      e ∙ unfolded (le32 version) (reverse prev) (reverse merkle) (reverse commitments) time bits,
      ap length e
          ∙ length-time_layout (le32 version) prev merkle commitments time bits full full3 full4,
    )
