-- ===== src/Utils/Target.antt =====
-- src/utils.cpp: `compact_to_target`, `hash_meets_target` and `hash_meets_target_hex`.
pub mod Compact
pub mod Compare
mod Tests
use juno_miner.Base.{
  ℕ, zero, suc, ◌+◌, ◌-◌, ◌*◌, ◌/◌, ◌^◌, Bool, true, false, ltb, leb, if◌then◌else◌, set, drop,
  replicate, Bytes, Outcome, ◌>>=◌, ◌>>◌, ok,
}
use Prim.Native.Nat.{bit_and}
use juno_miner.Utils.Endian.{read_le32}
use juno_miner.Utils.Hex.{hex_to_bytes}

-- `(word >> k) & 0xff`
abbrev pub word_byte : ℕ → ℕ → ℕ
word_byte word k = bit_and (word / 2 ^ k) 0xff

-- `for (int i = 0; i < 3 && i < size; i++)`, with `3 - i` as the counter
unfoldable pub write_low : ℕ → ℕ → ℕ → ℕ → Bytes → Bytes
write_low zero i size word target = target
write_low (suc rounds) i size word target =
    let next = write_low rounds (i + 1) size word (set target i (word_byte word (i * 8))) in
    if ltb i size then next else target

unfoldable pub compact_to_target : ℕ → Bytes
unfolding write_low
compact_to_target bits =
    let size = bits / 2 ^ 24 in
    let word = bit_and bits 0x007fffff in
    let target = replicate 32 0 in
    if leb size 3
    then write_low 3 0 size (word / 2 ^ (8 * (3 - size))) target
    else if leb size 32
    then set (set (set target (size - 3) (word_byte word 0)) (size - 3 + 1) (word_byte word 8))
        (size - 3 + 2) (word_byte word 16)
    else target

-- The returns in the loop's body; `rest` is the next round.
abbrev pub verdict : ℕ → ℕ → Outcome Bool → Outcome Bool
verdict hash_word target_word rest =
    if ltb hash_word target_word
    then ok true
    else if ltb target_word hash_word
    then ok false
    else rest

-- `for (int word = 7; word >= 0; word--)`, with `word + 1` as the counter
unfoldable pub compare_words : ℕ → Bytes → Bytes → Outcome Bool
compare_words zero hash target = ok true
compare_words (suc word) hash target =
    let rest = compare_words word hash target in
    do
      hash_word ← read_le32 (drop (word * 4) hash)
      target_word ← read_le32 (drop (word * 4) target)
      verdict hash_word target_word rest

unfoldable pub hash_meets_target : Bytes → Bytes → Outcome Bool
unfolding compare_words
hash_meets_target hash target = compare_words 8 hash target

pub hash_meets_target_hex : Bytes → Bytes → Outcome Bool
hash_meets_target_hex hash target_hex = do
  target ← hex_to_bytes target_hex
  hash_meets_target hash target
