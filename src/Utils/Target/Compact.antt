-- ===== src/Utils/Target/Compact.antt =====
-- The 256-bit number that a compact target stands for.
use juno_miner.Base.{
  ℕ, zero, suc, ◌+◌, ◌-◌, ◌*◌, ◌/◌, ◌%◌, ◌^◌, ◌≤◌, ◌<◌, ◌≡◌, refl, ap, ◌∙◌, inl, inr, [], ◌∷◌,
  arith, ltb, leb, if◌then◌else◌, Bool-cases, length, set, replicate, length-set, All, IsByte,
  Bytes, le_value,
}
use native.Mathlib.Nat.{pow-suc}
use juno_miner.Base.Bits.{bit_and_mask}
use juno_miner.Utils.Target.{word_byte, write_low, compact_to_target, bit_and}

word_byte-mod : (word k : ℕ) → word_byte word k ≡ word / 2 ^ k % 256
word_byte-mod word k = bit_and_mask 8 (word / 2 ^ k)

pub size_of : ℕ → ℕ
size_of bits = bits / 2 ^ 24

pub mantissa_of : ℕ → ℕ
mantissa_of bits = bits % 2 ^ 23

-- What a compact number means: the mantissa times 256 ^ (size - 3), rounded down, up to 256 bits.
pub compact_value : ℕ → ℕ
unfolding size_of mantissa_of
compact_value bits =
    if leb (size_of bits) 3
    then mantissa_of bits / 2 ^ (8 * (3 - size_of bits))
    else if leb (size_of bits) 32
    then mantissa_of bits * 256 ^ (size_of bits - 3)
    else 0

zeros_value : (n : ℕ) → le_value (replicate n 0) ≡ 0
zeros_value zero = refl
zeros_value (suc n) = omega (arith, zeros_value n)

-- Three bytes written side by side into zeros
three_bytes :
    (n pos i j a b c : ℕ)
    → pos + 3 ≤ n
    → i ≡ pos + 1
    → j ≡ pos + 2
    → le_value (set (set (set (replicate n 0) pos a) i b) j c)
      ≡ 256 ^ pos * (a + 256 * b + 65536 * c)
three_bytes zero pos i j a b c h ei ej = absurd (omega arith)
three_bytes (suc n) pos zero j a b c h ei ej = absurd (omega arith)
three_bytes (suc n) pos (suc i) zero a b c h ei ej = absurd (omega arith)
three_bytes (suc zero) zero (suc i) (suc j) a b c h ei ej = absurd (omega arith)
three_bytes (suc (suc zero)) zero (suc i) (suc j) a b c h ei ej = absurd (omega arith)
three_bytes (suc (suc (suc n))) zero (suc zero) (suc zero) a b c h ei ej = absurd (omega arith)
three_bytes (suc (suc (suc n))) zero (suc zero) (suc (suc zero)) a b c h ei ej =
    omega (arith, zeros_value n)
three_bytes (suc (suc (suc n))) zero (suc zero) (suc (suc (suc j))) a b c h ei ej =
    absurd (omega arith)
three_bytes (suc (suc (suc n))) zero (suc (suc i)) (suc j) a b c h ei ej = absurd (omega arith)
three_bytes (suc n) (suc pos) (suc i) (suc j) a b c h ei ej = omega (
  arith,
  three_bytes n pos i j a b c (omega arith) (omega arith) (omega arith),
  ap (λ (t : ℕ). t * (a + 256 * b + 65536 * c)) (pow-suc 256 pos),
)

low_value :
    (size word : ℕ)
    → size ≤ 3
    → word < 2 ^ (8 * size)
    → le_value (write_low 3 0 size word (replicate 32 0)) ≡ word
unfolding write_low
low_value zero word h w = omega arith
low_value (suc zero) word h w = omega (arith, word_byte-mod word 0)
low_value (suc (suc zero)) word h w = omega (arith, word_byte-mod word 0, word_byte-mod word 8)
low_value (suc (suc (suc zero))) word h w =
    omega (arith, word_byte-mod word 0, word_byte-mod word 8, word_byte-mod word 16)
low_value (suc (suc (suc (suc size)))) word h w = absurd (omega arith)

shifted-lt :
    (size word : ℕ) → size ≤ 3 → word < 2 ^ 23 → word / 2 ^ (8 * (3 - size)) < 2 ^ (8 * size)
shifted-lt zero word h w = omega arith
shifted-lt (suc zero) word h w = omega arith
shifted-lt (suc (suc zero)) word h w = omega arith
shifted-lt (suc (suc (suc zero))) word h w = omega arith
shifted-lt (suc (suc (suc (suc size)))) word h w = absurd (omega arith)

mantissa_bytes :
    (word : ℕ)
    → word < 2 ^ 24
    → word_byte word 0 + 256 * word_byte word 8 + 65536 * word_byte word 16 ≡ word
mantissa_bytes word h =
    omega (arith, word_byte-mod word 0, word_byte-mod word 8, word_byte-mod word 16)

-- The target of a compact number is the 256-bit number that the compact form stands for: the 23-bit
-- mantissa scaled by the size byte, rounded down for sizes below 3, and 0 for sizes above 32.
pub le_value-compact_to_target : (bits : ℕ) → le_value (compact_to_target bits) ≡ compact_value bits
unfolding compact_to_target compact_value
le_value-compact_to_target bits = ground (
  arith,
  bit_and_mask 23 bits,
  low_value (bits / 2 ^ 24) (bits % 2 ^ 23 / 2 ^ (8 * (3 - bits / 2 ^ 24))),
  shifted-lt (bits / 2 ^ 24) (bits % 2 ^ 23),
  three_bytes 32 (bits / 2 ^ 24 - 3) (bits / 2 ^ 24 - 3 + 1) (bits / 2 ^ 24 - 3 + 2)
      (word_byte (bits % 2 ^ 23) 0) (word_byte (bits % 2 ^ 23) 8) (word_byte (bits % 2 ^ 23) 16),
  mantissa_bytes (bits % 2 ^ 23),
  zeros_value 32,
)

All-set : (xs : Bytes) (i v : ℕ) → All IsByte xs → v < 256 → All IsByte (set xs i v)
All-set [] i v h hv = tt
All-set (x ∷ xs) zero v (h, hs) hv = (hv, hs)
All-set (x ∷ xs) (suc i) v (h, hs) hv = (h, All-set xs i v hs hv)

word_byte-lt : (word k : ℕ) → word_byte word k < 256
word_byte-lt word k = omega (arith, word_byte-mod word k)

-- A 32-byte array, as targets and hashes are
abbrev pub IsBytes32 : Bytes → Type 0
IsBytes32 xs = All IsByte xs × (length xs ≡ 32)

IsBytes32-set : (xs : Bytes) (i word k : ℕ) → IsBytes32 xs → IsBytes32 (set xs i (word_byte word k))
IsBytes32-set xs i word k (v, len) = (
  All-set xs i (word_byte word k) v (word_byte-lt word k),
  length-set xs i (word_byte word k) ∙ len,
)

IsBytes32-write_low :
    (rounds i size word : ℕ) (xs : Bytes)
    → IsBytes32 xs
    → IsBytes32 (write_low rounds i size word xs)
unfolding write_low
IsBytes32-write_low zero i size word xs v = v
IsBytes32-write_low (suc rounds) i size word xs v = elim (Bool-cases (ltb i size)) [
  | inl go ↦ rw go (
      IsBytes32-write_low rounds (i + 1) size word (set xs i (word_byte word (i * 8)))
        (IsBytes32-set xs i word (i * 8) v))
  | inr stop ↦ rw stop v
]

-- Every compact number gives a target of 32 bytes.
pub IsBytes32-compact_to_target : (bits : ℕ) → IsBytes32 (compact_to_target bits)
unfolding compact_to_target
IsBytes32-compact_to_target bits =
    let word = bit_and bits 0x007fffff in
    let pos = bits / 2 ^ 24 - 3 in
    let zeros : IsBytes32 (replicate 32 0) = (omega arith, refl) in
    elim (Bool-cases (leb (bits / 2 ^ 24) 3)) [
      | inl low ↦ rw low (
          IsBytes32-write_low 3 0 (bits / 2 ^ 24) (word / 2 ^ (8 * (3 - bits / 2 ^ 24)))
            (replicate 32 0) zeros)
      | inr high ↦ elim (Bool-cases (leb (bits / 2 ^ 24) 32)) [
        | inl fits ↦
            rw (high, fits)
              (IsBytes32-set
                (set (set (replicate 32 0) pos (word_byte word 0)) (pos + 1) (word_byte word 8))
                (pos + 2) word 16
                (IsBytes32-set (set (replicate 32 0) pos (word_byte word 0)) (pos + 1) word 8
                  (IsBytes32-set (replicate 32 0) pos word 0 zeros)))
        | inr big ↦ rw (high, big) zeros
      ]
    ]
