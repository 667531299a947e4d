-- ===== src/Utils/Numbers/Bounds.antt =====
-- The ranges of the conversions.
use juno_miner.Base.{
  ℕ, ◌^◌, ◌<◌, ◌≡◌, Bool, Option, [], ◌∷◌, arith, Bytes, Outcome, ok, throws, invalid_argument,
}
use juno_miner.Utils.Numbers.{
  byte_of_int, unsigned_long, unsigned_of_int, decimal_digits, signed_text, hex_digits, skip_space,
  stoi16_u8, stoul16, atoi_u32,
}

-- Whatever text is read, a number that comes back is one that `f` makes.
signed_text-eq-ok :
    (digits : Bytes → Option ℕ) (f : Bool → ℕ → Outcome ℕ) (bad : Outcome ℕ) (s : Bytes)
    {b bound : ℕ}
    → ((r : ℕ) → bad ≡ ok r → r < bound)
    → ((negative : Bool) (n r : ℕ) → f negative n ≡ ok r → r < bound)
    → signed_text digits f bad s ≡ ok b
    → b < bound
signed_text-eq-ok digits f bad [] hb hf h = hb _ h
signed_text-eq-ok digits f bad (c ∷ cs) hb hf h = grind arith

pub stoi16_u8-lt : (s : Bytes) (b : ℕ) → stoi16_u8 s ≡ ok b → b < 256
unfolding stoi16_u8
stoi16_u8-lt s b h =
    signed_text-eq-ok hex_digits byte_of_int (throws invalid_argument) (skip_space s) (λ r e. cc)
      (λ negative n r e. ground arith) h

pub stoul16-lt : (s : Bytes) (b : ℕ) → stoul16 s ≡ ok b → b < 2 ^ 64
unfolding stoul16
stoul16-lt s b h =
    signed_text-eq-ok hex_digits unsigned_long (throws invalid_argument) (skip_space s) (λ r e. cc)
      (λ negative n r e. ground arith) h

pub atoi_u32-lt : (s : Bytes) (b : ℕ) → atoi_u32 s ≡ ok b → b < 2 ^ 32
unfolding atoi_u32
atoi_u32-lt s b h =
    signed_text-eq-ok decimal_digits unsigned_of_int (ok 0) (skip_space s) (λ r e. ground arith)
      (λ negative n r e. ground arith) h
