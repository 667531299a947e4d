-- ===== src/Utils/Hex.antt =====
-- src/utils.cpp: `bytes_to_hex`, `bytes_to_hex_reversed` and `hex_to_bytes`.
pub mod RoundTrip
mod Tests
use juno_miner.Base.{
  ℕ, zero, suc, ◌+◌, ◌-◌, ◌/◌, ◌%◌, none, some, [], ◌∷◌, ◌++◌, ltb, if◌then◌else◌, get_elem?, Bytes,
  Outcome, ◌>>=◌, ◌>>◌, ok, undefined,
}
use juno_miner.Utils.Numbers.{stoi16_u8}

-- The digit that `std::hex` prints
abbrev pub hex_digit : ℕ → ℕ
hex_digit n = if ltb n 10 then n + b'0' else n - 10 + b'a'

-- `oss << std::hex << std::setw(2) << std::setfill('0') << (int)b` for a byte `b`
abbrev pub hex_of_byte : ℕ → Bytes
hex_of_byte b = hex_digit (b / 16) ∷ hex_digit (b % 16) ∷ []

unfoldable pub bytes_to_hex : Bytes → ℕ → Outcome Bytes
bytes_to_hex memory zero = ok []
bytes_to_hex [] (suc len) = undefined
bytes_to_hex (b ∷ memory) (suc len) = do rest ← bytes_to_hex memory len; ok (hex_of_byte b ++ rest)

-- `data[i]`
abbrev pub load : Bytes → ℕ → Outcome ℕ
load memory i = elim (get_elem? memory i) [ none ↦ undefined | some b ↦ ok b ]

-- `for (int i = len - 1; i >= 0; i--)`, with `i + 1` as the counter
unfoldable pub bytes_to_hex_reversed : Bytes → ℕ → Outcome Bytes
bytes_to_hex_reversed memory zero = ok []
bytes_to_hex_reversed memory (suc i) = do
  b ← load memory i
  rest ← bytes_to_hex_reversed memory i
  ok (hex_of_byte b ++ rest)

-- `hex.substr(i, 2)` is one character where the length is odd.
unfoldable pub hex_to_bytes : Bytes → Outcome Bytes
hex_to_bytes [] = ok []
hex_to_bytes (c ∷ []) = do b ← stoi16_u8 (c ∷ []); ok (b ∷ [])
hex_to_bytes (c ∷ d ∷ hex) = do b ← stoi16_u8 (c ∷ d ∷ []); rest ← hex_to_bytes hex; ok (b ∷ rest)
