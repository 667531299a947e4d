-- ===== src/Utils/Numbers.antt =====
-- The C library's text to number conversions that the sources call: `std::stoi` and `std::stoul` at
-- base 16, and `atoi`. A text is a list of bytes; a number is read as a sign and a magnitude.
pub mod Bounds
mod Tests
use juno_miner.Base.{
  ℕ, ◌+◌, ◌-◌, ◌*◌, ◌%◌, ◌^◌, Bool, true, false, ◌&&◌, ◌||◌, Option, none, some, [], ◌∷◌, ltb, leb,
  ◌==◌, if◌then◌else◌, Bytes, Outcome, ok, throws, undefined, invalid_argument, out_of_range,
}

-- `isspace` in the C locale
unfoldable pub is_space : ℕ → Bool
is_space c = c == b' ' || (leb 9 c && leb c 13)

pub skip_space : Bytes → Bytes
skip_space [] = []
skip_space (c ∷ cs) = if is_space c then skip_space cs else c ∷ cs

unfoldable pub hex_value : ℕ → Option ℕ
hex_value c =
    if leb b'0' c && leb c b'9'
    then some (c - b'0')
    else if leb b'a' c && leb c b'f'
    then some (c - b'a' + 10)
    else if leb b'A' c && leb c b'F'
    then some (c - b'A' + 10)
    else none

unfoldable pub decimal_value : ℕ → Option ℕ
decimal_value c = if leb b'0' c && leb c b'9' then some (c - b'0') else none

-- Digits up to the first other character; `none` until a digit has been read.
pub scan_digits : (ℕ → Option ℕ) → ℕ → Bytes → Option ℕ → Option ℕ
scan_digits value base [] acc = acc
scan_digits value base (c ∷ cs) acc = elim (value c) [
  | none ↦ acc
  | some d ↦ scan_digits value base cs (some (elim acc [ none ↦ d | some a ↦ a * base + d ]))
]

-- "0x" or "0X" is skipped where a hexadecimal digit follows it.
pub skip_prefix : Bytes → Bytes
skip_prefix (z ∷ x ∷ d ∷ cs) =
    if z == b'0' && (x == b'x' || x == b'X')
    then elim (hex_value d) [ none ↦ z ∷ x ∷ d ∷ cs | some _ ↦ d ∷ cs ]
    else z ∷ x ∷ d ∷ cs
skip_prefix cs = cs

abbrev pub signed_text {ℓ} : {A : Type ℓ} → (Bytes → Option ℕ) → (Bool → ℕ → A) → A → Bytes → A
signed_text digits f bad [] = bad
signed_text digits f bad (c ∷ cs) =
    if c == b'-'
    then elim (digits cs) [ none ↦ bad | some n ↦ f true n ]
    else if c == b'+'
    then elim (digits cs) [ none ↦ bad | some n ↦ f false n ]
    else elim (digits (c ∷ cs)) [ none ↦ bad | some n ↦ f false n ]

abbrev pub hex_digits : Bytes → Option ℕ
hex_digits cs = scan_digits hex_value 16 (skip_prefix cs) none

abbrev pub decimal_digits : Bytes → Option ℕ
decimal_digits cs = scan_digits decimal_value 10 cs none

-- The range check of `std::stoi` and the cast of its result to `uint8_t`
abbrev pub byte_of_int : Bool → ℕ → Outcome ℕ
byte_of_int negative n =
    if ltb (if negative then 2 ^ 31 else 2 ^ 31 - 1) n
    then throws out_of_range
    else ok (if negative then (256 - n % 256) % 256 else n % 256)

-- `static_cast<uint8_t>(std::stoi(s, nullptr, 16))`
unfoldable pub stoi16_u8 : Bytes → Outcome ℕ
unfolding skip_space scan_digits skip_prefix is_space hex_value
stoi16_u8 s = signed_text hex_digits byte_of_int (throws invalid_argument) (skip_space s)

-- A minus sign negates modulo 2 ^ 64.
abbrev pub unsigned_long : Bool → ℕ → Outcome ℕ
unsigned_long negative n =
    if leb (2 ^ 64) n
    then throws out_of_range
    else ok (if negative then (2 ^ 64 - n) % 2 ^ 64 else n)

-- `std::stoul(s, nullptr, 16)`
unfoldable pub stoul16 : Bytes → Outcome ℕ
unfolding skip_space scan_digits skip_prefix is_space hex_value
stoul16 s = signed_text hex_digits unsigned_long (throws invalid_argument) (skip_space s)

-- An `int`, converted to `unsigned int`; a value outside `int` is undefined.
abbrev pub unsigned_of_int : Bool → ℕ → Outcome ℕ
unsigned_of_int negative n =
    if ltb (if negative then 2 ^ 31 else 2 ^ 31 - 1) n
    then undefined
    else ok (if negative then (2 ^ 32 - n) % 2 ^ 32 else n)

-- `atoi(s)` assigned to an `unsigned int`: 0 for a text with no number
unfoldable pub atoi_u32 : Bytes → Outcome ℕ
unfolding skip_space scan_digits is_space decimal_value
atoi_u32 s = signed_text decimal_digits unsigned_of_int (ok 0) (skip_space s)

-- The sign and the magnitude of the number that `sscanf(s, "%d", ...)` and `stream >> n` find, if any
unfoldable pub scan_int : Bytes → Option (Bool × ℕ)
unfolding skip_space scan_digits is_space decimal_value
scan_int s = signed_text decimal_digits (λ negative n. some (negative, n)) none (skip_space s)
