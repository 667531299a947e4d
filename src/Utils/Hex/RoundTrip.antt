-- ===== src/Utils/Hex/RoundTrip.antt =====
-- Bytes to hexadecimal text and back.
use juno_miner.Base.{
  ℕ, zero, suc, ◌+◌, ◌-◌, ◌*◌, ◌≤◌, ◌<◌, ◌≡◌, refl, sym, ap, subst, Bool, true, false, ◌&&◌, ◌||◌,
  none, some, [], ◌∷◌, ◌++◌, append-nil, arith, leb, ◌==◌, if◌then◌else◌, length, take, All,
  take-length, IsByte, Bytes, Outcome, ok, throws, undefined,
}
use juno_miner.Utils.Numbers.{hex_value, stoi16_u8}
use mathlib.Core.List.{reverse, reverse-append}
use juno_miner.Utils.Hex.{load, hex_of_byte, bytes_to_hex, hex_to_bytes, bytes_to_hex_reversed}

-- Every byte, by evaluation
holds_up_to : (ℕ → Bool) → ℕ → Bool
holds_up_to test zero = true
holds_up_to test (suc bound) = holds_up_to test bound && test bound

holds_up_to-lt :
    (test : ℕ → Bool) (bound : ℕ)
    → holds_up_to test bound ≡ true
    → (value : ℕ) → value < bound
    → test value ≡ true
unfolding holds_up_to
holds_up_to-lt test (suc bound) all value below = ground (holds_up_to-lt test bound _ value, arith)
holds_up_to-lt test zero all value below = absurd (omega arith)

is_ok : ℕ → Outcome ℕ → Bool
is_ok n (ok m) = n == m
is_ok n (throws e) = false
is_ok n undefined = false

is_ok→eq : (n : ℕ) (r : Outcome ℕ) → is_ok n r ≡ true → r ≡ ok n
unfolding is_ok
is_ok→eq n (ok m) h = ground arith
is_ok→eq n (throws e) h = cc
is_ok→eq n undefined h = cc

pair_table : holds_up_to (λ b. is_ok b (stoi16_u8 (hex_of_byte b))) 256 ≡ true
unfolding holds_up_to is_ok stoi16_u8
pair_table = refl

stoi16_u8-hex_of_byte : (b : ℕ) → b < 256 → stoi16_u8 (hex_of_byte b) ≡ ok b
stoi16_u8-hex_of_byte b h =
    is_ok→eq b _ (holds_up_to-lt (λ c. is_ok c (stoi16_u8 (hex_of_byte c))) 256 pair_table b h)

-- Two digits of a text for each byte, highest digit first
abbrev pub hex_of : Bytes → Bytes
hex_of [] = []
hex_of (b ∷ bs) = hex_of_byte b ++ hex_of bs

pub hex_of-append : (xs ys : Bytes) → hex_of (xs ++ ys) ≡ hex_of xs ++ hex_of ys
hex_of-append [] ys = refl
hex_of-append (x ∷ xs) ys = rw (hex_of-append xs ys)

pub length-hex_of : (bs : Bytes) → length (hex_of bs) ≡ 2 * length bs
length-hex_of [] = omega arith
length-hex_of (b ∷ bs) = omega (arith, length-hex_of bs)

pub bytes_to_hex-hex_of : (bs more : Bytes) → bytes_to_hex (bs ++ more) (length bs) ≡ ok (hex_of bs)
unfolding bytes_to_hex
bytes_to_hex-hex_of [] more = refl
bytes_to_hex-hex_of (b ∷ bs) more = rw (bytes_to_hex-hex_of bs more)

pub hex_to_bytes-hex_of : (bs : Bytes) → All IsByte bs → hex_to_bytes (hex_of bs) ≡ ok bs
unfolding hex_to_bytes
hex_to_bytes-hex_of [] v = refl
hex_to_bytes-hex_of (b ∷ bs) (h, v) = rw (stoi16_u8-hex_of_byte b h, hex_to_bytes-hex_of bs v)

-- The text of an array of bytes has two characters for each, and reads back as the same bytes.
pub hex_to_bytes-bytes_to_hex :
    (bs : Bytes)
    → All IsByte bs
    → (hex : Bytes) × (bytes_to_hex bs (length bs) ≡ ok hex)
      × (length hex ≡ 2 * length bs)
      × (hex_to_bytes hex ≡ ok bs)
hex_to_bytes-bytes_to_hex bs v = (
  hex_of bs,
  subst (λ (m : Bytes). bytes_to_hex m (length bs) ≡ ok (hex_of bs)) (append-nil bs)
      (bytes_to_hex-hex_of bs []),
  length-hex_of bs,
  hex_to_bytes-hex_of bs v,
)

-- A lower-case hexadecimal digit
unfoldable pub is_lower_hex : ℕ → Bool
is_lower_hex c = (leb b'0' c && leb c b'9') || (leb b'a' c && leb c b'f')

-- A character that `hex_value` knows
abbrev pub is_hex_digit : ℕ → Bool
is_hex_digit c = elim (hex_value c) [ none ↦ false | some _ ↦ true ]

abbrev digit : ℕ → ℕ
digit c = if leb c b'9' then c - b'0' else c - b'a' + 10

pair_digits :
    (c d : ℕ)
    → is_lower_hex c ≡ true
    → is_lower_hex d ≡ true
    → (digit c * 16 + digit d < 256) × (c ∷ d ∷ [] ≡ hex_of_byte (digit c * 16 + digit d))
unfolding is_lower_hex
pair_digits c d hc hd = ground arith

-- Texts of an even number of lower-case digits
abbrev pub IsHexText : Bytes → Type 0
IsHexText [] = Unit {0}
IsHexText (c ∷ []) = ⊥
IsHexText (c ∷ d ∷ hex) = (is_lower_hex c ≡ true) × (is_lower_hex d ≡ true) × IsHexText hex

hex_of-surjective : (hex : Bytes) → IsHexText hex → (bs : Bytes) × All IsByte bs × (hex ≡ hex_of bs)
hex_of-surjective [] v = ([], tt, refl)
hex_of-surjective (c ∷ []) v = absurd v
hex_of-surjective (c ∷ d ∷ hex) (hc, hd, v) =
    let (bs, ok_bs, e) = hex_of-surjective hex v in
    let (small, pair) = pair_digits c d hc hd in
    (
      (digit c * 16 + digit d) ∷ bs,
      (small, ok_bs),
      rw (e) (ap (λ (t : Bytes). t ++ hex_of bs) pair),
    )

-- A text of an even number of lower-case digits is read without an exception, and prints back.
pub bytes_to_hex-hex_to_bytes :
    (hex : Bytes)
    → IsHexText hex
    → (bs : Bytes) × (hex_to_bytes hex ≡ ok bs)
      × All IsByte bs
      × (bytes_to_hex bs (length bs) ≡ ok hex)
bytes_to_hex-hex_to_bytes hex v =
    let (bs, bytes, e) = hex_of-surjective hex v in
    (
      bs,
      rw e (hex_to_bytes-hex_of bs bytes),
      bytes,
      subst (λ (m : Bytes). bytes_to_hex m (length bs) ≡ ok hex) (append-nil bs)
          (rw e (bytes_to_hex-hex_of bs [])),
    )

take-suc :
    (memory : Bytes) (i : ℕ)
    → i < length memory
    → (b : ℕ) × (load memory i ≡ ok b) × (take (suc i) memory ≡ take i memory ++ b ∷ [])
take-suc [] i h = absurd (omega arith)
take-suc (b ∷ memory) zero h = (b, refl, refl)
take-suc (b ∷ memory) (suc i) h =
    let (c, loaded, e) = take-suc memory i (omega arith) in (c, loaded, ap (◌∷◌ b) e)

pub bytes_to_hex_reversed-take :
    (memory : Bytes) (i : ℕ)
    → i ≤ length memory
    → bytes_to_hex_reversed memory i ≡ ok (hex_of (reverse (take i memory)))
unfolding bytes_to_hex_reversed
bytes_to_hex_reversed-take memory zero h = refl
bytes_to_hex_reversed-take memory (suc i) h =
    let (b, loaded, e) = take-suc memory i h in
    rw (loaded, bytes_to_hex_reversed-take memory i (omega arith), e)
      (rw (reverse-append (take i memory) (b ∷ [])))

-- The reversed text of an array of bytes is the text of the bytes in reverse order.
pub bytes_to_hex_reversed-reverse :
    (bs : Bytes)
    → bytes_to_hex_reversed bs (length bs) ≡ bytes_to_hex (reverse bs) (length (reverse bs))
bytes_to_hex_reversed-reverse bs =
    rw
      (
        bytes_to_hex_reversed-take bs (length bs) (omega arith),
        take-length bs (length bs) (omega arith),
      )
      (subst (λ (m : Bytes). ok (hex_of (reverse bs)) ≡ bytes_to_hex m (length (reverse bs)))
        (append-nil (reverse bs)) (sym (bytes_to_hex-hex_of (reverse bs) [])))

-- A digit followed by any other character is accepted as a byte of one digit: such a text is not refused.
pub hex_to_bytes_lenient :
    (c d : ℕ)
    → is_lower_hex c ≡ true
    → is_hex_digit d ≡ false
    → hex_to_bytes (c ∷ d ∷ []) ≡ ok (digit c ∷ [])
unfolding is_lower_hex hex_to_bytes stoi16_u8 hex_value
hex_to_bytes_lenient c d hc hd = ground arith
