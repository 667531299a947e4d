-- ===== src/Base/Bits.antt =====
-- Masks, shifts and disjoint `|` as arithmetic. `bit_and` and `bit_or` compute at numerals only, so
-- each law is proved from one step of their recursion on binary digits.
use Prim.Native.Nat.{
  ℕ, zero, suc, ◌+◌, ◌-◌, ◌*◌, ◌/◌, ◌%◌, ◌^◌, ◌≤◌, ◌<◌, min, max, bit_and, bit_or, digits,
  bit_and-bitwise, bit_or-bitwise,
}
use mathlib.Core.Path.{◌≡◌, refl, ap}
use native.Mathlib.Omega.{arith}
use native.Mathlib.Nat.{pow-suc, one-le-pow}

module _ (z : ℕ → ℕ) (f : ℕ → ℕ → ℕ) where
  -- Any two bounds on the first number's digits serve alike.
  digits_enough : (x y k l : ℕ) → x ≤ k → x ≤ l → digits z f k x y ≡ digits z f l x y
  digits_enough zero y zero zero g h = refl
  digits_enough zero y (suc k) zero g h = refl
  digits_enough zero y zero (suc l) g h = refl
  digits_enough zero y (suc k) (suc l) g h = refl
  digits_enough (suc x) y k zero g h = absurd (omega arith)
  digits_enough (suc x) y zero (suc l) g h = absurd (omega arith)
  digits_enough (suc x) y (suc k) (suc l) g h =
      omega (digits_enough (suc x / 2) (y / 2) k l (omega arith) (omega arith), arith)

pub bit_or_step : (x y : ℕ) → bit_or x y ≡ max (x % 2) (y % 2) + bit_or (x / 2) (y / 2) * 2
bit_or_step zero y = omega (bit_or-bitwise 0 (y / 2), bit_or-bitwise 0 y, arith)
bit_or_step (suc x) y =
    let half = suc x / 2 in
    let shorter = digits_enough (λ d. d) max half (y / 2) x half (omega arith) (omega arith) in
    omega (shorter, bit_or-bitwise half (y / 2), bit_or-bitwise (suc x) y, arith)

pub bit_and_step : (x y : ℕ) → bit_and x y ≡ min (x % 2) (y % 2) + bit_and (x / 2) (y / 2) * 2
bit_and_step zero y = omega (bit_and-bitwise 0 (y / 2), bit_and-bitwise 0 y, arith)
bit_and_step (suc x) y =
    let half = suc x / 2 in
    let shorter = digits_enough (λ d. zero) min half (y / 2) x half (omega arith) (omega arith) in
    omega (shorter, bit_and-bitwise half (y / 2), bit_and-bitwise (suc x) y, arith)

zero-bit_or : (b : ℕ) → bit_or 0 b ≡ b
zero-bit_or b = bit_or-bitwise 0 b

bit_and-zero_below : (x k : ℕ) → x ≤ k → bit_and x 0 ≡ 0
bit_and-zero_below zero k h = refl
bit_and-zero_below (suc x) zero h = absurd (omega arith)
bit_and-zero_below (suc x) (suc k) h =
    omega (bit_and-zero_below (suc x / 2) k (omega arith), bit_and_step (suc x) 0, arith)

scaled_up : (k q : ℕ) → q * 2 ^ suc k ≡ q * 2 ^ k + q * 2 ^ k
scaled_up k q = omega (ap (λ (t : ℕ). q * t) (pow-suc 2 k), arith)

-- A field of `k` low bits joined with a number shifted above them.
pub bit_or-add : (k r q : ℕ) → r < 2 ^ k → bit_or r (q * 2 ^ k) ≡ r + q * 2 ^ k
bit_or-add zero r q h = ground (arith, zero-bit_or q)
bit_or-add (suc k) r q h = omega (
  arith,
  pow-suc 2 k,
  bit_or_step r (q * 2 ^ suc k),
  scaled_up k q,
  ap (λ (t : ℕ). bit_or (r / 2) t) (halved k q),
  bit_or-add k (r / 2) q (omega (arith, pow-suc 2 k)),
)
  where
    halved : (k q : ℕ) → q * 2 ^ suc k / 2 ≡ q * 2 ^ k
    halved k q = omega (arith, scaled_up k q)

bit_and-mask_field : (k q r : ℕ) → r < 2 ^ k → bit_and (q * 2 ^ k + r) (2 ^ k - 1) ≡ r
bit_and-mask_field zero q r h =
    omega (bit_and-zero_below (q * 2 ^ 0 + r) (q * 2 ^ 0 + r) (omega arith), arith)
bit_and-mask_field (suc k) q r h =
    let smaller = bit_and-mask_field k q (r / 2) (omega (arith, pow-suc 2 k)) in
    ground (
      smaller,
      one-le-pow k 2,
      bit_and_step (q * 2 ^ suc k + r) (2 ^ suc k - 1),
      pow-suc 2 k,
      scaled_up k q,
      arith,
    )

-- A mask of `k` low ones takes the remainder by 2 ^ k.
pub bit_and_mask : (k a : ℕ) → bit_and a (2 ^ k - 1) ≡ a % 2 ^ k
bit_and_mask k a = ground (bit_and-mask_field k (a / 2 ^ k) (a % 2 ^ k), one-le-pow k 2, arith)

bit_and-high_field :
    (k q r m : ℕ) → r < 2 ^ k → bit_and (q * 2 ^ k + r) (m * 2 ^ k) ≡ bit_and q m * 2 ^ k
bit_and-high_field zero q r m h = ground arith
bit_and-high_field (suc k) q r m h = ground (
  arith,
  bit_and_step (q * 2 ^ suc k + r) (m * 2 ^ suc k),
  scaled_up k q,
  scaled_up k m,
  scaled_up k (bit_and q m),
  pow-suc 2 k,
  bit_and-high_field k q (r / 2) m (omega (arith, pow-suc 2 k)),
)

-- A mask that is zero on the `k` low bits clears them.
pub bit_and_high : (k a m : ℕ) → bit_and a (m * 2 ^ k) ≡ bit_and (a / 2 ^ k) m * 2 ^ k
bit_and_high k a m = ground (arith, one-le-pow k 2, bit_and-high_field k (a / 2 ^ k) (a % 2 ^ k) m)
