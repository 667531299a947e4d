-- ===== src/Utils/Target/Compare.antt =====
-- The comparison of words from the highest down is the comparison of the 256-bit numbers.
use juno_miner.Base.{
  ℕ, zero, suc, ◌+◌, ◌*◌, ◌^◌, ◌≤◌, ◌<◌, ◌≡◌, refl, ap, ◌∙◌, subst, true, false, [], ◌∷◌, ◌++◌,
  arith, ltb, leb, if◌then◌else◌, length, take, drop, All, length-take, length-drop, take-length,
  IsByte, Bytes, le_value, le_value-append, le_value-lt, ok,
}
use mathlib.Core.Path.{ap₂}
use juno_miner.Utils.Endian.RoundTrip.{read_le32-le_value}
use juno_miner.Utils.Target.{compare_words, hash_meets_target}

All-drop : (n : ℕ) (xs : Bytes) → All IsByte xs → All IsByte (drop n xs)
All-drop zero xs v = v
All-drop (suc n) [] v = tt
All-drop (suc n) (x ∷ xs) (h, v) = All-drop n xs v

pub All-take : (n : ℕ) (xs : Bytes) → All IsByte xs → All IsByte (take n xs)
All-take zero xs v = tt
All-take (suc n) [] v = tt
All-take (suc n) (x ∷ xs) (h, v) = (h, All-take n xs v)

prefix-lt : (n : ℕ) (xs : Bytes) → All IsByte xs → n ≤ length xs → le_value (take n xs) < 256 ^ n
prefix-lt n xs v h =
    subst (λ (t : ℕ). le_value (take n xs) < 256 ^ t) (omega (arith, length-take n xs))
      (le_value-lt (take n xs) (All-take n xs v))

take-add : (n m k : ℕ) (xs : Bytes) → k ≡ n + m → take k xs ≡ take n xs ++ take m (drop n xs)
take-add zero m k xs e = ap (λ (t : ℕ). take t xs) (omega arith)
take-add (suc n) m zero xs e = absurd (omega arith)
take-add (suc n) zero (suc k) [] e = refl
take-add (suc n) (suc m) (suc k) [] e = refl
take-add (suc n) m (suc k) (x ∷ xs) e = ap (◌∷◌ x) (take-add n m k xs (omega arith))

-- The first words as a number, and the next one above them
le_value-next :
    (n k : ℕ) (xs : Bytes)
    → n ≤ length xs
    → k ≡ n + 4
    → le_value (take k xs) ≡ le_value (take n xs) + 256 ^ n * le_value (take 4 (drop n xs))
le_value-next n k xs h e = rw (take-add n 4 k xs e) (
    le_value-append (take n xs) (take 4 (drop n xs))
    ∙ ap (λ (t : ℕ). le_value (take n xs) + 256 ^ t * le_value (take 4 (drop n xs)))
        (omega (arith, length-take n xs)))

-- Numbers in base `p` compare by the high digit first.
leb_digits :
    (p a b x y : ℕ)
    → a < p
    → b < p
    → leb (a + p * x) (b + p * y) ≡ (if ltb x y then true else if ltb y x then false else leb a b)
leb_digits p a b x y ha hb = ground (arith, above a y x hb ha, above b x y ha hb)
  where
    above : (a x y : ℕ) {b : ℕ} → b < p → a < p → x < y → b + p * x < a + p * y
    above a x y hb ha h = grind arith

compare_words-le_value :
    (n : ℕ) (hash target : Bytes)
    → All IsByte hash
    → All IsByte target
    → n * 4 ≤ length hash
    → n * 4 ≤ length target
    → compare_words n hash target
      ≡ ok (leb (le_value (take (n * 4) hash)) (le_value (take (n * 4) target)))
unfolding compare_words
compare_words-le_value zero hash target vh vt lh lt = refl
compare_words-le_value (suc n) hash target vh vt lh lt =
    rw
      (
        read_le32-le_value (drop (n * 4) hash) (All-drop (n * 4) hash vh)
            (omega (arith, length-drop (n * 4) hash)),
        read_le32-le_value (drop (n * 4) target) (All-drop (n * 4) target vt)
            (omega (arith, length-drop (n * 4) target)),
        compare_words-le_value n hash target vh vt (omega arith) (omega arith),
        le_value-next (n * 4) (suc n * 4) hash (omega arith) (omega arith),
        le_value-next (n * 4) (suc n * 4) target (omega arith) (omega arith),
        leb_digits (256 ^ (n * 4)) (le_value (take (n * 4) hash)) (le_value (take (n * 4) target))
            (le_value (take 4 (drop (n * 4) hash))) (le_value (take 4 (drop (n * 4) target)))
            (prefix-lt (n * 4) hash vh (omega arith)) (prefix-lt (n * 4) target vt (omega arith)),
      )
      (ground arith)

-- On 32-byte arrays the test is `hash ≤ target` between the 256-bit little-endian numbers.
pub hash_meets_target-le :
    (hash target : Bytes)
    → All IsByte hash
    → All IsByte target
    → length hash ≡ 32
    → length target ≡ 32
    → hash_meets_target hash target ≡ ok (leb (le_value hash) (le_value target))
unfolding hash_meets_target
hash_meets_target-le hash target vh vt lh lt =
    compare_words-le_value 8 hash target vh vt (omega arith) (omega arith)
    ∙ ap₂ (λ (h t : Bytes). ok (leb (le_value h) (le_value t))) (take-length hash 32 (omega arith))
        (take-length target 32 (omega arith))
