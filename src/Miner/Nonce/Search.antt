-- ===== src/Miner/Nonce/Search.antt =====
-- The nonces that one worker tries, as 256-bit numbers.
use juno_miner.Base.{
  ℕ, zero, suc, ◌+◌, ◌%◌, ◌^◌, ◌≤◌, ◌<◌, ◌≡◌, refl, sym, ap, ◌∙◌, subst, ◌≢◌, ◌⊎◌, inl, inr, some,
  [], ◌∷◌, ◌++◌, append-nil, arith, length, set, take, drop, replicate, length-append, length-set,
  All, length-take, length-drop, take-append, IsByte, Bytes, le_value, le_value-lt,
}
use native.Mathlib.Nat.{pow-suc}
use native.Mathlib.Decide.{ℕ_discrete}
use juno_miner.Miner.Nonce.{start_nonce, increment, hash_input}

pub increment-IsByte :
    (nonce : Bytes)
    → All IsByte nonce
    → All IsByte (increment nonce) × (length (increment nonce) ≡ length nonce)
unfolding increment
increment-IsByte [] v = (tt, refl)
increment-IsByte (b ∷ nonce) (h, v) = ground (arith, increment-IsByte nonce v)

-- One round: the number goes up by one, or from all ones to zero.
increment-value :
    (nonce : Bytes)
    → All IsByte nonce
    → ((le_value (increment nonce) ≡ le_value nonce + 1)
        × (le_value nonce + 1 < 256 ^ length nonce))
      ⊎ ((le_value (increment nonce) ≡ 0) × (le_value nonce + 1 ≡ 256 ^ length nonce))
unfolding increment
increment-value [] v = omega arith
increment-value (b ∷ nonce) (h, v) =
    ground (arith, increment-value nonce v, pow-suc 256 (length nonce), le_value-lt nonce v)

-- The nonce after `k` rounds of the search
pub nonce_after : ℕ → Bytes → Bytes
unfolding increment
nonce_after zero nonce = nonce
nonce_after (suc k) nonce = nonce_after k (increment nonce)

-- As long as the 256-bit counter does not run over, after `k` rounds it stands `k` higher, and the nonce
-- still has its length and consists of bytes.
pub nonce_after-add :
    (k : ℕ) (nonce : Bytes)
    → All IsByte nonce
    → le_value nonce + k < 256 ^ length nonce
    → (le_value (nonce_after k nonce) ≡ le_value nonce + k)
      × All IsByte (nonce_after k nonce)
      × (length (nonce_after k nonce) ≡ length nonce)
unfolding nonce_after
nonce_after-add zero nonce v h = (omega arith, v, refl)
nonce_after-add (suc k) nonce v h =
    let (v', len) = increment-IsByte nonce v in
    elim (increment-value nonce v) [
      | inl (e, fits) ↦
          let (value, bytes, same) =
            nonce_after-add k (increment nonce) v' (
              subst (λ (t : ℕ). le_value (increment nonce) + k < 256 ^ t) (sym len)
                (omega arith)) in
          (omega arith, bytes, same ∙ len)
      | inr (e, full) ↦ absurd (omega arith)
    ]

All-set-zero : (xs : Bytes) (i : ℕ) → All IsByte xs → All IsByte (set xs i 0)
All-set-zero [] i v = tt
All-set-zero (x ∷ xs) zero (h, v) = (omega arith, v)
All-set-zero (x ∷ xs) (suc i) (h, v) = (h, All-set-zero xs i v)

cleared-lt :
    (xs : Bytes) (n j : ℕ)
    → length xs ≡ n + 2
    → j ≡ n + 1
    → All IsByte xs
    → le_value (set (set xs n 0) j 0) < 256 ^ n
cleared-lt [] n j len e v = absurd (omega arith)
cleared-lt (x ∷ xs) n zero len e v = absurd (omega arith)
cleared-lt (x ∷ []) zero (suc j) len e v = absurd (omega arith)
cleared-lt (x ∷ y ∷ xs) zero (suc (suc j)) len e v = absurd (omega arith)
cleared-lt (x ∷ y ∷ []) zero (suc zero) len e v = omega arith
cleared-lt (x ∷ y ∷ z ∷ xs) zero (suc zero) len e v = absurd (omega arith)
cleared-lt (x ∷ xs) (suc n) (suc j) len e (h, v) =
    omega (arith, cleared-lt xs n j (omega arith) (omega arith) v, pow-suc 256 n)

-- From 32 random bytes the search starts at a multiple of 2 ^ 16 below 2 ^ 240.
start_nonce_range :
    (random : Bytes)
    → All IsByte random
    → length random ≡ 32
    → All IsByte (start_nonce (some random))
      × (length (start_nonce (some random)) ≡ 32)
      × (le_value (start_nonce (some random)) % 2 ^ 16 ≡ 0)
      × (le_value (start_nonce (some random)) < 2 ^ 240)
unfolding start_nonce
start_nonce_range [] v len = absurd (omega arith)
start_nonce_range (a ∷ []) v len = absurd (omega arith)
start_nonce_range (a ∷ b ∷ rest) (ha, (hb, v)) len = (
  (omega arith, (omega arith, All-set-zero (set rest 28 0) 29 (All-set-zero rest 28 v))),
  omega (arith, length-set (set rest 28 0) 29 0, length-set rest 28 0),
  omega arith,
  omega (arith, cleared-lt rest 28 29 (omega arith) refl v),
)

-- A worker that starts from 32 random bytes counts up from its start by 1 in each of 2 ^ 240 rounds, without
-- running over, and it tries no nonce twice in them.
pub nonce_after-injective :
    (random : Bytes) (i j : ℕ)
    → All IsByte random
    → length random ≡ 32
    → i < 2 ^ 240
    → j < 2 ^ 240
    → (le_value (nonce_after i (start_nonce (some random)))
        ≡ le_value (start_nonce (some random)) + i)
      × ((i ≡ j)
          ⊎ (nonce_after i (start_nonce (some random)) ≢ nonce_after j (start_nonce (some random))))
nonce_after-injective random i j v len hi hj =
    let start = start_nonce (some random) in
    let (bytes, size, _, low) = start_nonce_range random v len in
    let top : 256 ^ length start ≡ 2 ^ 256 = ap (λ (t : ℕ). 256 ^ t) size in
    let (at_i, _, _) = nonce_after-add i start bytes (omega arith) in
    let (at_j, _, _) = nonce_after-add j start bytes (omega arith) in
    (
      at_i,
      elim (ℕ_discrete i j) [
        | yes same ↦ inl same
        | no other ↦ inr (λ e. other (omega (arith, at_i, at_j, ap le_value e)))
      ],
    )

-- Two workers whose start nonces differ try different nonces in their first 65,536 rounds.
pub workers_disjoint :
    (r s : Bytes) (i j : ℕ)
    → All IsByte r
    → length r ≡ 32
    → All IsByte s
    → length s ≡ 32
    → le_value (start_nonce (some r)) ≢ le_value (start_nonce (some s))
    → i < 2 ^ 16
    → j < 2 ^ 16
    → nonce_after i (start_nonce (some r)) ≢ nonce_after j (start_nonce (some s))
workers_disjoint r s i j vr lr vs ls differ hi hj e =
    let first = start_nonce (some r) in
    let second = start_nonce (some s) in
    let (bytes, size, aligned, low) = start_nonce_range r vr lr in
    let (bytes', size', aligned', low') = start_nonce_range s vs ls in
    let top : 256 ^ length first ≡ 2 ^ 256 = ap (λ (t : ℕ). 256 ^ t) size in
    let top' : 256 ^ length second ≡ 2 ^ 256 = ap (λ (t : ℕ). 256 ^ t) size' in
    differ (
      omega (
        arith,
        nonce_after-add i first bytes (omega arith),
        nonce_after-add j second bytes' (omega arith),
        ap le_value e,
      ))

drop-all : (n : ℕ) (xs : Bytes) → length xs ≤ n → drop n xs ≡ []
drop-all zero [] h = refl
drop-all zero (x ∷ xs) h = absurd (omega arith)
drop-all (suc n) [] h = refl
drop-all (suc n) (x ∷ xs) h = drop-all n xs (omega arith)

-- What is hashed is the first 108 bytes of the template's header and then the 32 bytes of the nonce.
pub hash_input-append :
    (header_base nonce : Bytes)
    → length header_base ≡ 140
    → length nonce ≡ 32
    → hash_input header_base nonce ≡ take 108 header_base ++ nonce
unfolding hash_input
hash_input-append header_base nonce lh ln =
    let header = take 108 header_base in
    let size : length header ≡ 108 = omega (arith, length-take 108 header_base) in
    let zeros : Bytes = replicate 140 0 in
    let tail = drop (0 + length header) zeros in
    let buffer = header ++ tail in
    let full : length buffer ≡ 140 =
      omega (arith, length-append header tail, length-drop (0 + length header) zeros) in
    rw (
      take-append header tail 108 (sym size),
      drop-all (108 + length nonce) buffer (omega arith),
      append-nil nonce,
    )
