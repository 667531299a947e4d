-- ===== src/Miner/Nonce/Tests.antt =====
-- Nonces at concrete random bytes.
use juno_miner.Base.{ℕ, ◌+◌, ◌≡◌, refl, ◌≢◌, ◌⊎◌, some, [], ◌∷◌, arith, replicate, le_value}
use juno_miner.Miner.Nonce.{start_nonce, increment}
use juno_miner.Miner.Nonce.Search.{nonce_after, nonce_after-injective, workers_disjoint}

carry_run : increment (255 ∷ 255 ∷ 7 ∷ []) ≡ 0 ∷ 0 ∷ 8 ∷ []
unfolding increment
carry_run = refl

overflow_run : increment (255 ∷ 255 ∷ []) ≡ 0 ∷ 0 ∷ []
unfolding increment
overflow_run = refl

start_differ :
    le_value (start_nonce (some (replicate 32 1))) ≢ le_value (start_nonce (some (replicate 32 2)))
unfolding start_nonce
start_differ = omega arith

nonce_after-injective_example :
    (le_value (nonce_after 5 (start_nonce (some (replicate 32 1))))
      ≡ le_value (start_nonce (some (replicate 32 1))) + 5)
    × (◌≡◌ {A = ℕ} 5 7
        ⊎ (nonce_after 5 (start_nonce (some (replicate 32 1)))
            ≢ nonce_after 7 (start_nonce (some (replicate 32 1)))))
nonce_after-injective_example =
    nonce_after-injective (replicate 32 1) 5 7 (omega arith) refl (omega arith) (omega arith)

workers_disjoint_example :
    nonce_after 3 (start_nonce (some (replicate 32 1)))
    ≢ nonce_after 9 (start_nonce (some (replicate 32 2)))
workers_disjoint_example =
    workers_disjoint (replicate 32 1) (replicate 32 2) 3 9 (omega arith) refl (omega arith) refl
      start_differ (omega arith) (omega arith)
