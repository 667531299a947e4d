-- ===== src/Miner/Seed/Tests.antt =====
-- Seed heights around the first epoch transition.
use juno_miner.Base.{◌+◌, ◌%◌, ◌≤◌, ◌<◌, ◌≡◌, refl, ◌≢◌, ◌⊎◌, arith}
use juno_miner.Miner.Seed.{epoch_blocks, seed_height}
use juno_miner.Miner.Seed.Epochs.{seed_height_transition}

seed_height_run : (seed_height 2144 ≡ 0) × (seed_height 2145 ≡ 2048) × (seed_height 5000 ≡ 4096)
unfolding seed_height
seed_height_run = (refl, refl, refl)

seed_height_transition_example :
    ((seed_height (2144 + 1) ≡ seed_height 2144)
      × ((2144 < 2144) ⊎ ((2144 + 1) % epoch_blocks ≢ 97)))
    ⊎ ((seed_height (2144 + 1) ≡ seed_height 2144 + epoch_blocks)
        × (2144 ≤ 2144)
        × ((2144 + 1) % epoch_blocks ≡ 97))
seed_height_transition_example = seed_height_transition 2144 (omega arith)
