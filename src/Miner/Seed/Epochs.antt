-- ===== src/Miner/Seed/Epochs.antt =====
-- Seed heights as multiples of the epoch, and where they change.
use juno_miner.Base.{ℕ, ◌+◌, ◌-◌, ◌*◌, ◌/◌, ◌%◌, ◌^◌, ◌≤◌, ◌<◌, ◌≡◌, ◌∙◌, ◌≢◌, ◌⊎◌, arith}
use Prim.Native.Nat.{bit_and}
use juno_miner.Base.Bits.{bit_and_high, bit_and_mask}
use juno_miner.Miner.Seed.{epoch_blocks, epoch_lag, epoch_mask, seed_height}

bit_and-epoch_mask : (x : ℕ) → x < 2 ^ 64 → bit_and x epoch_mask ≡ x / 2048 * 2048
bit_and-epoch_mask x h =
    bit_and_high 11 x (2 ^ 53 - 1) ∙ rw (bit_and_mask 53 (x / 2 ^ 11)) (omega arith)

seed_height-div : (h : ℕ) → h < 2 ^ 64 → seed_height h ≡ (h - 97) / epoch_blocks * epoch_blocks
unfolding seed_height
seed_height-div h small = ground (arith, bit_and-epoch_mask (h - 96 - 1))

-- The seed block of a height is the last block of a number divisible by 2048 that lies more than 96
-- blocks below it, and the first block before there is one.
pub seed_height_window :
    (h : ℕ)
    → h < 2 ^ 64
    → (seed_height h % epoch_blocks ≡ 0)
      × ((seed_height h ≡ 0) ⊎ (seed_height h + epoch_lag < h))
      × (h ≤ seed_height h + epoch_lag + epoch_blocks)
seed_height_window h small = ground (arith, seed_height-div h small)

-- The seed height never falls, and going up by one block it changes exactly at the heights 97 above a
-- positive multiple of 2048, and there by a whole epoch.
pub seed_height_transition :
    (h : ℕ)
    → h + 1 < 2 ^ 64
    → ((seed_height (h + 1) ≡ seed_height h) × ((h < 2144) ⊎ ((h + 1) % epoch_blocks ≢ 97)))
      ⊎ ((seed_height (h + 1) ≡ seed_height h + epoch_blocks)
          × (2144 ≤ h)
          × ((h + 1) % epoch_blocks ≡ 97))
seed_height_transition h small =
    ground (arith, seed_height-div h (omega arith), seed_height-div (h + 1) small)
