-- ===== src/Miner/Seed.antt =====
-- src/miner.h: `RandomX_SeedHeight`, the height of the block whose hash seeds RandomX.
pub mod Epochs
mod Tests
use juno_miner.Base.{ℕ, ◌+◌, ◌-◌, ◌^◌, leb, if◌then◌else◌}
use Prim.Native.Nat.{bit_and}

abbrev pub epoch_blocks : ℕ
epoch_blocks = 2048

abbrev pub epoch_lag : ℕ
epoch_lag = 96

-- `~(RANDOMX_SEEDHASH_EPOCH_BLOCKS - 1)` on 64 bits
abbrev pub epoch_mask : ℕ
epoch_mask = 2 ^ 64 - 1 - (epoch_blocks - 1)

unfoldable pub seed_height : ℕ → ℕ
seed_height height =
    if leb height (epoch_blocks + epoch_lag) then 0 else bit_and (height - epoch_lag - 1) epoch_mask
