-- ===== src/Miner/Numa/Dataset.antt =====
-- src/miner.cpp: the parts of the dataset that the initialization threads of `initialize` fill.
use juno_miner.Base.{ℕ, zero, suc, ◌+◌, ◌-◌, ◌<◌, ◌≡◌, arith}
use native.Mathlib.Nat.{div-add-mod}
use juno_miner.Miner.Numa.{dataset_part}

-- With at least one thread, the parts partition the dataset: the first one starts at item 0, each other one
-- starts where the one before it ends, and the last one ends at the item count.
pub dataset_part-partition :
    (item_count threads : ℕ)
    → 0 < threads
    → ((dataset_part item_count threads 0).0 ≡ 0)
      × ((t : ℕ)
          → suc t < threads
          → (dataset_part item_count threads (suc t)).0
            ≡ (dataset_part item_count threads t).0 + (dataset_part item_count threads t).1)
      × ((dataset_part item_count threads (threads - 1)).0
            + (dataset_part item_count threads (threads - 1)).1
          ≡ item_count)
unfolding dataset_part
dataset_part-partition item_count zero h = absurd (omega arith)
dataset_part-partition item_count (suc t) h =
    (omega arith, (λ u k. ground arith), ground (arith, div-add-mod item_count (suc t)))
