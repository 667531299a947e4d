-- ===== src/Utils/Threads/Bounds.antt =====
-- What a recommended thread count promises.
use juno_miner.Base.{ℕ, ◌+◌, ◌*◌, ◌≤◌, ◌<◌, ◌≡◌, ◌↔◌, ◌⊎◌, Bool, true, false, arith, if◌then◌else◌}
use juno_miner.Utils.Threads.{
  SystemResources, calculate_optimal_threads, fast_mode_base_mb, light_mode_base_mb, per_thread_mb,
}

abbrev pub base_mb : Bool → ℕ
base_mb fast_mode = if fast_mode then fast_mode_base_mb else light_mode_base_mb

-- The count is 0 exactly in fast mode with less memory than the shared dataset and cache need, it never
-- exceeds the larger of one and the number of cores, and more than one thread is recommended only if the
-- shared memory and that of the threads fit in the available memory.
pub calculate_optimal_threads_bounds :
    (r : SystemResources) (fast_mode : Bool)
    → let n = calculate_optimal_threads r fast_mode in
      ((n ≡ 0) ↔ ((fast_mode ≡ true) × (r.available_ram_mb < fast_mode_base_mb)))
      × ((n ≤ 1) ⊎ (n ≤ r.cpu_cores))
      × ((n ≤ 1) ⊎ (base_mb fast_mode + n * per_thread_mb ≤ r.available_ram_mb))
unfolding calculate_optimal_threads
calculate_optimal_threads_bounds r true = ground arith
calculate_optimal_threads_bounds r false = ground arith
