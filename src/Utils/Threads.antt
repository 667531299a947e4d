-- ===== src/Utils/Threads.antt =====
-- src/utils.cpp: `SystemResources` and `calculate_optimal_threads`.
pub mod Bounds
mod Tests
use juno_miner.Base.{ℕ, ◌-◌, ◌/◌, ◌%◌, ◌^◌, Bool, ltb, ◌==◌, if◌then◌else◌}

-- `size_t` and `unsigned int` fields
pub record SystemResources : Type 0 where
  pub total_ram_mb : ℕ
  pub available_ram_mb : ℕ
  pub cpu_cores : ℕ
  pub optimal_threads : ℕ

abbrev pub fast_mode_base_mb : ℕ
fast_mode_base_mb = 2560

abbrev pub light_mode_base_mb : ℕ
light_mode_base_mb = 300

abbrev pub per_thread_mb : ℕ
per_thread_mb = 4

-- Threads for the memory left, as an `unsigned int`, but no more than there are cores
abbrev pub cap_threads : ℕ → ℕ → ℕ
cap_threads remaining_ram cpu_cores =
    let max_threads = remaining_ram / per_thread_mb % 2 ^ 32 in
    if ltb cpu_cores max_threads then cpu_cores else max_threads

abbrev pub at_least_one : ℕ → ℕ
at_least_one max_threads = if max_threads == 0 then 1 else max_threads

unfoldable pub calculate_optimal_threads : SystemResources → Bool → ℕ
calculate_optimal_threads resources fast_mode =
    let ram = resources.available_ram_mb in
    let cores = resources.cpu_cores in
    if fast_mode
    then if ltb ram fast_mode_base_mb
      then 0
      else at_least_one (cap_threads (ram - fast_mode_base_mb) cores)
    else if ltb ram light_mode_base_mb
    then 1
    else at_least_one (cap_threads (ram - light_mode_base_mb) cores)
