-- ===== src/Utils/Threads/Tests.antt =====
-- Thread counts on a machine of 8 cores.
use juno_miner.Base.{
  ℕ, ◌+◌, ◌*◌, ◌≤◌, ◌<◌, ◌≡◌, refl, ◌↔◌, ◌⊎◌, Bool, true, List, [], ◌∷◌, Bytes, ok,
}
use juno_miner.Utils.Threads.{
  SystemResources, calculate_optimal_threads, fast_mode_base_mb, per_thread_mb,
}
use juno_miner.Text.{codes}
use juno_miner.Utils.Numbers.{scan_int}
use juno_miner.Utils.Memory.{read_lines, read_line, read_kilobytes, skip_word}
use juno_miner.Utils.Threads.Bounds.{base_mb, calculate_optimal_threads_bounds}

abbrev two_lines : List Bytes
two_lines = codes "MemTotal:       16384 kB" ∷ codes "MemAvailable:   8192 kB" ∷ []

found_memory : read_lines two_lines (0, 0) ≡ ok (16, 8)
unfolding read_lines read_line read_kilobytes skip_word scan_int
found_memory = refl

abbrev machine : ℕ → SystemResources
machine ram = record {
  total_ram_mb = 16000;
  available_ram_mb = ram;
  cpu_cores = 8;
  optimal_threads = 8;
}

fast_8 : calculate_optimal_threads (machine 8000) true ≡ 8
unfolding calculate_optimal_threads
fast_8 = refl

calculate_optimal_threads_bounds_example :
    let n = calculate_optimal_threads (machine 2570) true in
    ((n ≡ 0) ↔ ((◌≡◌ {A = Bool} true true) × (2570 < fast_mode_base_mb)))
    × ((n ≤ 1) ⊎ (n ≤ 8))
    × ((n ≤ 1) ⊎ (base_mb true + n * per_thread_mb ≤ 2570))
calculate_optimal_threads_bounds_example = calculate_optimal_threads_bounds (machine 2570) true
