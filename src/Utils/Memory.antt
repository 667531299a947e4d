-- ===== src/Utils/Memory.antt =====
-- src/utils.cpp: `detect_system_resources`. The lines of /proc/meminfo, the number of hardware threads and the
-- answer of `sysinfo` are arguments.
use juno_miner.Base.{
  ℕ, ◌-◌, ◌*◌, ◌/◌, ◌%◌, ◌^◌, ◌≤◌, Bool, true, false, ◌&&◌, Option, none, some, List, [], ◌∷◌,
  arith, leb, ◌==◌, if◌then◌else◌, Bytes, Outcome, ◌>>=◌, Ensures, Ensures-bind, returns, ok,
  undefined,
}
use juno_miner.Utils.Numbers.{is_space, skip_space, scan_int}
use juno_miner.Utils.Threads.{SystemResources, calculate_optimal_threads}
use juno_miner.Text.{codes}

-- `line.find(label) == 0`
abbrev pub is_prefix : Bytes → Bytes → Bool
is_prefix [] line = true
is_prefix (c ∷ cs) [] = false
is_prefix (c ∷ cs) (x ∷ xs) = let rest = is_prefix cs xs in (c == x) && rest

-- Behind the label that `iss >> label` takes
unfoldable pub skip_word : Bytes → Bytes
skip_word [] = []
skip_word (c ∷ cs) = let rest = skip_word cs in if is_space c then c ∷ cs else rest

-- The number as a `size_t`: the largest one for a text out of range, 0 for one that is no number
abbrev pub size_of_number : Option (Bool × ℕ) → ℕ
size_of_number none = 0
size_of_number (some (negative, n)) =
    if leb (2 ^ 64) n then 2 ^ 64 - 1 else if negative then (2 ^ 64 - n) % 2 ^ 64 else n

-- Where the line ends behind the label, `value` is read without having been set.
abbrev pub size_of_text : Bytes → Outcome ℕ
size_of_text [] = undefined
size_of_text (c ∷ cs) = ok (size_of_number (scan_int (c ∷ cs)))

-- `iss >> label >> value`, on a line that starts with its label
unfoldable pub read_kilobytes : Bytes → Outcome ℕ
unfolding skip_word
read_kilobytes line = size_of_text (skip_space (skip_word line))

-- One line, on the memory found so far: all of it, and what is available
unfoldable pub read_line : Bytes → ℕ × ℕ → Outcome (ℕ × ℕ)
unfolding read_kilobytes
read_line line (total, available) =
    if is_prefix (codes "MemTotal:") line
    then (do value ← read_kilobytes line; ok (value / 1024, available))
    else if is_prefix (codes "MemAvailable:") line
    then (do value ← read_kilobytes line; ok (total, value / 1024))
    else ok (total, available)

unfoldable pub read_lines : List Bytes → ℕ × ℕ → Outcome (ℕ × ℕ)
unfolding read_line
read_lines [] found = ok found
read_lines (line ∷ lines) found = read_line line found >>= read_lines lines

-- What `sysinfo` writes, if it succeeds
pub record SystemInfo : Type 0 where
  pub totalram : ℕ
  pub freeram : ℕ
  pub mem_unit : ℕ

abbrev pub fall_back : Option SystemInfo → ℕ × ℕ → ℕ × ℕ
fall_back none (total, available) = (total, available)
fall_back (some info) (total, available) =
    if total == 0
    then (
      info.totalram * info.mem_unit % 2 ^ 64 / (1024 * 1024),
      info.freeram * info.mem_unit % 2 ^ 64 / (1024 * 1024),
    )
    else (total, available)

unfoldable pub detect_system_resources :
    (hardware_concurrency : ℕ) → List Bytes → Option SystemInfo → Outcome SystemResources
unfolding read_lines
detect_system_resources hardware_concurrency lines info = do
  (total, available) ← read_lines lines (0, 0)
  let cpu_cores = if hardware_concurrency == 0 then 1 else hardware_concurrency
  ok (record {
    total_ram_mb = (fall_back info (total, available)).0;
    available_ram_mb = (fall_back info (total, available)).1;
    cpu_cores = cpu_cores;
    optimal_threads = cpu_cores;
  })

-- A machine whose light mode is given at least one thread, and no more than there are cores
abbrev pub IsServed : SystemResources → Type 0
IsServed r =
    (1 ≤ calculate_optimal_threads r false) × (calculate_optimal_threads r false ≤ r.cpu_cores)

served : (r : SystemResources) → 1 ≤ r.cpu_cores → IsServed r
unfolding calculate_optimal_threads
served r some_core = ground (arith, some_core)

-- Whatever the machine tells of itself, if its memory is read without undefined behaviour, light mode is
-- recommended at least one thread, and no more threads than there are cores.
pub detect_system_resources-IsServed :
    (hardware_concurrency : ℕ) (lines : List Bytes) (info : Option SystemInfo)
    → Ensures IsServed (detect_system_resources hardware_concurrency lines info)
unfolding detect_system_resources
detect_system_resources-IsServed hardware_concurrency lines info =
    Ensures-bind (read_lines lines (0, 0)) _ λ found _. returns (served _ (ground arith))
