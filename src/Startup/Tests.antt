-- ===== src/Startup/Tests.antt =====
-- A start on four cores with a node that answers every question.
use juno_miner.Base.{
  ℕ, ◌≡◌, refl, Bool, true, false, Option, none, some, List, [], ◌∷◌, if◌then◌else◌, replicate,
  Bytes, Outcome, Ensures, ok,
}
use Prim.Native.String.{String}
use package.text.Mathlib.Text.{◌==◌ as str_eq}
use juno_miner.Text.{codes}
use juno_miner.Json.{Json}
use juno_miner.Rpc.{
  Node, received, value, call, get_blockchain_info, get_block_template, read_transfer, read_parsed,
  read_response, read_result, is_error,
}
use juno_miner.Randomx.{Run, done, need, fill, alloc, create_vm}
use juno_miner.Randomx.Returns.{Returns}
use juno_miner.Startup.{
  Machine, Start, begun, startup, prepare, prepare_miner, reach_node, print_info, fetch_template,
  choose_mode, choose_threads, launch, enter,
}
use juno_miner.Startup.Begun.{IsStart, startup-IsStart}
use juno_miner.Config.{parse_config, set_flag, set_value, classify}
use juno_miner.Utils.Threads.{calculate_optimal_threads}
use juno_miner.Utils.Memory.{detect_system_resources, read_lines}
use juno_miner.Utils.Numbers.{scan_int, stoul16, stoi16_u8, atoi_u32}
use juno_miner.Utils.Endian.{write_le32}
use juno_miner.Utils.Hex.{hex_to_bytes}
use juno_miner.Template.{
  parse_block_template, read_seeds, read_target_hex, read_merkle_root, read_commitments,
  read_coinbase, read_transactions, build_header,
}
use juno_miner.Miner.Numa.Topology.{Libnuma, detect_numa_topology}
use juno_miner.Resources.{initialize, check_seed, initialize_cache, initialize_vms, create_vms}

-- A value is the name of the member it was read from.
abbrev named : Json
named = record {
  Value = String;
  is_member = λ v key. ok true;
  member = λ v key. ok key;
  as_uint = λ v. ok 5000;
  as_uint64 = λ v. ok 4096;
  as_string = λ v. ok (if str_eq v "bits" then codes "1f09daa8" else replicate 64 b'1');
  is_array = λ v. false;
  is_null = λ v. str_eq v "error";
  is_string = λ v. true;
  elements = λ v. [];
}

abbrev node : Node named
node = record {
  Int = ℕ;
  as_int = λ v. ok 0;
  of_int = λ n. "number";
  object_of = λ key v. "object";
  perform = λ client id method params. received [];
  parse = λ text. value "response";
  write = λ v. [];
  empty_array = "array";
  append = λ v w. "array";
  of_bytes = λ text. "text";
  of_uint = λ n. "number";
}

abbrev one_node : Libnuma
one_node = record {
  available = true;
  configured_nodes = 1;
  configured_cpus = 4;
  node_to_cpus = λ k. some (λ cpu. true);
}

abbrev machine : Machine
machine = record {
  hardware_concurrency = 4;
  meminfo = codes "MemTotal: 8388608 kB" ∷ codes "MemAvailable: 1048576 kB" ∷ [];
  sysinfo = none;
  numa = one_node;
  log_opens = true;
  timestamp = [];
  info_handle = true;
  template_handle = true;
}

-- Too little memory for fast mode
abbrev asked : List Bytes
asked = codes "--fast-mode" ∷ codes "--threads" ∷ codes "2" ∷ []

abbrev threads_of : Outcome (Run Start) → Option (ℕ × Bool)
threads_of (ok (done (begun p m session) s)) = some (session.num_threads, p.fast_mode)
threads_of _ = none

two_threads : threads_of (startup named node (λ h. true) machine asked) ≡ some (2, false)
unfolding startup prepare prepare_miner reach_node print_info fetch_template choose_mode
    choose_threads launch enter parse_config classify calculate_optimal_threads
    detect_system_resources read_lines scan_int parse_block_template read_seeds read_target_hex
    read_merkle_root read_commitments read_coinbase read_transactions build_header stoul16 stoi16_u8
    atoi_u32 hex_to_bytes write_le32 detect_numa_topology initialize check_seed initialize_cache
    initialize_vms create_vms need fill alloc create_vm call read_transfer read_parsed read_response
    read_result is_error get_blockchain_info get_block_template set_flag set_value
two_threads = refl

startup-IsStart_example : Ensures (Returns IsStart) (startup named node (λ h. true) machine asked)
startup-IsStart_example = startup-IsStart named node (λ h. true) machine asked
