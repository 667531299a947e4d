-- ===== src/Startup.antt =====
-- src/main.cpp: `main` from its beginning to the mining loop, with the constructor of `Miner` (src/miner.cpp).
-- What the machine tells is an argument; the texts that are printed are left out.
pub mod Begun
mod Tests
use juno_miner.Base.{
  ℕ, Bool, true, false, ◌&&◌, ◌||◌, not, Option, none, some, List, [], ◌∷◌, map, ◌==◌,
  if◌then◌else◌, Bytes, Outcome, ◌>>=◌, ◌>>◌, ok,
}
use juno_miner.Json.{Json}
use juno_miner.Log.{Logger, set_debug_mode, enable_file_logging, enable_console_logging}
use juno_miner.Config.{MinerConfig, default_config, is_empty, parse_config}
use juno_miner.Utils.Threads.{SystemResources, calculate_optimal_threads}
use juno_miner.Utils.Memory.{SystemInfo, detect_system_resources}
use juno_miner.Rpc
use juno_miner.Rpc.{RpcClient}
use juno_miner.Template.{BlockTemplate, parse_block_template}
use juno_miner.Miner.Numa.Topology.{Libnuma, Topology, detect_numa_topology}
use juno_miner.Randomx.{Store, Run, done, fault, Cmd}
use juno_miner.Randomx
use juno_miner.Resources.{Node, Miner, initialize, destructor}
use juno_miner.Mining.{Message, said, Session}

-- What the program meets before the mining loop: the operating system, libnuma, the log file and its clock, and
-- whether `curl_easy_init` gives a handle for the two calls
pub record Machine : Type 0 where
  pub hardware_concurrency : ℕ
  pub meminfo : List Bytes
  pub sysinfo : Option SystemInfo
  pub numa : Libnuma
  pub log_opens : Bool
  pub timestamp : Bytes
  pub info_handle : Bool
  pub template_handle : Bool

-- The logger is set up only for debugging or for a log file.
unfoldable pub configure_logger : Machine → MinerConfig → Logger → Logger
configure_logger machine config l =
    if config.debug_mode || not (is_empty config.log_file)
    then (let moded = set_debug_mode config.debug_mode l in
        let filed =
          if not (is_empty config.log_file)
          then enable_file_logging machine.log_opens machine.timestamp moded
          else moded in
        if config.log_to_console then enable_console_logging true filed else filed)
    else l

-- Fast mode falls back to light mode where no thread could be recommended.
unfoldable pub choose_mode : MinerConfig → SystemResources → Bool
choose_mode config resources =
    config.fast_mode && not (calculate_optimal_threads resources true == 0)

unfoldable pub choose_threads : MinerConfig → SystemResources → Bool → ℕ
choose_threads config resources fast_mode =
    if config.auto_threads
    then calculate_optimal_threads resources fast_mode
    else config.num_threads

-- The constructor of `Miner`, on the detected topology
abbrev pub construct : ℕ → Bool → Topology → Miner
construct num_threads fast_mode topology = record {
  num_threads = num_threads;
  fast_mode = fast_mode;
  mining = false;
  unjoined = false;
  current_seed_hash = [];
  dataset = none;
  numa_available = topology.numa_available;
  numa_nodes = map (λ cpus. record { cache = none; vms = [] }) topology.cpu_ids;
  cpu_ids = topology.cpu_ids;
  thread_to_cpu = topology.thread_to_cpu;
  thread_to_node = topology.thread_to_node;
  legacy_cache = none;
  legacy_vms = [];
}

-- All that is there before RandomX is initialized
pub record Prepared : Type 0 where
  pub config : MinerConfig
  pub resources : SystemResources
  pub fast_mode : Bool
  pub num_threads : ℕ
  pub client : RpcClient
  pub initial_template : BlockTemplate
  pub topology : Topology

-- `main` has returned, with its result, or it is at the mining loop.
pub data Start : Type 0 where
  exited : ℕ → Start
  begun : Prepared → Miner → Session → Start

-- The variables of the loop before its first round
abbrev pub first_session : Prepared → Session
first_session p = record {
  blocks_mined = 0;
  current_block_height = 0;
  current_seed_hash = p.initial_template.seed_hash;
  num_threads = p.num_threads;
  was_disconnected = false;
  mining = false;
  miner_seed = p.initial_template.seed_hash;
  has_vms = true;
  events =
      if is_empty p.config.zmq_url
      then said Message.mining_started ∷ []
      else said Message.zmq_enabled ∷ said Message.mining_started ∷ [];
}

module _ (json : Json) (node : Rpc.Node json) where
  open json use {Value, member, as_string, as_uint}

  -- The node's answer to the first call is printed.
  unfoldable pub print_info : Value → Outcome (Unit {0})
  print_info blockchain_info = do
    chain ← member blockchain_info "chain"
    _chain_text ← as_string chain
    blocks ← member blockchain_info "blocks"
    _block ← as_uint blocks
    ok tt

  -- The initial template, if the node gives one
  unfoldable pub fetch_template : Bool → RpcClient → Outcome (RpcClient × Option BlockTemplate)
  fetch_template handle client = do
    (after, result) ← Rpc.get_block_template json node handle client
    elim result [
      | none ↦ ok (after, none)
      | some template_data ↦ do
        template ← parse_block_template json template_data
        ok (after, some template)
    ]

  -- The two calls of the node; `none` where one fails
  unfoldable pub reach_node : Machine → RpcClient → Outcome (RpcClient × Option BlockTemplate)
  unfolding print_info fetch_template
  reach_node machine client = do
    (after, info) ← Rpc.get_blockchain_info json node machine.info_handle client
    elim info [
      | none ↦ ok (after, none)
      | some blockchain_info ↦ do
        print_info blockchain_info
        fetch_template machine.template_handle after
    ]

  abbrev pub new_client : MinerConfig → RpcClient
  new_client config = record {
    url = config.rpc_url;
    user = config.rpc_user;
    password = config.rpc_password;
    request_id = 0;
    last_error = [];
  }

  -- From a configuration to the construction of the miner
  unfoldable pub prepare_miner : Machine → MinerConfig → Outcome (Option Prepared)
  unfolding reach_node choose_mode choose_threads
  prepare_miner machine config = do
    resources ← detect_system_resources machine.hardware_concurrency machine.meminfo machine.sysinfo
    let fast_mode = choose_mode config resources
    let num_threads = choose_threads config resources fast_mode
    (client, template) ← reach_node machine (new_client config)
    elim template [
      | none ↦ ok none
      | some initial_template ↦ do
        topology ← detect_numa_topology machine.numa num_threads
        ok (
            some (record {
              config = config;
              resources = resources;
              fast_mode = fast_mode;
              num_threads = num_threads;
              client = client;
              initial_template = initial_template;
              topology = topology;
            }))
    ]

  unfoldable pub prepare : Machine → List Bytes → Outcome (Option Prepared)
  unfolding prepare_miner
  prepare machine argv = do
    config ← parse_config argv default_config
    elim config [ none ↦ ok none | some config' ↦ prepare_miner machine config' ]

-- Behind `miner.initialize`; a return from `main` destroys the miner.
unfoldable pub enter : Prepared → Miner × Bool → Cmd Start
enter p (m, true) s = done (begun p m (first_session p)) s
enter p (m, false) s = Randomx.and_then (destructor m s) λ m' t. done (exited 1) t

-- From the construction of the miner to the mining loop
unfoldable pub launch : (ℕ → Bool) → Option Prepared → Cmd Start
unfolding enter
launch grants none s = done (exited 1) s
launch grants (some p) s =
    Randomx.and_then
      (initialize grants p.initial_template.seed_hash
        (construct p.num_threads p.fast_mode p.topology) s)
      (enter p)

-- No RandomX object is allocated when the program starts.
abbrev pub empty_store : Store
empty_store = record { next = 0; live = []; seed_of = λ h. [] }

unfoldable pub startup :
    (json : Json) → Rpc.Node json → (ℕ → Bool) → Machine → List Bytes → Outcome (Run Start)
unfolding prepare launch
startup json node grants machine argv = do
  prepared ← prepare json node machine argv
  ok (launch grants prepared empty_store)
