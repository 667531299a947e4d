-- ===== src/Startup/Begun.antt =====
-- src/main.cpp: what the program has established when the mining loop starts, or when it gives up before.
use juno_miner.Base.{
  ℕ, suc, ◌≤◌, ◌<◌, ◌≡◌, refl, ap, inl, Bool, true, false, not, Option, none, some, List, [], ◌∷◌,
  map, arith, leb, if◌then◌else◌, length, count, Bytes, ◌>>=◌, ◌>>◌, Ensures, Ensures-bind,
  Ensures-eq-ok, Ensures-if, returns, ok,
}
use juno_miner.Json.{Json}
use juno_miner.Rpc
use juno_miner.Rpc.{RpcClient}
use juno_miner.Config.{MinerConfig, default_config, parse_config, is_empty}
use juno_miner.Config.Invariant.{IsUsable, default_config-IsUsable, parse_config-IsUsable}
use juno_miner.Utils.Threads.{SystemResources, fast_mode_base_mb}
use juno_miner.Utils.Threads.Bounds.{calculate_optimal_threads_bounds}
use juno_miner.Utils.Memory.{detect_system_resources}
use juno_miner.Template.{BlockTemplate, parse_block_template}
use juno_miner.Template.Fields.{IsMinable, parse_block_template-IsMinable}
use juno_miner.Miner.Numa.{distribute}
use juno_miner.Miner.Numa.Topology.{
  Libnuma, Topology, spread_threads, all_cpus, detect_numa_topology,
}
use juno_miner.Miner.Numa.Cpus.{length-all_cpus}
use juno_miner.Randomx.{Store}
use juno_miner.Randomx.Returns.{Returns, Returns-bind, Holds}
use juno_miner.Resources.{Node, Miner}
use juno_miner.Resources.Nodes.{Empty}
use juno_miner.Resources.Lifecycle.{
  IsClear, Owns, Ready, Sound, clear-Owns, initialize-Sound, destructor-Returns,
}
use juno_miner.Mining.{Message, said, Session}
use juno_miner.Mining.Seeds.{IsConsistent}
use juno_miner.Startup.{
  Machine, Prepared, Start, exited, begun, choose_mode, choose_threads, construct, first_session,
  print_info, fetch_template, reach_node, new_client, prepare_miner, prepare, enter, launch,
  empty_store, startup,
}

-- What is asked of the preparation
pub record IsPrepared (p : Prepared) : Type 0 where
  pub usable : IsUsable p.config
  pub threads_pos : 0 < p.num_threads
  pub enough : p.fast_mode ≡ true → fast_mode_base_mb ≤ p.resources.available_ram_mb
  pub seed_size : length p.initial_template.seed_hash ≡ 32
  pub spread :
      p.topology.numa_available ≡ true
      → p.topology.thread_to_node ≡ distribute (length p.topology.cpu_ids) 0 p.num_threads

abbrev AllPrepared : Option Prepared → Type 0
AllPrepared none = Unit {0}
AllPrepared (some p) = IsPrepared p

-- Fast mode is chosen only where its memory is available.
choose_mode-enough :
    (config : MinerConfig) (resources : SystemResources)
    → choose_mode config resources ≡ true
    → fast_mode_base_mb ≤ resources.available_ram_mb
unfolding choose_mode
choose_mode-enough config resources e =
    ground (arith, (calculate_optimal_threads_bounds resources true).0.1, e)

choose_threads_pos :
    (config : MinerConfig) (resources : SystemResources)
    → IsUsable config
    → 0 < choose_threads config resources (choose_mode config resources)
unfolding choose_threads choose_mode
choose_threads_pos config resources v = ground (
  arith,
  v.threads_pos,
  (calculate_optimal_threads_bounds resources true).0,
  (calculate_optimal_threads_bounds resources false).0,
)

-- The threads are spread over the nodes that are listed.
detect_numa_topology-spread :
    (numa : Libnuma) (num_threads : ℕ)
    → Ensures
        (λ (topology : Topology).
          topology.numa_available ≡ true
          → topology.thread_to_node ≡ distribute (length topology.cpu_ids) 0 num_threads)
        (detect_numa_topology numa num_threads)
unfolding detect_numa_topology
detect_numa_topology-spread numa num_threads =
    Ensures-if (not numa.available) (λ _. returns λ on. cc)
      (λ _.
        Ensures-if (leb numa.configured_nodes 1) (λ _. returns λ on. cc)
          (λ _.
            Ensures-bind (spread_threads (all_cpus numa 0 numa.configured_nodes) num_threads) _
              λ cpus _. returns λ on. rw (length-all_cpus numa 0 numa.configured_nodes) refl))

module _ (json : Json) (node : Rpc.Node json) where
  open json use {Value}

  abbrev Minable : RpcClient × Option BlockTemplate → Type 0
  Minable (client, none) = Unit {0}
  Minable (client, some template) = IsMinable template

  fetch_template-Minable :
      (handle : Bool) (client : RpcClient)
      → Ensures Minable (fetch_template json node handle client)
  unfolding fetch_template
  fetch_template-Minable handle client =
      Ensures-bind (Rpc.get_block_template json node handle client) _
        λ (after, result) _. read after result
    where
      read :
          (after : RpcClient) (result : Option Value)
          → Ensures Minable (elim result [
            | none ↦ ok (after, none)
            | some template_data ↦ do
              template ← parse_block_template json template_data
              ok (after, some template)
          ])
      read after none = returns tt
      read after (some template_data) =
          Ensures-bind (parse_block_template json template_data) _
            λ template e. returns (parse_block_template-IsMinable json template_data template e)

  reach_node-Minable :
      (machine : Machine) (client : RpcClient)
      → Ensures Minable (reach_node json node machine client)
  unfolding reach_node
  reach_node-Minable machine client =
      Ensures-bind (Rpc.get_blockchain_info json node machine.info_handle client) _
        λ (after, info) _. reached after info
    where
      reached :
          (after : RpcClient) (info : Option Value)
          → Ensures Minable (elim info [
            | none ↦ ok (after, none)
            | some blockchain_info ↦ do
              print_info json node blockchain_info
              fetch_template json node machine.template_handle after
          ])
      reached after none = returns tt
      reached after (some blockchain_info) =
          Ensures-bind (print_info json node blockchain_info) _
            λ _ _. fetch_template-Minable machine.template_handle after

  prepare_miner-Prepared :
      (machine : Machine) (config : MinerConfig)
      → IsUsable config
      → Ensures AllPrepared (prepare_miner json node machine config)
  unfolding prepare_miner
  prepare_miner-Prepared machine config v =
      Ensures-bind
        (detect_system_resources machine.hardware_concurrency machine.meminfo machine.sysinfo) _
        λ resources _.
          Ensures-bind (reach_node json node machine (new_client json node config)) _
            λ (client, template) e.
              constructed resources client template
                (Ensures-eq-ok (reach_node-Minable machine (new_client json node config)) e)
    where
      constructed :
          (resources : SystemResources) (client : RpcClient) (template : Option BlockTemplate)
          → Minable (client, template)
          → Ensures AllPrepared (elim template [
            | none ↦ ok none
            | some initial_template ↦ do
              topology ←
                  detect_numa_topology machine.numa
                    (choose_threads config resources (choose_mode config resources))
              ok (
                  some (record {
                    config = config;
                    resources = resources;
                    fast_mode = choose_mode config resources;
                    num_threads = choose_threads config resources (choose_mode config resources);
                    client = client;
                    initial_template = initial_template;
                    topology = topology;
                  }))
          ])
      constructed resources client none minable = returns tt
      constructed resources client (some template) minable =
          Ensures-bind
            (detect_numa_topology machine.numa
              (choose_threads config resources (choose_mode config resources)))
            _
            λ topology e. returns (record {
              usable = v;
              threads_pos = choose_threads_pos config resources v;
              enough = choose_mode-enough config resources;
              seed_size = minable.seed_size;
              spread =
                  Ensures-eq-ok
                    (detect_numa_topology-spread machine.numa
                      (choose_threads config resources (choose_mode config resources)))
                    e;
            })

  prepare-Prepared :
      (machine : Machine) (argv : List Bytes) → Ensures AllPrepared (prepare json node machine argv)
  unfolding prepare
  prepare-Prepared machine argv =
      Ensures-bind (parse_config argv default_config) _ λ config e. accepted config e
    where
      accepted :
          (config : Option MinerConfig)
          → parse_config argv default_config ≡ ok config
          → Ensures AllPrepared (elim config [
            | none ↦ ok none
            | some config' ↦ prepare_miner json node machine config'
          ])
      accepted none e = returns tt
      accepted (some config) e =
          prepare_miner-Prepared machine config
            (parse_config-IsUsable argv default_config config default_config-IsUsable e)

-- The program at the mining loop
pub record IsBegun (p : Prepared) (m : Miner) (session : Session) (s : Store) : Type 0 where
  pub usable : IsUsable p.config
  pub enough : p.fast_mode ≡ true → fast_mode_base_mb ≤ p.resources.available_ram_mb
  pub threads_pos : 0 < session.num_threads
  pub same_threads : m.num_threads ≡ session.num_threads
  pub same_seed : m.current_seed_hash ≡ session.current_seed_hash
  pub owns : Owns m s
  pub ready : Ready m s
  pub consistent : IsConsistent session

-- A program that has returned has the result 1 and leaves no RandomX object.
abbrev pub IsStart : Start → Store → Type 0
IsStart (exited code) s = (code ≡ 1) × ((h : ℕ) → count h s.live ≡ 0)
IsStart (begun p m session) s = IsBegun p m session s

Empty-map : (xs : List (List ℕ)) → Empty (map (λ cpus. record { cache = none; vms = [] }) xs)
Empty-map [] = tt
Empty-map (x ∷ xs) = ((refl, refl), Empty-map xs)

length-map_nodes :
    (xs : List (List ℕ))
    → length {A = Node} (map (λ cpus. record { cache = none; vms = [] }) xs) ≡ length xs
length-map_nodes [] = refl
length-map_nodes (x ∷ xs) = ap suc (length-map_nodes xs)

construct-IsClear :
    (p : Prepared) → IsPrepared p → IsClear (construct p.num_threads p.fast_mode p.topology)
construct-IsClear p v = record {
  no_vms = refl;
  no_cache = refl;
  no_dataset = refl;
  empty = Empty-map p.topology.cpu_ids;
  spread = λ on. rw (length-map_nodes p.topology.cpu_ids) (v.spread on);
}

empty_store-Holds : Holds [] empty_store
empty_store-Holds = record { same = λ h. refl; fresh = λ h q. refl; unique = λ h. omega arith }

construct-Owns :
    (p : Prepared)
    → IsPrepared p
    → Owns (construct p.num_threads p.fast_mode p.topology) empty_store
construct-Owns p v =
    let c = construct-IsClear p v in
    clear-Owns (construct p.num_threads p.fast_mode p.topology) empty_store refl c.empty c.spread
      (λ fast missing. refl) (λ long. absurd (omega arith)) empty_store-Holds

by_messages :
    (p : Prepared) (quiet : Bool)
    → IsConsistent (record (first_session p) {
      events =
          if quiet
          then said Message.mining_started ∷ []
          else said Message.zmq_enabled ∷ said Message.mining_started ∷ [];
    })
by_messages p true = record { seeds = tt; current = refl; ready = inl refl; counted = omega arith }
by_messages p false = record { seeds = tt; current = refl; ready = inl refl; counted = omega arith }

first_session-IsConsistent : (p : Prepared) → IsConsistent (first_session p)
first_session-IsConsistent p = by_messages p (is_empty p.config.zmq_url)

enter-IsStart :
    (p : Prepared) (result : Miner × Bool) (s : Store)
    → IsPrepared p
    → Sound p.num_threads p.initial_template.seed_hash result s
    → Returns IsStart (enter p result s)
unfolding enter
enter-IsStart p (m, true) s v (owns, same, success) =
    let (ready, seed) = success refl in
    Returns.returns (record {
      usable = v.usable;
      enough = v.enough;
      threads_pos = v.threads_pos;
      same_threads = same;
      same_seed = seed;
      owns = owns;
      ready = ready;
      consistent = first_session-IsConsistent p;
    })
enter-IsStart p (m, false) s v (owns, _, _) =
    Returns-bind (destructor-Returns m s owns) λ m' t released. Returns.returns (refl, released)

launch-IsStart :
    (grants : ℕ → Bool) (prepared : Option Prepared)
    → AllPrepared prepared
    → Returns IsStart (launch grants prepared empty_store)
unfolding launch
launch-IsStart grants none v = Returns.returns (refl, λ h. refl)
launch-IsStart grants (some p) v =
    Returns-bind
      (initialize-Sound grants (construct p.num_threads p.fast_mode p.topology)
        p.initial_template.seed_hash empty_store (construct-IsClear p v) (construct-Owns p v)
        (omega (arith, v.seed_size)))
      λ result t sound. enter-IsStart p result t v sound

-- Whatever the command line, the machine and the node, and whichever allocations fail: if no exception is thrown
-- and the start reaches nothing that is undefined, such as the CPU of a NUMA node without CPUs, it never misuses a
-- RandomX object. Either `main` has returned 1, and
-- no object stays allocated; or the mining loop starts on a usable configuration, in fast mode only if the memory
-- for it is available, with at least one thread, as many as the miner has, with a VM for each on the seed of the
-- loop, with just the objects allocated that the miner owns, and in a state that is consistent.
pub startup-IsStart :
    (json : Json) (node : Rpc.Node json) (grants : ℕ → Bool) (machine : Machine) (argv : List Bytes)
    → Ensures (Returns IsStart) (startup json node grants machine argv)
unfolding startup
startup-IsStart json node grants machine argv =
    Ensures-bind (prepare json node machine argv) _ λ prepared e.
      Ensures.returns
        (launch-IsStart grants prepared (Ensures-eq-ok (prepare-Prepared json node machine argv) e))
