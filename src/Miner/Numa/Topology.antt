-- ===== src/Miner/Numa/Topology.antt =====
-- src/miner.cpp: `detect_numa_topology`. What libnuma answers is the parameter `Libnuma`.
use juno_miner.Base.{
  ℕ, zero, suc, ◌+◌, ◌%◌, Bool, true, false, not, Option, none, some, List, [], ◌∷◌, leb, ◌==◌,
  if◌then◌else◌, length, get_elem?, set, replicate, count, Outcome, ◌>>=◌, ok, undefined,
}
use juno_miner.Miner.Numa.{distribute}

-- `node_to_cpus` is the mask that `numa_node_to_cpus` fills, unless it fails.
pub record Libnuma : Type 0 where
  pub available : Bool
  pub configured_nodes : ℕ
  pub configured_cpus : ℕ
  pub node_to_cpus : ℕ → Option (ℕ → Bool)

-- The members that `detect_numa_topology` sets; `cpu_ids` has the CPUs of each node.
pub record Topology : Type 0 where
  pub numa_available : Bool
  pub num_numa_nodes : ℕ
  pub cpu_ids : List (List ℕ)
  pub thread_to_cpu : List ℕ
  pub thread_to_node : List ℕ

-- `for (int cpu = ...; cpu < total_cpus; cpu++)`, with the number of CPUs left
unfoldable pub set_bits : (ℕ → Bool) → ℕ → ℕ → List ℕ
set_bits mask cpu zero = []
set_bits mask cpu (suc left) =
    let rest = set_bits mask (suc cpu) left in if mask cpu then cpu ∷ rest else rest

unfoldable pub node_cpus : ℕ → Option (ℕ → Bool) → List ℕ
unfolding set_bits
node_cpus total_cpus none = []
node_cpus total_cpus (some cpumask) = set_bits cpumask 0 total_cpus

-- From node `node` on
unfoldable pub all_cpus : Libnuma → ℕ → ℕ → List (List ℕ)
unfolding node_cpus
all_cpus numa node zero = []
all_cpus numa node (suc n) =
    node_cpus numa.configured_cpus (numa.node_to_cpus node) ∷ all_cpus numa (suc node) n

abbrev pub element {ℓ} : {A : Type ℓ} → List A → ℕ → Outcome A
element xs i = elim (get_elem? xs i) [ none ↦ undefined | some x ↦ ok x ]

-- The next CPU of a node, on how many threads it has so far; the remainder by 0 is undefined.
unfoldable pub pick_cpu : List ℕ → ℕ → Outcome ℕ
pick_cpu cpus count = if length cpus == 0 then undefined else element cpus (count % length cpus)

-- The loop over the threads from `t` on; `counts` is `node_thread_count`.
unfoldable pub assign_cpus : List (List ℕ) → List ℕ → ℕ → ℕ → Outcome (List ℕ)
unfolding pick_cpu
assign_cpus cpu_ids counts t zero = ok []
assign_cpus cpu_ids counts t (suc left) = do
  cpus ← element cpu_ids (t % length cpu_ids)
  count ← element counts (t % length cpu_ids)
  cpu ← pick_cpu cpus count
  rest ← assign_cpus cpu_ids (set counts (t % length cpu_ids) (count + 1)) (suc t) left
  ok (cpu ∷ rest)

-- The distribution of the threads, here and in `set_thread_count`
unfoldable pub spread_threads : List (List ℕ) → ℕ → Outcome (List ℕ)
unfolding assign_cpus
spread_threads cpu_ids num_threads =
    assign_cpus cpu_ids (replicate (length cpu_ids) 0) 0 num_threads

abbrev pub single : Topology
single = record {
  numa_available = false;
  num_numa_nodes = 1;
  cpu_ids = [];
  thread_to_cpu = [];
  thread_to_node = [];
}

unfoldable pub detect_numa_topology : Libnuma → ℕ → Outcome Topology
unfolding all_cpus spread_threads
detect_numa_topology numa num_threads =
    if not numa.available then ok single else if leb numa.configured_nodes 1 then ok single else (do
      let cpu_ids = all_cpus numa 0 numa.configured_nodes
      thread_to_cpu ← spread_threads cpu_ids num_threads
      ok (record {
        numa_available = true;
        num_numa_nodes = numa.configured_nodes;
        cpu_ids = cpu_ids;
        thread_to_cpu = thread_to_cpu;
        thread_to_node = distribute numa.configured_nodes 0 num_threads;
      }))
