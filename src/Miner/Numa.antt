-- ===== src/Miner/Numa.antt =====
-- src/miner.cpp: how threads are spread over the NUMA nodes and which VM each one hashes with.
pub mod Dispatch
pub mod Dataset
pub mod Topology
pub mod Pinning
pub mod Cpus
mod Tests
use juno_miner.Base.{
  ℕ, zero, suc, ◌+◌, ◌-◌, ◌*◌, ◌/◌, ◌%◌, min, Bool, none, some, List, [], ◌∷◌, ltb, ◌==◌,
  if◌then◌else◌, get_elem?, take,
}

-- `thread_to_node_`: round-robin over the nodes, from thread `t` on
unfoldable pub distribute : ℕ → ℕ → ℕ → List ℕ
distribute nodes t zero = []
distribute nodes t (suc n) = t % nodes ∷ distribute nodes (suc t) n

-- The threads of a list that sit on `node`
unfoldable pub count_node : ℕ → List ℕ → ℕ
count_node node [] = 0
count_node node (m ∷ ms) = if m == node then suc (count_node node ms) else count_node node ms

-- A VM by where it is kept: `numa_nodes_[node].vms[index]`, or `legacy_vms_[index]`
pub data Vm : Type 0 where
  node_vm : ℕ → ℕ → Vm
  legacy_vm : ℕ → Vm
  null_vm : Vm

-- `legacy_vms_[thread_id]`, where there is one
abbrev pub fallback_vm : ℕ → ℕ → Vm
fallback_vm legacy thread_id = if ltb thread_id legacy then legacy_vm thread_id else null_vm

-- `get_vm_for_thread`; `vms` gives the size of each node's `vms`, and `legacy` that of `legacy_vms_`.
unfoldable pub get_vm_for_thread : Bool → List ℕ → List ℕ → ℕ → ℕ → Vm
unfolding count_node
get_vm_for_thread numa_available thread_to_node vms legacy thread_id =
    if numa_available
    then elim (get_elem? thread_to_node thread_id) [
      | none ↦ fallback_vm legacy thread_id
      | some node ↦ elim (get_elem? vms node) [
        | none ↦ fallback_vm legacy thread_id
        | some size ↦
            if ltb (count_node node (take thread_id thread_to_node)) size
            then node_vm node (count_node node (take thread_id thread_to_node))
            else fallback_vm legacy thread_id
      ]
    ]
    else fallback_vm legacy thread_id

-- `threads_per_node`, the sizes that `initialize` gives the nodes' `vms`, from node `node` on
unfoldable pub threads_per_node : List ℕ → ℕ → ℕ → List ℕ
unfolding count_node
threads_per_node thread_to_node node zero = []
threads_per_node thread_to_node node (suc n) =
    count_node node thread_to_node ∷ threads_per_node thread_to_node (suc node) n

-- The part of the dataset that initialization thread `t` fills: where it starts and how many items
unfoldable pub dataset_part : ℕ → ℕ → ℕ → ℕ × ℕ
dataset_part item_count init_threads t = (
  t * (item_count / init_threads),
  (item_count / init_threads) + (if t == init_threads - 1 then item_count % init_threads else 0),
)

-- The number of initialization threads: at least one
abbrev pub init_threads : ℕ → ℕ → ℕ
init_threads num_threads hardware_threads =
    if min num_threads hardware_threads == 0 then 1 else min num_threads hardware_threads
