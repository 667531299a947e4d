-- ===== src/Miner/Numa/Tests.antt =====
-- Two NUMA nodes with five threads, and a dataset in three parts.
use juno_miner.Base.{
  ℕ, zero, suc, ◌+◌, ◌-◌, ◌%◌, ◌≤◌, ◌<◌, ◌≡◌, refl, ◌≢◌, ◌⊎◌, true, some, arith, ◌==◌, length,
  get_elem?, ok,
}
use juno_miner.Miner.Numa.{
  node_vm, get_vm_for_thread, distribute, threads_per_node, count_node, dataset_part,
}
use juno_miner.Miner.Numa.Topology.{Libnuma, Topology, node_cpus, set_bits, detect_numa_topology}
use juno_miner.Miner.Numa.Cpus.{IsRoomy, has_cpu, listed_cpus, detect_numa_topology-distinct}
use juno_miner.Miner.Numa.Dispatch.{numa_vm, get_vm_for_thread-injective}
use juno_miner.Miner.Numa.Dataset.{dataset_part-partition}

third_thread : numa_vm 2 5 2 ≡ node_vm 0 1
unfolding get_vm_for_thread distribute threads_per_node count_node
third_thread = refl

get_vm_for_thread-injective_example :
    ((i : ℕ) × (i < count_node (4 % 2) (distribute 2 0 5)) × (numa_vm 2 5 4 ≡ node_vm (4 % 2) i))
    × (◌≡◌ {A = ℕ} 4 2 ⊎ (numa_vm 2 5 4 ≢ numa_vm 2 5 2))
get_vm_for_thread-injective_example =
    get_vm_for_thread-injective 2 5 4 2 (omega arith) (omega arith) (omega arith)

dataset_part-partition_example :
    ((dataset_part 100 3 0).0 ≡ 0)
    × ((t : ℕ)
        → suc t < 3
        → (dataset_part 100 3 (suc t)).0 ≡ (dataset_part 100 3 t).0 + (dataset_part 100 3 t).1)
    × ((dataset_part 100 3 (3 - 1)).0 + (dataset_part 100 3 (3 - 1)).1 ≡ 100)
dataset_part-partition_example = dataset_part-partition 100 3 (omega arith)

-- Even CPUs on one node, odd ones on the other
abbrev two_nodes : Libnuma
two_nodes = record {
  available = true;
  configured_nodes = 2;
  configured_cpus = 8;
  node_to_cpus = λ node. some (λ cpu. cpu % 2 == node);
}

two_nodes-IsRoomy : IsRoomy two_nodes 5
unfolding node_cpus set_bits count_node distribute
two_nodes-IsRoomy = record {
  available = refl;
  several = omega arith;
  apart = λ j k cpu on_j on_k. ground (arith, on_j, on_k);
  populated = λ node h. populated node h;
  roomy = λ node h. roomy node h;
}
  where
    populated : (node : ℕ) → node < 2 → 0 < length (listed_cpus two_nodes node)
    populated zero h = omega arith
    populated (suc zero) h = omega arith
    populated (suc (suc node)) h = absurd (omega arith)

    roomy :
        (node : ℕ)
        → node < 2
        → count_node node (distribute 2 0 5) ≤ length (listed_cpus two_nodes node)
    roomy zero h = omega arith
    roomy (suc zero) h = omega arith
    roomy (suc (suc node)) h = absurd (omega arith)

detect_numa_topology-distinct_example :
    (topology : Topology) × (detect_numa_topology two_nodes 5 ≡ ok topology)
    × (c : ℕ) × (d : ℕ) × (get_elem? topology.thread_to_cpu 1 ≡ some c)
    × (get_elem? topology.thread_to_cpu 3 ≡ some d)
    × (has_cpu two_nodes (1 % 2) c ≡ true)
    × (has_cpu two_nodes (3 % 2) d ≡ true)
    × (c ≢ d)
detect_numa_topology-distinct_example =
    detect_numa_topology-distinct two_nodes 5 1 3 two_nodes-IsRoomy (omega arith) (omega arith)
