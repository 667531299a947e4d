-- ===== src/Resources.antt =====
-- src/miner.cpp: the RandomX caches, datasets and VMs that `Miner` holds, from `initialize` over
-- `update_seed` and `set_thread_count` to the destructor.
pub mod Vms
pub mod Nodes
pub mod Loops
pub mod Lifecycle
pub mod Updates
pub mod Threads
pub mod Handout
mod Tests
use juno_miner.Base.{
  ℕ, zero, suc, Bool, true, false, ◌&&◌, not, Option, none, some, List, [], ◌∷◌, ◌++◌, ltb, ◌==◌,
  if◌then◌else◌, length, take, replicate, Bytes, bytes_eq, Outcome, ok, throws, undefined,
}
use juno_miner.Miner.Numa.{distribute, threads_per_node}
use juno_miner.Miner.Numa.Topology.{spread_threads}
use juno_miner.Randomx.{
  Cmd, Run, done, fault, pure, ◌>>=◌, ◌>>◌, need, init_cache, refill, release, alloc, create_vm,
}

-- `NumaNodeResources`
pub record Node : Type 0 where
  pub cache : Option ℕ
  pub vms : List (Option ℕ)

-- The members of `Miner` that hold or govern the RandomX objects; a null pointer is `none`. `unjoined` is whether
-- `threads_` is not empty, and `cpu_ids` has the CPUs of each node.
pub record Miner : Type 0 where
  pub num_threads : ℕ
  pub fast_mode : Bool
  pub mining : Bool
  pub unjoined : Bool
  pub current_seed_hash : Bytes
  pub dataset : Option ℕ
  pub numa_available : Bool
  pub numa_nodes : List Node
  pub cpu_ids : List (List ℕ)
  pub thread_to_cpu : List ℕ
  pub thread_to_node : List ℕ
  pub legacy_cache : Option ℕ
  pub legacy_vms : List (Option ℕ)

-- `stop`: `mining_` is cleared and the threads are joined.
abbrev pub stop : Miner → Miner
stop m = record m { mining = false; unjoined = false }

-- `bool was_mining = mining_.load(); if (was_mining) stop();`
unfoldable pub stop_if_mining : Miner → Miner
stop_if_mining m = if m.mining then stop m else m

-- A value of the model, or a fault where it is undefined
abbrev pub lift : {A : Type 0} → Outcome A → Cmd A
lift outcome = elim outcome [ ok a ↦ pure a | throws e ↦ λ s. fault | undefined ↦ λ s. fault ]

-- `if (p) release(p);`
abbrev pub release_if : Option ℕ → Cmd (Unit {0})
release_if none = pure tt
release_if (some h) = release h

-- `for (auto vm : vms) if (vm) randomx_destroy_vm(vm);`
unfoldable pub destroy_vms : List (Option ℕ) → Cmd (Unit {0})
destroy_vms [] = pure tt
destroy_vms (vm ∷ vms) = release_if vm >> destroy_vms vms

unfoldable pub release_nodes : List Node → Cmd (List Node)
unfolding destroy_vms
release_nodes [] = pure []
release_nodes (node ∷ nodes) = do
  destroy_vms node.vms
  release_if node.cache
  rest ← release_nodes nodes
  pure (record { cache = none; vms = [] } ∷ rest)

-- What `~Miner` does after `stop`; `set_thread_count` cleans up likewise.
unfoldable pub release_legacy : Miner → Cmd Miner
unfolding destroy_vms
release_legacy m = do
  destroy_vms m.legacy_vms
  release_if m.legacy_cache
  release_if m.dataset
  pure (record m { legacy_vms = []; legacy_cache = none; dataset = none })

unfoldable pub destructor : Miner → Cmd Miner
unfolding release_nodes release_legacy
destructor m = do
  nodes ← release_nodes m.numa_nodes
  release_legacy (record (stop m) { numa_nodes = [] })

-- `std::vector::resize` with null pointers
abbrev pub resize : ℕ → List (Option ℕ) → List (Option ℕ)
resize n vms = take n (vms ++ replicate n none)

-- The size check comes after the seed's first 32 bytes have been printed.
unfoldable pub check_seed : Bytes → Cmd Bool
check_seed seed s = if ltb (length seed) 32 then fault else done (length seed == 32) s

-- `randomx_vm_set_dataset` for each VM there is
unfoldable pub set_datasets : ℕ → List (Option ℕ) → Cmd (Unit {0})
set_datasets dataset [] = pure tt
set_datasets dataset (none ∷ vms) = set_datasets dataset vms
set_datasets dataset (some vm ∷ vms) = refill vm dataset >> set_datasets dataset vms

-- A place of the list is filled; a null pointer ends the loop.
abbrev pub place_vm :
    Option ℕ → List (Option ℕ) → Cmd (List (Option ℕ) × Bool) → Cmd (List (Option ℕ) × Bool)
place_vm none vms next = pure (none ∷ vms, false)
place_vm (some vm) vms next = do (rest, all) ← next; pure (some vm ∷ rest, all)

-- A node is done; `return false` ends the loop.
abbrev pub place_node : Node → Bool → List Node → Cmd (List Node × Bool) → Cmd (List Node × Bool)
place_node node false nodes next = pure (node ∷ nodes, false)
place_node node true nodes next = do (rest, all) ← next; pure (node ∷ rest, all)

module _ (grants : ℕ → Bool) where
  -- `vms[i] = randomx_create_vm(...)` for each place
  unfoldable pub create_vms : Option ℕ → List (Option ℕ) → Cmd (List (Option ℕ) × Bool)
  create_vms memory [] = pure ([], true)
  create_vms memory (old ∷ vms) = do
    vm ← create_vm grants memory
    place_vm vm vms (create_vms memory vms)

  -- The same, where each place's old VM is destroyed first
  unfoldable pub recreate_vms : Option ℕ → List (Option ℕ) → Cmd (List (Option ℕ) × Bool)
  recreate_vms memory [] = pure ([], true)
  recreate_vms memory (old ∷ vms) = do
    release_if old
    vm ← create_vm grants memory
    place_vm vm vms (recreate_vms memory vms)

  -- One node of `initialize`, with its number of threads and its new cache
  unfoldable pub fill_node : Bytes → ℕ → Node → Option ℕ → Cmd (Node × Bool)
  unfolding create_vms
  fill_node seed threads node none = pure (record node { cache = none }, false)
  fill_node seed threads node (some cache) = do
    init_cache cache seed
    (vms, all) ← create_vms (some cache) (resize threads node.vms)
    pure (record { cache = some cache; vms = vms }, all)

  -- The loop over the nodes in `initialize`; nodes without threads are passed over.
  unfoldable pub fill_nodes : Bytes → List ℕ → List Node → Cmd (List Node × Bool)
  unfolding fill_node
  fill_nodes seed [] nodes = pure (nodes, true)
  fill_nodes seed (threads ∷ counts) [] = λ s. fault
  fill_nodes seed (zero ∷ counts) (node ∷ nodes) =
      place_node node true nodes (fill_nodes seed counts nodes)
  fill_nodes seed (suc threads ∷ counts) (node ∷ nodes) = do
    cache ← alloc grants
    (node', all) ← fill_node seed (suc threads) node cache
    place_node node' all nodes (fill_nodes seed counts nodes)

  -- One node of `update_seed`
  unfoldable pub update_node : Bytes → Node → Option ℕ → Cmd (Node × Bool)
  unfolding recreate_vms
  update_node seed node none = pure (node, true)
  update_node seed node (some cache) = do
    init_cache cache seed
    (vms, all) ← recreate_vms (some cache) node.vms
    pure (record { cache = some cache; vms = vms }, all)

  unfoldable pub update_nodes : Bytes → List Node → Cmd (List Node × Bool)
  unfolding update_node
  update_nodes seed [] = pure ([], true)
  update_nodes seed (node ∷ nodes) = do
    (node', all) ← update_node seed node node.cache
    place_node node' all nodes (update_nodes seed nodes)

  -- The end of `initialize`: a VM for each thread, on the dataset or on the cache
  unfoldable pub initialize_vms : Miner → Cmd (Miner × Bool)
  unfolding create_vms
  initialize_vms m = do
    (vms, all) ←
        create_vms (if m.fast_mode then m.dataset else m.legacy_cache)
          (resize m.num_threads m.legacy_vms)
    pure (record m { legacy_vms = vms }, all)

  unfoldable pub initialize_numa : Bytes → Miner → Cmd (Miner × Bool)
  unfolding fill_nodes
  initialize_numa seed m = do
    (nodes, all) ←
        fill_nodes seed (threads_per_node m.thread_to_node 0 (length m.numa_nodes)) m.numa_nodes
    pure (record m { numa_nodes = nodes }, all)

  -- `initialize` from the allocation of the dataset on
  unfoldable pub initialize_dataset : ℕ → Miner → Option ℕ → Cmd (Miner × Bool)
  unfolding initialize_vms
  initialize_dataset cache m none = do
    release cache
    pure (record m { dataset = none; legacy_cache = none }, false)
  initialize_dataset cache m (some dataset) = do
    refill dataset cache
    initialize_vms (record m { dataset = some dataset })

  -- `initialize` from the allocation of the cache on
  unfoldable pub initialize_cache : Bytes → Miner → Option ℕ → Cmd (Miner × Bool)
  unfolding initialize_dataset initialize_numa
  initialize_cache seed m none = pure (record m { legacy_cache = none }, false)
  initialize_cache seed m (some cache) =
      let m' : Miner = record m { legacy_cache = some cache } in
      init_cache cache seed
      >> (if m.fast_mode
          then (do dataset ← alloc grants; initialize_dataset cache m' dataset)
          else if m.numa_available
          then initialize_numa seed m'
          else initialize_vms m')

  unfoldable pub initialize : Bytes → Miner → Cmd (Miner × Bool)
  unfolding check_seed initialize_cache
  initialize seed m = do
    valid ← check_seed seed
    if valid
        then (do
          cache ← alloc grants
          initialize_cache seed (record m { current_seed_hash = seed }) cache)
        else pure (m, false)

  -- `update_seed` with a cache, behind its initialization, on the dataset if there is one in fast mode. A VM
  -- for fast mode is not made from a cache.
  unfoldable pub update_legacy : ℕ → Miner → Option ℕ → Cmd (Miner × Bool)
  unfolding set_datasets recreate_vms
  update_legacy cache m none = do
    (vms, all) ← recreate_vms (if m.fast_mode then none else some cache) m.legacy_vms
    pure (record m { legacy_vms = vms }, all)
  update_legacy cache m (some dataset) = do
    refill dataset cache
    set_datasets dataset m.legacy_vms
    pure (m, true)

  -- The path of `update_seed` without NUMA or in fast mode
  unfoldable pub update_cache : Bytes → Miner → Option ℕ → Cmd (Miner × Bool)
  unfolding update_legacy
  update_cache seed m none = pure (m, false)
  update_cache seed m (some cache) = do
    init_cache cache seed
    update_legacy cache (record m { current_seed_hash = seed })
        (if m.fast_mode then m.dataset else none)

  unfoldable pub update_numa : Bytes → Miner → Cmd (Miner × Bool)
  unfolding update_nodes
  update_numa seed m = do
    (nodes, all) ← update_nodes seed m.numa_nodes
    pure (record m { current_seed_hash = seed; numa_nodes = nodes }, all)

  unfoldable pub update_seed : Bytes → Miner → Cmd (Miner × Bool)
  unfolding check_seed update_cache update_numa stop_if_mining
  update_seed seed m = do
    valid ← check_seed seed
    if valid
        then if bytes_eq seed m.current_seed_hash
          then pure (m, true)
          else if m.numa_available && not m.fast_mode
          then update_numa seed (stop_if_mining m)
          else update_cache seed (stop_if_mining m) m.legacy_cache
        else pure (m, false)

  -- There is no seed before the first `initialize`.
  unfoldable pub reinitialize : Bytes → Miner → Cmd (Miner × Bool)
  unfolding initialize
  reinitialize [] m = pure (m, true)
  reinitialize (b ∷ bs) m = initialize (b ∷ bs) m

  -- The part of `set_thread_count` behind the release of the old objects: the threads are spread over the nodes'
  -- CPUs, which is undefined at a node without CPUs, and the miner is initialized again.
  unfoldable pub restart : ℕ → Miner → Cmd (Miner × Bool)
  unfolding reinitialize
  restart new_thread_count m =
      if m.numa_available
      then (do
        thread_to_cpu ← lift (spread_threads m.cpu_ids new_thread_count)
        reinitialize m.current_seed_hash (record m {
          num_threads = new_thread_count;
          thread_to_cpu = thread_to_cpu;
          thread_to_node = distribute (length m.numa_nodes) 0 new_thread_count;
        }))
      else reinitialize m.current_seed_hash (record m { num_threads = new_thread_count })

  unfoldable pub set_thread_count : ℕ → Miner → Cmd (Miner × Bool)
  unfolding release_nodes release_legacy restart stop_if_mining
  set_thread_count new_thread_count m =
      if new_thread_count == 0
      then pure (m, false)
      else if new_thread_count == m.num_threads
      then pure (m, true)
      else (do
        nodes ← if m.numa_available then release_nodes m.numa_nodes else pure m.numa_nodes
        cleared ← release_legacy (record (stop_if_mining m) { numa_nodes = nodes })
        restart new_thread_count cleared)
