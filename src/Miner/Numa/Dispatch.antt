-- ===== src/Miner/Numa/Dispatch.antt =====
-- src/miner.cpp: the VMs that `get_vm_for_thread` gives to the threads.
use juno_miner.Base.{
  ℕ, zero, suc, ◌+◌, ◌%◌, ◌<◌, ◌≡◌, sym, ap, ◌∙◌, subst, ◌≢◌, ◌⊎◌, inl, inr, true, some, List, [],
  ◌∷◌, arith, ltb, get_elem?, take,
}
use native.Mathlib.Nat.{mod-lt}
use juno_miner.Miner.Numa.{Vm, node_vm, count_node, threads_per_node, get_vm_for_thread, distribute}

ltb-eq-true : {a b : ℕ} → a < b → ltb a b ≡ true
ltb-eq-true h = ground arith

pub count_node-take-lt :
    (xs : List ℕ) (t node : ℕ)
    → get_elem? xs t ≡ some node
    → count_node node (take t xs) < count_node node xs
unfolding count_node
count_node-take-lt [] t node e = cc
count_node-take-lt (x ∷ xs) zero node e = ground arith
count_node-take-lt (x ∷ xs) (suc t) node e = ground (arith, count_node-take-lt xs t node e)

-- Threads of one node that come one after the other have different indices.
pub count_node-take_mono :
    (xs : List ℕ) (t u node : ℕ)
    → t < u
    → get_elem? xs t ≡ some node
    → count_node node (take t xs) < count_node node (take u xs)
unfolding count_node
count_node-take_mono [] t u node h e = cc
count_node-take_mono (x ∷ xs) t zero node h e = absurd (omega arith)
count_node-take_mono (x ∷ xs) zero (suc u) node h e = ground arith
count_node-take_mono (x ∷ xs) (suc t) (suc u) node h e =
    ground (arith, count_node-take_mono xs t u node (omega arith) e)

get_elem?-threads_per_node :
    (xs : List ℕ) (node n i : ℕ)
    → i < n
    → get_elem? (threads_per_node xs node n) i ≡ some (count_node (node + i) xs)
unfolding threads_per_node
get_elem?-threads_per_node xs node zero i h = absurd (omega arith)
get_elem?-threads_per_node xs node (suc n) zero h = ap (λ m. some (count_node m xs)) (omega arith)
get_elem?-threads_per_node xs node (suc n) (suc i) h =
    get_elem?-threads_per_node xs (suc node) n i (omega arith)
    ∙ ap (λ m. some (count_node m xs)) (omega arith)

pub get_elem?-distribute :
    (nodes t n i : ℕ) → i < n → get_elem? (distribute nodes t n) i ≡ some ((t + i) % nodes)
unfolding distribute
get_elem?-distribute nodes t zero i h = absurd (omega arith)
get_elem?-distribute nodes t (suc n) zero h = ap (λ m. some (m % nodes)) (omega arith)
get_elem?-distribute nodes t (suc n) (suc i) h =
    get_elem?-distribute nodes (suc t) n i (omega arith) ∙ ap (λ m. some (m % nodes)) (omega arith)

-- The VMs after `initialize` in light mode on `nodes` nodes with `num_threads` threads.
abbrev pub numa_vm : ℕ → ℕ → ℕ → Vm
numa_vm nodes num_threads =
    get_vm_for_thread true (distribute nodes 0 num_threads)
      (threads_per_node (distribute nodes 0 num_threads) 0 nodes) 0

pub sized :
    (nodes num_threads t : ℕ)
    → 0 < nodes
    → get_elem? (threads_per_node (distribute nodes 0 num_threads) 0 nodes) (t % nodes)
      ≡ some (count_node (t % nodes) (distribute nodes 0 num_threads))
sized nodes num_threads t hn =
    get_elem?-threads_per_node (distribute nodes 0 num_threads) 0 nodes (t % nodes) (mod-lt t hn)
    ∙ ap (λ node. some (count_node node (distribute nodes 0 num_threads))) (omega arith)

on_node :
    (nodes num_threads t : ℕ)
    → t < num_threads
    → get_elem? (distribute nodes 0 num_threads) t ≡ some (t % nodes)
on_node nodes num_threads t ht =
    get_elem?-distribute nodes 0 num_threads t ht ∙ ap (λ k. some (k % nodes)) (omega arith)

-- A thread's place on its node is one of those that the node has.
pub count_node-distribute-lt :
    (nodes num_threads t : ℕ)
    → t < num_threads
    → count_node (t % nodes) (take t (distribute nodes 0 num_threads))
      < count_node (t % nodes) (distribute nodes 0 num_threads)
count_node-distribute-lt nodes num_threads t ht =
    count_node-take-lt (distribute nodes 0 num_threads) t (t % nodes)
      (on_node nodes num_threads t ht)

-- Whatever `legacy_vms_` holds, a thread gets the VM of its place on its node.
pub get_vm_for_thread-eq :
    (nodes num_threads legacy t : ℕ)
    → 0 < nodes
    → t < num_threads
    → get_vm_for_thread true
        (distribute nodes 0 num_threads)
        (threads_per_node (distribute nodes 0 num_threads) 0 nodes)
        legacy
        t
      ≡ node_vm (t % nodes) (count_node (t % nodes) (take t (distribute nodes 0 num_threads)))
unfolding get_vm_for_thread
get_vm_for_thread-eq nodes num_threads legacy t hn ht = rw (
  on_node nodes num_threads t ht,
  sized nodes num_threads t hn,
  ltb-eq-true (count_node-distribute-lt nodes num_threads t ht),
)

numa_vm-eq :
    (nodes num_threads t : ℕ)
    → 0 < nodes
    → t < num_threads
    → numa_vm nodes num_threads t
      ≡ node_vm (t % nodes) (count_node (t % nodes) (take t (distribute nodes 0 num_threads)))
numa_vm-eq nodes num_threads t hn ht = get_vm_for_thread-eq nodes num_threads 0 t hn ht

abbrev node_of : Vm → ℕ
node_of (node_vm n i) = n
node_of _ = 0

abbrev index_of : Vm → ℕ
index_of (node_vm n i) = i
index_of _ = 0

node_vm-injective : {n i m j : ℕ} → node_vm n i ≡ node_vm m j → (n ≡ m) × (i ≡ j)
node_vm-injective e = (ap node_of e, ap index_of e)

not_lt_self : {k : ℕ} → ¬ (k < k)
not_lt_self h = omega arith

earlier-ne :
    (nodes num_threads t u : ℕ)
    → 0 < nodes
    → t < u
    → u < num_threads
    → numa_vm nodes num_threads t ≢ numa_vm nodes num_threads u
earlier-ne nodes num_threads t u hn ht hu e =
    let threads = distribute nodes 0 num_threads in
    let at_t = numa_vm-eq nodes num_threads t hn (omega arith) in
    let at_u = numa_vm-eq nodes num_threads u hn hu in
    let (same, index) = node_vm-injective (sym at_t ∙ e ∙ at_u) in
    not_lt_self (
      subst (λ k. k < count_node (t % nodes) (take u threads))
        (index ∙ ap (λ node. count_node node (take u threads)) (sym same))
        (count_node-take_mono threads t u (t % nodes) ht
          (on_node nodes num_threads t (omega arith))))

ℕ_trichotomy : (a b : ℕ) → (a < b) ⊎ ((a ≡ b) ⊎ (b < a))
ℕ_trichotomy a b = omega arith

-- On `nodes` NUMA nodes, at least one, in light mode, each thread below `num_threads`, the last one included, gets
-- a VM that its own node has, and two different threads never get the same.
pub get_vm_for_thread-injective :
    (nodes num_threads t u : ℕ)
    → 0 < nodes
    → t < num_threads
    → u < num_threads
    → ((i : ℕ) × (i < count_node (t % nodes) (distribute nodes 0 num_threads))
        × (numa_vm nodes num_threads t ≡ node_vm (t % nodes) i))
      × ((t ≡ u) ⊎ (numa_vm nodes num_threads t ≢ numa_vm nodes num_threads u))
get_vm_for_thread-injective nodes num_threads t u hn ht hu = (
  (_, count_node-distribute-lt nodes num_threads t ht, numa_vm-eq nodes num_threads t hn ht),
  elim (ℕ_trichotomy t u) [
    | inl below ↦ inr (earlier-ne nodes num_threads t u hn below hu)
    | inr (inl same) ↦ inl same
    | inr (inr above) ↦ inr (λ e. earlier-ne nodes num_threads u t hn above ht (sym e))
  ],
)
