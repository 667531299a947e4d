-- ===== src/Resources/Handout.antt =====
-- src/miner.cpp: the VM that `get_vm_for_thread` returns to a thread of a ready miner.
use juno_miner.Base.{
  ℕ, zero, suc, ◌%◌, ◌≤◌, ◌<◌, ◌≡◌, refl, sym, ap, ◌∙◌, inl, inr, Bool, true, false, Option, none,
  some, List, [], ◌∷◌, map, arith, ltb, Bool-cases, Option-cases, length, get_elem?, take, All,
  count, count-append,
}
use native.Mathlib.Nat.{mod-lt}
use juno_miner.Randomx.{Store}
use juno_miner.Miner.Numa.{
  Vm, node_vm, legacy_vm, null_vm, get_vm_for_thread, distribute, threads_per_node, count_node,
}
use juno_miner.Miner.Numa.Dispatch.{sized, count_node-distribute-lt, get_vm_for_thread-eq}
use juno_miner.Resources.{Node, Miner}
use juno_miner.Resources.Vms.{somes}
use juno_miner.Resources.Nodes.{Empty, some-≢-none, node_vms}
use juno_miner.Resources.Loops.{vm_counts}
use juno_miner.Resources.Lifecycle.{on_nodes, Owns, Ready}

-- The pointer at a place; `none` where there is no such place, or a null pointer stands in it
abbrev pub pointer : List (Option ℕ) → ℕ → Option ℕ
pointer vms i = elim (get_elem? vms i) [ none ↦ none | some vm ↦ vm ]

abbrev pub node_pointer : ℕ → Option Node → Option ℕ
node_pointer i none = none
node_pointer i (some node) = pointer node.vms i

abbrev pub vm_at : Miner → Vm → Option ℕ
vm_at m (node_vm node i) = node_pointer i (get_elem? m.numa_nodes node)
vm_at m (legacy_vm i) = pointer m.legacy_vms i
vm_at m null_vm = none

-- The VM that `worker_thread` hashes with
abbrev pub thread_vm : Miner → ℕ → Option ℕ
thread_vm m thread_id = vm_at m (
    get_vm_for_thread m.numa_available m.thread_to_node (vm_counts m.numa_nodes)
      (length m.legacy_vms) thread_id)

somes-le : (vms : List (Option ℕ)) → length (somes vms) ≤ length vms
somes-le [] = omega arith
somes-le (none ∷ vms) = omega (arith, somes-le vms)
somes-le (some h ∷ vms) = omega (arith, somes-le vms)

-- A list without null pointers has a VM in each place.
pointer-full :
    (vms : List (Option ℕ)) (i : ℕ)
    → length (somes vms) ≡ length vms
    → i < length vms
    → (h : ℕ) × (pointer vms i ≡ some h) × (0 < count h (somes vms))
pointer-full [] i e p = absurd (omega arith)
pointer-full (none ∷ vms) i e p = absurd (omega (arith, somes-le vms))
pointer-full (some h ∷ vms) zero e p = (h, refl, ground arith)
pointer-full (some h ∷ vms) (suc i) e p =
    let (j, found, present) = pointer-full vms i (omega arith) (omega arith) in
    (j, found, ground (arith, present))

ltb-eq-true : {a b : ℕ} → a < b → ltb a b ≡ true
ltb-eq-true h = ground arith

All-get_elem? :
    (xs : List ℕ) (i x : ℕ) → All (λ (n : ℕ). n ≡ 0) xs → get_elem? xs i ≡ some x → x ≡ 0
All-get_elem? [] i x z e = absurd (some-≢-none (sym e))
All-get_elem? (y ∷ ys) zero x (z, zs) e = ground (arith, z, e)
All-get_elem? (y ∷ ys) (suc i) x (z, zs) e = All-get_elem? ys i x zs e

Empty-counts : (nodes : List Node) → Empty nodes → All (λ (n : ℕ). n ≡ 0) (vm_counts nodes)
Empty-counts [] empty = tt
Empty-counts (node ∷ nodes) ((no_cache, no_vms), empty) =
    (ap length no_vms, Empty-counts nodes empty)

get_elem?-lt :
    (nodes : List Node) (i : ℕ) → i < length nodes → (node : Node) × (get_elem? nodes i ≡ some node)
get_elem?-lt [] i p = absurd (omega arith)
get_elem?-lt (node ∷ nodes) zero p = (node, refl)
get_elem?-lt (node ∷ nodes) (suc i) p = get_elem?-lt nodes i (omega arith)

get_elem?-map :
    (f : Node → ℕ) (nodes : List Node) (i : ℕ) (node : Node)
    → get_elem? nodes i ≡ some node
    → get_elem? (map f nodes) i ≡ some (f node)
get_elem?-map f [] i node e = cc
get_elem?-map f (k ∷ nodes) zero node e = cc
get_elem?-map f (k ∷ nodes) (suc i) node e = get_elem?-map f nodes i node e

some-injective : {a b : ℕ} → some a ≡ some b → a ≡ b
some-injective e = cc

same_count :
    (f : Node → ℕ) (nodes : List Node) (i : ℕ) (node : Node) (total : ℕ) {counts : List ℕ}
    → get_elem? nodes i ≡ some node
    → map f nodes ≡ counts
    → get_elem? counts i ≡ some total
    → f node ≡ total
same_count f nodes i node total at_node same at_count = some-injective (
    sym (get_elem?-map f nodes i node at_node)
    ∙ ap (λ (xs : List ℕ). get_elem? xs i) same
    ∙ at_count)

abbrev count_vms : ℕ → Option Node → ℕ
count_vms h none = 0
count_vms h (some node) = count h (somes node.vms)

count-node_vms :
    (h : ℕ) (nodes : List Node) (i : ℕ) (node : Node)
    → get_elem? nodes i ≡ some node
    → count h (somes node.vms) ≤ count h (node_vms nodes)
count-node_vms h [] i node e = absurd (some-≢-none (sym e))
count-node_vms h (k ∷ nodes) zero node e =
    omega (arith, count-append h (somes k.vms) (node_vms nodes), ap (count_vms h) e)
count-node_vms h (k ∷ nodes) (suc i) node e =
    omega (arith, count-append h (somes k.vms) (node_vms nodes), count-node_vms h nodes i node e)

handed :
    (m : Miner) (thread_id : ℕ)
    → m.numa_available ≡ true
    → m.thread_to_node ≡ distribute (length m.numa_nodes) 0 m.num_threads
    → vm_counts m.numa_nodes
      ≡ threads_per_node (distribute (length m.numa_nodes) 0 m.num_threads) 0 (length m.numa_nodes)
    → 0 < length m.numa_nodes
    → thread_id < m.num_threads
    → get_vm_for_thread m.numa_available m.thread_to_node
        (vm_counts m.numa_nodes)
        (length m.legacy_vms)
        thread_id
      ≡ node_vm (thread_id % length m.numa_nodes) (
          count_node
            (thread_id % length m.numa_nodes)
            (take thread_id (distribute (length m.numa_nodes) 0 m.num_threads)))
handed m thread_id numa spread sizes several p =
    ap
      (λ (b : Bool).
        get_vm_for_thread b m.thread_to_node (vm_counts m.numa_nodes) (length m.legacy_vms)
          thread_id)
      numa
    ∙ ap
        (λ (t : List ℕ).
          get_vm_for_thread true t (vm_counts m.numa_nodes) (length m.legacy_vms) thread_id)
        spread
    ∙ ap
        (λ (c : List ℕ).
          get_vm_for_thread true (distribute (length m.numa_nodes) 0 m.num_threads) c
            (length m.legacy_vms) thread_id)
        sizes
    ∙ get_vm_for_thread-eq (length m.numa_nodes) m.num_threads (length m.legacy_vms) thread_id
        several p

ltb-zero : (a : ℕ) → ltb a 0 ≡ false
ltb-zero a = ground arith

-- Without VMs in the nodes, a thread gets its VM of `legacy_vms_`.
fallback :
    (numa : Bool) (thread_to_node counts : List ℕ) (legacy thread_id : ℕ)
    → (numa ≡ true → All (λ (n : ℕ). n ≡ 0) counts)
    → thread_id < legacy
    → get_vm_for_thread numa thread_to_node counts legacy thread_id ≡ legacy_vm thread_id
unfolding get_vm_for_thread
fallback false thread_to_node counts legacy thread_id z p = rw (ltb-eq-true p)
fallback true thread_to_node counts legacy thread_id z p =
    elim (Option-cases (get_elem? thread_to_node thread_id)) [
      | inl absent ↦ rw (absent, ltb-eq-true p)
      | inr (node, e) ↦ elim (Option-cases (get_elem? counts node)) [
        | inl absent ↦ rw (e, absent, ltb-eq-true p)
        | inr (size, f) ↦ rw (
          e,
          f,
          All-get_elem? counts node size (z refl) f,
          ltb-zero (count_node node (take thread_id thread_to_node)),
          ltb-eq-true p,
        )
      ]
    ]

list_vm :
    (m : Miner) (s : Store) (thread_id : ℕ)
    → Owns m s
    → Ready m s
    → on_nodes m ≡ false
    → thread_id < m.num_threads
    → (h : ℕ) × (thread_vm m thread_id ≡ some h) × (s.seed_of h ≡ m.current_seed_hash)
list_vm m s thread_id v r apart p =
    let (seeded, places, number) = r.list_ready apart in
    let inside : thread_id < length m.legacy_vms = omega (arith, p, places) in
    let (h, found, present) = pointer-full m.legacy_vms thread_id (number ∙ sym places) inside in
    (
      h,
      ap (vm_at m) (
            fallback m.numa_available m.thread_to_node (vm_counts m.numa_nodes)
              (length m.legacy_vms) thread_id (λ _. Empty-counts m.numa_nodes (v.apart apart))
              inside)
          ∙ found,
      seeded h present,
    )

node_lem :
    (m : Miner) (s : Store) (thread_id : ℕ)
    → Owns m s
    → Ready m s
    → on_nodes m ≡ true
    → 0 < length m.numa_nodes
    → thread_id < m.num_threads
    → (h : ℕ) × (thread_vm m thread_id ≡ some h) × (s.seed_of h ≡ m.current_seed_hash)
node_lem m s thread_id v r on several p =
    let (seeded, sizes, numbers) = r.nodes_ready on in
    let numa : m.numa_available ≡ true = ground (arith, on) in
    let spread = v.spread numa in
    let n = length m.numa_nodes in
    let (node, at_node) = get_elem?-lt m.numa_nodes (thread_id % n) (mod-lt thread_id several) in
    let index = count_node (thread_id % n) (take thread_id (distribute n 0 m.num_threads)) in
    let total = count_node (thread_id % n) (distribute n 0 m.num_threads) in
    let counts : threads_per_node m.thread_to_node 0 n
        ≡ threads_per_node (distribute n 0 m.num_threads) 0 n =
      ap (λ (t : List ℕ). threads_per_node t 0 n) spread in
    let size : length node.vms ≡ total =
      same_count (λ (k : Node). length k.vms) m.numa_nodes (thread_id % n) node total at_node
        (sizes ∙ counts) (sized n m.num_threads thread_id several) in
    let number : length (somes node.vms) ≡ total =
      same_count (λ (k : Node). length (somes k.vms)) m.numa_nodes (thread_id % n) node total
        at_node (numbers ∙ counts) (sized n m.num_threads thread_id several) in
    let (h, found, present) =
      pointer-full node.vms index (number ∙ sym size)
        (omega (arith, size, count_node-distribute-lt n m.num_threads thread_id p)) in
    (
      h,
      ap (vm_at m) (handed m thread_id numa spread (sizes ∙ counts) several p)
          ∙ ap (node_pointer index) at_node
          ∙ found,
      seeded h (omega (arith, present, count-node_vms h m.numa_nodes (thread_id % n) node at_node)),
    )

-- Every thread of a ready miner that owns its objects is given a VM, not a null pointer, and its contents come
-- from the miner's seed, given that there are nodes where NUMA is available.
pub thread_vm-Seeded :
    (m : Miner) (s : Store) (thread_id : ℕ)
    → Owns m s
    → Ready m s
    → (m.numa_available ≡ true → 0 < length m.numa_nodes)
    → thread_id < m.num_threads
    → (h : ℕ) × (thread_vm m thread_id ≡ some h) × (s.seed_of h ≡ m.current_seed_hash)
thread_vm-Seeded m s thread_id v r several p = elim (Bool-cases (on_nodes m)) [
  | inl on ↦ node_lem m s thread_id v r on (several (ground (arith, on))) p
  | inr apart ↦ list_vm m s thread_id v r apart p
]
