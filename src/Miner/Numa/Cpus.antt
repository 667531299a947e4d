-- ===== src/Miner/Numa/Cpus.antt =====
-- src/miner.cpp: threads on different CPUs, as `detect_numa_topology` places them.
use juno_miner.Base.{
  ℕ, zero, suc, ◌+◌, ◌%◌, ◌≤◌, ◌<◌, ◌≡◌, refl, sym, ap, ◌∙◌, subst, ◌≢◌, Bool, true, false, Option,
  none, some, List, ◌∷◌, arith, if◌then◌else◌, length, get_elem?, set, take, ok,
}
use native.Mathlib.Nat.{mod-lt, mod-eq_of_lt}
use juno_miner.Miner.Numa.{distribute, count_node}
use juno_miner.Miner.Numa.Dispatch.{count_node-take-lt, count_node-take_mono, get_elem?-distribute}
use juno_miner.Miner.Numa.Topology.{
  Libnuma, Topology, set_bits, node_cpus, all_cpus, spread_threads, detect_numa_topology,
}
use juno_miner.Miner.Numa.Pinning.{
  get_elem?-some, cpu_at, cpu_behind, IsPopulated, spread_threads-Pinned,
}

-- The CPUs of a list are in the mask, from `cpu` on.
abbrev Listed : (ℕ → Bool) → ℕ → List ℕ → Type 0
Listed mask cpu cpus = (i c : ℕ) → get_elem? cpus i ≡ some c → (cpu ≤ c) × (mask c ≡ true)

-- No CPU stands twice in a list.
abbrev Single : List ℕ → Type 0
Single cpus = (i j c : ℕ) → get_elem? cpus i ≡ some c → get_elem? cpus j ≡ some c → i ≡ j

Listed-if :
    (mask : ℕ → Bool) (cpu : ℕ) (b : Bool) (rest : List ℕ)
    → mask cpu ≡ b
    → Listed mask (suc cpu) rest
    → Listed mask cpu (if b then cpu ∷ rest else rest)
Listed-if mask cpu true rest m ih zero c e = ground (arith, m, e)
Listed-if mask cpu true rest m ih (suc i) c e = let (above, set) = ih i c e in (omega arith, set)
Listed-if mask cpu false rest m ih i c e = let (above, set) = ih i c e in (omega arith, set)

set_bits-Listed : (mask : ℕ → Bool) (cpu left : ℕ) → Listed mask cpu (set_bits mask cpu left)
unfolding set_bits
set_bits-Listed mask cpu zero = λ i c e. cc
set_bits-Listed mask cpu (suc left) =
    Listed-if mask cpu (mask cpu) _ refl (set_bits-Listed mask (suc cpu) left)

Single-if :
    (mask : ℕ → Bool) (cpu : ℕ) (b : Bool) (rest : List ℕ)
    → Listed mask (suc cpu) rest
    → Single rest
    → Single (if b then cpu ∷ rest else rest)
Single-if mask cpu true rest listed ih zero zero c e f = refl
Single-if mask cpu true rest listed ih zero (suc j) c e f = absurd (ground (arith, listed j c f, e))
Single-if mask cpu true rest listed ih (suc i) zero c e f = absurd (ground (arith, listed i c e, f))
Single-if mask cpu true rest listed ih (suc i) (suc j) c e f = ap suc (ih i j c e f)
Single-if mask cpu false rest listed ih i j c e f = ih i j c e f

set_bits-Single : (mask : ℕ → Bool) (cpu left : ℕ) → Single (set_bits mask cpu left)
unfolding set_bits
set_bits-Single mask cpu zero = λ i j c e f. cc
set_bits-Single mask cpu (suc left) =
    Single-if mask cpu (mask cpu) _ (set_bits-Listed mask (suc cpu) left)
      (set_bits-Single mask (suc cpu) left)

get_elem?-all_cpus :
    (numa : Libnuma) (node n i : ℕ)
    → i < n
    → get_elem? (all_cpus numa node n) i
      ≡ some (node_cpus numa.configured_cpus (numa.node_to_cpus (node + i)))
unfolding all_cpus
get_elem?-all_cpus numa node zero i h = absurd (omega arith)
get_elem?-all_cpus numa node (suc n) zero h =
    ap (λ (k : ℕ). some (node_cpus numa.configured_cpus (numa.node_to_cpus k))) (omega arith)
get_elem?-all_cpus numa node (suc n) (suc i) h =
    get_elem?-all_cpus numa (suc node) n i (omega arith)
    ∙ ap (λ (k : ℕ). some (node_cpus numa.configured_cpus (numa.node_to_cpus k))) (omega arith)

pub length-all_cpus : (numa : Libnuma) (node n : ℕ) → length (all_cpus numa node n) ≡ n
unfolding all_cpus
length-all_cpus numa node zero = refl
length-all_cpus numa node (suc n) = ap suc (length-all_cpus numa (suc node) n)

-- Whether a node has a CPU, and which CPUs `detect_numa_topology` lists for it
abbrev pub has_cpu : Libnuma → ℕ → ℕ → Bool
has_cpu numa node cpu = elim (numa.node_to_cpus node) [ none ↦ false | some mask ↦ mask cpu ]

abbrev pub listed_cpus : Libnuma → ℕ → List ℕ
listed_cpus numa node = node_cpus numa.configured_cpus (numa.node_to_cpus node)

-- A machine with several nodes, none of which shares a CPU, with a CPU for each thread
pub record IsRoomy (numa : Libnuma) (num_threads : ℕ) : Type 0 where
  pub available : numa.available ≡ true
  pub several : 1 < numa.configured_nodes
  pub apart : (j k cpu : ℕ) → has_cpu numa j cpu ≡ true → has_cpu numa k cpu ≡ true → j ≡ k
  pub populated : (node : ℕ) → node < numa.configured_nodes → 0 < length (listed_cpus numa node)
  pub roomy :
      (node : ℕ)
      → node < numa.configured_nodes
      → count_node node (distribute numa.configured_nodes 0 num_threads)
        ≤ length (listed_cpus numa node)

node_cpus-has_cpu :
    (total_cpus : ℕ) (cpumask : Option (ℕ → Bool)) (i c : ℕ)
    → get_elem? (node_cpus total_cpus cpumask) i ≡ some c
    → elim cpumask [ none ↦ false | some mask ↦ mask c ] ≡ true
unfolding node_cpus
node_cpus-has_cpu total_cpus none i c e = cc
node_cpus-has_cpu total_cpus (some mask) i c e = (set_bits-Listed mask 0 total_cpus i c e).1

node_cpus-Single :
    (total_cpus : ℕ) (cpumask : Option (ℕ → Bool)) → Single (node_cpus total_cpus cpumask)
unfolding node_cpus
node_cpus-Single total_cpus none = λ i j c e f. cc
node_cpus-Single total_cpus (some mask) = set_bits-Single mask 0 total_cpus

all_cpus-IsPopulated :
    (numa : Libnuma) (node n : ℕ)
    → ((i : ℕ) → i < n → 0 < length (listed_cpus numa (node + i)))
    → IsPopulated (all_cpus numa node n)
unfolding all_cpus
all_cpus-IsPopulated numa node zero h = tt
all_cpus-IsPopulated numa node (suc n) h = (
  subst (λ (k : ℕ). 0 < length (listed_cpus numa k)) (omega arith) (h 0 (omega arith)),
  all_cpus-IsPopulated numa (suc node) n λ i p.
      subst (λ (k : ℕ). 0 < length (listed_cpus numa k)) (omega arith) (h (suc i) (omega arith)),
)

cpu_at-some :
    (cpu_ids : List (List ℕ)) (node position : ℕ) (cpus : List ℕ)
    → get_elem? cpu_ids node ≡ some cpus
    → position < length cpus
    → cpu_at cpu_ids node position ≡ get_elem? cpus position
cpu_at-some cpu_ids node position cpus e h = ground (arith, e, mod-eq_of_lt h)

module _ (numa : Libnuma) (num_threads : ℕ) (room : IsRoomy numa num_threads) where
  abbrev nodes : ℕ
  nodes = numa.configured_nodes

  -- The nodes of the threads before `t`
  abbrev before : ℕ → List ℕ
  before t = take t (distribute nodes 0 num_threads)

  abbrev index_of : ℕ → ℕ
  index_of t = count_node (t % nodes) (before t)

  node-lt : (t : ℕ) → t % nodes < nodes
  node-lt t = mod-lt t (omega (arith, room.several))

  node_at :
      (t : ℕ) → t < num_threads → get_elem? (distribute nodes 0 num_threads) t ≡ some (t % nodes)
  node_at t p =
      get_elem?-distribute nodes 0 num_threads t p ∙ ap (λ (u : ℕ). some (u % nodes)) (omega arith)

  index_of-lt : (t : ℕ) → t < num_threads → index_of t < length (listed_cpus numa (t % nodes))
  index_of-lt t p = omega (
    arith,
    count_node-take-lt (distribute nodes 0 num_threads) t (t % nodes) (node_at t p),
    room.roomy (t % nodes) (node-lt t),
  )

  listed_at :
      (node : ℕ)
      → node < nodes
      → get_elem? (all_cpus numa 0 nodes) node ≡ some (listed_cpus numa node)
  listed_at node p =
      get_elem?-all_cpus numa 0 nodes node p
      ∙ ap (λ (k : ℕ). some (listed_cpus numa k)) (omega arith)

  cpu_behind-eq :
      (t : ℕ)
      → t < num_threads
      → let cpu_ids = all_cpus numa 0 nodes in
        cpu_behind cpu_ids (take t (distribute (length cpu_ids) 0 num_threads)) t
        ≡ get_elem? (listed_cpus numa (t % nodes)) (index_of t)
  cpu_behind-eq t p = rw (length-all_cpus numa 0 nodes) (
      cpu_at-some (all_cpus numa 0 nodes) (t % nodes) (index_of t) (listed_cpus numa (t % nodes))
        (listed_at (t % nodes) (node-lt t)) (index_of-lt t p))

  -- The CPU of a thread is on its node.
  cpu_of :
      (t : ℕ)
      → t < num_threads
      → (cpu : ℕ) × (get_elem? (listed_cpus numa (t % nodes)) (index_of t) ≡ some cpu)
        × (has_cpu numa (t % nodes) cpu ≡ true)
  cpu_of t p =
      let (cpu, at) =
        get_elem?-some (listed_cpus numa (t % nodes)) (index_of t) (index_of-lt t p) in
      (
        cpu,
        at,
        node_cpus-has_cpu numa.configured_cpus (numa.node_to_cpus (t % nodes)) (index_of t) cpu at,
      )

  same_cpu :
      (t u c d : ℕ)
      → t < u
      → u < num_threads
      → get_elem? (listed_cpus numa (t % nodes)) (index_of t) ≡ some c
      → get_elem? (listed_cpus numa (u % nodes)) (index_of u) ≡ some d
      → t % nodes ≡ u % nodes
      → c ≢ d
  same_cpu t u c d h p at_t at_u same e =
      let earlier : index_of t < count_node (t % nodes) (before u) =
        count_node-take_mono (distribute nodes 0 num_threads) t u (t % nodes) h
          (node_at t (omega arith)) in
      let at_u' : get_elem? (listed_cpus numa (t % nodes)) (count_node (t % nodes) (before u))
          ≡ some c =
        subst (λ (k : ℕ). get_elem? (listed_cpus numa k) (count_node k (before u)) ≡ some c)
          (sym same) (at_u ∙ ap some (sym e)) in
      absurd (
        omega (
          arith,
          earlier,
          node_cpus-Single numa.configured_cpus (numa.node_to_cpus (t % nodes)) (index_of t)
              (count_node (t % nodes) (before u)) c at_t at_u',
        ))

abbrev several_nodes : Libnuma → ℕ → List ℕ → Topology
several_nodes numa num_threads thread_to_cpu = record {
  numa_available = true;
  num_numa_nodes = numa.configured_nodes;
  cpu_ids = all_cpus numa 0 numa.configured_nodes;
  thread_to_cpu = thread_to_cpu;
  thread_to_node = distribute numa.configured_nodes 0 num_threads;
}

detect_numa_topology-several :
    (numa : Libnuma) (num_threads : ℕ) (out : List ℕ)
    → numa.available ≡ true
    → 1 < numa.configured_nodes
    → spread_threads (all_cpus numa 0 numa.configured_nodes) num_threads ≡ ok out
    → detect_numa_topology numa num_threads ≡ ok (several_nodes numa num_threads out)
unfolding detect_numa_topology
detect_numa_topology-several numa num_threads out available several e = ground (arith, e)

-- On a machine with several nodes that share no CPU, and with a CPU of the node for each of its threads, the
-- detection does not fault, and any two threads are given different CPUs, each one of its own node.
pub detect_numa_topology-distinct :
    (numa : Libnuma) (num_threads t u : ℕ)
    → IsRoomy numa num_threads
    → t < u
    → u < num_threads
    → (topology : Topology) × (detect_numa_topology numa num_threads ≡ ok topology)
      × (c : ℕ) × (d : ℕ) × (get_elem? topology.thread_to_cpu t ≡ some c)
      × (get_elem? topology.thread_to_cpu u ≡ some d)
      × (has_cpu numa (t % numa.configured_nodes) c ≡ true)
      × (has_cpu numa (u % numa.configured_nodes) d ≡ true)
      × (c ≢ d)
detect_numa_topology-distinct numa num_threads t u room h p =
    let q : t < num_threads = omega arith in
    let n = numa.configured_nodes in
    let (c, at_t, on_t) = cpu_of numa num_threads room t q in
    let (d, at_u, on_u) = cpu_of numa num_threads room u p in
    let (out, spread, size, pinned) =
      spread_threads-Pinned (all_cpus numa 0 n) num_threads
        (omega (arith, length-all_cpus numa 0 n, room.several))
        (all_cpus-IsPopulated numa 0 n λ i below.
          subst (λ (k : ℕ). 0 < length (listed_cpus numa k)) (omega arith)
            (room.populated i below)) in
    (
      several_nodes numa num_threads out,
      detect_numa_topology-several numa num_threads out room.available room.several spread,
      c,
      d,
      pinned t q ∙ cpu_behind-eq numa num_threads room t q ∙ at_t,
      pinned u p ∙ cpu_behind-eq numa num_threads room u p ∙ at_u,
      on_t,
      on_u,
      λ e.
          same_cpu numa num_threads room t u c d h p at_t at_u
            (room.apart (t % n) (u % n) c on_t
              (subst (λ (k : ℕ). has_cpu numa (u % n) k ≡ true) (sym e) on_u))
            e,
    )
