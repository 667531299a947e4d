-- ===== src/Resources/Tests.antt =====
-- A miner on two NUMA nodes with three threads, one on a single node in fast mode, and an allocation that
-- fails.
use juno_miner.Base.{
  ℕ, ◌<◌, ◌≡◌, refl, ◌≢◌, true, false, none, some, [], ◌∷◌, arith, ltb, ◌==◌, if◌then◌else◌,
  false-≢-true, replicate, count, Bytes,
}
use juno_miner.Randomx.{Store, done, need, fill, alloc, create_vm}
use juno_miner.Randomx.Returns.{Returns, Holds}
use juno_miner.Miner.Numa.{distribute, threads_per_node, count_node}
use juno_miner.Resources.{
  Node, Miner, initialize, update_seed, set_thread_count, destructor, check_seed, initialize_cache,
  initialize_numa, fill_nodes, fill_node, create_vms,
}
use juno_miner.Resources.Lifecycle.{
  IsClear, Owns, Ready, Sound, destructor-Returns, initialize-Sound,
}
use juno_miner.Resources.Updates.{Updated, update_seed-Updated}
use juno_miner.Resources.Threads.{Changed, set_thread_count-Changed}
use juno_miner.Resources.Handout.{thread_vm, thread_vm-Seeded}

abbrev seed : Bytes
seed = replicate 32 7

abbrev other_seed : Bytes
other_seed = replicate 32 8

abbrev start : Store
start = record { next = 0; live = []; seed_of = λ h. [] }

abbrev node : Node
node = record { cache = none; vms = [] }

abbrev constructed : Miner
constructed = record {
  num_threads = 3;
  fast_mode = false;
  mining = false;
  unjoined = false;
  current_seed_hash = [];
  dataset = none;
  numa_available = true;
  numa_nodes = node ∷ node ∷ [];
  cpu_ids = (0 ∷ 1 ∷ []) ∷ (2 ∷ []) ∷ [];
  thread_to_cpu = 0 ∷ 2 ∷ 1 ∷ [];
  thread_to_node = 0 ∷ 1 ∷ 0 ∷ [];
  legacy_cache = none;
  legacy_vms = [];
}

constructed-IsClear : IsClear constructed
unfolding distribute
constructed-IsClear = record {
  no_vms = refl;
  no_cache = refl;
  no_dataset = refl;
  empty = ((refl, refl), ((refl, refl), tt));
  spread = λ f. refl;
}

start-Holds : Holds [] start
start-Holds = record { same = λ h. refl; fresh = λ h p. refl; unique = λ h. omega arith }

constructed-Owns : Owns constructed start
unfolding distribute
constructed-Owns = record {
  holds = start-Holds;
  whole = ((λ e. refl), ((λ e. refl), tt));
  apart = λ f. absurd (true-≢-false f);
  spread = λ f. refl;
  paired = λ f e. refl;
  seed_size = λ p. absurd (omega (arith, p));
}
  where
    true-≢-false : true ≢ false
    true-≢-false e = cc

initialize-Sound_example : Returns (Sound 3 seed) (initialize (λ n. true) seed constructed start)
initialize-Sound_example =
    initialize-Sound (λ n. true) constructed seed start constructed-IsClear constructed-Owns
      (omega arith)

-- A miner with one thread, in light mode on a single node
abbrev mining : Miner
mining = record {
  num_threads = 1;
  fast_mode = false;
  mining = true;
  unjoined = true;
  current_seed_hash = seed;
  dataset = none;
  numa_available = false;
  numa_nodes = [];
  cpu_ids = [];
  thread_to_cpu = [];
  thread_to_node = [];
  legacy_cache = some 0;
  legacy_vms = some 1 ∷ [];
}

abbrev two_objects : Store
two_objects = record { next = 2; live = 1 ∷ 0 ∷ []; seed_of = λ h. seed }

mining-Owns : Owns mining two_objects
mining-Owns = record {
  holds = record { same = λ h. refl; fresh = λ h p. ground arith; unique = λ h. ground arith };
  whole = tt;
  apart = λ f. tt;
  spread = λ f. absurd (false-≢-true f);
  paired = λ f. absurd (false-≢-true f);
  seed_size = λ p. refl;
}

mining-Ready : Ready mining two_objects
mining-Ready = record {
  seed_size = refl;
  nodes_ready = λ f. absurd (false-≢-true f);
  list_ready = λ f. ((λ h p. refl), refl, refl);
}

destructor-Returns_example :
    Returns (λ _ t. (h : ℕ) → count h t.live ≡ 0) (destructor mining two_objects)
destructor-Returns_example = destructor-Returns mining two_objects mining-Owns

update_seed-Updated_example :
    Returns
      (Updated mining two_objects other_seed)
      (update_seed (λ n. true) other_seed mining two_objects)
update_seed-Updated_example =
    update_seed-Updated (λ n. true) mining other_seed two_objects mining-Owns (omega arith)

-- The miner on two nodes after a failed change, with a seed and without objects
abbrev on_two_nodes : Miner
on_two_nodes = record constructed { current_seed_hash = seed }

on_two_nodes-Owns : Owns on_two_nodes start
unfolding distribute
on_two_nodes-Owns = record {
  holds = start-Holds;
  whole = ((λ e. refl), ((λ e. refl), tt));
  apart = λ f. absurd (true-≢-false f);
  spread = λ f. refl;
  paired = λ f e. refl;
  seed_size = λ p. refl;
}
  where
    true-≢-false : true ≢ false
    true-≢-false e = cc

set_thread_count-Changed_example :
    Returns (Changed on_two_nodes start 5) (set_thread_count (λ n. true) 5 on_two_nodes start)
set_thread_count-Changed_example =
    set_thread_count-Changed (λ n. true) 5 on_two_nodes start on_two_nodes-Owns
      (λ numa. (omega arith, (omega arith, (omega arith, tt))))

thread_vm-Seeded_example : (h : ℕ) × (thread_vm mining 0 ≡ some h) × (two_objects.seed_of h ≡ seed)
thread_vm-Seeded_example =
    thread_vm-Seeded mining two_objects 0 mining-Owns mining-Ready no_nodes (omega arith)
  where
    no_nodes : false ≡ true → 0 < 0
    no_nodes f = absurd (false-≢-true f)

-- The fourth allocation fails: a cache, the first node's cache and a VM have been made.
initialize_fails :
    initialize (λ n. ltb n 3) seed constructed start
    ≡ done
        (
          record constructed {
            current_seed_hash = seed;
            legacy_cache = some 0;
            numa_nodes = record { cache = some 1; vms = some 2 ∷ none ∷ [] } ∷ node ∷ [];
          },
          false,
        )
        (record {
          next = 4;
          live = 2 ∷ 1 ∷ 0 ∷ [];
          seed_of =
              λ j. if j == 2 then seed else if j == 1 then seed else if j == 0 then seed else [];
        })
unfolding initialize check_seed initialize_cache initialize_numa fill_nodes fill_node create_vms
    alloc create_vm need fill threads_per_node count_node
initialize_fails = refl
