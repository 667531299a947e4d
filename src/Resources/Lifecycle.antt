-- ===== src/Resources/Lifecycle.antt =====
-- src/miner.cpp: what holds of a `Miner`'s RandomX objects between its operations.
use juno_miner.Base.{
  ℕ, zero, suc, ◌≤◌, ◌<◌, ◌≡◌, refl, sym, ap, ◌∙◌, Bool, true, false, ◌&&◌, not, Option, none, some,
  List, [], ◌∷◌, ◌++◌, map, arith, ◌==◌, if◌then◌else◌, false-≢-true, ltb-eq-false, length,
  replicate, length-replicate, All, count, count-append, count-swap, Bytes,
}
use juno_miner.Randomx.{Store}
use juno_miner.Randomx.Returns.{
  Returns, returns, Returns-bind, Returns-mono, Returns-if, Holds, Holds-perm, Seeded, count_self,
  init_cache-Returns, refill-Returns, release-Returns, Allocated, alloc-Returns,
}
use juno_miner.Miner.Numa.{distribute, threads_per_node}
use juno_miner.Resources.{
  stop, Node, Miner, release_legacy, destructor, initialize_vms, initialize_numa,
  initialize_dataset, initialize_cache, initialize, check_seed,
}
use juno_miner.Resources.Vms.{
  held, somes, release_if-Returns, destroy_vms-Returns, create_vms-Returns,
}
use juno_miner.Resources.Nodes.{
  objects, node_vms, Empty, IsWhole, some-≢-none, resize-nil, somes-replicate,
  release_nodes-Returns,
}
use juno_miner.Resources.Loops.{vm_counts, Empty-IsWhole, Empty-objects, fill_nodes-Returns}

-- All the objects that the members point to
abbrev pub memories : Miner → List ℕ
memories m = held m.legacy_cache ++ held m.dataset

abbrev pub lists : Miner → List ℕ
lists m = somes m.legacy_vms ++ memories m

abbrev pub owned : Miner → List ℕ
owned m = objects m.numa_nodes ++ lists m

-- Whether the VMs stand in the nodes
abbrev pub on_nodes : Miner → Bool
on_nodes m = m.numa_available && not m.fast_mode

-- The allocated objects are just those that the miner points to, each once: nothing has leaked.
pub record Owns (m : Miner) (s : Store) : Type 0 where
  pub holds : Holds (owned m) s
  pub whole : All IsWhole m.numa_nodes
  pub apart : on_nodes m ≡ false → Empty m.numa_nodes
  pub spread :
      m.numa_available ≡ true → m.thread_to_node ≡ distribute (length m.numa_nodes) 0 m.num_threads
  pub paired : m.fast_mode ≡ true → m.dataset ≡ none → m.legacy_cache ≡ none
  pub seed_size : 0 < length m.current_seed_hash → length m.current_seed_hash ≡ 32

-- Every thread has a VM, and all of these work on the seed of the miner.
pub record Ready (m : Miner) (s : Store) : Type 0 where
  pub seed_size : length m.current_seed_hash ≡ 32
  pub nodes_ready :
      on_nodes m ≡ true
      → Seeded m.current_seed_hash (node_vms m.numa_nodes) s
        × (vm_counts m.numa_nodes ≡ threads_per_node m.thread_to_node 0 (length m.numa_nodes))
        × (map (λ (node : Node). length (somes node.vms)) m.numa_nodes
            ≡ threads_per_node m.thread_to_node 0 (length m.numa_nodes))
  pub list_ready :
      on_nodes m ≡ false
      → Seeded m.current_seed_hash (somes m.legacy_vms) s
        × (length m.legacy_vms ≡ m.num_threads)
        × (length (somes m.legacy_vms) ≡ m.num_threads)

-- A miner without objects, as it is constructed and as `set_thread_count` clears it
pub record IsClear (m : Miner) : Type 0 where
  pub no_vms : m.legacy_vms ≡ []
  pub no_cache : m.legacy_cache ≡ none
  pub no_dataset : m.dataset ≡ none
  pub empty : Empty m.numa_nodes
  pub spread :
      m.numa_available ≡ true → m.thread_to_node ≡ distribute (length m.numa_nodes) 0 m.num_threads

-- The outcome of an operation: nothing has leaked, the number of threads is the one given, and if it
-- succeeded, every thread has its VM, on the seed.
abbrev pub Sound : ℕ → Bytes → Miner × Bool → Store → Type 0
Sound threads seed (m, success) s =
    Owns m s
    × (m.num_threads ≡ threads)
    × (success ≡ true → Ready m s × (m.current_seed_hash ≡ seed))

length-threads_per_node : (xs : List ℕ) (node n : ℕ) → length (threads_per_node xs node n) ≡ n
unfolding threads_per_node
length-threads_per_node xs node zero = refl
length-threads_per_node xs node (suc n) = ap suc (length-threads_per_node xs (suc node) n)

pub release_legacy-Returns :
    (m : Miner) (xs : List ℕ) (s : Store)
    → Holds (lists m ++ xs) s
    → Returns
        (λ m' t.
          Holds xs t × (m' ≡ record m { legacy_vms = []; legacy_cache = none; dataset = none }))
        (release_legacy m s)
unfolding release_legacy
release_legacy-Returns m xs s v =
    Returns-bind
      (destroy_vms-Returns m.legacy_vms (held m.legacy_cache ++ (held m.dataset ++ xs)) s (
        Holds-perm _ _ s v λ h. omega (
          arith,
          count-append h (lists m) xs,
          count-append h (somes m.legacy_vms) (held m.legacy_cache ++ held m.dataset),
          count-append h (held m.legacy_cache) (held m.dataset),
          count-append h (somes m.legacy_vms) (held m.legacy_cache ++ (held m.dataset ++ xs)),
          count-append h (held m.legacy_cache) (held m.dataset ++ xs),
          count-append h (held m.dataset) xs,
        )))
      λ _ t (held_t, _).
        Returns-bind (release_if-Returns m.legacy_cache (held m.dataset ++ xs) t held_t)
          λ _ u (held_u, _).
            Returns-bind (release_if-Returns m.dataset xs u held_u)
              λ _ w (held_w, _). returns (held_w, refl)

-- The destructor of a miner that owns its objects ends without a fault, so it releases none twice, and
-- afterwards no object is allocated.
pub destructor-Returns :
    (m : Miner) (s : Store)
    → Owns m s
    → Returns (λ _ t. (h : ℕ) → count h t.live ≡ 0) (destructor m s)
unfolding destructor
destructor-Returns m s v =
    Returns-bind (release_nodes-Returns m.numa_nodes (lists m) s v.holds) λ nodes t (held_t, _, _).
      Returns-mono
        (release_legacy-Returns (record (stop m) { numa_nodes = [] }) [] t
          (Holds-perm _ _ t held_t (λ h. omega (arith, count-append h (lists m) []))))
        λ m' u (held_u, _) h. held_u.same h

count-pair : (h i j : ℕ) → count h (i ∷ j ∷ []) ≡ count h (j ∷ i ∷ [])
count-pair h i j = ground arith

pub clear-Owns :
    (m : Miner) (s : Store)
    → m.legacy_vms ≡ []
    → Empty m.numa_nodes
    → (m.numa_available ≡ true
        → m.thread_to_node ≡ distribute (length m.numa_nodes) 0 m.num_threads)
    → (m.fast_mode ≡ true → m.dataset ≡ none → m.legacy_cache ≡ none)
    → (0 < length m.current_seed_hash → length m.current_seed_hash ≡ 32)
    → Holds (memories m) s
    → Owns m s
clear-Owns m s no_vms empty spread paired size v = record {
  holds = Holds-perm _ _ s v λ h. omega (
    arith,
    Empty-objects m.numa_nodes empty h,
    count-append h (objects m.numa_nodes) (lists m),
    count-append h (somes m.legacy_vms) (memories m),
    ap (λ (vms : List (Option ℕ)). count h (somes vms)) no_vms,
  );
  whole = Empty-IsWhole m.numa_nodes empty;
  apart = λ f. empty;
  spread = spread;
  paired = paired;
  seed_size = size;
}

-- The miner with a new cache and without a dataset
with_cache :
    (m : Miner) (xs : List ℕ) (s : Store) → IsClear m → Holds xs s → Holds (xs ++ held m.dataset) s
with_cache m xs s c v = Holds-perm _ _ s v λ h. omega (
  arith,
  count-append h xs (held m.dataset),
  ap (λ (o : Option ℕ). count h (held o)) c.no_dataset,
)

cleared : (m : Miner) (s : Store) → IsClear m → Owns m s → Holds [] s
cleared m s c v = Holds-perm _ _ s v.holds λ h. omega (
  arith,
  Empty-objects m.numa_nodes c.empty h,
  count-append h (objects m.numa_nodes) (lists m),
  count-append h (somes m.legacy_vms) (memories m),
  count-append h (held m.legacy_cache) (held m.dataset),
  ap (λ (vms : List (Option ℕ)). count h (somes vms)) c.no_vms,
  ap (λ (o : Option ℕ). count h (held o)) c.no_cache,
  ap (λ (o : Option ℕ). count h (held o)) c.no_dataset,
)

module _ (grants : ℕ → Bool) where
  initialize_vms-Sound :
      (m : Miner) (memory : ℕ) (s : Store)
      → m.legacy_vms ≡ []
      → (if m.fast_mode then m.dataset else m.legacy_cache) ≡ some memory
      → 0 < count memory (memories m)
      → on_nodes m ≡ false
      → length m.current_seed_hash ≡ 32
      → Owns m s
      → s.seed_of memory ≡ m.current_seed_hash
      → Returns (Sound m.num_threads m.current_seed_hash) (initialize_vms grants m s)
  unfolding initialize_vms
  initialize_vms-Sound m memory s no_vms on p apart size v seed =
      rw (on, no_vms, resize-nil m.num_threads)
        (Returns-bind
          (create_vms-Returns grants memory m.current_seed_hash (replicate m.num_threads none) rest
            s
            (Holds-perm _ _ s v.holds λ h.
              count-swap h (objects m.numa_nodes) (somes m.legacy_vms) (memories m)
              ∙ omega (
                arith,
                count-append h (somes m.legacy_vms) rest,
                count-append h (somes (replicate m.num_threads none)) rest,
                somes-replicate m.num_threads h,
                ap (λ (vms : List (Option ℕ)). count h (somes vms)) no_vms,
              ))
            (somes-replicate m.num_threads)
            (omega (arith, p, count-append memory (objects m.numa_nodes) (memories m))) seed)
          λ (vms, all) t (held_t, kept_t, places, full). returns (
            record {
              holds =
                  Holds-perm _ _ t held_t
                    λ h. count-swap h (somes vms) (objects m.numa_nodes) (memories m);
              whole = v.whole;
              apart = v.apart;
              spread = v.spread;
              paired = v.paired;
              seed_size = v.seed_size;
            },
            refl,
            λ b.
                let (seeded, number) = full b in
                let n = length-replicate {0} {A = Option ℕ} m.num_threads none in
                (
                  record {
                    seed_size = size;
                    nodes_ready = λ f. absurd (false-≢-true (sym apart ∙ f));
                    list_ready = λ f. (seeded, places ∙ n, number ∙ n);
                  },
                  refl,
                ),
          ))
    where
      rest : List ℕ
      rest = objects m.numa_nodes ++ memories m

  initialize_numa-Sound :
      (m : Miner) (s : Store)
      → Empty m.numa_nodes
      → on_nodes m ≡ true
      → length m.current_seed_hash ≡ 32
      → Owns m s
      → Returns
          (Sound m.num_threads m.current_seed_hash)
          (initialize_numa grants m.current_seed_hash m s)
  unfolding initialize_numa
  initialize_numa-Sound m s empty on size v =
      Returns-bind
        (fill_nodes-Returns grants m.current_seed_hash
          (threads_per_node m.thread_to_node 0 (length m.numa_nodes)) m.numa_nodes (lists m) s empty
          (length-threads_per_node m.thread_to_node 0 (length m.numa_nodes)) v.holds)
        λ (nodes, all) t (held_t, kept_t, whole, same_size, full). returns (
          record {
            holds = held_t;
            whole = whole;
            apart = λ f. absurd (false-≢-true (sym f ∙ on));
            spread = λ f. v.spread f ∙ ap (λ (n : ℕ). distribute n 0 m.num_threads) (sym same_size);
            paired = v.paired;
            seed_size = v.seed_size;
          },
          refl,
          λ b.
              let (seeded, sizes, numbers) = full b in
              let again = ap (threads_per_node m.thread_to_node 0) (sym same_size) in
              (
                record {
                  seed_size = size;
                  nodes_ready = λ f. (seeded, sizes ∙ again, numbers ∙ again);
                  list_ready = λ f. absurd (false-≢-true (sym f ∙ on));
                },
                refl,
              ),
        )

  initialize_dataset-Sound :
      (m : Miner) (cache : ℕ) (s t : Store) (dataset : Option ℕ)
      → IsClear m
      → m.fast_mode ≡ true
      → length m.current_seed_hash ≡ 32
      → Holds (cache ∷ []) s
      → s.seed_of cache ≡ m.current_seed_hash
      → Allocated (cache ∷ []) s dataset t
      → Returns
          (Sound m.num_threads m.current_seed_hash)
          (initialize_dataset grants cache (record m { legacy_cache = some cache }) dataset t)
  unfolding initialize_dataset
  initialize_dataset-Sound m cache s t none c fast size v seed (held_t, kept_t) =
      Returns-bind (release-Returns cache [] t held_t) λ _ u (held_u, _). returns (
        clear-Owns (record m { legacy_cache = none; dataset = none }) u c.no_vms c.empty c.spread
            (λ f e. refl) (λ p. size) held_u,
        refl,
        λ b. absurd (false-≢-true b),
      )
  initialize_dataset-Sound m cache s t (some dataset) c fast size v seed (held_t, kept_t, new) =
      Returns-bind
        (refill-Returns dataset cache (dataset ∷ cache ∷ []) t held_t
          (count_self dataset (cache ∷ [])) (ground arith))
        λ _ u (held_u, contents).
          initialize_vms-Sound (record m { legacy_cache = some cache; dataset = some dataset })
            dataset u c.no_vms (rw fast) (ground arith) (ground (arith, fast)) size
            (clear-Owns (record m { legacy_cache = some cache; dataset = some dataset }) u c.no_vms
              c.empty c.spread (λ f e. absurd (some-≢-none e)) (λ p. size)
              (Holds-perm _ _ u held_u (λ h. count-pair h dataset cache)))
            (ground (arith, contents dataset, kept_t cache (count_self cache []), seed))

  initialize_cache-Sound :
      (m : Miner) (s t : Store) (cache : Option ℕ)
      → IsClear m
      → length m.current_seed_hash ≡ 32
      → Allocated [] s cache t
      → Returns
          (Sound m.num_threads m.current_seed_hash)
          (initialize_cache grants m.current_seed_hash m cache t)
  unfolding initialize_cache
  initialize_cache-Sound m s t none c size (v, kept) = returns (
    clear-Owns (record m { legacy_cache = none }) t c.no_vms c.empty c.spread (λ f e. refl)
        (λ p. size) (with_cache m [] t c v),
    refl,
    λ b. absurd (false-≢-true b),
  )
  initialize_cache-Sound m s t (some cache) c size (v, kept, new) =
      Returns-bind
        (init_cache-Returns cache m.current_seed_hash (cache ∷ []) t v (count_self cache []))
        λ _ u (held_u, contents).
          let m' : Miner = record m { legacy_cache = some cache } in
          let seeded : u.seed_of cache ≡ m.current_seed_hash = ground (arith, contents cache) in
          Returns-if m.fast_mode _ _
            (λ fast. Returns-bind (alloc-Returns grants (cache ∷ []) u held_u) λ dataset w made.
              initialize_dataset-Sound m cache u w dataset c fast size held_u seeded made)
            (λ light.
              let sound =
                clear-Owns m' u c.no_vms c.empty c.spread
                  (λ f e. absurd (false-≢-true (sym light ∙ f))) (λ p. size)
                  (with_cache m (cache ∷ []) u c held_u) in
              Returns-if m.numa_available _ _
                (λ numa.
                  initialize_numa-Sound m' u c.empty (ground (arith, numa, light)) size sound)
                (λ single.
                  initialize_vms-Sound m' cache u c.no_vms (rw light) (ground arith)
                    (ground (arith, single)) size sound seeded))

  -- `initialize` on a miner without objects, with a seed of at least 32 bytes, ends without a fault, whichever
  -- allocations fail; the miner then owns just what is allocated, and if it returned true, every thread has a
  -- VM with the seed's contents.
  pub initialize-Sound :
      (m : Miner) (seed : Bytes) (s : Store)
      → IsClear m
      → Owns m s
      → 32 ≤ length seed
      → Returns (Sound m.num_threads seed) (initialize grants seed m s)
  unfolding initialize check_seed
  initialize-Sound m seed s c v long = rw (ltb-eq-false long) (
      Returns-if (length seed == 32) _ _
        (λ right. Returns-bind (alloc-Returns grants [] s (cleared m s c v)) λ cache t made.
          initialize_cache-Sound (record m { current_seed_hash = seed }) s t cache
            (record {
              no_vms = c.no_vms;
              no_cache = c.no_cache;
              no_dataset = c.no_dataset;
              empty = c.empty;
              spread = c.spread;
            })
            (ground (arith, right)) made)
        (λ wrong. returns (v, refl, λ b. absurd (false-≢-true b))))
