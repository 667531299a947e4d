-- ===== src/Resources/Updates.antt =====
-- src/miner.cpp: `update_seed` and `set_thread_count` keep what holds of a `Miner`'s RandomX objects.
use juno_miner.Base.{
  ℕ, ◌≤◌, ◌<◌, ◌≡◌, refl, sym, ap, ◌∙◌, Bool, true, false, ◌&&◌, not, Option, none, some, List,
  ◌++◌, arith, ◌==◌, if◌then◌else◌, false-≢-true, ltb-eq-false, length, count, count-append,
  count-swap, Bytes, bytes_eq, bytes_eq→eq,
}
use juno_miner.Randomx.{Store}
use juno_miner.Randomx.Returns.{
  Returns, returns, Returns-bind, Returns-if, Holds, Holds-perm, Seeded, init_cache-Returns,
  refill-Returns,
}
use juno_miner.Miner.Numa.{distribute, threads_per_node}
use juno_miner.Resources.{
  stop_if_mining, Miner, update_legacy, update_cache, update_numa, update_seed, check_seed,
}
use juno_miner.Resources.Vms.{held, somes, recreate_vms-Returns, set_datasets-Returns}
use juno_miner.Resources.Nodes.{some-≢-none, objects}
use juno_miner.Resources.Loops.{update_nodes-Returns}
use juno_miner.Resources.Lifecycle.{memories, lists, owned, on_nodes, Owns, Ready}

-- What an operation on a miner comes to: nothing has leaked, and if it succeeded and every thread had its VM,
-- every thread has its VM now, on the seed.
abbrev pub Updated : Miner → Store → Bytes → Miner × Bool → Store → Type 0
Updated m s seed (m', success) t =
    Owns m' t × (Ready m s → success ≡ true → Ready m' t × (m'.current_seed_hash ≡ seed))

refused : (m m' : Miner) (s t : Store) (seed : Bytes) → Owns m' t → Updated m s seed (m', false) t
refused m m' s t seed v = (v, λ r b. absurd (false-≢-true b))

-- The miner behind `if (was_mining) stop();`
abbrev pub halted : Miner → Miner
halted m = record m { mining = false; unjoined = not m.mining && m.unjoined }

pub stop_if_mining-eq : (m : Miner) → stop_if_mining m ≡ halted m
unfolding stop_if_mining
stop_if_mining-eq m = ground arith

stopped-Owns : (m : Miner) (s : Store) → Owns m s → Owns (halted m) s
stopped-Owns m s v = record {
  holds = v.holds;
  whole = v.whole;
  apart = v.apart;
  spread = v.spread;
  paired = v.paired;
  seed_size = v.seed_size;
}

light_mode :
    (fast : Bool) (dataset cache : Option ℕ) (h : ℕ)
    → (fast ≡ true → dataset ≡ none → cache ≡ none)
    → cache ≡ some h
    → (if fast then dataset else none) ≡ none
    → (if fast then none else some h) ≡ some h
light_mode true dataset cache h paired e d = absurd (some-≢-none (sym e ∙ paired refl d))
light_mode false dataset cache h paired e d = refl

in_fast_mode :
    (fast : Bool) (dataset : Option ℕ) (h : ℕ)
    → (if fast then dataset else none) ≡ some h
    → dataset ≡ some h
in_fast_mode true dataset h d = d
in_fast_mode false dataset h d = absurd (some-≢-none (sym d))

held_self : (o : Option ℕ) (h : ℕ) → o ≡ some h → 0 < count h (held o)
held_self none h e = absurd (some-≢-none (sym e))
held_self (some j) h e = ground (arith, e)

module _ (grants : ℕ → Bool) (m : Miner) (s : Store) (seed : Bytes) (size : length seed ≡ 32)
    (v : Owns m s) where
  update_numa-Updated :
      on_nodes m ≡ true → Returns (Updated m s seed) (update_numa grants seed (halted m) s)
  unfolding update_numa
  update_numa-Updated on =
      Returns-bind (update_nodes-Returns grants seed m.numa_nodes (lists m) s v.whole v.holds)
        λ (nodes, all) t (held_t, kept_t, whole, same_size, full). returns (
          record {
            holds = held_t;
            whole = whole;
            apart = λ f. absurd (false-≢-true (sym f ∙ on));
            spread = λ f. v.spread f ∙ ap (λ (n : ℕ). distribute n 0 m.num_threads) (sym same_size);
            paired = v.paired;
            seed_size = λ p. size;
          },
          λ r b.
              let (seeded, sizes, numbers) = full b in
              let (_, before, _) = r.nodes_ready on in
              let again = before ∙ ap (threads_per_node m.thread_to_node 0) (sym same_size) in
              (
                record {
                  seed_size = size;
                  nodes_ready = λ f. (seeded, sizes ∙ again, numbers ∙ again);
                  list_ready = λ f. absurd (false-≢-true (sym f ∙ on));
                },
                refl,
              ),
        )

  -- The miner as the legacy path leaves it, but for its VMs
  abbrev moved : List (Option ℕ) → Miner
  moved vms = record (halted m) { current_seed_hash = seed; legacy_vms = vms }

  moved-Owns :
      (vms : List (Option ℕ)) (t : Store) → Holds (owned (moved vms)) t → Owns (moved vms) t
  moved-Owns vms t held_t = record {
    holds = held_t;
    whole = v.whole;
    apart = v.apart;
    spread = v.spread;
    paired = v.paired;
    seed_size = λ p. size;
  }

  moved-Ready :
      (vms : List (Option ℕ)) (t : Store)
      → on_nodes m ≡ false
      → Seeded seed (somes vms) t
      → length vms ≡ m.num_threads
      → length (somes vms) ≡ m.num_threads
      → Ready (moved vms) t
  moved-Ready vms t apart seeded places number = record {
    seed_size = size;
    nodes_ready = λ f. absurd (false-≢-true (sym apart ∙ f));
    list_ready = λ f. (seeded, places, number);
  }

  cache_in :
      (cache : ℕ)
      → m.legacy_cache ≡ some cache
      → 0 < count cache (objects m.numa_nodes ++ memories m)
  cache_in cache e = omega (
    arith,
    held_self m.legacy_cache cache e,
    count-append cache (objects m.numa_nodes) (memories m),
    count-append cache (held m.legacy_cache) (held m.dataset),
  )

  in_owned : (h : ℕ) → 0 < count h (memories m) → 0 < count h (owned m)
  in_owned h p = omega (
    arith,
    p,
    count-append h (objects m.numa_nodes) (lists m),
    count-append h (somes m.legacy_vms) (memories m),
  )

  cache_owned : (cache : ℕ) → m.legacy_cache ≡ some cache → 0 < count cache (owned m)
  cache_owned cache e = in_owned cache (
      omega (
        arith,
        held_self m.legacy_cache cache e,
        count-append cache (held m.legacy_cache) (held m.dataset),
      ))

  dataset_in :
      (dataset : ℕ)
      → (if m.fast_mode then m.dataset else none) ≡ some dataset
      → 0 < count dataset (owned m)
  dataset_in dataset d = in_owned dataset (
      omega (
        arith,
        held_self m.dataset dataset (in_fast_mode m.fast_mode m.dataset dataset d),
        count-append dataset (held m.legacy_cache) (held m.dataset),
      ))

  update_legacy-Updated :
      (cache : ℕ) (dataset : Option ℕ) (t : Store)
      → on_nodes m ≡ false
      → m.legacy_cache ≡ some cache
      → (if m.fast_mode then m.dataset else none) ≡ dataset
      → Holds (owned m) t
      → t.seed_of cache ≡ seed
      → Returns (Updated m s seed) (update_legacy grants cache (moved m.legacy_vms) dataset t)
  unfolding update_legacy
  update_legacy-Updated cache none t apart e d held_t seeded =
      rw (light_mode m.fast_mode m.dataset m.legacy_cache cache v.paired e d) (
        Returns-bind
          (recreate_vms-Returns grants cache seed m.legacy_vms (objects m.numa_nodes ++ memories m)
            t
            (Holds-perm _ _ t held_t
              λ h. count-swap h (objects m.numa_nodes) (somes m.legacy_vms) (memories m))
            (cache_in cache e) seeded)
          λ (vms, all) u (held_u, kept_u, places, full). returns (
            moved-Owns vms u (
                Holds-perm _ _ u held_u
                  λ h. count-swap h (somes vms) (objects m.numa_nodes) (memories m)),
            λ r b.
                let (seeded_u, number) = full b in
                let (_, before, _) = r.list_ready apart in
                (moved-Ready vms u apart seeded_u (places ∙ before) (number ∙ before), refl),
          ))
  update_legacy-Updated cache (some dataset) t apart e d held_t seeded =
      Returns-bind
        (refill-Returns dataset cache (owned m) t held_t (dataset_in dataset d)
          (cache_owned cache e))
        λ _ u (held_u, contents).
          Returns-bind
            (set_datasets-Returns dataset seed m.legacy_vms (owned m) u held_u
              (dataset_in dataset d) (ground (arith, contents dataset, seeded))
              (λ h p. omega (
                arith,
                p,
                count-append h (objects m.numa_nodes) (lists m),
                count-append h (somes m.legacy_vms) (memories m),
              )))
            λ _ w (held_w, seeded_w, keeps). returns (
              moved-Owns m.legacy_vms w held_w,
              λ r b.
                  let (_, places, number) = r.list_ready apart in
                  (moved-Ready m.legacy_vms w apart seeded_w places number, refl),
            )

  update_cache-Updated :
      (cache : Option ℕ)
      → on_nodes m ≡ false
      → m.legacy_cache ≡ cache
      → Returns (Updated m s seed) (update_cache grants seed (halted m) cache s)
  unfolding update_cache
  update_cache-Updated none apart e = returns (refused m (halted m) s s seed (stopped-Owns m s v))
  update_cache-Updated (some cache) apart e =
      Returns-bind (init_cache-Returns cache seed (owned m) s v.holds (cache_owned cache e))
        λ _ t (held_t, contents).
          update_legacy-Updated cache (if m.fast_mode then m.dataset else none) t apart e refl
            held_t (ground (arith, contents cache))

module _ (grants : ℕ → Bool) where
  -- `update_seed` of a seed of at least 32 bytes, on a miner that owns its objects, ends without a fault,
  -- whichever allocations fail; the miner owns just what is allocated afterwards. If it returned true and every
  -- thread had a VM, then every thread has a VM whose contents come from the new seed.
  pub update_seed-Updated :
      (m : Miner) (seed : Bytes) (s : Store)
      → Owns m s
      → 32 ≤ length seed
      → Returns (Updated m s seed) (update_seed grants seed m s)
  unfolding update_seed check_seed
  update_seed-Updated m seed s v long = rw (ltb-eq-false long) (
      Returns-if (length seed == 32) _ _
        (λ right.
          let size : length seed ≡ 32 = ground (arith, right) in
          Returns-if (bytes_eq seed m.current_seed_hash) _ _
            (λ same. returns (v, λ r b. (r, sym (bytes_eq→eq seed m.current_seed_hash same))))
            (λ other. rw (stop_if_mining-eq m) (
              Returns-if (on_nodes m) _ _ (λ on. update_numa-Updated grants m s seed size v on)
                (λ apart. update_cache-Updated grants m s seed size v m.legacy_cache apart refl))))
        (λ wrong. returns (refused m m s s seed v)))
