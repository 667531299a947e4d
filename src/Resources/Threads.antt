-- ===== src/Resources/Threads.antt =====
-- src/miner.cpp: `set_thread_count` keeps what holds of a `Miner`'s RandomX objects.
use juno_miner.Base.{
  ℕ, ◌<◌, ◌≡◌, refl, sym, ◌∙◌, subst, Bool, true, none, List, [], ◌∷◌, arith, ◌==◌, if◌then◌else◌,
  false-≢-true, length, count-append, Bytes,
}
use juno_miner.Randomx.{Store, pure}
use juno_miner.Randomx.Returns.{
  Returns, returns, Returns-bind, Returns-mono, Returns-if, Holds, Holds-perm,
}
use juno_miner.Miner.Numa.{distribute}
use juno_miner.Miner.Numa.Pinning.{IsPopulated, spread_threads-Pinned}
use juno_miner.Resources.Updates.{halted, stop_if_mining-eq}
use juno_miner.Resources.{Node, Miner, release_nodes, reinitialize, restart, set_thread_count}
use juno_miner.Resources.Nodes.{objects, Empty, release_nodes-Returns}
use juno_miner.Resources.Loops.{Empty-objects}
use juno_miner.Resources.Lifecycle.{
  lists, Owns, Ready, IsClear, clear-Owns, release_legacy-Returns, initialize-Sound,
}

-- What a change of the number of threads comes to: nothing has leaked, and if it succeeded and every thread had
-- its VM, then there are as many threads as asked for, and every one has its VM, on the same seed.
abbrev pub Changed : Miner → Store → ℕ → Miner × Bool → Store → Type 0
Changed m s threads (m', success) t =
    Owns m' t
    × (Ready m s
        → success ≡ true
        → Ready m' t × (m'.num_threads ≡ threads) × (m'.current_seed_hash ≡ m.current_seed_hash))

module _ (grants : ℕ → Bool) where
  reinitialize-Sound :
      (m : Miner) (seed : Bytes) (s : Store)
      → IsClear m
      → Owns m s
      → (0 < length seed → length seed ≡ 32)
      → Returns
          (λ (m', success) t.
            Owns m' t
            × (0 < length seed
                → success ≡ true
                → Ready m' t × (m'.num_threads ≡ m.num_threads) × (m'.current_seed_hash ≡ seed)))
          (reinitialize grants seed m s)
  unfolding reinitialize
  reinitialize-Sound m [] s c v size = returns (v, λ p b. absurd (omega (arith, p)))
  reinitialize-Sound m (b ∷ bs) s c v size =
      Returns-mono (initialize-Sound grants m (b ∷ bs) s c v (omega (arith, size (omega arith))))
        λ (m', success) t (owns, threads, full).
          (owns, λ p e. let (ready, seed) = full e in (ready, threads, seed))

  -- The members after the cleaning up
  abbrev emptied : Miner → List Node → Miner
  emptied m nodes = record (halted m) {
    numa_nodes = nodes;
    legacy_vms = [];
    legacy_cache = none;
    dataset = none;
  }

  -- Where there are nodes, each has CPUs.
  abbrev pub HasCpus : Miner → Type 0
  HasCpus m = m.numa_available ≡ true → (0 < length m.cpu_ids) × IsPopulated m.cpu_ids

  module _ (threads : ℕ) (m : Miner) (s t : Store) (nodes : List Node) where
    -- The miner is initialized on its new number of threads.
    reinitialize-Changed :
        (cpus to_node : List ℕ)
        → Owns m s
        → Empty nodes
        → Holds [] t
        → (m.numa_available ≡ true → to_node ≡ distribute (length nodes) 0 threads)
        → Returns (Changed m s threads) (
            reinitialize grants m.current_seed_hash
              (record (emptied m nodes) {
                num_threads = threads;
                thread_to_cpu = cpus;
                thread_to_node = to_node;
              })
              t)
    reinitialize-Changed cpus to_node v empty held_t spread =
        Returns-mono
          (reinitialize-Sound next m.current_seed_hash t
            (record {
              no_vms = refl;
              no_cache = refl;
              no_dataset = refl;
              empty = empty;
              spread = spread;
            })
            (clear-Owns next t refl empty spread (λ f e. refl) v.seed_size held_t) v.seed_size)
          λ (m', success) u (owns, full). (owns, λ r b. full (omega (arith, r.seed_size)) b)
      where
        next : Miner
        next = record (emptied m nodes) {
          num_threads = threads;
          thread_to_cpu = cpus;
          thread_to_node = to_node;
        }

    restart-Changed :
        Owns m s
        → HasCpus m
        → Empty nodes
        → Holds [] t
        → Returns (Changed m s threads) (restart grants threads (emptied m nodes) t)
    unfolding restart
    restart-Changed v has_cpus empty held_t =
        Returns-if m.numa_available _ _
          (λ numa.
            let (several, populated) = has_cpus numa in
            let (cpus, assigned, _, _) =
              spread_threads-Pinned m.cpu_ids threads several populated in
            rw assigned (
              reinitialize-Changed cpus (distribute (length nodes) 0 threads) v empty held_t
                (λ f. refl)))
          (λ single.
            reinitialize-Changed m.thread_to_cpu m.thread_to_node v empty held_t
              (λ f. absurd (false-≢-true (sym single ∙ f))))

  clear_nodes :
      (m : Miner) (s : Store)
      → Owns m s
      → Returns
          (λ nodes t. Holds (lists m) t × Empty nodes)
          ((if m.numa_available then release_nodes m.numa_nodes else pure m.numa_nodes) s)
  clear_nodes m s v =
      Returns-if m.numa_available _ _
        (λ numa.
          Returns-mono (release_nodes-Returns m.numa_nodes (lists m) s v.holds)
            λ nodes t (held_t, empty, _). (held_t, empty))
        (λ single.
          let empty = v.apart (ground (arith, single)) in
          returns (
            Holds-perm _ _ s v.holds (λ h. omega (
              arith,
              Empty-objects m.numa_nodes empty h,
              count-append h (objects m.numa_nodes) (lists m),
            )),
            empty,
          ))

  -- `set_thread_count` on a miner that owns its objects, on nodes that all have CPUs where it uses NUMA, ends without a fault, whichever allocations fail, and
  -- the miner owns just what is allocated afterwards. If it returned true and every thread had a VM, then there
  -- are as many threads as asked for, and each has a VM whose contents come from the same seed.
  pub set_thread_count-Changed :
      (threads : ℕ) (m : Miner) (s : Store)
      → Owns m s
      → HasCpus m
      → Returns (Changed m s threads) (set_thread_count grants threads m s)
  unfolding set_thread_count
  set_thread_count-Changed threads m s v has_cpus =
      Returns-if (threads == 0) _ _ (λ zero_threads. returns (v, λ r b. absurd (false-≢-true b)))
        (λ some_threads.
          Returns-if (threads == m.num_threads) _ _
            (λ same. returns (v, λ r b. (r, ground (arith, same), refl)))
            (λ other. rw (stop_if_mining-eq m) (
              Returns-bind (clear_nodes m s v) λ nodes t (held_t, empty).
                Returns-bind
                  (release_legacy-Returns (record (halted m) { numa_nodes = nodes }) [] t
                    (Holds-perm _ _ t held_t (λ h. omega (arith, count-append h (lists m) []))))
                  λ m' u (held_u, same).
                    subst
                      (λ (cleared : Miner).
                        Returns (Changed m s threads) (restart grants threads cleared u))
                      (sym same) (restart-Changed threads m s u nodes v has_cpus empty held_u))))
