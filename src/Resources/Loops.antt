-- ===== src/Resources/Loops.antt =====
-- src/miner.cpp: the loops over the NUMA nodes in `initialize` and `update_seed`.
use juno_miner.Base.{
  ℕ, zero, suc, ◌≡◌, refl, sym, ap, ◌∙◌, Bool, true, Option, none, some, List, [], ◌∷◌, ◌++◌, map,
  arith, length, All, count, count-append, Bytes,
}
use juno_miner.Randomx.{Store}
use juno_miner.Randomx.Returns.{
  Returns, returns, Returns-bind, Holds, Holds-perm, Seeded, init_cache-Returns, alloc-Returns,
}
use juno_miner.Resources.{Node, fill_nodes, update_node, update_nodes}
use juno_miner.Resources.Vms.{held, somes, recreate_vms-Returns}
use juno_miner.Resources.Nodes.{
  some-≢-none, node_objects, objects, count-objects, Empty, IsWhole, Filled, Done, move_node,
  node_frame, fill_node-Returns, place_node-Returns,
}

without_empty :
    (node : Node) (nodes : List Node) (xs : List ℕ)
    → node.cache ≡ none
    → node.vms ≡ []
    → (h : ℕ) → count h (objects (node ∷ nodes) ++ xs) ≡ count h (objects nodes ++ xs)
without_empty node nodes xs e f h = omega (
  arith,
  count-objects h node nodes xs,
  count-append h (objects nodes) xs,
  ap (λ (o : Option ℕ). count h (held o)) e,
  ap (λ (vms : List (Option ℕ)). count h (somes vms)) f,
)

abbrev pub vm_counts : List Node → List ℕ
vm_counts nodes = map (λ (node : Node). length node.vms) nodes

Seeded-nil :
    (seed : Bytes) (vms : List (Option ℕ)) (s : Store) → vms ≡ [] → Seeded seed (somes vms) s
Seeded-nil seed vms s e h p =
    absurd (omega (arith, p, ap (λ (v : List (Option ℕ)). count h (somes v)) e))

pub Empty-IsWhole : (nodes : List Node) → Empty nodes → All IsWhole nodes
Empty-IsWhole [] empty = tt
Empty-IsWhole (node ∷ nodes) ((no_cache, no_vms), empty) =
    ((λ e. no_vms), Empty-IsWhole nodes empty)

pub Empty-objects : (nodes : List Node) → Empty nodes → (h : ℕ) → count h (objects nodes) ≡ 0
Empty-objects [] empty h = refl
Empty-objects (node ∷ nodes) ((no_cache, no_vms), empty) h = omega (
  arith,
  Empty-objects nodes empty h,
  without_empty node nodes [] no_cache no_vms h,
  count-append h (objects (node ∷ nodes)) [],
  count-append h (objects nodes) [],
)

module _ (grants : ℕ → Bool) (seed : Bytes) where
  nothing-Done :
      (node : Node) (ys : List ℕ) (s : Store) (n : ℕ)
      → node.vms ≡ []
      → n ≡ 0
      → Holds (node_objects node ++ ys) s
      → Done grants seed ys s n (node, true) s
  nothing-Done node ys s n e f v = (
    v,
    (λ h p. refl),
    (λ f. e),
    λ b. (
      Seeded-nil seed node.vms s e,
      ap length e ∙ sym f,
      ap (λ (vms : List (Option ℕ)). length (somes vms)) e ∙ sym f,
    ),
  )

  -- From empty nodes, `fill_nodes` makes their caches and VMs, and loses none of them.
  pub fill_nodes-Returns :
      (counts : List ℕ) (nodes : List Node) (xs : List ℕ) (s : Store)
      → Empty nodes
      → length counts ≡ length nodes
      → Holds (objects nodes ++ xs) s
      → Returns (Filled seed xs s (length nodes) counts) (fill_nodes grants seed counts nodes s)
  unfolding fill_nodes
  fill_nodes-Returns [] [] xs s empty e v =
      returns (v, (λ h p. refl), tt, refl, λ b. ((λ h p. absurd (omega (arith, p))), refl, refl))
  fill_nodes-Returns [] (node ∷ nodes) xs s empty e v = absurd (omega arith)
  fill_nodes-Returns (n ∷ counts) [] xs s empty e v = absurd (omega arith)
  fill_nodes-Returns (zero ∷ counts) (node ∷ nodes) xs s ((no_cache, no_vms), empty) e v =
      place_node-Returns grants seed nodes counts (fill_nodes grants seed counts nodes)
        (λ ys t w. fill_nodes-Returns counts nodes ys t empty (omega arith) w) 0 xs s s node true
        (nothing-Done node (objects nodes ++ xs) s 0 no_vms refl
          (Holds-perm _ _ s v (λ h. sym (move_node node nodes xs h))))
        (Empty-IsWhole nodes empty)
  fill_nodes-Returns (suc n ∷ counts) (node ∷ nodes) xs s ((no_cache, no_vms), empty) e v =
      Returns-bind
        (alloc-Returns grants (objects nodes ++ xs) s
          (Holds-perm _ _ s v (without_empty node nodes xs no_cache no_vms)))
        λ cache t made.
          Returns-bind
            (fill_node-Returns grants seed (suc n) node (objects nodes ++ xs) s t cache no_vms made)
            λ (node', all) u finished.
              place_node-Returns grants seed nodes counts (fill_nodes grants seed counts nodes)
                (λ ys w held_w. fill_nodes-Returns counts nodes ys w empty (omega arith) held_w)
                (suc n) xs s u node' all finished (Empty-IsWhole nodes empty)

  update_node-Returns :
      (node : Node) (ys : List ℕ) (s : Store) (cache : Option ℕ)
      → node.cache ≡ cache
      → IsWhole node
      → Holds (node_objects node ++ ys) s
      → Returns (Done grants seed ys s (length node.vms)) (update_node grants seed node cache s)
  unfolding update_node
  update_node-Returns node ys s none e whole v =
      returns (nothing-Done node ys s _ (whole e) (ap length (whole e)) v)
  update_node-Returns node ys s (some cache) e whole v =
      let in_front : (h : ℕ)
          → count h (node_objects node ++ ys) ≡ count h (somes node.vms ++ (cache ∷ ys)) =
        λ h.
          ap (λ (o : Option ℕ). count h ((somes node.vms ++ held o) ++ ys)) e
          ∙ sym (node_frame node.vms cache ys h) in
      let start = Holds-perm _ _ s v in_front in
      Returns-bind
        (init_cache-Returns cache seed _ s start
          (ground (arith, count-append cache (somes node.vms) (cache ∷ ys))))
        λ _ t (held_t, contents).
          Returns-bind
            (recreate_vms-Returns grants cache seed node.vms (cache ∷ ys) t held_t (ground arith)
              (ground (arith, contents cache)))
            λ (vms, all) u (held_u, kept_u, size, full). returns (
              Holds-perm _ _ u held_u (node_frame vms cache ys),
              (λ h p.
                  kept_u h (ground (arith, p))
                  ∙ ground (
                    arith,
                    contents h,
                    p,
                    start.unique h,
                    count-append h (somes node.vms) (cache ∷ ys),
                  )),
              (λ f. absurd (some-≢-none f)),
              λ b. let (seeded, number) = full b in (seeded, size, number),
            )

  -- `update_nodes` replaces the VMs of the nodes that have a cache, and loses none.
  pub update_nodes-Returns :
      (nodes : List Node) (xs : List ℕ) (s : Store)
      → All IsWhole nodes
      → Holds (objects nodes ++ xs) s
      → Returns
          (Filled seed xs s (length nodes) (vm_counts nodes))
          (update_nodes grants seed nodes s)
  unfolding update_nodes
  update_nodes-Returns [] xs s whole v =
      returns (v, (λ h p. refl), tt, refl, λ b. ((λ h p. absurd (omega (arith, p))), refl, refl))
  update_nodes-Returns (node ∷ nodes) xs s (first, whole) v =
      Returns-bind
        (update_node-Returns node (objects nodes ++ xs) s node.cache refl first
          (Holds-perm _ _ s v (λ h. sym (move_node node nodes xs h))))
        λ (node', all) t finished.
          place_node-Returns grants seed nodes (vm_counts nodes) (update_nodes grants seed nodes)
            (λ ys u w. update_nodes-Returns nodes ys u whole w) (length node.vms) xs s t node' all
            finished whole
