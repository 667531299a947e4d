-- ===== src/Resources/Nodes.antt =====
-- src/miner.cpp: the loops over the NUMA nodes.
use juno_miner.Base.{
  ℕ, zero, suc, ◌+◌, ◌≡◌, refl, sym, ap, ◌∙◌, subst, ◌≢◌, Bool, true, false, Option, none, some,
  List, [], ◌∷◌, ◌++◌, map, arith, false-≢-true, length, replicate, length-replicate, All,
  take-length, count, count-append, Bytes,
}
use juno_miner.Randomx.{Store, Cmd}
use juno_miner.Randomx.Returns.{
  Returns, returns, Returns-bind, Holds, Holds-perm, Seeded, Seeded-append, count_self, Kept,
  init_cache-Returns, Allocated,
}
use juno_miner.Resources.{Node, resize, release_nodes, place_node, fill_node}
use juno_miner.Resources.Vms.{
  held, somes, release_if-Returns, destroy_vms-Returns, create_vms-Returns,
}

-- The objects of a node, and those of a list of nodes
abbrev pub node_objects : Node → List ℕ
node_objects node = somes node.vms ++ held node.cache

abbrev pub objects : List Node → List ℕ
objects [] = []
objects (node ∷ nodes) = node_objects node ++ objects nodes

-- The VMs of a list of nodes
abbrev pub node_vms : List Node → List ℕ
node_vms [] = []
node_vms (node ∷ nodes) = somes node.vms ++ node_vms nodes

pub count-objects :
    (h : ℕ) (node : Node) (nodes : List Node) (xs : List ℕ)
    → count h (objects (node ∷ nodes) ++ xs)
      ≡ count h (somes node.vms)
        + (count h (held node.cache) + (count h (objects nodes) + count h xs))
count-objects h node nodes xs = omega (
  arith,
  count-append h (objects (node ∷ nodes)) xs,
  count-append h (node_objects node) (objects nodes),
  count-append h (somes node.vms) (held node.cache),
)

-- Nodes as they are before `initialize`
abbrev pub Empty : List Node → Type 0
Empty nodes = All (λ node. (node.cache ≡ none) × (node.vms ≡ [])) nodes

release_nodes_perm :
    (node : Node) (nodes : List Node) (xs : List ℕ) (h : ℕ)
    → count h (objects (node ∷ nodes) ++ xs)
      ≡ count h (somes node.vms ++ (held node.cache ++ (objects nodes ++ xs)))
release_nodes_perm node nodes xs h = omega (
  arith,
  count-objects h node nodes xs,
  count-append h (somes node.vms) (held node.cache ++ (objects nodes ++ xs)),
  count-append h (held node.cache) (objects nodes ++ xs),
  count-append h (objects nodes) xs,
)

pub move_node :
    (node : Node) (nodes : List Node) (xs : List ℕ) (h : ℕ)
    → count h (node_objects node ++ (objects nodes ++ xs)) ≡ count h (objects (node ∷ nodes) ++ xs)
move_node node nodes xs h = omega (
  arith,
  count-objects h node nodes xs,
  count-append h (node_objects node) (objects nodes ++ xs),
  count-append h (somes node.vms) (held node.cache),
  count-append h (objects nodes) xs,
)

pub before_node :
    (node : Node) (nodes : List Node) (xs : List ℕ) (h : ℕ)
    → count h (objects nodes ++ (node_objects node ++ xs)) ≡ count h (objects (node ∷ nodes) ++ xs)
before_node node nodes xs h = omega (
  arith,
  count-objects h node nodes xs,
  count-append h (objects nodes) (node_objects node ++ xs),
  count-append h (node_objects node) xs,
  count-append h (somes node.vms) (held node.cache),
)

pub behind_node :
    (node : Node) (nodes : List Node) (xs : List ℕ) (h : ℕ)
    → count h (node_objects node ++ (objects nodes ++ xs))
      ≡ count h (objects nodes ++ (node_objects node ++ xs))
behind_node node nodes xs h = move_node node nodes xs h ∙ sym (before_node node nodes xs h)

pub node_frame :
    (vms : List (Option ℕ)) (cache : ℕ) (xs : List ℕ) (h : ℕ)
    → count h (somes vms ++ (cache ∷ xs)) ≡ count h ((somes vms ++ (cache ∷ [])) ++ xs)
node_frame vms cache xs h = ground (
  arith,
  count-append h (somes vms) (cache ∷ xs),
  count-append h (somes vms ++ (cache ∷ [])) xs,
  count-append h (somes vms) (cache ∷ []),
)

-- `release_nodes` releases all that the nodes hold, and leaves them empty.
pub release_nodes-Returns :
    (nodes : List Node) (xs : List ℕ) (s : Store)
    → Holds (objects nodes ++ xs) s
    → Returns
        (λ nodes' t. Holds xs t × Empty nodes' × (length nodes' ≡ length nodes))
        (release_nodes nodes s)
unfolding release_nodes
release_nodes-Returns [] xs s v = returns (v, tt, refl)
release_nodes-Returns (node ∷ nodes) xs s v =
    Returns-bind
      (destroy_vms-Returns node.vms (held node.cache ++ (objects nodes ++ xs)) s
        (Holds-perm _ _ s v (release_nodes_perm node nodes xs)))
      λ _ t (held_t, _).
        Returns-bind (release_if-Returns node.cache (objects nodes ++ xs) t held_t)
          λ _ u (held_u, _).
            Returns-bind (release_nodes-Returns nodes xs u held_u)
              λ rest w (held_w, empty, size). returns (held_w, ((refl, refl), empty), ap suc size)

-- A node without a cache has no VMs.
abbrev pub IsWhole : Node → Type 0
IsWhole node = node.cache ≡ none → node.vms ≡ []

-- What `initialize` makes of the nodes: their objects, and if it came to its end, for each node as many VMs
-- as it has threads, none of them null, with contents from the seed
abbrev pub Filled : Bytes → List ℕ → Store → ℕ → List ℕ → List Node × Bool → Store → Type 0
Filled seed xs s size counts (nodes, all) t =
    Holds (objects nodes ++ xs) t
    × Kept xs s t
    × All IsWhole nodes
    × (length nodes ≡ size)
    × (all ≡ true
        → Seeded seed (node_vms nodes) t
          × (map (λ (node : Node). length node.vms) nodes ≡ counts)
          × (map (λ (node : Node). length (somes node.vms)) nodes ≡ counts))

pub somes-replicate : (n h : ℕ) → count h (somes (replicate n none)) ≡ 0
somes-replicate zero h = refl
somes-replicate (suc n) h = somes-replicate n h

pub resize-nil : (n : ℕ) → resize n [] ≡ replicate n none
resize-nil n = take-length (replicate n none) n (omega (arith, length-replicate {0} n none))

pub some-≢-none : {A : Type 0} {a : A} → some a ≢ none
some-≢-none e = cc

module _ (grants : ℕ → Bool) (seed : Bytes) where
  -- One node, with its cache
  abbrev pub Done : List ℕ → Store → ℕ → Node × Bool → Store → Type 0
  Done xs s n (node, all) t =
      Holds (node_objects node ++ xs) t
      × Kept xs s t
      × IsWhole node
      × (all ≡ true
          → Seeded seed (somes node.vms) t × (length node.vms ≡ n) × (length (somes node.vms) ≡ n))

  pub fill_node-Returns :
      (n : ℕ) (node : Node) (xs : List ℕ) (s t : Store) (cache : Option ℕ)
      → node.vms ≡ []
      → Allocated xs s cache t
      → Returns (Done xs s n) (fill_node grants seed n node cache t)
  unfolding fill_node
  fill_node-Returns n node xs s t none e (v, kept) = returns (
    subst (λ vms. Holds ((somes vms ++ []) ++ xs) t) (sym e) v,
    kept,
    (λ f. e),
    λ b. absurd (false-≢-true b),
  )
  fill_node-Returns n node xs s t (some cache) e (v, kept, new) =
      Returns-bind (init_cache-Returns cache seed (cache ∷ xs) t v (count_self cache xs))
        λ _ u (held_u, contents).
          rw (e, resize-nil n)
            (Returns-bind
              (create_vms-Returns grants cache seed (replicate n none) (cache ∷ xs) u
                (Holds-perm _ _ u held_u λ h. omega (
                  arith,
                  count-append h (somes (replicate n none)) (cache ∷ xs),
                  somes-replicate n h,
                ))
                (somes-replicate n) (count_self cache xs) (ground (arith, contents cache)))
              λ (vms, all) w (held_w, kept_w, size, full). returns (
                Holds-perm _ _ w held_w (node_frame vms cache xs),
                (λ h p.
                    kept_w h (ground (arith, p)) ∙ ground (arith, contents h, new, p) ∙ kept h p),
                (λ f. absurd (some-≢-none f)),
                λ b.
                    let (seeded, number) = full b in
                    let places = length-replicate {0} {A = Option ℕ} n none in
                    (seeded, size ∙ places, number ∙ places),
              ))

  -- What is asked of the rest of a loop over nodes
  abbrev pub More : List Node → List ℕ → Cmd (List Node × Bool) → Type 0
  More nodes counts more =
      (xs : List ℕ) (s : Store)
      → Holds (objects nodes ++ xs) s
      → Returns (Filled seed xs s (length nodes) counts) (more s)

  pub place_node-Returns :
      (nodes : List Node) (counts : List ℕ) (more : Cmd (List Node × Bool))
      → More nodes counts more
      → (n : ℕ) (xs : List ℕ) (s t : Store) (node : Node) (all : Bool)
      → Done (objects nodes ++ xs) s n (node, all) t
      → All IsWhole nodes
      → Returns
          (Filled seed xs s (suc (length nodes)) (n ∷ counts))
          (place_node node all nodes more t)
  place_node-Returns nodes counts more ih n xs s t node false (v, kept, whole, full) others =
      returns (
        Holds-perm _ _ t v (move_node node nodes xs),
        (λ h p. kept h (omega (arith, p, count-append h (objects nodes) xs))),
        (whole, others),
        refl,
        λ b. absurd (false-≢-true b),
      )
  place_node-Returns nodes counts more ih n xs s t node true (v, kept, whole, full) others =
      let (seeded, size, number) = full refl in
      Returns-bind (ih (node_objects node ++ xs) t (Holds-perm _ _ t v (behind_node node nodes xs)))
        λ (rest, all) u (held_u, kept_u, whole_u, size_u, outcome). returns (
          Holds-perm _ _ u held_u (before_node node rest xs),
          (λ h p.
              kept_u h (omega (arith, p, count-append h (node_objects node) xs))
              ∙ kept h (omega (arith, p, count-append h (objects nodes) xs))),
          (whole, whole_u),
          ap suc size_u,
          λ b.
              let (seeded_rest, sizes, numbers) = outcome b in
              (
                Seeded-append seed (somes node.vms) (node_vms rest) u
                    (λ h p.
                      kept_u h (
                        omega (
                          arith,
                          p,
                          count-append h (node_objects node) xs,
                          count-append h (somes node.vms) (held node.cache),
                        ))
                      ∙ seeded h p)
                    seeded_rest,
                cc,
                cc,
              ),
        )
