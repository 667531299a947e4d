-- ===== src/Resources/Vms.antt =====
-- src/miner.cpp: the loops over lists of VMs, which neither leak nor release twice.
use juno_miner.Base.{
  ℕ, suc, ◌+◌, ◌<◌, ◌≡◌, refl, ap, ◌∙◌, subst, inl, inr, Bool, true, Option, none, some, List, [],
  ◌∷◌, ◌++◌, arith, ◌==◌, Bool-cases, false-≢-true, length, count, count-append, Bytes,
}
use juno_miner.Randomx.{Store, Cmd}
use juno_miner.Randomx.Returns.{
  Returns, returns, Returns-bind, Returns-mono, Holds, Holds-perm, Seeded, Kept, release-Returns,
  refill-Returns, Created, create_vm-Returns,
}
use juno_miner.Resources.{release_if, destroy_vms, set_datasets, place_vm, create_vms, recreate_vms}

-- The object of a pointer, and those of a list of pointers
abbrev pub held : Option ℕ → List ℕ
held none = []
held (some h) = h ∷ []

abbrev pub somes : List (Option ℕ) → List ℕ
somes [] = []
somes (none ∷ os) = somes os
somes (some h ∷ os) = h ∷ somes os

pub count-somes :
    (h : ℕ) (o : Option ℕ) (os : List (Option ℕ))
    → count h (somes (o ∷ os)) ≡ count h (held o) + count h (somes os)
count-somes h none os = omega arith
count-somes h (some j) os = ground arith

split_first :
    (o : Option ℕ) (os : List (Option ℕ)) (xs : List ℕ) (h : ℕ)
    → count h (somes (o ∷ os) ++ xs) ≡ count h (held o ++ (somes os ++ xs))
split_first o os xs h = omega (
  arith,
  count-somes h o os,
  count-append h (somes (o ∷ os)) xs,
  count-append h (held o) (somes os ++ xs),
  count-append h (somes os) xs,
)

-- After the release of what a pointer holds, the rest is held, with its contents.
pub release_if-Returns :
    (o : Option ℕ) (xs : List ℕ) (s : Store)
    → Holds (held o ++ xs) s
    → Returns (λ _ t. Holds xs t × Kept xs s t) (release_if o s)
release_if-Returns none xs s v = returns (v, λ h p. refl)
release_if-Returns (some h) xs s v = release-Returns h xs s v

pub destroy_vms-Returns :
    (vms : List (Option ℕ)) (xs : List ℕ) (s : Store)
    → Holds (somes vms ++ xs) s
    → Returns (λ _ t. Holds xs t × Kept xs s t) (destroy_vms vms s)
unfolding destroy_vms
destroy_vms-Returns [] xs s v = returns (v, λ h p. refl)
destroy_vms-Returns (vm ∷ vms) xs s v =
    Returns-bind
      (release_if-Returns vm (somes vms ++ xs) s (Holds-perm _ _ s v (split_first vm vms xs)))
      λ _ t (held_t, kept_t).
        Returns-mono (destroy_vms-Returns vms xs t held_t) λ _ u (held_u, kept_u).
          (held_u, λ h p. kept_u h p ∙ kept_t h (omega (arith, p, count-append h (somes vms) xs)))

-- What a loop over `n` places leaves, beside the objects `xs`: the VMs it lists, and if it came to its end,
-- one in each place, with contents from the seed
abbrev pub Made : Bytes → List ℕ → Store → ℕ → List (Option ℕ) × Bool → Store → Type 0
Made seed xs s n (vms, all) t =
    Holds (somes vms ++ xs) t
    × Kept xs s t
    × (length vms ≡ n)
    × (all ≡ true → Seeded seed (somes vms) t × (length (somes vms) ≡ n))

module _ (memory : ℕ) (seed : Bytes) where
  -- What is asked of the rest of such a loop
  abbrev More : List (Option ℕ) → Cmd (List (Option ℕ) × Bool) → Type 0
  More vms more =
      (xs : List ℕ) (s : Store)
      → Holds (somes vms ++ xs) s
      → 0 < count memory xs
      → s.seed_of memory ≡ seed
      → Returns (Made seed xs s (length vms)) (more s)

  with_first :
      (t u : Store) (vm : ℕ) (rest : List (Option ℕ))
      → u.seed_of vm ≡ t.seed_of vm
      → Seeded seed (somes rest) u
      → t.seed_of vm ≡ seed
      → Seeded seed (vm ∷ somes rest) u
  with_first t u vm rest e others f h p = elim (Bool-cases (vm == h)) [
    | inl same ↦ let path : h ≡ vm = ground (arith, same) in ap u.seed_of path ∙ e ∙ f
    | inr other ↦ others h (ground (arith, other, p))
  ]

  place_vm-Returns :
      (vms : List (Option ℕ)) (more : Cmd (List (Option ℕ) × Bool))
      → More vms more
      → (xs : List ℕ) (s t : Store) (vm : Option ℕ) → 0 < count memory xs
      → s.seed_of memory ≡ seed
      → Created seed (somes vms ++ xs) s vm t
      → Returns (Made seed xs s (suc (length vms))) (place_vm vm vms more t)
  place_vm-Returns vms more ih xs s t none p e (v, kept) = returns (
    v,
    (λ h q. kept h (omega (arith, q, count-append h (somes vms) xs))),
    refl,
    λ b. absurd (false-≢-true b),
  )
  place_vm-Returns vms more ih xs s t (some vm) p e (v, kept, seeded) =
      Returns-bind
        (ih (vm ∷ xs) t
          (Holds-perm _ _ t v λ h.
            ground (arith, count-append h (somes vms) xs, count-append h (somes vms) (vm ∷ xs)))
          (ground (arith, p))
          (kept memory (omega (arith, p, count-append memory (somes vms) xs)) ∙ e))
        λ (rest, all) u (held_u, kept_u, size, full). returns (
          Holds-perm _ _ u held_u (λ h.
              ground
                (arith, count-append h (somes rest) xs, count-append h (somes rest) (vm ∷ xs))),
          (λ h q.
              kept_u h (ground (arith, q))
              ∙ kept h (omega (arith, q, count-append h (somes vms) xs))),
          ap suc size,
          λ b.
              let (seeded_rest, number) = full b in
              (with_first t u vm rest (kept_u vm (ground arith)) seeded_rest seeded, ap suc number),
        )

module _ (grants : ℕ → Bool) (memory : ℕ) (seed : Bytes) where
  -- From places without VMs, `create_vms` makes the VMs it lists, and no others; it is given their memory.
  pub create_vms-Returns :
      (vms : List (Option ℕ)) (xs : List ℕ) (s : Store)
      → Holds (somes vms ++ xs) s
      → ((h : ℕ) → count h (somes vms) ≡ 0)
      → 0 < count memory xs
      → s.seed_of memory ≡ seed
      → Returns (Made seed xs s (length vms)) (create_vms grants (some memory) vms s)
  unfolding create_vms
  create_vms-Returns [] xs s v z p e =
      returns (v, (λ h q. refl), refl, λ b. ((λ h q. absurd (omega (arith, q))), refl))
  create_vms-Returns (some h ∷ vms) xs s v z p e = absurd (ground (arith, z h))
  create_vms-Returns (none ∷ vms) xs s v z p e =
      Returns-bind
        (create_vm-Returns grants memory (somes vms ++ xs) s v
          (omega (arith, p, count-append memory (somes vms) xs)))
        λ vm t made.
          place_vm-Returns memory seed vms (create_vms grants (some memory) vms)
            (λ ys u w q f. create_vms-Returns vms ys u w z q f) xs s t vm p e
            (subst (λ c. Created c (somes vms ++ xs) s vm t) e made)

  -- `recreate_vms` also releases the VMs there were.
  pub recreate_vms-Returns :
      (vms : List (Option ℕ)) (xs : List ℕ) (s : Store)
      → Holds (somes vms ++ xs) s
      → 0 < count memory xs
      → s.seed_of memory ≡ seed
      → Returns (Made seed xs s (length vms)) (recreate_vms grants (some memory) vms s)
  unfolding recreate_vms
  recreate_vms-Returns [] xs s v p e =
      returns (v, (λ h q. refl), refl, λ b. ((λ h q. absurd (omega (arith, q))), refl))
  recreate_vms-Returns (old ∷ vms) xs s v p e =
      Returns-bind
        (release_if-Returns old (somes vms ++ xs) s (Holds-perm _ _ s v (split_first old vms xs)))
        λ _ t (held_t, kept_t).
          let e_t = kept_t memory (omega (arith, p, count-append memory (somes vms) xs)) ∙ e in
          Returns-bind
            (create_vm-Returns grants memory (somes vms ++ xs) t held_t
              (omega (arith, p, count-append memory (somes vms) xs)))
            λ vm u made.
              Returns-mono
                (place_vm-Returns memory seed vms (recreate_vms grants (some memory) vms)
                  (λ ys w x q f. recreate_vms-Returns vms ys w x q f) xs t u vm p e_t
                  (subst (λ c. Created c (somes vms ++ xs) t vm u) e_t made))
                λ (rest, all) w (held_w, kept_w, size, full). (
                  held_w,
                  (λ h q. kept_w h q ∙ kept_t h (omega (arith, q, count-append h (somes vms) xs))),
                  size,
                  full,
                )

-- `set_datasets` gives every VM the dataset's contents, and changes no other object.
pub set_datasets-Returns :
    (dataset : ℕ) (seed : Bytes) (vms : List (Option ℕ)) (xs : List ℕ) (s : Store)
    → Holds xs s
    → 0 < count dataset xs
    → s.seed_of dataset ≡ seed
    → ((h : ℕ) → 0 < count h (somes vms) → 0 < count h xs)
    → Returns
        (λ _ t.
          Holds xs t
          × Seeded seed (somes vms) t
          × ((h : ℕ) → s.seed_of h ≡ seed → t.seed_of h ≡ seed))
        (set_datasets dataset vms s)
unfolding set_datasets
set_datasets-Returns dataset seed [] xs s v p e sub =
    returns (v, (λ h q. absurd (omega (arith, q))), λ h f. f)
set_datasets-Returns dataset seed (none ∷ vms) xs s v p e sub =
    set_datasets-Returns dataset seed vms xs s v p e sub
set_datasets-Returns dataset seed (some vm ∷ vms) xs s v p e sub =
    Returns-bind (refill-Returns vm dataset xs s v (sub vm (ground arith)) p)
      λ _ t (held_t, contents).
        let keeps : (h : ℕ) → s.seed_of h ≡ seed → t.seed_of h ≡ seed =
          λ h f. ground (arith, contents h, e, f) in
        Returns-mono
          (set_datasets-Returns dataset seed vms xs t held_t p (keeps dataset e)
            (λ h q. sub h (ground (arith, q))))
          λ _ u (held_u, seeded, keeps_u). (
            held_u,
            (λ h q. elim (Bool-cases (vm == h)) [
              | inl same ↦ keeps_u h (ground (arith, contents h, e, same))
              | inr other ↦ seeded h (ground (arith, other, q))
            ]),
            λ h f. keeps_u h (keeps h f),
          )
