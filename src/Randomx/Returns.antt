-- ===== src/Randomx/Returns.antt =====
-- Total correctness of a run: no fault, and a postcondition; and the rules for the library's calls.
use juno_miner.Base.{
  ℕ, ◌+◌, ◌≤◌, ◌<◌, ◌≡◌, refl, sym, ◌∙◌, inl, inr, Bool, true, false, Option, none, some, List, [],
  ◌∷◌, ◌++◌, arith, ltb, ◌==◌, if◌then◌else◌, Bool-cases, count, count-append, Bytes,
}
use juno_miner.Randomx.{
  Store, Run, done, Cmd, and_then, need, is_live, fill, init_cache, refill, release, remove, alloc,
  create_vm, give_memory,
}

pub data Returns {A : Type 0} (P : A → Store → Type 0) : Run A → Type 0 where
  returns : {a : A} {s : Store} → P a s → Returns P (done a s)

pub Returns-bind :
    {A B : Type 0} {P : A → Store → Type 0} {Q : B → Store → Type 0} {r : Run A} {next : A → Cmd B}
    → Returns P r
    → ((a : A) (s : Store) → P a s → Returns Q (next a s))
    → Returns Q (and_then r next)
Returns-bind (Returns.returns p) next = next _ _ p

pub Returns-mono :
    {A : Type 0} {P Q : A → Store → Type 0} {r : Run A}
    → Returns P r
    → ((a : A) (s : Store) → P a s → Q a s)
    → Returns Q r
Returns-mono (Returns.returns p) weaken = returns (weaken _ _ p)

pub Returns-if :
    {A : Type 0} {P : A → Store → Type 0} (b : Bool) (m n : Cmd A) {s : Store}
    → (b ≡ true → Returns P (m s))
    → (b ≡ false → Returns P (n s))
    → Returns P ((if b then m else n) s)
Returns-if true m n first second = first refl
Returns-if false m n first second = second refl

-- The allocated objects are those of `xs`, each once, and no future handle is among them.
pub record Holds (xs : List ℕ) (s : Store) : Type 0 where
  pub same : (h : ℕ) → count h s.live ≡ count h xs
  pub fresh : (h : ℕ) → s.next ≤ h → count h xs ≡ 0
  pub unique : (h : ℕ) → count h xs ≤ 1

-- The objects of `xs` have their contents from the seed.
abbrev pub Seeded : Bytes → List ℕ → Store → Type 0
Seeded seed xs s = (h : ℕ) → 0 < count h xs → s.seed_of h ≡ seed

-- The objects of `xs` have kept their contents.
abbrev pub Kept : List ℕ → Store → Store → Type 0
Kept xs s t = (h : ℕ) → 0 < count h xs → t.seed_of h ≡ s.seed_of h

count-remove :
    (i h : ℕ) (xs : List ℕ) → 0 < count h xs → count i (remove h xs) + count i (h ∷ []) ≡ count i xs
count-remove i h [] p = absurd (omega arith)
count-remove i h (x ∷ xs) p = ground (arith, count-remove i h xs)

is_live-eq-true : (h : ℕ) (s : Store) → 0 < count h s.live → is_live h s ≡ true
is_live-eq-true h s p = ground arith

pub need-Returns : (h : ℕ) (s : Store) → 0 < count h s.live → Returns (λ _ t. t ≡ s) (need h s)
unfolding need
need-Returns h s p = rw (is_live-eq-true h s p) (returns refl)

pub Holds-perm :
    (xs ys : List ℕ) (s : Store) → Holds xs s → ((h : ℕ) → count h xs ≡ count h ys) → Holds ys s
Holds-perm xs ys s v e = record {
  same = λ h. v.same h ∙ e h;
  fresh = λ h p. sym (e h) ∙ v.fresh h p;
  unique = λ h. omega (arith, v.unique h, e h);
}

need-Holds : (h : ℕ) (xs : List ℕ) (s : Store) → Holds xs s → 0 < count h xs → is_live h s ≡ true
need-Holds h xs s v p = is_live-eq-true h s (omega (arith, v.same h))

pub count_self : (h : ℕ) (xs : List ℕ) → 0 < count h (h ∷ xs)
count_self h xs = ground arith

-- Releasing an object that is held takes it out, and no contents change.
pub release-Returns :
    (h : ℕ) (xs : List ℕ) (s : Store)
    → Holds (h ∷ xs) s
    → Returns (λ _ t. Holds xs t × Kept xs s t) (release h s)
unfolding release need
release-Returns h xs s v =
    let held = need-Holds h (h ∷ xs) s v (count_self h xs) in
    rw held (
      returns (
        record {
          same = λ i. ground (arith, v.same i, v.same h, count_self h xs, count-remove i h s.live);
          fresh = λ i p. ground (arith, v.fresh i p);
          unique = λ i. ground (arith, v.unique i);
        },
        λ i p. refl,
      ))

-- Filling an object changes no other one's contents.
pub init_cache-Returns :
    (c : ℕ) (seed : Bytes) (xs : List ℕ) (s : Store)
    → Holds xs s
    → 0 < count c xs
    → Returns
        (λ _ t. Holds xs t × ((h : ℕ) → t.seed_of h ≡ (if h == c then seed else s.seed_of h)))
        (init_cache c seed s)
unfolding need fill
init_cache-Returns c seed xs s v p =
    rw (need-Holds c xs s v p)
      (returns (record { same = v.same; fresh = v.fresh; unique = v.unique }, λ h. refl))

pub refill-Returns :
    (target source : ℕ) (xs : List ℕ) (s : Store)
    → Holds xs s
    → 0 < count target xs
    → 0 < count source xs
    → Returns
        (λ _ t.
          Holds xs t
          × ((h : ℕ) → t.seed_of h ≡ (if h == target then s.seed_of source else s.seed_of h)))
        (refill target source s)
unfolding need fill
refill-Returns target source xs s v p q = rw (need-Holds target xs s v p) (
    rw (need-Holds source xs s v q)
      (returns (record { same = v.same; fresh = v.fresh; unique = v.unique }, λ h. refl)))

-- What an allocation comes to: nothing, or a handle that was not held before
abbrev pub Allocated : List ℕ → Store → Option ℕ → Store → Type 0
Allocated xs s none t = Holds xs t × Kept xs s t
Allocated xs s (some h) t = Holds (h ∷ xs) t × Kept xs s t × (count h xs ≡ 0)

-- The same for a VM, whose contents come from its memory
abbrev pub Created : Bytes → List ℕ → Store → Option ℕ → Store → Type 0
Created seed xs s none t = Holds xs t × Kept xs s t
Created seed xs s (some h) t = Holds (h ∷ xs) t × Kept xs s t × (t.seed_of h ≡ seed)

give_memory-Returns :
    (memory : ℕ) (xs : List ℕ) (s t : Store) (vm : Option ℕ)
    → 0 < count memory xs
    → Allocated xs s vm t
    → Returns (Created (s.seed_of memory) xs s) (give_memory memory vm t)
give_memory-Returns memory xs s t none p (v, kept) = returns (v, kept)
give_memory-Returns memory xs s t (some h) p (v, kept, new) =
    Returns-bind (refill-Returns h memory (h ∷ xs) t v (count_self h xs) (ground (arith, p)))
      λ _ u (held, contents). returns (
        held,
        (λ j q. ground (arith, contents j, kept j q, new, q)),
        ground (arith, contents h, kept memory p),
      )

pub Seeded-append :
    (seed : Bytes) (xs ys : List ℕ) (s : Store)
    → Seeded seed xs s
    → Seeded seed ys s
    → Seeded seed (xs ++ ys) s
Seeded-append seed xs ys s f g h p = elim (Bool-cases (ltb 0 (count h xs))) [
  | inl present ↦ f h (ground (arith, present))
  | inr absent ↦ g h (ground (arith, absent, p, count-append h xs ys))
]

module _ (grants : ℕ → Bool) where
  pub alloc-Returns :
      (xs : List ℕ) (s : Store) → Holds xs s → Returns (Allocated xs s) (alloc grants s)
  unfolding alloc
  alloc-Returns xs s v = elim (Bool-cases (grants s.next)) [
    | inl given ↦ rw given (
        returns (
          record {
            same = λ h. ground (arith, v.same h);
            fresh = λ h p. ground (arith, v.fresh h (omega arith));
            unique = λ h. ground (arith, v.unique h, v.fresh s.next (omega arith));
          },
          (λ h p. refl),
          v.fresh s.next (omega arith),
        ))
    | inr refused ↦ rw refused (
        returns (
          record { same = v.same; fresh = λ h p. v.fresh h (omega arith); unique = v.unique },
          λ h p. refl,
        ))
  ]

  pub create_vm-Returns :
      (memory : ℕ) (xs : List ℕ) (s : Store)
      → Holds xs s
      → 0 < count memory xs
      → Returns (Created (s.seed_of memory) xs s) (create_vm grants (some memory) s)
  unfolding create_vm need
  create_vm-Returns memory xs s v p =
      rw (need-Holds memory xs s v p)
        (Returns-bind (alloc-Returns xs s v) λ vm t a. give_memory-Returns memory xs s t vm p a)
