-- ===== src/Miner/Numa/Pinning.antt =====
-- src/miner.cpp: which CPU each thread is pinned to.
use juno_miner.Base.{
  ℕ, zero, suc, ◌+◌, ◌%◌, ◌<◌, ◌≡◌, refl, sym, ap, ◌∙◌, subst, Option, none, some, List, [], ◌∷◌,
  ◌++◌, append_assoc, append-nil, arith, ◌==◌, if◌then◌else◌, length, get_elem?, set, take,
  replicate, length-replicate, length-set, All, count, ok,
}
use native.Mathlib.Nat.{mod-lt, add-zero}
use juno_miner.Miner.Numa.{distribute, count_node}
use juno_miner.Miner.Numa.Topology.{element, pick_cpu, assign_cpus, spread_threads}

count_node-append :
    (node : ℕ) (xs ys : List ℕ)
    → count_node node (xs ++ ys) ≡ count_node node xs + count_node node ys
unfolding count_node
count_node-append node [] ys = omega arith
count_node-append node (x ∷ xs) ys = ground (arith, count_node-append node xs ys)

pub get_elem?-some :
    {A : Type 0} (xs : List A) (i : ℕ) → i < length xs → (a : A) × (get_elem? xs i ≡ some a)
get_elem?-some [] i h = absurd (omega arith)
get_elem?-some (x ∷ xs) zero h = (x, refl)
get_elem?-some (x ∷ xs) (suc i) h = get_elem?-some xs i (omega arith)

get_elem?-set :
    {A : Type 0} (xs : List A) (i j : ℕ) (v : A)
    → i < length xs
    → get_elem? (set xs i v) j ≡ (if i == j then some v else get_elem? xs j)
get_elem?-set [] i j v h = absurd (omega arith)
get_elem?-set (x ∷ xs) zero zero v h = refl
get_elem?-set (x ∷ xs) zero (suc j) v h = ground arith
get_elem?-set (x ∷ xs) (suc i) zero v h = ground arith
get_elem?-set (x ∷ xs) (suc i) (suc j) v h = ground (arith, get_elem?-set xs i j v)

-- The CPU of a node at the position of a thread among its node's threads, over and over again
abbrev pub cpu_at : List (List ℕ) → ℕ → ℕ → Option ℕ
cpu_at cpu_ids node position = elim (get_elem? cpu_ids node) [
  | none ↦ none
  | some cpus ↦ get_elem? cpus (position % length cpus)
]

-- Every node has CPUs.
abbrev pub IsPopulated : List (List ℕ) → Type 0
IsPopulated cpu_ids = All (λ (cpus : List ℕ). 0 < length cpus) cpu_ids

All-get_elem? :
    {A : Type 0} (P : A → Type 0) (xs : List A) (i : ℕ) {a : A}
    → All P xs
    → get_elem? xs i ≡ some a
    → P a
All-get_elem? P [] i h e = cc
All-get_elem? P (x ∷ xs) zero h e = subst P (cc) h.0
All-get_elem? P (x ∷ xs) (suc i) h e = All-get_elem? P xs i h.1 e

module _ (cpu_ids : List (List ℕ)) where
  -- The counts are those of the threads that have been distributed.
  Counted : List ℕ → List ℕ → Type 0
  Counted counts before =
      (length counts ≡ length cpu_ids)
      × ((node : ℕ) → node < length cpu_ids → get_elem? counts node ≡ some (count_node node before))

  Counted-next :
      (counts before : List ℕ) (node : ℕ)
      → node < length cpu_ids
      → Counted counts before
      → Counted (set counts node (count_node node before + 1)) (before ++ (node ∷ []))
  unfolding Counted count_node
  Counted-next counts before node h (size, counted) = (
    length-set counts node (count_node node before + 1) ∙ size,
    λ other p. ground (
      arith,
      get_elem?-set counts node other (count_node node before + 1),
      counted other p,
      count_node-append other before (node ∷ []),
      size,
    ),
  )

  first_cpu :
      (counts before : List ℕ) (node : ℕ)
      → node < length cpu_ids
      → IsPopulated cpu_ids
      → Counted counts before
      → (cpus : List ℕ) × (cpu : ℕ) × (element cpu_ids node ≡ ok cpus)
        × (element counts node ≡ ok (count_node node before))
        × (pick_cpu cpus (count_node node before) ≡ ok cpu)
        × (cpu_at cpu_ids node (count_node node before) ≡ some cpu)
  unfolding Counted pick_cpu
  first_cpu counts before node h populated (size, counted) =
      let (cpus, found) = get_elem?-some cpu_ids node h in
      let some_cpu : 0 < length cpus =
        All-get_elem? (λ (xs : List ℕ). 0 < length xs) cpu_ids node populated found in
      let (cpu, at) =
        get_elem?-some cpus (count_node node before % length cpus) (mod-lt _ some_cpu) in
      (
        cpus,
        cpu,
        ground (arith, found),
        ground (arith, counted node h),
        ground (arith, at, some_cpu),
        ground (arith, found, at),
      )

  -- The CPU of thread `u`, behind the threads whose nodes are listed
  abbrev pub cpu_behind : List ℕ → ℕ → Option ℕ
  cpu_behind before u = cpu_at cpu_ids (u % length cpu_ids) (count_node (u % length cpu_ids) before)

  -- The CPUs of the threads from `t` on
  abbrev Pinned : List ℕ → ℕ → ℕ → List ℕ → Type 0
  Pinned before t left out =
      (length out ≡ left)
      × ((i : ℕ)
          → i < left
          → get_elem? out i
            ≡ cpu_behind (before ++ take i (distribute (length cpu_ids) t left)) (t + i))

  Pinned-next :
      (before : List ℕ) (t left cpu : ℕ) (rest : List ℕ)
      → cpu_behind before t ≡ some cpu
      → Pinned (before ++ (t % length cpu_ids ∷ [])) (suc t) left rest
      → Pinned before t (suc left) (cpu ∷ rest)
  unfolding distribute
  Pinned-next before t left cpu rest at (size, pinned) = (ap suc size, by_place)
    where
      by_place :
          (i : ℕ)
          → i < suc left
          → get_elem? (cpu ∷ rest) i
            ≡ cpu_behind (before ++ take i (distribute (length cpu_ids) t (suc left))) (t + i)
      by_place zero h = rw (append-nil, add-zero) (sym at)
      by_place (suc i) h =
          let later = take i (distribute (length cpu_ids) (suc t) left) in
          pinned i (omega arith)
          ∙ ap (λ (u : ℕ). cpu_behind ((before ++ (t % length cpu_ids ∷ [])) ++ later) u)
              (omega arith)
          ∙ ap (λ (xs : List ℕ). cpu_behind xs (t + suc i))
              (append_assoc before (t % length cpu_ids ∷ []) later)

  assign_cpus-Pinned :
      (counts before : List ℕ) (t left : ℕ)
      → 0 < length cpu_ids
      → IsPopulated cpu_ids
      → Counted counts before
      → (out : List ℕ) × (assign_cpus cpu_ids counts t left ≡ ok out) × Pinned before t left out
  unfolding assign_cpus
  assign_cpus-Pinned counts before t zero several populated c =
      ([], refl, (refl, λ i h. absurd (omega arith)))
  assign_cpus-Pinned counts before t (suc left) several populated c =
      let node = t % length cpu_ids in
      let p : node < length cpu_ids = mod-lt t several in
      let (cpus, cpu, found, count, picked, at) = first_cpu counts before node p populated c in
      let (rest, assigned, pinned) =
        assign_cpus-Pinned (set counts node (count_node node before + 1)) (before ++ (node ∷ []))
          (suc t) left several populated (Counted-next counts before node p c) in
      (
        cpu ∷ rest,
        rw (found, count, picked, assigned) refl,
        Pinned-next before t left cpu rest at pinned,
      )

replicate_counted : (n i : ℕ) → i < n → get_elem? {A = ℕ} (replicate n 0) i ≡ some 0
replicate_counted zero i h = absurd (omega arith)
replicate_counted (suc n) zero h = refl
replicate_counted (suc n) (suc i) h = replicate_counted n i (omega arith)

-- If there are nodes and each has CPUs, then the distribution of the threads does not fault, and gives each thread
-- the CPU of its node at the index of its VM in the node, counted over again where there are fewer CPUs.
pub spread_threads-Pinned :
    (cpu_ids : List (List ℕ)) (num_threads : ℕ)
    → 0 < length cpu_ids
    → IsPopulated cpu_ids
    → (out : List ℕ) × (spread_threads cpu_ids num_threads ≡ ok out)
      × (length out ≡ num_threads)
      × ((t : ℕ)
          → t < num_threads
          → get_elem? out t
            ≡ cpu_behind cpu_ids (take t (distribute (length cpu_ids) 0 num_threads)) t)
unfolding spread_threads Counted count_node
spread_threads-Pinned cpu_ids num_threads several populated =
    let (out, assigned, (size, pinned)) =
      assign_cpus-Pinned cpu_ids (replicate (length cpu_ids) 0) [] 0 num_threads several populated (
        length-replicate (length cpu_ids) 0,
        λ node p. replicate_counted (length cpu_ids) node p,
      ) in
    (
      out,
      assigned,
      size,
      λ t p.
          pinned t p
          ∙ ap
              (λ (u : ℕ). cpu_behind cpu_ids (take t (distribute (length cpu_ids) 0 num_threads)) u)
              (omega arith),
    )
