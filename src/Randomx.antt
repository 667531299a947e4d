-- ===== src/Randomx.antt =====
-- The interface of the RandomX library (randomx/randomx.h), as far as src/miner.cpp calls it: which objects
-- are allocated, and the seed that their contents come from. Whether an allocation succeeds is a parameter.
-- A call with an object that is not allocated, or was released, is a fault.
pub mod Returns
use juno_miner.Base.{
  ℕ, suc, Bool, not, Option, none, some, List, [], ◌∷◌, ◌==◌, if◌then◌else◌, count, Bytes,
}

pub record Store : Type 0 where
  -- the handle of the next allocation; no handle is given out twice
  pub next : ℕ
  pub live : List ℕ
  -- the seed of a cache; of a dataset, the seed of the cache that it was made from; of a VM, the seed of
  -- the cache or dataset that it was given last
  pub seed_of : ℕ → Bytes

pub data Run (A : Type 0) : Type 0 where
  done : A → Store → Run A
  fault : Run A

abbrev pub Cmd : Type 0 → Type 0
Cmd A = Store → Run A

abbrev pub pure : {A : Type 0} → A → Cmd A
pure a s = done a s

module _ {A B : Type 0} where
  abbrev pub and_then : Run A → (A → Cmd B) → Run B
  and_then (done a s) next = next a s
  and_then fault next = fault

  infixl 5 ◌>>=◌ ◌>>◌
  abbrev pub ◌>>=◌ : Cmd A → (A → Cmd B) → Cmd B
  m >>= next = λ s. and_then (m s) next

  abbrev pub ◌>>◌ : Cmd A → Cmd B → Cmd B
  m >> n = m >>= λ _. n

abbrev pub remove : ℕ → List ℕ → List ℕ
remove h [] = []
remove h (x ∷ xs) = let rest = remove h xs in if x == h then xs else x ∷ rest

abbrev pub is_live : ℕ → Store → Bool
is_live h s = not (count h s.live == 0)

-- A call with the object `h`
unfoldable pub need : ℕ → Cmd (Unit {0})
need h s = if is_live h s then done tt s else fault

unfoldable pub fill : ℕ → Bytes → Cmd (Unit {0})
fill h seed s = done tt (record s { seed_of = λ j. if j == h then seed else s.seed_of j })

-- `randomx_init_cache`
abbrev pub init_cache : ℕ → Bytes → Cmd (Unit {0})
init_cache cache seed = need cache >> fill cache seed

-- `randomx_vm_set_dataset`, and `randomx_init_dataset` on all items
abbrev pub refill : ℕ → ℕ → Cmd (Unit {0})
refill target source = do need target; need source; λ s. fill target (s.seed_of source) s

-- `randomx_release_cache`, `randomx_release_dataset`, `randomx_destroy_vm`
unfoldable pub release : ℕ → Cmd (Unit {0})
release h = need h >> λ s. done tt (record s { live = remove h s.live })

-- A new VM is given its memory.
abbrev pub give_memory : ℕ → Option ℕ → Cmd (Option ℕ)
give_memory memory none = pure none
give_memory memory (some h) = refill h memory >> pure (some h)

module _ (grants : ℕ → Bool) where
  -- An attempt at an allocation; `grants` tells which ones succeed.
  unfoldable pub alloc : Cmd (Option ℕ)
  alloc s =
      if grants s.next
      then done (some s.next) (record s { next = suc s.next; live = s.next ∷ s.live })
      else done none (record s { next = suc s.next })

  -- `randomx_create_vm` on a cache or a dataset, which must not be null
  unfoldable pub create_vm : Option ℕ → Cmd (Option ℕ)
  unfolding alloc
  create_vm none = λ s. fault
  create_vm (some memory) = do need memory; vm ← alloc; give_memory memory vm
