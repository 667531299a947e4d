-- ===== src/Miner/Workers/Nonces.antt =====
-- The nonces of the workers stay 32 bytes, and so does the one of the stored header.
use juno_miner.Base.{
  ℕ, ◌≡◌, refl, ◌∙◌, ◌⊎◌, inl, inr, Bool, true, false, Option, none, some, [], arith, ◌==◌,
  if◌then◌else◌, Bytes, Outcome, ok, throws, undefined,
}
use juno_miner.Utils.Target.{hash_meets_target}
use juno_miner.Utils.Target.Compact.{IsBytes32}
use juno_miner.Miner.Nonce.{increment, hash_input}
use juno_miner.Miner.Nonce.Search.{increment-IsByte}
use juno_miner.Miner.Workers.{
  Work, Shared, Pc, load_mining, load_found, hashing, testing, claiming, storing, signalling,
  returned, crashed, System, advance, turn, halt, start_mining, Reach, begin, worker, main,
  get_solution, read_solution, at_once,
}

-- The nonce that a worker holds has 32 bytes.
abbrev Holds : Pc → Type 0
Holds (load_mining nonce) = IsBytes32 nonce
Holds (load_found nonce) = IsBytes32 nonce
Holds (hashing nonce) = IsBytes32 nonce
Holds (testing nonce h) = IsBytes32 nonce
Holds (claiming nonce h) = IsBytes32 nonce
Holds (storing nonce h) = IsBytes32 nonce
Holds _ = Unit {0}

IsBytes32-increment : (nonce : Bytes) → IsBytes32 nonce → IsBytes32 (increment nonce)
IsBytes32-increment nonce (v, len) = let (v', same) = increment-IsByte nonce v in (v', same ∙ len)

-- The start nonces of the workers
abbrev pub AreBytes32 : (ℕ → Option Bytes) → Type 0
AreBytes32 nonces = (i : ℕ) (nonce : Bytes) → nonces i ≡ some nonce → IsBytes32 nonce

module _ (hash : Bytes → Bytes) (work : Work) where
  -- The stored header is empty, or the template's with a nonce of 32 bytes.
  abbrev Holder : Bytes → Type 0
  Holder header =
      (header ≡ [])
      ⊎ ((nonce : Bytes) × IsBytes32 nonce × (header ≡ hash_input work.header_base nonce))

  tested-Holds :
      (nonce h : Bytes) (met : Outcome Bool)
      → IsBytes32 nonce
      → Holds (elim met [
        | ok meets ↦ if meets then claiming nonce h else load_mining (increment nonce)
        | throws e ↦ crashed
        | undefined ↦ crashed
      ])
  tested-Holds nonce h (ok true) v = v
  tested-Holds nonce h (ok false) v = IsBytes32-increment nonce v
  tested-Holds nonce h (throws e) v = tt
  tested-Holds nonce h undefined v = tt

  if-Holds : (b : Bool) (p q : Pc) → Holds p → Holds q → Holds (if b then p else q)
  if-Holds true p q hp hq = hp
  if-Holds false p q hp hq = hq

  abbrev Sized : Shared → Pc → Type 0
  Sized s p = Holder s.solution_header × Holds p

  claimed-Sized :
      (s : Shared) (b : Bool) (nonce h : Bytes)
      → Holder s.solution_header
      → IsBytes32 nonce
      → let after : Shared × Pc =
          if b then (s, returned) else (record s { found = true }, storing nonce h) in
        Sized after.0 after.1
  claimed-Sized s true nonce h w v = (w, tt)
  claimed-Sized s false nonce h w v = (w, v)

  advance-Sized :
      (s : Shared) (p : Pc)
      → Holder s.solution_header
      → Holds p
      → Sized (advance hash work s p).0 (advance hash work s p).1
  unfolding advance
  advance-Sized s (load_mining nonce) w v = (w, if-Holds s.mining (load_found nonce) returned v tt)
  advance-Sized s (load_found nonce) w v = (w, if-Holds s.found returned (hashing nonce) tt v)
  advance-Sized s (hashing nonce) w v = (w, v)
  advance-Sized s (testing nonce h) w v =
      (w, tested-Holds nonce h (hash_meets_target h work.target) v)
  advance-Sized s (claiming nonce h) w v = claimed-Sized s s.found nonce h w v
  advance-Sized s (storing nonce h) w v = (inr (nonce, v, refl), tt)
  advance-Sized s signalling w v = (w, tt)
  advance-Sized s returned w v = (w, tt)
  advance-Sized s crashed w v = (w, tt)

  abbrev AllSized : System → Type 0
  AllSized s = Holder s.shared.solution_header × ((i : ℕ) → Holds (s.pcs i))

  turn-AllSized : (i : ℕ) (s : System) → AllSized s → AllSized (turn hash work i s)
  unfolding turn
  turn-AllSized i s (w, v) =
      let (w', v') = advance-Sized s.shared (s.pcs i) w (v i) in
      (w', λ j. if-Holds (i == j) (advance hash work s.shared (s.pcs i)).1 (s.pcs j) v' (v j))

  start-Holds :
      (nonce : Option Bytes)
      → ((bytes : Bytes) → nonce ≡ some bytes → IsBytes32 bytes)
      → Holds (elim nonce [ none ↦ returned | some bytes ↦ load_mining bytes ])
  start-Holds none v = tt
  start-Holds (some bytes) v = v bytes refl

  module _ (n : ℕ) (nonces : ℕ → Option Bytes) (old : Option Work) (v : AreBytes32 nonces) where
    Reach-AllSized :
        (s : System) → Reach hash work n (start_mining hash work nonces old) s → AllSized s
    unfolding start_mining halt
    Reach-AllSized _ begin = (inl refl, λ i. start-Holds (nonces i) (v i))
    Reach-AllSized _ (worker {s} i below r) = turn-AllSized i s (Reach-AllSized s r)
    Reach-AllSized _ (main {s} r) = Reach-AllSized s r

    -- The header of a solution is the template's with a nonce of 32 bytes.
    pub get_solution-nonce :
        (s : System) {result : Bytes × Bytes × Option Work}
        → Reach hash work n (start_mining hash work nonces old) s
        → get_solution s.shared ≡ at_once (some result)
        → (nonce : Bytes) × IsBytes32 nonce × (result.0 ≡ hash_input work.header_base nonce)
    unfolding get_solution read_solution
    get_solution-nonce s r e = ground (arith, (Reach-AllSized s r).0)
