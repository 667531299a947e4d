-- ===== src/Miner/Workers/Stopping.antt =====
-- The threads end after `stop`, and none makes an undefined access; but after a solution the main thread
-- goes on while other threads still run.
use juno_miner.Base.{
  ℕ, ◌+◌, ◌-◌, ◌%◌, ◌^◌, ◌≤◌, ◌<◌, ◌≡◌, refl, ap, ◌∙◌, ◌≢◌, true, false, Option, some, List, [],
  ◌∷◌, arith, ◌==◌, if◌then◌else◌, length, All, count, Bytes, ok, throws, undefined,
}
use juno_miner.Utils.Target.Compact.{IsBytes32}
use juno_miner.Utils.Target.Compare.{hash_meets_target-le}
use juno_miner.Miner.Nonce.{hash_input, increment}
use juno_miner.Miner.Workers.{
  Work, Shared, Pc, load_mining, load_found, hashing, testing, claiming, storing, signalling,
  returned, crashed, System, update, advance, turn, halt, start_mining, Reach, begin, worker, main,
  get_solution, hash_meets_target, at_once,
}
use juno_miner.Miner.Workers.Invariant.{Honest, start_mining-Inv}
use juno_miner.Miner.Workers.Safety.{get_solution-found, hash_input-ne-nil}
use juno_miner.Miner.Workers.Steps.{Reach-Inv}

-- How many steps a worker takes at most once `mining_` is false
abbrev steps_left : Pc → ℕ
steps_left (load_mining nonce) = 1
steps_left (load_found nonce) = 6
steps_left (hashing nonce) = 5
steps_left (testing nonce h) = 4
steps_left (claiming nonce h) = 3
steps_left (storing nonce h) = 2
steps_left signalling = 1
steps_left returned = 0
steps_left crashed = 0

steps_left-le : (p : Pc) → steps_left p ≤ 6
steps_left-le (load_mining nonce) = omega arith
steps_left-le _ = omega arith

module _ (hash : Bytes → Bytes) (work : Work) where
  -- The workers take steps in the order of a list.
  unfoldable pub run : List ℕ → System → System
  unfolding turn advance
  run [] s = s
  run (i ∷ schedule) s = run schedule (turn hash work i s)

  advance_off :
      (s : Shared) (p : Pc)
      → s.mining ≡ false
      → ((advance hash work s p).0.mining ≡ false)
        × (steps_left (advance hash work s p).1 ≤ steps_left p - 1)
  unfolding advance
  advance_off s (load_mining nonce) off = ground arith
  advance_off s (load_found nonce) off = ground arith
  advance_off s (hashing nonce) off = ground arith
  advance_off s (testing nonce h) off = ground arith
  advance_off s (claiming nonce h) off = ground arith
  advance_off s (storing nonce h) off = ground arith
  advance_off s signalling off = ground arith
  advance_off s returned off = ground arith
  advance_off s crashed off = ground arith

  turn_off :
      (i j : ℕ) (s : System)
      → s.shared.mining ≡ false
      → ((turn hash work i s).shared.mining ≡ false)
        × (steps_left ((turn hash work i s).pcs j)
            ≤ (if i == j then steps_left (s.pcs j) - 1 else steps_left (s.pcs j)))
  unfolding turn
  turn_off i j s off = ground (arith, advance_off s.shared (s.pcs i) off)

  run_off :
      (schedule : List ℕ) (i : ℕ) (s : System)
      → s.shared.mining ≡ false
      → steps_left ((run schedule s).pcs i) ≤ steps_left (s.pcs i) - count i schedule
  unfolding run
  run_off [] i s off = omega arith
  run_off (j ∷ schedule) i s off =
      let (still, fewer) = turn_off j i s off in
      ground (arith, run_off schedule i (turn hash work j s) still, fewer)

  run-Reach :
      {n : ℕ} {start : System} (schedule : List ℕ) {s : System}
      → All (λ i. i < n) schedule
      → Reach hash work n start s
      → Reach hash work n start (run schedule s)
  unfolding run
  run-Reach [] below r = r
  run-Reach (i ∷ schedule) {s} (h, below) r =
      run-Reach schedule {s = turn hash work i s} below (worker i h r)

  finished : (p : Pc) → steps_left p ≡ 0 → p ≢ crashed → p ≡ returned
  finished (load_mining nonce) e h = absurd (omega arith)
  finished (load_found nonce) e h = absurd (omega arith)
  finished (hashing nonce) e h = absurd (omega arith)
  finished (testing nonce h') e h = absurd (omega arith)
  finished (claiming nonce h') e h = absurd (omega arith)
  finished (storing nonce h') e h = absurd (omega arith)
  finished signalling e h = absurd (omega arith)
  finished returned e h = refl
  finished crashed e h = absurd (h refl)

  -- The hash function fills 32 bytes, as the template's target does.
  pub record FillsBytes32 : Type 0 where
    pub hashes : (input : Bytes) → IsBytes32 (hash input)
    pub target : IsBytes32 work.target

  advance-ne-crashed :
      FillsBytes32
      → (s : Shared) (p : Pc) → Honest hash work p
      → p ≢ crashed
      → (advance hash work s p).1 ≢ crashed
  unfolding advance
  advance-ne-crashed fills s (load_mining nonce) h ne = ground arith
  advance-ne-crashed fills s (load_found nonce) h ne = ground arith
  advance-ne-crashed fills s (hashing nonce) h ne = λ e. cc
  advance-ne-crashed fills s (testing nonce hashed) h ne =
      let bytes = fills.hashes (hash_input work.header_base nonce) in
      let compared =
        hash_meets_target-le (hash (hash_input work.header_base nonce)) work.target bytes.0
          fills.target.0 bytes.1 fills.target.1 in
      ground (arith, compared)
  advance-ne-crashed fills s (claiming nonce hashed) h ne = ground arith
  advance-ne-crashed fills s (storing nonce hashed) h ne = λ e. cc
  advance-ne-crashed fills s signalling h ne = λ e. cc
  advance-ne-crashed fills s returned h ne = λ e. cc
  advance-ne-crashed fills s crashed h ne = ne

  Reach-ne-crashed :
      (nonces : ℕ → Option Bytes) (old : Option Work) {n : ℕ} {s : System}
      → FillsBytes32
      → Reach hash work n (start_mining hash work nonces old) s
      → (i : ℕ) → s.pcs i ≢ crashed
  unfolding turn halt start_mining
  Reach-ne-crashed nonces old fills begin i = ground arith
  Reach-ne-crashed nonces old fills (worker {s} j below r) i =
      let inv = Reach-Inv hash work (start_mining-Inv hash work nonces old) r in
      let ih = Reach-ne-crashed nonces old fills r i in
      let ihj = Reach-ne-crashed nonces old fills r j in
      let moved = advance-ne-crashed fills s.shared (s.pcs j) (inv.honest j) ihj in
      ground (arith, ih, moved)
  Reach-ne-crashed nonces old fills (main r) i = Reach-ne-crashed nonces old fills r i

  -- Once the main thread has cleared `mining_` in `stop`, every worker that is given six more steps, in
  -- whatever order with the others, has returned: the join ends, and no worker made an undefined access.
  pub stop_returns :
      (nonces : ℕ → Option Bytes) (old : Option Work) {n : ℕ} {s : System}
      → FillsBytes32
      → Reach hash work n (start_mining hash work nonces old) s
      → (schedule : List ℕ) (i : ℕ) → All (λ j. j < n) schedule
      → 6 ≤ count i schedule
      → (run schedule (halt hash work s)).pcs i ≡ returned
  unfolding halt
  stop_returns nonces old {s} fills r schedule i below enough =
      finished ((run schedule (halt hash work s)).pcs i)
        (omega (arith, run_off schedule i (halt hash work s) refl, steps_left-le (s.pcs i)))
        (Reach-ne-crashed nonces old fills (run-Reach schedule below (main r)) i)

  turn_by :
      (s : System) (i : ℕ) {p q : Pc} {after : Shared}
      → s.pcs i ≡ p
      → advance hash work s.shared p ≡ (after, q)
      → turn hash work i s ≡ record s { shared = after; pcs = update s.pcs i q }
  unfolding turn
  turn_by s i at e = ap (λ (p : Pc). next (advance hash work s.shared p)) at ∙ ap next e
    where
      next : Shared × Pc → System
      next r = record s { shared = r.0; pcs = update s.pcs i r.1 }

  module _ (s : System) (i : ℕ) (nonce h : Bytes) where
    abbrev claimed : System
    claimed = record s {
      shared = record s.shared { found = true };
      pcs = update s.pcs i (storing nonce h);
    }

    abbrev stored_at : System
    stored_at = record claimed {
      shared = record claimed.shared {
        solution_nonce = nonce;
        solution_hash = h;
        solution_header = hash_input work.header_base nonce;
        solution_template = some work;
      };
      pcs = update claimed.pcs i signalling;
    }

    abbrev signalled : System
    signalled = record stored_at {
      shared = record stored_at.shared { mining = false };
      pcs = update stored_at.pcs i returned;
    }

    win_run :
        s.shared.found ≡ false → s.pcs i ≡ claiming nonce h → run (i ∷ i ∷ i ∷ []) s ≡ signalled
    unfolding run advance
    win_run free at =
        ap (λ (t : System). turn hash work i (turn hash work i t))
          (turn_by s i {q = storing nonce h} {after = record s.shared { found = true }} at
            (ground arith))
        ∙ ap (turn hash work i) (turn_by claimed i {p = storing nonce h} (ground arith) refl)
        ∙ turn_by stored_at i {p = signalling} (ground arith) refl

  -- Two steps of a worker that is hashing
  tests :
      (s : System) (j : ℕ) (other : Bytes)
      → s.pcs j ≡ hashing other
      → (run (j ∷ j ∷ []) s).pcs j
        ≡ elim (hash_meets_target (hash (hash_input work.header_base other)) work.target) [
          | ok met ↦
              if met
              then claiming other (hash (hash_input work.header_base other))
              else load_mining (increment other)
          | throws e ↦ crashed
          | undefined ↦ crashed
        ]
  unfolding run advance
  tests s j other at =
      let h = hash (hash_input work.header_base other) in
      let counted = record s.shared { hash_count = (s.shared.hash_count + 1) % 2 ^ 64 } in
      let hashed = record s { shared = counted; pcs = update s.pcs j (testing other h) } in
      ap (λ (t : System). (turn hash work j t).pcs j)
        (turn_by s j {q = testing other h} {after = counted} at refl)
      ∙ ap (λ (t : System). t.pcs j) (turn_by hashed j {p = testing other h} (ground arith) refl)
      ∙ ground arith

  -- While worker `i` is about to claim a solution and worker `j` is hashing, three steps of `i` lead to a
  -- state in which `mining_` is false, so that `get_solution` returns the solution at once, without `stop` and its
  -- join; and `j` still runs: its next two steps finish its hash and test it against the template's target.
  pub returns_while_hashing :
      {n : ℕ} {start s : System} (i j : ℕ) (nonce h other : Bytes)
      → Reach hash work n start s
      → i < n
      → i ≢ j
      → length work.header_base ≡ 140
      → s.shared.found ≡ false
      → s.pcs i ≡ claiming nonce h
      → s.pcs j ≡ hashing other
      → let t = run (i ∷ i ∷ i ∷ []) s in
        Reach hash work n start t
        × (get_solution t.shared ≡ at_once (some (hash_input work.header_base nonce, h, some work)))
        × (t.pcs j ≡ hashing other)
        × ((run (j ∷ j ∷ []) t).pcs j
            ≡ elim (hash_meets_target (hash (hash_input work.header_base other)) work.target) [
              | ok met ↦
                  if met
                  then claiming other (hash (hash_input work.header_base other))
                  else load_mining (increment other)
              | throws e ↦ crashed
              | undefined ↦ crashed
            ])
  returns_while_hashing {n} {start} {s} i j nonce h other r below ne len free at other_at =
      let e = win_run s i nonce h free at in
      let at_j = ap (λ (t : System). t.pcs j) e ∙ ground arith in
      (
        run-Reach (i ∷ i ∷ i ∷ []) (below, (below, (below, tt))) r,
        ap (λ (t : System). get_solution t.shared) e
            ∙ get_solution-found (signalled s i nonce h).shared refl refl
                (hash_input-ne-nil work.header_base nonce len),
        at_j,
        tests (run (i ∷ i ∷ i ∷ []) s) j other at_j,
      )
