-- ===== src/Miner/Workers/Steps.antt =====
-- Every step of a worker and of the main thread keeps the invariant.
use juno_miner.Base.{
  ℕ, ◌+◌, ◌%◌, ◌^◌, ◌≡◌, refl, sym, ap, inl, inr, Bool, true, false, some, arith, Bool-cases, Bytes,
  Outcome, ok, throws, undefined,
}
use mathlib.Core.Path.{subst₂}
use juno_miner.Utils.Target.{hash_meets_target}
use juno_miner.Miner.Nonce.{increment, hash_input}
use juno_miner.Miner.Workers.{
  Work, Shared, Pc, load_mining, load_found, hashing, testing, claiming, storing, signalling,
  returned, crashed, System, update, advance, turn, halt, Reach, begin, worker, main,
}
use juno_miner.Miner.Workers.Invariant.{is_storing, is_winner, not_both, Honest, Inv, neutral}

module _ (hash : Bytes → Bytes) (work : Work) (s : System) (i : ℕ) (inv : Inv hash work s) where
  pub after_step : Pc → System
  after_step p =
      let (shared, q) = advance hash work s.shared p in
      record s { shared = shared; pcs = update s.pcs i q }

  found_by_winner : is_winner (s.pcs i) ≡ true → s.shared.found ≡ true
  found_by_winner won = elim (Bool-cases s.shared.found) [
    | inl yes_found ↦ yes_found
    | inr not_found ↦ absurd (not_both won (inv.quiet not_found i))
  ]

  won :
      (nonce h : Bytes)
      → s.pcs i ≡ claiming nonce h
      → s.shared.found ≡ false
      → Inv hash work (record s {
        shared = record s.shared { found = true };
        pcs = update s.pcs i (storing nonce h);
      })
  won nonce h at free = record {
    honest = λ j. ground (arith, inv.honest i, inv.honest j);
    quiet = λ e j. cc;
    blank = λ e. cc;
    unique = λ j k a b. ground (arith, inv.quiet free j, inv.quiet free k);
    stored = λ e none_stores. ground (arith, none_stores i);
    clean = λ e f. ground (arith, inv.clean e f);
  }

  stores :
      (nonce h : Bytes)
      → s.pcs i ≡ storing nonce h
      → Inv hash work (record s {
        shared = record s.shared {
          solution_nonce = nonce;
          solution_hash = h;
          solution_header = hash_input work.header_base nonce;
          solution_template = some work;
        };
        pcs = update s.pcs i signalling;
      })
  stores nonce h at =
      let is_found : s.shared.found ≡ true = found_by_winner (ap is_winner at) in
      record {
        honest = λ j. ground (arith, inv.honest j);
        quiet = λ e j. absurd (not_both is_found e);
        blank = λ e. absurd (not_both is_found e);
        unique = λ j k a b. inv.unique j k (ground arith) (ground arith);
        stored = λ e none_stores. record {
          header = refl;
          hashed = ground (arith, inv.honest i);
          meets = ground (arith, inv.honest i);
          template = refl;
        };
        clean = λ e f. ground (arith, (inv.clean e f).1 i);
      }

  signals :
      s.pcs i ≡ signalling
      → Inv hash work
          (record s { shared = record s.shared { mining = false }; pcs = update s.pcs i returned })
  signals at =
      let is_found : s.shared.found ≡ true = found_by_winner (ap is_winner at) in
      record {
        honest = λ j. ground (arith, inv.honest j);
        quiet = λ e j. absurd (not_both is_found e);
        blank = λ e. absurd (not_both is_found e);
        unique = λ j k a b. inv.unique j k (ground arith) (ground arith);
        stored = λ e none_stores.
            let c = inv.stored e (λ j. ground (arith, none_stores j)) in
            record { header = c.header; hashed = c.hashed; meets = c.meets; template = c.template };
        clean = λ e f. (
          is_found,
          λ j. elim (Bool-cases (is_storing (s.pcs j))) [
            | inl held ↦ ground (arith, inv.unique i j)
            | inr free ↦ ground arith
          ],
        );
      }

  -- A step that leaves the shared state and is no win
  idle_step :
      (p q : Pc)
      → s.pcs i ≡ p
      → is_winner p ≡ false
      → is_winner q ≡ false
      → Honest hash work q
      → Inv hash work (record s { shared = s.shared; pcs = update s.pcs i q })
  idle_step p q at before after h =
      neutral hash work s i p q s.shared at before after refl refl refl (λ c. c) inv h

  -- The step is known by its two results.
  by_results :
      (p : Pc) {after : Shared} {q : Pc}
      → (advance hash work s.shared p).0 ≡ after
      → (advance hash work s.shared p).1 ≡ q
      → Inv hash work (record s { shared = after; pcs = update s.pcs i q })
      → Inv hash work (after_step p)
  unfolding after_step
  by_results p e f h =
      subst₂
        (λ (t : Shared) (u : Pc). Inv hash work (record s { shared = t; pcs = update s.pcs i u }))
        (sym e) (sym f) h

  tested :
      (nonce h : Bytes) (r : Outcome Bool)
      → hash_meets_target h work.target ≡ r
      → s.pcs i ≡ testing nonce h
      → Inv hash work (after_step (testing nonce h))
  unfolding advance
  tested nonce h (ok true) e at =
      by_results (testing nonce h) refl (ground arith)
        (idle_step (testing nonce h) (claiming nonce h) at refl refl (ground (arith, inv.honest i)))
  tested nonce h (ok false) e at =
      by_results (testing nonce h) refl (ground arith)
        (idle_step (testing nonce h) (load_mining (increment nonce)) at refl refl tt)
  tested nonce h (throws x) e at =
      by_results (testing nonce h) refl (ground arith)
        (idle_step (testing nonce h) crashed at refl refl tt)
  tested nonce h undefined e at =
      by_results (testing nonce h) refl (ground arith)
        (idle_step (testing nonce h) crashed at refl refl tt)

  after_step-Inv : (p : Pc) → s.pcs i ≡ p → Inv hash work (after_step p)
  unfolding advance
  after_step-Inv (load_mining nonce) at = elim (Bool-cases s.shared.mining) [
    | inl on ↦
        by_results (load_mining nonce) refl (ground arith)
          (idle_step (load_mining nonce) (load_found nonce) at refl refl tt)
    | inr off ↦
        by_results (load_mining nonce) refl (ground arith)
          (idle_step (load_mining nonce) returned at refl refl tt)
  ]
  after_step-Inv (load_found nonce) at = elim (Bool-cases s.shared.found) [
    | inl on ↦
        by_results (load_found nonce) refl (ground arith)
          (idle_step (load_found nonce) returned at refl refl tt)
    | inr off ↦
        by_results (load_found nonce) refl (ground arith)
          (idle_step (load_found nonce) (hashing nonce) at refl refl tt)
  ]
  after_step-Inv (hashing nonce) at = by_results (hashing nonce) refl refl (
      neutral hash work s i (hashing nonce)
        (testing nonce (hash (hash_input work.header_base nonce)))
        (record s.shared { hash_count = (s.shared.hash_count + 1) % 2 ^ 64 }) at refl refl refl refl
        refl
        (λ c. record {
          header = c.header;
          hashed = c.hashed;
          meets = c.meets;
          template = c.template;
        })
        inv refl)
  after_step-Inv (testing nonce h) at = tested nonce h (hash_meets_target h work.target) refl at
  after_step-Inv (claiming nonce h) at = elim (Bool-cases s.shared.found) [
    | inl on ↦
        by_results (claiming nonce h) (ground arith) (ground arith)
          (idle_step (claiming nonce h) returned at refl refl tt)
    | inr off ↦ by_results (claiming nonce h) (ground arith) (ground arith) (won nonce h at off)
  ]
  after_step-Inv (storing nonce h) at = by_results (storing nonce h) refl refl (stores nonce h at)
  after_step-Inv signalling at = by_results signalling refl refl (signals at)
  after_step-Inv returned at =
      by_results returned refl refl (idle_step returned returned at refl refl tt)
  after_step-Inv crashed at =
      by_results crashed refl refl (idle_step crashed crashed at refl refl tt)

  pub turn-Inv : Inv hash work (turn hash work i s)
  unfolding turn after_step
  turn-Inv = after_step-Inv (s.pcs i) refl

module _ (hash : Bytes → Bytes) (work : Work) where
  pub halt-Inv : (s : System) → Inv hash work s → Inv hash work (halt hash work s)
  unfolding halt
  halt-Inv s inv = record {
    honest = inv.honest;
    quiet = inv.quiet;
    blank = inv.blank;
    unique = inv.unique;
    stored = λ e none_stores.
        let c = inv.stored e none_stores in
        record { header = c.header; hashed = c.hashed; meets = c.meets; template = c.template };
    clean = λ e f. cc;
  }

  pub Reach-Inv :
      {n : ℕ} {start s : System} → Inv hash work start → Reach hash work n start s → Inv hash work s
  Reach-Inv inv begin = inv
  Reach-Inv inv (worker {s} i below r) = turn-Inv hash work s i (Reach-Inv inv r)
  Reach-Inv inv (main {s} r) = halt-Inv s (Reach-Inv inv r)
