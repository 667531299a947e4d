-- ===== src/Miner/Workers/Invariant.antt =====
-- What holds in every state that the workers reach.
use juno_miner.Base.{ℕ, ◌≡◌, refl, sym, ◌∙◌, Bool, true, false, Option, some, [], arith, Bytes, ok}
use juno_miner.Utils.Target.{hash_meets_target}
use juno_miner.Miner.Nonce.{hash_input}
use juno_miner.Miner.Workers.{
  Work, Shared, Pc, testing, claiming, storing, signalling, System, update, start_mining,
}

abbrev pub is_storing : Pc → Bool
is_storing (storing nonce h) = true
is_storing _ = false

-- The worker whose compare-exchange succeeded, until it has returned
abbrev pub is_winner : Pc → Bool
is_winner (storing nonce h) = true
is_winner signalling = true
is_winner _ = false

-- A worker that did not win stores nothing.
pub storing-winner : (p : Pc) → is_winner p ≡ false → is_storing p ≡ false
storing-winner (storing nonce h) e = cc
storing-winner _ e = refl

pub not_both : {b : Bool} → b ≡ true → b ≡ false → ⊥
not_both p q = cc

module _ (hash : Bytes → Bytes) (work : Work) where
  -- The hash that a worker holds belongs to its nonce, and meets the target where it has been tested.
  abbrev pub Honest : Pc → Type 0
  Honest (testing nonce h) = h ≡ hash (hash_input work.header_base nonce)
  Honest (claiming nonce h) =
      (h ≡ hash (hash_input work.header_base nonce)) × (hash_meets_target h work.target ≡ ok true)
  Honest (storing nonce h) =
      (h ≡ hash (hash_input work.header_base nonce)) × (hash_meets_target h work.target ≡ ok true)
  Honest _ = Unit {0}

  -- The stored solution is one of this template.
  pub record Complete (s : Shared) : Type 0 where
    pub header : s.solution_header ≡ hash_input work.header_base s.solution_nonce
    pub hashed : s.solution_hash ≡ hash s.solution_header
    pub meets : hash_meets_target s.solution_hash work.target ≡ ok true
    pub template : s.solution_template ≡ some work

  pub record Inv (s : System) : Type 0 where
    pub honest : (i : ℕ) → Honest (s.pcs i)
    pub quiet : s.shared.found ≡ false → (i : ℕ) → is_winner (s.pcs i) ≡ false
    pub blank : s.shared.found ≡ false → s.shared.solution_header ≡ []
    pub unique : (i j : ℕ) → is_winner (s.pcs i) ≡ true → is_winner (s.pcs j) ≡ true → i ≡ j
    pub stored :
        s.shared.found ≡ true → ((i : ℕ) → is_storing (s.pcs i) ≡ false) → Complete s.shared
    pub clean :
        s.stopped ≡ false
        → s.shared.mining ≡ false
        → (s.shared.found ≡ true) × ((i : ℕ) → is_storing (s.pcs i) ≡ false)

  pub start_mining-Inv :
      (nonces : ℕ → Option Bytes) (old : Option Work) → Inv (start_mining hash work nonces old)
  unfolding start_mining
  start_mining-Inv nonces old = record {
    honest = λ i. ground arith;
    quiet = λ e i. ground arith;
    blank = λ e. refl;
    unique = λ i j p q. ground arith;
    stored = λ e. cc;
    clean = λ e f. cc;
  }

  -- A step of worker `i` that neither wins nor ends a win, and leaves the flags and the solution.
  module _ (s : System) (i : ℕ) (p q : Pc) (after : Shared) (at : s.pcs i ≡ p)
      (not_before : is_winner p ≡ false) (not_after : is_winner q ≡ false)
      (found : after.found ≡ s.shared.found) (mining : after.mining ≡ s.shared.mining)
      (header : after.solution_header ≡ s.shared.solution_header)
      (keeps : Complete s.shared → Complete after) (inv : Inv s) where
    winner_back : (j : ℕ) → is_winner (update s.pcs i q j) ≡ true → is_winner (s.pcs j) ≡ true
    winner_back j e = ground arith

    storing_back : (j : ℕ) → is_storing (update s.pcs i q j) ≡ false → is_storing (s.pcs j) ≡ false
    storing_back j e = ground (arith, storing-winner p not_before)

    storing_on : (j : ℕ) → is_storing (s.pcs j) ≡ false → is_storing (update s.pcs i q j) ≡ false
    storing_on j e = ground (arith, storing-winner q not_after)

    pub neutral : Honest q → Inv (record s { shared = after; pcs = update s.pcs i q })
    neutral honest = record {
      honest = λ j. ground (arith, inv.honest j);
      quiet = λ e j. ground (arith, inv.quiet (sym found ∙ e) j);
      blank = λ e. header ∙ inv.blank (sym found ∙ e);
      unique = λ j k a b. inv.unique j k (winner_back j a) (winner_back k b);
      stored =
          λ e none_stores. keeps (inv.stored (sym found ∙ e) (λ j. storing_back j (none_stores j)));
      clean = λ e f.
          let (was, none_stores) = inv.clean e (sym mining ∙ f) in
          (found ∙ was, λ j. storing_on j (none_stores j));
    }
