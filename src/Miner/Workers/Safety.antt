-- ===== src/Miner/Workers/Safety.antt =====
-- What the main thread reads after the workers, whatever the order of their steps.
use juno_miner.Base.{
  ℕ, ◌≡◌, sym, ap, ◌∙◌, subst, ◌≢◌, true, false, Option, some, [], ◌∷◌, arith, length, Bytes, ok,
}
use juno_miner.Utils.Target.{hash_meets_target}
use juno_miner.Miner.Nonce.{hash_input}
use juno_miner.Miner.Workers.{
  Work, Shared, returned, System, start_mining, Reach, read_solution, at_once, get_solution,
}
use juno_miner.Miner.Workers.Invariant.{is_storing, Complete, start_mining-Inv}
use juno_miner.Miner.Workers.Steps.{Reach-Inv}

-- A solution that `get_solution` may return: the header of the template with some nonce, its hash, which
-- meets the target, and the template.
pub record IsSolution (hash : Bytes → Bytes) (work : Work) (result : Bytes × Bytes × Option Work)
    : Type 0 where
  pub nonce : Bytes
  pub header : result.0 ≡ hash_input work.header_base nonce
  pub hashed : result.1 ≡ hash result.0
  pub meets : hash_meets_target result.1 work.target ≡ ok true
  pub template : result.2 ≡ some work

read_solution-eq-some :
    (s : Shared) {result : Bytes × Bytes × Option Work}
    → read_solution s ≡ some result
    → (s.found ≡ true)
      × (s.solution_header ≡ result.0)
      × (s.solution_hash ≡ result.1)
      × (s.solution_template ≡ result.2)
unfolding read_solution
read_solution-eq-some s e = ground arith

-- A header of 140 bytes gives an input that is not empty.
pub hash_input-ne-nil : (base nonce : Bytes) → length base ≡ 140 → hash_input base nonce ≢ []
unfolding hash_input
hash_input-ne-nil [] nonce len = absurd (omega arith)
hash_input-ne-nil (b ∷ base) nonce len = λ e. cc

read_solution-found :
    (s : Shared)
    → s.found ≡ true
    → s.solution_header ≢ []
    → read_solution s ≡ some (s.solution_header, s.solution_hash, s.solution_template)
unfolding read_solution
read_solution-found s e ne = ground arith

-- Where `mining_` is false, `get_solution` does not wait.
get_solution-off :
    (s : Shared) {result : Option (Bytes × Bytes × Option Work)}
    → s.mining ≡ false
    → read_solution s ≡ result
    → get_solution s ≡ at_once result
unfolding get_solution
get_solution-off s off e = ground (arith, off, e)

pub get_solution-found :
    (s : Shared)
    → s.mining ≡ false
    → s.found ≡ true
    → s.solution_header ≢ []
    → get_solution s ≡ at_once (some (s.solution_header, s.solution_hash, s.solution_template))
get_solution-found s off found ne = get_solution-off s off (read_solution-found s found ne)

module _ (hash : Bytes → Bytes) (work : Work) where
  Complete-IsSolution :
      (s : Shared)
      → Complete hash work s
      → IsSolution hash work (s.solution_header, s.solution_hash, s.solution_template)
  Complete-IsSolution s c = record {
    nonce = s.solution_nonce;
    header = c.header;
    hashed = c.hashed;
    meets = c.meets;
    template = c.template;
  }

  read-IsSolution :
      (s : Shared) {result : Bytes × Bytes × Option Work}
      → Complete hash work s
      → read_solution s ≡ some result
      → IsSolution hash work result
  read-IsSolution s c e =
      let (_, header, hashed, template) = read_solution-eq-some s e in
      record {
        nonce = s.solution_nonce;
        header = sym header ∙ c.header;
        hashed = ground (arith, c.hashed);
        meets = subst (λ (h : Bytes). hash_meets_target h work.target ≡ ok true) hashed c.meets;
        template = sym template ∙ c.template;
      }

  module _ (n : ℕ) (nonces : ℕ → Option Bytes) (old : Option Work) (s : System) where
    -- After the threads have been joined, a solution that `get_solution` then reads consists of the
    -- template's header with a nonce, the hash of that input, which meets the target, and the template.
    pub IsSolution-after_join :
        {result : Bytes × Bytes × Option Work}
        → Reach hash work n (start_mining hash work nonces old) s
        → ((i : ℕ) → s.pcs i ≡ returned)
        → read_solution s.shared ≡ some result
        → IsSolution hash work result
    IsSolution-after_join r joined e =
        let inv = Reach-Inv hash work (start_mining-Inv hash work nonces old) r in
        let (is_found, _, _, _) = read_solution-eq-some s.shared e in
        read-IsSolution s.shared (inv.stored is_found (λ i. ap is_storing (joined i))) e

    -- Where the template's header has 140 bytes, no `stop` has been called and `mining_` is false, as when the main loop ends by a solution,
    -- `get_solution` returns a solution of the template at once, without waiting for the threads.
    pub IsSolution-without_join :
        length work.header_base ≡ 140
        → Reach hash work n (start_mining hash work nonces old) s
        → s.stopped ≡ false
        → s.shared.mining ≡ false
        → (result : Bytes × Bytes × Option Work) × (get_solution s.shared ≡ at_once (some result))
          × IsSolution hash work result
    IsSolution-without_join len r running off =
        let inv = Reach-Inv hash work (start_mining-Inv hash work nonces old) r in
        let (is_found, none_stores) = inv.clean running off in
        let c = inv.stored is_found none_stores in
        (
          _,
          get_solution-found s.shared off is_found (λ e.
              hash_input-ne-nil work.header_base s.shared.solution_nonce len (sym c.header ∙ e)),
          Complete-IsSolution s.shared c,
        )
