-- ===== src/Mining/Stopping.antt =====
-- src/main.cpp: how the mining loop stops, on a lost connection and on an interruption.
use juno_miner.Base.{
  ℕ, ◌≡◌, ◌⊎◌, Bool, true, false, ◌||◌, Option, none, some, List, [], ◌∷◌, ◌++◌, leb, ◌==◌, ok,
}
use juno_miner.Template.{BlockTemplate}
use juno_miner.Mining.{
  Event, stopped, started, Session, Tick, Next, leave, fetched, Round, Flow, next, returned,
}

-- A turn in which the miner mines on, and the user asks for nothing
pub record IsPlain (tick : Tick) : Type 0 where
  pub runs : tick.running ≡ true
  pub unsolved : tick.solved ≡ false
  pub no_threads : ((tick.key == b't') || (tick.key == b'T')) ≡ false
  pub no_refresh : (tick.key == b' ') ≡ false

abbrev is_due : ℕ → Tick → Bool
is_due interval tick = tick.notified || leb interval tick.block_check_elapsed

-- A turn in which the height of the network is asked for, and the call fails
pub record IsFailedCheck (interval : ℕ) (tick : Tick) : Type 0 where
  pub plain : IsPlain tick
  pub due : (tick.notified || leb interval tick.block_check_elapsed) ≡ true
  pub fails : tick.network_height ≡ ok none

-- A turn in which it is not time to ask
pub record IsIdle (interval : ℕ) (tick : Tick) : Type 0 where
  pub plain : IsPlain tick
  pub early : (tick.notified || leb interval tick.block_check_elapsed) ≡ false

-- Whether `stop`, which joins the threads, was called after their last start; the newest event is the first.
abbrev pub is_joined : List Event → Bool
is_joined [] = true
is_joined (stopped ∷ events) = true
is_joined (started height template_seed miner_seed has_vms ∷ events) = false
is_joined (_ ∷ events) = is_joined events

-- The miner does not mine and its threads are joined.
abbrev pub Halted : Session → Type 0
Halted s = (s.mining ≡ false) × (is_joined s.events ≡ true)

-- A turn that sees a new block has stopped the miner.
abbrev Left : Session × Next → Type 0
Left (s, leave true) = Halted s
Left _ = Unit {0}

-- The inner loop has been left, after a stop if it was for a new block.
abbrev Watched : Session × Option Bool → Type 0
Watched (s, none) = ⊥
Watched (s, some true) = Halted s
Watched (s, some false) = Unit {0}

-- A round of the loop in which a turn finds the program interrupted
pub record IsInterrupted (round : Round) (template : BlockTemplate) : Type 0 where
  pub before : List Tick
  pub tick : Tick
  pub after : List Tick
  pub runs : round.running ≡ true
  pub fetches : round.template ≡ ok (fetched template)
  pub turns : round.ticks ≡ before ++ (tick ∷ after)
  pub breaks : tick.running ≡ false
  pub interrupted : round.interrupted ≡ true

-- The round is over with the miner halted, or the change of the seed has failed.
abbrev Over : Session × Flow → Type 0
Over (t, flow) = (flow ≡ returned 1) ⊎ (Halted t × ((flow ≡ next) ⊎ (flow ≡ returned 0)))

-- `main` returns: with 1 where the change of the seed has failed, or else with 0, the miner stopped and its threads
-- joined.
abbrev pub Ended : Session × Flow → Type 0
Ended (t, flow) = (flow ≡ returned 1) ⊎ (Halted t × (flow ≡ returned 0))
