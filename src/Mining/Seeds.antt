-- ===== src/Mining/Seeds.antt =====
-- src/main.cpp: the mining loop hashes with VMs of the template's seed, and counts the blocks that are accepted.
use juno_miner.Base.{
  ℕ, suc, ◌+◌, ◌-◌, ◌%◌, ◌^◌, ◌≡◌, refl, sym, ◌∙◌, ◌⊎◌, inl, inr, Bool, true, false, ◌&&◌, ◌||◌,
  not, Option, none, some, List, [], ◌∷◌, arith, ltb, leb, ◌==◌, if◌then◌else◌, Bool-cases,
  Option-cases, false-≢-true, Bytes, bytes_eq, bytes_eq→eq, Outcome, Ensures, Ensures-bind,
  Ensures-eq-ok, Ensures-if, returns, ok,
}
use juno_miner.Utils.Hex.{bytes_to_hex_reversed}
use juno_miner.Utils.Block.{serialize_block}
use juno_miner.Miner.Seed.{seed_height}
use juno_miner.Template.{BlockTemplate}
use juno_miner.Mining.{
  said, Message, Event, started, submitted, Session, say, stop, Tick, Next, again, leave,
  adjust_threads, check_block, watch_network, turn, go_on, watch, Solution, Fetch, unreachable,
  fetched, Round, Flow, next, returned, waiting, report, submit, finish, after_watch, mine,
  change_epoch, mine_template, mine_fetched, main_round, continue, main_loop,
}

-- A change of the number of threads or of the seed has failed, and has been told.
abbrev pub is_failure : Message → Bool
is_failure Message.thread_count_failed = true
is_failure Message.update_failed = true
is_failure _ = false

abbrev pub failed_before : List Event → Bool
failed_before [] = false
failed_before (said message ∷ events) = is_failure message || failed_before events
failed_before (_ ∷ events) = failed_before events

-- Each start of the threads is on the template's seed, and with all VMs unless a change had failed before.
abbrev pub StartsAgree : List Event → Type 0
StartsAgree [] = Unit {0}
StartsAgree (started height template_seed miner_seed has_vms ∷ events) =
    (template_seed ≡ miner_seed)
    × ((has_vms ≡ true) ⊎ (failed_before events ≡ true))
    × StartsAgree events
StartsAgree (_ ∷ events) = StartsAgree events

-- The blocks that the node took
abbrev pub accepted_blocks : List Event → ℕ
accepted_blocks [] = 0
accepted_blocks (submitted block true ∷ events) = suc (accepted_blocks events)
accepted_blocks (_ ∷ events) = accepted_blocks events

pub record IsConsistent (s : Session) : Type 0 where
  pub seeds : StartsAgree s.events
  pub current : s.miner_seed ≡ s.current_seed_hash
  pub ready : (s.has_vms ≡ true) ⊎ (failed_before s.events ≡ true)
  pub counted : s.blocks_mined ≡ accepted_blocks s.events % 2 ^ 64

-- What held of the VMs holds after more events, and after VMs have been made.
or_later : {A : Type 0} (a : Bool) {b : Bool} → A ⊎ (b ≡ true) → A ⊎ (a || b ≡ true)
or_later a ready = ground (arith, ready)

or_made : {B : Type 0} {a : Bool} (b : Bool) → (a ≡ true) ⊎ B → (a || b ≡ true) ⊎ B
or_made b ready = ground (arith, ready)

say-IsConsistent : (message : Message) (s : Session) → IsConsistent s → IsConsistent (say message s)
say-IsConsistent message s v = record {
  seeds = v.seeds;
  current = v.current;
  ready = or_later (is_failure message) v.ready;
  counted = v.counted;
}

stop-IsConsistent : (s : Session) → IsConsistent s → IsConsistent (stop s)
stop-IsConsistent s v = record {
  seeds = v.seeds;
  current = v.current;
  ready = v.ready;
  counted = v.counted;
}

adjust_threads-IsConsistent :
    (tick : Tick) (s : Session) → IsConsistent s → IsConsistent (adjust_threads tick s)
unfolding adjust_threads
adjust_threads-IsConsistent tick s v = elim (Option-cases tick.typed) [
  | inl e ↦ rw e v
  | inr (n, e) ↦ rw e (by_result n tick.changed)
]
  where
    by_result :
        (n : ℕ) (changed : Bool)
        → IsConsistent (
            if changed
            then say
                (Message.thread_count n)
                (record s { num_threads = n; has_vms = s.has_vms || tick.made_vms })
            else say Message.thread_count_failed (record s { has_vms = false }))
    by_result n true = record {
      seeds = v.seeds;
      current = v.current;
      ready = or_made tick.made_vms v.ready;
      counted = v.counted;
    }
    by_result n false = record {
      seeds = v.seeds;
      current = v.current;
      ready = inr refl;
      counted = v.counted;
    }

-- What a function leaves beside its session does not matter.
abbrev First : {A : Type 0} → Session × A → Type 0
First (s, a) = IsConsistent s

check_block-First :
    (tick : Tick) (s : Session) (failures : ℕ) (height : Option ℕ)
    → IsConsistent s
    → First (check_block tick s failures height)
unfolding check_block
check_block-First tick s failures none v = elim (Bool-cases (leb 2 (failures + 1))) [
  | inl lost ↦ rw lost (stop-IsConsistent _ (say-IsConsistent Message.connection_lost s v))
  | inr going ↦ rw going v
]
check_block-First tick s failures (some height) v =
    elim (Bool-cases (ltb s.current_block_height height)) [
      | inl higher ↦ rw higher (
          stop-IsConsistent _
            (say-IsConsistent (Message.new_block s.current_block_height height tick.notified) s v))
      | inr same ↦ rw same v
    ]

watch_network-First :
    (interval : ℕ) (tick : Tick) (s : Session) (failures : ℕ)
    → IsConsistent s
    → Ensures First (watch_network interval tick s failures)
unfolding watch_network
watch_network-First interval tick s failures v =
    Ensures-if (tick.notified || leb interval tick.block_check_elapsed)
      (λ _.
        Ensures-bind tick.network_height _
          λ (height : Option ℕ) _. returns (check_block-First tick s failures height v))
      (λ _. returns v)

turn-First :
    (interval : ℕ) (tick : Tick) (s : Session) (failures : ℕ)
    → IsConsistent s
    → Ensures First (turn interval tick s failures)
unfolding turn
turn-First interval tick s failures v =
    Ensures-if ((s.mining && not tick.solved) && tick.running)
      (λ _.
        Ensures-if ((tick.key == b't') || (tick.key == b'T'))
          (λ _. returns (adjust_threads-IsConsistent tick (stop s) (stop-IsConsistent s v)))
          (λ _.
            Ensures-if (tick.key == b' ')
              (λ _.
                watch_network-First interval tick (say Message.refreshed s) failures
                  (say-IsConsistent Message.refreshed s v))
              (λ _. watch_network-First interval tick s failures v)))
      (λ _.
        returns
          (record { seeds = v.seeds; current = v.current; ready = v.ready; counted = v.counted }))

go_on-First :
    (more : Session → ℕ → Outcome (Session × Option Bool)) (after : Session × Next)
    → ((s : Session) (failures : ℕ) → IsConsistent s → Ensures First (more s failures))
    → First after
    → Ensures First (go_on more after)
go_on-First more (s, again failures) ih v = ih s failures v
go_on-First more (s, leave block_changed) ih v = returns v

watch-First :
    (interval : ℕ) (ticks : List Tick) (s : Session) (failures : ℕ)
    → IsConsistent s
    → Ensures First (watch interval ticks s failures)
unfolding watch
watch-First interval [] s failures v = returns v
watch-First interval (tick ∷ ticks) s failures v =
    Ensures-bind (turn interval tick s failures) _ λ after e.
      go_on-First (watch interval ticks) after (λ t n w. watch-First interval ticks t n w)
        (Ensures-eq-ok (turn-First interval tick s failures v) e)

submit-IsConsistent :
    (solution : Solution) (s : Session) → IsConsistent s → Ensures IsConsistent (submit solution s)
unfolding submit report
submit-IsConsistent solution s v =
    Ensures-bind
      (serialize_block solution.header solution.hash solution.coinbase_txn_hex solution.txn_hex) _
      λ (block_hex : Bytes) _.
        Ensures-bind (bytes_to_hex_reversed solution.hash 32) _ λ (block_hash_hex : Bytes) _.
          elim (Bool-cases solution.is_accepted) [
            | inl took ↦ returns (
                rw took (record {
                  seeds = v.seeds;
                  current = v.current;
                  ready = v.ready;
                  counted = omega (arith, v.counted);
                }))
            | inr refused ↦ returns (
                rw refused (record {
                  seeds = v.seeds;
                  current = v.current;
                  ready = v.ready;
                  counted = v.counted;
                }))
          ]

stop_if-IsConsistent :
    (b : Bool) (s : Session) → IsConsistent s → IsConsistent (if b then stop s else s)
stop_if-IsConsistent true s v = stop-IsConsistent s v
stop_if-IsConsistent false s v = v

finish-First :
    (round : Round) (block_changed : Bool) (s : Session)
    → IsConsistent s
    → Ensures First (finish round block_changed s)
unfolding finish
finish-First round true s v = returns (stop_if-IsConsistent round.interrupted s v)
finish-First round false s v = elim (Option-cases round.solution) [
  | inl e ↦ rw e (returns (stop_if-IsConsistent (s.mining || round.interrupted) s v))
  | inr (solution, e) ↦ rw e (
      Ensures-bind (submit solution (if s.mining || round.interrupted then stop s else s)) _
        λ (t : Session) sent. returns (
          Ensures-eq-ok
            (submit-IsConsistent solution _
              (stop_if-IsConsistent (s.mining || round.interrupted) s v))
            sent))
]

mine-First :
    (interval : ℕ) (round : Round) (template : BlockTemplate) (s : Session)
    → IsConsistent s
    → template.seed_hash ≡ s.miner_seed
    → Ensures First (mine interval round template s)
unfolding mine
mine-First interval round template s v e =
    Ensures-bind (watch interval round.ticks (starting s) 0) _ λ after watched. finished after (
      Ensures-eq-ok
        (watch-First interval round.ticks (starting s) 0 (record {
          seeds = (e, v.ready, v.seeds);
          current = v.current;
          ready = v.ready;
          counted = v.counted;
        }))
        watched)
  where
    starting : Session → Session
    starting t = record t {
      mining = true;
      events = started template.height template.seed_hash t.miner_seed t.has_vms ∷ t.events;
    }

    finished :
        (after : Session × Option Bool) → First after → Ensures First (after_watch round after)
    finished (t, none) w = returns w
    finished (t, some block_changed) w = finish-First round block_changed t w

-- The change of the epoch leaves the miner's VMs on the template's seed where it succeeds.
change_epoch-First :
    (round : Round) (template : BlockTemplate) (s : Session)
    → IsConsistent s
    → First (change_epoch round template s)
      × ((change_epoch round template s).1 ≡ true
          → template.seed_hash ≡ (change_epoch round template s).0.miner_seed)
unfolding change_epoch
change_epoch-First round template s v = by_result round.updated
  where
    told : Session
    told = say Message.updating_cache (
        say
          (Message.epoch_transition (seed_height ((s.current_block_height + (2 ^ 64 - 1)) % 2 ^ 64))
            (seed_height s.current_block_height))
          s)

    result : Bool → Session × Bool
    result updated =
        if updated
        then (
          say Message.transition_complete (record told {
            mining = false;
            miner_seed = template.seed_hash;
            has_vms = s.has_vms || round.made_vms;
            current_seed_hash = template.seed_hash;
          }),
          true,
        )
        else (say Message.update_failed (record told { mining = false; has_vms = false }), false)

    by_result :
        (updated : Bool)
        → First (result updated)
          × ((result updated).1 ≡ true → template.seed_hash ≡ (result updated).0.miner_seed)
    by_result true = (
      record {
        seeds = v.seeds;
        current = refl;
        ready = or_made round.made_vms v.ready;
        counted = v.counted;
      },
      λ e. refl,
    )
    by_result false = (
      record { seeds = v.seeds; current = v.current; ready = inr refl; counted = v.counted },
      λ e. absurd (false-≢-true e),
    )

mine_template-First :
    (interval : ℕ) (round : Round) (template : BlockTemplate) (s : Session)
    → IsConsistent s
    → Ensures First (mine_template interval round template s)
unfolding mine_template
mine_template-First interval round template s v =
    let w = connected-IsConsistent s.was_disconnected in
    Ensures-if (bytes_eq template.seed_hash (arrived s.was_disconnected).current_seed_hash)
      (λ same.
        mine-First interval round template (arrived s.was_disconnected) w
          (bytes_eq→eq _ _ same ∙ sym w.current))
      (λ other.
        let (t, agree) = change_epoch-First round template (arrived s.was_disconnected) w in
        Ensures-if ((change_epoch round template (arrived s.was_disconnected)).1)
          (λ success.
            mine-First interval round template
              ((change_epoch round template (arrived s.was_disconnected)).0) t (agree success))
          (λ failure. returns t))
  where
    arrived : Bool → Session
    arrived b =
        record (if b then record (say Message.reconnected s) { was_disconnected = false } else s) {
          current_block_height = template.height;
        }

    connected-IsConsistent : (b : Bool) → IsConsistent (arrived b)
    connected-IsConsistent true = record {
      seeds = v.seeds;
      current = v.current;
      ready = v.ready;
      counted = v.counted;
    }
    connected-IsConsistent false = record {
      seeds = v.seeds;
      current = v.current;
      ready = v.ready;
      counted = v.counted;
    }

main_round-First :
    (interval : ℕ) (round : Round) (s : Session)
    → IsConsistent s
    → Ensures First (main_round interval round s)
unfolding main_round
main_round-First interval round s v =
    Ensures-if round.running
      (λ _. Ensures-bind round.template _ λ (fetch : Fetch) _. on_fetch fetch) (λ _. returns v)
  where
    on_fetch : (fetch : Fetch) → Ensures First (mine_fetched interval round s fetch)
    on_fetch (unreachable message) =
        returns
          (record { seeds = v.seeds; current = v.current; ready = v.ready; counted = v.counted })
    on_fetch (fetched template) = mine_template-First interval round template s v

main_loop-First :
    (interval : ℕ) (rounds : List Round) (s : Session)
    → IsConsistent s
    → Ensures First (main_loop interval rounds s)
unfolding main_loop
main_loop-First interval [] s v = returns v
main_loop-First interval (round ∷ rounds) s v =
    Ensures-bind (main_round interval round s) _ λ after e.
      on (main_loop interval rounds) (λ t w. main_loop-First interval rounds t w) after
        (Ensures-eq-ok (main_round-First interval round s v) e)
  where
    on :
        (more : Session → Outcome (Session × Flow))
        → ((t : Session) → IsConsistent t → Ensures First (more t))
        → (after : Session × Flow) → First after
        → Ensures First (continue more after)
    on more ih (t, next) w = ih t w
    on more ih (t, returned code) w = returns w
    on more ih (t, waiting) w = returns w

-- Whatever the node, the user, the clock and the workers do in any number of rounds: if the loop starts with a VM
-- for every thread on its seed, then each time the threads are started, the miner's seed is the template's, and
-- every thread has a VM unless the loop had told of a failed change of the threads or the seed before; and the
-- number of mined blocks is the number of submitted blocks that the node took, modulo 2 ^ 64.
pub main_loop-IsConsistent :
    (interval : ℕ) (rounds : List Round) (s t : Session) (flow : Flow)
    → IsConsistent s
    → main_loop interval rounds s ≡ ok (t, flow)
    → IsConsistent t
main_loop-IsConsistent interval rounds s t flow v e =
    Ensures-eq-ok (main_loop-First interval rounds s v) e
