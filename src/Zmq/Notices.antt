-- ===== src/Zmq/Notices.antt =====
-- src/main.cpp: what the main loop learns of the messages, with its exchanges between the rounds of the thread.
use juno_miner.Base.{
  ◌≡◌, refl, ap, ◌∙◌, Bool, true, false, ◌&&◌, ◌||◌, List, [], ◌∷◌, arith, All, Outcome, ◌>>=◌, ok,
}
use juno_miner.Zmq.{
  Reception, timed_out, message, Receiver, note, recv, filled, receive, Round, receive_body,
  receive_topic, exchange,
}
use juno_miner.Zmq.Protocol.{Fits, AllFit}

-- A round of the thread, or an exchange of the main loop
pub data Action : Type 0 where
  heard : Round → Action
  exchanged : Action

-- The answers of the exchanges
abbrev pub Answered : Type 0
Answered = Receiver × List Bool

abbrev pub with_answer : Bool → Answered → Answered
with_answer answer (r, answers) = (r, answer ∷ answers)

unfoldable pub run : List Action → Receiver → Outcome Answered
run [] r = ok (r, [])
run (heard round ∷ actions) r = receive_topic round r >>= run actions
run (exchanged ∷ actions) r = do
  rest ← run actions (exchange r).0
  ok (with_answer (exchange r).1 rest)

-- Both parts of the message have arrived.
abbrev pub is_received : Reception → Bool
is_received timed_out = false
is_received (message bytes) = true

abbrev pub is_complete : Round → Bool
is_complete round = is_received round.topic && is_received round.body

-- The answers that the messages call for: whether one has arrived since the last exchange
unfoldable pub answers_to : Bool → List Action → List Bool
answers_to pending [] = []
answers_to pending (heard round ∷ actions) = answers_to (pending || is_complete round) actions
answers_to pending (exchanged ∷ actions) = pending ∷ answers_to false actions

abbrev pub ActionFits : Action → Type 0
ActionFits (heard round) = AllFit round
ActionFits exchanged = Unit

abbrev Tells : Round → Receiver → Type 0
Tells round r =
    (r' : Receiver) × (receive_topic round r ≡ ok r')
    × (r'.zmq_block_notification ≡ (r.zmq_block_notification || is_complete round))

receive_topic-Tells : (round : Round) (r : Receiver) → AllFit round → Tells round r
unfolding receive_topic receive_body receive
receive_topic-Tells round r fits = by_parts round.topic round.body fits
  where
    by_parts :
        (topic body : Reception)
        → Fits topic × Fits body
        → Tells (record { running = round.running; topic = topic; body = body }) r
    by_parts timed_out body fits = (note recv r, refl, ground arith)
    by_parts (message t) timed_out (fits, _) =
        (note recv (record (note recv r) { topic = filled r.topic t }), ground arith, ground arith)
    by_parts (message t) (message b) (fits_topic, fits_body) = (
      record (note recv (record (note recv r) { topic = filled r.topic t })) {
        body = filled r.body b;
        zmq_block_notification = true;
      },
      ground arith,
      ground arith,
    )

-- If each message is shorter than its buffer, then in any order of the thread's rounds and the main loop's
-- exchanges, an exchange answers whether a whole message has arrived since the last exchange, or since the
-- flag was set before the first one: no notice is lost, and none is told twice.
pub run-answers :
    (actions : List Action) (r : Receiver)
    → All ActionFits actions
    → (r' : Receiver) × (run actions r ≡ ok (r', answers_to r.zmq_block_notification actions))
unfolding run answers_to
run-answers [] r fits = (r, refl)
run-answers (heard round ∷ actions) r (fit, fits) =
    let (r', told, flag) = receive_topic-Tells round r fit in
    let (r'', e) = run-answers actions r' fits in
    (r'', rw (told) (e ∙ ap (λ (b : Bool). ok (r'', answers_to b actions)) flag))
run-answers (exchanged ∷ actions) r (_, fits) =
    let (r', e) = run-answers actions (exchange r).0 fits in (r', rw e refl)
