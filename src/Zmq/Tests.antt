-- ===== src/Zmq/Tests.antt =====
-- A thread that hears of one block, and one that is sent a topic that is too long.
use juno_miner.Base.{◌≡◌, refl, inr, true, false, List, [], ◌∷◌, arith, replicate, ok, undefined}
use juno_miner.Text.{codes}
use juno_miner.Zmq.{timed_out, message, Receiver, Round, Setup, zmq_subscriber_thread}
use juno_miner.Zmq.Protocol.{Closes, zmq_subscriber_thread-Closes}
use juno_miner.Zmq.Buffers.{zmq_subscriber_thread-undefined}
use juno_miner.Zmq.Notices.{Action, heard, exchanged, run, answers_to, run-answers}

abbrev created : Receiver
created = record {
  topic = replicate 64 0;
  body = replicate 64 0;
  zmq_block_notification = false;
  calls = [];
}

abbrev hashblock : Round
hashblock = record {
  running = true;
  topic = message (codes "hashblock");
  body = message (replicate 32 7);
}

abbrev silent : Round
silent = record hashblock { topic = timed_out }

abbrev over : Round
over = record silent { running = false }

abbrev connected : Setup
connected = record { has_context = true; has_socket = true; connects = true }

zmq_subscriber_thread-Closes_example :
    Closes
      (silent ∷ hashblock ∷ over ∷ [])
      (zmq_subscriber_thread connected (silent ∷ hashblock ∷ over ∷ []) created)
zmq_subscriber_thread-Closes_example =
    zmq_subscriber_thread-Closes connected (silent ∷ hashblock ∷ over ∷ []) created
      ((tt, omega arith), ((omega arith, omega arith), ((tt, omega arith), tt))) refl

abbrev long : Round
long = record hashblock { body = message (replicate 64 1) }

zmq_subscriber_thread-undefined_example :
    zmq_subscriber_thread connected (hashblock ∷ long ∷ over ∷ []) created ≡ undefined
zmq_subscriber_thread-undefined_example =
    zmq_subscriber_thread-undefined (hashblock ∷ []) (over ∷ []) long created refl
      (((omega arith, omega arith), refl), tt)
      (record { runs = refl; long = inr (omega arith, omega arith) })

abbrev one_block : List Action
one_block =
    exchanged ∷ heard silent ∷ heard hashblock ∷ heard hashblock ∷ exchanged ∷ exchanged ∷ []

answered : answers_to false one_block ≡ false ∷ true ∷ false ∷ []
unfolding answers_to
answered = refl

run-answers_example :
    (r' : Receiver) × (run one_block created ≡ ok (r', answers_to false one_block))
run-answers_example = run-answers one_block created (
  tt,
  ((tt, omega arith), ((omega arith, omega arith), ((omega arith, omega arith), (tt, (tt, tt))))),
)
