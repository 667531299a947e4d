-- ===== src/Zmq.antt =====
-- src/main.cpp: `zmq_subscriber_thread`, which tells the main loop of new blocks. What the ZeroMQ library
-- answers is an argument; the calls of it are kept, the newest first.
pub mod Protocol
pub mod Buffers
pub mod Notices
mod Tests
use juno_miner.Base.{
  ℕ, ◌-◌, Bool, true, false, not, Option, none, some, List, [], ◌∷◌, ltb, if◌then◌else◌, length,
  set, take, Bytes, Outcome, ◌>>=◌, ◌>>◌, ok, undefined,
}
use juno_miner.Miner.Nonce.{copy_at}

-- `zmq_recv`: a time-out or an error, or a message, which may be longer than the buffer
pub data Reception : Type 0 where
  timed_out : Reception
  message : Bytes → Reception

-- The calls of the library; the first two with whether they gave an object
pub data Call : Type 0 where
  ctx_new socket : Bool → Call
  set_options connect recv close ctx_destroy : Call

-- The buffers are `char topic[64]` and `char body[64]`.
pub record Receiver : Type 0 where
  pub topic : Bytes
  pub body : Bytes
  pub zmq_block_notification : Bool
  pub calls : List Call

abbrev pub size : ℕ
size = 64

abbrev pub note : Call → Receiver → Receiver
note call r = record r { calls = call ∷ r.calls }

-- `array[i] = b` on a `char array[64]`; a write outside the array is undefined.
unfoldable pub write_byte : Bytes → ℕ → ℕ → Outcome Bytes
write_byte array i b = if ltb i size then ok (set array i b) else undefined

-- The buffer with the bytes that `zmq_recv` copies, at most 63
abbrev pub copied : Bytes → Bytes → Bytes
copied buffer bytes = copy_at buffer 0 (take (size - 1) bytes)

-- The buffer with a message and the terminator
abbrev pub filled : Bytes → Bytes → Bytes
filled buffer bytes = set (copied buffer bytes) (length bytes) 0

-- `int len = zmq_recv(subscriber, buffer, sizeof(buffer) - 1, 0)` and `buffer[len] = '\0'`: the length that comes
-- back is that of the message, also where it was cut.
unfoldable pub receive : Reception → Bytes → Outcome (Option Bytes)
unfolding write_byte
receive timed_out buffer = ok none
receive (message bytes) buffer = do
  let len = length bytes
  terminated ← write_byte (copied buffer bytes) len 0
  ok (some terminated)

-- What a round of the loop meets
pub record Round : Type 0 where
  pub running : Bool
  pub topic : Reception
  pub body : Reception

-- The part of a round behind the topic
unfoldable pub receive_body : Reception → Receiver → Outcome Receiver
unfolding receive
receive_body reception r = do
  body ← receive reception r.body
  ok (elim body [
    | none ↦ note recv r
    | some bytes ↦ record (note recv r) { body = bytes; zmq_block_notification = true }
  ])

unfoldable pub receive_topic : Round → Receiver → Outcome Receiver
unfolding receive receive_body
receive_topic round r = do
  topic ← receive round.topic r.topic
  elim topic [
    | none ↦ ok (note recv r)
    | some bytes ↦ receive_body round.body (record (note recv r) { topic = bytes })
  ]

-- Whether the thread has returned
abbrev pub Left : Type 0
Left = Receiver × Bool

-- `while (running.load())` and what follows; the list is what the rounds meet.
unfoldable pub receive_loop : List Round → Receiver → Outcome Left
unfolding receive_topic
receive_loop [] r = ok (r, false)
receive_loop (round ∷ rounds) r =
    if round.running
    then (receive_topic round r >>= receive_loop rounds)
    else ok (note ctx_destroy (note close r), true)

-- Which of the calls before the loop succeed
pub record Setup : Type 0 where
  pub has_context : Bool
  pub has_socket : Bool
  pub connects : Bool

unfoldable pub zmq_subscriber_thread : Setup → List Round → Receiver → Outcome Left
unfolding receive_loop
zmq_subscriber_thread setup rounds r =
    let opened = note (socket setup.has_socket) (note (ctx_new setup.has_context) r) in
    let connected = note connect (note set_options opened) in
    if not setup.has_context
    then ok (note (ctx_new setup.has_context) r, true)
    else if not setup.has_socket
    then ok (note ctx_destroy opened, true)
    else if not setup.connects
    then ok (note ctx_destroy (note close connected), true)
    else receive_loop rounds connected

-- `zmq_block_notification.exchange(false)` of the main loop
abbrev pub exchange : Receiver → Receiver × Bool
exchange r = (record r { zmq_block_notification = false }, r.zmq_block_notification)
