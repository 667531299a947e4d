-- ===== src/Zmq/Protocol.antt =====
-- src/main.cpp: the order in which the ZeroMQ thread calls the library, and how it ends.
use juno_miner.Base.{
  ◌<◌, ◌≡◌, refl, Bool, true, false, Option, none, some, List, [], ◌∷◌, arith, if◌then◌else◌,
  length, All, Bytes, Outcome, ok,
}
use juno_miner.Zmq.{
  Call, ctx_new, socket, set_options, connect, recv, close, ctx_destroy, Reception, timed_out,
  message, Receiver, size, note, receive, Round, receive_body, receive_topic, Left, receive_loop,
  Setup, zmq_subscriber_thread, filled,
}

-- What the library holds for the thread
pub data Phase : Type 0 where
  idle with_context with_socket : Phase

-- What a call does to it; `none` is a call with an object that is not there, or a second object.
abbrev pub allowed : Call → Phase → Option Phase
allowed (ctx_new has_context) idle = some (if has_context then with_context else idle)
allowed (socket has_socket) with_context = some (if has_socket then with_socket else with_context)
allowed set_options with_socket = some with_socket
allowed connect with_socket = some with_socket
allowed recv with_socket = some with_socket
allowed close with_socket = some with_context
allowed ctx_destroy with_context = some idle
allowed _ _ = none

abbrev pub then_allowed : Call → Option Phase → Option Phase
then_allowed call none = none
then_allowed call (some phase) = allowed call phase

-- What the library holds after the calls
abbrev pub phase_of : List Call → Option Phase
phase_of [] = some idle
phase_of (call ∷ calls) = then_allowed call (phase_of calls)

-- The message and its terminator fit into the buffer.
abbrev pub Fits : Reception → Type 0
Fits timed_out = Unit
Fits (message bytes) = length bytes < size

abbrev pub AllFit : Round → Type 0
AllFit round = Fits round.topic × Fits round.body

receive-ok :
    (reception : Reception) (buffer : Bytes)
    → Fits reception
    → (got : Option Bytes) × (receive reception buffer ≡ ok got)
unfolding receive
receive-ok timed_out buffer fits = (none, refl)
receive-ok (message bytes) buffer fits = (some (filled buffer bytes), ground arith)

-- A step that ends normally, with a socket where there was one
abbrev pub Stays : Outcome Receiver → Type 0
Stays outcome = (r : Receiver) × (outcome ≡ ok r) × (phase_of r.calls ≡ some with_socket)

receive_body-Stays :
    (reception : Reception) (r : Receiver)
    → Fits reception
    → phase_of r.calls ≡ some with_socket
    → Stays (receive_body reception r)
unfolding receive_body
receive_body-Stays reception r fits e =
    let (got, received) = receive-ok reception r.body fits in rw received (stays got)
  where
    stays :
        (got : Option Bytes)
        → Stays (
            ok (elim got [
              | none ↦ note recv r
              | some bytes ↦ record (note recv r) { body = bytes; zmq_block_notification = true }
            ]))
    stays none = (note recv r, refl, rw e refl)
    stays (some bytes) =
        (record (note recv r) { body = bytes; zmq_block_notification = true }, refl, rw e refl)

pub receive_topic-Stays :
    (round : Round) (r : Receiver)
    → AllFit round
    → phase_of r.calls ≡ some with_socket
    → Stays (receive_topic round r)
unfolding receive_topic
receive_topic-Stays round r (fits_topic, fits_body) e =
    let (got, received) = receive-ok round.topic r.topic fits_topic in rw received (stays got)
  where
    stays :
        (got : Option Bytes)
        → Stays (elim got [
          | none ↦ ok (note recv r)
          | some bytes ↦ receive_body round.body (record (note recv r) { topic = bytes })
        ])
    stays none = (note recv r, refl, rw e refl)
    stays (some bytes) =
        receive_body-Stays round.body (record (note recv r) { topic = bytes }) fits_body (rw e refl)

-- The thread does not fault. If it has returned, the library holds nothing for it; if it has not, each round
-- found the program running, and the library holds the socket.
abbrev pub Closes : List Round → Outcome Left → Type 0
Closes rounds outcome =
    (r : Receiver) × (left : Bool) × (outcome ≡ ok (r, left))
    × (phase_of r.calls ≡ some (if left then idle else with_socket))
    × (left ≡ false → All (λ (round : Round). round.running ≡ true) rounds)

Closes-if :
    (rounds : List Round) (b : Bool) {x y : Outcome Left}
    → (b ≡ true → Closes rounds x)
    → (b ≡ false → Closes rounds y)
    → Closes rounds (if b then x else y)
Closes-if rounds true first second = first refl
Closes-if rounds false first second = second refl

receive_loop-Closes :
    (rounds : List Round) (r : Receiver)
    → All AllFit rounds
    → phase_of r.calls ≡ some with_socket
    → Closes rounds (receive_loop rounds r)
unfolding receive_loop
receive_loop-Closes [] r fits e = (r, false, refl, e, λ _. tt)
receive_loop-Closes (round ∷ rounds) r (fit, fits) e =
    Closes-if (round ∷ rounds) round.running
      (λ runs.
        let (r', received, e') = receive_topic-Stays round r fit e in
        let (r'', left, ended, phase, all) = receive_loop-Closes rounds r' fits e' in
        rw received (r'', left, ended, phase, λ stays. (runs, all stays)))
      (λ over. (note ctx_destroy (note close r), true, refl, rw e refl, λ stays. cc))

-- Whichever calls fail, if each message is shorter than its buffer, then the thread does not fault, and it calls
-- the library in order: nothing is used before it is made or after it is closed. When it has returned, socket
-- and context are closed, each once, and it returns as soon as a round finds that the program is not running.
pub zmq_subscriber_thread-Closes :
    (setup : Setup) (rounds : List Round) (r : Receiver)
    → All AllFit rounds
    → r.calls ≡ []
    → Closes rounds (zmq_subscriber_thread setup rounds r)
unfolding zmq_subscriber_thread
zmq_subscriber_thread-Closes setup rounds r fits e =
    by_setup setup.has_context setup.has_socket setup.connects
  where
    by_setup :
        (has_context has_socket connects : Bool)
        → Closes rounds (
            zmq_subscriber_thread
              (record { has_context = has_context; has_socket = has_socket; connects = connects })
              rounds
              r)
    by_setup false has_socket connects =
        (note (ctx_new false) r, true, refl, rw e refl, λ stays. cc)
    by_setup true false connects = (
      note ctx_destroy (note (socket false) (note (ctx_new true) r)),
      true,
      refl,
      rw e refl,
      λ stays. cc,
    )
    by_setup true true false = (
      note ctx_destroy (
          note close
            (note connect (note set_options (note (socket true) (note (ctx_new true) r))))),
      true,
      refl,
      rw e refl,
      λ stays. cc,
    )
    by_setup true true true =
        receive_loop-Closes rounds
          (note connect (note set_options (note (socket true) (note (ctx_new true) r)))) fits
          (rw e refl)
