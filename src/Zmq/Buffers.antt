-- ===== src/Zmq/Buffers.antt =====
-- src/main.cpp: when the ZeroMQ thread writes behind its buffers.
use juno_miner.Base.{
  ℕ, ◌≤◌, ◌<◌, ◌≡◌, refl, ◌⊎◌, inl, inr, true, some, List, [], ◌∷◌, ◌++◌, arith, ltb-eq-false,
  length, set, All, Bytes, ◌>>=◌, ok, undefined,
}
use juno_miner.Zmq.{
  timed_out, copied, filled, write_byte, receive_body, message, Receiver, size, note, receive,
  Round, receive_topic, receive_loop, zmq_subscriber_thread, socket, ctx_new, set_options, connect,
  Reception, write_byte, receive_body, copied, filled,
}
use juno_miner.Zmq.Protocol.{phase_of, with_socket, AllFit, receive_topic-Stays}

-- A message as long as the buffer, or longer
abbrev pub IsLong : Reception → Type 0
IsLong timed_out = ⊥
IsLong (message bytes) = size ≤ length bytes

abbrev pub IsShort : Reception → Type 0
IsShort timed_out = ⊥
IsShort (message bytes) = length bytes < size

-- A round that receives a long topic, or a long body behind a short topic
pub record Overflows (round : Round) : Type 0 where
  pub runs : round.running ≡ true
  pub long : IsLong round.topic ⊎ (IsShort round.topic × IsLong round.body)

write_byte-outside : (array : Bytes) (i b : ℕ) → size ≤ i → write_byte array i b ≡ undefined
unfolding write_byte
write_byte-outside array i b h = rw (ltb-eq-false h) refl

write_byte-inside : (array : Bytes) (i b : ℕ) → i < size → write_byte array i b ≡ ok (set array i b)
unfolding write_byte
write_byte-inside array i b h = ground (arith, h)

receive-undefined :
    (reception : Reception) (buffer : Bytes)
    → IsLong reception
    → receive reception buffer ≡ undefined
unfolding receive
receive-undefined timed_out buffer long = absurd long
receive-undefined (message bytes) buffer long =
    rw (write_byte-outside (copied buffer bytes) (length bytes) 0 long) refl

receive-short :
    (reception : Reception) (buffer : Bytes)
    → IsShort reception
    → (bytes : Bytes) × (receive reception buffer ≡ ok (some bytes))
unfolding receive
receive-short timed_out buffer short = absurd short
receive-short (message bytes) buffer short =
    (filled buffer bytes, rw (write_byte-inside (copied buffer bytes) (length bytes) 0 short) refl)

receive_topic-undefined :
    (round : Round) (r : Receiver) → Overflows round → receive_topic round r ≡ undefined
unfolding receive_topic receive_body
receive_topic-undefined round r c = elim (c.long) [
  | inl long ↦ rw (receive-undefined round.topic r.topic long) refl
  | inr (short, long) ↦
      let (bytes, received) = receive-short round.topic r.topic short in
      rw (received, receive-undefined round.body r.body long) refl
]

receive_loop-undefined :
    (before after : List Round) (round : Round) (r : Receiver)
    → All (λ (other : Round). AllFit other × (other.running ≡ true)) before
    → Overflows round
    → phase_of r.calls ≡ some with_socket
    → receive_loop (before ++ (round ∷ after)) r ≡ undefined
unfolding receive_loop
receive_loop-undefined [] after round r fits c e =
    rw (c.runs, receive_topic-undefined round r c) refl
receive_loop-undefined (other ∷ before) after round r ((fit, runs), fits) c e =
    let (r', received, e') = receive_topic-Stays other r fit e in
    rw (runs) (lead other received (receive_loop-undefined before after round r' fits c e'))
  where
    lead :
        (o : Round) {r' : Receiver}
        → receive_topic o r ≡ ok r'
        → receive_loop (before ++ (round ∷ after)) r' ≡ undefined
        → (receive_topic o r >>= receive_loop (before ++ (round ∷ after))) ≡ undefined
    lead o f g = rw f g

-- If the thread has connected, then a topic of 64 bytes or more, or such a body behind a topic that fits, makes it
-- write the terminator outside the buffer, whatever messages that fit came before.
pub zmq_subscriber_thread-undefined :
    (before after : List Round) (round : Round) (r : Receiver)
    → r.calls ≡ []
    → All (λ (other : Round). AllFit other × (other.running ≡ true)) before
    → Overflows round
    → zmq_subscriber_thread
        (record { has_context = true; has_socket = true; connects = true })
        (before ++ (round ∷ after))
        r
      ≡ undefined
unfolding zmq_subscriber_thread
zmq_subscriber_thread-undefined before after round r e fits c =
    receive_loop-undefined before after round
      (note connect (note set_options (note (socket true) (note (ctx_new true) r)))) fits c
      (rw e refl)
