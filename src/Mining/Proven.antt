-- ===== src/Mining/Proven.antt =====
-- From a parsed template over the workers to the block that `submit` sends: the parts of the program together.
mod Tests
use juno_miner.Base.{
  ℕ, ◌+◌, ◌^◌, ◌≤◌, ◌<◌, ◌≡◌, refl, sym, ap, ◌∙◌, subst, inl, inr, Bool, true, false, Option, some,
  ◌∷◌, arith, leb, Bool-cases, length, take, length-append, All, All-append, length-take,
  take-append, IsByte, Bytes, le_value, ok-injective, ok,
}
use mathlib.Core.List.{reverse}
use juno_miner.Json.{Json}
use juno_miner.Utils.Hex.{hex_to_bytes}
use juno_miner.Utils.Hex.RoundTrip.{hex_of, bytes_to_hex_reversed-take}
use juno_miner.Utils.Target.{hash_meets_target, compact_to_target}
use juno_miner.Utils.Target.Compare.{All-take, hash_meets_target-le}
use juno_miner.Utils.Target.Compact.{
  IsBytes32, compact_value, le_value-compact_to_target, IsBytes32-compact_to_target,
}
use juno_miner.Utils.Block.Parse.{BlockView, read_block, decode_all, read_block-serialize_block}
use juno_miner.Miner.Nonce.{hash_input}
use juno_miner.Miner.Nonce.Search.{hash_input-append}
use juno_miner.Miner.Workers.{Work, System, start_mining, Reach, get_solution, at_once}
use juno_miner.Miner.Workers.Nonces.{AreBytes32, get_solution-nonce}
use juno_miner.Miner.Workers.Safety.{IsSolution, IsSolution-without_join}
use juno_miner.Template.{BlockTemplate, parse_block_template}
use juno_miner.Template.Fields.{IsMinable, parse_block_template-IsMinable}
use juno_miner.Template.HeaderBytes.{IsMinable-header_base}
use juno_miner.Mining.{
  Message, submitting, Event, said, submitted, Session, Solution, report, submit, serialize_block,
}

-- What a worker reads of the template
abbrev pub work_of : BlockTemplate → Work
work_of bt = record { header_base = bt.header_base; target = bt.target }

-- The text of a block that a node reads as one of the template, with proof of work under the template's bits
pub record IsProven (hash : Bytes → Bytes) (bt : BlockTemplate) (text : Bytes) : Type 0 where
  pub block : Bytes
  pub view : BlockView
  pub decoded : hex_to_bytes text ≡ ok block
  pub read : read_block block ≡ some view
  pub size : length view.header ≡ 140
  pub template : take 108 view.header ≡ take 108 bt.header_base
  pub solution : view.solution ≡ hash view.header
  pub work : le_value view.solution ≤ compact_value bt.bits
  pub tx_count : view.tx_count ≡ 1 + length bt.txn_hex
  pub transactions : decode_all (bt.coinbase_txn_hex ∷ bt.txn_hex) ≡ ok view.transactions

-- What the main loop makes of the result of `get_solution`, with the node's answer
abbrev pub solution_of : BlockTemplate → Bytes × Bytes × Option Work → Bool → Bytes → Solution
solution_of bt result is_accepted answer = record {
  height = bt.height;
  header = result.0;
  hash = result.1;
  coinbase_txn_hex = bt.coinbase_txn_hex;
  txn_hex = bt.txn_hex;
  is_accepted = is_accepted;
  result = answer;
}

-- The test of the program is the test of the bits' number.
meets_compact :
    (h : Bytes) (bits : ℕ)
    → IsBytes32 h
    → hash_meets_target h (compact_to_target bits) ≡ ok true
    → le_value h ≤ compact_value bits
meets_compact h bits (v, l) meets =
    let (vt, lt) = IsBytes32-compact_to_target bits in
    let below : leb (le_value h) (le_value (compact_to_target bits)) ≡ true =
      ok-injective (sym (hash_meets_target-le h (compact_to_target bits) v vt l lt) ∙ meets) in
    ground (arith, below, le_value-compact_to_target bits)

-- A header and its hash make a block with proof of work.
header-IsProven :
    (hash : Bytes → Bytes) (bt : BlockTemplate) (header h nonce body : Bytes)
    → IsMinable bt
    → ((input : Bytes) → IsBytes32 (hash input))
    → IsBytes32 nonce
    → header ≡ hash_input bt.header_base nonce
    → h ≡ hash header
    → hash_meets_target h bt.target ≡ ok true
    → 1 + length bt.txn_hex < 2 ^ 64
    → decode_all (bt.coinbase_txn_hex ∷ bt.txn_hex) ≡ ok body
    → (text : Bytes) × (serialize_block header h bt.coinbase_txn_hex bt.txn_hex ≡ ok text)
      × IsProven hash bt text
header-IsProven hash bt header h nonce body m hashes (vn, ln) made hashed meets few decodes =
    let (vb, lb) = IsMinable-header_base bt m in
    let joined = made ∙ hash_input-append bt.header_base nonce lb ln in
    let base : Bytes = take 108 bt.header_base in
    let size108 : length base ≡ 108 = omega (arith, length-take 108 bt.header_base) in
    let size : length header ≡ 140 = ap length joined ∙ omega (arith, length-append base nonce) in
    let vh =
      subst (All IsByte) (sym joined)
        (All-append IsByte base nonce (All-take 108 bt.header_base vb) vn) in
    let (v, l) : IsBytes32 h = subst IsBytes32 (sym hashed) (hashes header) in
    let (text, block, printed, back, reads) =
      read_block-serialize_block header h bt.coinbase_txn_hex bt.txn_hex body vh v size
        (omega arith) few decodes in
    (
      text,
      printed,
      record {
        block = block;
        view = record {
          header = header;
          solution = h;
          tx_count = 1 + length bt.txn_hex;
          transactions = body;
        };
        decoded = back;
        read = reads;
        size = size;
        template = ap (take 108) joined ∙ take-append base nonce 108 (sym size108);
        solution = hashed;
        work =
            meets_compact h bt.bits (v, l)
              (subst (λ (t : Bytes). hash_meets_target h t ≡ ok true) m.target meets);
        tx_count = refl;
        transactions = decodes;
      },
    )

-- What `submit` adds to the events, besides the messages about the answer
abbrev pub Sends : Session → Bytes → Bool → Session → Type 0
Sends session text is_accepted session' =
    (answer : Message) × (its_hash : Message) × (session'.events
      ≡ said its_hash ∷ said answer ∷ submitted text is_accepted ∷ said submitting ∷ session.events)

submit-Sends :
    (solution : Solution) (session : Session) (text : Bytes)
    → length solution.hash ≡ 32
    → serialize_block solution.header solution.hash solution.coinbase_txn_hex solution.txn_hex
      ≡ ok text
    → (session' : Session) × (submit solution session ≡ ok session')
      × Sends session text solution.is_accepted session'
unfolding submit report
submit-Sends solution session text size printed =
    rw (printed, bytes_to_hex_reversed-take solution.hash 32 (omega arith))
      (elim (Bool-cases solution.is_accepted) [
        | inl good ↦ rw good (_, refl, (_, _, refl))
        | inr bad ↦ rw bad (_, refl, (_, _, refl))
      ])

-- A template that is parsed, hashes of 32 bytes, start nonces of 32 bytes and transactions whose texts decode: where
-- no `stop` has been called and `mining_` is false, `get_solution` returns a solution, and `submit` sends a block
-- that a node reads back as one of this template, whose solution is the hash of its header and is at most the
-- number that the template's bits stand for.
pub submit-IsProven :
    (hash : Bytes → Bytes) (json : Json) (template_data : json.Value) (bt : BlockTemplate) (n : ℕ)
    (nonces : ℕ → Option Bytes) (old : Option Work) (s : System) (session : Session)
    (is_accepted : Bool) (answer body : Bytes)
    → parse_block_template json template_data ≡ ok bt
    → ((input : Bytes) → IsBytes32 (hash input))
    → AreBytes32 nonces
    → 1 + length bt.txn_hex < 2 ^ 64
    → decode_all (bt.coinbase_txn_hex ∷ bt.txn_hex) ≡ ok body
    → Reach hash (work_of bt) n (start_mining hash (work_of bt) nonces old) s
    → s.stopped ≡ false
    → s.shared.mining ≡ false
    → (result : Bytes × Bytes × Option Work) × (text : Bytes) × (session' : Session) × (get_solution
          s.shared
        ≡ at_once (some result))
      × (submit (solution_of bt result is_accepted answer) session ≡ ok session')
      × Sends session text is_accepted session'
      × IsProven hash bt text
submit-IsProven hash json template_data bt n nonces old s session is_accepted answer body parses
      hashes sized few decodes r running off =
    let m = parse_block_template-IsMinable json template_data bt parses in
    let (_, base_size) = IsMinable-header_base bt m in
    let (result, found, good) =
      IsSolution-without_join hash (work_of bt) n nonces old s base_size r running off in
    let (nonce, nonce_size, header) =
      get_solution-nonce hash (work_of bt) n nonces old sized s r found in
    let (text, printed, proven) =
      header-IsProven hash bt result.0 result.1 nonce body m hashes nonce_size header good.hashed
        good.meets few decodes in
    let (_, hash_size) = subst IsBytes32 (sym good.hashed) (hashes result.0) in
    let (session', sent, sends) =
      submit-Sends (solution_of bt result is_accepted answer) session text hash_size printed in
    (result, text, session', found, sent, sends, proven)
