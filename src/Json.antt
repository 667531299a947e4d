-- ===== src/Json.antt =====
-- JsonCpp's `Json::Value`, which the repository links: what the sources call of it, as an interface. Each
-- accessor may throw, as `asUInt` does on a value that is no number.
use juno_miner.Base.{ℕ, Bool, List, Bytes, Outcome}
use Prim.Native.String.{String}

pub record Json : Type 1 where
  pub Value : Type 0
  pub is_member : Value → String → Outcome Bool
  pub member : Value → String → Outcome Value
  pub as_uint : Value → Outcome ℕ
  pub as_uint64 : Value → Outcome ℕ
  pub as_string : Value → Outcome Bytes
  pub is_array : Value → Bool
  pub is_null : Value → Bool
  pub is_string : Value → Bool
  pub elements : Value → List Value
