-- ===== src/Utils/Target/Tests.antt =====
-- Targets and comparisons at concrete values.
use juno_miner.Base.{◌*◌, ◌^◌, ◌≡◌, refl, ◌∷◌, arith, leb, replicate, Bytes, le_value, ok}
use juno_miner.Utils.Target.{compact_to_target, hash_meets_target}
use juno_miner.Utils.Target.Compact.{compact_value, le_value-compact_to_target}
use juno_miner.Utils.Target.Compare.{hash_meets_target-le}

abbrev low_hash : Bytes
low_hash = 7 ∷ replicate 31 0

compact_run : le_value (compact_to_target 0x1f09daa8) ≡ 0x09daa8 * 256 ^ 28
unfolding compact_to_target
compact_run = refl

le_value-compact_to_target_example :
    le_value (compact_to_target 0x1f09daa8) ≡ compact_value 0x1f09daa8
le_value-compact_to_target_example = le_value-compact_to_target 0x1f09daa8

hash_meets_target-le_example :
    hash_meets_target low_hash (replicate 32 9)
    ≡ ok (leb (le_value low_hash) (le_value (replicate 32 9)))
hash_meets_target-le_example =
    hash_meets_target-le low_hash (replicate 32 9) (omega arith) (omega arith) refl refl
