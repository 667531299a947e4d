-- ===== src/Text.antt =====
-- Text literals as byte strings.
use juno_miner.Base.{[], ◌∷◌, Bytes}
use Prim.Native.String.{String}
use Prim.Native.Char.{code}

-- The code points of a text, which are its bytes where it is ASCII
abbrev pub codes : String → Bytes
codes String.[] = []
codes (String.◌∷◌ c s) = code c ∷ codes s
