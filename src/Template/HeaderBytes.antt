-- ===== src/Template/HeaderBytes.antt =====
-- The header of a parsed template is an array of bytes.
use juno_miner.Base.{
  ℕ, zero, suc, ◌≡◌, sym, subst, [], ◌∷◌, ◌++◌, arith, length, replicate, All, All-append, IsByte,
  Bytes,
}
use mathlib.Core.List.{reverse, reverse-cons}
use juno_miner.Utils.Endian.RoundTrip.{byte_at-lt}
use juno_miner.Utils.Block.Parse.{hex_to_bytes-IsByte}
use juno_miner.Template.{BlockTemplate}
use juno_miner.Template.Header.{le32, header_layout}
use juno_miner.Template.Fields.{IsMinable}

All-reverse : (xs : Bytes) → All IsByte xs → All IsByte (reverse xs)
All-reverse [] v = tt
All-reverse (x ∷ xs) (h, v) =
    subst (All IsByte) (sym (reverse-cons x xs))
      (All-append IsByte (reverse xs) (x ∷ []) (All-reverse xs v) (h, tt))

le32-IsByte : (value : ℕ) → All IsByte (le32 value)
le32-IsByte value =
    (byte_at-lt value 0, (byte_at-lt value 8, (byte_at-lt value 16, (byte_at-lt value 24, tt))))

zeros-IsByte : (n : ℕ) → All IsByte (replicate n 0)
zeros-IsByte zero = tt
zeros-IsByte (suc n) = (omega arith, zeros-IsByte n)

header_layout-IsByte :
    (version : ℕ) (prev merkle commitments : Bytes) (time bits : ℕ)
    → All IsByte prev
    → All IsByte merkle
    → All IsByte commitments
    → All IsByte (header_layout version prev merkle commitments time bits)
header_layout-IsByte version prev merkle commitments time bits vp vm vc =
    All-append IsByte (le32 version) _ (le32-IsByte version) (
      All-append IsByte (reverse prev) _ (All-reverse prev vp) (
        All-append IsByte (reverse merkle) _ (All-reverse merkle vm) (
          All-append IsByte (reverse commitments) _ (All-reverse commitments vc) (
            All-append IsByte (le32 time) (le32 bits ++ replicate 32 0) (le32-IsByte time) (
              All-append IsByte (le32 bits) (replicate 32 0) (le32-IsByte bits)
                (zeros-IsByte 32))))))

pub IsMinable-header_base :
    (bt : BlockTemplate) → IsMinable bt → All IsByte bt.header_base × (length bt.header_base ≡ 140)
IsMinable-header_base bt m =
    let (prev, merkle, commitments, read, read_too, reads, layout, size) = m.header in
    (
      subst (All IsByte) (sym layout) (
          header_layout-IsByte bt.version prev merkle commitments bt.time bt.bits
            (hex_to_bytes-IsByte bt.previous_block_hash prev read)
            (hex_to_bytes-IsByte bt.merkle_root merkle read_too)
            (hex_to_bytes-IsByte bt.block_commitments_hash commitments reads)),
      size,
    )
