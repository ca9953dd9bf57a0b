-- ===== src/Integrity.antt =====
-- The check of a finished file against the MAC in its key (`_verify_file_on_disk` and
-- `verify_file_integrity` of src/megabasterd_cli/core/download_verify.py). `none` is an exception that
-- the code does not catch.
pub mod Pieces
mod Examples
use mega_basterd_cli.Prelude.Slices.{slice, drop-all, drop-add}
use mega_basterd_cli.Prelude.{
  ℕ, String, Bool, true, false, ◌&&◌, Option, none, some, List, [], ◌∷◌, length, ◌==◌,
  if◌then◌else◌, is_truthy,
}
use mega_basterd_cli.Prelude.Options.{◌>>=◌}
use mega_basterd_cli.Json.{Json, lookup}
use mega_basterd_cli.Chunks.{Chunk}
use mega_basterd_cli.State.Hex.{Bytes, fromhex}
use mega_basterd_cli.State.Model.{TransferState}
use mega_basterd_cli.Crypto.Primitives.{Primitives}
use mega_basterd_cli.Crypto.Mac.{chunk_mac, combine_chunk_macs, condense_mac}

-- `f.seek(c.offset)` and `f.read(c.size)`
abbrev pub piece : Bytes → Chunk → Bytes
piece file c = slice c.offset c.size file

-- The MACs of what is read; `some none` is a read that is short.
unfoldable pub macs_on_disk :
    Primitives → Bytes → Bytes → Bytes → List Chunk → Option (Option (List Bytes))
macs_on_disk env key nonce file [] = some (some [])
macs_on_disk env key nonce file (c ∷ cs) =
    let rest = (do
      mac ← chunk_mac env (piece file c) key nonce
      macs ← macs_on_disk env key nonce file cs
      some (elim macs [ none ↦ none | some ms ↦ some (mac ∷ ms) ])) in
    if length (piece file c) == c.size then rest else some none

-- `condensed[0] == mac_iv_a32[0] and condensed[1] == mac_iv_a32[1]`, and the IndexErrors
unfoldable pub same_mac : List ℕ → List ℕ → Option Bool
same_mac (a ∷ b ∷ _) (c ∷ d ∷ _) = some (a == c && b == d)
same_mac (a ∷ b ∷ _) (c ∷ []) = if a == c then none else some false
same_mac _ _ = none

module _ (env : Primitives) (key nonce : Bytes) (mac_iv : List ℕ) where
  unfoldable pub compare_macs : Option (List Bytes) → Option Bool
  compare_macs none = some false
  compare_macs (some macs) = do
    mac ← combine_chunk_macs env macs key
    condensed ← condense_mac mac
    same_mac condensed mac_iv

  -- The destination's contents; `none` is an OSError.
  unfoldable pub verify_file_on_disk : List Chunk → Option Bytes → Option Bool
  verify_file_on_disk cs none = some false
  verify_file_on_disk cs (some file) = do
    macs ← macs_on_disk env key nonce file cs
    compare_macs macs

-- The nonce that the state records, where it is usable.
abbrev pub usable_nonce : Option Bytes → Option Bytes
usable_nonce none = none
usable_nonce (some nonce) = if length nonce == 8 then some nonce else none

abbrev pub recorded_nonce : Option Json → Option Bytes
recorded_nonce (some (Json.str s)) = if is_truthy s then usable_nonce (fromhex s) else none
recorded_nonce _ = none

unfoldable pub verify_file_integrity :
    Primitives → TransferState → List Chunk → Bytes → List ℕ → Option Bytes → Option Bool
verify_file_integrity env s cs key mac_iv file = elim (recorded_nonce (lookup "nonce" s.metadata)) [
  | none ↦ some false
  | some nonce ↦ verify_file_on_disk env key nonce mac_iv cs file
]
