-- ===== src/State/Model.antt =====
-- The state in memory (`TransferState` of src/megabasterd_cli/core/state.py), and its changes.
use mega_basterd_cli.Prelude.{
  ℕ, ◌+◌, String, Bool, false, not, Option, none, some, List, [], ◌∷◌, ◌++◌, any, length, ◌==◌,
  if◌then◌else◌, str_eq, Result, ok, err,
}
use mega_basterd_cli.Json.{ℤ, Dict}
use mega_basterd_cli.State.Hex.{Bytes, hex, fromhex}

pub data Error : Type 0 where
  corruption_error durability_error os_error json_error : Error

pub data TransferType : Type 0 where
  download upload : TransferType

abbrev pub state_format_version : ℕ
state_format_version = 1

abbrev pub mac_byte_length : ℕ
mac_byte_length = 16

abbrev pub Macs : Type 0
Macs = List (ℕ × String)

pub record TransferState : Type 0 where
  pub transfer_type : TransferType
  pub source : String
  pub destination : String
  pub total_size : ℕ
  pub format_version : ℤ
  pub completed_chunks : List ℕ
  pub chunk_macs : Macs
  pub metadata : Dict
  pub revision : ℕ

abbrev pub has : ℕ → List ℕ → Bool
has k = any (λ i. k == i)

unfoldable pub is_chunk_done : TransferState → ℕ → Bool
is_chunk_done s k = has k s.completed_chunks

-- `macs[key]`, and `macs[key] = value`
unfoldable pub mac_at : ℕ → Macs → Option String
mac_at k [] = none
mac_at k ((j, m) ∷ macs) = if k == j then some m else mac_at k macs

unfoldable pub put_mac : ℕ → String → Macs → Macs
put_mac k m [] = (k, m) ∷ []
put_mac k m ((j, n) ∷ macs) = if k == j then (j, m) ∷ macs else (j, n) ∷ put_mac k m macs

abbrev pub bad_mac : Option Bytes → Bool
bad_mac none = false
bad_mac (some mac) = not (length mac == mac_byte_length)

abbrev pub with_mac : ℕ → Option Bytes → Macs → Macs
with_mac k none macs = macs
with_mac k (some mac) macs = put_mac k (hex mac) macs

unfoldable pub mark_chunk_done : TransferState → ℕ → Option Bytes → Result Error TransferState
mark_chunk_done s k mac =
    if bad_mac mac
    then err corruption_error
    else ok (record s {
      completed_chunks =
          if has k s.completed_chunks then s.completed_chunks else s.completed_chunks ++ k ∷ [];
      chunk_macs = with_mac k mac s.chunk_macs;
    })

-- `bytes.fromhex(hex_mac) if hex_mac else None`; `none` inside is its ValueError.
abbrev pub decoded : Option String → Option (Option Bytes)
decoded none = some none
decoded (some m) =
    if str_eq m "" then some none else elim (fromhex m) [ none ↦ none | some b ↦ some (some b) ]

unfoldable pub get_chunk_mac : TransferState → ℕ → Option (Option Bytes)
get_chunk_mac s k = decoded (mac_at k s.chunk_macs)

-- The snapshot and the live state, which has claimed the revision.
unfoldable pub snapshot_state : TransferState → TransferState × TransferState
snapshot_state s = let live = record s { revision = s.revision + 1 } in (live, live)
