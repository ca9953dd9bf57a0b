-- ===== src/Resuming.antt =====
-- The two checks before a download starts (src/megabasterd_cli/core/download_verify.py): the size that
-- the remote declares, and whether a resume state belongs to this transfer.
pub mod Usable
mod Examples
use mega_basterd_cli.Prelude.{
  ℕ, String, Bool, true, false, not, ◌&&◌, ◌||◌, Option, none, some, List, [], ◌∷◌, any, ltb, ◌==◌,
  if◌then◌else◌, str_eq, Result, ok, err,
}
use mega_basterd_cli.Json.{ℤ, pos, negsuc, Json, Dict, lookup}
use mega_basterd_cli.Chunks.{Chunk, chunk_count, max_chunks, max_file_size}
use mega_basterd_cli.State.Hex.{Bytes, hex}
use mega_basterd_cli.State.Model.{TransferState, TransferType, download, upload, get_chunk_mac}

pub data DeclaredSize : Type 0 where
  not_an_integer negative too_large : DeclaredSize

pub validate_declared_size : Json → Result DeclaredSize ℕ
validate_declared_size (Json.int (pos n)) =
    if ltb max_file_size n || ltb max_chunks (chunk_count n) then err too_large else ok n
validate_declared_size (Json.int (negsuc n)) = err negative
validate_declared_size _ = err not_an_integer

-- What a download is about to do. Outside this file: `Path(a) != b`, and the size of the destination
-- file, if there is one.
pub record Download : Type 0 where
  pub auto_resume : Bool
  pub destination : String
  pub source : String
  pub file_size : ℕ
  pub aes_key : Bytes
  pub nonce : Bytes
  pub all_chunks : List Chunk
  pub same_path : String → String → Bool
  pub size_on_disk : Option ℕ

-- `metadata.get(key) == text`
abbrev pub is_recorded : String → Dict → String → Bool
is_recorded k d t = elim (lookup k d) [ some (Json.str s) ↦ str_eq s t | _ ↦ false ]

abbrev pub is_planned : List Chunk → ℕ → Bool
is_planned cs k = any (λ c. c.index == k) cs

unfoldable pub are_planned : List Chunk → List ℕ → Bool
are_planned cs [] = true
are_planned cs (k ∷ ks) = is_planned cs k && are_planned cs ks

-- `all(state.get_chunk_mac(index) is not None ...)`; `none` is the ValueError of a MAC that is not
-- hexadecimal.
unfoldable pub have_macs : TransferState → List ℕ → Option Bool
have_macs s [] = some true
have_macs s (k ∷ ks) =
    let rest = have_macs s ks in
    elim (get_chunk_mac s k) [ none ↦ none | some none ↦ some false | some (some m) ↦ rest ]

abbrev pub is_of_size : Option ℕ → ℕ → Bool
is_of_size none n = false
is_of_size (some m) n = m == n

module _ (d : Download) where
  abbrev pub is_download : TransferType → Bool
  is_download download = true
  is_download upload = false

  -- The checks up to the completed chunks
  abbrev pub is_same_transfer : TransferState → Bool
  is_same_transfer s =
      is_download s.transfer_type
      && s.total_size == d.file_size
      && str_eq s.source d.source
      && d.same_path s.destination d.destination
      && is_recorded "aes_key" s.metadata (hex d.aes_key)
      && is_recorded "nonce" s.metadata (hex d.nonce)

  unfoldable pub are_usable : TransferState → List ℕ → Option Bool
  are_usable s [] = some true
  are_usable s (k ∷ ks) =
      if is_of_size d.size_on_disk d.file_size && are_planned d.all_chunks (k ∷ ks)
      then have_macs s (k ∷ ks)
      else some false

  abbrev pub is_usable : TransferState → Option Bool
  is_usable s = if is_same_transfer s then are_usable s s.completed_chunks else some false

  unfoldable pub is_usable_download_state : Option TransferState → Option Bool
  is_usable_download_state none = some false
  is_usable_download_state (some s) = if d.auto_resume then is_usable s else some false
