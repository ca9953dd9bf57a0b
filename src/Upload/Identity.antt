-- ===== src/Upload/Identity.antt =====
-- `identities_match` and `is_resumable_upload_state` (src/megabasterd_cli/core/upload_identity.py).
use mega_basterd_cli.Prelude.{
  ℕ, String, Bool, true, false, not, ◌&&◌, Option, some, List, [], ◌∷◌, ◌==◌, str_eq,
}
use mega_basterd_cli.Json.{pos, Json, Dict, to_dict, lookup}
use mega_basterd_cli.State.Model.{TransferState, TransferType, download, upload}

-- Python's `==` and truth value, for what a JSON document holds; `none` is None.
pub record Values : Type 0 where
  pub equals : Option Json → Option Json → Bool
  pub is_true : Option Json → Bool

abbrev pub identity_fields : List String
identity_fields = "path" ∷ "size" ∷ "mtime_ns" ∷ "sha256" ∷ []

module _ (values : Values) where
  unfoldable pub same_fields : List String → Dict → Dict → Bool
  same_fields [] recorded current = true
  same_fields (k ∷ ks) recorded current =
      values.equals (lookup k recorded) (lookup k current) && same_fields ks recorded current

  -- The file ids differ, where both are there.
  abbrev pub other_file_id : Dict → Dict → Bool
  other_file_id recorded current =
      values.is_true (lookup "file_id" recorded)
      && values.is_true (lookup "file_id" current)
      && not (values.equals (lookup "file_id" recorded) (lookup "file_id" current))

  unfoldable pub identities_match : Option Json → Dict → Bool
  identities_match (some (Json.obj fs)) current =
      values.equals (lookup "v" (to_dict fs)) (some (Json.int (pos 2)))
      && same_fields identity_fields (to_dict fs) current
      && not (other_file_id (to_dict fs) current)
  identities_match _ current = false

  abbrev is_upload : TransferType → Bool
  is_upload upload = true
  is_upload download = false

  unfoldable pub is_resumable_upload_state : TransferState → String → ℕ → Dict → Bool
  is_resumable_upload_state s source file_size identity =
      is_upload s.transfer_type
      && s.total_size == file_size
      && str_eq s.source source
      && identities_match (lookup "source_identity" s.metadata) identity
