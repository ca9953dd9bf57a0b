-- ===== src/Upload/Resumes.antt =====
-- Which states an upload resumes from, without the tests of src/megabasterd_cli/core/uploader.py and
-- upload_identity.py that find it out.
use mega_basterd_cli.Prelude.{
  Bool, true, false, Option, none, some, ◌≡◌, refl, arith, ==→≡, Bool-cases, inl, inr, ◌⊎◌, eq_iff,
}
use mega_basterd_cli.Json.{pos, Json, Fields, Dict, to_dict, lookup}
use mega_basterd_cli.State.Model.{TransferState, TransferType, upload, download}
use mega_basterd_cli.Upload.Identity.{
  Values, same_fields, other_file_id, identities_match, is_resumable_upload_state,
}
use mega_basterd_cli.Upload.Run.{Run}

-- The recorded identity has version 2, the four values of the current one, and no other file id.
pub record IsIdentity (values : Values) (recorded : Option Json) (current : Dict) : Type 0 where
  pub fields : Fields
  pub is_dict : recorded ≡ some (Json.obj fields)
  pub version : values.equals (lookup "v" (to_dict fields)) (some (Json.int (pos 2))) ≡ true
  pub path : values.equals (lookup "path" (to_dict fields)) (lookup "path" current) ≡ true
  pub size : values.equals (lookup "size" (to_dict fields)) (lookup "size" current) ≡ true
  pub mtime_ns :
      values.equals (lookup "mtime_ns" (to_dict fields)) (lookup "mtime_ns" current) ≡ true
  pub sha256 : values.equals (lookup "sha256" (to_dict fields)) (lookup "sha256" current) ≡ true
  pub file_id :
      (values.is_true (lookup "file_id" (to_dict fields)) ≡ false)
      ⊎ (values.is_true (lookup "file_id" current) ≡ false)
      ⊎ (values.equals (lookup "file_id" (to_dict fields)) (lookup "file_id" current) ≡ true)

-- A state of an upload of this source, with its size and its identity
pub record IsSameUpload (run : Run) (state : TransferState) : Type 0 where
  pub is_upload : state.transfer_type ≡ upload
  pub size : state.total_size ≡ run.file_size
  pub source : state.source ≡ run.source
  pub identity : IsIdentity run.values (lookup "source_identity" state.metadata) run.source_identity

module _ (values : Values) (recorded current : Dict) where
  other_file_id-false :
      other_file_id values recorded current ≡ false
      → (values.is_true (lookup "file_id" recorded) ≡ false)
        ⊎ (values.is_true (lookup "file_id" current) ≡ false)
        ⊎ (values.equals (lookup "file_id" recorded) (lookup "file_id" current) ≡ true)
  other_file_id-false h = elim (Bool-cases (values.is_true (lookup "file_id" recorded))) [
    | inr a ↦ inl a
    | inl a ↦ elim (Bool-cases (values.is_true (lookup "file_id" current))) [
      | inr b ↦ inr (inl b)
      | inl b ↦ inr (inr (ground (arith, a, b, h)))
    ]
  ]

module _ (values : Values) where
  identities_match-IsIdentity :
      (recorded : Option Json) (current : Dict)
      → identities_match values recorded current ≡ true
      → IsIdentity values recorded current
  unfolding identities_match same_fields
  identities_match-IsIdentity (some (Json.obj fs)) current h = record {
    fields = fs;
    is_dict = refl;
    version = ground (arith, h);
    path = ground (arith, h);
    size = ground (arith, h);
    mtime_ns = ground (arith, h);
    sha256 = ground (arith, h);
    file_id = other_file_id-false values (to_dict fs) current (ground (arith, h));
  }
  identities_match-IsIdentity none current h = absurd (ground arith)
  identities_match-IsIdentity (some Json.null) current h = absurd (ground arith)
  identities_match-IsIdentity (some (Json.bool b)) current h = absurd (ground arith)
  identities_match-IsIdentity (some (Json.int n)) current h = absurd (ground arith)
  identities_match-IsIdentity (some (Json.float x)) current h = absurd (ground arith)
  identities_match-IsIdentity (some (Json.str s)) current h = absurd (ground arith)
  identities_match-IsIdentity (some (Json.arr js)) current h = absurd (ground arith)

  IsIdentity-identities_match :
      (recorded : Option Json) (current : Dict)
      → IsIdentity values recorded current
      → identities_match values recorded current ≡ true
  unfolding identities_match same_fields
  IsIdentity-identities_match recorded current i = elim i.file_id [
    | inl a ↦ rw i.is_dict (ground (arith, i.version, i.path, i.size, i.mtime_ns, i.sha256, a))
    | inr (inl a) ↦
        rw i.is_dict (ground (arith, i.version, i.path, i.size, i.mtime_ns, i.sha256, a))
    | inr (inr a) ↦
        rw i.is_dict (ground (arith, i.version, i.path, i.size, i.mtime_ns, i.sha256, a))
  ]

module _ (run : Run) (state : TransferState) where
  abbrev pub accepted : Bool
  accepted = is_resumable_upload_state run.values state run.source run.file_size run.source_identity

  accepted-of :
      (kind : TransferType)
      → state.transfer_type ≡ kind
      → accepted ≡ true
      → state.transfer_type ≡ upload
  unfolding is_resumable_upload_state
  accepted-of upload e h = e
  accepted-of download e h = absurd (ground (arith, e, h))

  pub is_resumable-IsSameUpload : accepted ≡ true → IsSameUpload run state
  unfolding is_resumable_upload_state
  is_resumable-IsSameUpload h = record {
    is_upload = accepted-of state.transfer_type refl h;
    size = ==→≡ state.total_size run.file_size (ground (arith, h));
    source = (eq_iff state.source run.source).0 (ground (arith, h));
    identity =
        identities_match-IsIdentity run.values (lookup "source_identity" state.metadata)
          run.source_identity (ground (arith, h));
  }

  pub IsSameUpload-is_resumable : IsSameUpload run state → accepted ≡ true
  unfolding is_resumable_upload_state
  IsSameUpload-is_resumable i =
      let same = (eq_iff state.source run.source).1 i.source in
      let matching =
        IsIdentity-identities_match run.values (lookup "source_identity" state.metadata)
          run.source_identity i.identity in
      ground (arith, i.is_upload, i.size, same, matching)
