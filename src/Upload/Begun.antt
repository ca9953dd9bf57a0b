-- ===== src/Upload/Begun.antt =====
-- What an upload of src/megabasterd_cli/core/uploader.py has that resumes nothing.
use mathlib.Core.Option.{some-injective}
use mathlib.Core.Path.{◌∙◌, subst}
use mega_basterd_cli.Prelude.{
  String, true, [], is_truthy, Option, none, some, ◌≡◌, refl, ap, arith, Bool-cases, inl, inr,
}
use mega_basterd_cli.Json.{Json, Fields, lookup, to_dict, of_dict}
use mega_basterd_cli.State.Hex.{hex}
use mega_basterd_cli.State.Model.{TransferState, upload}
use mega_basterd_cli.Upload.Register.{text_of}
use mega_basterd_cli.Upload.Run.{Run, Material, request_upload_url, fresh_state, fresh_material}

-- No chunk is done, and the state records this run and what it goes on with.
pub record IsNew (run : Run) (state : TransferState) (m : Material) : Type 0 where
  pub is_upload : state.transfer_type ≡ upload
  pub source : state.source ≡ run.source
  pub size : state.total_size ≡ run.file_size
  pub no_chunk : state.completed_chunks ≡ []
  pub no_mac : state.chunk_macs ≡ []
  pub own_key : m.key ≡ run.aes_key
  pub own_nonce : m.nonce ≡ run.nonce
  pub no_token : m.token ≡ none
  pub key : lookup "aes_key" state.metadata ≡ some (Json.str (hex m.key))
  pub nonce : lookup "nonce" state.metadata ≡ some (Json.str (hex m.nonce))
  pub url : lookup "upload_url" state.metadata ≡ some (Json.str m.url)
  pub token : lookup "completion_token" state.metadata ≡ none
  pub identity :
      lookup "source_identity" state.metadata ≡ some (Json.obj (of_dict run.source_identity))

-- The answer to the request for a slot is an object that names the slot.
pub record IsSlot (answer : Option Json) (url : String) : Type 0 where
  pub fields : Fields
  pub is_dict : answer ≡ some (Json.obj fields)
  pub names : lookup "p" (to_dict fields) ≡ some (Json.str url)
  pub truthy : is_truthy url ≡ true

text_of-IsSlot :
    (fields : Fields) (item : Option Json) (url : String)
    → lookup "p" (to_dict fields) ≡ item
    → text_of item ≡ some url
    → IsSlot (some (Json.obj fields)) url
text_of-IsSlot fields (some (Json.str s)) url e h = elim (Bool-cases (is_truthy s)) [
  | inr b ↦ absurd (ground (arith, b, h))
  | inl t ↦
      let same : s ≡ url = some-injective s url (ground (arith, t, h)) in
      record {
        fields = fields;
        is_dict = refl;
        names = e ∙ ap (λ (x : String). some (Json.str x)) same;
        truthy = subst (λ (x : String). is_truthy x ≡ true) same t;
      }
]
text_of-IsSlot fields none url e h = absurd (ground arith)
text_of-IsSlot fields (some Json.null) url e h = absurd (ground arith)
text_of-IsSlot fields (some (Json.bool b)) url e h = absurd (ground arith)
text_of-IsSlot fields (some (Json.int n)) url e h = absurd (ground arith)
text_of-IsSlot fields (some (Json.float x)) url e h = absurd (ground arith)
text_of-IsSlot fields (some (Json.obj fs)) url e h = absurd (ground arith)
text_of-IsSlot fields (some (Json.arr js)) url e h = absurd (ground arith)

pub request_upload_url-IsSlot :
    (answer : Option Json) (url : String) → request_upload_url answer ≡ some url → IsSlot answer url
request_upload_url-IsSlot (some (Json.obj fs)) url h =
    text_of-IsSlot fs (lookup "p" (to_dict fs)) url refl h
request_upload_url-IsSlot none url h = absurd (ground arith)
request_upload_url-IsSlot (some Json.null) url h = absurd (ground arith)
request_upload_url-IsSlot (some (Json.bool b)) url h = absurd (ground arith)
request_upload_url-IsSlot (some (Json.int n)) url h = absurd (ground arith)
request_upload_url-IsSlot (some (Json.float x)) url h = absurd (ground arith)
request_upload_url-IsSlot (some (Json.str s)) url h = absurd (ground arith)
request_upload_url-IsSlot (some (Json.arr js)) url h = absurd (ground arith)

pub fresh_state-IsNew :
    (run : Run) (url : String) → IsNew run (fresh_state run url) (fresh_material run url)
fresh_state-IsNew run url = record {
  is_upload = refl;
  source = refl;
  size = refl;
  no_chunk = refl;
  no_mac = refl;
  own_key = refl;
  own_nonce = refl;
  no_token = refl;
  key = refl;
  nonce = refl;
  url = refl;
  token = refl;
  identity = refl;
}
