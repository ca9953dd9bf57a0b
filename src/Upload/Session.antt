-- ===== src/Upload/Session.antt =====
-- What the workers of an upload share (`MegaUploader` of src/megabasterd_cli/core/uploader.py), and what
-- one attempt takes from outside.
use mega_basterd_cli.Prelude.{ℕ, String, Bool, Option, List, [], ◌∷◌, str_eq, if◌then◌else◌, Exec}
use mega_basterd_cli.Json.{Json, Dict}
use mega_basterd_cli.State.Hex.{Bytes}
use mega_basterd_cli.State.Model.{TransferState}
use mega_basterd_cli.State.Store.{File, Disk}
use mega_basterd_cli.Crypto.Base64.{Text}
use mega_basterd_cli.Proxy.{Moment, ProxySelector}

-- The exceptions of a chunk: those that `is_retryable_upload_error` allows, UploadUrlExpiredError, and
-- the others.
pub data Fault : Type 0 where
  connection_error retryable : Fault
  url_expired : Fault
  non_retryable proxy_required value_error state_failed : Fault

-- `requests.post`: no answer, or a status and the blocks of the body, which may break off.
pub data Reply : Type 0 where
  lost : Reply
  answered : ℕ → List Bytes → Bool → Reply

pub record Attempt : Type 0 where
  pub moment : Moment
  pub disk : Disk
  pub stopped : Bool
  -- the source's bytes as this attempt reads them
  pub source : Bytes
  pub reply : Reply

-- A chunk that the endpoint has answered with 200, and the token in the answer.
pub record Delivery : Type 0 where
  pub url : String
  pub offset : ℕ
  pub encrypted : Bytes
  pub token : Bytes

-- What `complete_upload` sends.
pub record Request : Type 0 where
  pub target_handle : String
  pub upload_token : Bytes
  pub encrypted_attrs : Text
  pub wrapped_key : Text

-- `delivered` and `registered` are what the endpoint and the API have been sent, and no variables of the
-- program.
pub record Session : Type 0 where
  pub state : TransferState
  pub saved : File
  pub bytes_done : ℕ
  pub chunks_done : ℕ
  pub selector : ProxySelector
  pub upload_url : String
  pub completion_token : Option Bytes
  pub refreshed_upload_url : Bool
  pub delivered : List Delivery
  pub registered : List Request

abbrev pub Method : Type 0 → Type 0
Method A = Exec Fault Session A

-- `d[key] = value` and `d.pop(key, None)`
abbrev pub set_item : String → Json → Dict → Dict
set_item k v [] = (k, v) ∷ []
set_item k v ((j, w) ∷ d) =
    let rest = set_item k v d in if str_eq k j then (j, v) ∷ d else (j, w) ∷ rest

abbrev pub pop_item : String → Dict → Dict
pop_item k [] = []
pop_item k ((j, w) ∷ d) = let rest = pop_item k d in if str_eq k j then rest else (j, w) ∷ rest
