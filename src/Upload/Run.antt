-- ===== src/Upload/Run.antt =====
-- `_upload_file_locked` (src/megabasterd_cli/core/uploader.py), around the work of the workers.
use mega_basterd_cli.Prelude.{
  ℕ, ◌-◌, String, Bool, false, not, ◌&&◌, Option, none, some, List, [], ◌∷◌, length, keep_if, ◌==◌,
  is_truthy, if◌then◌else◌, Result, ok, err, Exec,
}
use mega_basterd_cli.Prelude.Options.{◌>>=◌}
use mega_basterd_cli.Json.{ℤ, pos, Json, Dict, of_dict, lookup}
use mega_basterd_cli.Chunks.{Chunk}
use mega_basterd_cli.State.Hex.{Bytes, hex, fromhex}
use mega_basterd_cli.State.Model.{TransferState, upload, state_format_version, is_chunk_done, Error}
use mega_basterd_cli.State.Store.{Disk, File, load_state, clear_state, unrecognized_state_version}
use mega_basterd_cli.Proxy.{ProxySelector}
use mega_basterd_cli.Transfer.Run.{sizes}
use mega_basterd_cli.Upload.Session.{Session}
use mega_basterd_cli.Upload.Identity.{Values, is_resumable_upload_state}
use mega_basterd_cli.Upload.Register.{
  Failure, other_version, bad_slot, io_failed, Account, named, text_of,
}

-- What a run is given and is answered: the fresh key and nonce, the source's identity before and after
-- (`none` is an OSError), the answer to a request for a slot (`none` is an exception).
pub record Run : Type 0 where
  pub values : Values
  pub account : Account
  pub source : String
  pub state_path : String
  pub upload_name : String
  pub target : String
  pub file_size : ℕ
  pub all_chunks : List Chunk
  pub aes_key : Bytes
  pub nonce : Bytes
  pub source_identity : Dict
  pub current_identity : Option Dict
  pub slot : Option Json
  pub auto_resume : Bool
  pub loading : Disk
  pub clearing : Disk
  pub saving : Disk
  pub selector : ProxySelector

pub record UploadResult : Type 0 where
  pub file_handle : String
  pub name : String
  pub size : ℕ

abbrev pub Method : Type 0 → Type 0
Method A = Exec Failure Session A

-- `_request_upload_url`
abbrev pub request_upload_url : Option Json → Option String
request_upload_url answer = text_of (named "p" answer)

-- The key and the nonce, and what the state records of the slot
pub record Material : Type 0 where
  pub key : Bytes
  pub nonce : Bytes
  pub url : String
  pub token : Option Bytes

abbrev pub hex_item : Option Json → Option Bytes
hex_item (some (Json.str s)) = fromhex s
hex_item _ = none

abbrev pub token_text : String → Option (Option Bytes)
token_text s = if is_truthy s then (fromhex s >>= λ t. some (some t)) else some none

-- `none` outside is a TypeError or a ValueError.
abbrev pub token_item : Option Json → Option (Option Bytes)
token_item none = some none
token_item (some Json.null) = some none
token_item (some (Json.str s)) = token_text s
token_item _ = none

-- The state file's URL was validated to be a text when it was loaded.
abbrev pub url_item : Option Json → Option String
url_item (some (Json.str s)) = some s
url_item _ = none

unfoldable pub read_material : Dict → Option Material
read_material metadata = do
  key ← hex_item (lookup "aes_key" metadata)
  nonce ← hex_item (lookup "nonce" metadata)
  url ← url_item (lookup "upload_url" metadata)
  token ← token_item (lookup "completion_token" metadata)
  if length key == 16 && length nonce == 8
      then some (record { key = key; nonce = nonce; url = url; token = token })
      else none

module _ (run : Run) where
  abbrev pub fresh_state : String → TransferState
  fresh_state url = record {
    transfer_type = upload;
    source = run.source;
    destination = run.state_path;
    total_size = run.file_size;
    format_version = pos state_format_version;
    completed_chunks = [];
    chunk_macs = [];
    metadata =
        ("upload_url", Json.str url)
        ∷ ("aes_key", Json.str (hex run.aes_key))
        ∷ ("nonce", Json.str (hex run.nonce))
        ∷ ("source_identity", Json.obj (of_dict run.source_identity))
        ∷ [];
    revision = 0;
  }

  -- The top of the loop: the counters of what is done
  abbrev pub begin_round : Session → Session
  begin_round s = record s {
    bytes_done = sizes (keep_if (λ c. is_chunk_done s.state c.index) run.all_chunks);
    chunks_done =
        length run.all_chunks
        - length (keep_if (λ c. not (is_chunk_done s.state c.index)) run.all_chunks);
  }

  abbrev pub open_session : TransferState → Material → File → Session
  open_session state m f = begin_round (record {
    state = state;
    saved = f;
    bytes_done = 0;
    chunks_done = 0;
    selector = run.selector;
    upload_url = m.url;
    completion_token = m.token;
    refreshed_upload_url = false;
    delivered = [];
    registered = [];
  })

  abbrev pub fresh_material : String → Material
  fresh_material url = record { key = run.aes_key; nonce = run.nonce; url = url; token = none }

  unfoldable pub with_slot : Option String → File → Result Failure (Material × Session) × File
  with_slot none f = (err bad_slot, f)
  with_slot (some url) f =
      (ok (fresh_material url, open_session (fresh_state url) (fresh_material url) f), f)

  unfoldable pub start_cleared :
      Result Error (Unit {0}) × File → Result Failure (Material × Session) × File
  start_cleared (err e, f) = (err io_failed, f)
  start_cleared (ok u, f) = with_slot (request_upload_url run.slot) f

  unfoldable pub start_version :
      Result Error (Option ℤ) → File → Result Failure (Material × Session) × File
  start_version (err e) f = (err io_failed, f)
  start_version (ok (some v)) f = (err other_version, f)
  start_version (ok none) f = start_cleared (clear_state run.clearing f)

  unfoldable pub start_fresh : File → Result Failure (Material × Session) × File
  start_fresh f = start_version (unrecognized_state_version f) f

  -- `clear_state(state_path)`, and a start without a state
  unfoldable pub drop_state :
      Result Error (Unit {0}) × File → Result Failure (Material × Session) × File
  drop_state (err e, f) = (err io_failed, f)
  drop_state (ok u, f) = start_fresh f

  unfoldable pub resume_with :
      TransferState → Option Material → File → Result Failure (Material × Session) × File
  resume_with state none f = drop_state (clear_state run.clearing f)
  resume_with state (some m) f = (ok (m, open_session state m f), f)

  unfoldable pub resume_or_fresh :
      Option TransferState → File → Result Failure (Material × Session) × File
  resume_or_fresh none f = start_fresh f
  resume_or_fresh (some state) f =
      if is_resumable_upload_state run.values state run.source run.file_size run.source_identity
      then resume_with state (read_material state.metadata) f
      else drop_state (clear_state run.clearing f)

  unfoldable pub start_loaded :
      Result Error (Option TransferState) × File → Result Failure (Material × Session) × File
  start_loaded (err e, f) = (err io_failed, f)
  start_loaded (ok loaded, f) = resume_or_fresh loaded f

  unfoldable pub start : File → Result Failure (Material × Session) × File
  start f = if run.auto_resume then start_loaded (load_state run.loading f) else start_fresh f
