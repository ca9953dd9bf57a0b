-- ===== src/Upload/Finish.antt =====
-- The end of a round and of the upload in `_upload_file_locked` (src/megabasterd_cli/core/uploader.py).
use mega_basterd_cli.Prelude.{
  ℕ, String, true, Option, none, some, List, [], ◌∷◌, if◌then◌else◌, Result, ok, err, ◌>>◌,
}
use mega_basterd_cli.Prelude.Options.{◌>>=◌}
use mega_basterd_cli.Json.{Json, Dict, of_dict}
use mega_basterd_cli.Chunks.{Chunk}
use mega_basterd_cli.State.Hex.{Bytes}
use mega_basterd_cli.State.Model.{TransferState, get_chunk_mac, snapshot_state, Error}
use mega_basterd_cli.State.Store.{File, save_state, clear_state}
use mega_basterd_cli.Crypto.Primitives.{Primitives}
use mega_basterd_cli.Crypto.Mac.{combine_chunk_macs, condense_mac}
use mega_basterd_cli.Upload.Session.{Session, set_item, pop_item}
use mega_basterd_cli.Upload.Identity.{identities_match}
use mega_basterd_cli.Upload.Register.{
  Failure, bad_slot, chunk_failed, expired_again, no_token, source_changed, source_gone,
  missing_mac, crypto_failed, io_failed, register_node,
}
use mega_basterd_cli.Upload.Run.{
  Run, UploadResult, Method, request_upload_url, Material, begin_round,
}

-- A call on the state file
abbrev pub stored : Result Error (Unit {0}) × File → Method (Unit {0})
stored (ok u, f) s = (ok u, record s { saved = f })
stored (err e, f) s = (err io_failed, record s { saved = f })

-- The MACs of all chunks; `none` is a ValueError, and `some none` a chunk without one.
unfoldable pub recorded_macs : TransferState → List Chunk → Option (Option (List Bytes))
recorded_macs state [] = some (some [])
recorded_macs state (c ∷ cs) = do
  mac ← get_chunk_mac state c.index
  rest ← recorded_macs state cs
  some (mac >>= λ m. rest >>= λ ms. some (m ∷ ms))

module _ (run : Run) where
  -- `save_state(snapshot_state(state))`
  unfoldable pub save_snapshot : Method (Unit {0})
  save_snapshot s =
      stored (save_state run.saving (snapshot_state s.state).0 s.saved)
        (record s { state = (snapshot_state s.state).1 })

  -- The new slot holds nothing: what was recorded of the old one is dropped.
  abbrev pub renewed : String → Session → Session
  renewed url s = record s {
    upload_url = url;
    completion_token = none;
    refreshed_upload_url = true;
    state = record s.state {
      metadata =
          pop_item "completion_token" (set_item "upload_url" (Json.str url) s.state.metadata);
      completed_chunks = [];
      chunk_macs = [];
    };
  }

  unfoldable pub renew_slot : Option String → Method (Unit {0})
  renew_slot none s = (err bad_slot, record s { refreshed_upload_url = true })
  renew_slot (some url) s = (save_snapshot >> λ t. (ok tt, begin_round run t)) (renewed url s)

  -- `except UploadUrlExpiredError`, with the answer to the request for a new slot
  unfoldable pub on_expiry : Option Json → Method (Unit {0})
  on_expiry slot s =
      if s.refreshed_upload_url
      then (save_snapshot >> λ t. (err expired_again, t)) s
      else renew_slot (request_upload_url slot) s

  -- Another failed chunk
  unfoldable pub on_failure : Method (Unit {0})
  on_failure = save_snapshot >> λ t. (err chunk_failed, t)

  unfoldable pub discard_state : Method (Unit {0})
  discard_state s = stored (clear_state run.clearing s.saved) s

  unfoldable pub conclude : String → Method UploadResult
  conclude handle = discard_state >> λ t.
      (ok (record { file_handle = handle; name = run.upload_name; size = run.file_size }), t)

  unfoldable pub after_register :
      Result Failure String × Session → Result Failure UploadResult × Session
  after_register (err e, s) = (err e, s)
  after_register (ok handle, s) = conclude handle s

  unfoldable pub finalize_with :
      Primitives → Material → Bytes → Option (List ℕ) → Method UploadResult
  finalize_with lib m token none s = (err crypto_failed, s)
  finalize_with lib m token (some mac_iv) s =
      after_register
        (register_node lib run.account run.upload_name run.target m.key m.nonce mac_iv token s)

  unfoldable pub finalize : Primitives → Material → Bytes → List Bytes → Method UploadResult
  finalize lib m token macs s =
      finalize_with lib m token (combine_chunk_macs lib macs m.key >>= condense_mac) s

  unfoldable pub with_macs :
      Primitives → Material → Bytes → Option (Option (List Bytes)) → Method UploadResult
  with_macs lib m token none s = (err io_failed, s)
  with_macs lib m token (some none) s = (err missing_mac, s)
  with_macs lib m token (some (some macs)) s = finalize lib m token macs s

  -- The source's identity before and after
  unfoldable pub check_source : Primitives → Material → Bytes → Option Dict → Method UploadResult
  check_source lib m token none s = (discard_state >> λ t. (err source_gone, t)) s
  check_source lib m token (some current) s =
      if identities_match run.values (some (Json.obj (of_dict run.source_identity))) current
      then with_macs lib m token (recorded_macs s.state run.all_chunks) s
      else (discard_state >> λ t. (err source_changed, t)) s

  unfoldable pub finish_with : Primitives → Material → Option Bytes → Method UploadResult
  finish_with lib m none s = (err no_token, s)
  finish_with lib m (some token) s = check_source lib m token run.current_identity s

  -- After the loop
  unfoldable pub finish : Primitives → Material → Method UploadResult
  finish lib m s = finish_with lib m s.completion_token s
