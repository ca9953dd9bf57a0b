-- ===== src/Upload/Empty.antt =====
-- `_upload_empty_file` (src/megabasterd_cli/core/uploader.py): a file without chunks.
pub mod Posted
pub mod Registered
use mega_basterd_cli.Prelude.{
  ℕ, String, Bool, true, false, not, ◌&&◌, Option, none, some, List, [], ◌∷◌, ◌==◌, if◌then◌else◌,
  Result, ok, err, continue, Exec, ◌>>=◌,
}
use mega_basterd_cli.Json.{Json, Dict, pos, of_dict, lookup}
use mega_basterd_cli.State.Hex.{Bytes}
use mega_basterd_cli.Crypto.Primitives.{Primitives}
use mega_basterd_cli.Crypto.Mac.{combine_chunk_macs, condense_mac}
use mega_basterd_cli.Prelude.Options
use mega_basterd_cli.Proxy.{Selected, select}
use mega_basterd_cli.Upload.Session.{Fault, Reply, lost, answered, Attempt, Session}
use mega_basterd_cli.Upload.Post.{
  is_retired, is_empty, max_upload_response_bytes, read_bounded_bytes, report_failure,
  report_success,
}
use mega_basterd_cli.Upload.Identity.{identities_match}
use mega_basterd_cli.Upload.Register.{
  Failure, bad_slot, chunk_failed, no_token, source_changed, source_gone, crypto_failed,
  register_node,
}
use mega_basterd_cli.Upload.Run.{Run, UploadResult, Method, request_upload_url}

module _ (lib : Primitives) (run : Run) where
  -- The body of an answer with 200
  unfoldable pub empty_body : Attempt → Option String → Result Fault Bytes → Method (Option Bytes)
  empty_body env picked (err e) s = (err chunk_failed, s)
  empty_body env picked (ok body) s = (ok (some body), report_success lib env picked s)

  -- `none` asks for another slot, which only the first attempt does.
  unfoldable pub empty_reply : Bool → Attempt → Option String → Reply → Method (Option Bytes)
  empty_reply first env picked lost s = (err chunk_failed, report_failure lib env picked s)
  empty_reply first env picked (answered status blocks whole) s =
      if is_retired status && first
      then (ok none, s)
      else if not (status == 200)
      then (err chunk_failed, report_failure lib env picked s)
      else empty_body env picked (read_bounded_bytes max_upload_response_bytes [] blocks whole) s

  unfoldable pub empty_proxy : Bool → Attempt → Selected → Method (Option Bytes)
  empty_proxy first env (err e) s = (err chunk_failed, s)
  empty_proxy first env (ok (proxies, picked)) s = empty_reply first env picked env.reply s

  unfoldable pub post_empty : Bool → Attempt → Method (Option Bytes)
  post_empty first env s =
      empty_proxy first env (select env.moment s.selector).0
        (record s { selector = (select env.moment s.selector).1 })

  -- `self._request_upload_url(0)`, and the attempt with it
  unfoldable pub post_at : Bool → Attempt → Option String → Method (Option Bytes)
  post_at first env none s = (err bad_slot, s)
  post_at first env (some url) s = post_empty first env (record s { upload_url = url })

  -- The second attempt, where the first has found its slot retired
  unfoldable pub post_again : Attempt → Option Json → Option Bytes → Method (Option Bytes)
  post_again env slot (some token) s = (ok (some token), s)
  post_again env slot none s = post_at false env (request_upload_url slot) s

  unfoldable pub register_empty : Bytes → Option (List ℕ) → Method String
  register_empty token none s = (err crypto_failed, s)
  register_empty token (some mac_iv) s =
      register_node lib run.account run.upload_name run.target run.aes_key run.nonce mac_iv token s

  -- `current_identity.get("size") != 0` and the rest of the identity
  unfoldable pub check_empty : Bytes → Option Dict → Method String
  check_empty token none s = (err source_gone, s)
  check_empty token (some current) s =
      if run.values.equals (lookup "size" current) (some (Json.int (pos 0)))
        && identities_match run.values (some (Json.obj (of_dict run.source_identity))) current
      then register_empty token (Options.◌>>=◌ (combine_chunk_macs lib [] run.aes_key) condense_mac)
          s
      else (err source_changed, s)

  -- `if not token`
  unfoldable pub with_token : Option Bytes → Method String
  with_token none s = (err no_token, s)
  with_token (some token) s =
      if is_empty token then (err no_token, s) else check_empty token run.current_identity s

  abbrev pub empty_result : String → Method UploadResult
  empty_result handle s =
      (ok (record { file_handle = handle; name = run.upload_name; size = 0 }), s)

  unfoldable pub upload_empty_file : Attempt → Option Json → Attempt → Method UploadResult
  upload_empty_file first slot second =
      post_at true first (request_upload_url run.slot) >>= λ answer.
      post_again second slot answer >>= λ token. with_token token >>= empty_result
