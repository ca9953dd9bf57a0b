-- ===== src/Upload/Post.antt =====
-- `upload_chunk` (src/megabasterd_cli/core/upload_transport.py): one attempt at one chunk.
use mega_basterd_cli.Prelude.{
  ℕ, ◌+◌, ◌%◌, String, Bool, true, false, not, ◌||◌, ◌&&◌, Option, none, some, List, [], ◌∷◌, ◌++◌,
  length, ltb, leb, ◌==◌, if◌then◌else◌, Result, ok, err,
}
use mega_basterd_cli.Chunks.{Chunk}
use mega_basterd_cli.Json.{Json}
use mega_basterd_cli.State.Hex.{Bytes, hex}
use mega_basterd_cli.State.Model.{Error, TransferState, mark_chunk_done, snapshot_state}
use mega_basterd_cli.State.Store.{save_state, File}
use mega_basterd_cli.Proxy.{Selected, select, selector_report_failure, selector_report_success}
use mega_basterd_cli.Crypto.Primitives.{Primitives}
use mega_basterd_cli.Crypto.Mac.{chunk_mac}
use mega_basterd_cli.Integrity.{piece}
use mega_basterd_cli.Transfer.Fetch.{ctr_offset_to_counter}
use mega_basterd_cli.Upload.Session.{
  Fault, connection_error, retryable, url_expired, non_retryable, proxy_required, value_error,
  state_failed, Reply, lost, answered, Attempt, Session, Method, set_item,
}

-- `UPLOAD_URL_EXPIRY_STATUS`
abbrev pub is_retired : ℕ → Bool
is_retired status = status == 403 || status == 404 || status == 410 || status == 509

abbrev pub max_upload_response_bytes : ℕ
max_upload_response_bytes = 4096

abbrev pub is_final_chunk : Chunk → ℕ → Bool
is_final_chunk c total_size = leb total_size (c.offset + c.size)

abbrev pub is_empty : Bytes → Bool
is_empty [] = true
is_empty (b ∷ bs) = false

-- `read_bounded_bytes` of a body, from the bytes that are read
unfoldable pub read_bounded_bytes : ℕ → Bytes → List Bytes → Bool → Result Fault Bytes
read_bounded_bytes limit body [] whole = if whole then ok body else err connection_error
read_bounded_bytes limit body (block ∷ blocks) whole =
    let rest = read_bounded_bytes limit (body ++ block) blocks whole in
    if ltb limit (length body + length block) then err non_retryable else rest

-- The body against the place of the chunk
unfoldable pub check_body : Bool → Result Fault Bytes → Result Fault Bytes
check_body final (err e) = err e
check_body final (ok body) =
    if (not (is_empty body) && not final) || (final && is_empty body)
    then err non_retryable
    else ok body

-- `not self._completion_token`
abbrev pub lacks_token : Option Bytes → Bool
lacks_token none = true
lacks_token (some t) = is_empty t

abbrev pub record_token : Bytes → Session → Session
record_token body s =
    if not (is_empty body) && lacks_token s.completion_token
    then record s {
      completion_token = some body;
      state = record s.state {
        metadata = set_item "completion_token" (Json.str (hex body)) s.state.metadata;
      };
    }
    else s

module _ (lib : Primitives) (env : Attempt) where
  abbrev pub report_failure : Option String → Session → Session
  report_failure picked s = record s {
    selector = selector_report_failure env.moment.now picked s.selector;
  }

  abbrev pub report_success : Option String → Session → Session
  report_success picked s = record s { selector = selector_report_success picked s.selector }

  abbrev pub fails : Option String → Fault → Method (Unit {0})
  fails picked fault s = (err fault, report_failure picked s)

  -- `save_state(snapshot_state(state))`
  abbrev pub saved_session : TransferState → Result Error (Unit {0}) × File → Method (Unit {0})
  saved_session live (ok u, saved) s = (ok tt, record s { state = live; saved = saved })
  saved_session live (err e, saved) s = (err state_failed, record s { state = live; saved = saved })

  unfoldable pub save_periodically : Bytes → Method (Unit {0})
  save_periodically body s =
      if s.chunks_done % 8 == 0 || not (is_empty body)
      then saved_session (snapshot_state s.state).1
          (save_state env.disk (snapshot_state s.state).0 s.saved) s
      else (ok tt, s)

  unfoldable pub commit_chunk : Chunk → Bytes → Bytes → Method (Unit {0})
  commit_chunk c mac body s = elim (mark_chunk_done s.state c.index (some mac)) [
    | err e ↦ (err value_error, s)
    | ok state ↦ save_periodically body (
        record_token body (record s {
          state = state;
          bytes_done = s.bytes_done + c.size;
          chunks_done = s.chunks_done + 1;
        }))
  ]

  -- The endpoint has answered the chunk with 200 and this body.
  abbrev pub deliver : Chunk → Bytes → Bytes → Session → Session
  deliver c encrypted token s = record s {
    delivered =
        record { url = s.upload_url; offset = c.offset; encrypted = encrypted; token = token }
        ∷ s.delivered;
  }

  unfoldable pub take_body :
      Chunk → Bytes → Bytes → Option String → Result Fault Bytes → Method (Unit {0})
  take_body c mac encrypted picked (err e) s = fails picked e s
  take_body c mac encrypted picked (ok body) s =
      commit_chunk c mac body (report_success picked (deliver c encrypted body s))

  unfoldable pub take_reply : Chunk → Bytes → Bytes → Option String → Reply → Method (Unit {0})
  take_reply c mac encrypted picked lost s = fails picked connection_error s
  take_reply c mac encrypted picked (answered status blocks whole) s =
      if is_retired status
      then (err url_expired, s)
      else if not (status == 200)
      then fails picked (if leb 500 status then retryable else non_retryable) s
      else take_body c mac encrypted picked
          (check_body (is_final_chunk c s.state.total_size)
            (read_bounded_bytes max_upload_response_bytes [] blocks whole))
          s

  unfoldable pub with_proxy : Chunk → Bytes → Bytes → Selected → Method (Unit {0})
  with_proxy c mac encrypted (err e) s = (err proxy_required, s)
  with_proxy c mac encrypted (ok (proxies, picked)) s =
      take_reply c mac encrypted picked env.reply s

  -- `requests.post`, after the choice of a proxy
  unfoldable pub post_chunk : Chunk → Bytes → Bytes → Method (Unit {0})
  post_chunk c mac encrypted s =
      with_proxy c mac encrypted (select env.moment s.selector).0
        (record s { selector = (select env.moment s.selector).1 })

  unfoldable pub encrypt_chunk :
      Chunk → Bytes → Bytes → Bytes → Option Bytes → Option ℕ → Method (Unit {0})
  encrypt_chunk c key nonce plaintext none counter s = (err value_error, s)
  encrypt_chunk c key nonce plaintext (some mac) none s = (err value_error, s)
  encrypt_chunk c key nonce plaintext (some mac) (some counter) s =
      if length key == 16 && length nonce == 8
      then post_chunk c mac (lib.ctr_encrypt key nonce counter plaintext) s
      else (err value_error, s)

  unfoldable pub upload_chunk : Chunk → Bytes → Bytes → Method (Unit {0})
  upload_chunk c key nonce s =
      if env.stopped
      then (ok tt, s)
      else if length (piece env.source c) == c.size
      then encrypt_chunk c key nonce (piece env.source c)
          (chunk_mac lib (piece env.source c) key nonce) (ctr_offset_to_counter c.offset) s
      else (err non_retryable, s)
