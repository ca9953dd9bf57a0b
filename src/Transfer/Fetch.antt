-- ===== src/Transfer/Fetch.antt =====
-- `fetch_chunk` (src/megabasterd_cli/core/download_transport.py): one attempt at one chunk.
use mega_basterd_cli.Crypto.Primitives.{Primitives}
use mega_basterd_cli.Prelude.{
  ℕ, ◌+◌, ◌-◌, ◌/◌, ◌%◌, String, Bool, not, ◌||◌, Option, none, some, List, [], ◌∷◌, ◌++◌, length,
  ltb, leb, ◌==◌, if◌then◌else◌, Result, ok, err, ◌&&◌, ◌>>◌,
}
use mega_basterd_cli.Chunks.{Chunk}
use mega_basterd_cli.State.Hex.{Bytes}
use mega_basterd_cli.State.Model.{Error, mark_chunk_done, snapshot_state, TransferState}
use mega_basterd_cli.State.Store.{save_state, File}
use mega_basterd_cli.RangeReply.{Headers, validate_range_response}
use mega_basterd_cli.Proxy.{Selected, select, selector_report_failure, selector_report_success}
use mega_basterd_cli.Crypto.Mac.{chunk_mac}
use mega_basterd_cli.Transfer.Session.{
  Fault, cdn_url_expired, retryable, connection_error, request_failed, Break, dropped, other,
  non_retryable, proxy_required, value_error, write_failed, state_failed, Reply, lost, answered,
  Attempt, Session, Method, refresh_url, write_at,
}

-- `URL_EXPIRY_STATUS`
abbrev pub is_expired : ℕ → Bool
is_expired status = status == 403 || status == 410 || status == 509

-- The body that was read, or what ended the reading.
pub data Body : Type 0 where
  full : Bytes → Body
  stopped too_long : Body
  broken : Break → Body

-- `none` is the ValueError.
unfoldable pub ctr_offset_to_counter : ℕ → Option ℕ
ctr_offset_to_counter offset = if offset % 16 == 0 then some (offset / 16) else none

module _ (lib : Primitives) (env : Attempt) where
  -- `for block in resp.iter_content(...)`, from the block of this number
  unfoldable pub read_blocks : ℕ → ℕ → Bytes → List Bytes → Option Break → Body
  read_blocks size i encrypted [] none = full encrypted
  read_blocks size i encrypted [] (some b) = broken b
  read_blocks size i encrypted (block ∷ blocks) end =
      let rest = read_blocks size (i + 1) (encrypted ++ block) blocks end in
      if env.stopped_at i
      then stopped
      else if ltb size (length encrypted + length block)
      then too_long
      else rest

  abbrev pub report_failure : Option String → Session → Session
  report_failure picked s = record s {
    selector = selector_report_failure env.moment.now picked s.selector;
  }

  abbrev pub report_success : Option String → Session → Session
  report_success picked s = record s { selector = selector_report_success picked s.selector }

  -- `_selector.report_failure(picked_proxy)` and an exception
  abbrev pub fails : Option String → Fault → Method (Unit {0})
  fails picked fault s = (err fault, report_failure picked s)

  -- `except (requests.ConnectionError, requests.Timeout)`
  abbrev pub breaks : Option String → Break → Method (Unit {0})
  breaks picked dropped s = fails picked connection_error s
  breaks picked other s = (err request_failed, s)

  unfoldable pub saved_session :
      Option String → TransferState → Result Error (Unit {0}) × File → Method (Unit {0})
  saved_session picked live (ok u, saved) s =
      (ok tt, report_success picked (record s { state = live; saved = saved }))
  saved_session picked live (err e, saved) s =
      (err state_failed, record s { state = live; saved = saved })

  -- Every sixteenth chunk saves a snapshot, whose revision the live state has claimed.
  unfoldable pub save_periodically : Option String → Method (Unit {0})
  save_periodically picked s =
      if s.chunks_done % 16 == 0
      then saved_session picked (snapshot_state s.state).1
          (save_state env.disk (snapshot_state s.state).0 s.saved) s
      else (ok tt, report_success picked s)

  -- Under the lock, when the plaintext is written
  unfoldable pub commit_chunk : Chunk → Bytes → Option String → Method (Unit {0})
  commit_chunk c mac picked s = elim (mark_chunk_done s.state c.index (some mac)) [
    | err e ↦ (err value_error, s)
    | ok state ↦ save_periodically picked (record s {
      state = state;
      bytes_done = s.bytes_done + c.size;
      chunks_done = s.chunks_done + 1;
    })
  ]

  unfoldable pub write_chunk : Chunk → Bytes → Bytes → Option String → Method (Unit {0})
  write_chunk c plaintext mac picked s =
      if env.write_succeeds
      then commit_chunk c mac picked (record s { file = write_at c.offset plaintext s.file })
      else (err write_failed, s)

  unfoldable pub write_mac : Chunk → Bytes → Option String → Option Bytes → Method (Unit {0})
  write_mac c plaintext picked none s = (err value_error, s)
  write_mac c plaintext picked (some mac) s = write_chunk c plaintext mac picked s

  unfoldable pub decrypt_chunk :
      Chunk → Bytes → Bytes → Bytes → Option String → Option ℕ → Method (Unit {0})
  decrypt_chunk c key nonce encrypted picked none s = (err value_error, s)
  decrypt_chunk c key nonce encrypted picked (some counter) s =
      if length key == 16 && length nonce == 8
      then write_mac c (lib.ctr_decrypt key nonce counter encrypted) picked
          (chunk_mac lib (lib.ctr_decrypt key nonce counter encrypted) key nonce) s
      else (err value_error, s)

  unfoldable pub take_body : Chunk → Bytes → Bytes → Option String → Body → Method (Unit {0})
  take_body c key nonce picked stopped s = (ok tt, s)
  take_body c key nonce picked too_long s = fails picked non_retryable s
  take_body c key nonce picked (broken b) s = breaks picked b s
  take_body c key nonce picked (full encrypted) s =
      if length encrypted == c.size
      then decrypt_chunk c key nonce encrypted picked (ctr_offset_to_counter c.offset) s
      else fails picked non_retryable s

  unfoldable pub take_status : Chunk → ℕ → Headers → ℕ → Option String → Method (Unit {0})
  take_status c status headers seen picked s =
      if is_expired status
      then (
        err (elim (refresh_url env seen s).0 [ ok u ↦ cdn_url_expired | err e ↦ e ]),
        (refresh_url env seen s).1,
      )
      else if not (status == 200 || status == 206)
      then fails picked (if leb 500 status then retryable else non_retryable) s
      else elim (validate_range_response env.disk.texts.parse_int status headers c.offset
          (c.offset + c.size - 1) s.state.total_size) [
            | err e ↦ fails picked non_retryable s
            | ok u ↦ (ok tt, s)
          ]

  unfoldable pub take_reply : Chunk → Bytes → Bytes → ℕ → Option String → Reply → Method (Unit {0})
  take_reply c key nonce seen picked (lost b) = breaks picked b
  take_reply c key nonce seen picked (answered status headers blocks end) =
      take_status c status headers seen picked
      >> take_body c key nonce picked (read_blocks c.size 0 [] blocks end)

  unfoldable pub with_proxy : Chunk → Bytes → Bytes → ℕ → Selected → Method (Unit {0})
  with_proxy c key nonce seen (err e) s = (err proxy_required, s)
  with_proxy c key nonce seen (ok (proxies, picked)) s =
      take_reply c key nonce seen picked env.reply s

  unfoldable pub fetch_chunk : Chunk → Bytes → Bytes → Method (Unit {0})
  fetch_chunk c key nonce s =
      if env.stopped
      then (ok tt, s)
      else with_proxy c key nonce s.generation (select env.moment s.selector).0
          (record s { selector = (select env.moment s.selector).1 })
