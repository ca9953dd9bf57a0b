-- ===== src/Transfer/Session.antt =====
-- What the workers of a download share (`MegaDownloader` of src/megabasterd_cli/core/downloader.py), and
-- what one attempt takes from outside.
use mega_basterd_cli.Prelude.Slices.{overwrite}
use mega_basterd_cli.Prelude.{
  ℕ, ◌+◌, ◌-◌, String, Bool, Option, none, some, List, ◌++◌, length, replicate, ◌==◌, if◌then◌else◌,
  ok, err, Exec,
}
use mega_basterd_cli.State.Hex.{Bytes}
use mega_basterd_cli.State.Model.{TransferState}
use mega_basterd_cli.State.Store.{File, Disk}
use mega_basterd_cli.RangeReply.{Headers}
use mega_basterd_cli.Proxy.{Moment, ProxySelector}

-- Exceptions: those that `_is_transient_chunk_failure` allows, those it does not, and the errors of
-- the code that a chunk calls.
pub data Fault : Type 0 where
  cdn_url_expired retryable connection_error request_failed : Fault
  non_retryable proxy_required no_resolver resolver_failed value_error write_failed state_failed :
      Fault

-- A `ConnectionError` or a `Timeout` of `requests`, or another of its exceptions, such as
-- `ChunkedEncodingError`
pub data Break : Type 0 where
  dropped other : Break

-- `requests.get`, which may raise, and the blocks of the body with what raised behind them
pub data Reply : Type 0 where
  lost : Break → Reply
  answered : ℕ → Headers → List Bytes → Option Break → Reply

pub record Attempt : Type 0 where
  pub moment : Moment
  pub disk : Disk
  -- the stop event, at the start and before the block of this number
  pub stopped : Bool
  pub stopped_at : ℕ → Bool
  pub reply : Reply
  -- the resolver's answer; `none` is its exception
  pub fresh_url : Option String
  pub write_succeeds : Bool

pub record Session : Type 0 where
  pub state : TransferState
  -- the destination's bytes, and the state file
  pub file : Bytes
  pub saved : File
  pub bytes_done : ℕ
  pub chunks_done : ℕ
  pub selector : ProxySelector
  pub cdn_url : String
  pub generation : ℕ
  pub has_resolver : Bool

abbrev pub Method : Type 0 → Type 0
Method A = Exec Fault Session A

-- `_refresh_url`, with the test under the second lock
unfoldable pub refresh_url : Attempt → ℕ → Method String
refresh_url env seen s =
    if s.generation == seen
    then if s.has_resolver
      then elim env.fresh_url [
        | none ↦ (err resolver_failed, s)
        | some url ↦ (ok url, record s { cdn_url = url; generation = s.generation + 1 })
      ]
      else (err no_resolver, s)
    else (ok s.cdn_url, s)

-- `f.seek(offset)` and `f.write(plaintext)`: a gap before the offset is filled with zeros.
unfoldable pub write_at : ℕ → Bytes → Bytes → Bytes
write_at offset plaintext file =
    overwrite offset plaintext (file ++ replicate (offset - length file) 0)
