-- ===== src/Stream/Serve.antt =====
-- `do_GET` and `_open_upstream` (src/megabasterd_cli/streaming/server.py), after the access check.
use mega_basterd_cli.Prelude.{
  ℕ, ◌+◌, ◌-◌, ◌*◌, ◌/◌, String, Bool, not, ◌||◌, Option, none, some, List, [], ◌∷◌, ◌==◌,
  if◌then◌else◌, Result, ok, err,
}
use mega_basterd_cli.Json.{ℤ}
use mega_basterd_cli.State.Hex.{Bytes}
use mega_basterd_cli.Crypto.Primitives.{Primitives}
use mega_basterd_cli.Proxy.{
  Moment, ProxySelector, Selected, select, selector_report_failure, selector_report_success,
}
use mega_basterd_cli.RangeReply.{Headers, RangeNotHonored, validate_range_response}
use mega_basterd_cli.Transfer.Fetch.{is_expired}
use mega_basterd_cli.Stream.Range.{Refusal, malformed, unsatisfiable, ByteRange, parse_range}
use mega_basterd_cli.Stream.Pump.{Pumped, pump}

pub record Source : Type 0 where
  pub size : ℕ
  pub aes_key : Bytes
  pub nonce : Bytes

-- `requests.get`, and the blocks of the body with whether it came whole
pub data Reply : Type 0 where
  lost : Reply
  answered : ℕ → Headers → List Bytes → Bool → Reply

-- One request to the CDN, which answers by the first and the last byte, and `refresh_cdn_url` after it
pub record Upstream : Type 0 where
  pub moment : Moment
  pub reply : ℕ → ℕ → Reply
  pub refreshes : Bool

-- Python's `int` of the texts of the client's and of the CDN's headers
pub record Ints : Type 0 where
  pub of_range : List ℕ → Option ℤ
  pub of_length : String → Option ℤ

-- The status, `Content-Range` (without a range where it is refused), `Content-Length`, and the body of a
-- file that is served.
pub record Answer : Type 0 where
  pub status : ℕ
  pub content_range : Option (Option (ℕ × ℕ) × ℕ)
  pub content_length : Option ℕ
  pub served : Option Pumped

abbrev pub refused : ℕ → Answer
refused status = record {
  status = status;
  content_range = none;
  content_length = none;
  served = none;
}

-- `none` is the answer 502.
abbrev pub Opened : Type 0
Opened = Option (List Bytes × Bool)

abbrev pub Method : Type 0 → Type 0
Method A = ProxySelector → A × ProxySelector

module _ (lib : Primitives) (ints : Ints) (source : Source) where
  abbrev pub give_up : Upstream → Option String → Method Opened
  give_up up picked s = (none, selector_report_failure up.moment.now picked s)

  unfoldable pub take_checked :
      Upstream
      → Option String
      → List Bytes
      → Bool
      → Result RangeNotHonored (Unit {0})
      → Method Opened
  take_checked up picked blocks whole (err e) s = give_up up picked s
  take_checked up picked blocks whole (ok u) s =
      (some (blocks, whole), selector_report_success picked s)

  -- The answer of an attempt, where the URL has not expired
  unfoldable pub take_answer :
      Upstream → ℕ → ℕ → Option String → ℕ → Headers → List Bytes → Bool → Method Opened
  take_answer up start stop picked status headers blocks whole s =
      if not (status == 200 || status == 206)
      then give_up up picked s
      else take_checked up picked blocks whole
          (validate_range_response ints.of_length status headers start stop source.size) s

  unfoldable pub last_reply : Upstream → ℕ → ℕ → Option String → Reply → Method Opened
  last_reply up start stop picked lost s = give_up up picked s
  last_reply up start stop picked (answered status headers blocks whole) s =
      take_answer up start stop picked status headers blocks whole s

  unfoldable pub last_proxy : Upstream → ℕ → ℕ → Selected → Method Opened
  last_proxy up start stop (err e) s = (none, s)
  last_proxy up start stop (ok (proxies, picked)) s =
      last_reply up start stop picked (up.reply start stop) s

  unfoldable pub last_attempt : Upstream → ℕ → ℕ → Method Opened
  last_attempt up start stop s =
      last_proxy up start stop (select up.moment s).0 (select up.moment s).1

  unfoldable pub first_reply : Upstream → Upstream → ℕ → ℕ → Option String → Reply → Method Opened
  first_reply up next start stop picked lost s = give_up up picked s
  first_reply up next start stop picked (answered status headers blocks whole) s =
      if is_expired status
      then if up.refreshes then last_attempt next start stop s else (none, s)
      else take_answer up start stop picked status headers blocks whole s

  unfoldable pub first_proxy : Upstream → Upstream → ℕ → ℕ → Selected → Method Opened
  first_proxy up next start stop (err e) s = (none, s)
  first_proxy up next start stop (ok (proxies, picked)) s =
      first_reply up next start stop picked (up.reply start stop) s

  -- Two attempts, the second after a refresh of the URL
  unfoldable pub open_upstream : Upstream → Upstream → ℕ → ℕ → Method Opened
  open_upstream up next start stop s =
      first_proxy up next start stop (select up.moment s).0 (select up.moment s).1

  abbrev pub block_start : ℕ → ℕ
  block_start start = start / 16 * 16

  -- The headers and the body of the answer
  unfoldable pub send : (ℕ → Bool) → ByteRange → Opened → Answer
  send accepts (start, stop, partial) none = refused 502
  send accepts (start, stop, partial) (some (blocks, whole)) = record {
    status = if partial then 206 else 200;
    content_range = if partial then some (some (start, stop), source.size) else none;
    content_length = some (stop - start + 1);
    served = some (
        pump lib source.aes_key source.nonce (block_start start / 16) accepts (stop - start + 1)
          blocks whole (record { seen = []; block_skip = start - block_start start; sent = [] }));
  }

  unfoldable pub serve_range :
      Upstream → Upstream → (ℕ → Bool) → Result Refusal ByteRange → Method Answer
  serve_range up next accepts (err malformed) s = (refused 400, s)
  serve_range up next accepts (err unsatisfiable) s =
      (record (refused 416) { content_range = some (none, source.size) }, s)
  serve_range up next accepts (ok (start, stop, partial)) s =
      let opened = open_upstream up next (block_start start) stop s in
      (send accepts (start, stop, partial) opened.0, opened.1)

  -- A file without bytes
  unfoldable pub serve_empty : List ℕ → Answer
  serve_empty [] = record (refused 200) { content_length = some 0 }
  serve_empty (c ∷ header) = record (refused 416) {
    content_range = some (none, 0);
    content_length = some 0;
  }

  unfoldable pub do_get : Upstream → Upstream → (ℕ → Bool) → List ℕ → Method Answer
  do_get up next accepts header s =
      if source.size == 0
      then (serve_empty header, s)
      else serve_range up next accepts (parse_range ints.of_range source.size header) s
