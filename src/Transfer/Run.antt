-- ===== src/Transfer/Run.antt =====
-- One download from its claimed destination to its result (`_run_claimed_download` of
-- src/megabasterd_cli/core/downloader.py), around the work of the workers.
pub mod Gate
pub mod Fresh
pub mod Whole
use mega_basterd_cli.Prelude.{
  ℕ, ◌+◌, ◌-◌, String, Bool, true, false, not, Option, none, some, List, [], ◌∷◌, length, replicate,
  keep_if, ltb, ◌==◌, if◌then◌else◌, Result, ok, err, Exec, ◌>>=◌, ◌>>◌,
}
use mega_basterd_cli.Json.{ℤ, Json, pos}
use mega_basterd_cli.Chunks.{Chunk}
use mega_basterd_cli.State.Hex.{Bytes, hex}
use mega_basterd_cli.State.Model.{
  TransferState, download, state_format_version, is_chunk_done, snapshot_state, Error,
}
use mega_basterd_cli.State.Store.{
  Disk, File, load_state, save_state, clear_state, unrecognized_state_version,
}
use mega_basterd_cli.Resuming.{Download, is_usable_download_state, is_of_size}
use mega_basterd_cli.Crypto.Primitives.{Primitives}
use mega_basterd_cli.Integrity.{verify_file_on_disk}
use mega_basterd_cli.Proxy.{ProxySelector}
use mega_basterd_cli.Transfer.Session.{Session, Fault}

-- TransferError, InsufficientDiskSpaceError, TransferCancelled and IntegrityError; `io_failed` is an
-- error of the calls that is not caught.
pub data Failure : Type 0 where
  other_version no_space chunk_failed cancelled incomplete integrity_failed io_failed : Failure

-- What a run is given and is answered. `existing` is the destination's contents; each `Disk` answers the
-- calls of one step.
pub record Run : Type 0 where
  pub target : Download
  pub mac_iv : List ℕ
  pub existing : Option Bytes
  pub free : ℕ
  pub cdn_url : String
  pub has_resolver : Bool
  pub selector : ProxySelector
  pub verify_integrity : Bool
  pub keep_state_files_on_error : Bool
  pub loading : Disk
  pub clearing : Disk
  pub saving : Disk
  -- the stop event, after the workers
  pub stopped : Bool

pub record DownloadResult : Type 0 where
  pub size : ℕ
  pub integrity_ok : Bool

abbrev pub Method : Type 0 → Type 0
Method A = Exec Failure Session A

-- A call on the state file
abbrev pub stored : Result Error (Unit {0}) × File → Method (Unit {0})
stored (ok u, f) s = (ok u, record s { saved = f })
stored (err e, f) s = (err io_failed, record s { saved = f })

abbrev pub fresh_state : Download → TransferState
fresh_state d = record {
  transfer_type = download;
  source = d.source;
  destination = d.destination;
  total_size = d.file_size;
  format_version = pos state_format_version;
  completed_chunks = [];
  chunk_macs = [];
  metadata = ("aes_key", Json.str (hex d.aes_key)) ∷ ("nonce", Json.str (hex d.nonce)) ∷ [];
  revision = 0;
}

abbrev pub sizes : List Chunk → ℕ
sizes [] = 0
sizes (c ∷ cs) = c.size + sizes cs

abbrev pub pending : TransferState → List Chunk → List Chunk
pending state cs = keep_if (λ c. not (is_chunk_done state c.index)) cs

abbrev pub finished : TransferState → List Chunk → List Chunk
finished state cs = keep_if (λ c. is_chunk_done state c.index) cs

module _ (run : Run) where
  -- The size of the destination, if there is one
  abbrev pub size_of : Option Bytes → Option ℕ
  size_of none = none
  size_of (some file) = some (length file)

  -- The new state, where the old one could be cleared
  unfoldable pub start_cleared :
      Result Error (Unit {0}) × File → Result Failure TransferState × File
  start_cleared (err e, f) = (err io_failed, f)
  start_cleared (ok u, f) = (ok (fresh_state run.target), f)

  unfoldable pub start_version :
      Result Error (Option ℤ) → File → Result Failure TransferState × File
  start_version (err e) f = (err io_failed, f)
  start_version (ok (some v)) f = (err other_version, f)
  start_version (ok none) f = start_cleared (clear_state run.clearing f)

  unfoldable pub start_fresh : File → Result Failure TransferState × File
  start_fresh f = start_version (unrecognized_state_version f) f

  unfoldable pub resume_or_fresh : Option TransferState → File → Result Failure TransferState × File
  resume_or_fresh none f = start_fresh f
  resume_or_fresh (some loaded) f =
      elim (is_usable_download_state (record run.target { size_on_disk = size_of run.existing })
        (some loaded)) [
          | none ↦ (err io_failed, f)
          | some true ↦ (ok loaded, f)
          | some false ↦ start_fresh f
        ]

  unfoldable pub load_or_fresh : File → Result Failure TransferState × File
  load_or_fresh f =
      if run.target.auto_resume
      then elim (load_state run.loading f).0 [
        | err e ↦ (err io_failed, (load_state run.loading f).1)
        | ok loaded ↦ resume_or_fresh loaded (load_state run.loading f).1
      ]
      else start_fresh f

  -- `destination.stat().st_size`, and 0 without a destination
  abbrev pub already : Option Bytes → ℕ
  already none = 0
  already (some file) = length file

  abbrev pub contents : Option Bytes → Bytes
  contents none = []
  contents (some file) = file

  -- The destination with its full size: as it is, or zeros.
  unfoldable pub preallocate : Option Bytes → Result Failure Bytes
  preallocate existing =
      if is_of_size (size_of existing) run.target.file_size
      then ok (contents existing)
      else if ltb run.free (run.target.file_size - already existing)
      then err no_space
      else ok (replicate run.target.file_size 0)

  unfoldable pub open_session : TransferState → File → Result Failure Bytes → Result Failure Session
  open_session state saved (err e) = err e
  open_session state saved (ok file) = ok (record {
    state = state;
    file = file;
    saved = saved;
    bytes_done = sizes (finished state run.target.all_chunks);
    chunks_done = length run.target.all_chunks - length (pending state run.target.all_chunks);
    selector = run.selector;
    cdn_url = run.cdn_url;
    generation = 0;
    has_resolver = run.has_resolver;
  })

  unfoldable pub prepare_with : Result Failure TransferState × File → Result Failure Session
  prepare_with (err e, f) = err e
  prepare_with (ok state, f) = open_session state f (preallocate run.existing)

  unfoldable pub prepare : File → Result Failure Session
  prepare f = prepare_with (load_or_fresh f)

  -- `save_state(snapshot_state(state))`
  unfoldable pub save_snapshot : Method (Unit {0})
  save_snapshot s =
      stored (save_state run.saving (snapshot_state s.state).0 s.saved)
        (record s { state = (snapshot_state s.state).1 })

  unfoldable pub save_again : Method (Unit {0})
  save_again s = stored (save_state run.saving s.state s.saved) s

  unfoldable pub discard_state : Method (Unit {0})
  discard_state s = stored (clear_state run.clearing s.saved) s

  abbrev pub fail : Failure → Method DownloadResult
  fail e s = (err e, s)

  -- `for chunk, fut in futures`, by the results of the workers
  unfoldable pub gather : List (Result Fault (Unit {0})) → Method (Unit {0})
  gather [] s = (ok tt, s)
  gather (ok u ∷ results) s = gather results s
  gather (err e ∷ results) s =
      ((if run.keep_state_files_on_error then save_snapshot else discard_state) >> λ t.
      (err chunk_failed, t))
        s

  unfoldable pub conclude : Method DownloadResult
  conclude =
      discard_state >> λ t. (ok (record { size = run.target.file_size; integrity_ok = true }), t)

  -- `integrity_ok`, and an exception of the check
  unfoldable pub by_verdict : Option Bool → Method DownloadResult
  by_verdict none s = (err io_failed, s)
  by_verdict (some true) s = conclude s
  by_verdict (some false) s =
      if run.keep_state_files_on_error
      then (err integrity_failed, s)
      else (discard_state >> fail integrity_failed) s

  unfoldable pub check_integrity : Primitives → Method DownloadResult
  check_integrity lib s =
      if run.verify_integrity
      then by_verdict
          (verify_file_on_disk lib run.target.aes_key run.target.nonce run.mac_iv
            run.target.all_chunks (some s.file))
          s
      else conclude s

  unfoldable pub by_missing : Primitives → List Chunk → Method DownloadResult
  by_missing lib [] s = check_integrity lib s
  by_missing lib (c ∷ cs) s =
      ((if run.keep_state_files_on_error then save_again else discard_state)
          >> fail (if run.stopped then cancelled else incomplete))
        s

  -- The gate: what is missing in the committed state decides.
  unfoldable pub check_coverage : Primitives → Method DownloadResult
  check_coverage lib s = by_missing lib (pending s.state run.target.all_chunks) s

  unfoldable pub finish : Primitives → List (Result Fault (Unit {0})) → Method DownloadResult
  finish lib results = gather results >> save_snapshot >> check_coverage lib
