-- ===== src/State/Store.antt =====
-- The `.mbstate` file (src/megabasterd_cli/core/state.py): load, quarantine, guard, flush, save, clear.
use mega_basterd_cli.Prelude.{
  ℕ, zero, suc, String, Bool, false, ◌&&◌, Option, none, some, List, [], ◌∷◌, ltb, ◌==◌,
  if◌then◌else◌, Result, ok, err, Exec, ◌||◌, ◌+◌,
}
use mega_basterd_cli.Json.{ℤ, pos, negsuc, Json, Dict, of_list, of_dict, to_dict, lookup}
use mega_basterd_cli.State.Model.{
  TransferState, TransferType, download, upload, Macs, Error, durability_error, os_error,
  json_error, state_format_version,
}
use mega_basterd_cli.State.Validate.{Texts, validate_state_dict}

-- The state file: missing, not readable, not JSON (a JSONDecodeError or a UnicodeDecodeError), a text on
-- which `json.loads` raises another exception (an integer that is too long, or too deep a nesting), or a
-- JSON document.
pub data File : Type 0 where
  absent unreadable garbage unparsed : File
  document : Json → File

pub data Opened : Type 0 where
  opened missing refused : Opened

pub data Replaced : Type 0 where
  replaced permission_denied failed : Replaced

-- What the file system and the other processes answer to one call.
pub record Disk : Type 0 where
  pub texts : Texts
  pub parent_made : Bool
  -- `os.open(destination, O_RDWR)`, and `os.fsync` of it
  pub opens : Opened
  pub fsync_succeeds : Bool
  pub lock_free : Bool
  -- the temporary file is written and flushed
  pub staged : Bool
  -- `os.replace`, by the attempt
  pub replace : ℕ → Replaced
  pub unlink_succeeds : Bool
  pub preserved : Bool

abbrev pub Method : Type 0 → Type 0
Method A = Exec Error File A

abbrev pub done : Method (Unit {0})
done f = (ok tt, f)

abbrev pub type_name : TransferType → String
type_name download = "download"
type_name upload = "upload"

abbrev pub mac_fields : Texts → Macs → Dict
mac_fields env [] = []
mac_fields env ((k, m) ∷ macs) = (env.print_int k, Json.str m) ∷ mac_fields env macs

abbrev pub chunk_numbers : List ℕ → List Json
chunk_numbers [] = []
chunk_numbers (k ∷ ks) = Json.int (pos k) ∷ chunk_numbers ks

-- `asdict(state)`, with its `chunk_macs` keys printed
abbrev pub fields_of : Texts → TransferState → Dict
fields_of env s =
    ("transfer_type", Json.str (type_name s.transfer_type))
    ∷ ("source", Json.str s.source)
    ∷ ("destination", Json.str s.destination)
    ∷ ("total_size", Json.int (pos s.total_size))
    ∷ ("format_version", Json.int s.format_version)
    ∷ ("completed_chunks", Json.arr (of_list (chunk_numbers s.completed_chunks)))
    ∷ ("chunk_macs", Json.obj (of_dict (mac_fields env s.chunk_macs)))
    ∷ ("metadata", Json.obj (of_dict s.metadata))
    ∷ ("revision", Json.int (pos s.revision))
    ∷ []

abbrev pub payload : Texts → TransferState → Json
payload env s = Json.obj (of_dict (fields_of env s))

-- `data.get(key)` where it is an `int` and no `bool`
abbrev pub int_at : String → Dict → Option ℤ
int_at k d = elim (lookup k d) [ some (Json.int n) ↦ some n | _ ↦ none ]

abbrev pub is_current : ℤ → Bool
is_current (pos n) = n == state_format_version
is_current (negsuc n) = false

abbrev pub is_newer : ℤ → Bool
is_newer (pos n) = ltb state_format_version n
is_newer (negsuc n) = false

-- `version != STATE_FORMAT_VERSION` for a version that is an `int`
abbrev pub version_of : Option ℤ → Option ℤ
version_of none = none
version_of (some v) = if is_current v then none else some v

unfoldable pub other_version : Json → Option ℤ
other_version (Json.obj fs) = version_of (int_at "format_version" (to_dict fs))
other_version _ = none

unfoldable pub unrecognized_state_version : File → Result Error (Option ℤ)
unrecognized_state_version (document j) = ok (other_version j)
unrecognized_state_version unparsed = err json_error
unrecognized_state_version _ = ok none

abbrev pub or_default : ℤ → Option ℤ → ℤ
or_default n none = n
or_default n (some m) = m

module _ (env : Disk) where
  -- `_quarantine_state`
  unfoldable pub quarantine_state : Method (Unit {0})
  quarantine_state f = (ok tt, if env.preserved && env.unlink_succeeds then absent else f)

  unfoldable pub load_validated : Option TransferState → Method (Option TransferState)
  load_validated (some s) f = (ok (some s), f)
  load_validated none f = (ok none, (quarantine_state f).1)

  -- A file of another format is left as it is.
  unfoldable pub load_document : Option ℤ → Json → Method (Option TransferState)
  load_document (some v) j f = (ok none, f)
  load_document none j f = load_validated (validate_state_dict env.texts j) f

  unfoldable pub load_state : Method (Option TransferState)
  load_state absent = (ok none, absent)
  load_state unreadable = (ok none, unreadable)
  load_state garbage = (ok none, (quarantine_state garbage).1)
  load_state unparsed = (err json_error, unparsed)
  load_state (document j) = load_document (other_version j) j (document j)

  abbrev permissive : ℤ × ℤ
  permissive = (pos state_format_version, negsuc 0)

  unfoldable pub guard_of : ℤ → ℤ → Json → ℤ × ℤ
  guard_of version revision j =
      if is_newer version then (version, revision) else elim (validate_state_dict env.texts j) [
        | none ↦ permissive
        | some s ↦ (version, revision)
      ]

  -- `_disk_guard`
  unfoldable pub disk_guard : File → Result Error (ℤ × ℤ)
  disk_guard (document (Json.obj fs)) = ok (
      guard_of (or_default (pos state_format_version) (int_at "format_version" (to_dict fs)))
        (or_default (pos 0) (int_at "revision" (to_dict fs))) (Json.obj fs))
  disk_guard unparsed = err json_error
  disk_guard _ = ok permissive

  abbrev pub flush_opened : TransferState → Opened → Result Error (Unit {0})
  flush_opened s opened = if env.fsync_succeeds then ok tt else err durability_error
  flush_opened s missing = elim s.completed_chunks [ [] ↦ ok tt | k ∷ ks ↦ err durability_error ]
  flush_opened s refused = err durability_error

  -- `_flush_transferred_data`
  unfoldable pub flush_transferred_data : TransferState → Result Error (Unit {0})
  flush_transferred_data s = elim s.transfer_type [
    | upload ↦ ok tt
    | download ↦ flush_opened s env.opens
  ]

  -- `for attempt in range(5)`, by the attempts that are left
  unfoldable pub replace_file : ℕ → ℕ → Json → Method (Unit {0})
  replace_file attempt zero j f = (err os_error, f)
  replace_file attempt (suc left) j f =
      let again = replace_file (attempt + 1) left j f in
      elim (env.replace attempt) [
        | replaced ↦ (ok tt, document j)
        | permission_denied ↦ again
        | failed ↦ (err os_error, f)
      ]

  abbrev pub is_stale : TransferState → ℤ × ℤ → Bool
  is_stale s (v, pos r) = is_newer v || ltb s.revision r
  is_stale s (v, negsuc r) = is_newer v

  -- With the guard that the file sets, or its exception
  unfoldable pub commit_against : TransferState → Result Error (ℤ × ℤ) → Method (Unit {0})
  commit_against s (err e) f = (err e, f)
  commit_against s (ok guard) f =
      if is_stale s guard
      then (ok tt, f)
      else if env.staged
      then replace_file 0 5 (payload env.texts s) f
      else (err os_error, f)

  -- The body of `save_state` under the file lock.
  unfoldable pub commit : TransferState → Method (Unit {0})
  commit s f = commit_against s (disk_guard f) f

  abbrev pub flushed : TransferState → Result Error (Unit {0}) → Method (Unit {0})
  flushed s (err e) f = (err e, f)
  flushed s (ok u) f = if env.lock_free then commit s f else (ok tt, f)

  unfoldable pub save_state : TransferState → Method (Unit {0})
  save_state s f =
      if env.parent_made then flushed s (flush_transferred_data s) f else (err os_error, f)

  abbrev unlinked : Method (Unit {0})
  unlinked absent = (ok tt, absent)
  unlinked f = if env.unlink_succeeds then (ok tt, absent) else (err os_error, f)

  unfoldable pub clear_against : Result Error (ℤ × ℤ) → Method (Unit {0})
  clear_against (err e) f = (err e, f)
  clear_against (ok (version, revision)) f = if is_newer version then (ok tt, f) else unlinked f

  unfoldable pub clear_state : Method (Unit {0})
  clear_state f = if env.lock_free then clear_against (disk_guard f) f else (ok tt, f)
