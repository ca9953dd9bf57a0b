-- ===== src/Queue/Model.antt =====
-- The queue's job model (src/megabasterd_cli/queue/models.py) and its exceptions (queue/errors.py).
use mega_basterd_cli.Prelude.{
  ℕ, String, Bool, true, false, Option, none, some, if◌then◌else◌, str_eq,
}
use mega_basterd_cli.Json.{Dict}

-- Why a queue file is refused; the source puts the reason into the message.
pub data Reason : Type 0 where
  unreadable not_json not_a_list not_an_object blank_id blank_source unknown_type : Reason
  unknown_status bad_size bad_epoch not_base64 duplicate_id not_loadable : Reason
  missing wrong_type bad_timestamp foreign_lease foreign_finish : String → Reason

-- `type_error` is the TypeError of subtracting a naive datetime; `os_error` a failed write.
pub data Error : Type 0 where
  lock_error ownership_error key_error type_error os_error : Error
  corruption_error : Reason → Error

pub data JobStatus : Type 0 where
  pending active done failed canceled interrupted : JobStatus

pub data JobType : Type 0 where
  download upload : JobType

unfoldable pub value : JobStatus → String
value pending = "pending"
value active = "active"
value done = "done"
value failed = "failed"
value canceled = "canceled"
value interrupted = "interrupted"

-- `JobStatus(text)`, for the texts that are the value of a member
unfoldable pub status_of : String → Option JobStatus
status_of s =
    if str_eq s "pending"
    then some pending
    else if str_eq s "active"
    then some active
    else if str_eq s "done"
    then some done
    else if str_eq s "failed"
    then some failed
    else if str_eq s "canceled"
    then some canceled
    else if str_eq s "interrupted"
    then some interrupted
    else none

unfoldable pub type_value : JobType → String
type_value download = "download"
type_value upload = "upload"

unfoldable pub type_of : String → Option JobType
type_of s =
    if str_eq s "download" then some download else if str_eq s "upload" then some upload else none

abbrev pub lease_seconds : ℕ
lease_seconds = 300

abbrev pub is_active : JobStatus → Bool
is_active active = true
is_active _ = false

-- `status in _TERMINAL_STATUSES`
abbrev pub is_terminal : JobStatus → Bool
is_terminal done = true
is_terminal failed = true
is_terminal canceled = true
is_terminal _ = false

-- `size` and `lease_epoch` are `int`s that the schema keeps at 0 or above. `created_iso` is an
-- Option, since a file may hold null for it.
pub record QueueItem : Type 0 where
  pub id : String
  pub type : JobType
  pub source : String
  pub destination : String
  pub size : ℕ
  pub status : JobStatus
  pub error : Option String
  pub account : Option String
  pub password : Option String
  pub created_iso : Option String
  pub finished_iso : Option String
  pub run_id : Option String
  pub heartbeat_iso : Option String
  pub lease_epoch : ℕ
  pub extra : Dict
  pub enc_password : Option String
