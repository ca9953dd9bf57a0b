-- ===== src/Queue/Codec.antt =====
-- `QueueManager._serialize` and `_deserialize` (src/megabasterd_cli/queue/manager.py): a job as a
-- JSON object and back, unknown fields and sealed passwords included.
pub mod Entry
pub mod RoundTrip
pub mod Written
use mega_basterd_cli.Prelude.{
  ℕ, String, Bool, true, false, not, Option, none, some, List, [], ◌∷◌, ◌++◌, Result, ok, err, bind,
  keep_if, if◌then◌else◌, one_of, is_truthy,
}
use mega_basterd_cli.Json.{pos, Json, Dict, lookup, of_dict}
use mega_basterd_cli.Queue.Model.{
  Error, key_error, QueueItem, JobStatus, value, status_of, type_value, type_of,
}
use mega_basterd_cli.Queue.Platform.{Formats}

abbrev pub or_null : Option String → Json
or_null none = Json.null
or_null (some s) = Json.str s

-- The names that `_serialize` writes; a plain password is read and never written.
abbrev pub stored_fields : List String
stored_fields =
    "id" ∷ "type" ∷ "source" ∷ "destination" ∷ "size" ∷ "status" ∷ "error" ∷ "account"
    ∷ "created_iso" ∷ "finished_iso" ∷ "run_id" ∷ "heartbeat_iso" ∷ "lease_epoch" ∷ "enc_password"
    ∷ []

-- The names of the dataclass's fields, and the sealed password that `_deserialize` pops.
abbrev pub known_fields : List String
known_fields = "password" ∷ stored_fields

abbrev pub is_extra : String × Json → Bool
is_extra (k, v) = not (one_of k known_fields)

-- `data.setdefault(key, value)`
unfoldable pub set_default : String → Json → Dict → Dict
set_default k v d = elim (lookup k d) [ none ↦ d ++ (k, v) ∷ [] | some w ↦ d ]

unfoldable pub merge_extra : Dict → Dict → Dict
merge_extra d [] = d
merge_extra d ((k, v) ∷ ex) = merge_extra (set_default k v d) ex

-- `asdict(item)` less the password, with the sealed password behind it
abbrev pub known_part : QueueItem → Option String → Dict
known_part item sealed =
    ("id", Json.str item.id)
    ∷ ("type", Json.str (type_value item.type))
    ∷ ("source", Json.str item.source)
    ∷ ("destination", Json.str item.destination)
    ∷ ("size", Json.int (pos item.size))
    ∷ ("status", Json.str (value item.status))
    ∷ ("error", or_null item.error)
    ∷ ("account", or_null item.account)
    ∷ ("created_iso", or_null item.created_iso)
    ∷ ("finished_iso", or_null item.finished_iso)
    ∷ ("run_id", or_null item.run_id)
    ∷ ("heartbeat_iso", or_null item.heartbeat_iso)
    ∷ ("lease_epoch", Json.int (pos item.lease_epoch))
    ∷ ("enc_password", or_null sealed)
    ∷ []

unfoldable pub to_entry : QueueItem → Option String → Dict
to_entry item sealed = merge_extra (known_part item sealed) item.extra

abbrev truthy : Option String → Bool
truthy none = false
truthy (some s) = is_truthy s

module _ (env : Formats) where
  -- The value of "enc_password": `encrypt` may refuse to create a key.
  unfoldable pub seal : Bool → QueueItem → Result Error (Option String)
  seal had_secrets item = elim item.password [
    | none ↦ ok item.enc_password
    | some s ↦
        if is_truthy s
        then elim (env.encrypt s (not had_secrets)) [ none ↦ err key_error | some t ↦ ok (some t) ]
        else ok item.enc_password
  ]

  unfoldable pub serialize : Bool → QueueItem → Result Error Dict
  serialize had_secrets item = bind (seal had_secrets item) λ sealed. ok (to_entry item sealed)

  unfoldable pub serialize_all : Bool → List QueueItem → Result Error (List Json)
  serialize_all had_secrets [] = ok []
  serialize_all had_secrets (i ∷ is) =
      bind (serialize had_secrets i)
        λ d. bind (serialize_all had_secrets is) λ js. ok (Json.obj (of_dict d) ∷ js)

-- Reads of one field: `none` is the TypeError of the dataclass constructor, or a value that its
-- annotation excludes.
abbrev and_then : {A B : Type 0} → Option A → (A → Option B) → Option B
and_then none f = none
and_then (some a) f = f a

infixl 5 ◌>>=◌
abbrev ◌>>=◌ : {A B : Type 0} → Option A → (A → Option B) → Option B
m >>= f = and_then m f

abbrev pub read_text : Option Json → Option String
read_text (some (Json.str s)) = some s
read_text _ = none

abbrev pub read_optional : Option Json → Option (Option String)
read_optional none = some none
read_optional (some Json.null) = some none
read_optional (some (Json.str s)) = some (some s)
read_optional (some _) = none

abbrev pub read_count : Option Json → Option ℕ
read_count none = some 0
read_count (some (Json.int (pos n))) = some n
read_count (some _) = none

abbrev pub read_status : Option Json → Option JobStatus
read_status none = some JobStatus.pending
read_status (some (Json.str s)) = status_of s
read_status (some _) = none

-- The default of `created_iso` is "".
abbrev pub read_created : Option Json → Option (Option String)
read_created none = some (some "")
read_created j = read_optional j

module _ (env : Formats) where
  -- With no sealed password to open: a legacy plaintext asks for a migration.
  abbrev pub legacy_password : Option String → Option String → Option String × Option String × Bool
  legacy_password enc legacy = if truthy legacy then (legacy, enc, true) else (none, enc, false)

  -- The password and the sealed one that is carried on, and whether the file must be migrated.
  unfoldable pub unlock : Option String → Option String → Option String × Option String × Bool
  unlock none legacy = legacy_password none legacy
  unlock (some t) legacy =
      if is_truthy t
      then elim (env.decrypt t) [ none ↦ (none, some t, false) | some s ↦ (some s, none, false) ]
      else legacy_password (some t) legacy

  unfoldable pub deserialize : Dict → Option (QueueItem × Bool)
  deserialize d = do
    id ← read_text (lookup "id" d)
    type_text ← read_text (lookup "type" d)
    type ← type_of type_text
    source ← read_text (lookup "source" d)
    destination ← read_text (lookup "destination" d)
    size ← read_count (lookup "size" d)
    status ← read_status (lookup "status" d)
    error ← read_optional (lookup "error" d)
    account ← read_optional (lookup "account" d)
    enc ← read_optional (lookup "enc_password" d)
    legacy ← read_optional (lookup "password" d)
    created ← read_created (lookup "created_iso" d)
    finished ← read_optional (lookup "finished_iso" d)
    run ← read_optional (lookup "run_id" d)
    heartbeat ← read_optional (lookup "heartbeat_iso" d)
    epoch ← read_count (lookup "lease_epoch" d)
    let secret = unlock enc legacy
    some (
      record {
        id = id;
        type = type;
        source = source;
        destination = destination;
        size = size;
        status = status;
        error = error;
        account = account;
        password = secret.0;
        created_iso = created;
        finished_iso = finished;
        run_id = run;
        heartbeat_iso = heartbeat;
        lease_epoch = epoch;
        extra = keep_if is_extra d;
        enc_password = secret.1;
      },
      secret.2,
    )

  -- The items, and whether one of them asks for a migration.
  unfoldable pub deserialize_all : List Dict → Option (List QueueItem × Bool)
  deserialize_all [] = some ([], false)
  deserialize_all (d ∷ ds) = do
    first ← deserialize d
    rest ← deserialize_all ds
    some (first.0 ∷ rest.0, if first.1 then true else rest.1)
