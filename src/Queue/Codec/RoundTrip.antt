-- ===== src/Queue/Codec/RoundTrip.antt =====
-- A job that is written is read back as it was, and passes the checks of the schema.
use mega_basterd_cli.Prelude.{
  String, Bool, true, false, not, Option, none, some, ◌++◌, ◌≡◌, refl, arith, ok, is_blank,
  is_truthy,
}
use mega_basterd_cli.Json.{Dict, lookup}
use mega_basterd_cli.Queue.Model.{
  Reason, unknown_type, QueueItem, JobStatus, JobType, is_active, is_terminal, value, status_of,
  type_value, type_of,
}
use mega_basterd_cli.Queue.Platform.{Formats}
use mega_basterd_cli.Queue.Schema.{
  validate_iso_timestamp, problem, lease_check, finish_check, base64_check, check_required,
  check_optional, check_timestamps, optional_check, status_check, status_at, text_at,
  timestamp_fields, ◌then_check◌, optional_fields,
}
use mega_basterd_cli.Queue.Codec.{
  or_null, read_optional, known_part, to_entry, seal, unlock, deserialize,
}
use mega_basterd_cli.Queue.Codec.Entry.{IsExtra, to_entry-append, extra-password, extra-keep_if}

status_of-value : (st : JobStatus) → status_of (value st) ≡ some st
unfolding status_of value
status_of-value JobStatus.pending = refl
status_of-value _ = refl

type_of-type_value : (t : JobType) → type_of (type_value t) ≡ some t
unfolding type_of type_value
type_of-type_value JobType.download = refl
type_of-type_value _ = refl

-- A sealed password that stays sealed: there is none, or it cannot be opened.
abbrev pub StaysSealed : Formats → Option String → Type 0
StaysSealed env none = Unit
StaysSealed env (some t) = (env.is_base64 t ≡ true) × (env.decrypt t ≡ none)

abbrev pub IsSecret : Formats → Option String → Option String → Type 0
IsSecret env none enc = StaysSealed env enc
IsSecret env (some s) enc = (is_truthy s ≡ true) × (enc ≡ none)

-- A job that the manager may write.
pub record IsStorable (env : Formats) (i : QueueItem) : Type 0 where
  pub id : is_blank i.id ≡ false
  pub source : is_blank i.source ≡ false
  pub created : validate_iso_timestamp env "created_iso" (or_null i.created_iso) ≡ none
  pub finished : validate_iso_timestamp env "finished_iso" (or_null i.finished_iso) ≡ none
  pub heartbeat : validate_iso_timestamp env "heartbeat_iso" (or_null i.heartbeat_iso) ≡ none
  pub run_leased : is_active i.status ≡ false → i.run_id ≡ none
  pub beat_leased : is_active i.status ≡ false → i.heartbeat_iso ≡ none
  pub unfinished : is_terminal i.status ≡ false → i.finished_iso ≡ none
  pub secret : IsSecret env i.password i.enc_password
  pub extra : IsExtra i.extra

-- The secret box: what it seals is not empty, is base64, and opens to the same text.
pub record IsBox (env : Formats) : Type 0 where
  pub base64 :
      (s : String) (b : Bool) (t : String) → env.encrypt s b ≡ some t → env.is_base64 t ≡ true
  pub truthy : (s : String) (b : Bool) (t : String) → env.encrypt s b ≡ some t → is_truthy t ≡ true
  pub opens :
      (s : String) (b : Bool) (t : String) → env.encrypt s b ≡ some t → env.decrypt t ≡ some s

-- What `seal` returns is accepted by the schema and opens to the passwords of the job.
record Opens (env : Formats) (i : QueueItem) (sealed : Option String) : Type 0 where
  base64 : base64_check env (or_null sealed) ≡ none
  unlocked : unlock env sealed none ≡ (i.password, i.enc_password, false)

module _ (env : Formats) (box : IsBox env) where
  seal_secret :
      (b : Bool) (i : QueueItem) (sealed : Option String) (p e : Option String)
      → i.password ≡ p
      → i.enc_password ≡ e
      → IsSecret env p e
      → seal env b i ≡ ok sealed
      → (base64_check env (or_null sealed) ≡ none) × (unlock env sealed none ≡ (p, e, false))
  unfolding seal unlock
  seal_secret b i none none e hp he h eq = ground arith
  seal_secret b i (some t) none none hp he h eq = ground arith
  seal_secret b i (some t) none (some u) hp he h eq = ground arith
  seal_secret b i none (some s) e hp he h eq = ground arith
  seal_secret b i (some t) (some s) e hp he h eq =
      ground (arith, box.base64 s (not b) t, box.truthy s (not b) t, box.opens s (not b) t)

  seal-Opens :
      (b : Bool) (i : QueueItem) (sealed : Option String)
      → IsStorable env i
      → seal env b i ≡ ok sealed
      → Opens env i sealed
  seal-Opens b i sealed h eq =
      let r = seal_secret b i sealed i.password i.enc_password refl refl h.secret eq in
      record { base64 = r.0; unlocked = r.1 }

read_optional-or_null : (v : Option String) → read_optional (some (or_null v)) ≡ some v
read_optional-or_null none = refl
read_optional-or_null (some s) = refl

both : {a b : Option Reason} → a ≡ none → b ≡ none → (a then_check b) ≡ none
both p q = rw (p, q)

module _ (env : Formats) (i : QueueItem) (sealed : Option String) (h : IsStorable env i)
    (o : Opens env i sealed) where
  optional_field : (k : String) (v : Option String) → optional_check k (or_null v) ≡ none
  optional_field k none = refl
  optional_field k (some s) = refl

  checks_optional : check_optional optional_fields (known_part i sealed ++ i.extra) ≡ none
  unfolding check_optional
  checks_optional = ground (arith, extra-password i.extra h.extra)

  abbrev entry : Dict
  entry = known_part i sealed ++ i.extra

  check_status : status_check (lookup "status" entry) ≡ none
  check_status = ground (arith, status_of-value i.status)

  entry_status : status_at (lookup "status" entry) ≡ i.status
  entry_status = ground (arith, status_of-value i.status)

  check_type :
      (elim (type_of (text_at "type" entry)) [ none ↦ some unknown_type | some t ↦ none ]) ≡ none
  check_type = ground (arith, type_of-type_value i.type)

  checks_timestamps : check_timestamps env timestamp_fields entry ≡ none
  unfolding check_timestamps
  checks_timestamps = rw (h.created, h.finished, h.heartbeat)

  lease_check-none : lease_check (status_at (lookup "status" entry)) entry ≡ none
  lease_check-none =
      rw entry_status (unfold lease_check in ground (arith, h.run_leased, h.beat_leased))

  finish_check-none : finish_check (status_at (lookup "status" entry)) entry ≡ none
  finish_check-none = rw entry_status (unfold finish_check in ground (arith, h.unfinished))

  problem-none : problem env entry ≡ none
  unfolding problem check_required
  problem-none = both (rw h.id) (
      both check_type (
        both check_status (
          both checks_optional (
            both (rw h.source)
              (both checks_timestamps (both lease_check-none (both finish_check-none o.base64)))))))

  legacy_none : read_optional (lookup "password" entry) ≡ some none
  legacy_none = ground (arith, extra-password i.extra h.extra)

  entry-deserialize : deserialize env entry ≡ some (i, false)
  unfolding deserialize
  entry-deserialize = simp (
    type_of-type_value,
    status_of-value,
    read_optional-or_null,
    legacy_none,
    o.unlocked,
    extra-keep_if i.extra h.extra,
  )

-- What is written for a job passes the checks, and is read back as the job, with no migration.
pub record IsReadBack (env : Formats) (i : QueueItem) (d : Dict) : Type 0 where
  pub checked : problem env d ≡ none
  pub restored : deserialize env d ≡ some (i, false)
  pub same_id : text_at "id" d ≡ i.id

pub serialize-IsReadBack :
    (env : Formats)
    → IsBox env
    → (b : Bool) (i : QueueItem) (sealed : Option String) → IsStorable env i
    → seal env b i ≡ ok sealed
    → IsReadBack env i (to_entry i sealed)
serialize-IsReadBack env box b i sealed h eq = rw (to_entry-append i sealed h.extra) (record {
  checked = problem-none env i sealed h (seal-Opens env box b i sealed h eq);
  restored = entry-deserialize env i sealed h (seal-Opens env box b i sealed h eq);
  same_id = refl;
})
