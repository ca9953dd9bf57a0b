-- ===== src/Queue/Schema.antt =====
-- Validation of raw queue entries (src/megabasterd_cli/queue/schema.py). A check is a function that
-- returns the reason of the refusal, or `none`.
use Prim.Native.Char.{code}
use mega_basterd_cli.Prelude.{
  String, Bool, true, false, ◌||◌, Option, none, some, List, [], ◌∷◌, Result, ok, err, bind, ◌==◌,
  if◌then◌else◌, str_eq, is_blank, one_of,
}
use mega_basterd_cli.Json.{pos, Json, Dict, to_dict, lookup}
use mega_basterd_cli.Queue.Model.{
  Reason, Error, corruption_error, JobStatus, status_of, type_of, is_active, is_terminal, missing,
  wrong_type, not_an_object, blank_id, blank_source, unknown_type, unknown_status, bad_size,
  bad_epoch, bad_timestamp, foreign_lease, foreign_finish, not_base64, duplicate_id,
}
use mega_basterd_cli.Queue.Platform.{Formats, IsoTime, aware, naive}

-- The first refusal of the two.
infixr 40 ◌then_check◌
abbrev pub ◌then_check◌ : Option Reason → Option Reason → Option Reason
some r then_check k = some r
none then_check k = k

abbrev pub refuse_if : Bool → Reason → Option Reason
refuse_if true r = some r
refuse_if false r = none

-- `entry.get(name)`
abbrev pub get : String → Dict → Json
get k d = elim (lookup k d) [ none ↦ Json.null | some v ↦ v ]

-- The text of a field, "" if it is no text.
abbrev pub text_at : String → Dict → String
text_at k d = elim (get k d) [ Json.str s ↦ s | _ ↦ "" ]

abbrev pub required_at : String → Option Json → Option Reason
required_at k none = some (missing k)
required_at k (some (Json.str s)) = none
required_at k (some _) = some (wrong_type k)

unfoldable pub check_required : List String → Dict → Option Reason
check_required [] d = none
check_required (k ∷ ks) d = required_at k (lookup k d) then_check check_required ks d

abbrev pub required_fields : List String
required_fields = "id" ∷ "type" ∷ "source" ∷ "destination" ∷ []

abbrev pub status_check : Option Json → Option Reason
status_check none = none
status_check (some (Json.str s)) = elim (status_of s) [
  | none ↦ some unknown_status
  | some st ↦ none
]
status_check (some _) = some (wrong_type "status")

-- The status of an entry that passed `status_check`; an absent one is pending.
abbrev pub status_at : Option Json → JobStatus
status_at (some (Json.str s)) = elim (status_of s) [ none ↦ JobStatus.pending | some st ↦ st ]
status_at _ = JobStatus.pending

-- An `int` that is no `bool` and at least 0; absent means 0.
abbrev pub count_check : Reason → Option Json → Option Reason
count_check r none = none
count_check r (some (Json.int (pos n))) = none
count_check r (some _) = some r

abbrev pub optional_check : String → Json → Option Reason
optional_check k Json.null = none
optional_check k (Json.str s) = none
optional_check k _ = some (wrong_type k)

unfoldable pub check_optional : List String → Dict → Option Reason
check_optional [] d = none
check_optional (k ∷ ks) d = optional_check k (get k d) then_check check_optional ks d

abbrev pub optional_fields : List String
optional_fields =
    "error" ∷ "account" ∷ "password" ∷ "enc_password" ∷ "finished_iso" ∷ "run_id" ∷ "heartbeat_iso"
    ∷ []

-- `value[:-1] + "+00:00" if value.endswith(("Z", "z")) else value`
unfoldable pub with_offset : String → String
with_offset String.[] = String.[]
with_offset (String.◌∷◌ c String.[]) =
    if code c == b'Z' || code c == b'z' then "+00:00" else String.◌∷◌ c String.[]
with_offset (String.◌∷◌ c (String.◌∷◌ d s)) = String.◌∷◌ c (with_offset (String.◌∷◌ d s))

abbrev pub is_present : Json → Bool
is_present Json.null = false
is_present _ = true

abbrev pub zone_check : String → Option IsoTime → Option Reason
zone_check k none = some (bad_timestamp k)
zone_check k (some (naive t)) = some (bad_timestamp k)
zone_check k (some (aware t)) = none

module _ (env : Formats) where
  unfoldable pub validate_iso_timestamp : String → Json → Option Reason
  validate_iso_timestamp k Json.null = none
  validate_iso_timestamp k (Json.str s) =
      if str_eq s "" then none else zone_check k (env.fromisoformat (with_offset s))
  validate_iso_timestamp k _ = some (wrong_type k)

  unfoldable pub check_timestamps : List String → Dict → Option Reason
  check_timestamps [] d = none
  check_timestamps (k ∷ ks) d = validate_iso_timestamp k (get k d) then_check check_timestamps ks d

abbrev pub timestamp_fields : List String
timestamp_fields = "created_iso" ∷ "finished_iso" ∷ "heartbeat_iso" ∷ []

-- Only an active job carries a lease, only a finished one a finish time.
unfoldable pub lease_check : JobStatus → Dict → Option Reason
lease_check st d =
    if is_active st
    then none
    else refuse_if (is_present (get "run_id" d)) (foreign_lease "run_id")
      then_check refuse_if (is_present (get "heartbeat_iso" d)) (foreign_lease "heartbeat_iso")

unfoldable pub finish_check : JobStatus → Dict → Option Reason
finish_check st d =
    if is_terminal st
    then none
    else refuse_if (is_present (get "finished_iso" d)) (foreign_finish "finished_iso")

module _ (env : Formats) where
  abbrev pub base64_check : Json → Option Reason
  base64_check (Json.str s) = if env.is_base64 s then none else some not_base64
  base64_check _ = none

  -- The checks of one entry, in the order of the source.
  unfoldable pub problem : Dict → Option Reason
  problem d =
      check_required required_fields d
      then_check refuse_if (is_blank (text_at "id" d)) blank_id
      then_check elim (type_of (text_at "type" d)) [ none ↦ some unknown_type | some t ↦ none ]
      then_check status_check (lookup "status" d)
      then_check count_check bad_size (lookup "size" d)
      then_check count_check bad_epoch (lookup "lease_epoch" d)
      then_check check_optional optional_fields d
      then_check refuse_if (is_blank (text_at "source" d)) blank_source
      then_check check_timestamps env timestamp_fields d
      then_check lease_check (status_at (lookup "status" d)) d
      then_check finish_check (status_at (lookup "status" d)) d
      then_check base64_check (get "enc_password" d)

  unfoldable pub validate_raw_item : Json → Result Error Dict
  validate_raw_item (Json.obj fs) = elim (problem (to_dict fs)) [
    | none ↦ ok (to_dict fs)
    | some r ↦ err (corruption_error r)
  ]
  validate_raw_item _ = err (corruption_error not_an_object)

  unfoldable pub validate_all : List Json → Result Error (List Dict)
  validate_all [] = ok []
  validate_all (j ∷ js) = bind (validate_raw_item j) λ d. bind (validate_all js) λ ds. ok (d ∷ ds)

unfoldable pub check_unique_ids : List String → List Dict → Option Reason
check_unique_ids seen [] = none
check_unique_ids seen (d ∷ ds) =
    refuse_if (one_of (text_at "id" d) seen) duplicate_id
    then_check check_unique_ids (text_at "id" d ∷ seen) ds

unfoldable pub validate_unique_ids : List Dict → Option Reason
unfolding check_unique_ids
validate_unique_ids ds = check_unique_ids [] ds
