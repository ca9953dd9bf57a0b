-- ===== src/Queue/Examples.antt =====
-- The queue's theorems at concrete files, under a clock and a secret box that meet their laws.
use mathlib.Core.Option
use mega_basterd_cli.Prelude.{
  ℕ, zero, suc, String, true, false, Option, none, some, List, [], ◌∷◌, ◌≡◌, refl, sym, ap, inl,
  inr, arith, Result, ok, err, if◌then◌else◌, str_eq, eq_iff, Bool-cases, is_truthy, is_blank,
}
use mathlib.Core.Path.{subst}
use mega_basterd_cli.Queue.Codec.{
  to_entry, serialize_all, serialize, seal, unlock, deserialize, deserialize_all, merge_extra,
  set_default,
}
use mega_basterd_cli.Queue.Lease.{recover_items, recover_item, leased, stamp}
use mega_basterd_cli.Json.{Json, of_list, of_dict}
use mega_basterd_cli.Queue.Model.{
  QueueItem, JobStatus, JobType, ownership_error, not_json, Error, value, status_of, type_value,
  type_of,
}
use mega_basterd_cli.Queue.Platform.{Formats, Platform, aware}
use mega_basterd_cli.Queue.Schema.{
  problem, check_required, check_optional, check_timestamps, lease_check, finish_check,
  validate_unique_ids, validate_all, validate_raw_item, with_offset, validate_iso_timestamp,
}
use mega_basterd_cli.Queue.Codec.RoundTrip.{IsBox, IsStorable}
use mega_basterd_cli.Queue.Codec.Written.{Distinct, serialize_all-Reads}
use mega_basterd_cli.Queue.Store.{
  File, absent, garbage, Queue, load, locked, document, take_file, mark_corrupt, take_root,
  take_entries, take_items, migrate, change_first, write_back, ensure_writable, write_text,
}
use mega_basterd_cli.Queue.Store.Reload.{Sound, Loads}
use mega_basterd_cli.Queue.Lease.Step.{IsClock}
use mega_basterd_cli.Queue.Manager.{claim_next, update_status}
use mega_basterd_cli.Queue.Manager.Calls.{
  Reach, start, call, add_job, after, MayAdd, with_formats, Reach-Loads, claim,
}
use mega_basterd_cli.Queue.Manager.Corrupt.{corrupt_file_kept}
use mega_basterd_cli.Queue.Manager.Exclusive.{claim_next_exclusive}
use mega_basterd_cli.Queue.Manager.Refusal.{update_status_refused}

-- A moment printed in unary, behind it an offset.
print : ℕ → String
print zero = "+"
print (suc t) = String.◌∷◌ "0" (print t)

read : String → Option ℕ
read String.[] = none
read (String.◌∷◌ c String.[]) = some 0
read (String.◌∷◌ c (String.◌∷◌ d s)) = Option.map suc (read (String.◌∷◌ d s))

read-print : (t : ℕ) → read (print t) ≡ some t
unfolding read print
read-print zero = refl
read-print (suc zero) = refl
read-print (suc (suc t)) = rw (read-print (suc t))

abbrev formats : Formats
formats = record {
  isoformat = print;
  fromisoformat = λ s. Option.map aware (read s);
  is_base64 = λ s. true;
  encrypt = λ s b. if str_eq s "pw" then some "sealed" else none;
  decrypt = λ t. if str_eq t "sealed" then some "pw" else none;
}

print-ne-empty : (t : ℕ) → is_truthy (print t) ≡ true
unfolding print
print-ne-empty zero = refl
print-ne-empty (suc t) = elim (Bool-cases (str_eq (String.◌∷◌ "0" (print t)) "")) [
  | inl e ↦ cc ((eq_iff (String.◌∷◌ "0" (print t)) "").0 e)
  | inr e ↦ rw e
]

print-zone : (t : ℕ) → with_offset (print t) ≡ print t
unfolding with_offset print
print-zone zero = refl
print-zone (suc zero) = refl
print-zone (suc (suc t)) = ap (String.◌∷◌ "0") (print-zone (suc t))

clock : IsClock formats
clock = record {
  printed = print-ne-empty;
  with_zone = print-zone;
  read_back = λ t. rw (read-print t) refl;
}

sealed_only :
    (s t : String)
    → (if str_eq s "pw" then some "sealed" else none) ≡ some t
    → (s ≡ "pw") × (t ≡ "sealed")
sealed_only s t h = elim (Bool-cases (str_eq s "pw")) [
  | inl e ↦ ((eq_iff s "pw").0 e, cc (rw e at h))
  | inr e ↦ cc (rw e at h)
]

box : IsBox formats
box = record {
  base64 = λ s b t h. refl;
  truthy = λ s b t h. rw ((sealed_only s t h).1) refl;
  opens = λ s b t h. rw ((sealed_only s t h).1, (sealed_only s t h).0) refl;
}

abbrev at : ℕ → Platform
at t = record {
  formats = formats;
  lock_free = true;
  write_succeeds = true;
  now = t;
  new_id = "new";
  preserve = some "backup";
}

abbrev job : String → QueueItem
job k = record {
  id = k;
  type = JobType.download;
  source = "url";
  destination = "";
  size = 9;
  status = JobStatus.pending;
  error = none;
  account = none;
  password = some "pw";
  created_iso = some "0+";
  finished_iso = none;
  run_id = none;
  heartbeat_iso = none;
  lease_epoch = 0;
  extra = ("newer", Json.bool true) ∷ [];
  enc_password = none;
}

abbrev empty : File → Queue
empty file = record { file = file; items = []; corrupt = none; had_secrets = false; backup = none }

job-IsStorable : (k : String) → is_blank k ≡ false → IsStorable formats (job k)
unfolding validate_iso_timestamp with_offset read
job-IsStorable k h = record {
  id = h;
  source = refl;
  created = refl;
  finished = refl;
  heartbeat = refl;
  run_leased = λ _. refl;
  beat_leased = λ _. refl;
  unfinished = λ _. refl;
  secret = (refl, refl);
  extra = (refl, refl, tt);
}

abbrev written : List Json
written =
    Json.obj (of_dict (to_entry (job "a") (some "sealed")))
    ∷ Json.obj (of_dict (to_entry (job "b") (some "sealed")))
    ∷ []

abbrev two_jobs : File
two_jobs = document (Json.arr (of_list written))

two_jobs-Sound : Sound formats two_jobs (job "a" ∷ job "b" ∷ [])
two_jobs-Sound = record {
  stored = inr (
    written,
    refl,
    serialize_all-Reads formats box false [] (job "a" ∷ job "b" ∷ []) written (refl, (refl, tt))
        ((refl, tt), (tt, tt)) (job-IsStorable "a" refl, (job-IsStorable "b" refl, tt))
        (unfold serialize_all serialize seal in refl),
  );
  distinct = ((refl, tt), (tt, tt));
  storable = (job-IsStorable "a" refl, (job-IsStorable "b" refl, tt));
}

update_status_refused_example :
    ((update_status (at 5) "a" JobStatus.done none (some "old") (some 1) (empty two_jobs)).0
      ≡ err ownership_error)
    × ((update_status (at 5) "a" JobStatus.done none (some "old") (some 1) (empty two_jobs)).1.file
        ≡ two_jobs)
update_status_refused_example =
    update_status_refused (at 5) "a" JobStatus.done none "old" 1 (empty two_jobs)
      (job "a" ∷ job "b" ∷ []) (job "a") refl two_jobs-Sound (inl refl) refl (inr (omega arith))

corrupt_file_kept_example : (after (at 5) (claim "run" 300) (empty garbage)).file ≡ garbage
unfolding load take_file mark_corrupt
corrupt_file_kept_example =
    corrupt_file_kept (at 5) not_json (claim "run" 300) (empty garbage) (cc) refl

abbrev first_claim : Result Error (Option QueueItem) × Queue
first_claim = claim_next (at 5) "one" 300 (empty two_jobs)

abbrev second_claim : Result Error (Option QueueItem) × Queue
second_claim = claim_next (at 7) "two" 300 (empty first_claim.1.file)

claimed_first : first_claim ≡ (ok (some (leased (at 5) "one" (job "a"))), first_claim.1)
unfolding claim_next locked load take_file take_root take_entries take_items migrate recover_items
    recover_item change_first write_back ensure_writable write_text leased validate_all
    validate_raw_item problem check_required check_optional check_timestamps validate_iso_timestamp
    lease_check finish_check validate_unique_ids deserialize_all deserialize unlock to_entry
    merge_extra set_default value status_of type_value type_of serialize_all serialize seal print
    read with_offset
claimed_first = refl

claimed_second : second_claim ≡ (ok (some (leased (at 7) "two" (job "b"))), second_claim.1)
unfolding claim_next locked load take_file take_root take_entries take_items migrate recover_items
    recover_item change_first write_back ensure_writable write_text leased validate_all
    validate_raw_item problem check_required check_optional check_timestamps validate_iso_timestamp
    lease_check finish_check validate_unique_ids deserialize_all deserialize unlock to_entry
    merge_extra set_default value status_of type_value type_of serialize_all serialize seal print
    read with_offset
claimed_second = refl

claim_next_exclusive_example : str_eq "b" "a" ≡ false
unfolding leased
claim_next_exclusive_example =
    claim_next_exclusive formats (at 5) (at 7) box clock "one" "two" 300 300 (empty two_jobs)
      first_claim.1 (empty first_claim.1.file) second_claim.1 (job "a" ∷ job "b" ∷ [])
      (leased (at 5) "one" (job "a")) (leased (at 7) "two" (job "b")) two_jobs-Sound claimed_first
      refl (omega arith) claimed_second

-- One process adds a job to no file, another one claims it.
absent_only : (items : List QueueItem) → Sound formats absent items → items ≡ []
absent_only items s = elim s.stored [ inl (f, e) ↦ e | inr (js, f, r) ↦ cc f ]

add_first : Reach formats (after (at 3) (add_job (job "a")) (empty absent)).file
add_first = call start (at 3) (add_job (job "a")) (empty absent) refl λ items s.
    subst (MayAdd (at 3) (job "a")) (sym (absent_only items s))
      (record { storable = unfold stamp in job-IsStorable "a" refl; new = tt })

abbrev claimed_file : File
claimed_file =
    (after (at 4) (claim "run" 300)
      (empty (after (at 3) (add_job (job "a")) (empty absent)).file)).file

Reach-Loads_example :
    (items : List QueueItem) × Distinct items
    × ((env : Platform) (q : Queue)
        → q.file ≡ claimed_file
        → Loads (with_formats env formats) q items)
Reach-Loads_example = Reach-Loads formats box clock claimed_file (
    call add_first (at 4) (claim "run" 300)
      (empty (after (at 3) (add_job (job "a")) (empty absent)).file) refl (λ items s. tt))
