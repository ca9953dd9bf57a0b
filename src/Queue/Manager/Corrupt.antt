-- ===== src/Queue/Manager/Corrupt.antt =====
-- A queue file that does not load is kept for the operator.
use mega_basterd_cli.Prelude.{
  Bool, true, false, Option, none, some, List, ◌≡◌, refl, ◌∙◌, arith, Result, ok, err, continue,
  pure, ◌>>=◌, ◌>>◌, gets, any, if◌then◌else◌, ◌≢◌,
}
use mega_basterd_cli.Queue.Model.{Error, QueueItem, Reason, corruption_error}
use mega_basterd_cli.Queue.Platform.{Platform}
use mega_basterd_cli.Queue.Store.{
  File, absent, locked_out, garbage, document, cleared, seals, Queue, Method, locked, lift, load,
  write_back, mutation, migrate, mark_corrupt, take_file, take_root, take_entries, take_items,
  ensure_writable, write_text, put_items,
}
use mega_basterd_cli.Queue.Lease.Step.{set_status}
use mega_basterd_cli.Queue.Manager.{
  touched, add, remove, update_status, mark_active, touch, recover_interrupted, claim_next, retry,
  clear_done,
}
use mega_basterd_cli.Queue.Manager.Calls.{
  Call, after, reset_queue, add_job, remove_job, retry_job, set_status, activate, touch_job,
  recover_jobs, claim, clear,
}
use mega_basterd_cli.Queue.Schema.{validate_all, validate_unique_ids}
use mega_basterd_cli.Queue.Codec.{deserialize_all}
use mega_basterd_cli.Json.{Json, Dict, to_list}

-- A write over a corrupt queue is refused.
write_back_refused :
    (env : Platform) (q : Queue) (r : Reason)
    → q.corrupt ≡ some r
    → write_back env q ≡ (err (corruption_error r), q)
unfolding write_back ensure_writable
write_back_refused env q r h = ground arith

write_back-corrupt : (env : Platform) (q : Queue) → (write_back env q).1.corrupt ≡ q.corrupt
unfolding write_back ensure_writable write_text
write_back-corrupt env q = ground arith

migrate-corrupt : (env : Platform) (b : Bool) (q : Queue) → (migrate env b q).1.corrupt ≡ q.corrupt
unfolding migrate
migrate-corrupt env true q = write_back-corrupt env q
migrate-corrupt env false q = refl

module _ (env : Platform) (r : Reason) where
  -- Nothing was written when the file was found corrupt.
  abbrev Untouched : Result Error (Unit {0}) × Queue → Queue → Type 0
  Untouched m q = m.1.corrupt ≡ some r → (m.0 ≡ ok tt) × (m.1.file ≡ q.file)

  take_items-Untouched :
      (o : Option (List QueueItem × Bool)) (q : Queue)
      → q.corrupt ≡ none
      → Untouched (take_items env o q) q
  unfolding take_items mark_corrupt
  take_items-Untouched none q c h = (refl, refl)
  take_items-Untouched (some (items, legacy)) q c h =
      cc (migrate-corrupt env legacy (record q { items = items }))

  take_entries-Untouched :
      (ds : List Dict) (o : Option Reason) (q : Queue)
      → validate_unique_ids ds ≡ o
      → q.corrupt ≡ none
      → Untouched (take_entries env ds q) q
  unfolding take_entries
  take_entries-Untouched ds none q e c =
      rw (e, take_entries)
        (take_items-Untouched (deserialize_all env.formats ds)
          (record q { had_secrets = any seals ds }) c)
  take_entries-Untouched ds (some x) q e c =
      rw (e, take_entries) (unfold mark_corrupt in λ h. (refl, refl))

  take_root-Untouched : (j : Json) (q : Queue) → q.corrupt ≡ none → Untouched (take_root env j q) q
  unfolding take_root
  take_root-Untouched (Json.arr js) q c = by_validation (validate_all env.formats (to_list js)) refl
    where
      by_validation :
          (v : Result Error (List Dict))
          → validate_all env.formats (to_list js) ≡ v
          → Untouched (take_root env (Json.arr js) q) q
      by_validation (ok ds) e =
          rw (e, take_root) (take_entries-Untouched ds (validate_unique_ids ds) q refl c)
      by_validation (err x) e = rw (e, take_root) (unfold mark_corrupt in λ h. (refl, refl))
  take_root-Untouched _ q c = unfold mark_corrupt in λ h. (refl, refl)

  -- A load that finds the file corrupt returns, and leaves the file.
  load_corrupt : (q : Queue) → Untouched (load env q) q
  unfolding load take_file mark_corrupt
  load_corrupt q = by_file q.file refl
    where
      by_file : (f : File) → q.file ≡ f → Untouched (take_file env f (cleared q)) q
      by_file absent e h = (refl, refl)
      by_file locked_out e h = (refl, refl)
      by_file garbage e h = (refl, refl)
      by_file (document j) e h = take_root-Untouched j (cleared q) refl h

-- A body that leaves the file of a corrupt queue, and the queue corrupt.
record Inert (r : Reason) {A : Type 0} (m : Method A) : Type 0 where
  at : (q : Queue) → q.corrupt ≡ some r → ((m q).1.file ≡ q.file) × ((m q).1.corrupt ≡ some r)

module _ (r : Reason) where
  Inert-pure : {A : Type 0} (a : A) → Inert r (pure a)
  Inert-pure a = record { at = λ q h. (refl, h) }

  Inert-gets : {A : Type 0} (f : Queue → A) → Inert r (gets f)
  Inert-gets f = record { at = λ q h. (refl, h) }

  Inert-lift : {A : Type 0} (v : Result Error A) → Inert r (lift v)
  Inert-lift v = record { at = λ q h. (refl, h) }

  Inert-put_items : (items : List QueueItem) → Inert r (put_items items)
  Inert-put_items items = record { at = λ q h. (refl, h) }

  Inert-write_back : (env : Platform) → Inert r (write_back env)
  Inert-write_back env = record {
    at = λ q h. (rw (write_back_refused env q r h) refl, rw (write_back_refused env q r h) h);
  }

  Inert-if :
      {A : Type 0} (b : Bool) (m n : Method A)
      → Inert r m
      → Inert r n
      → Inert r (if b then m else n)
  Inert-if true m n hm hn = hm
  Inert-if false m n hm hn = hn

  continue-Inert :
      {A B : Type 0} (f : A → Method B) (v : Result Error A) (q : Queue)
      → ((a : A) → Inert r (f a))
      → q.corrupt ≡ some r
      → ((continue f v q).1.file ≡ q.file) × ((continue f v q).1.corrupt ≡ some r)
  continue-Inert f (ok a) q k h = (k a).at q h
  continue-Inert f (err e) q k h = (refl, h)

  Inert-bind :
      {A B : Type 0} (m : Method A) (f : A → Method B)
      → Inert r m
      → ((a : A) → Inert r (f a))
      → Inert r (m >>= f)
  Inert-bind m f hm hf = record {
    at = λ q h.
        let (same, still) = hm.at q h in
        let (same', still') = continue-Inert f (m q).0 (m q).1 hf still in (same' ∙ same, still');
  }

  Inert-touched :
      (env : Platform) (v : Result Error (Option QueueItem × List QueueItem))
      → Inert r (touched env v)
  Inert-touched env (err e) = Inert-pure false
  Inert-touched env (ok (none, items)) = Inert-pure false
  Inert-touched env (ok (some i, items)) =
      Inert-bind (put_items items) (λ _. write_back env >> pure true) (Inert-put_items items)
        (λ _.
          Inert-bind (write_back env) (λ _. pure true) (Inert-write_back env)
            (λ _. Inert-pure true))

ruleset inert_rules = (
  Inert-pure, Inert-gets, Inert-lift, Inert-put_items, Inert-write_back, Inert-if, Inert-bind,
  Inert-touched,
)

module _ (env : Platform) (r : Reason) where
  mutation-Inert :
      {A : Type 0} (m : Method A) (q : Queue)
      → Inert r m
      → (load env q).1.corrupt ≡ some r
      → (mutation env m q).1.file ≡ q.file
  unfolding locked
  mutation-Inert m q inert h =
      let (ran, same) = load_corrupt env r q h in
      let (left, _) = inert.at (load env q).1 h in ground arith

  -- A corrupt file is never overwritten: whatever the call, but for a reset, it stays as it was.
  pub corrupt_file_kept :
      (c : Call) (q : Queue)
      → c ≢ reset_queue
      → (load env q).1.corrupt ≡ some r
      → (after env c q).file ≡ q.file
  unfolding add remove retry update_status mark_active touch recover_interrupted claim_next
      clear_done
  corrupt_file_kept (add_job i) q n h = mutation-Inert _ q (search inert_rules) h
  corrupt_file_kept (remove_job k) q n h = mutation-Inert _ q (search inert_rules depth 9) h
  corrupt_file_kept (retry_job k) q n h = mutation-Inert _ q (search inert_rules depth 9) h
  corrupt_file_kept (set_status k st error run epoch) q n h =
      mutation-Inert _ q (search inert_rules depth 9) h
  corrupt_file_kept (activate k run m) q n h = mutation-Inert _ q (search inert_rules depth 9) h
  corrupt_file_kept (touch_job k run epoch) q n h =
      mutation-Inert _ q (search inert_rules depth 9) h
  corrupt_file_kept (recover_jobs m) q n h = mutation-Inert _ q (search inert_rules depth 9) h
  corrupt_file_kept (claim run m) q n h = mutation-Inert _ q (search inert_rules depth 9) h
  corrupt_file_kept clear q n h = mutation-Inert _ q (search inert_rules depth 9) h
  corrupt_file_kept reset_queue q n h = absurd (n refl)
