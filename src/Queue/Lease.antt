-- ===== src/Queue/Lease.antt =====
-- What the mutations of `QueueManager` (src/megabasterd_cli/queue/manager.py) do to one job, and the
-- recovery pass over all of them.
pub mod Step
pub mod Passes
use mega_basterd_cli.Prelude.{
  ℕ, ◌+◌, ◌*◌, String, Bool, true, false, not, ◌&&◌, Option, none, some, List, [], ◌∷◌, Result, ok,
  err, bind, leb, ◌==◌, if◌then◌else◌, str_eq, is_truthy,
}
use mega_basterd_cli.Queue.Model.{
  Error, QueueItem, JobStatus, is_active, is_terminal, ownership_error, type_error,
}
use mega_basterd_cli.Queue.Platform.{Platform, IsoTime, aware, naive}
use mega_basterd_cli.Queue.Store.{given, is_text}

abbrev pub has_id : String → QueueItem → Bool
has_id k i = str_eq i.id k

unfoldable pub owns : QueueItem → String → Option ℕ → Bool
owns i run epoch = is_text i.run_id run && elim epoch [ none ↦ true | some e ↦ i.lease_epoch == e ]

-- A caller without a `run_id` is administrative and not checked.
unfoldable pub check_owner : QueueItem → Option String → Option ℕ → Result Error (Unit {0})
check_owner i none epoch = ok tt
check_owner i (some run) epoch = if owns i run epoch then ok tt else err ownership_error

abbrev pub told : Option String → Option String → Option String
told none old = old
told (some s) old = if is_truthy s then some s else old

abbrev pub is_runnable : QueueItem → Bool
is_runnable i = elim i.status [
  | JobStatus.pending ↦ true
  | JobStatus.interrupted ↦ true
  | _ ↦ false
]

abbrev pub is_retriable : JobStatus → Bool
is_retriable JobStatus.failed = true
is_retriable JobStatus.interrupted = true
is_retriable JobStatus.canceled = true
is_retriable _ = false

abbrev pub renewed : QueueItem → QueueItem
renewed i = record i {
  status = JobStatus.pending;
  error = none;
  finished_iso = none;
  run_id = none;
  heartbeat_iso = none;
}

abbrev pub is_cleared : QueueItem → Bool
is_cleared i = elim i.status [ JobStatus.done ↦ true | JobStatus.canceled ↦ true | _ ↦ false ]

abbrev pub interrupt : QueueItem → QueueItem
interrupt i = record i { status = JobStatus.interrupted; run_id = none; heartbeat_iso = none }

abbrev pub is_some : {A : Type 0} → Option A → Bool
is_some none = false
is_some (some a) = true

abbrev pub is_nonempty : {A : Type 0} → List A → Bool
is_nonempty [] = false
is_nonempty (a ∷ rest) = true

module _ (env : Platform) where
  -- `add`, with the id and the creation time that a new item lacks
  unfoldable pub stamp : QueueItem → QueueItem
  stamp i = record i {
    id = if is_truthy i.id then i.id else env.new_id;
    created_iso = if given i.created_iso then i.created_iso else some (env.isoformat env.now);
  }

  -- `(now - beat).total_seconds() <= lease_seconds`; a naive timestamp cannot be subtracted.
  abbrev pub within : ℕ → IsoTime → Result Error Bool
  within lease (aware beat) = ok (leb env.now (beat + lease * 1000000))
  within lease (naive beat) = err type_error

  abbrev pub fresh_beat : ℕ → Option IsoTime → Result Error Bool
  fresh_beat lease none = ok false
  fresh_beat lease (some beat) = within lease beat

  -- The heartbeat is there, is readable, and is no older than the lease.
  abbrev pub beats : ℕ → Option String → Result Error Bool
  beats lease none = ok false
  beats lease (some s) = if is_truthy s then fresh_beat lease (env.fromisoformat s) else ok false

  unfoldable pub is_lease_live : ℕ → QueueItem → Result Error Bool
  is_lease_live lease i = if is_active i.status then beats lease i.heartbeat_iso else ok false

  -- The assignments of `update_status` to the job that it found.
  unfoldable pub with_status : JobStatus → Option String → QueueItem → QueueItem
  with_status st error i = record i {
    status = st;
    error = told error i.error;
    finished_iso = if is_terminal st then some (env.isoformat env.now) else i.finished_iso;
    run_id = if is_active st then i.run_id else none;
    heartbeat_iso = if is_active st then i.heartbeat_iso else none;
  }

  -- A new lease generation for this run.
  unfoldable pub leased : String → QueueItem → QueueItem
  leased run i = record i {
    status = JobStatus.active;
    run_id = some run;
    heartbeat_iso = some (env.isoformat env.now);
    lease_epoch = i.lease_epoch + 1;
  }

  -- `mark_active` on the job: refuses a lease that another run is still heartbeating.
  unfoldable pub take_lease : String → ℕ → QueueItem → Result Error QueueItem
  take_lease run lease i =
      if is_text i.run_id run
      then ok (leased run i)
      else bind (is_lease_live lease i)
          λ live. if live then err ownership_error else ok (leased run i)

  -- `touch` on the job; an error is its `return False`.
  unfoldable pub beat : String → Option ℕ → QueueItem → Result Error QueueItem
  beat run epoch i =
      if owns i run epoch && is_active i.status
      then ok (record i { heartbeat_iso = some (env.isoformat env.now) })
      else err ownership_error

  -- An active job is stale unless its heartbeat is within the lease.
  unfoldable pub recover_item : ℕ → QueueItem → Result Error (Bool × QueueItem)
  recover_item lease i =
      if is_active i.status
      then bind (beats lease i.heartbeat_iso)
          (λ live. ok (not live, if live then i else interrupt i))
      else ok (false, i)

  -- `_recover_interrupted_locked`: the recovered items, and all items.
  unfoldable pub recover_items : ℕ → List QueueItem → Result Error (List QueueItem × List QueueItem)
  recover_items lease [] = ok ([], [])
  recover_items lease (i ∷ is) = bind (recover_item lease i) λ r.
      bind (recover_items lease is) λ rest. ok (if r.0 then r.1 ∷ rest.0 else rest.0, r.1 ∷ rest.1)
