-- ===== src/Queue/Manager.antt =====
-- The mutations and views of `QueueManager` (src/megabasterd_cli/queue/manager.py): each holds the
-- file lock, loads the file, changes the items and writes the file. A loop is a function of the list.
pub mod Persist
pub mod Sound
pub mod Sweep
pub mod Calls
pub mod Claimed
pub mod Exclusive
pub mod Refusal
pub mod Corrupt
use mega_basterd_cli.Prelude.{
  ℕ, String, Bool, true, false, not, ◌&&◌, ◌||◌, Option, none, some, List, [], ◌∷◌, ◌++◌, Result,
  ok, err, bind, pure, gets, ◌>>=◌, ◌>>◌, keep_if, length, ◌==◌, if◌then◌else◌, ◌-◌,
}
use mathlib.Core.Option
use mega_basterd_cli.Queue.Model.{Error, QueueItem, JobStatus}
use mega_basterd_cli.Queue.Platform.{Platform}
use mega_basterd_cli.Queue.Store.{
  Queue, Method, change_first, locked, lift, write_back, mutation, put_items,
}
use mega_basterd_cli.Queue.Lease.{
  has_id, check_owner, is_runnable, is_retriable, renewed, is_cleared, is_some, is_nonempty, stamp,
  with_status, leased, take_lease, beat, recover_items,
}

module _ (env : Platform) where
  unfoldable pub add : QueueItem → Method String
  add i = mutation env do
    items ← gets (λ q. q.items)
    put_items (items ++ stamp env i ∷ [])
    write_back env
    pure (stamp env i).id

  -- The items without the dropped ones; the file is written only if there are fewer.
  abbrev pub drop_items : (QueueItem → Bool) → Method ℕ
  drop_items keep = do
    items ← gets (λ q. q.items)
    let kept = keep_if keep items
    put_items kept
    if length kept == length items
        then pure 0
        else do write_back env; pure (length items - length kept)

  unfoldable pub remove : String → Method Bool
  remove k = mutation env do dropped ← drop_items (λ i. not (has_id k i)); pure (not (dropped == 0))

  unfoldable pub update_status :
      String → JobStatus → Option String → Option String → Option ℕ → Method (Unit {0})
  update_status k st error run epoch = mutation env do
    items ← gets (λ q. q.items)
    found ← lift (
        change_first (has_id k)
          (λ i. bind (check_owner i run epoch) λ _. ok (with_status env st error i)) items)
    put_items found.1
    write_back env

  unfoldable pub mark_active : String → String → ℕ → Method (Option ℕ)
  mark_active k run lease = mutation env do
    items ← gets (λ q. q.items)
    found ← lift (change_first (has_id k) (take_lease env run lease) items)
    put_items found.1
    write_back env
    pure (Option.map (λ (i : QueueItem). i.lease_epoch) found.0)

  abbrev pub touched : Result Error (Option QueueItem × List QueueItem) → Method Bool
  touched (err e) = pure false
  touched (ok (none, items)) = pure false
  touched (ok (some i, items)) = do put_items items; write_back env; pure true

  unfoldable pub touch : String → String → Option ℕ → Method Bool
  touch k run epoch =
      mutation env
        do items ← gets (λ q. q.items); touched (change_first (has_id k) (beat env run epoch) items)

  abbrev pub write_if : Bool → Method (Unit {0})
  write_if b = if b then write_back env else pure tt

  unfoldable pub recover_interrupted : ℕ → Method (List QueueItem)
  recover_interrupted lease = mutation env do
    items ← gets (λ q. q.items)
    swept ← lift (recover_items env lease items)
    put_items swept.1
    write_if (is_nonempty swept.0)
    pure swept.0

  unfoldable pub claim_next : String → ℕ → Method (Option QueueItem)
  claim_next run lease = mutation env do
    items ← gets (λ q. q.items)
    swept ← lift (recover_items env lease items)
    chosen ← lift (change_first is_runnable (λ i. ok (leased env run i)) swept.1)
    put_items chosen.1
    write_if (is_some chosen.0 || is_nonempty swept.0)
    pure chosen.0

  unfoldable pub retry : String → Method Bool
  retry k = mutation env do
    items ← gets (λ q. q.items)
    found ←
        lift (change_first (λ i. has_id k i && is_retriable i.status) (λ i. ok (renewed i)) items)
    if is_some found.0 then (do put_items found.1; write_back env; pure true) else pure false

  -- `pending` and `runnable` read the items in memory.
  unfoldable pub pending_items : Queue → List QueueItem
  pending_items q = keep_if (λ i. elim i.status [ JobStatus.pending ↦ true | _ ↦ false ]) q.items

  unfoldable pub runnable : Queue → List QueueItem
  runnable q = keep_if is_runnable q.items

  unfoldable pub clear_done : Method ℕ
  clear_done = mutation env (drop_items (λ i. not (is_cleared i)))

  -- `reset` does not load: it starts an empty queue over whatever the file holds.
  unfoldable pub reset : Method (Unit {0})
  reset =
      locked env do
        λ q. (ok tt, record q { corrupt = none; had_secrets = false; items = [] })
        write_back env
