-- ===== src/Queue/Store.antt =====
-- `QueueManager` (src/megabasterd_cli/queue/manager.py): the lock, `_load`, `save`. The state is the file and the object's fields.
-- A loop over the items is a function of the list.
pub mod Reload
use mega_basterd_cli.Prelude.{
  String, Bool, true, false, Option, none, some, List, [], ◌∷◌, Result, ok, err, bind, Exec, gets,
  ◌>>=◌, ◌>>◌, any, if◌then◌else◌, str_eq, is_truthy,
}
use mega_basterd_cli.Json.{Json, Dict, to_list, of_list}
use mega_basterd_cli.Queue.Model.{
  Reason, Error, QueueItem, lock_error, corruption_error, key_error, os_error, unreadable, not_json,
  not_a_list, not_loadable,
}
use mega_basterd_cli.Queue.Platform.{Platform}
use mega_basterd_cli.Queue.Schema.{validate_all, validate_unique_ids, text_at}
use mega_basterd_cli.Queue.Codec.{serialize_all, deserialize_all}

-- The queue file: missing, not readable, not JSON, or a JSON document.
pub data File : Type 0 where
  absent locked_out garbage : File
  document : Json → File

pub record Queue : Type 0 where
  pub file : File
  pub items : List QueueItem
  pub corrupt : Option Reason
  pub had_secrets : Bool
  pub backup : Option String

abbrev pub Method : Type 0 → Type 0
Method A = Exec Error Queue A

-- `bool(text)` for an optional text
abbrev pub given : Option String → Bool
given none = false
given (some s) = is_truthy s

-- `text == other` where the first may be None
abbrev pub is_text : Option String → String → Bool
is_text none t = false
is_text (some s) t = str_eq s t

abbrev pub lift : {A : Type 0} → Result Error A → Method A
lift r q = (r, q)

abbrev pub put_items : List QueueItem → Method (Unit {0})
put_items items q = (ok tt, record q { items = items })

module _ {A : Type 0} where
  -- The first item that passes, changed by a step that may raise: the loops that end in `break` or
  -- `return` at the item they look for.
  unfoldable pub change_first :
      (A → Bool) → (A → Result Error A) → List A → Result Error (Option A × List A)
  change_first p f [] = ok (none, [])
  change_first p f (x ∷ xs) =
      let rest = change_first p f xs in
      if p x then bind (f x) (λ y. ok (some y, y ∷ xs)) else bind rest (λ r. ok (r.0, x ∷ r.1))

unfoldable pub ensure_writable : Method (Unit {0})
ensure_writable q = elim q.corrupt [ none ↦ (ok tt, q) | some r ↦ (err (corruption_error r), q) ]

abbrev pub seals : Dict → Bool
seals d = is_truthy (text_at "enc_password" d)

-- A migration that cannot get a key leaves the file as it was and is only logged.
abbrev pub forgive_key_error : Result Error (Unit {0}) → Result Error (Unit {0})
forgive_key_error (err key_error) = ok tt
forgive_key_error r = r

abbrev pub reason_of : Error → Reason
reason_of (corruption_error r) = r
reason_of _ = not_loadable

abbrev pub cleared : Queue → Queue
cleared q = record q { corrupt = none; had_secrets = false; backup = none }

module _ (env : Platform) where
  unfoldable pub mark_corrupt : Reason → Bool → Method (Unit {0})
  mark_corrupt r have_bytes q = (
    ok tt,
    record q {
      corrupt = some r;
      had_secrets = true;
      items = [];
      backup = if have_bytes then env.preserve else none;
    },
  )

  unfoldable pub locked : {A : Type 0} → Method A → Method A
  locked m q = if env.lock_free then m q else (err lock_error, q)

  -- `atomic_write_text`
  unfoldable pub write_text : List Json → Method (Unit {0})
  write_text js q =
      if env.write_succeeds
      then (ok tt, record q { file = document (Json.arr (of_list js)) })
      else (err os_error, q)

  -- The body of `save`, whose lock its callers hold already.
  unfoldable pub write_back : Method (Unit {0})
  write_back = do
    ensure_writable
    items ← gets (λ q. q.items)
    had_secrets ← gets (λ q. q.had_secrets)
    payload ← lift (serialize_all env.formats had_secrets items)
    write_text payload

  unfoldable pub save : Method (Unit {0})
  save = locked write_back

  unfoldable pub migrate : Bool → Method (Unit {0})
  migrate false q = (ok tt, q)
  migrate true q = (forgive_key_error (write_back q).0, (write_back q).1)

  unfoldable pub take_items : Option (List QueueItem × Bool) → Method (Unit {0})
  take_items none = mark_corrupt not_loadable true
  take_items (some (items, legacy)) = λ q. migrate legacy (record q { items = items })

  unfoldable pub take_entries : List Dict → Method (Unit {0})
  take_entries ds q = elim (validate_unique_ids ds) [
    | some r ↦ mark_corrupt r true q
    | none ↦ take_items (deserialize_all env.formats ds) (record q { had_secrets = any seals ds })
  ]

  unfoldable pub take_root : Json → Method (Unit {0})
  take_root (Json.arr js) q = elim (validate_all env.formats (to_list js)) [
    | err e ↦ mark_corrupt (reason_of e) true q
    | ok ds ↦ take_entries ds q
  ]
  take_root _ q = mark_corrupt not_a_list true q

  unfoldable pub take_file : File → Method (Unit {0})
  take_file absent q = (ok tt, record q { items = [] })
  take_file locked_out q = mark_corrupt unreadable false q
  take_file garbage q = mark_corrupt not_json true q
  take_file (document j) q = take_root j q

  -- `_load`
  unfoldable pub load : Method (Unit {0})
  load q = take_file q.file (cleared q)

  -- `with self._locked(): self._load()`, and the rest of a mutation
  abbrev pub mutation : {A : Type 0} → Method A → Method A
  mutation m = locked (load >> m)
