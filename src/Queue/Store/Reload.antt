-- ===== src/Queue/Store/Reload.antt =====
-- What `save` writes, `_load` reads.
use mega_basterd_cli.Prelude.{
  Bool, true, false, none, List, [], ◌∷◌, ◌⊎◌, inl, inr, ◌≡◌, refl, sym, arith, Result, ok, err,
  All, any,
}
use mega_basterd_cli.Json.{Json, Dict, of_list, to_list-of_list}
use mega_basterd_cli.Queue.Model.{Error, os_error, QueueItem}
use mega_basterd_cli.Queue.Platform.{Formats, Platform}
use mega_basterd_cli.Queue.Schema.{validate_unique_ids}
use mega_basterd_cli.Queue.Codec.{serialize_all}
use mega_basterd_cli.Queue.Codec.RoundTrip.{IsStorable, IsBox}
use mega_basterd_cli.Queue.Codec.Written.{Distinct, Reads, Unseen, serialize_all-Reads}
use mega_basterd_cli.Queue.Store.{
  File, document, absent, Queue, load, write_back, take_file, take_root, take_entries, take_items,
  migrate, ensure_writable, write_text, seals,
}

abbrev loaded : Queue → List QueueItem → List Dict → Queue
loaded q items ds = record q {
  corrupt = none;
  had_secrets = any seals ds;
  backup = none;
  items = items;
}

load-Reads :
    (env : Platform) (q : Queue) (js : List Json) (items : List QueueItem)
    → q.file ≡ document (Json.arr (of_list js))
    → (r : Reads env.formats [] js items) → load env q ≡ (ok tt, loaded q items r.entries)
unfolding load take_file take_root take_entries take_items migrate validate_unique_ids
load-Reads env q js items f r =
    ground (arith, to_list-of_list js, r.validated, r.unique, r.restored)

-- The file is what these jobs are written as: it is missing and there is none, or it is the document.
abbrev pub IsStoredAs : Formats → File → List QueueItem → Type 0
IsStoredAs f file items =
    ((file ≡ absent) × (items ≡ []))
    ⊎ ((js : List Json) × (file ≡ document (Json.arr (of_list js))) × Reads f [] js items)

-- A queue file that the manager may have left behind.
pub record Sound (f : Formats) (file : File) (items : List QueueItem) : Type 0 where
  pub stored : IsStoredAs f file items
  pub distinct : Distinct items
  pub storable : All (IsStorable f) items

-- A load that succeeds and leaves the file alone.
pub record Loads (env : Platform) (q : Queue) (items : List QueueItem) : Type 0 where
  pub after : Queue
  pub run : load env q ≡ (ok tt, after)
  pub items_eq : after.items ≡ items
  pub sound : after.corrupt ≡ none
  pub same_file : after.file ≡ q.file

absent-Loads :
    (env : Platform) (q : Queue) (items : List QueueItem)
    → q.file ≡ absent
    → items ≡ []
    → Loads env q items
unfolding load take_file
absent-Loads env q items f e = record {
  after = record q { corrupt = none; had_secrets = false; backup = none; items = [] };
  run = ground arith;
  items_eq = sym e;
  sound = refl;
  same_file = refl;
}

-- A sound file loads as its jobs.
pub Sound-Loads :
    (env : Platform) (q : Queue) (items : List QueueItem)
    → Sound env.formats q.file items
    → Loads env q items
Sound-Loads env q items s = elim s.stored [
  | inl (f, e) ↦ absent-Loads env q items f e
  | inr (js, f, r) ↦ record {
    after = loaded q items r.entries;
    run = load-Reads env q js items f r;
    items_eq = refl;
    sound = refl;
    same_file = refl;
  }
]

Unseen-nil : (is : List QueueItem) → Unseen [] is
Unseen-nil [] = tt
Unseen-nil (i ∷ is) = (refl, Unseen-nil is)

-- A write either leaves a file that holds the jobs in memory, or raises and leaves the file.
pub data Wrote (env : Platform) (q : Queue) (r : Result Error (Unit {0}) × Queue) : Type 0 where
  wrote : r.0 ≡ ok tt → Sound env.formats r.1.file q.items → Wrote env q r
  kept : (e : Error) → r.0 ≡ err e → r.1.file ≡ q.file → Wrote env q r

module _ (env : Platform) where
  finish : Queue → Result Error (List Json) → Result Error (Unit {0}) × Queue
  finish q (ok js) = write_text env js q
  finish q (err e) = (err e, q)

  write_back-finish :
      (q : Queue)
      → q.corrupt ≡ none
      → write_back env q ≡ finish q (serialize_all env.formats q.had_secrets q.items)
  unfolding write_back ensure_writable finish
  write_back-finish q c = ground arith

  write_text-Wrote :
      (q : Queue) (js : List Json) (b : Bool)
      → env.write_succeeds ≡ b
      → Distinct q.items
      → All (IsStorable env.formats) q.items
      → Reads env.formats [] js q.items
      → Wrote env q (write_text env js q)
  unfolding write_text
  write_text-Wrote q js true w d st r =
      rw w (wrote refl (record { stored = inr (js, refl, r); distinct = d; storable = st }))
  write_text-Wrote q js false w d st r = rw w (kept os_error refl refl)

  finish-Wrote :
      IsBox env.formats
      → (q : Queue) (r : Result Error (List Json))
      → serialize_all env.formats q.had_secrets q.items ≡ r
      → Distinct q.items
      → All (IsStorable env.formats) q.items
      → Wrote env q (finish q r)
  unfolding finish
  finish-Wrote box q (ok js) e d st =
      write_text-Wrote q js env.write_succeeds refl d st (
        serialize_all-Reads env.formats box q.had_secrets [] q.items js (Unseen-nil q.items) d st e)
  finish-Wrote box q (err e) eq d st = kept e refl refl

  pub write_back-Wrote :
      IsBox env.formats
      → (q : Queue) → q.corrupt ≡ none
      → Distinct q.items
      → All (IsStorable env.formats) q.items
      → Wrote env q (write_back env q)
  write_back-Wrote box q c d st =
      rw (write_back-finish q c)
        (finish-Wrote box q (serialize_all env.formats q.had_secrets q.items) refl d st)
