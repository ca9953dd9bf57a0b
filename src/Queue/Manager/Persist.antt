-- ===== src/Queue/Manager/Persist.antt =====
-- How a mutation runs on a sound file, and what its write leaves.
use mega_basterd_cli.Prelude.{
  Bool, true, false, Option, none, List, ◌≡◌, refl, sym, inl, inr, Result, ok, err, continue, pure,
  ◌>>◌, All, Bool-cases,
}
use mathlib.Core.Path.{subst}
use mega_basterd_cli.Queue.Model.{Error, QueueItem, lock_error}
use mega_basterd_cli.Queue.Platform.{Formats, Platform}
use mega_basterd_cli.Queue.Codec.RoundTrip.{IsStorable, IsBox}
use mega_basterd_cli.Queue.Codec.Written.{Distinct}
use mega_basterd_cli.Queue.Store.{
  File, Queue, Method, change_first, locked, write_back, mutation, put_items,
}
use mega_basterd_cli.Queue.Store.Reload.{Sound, Loads, Sound-Loads, wrote, kept, write_back-Wrote}
use mega_basterd_cli.Queue.Lease.Step.{IsClock, Moves, Moves-Distinct, Moves-IsStorable}
use mega_basterd_cli.Queue.Lease.Passes.{Allowed, change_first-Pass, Pass-Moves}

-- The file is one that some jobs are written as, and that a load accepts.
abbrev pub IsLeftSound : Formats → File → Type 0
IsLeftSound f file = (items : List QueueItem) × Sound f file items

module _ (env : Platform) where
  pub mutation_free :
      {A : Type 0} (m : Method A) (q : Queue) {items : List QueueItem} (l : Loads env q items)
      → env.lock_free ≡ true
      → mutation env m q ≡ m l.after
  unfolding locked
  mutation_free m q l free = rw (l.run, free)

  pub mutation_busy :
      {A : Type 0} (m : Method A) (q : Queue)
      → env.lock_free ≡ false
      → mutation env m q ≡ (err lock_error, q)
  unfolding locked
  mutation_busy m q busy = rw busy

  -- What a body does to a loaded queue decides what the mutation does to the file.
  pub mutation-IsLeftSound :
      {A : Type 0} (m : Method A) (q : Queue) {items : List QueueItem}
      → Sound env.formats q.file items
      → ((q1 : Queue)
          → q1.items ≡ items
          → q1.corrupt ≡ none
          → Sound env.formats q1.file q1.items
          → IsLeftSound env.formats (m q1).1.file)
      → IsLeftSound env.formats (mutation env m q).1.file
  mutation-IsLeftSound m q {items} s body = elim (Bool-cases env.lock_free) [
    | inl free ↦
        let l = Sound-Loads env q items s in
        rw (mutation_free m q l free) (
          body l.after l.items_eq l.sound (
            subst (Sound env.formats l.after.file) (sym l.items_eq)
              (subst (λ file. Sound env.formats file items) (sym l.same_file) s)))
    | inr busy ↦ rw (mutation_busy m q busy) (items, s)
  ]

pub continue-pure :
    {A B : Type 0} (a : B) (r : Result Error A) (q : Queue)
    → (continue {S = Queue} (λ (_ : A). pure a) r q).1 ≡ q
continue-pure a (ok x) q = refl
continue-pure a (err e) q = refl

module _ (env : Platform) (box : IsBox env.formats) (clock : IsClock env.formats) where
  pub write_back-IsLeftSound :
      (q : Queue) {items : List QueueItem}
      → q.corrupt ≡ none
      → Sound env.formats q.file items
      → Distinct q.items
      → All (IsStorable env.formats) q.items
      → IsLeftSound env.formats (write_back env q).1.file
  write_back-IsLeftSound q {items} c s d st = elim (write_back-Wrote env box q c d st) [
    | wrote r s' ↦ (q.items, s')
    | kept e r same ↦ (items, subst (λ file. Sound env.formats file items) (sym same) s)
  ]

  moved-IsLeftSound :
      (q : Queue) (ys : List QueueItem)
      → q.corrupt ≡ none
      → Sound env.formats q.file q.items
      → Moves env q.items ys
      → IsLeftSound env.formats (write_back env (record q { items = ys })).1.file
  moved-IsLeftSound q ys c s m =
      write_back-IsLeftSound (record q { items = ys }) c s
        (Moves-Distinct env q.items ys m s.distinct)
        (Moves-IsStorable env clock q.items ys m s.storable)

  -- A body that passes over the jobs and writes the result.
  pub saved-IsLeftSound :
      (q : Queue) (p : QueueItem → Bool) (f : QueueItem → Result Error QueueItem)
      (r : Result Error (Option QueueItem × List QueueItem))
      → change_first p f q.items ≡ r
      → q.corrupt ≡ none
      → Sound env.formats q.file q.items
      → Allowed env p f q.items
      → IsLeftSound env.formats
          (continue {S = Queue}
            (λ (found : Option QueueItem × List QueueItem). do put_items found.1; write_back env)
            r
            q).1.file
  saved-IsLeftSound q p f (err e) h c s al = (q.items, s)
  saved-IsLeftSound q p f (ok (o, ys)) h c s al =
      moved-IsLeftSound q ys c s (Pass-Moves env (change_first-Pass p f q.items o ys h) al)

  -- A body that passes over the jobs, writes the result and returns.
  pub passed-IsLeftSound :
      {A : Type 0} (q : Queue) (p : QueueItem → Bool) (f : QueueItem → Result Error QueueItem)
      (a : Option QueueItem → A) (r : Result Error (Option QueueItem × List QueueItem))
      → change_first p f q.items ≡ r
      → q.corrupt ≡ none
      → Sound env.formats q.file q.items
      → Allowed env p f q.items
      → IsLeftSound env.formats
          (continue {S = Queue}
            (λ (found : Option QueueItem × List QueueItem). do
              put_items found.1
              write_back env
              pure (a found.0))
            r
            q).1.file
  passed-IsLeftSound q p f a (err e) h c s al = (q.items, s)
  passed-IsLeftSound q p f a (ok (o, ys)) h c s al =
      let q2 = (write_back env (record q { items = ys })) in
      subst (λ (z : Queue). IsLeftSound env.formats z.file) (sym (continue-pure (a o) q2.0 q2.1))
        (moved-IsLeftSound q ys c s (Pass-Moves env (change_first-Pass p f q.items o ys h) al))
