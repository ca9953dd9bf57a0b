-- ===== src/Queue/Manager/Refusal.antt =====
-- A write from a run that lost its lease is refused, and a corrupt file is never overwritten.
use mega_basterd_cli.Prelude.{
  ℕ, String, true, false, Option, none, some, List, [], ◌∷◌, ◌≡◌, refl, sym, ap, ◌∙◌, arith, inl,
  inr, Result, ok, err, bind, Bool-cases, str_eq, eq_iff, ◌≢◌, ◌⊎◌,
}
use mathlib.Core.Path.{subst}
use mega_basterd_cli.Queue.Model.{Error, QueueItem, JobStatus, ownership_error}
use mega_basterd_cli.Queue.Platform.{Platform}
use mega_basterd_cli.Queue.Codec.Written.{Distinct}
use mega_basterd_cli.Queue.Store.{Queue, change_first, is_text}
use mega_basterd_cli.Queue.Store.Reload.{Sound, Sound-Loads}
use mega_basterd_cli.Queue.Lease.{owns, has_id, check_owner, with_status}
use mega_basterd_cli.Queue.Lease.Passes.{All-Found, Found}
use mega_basterd_cli.Queue.Manager.{update_status}
use mega_basterd_cli.Queue.Manager.Persist.{mutation_free}

str_eq-swap : (a b : String) → str_eq a b ≡ false → str_eq b a ≡ false
str_eq-swap a b h = ground (arith, eq_iff a b, eq_iff b a)

-- The loop stops at the job of that id with the error that the step raises there.
change_first-err :
    (k : String) (f : QueueItem → Result Error QueueItem) (e : Error) (x : QueueItem)
    (xs : List QueueItem)
    → Distinct xs
    → Found x xs
    → x.id ≡ k
    → f x ≡ err e
    → change_first (has_id k) f xs ≡ err e
unfolding change_first
change_first-err k f e x [] d here id fx = absurd here
change_first-err k f e x (z ∷ zs) d (inl same) id fx =
    let hit : str_eq z.id k ≡ true = (eq_iff z.id k).1 (ap (λ (i : QueueItem). i.id) same ∙ id) in
    rw hit (rw same (rw fx refl))
change_first-err k f e x (z ∷ zs) d (inr here) id fx =
    let other = All-Found (λ (j : QueueItem). str_eq j.id z.id ≡ false) x zs d.0 here in
    let miss : str_eq z.id k ≡ false = rw (← id) (str_eq-swap x.id z.id other) in
    rw miss (rw (change_first-err k f e x zs d.1 here id fx) refl)

is_text-ne : (run : String) (o : Option String) → o ≢ some run → is_text o run ≡ false
is_text-ne run none h = refl
is_text-ne run (some s) h = elim (Bool-cases (str_eq s run)) [
  | inl e ↦ absurd (h (ap some ((eq_iff s run).0 e)))
  | inr e ↦ e
]

module _ (env : Platform) where
  pub not_owner :
      (x : QueueItem) (run : String) (e : ℕ)
      → (x.run_id ≢ some run) ⊎ (x.lease_epoch ≢ e)
      → owns x run (some e) ≡ false
  unfolding owns
  not_owner x run e (inl h) = ground (arith, is_text-ne run x.run_id h)
  not_owner x run e (inr h) = ground arith

  refused_body :
      (k : String) (st : JobStatus) (error : Option String) (run : String) (e : ℕ) (x : QueueItem)
      (q : Queue)
      → Distinct q.items
      → Found x q.items
      → x.id ≡ k
      → owns x run (some e) ≡ false
      → change_first
          (has_id k)
          (λ i. bind (check_owner i (some run) (some e)) λ _. ok (with_status env st error i))
          q.items
        ≡ err ownership_error
  refused_body k st error run e x q d here id o =
      change_first-err k
        (λ i. bind (check_owner i (some run) (some e)) λ _. ok (with_status env st error i))
        ownership_error x q.items d here id (unfold check_owner in rw o refl)

-- Where the lock is free and the queue file is sound, with no plaintext password in it, a status for one
-- of its jobs from a run that is not the one the job records, or for a lease generation that is not the
-- job's, is refused, and the file stays as it is.
pub update_status_refused :
    (env : Platform) (k : String) (st : JobStatus) (error : Option String) (run : String) (e : ℕ)
    (q : Queue) (items : List QueueItem) (x : QueueItem)
    → env.lock_free ≡ true
    → Sound env.formats q.file items
    → Found x items
    → x.id ≡ k
    → (x.run_id ≢ some run) ⊎ (x.lease_epoch ≢ e)
    → ((update_status env k st error (some run) (some e) q).0 ≡ err ownership_error)
      × ((update_status env k st error (some run) (some e) q).1.file ≡ q.file)
unfolding update_status
update_status_refused env k st error run e q items x free s here id lost =
    let l = Sound-Loads env q items s in
    let r =
      refused_body env k st error run e x l.after (subst Distinct (sym l.items_eq) s.distinct)
        (subst (Found x) (sym l.items_eq) here) id (not_owner env x run e lost) in
    rw (mutation_free env _ q l free) (rw r (refl, l.same_file))
