-- ===== src/Queue/Manager/Sound.antt =====
-- The manager never leaves a file that its own next load refuses.
use mega_basterd_cli.Prelude.{
  ℕ, String, true, false, ◌&&◌, Option, none, some, List, [], ◌∷◌, ◌≡◌, refl, sym, arith, inl, inr,
  Result, ok, err, bind, bind-eq-ok, All, if◌then◌else◌, Bool-cases,
}
use mathlib.Core.Path.{subst}
use mega_basterd_cli.Queue.Model.{
  Error, QueueItem, JobStatus, is_terminal, is_active, ownership_error,
}
use mega_basterd_cli.Queue.Platform.{Platform}
use mega_basterd_cli.Queue.Codec.RoundTrip.{IsBox}
use mega_basterd_cli.Queue.Store.{Queue, change_first, is_text}
use mega_basterd_cli.Queue.Store.Reload.{Sound}
use mega_basterd_cli.Queue.Lease.{
  owns, is_lease_live, has_id, check_owner, with_status, leased, take_lease, beat,
}
use mega_basterd_cli.Queue.Lease.Step.{IsClock, JobStep, lease, set_status, heartbeat}
use mega_basterd_cli.Queue.Lease.Passes.{Allowed}
use mathlib.Core.Option
use mega_basterd_cli.Queue.Manager.{touched, update_status, mark_active, touch}
use mega_basterd_cli.Queue.Manager.Persist.{
  IsLeftSound, mutation-IsLeftSound, saved-IsLeftSound, passed-IsLeftSound,
}

-- A job of this id that is to get an unfinished status carries no finish time.
abbrev pub MayTake : String → JobStatus → List QueueItem → Type 0
MayTake k st =
    All (λ (i : QueueItem). has_id k i ≡ true → is_terminal st ≡ false → i.finished_iso ≡ none)

-- A job of this id that is to be leased carries no finish time.
abbrev pub MayLease : String → List QueueItem → Type 0
MayLease k = All (λ (i : QueueItem). has_id k i ≡ true → i.finished_iso ≡ none)

module _ (env : Platform) (box : IsBox env.formats) (clock : IsClock env.formats) where
  status_step :
      (k : String) (st : JobStatus) (error run : Option String) (epoch : Option ℕ)
      (xs : List QueueItem)
      → MayTake k st xs
      → Allowed env
          (has_id k)
          (λ i. bind (check_owner i run epoch) λ _. ok (with_status env st error i))
          xs
  status_step k st error run epoch [] m = tt
  status_step k st error run epoch (x ∷ xs) m = (
    λ y px fx.
        let (u, _, e) =
          bind-eq-ok (check_owner x run epoch) (λ _. ok (with_status env st error x)) fx in
        set_status st error (m.0 px) (cc),
    status_step k st error run epoch xs m.1,
  )

  -- Setting a status leaves a sound file, unless a finished job would become unfinished.
  pub update_status-IsLeftSound :
      (k : String) (st : JobStatus) (error run : Option String) (epoch : Option ℕ) (q : Queue)
      (items : List QueueItem)
      → Sound env.formats q.file items
      → MayTake k st items
      → IsLeftSound env.formats (update_status env k st error run epoch q).1.file
  unfolding update_status
  update_status-IsLeftSound k st error run epoch q items s m =
      mutation-IsLeftSound env _ q s λ q1 e c s1.
        let f =
          λ (i : QueueItem). bind (check_owner i run epoch) λ _. ok (with_status env st error i) in
        saved-IsLeftSound env box clock q1 (has_id k) f (change_first (has_id k) f q1.items) refl c
          s1 (status_step k st error run epoch q1.items (subst (MayTake k st) (sym e) m))

  take_lease-JobStep :
      (run : String) (n : ℕ) (x y : QueueItem)
      → x.finished_iso ≡ none
      → take_lease env run n x ≡ ok y
      → JobStep env x y
  unfolding take_lease
  take_lease-JobStep run n x y fin h = elim (Bool-cases (is_text x.run_id run)) [
    | inl own ↦ lease run fin (cc (rw own at h))
    | inr other ↦
        let (live, _, e) =
          bind-eq-ok (is_lease_live env n x)
            (λ live. if live then err ownership_error else ok (leased env run x)) (rw other at h) in
        elim (Bool-cases live) [ inl l ↦ cc (rw l at e) | inr l ↦ lease run fin (cc (rw l at e)) ]
  ]

  lease_step :
      (k run : String) (n : ℕ) (xs : List QueueItem)
      → MayLease k xs
      → Allowed env (has_id k) (take_lease env run n) xs
  lease_step k run n [] m = tt
  lease_step k run n (x ∷ xs) m =
      (λ y px fx. take_lease-JobStep run n x y (m.0 px) fx, lease_step k run n xs m.1)

  -- Leasing a job leaves a sound file, unless the job carries a finish time.
  pub mark_active-IsLeftSound :
      (k run : String) (n : ℕ) (q : Queue) (items : List QueueItem)
      → Sound env.formats q.file items
      → MayLease k items
      → IsLeftSound env.formats (mark_active env k run n q).1.file
  unfolding mark_active
  mark_active-IsLeftSound k run n q items s m = mutation-IsLeftSound env _ q s λ q1 e c s1.
      passed-IsLeftSound env box clock q1 (has_id k) (take_lease env run n)
        (Option.map (λ (i : QueueItem). i.lease_epoch))
        (change_first (has_id k) (take_lease env run n) q1.items) refl c s1
        (lease_step k run n q1.items (subst (MayLease k) (sym e) m))

  beat_step :
      (k run : String) (epoch : Option ℕ) (xs : List QueueItem)
      → Allowed env (has_id k) (beat env run epoch) xs
  unfolding beat
  beat_step k run epoch [] = tt
  beat_step k run epoch (x ∷ xs) = (
    λ y px fx. elim (Bool-cases (owns x run epoch && is_active x.status)) [
      | inl b ↦ heartbeat (ground arith) (cc (rw b at fx))
      | inr b ↦ cc (rw b at fx)
    ],
    beat_step k run epoch xs,
  )

  touched-IsLeftSound :
      (k run : String) (epoch : Option ℕ) (q : Queue)
      (r : Result Error (Option QueueItem × List QueueItem))
      → change_first (has_id k) (beat env run epoch) q.items ≡ r
      → q.corrupt ≡ none
      → Sound env.formats q.file q.items
      → IsLeftSound env.formats (touched env r q).1.file
  touched-IsLeftSound k run epoch q (err e) h c s = (q.items, s)
  touched-IsLeftSound k run epoch q (ok (none, ys)) h c s = (q.items, s)
  touched-IsLeftSound k run epoch q (ok (some y, ys)) h c s =
      passed-IsLeftSound env box clock q (has_id k) (beat env run epoch) (λ _. true)
        (ok (some y, ys)) h c s (beat_step k run epoch q.items)

  -- A heartbeat leaves a sound file.
  pub touch-IsLeftSound :
      (k run : String) (epoch : Option ℕ) (q : Queue) (items : List QueueItem)
      → Sound env.formats q.file items
      → IsLeftSound env.formats (touch env k run epoch q).1.file
  unfolding touch
  touch-IsLeftSound k run epoch q items s = mutation-IsLeftSound env _ q s λ q1 e c s1.
      touched-IsLeftSound k run epoch q1 (change_first (has_id k) (beat env run epoch) q1.items)
        refl c s1
