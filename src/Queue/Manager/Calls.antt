-- ===== src/Queue/Manager/Calls.antt =====
-- Removals, additions and resets, and all calls together: whatever the calls, a sound file stays one.
use mega_basterd_cli.Prelude.{
  ℕ, String, Bool, true, false, not, Option, none, List, [], ◌∷◌, ◌++◌, ◌≡◌, refl, sym, inl, inr,
  Result, ok, err, continue, pure, All, All-append, keep_if, Bool-cases, length, str_eq, ◌==◌, ◌-◌,
}
use mathlib.Core.Path.{subst}
use mega_basterd_cli.Queue.Model.{Error, QueueItem, JobStatus}
use mega_basterd_cli.Queue.Platform.{Formats, Platform}
use mega_basterd_cli.Queue.Codec.RoundTrip.{IsStorable, IsBox}
use mega_basterd_cli.Queue.Codec.Written.{Distinct}
use mega_basterd_cli.Queue.Store.{File, absent, Queue, locked, write_back}
use mega_basterd_cli.Queue.Store.Reload.{Sound, Loads, Sound-Loads}
use mega_basterd_cli.Queue.Lease.{has_id, is_cleared, stamp}
use mega_basterd_cli.Queue.Lease.Step.{IsClock}
use mega_basterd_cli.Queue.Manager.{
  add, drop_items, remove, update_status, mark_active, touch, recover_interrupted, claim_next,
  retry, clear_done, reset,
}
use mega_basterd_cli.Queue.Manager.Persist.{
  IsLeftSound, mutation-IsLeftSound, write_back-IsLeftSound, continue-pure,
}
use mega_basterd_cli.Queue.Manager.Sound.{
  MayTake, MayLease, update_status-IsLeftSound, mark_active-IsLeftSound, touch-IsLeftSound,
}
use mega_basterd_cli.Queue.Manager.Sweep.{
  retry-IsLeftSound, recover_interrupted-IsLeftSound, claim_next-IsLeftSound,
}

pub keep_if-All {ℓ} :
    (P : QueueItem → Type ℓ) (keep : QueueItem → Bool) (xs : List QueueItem)
    → All P xs
    → All P (keep_if keep xs)
keep_if-All P keep [] a = tt
keep_if-All P keep (x ∷ xs) a = elim (Bool-cases (keep x)) [
  | inl e ↦ rw e (a.0, keep_if-All P keep xs a.1)
  | inr e ↦ rw e (keep_if-All P keep xs a.1)
]

keep_if-Distinct :
    (keep : QueueItem → Bool) (xs : List QueueItem) → Distinct xs → Distinct (keep_if keep xs)
keep_if-Distinct keep [] d = tt
keep_if-Distinct keep (x ∷ xs) d = elim (Bool-cases (keep x)) [
  | inl e ↦ rw e (
    keep_if-All (λ (j : QueueItem). str_eq j.id x.id ≡ false) keep xs d.0,
    keep_if-Distinct keep xs d.1,
  )
  | inr e ↦ rw e (keep_if-Distinct keep xs d.1)
]

Distinct-snoc :
    (x : QueueItem) (xs : List QueueItem)
    → Distinct xs
    → All (λ (j : QueueItem). str_eq x.id j.id ≡ false) xs
    → Distinct (xs ++ x ∷ [])
Distinct-snoc x [] d a = (tt, tt)
Distinct-snoc x (y ∷ ys) d a = (
  All-append (λ (j : QueueItem). str_eq j.id y.id ≡ false) ys (x ∷ []) d.0 (a.0, tt),
  Distinct-snoc x ys d.1 a.1,
)

-- A job that may be added: once stamped it may be written, and its id is new.
pub record MayAdd (env : Platform) (i : QueueItem) (items : List QueueItem) : Type 0 where
  pub storable : IsStorable env.formats (stamp env i)
  pub new : All (λ (j : QueueItem). str_eq (stamp env i).id j.id ≡ false) items

module _ (env : Platform) (box : IsBox env.formats) (clock : IsClock env.formats) where
  dropped-IsLeftSound :
      (keep : QueueItem → Bool) (q : Queue) (b : Bool)
      → length (keep_if keep q.items) == length q.items ≡ b
      → q.corrupt ≡ none
      → Sound env.formats q.file q.items
      → IsLeftSound env.formats (drop_items env keep q).1.file
  dropped-IsLeftSound keep q true h c s = rw h (q.items, s)
  dropped-IsLeftSound keep q false h c s =
      let ys = keep_if keep q.items in
      let q2 = write_back env (record q { items = ys }) in
      rw h (
        subst (λ (z : Queue). IsLeftSound env.formats z.file)
          (sym (continue-pure (length q.items - length ys) q2.0 q2.1))
          (write_back-IsLeftSound env box clock (record q { items = ys }) c s
            (keep_if-Distinct keep q.items s.distinct)
            (keep_if-All (IsStorable env.formats) keep q.items s.storable)))

  -- Clearing finished jobs leaves a sound file.
  clear_done-IsLeftSound :
      (q : Queue) (items : List QueueItem)
      → Sound env.formats q.file items
      → IsLeftSound env.formats (clear_done env q).1.file
  unfolding clear_done
  clear_done-IsLeftSound q items s = mutation-IsLeftSound env _ q s λ q1 e c s1.
      dropped-IsLeftSound (λ i. not (is_cleared i)) q1
        (length (keep_if (λ i. not (is_cleared i)) q1.items) == length q1.items) refl c s1

  then_pure :
      {A B : Type 0} (f : A → B) (r : Result Error A) (q : Queue)
      → (continue {S = Queue} (λ a. pure (f a)) r q).1 ≡ q
  then_pure f (ok a) q = refl
  then_pure f (err e) q = refl

  -- Removing a job leaves a sound file.
  remove-IsLeftSound :
      (k : String) (q : Queue) (items : List QueueItem)
      → Sound env.formats q.file items
      → IsLeftSound env.formats (remove env k q).1.file
  unfolding remove
  remove-IsLeftSound k q items s = mutation-IsLeftSound env _ q s λ q1 e c s1.
      let keep = λ (i : QueueItem). not (has_id k i) in
      let q2 = drop_items env keep q1 in
      subst (λ (z : Queue). IsLeftSound env.formats z.file)
        (sym (then_pure (λ (n : ℕ). not (n == 0)) q2.0 q2.1))
        (dropped-IsLeftSound keep q1 (length (keep_if keep q1.items) == length q1.items) refl c s1)

  -- Adding such a job leaves a sound file.
  add-IsLeftSound :
      (i : QueueItem) (q : Queue) (items : List QueueItem)
      → Sound env.formats q.file items
      → MayAdd env i items
      → IsLeftSound env.formats (add env i q).1.file
  unfolding add
  add-IsLeftSound i q items s m = mutation-IsLeftSound env _ q s λ q1 e c s1.
      let new =
        subst (All (λ (j : QueueItem). str_eq (stamp env i).id j.id ≡ false)) (sym e) m.new in
      let ys = q1.items ++ stamp env i ∷ [] in
      let q2 = write_back env (record q1 { items = ys }) in
      subst (λ (z : Queue). IsLeftSound env.formats z.file)
        (sym (continue-pure (stamp env i).id q2.0 q2.1))
        (write_back-IsLeftSound env box clock (record q1 { items = ys }) c s1
          (Distinct-snoc (stamp env i) q1.items s1.distinct new)
          (All-append (IsStorable env.formats) q1.items (stamp env i ∷ []) s1.storable
            (m.storable, tt)))

  -- A reset leaves a sound file.
  reset-IsLeftSound :
      (q : Queue) (items : List QueueItem)
      → Sound env.formats q.file items
      → IsLeftSound env.formats (reset env q).1.file
  unfolding reset locked
  reset-IsLeftSound q items s = elim (Bool-cases env.lock_free) [
    | inl free ↦ simp free (
        write_back-IsLeftSound env box clock
          (record q { corrupt = none; had_secrets = false; items = [] }) refl s tt tt)
    | inr busy ↦ rw busy (items, s)
  ]

-- The calls of the manager.
pub data Call : Type 0 where
  add_job : QueueItem → Call
  remove_job retry_job : String → Call
  set_status : String → JobStatus → Option String → Option String → Option ℕ → Call
  activate : String → String → ℕ → Call
  touch_job : String → String → Option ℕ → Call
  recover_jobs : ℕ → Call
  claim : String → ℕ → Call
  clear reset_queue : Call

-- The object after a call.
abbrev pub after : Platform → Call → Queue → Queue
after env (add_job i) q = (add env i q).1
after env (remove_job k) q = (remove env k q).1
after env (retry_job k) q = (retry env k q).1
after env (set_status k st error run epoch) q = (update_status env k st error run epoch q).1
after env (activate k run n) q = (mark_active env k run n q).1
after env (touch_job k run epoch) q = (touch env k run epoch q).1
after env (recover_jobs n) q = (recover_interrupted env n q).1
after env (claim run n) q = (claim_next env run n q).1
after env clear q = (clear_done env q).1
after env reset_queue q = (reset env q).1

-- What a caller has to see to: a new job must be one that may be stored, and a job that is not
-- finished any more must carry no finish time.
abbrev pub May : Platform → Call → List QueueItem → Type 0
May env (add_job i) items = MayAdd env i items
May env (set_status k st error run epoch) items = MayTake k st items
May env (activate k run n) items = MayLease k items
May env _ items = Unit

abbrev pub with_formats : Platform → Formats → Platform
with_formats env f = record env { formats = f }

-- The files that come about from no file by calls of any processes, one after the other under the
-- file lock. Every process has an object of its own, with whatever it remembers.
pub data Reach (f : Formats) : File → Type 0 where
  start : Reach f absent
  call :
      {file : File}
      → Reach f file
      → (env : Platform) (c : Call) (q : Queue) → q.file ≡ file
      → ((items : List QueueItem) → Sound f file items → May (with_formats env f) c items)
      → Reach f (after (with_formats env f) c q).file

module _ (env : Platform) (box : IsBox env.formats) (clock : IsClock env.formats) where
  after-IsLeftSound :
      (c : Call) (q : Queue) (items : List QueueItem)
      → Sound env.formats q.file items
      → May env c items
      → IsLeftSound env.formats (after env c q).file
  after-IsLeftSound (add_job i) q items s m = add-IsLeftSound env box clock i q items s m
  after-IsLeftSound (remove_job k) q items s m = remove-IsLeftSound env box clock k q items s
  after-IsLeftSound (retry_job k) q items s m = retry-IsLeftSound env box clock k q items s
  after-IsLeftSound (set_status k st error run epoch) q items s m =
      update_status-IsLeftSound env box clock k st error run epoch q items s m
  after-IsLeftSound (activate k run n) q items s m =
      mark_active-IsLeftSound env box clock k run n q items s m
  after-IsLeftSound (touch_job k run epoch) q items s m =
      touch-IsLeftSound env box clock k run epoch q items s
  after-IsLeftSound (recover_jobs n) q items s m =
      recover_interrupted-IsLeftSound env box clock n q items s
  after-IsLeftSound (claim run n) q items s m = claim_next-IsLeftSound env box clock run n q items s
  after-IsLeftSound clear q items s m = clear_done-IsLeftSound env box clock q items s
  after-IsLeftSound reset_queue q items s m = reset-IsLeftSound env box clock q items s

-- Whatever the calls, and whichever of them fail, the file is one that the next load accepts.
Reach-IsLeftSound :
    (f : Formats) → IsBox f → IsClock f → (file : File) → Reach f file → IsLeftSound f file
Reach-IsLeftSound f box clock file start =
    ([], record { stored = inl (refl, refl); distinct = tt; storable = tt })
Reach-IsLeftSound f box clock file (call {file = before} r env c q e m) =
    let (items, s) = Reach-IsLeftSound f box clock before r in
    after-IsLeftSound (with_formats env f) box clock c q items
      (subst (λ (z : File). Sound f z items) (sym e) s) (m items s)

-- Whatever the calls of whichever processes, failed ones included, every later load succeeds,
-- changes nothing, and has jobs of distinct ids. The calls keep the rules of `May`.
pub Reach-Loads :
    (f : Formats)
    → IsBox f
    → IsClock f
    → (file : File) → Reach f file
    → (items : List QueueItem) × Distinct items
      × ((env : Platform) (q : Queue) → q.file ≡ file → Loads (with_formats env f) q items)
Reach-Loads f box clock file r =
    let (items, s) = Reach-IsLeftSound f box clock file r in
    (
      items,
      s.distinct,
      λ env q e.
          Sound-Loads (with_formats env f) q items
            (subst (λ (z : File). Sound f z items) (sym e) s),
    )
