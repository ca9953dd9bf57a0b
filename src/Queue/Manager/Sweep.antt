-- ===== src/Queue/Manager/Sweep.antt =====
-- Recovery, claims, retries, removals, additions and resets leave a sound file.
use mega_basterd_cli.Prelude.{
  ℕ, String, Bool, true, false, ◌&&◌, ◌||◌, Option, none, some, List, [], ◌∷◌, ◌≡◌, refl, sym,
  arith, Result, ok, err, continue, pure, ◌>>=◌, ◌>>◌, All, if◌then◌else◌,
}
use mathlib.Core.Path.{subst}
use mega_basterd_cli.Queue.Model.{Error, QueueItem, JobStatus, is_terminal}
use mega_basterd_cli.Queue.Platform.{Platform}
use mega_basterd_cli.Queue.Codec.RoundTrip.{IsStorable, IsBox}
use mega_basterd_cli.Queue.Codec.Written.{Distinct}
use mega_basterd_cli.Queue.Store.{Queue, change_first, lift, write_back, put_items}
use mega_basterd_cli.Queue.Store.Reload.{Sound}
use mega_basterd_cli.Queue.Lease.{
  has_id, is_runnable, is_retriable, renewed, is_some, is_nonempty, leased, recover_items,
}
use mega_basterd_cli.Queue.Lease.Step.{IsClock, lease, again, Moves-Distinct, Moves-IsStorable}
use mega_basterd_cli.Queue.Lease.Passes.{
  Allowed, change_first-Pass, Pass-Moves, recover_items-Moves,
}
use mega_basterd_cli.Queue.Manager.{write_if, recover_interrupted, claim_next, retry}
use mega_basterd_cli.Queue.Manager.Persist.{
  IsLeftSound, mutation-IsLeftSound, write_back-IsLeftSound, passed-IsLeftSound, continue-pure,
}

runnable_unfinished :
    (st : JobStatus)
    → (elim st [ JobStatus.pending ↦ true | JobStatus.interrupted ↦ true | _ ↦ false ]) ≡ true
    → is_terminal st ≡ false
runnable_unfinished st h = ground arith

module _ (env : Platform) (box : IsBox env.formats) (clock : IsClock env.formats) where
  retry_step :
      (k : String) (xs : List QueueItem)
      → Allowed env (λ i. has_id k i && is_retriable i.status) (λ i. ok (renewed i)) xs
  retry_step k [] = tt
  retry_step k (x ∷ xs) = (λ y px fx. again (ground arith) (cc), retry_step k xs)

  retried-IsLeftSound :
      (k : String) (q : Queue) (r : Result Error (Option QueueItem × List QueueItem))
      → change_first (λ i. has_id k i && is_retriable i.status) (λ i. ok (renewed i)) q.items ≡ r
      → q.corrupt ≡ none
      → Sound env.formats q.file q.items
      → IsLeftSound env.formats
          (continue {S = Queue}
            (λ (found : Option QueueItem × List QueueItem).
              if is_some found.0
              then (do put_items found.1; write_back env; pure true)
              else pure false)
            r
            q).1.file
  retried-IsLeftSound k q (err e) h c s = (q.items, s)
  retried-IsLeftSound k q (ok (none, ys)) h c s = (q.items, s)
  retried-IsLeftSound k q (ok (some y, ys)) h c s =
      passed-IsLeftSound env box clock q (λ i. has_id k i && is_retriable i.status)
        (λ i. ok (renewed i)) (λ _. true) (ok (some y, ys)) h c s (retry_step k q.items)

  -- A retry leaves a sound file.
  pub retry-IsLeftSound :
      (k : String) (q : Queue) (items : List QueueItem)
      → Sound env.formats q.file items
      → IsLeftSound env.formats (retry env k q).1.file
  unfolding retry
  retry-IsLeftSound k q items s = mutation-IsLeftSound env _ q s λ q1 e c s1.
      retried-IsLeftSound k q1
        (change_first (λ i. has_id k i && is_retriable i.status) (λ i. ok (renewed i)) q1.items)
        refl c s1

  -- Storing these jobs, if there is anything to store, and returning.
  stored-IsLeftSound :
      {A : Type 0} (q : Queue) (ys : List QueueItem) (b : Bool) (a : A)
      → q.corrupt ≡ none
      → Sound env.formats q.file q.items
      → Distinct ys
      → All (IsStorable env.formats) ys
      → IsLeftSound env.formats ((put_items ys >> write_if env b >> pure a) q).1.file
  stored-IsLeftSound q ys true a c s d st =
      let q2 = (write_back env (record q { items = ys })) in
      subst (λ (z : Queue). IsLeftSound env.formats z.file) (sym (continue-pure a q2.0 q2.1))
        (write_back-IsLeftSound env box clock (record q { items = ys }) c s d st)
  stored-IsLeftSound q ys false a c s d st = (q.items, s)

  swept-IsLeftSound :
      (q : Queue) (r : Result Error (List QueueItem × List QueueItem)) (n : ℕ)
      → recover_items env n q.items ≡ r
      → q.corrupt ≡ none
      → Sound env.formats q.file q.items
      → IsLeftSound env.formats
          (continue {S = Queue}
            (λ (swept : List QueueItem × List QueueItem). do
              put_items swept.1
              write_if env (is_nonempty swept.0)
              pure swept.0)
            r
            q).1.file
  swept-IsLeftSound q (err e) n h c s = (q.items, s)
  swept-IsLeftSound q (ok (rs, ys)) n h c s =
      let m = recover_items-Moves env n q.items rs ys h in
      stored-IsLeftSound q ys (is_nonempty rs) rs c s (Moves-Distinct env q.items ys m s.distinct)
        (Moves-IsStorable env clock q.items ys m s.storable)

  -- A recovery leaves a sound file.
  pub recover_interrupted-IsLeftSound :
      (n : ℕ) (q : Queue) (items : List QueueItem)
      → Sound env.formats q.file items
      → IsLeftSound env.formats (recover_interrupted env n q).1.file
  unfolding recover_interrupted
  recover_interrupted-IsLeftSound n q items s =
      mutation-IsLeftSound env _ q s
        λ q1 e c s1. swept-IsLeftSound q1 (recover_items env n q1.items) n refl c s1

  pub claim_step :
      (run : String) (xs : List QueueItem)
      → All (IsStorable env.formats) xs
      → Allowed env is_runnable (λ i. ok (leased env run i)) xs
  claim_step run [] st = tt
  claim_step run (x ∷ xs) st = (
    λ y px fx. lease run (st.0.unfinished (runnable_unfinished x.status px)) (cc),
    claim_step run xs st.1,
  )

  chosen-IsLeftSound :
      (run : String) (q : Queue) (xs : List QueueItem) (b : Bool)
      (r : Result Error (Option QueueItem × List QueueItem))
      → change_first is_runnable (λ i. ok (leased env run i)) xs ≡ r
      → q.corrupt ≡ none
      → Sound env.formats q.file q.items
      → Distinct xs
      → All (IsStorable env.formats) xs
      → IsLeftSound env.formats
          (continue {S = Queue}
            (λ (chosen : Option QueueItem × List QueueItem). do
              put_items chosen.1
              write_if env (is_some chosen.0 || b)
              pure chosen.0)
            r
            q).1.file
  chosen-IsLeftSound run q xs b (err e) h c s d st = (q.items, s)
  chosen-IsLeftSound run q xs b (ok (o, ys)) h c s d st =
      let m =
        Pass-Moves env (change_first-Pass is_runnable (λ i. ok (leased env run i)) xs o ys h)
          (claim_step run xs st) in
      stored-IsLeftSound q ys (is_some o || b) o c s (Moves-Distinct env xs ys m d)
        (Moves-IsStorable env clock xs ys m st)

  claimed-IsLeftSound :
      (run : String) (n : ℕ) (q : Queue) (r : Result Error (List QueueItem × List QueueItem))
      → recover_items env n q.items ≡ r
      → q.corrupt ≡ none
      → Sound env.formats q.file q.items
      → IsLeftSound env.formats
          (continue {S = Queue}
            (λ (swept : List QueueItem × List QueueItem). do
              chosen ← lift (change_first is_runnable (λ i. ok (leased env run i)) swept.1)
              put_items chosen.1
              write_if env (is_some chosen.0 || is_nonempty swept.0)
              pure chosen.0)
            r
            q).1.file
  claimed-IsLeftSound run n q (err e) h c s = (q.items, s)
  claimed-IsLeftSound run n q (ok (rs, xs)) h c s =
      let m = recover_items-Moves env n q.items rs xs h in
      chosen-IsLeftSound run q xs (is_nonempty rs)
        (change_first is_runnable (λ i. ok (leased env run i)) xs) refl c s
        (Moves-Distinct env q.items xs m s.distinct)
        (Moves-IsStorable env clock q.items xs m s.storable)

  -- A claim leaves a sound file.
  pub claim_next-IsLeftSound :
      (run : String) (n : ℕ) (q : Queue) (items : List QueueItem)
      → Sound env.formats q.file items
      → IsLeftSound env.formats (claim_next env run n q).1.file
  unfolding claim_next
  claim_next-IsLeftSound run n q items s =
      mutation-IsLeftSound env _ q s
        λ q1 e c s1. claimed-IsLeftSound run n q1 (recover_items env n q1.items) refl c s1
