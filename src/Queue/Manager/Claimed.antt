-- ===== src/Queue/Manager/Claimed.antt =====
-- One job, one owner: a claimed job cannot be claimed again while its heartbeat is within the lease.
use mega_basterd_cli.Prelude.{
  ℕ, String, Bool, ◌||◌, Option, none, some, List, ◌≡◌, refl, sym, ◌∙◌, inl, inr, Result, ok, err,
  continue, pure, ◌>>=◌, ◌>>◌, All, Bool-cases,
}
use mathlib.Core.Path.{subst}
use mega_basterd_cli.Queue.Model.{Error, QueueItem}
use mega_basterd_cli.Queue.Platform.{Platform}
use mega_basterd_cli.Queue.Codec.RoundTrip.{IsStorable, IsBox}
use mega_basterd_cli.Queue.Codec.Written.{Distinct}
use mega_basterd_cli.Queue.Store.{File, Queue, change_first, lift, write_back, put_items}
use mega_basterd_cli.Queue.Store.Reload.{Sound, Sound-Loads, wrote, kept, write_back-Wrote}
use mega_basterd_cli.Queue.Lease.{is_runnable, is_some, is_nonempty, leased, recover_items}
use mega_basterd_cli.Queue.Lease.Step.{IsClock, Moves-Distinct, Moves-IsStorable}
use mega_basterd_cli.Queue.Lease.Passes.{
  Found, Pass-Found, change_first-Pass, Pass-Moves, recover_items-Moves,
}
use mega_basterd_cli.Queue.Manager.{write_if, claim_next}
use mega_basterd_cli.Queue.Manager.Sweep.{claim_step}
use mega_basterd_cli.Queue.Manager.Persist.{mutation_free, mutation_busy}

-- A claim that returned a job: what it stored.
pub record Claimed (env : Platform) (run : String) (y : QueueItem) (file : File) : Type 0 where
  pub jobs : List QueueItem
  pub sound : Sound env.formats file jobs
  pub found : Found y jobs
  pub is_leased : (x : QueueItem) × (y ≡ leased env run x)

pub continue-pure_ok :
    {A : Type 0} (a c : A) (r : Result Error (Unit {0})) (q q' : Queue)
    → continue {S = Queue} (λ (_ : Unit {0}). pure a) r q ≡ (ok c, q')
    → (r ≡ ok tt) × (a ≡ c) × (q ≡ q')
continue-pure_ok a c (ok tt) q q' h = (refl, cc, cc)
continue-pure_ok a c (err e) q q' h = cc

module _ (env : Platform) (box : IsBox env.formats) (clock : IsClock env.formats)
    (run : String) where
  wrote-Sound :
      (q : Queue)
      → q.corrupt ≡ none
      → Distinct q.items
      → All (IsStorable env.formats) q.items
      → (write_back env q).0 ≡ ok tt
      → Sound env.formats (write_back env q).1.file q.items
  wrote-Sound q c d st h = elim (write_back-Wrote env box q c d st) [
    | wrote r s ↦ s
    | kept e r same ↦ cc
  ]

  chosen-Claimed :
      (y : QueueItem) (q q' : Queue) (xs : List QueueItem) (b : Bool)
      (r : Result Error (Option QueueItem × List QueueItem))
      → change_first is_runnable (λ i. ok (leased env run i)) xs ≡ r
      → q.corrupt ≡ none
      → Distinct xs
      → All (IsStorable env.formats) xs
      → continue {S = Queue}
          (λ (chosen : Option QueueItem × List QueueItem). do
            put_items chosen.1
            write_if env (is_some chosen.0 || b)
            pure chosen.0)
          r
          q
        ≡ (ok (some y), q')
      → Claimed env run y q'.file
  chosen-Claimed y q q' xs b (err e) h c d st eq = cc
  chosen-Claimed y q q' xs b (ok (none, ys)) h c d st eq =
      let w = write_if env b (record q { items = ys }) in
      let (_, e, _) = continue-pure_ok {A = Option QueueItem} none (some y) w.0 w.1 q' eq in cc e
  chosen-Claimed y q q' xs b (ok (some z, ys)) h c d st eq =
      let w = write_back env (record q { items = ys }) in
      let (r, e, e') = continue-pure_ok (some z) (some y) w.0 w.1 q' eq in
      let pass = change_first-Pass is_runnable (λ i. ok (leased env run i)) xs (some z) ys h in
      let m = Pass-Moves env pass (claim_step env box clock run xs st) in
      let f = Pass-Found y pass e in
      record {
        jobs = ys;
        sound =
            subst (λ (p : Queue). Sound env.formats p.file ys) e'
              (wrote-Sound (record q { items = ys }) c (Moves-Distinct env xs ys m d)
                (Moves-IsStorable env clock xs ys m st) r);
        found = f.0;
        is_leased = (f.1.0, cc (f.1.3));
      }

  claim_body-Claimed :
      (n : ℕ) (y : QueueItem) (q q' : Queue) (r : Result Error (List QueueItem × List QueueItem))
      → recover_items env n q.items ≡ r
      → q.corrupt ≡ none
      → Sound env.formats q.file q.items
      → continue {S = Queue}
          (λ (swept : List QueueItem × List QueueItem). do
            chosen ← lift (change_first is_runnable (λ i. ok (leased env run i)) swept.1)
            put_items chosen.1
            write_if env (is_some chosen.0 || is_nonempty swept.0)
            pure chosen.0)
          r
          q
        ≡ (ok (some y), q')
      → Claimed env run y q'.file
  claim_body-Claimed n y q q' (err e) h c s eq = cc
  claim_body-Claimed n y q q' (ok (rs, xs)) h c s eq =
      let m = recover_items-Moves env n q.items rs xs h in
      chosen-Claimed y q q' xs (is_nonempty rs)
        (change_first is_runnable (λ i. ok (leased env run i)) xs) refl c
        (Moves-Distinct env q.items xs m s.distinct)
        (Moves-IsStorable env clock q.items xs m s.storable) eq

  pub claim_next-Claimed :
      (n : ℕ) (y : QueueItem) (q q' : Queue) (items : List QueueItem)
      → Sound env.formats q.file items
      → claim_next env run n q ≡ (ok (some y), q')
      → Claimed env run y q'.file
  unfolding claim_next
  claim_next-Claimed n y q q' items s h = elim (Bool-cases env.lock_free) [
    | inl free ↦
        let l = Sound-Loads env q items s in
        claim_body-Claimed n y l.after q' (recover_items env n l.after.items) refl l.sound
          (subst (Sound env.formats l.after.file) (sym l.items_eq)
            (subst (λ (file : File). Sound env.formats file items) (sym l.same_file) s))
          (sym (mutation_free env _ q l free) ∙ h)
    | inr busy ↦ cc (mutation_busy env _ q busy)
  ]
