-- ===== src/Queue/Manager/Exclusive.antt =====
-- A job that one run has claimed is not handed to another while its heartbeat is within the lease.
use mega_basterd_cli.Prelude.{
  ℕ, ◌+◌, ◌*◌, ◌≤◌, String, Bool, true, false, ◌||◌, Option, none, some, List, [], ◌∷◌, ◌≡◌, refl,
  sym, ◌∙◌, arith, inl, inr, Result, ok, err, continue, pure, ◌>>=◌, ◌>>◌, All, Bool-cases, str_eq,
}
use mathlib.Core.Path.{subst}
use mega_basterd_cli.Queue.Model.{Error, QueueItem, JobStatus, is_active}
use mega_basterd_cli.Queue.Platform.{Formats, Platform}
use mega_basterd_cli.Queue.Codec.RoundTrip.{IsBox}
use mega_basterd_cli.Queue.Store.{File, Queue, change_first, lift, write_back, put_items}
use mega_basterd_cli.Queue.Store.Reload.{Sound, Sound-Loads}
use mega_basterd_cli.Queue.Lease.{
  beats, recover_item, is_runnable, is_some, is_nonempty, leased, beat, recover_items,
}
use mega_basterd_cli.Queue.Lease.Step.{IsClock, JobStep-id}
use mega_basterd_cli.Queue.Lease.Passes.{
  All-Found, Found-only, recover_items-inv, recover_item-JobStep, Pass-Found, change_first-Pass,
}
use mathlib.Core.Bool.{false≢true}
use mega_basterd_cli.Queue.Manager.{write_if, claim_next}
use mega_basterd_cli.Queue.Manager.Persist.{mutation_free, mutation_busy}
use mega_basterd_cli.Queue.Manager.Claimed.{claim_next-Claimed, continue-pure_ok}

-- Jobs of this id are active, with a heartbeat of this moment.
abbrev pub HeldSince : Formats → ℕ → String → QueueItem → Type 0
HeldSince f t k j =
    str_eq j.id k ≡ true → (is_active j.status ≡ true) × (j.heartbeat_iso ≡ some (f.isoformat t))

held_not_runnable :
    (st : JobStatus)
    → is_active st ≡ true
    → (elim st [ JobStatus.pending ↦ true | JobStatus.interrupted ↦ true | _ ↦ false ]) ≡ false
held_not_runnable st h = ground arith

only-Held :
    (env : Platform) (run : String) (x y : QueueItem) (ys : List QueueItem)
    → y ≡ leased env run x
    → All (λ (j : QueueItem). str_eq j.id y.id ≡ true → j ≡ y) ys
    → All (HeldSince env.formats env.now y.id) ys
unfolding leased
only-Held env run x y [] e a = tt
only-Held env run x y (j ∷ js) e a =
    (λ h. let p = a.0 h ∙ e in (rw p refl, rw p refl), only-Held env run x y js e a.1)

leased_id :
    (env : Platform) (run : String) (x w : QueueItem) (r : Result Error QueueItem)
    → r ≡ ok (leased env run x)
    → r ≡ ok w
    → w.id ≡ x.id
unfolding leased
leased_id env run x w r e h = ground arith

module _ (env : Platform) (clock : IsClock env.formats) (t n : ℕ) (k : String)
    (live : env.now ≤ t + n * 1000000) where
  held_beats : beats env n (some (env.isoformat t)) ≡ ok true
  held_beats = ground (arith, clock.printed t, clock.read_back t)

  recover_item-Held :
      (x y : QueueItem) (b : Bool)
      → recover_item env n x ≡ ok (b, y)
      → HeldSince env.formats t k x
      → HeldSince env.formats t k y
  unfolding recover_item
  recover_item-Held x y b h held e =
      let (act, beat) = held (rw (← JobStep-id env (recover_item-JobStep env n x y b h)) e) in
      let same : x ≡ y = ground (arith, held_beats) in rw (← same) (act, beat)

  recover_items-Held :
      (xs rs ys : List QueueItem)
      → recover_items env n xs ≡ ok (rs, ys)
      → All (HeldSince env.formats t k) xs
      → All (HeldSince env.formats t k) ys
  recover_items-Held [] rs [] h a = tt
  recover_items-Held [] rs (y ∷ ys) h a = unfold recover_items in cc
  recover_items-Held (x ∷ xs) rs ys h a =
      let (r, rest, one, all, e, _) = recover_items-inv env n x xs rs ys h in
      subst (All (HeldSince env.formats t k)) (sym e)
        (recover_item-Held x r.1 r.0 one a.0, recover_items-Held xs rest.0 rest.1 all a.1)

  other_chosen :
      (run : String) (w : QueueItem) (q q' : Queue) (xs : List QueueItem) (b : Bool)
      (r : Result Error (Option QueueItem × List QueueItem))
      → change_first is_runnable (λ i. ok (leased env run i)) xs ≡ r
      → All (HeldSince env.formats t k) xs
      → continue {S = Queue}
          (λ (chosen : Option QueueItem × List QueueItem). do
            put_items chosen.1
            write_if env (is_some chosen.0 || b)
            pure chosen.0)
          r
          q
        ≡ (ok (some w), q')
      → str_eq w.id k ≡ false
  unfolding leased
  other_chosen run w q q' xs b (err e) h a eq = cc
  other_chosen run w q q' xs b (ok (none, ys)) h a eq =
      let m = write_if env b (record q { items = ys }) in
      let (_, e, _) = continue-pure_ok {A = Option QueueItem} none (some w) m.0 m.1 q' eq in cc e
  other_chosen run w q q' xs b (ok (some z, ys)) h a eq =
      let m = write_back env (record q { items = ys }) in
      let (_, e, _) = continue-pure_ok (some z) (some w) m.0 m.1 q' eq in
      let f =
        Pass-Found w (change_first-Pass is_runnable (λ i. ok (leased env run i)) xs (some z) ys h)
          e in
      let x = f.1.0 in
      let here = f.1.1 in
      let px = f.1.2 in
      let fx = f.1.3 in
      let held = All-Found (HeldSince env.formats t k) x xs a here in
      elim (Bool-cases (str_eq w.id k)) [
        | inl same ↦
            let act = held (
              subst (λ (s : String). str_eq s k ≡ true)
                (leased_id env run x w (ok (leased env run x)) refl fx) same) in
            absurd (false≢true (sym (held_not_runnable x.status act.0) ∙ px))
        | inr other ↦ other
      ]

  other_claimed :
      (run : String) (w : QueueItem) (q q' : Queue)
      (r : Result Error (List QueueItem × List QueueItem))
      → recover_items env n q.items ≡ r
      → All (HeldSince env.formats t k) q.items
      → continue {S = Queue}
          (λ (swept : List QueueItem × List QueueItem). do
            chosen ← lift (change_first is_runnable (λ i. ok (leased env run i)) swept.1)
            put_items chosen.1
            write_if env (is_some chosen.0 || is_nonempty swept.0)
            pure chosen.0)
          r
          q
        ≡ (ok (some w), q')
      → str_eq w.id k ≡ false
  other_claimed run w q q' (err e) h a eq = cc
  other_claimed run w q q' (ok (rs, xs)) h a eq =
      other_chosen run w q q' xs (is_nonempty rs)
        (change_first is_runnable (λ i. ok (leased env run i)) xs) refl
        (recover_items-Held q.items rs xs h a) eq

  claim_next-other :
      (run : String) (w : QueueItem) (q q' : Queue) (jobs : List QueueItem)
      → Sound env.formats q.file jobs
      → All (HeldSince env.formats t k) jobs
      → claim_next env run n q ≡ (ok (some w), q')
      → str_eq w.id k ≡ false
  unfolding claim_next
  claim_next-other run w q q' jobs s a h = elim (Bool-cases env.lock_free) [
    | inl free ↦
        let l = Sound-Loads env q jobs s in
        other_claimed run w l.after q' (recover_items env n l.after.items) refl
          (subst (All (HeldSince env.formats t k)) (sym l.items_eq) a)
          (sym (mutation_free env _ q l free) ∙ h)
    | inr busy ↦ cc (mutation_busy env _ q busy)
  ]

-- A claimed job is not given out again. One process claims `y`; another, over the file that the
-- first left, claims `w` before the lease of `y` is over: `w` is another job.
pub claim_next_exclusive :
    (f : Formats) (first second : Platform)
    → IsBox f
    → IsClock f
    → (run run' : String) (n m : ℕ) (q q1 p p1 : Queue) (items : List QueueItem) (y w : QueueItem)
    → Sound f q.file items
    → claim_next (record first { formats = f }) run n q ≡ (ok (some y), q1)
    → p.file ≡ q1.file
    → second.now ≤ first.now + m * 1000000
    → claim_next (record second { formats = f }) run' m p ≡ (ok (some w), p1)
    → str_eq w.id y.id ≡ false
claim_next_exclusive f first second box clock run run' n m q q1 p p1 items y w s h same live h' =
    let e1 : Platform = record first { formats = f } in
    let e2 : Platform = record second { formats = f } in
    let c = claim_next-Claimed e1 box clock run n y q q1 items s h in
    claim_next-other e2 clock first.now m y.id live run' w p p1 c.jobs
      (subst (λ (file : File). Sound f file c.jobs) (sym same) c.sound)
      (only-Held e1 run c.is_leased.0 y c.jobs c.is_leased.1
        (Found-only y c.jobs c.sound.distinct c.found))
      h'
