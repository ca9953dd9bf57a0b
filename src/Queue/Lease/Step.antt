-- ===== src/Queue/Lease/Step.antt =====
-- The moves that the queue makes with one job, and what each keeps.
use mega_basterd_cli.Prelude.{
  ℕ, ◌≤◌, String, true, false, Option, none, some, List, [], ◌∷◌, ◌≡◌, refl, sym, ◌∙◌, arith, All,
  str_eq, is_truthy,
}
use mathlib.Core.Path.{subst}
use mathlib.Core.Bool.{false≢true}
use mega_basterd_cli.Queue.Model.{QueueItem, JobStatus, is_active, is_terminal}
use mega_basterd_cli.Queue.Platform.{Formats, Platform, aware}
use mega_basterd_cli.Queue.Schema.{validate_iso_timestamp, with_offset}
use mega_basterd_cli.Queue.Codec.{or_null}
use mega_basterd_cli.Queue.Codec.RoundTrip.{IsStorable}
use mega_basterd_cli.Queue.Codec.Written.{Distinct}
use mega_basterd_cli.Queue.Lease.{with_status, leased, interrupt, renewed, is_retriable}

-- `datetime`'s ISO format: what it prints in UTC is not empty, ends in an offset rather than a Z,
-- and is read back as the same moment.
pub record IsClock (f : Formats) : Type 0 where
  pub printed : (t : ℕ) → is_truthy (f.isoformat t) ≡ true
  pub with_zone : (t : ℕ) → with_offset (f.isoformat t) ≡ f.isoformat t
  pub read_back : (t : ℕ) → f.fromisoformat (f.isoformat t) ≡ some (aware t)

pub data JobStep (env : Platform) (x y : QueueItem) : Type 0 where
  unchanged : y ≡ x → JobStep env x y
  set_status :
      (st : JobStatus) (error : Option String)
      → (is_terminal st ≡ false → x.finished_iso ≡ none)
      → y ≡ with_status env st error x
      → JobStep env x y
  lease : (run : String) → x.finished_iso ≡ none → y ≡ leased env run x → JobStep env x y
  heartbeat :
      is_active x.status ≡ true
      → y ≡ record x { heartbeat_iso = some (env.isoformat env.now) }
      → JobStep env x y
  recover : is_active x.status ≡ true → y ≡ interrupt x → JobStep env x y
  again : is_retriable x.status ≡ true → y ≡ renewed x → JobStep env x y

module _ (env : Platform) {x y : QueueItem} where
  pub JobStep-id : JobStep env x y → y.id ≡ x.id
  unfolding with_status leased
  JobStep-id (unchanged e) = rw e
  JobStep-id (set_status st error h e) = rw e
  JobStep-id (lease run h e) = rw e
  JobStep-id (heartbeat h e) = rw e
  JobStep-id (recover h e) = rw e
  JobStep-id (again h e) = rw e

  -- The lease generation of a job never falls.
  JobStep-lease_epoch : JobStep env x y → x.lease_epoch ≤ y.lease_epoch
  unfolding with_status leased
  JobStep-lease_epoch (unchanged e) = rw e (omega arith)
  JobStep-lease_epoch (set_status st error h e) = rw e (omega arith)
  JobStep-lease_epoch (lease run h e) = rw e (omega arith)
  JobStep-lease_epoch (heartbeat h e) = rw e (omega arith)
  JobStep-lease_epoch (recover h e) = rw e (omega arith)
  JobStep-lease_epoch (again h e) = rw e (omega arith)

active-not-terminal : (st : JobStatus) → is_active st ≡ true → is_terminal st ≡ false
active-not-terminal st h = ground arith

module _ (env : Platform) (clock : IsClock env.formats) where
  stamp_ok :
      (k : String) (t : ℕ)
      → validate_iso_timestamp env.formats k (or_null (some (env.isoformat t))) ≡ none
  unfolding validate_iso_timestamp
  stamp_ok k t = ground (arith, clock.printed t, clock.with_zone t, clock.read_back t)

  null_ok : (k : String) → validate_iso_timestamp env.formats k (or_null none) ≡ none
  unfolding validate_iso_timestamp
  null_ok k = refl

  with_status-IsStorable :
      (st : JobStatus) (error : Option String) (x : QueueItem)
      → (is_terminal st ≡ false → x.finished_iso ≡ none)
      → IsStorable env.formats x
      → IsStorable env.formats (with_status env st error x)
  unfolding with_status
  with_status-IsStorable st error x fin h = record {
    id = h.id;
    source = h.source;
    created = h.created;
    finished = ground (arith, stamp_ok "finished_iso" env.now, h.finished);
    heartbeat = ground (arith, null_ok "heartbeat_iso", h.heartbeat);
    run_leased = ground arith;
    beat_leased = ground arith;
    unfinished = ground arith;
    secret = h.secret;
    extra = h.extra;
  }

  leased-IsStorable :
      (run : String) (x : QueueItem)
      → x.finished_iso ≡ none
      → IsStorable env.formats x
      → IsStorable env.formats (leased env run x)
  unfolding leased
  leased-IsStorable run x fin h = record {
    id = h.id;
    source = h.source;
    created = h.created;
    finished = h.finished;
    heartbeat = stamp_ok "heartbeat_iso" env.now;
    run_leased = cc;
    beat_leased = cc;
    unfinished = λ _. fin;
    secret = h.secret;
    extra = h.extra;
  }

  heartbeat-IsStorable :
      (x : QueueItem)
      → is_active x.status ≡ true
      → IsStorable env.formats x
      → IsStorable env.formats (record x { heartbeat_iso = some (env.isoformat env.now) })
  heartbeat-IsStorable x act h = record {
    id = h.id;
    source = h.source;
    created = h.created;
    finished = h.finished;
    heartbeat = stamp_ok "heartbeat_iso" env.now;
    run_leased = h.run_leased;
    beat_leased = λ e. absurd (false≢true (sym e ∙ act));
    unfinished = h.unfinished;
    secret = h.secret;
    extra = h.extra;
  }

  interrupt-IsStorable :
      (x : QueueItem)
      → is_active x.status ≡ true
      → IsStorable env.formats x
      → IsStorable env.formats (interrupt x)
  interrupt-IsStorable x act h = record {
    id = h.id;
    source = h.source;
    created = h.created;
    finished = h.finished;
    heartbeat = null_ok "heartbeat_iso";
    run_leased = λ _. refl;
    beat_leased = λ _. refl;
    unfinished = λ _. h.unfinished (active-not-terminal x.status act);
    secret = h.secret;
    extra = h.extra;
  }

  renewed-IsStorable :
      (x : QueueItem) → IsStorable env.formats x → IsStorable env.formats (renewed x)
  renewed-IsStorable x h = record {
    id = h.id;
    source = h.source;
    created = h.created;
    finished = null_ok "finished_iso";
    heartbeat = null_ok "heartbeat_iso";
    run_leased = λ _. refl;
    beat_leased = λ _. refl;
    unfinished = λ _. refl;
    secret = h.secret;
    extra = h.extra;
  }

  -- A move takes a job that may be written to one that may be written.
  JobStep-IsStorable :
      (x y : QueueItem) → JobStep env x y → IsStorable env.formats x → IsStorable env.formats y
  JobStep-IsStorable x y (unchanged e) h = subst (IsStorable env.formats) (sym e) h
  JobStep-IsStorable x y (set_status st error f e) h =
      subst (IsStorable env.formats) (sym e) (with_status-IsStorable st error x f h)
  JobStep-IsStorable x y (lease run f e) h =
      subst (IsStorable env.formats) (sym e) (leased-IsStorable run x f h)
  JobStep-IsStorable x y (heartbeat a e) h =
      subst (IsStorable env.formats) (sym e) (heartbeat-IsStorable x a h)
  JobStep-IsStorable x y (recover a e) h =
      subst (IsStorable env.formats) (sym e) (interrupt-IsStorable x a h)
  JobStep-IsStorable x y (again r e) h =
      subst (IsStorable env.formats) (sym e) (renewed-IsStorable x h)

-- Every job makes a move, in place.
abbrev pub Moves : Platform → List QueueItem → List QueueItem → Type 0
Moves env [] [] = Unit
Moves env (x ∷ xs) (y ∷ ys) = JobStep env x y × Moves env xs ys
Moves env [] (y ∷ ys) = ⊥
Moves env (x ∷ xs) [] = ⊥

module _ (env : Platform) where
  pub Moves-refl : (xs : List QueueItem) → Moves env xs xs
  Moves-refl [] = tt
  Moves-refl (x ∷ xs) = (unchanged refl, Moves-refl xs)

  Moves-other_ids :
      (k : String) (xs ys : List QueueItem)
      → Moves env xs ys
      → All (λ (j : QueueItem). str_eq j.id k ≡ false) xs
      → All (λ (j : QueueItem). str_eq j.id k ≡ false) ys
  Moves-other_ids k [] [] m a = tt
  Moves-other_ids k (x ∷ xs) (y ∷ ys) m a =
      (rw (JobStep-id env m.0) a.0, Moves-other_ids k xs ys m.1 a.1)
  Moves-other_ids k [] (y ∷ ys) m a = absurd m
  Moves-other_ids k (x ∷ xs) [] m a = absurd m

  pub Moves-Distinct : (xs ys : List QueueItem) → Moves env xs ys → Distinct xs → Distinct ys
  Moves-Distinct [] [] m d = tt
  Moves-Distinct (x ∷ xs) (y ∷ ys) m d =
      (rw (JobStep-id env m.0) (Moves-other_ids x.id xs ys m.1 d.0), Moves-Distinct xs ys m.1 d.1)
  Moves-Distinct [] (y ∷ ys) m d = absurd m
  Moves-Distinct (x ∷ xs) [] m d = absurd m

  pub Moves-IsStorable :
      IsClock env.formats
      → (xs ys : List QueueItem) → Moves env xs ys
      → All (IsStorable env.formats) xs
      → All (IsStorable env.formats) ys
  Moves-IsStorable clock [] [] m a = tt
  Moves-IsStorable clock (x ∷ xs) (y ∷ ys) m a =
      (JobStep-IsStorable env clock x y m.0 a.0, Moves-IsStorable clock xs ys m.1 a.1)
  Moves-IsStorable clock [] (y ∷ ys) m a = absurd m
  Moves-IsStorable clock (x ∷ xs) [] m a = absurd m
