-- ===== src/Queue/Lease/Passes.antt =====
-- The loops over the jobs: every one is a pass that moves jobs in place.
use mega_basterd_cli.Prelude.{
  ℕ, String, Bool, true, false, Option, none, some, List, [], ◌∷◌, ◌≡◌, ◌⊎◌, inl, inr, refl, sym,
  ap, ◌∙◌, All, str_eq, if◌then◌else◌, eq_iff, Bool-cases, bind-eq-ok, Result, ok, bind, not,
}
use mathlib.Core.Path.{subst, subst₂}
use mathlib.Core.Bool.{false≢true}
use mega_basterd_cli.Queue.Model.{Error, QueueItem, is_active}
use mega_basterd_cli.Queue.Platform.{Platform}
use mega_basterd_cli.Queue.Codec.Written.{Distinct}
use mega_basterd_cli.Queue.Store.{change_first}
use mega_basterd_cli.Queue.Lease.{beats, interrupt, recover_item, recover_items}
use mega_basterd_cli.Queue.Lease.Step.{JobStep, unchanged, recover, Moves, Moves-refl}

-- The job stands in the list.
abbrev pub Found : QueueItem → List QueueItem → Type 0
Found y [] = ⊥
Found y (z ∷ zs) = (z ≡ y) ⊎ Found y zs

-- How `change_first` ran: past jobs that do not pass, to the end or to the one that it changed.
pub data Pass (p : QueueItem → Bool) (f : QueueItem → Result Error QueueItem)
    : List QueueItem → Option QueueItem → List QueueItem → Type 0 where
  stop : Pass p f [] none []
  hit :
      {x y : QueueItem} {xs : List QueueItem}
      → p x ≡ true
      → f x ≡ ok y
      → Pass p f (x ∷ xs) (some y) (y ∷ xs)
  miss :
      {x : QueueItem} {xs : List QueueItem} {o : Option QueueItem} {ys : List QueueItem}
      → p x ≡ false
      → Pass p f xs o ys
      → Pass p f (x ∷ xs) o (x ∷ ys)

module _ (p : QueueItem → Bool) (f : QueueItem → Result Error QueueItem) where
  pub change_first-Pass :
      (xs : List QueueItem) (o : Option QueueItem) (ys : List QueueItem)
      → change_first p f xs ≡ ok (o, ys)
      → Pass p f xs o ys
  unfolding change_first
  change_first-Pass [] none [] h = stop
  change_first-Pass [] none (y ∷ ys) h = cc
  change_first-Pass [] (some y) ys h = cc
  change_first-Pass (x ∷ xs) o ys h = elim (Bool-cases (p x)) [
    | inl e ↦
        let (y, fy, r) = bind-eq-ok (f x) (λ y. ok (some y, y ∷ xs)) (rw e at h) in
        subst₂ (λ q zs. Pass p f (x ∷ xs) q zs) (cc) (cc) (hit e fy)
    | inr e ↦
        let (r, rec, eq) = bind-eq-ok (change_first p f xs) (λ r. ok (r.0, x ∷ r.1)) (rw e at h) in
        subst₂ (λ q zs. Pass p f (x ∷ xs) q zs) (cc) (cc)
          (miss e (change_first-Pass xs r.0 r.1 rec))
  ]

-- The changed job is in the list, and came from one that passed.
pub Pass-Found :
    {p : QueueItem → Bool} {f : QueueItem → Result Error QueueItem} {xs ys : List QueueItem}
    {o : Option QueueItem} (y : QueueItem)
    → Pass p f xs o ys
    → o ≡ some y
    → Found y ys × ((x : QueueItem) × Found x xs × (p x ≡ true) × (f x ≡ ok y))
Pass-Found y stop e = cc
Pass-Found y (hit {x = x} {y = z} px fx) e = (inl (cc), (x, inl refl, px, fx ∙ ap ok (cc)))
Pass-Found y (miss px r) e = let h = Pass-Found y r e in (inr h.0, (h.1.0, inr h.1.1, h.1.2, h.1.3))

-- Where nothing was found, nothing changed.
Pass-none :
    {p : QueueItem → Bool} {f : QueueItem → Result Error QueueItem} {xs ys : List QueueItem}
    {o : Option QueueItem}
    → Pass p f xs o ys
    → o ≡ none
    → (ys ≡ xs) × All (λ (x : QueueItem). p x ≡ false) xs
Pass-none stop e = (refl, tt)
Pass-none (hit px fx) e = cc
Pass-none (miss {x = x} px r) e =
    let h = Pass-none r e in (ap (λ (l : List QueueItem). x ∷ l) h.0, (px, h.1))

-- The steps that a pass may make on these jobs.
abbrev pub Allowed :
    Platform → (QueueItem → Bool) → (QueueItem → Result Error QueueItem) → List QueueItem → Type 0
Allowed env p f =
    All (λ (x : QueueItem). (y : QueueItem) → p x ≡ true → f x ≡ ok y → JobStep env x y)

pub Pass-Moves :
    (env : Platform) {p : QueueItem → Bool} {f : QueueItem → Result Error QueueItem}
    {xs ys : List QueueItem} {o : Option QueueItem}
    → Pass p f xs o ys
    → Allowed env p f xs
    → Moves env xs ys
Pass-Moves env stop a = tt
Pass-Moves env (hit {y = y} {xs = xs} px fx) a = (a.0 y px fx, Moves-refl env xs)
Pass-Moves env (miss px r) a = (unchanged refl, Pass-Moves env r a.1)

pub All-Found {ℓ} :
    (P : QueueItem → Type ℓ) (y : QueueItem) (ys : List QueueItem) → All P ys → Found y ys → P y
All-Found P y [] a f = absurd f
All-Found P y (z ∷ zs) a (inl e) = subst P e a.0
All-Found P y (z ∷ zs) a (inr f) = All-Found P y zs a.1 f

others_differ :
    (y z : QueueItem) (zs : List QueueItem)
    → z ≡ y
    → All (λ (j : QueueItem). str_eq j.id z.id ≡ false) zs
    → All (λ (j : QueueItem). str_eq j.id y.id ≡ true → j ≡ y) zs
others_differ y z [] e a = tt
others_differ y z (j ∷ js) e a =
    (λ h. absurd (false≢true (sym a.0 ∙ rw e h)), others_differ y z js e a.1)

str_eq-sym : (a b : String) → str_eq a b ≡ true → str_eq b a ≡ true
str_eq-sym a b h = (eq_iff b a).1 (sym ((eq_iff a b).0 h))

-- A job that the list holds is the only one with its id.
pub Found-only :
    (y : QueueItem) (ys : List QueueItem)
    → Distinct ys
    → Found y ys
    → All (λ (j : QueueItem). str_eq j.id y.id ≡ true → j ≡ y) ys
Found-only y [] d f = tt
Found-only y (z ∷ zs) d (inl e) = (λ _. e, others_differ y z zs e d.0)
Found-only y (z ∷ zs) d (inr f) = (
  λ h. absurd (
      false≢true (
        sym (All-Found (λ (j : QueueItem). str_eq j.id z.id ≡ false) y zs d.0 f)
        ∙ str_eq-sym z.id y.id h)),
  Found-only y zs d.1 f,
)

module _ (env : Platform) (lease : ℕ) where
  pub recover_item-JobStep :
      (x y : QueueItem) (b : Bool) → recover_item env lease x ≡ ok (b, y) → JobStep env x y
  unfolding recover_item
  recover_item-JobStep x y b h = elim (Bool-cases (is_active x.status)) [
    | inl act ↦
        let (live, l, eq) =
          bind-eq-ok (beats env lease x.heartbeat_iso)
            (λ live. ok (not live, if live then x else interrupt x)) (rw act at h) in
        elim (Bool-cases live) [
          | inl e ↦ unchanged (cc (rw e at eq))
          | inr e ↦ recover act (cc (rw e at eq))
        ]
    | inr idle ↦ unchanged (cc (rw idle at h))
  ]

  pub recover_items-inv :
      (x : QueueItem) (xs rs ys : List QueueItem)
      → recover_items env lease (x ∷ xs) ≡ ok (rs, ys)
      → (r : Bool × QueueItem) × (rest : List QueueItem × List QueueItem) × (recover_item env lease
            x
          ≡ ok r)
        × (recover_items env lease xs ≡ ok rest)
        × (ys ≡ r.1 ∷ rest.1)
        × (rs ≡ (if r.0 then r.1 ∷ rest.0 else rest.0))
  unfolding recover_items
  recover_items-inv x xs rs ys h =
      let (r, one, more) =
        bind-eq-ok (recover_item env lease x)
          (λ r.
            bind (recover_items env lease xs)
              λ rest. ok (if r.0 then r.1 ∷ rest.0 else rest.0, r.1 ∷ rest.1))
          h in
      let (rest, all, eq) =
        bind-eq-ok (recover_items env lease xs)
          (λ rest. ok (if r.0 then r.1 ∷ rest.0 else rest.0, r.1 ∷ rest.1)) more in
      (r, rest, one, all, cc, cc)

  -- A recovery moves each job at most from active to interrupted.
  pub recover_items-Moves :
      (xs rs ys : List QueueItem) → recover_items env lease xs ≡ ok (rs, ys) → Moves env xs ys
  recover_items-Moves [] rs [] h = tt
  recover_items-Moves [] rs (y ∷ ys) h = unfold recover_items in cc
  recover_items-Moves (x ∷ xs) rs ys h =
      let (r, rest, one, all, e, _) = recover_items-inv x xs rs ys h in
      subst (Moves env (x ∷ xs)) (sym e)
        (recover_item-JobStep x r.1 r.0 one, recover_items-Moves xs rest.0 rest.1 all)
