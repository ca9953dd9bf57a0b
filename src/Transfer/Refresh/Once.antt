-- ===== src/Transfer/Refresh/Once.antt =====
-- Each generation of the CDN URL costs one answer of the resolver.
use mathlib.Core.Path.{subst}
use mega_basterd_cli.Prelude.{
  ℕ, ◌+◌, ◌<◌, String, Bool, true, false, Option, none, some, List, [], ◌∷◌, ◌++◌, ◌≡◌, refl, arith,
  All, ◌==◌, ◌⊎◌, ◌≤◌, All-split, All-append, if◌then◌else◌, Bool-cases, inl, inr,
}
use mega_basterd_cli.Transfer.Refresh.{
  Shared, Stage, asking, waiting, inside, calling, answered, returned, raised, step, ask,
  test_again, resolve, publish, Steps, start, move,
}

abbrev pub holds : Stage → ℕ
holds (inside seen) = 1
holds (calling seen) = 1
holds (answered seen url) = 1
holds _ = 0

abbrev pub has_answer : Stage → ℕ
has_answer (answered seen url) = 1
has_answer _ = 0

abbrev pub sum_of : (Stage → ℕ) → List Stage → ℕ
sum_of f [] = 0
sum_of f (w ∷ ws) = f w + sum_of f ws

sum_of-append :
    (f : Stage → ℕ) (xs ys : List Stage) → sum_of f (xs ++ ys) ≡ sum_of f xs + sum_of f ys
sum_of-append f [] ys = omega arith
sum_of-append f (x ∷ xs) ys = omega (arith, sum_of-append f xs ys)

-- A worker has seen no later generation: one at the resolver saw the current one, and one that is out an
-- older one.
abbrev pub Fits : ℕ → Stage → Type 0
Fits g (asking seen) = seen ≤ g
Fits g (waiting seen) = seen ≤ g
Fits g (inside seen) = seen ≤ g
Fits g (calling seen) = seen ≡ g
Fits g (answered seen url) = seen ≡ g
Fits g (returned seen url) = seen < g
Fits g _ = Unit {0}

abbrev pub held : Bool → ℕ
held b = if b then 1 else 0

pub record IsOrderly (s : Shared) (ws : List Stage) : Type 0 where
  pub one_holds : sum_of holds ws ≡ held s.locked
  pub counted : s.answers ≡ s.generation + sum_of has_answer ws
  pub fit : All (Fits s.generation) ws

-- What one step does, by what it changes
pub record Moved (s t : Shared) (w v : Stage) : Type 0 where
  pub locks : holds v + held s.locked ≡ holds w + held t.locked
  pub counts : t.answers + s.generation + has_answer w ≡ s.answers + t.generation + has_answer v
  pub fits : Fits t.generation v
  pub same_or_holds :
      (t.generation ≡ s.generation) ⊎ ((holds w ≡ 1) × (t.generation ≡ s.generation + 1))

held-one : (b : Bool) → 1 ≤ held b → held b ≡ 1
held-one true h = refl
held-one false h = absurd (omega arith)

held-le : (b : Bool) → held b ≤ 1
held-le true = omega arith
held-le false = omega arith

some-Moved :
    (p : Shared × Stage) (s t : Shared) (w v : Stage)
    → some p ≡ some (t, v)
    → Moved s p.0 w p.1
    → Moved s t w v
some-Moved p s t w v e m =
    let same : p ≡ (t, v) = cc in subst (λ (q : Shared × Stage). Moved s q.0 w q.1) same m

ask-Moved :
    (seen : ℕ) (s : Shared)
    → seen ≤ s.generation
    → Moved s (ask seen s).0 (asking seen) (ask seen s).1
unfolding ask
ask-Moved seen s f = elim (Bool-cases (s.generation == seen)) [
  | inr n ↦
      simp n
        (record { locks = refl; counts = refl; fits = ground (arith, n); same_or_holds = inl refl })
  | inl e ↦ elim (Bool-cases s.has_resolver) [
    | inl r ↦
        simp (e, r) (record { locks = refl; counts = refl; fits = f; same_or_holds = inl refl })
    | inr r ↦
        simp (e, r) (record { locks = refl; counts = refl; fits = tt; same_or_holds = inl refl })
  ]
]

test_again-Moved :
    (seen : ℕ) (s : Shared)
    → held s.locked ≡ 1
    → seen ≤ s.generation
    → Moved s (test_again seen s).0 (inside seen) (test_again seen s).1
unfolding test_again
test_again-Moved seen s l f = elim (Bool-cases (s.generation == seen)) [
  | inr n ↦ simp n (record {
    locks = omega (arith, l);
    counts = omega arith;
    fits = ground (arith, n);
    same_or_holds = inl refl;
  })
  | inl e ↦
      simp e
        (record { locks = refl; counts = refl; fits = ground (arith, e); same_or_holds = inl refl })
]

resolve-Moved :
    (fresh : Option String) (seen : ℕ) (s : Shared)
    → held s.locked ≡ 1
    → seen ≡ s.generation
    → Moved s (resolve fresh seen s).0 (calling seen) (resolve fresh seen s).1
unfolding resolve
resolve-Moved none seen s l f = record {
  locks = omega (arith, l);
  counts = omega arith;
  fits = tt;
  same_or_holds = inl refl;
}
resolve-Moved (some url) seen s l f = record {
  locks = omega (arith, l);
  counts = omega arith;
  fits = f;
  same_or_holds = inl refl;
}

publish-Moved :
    (seen : ℕ) (url : String) (s : Shared)
    → held s.locked ≡ 1
    → seen ≡ s.generation
    → Moved s (publish seen url s).0 (answered seen url) (publish seen url s).1
unfolding publish
publish-Moved seen url s l f = elim (Bool-cases (s.generation == seen)) [
  | inl e ↦ simp e (record {
    locks = omega (arith, l);
    counts = omega arith;
    fits = omega arith;
    same_or_holds = inr (refl, refl);
  })
  | inr n ↦ absurd (ground (arith, n, f))
]

step-Moved :
    (fresh : Option String) (s t : Shared) (w v : Stage)
    → Fits s.generation w
    → holds w ≤ held s.locked
    → step fresh s w ≡ some (t, v)
    → Moved s t w v
unfolding step
step-Moved fresh s t (asking seen) v f h e =
    some-Moved (ask seen s) s t (asking seen) v e (ask-Moved seen s f)
step-Moved fresh s t (waiting seen) v f h e = elim (Bool-cases s.locked) [
  | inl l ↦ absurd (ground (arith, l, e))
  | inr l ↦
      some-Moved (record s { locked = true }, inside seen) s t (waiting seen) v
        (ground (arith, l, e))
        (record {
          locks = ground (arith, l);
          counts = omega arith;
          fits = f;
          same_or_holds = inl refl;
        })
]
step-Moved fresh s t (inside seen) v f h e =
    some-Moved (test_again seen s) s t (inside seen) v e
      (test_again-Moved seen s (held-one s.locked h) f)
step-Moved fresh s t (calling seen) v f h e =
    some-Moved (resolve fresh seen s) s t (calling seen) v e
      (resolve-Moved fresh seen s (held-one s.locked h) f)
step-Moved fresh s t (answered seen url) v f h e =
    some-Moved (publish seen url s) s t (answered seen url) v e
      (publish-Moved seen url s (held-one s.locked h) f)
step-Moved fresh s t (returned seen url) v f h e = absurd (ground arith)
step-Moved fresh s t (raised x) v f h e = absurd (ground arith)

-- The other workers fit the next generation too, when none of them is inside.
later-Fits : (w : Stage) (g : ℕ) → holds w ≡ 0 → Fits g w → Fits (g + 1) w
later-Fits (asking seen) g h f = omega arith
later-Fits (waiting seen) g h f = omega arith
later-Fits (inside seen) g h f = omega arith
later-Fits (calling seen) g h f = absurd (omega arith)
later-Fits (answered seen url) g h f = absurd (omega arith)
later-Fits (returned seen url) g h f = omega arith
later-Fits (raised e) g h f = tt

later-All :
    (ws : List Stage) (g : ℕ) → sum_of holds ws ≡ 0 → All (Fits g) ws → All (Fits (g + 1)) ws
later-All [] g h f = tt
later-All (w ∷ ws) g h (f, fs) = (later-Fits w g (omega arith) f, later-All ws g (omega arith) fs)

others-fit :
    (s t : Shared) (xs ys : List Stage) (w v : Stage)
    → Moved s t w v
    → sum_of holds (xs ++ w ∷ ys) ≡ held s.locked
    → All (Fits s.generation) (xs ++ w ∷ ys)
    → All (Fits t.generation) xs × All (Fits t.generation) ys
others-fit s t xs ys w v m one f =
    let (before, (_, after)) = All-split (Fits s.generation) xs (w ∷ ys) f in
    elim m.same_or_holds [
      | inl same ↦ rw same (before, after)
      | inr (holder, next) ↦
          let apart = sum_of-append holds xs (w ∷ ys) in
          rw next (
            later-All xs s.generation (omega (arith, apart, one, held-le s.locked, holder)) before,
            later-All ys s.generation (omega (arith, apart, one, held-le s.locked, holder)) after,
          )
    ]

move-IsOrderly :
    (fresh : Option String) (s t : Shared) (xs ys : List Stage) (w v : Stage)
    → step fresh s w ≡ some (t, v)
    → IsOrderly s (xs ++ w ∷ ys)
    → IsOrderly t (xs ++ v ∷ ys)
move-IsOrderly fresh s t xs ys w v e o =
    let (_, (fits, _)) = All-split (Fits s.generation) xs (w ∷ ys) o.fit in
    let apart = sum_of-append holds xs (w ∷ ys) in
    let m = step-Moved fresh s t w v fits (omega (arith, apart, o.one_holds)) e in
    let (before, after) = others-fit s t xs ys w v m o.one_holds o.fit in
    record {
      one_holds = omega (arith, apart, sum_of-append holds xs (v ∷ ys), o.one_holds, m.locks);
      counted = omega (
        arith,
        sum_of-append has_answer xs (w ∷ ys),
        sum_of-append has_answer xs (v ∷ ys),
        o.counted,
        m.counts,
      );
      fit = All-append (Fits t.generation) xs (v ∷ ys) before (m.fits, after);
    }

-- However the workers interleave and whatever the resolver answers: at most one of them is inside the
-- refresh lock, which is taken exactly then; the resolver has given one URL for each generation, and
-- one more while a worker has not yet published it; and a worker that is out with a URL has left the
-- generation that it saw behind.
pub Steps-IsOrderly :
    (s : Shared) (ws : List Stage) (t : Shared) (vs : List Stage)
    → Steps s ws t vs
    → IsOrderly s ws
    → IsOrderly t vs
Steps-IsOrderly s ws t vs start o = o
Steps-IsOrderly s ws t vs (move {t = a} xs ys w v fresh before e) o =
    move-IsOrderly fresh a t xs ys w v e (Steps-IsOrderly s ws a (xs ++ w ∷ ys) before o)
