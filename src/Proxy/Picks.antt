-- ===== src/Proxy/Picks.antt =====
-- Which proxy a request gets (src/megabasterd_cli/proxy/smart_proxy.py and selector.py).
use mathlib.Core.Path.{subst}
use mega_basterd_cli.Prelude.{
  ℕ, zero, suc, Bool, String, ◌<◌, true, false, Option, none, some, List, [], ◌∷◌, ◌++◌, ◌≡◌, ◌≢◌,
  refl, ap, arith, map, length, Bool-cases, Option-cases, ok, err, inl, inr, sym, ◌⊎◌,
  if◌then◌else◌,
}
use mega_basterd_cli.Proxy.{
  ProxyEntry, Pool, Moment, is_available, available, weight, used, nth, mark_used, drawn, pick,
  ProxySelector, Proxies, non_empty, Selected, proxy_required_error, select, without_pool,
  with_pick,
}

-- An available entry of the pool, whose time of use is all that changes.
pub record Taken (now : ℕ) (es : Pool) (e : ProxyEntry) (gs : Pool) : Type 0 where
  pub before : Pool
  pub after : Pool
  pub free : is_available now e ≡ true
  pub was : es ≡ before ++ e ∷ after
  pub becomes : gs ≡ before ++ used now e ∷ after

pub data Picked (now : ℕ) : Pool → Option ProxyEntry → Pool → Type 0 where
  exhausted : {es : Pool} → available now es ≡ [] → Picked now es none es
  picked :
      {es gs : Pool} {e : ProxyEntry} → Taken now es e gs → Picked now es (some (used now e)) gs

-- Outside this file: `random.choices` draws a position of the list.
abbrev pub IsDrawing : Moment → Type 0
IsDrawing env = (ws : List (ℕ × ℕ)) → ws ≢ [] → env.choose ws < length ws

Taken-cons :
    (now : ℕ) (x : ProxyEntry) {es gs : Pool} {e : ProxyEntry}
    → Taken now es e gs
    → Taken now (x ∷ es) e (x ∷ gs)
Taken-cons now x t = record {
  before = x ∷ t.before;
  after = t.after;
  free = t.free;
  was = ap (λ (l : Pool). x ∷ l) t.was;
  becomes = ap (λ (l : Pool). x ∷ l) t.becomes;
}

mark_used-Taken :
    (now k : ℕ) (es : Pool) (e : ProxyEntry)
    → nth k (available now es) ≡ some e
    → Taken now es e (mark_used now k es)
unfolding mark_used
mark_used-Taken now k [] e h = ground arith
mark_used-Taken now zero (x ∷ es) e h = elim (Bool-cases (is_available now x)) [
  | inl a ↦ record {
    before = [];
    after = es;
    free = ground arith;
    was = ground arith;
    becomes = ground arith;
  }
  | inr a ↦ rw a (Taken-cons now x (mark_used-Taken now zero es e (ground arith)))
]
mark_used-Taken now (suc k) (x ∷ es) e h = elim (Bool-cases (is_available now x)) [
  | inl a ↦ rw a (Taken-cons now x (mark_used-Taken now k es e (ground arith)))
  | inr a ↦ rw a (Taken-cons now x (mark_used-Taken now (suc k) es e (ground arith)))
]

no_weights : (es : Pool) → map weight es ≡ [] → es ≡ []
no_weights [] h = refl
no_weights (e ∷ es) h = ground arith

nth-length : (k : ℕ) (es : Pool) → k < length (map weight es) → nth k es ≢ none
nth-length k [] lt h = ground arith
nth-length zero (e ∷ es) lt h = ground arith
nth-length (suc k) (e ∷ es) lt h = nth-length k es (omega arith) h

module _ (env : Moment) (drawing : IsDrawing env) where
  drawn-available :
      (es : Pool) → nth (drawn env es) (available env.now es) ≡ none → available env.now es ≡ []
  drawn-available es h = go (available env.now es) h
    where
      go : (fs : Pool) → nth (env.choose (map weight fs)) fs ≡ none → fs ≡ []
      go [] h = refl
      go (f ∷ fs) h = absurd (
          nth-length (env.choose (map weight (f ∷ fs))) (f ∷ fs)
            (drawing (map weight (f ∷ fs)) (λ e. ground arith)) h)

  -- A pick takes an available proxy of the pool and changes its time of use only, and it takes none
  -- only if none is available, where `random.choices` draws a position of its list.
  pub pick-Picked : (es : Pool) → Picked env.now es (pick env es).0 (pick env es).1
  unfolding pick
  pick-Picked es = elim (Option-cases (nth (drawn env es) (available env.now es))) [
    | inl h ↦ rw (pick, h) (exhausted (drawn-available es h))
    | inr (e, h) ↦ rw (pick, h) (picked (mark_used-Taken env.now (drawn env es) es e h))
  ]

-- The selector has no pool, or a pool of which no entry is available.
pub data NoneFree (now : ℕ) : Option Pool → Type 0 where
  no_pool : NoneFree now none
  all_cooling : (es : Pool) → available now es ≡ [] → NoneFree now (some es)

-- What a choice answers, and the selector it leaves
pub data Chosen (now : ℕ) (s : ProxySelector) : Selected × ProxySelector → Type 0 where
  from_pool :
      (es gs : Pool) (e : ProxyEntry)
      → s.pool ≡ some es
      → Taken now es e gs
      → Chosen now s (
        ok (some (("http", e.url) ∷ ("https", e.url) ∷ []), some e.url),
        record s { pool = some gs },
      )
  from_static :
      (p : String × String) (ps : Proxies)
      → NoneFree now s.pool
      → s.static ≡ some (p ∷ ps)
      → Chosen now s (ok (some (p ∷ ps), none), s)
  direct :
      NoneFree now s.pool
      → (s.static ≡ none) ⊎ (s.static ≡ some [])
      → s.force ≡ false
      → Chosen now s (ok (none, none), s)
  refused :
      NoneFree now s.pool
      → (s.static ≡ none) ⊎ (s.static ≡ some [])
      → s.force ≡ true
      → Chosen now s (err proxy_required_error, s)

without_proxies-Chosen :
    (now : ℕ) (s : ProxySelector)
    → NoneFree now s.pool
    → (s.static ≡ none) ⊎ (s.static ≡ some [])
    → Chosen now s (if s.force then err proxy_required_error else ok (none, none), s)
without_proxies-Chosen now s n empty = elim (Bool-cases s.force) [
  | inl f ↦ subst answers (sym f) (refused n empty f)
  | inr f ↦ subst answers (sym f) (direct n empty f)
]
  where
    answers : Bool → Type 0
    answers b = Chosen now s (if b then err proxy_required_error else ok (none, none), s)

without_pool-Chosen :
    (now : ℕ) (s : ProxySelector) (static : Option Proxies)
    → s.static ≡ static
    → NoneFree now s.pool
    → Chosen now s (without_pool s, s)
without_pool-Chosen now s static e n = subst answers (sym e) (go static e)
  where
    answers : Option Proxies → Type 0
    answers static = Chosen now s (
      elim (non_empty static) [
        | some ps ↦ ok (some ps, none)
        | none ↦ if s.force then err proxy_required_error else ok (none, none)
      ],
      s,
    )

    go : (o : Option Proxies) → s.static ≡ o → answers o
    go none o = without_proxies-Chosen now s n (inl o)
    go (some []) o = without_proxies-Chosen now s n (inr o)
    go (some (p ∷ ps)) o = from_static p ps n o

same_selector : (s : ProxySelector) (es : Pool) → s.pool ≡ some es → record s { pool = some es } ≡ s
same_selector s es e = ap (λ (o : Option Pool). record s { pool = o }) (sym e)

with_pick-Chosen :
    (now : ℕ) (s : ProxySelector) (es : Pool) (o : Option ProxyEntry) (gs : Pool)
    → s.pool ≡ some es
    → Picked now es o gs
    → Chosen now s (with_pick s o, record s { pool = some gs })
with_pick-Chosen now s es none es' p (exhausted h) =
    subst (λ (x : ProxySelector). Chosen now s (without_pool s, x)) (sym (same_selector s es p))
      (without_pool-Chosen now s s.static refl (subst (NoneFree now) (sym p) (all_cooling es h)))
with_pick-Chosen now s es o gs p (picked t) = from_pool es gs _ p t

select_pool-Chosen :
    (env : Moment) (s : ProxySelector) (pool : Option Pool)
    → IsDrawing env
    → s.pool ≡ pool
    → Chosen env.now s (elim pool [
      | none ↦ (without_pool s, s)
      | some es ↦ (with_pick s (pick env es).0, record s { pool = some (pick env es).1 })
    ])
select_pool-Chosen env s none drawing e =
    without_pool-Chosen env.now s s.static refl (subst (NoneFree env.now) (sym e) no_pool)
select_pool-Chosen env s (some es) drawing e =
    with_pick-Chosen env.now s es (pick env es).0 (pick env es).1 e (pick-Picked env drawing es)

-- A choice takes an available proxy of the pool for both schemes and changes its time of use only. If
-- there is no pool or none of it is available, it names the static proxies where there are any; without
-- them it is a request without a proxy, or, in force mode, the error, and the selector stays as it is.
-- `random.choices` draws a position of its list.
pub select-Chosen :
    (env : Moment) (s : ProxySelector) → IsDrawing env → Chosen env.now s (select env s)
unfolding select
select-Chosen env s drawing = select_pool-Chosen env s s.pool drawing refl
