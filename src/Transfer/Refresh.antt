-- ===== src/Transfer/Refresh.antt =====
-- The workers that find an expired CDN URL at once (`_refresh_url` of
-- src/megabasterd_cli/core/downloader.py), one critical section at a time.
pub mod Once
pub mod Alone
mod Examples
use mega_basterd_cli.Prelude.{
  ℕ, ◌+◌, String, Bool, true, false, Option, none, some, List, [], ◌∷◌, ◌++◌, ◌≡◌, ◌==◌,
  if◌then◌else◌,
}
use mega_basterd_cli.Transfer.Session.{Fault, no_resolver, resolver_failed}

-- What the workers share. `answers` counts the URLs that the resolver has given.
pub record Shared : Type 0 where
  pub url : String
  pub generation : ℕ
  pub has_resolver : Bool
  pub locked : Bool
  pub answers : ℕ

-- Where a worker is, with the generation that it saw: before the first test, before the refresh lock,
-- inside before the second test, at the resolver, with its answer, and out.
pub data Stage : Type 0 where
  asking waiting inside calling : ℕ → Stage
  answered returned : ℕ → String → Stage
  raised : Fault → Stage

abbrev pub unlocked : Shared → Shared
unlocked s = record s { locked = false }

unfoldable pub ask : ℕ → Shared → Shared × Stage
ask seen s =
    if s.generation == seen
    then if s.has_resolver then (s, waiting seen) else (s, raised no_resolver)
    else (s, returned seen s.url)

unfoldable pub test_again : ℕ → Shared → Shared × Stage
test_again seen s =
    if s.generation == seen then (s, calling seen) else (unlocked s, returned seen s.url)

-- `resolver()`; `none` is its exception.
unfoldable pub resolve : Option String → ℕ → Shared → Shared × Stage
resolve none seen s = (unlocked s, raised resolver_failed)
resolve (some url) seen s = (record s { answers = s.answers + 1 }, answered seen url)

unfoldable pub publish : ℕ → String → Shared → Shared × Stage
publish seen url s =
    if s.generation == seen
    then (unlocked (record s { url = url; generation = s.generation + 1 }), returned seen url)
    else (unlocked s, returned seen s.url)

-- The next step of a worker; `none` where it is out, or has to wait.
unfoldable pub step : Option String → Shared → Stage → Option (Shared × Stage)
step fresh s (asking seen) = some (ask seen s)
step fresh s (waiting seen) =
    if s.locked then none else some (record s { locked = true }, inside seen)
step fresh s (inside seen) = some (test_again seen s)
step fresh s (calling seen) = some (resolve fresh seen s)
step fresh s (answered seen url) = some (publish seen url s)
step fresh s (returned seen url) = none
step fresh s (raised e) = none

-- The steps of any workers in any order, with any answers of the resolver
pub data Steps (s : Shared) (ws : List Stage) : Shared → List Stage → Type 0 where
  start : Steps s ws s ws
  move :
      {t u : Shared} (xs ys : List Stage) (w v : Stage) (fresh : Option String)
      → Steps s ws t (xs ++ w ∷ ys)
      → step fresh t w ≡ some (u, v)
      → Steps s ws u (xs ++ v ∷ ys)
