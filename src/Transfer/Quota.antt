-- ===== src/Transfer/Quota.antt =====
-- The wait on an exceeded quota (`_get_with_quota_wait` and `_wait_out_quota` of
-- src/megabasterd_cli/core/downloader.py).
pub mod Bounded
mod Examples
use mega_basterd_cli.Prelude.{
  ℕ, zero, suc, ◌+◌, ◌-◌, ◌*◌, min, max, Bool, true, false, not, ◌&&◌, ◌||◌, ltb, leb, ◌==◌,
  if◌then◌else◌,
}

-- What one call of `fn` does: it returns, raises QuotaError, or raises another exception.
pub data Outcome (A : Type 0) : Type 0 where
  value : A → Outcome A
  quota_error other_error : Outcome A

-- What one wait meets, by its ticks: the stop event, and a local route that has changed.
pub record Wait : Type 0 where
  pub stopped : ℕ → Bool
  pub route_changed : ℕ → Bool

-- `_wait_out_quota`: the seconds slept, by fuel, from the tick on
module _ (env : Wait) (wait : ℕ) where
  unfoldable pub wait_from : ℕ → ℕ → ℕ → ℕ
  wait_from zero tick slept = 0
  wait_from (suc fuel) tick slept =
      let rest = wait_from fuel (tick + 1) (slept + 2) in
      if ltb slept wait && not (env.stopped tick)
      then min 2 (wait - slept) + (if env.route_changed tick then 0 else rest)
      else 0

  unfoldable pub wait_out_quota : ℕ
  wait_out_quota = wait_from wait 0 0

-- What the loop meets, by the number of the attempt. `available` is `_pool_route_available()`.
pub record Tries (A : Type 0) : Type 0 where
  pub call : ℕ → Outcome A
  pub stopped : ℕ → Bool
  pub stopped_after : ℕ → Bool
  pub available : ℕ → Bool
  pub waiting : ℕ → Wait
  pub quota_wait_seconds : ℕ
  pub quota_max_wait_loops : ℕ

-- The result, the calls of `fn`, the seconds slept, and the retries at once.
pub record Ended (A : Type 0) : Type 0 where
  pub outcome : Outcome A
  pub calls : ℕ
  pub seconds : ℕ
  pub at_once : ℕ

module _ {A : Type 0} (env : Tries A) where
  unfoldable pub attempts : ℕ
  attempts = max 1 env.quota_max_wait_loops

  abbrev pub raises : Outcome A → Ended A
  raises o = record { outcome = o; calls = 1; seconds = 0; at_once = 0 }

  abbrev pub retried_at_once : Ended A → Ended A
  retried_at_once e = record e { calls = e.calls + 1; at_once = e.at_once + 1 }

  abbrev pub retried : ℕ → Ended A → Ended A
  retried slept e = record e { calls = e.calls + 1; seconds = slept + e.seconds }

  -- `except QuotaError`, with the ends of the two ways to go on
  unfoldable pub on_quota : ℕ → Bool → ℕ → Ended A → Ended A → Ended A
  on_quota i escalated slept at_once rest =
      if env.quota_wait_seconds == 0 || env.stopped i
      then raises quota_error
      else if not escalated && env.available i
      then retried_at_once at_once
      else if env.stopped_after i
      then record (raises quota_error) { seconds = slept }
      else retried slept rest

  unfoldable pub on_call : Outcome A → Ended A → Ended A
  on_call (value a) e = raises (value a)
  on_call other_error e = raises other_error
  on_call quota_error e = e

  -- The attempt of this number, when so many are left after it
  unfoldable pub try_from : ℕ → ℕ → Bool → Ended A
  try_from zero i escalated = raises (env.call i)
  try_from (suc left) i escalated =
      let at_once = try_from left (i + 1) true in
      let rest = try_from left (i + 1) escalated in
      let slept = wait_out_quota (env.waiting i) env.quota_wait_seconds in
      on_call (env.call i) (on_quota i escalated slept at_once rest)

  unfoldable pub get_with_quota_wait : Ended A
  get_with_quota_wait = try_from (attempts - 1) 0 false
