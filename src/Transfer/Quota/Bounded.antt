-- ===== src/Transfer/Quota/Bounded.antt =====
-- The wait on an exceeded quota ends, within its budget.
use native.Mathlib.Nat.{suc-mul}
use mega_basterd_cli.Prelude.{
  ℕ, zero, suc, ◌+◌, ◌-◌, ◌*◌, ◌≤◌, Bool, true, false, not, ◌&&◌, ◌||◌, ◌==◌, if◌then◌else◌, ◌≡◌,
  refl, sym, ap, ◌∙◌, arith, Bool-cases, inl, inr,
}
use mega_basterd_cli.Transfer.Quota.{
  Outcome, value, quota_error, other_error, Wait, wait_from, wait_out_quota, Tries, Ended, attempts,
  raises, retried_at_once, on_quota, on_call, try_from, get_with_quota_wait,
}

module _ (env : Wait) (wait : ℕ) where
  wait_from-le : (fuel tick slept : ℕ) → wait_from env wait fuel tick slept ≤ wait - slept
  unfolding wait_from
  wait_from-le zero tick slept = omega arith
  wait_from-le (suc fuel) tick slept = ground (arith, wait_from-le fuel (tick + 1) (slept + 2))

  -- With enough fuel, an undisturbed wait is a full one.
  wait_from-full :
      ((k : ℕ) → env.stopped k ≡ false)
      → ((k : ℕ) → env.route_changed k ≡ false)
      → (fuel tick slept : ℕ) → wait ≤ slept + 2 * fuel
      → wait_from env wait fuel tick slept ≡ wait - slept
  unfolding wait_from
  wait_from-full quiet same zero tick slept h = omega arith
  wait_from-full quiet same (suc fuel) tick slept h = ground (
    arith,
    quiet tick,
    same tick,
    wait_from-full quiet same fuel (tick + 1) (slept + 2) (omega arith),
  )

wait_out_quota-le : (env : Wait) (wait : ℕ) → wait_out_quota env wait ≤ wait
unfolding wait_out_quota
wait_out_quota-le env wait = omega (arith, wait_from-le env wait wait 0 0)

-- A wait that nothing stops and in which the route stays sleeps exactly the given seconds.
wait_out_quota-full :
    (env : Wait) (wait : ℕ)
    → ((k : ℕ) → env.stopped k ≡ false)
    → ((k : ℕ) → env.route_changed k ≡ false)
    → wait_out_quota env wait ≡ wait
unfolding wait_out_quota
wait_out_quota-full env wait quiet same =
    omega (arith, wait_from-full env wait quiet same wait 0 0 (omega arith))

module _ {A : Type 0} (env : Tries A) where
  pub record IsWithin (left i : ℕ) (escalated : Bool) (e : Ended A) : Type 0 where
    pub some_call : 1 ≤ e.calls
    pub few_calls : e.calls ≤ left + 1
    pub few_seconds : e.seconds ≤ left * env.quota_wait_seconds
    pub one_at_once : e.at_once ≤ (if escalated then 0 else 1)
    pub of_last_call : e.outcome ≡ env.call (i + e.calls - 1)

  raises-IsWithin :
      (left i : ℕ) (escalated : Bool) (o : Outcome A)
      → env.call i ≡ o
      → IsWithin left i escalated (raises env o)
  raises-IsWithin left i escalated o e = record {
    some_call = omega arith;
    few_calls = omega arith;
    few_seconds = omega arith;
    one_at_once = omega arith;
    of_last_call = sym e ∙ ap env.call (omega arith);
  }

  unescalated : (a b : Bool) → (not a && b) ≡ true → a ≡ false
  unescalated a b h = ground (arith, h)

  at_once-IsWithin :
      (left i : ℕ) (escalated : Bool) (e : Ended A)
      → escalated ≡ false
      → IsWithin left (i + 1) true e
      → IsWithin (suc left) i escalated (retried_at_once env e)
  at_once-IsWithin left i escalated e f w = record {
    some_call = omega arith;
    few_calls = omega (arith, w.few_calls);
    few_seconds = omega (arith, w.few_seconds, suc-mul left env.quota_wait_seconds);
    one_at_once = rw f (omega (arith, w.one_at_once));
    of_last_call = w.of_last_call ∙ ap env.call (omega (arith, w.some_call));
  }

  on_quota-IsWithin :
      (left i : ℕ) (escalated : Bool) (slept : ℕ) (at_once rest : Ended A)
      → env.call i ≡ quota_error
      → slept ≤ env.quota_wait_seconds
      → IsWithin left (i + 1) true at_once
      → IsWithin left (i + 1) escalated rest
      → IsWithin (suc left) i escalated (on_quota env i escalated slept at_once rest)
  unfolding on_quota
  on_quota-IsWithin left i escalated slept at_once rest e s w v =
      elim (Bool-cases (env.quota_wait_seconds == 0 || env.stopped i)) [
        | inl h ↦ simp h (raises-IsWithin (suc left) i escalated quota_error e)
        | inr h ↦ elim (Bool-cases (not escalated && env.available i)) [
          | inl a ↦
              simp (h, a)
                (at_once-IsWithin left i escalated at_once
                  (unescalated escalated (env.available i) a) w)
          | inr a ↦ elim (Bool-cases (env.stopped_after i)) [
            | inl p ↦
                simp (h, a, p)
                  (record {
                    some_call = omega arith;
                    few_calls = omega arith;
                    few_seconds = omega (arith, s, suc-mul left env.quota_wait_seconds);
                    one_at_once = omega arith;
                    of_last_call = sym e ∙ ap env.call (omega arith);
                  })
            | inr p ↦
                simp (h, a, p)
                  (record {
                    some_call = omega arith;
                    few_calls = omega (arith, v.few_calls);
                    few_seconds =
                        omega (arith, s, v.few_seconds, suc-mul left env.quota_wait_seconds);
                    one_at_once = v.one_at_once;
                    of_last_call = v.of_last_call ∙ ap env.call (omega (arith, v.some_call));
                  })
          ]
        ]
      ]

  on_call-IsWithin :
      (left i : ℕ) (escalated : Bool) (o : Outcome A) (after : Ended A)
      → env.call i ≡ o
      → (o ≡ quota_error → IsWithin left i escalated after)
      → IsWithin left i escalated (on_call env o after)
  unfolding on_call
  on_call-IsWithin left i escalated (value a) after e w =
      raises-IsWithin left i escalated (value a) e
  on_call-IsWithin left i escalated other_error after e w =
      raises-IsWithin left i escalated other_error e
  on_call-IsWithin left i escalated quota_error after e w = w refl

  try_from-IsWithin :
      (left i : ℕ) (escalated : Bool) → IsWithin left i escalated (try_from env left i escalated)
  unfolding try_from
  try_from-IsWithin zero i escalated = raises-IsWithin zero i escalated (env.call i) refl
  try_from-IsWithin (suc left) i escalated =
      on_call-IsWithin (suc left) i escalated (env.call i) _ refl (λ quota.
        on_quota-IsWithin left i escalated (wait_out_quota (env.waiting i) env.quota_wait_seconds)
          (try_from env left (i + 1) true) (try_from env left (i + 1) escalated) quota
          (wait_out_quota-le (env.waiting i) env.quota_wait_seconds)
          (try_from-IsWithin left (i + 1) true) (try_from-IsWithin left (i + 1) escalated))

-- The wait on the quota calls `fn` at least once and at most as often as there are attempts; it sleeps at
-- most the given seconds after each attempt but the last; it retries through the pool without a wait at
-- most once; and it ends as its last call did.
pub get_with_quota_wait-IsWithin :
    {A : Type 0} (env : Tries A) → IsWithin env (attempts env - 1) 0 false (get_with_quota_wait env)
unfolding get_with_quota_wait
get_with_quota_wait-IsWithin env = try_from-IsWithin env (attempts env - 1) 0 false
