-- ===== src/Transfer/Quota/Examples.antt =====
-- Three attempts with an exceeded quota: one retry at once, one wait of five seconds, and a value.
use mega_basterd_cli.Prelude.{ℕ, ◌-◌, true, false, ◌≡◌, refl, ltb, if◌then◌else◌}
use mega_basterd_cli.Transfer.Quota.{
  value, quota_error, Wait, Tries, attempts, get_with_quota_wait, wait_out_quota, try_from, on_call,
  on_quota, wait_from,
}
use mega_basterd_cli.Transfer.Quota.Bounded.{IsWithin, get_with_quota_wait-IsWithin}

abbrev quiet : Wait
quiet = record { stopped = λ k. false; route_changed = λ k. false }

abbrev third_succeeds : Tries ℕ
third_succeeds = record {
  call = λ k. if ltb k 2 then quota_error else value 7;
  stopped = λ k. false;
  stopped_after = λ k. false;
  available = λ k. true;
  waiting = λ k. quiet;
  quota_wait_seconds = 5;
  quota_max_wait_loops = 4;
}

third_returns :
    get_with_quota_wait third_succeeds
    ≡ record { outcome = value 7; calls = 3; seconds = 5; at_once = 1 }
unfolding get_with_quota_wait attempts try_from on_call on_quota wait_out_quota wait_from
third_returns = refl

get_with_quota_wait-IsWithin_example :
    IsWithin third_succeeds
      (attempts third_succeeds - 1)
      0
      false
      (get_with_quota_wait third_succeeds)
get_with_quota_wait-IsWithin_example = get_with_quota_wait-IsWithin third_succeeds
