-- ===== src/Proxy/Health.antt =====
-- The health of the proxies (src/megabasterd_cli/proxy/smart_proxy.py): reports, and the pool's entries.
use mega_basterd_cli.Prelude.{
  ℕ, ◌+◌, ◌<◌, ◌≤◌, String, Bool, true, false, not, Option, some, [], ◌∷◌, ◌++◌, ◌≡◌, arith, any,
  first, eq_iff, ◌&&◌, ◌||◌,
}
use mega_basterd_cli.Proxy.{
  ProxyEntry, Pool, cooldown, is_available, has_url, new_entry, add, report_failure, failed,
}

-- The entry that a report for this proxy changes.
abbrev find : String → Pool → Option ProxyEntry
find u = first (has_url u)

failed-has_url : (now : ℕ) (u : String) (e : ProxyEntry) → has_url u (failed now e) ≡ has_url u e
failed-has_url now u e = ground arith

failed-failures : (now : ℕ) (e : ProxyEntry) → (failed now e).failures ≡ e.failures + 1
failed-failures now e = ground arith

failed-cooldown_until :
    (now : ℕ) (e : ProxyEntry) → 2 ≤ e.failures → (failed now e).cooldown_until ≡ now + cooldown
failed-cooldown_until now e h = ground arith

is_available-later :
    (now : ℕ) (e : ProxyEntry) → now < e.cooldown_until → is_available now e ≡ false
is_available-later now e h = ground arith

report_failure-find :
    (now : ℕ) (u : String) (es : Pool) (e : ProxyEntry)
    → find u es ≡ some e
    → find u (report_failure now u es) ≡ some (failed now e)
unfolding report_failure
report_failure-find now u [] e h = ground arith
report_failure-find now u (x ∷ es) e h =
    ground (arith, failed-has_url now u x, report_failure-find now u es e)

-- A proxy that fails three times without a success between is not available until a minute after the
-- third failure, whatever its record was before.
three_failures :
    (u : String) (es : Pool) (e : ProxyEntry) (first_time second_time third_time now : ℕ)
    → find u es ≡ some e
    → now < third_time + cooldown
    → (f : ProxyEntry) × (find u (
          report_failure third_time u
            (report_failure second_time u (report_failure first_time u es)))
        ≡ some f)
      × (is_available now f ≡ false)
three_failures u es e t1 t2 t3 now h lt = (
  failed t3 (failed t2 (failed t1 e)),
  report_failure-find t3 u _ _ (report_failure-find t2 u _ _ (report_failure-find t1 u es e h)),
  is_available-later now (failed t3 (failed t2 (failed t1 e))) (
      omega (
        arith,
        failed-failures t1 e,
        failed-failures t2 (failed t1 e),
        failed-cooldown_until t3 (failed t2 (failed t1 e)),
      )),
)

-- No two entries for one proxy.
unfoldable pub are_distinct : Pool → Bool
are_distinct [] = true
are_distinct (e ∷ es) = not (any (has_url e.url) es) && are_distinct es

any-append :
    (u : String) (es : Pool) (e : ProxyEntry)
    → any (has_url u) (es ++ e ∷ []) ≡ (any (has_url u) es || has_url u e)
any-append u [] e = ground arith
any-append u (x ∷ es) e = ground (arith, any-append u es e)

are_distinct-append :
    (u : String) (es : Pool)
    → any (has_url u) es ≡ false
    → are_distinct es ≡ true
    → are_distinct (es ++ new_entry u ∷ []) ≡ true
unfolding are_distinct
are_distinct-append u [] n h = ground arith
are_distinct-append u (x ∷ es) n h = ground (
  arith,
  any-append x.url es (new_entry u),
  are_distinct-append u es,
  eq_iff x.url u,
  eq_iff u x.url,
)

-- Adding a proxy keeps the entries distinct, and the proxy is in the pool.
add-distinct :
    (u : String) (es : Pool)
    → are_distinct es ≡ true
    → (are_distinct (add u es) ≡ true) × (any (has_url u) (add u es) ≡ true)
unfolding add
add-distinct u es h =
    ground (arith, are_distinct-append u es, any-append u es (new_entry u), eq_iff u u)
