-- ===== src/Proxy.antt =====
-- The proxies of a transfer (src/megabasterd_cli/proxy/smart_proxy.py, selector.py): the pool with the
-- health of each proxy, and the choice that each request makes. Times are in nanoseconds of
-- `time.monotonic`. A method holds the pool's lock, so it is one step.
pub mod Picks
pub mod Health
mod Examples
use mega_basterd_cli.Prelude.{
  ℕ, zero, suc, ◌+◌, ◌-◌, ◌*◌, String, Bool, true, false, not, Option, none, some, List, [], ◌∷◌,
  ◌++◌, map, any, keep_if, length, leb, ◌==◌, if◌then◌else◌, str_eq, is_truthy, Result, ok, err,
}

pub record ProxyEntry : Type 0 where
  pub url : String
  pub successes : ℕ
  pub failures : ℕ
  pub cooldown_until : ℕ
  pub last_used : ℕ

abbrev pub cooldown : ℕ
cooldown = 60 * 1000000000

abbrev pub max_failures : ℕ
max_failures = 3

abbrev pub is_available : ℕ → ProxyEntry → Bool
is_available now e = leb e.cooldown_until now

abbrev pub has_url : String → ProxyEntry → Bool
has_url u e = str_eq e.url u

abbrev pub new_entry : String → ProxyEntry
new_entry u = record { url = u; successes = 0; failures = 0; cooldown_until = 0; last_used = 0 }

abbrev pub Pool : Type 0
Pool = List ProxyEntry

pub add : String → Pool → Pool
add u es = if any (has_url u) es then es else es ++ new_entry u ∷ []

-- Whether the pool is shorter than before, and the pool.
pub remove : String → Pool → Bool × Pool
remove u es =
    let rest = keep_if (λ e. not (has_url u e)) es in (not (length rest == length es), rest)

-- The numerator and the denominator of `(e.successes + 1) / (total + 2)`.
abbrev pub weight : ProxyEntry → ℕ × ℕ
weight e = (e.successes + 1, e.successes + e.failures + 2)

abbrev pub used : ℕ → ProxyEntry → ProxyEntry
used now e = record e { last_used = now }

abbrev pub nth : {A : Type 0} → ℕ → List A → Option A
nth k [] = none
nth zero (x ∷ xs) = some x
nth (suc k) (x ∷ xs) = nth k xs

-- `choice.last_used = time.monotonic()` for the available entry at this position
pub mark_used : ℕ → ℕ → Pool → Pool
mark_used now k [] = []
mark_used now zero (e ∷ es) =
    let later = e ∷ mark_used now zero es in if is_available now e then used now e ∷ es else later
mark_used now (suc k) (e ∷ es) =
    let counted = mark_used now k es in
    let passed = mark_used now (suc k) es in e ∷ (if is_available now e then counted else passed)

-- What one call takes from outside: the time, and the position that `random.choices` draws.
pub record Moment : Type 0 where
  pub now : ℕ
  pub choose : List (ℕ × ℕ) → ℕ

abbrev pub available : ℕ → Pool → Pool
available now = keep_if (is_available now)

module _ (env : Moment) where
  abbrev pub drawn : Pool → ℕ
  drawn es = env.choose (map weight (available env.now es))

  pub pick : Pool → Option ProxyEntry × Pool
  pick es = elim (nth (drawn es) (available env.now es)) [
    | none ↦ (none, es)
    | some e ↦ (some (used env.now e), mark_used env.now (drawn es) es)
  ]

pub report_success : String → Pool → Pool
report_success u [] = []
report_success u (e ∷ es) =
    let rest = report_success u es in
    if has_url u e
    then record e { successes = e.successes + 1; failures = e.failures - 1 } ∷ es
    else e ∷ rest

abbrev pub failed : ℕ → ProxyEntry → ProxyEntry
failed now e =
    if leb max_failures (e.failures + 1)
    then record e { failures = e.failures + 1; cooldown_until = now + cooldown }
    else record e { failures = e.failures + 1 }

pub report_failure : ℕ → String → Pool → Pool
report_failure now u [] = []
report_failure now u (e ∷ es) =
    let rest = report_failure now u es in if has_url u e then failed now e ∷ es else e ∷ rest

-- `proxies=` of a request, and an exception
abbrev pub Proxies : Type 0
Proxies = List (String × String)

pub data Refused : Type 0 where
  proxy_required_error : Refused

pub record ProxySelector : Type 0 where
  pub pool : Option Pool
  pub static : Option Proxies
  pub force : Bool

abbrev pub both : String → Proxies
both u = ("http", u) ∷ ("https", u) ∷ []

-- `static or None`
abbrev pub non_empty : Option Proxies → Option Proxies
non_empty (some (p ∷ ps)) = some (p ∷ ps)
non_empty _ = none

pub new_selector : Option Pool → Option Proxies → Bool → ProxySelector
new_selector pool static force = record { pool = pool; static = non_empty static; force = force }

abbrev pub Selected : Type 0
Selected = Result Refused (Option Proxies × Option String)

abbrev pub without_pool : ProxySelector → Selected
without_pool s = elim (non_empty s.static) [
  | some ps ↦ ok (some ps, none)
  | none ↦ if s.force then err proxy_required_error else ok (none, none)
]

abbrev pub with_pick : ProxySelector → Option ProxyEntry → Selected
with_pick s none = without_pool s
with_pick s (some e) = ok (some (both e.url), some e.url)

module _ (env : Moment) where
  unfoldable pub select : ProxySelector → Selected × ProxySelector
  select s = elim s.pool [
    | none ↦ (without_pool s, s)
    | some es ↦ (with_pick s (pick env es).0, record s { pool = some (pick env es).1 })
  ]

-- `report_success` and `report_failure` of the selector, by what they do to the pool
abbrev pub reported : (String → Pool → Pool) → Option String → ProxySelector → ProxySelector
reported f none s = s
reported f (some u) s =
    if is_truthy u
    then record s { pool = elim s.pool [ none ↦ none | some es ↦ some (f u es) ] }
    else s

unfoldable pub selector_report_success : Option String → ProxySelector → ProxySelector
selector_report_success = reported report_success

unfoldable pub selector_report_failure : ℕ → Option String → ProxySelector → ProxySelector
selector_report_failure now = reported (report_failure now)
