-- ===== src/Proxy/Examples.antt =====
-- Witnesses for the proxies (src/megabasterd_cli/proxy/smart_proxy.py, selector.py).
use mega_basterd_cli.Prelude.{
  ℕ, ◌<◌, true, none, some, List, [], ◌∷◌, ◌≡◌, ◌≢◌, refl, arith, length,
}
use mega_basterd_cli.Proxy.{Pool, Moment, ProxySelector, new_entry, pick, select}
use mega_basterd_cli.Proxy.Picks.{Picked, pick-Picked, Chosen, select-Chosen}

-- The first of two proxies cools down; the draw takes the first of the available ones.
abbrev two_proxies : Pool
two_proxies = record (new_entry "http://a:1") { cooldown_until = 200 } ∷ new_entry "http://b:2" ∷ []

abbrev at_hundred : Moment
at_hundred = record { now = 100; choose = λ ws. 0 }

first-IsDrawing : (ws : List (ℕ × ℕ)) → ws ≢ [] → 0 < length ws
first-IsDrawing [] n = absurd (n refl)
first-IsDrawing (w ∷ ws) n = omega arith

picked_b :
    (pick at_hundred two_proxies).0 ≡ some (record (new_entry "http://b:2") { last_used = 100 })
unfolding pick
picked_b = refl

pick-Picked_example :
    Picked 100 two_proxies (pick at_hundred two_proxies).0 (pick at_hundred two_proxies).1
pick-Picked_example = pick-Picked at_hundred first-IsDrawing two_proxies

abbrev forced : ProxySelector
forced = record { pool = some two_proxies; static = none; force = true }

select-Chosen_example : Chosen 100 forced (select at_hundred forced)
select-Chosen_example = select-Chosen at_hundred forced first-IsDrawing
