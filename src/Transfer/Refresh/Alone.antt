-- ===== src/Transfer/Refresh/Alone.antt =====
-- A worker that nothing disturbs runs `_refresh_url` of src/megabasterd_cli/core/downloader.py as one.
use mega_basterd_cli.Prelude.{
  ℕ, zero, suc, String, false, Option, none, some, ◌≡◌, arith, Result, ok, err,
}
use mega_basterd_cli.Transfer.Session.{Attempt, Session, Fault, refresh_url}
use mega_basterd_cli.Transfer.Refresh.{
  Shared, Stage, asking, returned, raised, step, ask, test_again, resolve, publish,
}

-- So many steps of one worker, or fewer if it is out
unfoldable pub alone : Option String → ℕ → Shared → Stage → Shared × Stage
alone fresh zero s w = (s, w)
alone fresh (suc n) s w = elim (step fresh s w) [ none ↦ (s, w) | some (t, v) ↦ alone fresh n t v ]

abbrev pub shared_of : Session → ℕ → Shared
shared_of s answers = record {
  url = s.cdn_url;
  generation = s.generation;
  has_resolver = s.has_resolver;
  locked = false;
  answers = answers;
}

abbrev pub outcome : ℕ → Result Fault String → Stage
outcome seen (ok url) = returned seen url
outcome seen (err e) = raised e

-- Five steps of one worker, with the lock free, end as `refresh_url` does: with its result, the same URL
-- and generation, and the lock free again.
alone-refresh_url :
    (env : Attempt) (seen n : ℕ) (s : Session)
    → ((alone env.fresh_url 5 (shared_of s n) (asking seen)).1
        ≡ outcome seen (refresh_url env seen s).0)
      × ((alone env.fresh_url 5 (shared_of s n) (asking seen)).0.url
          ≡ (refresh_url env seen s).1.cdn_url)
      × ((alone env.fresh_url 5 (shared_of s n) (asking seen)).0.generation
          ≡ (refresh_url env seen s).1.generation)
      × ((alone env.fresh_url 5 (shared_of s n) (asking seen)).0.locked ≡ false)
unfolding alone step ask test_again resolve publish refresh_url
alone-refresh_url env seen n s = ground arith
