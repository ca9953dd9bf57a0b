-- ===== src/Transfer/Refresh/Examples.antt =====
-- Two workers that find the first URL expired, and one alone.
use mega_basterd_cli.Prelude.{true, false, none, some, List, [], ◌∷◌, refl, arith}
use mega_basterd_cli.Transfer.Refresh.{
  Shared, Stage, asking, waiting, inside, calling, answered, returned, step, ask, test_again,
  resolve, publish, Steps, start, move,
}
use mega_basterd_cli.Transfer.Refresh.Once.{IsOrderly, Steps-IsOrderly}

abbrev first : Shared
first = record { url = "a"; generation = 0; has_resolver = true; locked = false; answers = 0 }

abbrev both : List Stage
both = asking 0 ∷ asking 0 ∷ []

abbrev second : Shared
second = record { url = "b"; generation = 1; has_resolver = true; locked = false; answers = 1 }

-- The first is inside while the second waits; the second then finds the new URL at its first test.
refreshed : Steps first both second (returned 0 "b" ∷ returned 0 "b" ∷ [])
unfolding step ask test_again resolve publish
refreshed =
    move (returned 0 "b" ∷ []) [] (asking 0) (returned 0 "b") none
      (move [] (asking 0 ∷ []) (answered 0 "b") (returned 0 "b") none
        (move [] (asking 0 ∷ []) (calling 0) (answered 0 "b") (some "b")
          (move [] (asking 0 ∷ []) (inside 0) (calling 0) none
            (move [] (asking 0 ∷ []) (waiting 0) (inside 0) none
              (move [] (asking 0 ∷ []) (asking 0) (waiting 0) none start refl) refl)
            refl)
          refl)
        refl)
      refl

both-IsOrderly : IsOrderly first both
both-IsOrderly = record { one_holds = refl; counted = refl; fit = (omega arith, (omega arith, tt)) }

Steps-IsOrderly_example : IsOrderly second (returned 0 "b" ∷ returned 0 "b" ∷ [])
Steps-IsOrderly_example =
    Steps-IsOrderly first both second (returned 0 "b" ∷ returned 0 "b" ∷ []) refreshed
      both-IsOrderly
