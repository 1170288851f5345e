-- ===== src/Router/Policies/Examples.antt =====
-- A team whose limit was set twice, seen ten seconds after the load.
use gatemux.Common.{
  ◌≡◌, ◌+◌, none, some, List, [], ◌∷◌, ◌++◌, if◌then◌else◌, ltb, pos, ok, err, arith,
}
use gatemux.Router.Policies.{
  ScopeKey, PolicyRow, Policies, max_age, refresh_policies, stale_snapshot, scopes_of,
  concurrency_scope,
}
use gatemux.Router.Policies.Latest.{last_limit, refresh_policies-latest}

abbrev team_seven : ScopeKey
team_seven = record { scope = "team"; subject = "7" }

abbrev rows : List PolicyRow
rows =
    record { key = team_seven; id = pos 7; max_parallel_requests = some (pos 9) }
    ∷ record { key = team_seven; id = pos 7; max_parallel_requests = some (pos 4) }
    ∷ record { key = team_seven; id = pos 7; max_parallel_requests = none }
    ∷ []

abbrev unloaded : Policies
unloaded = record { by_scope = []; loaded_at = 0 }

refresh_policies-latest_example :
    concurrency_scope 15000000000 team_seven
      (refresh_policies 5000000000 (some rows) (some []) unloaded).1
    ≡ (if ltb (5000000000 + max_age) 15000000000
        then err stale_snapshot
        else ok (scopes_of (last_limit team_seven (rows ++ []))))
refresh_policies-latest_example =
    refresh_policies-latest 5000000000 15000000000 rows [] team_seven unloaded (omega arith)
