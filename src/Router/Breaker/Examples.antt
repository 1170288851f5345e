-- ===== src/Router/Breaker/Examples.antt =====
-- Three failures in a row, the last a second ago.
use gatemux.Common.{◌≡◌, ◌≤◌, ◌<◌, ◌+◌, ◌↔◌, true, some, List, [], ◌∷◌, arith}
use gatemux.Router.Breaker.{failure_threshold, cooldown, is_open_state}
use gatemux.Router.Breaker.History.{
  Call, success, failure, replay, streak, last_failure, IsOrdered, replay-is_open,
}

abbrev calls : List Call
calls =
    failure 7000000000 "502"
    ∷ failure 6000000000 "502"
    ∷ failure 5000000000 "timeout"
    ∷ success
    ∷ []

calls-IsOrdered : IsOrdered calls
calls-IsOrdered = ground arith

replay-is_open_example :
    (is_open_state 8000000000 (some (replay calls)) ≡ true)
    ↔ ((failure_threshold ≤ streak calls) × (8000000000 < last_failure calls + cooldown))
replay-is_open_example = replay-is_open calls 8000000000 calls-IsOrdered (omega arith)
