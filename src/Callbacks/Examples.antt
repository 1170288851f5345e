-- ===== src/Callbacks/Examples.antt =====
-- Two events and a shutdown, for internal/callbacks/callbacks.go.
use Prim.Native.String.{String}
use gatemux.Common.{◌+◌, ◌≤◌, ◌≡◌, refl, true, false, List, [], ◌∷◌, map, length, if◌then◌else◌}
use gatemux.Common.Threads.{total, get_elem?, set}
use gatemux.Callbacks.{
  Event, outside, Bus, Step, emit, take, send_returns, cancel, runner_ends, stops, drains,
  queue_capacity, registered, run_bus,
}
use gatemux.Callbacks.Accounts.{accounted, done, in_hand, run_bus-accounted}

abbrev events : List Event
events =
    record { id = "evt_1"; type = "request.failed" }
    ∷ record { id = "evt_2"; type = "key.created" }
    ∷ record { id = "evt_3"; type = "request.failed" }
    ∷ []

-- The first event is sent and fails, the second is not for the callback, and the third comes late.
abbrev steps : List Step
steps =
    emit 0
    ∷ emit 1
    ∷ emit 0
    ∷ take 5
    ∷ cancel
    ∷ send_returns 6 false
    ∷ stops
    ∷ emit 2
    ∷ runner_ends
    ∷ drains
    ∷ []

abbrev types : List String
types = "request.failed" ∷ []

abbrev end : Bus
end = run_bus (registered types (map outside events)) steps

end_counts : (end.failed ≡ 1) × (end.dropped ≡ 1) × (end.closed ≡ true)
unfolding run_bus get_elem? set
end_counts = (refl, refl, refl)

run_bus-accounted_example :
    (accounted end ≡ total done end.emitters)
    × (length end.queue ≤ queue_capacity)
    × ((if end.closed then length end.queue + in_hand end.runner else 0) ≡ 0)
run_bus-accounted_example = run_bus-accounted types events steps
