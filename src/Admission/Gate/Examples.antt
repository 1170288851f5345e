-- ===== src/Admission/Gate/Examples.antt =====
-- Two goroutines at a gate for one, with room for one to wait.
use gatemux.Common.{ℕ, ◌≤◌, ◌≡◌, ◌≢◌, inl, refl, none, some, List, [], ◌∷◌, All, pos, ◌≤ℤ◌, ◌+◌}
use gatemux.Common.Threads.{get_elem?, set, replicate, total}
use gatemux.Admission.Gate.{
  Gate, Event, advance, release, releasing, step, schedule, run, initial, new_gate,
}
use gatemux.Admission.Gate.Invariant.{IsFresh}
use gatemux.Admission.Gate.Bounds.{
  IsDone, holds, waits, lags, run-bounded, release-ne-blocked, run-drained, run-in_flight,
}

abbrev gate : Gate
gate = record {
  capacity = 1;
  queue_cap = 1;
  queue_timeout = pos 5;
  slots = 0;
  queue = 0;
  in_flight = pos 0;
  queued = pos 0;
}

gate_made :
    new_gate (record { max_in_flight = pos 1; max_queued = pos 1; queue_timeout = pos 5 })
    ≡ some gate
unfolding new_gate
gate_made = refl

gate-IsFresh : IsFresh gate
gate-IsFresh = (refl, refl, refl, refl)

-- The first is admitted, the second waits; the first releases, the second is let in and releases.
abbrev both : List (ℕ × Event)
both =
    (0, advance)
    ∷ (0, advance)
    ∷ (1, advance)
    ∷ (1, advance)
    ∷ (1, advance)
    ∷ (0, release)
    ∷ (0, advance)
    ∷ (1, advance)
    ∷ (0, advance)
    ∷ (1, advance)
    ∷ (1, advance)
    ∷ (1, advance)
    ∷ (1, release)
    ∷ (1, advance)
    ∷ (1, advance)
    ∷ []

abbrev up_to_release : List (ℕ × Event)
up_to_release = (0, advance) ∷ (0, advance) ∷ (0, release) ∷ []

run-bounded_example :
    (total holds (run (initial gate 2) both).threads ≤ 1)
    × (total waits (run (initial gate 2) both).threads ≤ 1)
run-bounded_example = run-bounded gate 2 both gate-IsFresh

holder_releases : get_elem? (run (initial gate 2) up_to_release).threads 0 ≡ some releasing
unfolding run schedule step get_elem? set replicate
holder_releases = refl

release-ne-blocked_example : step advance (run (initial gate 2) up_to_release).gate releasing ≢ none
release-ne-blocked_example =
    release-ne-blocked gate 2 up_to_release 0 releasing gate-IsFresh holder_releases (inl refl)

both_finish : All IsDone (run (initial gate 2) both).threads
unfolding run schedule step get_elem? set replicate
both_finish = (tt, (tt, tt))

run-drained_example : IsFresh (run (initial gate 2) both).gate
run-drained_example = run-drained gate 2 both gate-IsFresh both_finish

run-in_flight_example :
    (pos 0 ≤ℤ (run (initial gate 2) both).gate.in_flight)
    × ((run (initial gate 2) both).gate.in_flight
        ≤ℤ pos (1 + total lags (run (initial gate 2) both).threads))
run-in_flight_example = run-in_flight gate 2 both gate-IsFresh
