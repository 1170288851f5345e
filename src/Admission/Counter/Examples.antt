-- ===== src/Admission/Counter/Examples.antt =====
-- Three goroutines race for two places, and the limit is lowered while they do.
use gatemux.Common.{◌≤◌, ◌≡◌, List, [], ◌∷◌, arith, pos}
use gatemux.Common.Threads.{total}
use gatemux.Admission.Counter.{Move, thread, limit_set, advance, release, run, initial}
use gatemux.Admission.Counter.Limit.{holds, run-le-cap}

abbrev race : List Move
race =
    thread 0 advance
    ∷ thread 1 advance
    ∷ thread 0 advance
    ∷ thread 1 advance
    ∷ thread 0 advance
    ∷ thread 1 advance
    ∷ limit_set (pos 1)
    ∷ thread 2 advance
    ∷ thread 2 advance
    ∷ thread 0 release
    ∷ []

run-le-cap_example :
    ((run (initial (pos 2) 3) race).counter.in_flight
      ≡ pos (total holds (run (initial (pos 2) 3) race).threads))
    × (total holds (run (initial (pos 2) 3) race).threads ≤ 2)
run-le-cap_example =
    run-le-cap 2 (pos 2) 3 race (ground arith) (omega arith) (omega arith)
      (tt, (tt, (tt, (tt, (tt, (tt, ((omega arith), (tt, (tt, (tt, tt))))))))))
