-- ===== src/Usage/Logger/Recovers.antt =====
-- The end of a recovery: the worker and `Ready` of internal/usage/logger.go.
use gatemux.Common.{ℕ, ◌≡◌, inl, inr, true, false, List, All}
use gatemux.Usage.Logger.{waiting, Logger, ready, is_pending, LoggerStep, run_logger, new_logger}
use gatemux.Usage.Logger.Quiet.{IsQuiet, run_logger-Kept, run_logger-InTime, cutoff_of-IsWithin}
use gatemux.Usage.Logger.Stages.{to_check, from_check, IsDone, IsDone-Kept, IsWatched-Kept}
use gatemux.Usage.Logger.Rounds.{
  from_check-IsDone, to_check-IsDone, from_check-IsWatched, from_check-clear, to_check-IsOpen,
  to_check-IsWatched,
}

module _ (clock : ℕ) (ts : List LoggerStep) where
  abbrev pub reached : Logger
  reached = run_logger (new_logger clock) ts

  -- The worker puts its first question.
  abbrev pub asks : List LoggerStep → List LoggerStep → Logger
  asks a b = run_logger reached (to_check a b)

  -- And, some time later, its second one.
  abbrev pub asks_again :
      List LoggerStep
      → List LoggerStep
      → List LoggerStep
      → List LoggerStep
      → List LoggerStep
      → List LoggerStep
      → Logger
  asks_again a b c d e f =
      run_logger (run_logger (run_logger (asks a b) (from_check c)) d) (to_check e f)

  -- A worker that waits, behind whatever failures and rounds, ends the recovery within two rounds,
  -- where these meet no error and no further failure, and what was written by the time of its first
  -- question is no longer pending at the second one. Meanwhile other requests may write any number of
  -- intents, which may still be pending, and any intents may be settled, at any place of the rounds.
  pub ready-asks_again :
      (a b c d e f g : List LoggerStep)
      → All IsQuiet a
      → All IsQuiet b
      → All IsQuiet c
      → All IsQuiet d
      → All IsQuiet e
      → All IsQuiet f
      → All IsQuiet g
      → reached.worker ≡ waiting
      → is_pending (asks a b).clock (asks_again a b c d e f).journal ≡ false
      → ready (run_logger (asks_again a b c d e f) (from_check g)) ≡ true
  ready-asks_again a b c d e f g qa qb qc qd qe qf qg w p =
      let m = asks a b in
      let time = m.clock in
      let n = run_logger m (from_check c) in
      let x = run_logger n d in
      let y = asks_again a b c d e f in
      let kept = run_logger-Kept d n qd in
      let over = λ (done : IsDone n).
        (from_check-IsDone y g qg
          (to_check-IsDone x e f qe qf (IsDone-Kept n x kept done))).is_ready in
      let in_time = run_logger-InTime ts (new_logger clock) (tt, tt) in
      elim (to_check-IsOpen reached a b qa qb w in_time) [
        | inl done ↦ over (from_check-IsDone m c qc done)
        | inr still ↦
            elim (from_check-IsWatched m time c qc still
              (cutoff_of-IsWithin time m.cutoff still.within)) [
                | inl done ↦ over done
                | inr watched ↦
                    elim (to_check-IsWatched x e f qe qf time
                      (IsWatched-Kept time (λ n. waiting) n x kept watched)) [
                        | inl done ↦ (from_check-IsDone y g qg done).is_ready
                        | inr again ↦ (from_check-clear y time g qg again p).is_ready
                      ]
              ]
      ]
