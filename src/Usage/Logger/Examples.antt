-- ===== src/Usage/Logger/Examples.antt =====
-- A completion that fails, and the round that finds it settled, for internal/usage/logger.go.
use gatemux.Common.{◌≡◌, refl, true, false, ◌&&◌, List, [], ◌∷◌, ◌++◌, All, ltb, arith}
use gatemux.Usage.Logger.{
  LoggerStep, waiting, tick, begin, settled, fails, reconciles, loads, checks, acknowledges, ready,
  is_pending, run_logger, new_logger,
}
use gatemux.Usage.Logger.Recovered.{ready-IsSettled}
use gatemux.Usage.Logger.Stages.{from_check}
use gatemux.Usage.Logger.Recovers.{reached, asks, asks_again, ready-asks_again}

abbrev round : List LoggerStep
round = reconciles false ∷ loads ∷ checks false ∷ acknowledges ∷ []

-- The first intent fails, and a round still finds it pending.
abbrev first_round : List LoggerStep
first_round = begin ∷ tick ∷ fails 0 ∷ round

first_not_ready : ready (run_logger (new_logger 10) first_round) ≡ false
unfolding ready run_logger
first_not_ready = refl

-- The journal settles it, while a newer intent is pending.
abbrev both_rounds : List LoggerStep
both_rounds = first_round ++ tick ∷ begin ∷ settled 0 ∷ round

both_ready : ready (run_logger (new_logger 10) both_rounds) ≡ true
unfolding ready run_logger
both_ready = refl

ready-IsSettled_example :
    All
      (λ x. (ltb 0 x.counted && x.pending) ≡ false)
      (run_logger (new_logger 10) both_rounds).journal
ready-IsSettled_example = ready-IsSettled 10 both_rounds (omega arith) both_ready

abbrev failed_once : List LoggerStep
failed_once = begin ∷ tick ∷ fails 0 ∷ []

failed_once-waiting : (reached 10 failed_once).worker ≡ waiting
unfolding run_logger
failed_once-waiting = refl

-- Between the questions the failed intent is settled, and a newer one is written.
abbrev between_questions : List LoggerStep
between_questions = tick ∷ begin ∷ settled 0 ∷ []

settled_by_then :
    is_pending
      (asks 10 failed_once [] []).clock
      (asks_again 10 failed_once [] [] [] between_questions [] (tick ∷ [])).journal
    ≡ false
unfolding run_logger is_pending
settled_by_then = refl

ready-asks_again_example :
    ready (
      run_logger
        (asks_again 10 failed_once [] [] [] between_questions [] (tick ∷ []))
        (from_check []))
    ≡ true
ready-asks_again_example =
    ready-asks_again 10 failed_once [] [] [] between_questions [] (tick ∷ []) [] tt tt tt
      (tt, (tt, (tt, tt))) tt (tt, tt) tt failed_once-waiting settled_by_then
