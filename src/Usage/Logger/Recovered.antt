-- ===== src/Usage/Logger/Recovered.antt =====
-- When `Ready` reports no pending recovery: `Ready` of internal/usage/logger.go.
use gatemux.Common.{
  ℕ, suc, ◌+◌, ◌<◌, ◌≡◌, refl, subst, true, false, ◌&&◌, List, [], ◌∷◌, length, All, ltb, arith,
}
use gatemux.Usage.Logger.{
  Logger, ready, LoggerStep, tick, begin, settled, fails, reconciles, loads, checks, acknowledges,
  notes, logger_step, run_logger, new_logger,
}
use gatemux.Usage.Logger.Known.{IsSound, All-every}
use gatemux.Usage.Logger.Clients.{tick-IsSound, begin-IsSound, settled-IsSound, fails-IsSound}
use gatemux.Usage.Logger.Worker.{
  reconciles-IsSound, loads-IsSound, checks-IsSound, acknowledges-IsSound, notes-IsSound,
}

step-IsSound :
    (k : ℕ)
    → k + 1 < 18446744073709551616
    → (t : LoggerStep) (l : Logger) → IsSound k l
    → IsSound (k + 1) (logger_step t l)
step-IsSound k h tick l s = tick-IsSound k h l s
step-IsSound k h begin l s = begin-IsSound k h l s
step-IsSound k h (settled i) l s = settled-IsSound k h l s i
step-IsSound k h (fails i) l s = fails-IsSound k h l s i
step-IsSound k h (reconciles error) l s = reconciles-IsSound k h l s error
step-IsSound k h loads l s = loads-IsSound k h l s
step-IsSound k h (checks error) l s = checks-IsSound k h l s error
step-IsSound k h acknowledges l s = acknowledges-IsSound k h l s
step-IsSound k h (notes cancelled) l s = notes-IsSound k h l s cancelled

run_logger-IsSound :
    (k : ℕ) (ts : List LoggerStep) (l : Logger)
    → k + length ts < 18446744073709551616
    → IsSound k l
    → IsSound (k + length ts) (run_logger l ts)
unfolding run_logger
run_logger-IsSound k [] l h s = let e : k ≡ k + 0 = omega arith in subst (λ n. IsSound n l) e s
run_logger-IsSound k (t ∷ ts) l h s =
    let next =
      run_logger-IsSound (k + 1) ts (logger_step t l) (omega arith)
        (step-IsSound k (omega arith) t l s) in
    let e : k + 1 + length ts ≡ k + suc (length ts) = omega arith in
    subst (λ n. IsSound n (run_logger l (t ∷ ts))) e next

new_logger-IsSound : (clock : ℕ) → IsSound 0 (new_logger clock)
new_logger-IsSound clock = record {
  intents = tt;
  few = omega arith;
  healthy_le = omega arith;
  observed_le = omega arith;
  epoch_eq = refl;
}

-- Whatever completions fail, and wherever the worker is, fewer than 2^64 steps on: when `Ready`
-- reports no pending recovery, each intent whose completion has failed is settled in the journal.
pub ready-IsSettled :
    (clock : ℕ) (ts : List LoggerStep)
    → length ts < 18446744073709551616
    → ready (run_logger (new_logger clock) ts) ≡ true
    → All (λ x. (ltb 0 x.counted && x.pending) ≡ false) (run_logger (new_logger clock) ts).journal
unfolding ready
ready-IsSettled clock ts h r =
    let s = run_logger-IsSound 0 ts (new_logger clock) (omega arith) (new_logger-IsSound clock) in
    All-every (run_logger (new_logger clock) ts).journal
      (λ x h. let a = h.counted in let b = h.healthy in ground arith) s.intents
