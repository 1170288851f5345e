-- ===== src/Usage/Logger/Quiet.antt =====
-- What the requests of other replicas and the clock leave of the worker of internal/usage/logger.go.
use gatemux.Common.{
  ℕ, ◌+◌, ◌≤◌, ◌≡◌, refl, ◌∙◌, inl, inr, true, false, Bool-cases, Option, none, some, List, [], ◌∷◌,
  ◌++◌, All, ◌==◌, arith,
}
use gatemux.Usage.Logger.{
  Place, waiting, reconciled, loaded, answered, failing, Logger, cutoff_of, begin_intent,
  settle_intent, completion_fails, reconcile_answers, load_epoch, checkpoint, acknowledge,
  note_error, LoggerStep, tick, begin, settled, fails, reconciles, loads, checks, acknowledges,
  notes, logger_step, run_logger,
}

-- A step of the database: its clock, an intent of any request that is written, or one that is settled.
abbrev pub IsQuiet : LoggerStep → Type 0
IsQuiet tick = Unit
IsQuiet begin = Unit
IsQuiet (settled i) = Unit
IsQuiet _ = ⊥

pub record Kept (l l' : Logger) : Type 0 where
  pub worker : l'.worker ≡ l.worker
  pub failures : l'.failures ≡ l.failures
  pub healthy : l'.healthy ≡ l.healthy
  pub observed : l'.observed ≡ l.observed
  pub cutoff : l'.cutoff ≡ l.cutoff
  pub clock : l.clock ≤ l'.clock

step-Kept : (t : LoggerStep) (l : Logger) → IsQuiet t → Kept l (logger_step t l)
unfolding logger_step begin_intent settle_intent
step-Kept tick l q = record {
  worker = refl;
  failures = refl;
  healthy = refl;
  observed = refl;
  cutoff = refl;
  clock = omega arith;
}
step-Kept begin l q = record {
  worker = refl;
  failures = refl;
  healthy = refl;
  observed = refl;
  cutoff = refl;
  clock = omega arith;
}
step-Kept (settled i) l q = record {
  worker = refl;
  failures = refl;
  healthy = refl;
  observed = refl;
  cutoff = refl;
  clock = omega arith;
}
step-Kept (fails i) l q = absurd q
step-Kept (reconciles error) l q = absurd q
step-Kept loads l q = absurd q
step-Kept (checks error) l q = absurd q
step-Kept acknowledges l q = absurd q
step-Kept (notes cancelled) l q = absurd q

pub run_logger-Kept :
    (ts : List LoggerStep) (l : Logger) → All IsQuiet ts → Kept l (run_logger l ts)
unfolding run_logger
run_logger-Kept [] l q = record {
  worker = refl;
  failures = refl;
  healthy = refl;
  observed = refl;
  cutoff = refl;
  clock = omega arith;
}
run_logger-Kept (t ∷ ts) l q =
    let one = step-Kept t l q.0 in
    let rest = run_logger-Kept ts (logger_step t l) q.1 in
    record {
      worker = rest.worker ∙ one.worker;
      failures = rest.failures ∙ one.failures;
      healthy = rest.healthy ∙ one.healthy;
      observed = rest.observed ∙ one.observed;
      cutoff = rest.cutoff ∙ one.cutoff;
      clock = omega (arith, one.clock, rest.clock);
    }

pub run_logger-append :
    (xs ys : List LoggerStep) (l : Logger)
    → run_logger l (xs ++ ys) ≡ run_logger (run_logger l xs) ys
unfolding run_logger
run_logger-append [] ys l = refl
run_logger-append (x ∷ xs) ys l = run_logger-append xs ys (logger_step x l)

-- A watermark is no later than a time.
abbrev pub IsWithin : ℕ → Option ℕ → Type 0
IsWithin time none = Unit
IsWithin time (some c) = c ≤ time

abbrev pub IsHeld : ℕ → Place → Type 0
IsHeld time (answered e c p) = c ≤ time
IsHeld time _ = Unit

-- The worker's watermarks are of the past.
abbrev pub InTime : Logger → Type 0
InTime l = IsWithin l.clock l.cutoff × IsHeld l.clock l.worker

pub IsWithin-later : (a b : ℕ) (c : Option ℕ) → a ≤ b → IsWithin a c → IsWithin b c
IsWithin-later a b none h k = tt
IsWithin-later a b (some c) h k = omega (arith, k)

IsHeld-later : (a b : ℕ) (w : Place) → a ≤ b → IsHeld a w → IsHeld b w
IsHeld-later a b waiting h k = tt
IsHeld-later a b reconciled h k = tt
IsHeld-later a b (loaded e) h k = tt
IsHeld-later a b (answered e c p) h k = omega (arith, k)
IsHeld-later a b failing h k = tt

pub cutoff_of-IsWithin : (time : ℕ) (c : Option ℕ) → IsWithin time c → cutoff_of time c ≤ time
cutoff_of-IsWithin time none h = omega arith
cutoff_of-IsWithin time (some c) h = h

step-InTime : (t : LoggerStep) (l : Logger) → InTime l → InTime (logger_step t l)
unfolding logger_step begin_intent settle_intent completion_fails reconcile_answers load_epoch
    checkpoint acknowledge note_error
step-InTime t l h = go t l.worker refl
  where
    go : (t : LoggerStep) (w : Place) → l.worker ≡ w → InTime (logger_step t l)
    go tick w e = (
      IsWithin-later l.clock (l.clock + 1) l.cutoff (omega arith) h.0,
      IsHeld-later l.clock (l.clock + 1) l.worker (omega arith) h.1,
    )
    go begin w e = h
    go (settled i) w e = h
    go (fails i) w e = h
    go (reconciles true) waiting e = rw (e, reconcile_answers) (h.0, tt)
    go (reconciles false) waiting e = rw (e, reconcile_answers) (h.0, tt)
    go (reconciles error) reconciled e = rw (e, reconcile_answers) h
    go (reconciles error) (loaded n) e = rw (e, reconcile_answers) h
    go (reconciles error) (answered n c p) e = rw (e, reconcile_answers) h
    go (reconciles error) failing e = rw (e, reconcile_answers) h
    go loads reconciled e = elim (Bool-cases (l.failures == l.healthy)) [
      | inl fine ↦ rw (e, fine, load_epoch) (h.0, tt)
      | inr recovery ↦ elim (Bool-cases (l.failures == l.observed)) [
        | inl old ↦ rw (e, recovery, old, load_epoch) (h.0, tt)
        | inr new ↦ rw (e, recovery, new, load_epoch) (tt, tt)
      ]
    ]
    go loads waiting e = rw (e, load_epoch) h
    go loads (loaded n) e = rw (e, load_epoch) h
    go loads (answered n c p) e = rw (e, load_epoch) h
    go loads failing e = rw (e, load_epoch) h
    go (checks true) (loaded n) e = rw (e, checkpoint) (h.0, tt)
    go (checks false) (loaded n) e =
        rw (e, checkpoint) (h.0, cutoff_of-IsWithin l.clock l.cutoff h.0)
    go (checks error) waiting e = rw (e, checkpoint) h
    go (checks error) reconciled e = rw (e, checkpoint) h
    go (checks error) (answered n c p) e = rw (e, checkpoint) h
    go (checks error) failing e = rw (e, checkpoint) h
    go acknowledges (answered n c true) e =
        let held : c ≤ l.clock = rw e at h.1 in rw (e, acknowledge) (held, tt)
    go acknowledges (answered n c false) e =
        let held : c ≤ l.clock = rw e at h.1 in rw (e, acknowledge) (held, tt)
    go acknowledges waiting e = rw (e, acknowledge) h
    go acknowledges reconciled e = rw (e, acknowledge) h
    go acknowledges (loaded n) e = rw (e, acknowledge) h
    go acknowledges failing e = rw (e, acknowledge) h
    go (notes true) failing e = rw (e, note_error) (h.0, tt)
    go (notes false) failing e = rw (e, note_error) (h.0, tt)
    go (notes b) waiting e = rw (e, note_error) h
    go (notes b) reconciled e = rw (e, note_error) h
    go (notes b) (loaded n) e = rw (e, note_error) h
    go (notes b) (answered n c p) e = rw (e, note_error) h

pub run_logger-InTime : (ts : List LoggerStep) (l : Logger) → InTime l → InTime (run_logger l ts)
unfolding run_logger
run_logger-InTime [] l h = h
run_logger-InTime (t ∷ ts) l h = run_logger-InTime ts (logger_step t l) (step-InTime t l h)
