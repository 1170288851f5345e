-- ===== src/Usage/Logger/Rounds.antt =====
-- The rounds of the worker of internal/usage/logger.go.
use gatemux.Common.{
  ℕ, ◌≤◌, ◌≡◌, refl, sym, ◌∙◌, subst, ap, ◌⊎◌, inl, inr, Bool, true, false, Bool-cases, List, [],
  ◌∷◌, All, arith,
}
use gatemux.Usage.Logger.{
  Intent, waiting, reconciled, loaded, answered, Logger, ready, cutoff_of, is_pending,
  reconcile_answers, load_epoch, checkpoint, acknowledge, LoggerStep, reconciles, loads, checks,
  acknowledges, logger_step, run_logger,
}
use gatemux.Usage.Logger.Quiet.{
  IsQuiet, run_logger-Kept, run_logger-append, run_logger-InTime, IsWithin, IsWithin-later, InTime,
}
use gatemux.Usage.Logger.Stages.{
  to_check, from_check, IsDone, IsOpen, IsWatched, IsDone-Kept, IsOpen-Kept, IsWatched-Kept,
  reconciles-IsDone, loads-IsDone, checks-IsDone, acknowledges-IsDone, loads-IsOpen,
  loads-IsWatched,
}

pub acknowledges-pending :
    (l : Logger) (time c : ℕ)
    → c ≤ time
    → IsOpen time (λ n. answered n c true) l
    → IsWatched time (λ n. waiting) (logger_step acknowledges l)
unfolding logger_step acknowledge
acknowledges-pending l time c b h =
    let e = h.worker in
    rw (e, acknowledge)
      (record { worker = refl; observed = h.observed; mark = c; marked = refl; within = b })

pub acknowledges-clear :
    (l : Logger) (time c : ℕ)
    → IsOpen time (λ n. answered n c false) l
    → IsDone (logger_step acknowledges l)
unfolding logger_step acknowledge ready
acknowledges-clear l time c h =
    let e = h.worker in rw (e, acknowledge) (record { is_ready = ground arith; idle = tt })

-- The question to the database, for the watermark.
pub checks-IsOpen :
    (l : Logger) (time : ℕ) (p : Bool)
    → is_pending (cutoff_of l.clock l.cutoff) l.journal ≡ p
    → IsOpen time loaded l
    → IsOpen time (λ n. answered n (cutoff_of l.clock l.cutoff) p) (logger_step (checks false) l)
unfolding logger_step checkpoint
checks-IsOpen l time p q h =
    let e = h.worker in
    rw (e, q, checkpoint) (record { worker = refl; observed = h.observed; within = h.within })

pub from_check_eq :
    (l : Logger) (a : List LoggerStep)
    → run_logger l (from_check a)
      ≡ logger_step acknowledges (run_logger (logger_step (checks false) l) a)
unfolding run_logger
from_check_eq l a = run_logger-append a (acknowledges ∷ []) (logger_step (checks false) l)

pub to_check_eq :
    (l : Logger) (a b : List LoggerStep)
    → run_logger l (to_check a b)
      ≡ run_logger (logger_step loads (run_logger (logger_step (reconciles false) l) a)) b
unfolding run_logger
to_check_eq l a b = run_logger-append a (loads ∷ b) (logger_step (reconciles false) l)

pub is_pending-le :
    (c time : ℕ) (xs : List Intent)
    → c ≤ time
    → is_pending time xs ≡ false
    → is_pending c xs ≡ false
unfolding is_pending
is_pending-le c time [] h k = refl
is_pending-le c time (x ∷ xs) h k =
    let rest = is_pending-le c time xs h (ground arith) in ground (arith, rest)

pub from_check-IsDone :
    (l : Logger) (a : List LoggerStep)
    → All IsQuiet a
    → IsDone l
    → IsDone (run_logger l (from_check a))
from_check-IsDone l a q h =
    let m = logger_step (checks false) l in
    subst IsDone (sym (from_check_eq l a)) (
      acknowledges-IsDone (run_logger m a)
        (IsDone-Kept m (run_logger m a) (run_logger-Kept a m q) (checks-IsDone l h)))

pub to_check-IsDone :
    (l : Logger) (a b : List LoggerStep)
    → All IsQuiet a
    → All IsQuiet b
    → IsDone l
    → IsDone (run_logger l (to_check a b))
to_check-IsDone l a b qa qb h =
    let m = logger_step (reconciles false) l in
    let n = logger_step loads (run_logger m a) in
    subst IsDone (sym (to_check_eq l a b)) (
      IsDone-Kept n (run_logger n b) (run_logger-Kept b n qb) (
        loads-IsDone (run_logger m a)
          (IsDone-Kept m (run_logger m a) (run_logger-Kept a m qa) (reconciles-IsDone l h))))

module _ (l : Logger) (time : ℕ) (a : List LoggerStep) (q : All IsQuiet a) where
  abbrev pub asked : Logger
  asked = logger_step (checks false) l

  -- A round ends the recovery, or leaves a watermark that is no later than its question.
  pub from_check-IsWatched :
      IsOpen time loaded l
      → cutoff_of l.clock l.cutoff ≤ time
      → IsDone (run_logger l (from_check a))
        ⊎ IsWatched time (λ n. waiting) (run_logger l (from_check a))
  from_check-IsWatched h b =
      let c = cutoff_of l.clock l.cutoff in
      let kept = run_logger-Kept a asked q in
      elim (Bool-cases (is_pending c l.journal)) [
        | inl p ↦ inr (
            subst (IsWatched time (λ n. waiting)) (sym (from_check_eq l a)) (
              acknowledges-pending (run_logger asked a) time c b (
                IsOpen-Kept time (λ n. answered n c true) asked (run_logger asked a) kept
                  (checks-IsOpen l time true p h))))
        | inr p ↦ inl (
            subst IsDone (sym (from_check_eq l a)) (
              acknowledges-clear (run_logger asked a) time c (
                IsOpen-Kept time (λ n. answered n c false) asked (run_logger asked a) kept
                  (checks-IsOpen l time false p h))))
      ]

  pub from_check-clear :
      IsWatched time loaded l
      → is_pending time l.journal ≡ false
      → IsDone (run_logger l (from_check a))
  from_check-clear h p =
      let c = cutoff_of l.clock l.cutoff in
      let same : c ≡ h.mark = ap (cutoff_of l.clock) h.marked in
      let b : c ≤ time = omega (arith, same, h.within) in
      let open_loaded : IsOpen time loaded l = record {
        worker = h.worker;
        observed = h.observed;
        within = subst (IsWithin time) (sym h.marked) h.within;
      } in
      subst IsDone (sym (from_check_eq l a)) (
        acknowledges-clear (run_logger asked a) time c (
          IsOpen-Kept time (λ n. answered n c false) asked (run_logger asked a)
            (run_logger-Kept a asked q)
            (checks-IsOpen l time false (is_pending-le c time l.journal b p) open_loaded)))

module _ (l : Logger) (a b : List LoggerStep) (qa : All IsQuiet a) (qb : All IsQuiet b) where
  abbrev pub begun : Logger
  begun = logger_step (reconciles false) l

  abbrev pub gone_on : Logger
  gone_on = logger_step loads (run_logger begun a)

  pub reconciles-worker : l.worker ≡ waiting → begun.worker ≡ reconciled
  unfolding logger_step reconcile_answers
  reconciles-worker e = rw (e, reconcile_answers) refl

  pub reconciles-InTime : InTime l → InTime begun
  unfolding logger_step run_logger
  reconciles-InTime h = run_logger-InTime (reconciles false ∷ []) l h

  pub loads-clock : gone_on.clock ≡ (run_logger begun a).clock
  unfolding logger_step load_epoch
  loads-clock = ground arith

  pub reconciles-IsWatched :
      (time : ℕ) → IsWatched time (λ n. waiting) l → IsWatched time (λ n. reconciled) begun
  unfolding logger_step reconcile_answers
  reconciles-IsWatched time h =
      let e = h.worker in
      rw (e, reconcile_answers)
        (record {
          worker = refl;
          observed = h.observed;
          mark = h.mark;
          marked = h.marked;
          within = h.within;
        })

  pub to_check-IsOpen :
      l.worker ≡ waiting
      → InTime l
      → IsDone (run_logger l (to_check a b))
        ⊎ IsOpen (run_logger l (to_check a b)).clock loaded (run_logger l (to_check a b))
  to_check-IsOpen e h =
      let mid = run_logger begun a in
      let at = run_logger-Kept a begun qa in
      let kept = run_logger-Kept b gone_on qb in
      let time = (run_logger gone_on b).clock in
      let past = (run_logger-InTime a begun (reconciles-InTime h)).0 in
      let within =
        IsWithin-later mid.clock time mid.cutoff (omega (arith, loads-clock, kept.clock)) past in
      let back = sym (to_check_eq l a b) in
      elim (loads-IsOpen mid time (at.worker ∙ reconciles-worker e) within) [
        | inl done ↦ inl (subst IsDone back (IsDone-Kept gone_on (run_logger gone_on b) kept done))
        | inr still ↦ inr (
            subst (λ x. IsOpen x.clock loaded x) back
              (IsOpen-Kept time loaded gone_on (run_logger gone_on b) kept still))
      ]

  pub to_check-IsWatched :
      (time : ℕ)
      → IsWatched time (λ n. waiting) l
      → IsDone (run_logger l (to_check a b)) ⊎ IsWatched time loaded (run_logger l (to_check a b))
  to_check-IsWatched time h =
      let kept = run_logger-Kept b gone_on qb in
      elim (loads-IsWatched (run_logger begun a) time (
        IsWatched-Kept time (λ n. reconciled) begun (run_logger begun a)
          (run_logger-Kept a begun qa) (reconciles-IsWatched time h))) [
            | inl done ↦ inl (
                subst IsDone (sym (to_check_eq l a b))
                  (IsDone-Kept gone_on (run_logger gone_on b) kept done))
            | inr watched ↦ inr (
                subst (IsWatched time loaded) (sym (to_check_eq l a b))
                  (IsWatched-Kept time loaded gone_on (run_logger gone_on b) kept watched))
          ]
