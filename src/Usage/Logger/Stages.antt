-- ===== src/Usage/Logger/Stages.antt =====
-- How far a recovery has come: the worker of internal/usage/logger.go.
use gatemux.Common.{
  ℕ, ◌≤◌, ◌≡◌, refl, sym, ◌∙◌, subst, ap, ◌⊎◌, inl, inr, true, false, Bool-cases, some, List, [],
  ◌∷◌, ◌++◌, ◌==◌, arith,
}
use gatemux.Usage.Logger.{
  Place, waiting, reconciled, loaded, answered, failing, Logger, ready, reconcile_answers,
  load_epoch, checkpoint, acknowledge, LoggerStep, reconciles, loads, checks, acknowledges,
  logger_step,
}
use gatemux.Usage.Logger.Quiet.{Kept, IsWithin}

-- A round of the worker up to its question to the database, and from there, among quiet steps.
abbrev pub to_check : List LoggerStep → List LoggerStep → List LoggerStep
to_check a b = reconciles false ∷ a ++ loads ∷ b

abbrev pub from_check : List LoggerStep → List LoggerStep
from_check a = checks false ∷ a ++ acknowledges ∷ []

abbrev pub IsIdle : Place → Type 0
IsIdle waiting = Unit
IsIdle reconciled = Unit
IsIdle _ = ⊥

-- The recovery is over.
pub record IsDone (l : Logger) : Type 0 where
  pub is_ready : ready l ≡ true
  pub idle : IsIdle l.worker

-- A recovery of the latest epoch, whose watermark, where there is one, is no later than a time.
pub record IsOpen (time : ℕ) (w : ℕ → Place) (l : Logger) : Type 0 where
  pub worker : l.worker ≡ w l.failures
  pub observed : l.observed ≡ l.failures
  pub within : IsWithin time l.cutoff

-- The same with a watermark.
pub record IsWatched (time : ℕ) (w : ℕ → Place) (l : Logger) : Type 0 where
  pub worker : l.worker ≡ w l.failures
  pub observed : l.observed ≡ l.failures
  pub mark : ℕ
  pub marked : l.cutoff ≡ some mark
  pub within : mark ≤ time

pub IsDone-Kept : (l l' : Logger) → Kept l l' → IsDone l → IsDone l'
unfolding ready
IsDone-Kept l l' k h = record {
  is_ready = let a = h.is_ready in let b = k.failures in let c = k.healthy in ground arith;
  idle = subst IsIdle (sym k.worker) h.idle;
}

pub IsOpen-Kept :
    (time : ℕ) (w : ℕ → Place) (l l' : Logger) → Kept l l' → IsOpen time w l → IsOpen time w l'
IsOpen-Kept time w l l' k h = record {
  worker = k.worker ∙ (h.worker ∙ ap w (sym k.failures));
  observed = k.observed ∙ (h.observed ∙ sym k.failures);
  within = subst (IsWithin time) (sym k.cutoff) h.within;
}

pub IsWatched-Kept :
    (time : ℕ) (w : ℕ → Place) (l l' : Logger)
    → Kept l l'
    → IsWatched time w l
    → IsWatched time w l'
IsWatched-Kept time w l l' k h = record {
  worker = k.worker ∙ (h.worker ∙ ap w (sym k.failures));
  observed = k.observed ∙ (h.observed ∙ sym k.failures);
  mark = h.mark;
  marked = k.cutoff ∙ h.marked;
  within = h.within;
}

pub reconciles-IsDone : (l : Logger) → IsDone l → IsDone (logger_step (reconciles false) l)
unfolding logger_step reconcile_answers ready
reconciles-IsDone l h = go l.worker refl
  where
    go : (w : Place) → l.worker ≡ w → IsDone (logger_step (reconciles false) l)
    go waiting e = rw (e, reconcile_answers) (record { is_ready = h.is_ready; idle = tt })
    go reconciled e = rw (e, reconcile_answers) h
    go (loaded n) e = absurd (rw e at h.idle)
    go (answered n c p) e = absurd (rw e at h.idle)
    go failing e = absurd (rw e at h.idle)

pub loads-IsDone : (l : Logger) → IsDone l → IsDone (logger_step loads l)
unfolding logger_step load_epoch ready
loads-IsDone l h = go l.worker refl
  where
    go : (w : Place) → l.worker ≡ w → IsDone (logger_step loads l)
    go waiting e = rw (e, load_epoch) h
    go reconciled e =
        let r : (l.failures == l.healthy) ≡ true = h.is_ready in
        rw (e, r, load_epoch) (record { is_ready = h.is_ready; idle = tt })
    go (loaded n) e = absurd (rw e at h.idle)
    go (answered n c p) e = absurd (rw e at h.idle)
    go failing e = absurd (rw e at h.idle)

pub checks-IsDone : (l : Logger) → IsDone l → IsDone (logger_step (checks false) l)
unfolding logger_step checkpoint
checks-IsDone l h = go l.worker refl
  where
    go : (w : Place) → l.worker ≡ w → IsDone (logger_step (checks false) l)
    go waiting e = rw (e, checkpoint) h
    go reconciled e = rw (e, checkpoint) h
    go (loaded n) e = absurd (rw e at h.idle)
    go (answered n c p) e = absurd (rw e at h.idle)
    go failing e = absurd (rw e at h.idle)

pub acknowledges-IsDone : (l : Logger) → IsDone l → IsDone (logger_step acknowledges l)
unfolding logger_step acknowledge
acknowledges-IsDone l h = go l.worker refl
  where
    go : (w : Place) → l.worker ≡ w → IsDone (logger_step acknowledges l)
    go waiting e = rw (e, acknowledge) h
    go reconciled e = rw (e, acknowledge) h
    go (loaded n) e = absurd (rw e at h.idle)
    go (answered n c p) e = absurd (rw e at h.idle)
    go failing e = absurd (rw e at h.idle)

-- The worker loads an epoch: it is done, or it goes on with the latest one.
pub loads-IsOpen :
    (l : Logger) (time : ℕ)
    → l.worker ≡ reconciled
    → IsWithin time l.cutoff
    → IsDone (logger_step loads l) ⊎ IsOpen time loaded (logger_step loads l)
unfolding logger_step load_epoch ready
loads-IsOpen l time e h = elim (Bool-cases (l.failures == l.healthy)) [
  | inl fine ↦ inl (rw (e, fine, load_epoch) (record { is_ready = fine; idle = tt }))
  | inr recovery ↦ inr (elim (Bool-cases (l.failures == l.observed)) [
    | inl old ↦
        rw (e, recovery, old, load_epoch)
          (record { worker = refl; observed = ground arith; within = h })
    | inr new ↦
        rw (e, recovery, new, load_epoch) (record { worker = refl; observed = refl; within = tt })
  ])
]

pub loads-IsWatched :
    (l : Logger) (time : ℕ)
    → IsWatched time (λ n. reconciled) l
    → IsDone (logger_step loads l) ⊎ IsWatched time loaded (logger_step loads l)
unfolding logger_step load_epoch ready
loads-IsWatched l time h =
    let e = h.worker in
    elim (Bool-cases (l.failures == l.healthy)) [
      | inl fine ↦ inl (rw (e, fine, load_epoch) (record { is_ready = fine; idle = tt }))
      | inr recovery ↦
          let old : (l.failures == l.observed) ≡ true = let o = h.observed in ground arith in
          inr (
            rw (e, recovery, old, load_epoch)
              (record {
                worker = refl;
                observed = h.observed;
                mark = h.mark;
                marked = h.marked;
                within = h.within;
              }))
    ]
