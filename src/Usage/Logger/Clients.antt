-- ===== src/Usage/Logger/Clients.antt =====
-- The steps of `Record`, and of the journal, beside the worker of internal/usage/logger.go.
use gatemux.Common.{ℕ, ◌+◌, ◌<◌, ◌≡◌, All-append, arith}
use gatemux.Usage.Logger.{
  Logger, add_failure, mark_settled, begin_intent, settle_intent, completion_fails, tick, begin,
  settled, fails, logger_step,
}
use gatemux.Usage.Logger.Known.{
  IsKnown, IsSound, All-every, All-update_intent, IsCovered-later, IsSeen-later,
  IsCovered-mark_settled, IsSeen-mark_settled, IsCovered-new, IsSeen-new,
}

module _ (k : ℕ) (few_steps : k + 1 < 18446744073709551616) (l : Logger) (s : IsSound k l) where
  pub tick-IsSound : IsSound (k + 1) (logger_step tick l)
  unfolding logger_step
  tick-IsSound = record {
    intents =
        All-every l.journal
          (λ x h. record {
            created = omega (arith, h.created);
            counted = h.counted;
            healthy = h.healthy;
            watermark = h.watermark;
            seen = h.seen;
          })
          s.intents;
    few = omega (arith, s.few);
    healthy_le = s.healthy_le;
    observed_le = s.observed_le;
    epoch_eq = s.epoch_eq;
  }

  pub begin-IsSound : IsSound (k + 1) (logger_step begin l)
  unfolding logger_step begin_intent
  begin-IsSound = record {
    intents =
        All-append (IsKnown (begin_intent l)) l.journal _
          (All-every l.journal
            (λ x h. record {
              created = h.created;
              counted = h.counted;
              healthy = h.healthy;
              watermark = h.watermark;
              seen = h.seen;
            })
            s.intents)
          (
            record {
              created = omega arith;
              counted = omega arith;
              healthy = ground arith;
              watermark = IsCovered-new l.observed l.cutoff l.clock;
              seen = IsSeen-new l.observed l.worker l.clock;
            },
            tt,
          );
    few = omega (arith, s.few);
    healthy_le = s.healthy_le;
    observed_le = s.observed_le;
    epoch_eq = s.epoch_eq;
  }

  pub settled-IsSound : (i : ℕ) → IsSound (k + 1) (logger_step (settled i) l)
  unfolding logger_step settle_intent
  settled-IsSound i = record {
    intents =
        All-update_intent i mark_settled l.journal
          (λ x h. record {
            created = h.created;
            counted = h.counted;
            healthy = h.healthy;
            watermark = h.watermark;
            seen = h.seen;
          })
          (λ x h. record {
            created = h.created;
            counted = h.counted;
            healthy = ground arith;
            watermark = IsCovered-mark_settled l.observed l.cutoff x h.watermark;
            seen = IsSeen-mark_settled l.observed l.worker x h.seen;
          })
          s.intents;
    few = omega (arith, s.few);
    healthy_le = s.healthy_le;
    observed_le = s.observed_le;
    epoch_eq = s.epoch_eq;
  }

  pub add_failure_suc : add_failure l.failures ≡ l.failures + 1
  add_failure_suc = omega (arith, s.few)

  pub fails-IsSound : (i : ℕ) → IsSound (k + 1) (logger_step (fails i) l)
  unfolding logger_step completion_fails
  fails-IsSound i =
      let e = add_failure_suc in
      record {
        intents =
            All-update_intent i (λ x. record x { counted = add_failure l.failures }) l.journal
              (λ x h. record {
                created = h.created;
                counted = omega (arith, h.counted, e);
                healthy = h.healthy;
                watermark = h.watermark;
                seen = h.seen;
              })
              (λ x h. record {
                created = h.created;
                counted = omega arith;
                healthy = let b = s.healthy_le in ground arith;
                watermark = IsCovered-later l.observed l.cutoff _ (omega (arith, s.observed_le, e));
                seen =
                    IsSeen-later l.observed l.worker _
                      (omega (arith, s.observed_le, s.epoch_eq, e));
              })
              s.intents;
        few = omega (arith, s.few, e);
        healthy_le = omega (arith, s.healthy_le, e);
        observed_le = omega (arith, s.observed_le, e);
        epoch_eq = s.epoch_eq;
      }
