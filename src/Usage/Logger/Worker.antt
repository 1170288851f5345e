-- ===== src/Usage/Logger/Worker.antt =====
-- The steps of `run` and `reconcile` of internal/usage/logger.go.
use gatemux.Common.{
  ℕ, ◌+◌, ◌≤◌, ◌<◌, ◌≡◌, refl, inl, inr, Bool, true, false, Bool-cases, Option, none, some, All,
  All-map2, ◌==◌, arith,
}
use gatemux.Usage.Logger.{
  Intent, Place, waiting, reconciled, loaded, answered, failing, Logger, cutoff_of, is_pending,
  reconcile_answers, load_epoch, checkpoint, acknowledge, note_error, reconciles, loads, checks,
  acknowledges, notes, logger_step,
}
use gatemux.Usage.Logger.Known.{
  IsSettled, IsBefore, IsCovered, IsSeen, epoch_of, IsSound, All-every, All-is_pending,
  cutoff_of-IsBefore,
}
use gatemux.Usage.Logger.Clients.{add_failure_suc}

module _ (k : ℕ) (few_steps : k + 1 < 18446744073709551616) (l : Logger) (s : IsSound k l) where
  changed-IsSound :
      (o g : ℕ) (c : Option ℕ) (w : Place)
      → o ≤ l.failures
      → g ≤ l.failures
      → epoch_of o w ≡ o
      → All (λ x. IsSettled g x × IsCovered o c x × IsSeen o w x) l.journal
      → IsSound (k + 1) (record l { worker = w; observed = o; cutoff = c; healthy = g })
  changed-IsSound o g c w ol gl e a = record {
    intents =
        All-map2 l.journal
          (λ x h b. record {
            created = h.created;
            counted = h.counted;
            healthy = b.0;
            watermark = b.1;
            seen = b.2;
          })
          s.intents a;
    few = omega (arith, s.few);
    healthy_le = gl;
    observed_le = ol;
    epoch_eq = e;
  }

  weaken-IsSound : IsSound (k + 1) l
  weaken-IsSound = record {
    intents = s.intents;
    few = omega (arith, s.few);
    healthy_le = s.healthy_le;
    observed_le = s.observed_le;
    epoch_eq = s.epoch_eq;
  }

  -- The worker moves to a place where it holds no epoch.
  moved-IsSound :
      (w : Place)
      → epoch_of l.observed w ≡ l.observed
      → ((x : Intent) → IsSeen l.observed w x)
      → IsSound (k + 1) (record l { worker = w })
  moved-IsSound w e a =
      changed-IsSound l.observed l.healthy l.cutoff w s.observed_le s.healthy_le e
        (All-every l.journal (λ x h. (h.healthy, h.watermark, a x)) s.intents)

  pub reconciles-IsSound : (error : Bool) → IsSound (k + 1) (logger_step (reconciles error) l)
  unfolding logger_step reconcile_answers
  reconciles-IsSound error = go l.worker refl error
    where
      go :
          (w : Place)
          → l.worker ≡ w
          → (error : Bool) → IsSound (k + 1) (logger_step (reconciles error) l)
      go waiting e true = rw (e, reconcile_answers) (moved-IsSound failing refl (λ x. tt))
      go waiting e false = rw (e, reconcile_answers) (moved-IsSound reconciled refl (λ x. tt))
      go reconciled e error = rw (e, reconcile_answers) weaken-IsSound
      go (loaded n) e error = rw (e, reconcile_answers) weaken-IsSound
      go (answered n b p) e error = rw (e, reconcile_answers) weaken-IsSound
      go failing e error = rw (e, reconcile_answers) weaken-IsSound

  pub loads-IsSound : IsSound (k + 1) (logger_step loads l)
  unfolding logger_step load_epoch
  loads-IsSound = go l.worker refl
    where
      go : (w : Place) → l.worker ≡ w → IsSound (k + 1) (logger_step loads l)
      go waiting e = rw (e, load_epoch) weaken-IsSound
      go reconciled e = elim (Bool-cases (l.failures == l.healthy)) [
        | inl fine ↦ rw (e, fine, load_epoch) (moved-IsSound waiting refl (λ x. tt))
        | inr recovery ↦ elim (Bool-cases (l.failures == l.observed)) [
          | inl old ↦
              rw (e, recovery, old, load_epoch)
                (moved-IsSound (loaded l.failures) (ground arith) (λ x. tt))
          | inr new ↦
              rw (e, recovery, new, load_epoch)
                (changed-IsSound l.failures l.healthy none (loaded l.failures) (omega arith)
                  s.healthy_le refl (All-every l.journal (λ x h. (h.healthy, tt, tt)) s.intents))
        ]
      ]
      go (loaded n) e = rw (e, load_epoch) weaken-IsSound
      go (answered n b p) e = rw (e, load_epoch) weaken-IsSound
      go failing e = rw (e, load_epoch) weaken-IsSound

  abbrev c : ℕ
  c = cutoff_of l.clock l.cutoff

  pub checks-IsSound : (error : Bool) → IsSound (k + 1) (logger_step (checks error) l)
  unfolding logger_step checkpoint
  checks-IsSound error = go l.worker refl error
    where
      go :
          (w : Place)
          → l.worker ≡ w
          → (error : Bool) → IsSound (k + 1) (logger_step (checks error) l)
      go (loaded n) e true = rw (e, checkpoint) (moved-IsSound failing refl (λ x. tt))
      go (loaded n) e false =
          let same : n ≡ l.observed = rw e at s.epoch_eq in
          let before : All (IsBefore n c) l.journal = rw same (
            All-every l.journal
              (λ x h. cutoff_of-IsBefore l.observed l.clock l.cutoff x h.created h.watermark)
              s.intents) in
          elim (Bool-cases (is_pending c l.journal)) [
            | inl wait ↦
                rw (e, wait, checkpoint)
                  (changed-IsSound l.observed l.healthy l.cutoff (answered n c true) s.observed_le
                    s.healthy_le same
                    (All-map2 l.journal (λ x h b. (h.healthy, h.watermark, b)) s.intents before))
            | inr clear ↦
                let quiet = All-is_pending n c l.journal before clear in
                let both : All (λ x. IsBefore n c x × IsSettled n x) l.journal =
                  All-map2 l.journal (λ x a b. (a, b)) before quiet in
                rw (e, clear, checkpoint)
                  (changed-IsSound l.observed l.healthy l.cutoff (answered n c false) s.observed_le
                    s.healthy_le same
                    (All-map2 l.journal (λ x h b. (h.healthy, h.watermark, b)) s.intents both))
          ]
      go waiting e error = rw (e, checkpoint) weaken-IsSound
      go reconciled e error = rw (e, checkpoint) weaken-IsSound
      go (answered n b p) e error = rw (e, checkpoint) weaken-IsSound
      go failing e error = rw (e, checkpoint) weaken-IsSound

  pub acknowledges-IsSound : IsSound (k + 1) (logger_step acknowledges l)
  unfolding logger_step acknowledge
  acknowledges-IsSound = go l.worker refl
    where
      go : (w : Place) → l.worker ≡ w → IsSound (k + 1) (logger_step acknowledges l)
      go (answered n c true) e =
          let same : n ≡ l.observed = rw e at s.epoch_eq in
          rw (e, acknowledge)
            (changed-IsSound l.observed l.healthy (some c) waiting s.observed_le s.healthy_le refl (
              All-every l.journal
                (λ x h.
                  let before : IsBefore n c x = rw e at h.seen in
                  (h.healthy, (rw same at before), tt))
                s.intents))
      go (answered n c false) e =
          let same : n ≡ l.observed = rw e at s.epoch_eq in
          rw (e, acknowledge)
            (changed-IsSound l.observed n (some c) waiting s.observed_le
              (omega (arith, s.observed_le, same)) refl
              (All-every l.journal
                (λ x h.
                  let seen : IsBefore n c x × IsSettled n x = rw e at h.seen in
                  (seen.1, (rw same at seen.0), tt))
                s.intents))
      go waiting e = rw (e, acknowledge) weaken-IsSound
      go reconciled e = rw (e, acknowledge) weaken-IsSound
      go (loaded n) e = rw (e, acknowledge) weaken-IsSound
      go failing e = rw (e, acknowledge) weaken-IsSound

  pub notes-IsSound : (cancelled : Bool) → IsSound (k + 1) (logger_step (notes cancelled) l)
  unfolding logger_step note_error
  notes-IsSound cancelled = go l.worker refl cancelled
    where
      go :
          (w : Place)
          → l.worker ≡ w
          → (cancelled : Bool) → IsSound (k + 1) (logger_step (notes cancelled) l)
      go failing e true = rw (e, note_error) (moved-IsSound waiting refl (λ x. tt))
      go failing e false =
          let more = add_failure_suc k few_steps l s in
          rw (e, note_error)
            (record {
              intents =
                  All-every l.journal
                    (λ x h. record {
                      created = h.created;
                      counted = omega (arith, h.counted, more);
                      healthy = h.healthy;
                      watermark = h.watermark;
                      seen = tt;
                    })
                    s.intents;
              few = omega (arith, s.few, more);
              healthy_le = omega (arith, s.healthy_le, more);
              observed_le = omega (arith, s.observed_le, more);
              epoch_eq = refl;
            })
      go waiting e cancelled = rw (e, note_error) weaken-IsSound
      go reconciled e cancelled = rw (e, note_error) weaken-IsSound
      go (loaded n) e cancelled = rw (e, note_error) weaken-IsSound
      go (answered n b p) e cancelled = rw (e, note_error) weaken-IsSound
