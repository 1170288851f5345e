-- ===== src/RateLimit/Redis/Answer.antt =====
-- `checkRedis` of internal/ratelimit/limiter.go.
use gatemux.Common.{ℕ, suc, ◌-◌, ◌≡◌, refl, ap, ◌∙◌, Option, none, some, List, ◌∷◌, arith}
use gatemux.RateLimit.Specs.{Scope, Metric, LimitSpec}
use gatemux.RateLimit.Memory.{Outcome}
use gatemux.RateLimit.Memory.Verdict.{verdict}
use gatemux.RateLimit.Redis.{
  RedisCounters, ScriptReply, granted, limited, failed, check_counters, charge_counters,
  check_redis, default_ttl_of, allow_script, act_on, outcome_of,
}
use gatemux.RateLimit.Redis.Charge.{denies, StartsAt}

-- Whether there is an answer, and what it denies.
abbrev pub denial_of : Option Outcome → Option (Option (Scope × Metric))
denial_of none = none
denial_of (some o) = some (verdict o)

module _ (r : RedisCounters) where
  pub granted_lem :
      (first : LimitSpec) (i : ℕ) (xs : List LimitSpec) (o : ScriptReply)
      → StartsAt r i o
      → denies r first i xs o ≡ none
      → o ≡ granted
  granted_lem first i xs granted h k = refl
  granted_lem first i xs (limited j ttl) h k = absurd (ground arith)
  granted_lem first i xs failed h k = absurd h

  module _ (now : ℕ) (x : LimitSpec) (xs : List LimitSpec) (s : r.Store) where
    abbrev pub first_reply : ScriptReply
    first_reply = check_counters r (default_ttl_of now) 1 (x ∷ xs) s

    finished : ScriptReply → Option Outcome × r.Store
    finished o =
        let (reply, s') = act_on r (default_ttl_of now) (x ∷ xs) s o in (outcome_of x xs reply, s')

    check_redis_eq : check_redis r now x xs s ≡ finished first_reply
    unfolding check_redis allow_script finished
    check_redis_eq = refl

    pub check_redis-granted :
        first_reply ≡ granted
        → (charge_counters r (default_ttl_of now) (x ∷ xs) s).0 ≡ granted
        → (denial_of (check_redis r now x xs s).0 ≡ some none)
          × ((check_redis r now x xs s).1 ≡ (charge_counters r (default_ttl_of now) (x ∷ xs) s).1)
    unfolding finished act_on outcome_of
    check_redis-granted h k =
        let e = check_redis_eq ∙ ap finished h in
        (
          ap (λ (p : Option Outcome × r.Store). denial_of p.0) e
              ∙ ap (λ o. denial_of (outcome_of x xs o)) k,
          ap (λ (p : Option Outcome × r.Store). p.1) e,
        )

    finished-denies :
        (v : Scope × Metric) (o : ScriptReply)
        → denies r x 1 (x ∷ xs) o ≡ some v
        → (denial_of (finished o).0 ≡ some (some v)) × ((finished o).1 ≡ s)
    unfolding finished act_on outcome_of
    finished-denies v granted h = absurd (cc)
    finished-denies v (limited i ttl) h =
        let e : suc i - 1 ≡ i = omega arith in (ap some (rw e at h), refl)
    finished-denies v failed h = absurd (cc)

    pub check_redis-denies :
        (v : Scope × Metric)
        → denies r x 1 (x ∷ xs) first_reply ≡ some v
        → (denial_of (check_redis r now x xs s).0 ≡ some (some v))
          × ((check_redis r now x xs s).1 ≡ s)
    check_redis-denies v h =
        let (a, b) = finished-denies v first_reply h in
        (
          ap (λ (p : Option Outcome × r.Store). denial_of p.0) check_redis_eq ∙ a,
          ap (λ (p : Option Outcome × r.Store). p.1) check_redis_eq ∙ b,
        )
