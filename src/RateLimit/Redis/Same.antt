-- ===== src/RateLimit/Redis/Same.antt =====
-- `checkRedis` beside `checkMemory` of internal/ratelimit/limiter.go.
use gatemux.Common.{
  ℕ, ◌-◌, max, ◌+◌, ◌≤◌, ◌≡◌, refl, ap, ◌∙◌, subst, inl, inr, false, Option-cases, Option, none,
  some, List, ◌∷◌, All, All-map2, ok,
}
use gatemux.Common.Maps.{IsMap}
use gatemux.RateLimit.Specs.{Scope, Metric, LimitSpec, window_end}
use gatemux.RateLimit.Memory.{
  second, counter_eq, Memory, Outcome, allowed, denied, prune, full, check_memory,
}
use gatemux.RateLimit.Memory.Used.{used_at, used_at-prune}
use gatemux.RateLimit.Memory.Admit.{IsDistinct}
use gatemux.RateLimit.Memory.Exact.{check_memory-outcome}
use gatemux.RateLimit.Memory.Verdict.{
  first_over, first_over_same, verdict-check_specs, timed, timed-check_specs,
}
use gatemux.RateLimit.Redis.{RedisCounters, check_redis}
use gatemux.RateLimit.Redis.Answer.{denial_of}
use gatemux.RateLimit.Redis.Deadline.{IsNearRetry, check_redis-IsNearRetry}
use gatemux.RateLimit.Redis.Verdict.{IsExactWorth}
use gatemux.RateLimit.Redis.Agree.{IsUsual, Agrees, used, Agrees-passed, Agrees-denied, All-every}

-- The outcomes of memory and of Redis: the same limit denies, and the caller may retry at about the same
-- time.
abbrev pub IsAlike : Outcome → Outcome → Type 0
IsAlike allowed allowed = Unit
IsAlike (denied a s t) (denied b s' t') =
    (s ≡ s') × (t ≡ t') × (b ≤ a + 1000000) × (a ≤ b + 2000000)
IsAlike _ _ = ⊥

answered_allowed : (o : Option Outcome) → denial_of o ≡ some none → o ≡ some allowed
answered_allowed none h = absurd (cc)
answered_allowed (some allowed) h = refl
answered_allowed (some (denied a b c)) h = absurd (cc)

answered_denied :
    (o : Option Outcome) (v : Scope × Metric)
    → denial_of o ≡ some (some v)
    → (retry : ℕ) × (o ≡ some (denied retry v.0 v.1))
answered_denied none v h = absurd (cc)
answered_denied (some allowed) v h = absurd (cc)
answered_denied (some (denied a b c)) v h =
    (a, ap (λ (u : Option (Option (Scope × Metric))). again a u) h)
  where
    again : ℕ → Option (Option (Scope × Metric)) → Option Outcome
    again a (some (some (b, c))) = some (denied a b c)
    again a _ = none

module _ (r : RedisCounters) (now : ℕ) (x : LimitSpec) (xs : List LimitSpec) (m : Memory)
    (s : r.Store) where
  abbrev left : ℕ
  left = max (window_end now - now) second

  timed-used :
      IsMap m.counters
      → full (x ∷ xs) (prune now m) ≡ false
      → (check_memory now (x ∷ xs) m).0
        ≡ ok (timed left (first_over (used r now x xs m s) (x ∷ xs)))
  timed-used h room =
      check_memory-outcome now (x ∷ xs) m room
      ∙ ap ok (
          timed-check_specs now (x ∷ xs) (prune now m).counters
          ∙ ap (timed left) (
              verdict-check_specs now (x ∷ xs) (prune now m).counters
              ∙ first_over_same _ (used r now x xs m s) (x ∷ xs)
                  (All-every (x ∷ xs) (λ y. used_at-prune now y.counter m h))))

  -- Where the counters of the window agree, `checkRedis` and `checkMemory` both answer: they deny for
  -- the same limit, the first that has no room, or both allow. `checkMemory` lets a denied caller
  -- retry at the end of the window, and no sooner than after a second; `checkRedis` says the same, a
  -- millisecond more or two fewer. Afterwards the counters agree again. The counters agree when they
  -- are worth the same and each deadline that Redis has reaches the end of the window, to those
  -- milliseconds. The limits are valid, with different counters of the window of now, at most 2^52 as
  -- their increments and counters are; memory has the capacity; and the window does not end within a
  -- millisecond.
  pub check_redis-check_memory :
      IsMap m.counters
      → IsDistinct (x ∷ xs)
      → All (IsUsual now) (x ∷ xs)
      → All (λ y. IsExactWorth (used_at now y.counter m.counters)) (x ∷ xs)
      → full (x ∷ xs) (prune now m) ≡ false
      → now + 1000000 ≤ window_end now
      → Agrees r now m.counters s
      → let by_memory =
          timed
            (max (window_end now - now) second)
            (first_over (λ j. used_at now j m.counters) (x ∷ xs)) in
        (by_redis : Outcome) × ((check_memory now (x ∷ xs) m).0 ≡ ok by_memory)
        × ((check_redis r now x xs s).0 ≡ some by_redis)
        × IsAlike by_memory by_redis
        × Agrees r now (check_memory now (x ∷ xs) m).1.counters (check_redis r now x xs s).1
  check_redis-check_memory h d u w room before same =
      let memory = timed-used h room in
      let near =
        check_redis-IsNearRetry r now x xs s
          (All-map2 (x ∷ xs) (λ y a b. (same y.counter a.in_window).1) u w) in
      elim (Option-cases (first_over (used r now x xs m s) (x ∷ xs))) [
        | inl e ↦
            let (answer, after) = Agrees-passed r now x xs m s h d u w room before same e in
            let alike : IsAlike (timed left (first_over (used r now x xs m s) (x ∷ xs))) allowed =
              rw e tt in
            (allowed, memory, answered_allowed _ answer, alike, after)
        | inr (v, e) ↦
            let (answer, after) = Agrees-denied r now x xs m s h d u w room before same v e in
            let (retry, reply) = answered_denied _ v answer in
            let times : IsNearRetry now (some (denied retry v.0 v.1)) =
              subst (IsNearRetry now) reply near in
            let alike : IsAlike (timed left (first_over (used r now x xs m s) (x ∷ xs)))
                (denied retry v.0 v.1) =
              rw e (refl, refl, times.0, times.1) in
            (denied retry v.0 v.1, memory, reply, alike, after)
      ]
