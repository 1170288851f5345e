-- ===== src/RateLimit/Redis/Agree.antt =====
-- The counters of `checkRedis` and of `checkMemory` of internal/ratelimit/limiter.go, side by side.
use gatemux.Common.{
  ℕ, ◌+◌, ◌≤◌, ◌<◌, ◌≡◌, ◌≢◌, refl, ap, sym, ◌∙◌, subst, inl, inr, false, Bool-cases, Option, none,
  some, List, [], ◌∷◌, All, All-map2, ℤ, IsInt64, arith, Result, ok, err,
}
use gatemux.Common.Maps.{IsMap}
use gatemux.RateLimit.Specs.{Scope, Metric, CounterKey, LimitSpec, window_start, window_end}
use gatemux.RateLimit.Memory.{
  counter_eq, Memory, Counter, CheckError, Outcome, allowed, denied, over, prune, full,
  check_memory,
}
use gatemux.RateLimit.Memory.Used.{used_at, used_at-prune}
use gatemux.RateLimit.Memory.Admit.{IsDistinct, charged}
use gatemux.RateLimit.Memory.Exact.{
  IsValidSpec, IsWorth, over_room, add_exact, check_memory-total, check_memory-unchanged,
  check_memory-outcome,
}
use gatemux.RateLimit.Memory.Verdict.{verdict, first_over, first_over_same, verdict-check_specs}
use gatemux.RateLimit.Redis.{RedisCounters, check_redis, default_ttl_of}
use gatemux.RateLimit.Redis.Answer.{
  denial_of, granted_lem, first_reply, check_redis-granted, check_redis-denies,
}
use gatemux.RateLimit.Redis.Deadline.{IsNear, default_ttl_of-IsNearEnd, charge_counters-deadline}
use gatemux.RateLimit.Redis.Verdict.{number-id, IsExact, IsExactWorth, is_exceeded-over}
use gatemux.RateLimit.Redis.Charge.{
  worth_of, Fits, denies, check_counters-StartsAt, denies-check_counters, charge_counters-charged,
}

abbrev pub memory_denial : Result CheckError Outcome → Option (Option (Scope × Metric))
memory_denial (ok o) = some (verdict o)
memory_denial (err e) = none

-- A limit of the window of a time, in numbers that a double adds exactly.
pub record IsUsual (now : ℕ) (x : LimitSpec) : Type 0 where
  pub valid : IsValidSpec x
  pub exact : IsExact x
  pub in_window : x.counter.bucket ≡ window_start now

first_over-none :
    (f : CounterKey → ℤ) (xs : List LimitSpec)
    → first_over f xs ≡ none
    → All (λ x. over (f x.counter) x ≡ false) xs
unfolding first_over
first_over-none f [] h = tt
first_over-none f (x ∷ xs) h =
    let rest = first_over-none f xs in
    elim (Bool-cases (over (f x.counter) x)) [
      | inl full ↦ absurd (ground (arith, full))
      | inr room ↦ (room, rest (rw (room) at h))
    ]

allowed_lem : (o : Result CheckError Outcome) → memory_denial o ≡ some none → o ≡ ok allowed
allowed_lem (ok allowed) h = refl
allowed_lem (ok (denied a b c)) h = absurd (cc)
allowed_lem (err e) h = absurd (cc)

pub All-every :
    {P : LimitSpec → Type 0} → (ys : List LimitSpec) → ((y : LimitSpec) → P y) → All P ys
All-every [] h = tt
All-every (y ∷ ys) h = (h y, All-every ys h)

later_deadline : (now : ℕ) → now + 1000000 ≤ window_end now → 0 < default_ttl_of now
later_deadline now h = ground arith

IsInt64-worth : (z : ℤ) → IsWorth z → IsInt64 z
IsInt64-worth z h = (h.1, omega (arith, h.0))

-- Where a limit has room, INCRBY can make its sum.
fits_lem :
    (r : RedisCounters) (s : r.Store) (x : LimitSpec)
    → IsValidSpec x
    → IsExact x
    → IsExactWorth (worth_of r s x.counter)
    → over (worth_of r s x.counter) x ≡ false
    → Fits r s x
fits_lem r s x v e w room =
    let worth : IsWorth (worth_of r s x.counter) = (w.0, omega (arith, w.1)) in
    let (sum, sum_worth) = add_exact _ x worth v ((over_room _ x worth v).0 room) in
    (
      IsInt64-worth _ sum_worth,
      number-id r x.increment (omega (arith, v.increment_positive))
          (omega (arith, e.increment_exact)),
    )

module _ (r : RedisCounters) where
  -- The counters of a window are worth the same in Redis and in memory, and run out with it.
  abbrev pub Agrees : ℕ → List (CounterKey × Counter) → r.Store → Type 0
  Agrees now m s =
      (j : CounterKey)
      → j.bucket ≡ window_start now
      → (worth_of r s j ≡ used_at now j m) × IsNear now (r.pttl j s)

  module _ (now : ℕ) (x : LimitSpec) (xs : List LimitSpec) (m : Memory) (s : r.Store) where
    abbrev pub limits : List LimitSpec
    limits = x ∷ xs

    abbrev pub used : CounterKey → ℤ
    used j = used_at now j m.counters

    module _ (h : IsMap m.counters) (d : IsDistinct limits) (u : All (IsUsual now) limits)
        (w : All (λ y. IsExactWorth (used y.counter)) limits)
        (room : full limits (prune now m) ≡ false) (before : now + 1000000 ≤ window_end now)
        (same : Agrees now m.counters s) where
      memory_denial-used :
          memory_denial (check_memory now limits m).0 ≡ some (first_over used limits)
      memory_denial-used =
          ap memory_denial (check_memory-outcome now limits m room)
          ∙ ap some (
              verdict-check_specs now limits (prune now m).counters
              ∙ first_over_same _ used limits
                  (All-every limits (λ y. used_at-prune now y.counter m h)))

      worths : All (λ y. IsExactWorth (worth_of r s y.counter)) limits
      worths =
          All-map2 limits (λ y a b. subst IsExactWorth (sym (same y.counter a.in_window).0) b) u w

      denies-used : denies r x 1 limits (first_reply r now x xs s) ≡ first_over used limits
      denies-used =
          denies-check_counters r x (default_ttl_of now) 1 limits s
            (All-map2 limits (λ y a b. is_exceeded-over r s y a.valid a.exact b) u worths)
          ∙ first_over_same (worth_of r s) used limits
              (All-map2 limits (λ y a b. (same y.counter a.in_window).0) u w)

      passes : first_over used limits ≡ none → (check_memory now limits m).0 ≡ ok allowed
      passes e = allowed_lem _ (memory_denial-used ∙ ap some e)

      refuses :
          (v : Scope × Metric)
          → first_over used limits ≡ some v
          → (check_memory now limits m).0 ≢ ok allowed
      refuses v e a =
          let k : ◌≡◌ {A = Option (Option (Scope × Metric))} (some none) (some (some v)) =
            sym (ap memory_denial a) ∙ (memory_denial-used ∙ ap some e) in
          cc

      pub Agrees-passed :
          first_over used limits ≡ none
          → (denial_of (check_redis r now x xs s).0 ≡ some none)
            × Agrees now (check_memory now limits m).1.counters (check_redis r now x xs s).1
      Agrees-passed e =
          let reply =
            granted_lem r x 1 limits (first_reply r now x xs s)
              (check_counters-StartsAt r (default_ttl_of now) 1 limits s) (denies-used ∙ e) in
          let fits : All (Fits r s) limits =
            All-map2 limits (λ y a b. fits_lem r s y a.0.valid a.0.exact a.1 b)
              (All-map2 {R = λ y. IsUsual now y × IsExactWorth (worth_of r s y.counter)} limits
                (λ y a b. (a, b)) u worths)
              (first_over-none (worth_of r s) limits (
                first_over_same (worth_of r s) used limits
                  (All-map2 limits (λ y a b. (same y.counter a.in_window).0) u w)
                ∙ e)) in
          let (done, after) =
            charge_counters-charged r (default_ttl_of now) (later_deadline now before) limits s d
              fits in
          let (answer, store) = check_redis-granted r now x xs s reply done in
          (
            answer,
            (λ j b. (
              ap (λ t. worth_of r t j) store
                  ∙ (after j
                      ∙ (ap (charged j limits) (same j b).0
                          ∙ sym (check_memory-total now limits m j h (passes e)))),
              subst (λ t. IsNear now (r.pttl j t)) (sym store)
                  (charge_counters-deadline r (IsNear now) (default_ttl_of now)
                    (later_deadline now before) (default_ttl_of-IsNearEnd now) (λ n. tt) limits s j
                    (same j b).1),
            )),
          )

      pub Agrees-denied :
          (v : Scope × Metric)
          → first_over used limits ≡ some v
          → (denial_of (check_redis r now x xs s).0 ≡ some (some v))
            × Agrees now (check_memory now limits m).1.counters (check_redis r now x xs s).1
      Agrees-denied v e =
          let (answer, store) = check_redis-denies r now x xs s v (denies-used ∙ e) in
          (
            answer,
            (λ j b. (
              ap (λ t. worth_of r t j) store
                  ∙ ((same j b).0 ∙ sym (check_memory-unchanged now limits m j h (refuses v e))),
              subst (λ t. IsNear now (r.pttl j t)) (sym store) (same j b).1,
            )),
          )
