-- ===== src/RateLimit/Redis/Deadline.antt =====
-- Deadlines and RetryAfter in `allowScript` and `checkRedis` of internal/ratelimit/limiter.go.
use gatemux.Common.{
  ℕ, suc, ◌+◌, ◌-◌, ◌*◌, ◌≤◌, ◌<◌, ◌≡◌, ap, sym, subst, inl, inr, true, false, Bool-cases, Option,
  none, some, Option-cases, List, [], ◌∷◌, All, ℤ, pos, negsuc, pos_part, ltb_ℤ, eqb_ℤ, wrap64,
  wrap64-id, max, arith,
}
use gatemux.RateLimit.Specs.{CounterKey, LimitSpec, window_end}
use gatemux.RateLimit.Memory.{Outcome, allowed, denied, second}
use gatemux.RateLimit.Redis.{
  RedisCounters, ScriptReply, granted, limited, failed, is_exceeded, check_counters,
  charge_counters, ttl_or, default_ttl_of, allow_script, act_on, outcome_of, check_redis,
}

-- Milliseconds that reach the end of the window, one more or two fewer at most.
abbrev pub IsNearEnd : ℕ → ℕ → Type 0
IsNearEnd now ttl =
    (ttl * 1000000 ≤ window_end now - now + 1000000)
    × (window_end now - now ≤ ttl * 1000000 + 2000000)

-- A time to live, where there is one, reaches the end of the window.
abbrev pub IsNear : ℕ → ℤ → Type 0
IsNear now (pos ttl) = IsNearEnd now ttl
IsNear now (negsuc n) = Unit

-- The time after which to retry, next to that of `checkMemory`.
abbrev pub IsNearRetry : ℕ → Option Outcome → Type 0
IsNearRetry now none = Unit
IsNearRetry now (some allowed) = Unit
IsNearRetry now (some (denied retry s t)) =
    (retry ≤ max (window_end now - now) second + 1000000)
    × (max (window_end now - now) second ≤ retry + 2000000)

abbrev IsNearReply : ℕ → ScriptReply → Type 0
IsNearReply now granted = Unit
IsNearReply now (limited i ttl) = IsNearEnd now ttl
IsNearReply now failed = Unit

pub default_ttl_of-IsNearEnd : (now : ℕ) → IsNearEnd now (default_ttl_of now)
default_ttl_of-IsNearEnd now = ground arith

ttl_or-IsNearEnd : (now : ℕ) (z : ℤ) → IsNear now z → IsNearEnd now (ttl_or (default_ttl_of now) z)
ttl_or-IsNearEnd now (pos n) h = let e : ltb_ℤ (pos n) (pos 0) ≡ false = ground arith in rw e h
ttl_or-IsNearEnd now (negsuc n) h =
    let e : ltb_ℤ (negsuc n) (pos 0) ≡ true = ground arith in rw e (default_ttl_of-IsNearEnd now)

near_max :
    (a left least : ℕ)
    → a ≤ left + 1000000
    → left ≤ a + 2000000
    → (max a least ≤ max left least + 1000000) × (max left least ≤ max a least + 2000000)
near_max a left least h k = ground arith

module _ (r : RedisCounters) where
  check_counters-IsNearReply :
      (now i : ℕ) (xs : List LimitSpec) (s : r.Store)
      → All (λ x. IsNear now (r.pttl x.counter s)) xs
      → IsNearReply now (check_counters r (default_ttl_of now) i xs s)
  unfolding check_counters
  check_counters-IsNearReply now i [] s h = tt
  check_counters-IsNearReply now i (x ∷ xs) s h = elim (Bool-cases (is_exceeded r s x)) [
    | inl over ↦ rw over (ttl_or-IsNearEnd now (r.pttl x.counter s) h.0)
    | inr room ↦ rw room (check_counters-IsNearReply now (suc i) xs s h.1)
  ]

  charge_counters-IsNearReply :
      (now time : ℕ) (xs : List LimitSpec) (s : r.Store)
      → IsNearReply now (charge_counters r time xs s).0
  unfolding charge_counters
  charge_counters-IsNearReply now time [] s = tt
  charge_counters-IsNearReply now time (x ∷ xs) s =
      elim (Option-cases (r.incrby_reply x.counter (r.number x.increment) s)) [
        | inl e ↦ rw (e, charge_counters) tt
        | inr (n, e) ↦ rw (e, charge_counters) (charge_counters-IsNearReply now time xs _)
      ]

  -- What holds of a new deadline, and of none, is kept by the second loop.
  module _ (P : ℤ → Type 0) (time : ℕ) (later : 0 < time) (new : P (pos time))
      (without : (n : ℕ) → P (negsuc n)) where
    incrby-deadline :
        (k j : CounterKey) (i : ℤ) (s : r.Store) → P (r.pttl j s) → P (r.pttl j (r.incrby k i s))
    incrby-deadline k j i s h = elim (r.pttl-incrby k i s j) [
      | inl same ↦ subst P (sym same) h
      | inr (n, gone) ↦ subst P (sym gone) (without n)
    ]

    pexpire-deadline :
        (k j : CounterKey) (s : r.Store) → P (r.pttl j s) → P (r.pttl j (r.pexpire k time s))
    pexpire-deadline k j s h = elim (r.pttl-pexpire k time s j later) [
      | inl same ↦ subst P (sym same) h
      | inr made ↦ subst P (sym made) new
    ]

    pub charge_counters-deadline :
        (xs : List LimitSpec) (s : r.Store) (j : CounterKey)
        → P (r.pttl j s)
        → P (r.pttl j (charge_counters r time xs s).1)
    unfolding charge_counters
    charge_counters-deadline [] s j h = h
    charge_counters-deadline (x ∷ xs) s j h =
        let inc = r.number x.increment in
        let added = incrby-deadline x.counter j inc s h in
        elim (Option-cases (r.incrby_reply x.counter inc s)) [
          | inl e ↦ rw (e, charge_counters) h
          | inr (n, e) ↦ elim (Bool-cases (eqb_ℤ (r.number n) inc)) [
            | inl fresh ↦
                rw (e, fresh, charge_counters)
                  (charge_counters-deadline xs (r.pexpire x.counter time (r.incrby x.counter inc s))
                    j (pexpire-deadline x.counter j (r.incrby x.counter inc s) added))
            | inr old ↦
                rw (e, old, charge_counters)
                  (charge_counters-deadline xs (r.incrby x.counter inc s) j added)
          ]
        ]

  outcome_of-IsNearRetry :
      (now : ℕ) (x : LimitSpec) (xs : List LimitSpec) (o : ScriptReply)
      → IsNearReply now o
      → IsNearRetry now (outcome_of x xs o)
  unfolding outcome_of
  outcome_of-IsNearRetry now x xs granted h = tt
  outcome_of-IsNearRetry now x xs (limited i ttl) h =
      let left : window_end now - now ≤ 60000000000 = omega arith in
      let e : pos_part (wrap64 (pos (ttl * 1000000))) ≡ ttl * 1000000 =
        ap pos_part (wrap64-id (pos (ttl * 1000000)) ((omega (arith, left, h.0)), (omega arith))) in
      rw e (near_max (ttl * 1000000) (window_end now - now) second h.0 h.1)
  outcome_of-IsNearRetry now x xs failed h = tt

  act_on-IsNearRetry :
      (now : ℕ) (x : LimitSpec) (xs : List LimitSpec) (s : r.Store) (o : ScriptReply)
      → IsNearReply now o
      → IsNearRetry now (outcome_of x xs (act_on r (default_ttl_of now) (x ∷ xs) s o).0)
  unfolding act_on
  act_on-IsNearRetry now x xs s granted h =
      outcome_of-IsNearRetry now x xs _
        (charge_counters-IsNearReply now (default_ttl_of now) (x ∷ xs) s)
  act_on-IsNearRetry now x xs s (limited i ttl) h =
      outcome_of-IsNearRetry now x xs (limited i ttl) h
  act_on-IsNearRetry now x xs s failed h = outcome_of-IsNearRetry now x xs failed h

  -- `checkRedis` sends a caller away until the end of the window.
  pub check_redis-IsNearRetry :
      (now : ℕ) (x : LimitSpec) (xs : List LimitSpec) (s : r.Store)
      → All (λ y. IsNear now (r.pttl y.counter s)) (x ∷ xs)
      → IsNearRetry now (check_redis r now x xs s).0
  unfolding check_redis allow_script
  check_redis-IsNearRetry now x xs s h =
      act_on-IsNearRetry now x xs s (check_counters r (default_ttl_of now) 1 (x ∷ xs) s)
        (check_counters-IsNearReply now 1 (x ∷ xs) s h)
