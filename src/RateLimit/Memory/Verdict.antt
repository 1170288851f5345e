-- ===== src/RateLimit/Memory/Verdict.antt =====
-- The first loop of `checkMemory` of internal/ratelimit/limiter.go: what denies a request.
use gatemux.Common.{
  ℕ, ◌-◌, max, ◌≡◌, refl, ◌∙◌, inl, inr, Bool-cases, Option, none, some, List, [], ◌∷◌, All,
  if◌then◌else◌, arith, ℤ,
}
use gatemux.RateLimit.Specs.{Scope, Metric, CounterKey, LimitSpec, window_end}
use gatemux.RateLimit.Memory.{Outcome, allowed, denied, over, Counter, check_specs, expire, second}
use gatemux.RateLimit.Memory.Used.{used_at, used_at-expire}

-- What denies a request.
abbrev pub verdict : Outcome → Option (Scope × Metric)
verdict allowed = none
verdict (denied retry_after s t) = some (s, t)

-- The first limit that has no room, for what the counters are worth.
unfoldable pub first_over : (CounterKey → ℤ) → List LimitSpec → Option (Scope × Metric)
first_over worth [] = none
first_over worth (x ∷ xs) =
    if over (worth x.counter) x
    then some (x.counter.scope, x.counter.metric)
    else first_over worth xs

pub first_over_same :
    (f g : CounterKey → ℤ) (xs : List LimitSpec)
    → All (λ x. f x.counter ≡ g x.counter) xs
    → first_over f xs ≡ first_over g xs
unfolding first_over
first_over_same f g [] h = refl
first_over_same f g (x ∷ xs) h = let rest = first_over_same f g xs h.1 in rw (h.0, rest)

All-intro : {P : LimitSpec → Type 0} → (xs : List LimitSpec) → ((x : LimitSpec) → P x) → All P xs
All-intro [] h = tt
All-intro (x ∷ xs) h = (h x, All-intro xs h)

pub verdict-check_specs :
    (now : ℕ) (xs : List LimitSpec) (m : List (CounterKey × Counter))
    → verdict (check_specs now xs m).0 ≡ first_over (λ j. used_at now j m) xs
unfolding check_specs first_over
verdict-check_specs now [] m = refl
verdict-check_specs now (x ∷ xs) m =
    let m' = expire now x.counter m in
    let rest =
      verdict-check_specs now xs m'
      ∙ first_over_same (λ j. used_at now j m') (λ j. used_at now j m) xs
          (All-intro xs (λ y. used_at-expire now x.counter y.counter m)) in
    elim (Bool-cases (over (used_at now x.counter m) x)) [
      | inl full ↦ ground (arith, full)
      | inr room ↦ ground (arith, room, rest)
    ]

-- The outcome for what denies a request, with the time after which to retry.
abbrev pub timed : ℕ → Option (Scope × Metric) → Outcome
timed retry none = allowed
timed retry (some (s, t)) = denied retry s t

pub timed-check_specs :
    (now : ℕ) (xs : List LimitSpec) (m : List (CounterKey × Counter))
    → (check_specs now xs m).0
      ≡ timed (max (window_end now - now) second) (verdict (check_specs now xs m).0)
unfolding check_specs
timed-check_specs now [] m = refl
timed-check_specs now (x ∷ xs) m =
    let rest = timed-check_specs now xs (expire now x.counter m) in
    elim (Bool-cases (over (used_at now x.counter m) x)) [
      | inl full ↦ rw (full, check_specs) refl
      | inr room ↦ rw (room, check_specs) rest
    ]
