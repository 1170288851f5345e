-- ===== src/RateLimit/Memory.antt =====
-- `Limiter.Check` and `checkMemory` of internal/ratelimit/limiter.go, over the in-process counters.
-- A Go int wraps at 64 bits.
pub mod Used
pub mod Admit
pub mod Verdict
pub mod Exact
pub mod Sound
pub mod Window
mod Examples
use gatemux.Common.{
  ℕ, suc, ◌+◌, ◌-◌, ◌≡◌, ◌↔◌, Bool, true, false, not, ◌&&◌, ◌||◌, Option, none, some, List, [], ◌∷◌,
  ltb, leb, ◌==◌, if◌then◌else◌, ℤ, pos, ◌+ℤ◌, ◌-ℤ◌, ltb_ℤ, eqb_ℤ, eqb_ℤ→eq, eqb_ℤ_refl, wrap64,
  max, arith, Result, ok, err,
}
use gatemux.Common.Maps.{Eq, find, put, remove, keep, size}
use gatemux.RateLimit.Specs.{
  Scope, Metric, team, key, customer, rpm, tpm, CounterKey, LimitSpec, Limits, Check, window_size,
  window_end, build_specs,
}

abbrev scope_code : Scope → ℕ
scope_code team = 0
scope_code key = 1
scope_code customer = 2

abbrev metric_code : Metric → ℕ
metric_code rpm = 0
metric_code tpm = 1

pub counter_equals : CounterKey → CounterKey → Bool
counter_equals a b =
    scope_code a.scope == scope_code b.scope
    && (eqb_ℤ a.id b.id && (metric_code a.metric == metric_code b.metric && a.bucket == b.bucket))

pub counter_equals_iff : (a b : CounterKey) → (counter_equals a b ≡ true) ↔ (a ≡ b)
unfolding counter_equals
counter_equals_iff a b = ground (arith, eqb_ℤ→eq a.id b.id)

instance abbrev pub counter_eq : Eq CounterKey
counter_eq = record { equals = counter_equals; equals_iff = counter_equals_iff }

pub record Counter : Type 0 where
  pub used : ℤ
  pub expires_at : ℕ

pub record Memory : Type 0 where
  pub counters : List (CounterKey × Counter)
  pub pruned_at : ℕ  -- 0 is the zero time

pub data Outcome : Type 0 where
  allowed : Outcome
  denied : (retry_after : ℕ) → Scope → Metric → Outcome

pub data CheckError : Type 0 where
  team_mismatch capacity_exhausted : CheckError

abbrev pub capacity : ℕ
capacity = 65536

abbrev pub second : ℕ
second = 1000000000

abbrev pub is_live : ℕ → Counter → Bool
is_live now c = ltb now c.expires_at

-- Once a window, all counters that have run out go.
unfoldable pub prune : ℕ → Memory → Memory
prune now m =
    if m.pruned_at == 0 || leb (m.pruned_at + window_size) now
    then record { counters = keep (is_live now) m.counters; pruned_at = now }
    else m

unfoldable pub missing : List LimitSpec → List (CounterKey × Counter) → ℕ
missing [] m = 0
missing (s ∷ ss) m = elim (find s.counter m) [ none ↦ suc (missing ss m) | some _ ↦ missing ss m ]

-- A counter that has run out is deleted where it is met.
abbrev pub expire : ℕ → CounterKey → List (CounterKey × Counter) → List (CounterKey × Counter)
expire now k m = elim (find k m) [ none ↦ m | some c ↦ if is_live now c then m else remove k m ]

abbrev pub used_of : ℕ → Option Counter → ℤ
used_of now none = pos 0
used_of now (some c) = if is_live now c then c.used else pos 0

abbrev pub over : ℤ → LimitSpec → Bool
over used s = ltb_ℤ s.limit used || ltb_ℤ (wrap64 (s.limit -ℤ used)) s.increment

-- The first loop: the first limit without room denies the request.
pub check_specs :
    ℕ → List LimitSpec → List (CounterKey × Counter) → Outcome × List (CounterKey × Counter)
check_specs now [] m = (allowed, m)
check_specs now (s ∷ ss) m =
    let m' = expire now s.counter m in
    elim (over (used_of now (find s.counter m)) s) [
      | true ↦ (denied (max (window_end now - now) second) s.counter.scope s.counter.metric, m')
      | false ↦ check_specs now ss m'
    ]

abbrev pub bump : ℕ → ℤ → Option Counter → Counter
bump now increment none = record { used = wrap64 (pos 0 +ℤ increment); expires_at = window_end now }
bump now increment (some c) = record {
  used = wrap64 (c.used +ℤ increment);
  expires_at = window_end now;
}

-- The second loop: all counters are charged.
pub charge : ℕ → List LimitSpec → List (CounterKey × Counter) → List (CounterKey × Counter)
charge now [] m = m
charge now (s ∷ ss) m = charge now ss (put s.counter (bump now s.increment (find s.counter m)) m)

settle : ℕ → List LimitSpec → ℕ → Outcome × List (CounterKey × Counter) → Outcome × Memory
settle now specs pruned_at (allowed, m) =
    (allowed, record { counters = charge now specs m; pruned_at = pruned_at })
settle now specs pruned_at (denied r s t, m) =
    (denied r s t, record { counters = m; pruned_at = pruned_at })

abbrev pub full : List LimitSpec → Memory → Bool
full specs m = ltb capacity (size m.counters + missing specs m.counters)

pub check_memory : ℕ → List LimitSpec → Memory → Result CheckError Outcome × Memory
check_memory now specs m =
    let p = prune now m in
    if full specs p
    then (err capacity_exhausted, p)
    else let r = settle now specs p.pruned_at (check_specs now specs p.counters) in (ok r.0, r.1)

abbrev pub clamp_tokens : Check → Check
clamp_tokens c = if ltb_ℤ c.tokens (pos 0) then record c { tokens = pos 0 } else c

-- The customer must belong to the team.
abbrev pub mismatched : Option Limits → Option Limits → Bool
mismatched none t = false
mismatched (some c) none = true
mismatched (some c) (some t) = not (eqb_ℤ c.team_id t.id)

-- `Check` of a limiter with no Redis.
pub check : ℕ → Check → Memory → Result CheckError Outcome × Memory
check now c m =
    if mismatched c.customer_limits c.team_limits
    then (err team_mismatch, m)
    else elim (build_specs (clamp_tokens c) now) [
      | [] ↦ (ok allowed, m)
      | s ∷ ss ↦ check_memory now (s ∷ ss) m
    ]
