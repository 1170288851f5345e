-- ===== src/RateLimit/Specs.antt =====
-- `Limiter.buildSpecs` of internal/ratelimit/limiter.go: the limits that apply to a check. Times are
-- nanoseconds since Go's zero time, which is what `Truncate` counts from. The text of a counter's key
-- is kept as its parts: for one prefix, `Sprintf` gives different texts to different parts.
pub mod Distinct
mod Examples
use gatemux.Common.{
  ℕ, ◌+◌, ◌-◌, ◌%◌, Bool, true, false, ◌&&◌, Option, none, some, List, [], ◌∷◌, ◌++◌, ◌==◌,
  if◌then◌else◌, ℤ, pos, ltb_ℤ, eqb_ℤ,
}

-- time.Minute
abbrev pub window_size : ℕ
window_size = 60000000000

pub data Scope : Type 0 where
  team key customer : Scope

pub data Metric : Type 0 where
  rpm tpm : Metric

pub record CounterKey : Type 0 where
  pub scope : Scope
  pub id : ℤ
  pub metric : Metric
  pub bucket : ℕ

pub record LimitSpec : Type 0 where
  pub counter : CounterKey
  pub limit : ℤ
  pub increment : ℤ

-- A team, a key with its scoped limits, or a customer.
pub record Limits : Type 0 where
  pub id : ℤ
  pub team_id : ℤ
  pub rpm_limit : Option ℤ
  pub tpm_limit : Option ℤ

pub record Check : Type 0 where
  pub team_limits : Option Limits
  pub key_limits : Option Limits
  pub customer_limits : Option Limits
  pub tokens : ℤ

-- now.Truncate(windowSize)
abbrev pub window_start : ℕ → ℕ
window_start now = now - now % window_size

abbrev pub window_end : ℕ → ℕ
window_end now = window_start now + window_size

abbrev spec_of : Scope → ℤ → Metric → ℕ → ℤ → ℤ → LimitSpec
spec_of s id m bucket limit increment = record {
  counter = record { scope = s; id = id; metric = m; bucket = bucket };
  limit = limit;
  increment = increment;
}

request_spec : Scope → ℤ → ℕ → Option ℤ → List LimitSpec
request_spec s id bucket none = []
request_spec s id bucket (some limit) =
    if ltb_ℤ (pos 0) limit then spec_of s id rpm bucket limit (pos 1) ∷ [] else []

token_spec : Scope → ℤ → ℕ → ℤ → Option ℤ → List LimitSpec
token_spec s id bucket tokens none = []
token_spec s id bucket tokens (some limit) =
    if ltb_ℤ (pos 0) limit && ltb_ℤ (pos 0) tokens
    then spec_of s id tpm bucket limit tokens ∷ []
    else []

scope_specs : Scope → Option Limits → ℕ → ℤ → List LimitSpec
scope_specs s none bucket tokens = []
scope_specs s (some l) bucket tokens =
    request_spec s l.id bucket l.rpm_limit ++ token_spec s l.id bucket tokens l.tpm_limit

-- A customer counts only under a positive id.
known_customer : Option Limits → Option Limits
known_customer none = none
known_customer (some c) = if ltb_ℤ (pos 0) c.id then some c else none

pub build_specs : Check → ℕ → List LimitSpec
build_specs c now =
    let bucket = window_start now in
    scope_specs team c.team_limits bucket c.tokens
    ++ (scope_specs key c.key_limits bucket c.tokens
        ++ scope_specs customer (known_customer c.customer_limits) bucket c.tokens)
