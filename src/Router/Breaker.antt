-- ===== src/Router/Breaker.antt =====
-- The circuit breakers of internal/router/router.go: `RecordSuccess`, `RecordFailure`,
-- `isOpenLocked`, with the retry test of internal/providers/errors.go. Times are nanoseconds, 0 is the
-- zero time. The store that mirrors breakers across replicas is known by what it answers: `none` where
-- there is none, or it fails.
pub mod History
mod Examples
use Prim.Native.String.{String}
use gatemux.Common.{
  ℕ, suc, ◌+◌, ◌-◌, Bool, true, false, not, ◌&&◌, ◌||◌, Option, none, some, List, [], ◌∷◌,
  if◌then◌else◌, ltb, leb, ◌==◌, ℤ, pos, leb_ℤ, eqb_ℤ,
}
use gatemux.Common.Maps.{find, put}
use gatemux.Router.Types.{string_eq}

pub record BreakerState : Type 0 where
  pub consecutive_failures : ℕ
  pub last_failure : ℕ
  pub open_until : ℕ
  pub last_error : String

abbrev pub failure_threshold : ℕ
failure_threshold = 3

-- 30 seconds
abbrev pub cooldown : ℕ
cooldown = 30000000000

abbrev pub fresh_breaker : BreakerState
fresh_breaker = record {
  consecutive_failures = 0;
  last_failure = 0;
  open_until = 0;
  last_error = "";
}

abbrev pub Breakers : Type 0
Breakers = List (String × BreakerState)

abbrev breaker_or_fresh : Option BreakerState → BreakerState
breaker_or_fresh none = fresh_breaker
breaker_or_fresh (some b) = b

-- The breaker of a deployment; what is done to it is written back.
abbrev pub ensure_breaker : String → Breakers → BreakerState
ensure_breaker name bs = breaker_or_fresh (find name bs)

pub succeeded : BreakerState → BreakerState
succeeded b = record b { consecutive_failures = 0; open_until = 0; last_error = "" }

pub record_success : String → Breakers → Breakers
record_success name bs = put name (succeeded (ensure_breaker name bs)) bs

abbrev restart : ℕ → BreakerState → BreakerState
restart now b =
    if b.last_failure == 0 || ltb cooldown (now - b.last_failure)
    then record b { consecutive_failures = 0 }
    else b

abbrev count_failure : ℕ → String → BreakerState → BreakerState
count_failure now message b = record b {
  consecutive_failures = suc b.consecutive_failures;
  last_failure = now;
  last_error = message;
}

abbrev trip : ℕ → BreakerState → BreakerState
trip now b =
    if leb failure_threshold b.consecutive_failures
    then record b { open_until = now + cooldown }
    else b

pub failed : ℕ → String → BreakerState → BreakerState
failed now message b = trip now (count_failure now message (restart now b))

-- What the mirror answered to the failure: its count, and how long it is open.
pub merged : Option (ℕ × ℕ) → BreakerState → BreakerState
merged none b = b
merged (some (failures, until)) b =
    let b' =
      if not (until == 0) && (b.open_until == 0 || ltb b.open_until until)
      then record b { open_until = until }
      else b in
    if not (until == 0) && ltb b.consecutive_failures failures
    then record b' { consecutive_failures = failures }
    else b'

-- An error of an upstream: what the retry test asks of it.
pub data UpstreamFailure : Type 0 where
  no_error : UpstreamFailure
  status : ℤ → UpstreamFailure
  canceled : UpstreamFailure
  deadline_exceeded : UpstreamFailure
  network : UpstreamFailure
  other : UpstreamFailure

unfoldable pub is_retryable : UpstreamFailure → Bool
is_retryable no_error = false
is_retryable (status code) = eqb_ℤ code (pos 429) || leb_ℤ (pos 500) code
is_retryable canceled = false
is_retryable deadline_exceeded = true
is_retryable network = true
is_retryable other = false

-- Only what may be retried counts against a deployment.
pub record_failure : ℕ → String → UpstreamFailure → String → Option (ℕ × ℕ) → Breakers → Breakers
record_failure now name e message mirror bs =
    if is_retryable e
    then (let bs' = put name (failed now message (ensure_breaker name bs)) bs in
        elim mirror [
          | none ↦ bs'
          | some m ↦ put name (merged (some m) (ensure_breaker name bs')) bs'
        ])
    else bs

abbrev pub is_open_state : ℕ → Option BreakerState → Bool
is_open_state now none = false
is_open_state now (some b) = not (b.open_until == 0) && ltb now b.open_until

-- Whether the breaker is open, and the breakers with what the mirror added.
pub is_open : String → ℕ → Option ℕ → Breakers → Bool × Breakers
is_open name now mirror bs = if is_open_state now (find name bs) then (true, bs) else elim mirror [
  | none ↦ (false, bs)
  | some until ↦
      if not (until == 0) && ltb now until
      then (true, put name (record (ensure_breaker name bs) { open_until = until }) bs)
      else (false, bs)
]
