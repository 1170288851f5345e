-- ===== src/RateLimit/Redis.antt =====
-- `allowScript` and `checkRedis` of internal/ratelimit/limiter.go. Redis runs a script as one step. A key
-- in Redis is an integer with a deadline, and a number in Lua is a double.
pub mod Verdict
pub mod Charge
pub mod Deadline
pub mod Answer
pub mod Agree
pub mod Same
mod Examples
use gatemux.Common.{
  ℕ, zero, suc, ◌+◌, ◌-◌, ◌*◌, ◌/◌, ◌≤◌, ◌<◌, ◌≡◌, Bool, true, false, Option, none, some, List, [],
  ◌∷◌, ltb, ◌==◌, if◌then◌else◌, ℤ, pos, negsuc, ◌⊎◌, pos_part, ◌+ℤ◌, ltb_ℤ, eqb_ℤ, wrap64, IsInt64,
  max, Result, ok, err,
}
use gatemux.RateLimit.Specs.{CounterKey, LimitSpec, Check, window_end, build_specs}
use gatemux.RateLimit.Memory.{
  Outcome, allowed, denied, counter_equals, second, mismatched, clamp_tokens,
}

abbrev pub amount : Option ℤ → ℤ
amount none = pos 0
amount (some n) = n

-- What the script uses of Redis and Lua. The laws are the documented effect on the values and the
-- deadlines.
pub record RedisCounters : Type 1 where
  pub Store : Type 0
  pub number : ℤ → ℤ  -- the double nearest to an integer
  pub get : CounterKey → Store → Option ℤ
  pub pttl : CounterKey → Store → ℤ  -- negative where there is no deadline
  pub incrby : CounterKey → ℤ → Store → Store
  pub incrby_reply : CounterKey → ℤ → Store → Option ℤ  -- none is an error
  pub pexpire : CounterKey → ℕ → Store → Store
  -- A new key has no deadline, and an old one keeps its own.
  pub pttl-incrby :
      (k : CounterKey) (i : ℤ) (s : Store) (j : CounterKey)
      → (pttl j (incrby k i s) ≡ pttl j s) ⊎ ((n : ℕ) × (pttl j (incrby k i s) ≡ negsuc n))
  pub pttl-pexpire :
      (k : CounterKey) (time : ℕ) (s : Store) (j : CounterKey)
      → 0 < time
      → (pttl j (pexpire k time s) ≡ pttl j s) ⊎ (pttl j (pexpire k time s) ≡ pos time)
  pub number_exact : (n : ℕ) → n ≤ 9007199254740992 → number (pos n) ≡ pos n
  pub get-incrby :
      (k : CounterKey) (i : ℤ) (s : Store) (j : CounterKey)
      → IsInt64 (amount (get k s) +ℤ i)
      → get j (incrby k i s)
        ≡ (if counter_equals k j then some (amount (get k s) +ℤ i) else get j s)
  pub incrby_reply_some :
      (k : CounterKey) (i : ℤ) (s : Store)
      → IsInt64 (amount (get k s) +ℤ i)
      → incrby_reply k i s ≡ some (amount (get k s) +ℤ i)
  -- A deadline that is not now keeps the value.
  pub get-pexpire :
      (k : CounterKey) (time : ℕ) (s : Store) (j : CounterKey)
      → 0 < time
      → get j (pexpire k time s) ≡ get j s

-- `{1, 0, 0}`, `{0, i, ttl}` with the number of the limit from 1, or the error of a command.
pub data ScriptReply : Type 0 where
  granted : ScriptReply
  limited : (index ttl : ℕ) → ScriptReply
  failed : ScriptReply

-- time.Millisecond
abbrev millisecond : ℕ
millisecond = 1000000

abbrev pub ttl_or : ℕ → ℤ → ℕ
ttl_or default_ttl ttl = if ltb_ℤ ttl (pos 0) then default_ttl else pos_part ttl

-- The index of a reply is taken from 1, and one that is out of range is the first.
spec_at : LimitSpec → ℕ → List LimitSpec → LimitSpec
spec_at first n [] = first
spec_at first zero (x ∷ xs) = x
spec_at first (suc n) (x ∷ xs) = spec_at first n xs

pub replied_spec : LimitSpec → ℕ → List LimitSpec → LimitSpec
replied_spec first zero specs = first
replied_spec first (suc n) specs = spec_at first n specs

-- windowEnd.Sub(now) in milliseconds
abbrev pub default_ttl_of : ℕ → ℕ
default_ttl_of now =
    let left = window_end now - now in (if left == 0 then second else left) / millisecond

module _ (r : RedisCounters) where
  abbrev pub is_exceeded : r.Store → LimitSpec → Bool
  is_exceeded s x =
      let current = r.number (amount (r.get x.counter s)) in
      ltb_ℤ (r.number x.limit) (r.number (current +ℤ r.number x.increment))

  -- The first loop.
  unfoldable pub check_counters : ℕ → ℕ → List LimitSpec → r.Store → ScriptReply
  check_counters default_ttl i [] s = granted
  check_counters default_ttl i (x ∷ xs) s =
      let rest = check_counters default_ttl (suc i) xs s in
      if is_exceeded s x then limited i (ttl_or default_ttl (r.pttl x.counter s)) else rest

  -- The second loop: a counter that this script made gets a deadline.
  unfoldable pub charge_counters : ℕ → List LimitSpec → r.Store → ScriptReply × r.Store
  charge_counters default_ttl [] s = (granted, s)
  charge_counters default_ttl (x ∷ xs) s =
      let inc = r.number x.increment in
      let s' = r.incrby x.counter inc s in
      elim (r.incrby_reply x.counter inc s) [
        | none ↦ (failed, s)
        | some current ↦
            let fresh = eqb_ℤ (r.number current) inc in
            charge_counters default_ttl xs
              (if fresh then r.pexpire x.counter default_ttl s' else s')
      ]

  unfoldable pub act_on : ℕ → List LimitSpec → r.Store → ScriptReply → ScriptReply × r.Store
  act_on default_ttl specs s granted = charge_counters default_ttl specs s
  act_on default_ttl specs s (limited i ttl) = (limited i ttl, s)
  act_on default_ttl specs s failed = (failed, s)

  unfoldable pub allow_script : ℕ → List LimitSpec → r.Store → ScriptReply × r.Store
  unfolding check_counters charge_counters act_on
  allow_script default_ttl specs s =
      act_on default_ttl specs s (check_counters default_ttl 1 specs s)

-- The result that a reply stands for; none is an error.
unfoldable pub outcome_of : LimitSpec → List LimitSpec → ScriptReply → Option Outcome
outcome_of x xs granted = some allowed
outcome_of x xs (limited i ttl) =
    let spec = replied_spec x i (x ∷ xs) in
    some (
      denied (max (pos_part (wrap64 (pos (ttl * millisecond)))) second) spec.counter.scope
        spec.counter.metric)
outcome_of x xs failed = none

module _ (r : RedisCounters) where
  -- `checkRedis`, which is called with a limit at least.
  unfoldable pub check_redis : ℕ → LimitSpec → List LimitSpec → r.Store → Option Outcome × r.Store
  unfolding allow_script outcome_of replied_spec spec_at
  check_redis now x xs s =
      let (reply, s') = allow_script r (default_ttl_of now) (x ∷ xs) s in
      (outcome_of x xs reply, s')

-- The errors of `Check` with Redis.
pub data RemoteError : Type 0 where
  wrong_team script_failed : RemoteError

answer_of : Option Outcome → Result RemoteError Outcome
answer_of none = err script_failed
answer_of (some o) = ok o

-- `Check` of a limiter with Redis.
pub check_remote : (r : RedisCounters) → ℕ → Check → r.Store → Result RemoteError Outcome × r.Store
check_remote r now c s =
    if mismatched c.customer_limits c.team_limits
    then (err wrong_team, s)
    else elim (build_specs (clamp_tokens c) now) [
      | [] ↦ (ok allowed, s)
      | x ∷ xs ↦ let (o, s') = check_redis r now x xs s in (answer_of o, s')
    ]
