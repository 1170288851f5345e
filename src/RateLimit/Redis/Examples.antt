-- ===== src/RateLimit/Redis/Examples.antt =====
-- Counters as a function, for `checkRedis` of internal/ratelimit/limiter.go, and a team with two requests
-- a minute and ten tokens.
use gatemux.Common.{
  ◌-◌, ◌⊎◌, inl, inr, max, Bool-cases, ok, ℕ, ◌≤◌, ◌≡◌, refl, false, ◌&&◌, Option, none, some, List,
  [], ◌∷◌, All, arith, ◌==◌, if◌then◌else◌, ℤ, pos, negsuc, ◌+ℤ◌,
}
use gatemux.Common.Maps.{find, keep}
use gatemux.RateLimit.Specs.{window_end, CounterKey, LimitSpec, team, rpm, tpm}
use gatemux.RateLimit.Memory.{
  Outcome, denied, second, Memory, counter_equals, counter_eq, check_memory, prune, full, missing,
}
use gatemux.RateLimit.Memory.Used.{used_at}
use gatemux.RateLimit.Memory.Admit.{IsDistinct}
use gatemux.RateLimit.Memory.Verdict.{first_over, timed}
use gatemux.RateLimit.Redis.{RedisCounters, amount, check_redis}
use gatemux.RateLimit.Redis.Verdict.{IsExactWorth}
use gatemux.RateLimit.Redis.Agree.{IsUsual, Agrees}
use gatemux.RateLimit.Redis.Same.{IsAlike, check_redis-check_memory}

record Values : Type 0 where
  value : CounterKey → Option ℤ
  ttl : CounterKey → ℤ

-- A deadline of nothing deletes the key.
abbrev expired : CounterKey → ℕ → Values → Values
expired k time s = record {
  value = λ j. if counter_equals k j && time == 0 then none else s.value j;
  ttl = λ j. if counter_equals k j then pos time else s.ttl j;
}

expired_later :
    (k : CounterKey) (time : ℕ) (s : Values) (j : CounterKey)
    → 1 ≤ time
    → (expired k time s).value j ≡ s.value j
expired_later k time s j h =
    let e : (counter_equals k j && time == 0) ≡ false = ground arith in rw e refl

expired_ttl :
    (k : CounterKey) (time : ℕ) (s : Values) (j : CounterKey)
    → ((expired k time s).ttl j ≡ s.ttl j) ⊎ ((expired k time s).ttl j ≡ pos time)
expired_ttl k time s j = elim (Bool-cases (counter_equals k j)) [
  | inl same ↦ inr (rw same refl)
  | inr other ↦ inl (rw other refl)
]

abbrev values : RedisCounters
values = record {
  Store = Values;
  number = λ z. z;
  get = λ k s. s.value k;
  pttl = λ k s. s.ttl k;
  incrby = λ k i s. record {
    value = λ j. if counter_equals k j then some (amount (s.value k) +ℤ i) else s.value j;
    ttl = s.ttl;
  };
  incrby_reply = λ k i s. some (amount (s.value k) +ℤ i);
  pexpire = expired;
  pttl-incrby = λ k i s j. inl refl;
  pttl-pexpire = λ k time s j h. expired_ttl k time s j;
  number_exact = λ n h. refl;
  get-incrby = λ k i s j h. refl;
  incrby_reply_some = λ k i s h. refl;
  get-pexpire = expired_later;
}

abbrev requests : LimitSpec
requests = record {
  counter = record { scope = team; id = pos 7; metric = rpm; bucket = 60000000000 };
  limit = pos 2;
  increment = pos 1;
}

abbrev tokens : LimitSpec
tokens = record {
  counter = record { scope = team; id = pos 7; metric = tpm; bucket = 60000000000 };
  limit = pos 10;
  increment = pos 11;
}

abbrev specs : List LimitSpec
specs = requests ∷ tokens ∷ []

specs-IsDistinct : IsDistinct specs
specs-IsDistinct = (((λ e. cc), tt), (tt, tt))

requests-IsUsual : IsUsual 70000000000 requests
requests-IsUsual = record {
  valid = record {
    limit_positive = omega arith;
    limit_int = ground arith;
    increment_positive = omega arith;
    increment_int = ground arith;
  };
  exact = record { limit_exact = omega arith; increment_exact = omega arith };
  in_window = refl;
}

tokens-IsUsual : IsUsual 70000000000 tokens
tokens-IsUsual = record {
  valid = record {
    limit_positive = omega arith;
    limit_int = ground arith;
    increment_positive = omega arith;
    increment_int = ground arith;
  };
  exact = record { limit_exact = omega arith; increment_exact = omega arith };
  in_window = refl;
}

abbrev empty : Memory
empty = record { counters = []; pruned_at = 0 }

abbrev no_values : Values
no_values = record { value = λ k. none; ttl = λ k. negsuc 1 }

no_charge : All (λ s. IsExactWorth (used_at 70000000000 s.counter empty.counters)) specs
unfolding find
no_charge = (((omega arith), (omega arith)), (((omega arith), (omega arith)), tt))

room : full specs (prune 70000000000 empty) ≡ false
unfolding prune missing find keep
room = refl

agree : Agrees values 70000000000 empty.counters no_values
unfolding find
agree = λ j b. (refl, tt)

-- Eleven tokens are denied by both, until the window ends in 50 seconds.
denied_by_tokens :
    (check_redis values 70000000000 requests (tokens ∷ []) no_values).0
    ≡ some (denied 50000000000 team tpm)
unfolding check_redis
denied_by_tokens = refl

check_redis-check_memory_example :
    let by_memory =
      timed
        (max (window_end 70000000000 - 70000000000) second)
        (first_over (λ j. used_at 70000000000 j empty.counters) specs) in
    (by_redis : Outcome) × ((check_memory 70000000000 specs empty).0 ≡ ok by_memory)
    × ((check_redis values 70000000000 requests (tokens ∷ []) no_values).0 ≡ some by_redis)
    × IsAlike by_memory by_redis
    × Agrees values 70000000000
        (check_memory 70000000000 specs empty).1.counters
        (check_redis values 70000000000 requests (tokens ∷ []) no_values).1
check_redis-check_memory_example =
    check_redis-check_memory values 70000000000 requests (tokens ∷ []) empty no_values tt
      specs-IsDistinct (requests-IsUsual, (tokens-IsUsual, tt)) no_charge room (omega arith) agree
