-- ===== src/RateLimit/Memory/Used.antt =====
-- What a counter of `checkMemory` is worth at a time, with pruned and expired entries.
use gatemux.Common.{ℕ, ◌≡◌, refl, Option, none, some, List, [], ◌∷◌, arith, ℤ}
use gatemux.Common.Maps.{find, IsMap, kept, find-remove, find-keep}
use gatemux.RateLimit.Specs.{CounterKey, LimitSpec}
use gatemux.RateLimit.Memory.{
  Counter, Memory, is_live, counter_eq, prune, expire, used_of, check_specs,
}

-- The charge so far in the window of `now`.
abbrev pub used_at : ℕ → CounterKey → List (CounterKey × Counter) → ℤ
used_at now k m = used_of now (find k m)

used_of-kept : (now : ℕ) (c : Option Counter) → used_of now (kept (is_live now) c) ≡ used_of now c
used_of-kept now none = refl
used_of-kept now (some c) = ground arith

pub used_at-prune :
    (now : ℕ) (k : CounterKey) (m : Memory)
    → IsMap m.counters
    → used_at now k (prune now m).counters ≡ used_at now k m.counters
unfolding prune
used_at-prune now k m h =
    ground (arith, find-keep (is_live now) k m.counters h, used_of-kept now (find k m.counters))

pub used_at-expire :
    (now : ℕ) (k j : CounterKey) (m : List (CounterKey × Counter))
    → used_at now j (expire now k m) ≡ used_at now j m
used_at-expire now k j m = ground (arith, find-remove k j m, counter_eq.equals_iff k j)

-- The first loop leaves every counter's worth, whatever it answers.
pub used_at-check_specs :
    (now : ℕ) (ss : List LimitSpec) (j : CounterKey) (m : List (CounterKey × Counter))
    → used_at now j (check_specs now ss m).1 ≡ used_at now j m
unfolding check_specs
used_at-check_specs now [] j m = refl
used_at-check_specs now (s ∷ ss) j m =
    ground (
      arith,
      used_at-expire now s.counter j m,
      used_at-check_specs now ss j (expire now s.counter m),
    )
