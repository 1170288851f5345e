-- ===== src/RateLimit/Memory/Examples.antt =====
-- A team with two requests a minute and ten tokens, and a run of three requests.
use gatemux.Common.{
  ℕ, ◌/◌, ◌≡◌, ◌≢◌, ◌↔◌, refl, false, List, [], ◌∷◌, All, arith, pos, ◌+ℤ◌, ◌≤ℤ◌, ok,
}
use gatemux.Common.Maps.{find, keep}
use gatemux.RateLimit.Specs.{team, rpm, tpm, LimitSpec, window_size}
use gatemux.RateLimit.Memory.{Memory, allowed, counter_equals, prune, full, missing, check_memory}
use gatemux.RateLimit.Memory.Used.{used_at}
use gatemux.RateLimit.Memory.Admit.{IsDistinct}
use gatemux.RateLimit.Memory.Exact.{
  IsValidSpec, IsWorth, HasRoom, check_memory-unchanged, check_memory-charged, check_memory-allowed,
}
use gatemux.RateLimit.Memory.Sound.{IsSound, check_memory-IsSound}
use gatemux.RateLimit.Memory.Window.{Request, InWindow, admitted, admitted-le-cap}

abbrev requests : LimitSpec
requests = record {
  counter = record { scope = team; id = pos 7; metric = rpm; bucket = 60000000000 };
  limit = pos 2;
  increment = pos 1;
}

abbrev tokens : LimitSpec
tokens = record {
  counter = record { scope = team; id = pos 7; metric = tpm; bucket = 60000000000 };
  limit = pos 10;
  increment = pos 6;
}

abbrev specs : List LimitSpec
specs = requests ∷ tokens ∷ []

specs-IsDistinct : IsDistinct specs
specs-IsDistinct = (((λ e. cc), tt), (tt, tt))

requests-valid : IsValidSpec requests
requests-valid = record {
  limit_positive = omega arith;
  limit_int = ground arith;
  increment_positive = omega arith;
  increment_int = ground arith;
}

tokens-valid : IsValidSpec tokens
tokens-valid = record {
  limit_positive = omega arith;
  limit_int = ground arith;
  increment_positive = omega arith;
  increment_int = ground arith;
}

specs-valid : All IsValidSpec specs
specs-valid = (requests-valid, (tokens-valid, tt))

abbrev empty : Memory
empty = record { counters = []; pruned_at = 0 }

empty-IsSound : IsSound empty.counters
unfolding find
empty-IsSound = record { is_map = tt; counters = λ k. tt }

no_charge : All (λ s. IsWorth (used_at 70000000000 s.counter empty.counters)) specs
unfolding find
no_charge = (omega arith, (omega arith, tt))

room : full specs (prune 70000000000 empty) ≡ false
unfolding prune missing find keep
room = refl

fits : All (λ s. HasRoom (used_at 70000000000 s.counter empty.counters) s) specs
unfolding find
fits = (omega arith, (omega arith, tt))

check_memory-allowed_example :
    ((check_memory 70000000000 specs empty).0 ≡ ok allowed)
    ↔ All (λ s. HasRoom (used_at 70000000000 s.counter empty.counters) s) specs
check_memory-allowed_example =
    check_memory-allowed 70000000000 specs empty tt specs-valid no_charge room

first_allowed : (check_memory 70000000000 specs empty).0 ≡ ok allowed
first_allowed = (check_memory-allowed 70000000000 specs empty tt specs-valid no_charge room).1 fits

abbrev after_first : Memory
after_first = (check_memory 70000000000 specs empty).1

check_memory-charged_example :
    All
      (λ s.
        (used_at 70000000000 s.counter after_first.counters
          ≡ used_at 70000000000 s.counter empty.counters +ℤ s.increment)
        × (used_at 70000000000 s.counter after_first.counters ≤ℤ s.limit))
      specs
check_memory-charged_example =
    check_memory-charged 70000000000 specs empty tt specs-IsDistinct specs-valid no_charge
      first_allowed

check_memory-IsSound_example : IsSound after_first.counters
check_memory-IsSound_example =
    check_memory-IsSound 70000000000 specs empty specs-IsDistinct specs-valid empty-IsSound

abbrev large : LimitSpec
large = record tokens { increment = pos 11 }

large-valid : IsValidSpec large
large-valid = record {
  limit_positive = omega arith;
  limit_int = ground arith;
  increment_positive = omega arith;
  increment_int = ground arith;
}

-- Eleven tokens never fit in ten.
refused : (check_memory 70000000000 (large ∷ []) empty).0 ≢ ok allowed
unfolding find
refused h =
    let room : full (large ∷ []) (prune 70000000000 empty) ≡ false =
      unfold prune missing keep in refl in
    let k =
      (check_memory-allowed 70000000000 (large ∷ []) empty tt (large-valid, tt) ((omega arith), tt)
          room).0
        h in
    absurd (omega (arith, k.0))

check_memory-unchanged_example :
    used_at 70000000000 tokens.counter (check_memory 70000000000 (large ∷ []) empty).1.counters
    ≡ used_at 70000000000 tokens.counter empty.counters
check_memory-unchanged_example =
    check_memory-unchanged 70000000000 (large ∷ []) empty tokens.counter tt refused

abbrev at : ℕ → Request
at now = record { now = now; specs = specs }

abbrev three : List Request
three = at 70000000000 ∷ at 80000000000 ∷ at 90000000000 ∷ []

in_window : (now : ℕ) → now / window_size ≡ 1 → InWindow 1 tokens.counter (pos 10) (at now)
unfolding counter_equals
in_window now h = record {
  window = h;
  distinct = specs-IsDistinct;
  valid = specs-valid;
  capped = (refl, (refl, tt));
}

admitted-le-cap_example :
    used_at 65000000000 tokens.counter empty.counters +ℤ admitted tokens.counter three empty
    ≤ℤ pos 10
unfolding find
admitted-le-cap_example =
    admitted-le-cap 1 tokens.counter (pos 10) three empty 65000000000 refl
      (in_window 70000000000 refl, (in_window 80000000000 refl, (in_window 90000000000 refl, tt)))
      empty-IsSound (omega arith)
