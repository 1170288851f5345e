-- ===== src/RateLimit/Redis/Verdict.antt =====
-- The first loops of `checkMemory` and of `allowScript` of internal/ratelimit/limiter.go.
use gatemux.Common.{
  ◌≤◌, ◌≡◌, ap, sym, ◌∙◌, ℤ, pos, negsuc, pos_part, ◌+ℤ◌, ◌≤ℤ◌, ◌<ℤ◌, ltb_ℤ, arith,
}
use gatemux.RateLimit.Specs.{LimitSpec}
use gatemux.RateLimit.Memory.{over}
use gatemux.RateLimit.Memory.Exact.{IsValidSpec, IsWorth, over_room}
use gatemux.RateLimit.Redis.{RedisCounters, amount, is_exceeded}

-- Numbers whose sums a double holds exactly.
pub record IsExact (x : LimitSpec) : Type 0 where
  pub limit_exact : pos_part x.limit ≤ 4503599627370496
  pub increment_exact : pos_part x.increment ≤ 4503599627370496

abbrev pub IsExactWorth : ℤ → Type 0
IsExactWorth u = (pos 0 ≤ℤ u) × (pos_part u ≤ 4503599627370496)

sum_positive : (u i : ℤ) → pos 0 ≤ℤ u → pos 0 <ℤ i → pos 0 ≤ℤ u +ℤ i
sum_positive (pos u) (pos i) h k = ground arith
sum_positive (negsuc u) i h k = absurd (omega arith)
sum_positive u (negsuc i) h k = absurd (omega arith)

sum_exact :
    (u i : ℤ)
    → IsExactWorth u
    → pos_part i ≤ 4503599627370496
    → pos_part (u +ℤ i) ≤ 9007199254740992
sum_exact (pos u) (pos i) h k = ground arith
sum_exact (negsuc u) i h k = absurd (omega (arith, h.0))
sum_exact (pos u) (negsuc i) h k = ground arith

over_sum :
    (u : ℤ) (x : LimitSpec)
    → IsWorth u
    → IsValidSpec x
    → over u x ≡ ltb_ℤ x.limit (u +ℤ x.increment)
over_sum u x w v = let test = over_room u x w v in ground (arith, test)

module _ (r : RedisCounters) where
  pub number-id : (z : ℤ) → pos 0 ≤ℤ z → pos_part z ≤ 9007199254740992 → r.number z ≡ z
  number-id (pos n) h k = r.number_exact n k
  number-id (negsuc n) h k = absurd (omega arith)

  exact :
      (s : r.Store) (x : LimitSpec)
      → r.number x.limit ≡ x.limit
      → r.number x.increment ≡ x.increment
      → r.number (amount (r.get x.counter s)) ≡ amount (r.get x.counter s)
      → r.number (amount (r.get x.counter s) +ℤ x.increment)
        ≡ amount (r.get x.counter s) +ℤ x.increment
      → over (amount (r.get x.counter s)) x
        ≡ ltb_ℤ x.limit (amount (r.get x.counter s) +ℤ x.increment)
      → is_exceeded r s x ≡ over (amount (r.get x.counter s)) x
  exact s x l i u t o = sym (
      o
      ∙ sym (
          ap
            (λ z.
              ltb_ℤ z (r.number (r.number (amount (r.get x.counter s)) +ℤ r.number x.increment)))
            l
          ∙ ap (ltb_ℤ x.limit) (
              ap r.number (
                ap (λ z. z +ℤ r.number x.increment) u ∙ ap (λ z. amount (r.get x.counter s) +ℤ z) i)
              ∙ t)))

  -- In doubles the test of the script is the test of `checkMemory`.
  pub is_exceeded-over :
      (s : r.Store) (x : LimitSpec)
      → IsValidSpec x
      → IsExact x
      → IsExactWorth (amount (r.get x.counter s))
      → is_exceeded r s x ≡ over (amount (r.get x.counter s)) x
  is_exceeded-over s x v e w =
      exact s x (number-id x.limit (omega (arith, v.limit_positive)) (omega (arith, e.limit_exact)))
        (number-id x.increment (omega (arith, v.increment_positive))
          (omega (arith, e.increment_exact)))
        (number-id (amount (r.get x.counter s)) w.0 (omega (arith, w.1)))
        (number-id (amount (r.get x.counter s) +ℤ x.increment)
          (sum_positive _ _ w.0 v.increment_positive) (sum_exact _ _ w e.increment_exact))
        (over_sum _ x (w.0, omega (arith, w.1)) v)
