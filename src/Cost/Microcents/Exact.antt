-- ===== src/Cost/Microcents/Exact.antt =====
-- The conversions of internal/store/microcents.go against exact arithmetic.
use gatemux.Common.{
  ◌↔◌, ◌≤ℤ◌, ◌+ℤ◌, negsuc, ℕ, ◌+◌, ◌*◌, ◌/◌, ◌%◌, min, ◌≤◌, ◌<◌, ◌≡◌, none, Bool-cases, inl, inr,
  ◌==◌, some, arith, ltb, if◌then◌else◌, ℤ, pos, ◌*ℤ◌, ltb_ℤ, max_int64, min_int64, IsInt64,
}
use gatemux.Cost.Microcents.{
  microcents_per_cent, max_cents, ceil_cents, limit_microcents, effective_microcents,
  add_microcents,
}

-- Rounding a non-negative amount up gives the least number of whole cents that covers it.
pub ceil_cents-least :
    (m : ℕ)
    → (c : ℕ) × (ceil_cents (pos m) ≡ some (pos c))
      × (m ≤ c * microcents_per_cent)
      × (c * microcents_per_cent < m + microcents_per_cent)
unfolding ceil_cents
ceil_cents-least m = elim (Bool-cases (m % microcents_per_cent == 0)) [
  | inl whole ↦ (m / microcents_per_cent, rw whole, ground arith, ground arith)
  | inr part ↦ (m / microcents_per_cent + 1, rw part, ground arith, ground arith)
]

abbrev pub clamp64 : ℤ → ℤ
clamp64 z =
    if ltb_ℤ z min_int64 then min_int64 else if ltb_ℤ (pos max_int64) z then pos max_int64 else z

-- Without an exact amount, cents convert to micro-cents exactly, but cut off at both ends of int64.
pub effective_microcents-clamp :
    (cents : ℤ) → effective_microcents cents none ≡ clamp64 (cents *ℤ pos microcents_per_cent)
unfolding effective_microcents
effective_microcents-clamp cents = ground arith

-- A limit that is not negative converts to the exact product, cut off at the largest int64.
pub limit_microcents-min :
    (cents : ℕ)
    → limit_microcents (pos cents) ≡ some (pos (min (cents * microcents_per_cent) max_int64))
unfolding limit_microcents
limit_microcents-min cents = elim (Bool-cases (ltb max_cents cents)) [
  | inl large ↦ rw large (ground arith)
  | inr small ↦ rw small (ground arith)
]

-- On int64 amounts an addition succeeds exactly when neither amount is negative and the true sum is
-- an int64, and its result is that sum.
pub add_microcents-exact :
    (a b c : ℤ)
    → IsInt64 a
    → IsInt64 b
    → (add_microcents a b ≡ some c)
      ↔ ((pos 0 ≤ℤ a) × (pos 0 ≤ℤ b) × (c ≡ a +ℤ b) × (a +ℤ b ≤ℤ pos max_int64))
unfolding add_microcents
add_microcents-exact (pos a) (pos b) (pos c) ha hb = ground arith
add_microcents-exact (pos a) (pos b) (negsuc c) ha hb = ground arith
add_microcents-exact (negsuc a) b c ha hb = ground arith
add_microcents-exact (pos a) (negsuc b) c ha hb = ground arith
