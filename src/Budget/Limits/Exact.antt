-- ===== src/Budget/Limits/Exact.antt =====
-- `scopeExceeded` of internal/budget/service.go against sums of exact micro-cents.
use gatemux.Common.{
  ℕ, suc, ◌+◌, ◌*◌, ◌≤◌, ◌≡◌, min, ltb, ◌≢◌, ◌↔◌, refl, ap, ◌∙◌, Bool, true, false, Option, some,
  arith, ℤ, pos, negsuc, max_ℤ, max_int64,
}
use gatemux.Cost.Microcents.{microcents_per_cent, ceil_cents}
use gatemux.Cost.Microcents.Exact.{ceil_cents-least, limit_microcents-min}
use gatemux.Budget.Limits.{
  within, panicked, would_exceed, report_cents, report_limit, refuse, compare_limit, negate,
  negated, scope_exceeded,
}

-- In exact micro-cents, spend and estimate together are within the limit, and are an int64.
abbrev pub HasRoom : ℤ → ℤ → ℤ → Type 0
HasRoom (pos limit) (pos used) (pos need) =
    (used + need ≤ limit * microcents_per_cent) × (used + need ≤ max_int64)
HasRoom _ _ _ = ⊥

would_exceed_lem :
    (used need limit : ℕ)
    → limit ≤ max_int64
    → would_exceed (pos used) (pos need) (pos limit) ≡ ltb limit (used + need)
unfolding would_exceed
would_exceed_lem used need limit h = ground arith

would_exceed_negative_need : (u m : ℤ) (n : ℕ) → would_exceed u (negsuc n) m ≡ true
unfolding would_exceed
would_exceed_negative_need u m n = ground arith

would_exceed_negative_used : (n m : ℤ) (u : ℕ) → would_exceed (negsuc u) n m ≡ true
unfolding would_exceed
would_exceed_negative_used n m u = ground arith

apart : {b : Bool} → b ≡ false → b ≡ true → ⊥
apart h k = cc

refuse-ne-within : (limit used need : ℤ) (a b c : Option ℤ) → refuse limit used need a b c ≢ within
unfolding refuse
refuse-ne-within limit used need a b c h = ground arith

compare_limit-within :
    (limit used need micro : ℤ)
    → compare_limit limit used need (some micro) ≡ within
    → would_exceed used need micro ≡ false
unfolding compare_limit refuse
compare_limit-within limit used need micro h = ground arith

scope_exceeded_sound :
    (limit used need : ℤ) → scope_exceeded limit used need ≡ within → HasRoom limit used need
unfolding scope_exceeded
scope_exceeded_sound (pos l) (pos u) (pos n) h =
    let k = compare_limit-within _ _ _ _ (rw (limit_microcents-min l) at h) in
    let e = would_exceed_lem u n (min (l * microcents_per_cent) max_int64) (omega arith) in
    ground (arith, k, e)
scope_exceeded_sound (pos l) (pos u) (negsuc n) h =
    let k = compare_limit-within _ _ _ _ (rw (limit_microcents-min l) at h) in
    absurd (apart k (would_exceed_negative_need _ _ n))
scope_exceeded_sound (pos l) (negsuc u) n h =
    let k = compare_limit-within _ _ _ _ (rw (limit_microcents-min l) at h) in
    absurd (apart k (would_exceed_negative_used _ _ u))
scope_exceeded_sound (negsuc l) u n h = absurd (refuse-ne-within _ u n _ _ _ h)

scope_exceeded_complete :
    (limit used need : ℤ) → HasRoom limit used need → scope_exceeded limit used need ≡ within
unfolding scope_exceeded compare_limit
scope_exceeded_complete (pos l) (pos u) (pos n) h =
    rw (limit_microcents-min l)
      (ground (arith, would_exceed_lem u n (min (l * microcents_per_cent) max_int64)))
scope_exceeded_complete (pos l) (pos u) (negsuc n) h = absurd h
scope_exceeded_complete (pos l) (negsuc u) n h = absurd h
scope_exceeded_complete (negsuc l) u n h = absurd h

-- A scope passes exactly when its spend and the estimate, both non-negative, add up to at most the
-- limit in exact micro-cents (and to an int64); a negative limit passes nothing.
pub scope_exceeded-within :
    (limit used need : ℤ) → (scope_exceeded limit used need ≡ within) ↔ HasRoom limit used need
scope_exceeded-within limit used need =
    (scope_exceeded_sound limit used need, scope_exceeded_complete limit used need)

magnitude :
    (n : ℕ)
    → negate (max_ℤ (negsuc n) (negsuc 9223372036854775806)) ≡ pos (suc (min n 9223372036854775806))
magnitude n = ground arith

report_cents_total : (z : ℤ) → (c : ℤ) × (report_cents z ≡ some c)
unfolding report_cents negated
report_cents_total (pos n) = let (c, e, _, _) = ceil_cents-least n in (pos c, e)
report_cents_total (negsuc n) =
    let (c, e, _, _) = ceil_cents-least (suc (min n 9223372036854775806)) in
    (negate (pos c), ap negated (ap ceil_cents (magnitude n) ∙ e))

report_limit_total : (z : ℤ) → (c : ℤ) × (report_limit z ≡ some c)
unfolding report_limit
report_limit_total (pos n) = (pos (min (n * microcents_per_cent) max_int64), limit_microcents-min n)
report_limit_total (negsuc n) = (negsuc n, refl)

compare_limit_safe :
    (limit used need : ℤ) (micro : ℤ) → compare_limit limit used need (some micro) ≢ panicked
unfolding compare_limit refuse
compare_limit_safe limit used need micro h =
    ground (arith, report_cents_total used, report_cents_total need, report_limit_total limit)

-- The check never panics, whatever the amounts.
pub scope_exceeded-ne-panicked : (limit used need : ℤ) → scope_exceeded limit used need ≢ panicked
unfolding scope_exceeded
scope_exceeded-ne-panicked (pos l) used need h =
    compare_limit_safe (pos l) used need _ (rw (limit_microcents-min l) at h)
scope_exceeded-ne-panicked (negsuc l) used need h =
    unfold refuse in
    ground (arith, report_cents_total used, report_cents_total need, report_limit_total (negsuc l))
