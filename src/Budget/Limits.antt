-- ===== src/Budget/Limits.antt =====
-- The comparison of spend and estimate with a limit in internal/budget/service.go, and what it
-- reports. `panicked` is a panic of the conversions it calls.
pub mod Exact
mod Examples
use gatemux.Common.{
  ℕ, Bool, ◌||◌, Option, none, some, if◌then◌else◌, ℤ, pos, negsuc, ◌-ℤ◌, ltb_ℤ, max_ℤ, max_int64,
  wrap64,
}
use gatemux.Cost.Microcents.{ceil_cents, limit_microcents}

-- `ExceededError` without its scope's name; the caller knows the scope.
pub record Exceeded : Type 0 where
  pub limit_cents : ℤ
  pub used_cents : ℤ
  pub need_cents : ℤ
  pub limit_microcents : ℤ
  pub used_microcents : ℤ
  pub need_microcents : ℤ

pub data Verdict : Type 0 where
  within : Verdict
  exceeded : Exceeded → Verdict
  panicked : Verdict

pub would_exceed : ℤ → ℤ → ℤ → Bool
would_exceed used need limit =
    ltb_ℤ used (pos 0)
    || (ltb_ℤ need (pos 0)
        || (ltb_ℤ limit (pos 0) || (ltb_ℤ limit used || ltb_ℤ (wrap64 (limit -ℤ used)) need)))

-- -x on int64
abbrev negate : ℤ → ℤ
negate x = wrap64 (pos 0 -ℤ x)

negated : Option ℤ → Option ℤ
negated none = none
negated (some c) = some (negate c)

pub report_cents : ℤ → Option ℤ
report_cents (pos n) = ceil_cents (pos n)
report_cents (negsuc n) =
    negated (ceil_cents (negate (max_ℤ (negsuc n) (negsuc 9223372036854775806))))

pub report_limit : ℤ → Option ℤ
report_limit (negsuc n) = some (negsuc n)
report_limit (pos n) = limit_microcents (pos n)

refuse : ℤ → ℤ → ℤ → Option ℤ → Option ℤ → Option ℤ → Verdict
refuse limit used need (some used_cents) (some need_cents) (some limit_micro) = exceeded (record {
  limit_cents = limit;
  used_cents = used_cents;
  need_cents = need_cents;
  limit_microcents = limit_micro;
  used_microcents = used;
  need_microcents = need;
})
refuse _ _ _ _ _ _ = panicked

compare_limit : ℤ → ℤ → ℤ → Option ℤ → Verdict
compare_limit limit used need none = panicked
compare_limit limit used need (some micro) =
    if would_exceed used need micro
    then refuse limit used need (report_cents used) (report_cents need) (report_limit limit)
    else within

-- A negative limit is refused before it is converted.
pub scope_exceeded : ℤ → ℤ → ℤ → Verdict
scope_exceeded (negsuc n) used need =
    refuse (negsuc n) used need (report_cents used) (report_cents need) (report_limit (negsuc n))
scope_exceeded (pos n) used need = compare_limit (pos n) used need (limit_microcents (pos n))
