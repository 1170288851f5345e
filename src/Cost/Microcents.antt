-- ===== src/Cost/Microcents.antt =====
-- internal/store/microcents.go: amounts in micro-cents, on int64. A panic is `none`.
pub mod Exact
pub mod Examples
use gatemux.Common.{
  ℕ, ◌+◌, ◌*◌, ◌/◌, ◌%◌, Bool, ◌||◌, Option, none, some, ltb, ◌==◌, if◌then◌else◌, ℤ, pos, negsuc,
  ◌+ℤ◌, ◌-ℤ◌, ◌*ℤ◌, ltb_ℤ, max_int64, min_int64, wrap64,
}

abbrev pub microcents_per_cent : ℕ
microcents_per_cent = 1000000

-- math.MaxInt64 / MicrocentsPerCent
abbrev pub max_cents : ℕ
max_cents = 9223372036854

unfoldable pub ceil_cents : ℤ → Option ℤ
ceil_cents (negsuc n) = none
ceil_cents (pos n) =
    let cents = n / microcents_per_cent in
    some (pos (if n % microcents_per_cent == 0 then cents else cents + 1))

pub limit_microcents : ℤ → Option ℤ
limit_microcents (negsuc n) = none
limit_microcents (pos n) =
    some (if ltb max_cents n then pos max_int64 else wrap64 (pos (n * microcents_per_cent)))

unfoldable pub effective_microcents : ℤ → Option ℤ → ℤ
effective_microcents cents (some exact) = exact
effective_microcents cents none =
    if ltb_ℤ cents (negsuc 9223372036853)
    then min_int64
    else if ltb_ℤ (pos max_cents) cents
    then pos max_int64
    else wrap64 (cents *ℤ pos microcents_per_cent)

pub add_microcents : ℤ → ℤ → Option ℤ
add_microcents a b =
    if ltb_ℤ a (pos 0) || ltb_ℤ b (pos 0) || ltb_ℤ (wrap64 (pos max_int64 -ℤ b)) a
    then none
    else some (wrap64 (a +ℤ b))
