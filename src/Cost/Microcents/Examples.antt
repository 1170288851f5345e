-- ===== src/Cost/Microcents/Examples.antt =====
-- Runs of the conversions of internal/store/microcents.go.
use gatemux.Common.{◌≡◌, refl, some, pos}
use gatemux.Cost.Microcents.{ceil_cents}

pub one_cent : ceil_cents (pos 135000) ≡ some (pos 1)
unfolding ceil_cents
one_cent = refl
