-- ===== src/Router/Weighted/Examples.antt =====
-- Two deployments, one with three times the weight of the other.
use text.Mathlib.Text.{◌==◌ as str_eq}
use gatemux.Common.{◌≡◌, Bool, [], ◌∷◌, arith, pos}
use gatemux.Router.Types.{AliasTarget}
use gatemux.Router.Weighted.Cycle.{shares, shares_of, picked, picked-shares_of}

abbrev large : AliasTarget
large = record { deployment_name = "large"; priority = pos 0; weight = pos 3 }

abbrev small : AliasTarget
small = record { deployment_name = "small"; priority = pos 0; weight = pos 0 }

abbrev is_large : AliasTarget → Bool
is_large t = str_eq t.deployment_name "large"

picked-shares_of_example :
    picked is_large small (large ∷ []) (pos 6) (shares (small ∷ large ∷ []))
    ≡ shares_of is_large (small ∷ large ∷ [])
picked-shares_of_example =
    picked-shares_of is_large small (large ∷ []) 6 (omega arith) (omega arith)
