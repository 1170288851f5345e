-- ===== src/Router/Weighted.antt =====
-- The weighted round robin of `pickLocked` of internal/router/router.go.
pub mod Cycle
pub mod Member
mod Examples
use gatemux.Common.{
  ℕ, suc, ◌+◌, ◌-◌, ◌%◌, Bool, List, [], ◌∷◌, if◌then◌else◌, ℤ, pos, negsuc, ◌+ℤ◌, ◌-ℤ◌, leb_ℤ,
  ltb_ℤ, wrap64,
}
use gatemux.Router.Types.{AliasTarget}

-- Go's remainder, which has the sign of the dividend, by a positive number.
abbrev pub rem_ℤ : ℤ → ℕ → ℤ
rem_ℤ (pos n) d = pos (n % d)
rem_ℤ (negsuc n) d = pos 0 -ℤ pos (suc n % d)

abbrev pub weight_of : AliasTarget → ℤ
weight_of t = if leb_ℤ t.weight (pos 0) then pos 1 else t.weight

-- The first loop, that adds up the weights.
pub total_weight : ℤ → List AliasTarget → ℤ
total_weight sum [] = sum
total_weight sum (c ∷ cs) = total_weight (wrap64 (sum +ℤ weight_of c)) cs

-- The second loop: the candidate whose share of the numbers up to the total has `idx`.
pub pick_loop : ℤ → ℤ → AliasTarget → List AliasTarget → AliasTarget
pick_loop idx offset chosen [] = chosen
pick_loop idx offset chosen (c ∷ cs) =
    let offset' = wrap64 (offset +ℤ weight_of c) in
    let later = pick_loop idx offset' chosen cs in if ltb_ℤ idx offset' then c else later

pub index_of : ℤ → ℤ → ℤ
index_of (pos (suc t)) round = rem_ℤ round (suc t)
index_of _ round = pos 0

-- The choice among candidates, of which there is a first, and the counter afterwards.
pub pick_weighted : AliasTarget → List AliasTarget → ℤ → AliasTarget × ℤ
pick_weighted first rest round =
    let total = total_weight (pos 0) (first ∷ rest) in
    (
      pick_loop (index_of total round) (pos 0) first (first ∷ rest),
      if ltb_ℤ (pos 0) total then wrap64 (round +ℤ pos 1) else round,
    )
