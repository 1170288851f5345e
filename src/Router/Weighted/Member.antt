-- ===== src/Router/Weighted/Member.antt =====
-- The choice of the weighted round robin of `pickLocked`, as one of its candidates.
use gatemux.Common.{refl, inl, inr, Bool-cases, List, [], ◌∷◌, Elem, ℤ, ◌+ℤ◌, ltb_ℤ, wrap64}
use gatemux.Router.Types.{AliasTarget}
use gatemux.Router.Weighted.{weight_of, pick_loop, pick_weighted}

pick_loop-Elem :
    (idx offset : ℤ) (chosen : AliasTarget) (cs band : List AliasTarget)
    → Elem chosen band
    → ((t : AliasTarget) → Elem t cs → Elem t band)
    → Elem (pick_loop idx offset chosen cs) band
unfolding pick_loop
pick_loop-Elem idx offset chosen [] band at all = at
pick_loop-Elem idx offset chosen (c ∷ cs) band at all =
    elim (Bool-cases (ltb_ℤ idx (wrap64 (offset +ℤ weight_of c)))) [
      | inl e ↦ rw e (all c (inl refl))
      | inr e ↦ rw e (
          pick_loop-Elem idx (wrap64 (offset +ℤ weight_of c)) chosen cs band at
            (λ t m. all t (inr m)))
    ]

pub pick_weighted-Elem :
    (first : AliasTarget) (rest : List AliasTarget) (round : ℤ)
    → Elem (pick_weighted first rest round).0 (first ∷ rest)
unfolding pick_weighted
pick_weighted-Elem first rest round =
    pick_loop-Elem _ _ first (first ∷ rest) (first ∷ rest) (inl refl) (λ t m. m)
