-- ===== src/Router/Select/Cost.antt =====
-- The strategy "cost" in `pickLocked` of internal/router/router.go.
use Prim.Native.String.{String}
use gatemux.Common.{
  ◌≡◌, inl, inr, true, subst, sym, List, [], ◌∷◌, Elem, All-Elem, ℤ, ◌≤ℤ◌, sort_by,
  sort_by-IsAscending, Elem-sort_by, IsAscending, arith,
}
use gatemux.Router.Types.{AliasTarget, AliasMeta}
use gatemux.Router.Strategy.{has_strategy, strategy_chain}
use gatemux.Router.Select.{Registry, candidate_cost, head_or, pick}

head_least :
    (key : AliasTarget → ℤ) (d : AliasTarget) (xs : List AliasTarget) (t : AliasTarget)
    → IsAscending key xs
    → Elem t xs
    → key (head_or d xs) ≤ℤ key t
head_least key d [] t asc at = absurd at
head_least key d (x ∷ xs) t asc (inl same) = subst (λ z. key x ≤ℤ key z) (sym same) (omega arith)
head_least key d (x ∷ xs) t asc (inr later) = All-Elem (λ z. key x ≤ℤ key z) xs asc.0 later

-- With the strategy "cost" and more than one candidate, the pick costs no more than any candidate.
pub pick-candidate_cost :
    (r : Registry) (meta : AliasMeta) (alias : String) (p : ℤ) (c d : AliasTarget)
    (cs : List AliasTarget) (t : AliasTarget)
    → has_strategy (strategy_chain meta) "cost" ≡ true
    → Elem t (c ∷ d ∷ cs)
    → candidate_cost r (pick r meta alias p c (d ∷ cs)).0 ≤ℤ candidate_cost r t
unfolding pick
pick-candidate_cost r meta alias p c d cs t cheap at =
    let all = c ∷ d ∷ cs in
    let least =
      head_least (candidate_cost r) c (sort_by (candidate_cost r) all) t
        (sort_by-IsAscending (candidate_cost r) all) (Elem-sort_by (candidate_cost r) t all at) in
    rw (cheap, pick) least
