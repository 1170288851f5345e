-- ===== src/Router/Select/Best.antt =====
-- The choice of `ResolveWithContext` of internal/router/router.go against the other targets.
use Prim.Native.String.{String}
use gatemux.Common.{
  ◌≡◌, refl, ap, sym, ◌∙◌, subst, ◌⊎◌, inl, inr, Bool, true, false, not, ◌&&◌, ◌||◌, Bool-cases,
  some, Option-cases, List, [], ◌∷◌, All, Elem, arith, ℤ, ◌≤ℤ◌, eqb_ℤ_refl, eqb_ℤ→eq, sort_by,
  All-sort_by, Result, ok, err, Elem→All,
}
use gatemux.Common.Maps.{find, put}
use gatemux.Router.Types.{AliasTarget, AliasMeta, string_eq, round_eq}
use gatemux.Router.Weighted.Member.{pick_weighted-Elem}
use gatemux.Router.Weighted.{pick_weighted}
use gatemux.Router.Strategy.{has_strategy, strategy_chain}
use gatemux.Router.Select.{
  Registry, Request, Query, query_of, Resolved, ResolveError, no_healthy_deployment, suits,
  is_closed, is_candidate, find_band, pick, candidate_cost, head_or, several, round_of, resolved,
  answer, resolve_targets, resolve,
}
use gatemux.Router.Select.Bands.{Best, find_band-Best, find_band-none}

head_or-Elem :
    (c : AliasTarget) (xs band : List AliasTarget)
    → Elem c band
    → All (λ t. Elem t band) xs
    → Elem (head_or c xs) band
head_or-Elem c [] band at all = at
head_or-Elem c (x ∷ xs) band at all = all.0

abbrev Kept : Registry → List AliasTarget → AliasTarget × Registry → Type 0
Kept r band x = Elem x.0 band × (x.1.deployments ≡ r.deployments)

-- Whatever the strategy, the pick is one of the candidates, and only counters change.
pick-Elem :
    (r : Registry) (meta : AliasMeta) (alias : String) (p : ℤ) (c : AliasTarget)
    (cs : List AliasTarget)
    → Kept r (c ∷ cs) (pick r meta alias p c cs)
unfolding pick
pick-Elem r meta alias p c cs =
    elim (Bool-cases (has_strategy (strategy_chain meta) "cost" && several cs)) [
      | inl e ↦
          let k : pick r meta alias p c cs ≡ (head_or c (sort_by (candidate_cost r) (c ∷ cs)), r) =
            rw (e, pick) refl in
          let all = Elem→All (λ t. Elem t (c ∷ cs)) (c ∷ cs) (λ t m. m) in
          let sorted = All-sort_by (candidate_cost r) (λ t. Elem t (c ∷ cs)) (c ∷ cs) all in
          subst (Kept r (c ∷ cs)) (sym k)
            (head_or-Elem c (sort_by (candidate_cost r) (c ∷ cs)) (c ∷ cs) (inl refl) sorted, refl)
      | inr e ↦
          let round = round_of (find (record { alias = alias; priority = p }) r.rr) in
          let w = pick_weighted c cs round in
          let k : pick r meta alias p c cs
              ≡ (w.0, record r { rr = put (record { alias = alias; priority = p }) w.1 r.rr }) =
            rw (e, pick) refl in
          subst (Kept r (c ∷ cs)) (sym k) (pick_weighted-Elem c cs round, refl)
    ]

module _ (getenv : String → String) (r : Registry) (q : Query) (alias : String) where
  suits-resolved :
      (s : Registry) (t : AliasTarget)
      → s.deployments ≡ r.deployments
      → suits r q t ≡ true
      → (x : Resolved) × (resolved getenv s t ≡ ok x)
        × (x.deployment_name ≡ t.deployment_name)
        × (x.priority ≡ t.priority)
  unfolding resolved suits
  suits-resolved s t same h = elim (Option-cases (find t.deployment_name r.deployments)) [
    | inl missing ↦ absurd (ground (arith, missing))
    | inr (d, found) ↦
        let at : find t.deployment_name s.deployments ≡ some d =
          ap (find t.deployment_name) same ∙ found in
        rw (at, resolved) (_, refl, refl, refl)
  ]

  answer-ok :
      (s : Registry) (res : Result ResolveError Resolved) {x : Resolved} {r' : Registry}
      → answer s res ≡ ok (x, r')
      → res ≡ ok x
  answer-ok s (ok y) h = ground arith
  answer-ok s (err e) h = absurd (ground arith)

  resolved-same :
      (s : Registry) (t : AliasTarget) (x : Resolved)
      → resolved getenv s t ≡ ok x
      → (x.deployment_name ≡ t.deployment_name) × (x.priority ≡ t.priority)
  unfolding resolved
  resolved-same s t x h = elim (Option-cases (find t.deployment_name s.deployments)) [
    | inl missing ↦ absurd (ground (arith, missing))
    | inr (d, found) ↦ ground (arith, found)
  ]

  -- The target that an answer stands for.
  resolve_targets-lem :
      (ts : List AliasTarget) (x : Resolved) (r' : Registry)
      → resolve_targets getenv r q alias ts ≡ ok (x, r')
      → (p : ℤ) × (c : AliasTarget) × (cs : List AliasTarget) × (t : AliasTarget) × (find_band r q
            ts
          ≡ some (p, c, cs))
        × Elem t (c ∷ cs)
        × (x.deployment_name ≡ t.deployment_name)
        × (x.priority ≡ t.priority)
  unfolding resolve_targets
  resolve_targets-lem ts x r' h = elim (Option-cases (find_band r q ts)) [
    | inl missing ↦ absurd (ground (arith, missing))
    | inr ((p, c, cs), found) ↦
        let chosen = pick r q.meta alias p c cs in
        let made : answer chosen.1 (resolved getenv chosen.1 chosen.0) ≡ ok (x, r') =
          ground (arith, found) in
        let same =
          resolved-same chosen.1 chosen.0 x
            (answer-ok chosen.1 (resolved getenv chosen.1 chosen.0) made) in
        (p, c, cs, chosen.0, found, (pick-Elem r q.meta alias p c cs).0, same.0, same.1)
  ]

is_candidate-lem :
    (r : Registry) (q : Query) (healthy : Bool) (p : ℤ) (t : AliasTarget)
    → is_candidate r q healthy p t ≡ true
    → (t.priority ≡ p) × (suits r q t ≡ true) × (healthy ≡ true → is_closed r q t ≡ true)
unfolding is_candidate
is_candidate-lem r q healthy p t e = let same = eqb_ℤ→eq t.priority p in ground (arith, same)

candidate-is :
    (r : Registry) (q : Query) (healthy : Bool) (t : AliasTarget)
    → is_candidate r q healthy t.priority t ≡ suits r q t && (not healthy || is_closed r q t)
unfolding is_candidate
candidate-is r q healthy t = rw (eqb_ℤ_refl t.priority) refl

-- A choice is at least as good as another target: it is healthy and the other is not, or both are
-- alike and its priority number is not higher.
abbrev pub IsNoWorse : Registry → Query → AliasTarget → AliasTarget → Type 0
IsNoWorse r q t u =
    ((is_closed r q t ≡ true) × (is_closed r q u ≡ false))
    ⊎ ((t.priority ≤ℤ u.priority) × ((is_closed r q t ≡ true) ⊎ (is_closed r q u ≡ false)))

Best-healthy :
    (r : Registry) (q : Query) (ts band : List AliasTarget) (p : ℤ) (t u : AliasTarget)
    → Best r q ts p band true
    → Elem t band
    → Elem u ts
    → suits r q u ≡ true
    → Elem t ts × (suits r q t ≡ true) × IsNoWorse r q t u
Best-healthy r q ts band p t u b at in_list good =
    let (listed, can) = b.members t at in
    let (same, fit, closed) = is_candidate-lem r q true p t can in
    (
      listed,
      fit,
      elim (Bool-cases (is_closed r q u)) [
        | inr opened ↦ inl (closed refl, opened)
        | inl shut ↦
            let k : is_candidate r q true u.priority u ≡ true =
              candidate-is r q true u ∙ ground (arith, good, shut) in
            inr (subst (λ x. x ≤ℤ u.priority) (sym same) (b.first u in_list k), inl (closed refl))
      ],
    )

Best-fallback :
    (r : Registry) (q : Query) (ts band : List AliasTarget) (p : ℤ) (t u : AliasTarget)
    → Best r q ts p band false
    → is_candidate r q true u.priority u ≡ false
    → Elem t band
    → Elem u ts
    → suits r q u ≡ true
    → Elem t ts × (suits r q t ≡ true) × IsNoWorse r q t u
Best-fallback r q ts band p t u b unhealthy at in_list good =
    let (listed, can) = b.members t at in
    let (same, fit, closed) = is_candidate-lem r q false p t can in
    let k : is_candidate r q false u.priority u ≡ true =
      candidate-is r q false u ∙ ground (arith, good) in
    let opened : is_closed r q u ≡ false =
      ground (arith, candidate-is r q true u, unhealthy, good) in
    (listed, fit, inr (subst (λ x. x ≤ℤ u.priority) (sym same) (b.first u in_list k), inr opened))

band_member :
    (r : Registry) (q : Query) (ts : List AliasTarget) (p : ℤ) (c : AliasTarget)
    (cs : List AliasTarget) (t : AliasTarget)
    → find_band r q ts ≡ some (p, c, cs)
    → Elem t (c ∷ cs)
    → Elem t ts
band_member r q ts p c cs t band at = elim (find_band-Best r q ts p c cs band) [
  | inl b ↦ (b.members t at).0
  | inr (b, _) ↦ (b.members t at).0
]

band_suits :
    (r : Registry) (q : Query) (ts : List AliasTarget) (p : ℤ) (c : AliasTarget)
    (cs : List AliasTarget) (t : AliasTarget)
    → find_band r q ts ≡ some (p, c, cs)
    → Elem t (c ∷ cs)
    → suits r q t ≡ true
band_suits r q ts p c cs t band at = elim (find_band-Best r q ts p c cs band) [
  | inl b ↦ (is_candidate-lem r q true p t (b.members t at).1).1
  | inr (b, _) ↦ (is_candidate-lem r q false p t (b.members t at).1).1
]

module _ (getenv : String → String) where
  -- If the router resolves an alias, its answer names a target of the alias that suits the request (not
  -- tried, known, enabled, able, with the tags and the region asked for); and against any other target
  -- of the alias that suits it, that one is not worse: healthy rather than not, and of two that are
  -- alike never the one with the higher priority number.
  pub resolve-IsNoWorse :
      (r : Registry) (req : Request) (alias : String) (ts : List AliasTarget) (x : Resolved)
      (r' : Registry) (u : AliasTarget)
      → find alias r.aliases ≡ some ts
      → resolve getenv r req alias ≡ ok (x, r')
      → Elem u ts
      → suits r (query_of r alias req) u ≡ true
      → (t : AliasTarget) × (x.deployment_name ≡ t.deployment_name)
        × (x.priority ≡ t.priority)
        × Elem t ts
        × (suits r (query_of r alias req) t ≡ true)
        × IsNoWorse r (query_of r alias req) t u
  unfolding resolve
  resolve-IsNoWorse r req alias [] x r' u found h at good = absurd at
  resolve-IsNoWorse r req alias (t0 ∷ ts) x r' u found h at good =
      let q = query_of r alias req in
      let k : resolve_targets getenv r q alias (t0 ∷ ts) ≡ ok (x, r') = ground (arith, found) in
      let (p, c, cs, t, band, picked, name, priority) =
        resolve_targets-lem getenv r q alias (t0 ∷ ts) x r' k in
      elim (find_band-Best r q (t0 ∷ ts) p c cs band) [
        | inl b ↦
            let (listed, fit, best) = Best-healthy r q (t0 ∷ ts) (c ∷ cs) p t u b picked at good in
            (t, name, priority, listed, fit, best)
        | inr (b, unhealthy) ↦
            let (listed, fit, best) =
              Best-fallback r q (t0 ∷ ts) (c ∷ cs) p t u b (unhealthy u at) picked at good in
            (t, name, priority, listed, fit, best)
      ]

  -- For a known alias that has targets, resolving ends in a choice, or else in "no healthy deployment"
  -- and then none of its targets suits the request, healthy or not. It never meets a deployment that
  -- is missing.
  pub resolve_total :
      (r : Registry) (req : Request) (alias : String) (t0 : AliasTarget) (ts : List AliasTarget)
      → find alias r.aliases ≡ some (t0 ∷ ts)
      → ((x : Resolved) × (r' : Registry) × (resolve getenv r req alias ≡ ok (x, r')))
        ⊎ ((resolve getenv r req alias ≡ err no_healthy_deployment)
            × All (λ u. suits r (query_of r alias req) u ≡ false) (t0 ∷ ts))
  unfolding resolve resolve_targets
  resolve_total r req alias t0 ts found =
      let q = query_of r alias req in
      elim (Option-cases (find_band r q (t0 ∷ ts))) [
        | inl missing ↦ inr (
          rw (found, resolve, missing, resolve_targets) refl,
          Elem→All (λ u. suits r q u ≡ false) (t0 ∷ ts)
              (λ u at.
                let left = find_band-none r q (t0 ∷ ts) missing u at in
                ground (arith, candidate-is r q false u, left)),
        )
        | inr ((p, c, cs), band) ↦
            let chosen = pick r q.meta alias p c cs in
            let kept = pick-Elem r q.meta alias p c cs in
            let good = band_suits r q (t0 ∷ ts) p c cs chosen.0 band kept.0 in
            let (x, made, _, _) = suits-resolved getenv r q alias chosen.1 chosen.0 kept.1 good in
            let made' : answer chosen.1 (resolved getenv chosen.1 chosen.0) ≡ ok (x, chosen.1) =
              ap (answer chosen.1) made in
            inl (x, chosen.1, rw (found, resolve, band, resolve_targets) made')
      ]

  -- An answer is for a target that suits.
  pub resolve-suits :
      (r : Registry) (req : Request) (alias : String) (ts : List AliasTarget) (x : Resolved)
      (r' : Registry)
      → find alias r.aliases ≡ some ts
      → resolve getenv r req alias ≡ ok (x, r')
      → (t : AliasTarget) × (x.deployment_name ≡ t.deployment_name)
        × Elem t ts
        × (suits r (query_of r alias req) t ≡ true)
  unfolding resolve
  resolve-suits r req alias [] x r' found h = absurd (ground (arith, found))
  resolve-suits r req alias (t0 ∷ ts) x r' found h =
      let q = query_of r alias req in
      let k : resolve_targets getenv r q alias (t0 ∷ ts) ≡ ok (x, r') = ground (arith, found) in
      let (p, c, cs, t, band, picked, name, _) =
        resolve_targets-lem getenv r q alias (t0 ∷ ts) x r' k in
      (
        t,
        name,
        band_member r q (t0 ∷ ts) p c cs t band picked,
        band_suits r q (t0 ∷ ts) p c cs t band picked,
      )
