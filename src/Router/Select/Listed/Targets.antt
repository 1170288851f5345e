-- ===== src/Router/Select/Listed/Targets.antt =====
-- `TargetsFor` against `ResolveWithContext`, both of internal/router/router.go.
use Prim.Native.String.{String}
use gatemux.Common.{
  ◌≡◌, refl, ap, sym, ◌∙◌, subst, inl, inr, true, Bool-cases, Option, none, some, List, [], ◌∷◌,
  Elem, arith, ok,
}
use gatemux.Common.Maps.{find}
use gatemux.Router.Types.{string_eq, AliasTarget, Capability, Capabilities, Deployment}
use gatemux.Router.Select.Listed.{usable, listed, list_targets, found_targets, targets_for}
use gatemux.Router.Select.{Registry, Request, Query, query_of, Resolved, suits, fits, resolve}
use gatemux.Router.Select.Best.{resolve-suits}

fits-usable :
    (d : Option Deployment) (p : Option Capabilities) (q : Query)
    → fits d p q ≡ true
    → usable d p q.capability ≡ true
fits-usable none p q h = h
fits-usable (some d) none q h = h
fits-usable (some d) (some p) q h = ground (arith, h)

suits-usable :
    (r : Registry) (q : Query) (t : AliasTarget)
    → suits r q t ≡ true
    → usable
        (find t.deployment_name r.deployments)
        (find t.deployment_name r.providers)
        q.capability
      ≡ true
unfolding suits
suits-usable r q t h =
    fits-usable (find t.deployment_name r.deployments) (find t.deployment_name r.providers) q
      (ground (arith, h))

listed-name :
    (r : Registry) (t : AliasTarget) (d : Option Deployment)
    → (listed r t d).deployment_name ≡ t.deployment_name
listed-name r t none = refl
listed-name r t (some d) = refl

Elem-list_targets :
    (r : Registry) (capability : Capability) (ts : List AliasTarget) (t : AliasTarget)
    → Elem t ts
    → usable (find t.deployment_name r.deployments) (find t.deployment_name r.providers) capability
      ≡ true
    → (y : Resolved) × Elem y (list_targets r capability ts)
      × (y.deployment_name ≡ t.deployment_name)
unfolding list_targets
Elem-list_targets r capability [] t at h = absurd at
Elem-list_targets r capability (x ∷ ts) t (inl same) h =
    let can : usable (find x.deployment_name r.deployments) (find x.deployment_name r.providers)
          capability
        ≡ true =
      subst
        (λ z.
          usable (find z.deployment_name r.deployments) (find z.deployment_name r.providers)
            capability
          ≡ true)
        same h in
    rw can (
      listed r x (find x.deployment_name r.deployments),
      inl refl,
      listed-name r x (find x.deployment_name r.deployments)
          ∙ ap (λ (z : AliasTarget). z.deployment_name) (sym same),
    )
Elem-list_targets r capability (x ∷ ts) t (inr later) h =
    let (y, at, name) = Elem-list_targets r capability ts t later h in
    elim (Bool-cases (
      usable (find x.deployment_name r.deployments) (find x.deployment_name r.providers)
        capability)) [ inl e ↦ rw e (y, inr at, name) | inr e ↦ rw e (y, at, name) ]

found_targets-Elem :
    (ys : List Resolved) (y : Resolved)
    → Elem y ys
    → (zs : List Resolved) × (found_targets ys ≡ ok zs) × Elem y zs
found_targets-Elem [] y at = absurd at
found_targets-Elem (x ∷ ys) y at = (x ∷ ys, refl, at)

targets_for-Elem :
    (r : Registry) (alias : String) (capability : Capability) (ts : List AliasTarget)
    (t : AliasTarget)
    → find alias r.aliases ≡ some ts
    → Elem t ts
    → usable (find t.deployment_name r.deployments) (find t.deployment_name r.providers) capability
      ≡ true
    → (ys : List Resolved) × (y : Resolved) × (targets_for r alias capability ≡ ok ys)
      × Elem y ys
      × (y.deployment_name ≡ t.deployment_name)
unfolding targets_for
targets_for-Elem r alias capability [] t found at can = absurd at
targets_for-Elem r alias capability (t0 ∷ ts) t found at can =
    let (y, here, name) = Elem-list_targets r capability (t0 ∷ ts) t at can in
    let (ys, same, there) = found_targets-Elem (list_targets r capability (t0 ∷ ts)) y here in
    (ys, y, rw (found, targets_for) same, there, name)

-- Whatever deployment the router resolves an alias to, whichever it has tried before and whatever the
-- health of the others, it is among the targets that `TargetsFor` lists for the alias with the same
-- capability.
pub resolve-targets_for :
    (getenv : String → String) (r : Registry) (req : Request) (alias : String)
    (ts : List AliasTarget) (x : Resolved) (r' : Registry)
    → find alias r.aliases ≡ some ts
    → resolve getenv r req alias ≡ ok (x, r')
    → (ys : List Resolved) × (y : Resolved) × (targets_for r alias req.capability ≡ ok ys)
      × Elem y ys
      × (y.deployment_name ≡ x.deployment_name)
resolve-targets_for getenv r req alias ts x r' found h =
    let (t, name, at, good) = resolve-suits getenv r req alias ts x r' found h in
    let can = suits-usable r (query_of r alias req) t good in
    let (ys, y, lists, here, same) = targets_for-Elem r alias req.capability ts t found at can in
    (ys, y, lists, here, same ∙ sym name)
