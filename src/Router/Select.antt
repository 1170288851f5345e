-- ===== src/Router/Select.antt =====
-- `ResolveWithContext` of internal/router/router.go and what it calls, for a registry whose breakers
-- have no mirror. The environment, for credentials, is a function.
pub mod Bands
pub mod Best
pub mod Cost
pub mod Listed
pub mod Untried
mod Examples
use Prim.Native.String.{String}
use text.Mathlib.Text.{◌==◌ as str_eq}
use gatemux.Common.{
  ℕ, Bool, true, false, not, ◌&&◌, ◌||◌, Option, none, some, List, [], ◌∷◌, if◌then◌else◌, ℤ, pos,
  eqb_ℤ, Result, ok, err, sort_by,
}
use gatemux.Common.Maps.{find, put}
use gatemux.Admission.Counter.{Counter}
use gatemux.Router.Types.{
  string_eq, pricing_eq, round_eq, AliasTarget, Capability, any_capability, Capabilities,
  Deployment, AliasMeta, ResolveContext, PricingKey, RoundKey,
}
use gatemux.Router.Strategy.{
  effective_capabilities, supports, strategy_chain, has_strategy, string_option, tag_filter,
}
use gatemux.Router.Breaker.{Breakers, is_open_state}
use gatemux.Router.Weighted.{pick_weighted}

pub record Registry : Type 0 where
  pub aliases : List (String × List AliasTarget)
  pub alias_meta : List (String × AliasMeta)
  pub deployments : List (String × Deployment)
  pub identities : List (String × String)
  pub providers : List (String × Capabilities)
  pub pricing : List (PricingKey × ℤ)
  pub rr : List (RoundKey × ℤ)
  pub breakers : Breakers
  pub deployment_limits : List (String × Counter)

pub record Resolved : Type 0 where
  pub identity : String
  pub deployment_name : String
  pub provider_type : String
  pub provider : Option Capabilities
  pub upstream_model : String
  pub priority : ℤ
  pub weight : ℤ
  pub base_url : String
  pub api_key : String

pub data ResolveError : Type 0 where
  unknown_alias no_healthy_deployment nil_deployment : ResolveError

-- What one request asks of the router.
pub record Request : Type 0 where
  pub tried : List String
  pub capability : Capability
  pub context : ResolveContext
  pub now : ℕ

-- The same, with what is known of its alias.
pub record Query : Type 0 where
  pub tried : List String
  pub capability : Capability
  pub meta : AliasMeta
  pub context : ResolveContext
  pub now : ℕ

abbrev no_meta : AliasMeta
no_meta = record {
  cache_enabled = false;
  cache_ttl_seconds = pos 0;
  strategy = "";
  strategy_options = none;
}

abbrev meta_of : Option AliasMeta → AliasMeta
meta_of none = no_meta
meta_of (some m) = m

abbrev pub query_of : Registry → String → Request → Query
query_of r alias q = record {
  tried = q.tried;
  capability = q.capability;
  meta = meta_of (find alias r.alias_meta);
  context = q.context;
  now = q.now;
}

abbrev is_any : Capability → Bool
is_any any_capability = true
is_any _ = false

-- With the strategy "region", a request's region must match where the option says to block.
abbrev region_ok : Deployment → Query → Bool
region_ok d q =
    let fallback = string_option q.meta.strategy_options "region_fallback" "any" in
    let same : Bool = elim d.region [ none ↦ false | some r ↦ str_eq r q.context.region ] in
    not (has_strategy (strategy_chain q.meta) "region")
    || (str_eq q.context.region "" || (same || not (str_eq fallback "block")))

abbrev tags_ok : Deployment → Query → Bool
tags_ok d q =
    not (has_strategy (strategy_chain q.meta) "tagged")
    || tag_filter d.tags q.context.tags (string_option q.meta.strategy_options "tag_match" "any")

abbrev fits : Option Deployment → Option Capabilities → Query → Bool
fits none p q = false
fits (some d) none q = false
fits (some d) (some p) q =
    d.enabled
    && ((is_any q.capability || supports (effective_capabilities d p) q.capability)
        && (tags_ok d q && region_ok d q))

-- All guards of the loop but those on the priority and on the breaker.
pub suits : Registry → Query → AliasTarget → Bool
suits r q t =
    not (has_strategy q.tried t.deployment_name)
    && fits (find t.deployment_name r.deployments) (find t.deployment_name r.providers) q

pub is_closed : Registry → Query → AliasTarget → Bool
is_closed r q t = not (is_open_state q.now (find t.deployment_name r.breakers))

pub is_candidate : Registry → Query → Bool → ℤ → AliasTarget → Bool
is_candidate r q healthy_only priority t =
    eqb_ℤ t.priority priority && (suits r q t && (not healthy_only || is_closed r q t))

pub candidates : Registry → Query → Bool → ℤ → List AliasTarget → List AliasTarget
candidates r q healthy_only priority [] = []
candidates r q healthy_only priority (t ∷ ts) =
    let rest = candidates r q healthy_only priority ts in
    if is_candidate r q healthy_only priority t then t ∷ rest else rest

-- 1 << 62
abbrev pub no_cost : ℤ
no_cost = pos 4611686018427387904

abbrev cost_of_deployment : Registry → Option Deployment → ℤ
cost_of_deployment r none = no_cost
cost_of_deployment r (some d) =
    elim (find (record { provider = d.provider_type; model = d.upstream_model }) r.pricing) [
      | none ↦ no_cost
      | some cost ↦ cost
    ]

pub candidate_cost : Registry → AliasTarget → ℤ
candidate_cost r t = cost_of_deployment r (find t.deployment_name r.deployments)

abbrev head_or : AliasTarget → List AliasTarget → AliasTarget
head_or t [] = t
head_or t (c ∷ cs) = c

abbrev round_of : Option ℤ → ℤ
round_of none = pos 0
round_of (some n) = n

abbrev several : List AliasTarget → Bool
several [] = false
several (c ∷ cs) = true

-- The choice among candidates, of which there is a first: the cheapest, or by weighted round robin.
pub pick :
    Registry → AliasMeta → String → ℤ → AliasTarget → List AliasTarget → AliasTarget × Registry
pick r meta alias priority first rest =
    if has_strategy (strategy_chain meta) "cost" && several rest
    then (head_or first (sort_by (candidate_cost r) (first ∷ rest)), r)
    else (let round_key : RoundKey = record { alias = alias; priority = priority } in
        let (chosen, next) = pick_weighted first rest (round_of (find round_key r.rr)) in
        (chosen, record r { rr = put round_key next r.rr }))

abbrev has_priority : ℤ → List ℤ → Bool
has_priority p [] = false
has_priority p (x ∷ xs) = eqb_ℤ x p || has_priority p xs

-- The loop of `orderedPriorities`, with the priorities seen so far.
pub distinct_priorities : List ℤ → List AliasTarget → List ℤ
distinct_priorities seen [] = []
distinct_priorities seen (t ∷ ts) =
    let skip = distinct_priorities seen ts in
    let add = t.priority ∷ distinct_priorities (t.priority ∷ seen) ts in
    if has_priority t.priority seen then skip else add

pub ordered_priorities : List AliasTarget → List ℤ
ordered_priorities ts = sort_by (λ p. p) (distinct_priorities [] ts)

-- The first priority with candidates.
pub first_band :
    Registry
    → Query
    → Bool
    → List AliasTarget
    → List ℤ
    → Option (ℤ × AliasTarget × List AliasTarget)
first_band r q healthy_only ts [] = none
first_band r q healthy_only ts (p ∷ ps) = elim (candidates r q healthy_only p ts) [
  | [] ↦ first_band r q healthy_only ts ps
  | c ∷ cs ↦ some (p, c, cs)
]

-- Healthy candidates of all priorities first, then those whose breaker is open.
pub find_band : Registry → Query → List AliasTarget → Option (ℤ × AliasTarget × List AliasTarget)
find_band r q ts = elim (first_band r q true ts (ordered_priorities ts)) [
  | some b ↦ some b
  | none ↦ first_band r q false ts (ordered_priorities ts)
]

abbrev text_or_empty : Option String → String
text_or_empty none = ""
text_or_empty (some s) = s

abbrev answer : Registry → Result ResolveError Resolved → Result ResolveError (Resolved × Registry)
answer r (ok x) = ok (x, r)
answer r (err e) = err e

module _ (getenv : String → String) where
  pub resolved : Registry → AliasTarget → Result ResolveError Resolved
  resolved r t = elim (find t.deployment_name r.deployments) [
    | none ↦ err nil_deployment
    | some d ↦ ok (record {
      identity = text_or_empty (find d.name r.identities);
      deployment_name = t.deployment_name;
      provider_type = d.provider_type;
      provider = find t.deployment_name r.providers;
      upstream_model = d.upstream_model;
      priority = t.priority;
      weight = t.weight;
      base_url = text_or_empty d.base_url;
      api_key = if str_eq d.credential_ref "" then "" else getenv d.credential_ref;
    })
  ]

  pub resolve_targets :
      Registry → Query → String → List AliasTarget → Result ResolveError (Resolved × Registry)
  resolve_targets r q alias ts = elim (find_band r q ts) [
    | none ↦ err no_healthy_deployment
    | some b ↦
        let chosen = pick r q.meta alias b.0 b.1 b.2 in answer chosen.1 (resolved chosen.1 chosen.0)
  ]

  pub resolve : Registry → Request → String → Result ResolveError (Resolved × Registry)
  resolve r q alias = elim (find alias r.aliases) [
    | none ↦ err unknown_alias
    | some ts ↦ elim ts [
      | [] ↦ err unknown_alias
      | t ∷ rest ↦ resolve_targets r (query_of r alias q) alias (t ∷ rest)
    ]
  ]
