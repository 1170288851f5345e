-- ===== src/Router/Select/Listed.antt =====
-- `TargetsFor` of internal/router/router.go.
pub mod Targets
use Prim.Native.String.{String}
use text.Mathlib.Text.{◌==◌ as str_eq}
use gatemux.Common.{
  ℕ, Bool, true, false, not, ◌&&◌, ◌||◌, Option, none, some, List, [], ◌∷◌, if◌then◌else◌, ℤ, pos,
  eqb_ℤ, Result, ok, err, sort_by,
}
use gatemux.Common.Maps.{find, put}
use gatemux.Admission.Counter.{Counter}
use gatemux.Router.Types.{
  string_eq, pricing_eq, round_eq, AliasTarget, Capability, any_capability, Capabilities,
  Deployment, AliasMeta, ResolveContext, PricingKey, RoundKey,
}
use gatemux.Router.Strategy.{
  effective_capabilities, supports, strategy_chain, has_strategy, string_option, tag_filter,
}
use gatemux.Router.Breaker.{Breakers, is_open_state}
use gatemux.Router.Weighted.{pick_weighted}
use gatemux.Router.Select.{
  Registry, Resolved, ResolveError, no_healthy_deployment, unknown_alias, is_any, text_or_empty,
}

-- The loop of `TargetsFor`: the targets that are usable, healthy or not.
abbrev usable : Option Deployment → Option Capabilities → Capability → Bool
usable none p capability = false
usable (some d) none capability = false
usable (some d) (some p) capability =
    d.enabled && (is_any capability || supports (effective_capabilities d p) capability)

abbrev listed : Registry → AliasTarget → Option Deployment → Resolved
listed r t none = record {
  identity = "";
  deployment_name = t.deployment_name;
  provider_type = "";
  provider = none;
  upstream_model = "";
  priority = t.priority;
  weight = t.weight;
  base_url = "";
  api_key = "";
}
listed r t (some d) = record {
  identity = text_or_empty (find d.name r.identities);
  deployment_name = t.deployment_name;
  provider_type = d.provider_type;
  provider = find t.deployment_name r.providers;
  upstream_model = d.upstream_model;
  priority = t.priority;
  weight = t.weight;
  base_url = "";
  api_key = "";
}

pub list_targets : Registry → Capability → List AliasTarget → List Resolved
list_targets r capability [] = []
list_targets r capability (t ∷ ts) =
    let d = find t.deployment_name r.deployments in
    let rest = list_targets r capability ts in
    if usable d (find t.deployment_name r.providers) capability then listed r t d ∷ rest else rest

abbrev found_targets : List Resolved → Result ResolveError (List Resolved)
found_targets [] = err no_healthy_deployment
found_targets (x ∷ xs) = ok (x ∷ xs)

pub targets_for : Registry → String → Capability → Result ResolveError (List Resolved)
targets_for r alias capability = elim (find alias r.aliases) [
  | none ↦ err unknown_alias
  | some ts ↦ elim ts [
    | [] ↦ err unknown_alias
    | t ∷ rest ↦ found_targets (list_targets r capability (t ∷ rest))
  ]
]
