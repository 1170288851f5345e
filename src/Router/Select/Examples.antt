-- ===== src/Router/Select/Examples.antt =====
-- An alias with two deployments of equal priority, and one that is kept as a fallback.
use Prim.Native.String.{String}
use gatemux.Common.{
  ◌≡◌, ◌⊎◌, refl, inl, inr, true, false, none, some, List, [], ◌∷◌, All, Elem, ℤ, pos, ◌≤ℤ◌, ok,
  err, sort_by, insert_by,
}
use gatemux.Common.Maps.{find}
use gatemux.Router.Types.{
  pricing_equals, string_eq, AliasTarget, AliasMeta, any_capability, Capabilities, Deployment,
}
use gatemux.Router.Strategy.{
  has_strategy, strategy_chain, string_option, supports, effective_capabilities,
}
use gatemux.Router.Select.{
  Registry, Request, Resolved, query_of, suits, candidate_cost, pick, resolve, resolve_targets,
  find_band, first_band, ordered_priorities, distinct_priorities, candidates, is_candidate,
  is_closed, resolved, no_healthy_deployment,
}
use gatemux.Router.Select.Listed.{targets_for}
use gatemux.Router.Select.Best.{IsNoWorse, resolve-IsNoWorse, resolve_total}
use gatemux.Router.Select.Listed.Targets.{resolve-targets_for}
use gatemux.Router.Select.Cost.{pick-candidate_cost}

abbrev able : Capabilities
able = record { chat = true; stream_chat = true; embeddings = false; responses = false }

abbrev deployment : String → Deployment
deployment name = record {
  name = name;
  provider_type = "openai";
  upstream_model = name;
  credential_ref = "";
  base_url = none;
  region = none;
  enabled = true;
  max_parallel_requests = none;
  tags = [];
  capabilities = none;
}

abbrev target : String → ℤ → AliasTarget
target name priority = record { deployment_name = name; priority = priority; weight = pos 1 }

abbrev targets : List AliasTarget
targets = target "a" (pos 0) ∷ target "b" (pos 0) ∷ target "c" (pos 1) ∷ []

abbrev by_cost : AliasMeta
by_cost = record {
  cache_enabled = false;
  cache_ttl_seconds = pos 0;
  strategy = "cost";
  strategy_options = none;
}

abbrev registry : Registry
registry = record {
  aliases = ("chat", targets) ∷ [];
  alias_meta = ("chat", by_cost) ∷ [];
  deployments = ("a", deployment "a") ∷ ("b", deployment "b") ∷ ("c", deployment "c") ∷ [];
  identities = [];
  providers = ("a", able) ∷ ("b", able) ∷ ("c", able) ∷ [];
  pricing =
      (record { provider = "openai"; model = "a" }, pos 300)
      ∷ (record { provider = "openai"; model = "b" }, pos 200)
      ∷ [];
  rr = [];
  breakers = [];
  deployment_limits = [];
}

abbrev request : Request
request = record {
  tried = [];
  capability = any_capability;
  context = record { tags = []; region = "" };
  now = 5;
}

abbrev environment : String → String
environment name = ""

found : find "chat" registry.aliases ≡ some targets
unfolding find
found = refl

resolve_total_example :
    ((x : Resolved) × (r' : Registry) × (resolve environment registry request "chat" ≡ ok (x, r')))
    ⊎ ((resolve environment registry request "chat" ≡ err no_healthy_deployment)
        × All (λ u. suits registry (query_of registry "chat" request) u ≡ false) targets)
resolve_total_example =
    resolve_total environment registry request "chat" (target "a" (pos 0))
      (target "b" (pos 0) ∷ target "c" (pos 1) ∷ []) found

abbrev cheapest : Resolved
cheapest = record {
  identity = "";
  deployment_name = "b";
  provider_type = "openai";
  provider = some able;
  upstream_model = "b";
  priority = pos 0;
  weight = pos 1;
  base_url = "";
  api_key = "";
}

cheapest_resolved : resolve environment registry request "chat" ≡ ok (cheapest, registry)
unfolding resolve resolve_targets find_band first_band ordered_priorities distinct_priorities
    candidates is_candidate is_closed suits pick candidate_cost resolved find sort_by insert_by
    pricing_equals has_strategy strategy_chain string_option supports effective_capabilities
cheapest_resolved = refl

last_suits : suits registry (query_of registry "chat" request) (target "c" (pos 1)) ≡ true
unfolding suits find has_strategy strategy_chain string_option supports effective_capabilities
last_suits = refl

resolve-IsNoWorse_example :
    (t : AliasTarget) × (cheapest.deployment_name ≡ t.deployment_name)
    × (cheapest.priority ≡ t.priority)
    × Elem t targets
    × (suits registry (query_of registry "chat" request) t ≡ true)
    × IsNoWorse registry (query_of registry "chat" request) t (target "c" (pos 1))
resolve-IsNoWorse_example =
    resolve-IsNoWorse environment registry request "chat" targets cheapest registry
      (target "c" (pos 1)) found cheapest_resolved (inr (inr (inl refl))) last_suits

by_cost-chain : has_strategy (strategy_chain by_cost) "cost" ≡ true
unfolding has_strategy strategy_chain
by_cost-chain = refl

pick-candidate_cost_example :
    candidate_cost registry
      (pick registry by_cost "chat" (pos 0) (target "a" (pos 0)) (target "b" (pos 0) ∷ [])).0
    ≤ℤ candidate_cost registry (target "b" (pos 0))
pick-candidate_cost_example =
    pick-candidate_cost registry by_cost "chat" (pos 0) (target "a" (pos 0)) (target "b" (pos 0)) []
      (target "b" (pos 0)) by_cost-chain (inr (inl refl))

resolve-targets_for_example :
    (ys : List Resolved) × (y : Resolved) × (targets_for registry "chat" any_capability ≡ ok ys)
    × Elem y ys
    × (y.deployment_name ≡ "b")
resolve-targets_for_example =
    resolve-targets_for environment registry request "chat" targets cheapest registry found
      cheapest_resolved
