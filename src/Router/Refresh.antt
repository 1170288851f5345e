-- ===== src/Router/Refresh.antt =====
-- `Refresh` of internal/router/router.go, with the providers it builds. What the database lists is an
-- argument; `none` stands for a failed query. Whether the client of a cloud can be made is a function.
pub mod Limits
mod Examples
use Prim.Native.String.{String}
use text.Mathlib.Text.{◌==◌ as str_eq}
use gatemux.Common.{
  ℕ, suc, Bool, true, false, not, ◌&&◌, ◌||◌, Option, none, some, List, [], ◌∷◌, if◌then◌else◌, ℤ,
  pos, ltb_ℤ, eqb_ℤ,
}
use gatemux.Common.Maps.{find, put}
use gatemux.Admission.Counter.{Counter, set_limit, new_counter}
use gatemux.Router.Types.{
  string_eq, pricing_eq, AliasTarget, AliasMeta, Capabilities, Deployment, PricingKey, Value,
}
use gatemux.Router.Strategy.{has_strategy}
use gatemux.Router.Select.{Registry}

-- `AliasWithDeployments` of internal/store/aliases.go; its old form lists only names.
pub record AliasRow : Type 0 where
  pub alias : String
  pub deployments : List String
  pub targets : List AliasTarget
  pub meta : AliasMeta

pub record PriceRow : Type 0 where
  pub key : PricingKey
  pub input_per_million_cents : ℤ

abbrev full_set : Capabilities
full_set = record { chat = true; stream_chat = true; embeddings = true; responses = true }

abbrev no_responses : Capabilities
no_responses = record { chat = true; stream_chat = true; embeddings = true; responses = false }

abbrev chat_only : Capabilities
chat_only = record { chat = true; stream_chat = true; embeddings = false; responses = false }

abbrev nothing : Capabilities
nothing = record { chat = false; stream_chat = false; embeddings = false; responses = false }

-- The types whose clients answer to the OpenAI protocol in full, those without responses, and those
-- without embeddings too.
abbrev in_full : List String
in_full = "openai" ∷ "openai_compatible" ∷ "ollama" ∷ "vllm" ∷ []

abbrev in_part : List String
in_part =
    "azure_openai" ∷ "mistral" ∷ "together" ∷ "fireworks" ∷ "cohere" ∷ "bedrock" ∷ "vertex"
    ∷ "gemini" ∷ []

abbrev for_chat : List String
for_chat = "anthropic" ∷ "groq" ∷ "openrouter" ∷ []

pub default_capabilities : String → Capabilities
default_capabilities t =
    if has_strategy in_full t
    then full_set
    else if has_strategy in_part t
    then no_responses
    else if has_strategy for_chat t
    then chat_only
    else nothing

-- Types that need no credential, and those whose client is made from the environment of a cloud.
abbrev keyless : List String
keyless = "openai_compatible" ∷ "ollama" ∷ "vllm" ∷ []

abbrev clouds : List String
clouds = "bedrock" ∷ "vertex" ∷ []

abbrev keyed : List String
keyed =
    "openai" ∷ "azure_openai" ∷ "anthropic" ∷ "mistral" ∷ "groq" ∷ "together" ∷ "fireworks"
    ∷ "openrouter" ∷ "cohere" ∷ "gemini" ∷ []

abbrev targets_of_names : ℕ → List String → List AliasTarget
targets_of_names i [] = []
targets_of_names i (n ∷ ns) =
    record { deployment_name = n; priority = pos i; weight = pos 1 } ∷ targets_of_names (suc i) ns

pub targets_of : AliasRow → List AliasTarget
targets_of a = elim a.targets [ [] ↦ targets_of_names 0 a.deployments | t ∷ ts ↦ t ∷ ts ]

abbrev positive_or_zero : Option ℤ → ℤ
positive_or_zero none = pos 0
positive_or_zero (some l) = if ltb_ℤ (pos 0) l then l else pos 0

abbrev pub limit_of : Deployment → ℤ
limit_of d = positive_or_zero d.max_parallel_requests

abbrev pub updated : ℤ → Option Counter → Counter
updated l none = new_counter l
updated l (some c) = set_limit l c

-- Counters are reused, so that work in flight is not forgotten.
pub set_limits : List (String × Deployment) → List (String × Counter) → List (String × Counter)
set_limits [] limits = limits
set_limits ((name, d) ∷ ds) limits =
    set_limits ds (put name (updated (limit_of d) (find name limits)) limits)

abbrev pub is_known : Option Deployment → Bool
is_known none = false
is_known (some d) = true

-- A removed deployment keeps its counter until its last request is done.
pub drop_idle : List (String × Deployment) → List (String × Counter) → List (String × Counter)
drop_idle ds [] = []
drop_idle ds ((name, c) ∷ limits) =
    let rest = drop_idle ds limits in
    if not (is_known (find name ds)) && eqb_ℤ c.in_flight (pos 0) then rest else (name, c) ∷ rest

pub refresh_limits : List (String × Deployment) → List (String × Counter) → List (String × Counter)
refresh_limits ds limits = drop_idle ds (set_limits ds limits)

pub by_name : List Deployment → List (String × Deployment) → List (String × Deployment)
by_name [] m = m
by_name (d ∷ ds) m = by_name ds (put d.name d m)

identities_of :
    (Deployment → String) → List Deployment → List (String × String) → List (String × String)
identities_of identity [] m = m
identities_of identity (d ∷ ds) m = identities_of identity ds (put d.name (identity d) m)

aliases_of : List AliasRow → List (String × List AliasTarget) → List (String × List AliasTarget)
aliases_of [] m = m
aliases_of (a ∷ rows) m = aliases_of rows (put a.alias (targets_of a) m)

metas_of : List AliasRow → List (String × AliasMeta) → List (String × AliasMeta)
metas_of [] m = m
metas_of (a ∷ rows) m = metas_of rows (put a.alias a.meta m)

prices_of : List PriceRow → List (PricingKey × ℤ) → List (PricingKey × ℤ)
prices_of [] m = m
prices_of (p ∷ ps) m = prices_of ps (put p.key p.input_per_million_cents m)

module _ (getenv : String → String) (cloud_ready : Deployment → Bool)
    (identity : Deployment → String) where
  -- The provider of a deployment, by its capabilities, or none where it cannot be built.
  pub build_provider : Deployment → Option Capabilities
  build_provider d =
      let key = if str_eq d.credential_ref "" then "" else getenv d.credential_ref in
      let t = d.provider_type in
      if d.enabled
        && (has_strategy keyless t
            || (has_strategy clouds t && cloud_ready d
                || has_strategy keyed t && not (str_eq key "")))
      then some (default_capabilities t)
      else none

  providers_of : List Deployment → List (String × Capabilities) → List (String × Capabilities)
  providers_of [] m = m
  providers_of (d ∷ ds) m = elim (build_provider d) [
    | none ↦ providers_of ds m
    | some p ↦ providers_of ds (put d.name p m)
  ]

  -- A failed query of the prices leaves none; any other leaves the registry as it was. Whether the
  -- concurrency policies could be loaded, which comes first, is an argument.
  pub refresh :
      Bool
      → Option (List Deployment)
      → Option (List AliasRow)
      → Option (List PriceRow)
      → Registry
      → Bool × Registry
  refresh false deps rows prices r = (false, r)
  refresh true none rows prices r = (false, r)
  refresh true (some deps) none prices r = (false, r)
  refresh true (some deps) (some rows) prices r =
      let known = by_name deps [] in
      (
        true,
        record r {
          aliases = aliases_of rows [];
          alias_meta = metas_of rows [];
          deployments = known;
          identities = identities_of identity deps [];
          providers = providers_of deps [];
          pricing = elim prices [ none ↦ [] | some ps ↦ prices_of ps [] ];
          deployment_limits = refresh_limits known r.deployment_limits;
        },
      )
