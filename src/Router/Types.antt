-- ===== src/Router/Types.antt =====
-- What the router of internal/router/router.go keeps of aliases, deployments and prices, with
-- `Deployment` of internal/store/deployments.go and `Capabilities` of internal/providers/provider.go.
-- A provider's client is known by its declared capabilities.
use Prim.Native.String.{String}
use text.Mathlib.Text.{◌==◌ as str_eq}
use text.Mathlib.TextEquality.{eq_iff}
use gatemux.Common.{◌≡◌, ◌↔◌, Bool, true, ◌&&◌, Option, List, ℤ, eqb_ℤ, eqb_ℤ→eq, arith}
use gatemux.Common.Maps.{Eq}

instance abbrev pub string_eq : Eq String
string_eq = record { equals = str_eq; equals_iff = eq_iff }

pub record AliasTarget : Type 0 where
  pub deployment_name : String
  pub priority : ℤ
  pub weight : ℤ

pub data Capability : Type 0 where
  any_capability chat stream_chat embeddings responses : Capability

pub record Capabilities : Type 0 where
  pub chat : Bool
  pub stream_chat : Bool
  pub embeddings : Bool
  pub responses : Bool

-- `DeploymentCapabilities`: what an administrator set for the row.
pub record Override : Type 0 where
  pub chat : Bool
  pub stream_chat : Bool
  pub embeddings : Bool
  pub responses : Option Bool

pub record Deployment : Type 0 where
  pub name : String
  pub provider_type : String
  pub upstream_model : String
  pub credential_ref : String
  pub base_url : Option String
  pub region : Option String
  pub enabled : Bool
  pub max_parallel_requests : Option ℤ
  pub tags : List String
  pub capabilities : Option Override

-- A value of `StrategyOptions`, as far as the router looks at it: a text, a list whose elements are
-- texts or not, or something else.
pub data Value : Type 0 where
  string : String → Value
  array : List (Option String) → Value
  other : Value

pub record AliasMeta : Type 0 where
  pub cache_enabled : Bool
  pub cache_ttl_seconds : ℤ
  pub strategy : String
  pub strategy_options : Option (List (String × Value))

pub record ResolveContext : Type 0 where
  pub tags : List String
  pub region : String

pub record PricingKey : Type 0 where
  pub provider : String
  pub model : String

unfoldable pub pricing_equals : PricingKey → PricingKey → Bool
pricing_equals a b = str_eq a.provider b.provider && str_eq a.model b.model

pub pricing_equals_iff : (a b : PricingKey) → (pricing_equals a b ≡ true) ↔ (a ≡ b)
unfolding pricing_equals
pricing_equals_iff a b = ground (arith, eq_iff a.provider b.provider, eq_iff a.model b.model)

instance abbrev pub pricing_eq : Eq PricingKey
pricing_eq = record { equals = pricing_equals; equals_iff = pricing_equals_iff }

-- The key "alias|priority" of the round-robin counters, as its parts: the text after its last bar is
-- the number.
pub record RoundKey : Type 0 where
  pub alias : String
  pub priority : ℤ

pub round_equals : RoundKey → RoundKey → Bool
round_equals a b = str_eq a.alias b.alias && eqb_ℤ a.priority b.priority

pub round_equals_iff : (a b : RoundKey) → (round_equals a b ≡ true) ↔ (a ≡ b)
unfolding round_equals
round_equals_iff a b = ground (arith, eq_iff a.alias b.alias, eqb_ℤ→eq a.priority b.priority)

instance abbrev pub round_eq : Eq RoundKey
round_eq = record { equals = round_equals; equals_iff = round_equals_iff }
