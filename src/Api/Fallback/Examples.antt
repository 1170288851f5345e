-- ===== src/Api/Fallback/Examples.antt =====
-- A chat request whose first upstream is overloaded, for the loops of internal/api/v1.go.
use Prim.Native.String.{String}
use gatemux.Common.{
  ℕ, zero, suc, ◌+◌, some, ◌≡◌, refl, true, false, none, List, [], ◌∷◌, pos, arith,
}
use gatemux.Common.Maps.{find}
use gatemux.Router.Types.{AliasTarget, AliasMeta, Capabilities, Deployment, ResolveContext}
use gatemux.Router.Breaker.{UpstreamFailure, no_error, status}
use gatemux.Router.Select.{Registry}
use gatemux.Api.Fallback.{
  chat_kind, admitted, Round, call_error, on_error, call_upstream, continues, no_locals,
  run_with_fallback,
}
use gatemux.Api.Fallback.Ends.{called, IsFinal, IsDistinct, run_with_fallback-IsFinal}
use gatemux.Api.Fallback.History.{Leads}
use gatemux.Api.Fallback.Answers.{run_with_fallback-Leads}

abbrev able : Capabilities
able = record { chat = true; stream_chat = true; embeddings = false; responses = false }

abbrev deployment : String → Deployment
deployment name = record {
  name = name;
  provider_type = "openai";
  upstream_model = name;
  credential_ref = "";
  base_url = none;
  region = none;
  enabled = true;
  max_parallel_requests = none;
  tags = [];
  capabilities = none;
}

abbrev targets : List AliasTarget
targets =
    record { deployment_name = "first"; priority = pos 0; weight = pos 1 }
    ∷ record { deployment_name = "second"; priority = pos 1; weight = pos 1 }
    ∷ []

abbrev no_strategy : AliasMeta
no_strategy = record {
  cache_enabled = false;
  cache_ttl_seconds = pos 0;
  strategy = "";
  strategy_options = none;
}

abbrev registry : Registry
registry = record {
  aliases = ("gpt", targets) ∷ [];
  alias_meta = ("gpt", no_strategy) ∷ [];
  deployments = ("first", deployment "first") ∷ ("second", deployment "second") ∷ [];
  identities = [];
  providers = ("first", able) ∷ ("second", able) ∷ [];
  pricing = [];
  rr = [];
  breakers = [];
  deployment_limits = [];
}

-- The upstream of the first deployment answers 503 in the first round, and all answer later.
abbrev upstream_at : ℕ → String → UpstreamFailure
upstream_at zero name = status (pos 503)
upstream_at (suc n) name = no_error

abbrev rounds : ℕ → Round
rounds n = record {
  registry = registry;
  now = 1000 + n;
  given_up_before = false;
  capacity = λ name. admitted;
  upstream = upstream_at n;
  given_up_after = false;
}

abbrev no_environment : String → String
no_environment name = ""

abbrev plain : ResolveContext
plain = record { tags = []; region = "" }

-- The first call is to be retried, and the second one answers.
first_retries :
    call_upstream chat_kind (rounds 0) "first" (no_locals no_environment chat_kind "gpt" plain) ≡ (
      continues (record {
        tried = [];
        last_error = some (call_error (status (pos 503)));
        any_saturated = false;
      }),
      on_error "first" (status (pos 503)),
    )
unfolding call_upstream
first_retries = refl

run_with_fallback-IsFinal_example :
    let (o, log) = run_with_fallback no_environment chat_kind "gpt" plain 3 rounds in
    IsFinal o × IsDistinct (called log)
unfolding find
run_with_fallback-IsFinal_example =
    run_with_fallback-IsFinal no_environment chat_kind "gpt" plain targets 3 rounds (λ n. refl)
      (omega arith)

run_with_fallback-Leads_example :
    let (o, log) = run_with_fallback no_environment chat_kind "gpt" plain 3 rounds in
    Leads no_environment chat_kind "gpt" plain rounds 3 o log
run_with_fallback-Leads_example =
    run_with_fallback-Leads no_environment chat_kind "gpt" plain rounds 3
