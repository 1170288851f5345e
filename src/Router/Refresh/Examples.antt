-- ===== src/Router/Refresh/Examples.antt =====
-- A refresh while a deployment serves two requests, which lowers its limit.
use Prim.Native.String.{String}
use gatemux.Common.{◌≡◌, ◌⊎◌, refl, true, none, some, List, [], ◌∷◌, pos}
use gatemux.Common.Maps.{find}
use gatemux.Admission.Counter.{Counter}
use gatemux.Router.Types.{string_eq, Deployment}
use gatemux.Router.Refresh.{limit_of, refresh_limits, by_name}
use gatemux.Router.Refresh.Limits.{in_flight_of, refresh_limits-exact}

abbrev busy : Deployment
busy = record {
  name = "a";
  provider_type = "openai";
  upstream_model = "m";
  credential_ref = "KEY";
  base_url = none;
  region = none;
  enabled = true;
  max_parallel_requests = some (pos 1);
  tags = [];
  capabilities = none;
}

abbrev limits : List (String × Counter)
limits = ("a", record { limit = pos 4; in_flight = pos 2 }) ∷ []

refresh_limits-exact_example :
    (in_flight_of (find "a" (refresh_limits (by_name (busy ∷ []) []) limits))
      ≡ in_flight_of (find "a" limits))
    × ((find "a" (by_name (busy ∷ []) []) ≡ none)
        ⊎ ((d : Deployment) × (c : Counter) × (find "a" (by_name (busy ∷ []) []) ≡ some d)
            × (find "a" (refresh_limits (by_name (busy ∷ []) []) limits) ≡ some c)
            × (c.limit ≡ limit_of d)))
unfolding find
refresh_limits-exact_example = refresh_limits-exact (busy ∷ []) limits "a" (refl, tt)
