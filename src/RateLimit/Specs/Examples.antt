-- ===== src/RateLimit/Specs/Examples.antt =====
-- The limits of a check that names a team and a key.
use gatemux.Common.{none, some, All, arith, pos}
use gatemux.RateLimit.Specs.{Check, build_specs}
use gatemux.RateLimit.Specs.Distinct.{IsMachine, build_specs-IsDistinct}
use gatemux.RateLimit.Memory.Admit.{IsDistinct}
use gatemux.RateLimit.Memory.Exact.{IsValidSpec}

abbrev team_and_key : Check
team_and_key = record {
  team_limits = some (record {
    id = pos 7;
    team_id = pos 7;
    rpm_limit = some (pos 60);
    tpm_limit = some (pos 900);
  });
  key_limits =
      some (record { id = pos 7; team_id = pos 7; rpm_limit = some (pos 6); tpm_limit = none });
  customer_limits = none;
  tokens = pos 12;
}

team_and_key-IsMachine : IsMachine team_and_key
team_and_key-IsMachine = record {
  team_ints = ground arith;
  key_ints = ground arith;
  customer_ints = tt;
  tokens_int = ground arith;
}

build_specs-IsDistinct_example :
    IsDistinct (build_specs team_and_key 70000000000)
    × All IsValidSpec (build_specs team_and_key 70000000000)
build_specs-IsDistinct_example =
    build_specs-IsDistinct team_and_key 70000000000 team_and_key-IsMachine
