-- ===== src/Cost/Tokens/Examples.antt =====
-- A charge and the estimate for it.
use gatemux.Common.{◌≡◌, refl, none, some, arith, pos, ◌≤ℤ◌, ok}
use gatemux.Cost.Tokens.{
  Usage, Pricing, cost_usage, cache_read, cache_write, settle_write, write_invalid, weighted_sum,
  is_int64, weighted_microcents, exceeds, total_cost, tier_cost, estimated_tier_cost,
}
use gatemux.Cost.Tokens.Exact.{Charge, IsMachine, cost_usage-Charge}
use gatemux.Cost.Tokens.Estimate.{cost_usage-le-estimated_tier_cost}

-- The cached share at a tenth, the hour's cache writes at double.
abbrev pub prices : Pricing
prices = record {
  tiers = record {
    cache_read = some (pos 30);
    cache_write = some (pos 375);
    cache_write1h = some (pos 600);
    reasoning = none;
  };
  input_per_million = pos 300;
  output_per_million = pos 1500;
}

abbrev pub usage : Usage
usage = record {
  prompt_tokens = pos 100;
  completion_tokens = pos 20;
  total_tokens = pos 120;
  cached_tokens = some (pos 40);
  reasoning_tokens = some (pos 5);
  cache_creation_input_tokens = pos 30;
  cache_read_input_tokens = pos 40;
  cache_creation = some (record { ephemeral5m = pos 10; ephemeral1h = pos 20 });
}

pub usage-IsMachine : IsMachine usage
usage-IsMachine = record {
  prompt = ground arith;
  completion = ground arith;
  short = λ x r. ground arith;
}

pub charged : cost_usage prices usage ≡ ok (pos 55950)
unfolding cost_usage cache_read cache_write settle_write write_invalid weighted_sum is_int64
    weighted_microcents exceeds total_cost tier_cost
charged = refl

pub estimated : estimated_tier_cost prices (pos 100) (pos 50) ≡ ok (pos 135000)
unfolding estimated_tier_cost cost_usage cache_read cache_write settle_write write_invalid
    weighted_sum is_int64 weighted_microcents exceeds total_cost tier_cost
estimated = refl

cost_usage-Charge_example : Charge prices usage (pos 55950)
cost_usage-Charge_example = cost_usage-Charge prices usage (pos 55950) usage-IsMachine charged

cost_usage-le-estimated_tier_cost_example : pos 55950 ≤ℤ pos 135000
cost_usage-le-estimated_tier_cost_example =
    cost_usage-le-estimated_tier_cost prices usage (pos 100) (pos 50) (pos 55950) (pos 135000)
      usage-IsMachine (ground arith) (ground arith) (omega arith) (omega arith) charged estimated
