-- ===== src/Cost/Tokens.antt =====
-- internal/budget/token_cost.go over the usage of internal/providers/provider.go: what a call costs,
-- and the estimate that admission reserves. Token counts are Go's int, rates int64.
pub mod Exact
pub mod Estimate
pub mod Examples
use gatemux.Common.{
  ℕ, Bool, ◌&&◌, ◌||◌, not, Option, none, some, List, [], ◌∷◌, if◌then◌else◌, ℤ, pos, ◌+ℤ◌, ◌-ℤ◌,
  ◌*ℤ◌, ltb_ℤ, leb_ℤ, eqb_ℤ, max_ℤ, max_int64, min_int64, wrap64, Result, ok, err, ◌>>=◌, ◌>>◌,
  reject_if,
}

pub record CacheCreation : Type 0 where
  pub ephemeral5m : ℤ
  pub ephemeral1h : ℤ

pub record Usage : Type 0 where
  pub prompt_tokens : ℤ
  pub completion_tokens : ℤ
  pub total_tokens : ℤ
  pub cached_tokens : Option ℤ  -- prompt_tokens_details
  pub reasoning_tokens : Option ℤ  -- completion_tokens_details
  pub cache_creation_input_tokens : ℤ
  pub cache_read_input_tokens : ℤ
  pub cache_creation : Option CacheCreation

pub record PricingTiers : Type 0 where
  pub cache_read : Option ℤ
  pub cache_write : Option ℤ
  pub cache_write1h : Option ℤ
  pub reasoning : Option ℤ

pub record Pricing : Type 0 where
  pub tiers : PricingTiers
  pub input_per_million : ℤ
  pub output_per_million : ℤ

pub data CostError : Type 0 where
  negative_cache inconsistent_cached invalid_cache_write inconsistent_cache_write : CostError
  details_exceed_totals negative_count_or_rate cost_overflow : CostError

abbrev pub tier_rate : Option ℤ → ℤ → ℤ
tier_rate none fallback = fallback
tier_rate (some override) fallback = override

-- The cached share of the input: both reports of it, which must agree.
pub cache_read : Option ℤ → ℤ → Result CostError ℤ
cache_read none read = ok read
cache_read (some cached) read = do
  reject_if
      (ltb_ℤ cached (pos 0)
        || (ltb_ℤ (pos 0) read && (ltb_ℤ (pos 0) cached && not (eqb_ℤ cached read))))
      inconsistent_cached
  ok (max_ℤ read cached)

pub record Write : Type 0 where
  pub all : ℤ
  pub hour : ℤ

write_invalid : ℤ → ℤ → Bool
write_invalid hour short =
    ltb_ℤ hour (pos 0) || (ltb_ℤ short (pos 0) || ltb_ℤ (wrap64 (pos max_int64 -ℤ short)) hour)

settle_write : ℤ → ℤ → ℤ → Result CostError Write
settle_write write hour both =
    if eqb_ℤ write (pos 0)
    then ok (record { all = both; hour = hour })
    else if eqb_ℤ write both
    then ok (record { all = write; hour = hour })
    else err inconsistent_cache_write

-- The cache writes, and the part of them that is kept for an hour.
pub cache_write : Option CacheCreation → ℤ → Result CostError Write
cache_write none write = ok (record { all = write; hour = pos 0 })
cache_write (some c) write =
    if write_invalid c.ephemeral1h c.ephemeral5m
    then err invalid_cache_write
    else settle_write write c.ephemeral1h (wrap64 (c.ephemeral1h +ℤ c.ephemeral5m))

pub record Tier : Type 0 where
  pub count : ℤ
  pub rate : ℤ

-- The loop of `weightedMicrocents`; its sum is a big.Int.
weighted_sum : List Tier → ℤ → Result CostError ℤ
weighted_sum [] sum = ok sum
weighted_sum (t ∷ ts) sum =
    let rest = weighted_sum ts (sum +ℤ t.count *ℤ t.rate) in
    if ltb_ℤ t.count (pos 0) || ltb_ℤ t.rate (pos 0) then err negative_count_or_rate else rest

-- `IsInt64` of a big.Int
is_int64 : ℤ → Bool
is_int64 z = leb_ℤ min_int64 z && leb_ℤ z (pos max_int64)

weighted_microcents : List Tier → Result CostError ℤ
weighted_microcents ts = do
  sum ← weighted_sum ts (pos 0)
  if is_int64 sum then ok sum else err cost_overflow

-- The test that details do not exceed totals.
exceeds : Usage → ℤ → ℤ → ℤ → Bool
exceeds u read write reasoning =
    ltb_ℤ u.prompt_tokens (pos 0)
    || (ltb_ℤ u.completion_tokens (pos 0)
        || (ltb_ℤ read (pos 0)
            || (ltb_ℤ write (pos 0)
                || (ltb_ℤ u.prompt_tokens read
                    || (ltb_ℤ (wrap64 (u.prompt_tokens -ℤ read)) write
                        || (ltb_ℤ reasoning (pos 0) || ltb_ℤ u.completion_tokens reasoning))))))

abbrev pub input_tiers : Pricing → ℤ → ℤ → ℤ → ℤ → List Tier
input_tiers p prompt read write hour =
    record { count = wrap64 (wrap64 (prompt -ℤ read) -ℤ write); rate = p.input_per_million }
    ∷ record { count = read; rate = tier_rate p.tiers.cache_read p.input_per_million }
    ∷ record {
      count = wrap64 (write -ℤ hour);
      rate = tier_rate p.tiers.cache_write p.input_per_million;
    }
    ∷ record {
      count = hour;
      rate = tier_rate p.tiers.cache_write1h (tier_rate p.tiers.cache_write p.input_per_million);
    }
    ∷ []

abbrev pub output_tiers : Pricing → ℤ → ℤ → List Tier
output_tiers p completion reasoning =
    record { count = wrap64 (completion -ℤ reasoning); rate = p.output_per_million }
    ∷ record { count = reasoning; rate = tier_rate p.tiers.reasoning p.output_per_million }
    ∷ []

-- What both sums come to.
total_cost : ℤ → ℤ → Result CostError ℤ
total_cost input output =
    if ltb_ℤ (wrap64 (pos max_int64 -ℤ output)) input
    then err cost_overflow
    else ok (wrap64 (input +ℤ output))

-- `CostUsage` past its checks.
tier_cost : Pricing → ℤ → ℤ → ℤ → ℤ → ℤ → ℤ → Result CostError ℤ
tier_cost p prompt completion read write hour reasoning = do
  input ← weighted_microcents (input_tiers p prompt read write hour)
  output ← weighted_microcents (output_tiers p completion reasoning)
  total_cost input output

pub cost_usage : Pricing → Usage → Result CostError ℤ
cost_usage p u = do
  reject_if (ltb_ℤ u.cache_read_input_tokens (pos 0) || ltb_ℤ u.cache_creation_input_tokens (pos 0))
      negative_cache
  read ← cache_read u.cached_tokens u.cache_read_input_tokens
  write ← cache_write u.cache_creation u.cache_creation_input_tokens
  let reasoning = tier_rate u.reasoning_tokens (pos 0)
  reject_if (exceeds u read write.all reasoning) details_exceed_totals
  tier_cost p u.prompt_tokens u.completion_tokens read write.all write.hour reasoning

-- The loop over the three input overrides.
abbrev raise : ℤ → Option ℤ → ℤ
raise rate none = rate
raise rate (some r) = max_ℤ rate r

abbrev pub estimated_pricing : Pricing → Pricing
estimated_pricing p = record p {
  input_per_million =
      raise (raise (raise p.input_per_million p.tiers.cache_read) p.tiers.cache_write)
        p.tiers.cache_write1h;
  output_per_million =
      max_ℤ p.output_per_million (tier_rate p.tiers.reasoning p.output_per_million);
}

abbrev plain_usage : ℤ → ℤ → Usage
plain_usage prompt completion = record {
  prompt_tokens = prompt;
  completion_tokens = completion;
  total_tokens = pos 0;
  cached_tokens = none;
  reasoning_tokens = none;
  cache_creation_input_tokens = pos 0;
  cache_read_input_tokens = pos 0;
  cache_creation = none;
}

pub estimated_tier_cost : Pricing → ℤ → ℤ → Result CostError ℤ
estimated_tier_cost p prompt completion =
    cost_usage (estimated_pricing p) (plain_usage prompt completion)
