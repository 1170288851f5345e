-- ===== src/Cost/Tokens/Estimate.antt =====
-- `estimatedTierCost` of internal/budget/token_cost.go against `CostUsage`.
use gatemux.Common.{
  ℕ, ◌+◌, ◌*◌, ◌≤◌, ◌≡◌, ap, Option, none, some, arith, ℤ, pos, pos_part, ◌≤ℤ◌, max_ℤ, ◌∙◌, IsInt64,
  ok,
}
use gatemux.Cost.Tokens.{
  Usage, Pricing, tier_rate, cache_read, cache_write, cost_usage, estimated_pricing, raise,
  plain_usage, estimated_tier_cost,
}
use gatemux.Cost.Tokens.Exact.{Charge, IsMachine, cost_usage-Charge, parts_le}

raise_bounds :
    (x : ℤ) (a b c : Option ℤ)
    → let top = raise (raise (raise x a) b) c in
      (pos_part x ≤ pos_part top)
      × (pos_part (tier_rate a x) ≤ pos_part top)
      × (pos_part (tier_rate b x) ≤ pos_part top)
      × (pos_part (tier_rate c (tier_rate b x)) ≤ pos_part top)
raise_bounds x a b c = ground arith

reasoning_bounds :
    (x : ℤ) (o : Option ℤ)
    → (pos_part x ≤ pos_part (max_ℤ x (tier_rate o x)))
      × (pos_part (tier_rate o x) ≤ pos_part (max_ℤ x (tier_rate o x)))
reasoning_bounds x o = ground arith

none-ne-some : {A : Type 0} {a : A} → ◌≡◌ {A = Option A} none (some a) → ⊥
none-ne-some r = cc

-- Shares charged at rates up to `top` cost at most the whole at `top`.
share_le : (n r top : ℕ) → r ≤ top → n * r ≤ n * top
share_le n r top h = grind arith

abbrev plain_value : Pricing → ℤ → ℤ → ℕ
plain_value p prompt completion =
    pos_part prompt * pos_part p.input_per_million
    + pos_part completion * pos_part p.output_per_million

-- With no details a charge has two shares: all of the input and all of the output.
plain-Charge :
    (p : Pricing) (prompt completion e : ℤ)
    → Charge p (plain_usage prompt completion) e
    → e ≡ pos (plain_value p prompt completion)
unfolding cache_read cache_write
plain-Charge p prompt completion e c =
    let no_read : c.read ≡ 0 = ground (arith, c.read_reported) in
    let no_hour : c.hour ≡ 0 = ground (arith, c.write_reported) in
    let no_short : c.short ≡ 0 = ground (arith, c.write_reported) in
    let no_reasoning : c.reasoning ≡ 0 = ground (arith, c.reasoning_reported) in
    let input : pos_part prompt ≡ c.plain = ground (arith, c.input_total) in
    let output : pos_part completion ≡ c.text = ground (arith, c.output_total) in
    c.cost ∙ ap pos (rw (no_read, no_hour, no_short, no_reasoning, input, output) (omega arith))

Charge-le :
    (p : Pricing) (u : Usage) (c : ℤ)
    → Charge p u c
    → pos_part c ≤ plain_value (estimated_pricing p) u.prompt_tokens u.completion_tokens
Charge-le p u c s =
    let t = p.tiers in
    let (r1, r2, r3, r4) =
      raise_bounds p.input_per_million t.cache_read t.cache_write t.cache_write1h in
    let (r5, r6) = reasoning_bounds p.output_per_million t.reasoning in
    rw (ap pos_part s.cost, ap pos_part s.input_total, ap pos_part s.output_total)
      (omega (
        arith,
        share_le s.plain _ _ r1,
        share_le s.read _ _ r2,
        share_le s.short _ _ r3,
        share_le s.hour _ _ r4,
        share_le s.text _ _ r5,
        share_le s.reasoning _ _ r6,
      ))

plain_value_mono :
    (p : Pricing) (a b prompt completion : ℤ)
    → pos_part a ≤ pos_part prompt
    → pos_part b ≤ pos_part completion
    → plain_value p a b ≤ plain_value p prompt completion
plain_value_mono p a b prompt completion h k = grind arith

-- Whatever split into cached, cache-written, plain and reasoning tokens a provider reports, a charge
-- is at most the estimate of totals that are at least the reported ones.
pub cost_usage-le-estimated_tier_cost :
    (p : Pricing) (u : Usage) (prompt completion c e : ℤ)
    → IsMachine u
    → IsInt64 prompt
    → IsInt64 completion
    → u.prompt_tokens ≤ℤ prompt
    → u.completion_tokens ≤ℤ completion
    → cost_usage p u ≡ ok c
    → estimated_tier_cost p prompt completion ≡ ok e
    → c ≤ℤ e
unfolding estimated_tier_cost
cost_usage-le-estimated_tier_cost p u prompt completion c e m mp mc lp lc h k =
    let q : IsMachine (plain_usage prompt completion) = record {
      prompt = mp;
      completion = mc;
      short = λ x r. absurd (none-ne-some r);
    } in
    let value =
      plain-Charge (estimated_pricing p) prompt completion e
        (cost_usage-Charge (estimated_pricing p) (plain_usage prompt completion) e q k) in
    let s = cost_usage-Charge p u c m h in
    let bound = Charge-le p u c s in
    let mono =
      plain_value_mono (estimated_pricing p) u.prompt_tokens u.completion_tokens prompt completion
        (parts_le u.prompt_tokens prompt lp) (parts_le u.completion_tokens completion lc) in
    rw (s.cost, value) (ground (arith, bound, mono, s.cost))
