-- ===== src/Cost/Tokens/Exact.antt =====
-- `CostUsage` of internal/budget/token_cost.go as a sum over shares of the tokens.
use gatemux.Common.{
  ℕ, ◌+◌, ◌-◌, ◌*◌, ◌≤◌, ◌≡◌, refl, ap, ◌∙◌, false, Bool-cases, inl, inr, Option, none, some, List,
  [], ◌∷◌, All, arith, if◌then◌else◌, ℤ, pos, negsuc, pos_part, ◌+ℤ◌, ◌-ℤ◌, ◌*ℤ◌, ◌≤ℤ◌, ltb_ℤ,
  max_int64, IsInt64, wrap64, ok, err, >>=-ok, eqb_ℤ→eq, Result-cases,
}
use gatemux.Cost.Tokens.{
  CacheCreation, Usage, Pricing, Tier, Write, tier_rate, cache_write, settle_write, write_invalid,
  weighted_sum, is_int64, weighted_microcents, total_cost, tier_cost, exceeds, cost_usage,
  cost_overflow, cache_read,
}

-- Σ count × rate
abbrev pub dot : List Tier → ℕ
dot [] = 0
dot (t ∷ ts) = pos_part t.count * pos_part t.rate + dot ts

abbrev pub NonNegative : Tier → Type 0
NonNegative t = (pos 0 ≤ℤ t.count) × (pos 0 ≤ℤ t.rate)

accumulate : (s c r : ℕ) → pos s +ℤ pos c *ℤ pos r ≡ pos (s + c * r)
accumulate s c r = ground arith

weighted_cons :
    (c r : ℤ) (ts : List Tier) (s : ℕ) (z : ℤ)
    → ((s' : ℕ) → weighted_sum ts (pos s') ≡ ok z → All NonNegative ts × (z ≡ pos (s' + dot ts)))
    → weighted_sum (record { count = c; rate = r } ∷ ts) (pos s) ≡ ok z
    → (pos 0 ≤ℤ c)
      × (pos 0 ≤ℤ r)
      × All NonNegative ts
      × (z ≡ pos (s + (pos_part c * pos_part r + dot ts)))
unfolding weighted_sum
weighted_cons (pos c) (pos r) ts s z ih h =
    let (n, e) = ih (s + c * r) (ground (arith, accumulate s c r)) in
    (omega arith, omega arith, n, ground arith)
weighted_cons (pos c) (negsuc r) ts s z ih h = absurd (ground arith)
weighted_cons (negsuc c) r ts s z ih h = absurd (ground arith)

weighted_sum_lem :
    (ts : List Tier) (s : ℕ) (z : ℤ)
    → weighted_sum ts (pos s) ≡ ok z
    → All NonNegative ts × (z ≡ pos (s + dot ts))
unfolding weighted_sum
weighted_sum_lem [] s z h = (tt, ground arith)
weighted_sum_lem (t ∷ ts) s z h =
    let (c, r, n, e) = weighted_cons t.count t.rate ts s z (λ s' k. weighted_sum_lem ts s' z k) h in
    (((c, r), n), e)

sub64 :
    (a b : ℤ) → pos 0 ≤ℤ b → b ≤ℤ a → IsInt64 a → wrap64 (a -ℤ b) ≡ pos (pos_part a - pos_part b)
sub64 a b h k m = ground arith

sub_max : (b : ℕ) → b ≤ max_int64 → wrap64 (pos max_int64 -ℤ pos b) ≡ pos (max_int64 - b)
sub_max b h = ground arith

sum_fits :
    (hour short : ℤ)
    → IsInt64 short
    → write_invalid hour short ≡ false
    → (pos 0 ≤ℤ hour) × (pos 0 ≤ℤ short) × (pos_part hour + pos_part short ≤ max_int64)
unfolding write_invalid
sum_fits (pos a) (pos b) m h = ground (arith, sub_max b)
sum_fits (pos a) (negsuc b) m h = absurd (ground arith)
sum_fits (negsuc a) b m h = absurd (ground arith)

add64 :
    (a b : ℤ)
    → (pos 0 ≤ℤ a) × (pos 0 ≤ℤ b) × (pos_part a + pos_part b ≤ max_int64)
    → wrap64 (a +ℤ b) ≡ pos (pos_part a + pos_part b)
add64 a b h = ground arith

settle_write_lem :
    (w hour both : ℤ) (x : Write)
    → pos 0 ≤ℤ hour
    → hour ≤ℤ both
    → settle_write w hour both ≡ ok x
    → (pos 0 ≤ℤ x.hour) × (x.hour ≤ℤ x.all)
unfolding settle_write
settle_write_lem w hour both x h k e = ground (arith, eqb_ℤ→eq w both)

cache_write_lem :
    (o : Option CacheCreation) (w : ℤ) (x : Write)
    → pos 0 ≤ℤ w
    → ((c : CacheCreation) → o ≡ some c → IsInt64 c.ephemeral5m)
    → cache_write o w ≡ ok x
    → (pos 0 ≤ℤ x.hour) × (x.hour ≤ℤ x.all)
unfolding cache_write
cache_write_lem none w x n m h = ground arith
cache_write_lem (some c) w x n m h = elim (Bool-cases (write_invalid c.ephemeral1h c.ephemeral5m)) [
  | inl bad ↦ absurd (cc)
  | inr fine ↦
      let f = sum_fits c.ephemeral1h c.ephemeral5m (m c refl) fine in
      let e = add64 c.ephemeral1h c.ephemeral5m f in
      settle_write_lem w c.ephemeral1h (wrap64 (c.ephemeral1h +ℤ c.ephemeral5m)) x f.0
        (rw e (omega arith)) (rw (fine) at h)
]

-- The details that passed the check: naturals, within the totals.
record Within (u : Usage) (read write reasoning : ℤ) : Type 0 where
  prompt : pos 0 ≤ℤ u.prompt_tokens
  completion : pos 0 ≤ℤ u.completion_tokens
  read_counts : pos 0 ≤ℤ read
  write_counts : pos 0 ≤ℤ write
  input_fits : pos_part read + pos_part write ≤ pos_part u.prompt_tokens
  reasoning_counts : pos 0 ≤ℤ reasoning
  output_fits : pos_part reasoning ≤ pos_part u.completion_tokens

input_room :
    (prompt read write : ℤ)
    → IsInt64 prompt
    → pos 0 ≤ℤ read
    → pos 0 ≤ℤ write
    → read ≤ℤ prompt
    → ltb_ℤ (wrap64 (prompt -ℤ read)) write ≡ false
    → pos_part read + pos_part write ≤ pos_part prompt
input_room prompt read write m r w k h =
    let h' = rw (sub64 prompt read r k m) at h in ground (arith, h')

exceeds_lem :
    (u : Usage) (read write reasoning : ℤ)
    → IsInt64 u.prompt_tokens
    → exceeds u read write reasoning ≡ false
    → Within u read write reasoning
unfolding exceeds
exceeds_lem u read write reasoning m h = ground (arith, input_room u.prompt_tokens read write m)

weighted_lem :
    (ts : List Tier) (z : ℤ)
    → weighted_microcents ts ≡ ok z
    → All NonNegative ts × (z ≡ pos (dot ts)) × (dot ts ≤ max_int64)
unfolding weighted_microcents is_int64
weighted_lem ts z h =
    let (sum, e, h') =
      >>=-ok (weighted_sum ts (pos 0)) (λ sum. if is_int64 sum then ok sum else err cost_overflow)
        h in
    let (n, v) = weighted_sum_lem ts 0 sum e in (n, ground arith, ground arith)

total_lem :
    (a b : ℕ) (c : ℤ)
    → b ≤ max_int64
    → total_cost (pos a) (pos b) ≡ ok c
    → (c ≡ pos (a + b)) × (a + b ≤ max_int64)
unfolding total_cost
total_lem a b c m h = ground (arith, sub_max b m, add64 (pos a) (pos b))

abbrev pub hour_rate : Pricing → ℤ
hour_rate p = tier_rate p.tiers.cache_write1h (tier_rate p.tiers.cache_write p.input_per_million)

abbrev pub rates : Pricing → List ℤ
rates p =
    p.input_per_million
    ∷ tier_rate p.tiers.cache_read p.input_per_million
    ∷ tier_rate p.tiers.cache_write p.input_per_million
    ∷ hour_rate p
    ∷ p.output_per_million
    ∷ tier_rate p.tiers.reasoning p.output_per_million
    ∷ []

-- The charge of six shares at their six rates.
abbrev pub charge_of : Pricing → ℕ → ℕ → ℕ → ℕ → ℕ → ℕ → ℕ
charge_of p plain read short hour text reasoning =
    plain * pos_part p.input_per_million
    + read * pos_part (tier_rate p.tiers.cache_read p.input_per_million)
    + short * pos_part (tier_rate p.tiers.cache_write p.input_per_million)
    + hour * pos_part (hour_rate p)
    + text * pos_part p.output_per_million
    + reasoning * pos_part (tier_rate p.tiers.reasoning p.output_per_million)

-- One charge: every input token in one of four shares, every output token in one of two.
pub record Charge (p : Pricing) (u : Usage) (c : ℤ) : Type 0 where
  pub plain : ℕ
  pub read : ℕ
  pub short : ℕ
  pub hour : ℕ
  pub text : ℕ
  pub reasoning : ℕ
  pub input_total : u.prompt_tokens ≡ pos (plain + read + short + hour)
  pub output_total : u.completion_tokens ≡ pos (text + reasoning)
  pub read_reported : cache_read u.cached_tokens u.cache_read_input_tokens ≡ ok (pos read)
  pub write_reported :
      cache_write u.cache_creation u.cache_creation_input_tokens
      ≡ ok (record { all = pos (short + hour); hour = pos hour })
  pub reasoning_reported : tier_rate u.reasoning_tokens (pos 0) ≡ pos reasoning
  pub rates_valid : All (λ r. pos 0 ≤ℤ r) (rates p)
  pub cost : c ≡ pos (charge_of p plain read short hour text reasoning)
  pub fits : pos_part c ≤ max_int64

plain_count :
    (plain read short hour : ℕ)
    → plain + read + short + hour ≤ max_int64
    → wrap64 (wrap64 (pos (plain + read + short + hour) -ℤ pos read) -ℤ pos (short + hour))
      ≡ pos plain
plain_count plain read short hour m =
    rw
      (sub64 (pos (plain + read + short + hour)) (pos read) (omega arith) (omega arith)
        (ground arith))
      (ground arith)

less_count : (a b : ℕ) → a + b ≤ max_int64 → wrap64 (pos (a + b) -ℤ pos b) ≡ pos a
less_count a b m = ground arith

tier_cost_lem :
    (p : Pricing) (plain read short hour text reasoning : ℕ) (c : ℤ)
    → plain + read + short + hour ≤ max_int64
    → text + reasoning ≤ max_int64
    → tier_cost p
        (pos (plain + read + short + hour))
        (pos (text + reasoning))
        (pos read)
        (pos (short + hour))
        (pos hour)
        (pos reasoning)
      ≡ ok c
    → All (λ r. pos 0 ≤ℤ r) (rates p)
      × (c ≡ pos (charge_of p plain read short hour text reasoning))
      × (pos_part c ≤ max_int64)
unfolding tier_cost
tier_cost_lem p plain read short hour text reasoning c m n h =
    let k =
      rw
        (
          plain_count plain read short hour m,
          less_count short hour (omega arith),
          less_count text reasoning n,
        )
        at h in
    let (input, e1, h1) = >>=-ok _ _ k in
    let (output, e2, h2) = >>=-ok _ _ h1 in
    let (n1, v1, l1) = weighted_lem _ input e1 in
    let (n2, v2, l2) = weighted_lem _ output e2 in
    let (v, l) = total_lem _ _ c l2 (rw (v1, v2) at h2) in
    let valid : All (λ r. pos 0 ≤ℤ r) (rates p) =
      (n1.0.1, (n1.1.0.1, (n1.1.1.0.1, (n1.1.1.1.0.1, (n2.0.1, (n2.1.0.1, tt)))))) in
    (valid, v ∙ ap pos (omega arith), rw v l)

-- The int values of a usage that Go's types give.
pub record IsMachine (u : Usage) : Type 0 where
  pub prompt : IsInt64 u.prompt_tokens
  pub completion : IsInt64 u.completion_tokens
  pub short : (c : CacheCreation) → u.cache_creation ≡ some c → IsInt64 c.ephemeral5m

natural : (z : ℤ) (n : ℕ) → pos 0 ≤ℤ z → pos_part z ≡ n → z ≡ pos n
natural z n h e = ground arith

pub parts_le : (a b : ℤ) → a ≤ℤ b → pos_part a ≤ pos_part b
parts_le a b h = ground arith

Charge-split :
    (p : Pricing) (u : Usage) (read all hour reasoning c : ℤ)
    → IsMachine u
    → Within u read all reasoning
    → (pos 0 ≤ℤ hour) × (hour ≤ℤ all)
    → cache_read u.cached_tokens u.cache_read_input_tokens ≡ ok read
    → cache_write u.cache_creation u.cache_creation_input_tokens
      ≡ ok (record { all = all; hour = hour })
    → tier_rate u.reasoning_tokens (pos 0) ≡ reasoning
    → tier_cost p u.prompt_tokens u.completion_tokens read all hour reasoning ≡ ok c
    → Charge p u c
Charge-split p u read all hour reasoning c m w h er ew es e =
    let within = parts_le hour all h.1 in
    let plain = pos_part u.prompt_tokens - (pos_part read + pos_part all) in
    let short = pos_part all - pos_part hour in
    let text = pos_part u.completion_tokens - pos_part reasoning in
    let ea : all ≡ pos (short + pos_part hour) = natural all _ w.write_counts (omega arith) in
    let eh : hour ≡ pos (pos_part hour) = natural hour _ h.0 refl in
    let ei : u.prompt_tokens ≡ pos (plain + pos_part read + short + pos_part hour) =
      natural u.prompt_tokens _ w.prompt (omega arith) in
    let eo : u.completion_tokens ≡ pos (text + pos_part reasoning) =
      natural u.completion_tokens _ w.completion (omega arith) in
    let eread : read ≡ pos (pos_part read) = natural read _ w.read_counts refl in
    let ereas : reasoning ≡ pos (pos_part reasoning) =
      natural reasoning _ w.reasoning_counts refl in
    let k : tier_cost p (pos (plain + pos_part read + short + pos_part hour))
          (pos (text + pos_part reasoning)) (pos (pos_part read)) (pos (short + pos_part hour))
          (pos (pos_part hour)) (pos (pos_part reasoning))
        ≡ ok c =
      cc in
    let t =
      tier_cost_lem p plain (pos_part read) short (pos_part hour) text (pos_part reasoning) c
        (omega arith) (omega arith) k in
    record {
      plain = plain;
      read = pos_part read;
      short = short;
      hour = pos_part hour;
      text = text;
      reasoning = pos_part reasoning;
      input_total = ei;
      output_total = eo;
      read_reported = cc;
      write_reported = cc;
      reasoning_reported = cc;
      rates_valid = t.0;
      cost = t.1;
      fits = t.2;
    }

-- A charge that `CostUsage` returns is the exact sum over disjoint shares that make up both totals,
-- each at its own rate, and it fits in an int64.
pub cost_usage-Charge :
    (p : Pricing) (u : Usage) (c : ℤ) → IsMachine u → cost_usage p u ≡ ok c → Charge p u c
unfolding cost_usage
cost_usage-Charge p u c m h =
    elim (Result-cases (cache_read u.cached_tokens u.cache_read_input_tokens)) [
      | inr (e, bad) ↦ absurd (ground arith)
      | inl (read, er) ↦
          elim (Result-cases (cache_write u.cache_creation u.cache_creation_input_tokens)) [
            | inr (e, bad) ↦ absurd (ground arith)
            | inl (write, ew) ↦
                let reasoning = tier_rate u.reasoning_tokens (pos 0) in
                let w = exceeds_lem u read write.all reasoning m.prompt (ground arith) in
                let order : (pos 0 ≤ℤ write.hour) × (write.hour ≤ℤ write.all) =
                  cache_write_lem u.cache_creation u.cache_creation_input_tokens write
                    (ground arith) m.short ew in
                Charge-split p u read write.all write.hour reasoning c m w order er ew refl
                  (ground arith)
          ]
    ]
