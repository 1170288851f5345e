-- ===== src/RateLimit/Specs/Distinct.antt =====
-- The list that `buildSpecs` of internal/ratelimit/limiter.go builds: counters, limits and increments.
use gatemux.Common.{
  ℕ, ◌≡◌, ◌≢◌, ap, sym, ◌∙◌, inl, inr, Bool-cases, Option, none, some, List, [], ◌∷◌, ◌++◌, All,
  All-append, All-map2, arith, ℤ, pos, ltb_ℤ, IsInt64,
}
use gatemux.RateLimit.Specs.{
  Scope, Metric, team, key, customer, rpm, tpm, LimitSpec, Limits, Check, request_spec, token_spec,
  scope_specs, known_customer, window_start, build_specs,
}
use gatemux.RateLimit.Memory.Admit.{IsDistinct}
use gatemux.RateLimit.Memory.Exact.{IsValidSpec}

abbrev IsInt : Option ℤ → Type 0
IsInt none = Unit
IsInt (some z) = IsInt64 z

abbrev HasInts : Option Limits → Type 0
HasInts none = Unit
HasInts (some l) = IsInt l.rpm_limit × IsInt l.tpm_limit

-- The numbers of a check are Go ints.
pub record IsMachine (c : Check) : Type 0 where
  pub team_ints : HasInts c.team_limits
  pub key_ints : HasInts c.key_limits
  pub customer_ints : HasInts c.customer_limits
  pub tokens_int : IsInt64 c.tokens

rpm-ne-tpm : rpm ≢ tpm
rpm-ne-tpm h = cc

module _ (s : Scope) (id : ℤ) (bucket : ℕ) where
  request_spec-valid :
      (limit : Option ℤ) → IsInt limit → All IsValidSpec (request_spec s id bucket limit)
  unfolding request_spec
  request_spec-valid none h = tt
  request_spec-valid (some l) h = ground arith

  token_spec-valid :
      (tokens : ℤ) (limit : Option ℤ)
      → IsInt limit
      → IsInt64 tokens
      → All IsValidSpec (token_spec s id bucket tokens limit)
  unfolding token_spec
  token_spec-valid tokens none h n = tt
  token_spec-valid tokens (some l) h n = ground arith

  -- All limits of one scope name it, and request limits differ from token limits.
  abbrev OfMetric : Metric → LimitSpec → Type 0
  OfMetric m x = (x.counter.scope ≡ s) × (x.counter.metric ≡ m)

  request_spec-metric :
      (limit : Option ℤ)
      → All (OfMetric rpm) (request_spec s id bucket limit)
        × IsDistinct (request_spec s id bucket limit)
  unfolding request_spec
  request_spec-metric none = (tt, tt)
  request_spec-metric (some l) = ground arith

  token_spec-metric :
      (tokens : ℤ) (limit : Option ℤ)
      → All (OfMetric tpm) (token_spec s id bucket tokens limit)
        × IsDistinct (token_spec s id bucket tokens limit)
  unfolding token_spec
  token_spec-metric tokens none = (tt, tt)
  token_spec-metric tokens (some l) = ground arith

All-map1 {ℓ κ μ} :
    {A : Type ℓ} {P : A → Type κ} {Q : A → Type μ} (xs : List A)
    → ((x : A) → P x → Q x)
    → All P xs
    → All Q xs
All-map1 [] f h = tt
All-map1 (x ∷ xs) f h = (f x h.0, All-map1 xs f h.1)

IsDistinct-append :
    (xs ys : List LimitSpec)
    → IsDistinct xs
    → IsDistinct ys
    → All (λ x. All (λ y. x.counter ≢ y.counter) ys) xs
    → IsDistinct (xs ++ ys)
IsDistinct-append [] ys hx hy c = hy
IsDistinct-append (x ∷ xs) ys hx hy c =
    (All-append (λ y. x.counter ≢ y.counter) xs ys hx.0 c.0, IsDistinct-append xs ys hx.1 hy c.1)

module _ (s : Scope) (bucket : ℕ) where
  scope_specs-valid :
      (l : Option Limits) (tokens : ℤ)
      → HasInts l
      → IsInt64 tokens
      → All IsValidSpec (scope_specs s l bucket tokens)
  unfolding scope_specs
  scope_specs-valid none tokens h n = tt
  scope_specs-valid (some l) tokens h n =
      All-append IsValidSpec _ _ (request_spec-valid s l.id bucket l.rpm_limit h.0)
        (token_spec-valid s l.id bucket tokens l.tpm_limit h.1 n)

  scope_specs-scope :
      (l : Option Limits) (tokens : ℤ)
      → All (λ x. x.counter.scope ≡ s) (scope_specs s l bucket tokens)
  unfolding scope_specs
  scope_specs-scope none tokens = tt
  scope_specs-scope (some l) tokens =
      All-append (λ x. x.counter.scope ≡ s) _ _
        (All-map1 _ (λ x h. h.0) (request_spec-metric s l.id bucket l.rpm_limit).0)
        (All-map1 _ (λ x h. h.0) (token_spec-metric s l.id bucket tokens l.tpm_limit).0)

  scope_specs-IsDistinct :
      (l : Option Limits) (tokens : ℤ) → IsDistinct (scope_specs s l bucket tokens)
  unfolding scope_specs
  scope_specs-IsDistinct none tokens = tt
  scope_specs-IsDistinct (some l) tokens =
      let (r, dr) = request_spec-metric s l.id bucket l.rpm_limit in
      let (t, dt) = token_spec-metric s l.id bucket tokens l.tpm_limit in
      IsDistinct-append _ _ dr dt (
        All-map1 _
          (λ x hx. All-map1 _ (λ y hy e. rpm-ne-tpm (sym hx.1 ∙ ap (λ k. k.metric) e ∙ hy.1)) t) r)

-- Limits of two scopes share no counter.
scopes_apart :
    (s t : Scope) (xs ys : List LimitSpec)
    → s ≢ t
    → All (λ x. x.counter.scope ≡ s) xs
    → All (λ y. y.counter.scope ≡ t) ys
    → All (λ x. All (λ y. x.counter ≢ y.counter) ys) xs
scopes_apart s t xs ys n hx hy =
    All-map1 xs (λ x ex. All-map1 ys (λ y ey e. n (sym ex ∙ ap (λ k. k.scope) e ∙ ey)) hy) hx

All-cross :
    (xs ys zs : List LimitSpec)
    → All (λ x. All (λ y. x.counter ≢ y.counter) ys) xs
    → All (λ x. All (λ y. x.counter ≢ y.counter) zs) xs
    → All (λ x. All (λ y. x.counter ≢ y.counter) (ys ++ zs)) xs
All-cross xs ys zs h k =
    All-map2 xs (λ x a b. All-append (λ y. x.counter ≢ y.counter) ys zs a b) h k

known_ints : (l : Option Limits) → HasInts l → HasInts (known_customer l)
unfolding known_customer
known_ints none h = tt
known_ints (some l) h = elim (Bool-cases (ltb_ℤ (pos 0) l.id)) [
  | inl e ↦ rw (e, known_customer) h
  | inr e ↦ rw (e, known_customer) tt
]

-- Whatever team, key and customer a check names, its limits have different counters, positive
-- limits and positive increments: no limit of it can be charged twice or for nothing.
pub build_specs-IsDistinct :
    (c : Check) (now : ℕ)
    → IsMachine c
    → IsDistinct (build_specs c now) × All IsValidSpec (build_specs c now)
unfolding build_specs
build_specs-IsDistinct c now m =
    let b = window_start now in
    let ts = scope_specs team c.team_limits b c.tokens in
    let ks = scope_specs key c.key_limits b c.tokens in
    let cs = scope_specs customer (known_customer c.customer_limits) b c.tokens in
    let st = scope_specs-scope team b c.team_limits c.tokens in
    let sk = scope_specs-scope key b c.key_limits c.tokens in
    let sc = scope_specs-scope customer b (known_customer c.customer_limits) c.tokens in
    (
      IsDistinct-append ts (ks ++ cs) (scope_specs-IsDistinct team b c.team_limits c.tokens)
          (IsDistinct-append ks cs (scope_specs-IsDistinct key b c.key_limits c.tokens)
            (scope_specs-IsDistinct customer b (known_customer c.customer_limits) c.tokens)
            (scopes_apart key customer ks cs (λ e. cc) sk sc))
          (All-cross ts ks cs (scopes_apart team key ts ks (λ e. cc) st sk)
            (scopes_apart team customer ts cs (λ e. cc) st sc)),
      All-append IsValidSpec ts (ks ++ cs)
          (scope_specs-valid team b c.team_limits c.tokens m.team_ints m.tokens_int)
          (All-append IsValidSpec ks cs
            (scope_specs-valid key b c.key_limits c.tokens m.key_ints m.tokens_int)
            (scope_specs-valid customer b (known_customer c.customer_limits) c.tokens
              (known_ints c.customer_limits m.customer_ints) m.tokens_int)),
    )
