-- ===== src/Budget/Admit/Cover.antt =====
-- The estimate of `maxEstimatedCost` in internal/budget/service.go against later charges.
use gatemux.Common.{
  ◌≡◌, subst, inl, inr, some, List, [], ◌∷◌, All, Elem, All-Elem, arith, ℤ, pos, ◌≤ℤ◌, ltb_ℤ,
  IsInt64, if◌then◌else◌, Result, ok, Result-cases,
}
use gatemux.Cost.Tokens.{Pricing, Usage, cost_usage, estimated_tier_cost}
use gatemux.Cost.Tokens.Exact.{IsMachine}
use gatemux.Cost.Tokens.Estimate.{cost_usage-le-estimated_tier_cost}
use gatemux.Budget.Admit.{
  Subject, AdmissionRequest, Reservation, AdmitError, Database, max_estimated_loop,
  max_estimated_cost, admit,
}
use gatemux.Budget.Admit.Cap.{admit-Reserved, admit_team-Reserved}

module _ {Target : Type 0} (pricing : Target → Result AdmitError Pricing)
    (prompt completion : ℤ) where
  -- The target has a price, and its estimate is at most the bound.
  abbrev pub Covered : ℤ → Target → Type 0
  Covered bound t =
      (p : Pricing) × (e : ℤ) × (pricing t ≡ ok p)
      × (estimated_tier_cost p prompt completion ≡ ok e)
      × (e ≤ℤ bound)

  max_estimated_loop-Covered :
      (ts : List Target) (start bound : ℤ)
      → max_estimated_loop pricing prompt completion ts start ≡ ok bound
      → (start ≤ℤ bound) × All (Covered bound) ts
  unfolding max_estimated_loop
  max_estimated_loop-Covered [] start bound h = (ground arith, tt)
  max_estimated_loop-Covered (t ∷ ts) start bound h = elim (Result-cases (pricing t)) [
    | inr (e, bad) ↦ absurd (ground (arith, bad))
    | inl (p, priced) ↦ elim (Result-cases (estimated_tier_cost p prompt completion)) [
      | inr (e, bad) ↦ absurd (ground (arith, priced, bad))
      | inl (cost, estimated) ↦
          let (le, rest) =
            max_estimated_loop-Covered ts (if ltb_ℤ start cost then cost else start) bound
              (ground (arith, priced, estimated)) in
          (ground (arith, le), ((p, cost, priced, estimated, ground (arith, le)), rest))
    ]
  ]

  max_estimated_cost-Covered :
      (ts : List Target) (bound : ℤ)
      → max_estimated_cost pricing prompt completion ts ≡ ok bound
      → All (Covered bound) ts
  unfolding max_estimated_cost
  max_estimated_cost-Covered [] bound h = tt
  max_estimated_cost-Covered (t ∷ ts) bound h =
      (max_estimated_loop-Covered (t ∷ ts) (pos 0) bound h).1

ok-injective : {E A : Type 0} (r : Result E A) {a b : A} → r ≡ ok a → r ≡ ok b → a ≡ b
ok-injective r h k = cc

module _ (db : Database) (lock_key : Subject → ℤ → ℤ) where
  module _ {Target : Type 0} (pricing : Target → Result AdmitError Pricing) where
    -- Whichever target of the request ends up serving it, a charge for at most the announced prompt
    -- and completion tokens, however they are cached or reasoned, is at most what was reserved.
    pub admit_covers :
        (req : AdmissionRequest Target) (s : db.State) (r : Reservation) (s' : db.State)
        (target : Target) (p : Pricing) (u : Usage) (c : ℤ)
        → IsInt64 req.prompt_tokens
        → IsInt64 req.completion_tokens
        → admit db lock_key pricing req s ≡ ok (some r, s')
        → Elem target req.targets
        → pricing target ≡ ok p
        → IsMachine u
        → u.prompt_tokens ≤ℤ req.prompt_tokens
        → u.completion_tokens ≤ℤ req.completion_tokens
        → cost_usage p u ≡ ok c
        → c ≤ℤ r.estimated_cost_microcents
    admit_covers req s r s' target p u c mp mc h at priced m lp lc charged =
        let (t, _, k) = admit-Reserved db lock_key pricing req s r s' h in
        let (estimate, max, _, made) = admit_team-Reserved db lock_key pricing req t s r s' k in
        let all =
          max_estimated_cost-Covered pricing req.prompt_tokens req.completion_tokens req.targets
            estimate max in
        let (q, e, priced', estimated, le) =
          All-Elem (Covered pricing req.prompt_tokens req.completion_tokens estimate) req.targets
            all at in
        let same : q ≡ p = ok-injective (pricing target) priced' priced in
        let bound =
          cost_usage-le-estimated_tier_cost p u req.prompt_tokens req.completion_tokens c e m mp mc
            lp lc charged
            (subst (λ x. estimated_tier_cost x req.prompt_tokens req.completion_tokens ≡ ok e) same
              estimated) in
        rw made.microcents (omega arith)
