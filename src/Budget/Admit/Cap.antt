-- ===== src/Budget/Admit/Cap.antt =====
-- The checks of `Service.Admit` of internal/budget/service.go, for a reservation that was made.
use gatemux.Common.{
  ◌≡◌, inl, inr, some, List, [], ◌∷◌, All, Bool-cases, Option-cases, arith, ℤ, Result, ok,
  Result-cases, not, false,
}
use gatemux.Cost.Microcents.{ceil_cents}
use gatemux.Cost.Tokens.{Pricing}
use gatemux.Budget.Limits.Exact.{HasRoom, scope_exceeded-within}
use gatemux.Budget.Admit.{
  Subject, Account, AdmissionRequest, Reservation, AdmitError, Database, Budget, budgets,
  check_budget, check_budgets, lock_all, lock_keys, reserve, row_of, admit_team, admit,
  max_estimated_cost, bad_customer, any_budget,
}

module _ (db : Database) where
  -- The spend that was read leaves room for the estimate.
  abbrev pub Fits : db.State → ℤ → Budget → Type 0
  Fits s estimate b =
      (used : ℤ) × (db.used s b.subject b.id b.period ≡ ok used)
      × HasRoom b.limit_cents used estimate

  check_budget-Fits :
      (s : db.State) (estimate : ℤ) (b : Budget) {x : Unit {0}}
      → check_budget db s estimate b ≡ ok x
      → Fits s estimate b
  unfolding check_budget
  check_budget-Fits s estimate b h = elim (Result-cases (db.used s b.subject b.id b.period)) [
    | inr (e, bad) ↦ absurd (ground (arith, bad))
    | inl (used, read) ↦
        (used, read, (scope_exceeded-within b.limit_cents used estimate).0 (ground (arith, read)))
  ]

  check_budgets-Fits :
      (s : db.State) (estimate : ℤ) (bs : List Budget) {x : Unit {0}}
      → check_budgets db s estimate bs ≡ ok x
      → All (Fits s estimate) bs
  unfolding check_budgets
  check_budgets-Fits s estimate [] h = tt
  check_budgets-Fits s estimate (b ∷ bs) h = elim (Result-cases (check_budget db s estimate b)) [
    | inr (e, bad) ↦ absurd (ground (arith, bad))
    | inl (x, fits) ↦ (
      check_budget-Fits s estimate b fits,
      check_budgets-Fits s estimate bs (ground (arith, fits)),
    )
  ]

  -- What a successful transaction went through.
  pub record Reserved {Target : Type 0} (keys : List ℤ) (req : AdmissionRequest Target)
      (t : Account) (estimate : ℤ) (s : db.State) (r : Reservation) (s' : db.State) : Type 0 where
    pub locked : db.State
    pub lock : lock_all db keys s ≡ ok locked
    pub fits : All (Fits locked estimate) (budgets req t)
    pub cents : ℤ
    pub inserted : db.State
    pub insert : db.insert (row_of db req t estimate cents) locked ≡ ok inserted
    pub commit : db.commit inserted ≡ ok s'
    pub microcents : r.estimated_cost_microcents ≡ estimate

  reserve-Reserved :
      {Target : Type 0} (keys : List ℤ) (req : AdmissionRequest Target) (t : Account) (estimate : ℤ)
      (s : db.State) (r : Reservation) (s' : db.State)
      → reserve db keys req t estimate s ≡ ok (r, s')
      → Reserved keys req t estimate s r s'
  unfolding reserve
  reserve-Reserved keys req t estimate s r s' h = elim (Result-cases (lock_all db keys s)) [
    | inr (e, bad) ↦ absurd (ground (arith, bad))
    | inl (locked, lock) ↦ elim (Result-cases (check_budgets db locked estimate (budgets req t))) [
      | inr (e, bad) ↦ absurd (ground (arith, bad, lock))
      | inl (x, checked) ↦ elim (Option-cases (ceil_cents estimate)) [
        | inl bad ↦ absurd (ground (arith, bad, lock, checked))
        | inr (cents, ceil) ↦
            elim (Result-cases (db.insert (row_of db req t estimate cents) locked)) [
              | inr (e, bad) ↦ absurd (ground (arith, bad, lock, checked, ceil))
              | inl (inserted, insert) ↦ elim (Result-cases (db.commit inserted)) [
                | inr (e, bad) ↦ absurd (ground (arith, bad, lock, checked, ceil, insert))
                | inl (committed, commit) ↦ record {
                  locked = locked;
                  lock = lock;
                  fits = check_budgets-Fits locked estimate (budgets req t) checked;
                  cents = cents;
                  inserted = inserted;
                  insert = insert;
                  commit = ground (arith, lock, checked, ceil, insert, commit);
                  microcents = ground (arith, lock, checked, ceil, insert, commit);
                }
              ]
            ]
      ]
    ]
  ]

  module _ (lock_key : Subject → ℤ → ℤ) {Target : Type 0}
      (pricing : Target → Result AdmitError Pricing) where
    pub admit_team-Reserved :
        (req : AdmissionRequest Target) (t : Account) (s : db.State) (r : Reservation)
        (s' : db.State)
        → admit_team db lock_key pricing req t s ≡ ok (some r, s')
        → (estimate : ℤ) × (max_estimated_cost pricing req.prompt_tokens req.completion_tokens
              req.targets
            ≡ ok estimate)
          × (bad_customer req.customer t.id ≡ false)
          × Reserved (lock_keys db lock_key req t) req t estimate s r s'
    unfolding admit_team
    admit_team-Reserved req t s r s' h = elim (Bool-cases (bad_customer req.customer t.id)) [
      | inl bad ↦ absurd (ground (arith, bad))
      | inr good ↦ elim (Bool-cases (not (any_budget db req t))) [
        | inl free ↦ absurd (ground (arith, good, free))
        | inr capped ↦
            elim (Result-cases
              (max_estimated_cost pricing req.prompt_tokens req.completion_tokens req.targets)) [
                | inr (e, bad) ↦ absurd (ground (arith, good, capped, bad))
                | inl (estimate, cost) ↦
                    elim (Result-cases
                      (reserve db (lock_keys db lock_key req t) req t estimate s)) [
                        | inr (e, bad) ↦ absurd (ground (arith, good, capped, cost, bad))
                        | inl ((r', s2), made) ↦
                            let same : reserve db (lock_keys db lock_key req t) req t estimate s
                                ≡ ok (r, s') =
                              ground (arith, good, capped, cost, made) in
                            (
                              estimate,
                              cost,
                              good,
                              reserve-Reserved (lock_keys db lock_key req t) req t estimate s r s'
                                  same,
                            )
                      ]
              ]
      ]
    ]

    pub admit-Reserved :
        (req : AdmissionRequest Target) (s : db.State) (r : Reservation) (s' : db.State)
        → admit db lock_key pricing req s ≡ ok (some r, s')
        → (t : Account) × (req.team ≡ some t)
          × (admit_team db lock_key pricing req t s ≡ ok (some r, s'))
    unfolding admit
    admit-Reserved req s r s' h = elim (Option-cases req.team) [
      | inl missing ↦ absurd (ground (arith, missing))
      | inr (t, found) ↦ (t, found, ground (arith, found))
    ]

    -- If a reservation is made, then for the team and for every other limit of the request, in the
    -- locked state, the spend that was read and the estimate together are within the limit exactly.
    pub admit-Fits :
        (req : AdmissionRequest Target) (s : db.State) (r : Reservation) (s' : db.State)
        → admit db lock_key pricing req s ≡ ok (some r, s')
        → (t : Account) × (locked : db.State) × (req.team ≡ some t)
          × (lock_all db (lock_keys db lock_key req t) s ≡ ok locked)
          × All (Fits locked r.estimated_cost_microcents) (budgets req t)
    admit-Fits req s r s' h =
        let (t, found, k) = admit-Reserved req s r s' h in
        let (estimate, cost, good, made) = admit_team-Reserved req t s r s' k in
        (t, made.locked, found, made.lock, rw made.microcents made.fits)
