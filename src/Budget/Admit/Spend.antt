-- ===== src/Budget/Admit/Spend.antt =====
-- The spend after `Service.Admit` of internal/budget/service.go has committed, by what the triggers of
-- the table budget_reservations promise.
use gatemux.Common.{
  ◌≡◌, refl, ap, subst, ◌∙◌, Bool, true, false, Option, none, some, All, All-append, All-map2,
  arith, ℤ, pos, negsuc, ◌+ℤ◌, ◌<ℤ◌, Result, ok,
}
use gatemux.Cost.Tokens.{Pricing}
use gatemux.Budget.Limits.Exact.{HasRoom}
use gatemux.Budget.Admit.{
  Subject, team, user, service_account, key, customer, Period, Account, AdmissionRequest,
  Reservation, Row, AdmitError, Database, Budget, budgets, budget_of, positive_limit, has_limit,
  period_of, bad_customer, row_of, admit, nullable_id, positive_id,
}
use gatemux.Budget.Admit.Cap.{admit-Reserved, admit_team-Reserved}

-- Whose spend a row counts against.
abbrev pub identity_of : Row → Subject → Option ℤ
identity_of row team = some row.team_id
identity_of row user = row.user_id
identity_of row service_account = row.service_account_id
identity_of row key = row.key_id
identity_of row customer = row.customer_id

-- What the triggers of migration 0039 promise: a committed reservation counts with its estimate in
-- the totals of each of its identities.
pub record Counts (db : Database) : Type 0 where
  pub insert_counts :
      (row : Row) (s s1 s2 : db.State) (subject : Subject) (id : ℤ) (period : Period) (u : ℤ)
      → identity_of row subject ≡ some id
      → db.insert row s ≡ ok s1
      → db.commit s1 ≡ ok s2
      → db.used s subject id period ≡ ok u
      → db.used s2 subject id period ≡ ok (u +ℤ row.estimated_cost_microcents)

room_spent : (limit used need : ℤ) → HasRoom limit used need → HasRoom limit (used +ℤ need) (pos 0)
room_spent (pos l) (pos u) (pos n) h = ground arith
room_spent (pos l) (pos u) (negsuc n) h = absurd h
room_spent (pos l) (negsuc u) n h = absurd h
room_spent (negsuc l) u n h = absurd h

-- Keys come from the database, with positive ids.
abbrev pub KeyIsStored : Option Account → Type 0
KeyIsStored none = Unit
KeyIsStored (some k) = pos 0 <ℤ k.id

piece :
    (on : Bool) (s : Subject) (a : Option Account) (p : Period) (row : Row)
    → ((x : Account) → on ≡ true → a ≡ some x → identity_of row s ≡ some x.id)
    → All (λ (b : Budget). identity_of row b.subject ≡ some b.id) (budget_of on s a p)
piece false s a p row h = tt
piece true s none p row h = tt
piece true s (some x) p row h = (h x refl refl, tt)

positive_id_lem : (x : Account) → pos 0 <ℤ x.id → positive_id (some x) ≡ some x.id
positive_id_lem x h = ground arith

customer_stored :
    (c : Account) (team_id : ℤ)
    → bad_customer (some c) team_id ≡ false
    → has_limit (some c) ≡ true
    → pos 0 <ℤ c.id
unfolding bad_customer
customer_stored c team_id h k = ground arith

module _ (db : Database) {Target : Type 0} (req : AdmissionRequest Target) (t : Account) where
  -- Each limit that is checked is on an identity that the inserted row carries.
  budgets_counted :
      (estimate cents : ℤ)
      → KeyIsStored req.key
      → bad_customer req.customer t.id ≡ false
      → All
          (λ (b : Budget). identity_of (row_of db req t estimate cents) b.subject ≡ some b.id)
          (budgets req t)
  unfolding budgets
  budgets_counted estimate cents stored good =
      let row = row_of db req t estimate cents in
      let P = λ (b : Budget). identity_of row b.subject ≡ some b.id in
      All-append P _ _
        (piece (positive_limit (some t)) team (some t) t.period row (λ x on e. ground arith))
        (All-append P _ _
          (piece (positive_limit req.user) user req.user (period_of req.user) row
            (λ x on e. ap nullable_id e))
          (All-append P _ _
            (piece (positive_limit req.service_account) service_account req.service_account
              (period_of req.service_account) row (λ x on e. ap nullable_id e))
            (All-append P _ _
              (piece (positive_limit req.key) key req.key t.period row
                (λ x on e. ap positive_id e ∙ positive_id_lem x (subst KeyIsStored e stored)))
              (piece (has_limit req.customer) customer req.customer (period_of req.customer) row
                (λ x on e.
                  ap positive_id e
                  ∙ positive_id_lem x (
                      customer_stored x t.id (subst (λ c. bad_customer c t.id ≡ false) e good)
                        (subst (λ c. has_limit c ≡ true) e on)))))))

-- The spend of a subject, in the state that is given, is within the limit.
abbrev pub WithinLimit : (db : Database) → db.State → Budget → Type 0
WithinLimit db s b =
    (spend : ℤ) × (db.used s b.subject b.id b.period ≡ ok spend)
    × HasRoom b.limit_cents spend (pos 0)

module _ (db : Database) (counts : Counts db) (lock_key : Subject → ℤ → ℤ) where
  module _ {Target : Type 0} (pricing : Target → Result AdmitError Pricing) where
    -- Once `Admit` has committed a reservation, the spend of the team and of every other limited
    -- subject of the request, the new estimate included, is within its limit. Keys are stored ones,
    -- and the database counts a committed reservation with its estimate.
    pub admit-WithinLimit :
        (req : AdmissionRequest Target) (s : db.State) (r : Reservation) (s' : db.State)
        → KeyIsStored req.key
        → admit db lock_key pricing req s ≡ ok (some r, s')
        → (t : Account) × (req.team ≡ some t) × All (WithinLimit db s') (budgets req t)
    admit-WithinLimit req s r s' stored h =
        let (t, found, k) = admit-Reserved db lock_key pricing req s r s' h in
        let (estimate, _, good, made) = admit_team-Reserved db lock_key pricing req t s r s' k in
        let row = row_of db req t estimate made.cents in
        (
          t,
          found,
          All-map2 (budgets req t)
              (λ b fit id.
                let (used, read, room) = fit in
                (
                  used +ℤ estimate,
                  counts.insert_counts row made.locked made.inserted s' b.subject b.id b.period used
                      id made.insert made.commit read,
                  room_spent b.limit_cents used estimate room,
                ))
              made.fits (budgets_counted db req t estimate made.cents stored good),
        )
