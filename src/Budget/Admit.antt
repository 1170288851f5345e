-- ===== src/Budget/Admit.antt =====
-- `Service.Admit` and `maxEstimatedCost` of internal/budget/service.go. The database and the pricing
-- table are parameters: a transaction that succeeds returns the new state, and a failed one changes
-- nothing, since it is rolled back.
pub mod Cap
pub mod Spend
pub mod Cover
mod Examples
use Prim.Native.String.{String}
use text.Mathlib.Text.{◌==◌ as str_eq}
use gatemux.Common.{
  ℕ, Bool, true, false, ◌&&◌, ◌||◌, not, Option, none, some, List, [], ◌∷◌, ◌++◌, if◌then◌else◌, ℤ,
  pos, ltb_ℤ, leb_ℤ, eqb_ℤ, Result, ok, err, ◌>>=◌, sort_by,
}
use gatemux.Cost.Microcents.{ceil_cents}
use gatemux.Cost.Tokens.{CostError, Pricing, estimated_tier_cost}
use gatemux.Budget.Limits.{Exceeded, Verdict, within, exceeded, panicked, scope_exceeded}

pub data Subject : Type 0 where
  team user service_account key customer : Subject

-- The only test made of a period is whether it is "day".
pub data Period : Type 0 where
  day month : Period

-- A team, user, service account, key or customer: its identity and its limit, if it has one.
pub record Account : Type 0 where
  pub id : ℤ
  pub team_id : ℤ
  pub usd_limit_cents : Option ℤ
  pub period : Period

pub record AdmissionRequest (Target : Type 0) : Type 0 where
  pub request_id : String
  pub team : Option Account
  pub user : Option Account
  pub service_account : Option Account
  pub key : Option Account
  pub customer : Option Account
  pub alias : String
  pub prompt_tokens : ℤ
  pub completion_tokens : ℤ
  pub targets : List Target

pub record Reservation : Type 0 where
  pub request_id : String
  pub estimated_cost_cents : ℤ
  pub estimated_cost_microcents : ℤ

-- The row that is inserted, with the identities that its cost counts against.
pub record Row : Type 0 where
  pub request_id : String
  pub team_id : ℤ
  pub user_id : Option ℤ
  pub service_account_id : Option ℤ
  pub key_id : Option ℤ
  pub customer_id : Option ℤ
  pub alias : String
  pub estimated_cost_cents : ℤ
  pub estimated_cost_microcents : ℤ

pub data AdmitError : Type 0 where
  invalid_customer_identity pricing_unavailable estimate_panicked : AdmitError
  database_failed : ℕ → AdmitError
  cost_failed : CostError → AdmitError
  budget_exceeded : Subject → Exceeded → AdmitError
  check_panicked : Subject → AdmitError

-- What `Admit` asks of Postgres inside its transaction. `used` reads the spend of a subject over the
-- window of a period that the current time lies in.
pub record Database : Type 1 where
  pub State : Type 0
  pub lock : ℤ → State → Result AdmitError State
  pub used : State → Subject → ℤ → Period → Result AdmitError ℤ
  pub insert : Row → State → Result AdmitError State
  pub commit : State → Result AdmitError State

abbrev pub positive_limit : Option Account → Bool
positive_limit none = false
positive_limit (some a) = elim a.usd_limit_cents [ none ↦ false | some l ↦ ltb_ℤ (pos 0) l ]

abbrev pub has_limit : Option Account → Bool
has_limit none = false
has_limit (some a) = elim a.usd_limit_cents [ none ↦ false | some l ↦ true ]

pub bad_customer : Option Account → ℤ → Bool
bad_customer none team_id = false
bad_customer (some c) team_id =
    not (eqb_ℤ c.team_id team_id) || (leb_ℤ c.id (pos 0) && has_limit (some c))

-- One limit to check: whose, which, and over which window.
pub record Budget : Type 0 where
  pub subject : Subject
  pub id : ℤ
  pub limit_cents : ℤ
  pub period : Period

abbrev pub limit_of : Account → ℤ
limit_of a = elim a.usd_limit_cents [ none ↦ pos 0 | some l ↦ l ]

abbrev pub budget_of : Bool → Subject → Option Account → Period → List Budget
budget_of false s a p = []
budget_of true s none p = []
budget_of true s (some a) p =
    record { subject = s; id = a.id; limit_cents = limit_of a; period = p } ∷ []

abbrev pub period_of : Option Account → Period
period_of none = month
period_of (some a) = a.period

module _ {Target : Type 0} where
  -- The limits that apply, in the order of the checks. A key shares its team's period.
  pub budgets : AdmissionRequest Target → Account → List Budget
  budgets req t =
      budget_of (positive_limit (some t)) team (some t) t.period
      ++ (budget_of (positive_limit req.user) user req.user (period_of req.user)
          ++ (budget_of (positive_limit req.service_account) service_account req.service_account
                (period_of req.service_account)
              ++ (budget_of (positive_limit req.key) key req.key t.period
                  ++ budget_of (has_limit req.customer) customer req.customer
                      (period_of req.customer))))

  -- The loop of `maxEstimatedCost`.
  max_estimated_loop :
      (Target → Result AdmitError Pricing) → ℤ → ℤ → List Target → ℤ → Result AdmitError ℤ
  max_estimated_loop pricing prompt completion [] max_cost = ok max_cost
  max_estimated_loop pricing prompt completion (t ∷ ts) max_cost = elim (pricing t) [
    | err e ↦ err e
    | ok p ↦ elim (estimated_tier_cost p prompt completion) [
      | err e ↦ err (cost_failed e)
      | ok cost ↦
          max_estimated_loop pricing prompt completion ts
            (if ltb_ℤ max_cost cost then cost else max_cost)
    ]
  ]

  pub max_estimated_cost :
      (Target → Result AdmitError Pricing) → ℤ → ℤ → List Target → Result AdmitError ℤ
  max_estimated_cost pricing prompt completion [] = err pricing_unavailable
  max_estimated_cost pricing prompt completion (t ∷ ts) =
      max_estimated_loop pricing prompt completion (t ∷ ts) (pos 0)

abbrev pub nullable_id : Option Account → Option ℤ
nullable_id none = none
nullable_id (some a) = some a.id

-- `nullableKeyID`, and the customer's id: only a positive one is stored.
abbrev pub positive_id : Option Account → Option ℤ
positive_id none = none
positive_id (some a) = if ltb_ℤ (pos 0) a.id then some a.id else none

module _ (db : Database) where
  pub lock_all : List ℤ → db.State → Result AdmitError db.State
  lock_all [] s = ok s
  lock_all (k ∷ ks) s = elim (db.lock k s) [ err e ↦ err e | ok s' ↦ lock_all ks s' ]

  -- One `if ...Budget { ... }` block: read the spend, compare, refuse or go on.
  pub check_budget : db.State → ℤ → Budget → Result AdmitError (Unit {0})
  check_budget s estimate b = elim (db.used s b.subject b.id b.period) [
    | err e ↦ err e
    | ok used ↦ elim (scope_exceeded b.limit_cents used estimate) [
      | within ↦ ok tt
      | exceeded x ↦ err (budget_exceeded b.subject x)
      | panicked ↦ err (check_panicked b.subject)
    ]
  ]

  pub check_budgets : db.State → ℤ → List Budget → Result AdmitError (Unit {0})
  check_budgets s estimate [] = ok tt
  check_budgets s estimate (b ∷ bs) = elim (check_budget s estimate b) [
    | err e ↦ err e
    | ok _ ↦ check_budgets s estimate bs
  ]

  abbrev pub row_of : {Target : Type 0} → AdmissionRequest Target → Account → ℤ → ℤ → Row
  row_of req t estimate cents = record {
    request_id = req.request_id;
    team_id = t.id;
    user_id = nullable_id req.user;
    service_account_id = nullable_id req.service_account;
    key_id = positive_id req.key;
    customer_id = positive_id req.customer;
    alias = req.alias;
    estimated_cost_cents = cents;
    estimated_cost_microcents = estimate;
  }

  -- The transaction, from the locks to the commit.
  reserve :
      {Target : Type 0}
      → List ℤ
      → AdmissionRequest Target
      → Account
      → ℤ
      → db.State
      → Result AdmitError (Reservation × db.State)
  reserve lock_keys req t estimate s = do
    locked ← lock_all lock_keys s
    _ ← check_budgets locked estimate (budgets req t)
    elim (ceil_cents estimate) [
      | none ↦ err estimate_panicked
      | some cents ↦ do
        inserted ← db.insert (row_of req t estimate cents) locked
        committed ← db.commit inserted
        ok (
          record {
            request_id = req.request_id;
            estimated_cost_cents = cents;
            estimated_cost_microcents = estimate;
          },
          committed,
        )
    ]

  any_budget : {Target : Type 0} → AdmissionRequest Target → Account → Bool
  any_budget req t =
      positive_limit (some t)
      || (positive_limit req.user
          || (positive_limit req.service_account
              || (positive_limit req.key || has_limit req.customer)))

  module _ (lock_key : Subject → ℤ → ℤ) where
    abbrev lock_of : Bool → Subject → Option Account → List ℤ
    lock_of false s a = []
    lock_of true s none = []
    lock_of true s (some a) = lock_key s a.id ∷ []

    -- The team's lock is always taken; all are taken in rising order.
    pub lock_keys : {Target : Type 0} → AdmissionRequest Target → Account → List ℤ
    lock_keys req t =
        sort_by (λ k. k)
          (lock_key team t.id
            ∷ (lock_of (positive_limit req.user) user req.user
                ++ (lock_of (positive_limit req.service_account) service_account req.service_account
                    ++ (lock_of (positive_limit req.key) key req.key
                        ++ lock_of (has_limit req.customer) customer req.customer))))

    module _ {Target : Type 0} (pricing : Target → Result AdmitError Pricing) where
      pub admit_team :
          AdmissionRequest Target
          → Account
          → db.State
          → Result AdmitError (Option Reservation × db.State)
      admit_team req t s =
          if bad_customer req.customer t.id
          then err invalid_customer_identity
          else if not (any_budget req t)
          then ok (none, s)
          else elim (max_estimated_cost pricing req.prompt_tokens req.completion_tokens
              req.targets) [
                | err e ↦ err e
                | ok estimate ↦ elim (reserve (lock_keys req t) req t estimate s) [
                  | err e ↦ err e
                  | ok r ↦ ok (some r.0, r.1)
                ]
              ]

      -- A request with no team, no id or no alias is not accounted for.
      pub admit :
          AdmissionRequest Target → db.State → Result AdmitError (Option Reservation × db.State)
      admit req s = elim req.team [
        | none ↦ ok (none, s)
        | some t ↦
            if str_eq req.request_id "" || str_eq req.alias ""
            then ok (none, s)
            else admit_team req t s
      ]
