-- ===== src/Budget/Admit/Examples.antt =====
-- Admission against a ledger of rows: a team with a limit of a dollar, and a key with one of a cent.
use gatemux.Common.{
  ◌≡◌, refl, ap, sym, ◌∙◌, inl, Bool, true, Option, none, some, List, [], ◌∷◌, All, arith,
  if◌then◌else◌, ℤ, pos, ◌+ℤ◌, ◌≤ℤ◌, eqb_ℤ, eqb_ℤ_refl, Result, ok, sort_by, insert_by,
}
use gatemux.Cost.Microcents.Examples.{one_cent}
use gatemux.Cost.Tokens.{Pricing}
use gatemux.Cost.Tokens.Examples.{prices, usage, usage-IsMachine, charged, estimated}
use gatemux.Budget.Limits.{within, scope_exceeded}
use gatemux.Budget.Limits.Exact.{scope_exceeded-within}
use gatemux.Budget.Admit.{
  Subject, day, month, Account, AdmissionRequest, Reservation, Row, AdmitError, Database, budgets,
  bad_customer, max_estimated_loop, max_estimated_cost, lock_all, lock_keys, check_budget,
  check_budgets, reserve, any_budget, admit_team, admit,
}
use gatemux.Budget.Admit.Cap.{Fits, admit-Fits}
use gatemux.Budget.Admit.Spend.{identity_of, Counts, WithinLimit, admit-WithinLimit}
use gatemux.Budget.Admit.Cover.{admit_covers}

abbrev is_of : Option ℤ → ℤ → Bool
is_of none id = true
is_of (some x) id = eqb_ℤ x id

abbrev spend : Subject → ℤ → List Row → ℤ
spend s id [] = pos 0
spend s id (r ∷ rs) =
    if is_of (identity_of r s) id
    then spend s id rs +ℤ r.estimated_cost_microcents
    else spend s id rs

abbrev ledger : Database
ledger = record {
  State = List Row;
  lock = λ k s. ok s;
  used = λ s subject id period. ok (spend subject id s);
  insert = λ row s. ok (row ∷ s);
  commit = λ s. ok s;
}

ok-injective : {A : Type 0} {a b : A} → ◌≡◌ {A = Result AdmitError A} (ok a) (ok b) → a ≡ b
ok-injective h = cc

spend_cons :
    (s : Subject) (id : ℤ) (row : Row) (rows : List Row)
    → identity_of row s ≡ some id
    → spend s id (row ∷ rows) ≡ spend s id rows +ℤ row.estimated_cost_microcents
spend_cons s id row rows h = rw (h, eqb_ℤ_refl id) refl

ledger-Counts : Counts ledger
ledger-Counts = record {
  insert_counts = λ row s s1 s2 subject id period u at inserted committed used.
      let stored : s2 ≡ row ∷ s = sym (ok-injective committed) ∙ sym (ok-injective inserted) in
      ap ok (
        ap (spend subject id) stored
        ∙ (spend_cons subject id row s at
            ∙ ap (λ x. x +ℤ row.estimated_cost_microcents) (ok-injective used)));
}

abbrev lock_number : Subject → ℤ → ℤ
lock_number s id = id

abbrev tariff : Bool → Result AdmitError Pricing
tariff b = ok prices

abbrev request : AdmissionRequest Bool
request = record {
  request_id = "r1";
  team =
      some
        (record { id = pos 7; team_id = pos 7; usd_limit_cents = some (pos 100); period = month });
  user = none;
  service_account = none;
  key = some (record { id = pos 3; team_id = pos 7; usd_limit_cents = some (pos 1); period = day });
  customer = none;
  alias = "chat";
  prompt_tokens = pos 100;
  completion_tokens = pos 50;
  targets = true ∷ [];
}

abbrev row : Row
row = record {
  request_id = "r1";
  team_id = pos 7;
  user_id = none;
  service_account_id = none;
  key_id = some (pos 3);
  customer_id = none;
  alias = "chat";
  estimated_cost_cents = pos 1;
  estimated_cost_microcents = pos 135000;
}

abbrev reservation : Reservation
reservation = record {
  request_id = "r1";
  estimated_cost_cents = pos 1;
  estimated_cost_microcents = pos 135000;
}

team_fits : scope_exceeded (pos 100) (pos 0) (pos 135000) ≡ within
team_fits = (scope_exceeded-within (pos 100) (pos 0) (pos 135000)).1 (omega arith)

key_fits : scope_exceeded (pos 1) (pos 0) (pos 135000) ≡ within
key_fits = (scope_exceeded-within (pos 1) (pos 0) (pos 135000)).1 (omega arith)

admitted : admit ledger lock_number tariff request [] ≡ ok (some reservation, row ∷ [])
unfolding admit admit_team bad_customer any_budget max_estimated_cost max_estimated_loop lock_keys
    reserve lock_all budgets check_budgets check_budget sort_by insert_by
admitted = rw (estimated, one_cent, team_fits, key_fits) refl

admit-Fits_example :
    (t : Account) × (locked : List Row) × (request.team ≡ some t)
    × (lock_all ledger (lock_keys ledger lock_number request t) [] ≡ ok locked)
    × All (Fits ledger locked (pos 135000)) (budgets request t)
admit-Fits_example = admit-Fits ledger lock_number tariff request [] reservation (row ∷ []) admitted

admit-WithinLimit_example :
    (t : Account) × (request.team ≡ some t)
    × All (WithinLimit ledger (row ∷ [])) (budgets request t)
admit-WithinLimit_example =
    admit-WithinLimit ledger ledger-Counts lock_number tariff request [] reservation (row ∷ [])
      (omega arith) admitted

admit_covers_example : pos 55950 ≤ℤ pos 135000
admit_covers_example =
    admit_covers ledger lock_number tariff request [] reservation (row ∷ []) true prices usage
      (pos 55950) (ground arith) (ground arith) admitted (inl refl) refl usage-IsMachine
      (omega arith) (omega arith) charged
