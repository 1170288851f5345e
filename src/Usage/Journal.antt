-- ===== src/Usage/Journal.antt =====
-- `FinalizeUsage` of internal/store/accounting.go for an admitted request, with finalizeJournal,
-- classifyAccounting, normalizeCost, and the costs that insertUsage of internal/store/usage.go writes.
-- A transaction is one step, and a failed one changes nothing. A row's id is its place.
pub mod Billed
pub mod Recorded
pub mod Again
mod Examples
use gatemux.Common.{
  ℕ, Bool, true, false, not, ◌&&◌, ◌||◌, Option, none, some, List, [], ◌∷◌, ◌++◌, length,
  if◌then◌else◌, ℤ, pos, ltb_ℤ, leb_ℤ, eqb_ℤ, Result, ok, err,
}
use gatemux.Common.Threads.{get_elem?}
use gatemux.Cost.Microcents.{ceil_cents, effective_microcents}

-- The states of an entry, `blank` being the empty text.
pub data Accounting : Type 0 where
  blank unpriced not_billable priced unknown estimated legacy : Accounting

pub record UsageEntry : Type 0 where
  pub team_id : ℤ
  pub status_code : ℤ
  pub cached : Bool
  pub has_unpriced : Bool  -- the token details name an unpriced tier
  pub cost_cents : ℤ
  pub cost_microcents : Option ℤ
  pub accounting : Accounting

-- What a row of usage_log and a receipt tell of the cost.
pub record Cost : Type 0 where
  pub cents : ℤ
  pub microcents : Option ℤ
  pub state : Accounting

pub record Receipt : Type 0 where
  pub id : ℕ
  pub cents : ℤ
  pub microcents : ℤ
  pub state : Accounting

pub record JournalReservation : Type 0 where
  pub estimated_cents : ℤ
  pub estimated_microcents : Option ℤ
  pub settled_cents : ℤ
  pub settled_microcents : Option ℤ
  pub settled : Bool

pub record JournalRecord : Type 0 where
  pub base : UsageEntry
  pub started : Bool
  pub usage_id : Option ℕ
  pub complete : Bool

-- The journal's record of a request, its reservation, and the usage log.
pub record Books : Type 0 where
  pub record_of : JournalRecord
  pub reservation : Option JournalReservation
  pub usage_log : List Cost

pub data AccountingError : Type 0 where
  principal_mismatch entry_removed negative_cost : AccountingError

abbrev is_positive : Option ℤ → Bool
is_positive none = false
is_positive (some n) = ltb_ℤ (pos 0) n

abbrev is_zero : Option ℤ → Bool
is_zero none = true
is_zero (some n) = eqb_ℤ n (pos 0)

abbrev pub is_negative : Option ℤ → Bool
is_negative none = false
is_negative (some n) = ltb_ℤ n (pos 0)

pub classified : UsageEntry → Accounting → Accounting
classified e blank =
    if e.has_unpriced
    then unpriced
    else if e.cached
        || (leb_ℤ (pos 400) e.status_code
            && (eqb_ℤ e.cost_cents (pos 0) && is_zero e.cost_microcents))
    then not_billable
    else if ltb_ℤ (pos 0) e.cost_cents || is_positive e.cost_microcents
    then priced
    else unknown
classified e a = a

abbrev pub classify_accounting : UsageEntry → Accounting
classify_accounting e = classified e e.accounting

-- Whole cents of an exact cost.
unfoldable pub whole_cents : ℤ → Option ℤ → Option ℤ
whole_cents cents none = some cents
whole_cents cents (some exact) = ceil_cents exact

pub normalize_cost : UsageEntry → Option UsageEntry
unfolding whole_cents
normalize_cost e =
    if ltb_ℤ e.cost_cents (pos 0) || is_negative e.cost_microcents
    then none
    else elim (whole_cents e.cost_cents e.cost_microcents) [
      | none ↦ none
      | some c ↦ some (record e { cost_cents = c })
    ]

pub is_not_billable : Accounting → Bool
is_not_billable not_billable = true
is_not_billable _ = false

pub is_unknown : Accounting → Bool
is_unknown unknown = true
is_unknown _ = false

pub is_guessed : Accounting → Bool
is_guessed unknown = true
is_guessed estimated = true
is_guessed unpriced = true
is_guessed _ = false

abbrev pub recovered_entry : UsageEntry → UsageEntry
recovered_entry base = record base {
  status_code = pos 503;
  accounting = if is_not_billable base.accounting then not_billable else unknown;
}

abbrev pub unstarted : UsageEntry → UsageEntry
unstarted e = record e {
  cost_cents = pos 0;
  cost_microcents = some (pos 0);
  accounting = not_billable;
}

-- The cost before the reservation is looked at.
unfoldable pub billed_entry : Bool → UsageEntry → JournalRecord → Option UsageEntry
unfolding classified normalize_cost is_not_billable
billed_entry recovering e j =
    let entry = if recovering then recovered_entry j.base else e in
    let known = record entry { accounting = classify_accounting entry } in
    normalize_cost (if j.started then known else unstarted known)

-- A settled reservation decides the cost; an open one is settled, for its estimate where the cost is
-- not known.
unfoldable pub settle_reservation :
    Bool → UsageEntry → Option JournalReservation → UsageEntry × Option JournalReservation
unfolding is_unknown is_guessed
settle_reservation started e none = (e, none)
settle_reservation started e (some r) =
    if r.settled
    then (
      record e {
        cost_cents = r.settled_cents;
        cost_microcents = r.settled_microcents;
        accounting =
            if not (
                eqb_ℤ (effective_microcents e.cost_cents e.cost_microcents)
                  (effective_microcents r.settled_cents r.settled_microcents))
              || is_unknown e.accounting
            then estimated
            else e.accounting;
      },
      some r,
    )
    else let billed =
        if started && is_guessed e.accounting
        then record e {
          cost_cents = r.estimated_cents;
          cost_microcents = r.estimated_microcents;
          accounting = estimated;
        }
        else e in
      (
        billed,
        some (record r {
          settled_cents = billed.cost_cents;
          settled_microcents = billed.cost_microcents;
          settled = true;
        }),
      )

pub stored_state : Accounting → Accounting
stored_state blank = legacy
stored_state a = a

-- The row that insertUsage writes; none is its error.
unfoldable pub inserted_row : UsageEntry → Option Cost
unfolding whole_cents stored_state
inserted_row e =
    if is_negative e.cost_microcents
    then none
    else elim (whole_cents e.cost_cents e.cost_microcents) [
      | none ↦ none
      | some c ↦
          some (record {
            cents = c;
            microcents = e.cost_microcents;
            state = stored_state e.accounting;
          })
    ]

abbrev pub receipt_of : ℕ → ℤ → Option ℤ → Accounting → Receipt
receipt_of id cents exact state = record {
  id = id;
  cents = cents;
  microcents = effective_microcents cents exact;
  state = state;
}

unfoldable pub write_books :
    Books → UsageEntry → Option JournalReservation → Result AccountingError (Receipt × Books)
unfolding inserted_row
write_books b e r = elim (inserted_row e) [
  | none ↦ err negative_cost
  | some row ↦
      let id = length b.usage_log in
      ok (
        receipt_of id e.cost_cents e.cost_microcents e.accounting,
        record {
          record_of = record b.record_of { usage_id = some id; complete = true };
          reservation = r;
          usage_log = b.usage_log ++ row ∷ [];
        },
      )
]

-- The receipt of a request that is complete.
unfoldable pub read_books : Books → Option ℕ → Result AccountingError (Receipt × Books)
unfolding get_elem?
read_books b none = err entry_removed
read_books b (some id) = elim (get_elem? b.usage_log id) [
  | none ↦ err entry_removed
  | some row ↦ ok (receipt_of id row.cents row.microcents row.state, b)
]

unfoldable pub finalize_pending :
    Bool → UsageEntry → Books → Result AccountingError (Receipt × Books)
unfolding billed_entry settle_reservation write_books
finalize_pending recovering e b = elim (billed_entry recovering e b.record_of) [
  | none ↦ err negative_cost
  | some billed ↦
      let s = settle_reservation b.record_of.started billed b.reservation in write_books b s.0 s.1
]

-- `FinalizeUsage`, or one intent of `ReconcileAccounting`.
unfoldable pub finalize_journal :
    Bool → UsageEntry → Books → Result AccountingError (Receipt × Books)
unfolding finalize_pending read_books
finalize_journal recovering e b =
    if not recovering && not (eqb_ℤ e.team_id b.record_of.base.team_id)
    then err principal_mismatch
    else if b.record_of.complete
    then read_books b b.record_of.usage_id
    else finalize_pending recovering e b
