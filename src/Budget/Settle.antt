-- ===== src/Budget/Settle.antt =====
-- `Settle` and `SettleEstimated` of internal/budget/service.go, over the rows of
-- budget_reservations, each with its request id. Their one UPDATE changes the rows with the id whose
-- status is "reserved".
pub mod Once
mod Examples
use Prim.Native.String.{String}
use text.Mathlib.Text.{◌==◌ as str_eq}
use gatemux.Common.{
  Bool, true, false, ◌&&◌, Option, none, some, List, [], ◌∷◌, if◌then◌else◌, ℤ, pos, ltb_ℤ, Result,
  ok, err,
}
use gatemux.Cost.Microcents.{ceil_cents}

pub data Status : Type 0 where
  reserved settled : Status

pub record ReservationRow : Type 0 where
  pub request_id : String
  pub estimated_cost_cents : ℤ
  pub estimated_cost_microcents : ℤ
  pub settled_cost_cents : ℤ
  pub settled_cost_microcents : Option ℤ
  pub status : Status

pub data SettleError : Type 0 where
  negative_cost database_failed : SettleError

abbrev pub is_reserved : Status → Bool
is_reserved reserved = true
is_reserved settled = false

abbrev pub matches : String → ReservationRow → Bool
matches id row = str_eq row.request_id id && is_reserved row.status

abbrev pub settled_at : ℤ → ℤ → ReservationRow → ReservationRow
settled_at microcents cents row = record row {
  settled_cost_microcents = some microcents;
  settled_cost_cents = cents;
  status = settled;
}

pub settle_rows : String → ℤ → ℤ → List ReservationRow → List ReservationRow
settle_rows id microcents cents [] = []
settle_rows id microcents cents (row ∷ rows) =
    (if matches id row then settled_at microcents cents row else row)
    ∷ settle_rows id microcents cents rows

abbrev settle_with :
    String → ℤ → Option ℤ → List ReservationRow → Result SettleError (List ReservationRow)
settle_with id microcents none rows = err negative_cost
settle_with id microcents (some cents) rows = ok (settle_rows id microcents cents rows)

-- Whether the query fails is an argument.
pub settle : Bool → String → ℤ → List ReservationRow → Result SettleError (List ReservationRow)
settle fails id microcents rows =
    if ltb_ℤ microcents (pos 0)
    then err negative_cost
    else if str_eq id ""
    then ok rows
    else if fails
    then err database_failed
    else settle_with id microcents (ceil_cents microcents) rows

pub settle_estimated_rows : String → List ReservationRow → List ReservationRow
settle_estimated_rows id [] = []
settle_estimated_rows id (row ∷ rows) =
    (if matches id row
      then settled_at row.estimated_cost_microcents row.estimated_cost_cents row
      else row)
    ∷ settle_estimated_rows id rows

-- The cents of the row that the UPDATE returns, 0 without one.
pub returned_cents : String → List ReservationRow → ℤ
returned_cents id [] = pos 0
returned_cents id (row ∷ rows) =
    if matches id row then row.estimated_cost_cents else returned_cents id rows

pub settle_estimated :
    Bool → String → List ReservationRow → Result SettleError (ℤ × List ReservationRow)
settle_estimated fails id rows =
    if str_eq id ""
    then ok (pos 0, rows)
    else if fails
    then err database_failed
    else ok (returned_cents id rows, settle_estimated_rows id rows)
