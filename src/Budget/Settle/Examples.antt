-- ===== src/Budget/Settle/Examples.antt =====
-- A reservation that is settled at its actual cost.
use gatemux.Common.{◌≡◌, refl, false, none, some, [], ◌∷◌, if◌then◌else◌, pos, ltb_ℤ, ok, err}
use gatemux.Cost.Microcents.Examples.{one_cent}
use gatemux.Budget.Settle.{
  ReservationRow, reserved, settled, negative_cost, settle_rows, settle, settle_estimated,
}
use gatemux.Budget.Settle.Once.{settle_once}

abbrev before : ReservationRow
before = record {
  request_id = "r1";
  estimated_cost_cents = pos 2;
  estimated_cost_microcents = pos 1500000;
  settled_cost_cents = pos 0;
  settled_cost_microcents = none;
  status = reserved;
}

abbrev after : ReservationRow
after = record before {
  settled_cost_cents = pos 1;
  settled_cost_microcents = some (pos 135000);
  status = settled;
}

settled_first : settle false "r1" (pos 135000) (before ∷ []) ≡ ok (after ∷ [])
unfolding settle settle_rows
settled_first = rw one_cent refl

settle_once_example :
    (settle false "r1" (pos 9) (after ∷ [])
      ≡ (if ltb_ℤ (pos 9) (pos 0) then err negative_cost else ok (after ∷ [])))
    × (settle_estimated false "r1" (after ∷ []) ≡ ok (pos 0, after ∷ []))
settle_once_example =
    settle_once "r1" (pos 135000) (pos 9) (before ∷ []) (after ∷ []) refl settled_first
