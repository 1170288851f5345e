-- ===== src/Budget/Settle/Once.antt =====
-- Settling a request more than once, by `Settle` and `SettleEstimated` of internal/budget/service.go.
use Prim.Native.String.{String}
use text.Mathlib.Text.{◌==◌ as str_eq}
use gatemux.Common.{
  ◌≡◌, refl, ap, sym, subst, inl, inr, false, Bool-cases, some, Option-cases, List, [], ◌∷◌, All,
  if◌then◌else◌, arith, ℤ, pos, negsuc, ltb_ℤ, ok, err,
}
use gatemux.Cost.Microcents.{ceil_cents}
use gatemux.Cost.Microcents.Exact.{ceil_cents-least}
use gatemux.Budget.Settle.{
  ReservationRow, negative_cost, matches, settle_rows, settle, settle_estimated_rows,
  settle_estimated, returned_cents,
}

-- No row of the request waits for its settlement.
abbrev pub IsSettled : String → List ReservationRow → Type 0
IsSettled id rows = All (λ row. matches id row ≡ false) rows

settle_rows-IsSettled :
    (id : String) (m c : ℤ) (rows : List ReservationRow) → IsSettled id (settle_rows id m c rows)
unfolding settle_rows
settle_rows-IsSettled id m c [] = tt
settle_rows-IsSettled id m c (row ∷ rows) = elim (Bool-cases (matches id row)) [
  | inl e ↦ rw e (ground arith, settle_rows-IsSettled id m c rows)
  | inr e ↦ rw e (e, settle_rows-IsSettled id m c rows)
]

settle_rows-same :
    (id : String) (m c : ℤ) (rows : List ReservationRow)
    → IsSettled id rows
    → settle_rows id m c rows ≡ rows
unfolding settle_rows
settle_rows-same id m c [] h = refl
settle_rows-same id m c (row ∷ rows) h =
    rw h.0 (ap (λ x. row ∷ x) (settle_rows-same id m c rows h.1))

settle_estimated_rows-same :
    (id : String) (rows : List ReservationRow)
    → IsSettled id rows
    → (settle_estimated_rows id rows ≡ rows) × (returned_cents id rows ≡ pos 0)
unfolding settle_estimated_rows returned_cents
settle_estimated_rows-same id [] h = (refl, refl)
settle_estimated_rows-same id (row ∷ rows) h =
    let (same, zero) = settle_estimated_rows-same id rows h.1 in
    (rw h.0 (ap (λ x. row ∷ x) same), rw h.0 zero)

settle-rows :
    (id : String) (m : ℤ) (rows rows' : List ReservationRow)
    → str_eq id "" ≡ false
    → settle false id m rows ≡ ok rows'
    → (c : ℤ) × (ltb_ℤ m (pos 0) ≡ false)
      × (ceil_cents m ≡ some c)
      × (rows' ≡ settle_rows id m c rows)
unfolding settle
settle-rows id m rows rows' named h = elim (Bool-cases (ltb_ℤ m (pos 0))) [
  | inl e ↦ absurd (ground (arith, e))
  | inr e ↦ elim (Option-cases (ceil_cents m)) [
    | inl missing ↦ absurd (ground (arith, e, named, missing))
    | inr (c, rounded) ↦ (c, e, rounded, ground (arith, e, named, rounded))
  ]
]

settle-same :
    (id : String) (m : ℤ) (rows : List ReservationRow)
    → str_eq id "" ≡ false
    → IsSettled id rows
    → settle false id m rows ≡ (if ltb_ℤ m (pos 0) then err negative_cost else ok rows)
unfolding settle
settle-same id (negsuc n) rows named h = ground arith
settle-same id (pos n) rows named h =
    let (c, rounded, _, _) = ceil_cents-least n in
    ground (arith, named, rounded, settle_rows-same id (pos n) (pos c) rows h)

-- Once a request has been settled, settling it again changes no row, whatever the second cost (a
-- negative one is refused), and settling it by its estimate changes none and reports no cost.
pub settle_once :
    (id : String) (first second : ℤ) (rows rows' : List ReservationRow)
    → str_eq id "" ≡ false
    → settle false id first rows ≡ ok rows'
    → (settle false id second rows'
        ≡ (if ltb_ℤ second (pos 0) then err negative_cost else ok rows'))
      × (settle_estimated false id rows' ≡ ok (pos 0, rows'))
unfolding settle_estimated
settle_once id first second rows rows' named h =
    let (c, _, _, made) = settle-rows id first rows rows' named h in
    let done : IsSettled id rows' =
      subst (IsSettled id) (sym made) (settle_rows-IsSettled id first c rows) in
    let (same, zero) = settle_estimated_rows-same id rows' done in
    (settle-same id second rows' named done, ground (arith, named, same, zero))
