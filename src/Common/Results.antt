-- ===== src/Common/Results.antt =====
-- Fallible code: a value and an error, where Go returns `(T, error)`.
use mathlib.Core.Path.{◌≡◌, refl}
use mathlib.Core.Logic.{◌⊎◌, inl, inr}
use mathlib.Core.Bool.{Bool, true, false, ◌||◌}
use native.Mathlib.Omega.{arith}

pub data Result {ℓ κ} (E : Type κ) (A : Type ℓ) : Type (ℓ ⊔ κ) where
  ok : A → Result E A
  err : E → Result E A

module _ {κ} {E : Type κ} where
  infixl 5 ◌>>=◌
  abbrev pub ◌>>=◌ {ℓ μ} : {T : Type ℓ} {U : Type μ} → Result E T → (T → Result E U) → Result E U
  err failure >>= next = err failure
  ok value >>= next = next value

  infixl 5 ◌>>◌
  abbrev pub ◌>>◌ {μ} : {U : Type μ} → Result E (Unit {0}) → Result E U → Result E U
  err failure >> rest = err failure
  ok _ >> rest = rest

  -- `if bad { return failure }`
  abbrev pub reject_if : Bool → E → Result E (Unit {0})
  reject_if bad failure = elim bad [ true ↦ err failure | false ↦ ok tt ]

  -- A series of calls that comes to a value had a value at each call.
  pub >>=-ok {ℓ μ} :
      {T : Type ℓ} {U : Type μ} (run : Result E T) (next : T → Result E U) {u : U}
      → (run >>= next) ≡ ok u
      → (t : T) × (run ≡ ok t) × (next t ≡ ok u)
  >>=-ok (err failure) next h = cc
  >>=-ok (ok value) next h = (value, refl, h)

-- A disjunction that is false is false on both sides.
pub or-eq-false : (a b : Bool) → (a || b) ≡ false → (a ≡ false) × (b ≡ false)
or-eq-false a b h = ground arith

pub Result-cases {ℓ κ} :
    {E : Type κ} {A : Type ℓ} (r : Result E A) → ((a : A) × (r ≡ ok a)) ⊎ ((e : E) × (r ≡ err e))
Result-cases (ok a) = inl (a, refl)
Result-cases (err e) = inr (e, refl)

module _ {ℓ κ} {A : Type ℓ} {B : Type κ} where
  pub pair-eq : (p : A × B) {a : A} → p.0 ≡ a → p ≡ (a, p.1)
  pair-eq p e = λ i. (e i, p.1)
