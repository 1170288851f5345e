-- ===== src/Common/Threads.antt =====
-- Goroutines as a list of program counters, and sums over them.
use Prim.Native.Nat.{ℕ, zero, suc, ◌+◌, ◌≤◌}
use mathlib.Core.Path.{◌≡◌, refl, subst, ap}
use mathlib.Core.Option.{Option, none, some}
use mathlib.Core.List.{List, [], ◌∷◌}
use native.Mathlib.Omega.{arith}
use gatemux.Common.Lists.{All}

module _ {A : Type 0} where
  get_or : A → Option A → A
  get_or z none = z
  get_or z (some x) = x

  pub some-injective : {a b : A} → some a ≡ some b → a ≡ b
  unfolding get_or
  some-injective {a = a} p = ap (get_or a) p

  unfoldable pub get_elem? : List A → ℕ → Option A
  get_elem? [] n = none
  get_elem? (x ∷ xs) zero = some x
  get_elem? (x ∷ xs) (suc n) = get_elem? xs n

  unfoldable pub set : List A → ℕ → A → List A
  set [] n y = []
  set (x ∷ xs) zero y = y ∷ xs
  set (x ∷ xs) (suc n) y = x ∷ set xs n y

  abbrev pub total : (A → ℕ) → List A → ℕ
  total w [] = 0
  total w (x ∷ xs) = w x + total w xs

  unfoldable pub replicate : ℕ → A → List A
  replicate zero x = []
  replicate (suc n) x = x ∷ replicate n x

  -- One thread's step changes a sum by that thread's part.
  pub total-set :
      (w : A → ℕ) (xs : List A) (n : ℕ) (x y : A)
      → get_elem? xs n ≡ some x
      → total w (set xs n y) + w x ≡ total w xs + w y
  unfolding get_elem? set
  total-set w [] n x y h = cc
  total-set w (z ∷ xs) zero x y h = let e : z ≡ x = some-injective h in rw e (omega arith)
  total-set w (z ∷ xs) (suc n) x y h = omega (arith, total-set w xs n x y h)

  pub total-replicate : (w : A → ℕ) (n : ℕ) (x : A) → w x ≡ 0 → total w (replicate n x) ≡ 0
  unfolding replicate
  total-replicate w zero x h = refl
  total-replicate w (suc n) x h = omega (arith, total-replicate w n x h)

  pub le-total :
      (w : A → ℕ) (xs : List A) (n : ℕ) (x : A) → get_elem? xs n ≡ some x → w x ≤ total w xs
  unfolding get_elem?
  le-total w [] n x h = cc
  le-total w (z ∷ xs) zero x h = let e : z ≡ x = some-injective h in rw e (omega arith)
  le-total w (z ∷ xs) (suc n) x h = omega (arith, le-total w xs n x h)

  pub All-set {ℓ} :
      (P : A → Type ℓ) (xs : List A) (n : ℕ) (y : A) → All P xs → P y → All P (set xs n y)
  unfolding set
  All-set P [] n y h k = tt
  All-set P (z ∷ xs) zero y h k = (k, h.1)
  All-set P (z ∷ xs) (suc n) y h k = (h.0, All-set P xs n y h.1 k)

  pub All-get_elem? {ℓ} :
      (P : A → Type ℓ) (xs : List A) (n : ℕ) (x : A) → All P xs → get_elem? xs n ≡ some x → P x
  unfolding get_elem?
  All-get_elem? P [] n x h e = cc
  All-get_elem? P (z ∷ xs) zero x h e = subst P (some-injective e) h.0
  All-get_elem? P (z ∷ xs) (suc n) x h e = All-get_elem? P xs n x h.1 e

  pub All-replicate {ℓ} : (P : A → Type ℓ) (n : ℕ) (x : A) → P x → All P (replicate n x)
  unfolding replicate
  All-replicate P zero x h = tt
  All-replicate P (suc n) x h = (h, All-replicate P n x h)
