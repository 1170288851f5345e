-- ===== src/Common/Sort.antt =====
-- Sorting by an integer key: what sort.Slice, sort.Ints and sort.SliceStable give. Equal keys keep
-- their order.
use mathlib.Core.Logic.{inl, inr}
use mathlib.Core.List.{List, [], ◌∷◌, Perm}
use mathlib.Core.List.Perm
use native.Mathlib.Omega.{arith}
use gatemux.Common.Tests.{if◌then◌else◌, Bool-cases}
use gatemux.Common.Lists.{All, Elem}
use gatemux.Common.Int.{ℤ, ltb_ℤ, ◌≤ℤ◌}

module _ {ℓ} {A : Type ℓ} (key : A → ℤ) where
  unfoldable pub insert_by : A → List A → List A
  insert_by x [] = x ∷ []
  insert_by x (y ∷ ys) = if ltb_ℤ (key y) (key x) then y ∷ insert_by x ys else x ∷ y ∷ ys

  unfoldable pub sort_by : List A → List A
  unfolding insert_by
  sort_by [] = []
  sort_by (x ∷ xs) = insert_by x (sort_by xs)

  abbrev pub IsAscending : List A → Type 0
  IsAscending [] = Unit
  IsAscending (x ∷ xs) = All (λ y. key x ≤ℤ key y) xs × IsAscending xs

  insert_by-perm : (x : A) (xs : List A) → Perm (insert_by x xs) (x ∷ xs)
  unfolding insert_by
  insert_by-perm x [] = Perm.refl (x ∷ [])
  insert_by-perm x (y ∷ ys) = elim (Bool-cases (ltb_ℤ (key y) (key x))) [
    | inl e ↦ rw e (Perm.trans (Perm.cons y (insert_by-perm x ys)) (Perm.swap x y ys))
    | inr e ↦ rw e (Perm.refl (x ∷ y ∷ ys))
  ]

  -- Sorting loses and adds nothing.
  pub sort_by-perm : (xs : List A) → Perm (sort_by xs) xs
  unfolding sort_by
  sort_by-perm [] = Perm.nil
  sort_by-perm (x ∷ xs) = Perm.trans (insert_by-perm x (sort_by xs)) (Perm.cons x (sort_by-perm xs))

  pub All-insert_by {κ} :
      (P : A → Type κ) (x : A) (xs : List A) → P x → All P xs → All P (insert_by x xs)
  unfolding insert_by
  All-insert_by P x [] p h = (p, tt)
  All-insert_by P x (y ∷ ys) p h = elim (Bool-cases (ltb_ℤ (key y) (key x))) [
    | inl e ↦ rw e (h.0, All-insert_by P x ys p h.1)
    | inr e ↦ rw e (p, h)
  ]

  pub All-sort_by {κ} : (P : A → Type κ) (xs : List A) → All P xs → All P (sort_by xs)
  unfolding sort_by
  All-sort_by P [] h = tt
  All-sort_by P (x ∷ xs) h = All-insert_by P x (sort_by xs) h.0 (All-sort_by P xs h.1)

  weaken : (a b : ℤ) (xs : List A) → a ≤ℤ b → All (λ y. b ≤ℤ key y) xs → All (λ y. a ≤ℤ key y) xs
  weaken a b [] h k = tt
  weaken a b (x ∷ xs) h k = (omega arith, weaken a b xs h k.1)

  insert_by-IsAscending : (x : A) (xs : List A) → IsAscending xs → IsAscending (insert_by x xs)
  unfolding insert_by
  insert_by-IsAscending x [] h = (tt, tt)
  insert_by-IsAscending x (y ∷ ys) h = elim (Bool-cases (ltb_ℤ (key y) (key x))) [
    | inl e ↦
        let le : key y ≤ℤ key x = ground arith in
        rw e (All-insert_by (λ z. key y ≤ℤ key z) x ys le h.0, insert_by-IsAscending x ys h.1)
    | inr e ↦
        let le : key x ≤ℤ key y = ground arith in rw e ((le, weaken (key x) (key y) ys le h.0), h)
  ]

  -- The result rises.
  pub sort_by-IsAscending : (xs : List A) → IsAscending (sort_by xs)
  unfolding sort_by
  sort_by-IsAscending [] = tt
  sort_by-IsAscending (x ∷ xs) = insert_by-IsAscending x (sort_by xs) (sort_by-IsAscending xs)

module _ {A : Type 0} (key : A → ℤ) where
  Elem-insert_by : (z x : A) (xs : List A) → Elem z (x ∷ xs) → Elem z (insert_by key x xs)
  unfolding insert_by
  Elem-insert_by z x [] h = h
  Elem-insert_by z x (y ∷ ys) h = elim (Bool-cases (ltb_ℤ (key y) (key x))) [
    | inl e ↦ rw e (elim h [
      | inl same ↦ inr (Elem-insert_by z x ys (inl same))
      | inr (inl same) ↦ inl same
      | inr (inr later) ↦ inr (Elem-insert_by z x ys (inr later))
    ])
    | inr e ↦ rw e h
  ]

  pub Elem-sort_by : (z : A) (xs : List A) → Elem z xs → Elem z (sort_by key xs)
  unfolding sort_by
  Elem-sort_by z [] h = h
  Elem-sort_by z (x ∷ xs) (inl same) = Elem-insert_by z x (sort_by key xs) (inl same)
  Elem-sort_by z (x ∷ xs) (inr later) =
      Elem-insert_by z x (sort_by key xs) (inr (Elem-sort_by z xs later))
