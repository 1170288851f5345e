-- ===== src/Guardrails/Match.antt =====
-- The search of internal/guardrails/guardrails.go for literal terms: `FindStringIndex` of a quoted
-- term under `(?i)`, and the loop of `Push` over its matches. Two runes match where `folds` says that
-- they differ in case only.
use gatemux.Common.{
  ℕ, zero, suc, ◌+◌, ◌-◌, ◌≤◌, ◌<◌, ◌≡◌, refl, inl, inr, Bool, true, false, ◌&&◌, Option, none,
  some, List, [], ◌∷◌, ◌++◌, length, if◌then◌else◌, arith, Bool-cases, Bool-apart, Option-cases,
  Elem, ltb, subst, sym,
}
use gatemux.Common.Split.{drop, length-drop, drop-drop}

module _ (folds : ℕ → ℕ → Bool) where
  unfoldable pub is_prefix : List ℕ → List ℕ → Bool
  is_prefix [] s = true
  is_prefix (t ∷ ts) [] = false
  is_prefix (t ∷ ts) (c ∷ cs) = folds t c && is_prefix ts cs

  -- The leftmost match.
  unfoldable pub find_index : List ℕ → List ℕ → Option ℕ
  unfolding is_prefix
  find_index t [] = if is_prefix t [] then some 0 else none
  find_index t (c ∷ cs) =
      let rest = find_index t cs in
      if is_prefix t (c ∷ cs) then some 0 else elim rest [ none ↦ none | some n ↦ some (suc n) ]

  -- All matches that the loop meets, from `position` on. A round passes one rune at least, where the
  -- term has one.
  unfoldable pub spans : ℕ → List ℕ → ℕ → List ℕ → List (ℕ × ℕ)
  unfolding find_index
  spans zero t position s = []
  spans (suc fuel) t position [] = []
  spans (suc fuel) t position (c ∷ cs) = elim (find_index t (c ∷ cs)) [
    | none ↦ []
    | some m ↦
        let end = m + length t in
        (position + m, position + end) ∷ spans fuel t (position + end) (drop end (c ∷ cs))
  ]

  pub is_prefix-nil : (t : List ℕ) (n : ℕ) → 0 < length t → is_prefix t (drop n []) ≡ false
  unfolding is_prefix drop
  is_prefix-nil [] n k = absurd (omega arith)
  is_prefix-nil (t ∷ ts) n k = refl

  -- A match stands where nothing stood before the search.
  pub find_index-none :
      (t s : List ℕ) (n : ℕ) → 0 < length t → find_index t s ≡ none → is_prefix t (drop n s) ≡ false
  unfolding find_index is_prefix drop
  find_index-none [] s n k h = absurd (omega arith)
  find_index-none (t ∷ ts) [] n k h = refl
  find_index-none (t ∷ ts) (c ∷ cs) zero k h = ground arith
  find_index-none (t ∷ ts) (c ∷ cs) (suc n) k h = find_index-none (t ∷ ts) cs n k (ground arith)

  -- Where no place has a match, there is none.
  pub find_index-absent :
      (t s : List ℕ) → ((n : ℕ) → is_prefix t (drop n s) ≡ true → ⊥) → find_index t s ≡ none
  unfolding find_index is_prefix drop
  find_index-absent t [] h = elim (Bool-cases (is_prefix t [])) [
    | inl p ↦ absurd (h 0 p)
    | inr p ↦ rw (p, find_index) refl
  ]
  find_index-absent t (c ∷ cs) h =
      let later = find_index-absent t cs (λ n p. h (suc n) p) in
      elim (Bool-cases (is_prefix t (c ∷ cs))) [
        | inl p ↦ absurd (h 0 p)
        | inr p ↦ rw (p, later, find_index) refl
      ]

  -- A prefix lies within the front, if it is no longer.
  pub is_prefix-front :
      (t xs ys : List ℕ)
      → length t ≤ length xs
      → is_prefix t (xs ++ ys) ≡ true
      → is_prefix t xs ≡ true
  unfolding is_prefix
  is_prefix-front [] xs ys k h = refl
  is_prefix-front (t ∷ ts) [] ys k h = absurd (omega arith)
  is_prefix-front (t ∷ ts) (x ∷ xs) ys k h = ground (arith, is_prefix-front ts xs ys)

  pub find_index-le :
      (t s : List ℕ) (n : ℕ) {m : ℕ}
      → find_index t s ≡ some m
      → is_prefix t (drop n s) ≡ true
      → m ≤ n
  unfolding find_index drop
  find_index-le t [] n h p = ground arith
  find_index-le t (c ∷ cs) zero h p = ground arith
  find_index-le t (c ∷ cs) (suc n) {m} h p = elim (Bool-cases (is_prefix t (c ∷ cs))) [
    | inl here ↦ ground arith
    | inr later ↦ elim (Option-cases (find_index t cs)) [
      | inl absent ↦ absurd (ground arith)
      | inr (k, at) ↦ ground (arith, find_index-le t cs n at p)
    ]
  ]

  -- The loop over the matches passes over no place where one starts.
  pub record Covered (n : ℕ) (found : List (ℕ × ℕ)) : Type 0 where
    pub first : ℕ
    pub last : ℕ
    pub span : Elem (first, last) found
    pub after : first ≤ n
    pub before : n < last

  pub spans-Covered :
      (fuel : ℕ) (t : List ℕ) (position : ℕ) (s : List ℕ) (n : ℕ)
      → length s ≤ fuel
      → 0 < length t
      → is_prefix t (drop n s) ≡ true
      → Covered (position + n) (spans fuel t position s)
  unfolding spans
  spans-Covered fuel t position [] n e k p = absurd (Bool-apart (is_prefix-nil t n k) p)
  spans-Covered zero t position (c ∷ cs) n e k p = absurd (omega arith)
  spans-Covered (suc fuel) t position (c ∷ cs) n e k p =
      elim (Option-cases (find_index t (c ∷ cs))) [
        | inl absent ↦ absurd (Bool-apart (find_index-none t (c ∷ cs) n k absent) p)
        | inr (m, at) ↦
            rw (at, spans)
              (elim (Bool-cases (ltb n (m + length t))) [
                | inl near ↦ record {
                  first = position + m;
                  last = position + (m + length t);
                  span = inl refl;
                  after = omega (arith, find_index-le t (c ∷ cs) n at p);
                  before = ground arith;
                }
                | inr far ↦
                    let end = m + length t in
                    let le : end ≤ n = ground arith in
                    let rest =
                      spans-Covered fuel t (position + end) (drop end (c ∷ cs)) (n - end)
                        (omega (arith, e, k, length-drop end (c ∷ cs))) k
                        (subst (λ u. is_prefix t u ≡ true) (sym (drop-drop end n (c ∷ cs) le)) p) in
                    record {
                      first = rest.first;
                      last = rest.last;
                      span = inr rest.span;
                      after = omega (arith, rest.after, le);
                      before = omega (arith, rest.before, le);
                    }
              ])
      ]
