-- ===== src/Router/Select/Bands.antt =====
-- The candidates by priority in `ResolveWithContext` of internal/router/router.go.
use gatemux.Common.{
  ◌≡◌, refl, ap, sym, ◌∙◌, subst, ◌⊎◌, inl, inr, Bool, true, false, Bool-cases, Option, none, some,
  Option-cases, List, [], ◌∷◌, All, Elem, All-Elem, arith, ℤ, ◌≤ℤ◌, eqb_ℤ, eqb_ℤ→eq, Elem-sort_by,
  sort_by-IsAscending, IsAscending,
}
use gatemux.Router.Types.{AliasTarget}
use gatemux.Router.Select.{
  Registry, Query, suits, is_closed, is_candidate, candidates, has_priority, distinct_priorities,
  ordered_priorities, first_band, find_band,
}

some_triple :
    {p p' : ℤ} {c c' : AliasTarget} {cs cs' : List AliasTarget}
    → ◌≡◌ {A = Option (ℤ × AliasTarget × List AliasTarget)} (some (p, c, cs)) (some (p', c', cs'))
    → (p ≡ p') × (c ≡ c') × (cs ≡ cs')
some_triple h = (cc, cc, cc)

cons_eq : {c c' : AliasTarget} {cs cs' : List AliasTarget} → c ≡ c' → cs ≡ cs' → c ∷ cs ≡ c' ∷ cs'
cons_eq h k = cc

module _ (r : Registry) (q : Query) where
  is_candidate_lem :
      (h : Bool) (p : ℤ) (t : AliasTarget)
      → is_candidate r q h p t ≡ true
      → (t.priority ≡ p) × (suits r q t ≡ true) × (h ≡ true → is_closed r q t ≡ true)
  unfolding is_candidate
  is_candidate_lem h p t e = let same = eqb_ℤ→eq t.priority p in ground (arith, same)

  candidates-Elem :
      (h : Bool) (p : ℤ) (ts : List AliasTarget) (t : AliasTarget)
      → Elem t (candidates r q h p ts)
      → Elem t ts × (is_candidate r q h p t ≡ true)
  unfolding candidates
  candidates-Elem h p [] t e = absurd e
  candidates-Elem h p (x ∷ ts) t e = elim (Bool-cases (is_candidate r q h p x)) [
    | inr n ↦ let (at, ok) = candidates-Elem h p ts t (rw (n, candidates) at e) in (inr at, ok)
    | inl y ↦
        let k : (t ≡ x) ⊎ Elem t (candidates r q h p ts) = rw (y, candidates) at e in
        elim k [
          | inl same ↦ (inl same, ap (is_candidate r q h p) same ∙ y)
          | inr later ↦ let (at, ok) = candidates-Elem h p ts t later in (inr at, ok)
        ]
  ]

  Elem-candidates :
      (h : Bool) (p : ℤ) (ts : List AliasTarget) (t : AliasTarget)
      → Elem t ts
      → is_candidate r q h p t ≡ true
      → Elem t (candidates r q h p ts)
  unfolding candidates
  Elem-candidates h p [] t e ok = absurd e
  Elem-candidates h p (x ∷ ts) t (inl same) ok =
      rw (ap (is_candidate r q h p) (sym same) ∙ ok) (inl same)
  Elem-candidates h p (x ∷ ts) t (inr later) ok =
      let rest = Elem-candidates h p ts t later ok in
      elim (Bool-cases (is_candidate r q h p x)) [ inl y ↦ rw y (inr rest) | inr n ↦ rw n rest ]

  -- A band that was found, and what it says of the others.
  pub record Found (h : Bool) (ts : List AliasTarget) (ps : List ℤ) (p : ℤ) (c : AliasTarget)
      (cs : List AliasTarget) : Type 0 where
    pub band : candidates r q h p ts ≡ c ∷ cs
    pub first : All (λ x. (p ≤ℤ x) ⊎ (candidates r q h x ts ≡ [])) ps

  list_cases :
      (xs : List AliasTarget)
      → (xs ≡ []) ⊎ ((c : AliasTarget) × (cs : List AliasTarget) × (xs ≡ c ∷ cs))
  list_cases [] = inl refl
  list_cases (c ∷ cs) = inr (c, cs, refl)

  above :
      (p : ℤ) (ts : List AliasTarget) (h : Bool) (ps : List ℤ)
      → All (λ x. p ≤ℤ x) ps
      → All (λ x. (p ≤ℤ x) ⊎ (candidates r q h x ts ≡ [])) ps
  above p ts h [] k = tt
  above p ts h (x ∷ ps) k = (inl k.0, above p ts h ps k.1)

  first_band-Found :
      (h : Bool) (ts : List AliasTarget) (ps : List ℤ) {p : ℤ} {c : AliasTarget}
      {cs : List AliasTarget}
      → IsAscending (λ x. x) ps
      → first_band r q h ts ps ≡ some (p, c, cs)
      → Found h ts ps p c cs
  unfolding first_band
  first_band-Found h ts [] asc e = absurd (ground arith)
  first_band-Found h ts (x ∷ ps) {p = p} asc e = elim (list_cases (candidates r q h x ts)) [
    | inl empty ↦
        let f = first_band-Found h ts ps asc.1 (rw (empty, first_band) at e) in
        record { band = f.band; first = (inr empty, f.first) }
    | inr (c, cs, full) ↦
        let k = rw (full, first_band) at e in
        let (same, e1, e2) = some_triple k in
        record {
          band = ap (λ y. candidates r q h y ts) (sym same) ∙ full ∙ cons_eq e1 e2;
          first = (
            inl (subst (λ y. y ≤ℤ x) same (omega arith)),
            above p ts h ps (subst (λ y. All (λ z. y ≤ℤ z) ps) same asc.0),
          );
        }
  ]

  first_band-none :
      (h : Bool) (ts : List AliasTarget) (ps : List ℤ)
      → first_band r q h ts ps ≡ none
      → All (λ x. candidates r q h x ts ≡ []) ps
  unfolding first_band
  first_band-none h ts [] e = tt
  first_band-none h ts (x ∷ ps) e = elim (list_cases (candidates r q h x ts)) [
    | inl empty ↦ (empty, first_band-none h ts ps (rw (empty, first_band) at e))
    | inr (c, cs, full) ↦ absurd (ground (arith, full))
  ]

has_priority_lem : (p : ℤ) (xs : List ℤ) → has_priority p xs ≡ true → Elem p xs
has_priority_lem p [] h = absurd (ground arith)
has_priority_lem p (x ∷ xs) h = elim (Bool-cases (eqb_ℤ x p)) [
  | inl e ↦ inl (sym ((eqb_ℤ→eq x p) e))
  | inr n ↦ inr (has_priority_lem p xs (ground (arith, n)))
]

-- Every priority that is not seen yet is listed.
distinct_priorities-Elem :
    (seen : List ℤ) (ts : List AliasTarget) (t : AliasTarget)
    → Elem t ts
    → Elem t.priority seen ⊎ Elem t.priority (distinct_priorities seen ts)
unfolding distinct_priorities
distinct_priorities-Elem seen [] t e = absurd e
distinct_priorities-Elem seen (x ∷ ts) t e = elim (Bool-cases (has_priority x.priority seen)) [
  | inl y ↦ rw y (elim e [
    | inl same ↦
        inl (subst (λ z. Elem z.priority seen) (sym same) (has_priority_lem x.priority seen y))
    | inr later ↦ distinct_priorities-Elem seen ts t later
  ])
  | inr n ↦ rw n (elim e [
    | inl same ↦ inr (inl (ap (λ (z : AliasTarget). z.priority) same))
    | inr later ↦ elim (distinct_priorities-Elem (x.priority ∷ seen) ts t later) [
      | inl (inl here) ↦ inr (inl here)
      | inl (inr before) ↦ inl before
      | inr after ↦ inr (inr after)
    ]
  ])
]

ordered_priorities-Elem :
    (ts : List AliasTarget) (t : AliasTarget) → Elem t ts → Elem t.priority (ordered_priorities ts)
unfolding ordered_priorities
ordered_priorities-Elem ts t e = elim (distinct_priorities-Elem [] ts t e) [
  | inl none_seen ↦ absurd none_seen
  | inr at ↦ Elem-sort_by (λ p. p) t.priority (distinct_priorities [] ts) at
]

module _ (r : Registry) (q : Query) where
  -- What the band that was found has in it, and that no other band comes before it.
  pub record Best (ts : List AliasTarget) (p : ℤ) (band : List AliasTarget) (healthy : Bool)
      : Type 0 where
    pub members :
        (t : AliasTarget) → Elem t band → Elem t ts × (is_candidate r q healthy p t ≡ true)
    pub first :
        (u : AliasTarget)
        → Elem u ts
        → is_candidate r q healthy u.priority u ≡ true
        → p ≤ℤ u.priority

  Found-Best :
      (h : Bool) (ts : List AliasTarget) (p : ℤ) (c : AliasTarget) (cs : List AliasTarget)
      → Found r q h ts (ordered_priorities ts) p c cs
      → Best ts p (c ∷ cs) h
  Found-Best h ts p c cs f = record {
    members = λ t at. candidates-Elem r q h p ts t (subst (Elem t) (sym f.band) at);
    first = λ u at can.
        elim (All-Elem _ (ordered_priorities ts) f.first (ordered_priorities-Elem ts u at)) [
          | inl le ↦ le
          | inr empty ↦ absurd (subst (Elem u) empty (Elem-candidates r q h u.priority ts u at can))
        ];
  }

  ordered_priorities-IsAscending :
      (ts : List AliasTarget) → IsAscending (λ p. p) (ordered_priorities ts)
  unfolding ordered_priorities
  ordered_priorities-IsAscending ts = sort_by-IsAscending (λ p. p) (distinct_priorities [] ts)

  -- No candidate of any priority.
  none_left :
      (h : Bool) (ts : List AliasTarget)
      → first_band r q h ts (ordered_priorities ts) ≡ none
      → (u : AliasTarget) → Elem u ts
      → is_candidate r q h u.priority u ≡ false
  none_left h ts e u at = elim (Bool-cases (is_candidate r q h u.priority u)) [
    | inr cannot ↦ cannot
    | inl can ↦
        let empty =
          All-Elem _ (ordered_priorities ts) (first_band-none r q h ts (ordered_priorities ts) e)
            (ordered_priorities-Elem ts u at) in
        absurd (subst (Elem u) empty (Elem-candidates r q h u.priority ts u at can))
  ]

  pub find_band-Best :
      (ts : List AliasTarget) (p : ℤ) (c : AliasTarget) (cs : List AliasTarget)
      → find_band r q ts ≡ some (p, c, cs)
      → Best ts p (c ∷ cs) true
        ⊎ (Best ts p (c ∷ cs) false
            × ((u : AliasTarget) → Elem u ts → is_candidate r q true u.priority u ≡ false))
  unfolding find_band
  find_band-Best ts p c cs e =
      elim (Option-cases (first_band r q true ts (ordered_priorities ts))) [
        | inr (b, found) ↦
            let k : first_band r q true ts (ordered_priorities ts) ≡ some (p, c, cs) =
              ground (arith, found) in
            inl (
              Found-Best true ts p c cs (
                first_band-Found r q true ts (ordered_priorities ts)
                  (ordered_priorities-IsAscending ts) k))
        | inl missing ↦
            let k : first_band r q false ts (ordered_priorities ts) ≡ some (p, c, cs) =
              ground (arith, missing) in
            inr (
              Found-Best false ts p c cs (
                  first_band-Found r q false ts (ordered_priorities ts)
                    (ordered_priorities-IsAscending ts) k),
              none_left true ts missing,
            )
      ]

  pub find_band-none :
      (ts : List AliasTarget)
      → find_band r q ts ≡ none
      → (u : AliasTarget) → Elem u ts
      → is_candidate r q false u.priority u ≡ false
  unfolding find_band
  find_band-none ts e u at =
      none_left false ts
        (elim (Option-cases (first_band r q true ts (ordered_priorities ts))) [
          | inr (b, found) ↦ absurd (ground (arith, found))
          | inl missing ↦ ground (arith, missing)
        ])
        u at
