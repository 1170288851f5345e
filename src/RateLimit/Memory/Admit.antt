-- ===== src/RateLimit/Memory/Admit.antt =====
-- The two loops of `checkMemory` of internal/ratelimit/limiter.go, one by one.
use gatemux.Common.{
  ℕ, ◌≡◌, ◌≢◌, ◌↔◌, refl, ap, sym, ◌∙◌, subst, inl, inr, Bool, true, false, Bool-cases, Option,
  none, some, List, [], ◌∷◌, All, All-map2, arith, ltb, if◌then◌else◌, ℤ, pos, ◌+ℤ◌, wrap64,
}
use gatemux.Common.Maps.{find, put, find-put, find-remove}
use gatemux.RateLimit.Specs.{CounterKey, LimitSpec, window_end}
use gatemux.RateLimit.Memory.{
  Counter, allowed, is_live, counter_eq, counter_equals, expire, used_of, over, check_specs, charge,
  bump,
}
use gatemux.RateLimit.Memory.Used.{used_at, used_at-expire}

-- The test that the code makes of one limit.
abbrev pub Passes : ℕ → List (CounterKey × Counter) → LimitSpec → Type 0
Passes now m s = over (used_at now s.counter m) s ≡ false

All-transport :
    (now : ℕ) (m m' : List (CounterKey × Counter)) (ss : List LimitSpec)
    → ((j : CounterKey) → used_at now j m ≡ used_at now j m')
    → All (Passes now m) ss
    → All (Passes now m') ss
All-transport now m m' [] e h = tt
All-transport now m m' (s ∷ ss) e h =
    (ap (λ u. over u s) (sym (e s.counter)) ∙ h.0, All-transport now m m' ss e h.1)

pub check_specs-allowed :
    (now : ℕ) (ss : List LimitSpec) (m : List (CounterKey × Counter))
    → ((check_specs now ss m).0 ≡ allowed) ↔ All (Passes now m) ss
unfolding check_specs
check_specs-allowed now [] m = ((λ _. tt), (λ _. refl))
check_specs-allowed now (s ∷ ss) m =
    let m' = expire now s.counter m in
    let rest = check_specs-allowed now ss m' in
    let same = λ (j : CounterKey). used_at-expire now s.counter j m in
    elim (Bool-cases (over (used_of now (find s.counter m)) s)) [
      | inl full ↦ ((λ h. absurd (ground (arith, full))), (λ h. absurd (ground (arith, full, h.0))))
      | inr room ↦ (
        (λ h. (room, All-transport now m' m ss same (rest.0 (ground (arith, room))))),
        (λ h.
            let k = rest.1 (All-transport now m m' ss (λ j. sym (same j)) h.1) in
            ground (arith, room, k)),
      )
    ]

-- A counter that is running, or is not there.
abbrev pub is_fresh : ℕ → Option Counter → Bool
is_fresh now none = true
is_fresh now (some c) = is_live now c

module _ (now : ℕ) where
  is_fresh-expire_self :
      (k : CounterKey) (m : List (CounterKey × Counter))
      → is_fresh now (find k (expire now k m)) ≡ true
  is_fresh-expire_self k m = ground (arith, find-remove k k m, counter_eq.equals_iff k k)

  is_fresh-expire :
      (k j : CounterKey) (m : List (CounterKey × Counter))
      → is_fresh now (find j m) ≡ true
      → is_fresh now (find j (expire now k m)) ≡ true
  is_fresh-expire k j m h = ground (arith, find-remove k j m, counter_eq.equals_iff k j)

  is_fresh-check_specs :
      (ss : List LimitSpec) (j : CounterKey) (m r : List (CounterKey × Counter))
      → check_specs now ss m ≡ (allowed, r)
      → is_fresh now (find j m) ≡ true
      → is_fresh now (find j r) ≡ true
  unfolding check_specs
  is_fresh-check_specs [] j m r e h = ground arith
  is_fresh-check_specs (s ∷ ss) j m r e h =
      let f = is_fresh-expire s.counter j m h in
      let rest = is_fresh-check_specs ss j (expire now s.counter m) r in ground (arith, f, rest)

  -- After the first loop no counter of the request is a stale one.
  pub check_specs-is_fresh :
      (ss : List LimitSpec) (m r : List (CounterKey × Counter))
      → check_specs now ss m ≡ (allowed, r)
      → All (λ s. is_fresh now (find s.counter r) ≡ true) ss
  unfolding check_specs
  check_specs-is_fresh [] m r e = tt
  check_specs-is_fresh (s ∷ ss) m r e =
      let m' = expire now s.counter m in
      let rest : check_specs now ss m' ≡ (allowed, r) = ground arith in
      (
        is_fresh-check_specs ss s.counter m' r rest (is_fresh-expire_self s.counter m),
        check_specs-is_fresh ss m' r rest,
      )

-- Different limits have different counters.
abbrev pub IsDistinct : List LimitSpec → Type 0
IsDistinct [] = Unit
IsDistinct (s ∷ ss) = All (λ t. s.counter ≢ t.counter) ss × IsDistinct ss

-- What a request charges to a counter.
abbrev pub increment_for : CounterKey → List LimitSpec → ℤ
increment_for j [] = pos 0
increment_for j (s ∷ ss) = if counter_equals s.counter j then s.increment else increment_for j ss

pub live-bump : (now : ℕ) → ltb now (window_end now) ≡ true
live-bump now = ground arith

pub used_of-bump :
    (now : ℕ) (i : ℤ) (o : Option Counter)
    → is_fresh now o ≡ true
    → used_of now (some (bump now i o)) ≡ wrap64 (used_of now o +ℤ i)
used_of-bump now i none h = rw (live-bump now)
used_of-bump now i (some c) h = rw (live-bump now, h)

module _ (now : ℕ) where
  pub used_at-put :
      (s : LimitSpec) (j : CounterKey) (m : List (CounterKey × Counter))
      → is_fresh now (find s.counter m) ≡ true
      → used_at now j (put s.counter (bump now s.increment (find s.counter m)) m) ≡ (
          if counter_equals s.counter j
          then wrap64 (used_at now j m +ℤ s.increment)
          else used_at now j m)
  used_at-put s j m h = elim (Bool-cases (counter_equals s.counter j)) [
    | inl same ↦
        let e = (counter_eq.equals_iff s.counter j).0 same in
        rw (find-put s.counter j (bump now s.increment (find s.counter m)) m, same)
          (subst
            (λ x.
              used_of now (some (bump now s.increment (find s.counter m)))
              ≡ wrap64 (used_of now (find x m) +ℤ s.increment))
            e (used_of-bump now s.increment (find s.counter m) h))
    | inr other ↦ rw (find-put s.counter j (bump now s.increment (find s.counter m)) m, other)
  ]

  is_fresh-put :
      (s : LimitSpec) (j : CounterKey) (m : List (CounterKey × Counter)) (o : Option Counter)
      → is_fresh now (find j m) ≡ true
      → is_fresh now (find j (put s.counter (bump now s.increment o) m)) ≡ true
  is_fresh-put s j m o h = elim (Bool-cases (counter_equals s.counter j)) [
    | inl same ↦ rw (find-put s.counter j (bump now s.increment o) m, same) (live o)
    | inr other ↦ rw (find-put s.counter j (bump now s.increment o) m, other) h
  ]
    where
      live : (o : Option Counter) → is_live now (bump now s.increment o) ≡ true
      live none = live-bump now
      live (some c) = live-bump now

  pub All-is_fresh-put :
      (s : LimitSpec) (ss : List LimitSpec) (m : List (CounterKey × Counter)) (o : Option Counter)
      → All (λ t. is_fresh now (find t.counter m) ≡ true) ss
      → All
          (λ t. is_fresh now (find t.counter (put s.counter (bump now s.increment o) m)) ≡ true)
          ss
  All-is_fresh-put s [] m o h = tt
  All-is_fresh-put s (t ∷ ts) m o h =
      (is_fresh-put s t.counter m o h.0, All-is_fresh-put s ts m o h.1)

-- A counter's worth after a request has been charged to it.
abbrev pub charged : CounterKey → List LimitSpec → ℤ → ℤ
charged j [] u = u
charged j (s ∷ ss) u =
    charged j ss (if counter_equals s.counter j then wrap64 (u +ℤ s.increment) else u)

pub used_at-charge :
    (now : ℕ) (ss : List LimitSpec) (j : CounterKey) (m : List (CounterKey × Counter))
    → All (λ t. is_fresh now (find t.counter m) ≡ true) ss
    → used_at now j (charge now ss m) ≡ charged j ss (used_at now j m)
unfolding charge
used_at-charge now [] j m h = refl
used_at-charge now (s ∷ ss) j m h =
    let o = find s.counter m in
    used_at-charge now ss j (put s.counter (bump now s.increment o) m)
      (All-is_fresh-put now s ss m o h.1)
    ∙ ap (charged j ss) (used_at-put now s j m h.0)

pub beq_ne : (a b : CounterKey) → a ≢ b → counter_equals a b ≡ false
beq_ne a b n = elim (Bool-cases (counter_equals a b)) [
  | inl same ↦ absurd (n ((counter_eq.equals_iff a b).0 same))
  | inr other ↦ other
]

-- A counter that no limit of the request names keeps its worth.
pub charged_other :
    (j : CounterKey) (ss : List LimitSpec) (u : ℤ)
    → All (λ t. j ≢ t.counter) ss
    → charged j ss u ≡ u
charged_other j [] u h = refl
charged_other j (s ∷ ss) u h = rw (beq_ne s.counter j (λ e. h.0 (sym e))) (charged_other j ss u h.1)

-- Each limit of a request is charged its increment once.
pub charged_once :
    (ss : List LimitSpec) (f : CounterKey → ℤ)
    → IsDistinct ss
    → All (λ s. charged s.counter ss (f s.counter) ≡ wrap64 (f s.counter +ℤ s.increment)) ss
charged_once [] f d = tt
charged_once (s ∷ ss) f d = (
  rw ((counter_eq.equals_iff s.counter s.counter).1 refl)
      (charged_other s.counter ss (wrap64 (f s.counter +ℤ s.increment)) d.0),
  All-map2 ss (λ t n ih. rw (beq_ne s.counter t.counter n) ih) d.0 (charged_once ss f d.1),
)
