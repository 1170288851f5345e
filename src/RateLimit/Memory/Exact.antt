-- ===== src/RateLimit/Memory/Exact.antt =====
-- One call of `checkMemory` of internal/ratelimit/limiter.go.
use gatemux.Common.{
  ℕ, ◌+◌, ◌≤◌, ◌≡◌, ◌≢◌, ◌↔◌, ◌⊎◌, refl, ap, sym, ◌∙◌, subst, inl, inr, false, ◌||◌, Bool-cases,
  List, All, All-map2, arith, ltb, ℤ, pos, negsuc, pos_part, ◌≤ℤ◌, ◌<ℤ◌, ◌+ℤ◌, ◌-ℤ◌, ltb_ℤ, wrap64,
  IsInt64, max_int64, Result, ok,
}
use gatemux.Common.Maps.{IsMap}
use gatemux.RateLimit.Specs.{CounterKey, LimitSpec}
use gatemux.RateLimit.Memory.{
  Counter, Memory, Outcome, CheckError, allowed, denied, counter_eq, prune, over, check_specs,
  charge, settle, full, check_memory,
}
use gatemux.RateLimit.Memory.Used.{used_at, used_at-prune, used_at-check_specs}
use gatemux.RateLimit.Memory.Admit.{
  Passes, check_specs-allowed, check_specs-is_fresh, IsDistinct, charged, used_at-charge,
  charged_once,
}

-- A limit as `buildSpecs` makes it: a positive int and a positive increment.
pub record IsValidSpec (s : LimitSpec) : Type 0 where
  pub limit_positive : pos 0 <ℤ s.limit
  pub limit_int : IsInt64 s.limit
  pub increment_positive : pos 0 <ℤ s.increment
  pub increment_int : IsInt64 s.increment

-- A worth that a counter can have.
abbrev pub IsWorth : ℤ → Type 0
IsWorth u = (pos 0 ≤ℤ u) × (pos_part u ≤ max_int64)

-- With its increment the counter stays within the limit.
abbrev pub HasRoom : ℤ → LimitSpec → Type 0
HasRoom u s = u +ℤ s.increment ≤ℤ s.limit

over_nat :
    (u l i : ℕ)
    → l ≤ max_int64
    → ltb_ℤ (pos l) (pos u) || ltb_ℤ (wrap64 (pos l -ℤ pos u)) (pos i) ≡ ltb l (u + i)
over_nat u l i h = ground arith

-- On valid numbers the test of the code is the plain sum, with no wrap-around.
pub over_room :
    (u : ℤ) (s : LimitSpec) → IsWorth u → IsValidSpec s → (over u s ≡ false) ↔ HasRoom u s
over_room u s w v = go u s.limit s.increment w v.limit_int v.limit_positive v.increment_positive
  where
    go :
        (u l i : ℤ)
        → IsWorth u
        → IsInt64 l
        → pos 0 <ℤ l
        → pos 0 <ℤ i
        → (over u (record { counter = s.counter; limit = l; increment = i }) ≡ false)
          ↔ (u +ℤ i ≤ℤ l)
    go (pos u) (pos l) (pos i) w n lp ip = ground (arith, over_nat u l i n.0)
    go (pos u) (pos l) (negsuc i) w n lp ip = absurd (omega arith)
    go (pos u) (negsuc l) i w n lp ip = absurd (omega arith)
    go (negsuc u) l i w n lp ip = absurd (omega arith)

pub add_exact :
    (u : ℤ) (s : LimitSpec)
    → IsWorth u
    → IsValidSpec s
    → HasRoom u s
    → (wrap64 (u +ℤ s.increment) ≡ u +ℤ s.increment) × IsWorth (u +ℤ s.increment)
add_exact u s w v h = go u s.limit s.increment w v.limit_int v.increment_positive h
  where
    go :
        (u l i : ℤ)
        → IsWorth u
        → IsInt64 l
        → pos 0 <ℤ i
        → u +ℤ i ≤ℤ l
        → (wrap64 (u +ℤ i) ≡ u +ℤ i) × IsWorth (u +ℤ i)
    go (pos u) (pos l) (pos i) w n ip h = ground arith
    go (pos u) (negsuc l) (pos i) w n ip h = absurd (ground arith)
    go (pos u) l (negsuc i) w n ip h = absurd (omega arith)
    go (negsuc u) l i w n ip h = absurd (omega arith)

outcome_cases :
    (o : Outcome × List (CounterKey × Counter))
    → ((r : List (CounterKey × Counter)) × (o ≡ (allowed, r))) ⊎ (o.0 ≢ allowed)
outcome_cases (allowed, r) = inl (r, refl)
outcome_cases (denied a b c, r) = inr (λ e. cc)

ok-injective : {a b : Outcome} → ◌≡◌ {A = Result CheckError Outcome} (ok a) (ok b) → a ≡ b
ok-injective h = cc

settle-outcome :
    (now : ℕ) (ss : List LimitSpec) (t : ℕ) (o : Outcome × List (CounterKey × Counter))
    → (settle now ss t o).0 ≡ o.0
unfolding settle
settle-outcome now ss t (allowed, r) = refl
settle-outcome now ss t (denied a b c, r) = refl

module _ (now : ℕ) (ss : List LimitSpec) (m : Memory) where
  abbrev pub pruned : Memory
  pruned = prune now m

  pub check_memory-charge :
      (check_memory now ss m).0 ≡ ok allowed
      → (r : List (CounterKey × Counter)) × (check_specs now ss pruned.counters ≡ (allowed, r))
        × ((check_memory now ss m).1.counters ≡ charge now ss r)
  unfolding check_memory settle
  check_memory-charge h = elim (Bool-cases (full ss pruned)) [
    | inl no_room ↦ absurd (ground (arith, no_room))
    | inr room ↦ elim (outcome_cases (check_specs now ss pruned.counters)) [
      | inl (r, e) ↦ (r, e, ground (arith, room, e))
      | inr refused ↦ absurd (refused (ground (arith, room)))
    ]
  ]

  pub check_memory-refused :
      (check_memory now ss m).0 ≢ ok allowed
      → ((check_memory now ss m).1.counters ≡ pruned.counters)
        ⊎ ((check_memory now ss m).1.counters ≡ (check_specs now ss pruned.counters).1)
  unfolding check_memory settle
  check_memory-refused h = elim (Bool-cases (full ss pruned)) [
    | inl no_room ↦ inl (ground (arith, no_room))
    | inr room ↦ inr (ground (arith, room))
  ]

  -- A check that is denied, or fails for want of capacity, charges nothing: every counter, of this
  -- request or not, is worth what it was.
  pub check_memory-unchanged :
      (j : CounterKey)
      → IsMap m.counters
      → (check_memory now ss m).0 ≢ ok allowed
      → used_at now j (check_memory now ss m).1.counters ≡ used_at now j m.counters
  check_memory-unchanged j h refused = elim (check_memory-refused refused) [
    | inl e ↦ rw e (used_at-prune now j m h)
    | inr e ↦ rw e (used_at-check_specs now ss j pruned.counters ∙ used_at-prune now j m h)
  ]

  -- An allowed check has charged every counter that its limits name.
  pub check_memory-total :
      (j : CounterKey)
      → IsMap m.counters
      → (check_memory now ss m).0 ≡ ok allowed
      → used_at now j (check_memory now ss m).1.counters ≡ charged j ss (used_at now j m.counters)
  check_memory-total j h passed =
      let (r, e, after) = check_memory-charge passed in
      let before : used_at now j r ≡ used_at now j m.counters =
        ap (λ (x : Outcome × List (CounterKey × Counter)). used_at now j x.1) (sym e)
        ∙ (used_at-check_specs now ss j pruned.counters ∙ used_at-prune now j m h) in
      ap (used_at now j) after
      ∙ (used_at-charge now ss j r (check_specs-is_fresh now ss pruned.counters r e)
          ∙ ap (charged j ss) before)

  abbrev Charged : List (CounterKey × Counter) → LimitSpec → Type 0
  Charged c s =
      let u = used_at now s.counter c in
      HasRoom u s × (wrap64 (u +ℤ s.increment) ≡ u +ℤ s.increment)

  -- A check that is allowed is charged in full: each of its counters grows by exactly its increment,
  -- and stays within its limit.
  pub check_memory-charged :
      IsMap m.counters
      → IsDistinct ss
      → All IsValidSpec ss
      → All (λ s. IsWorth (used_at now s.counter m.counters)) ss
      → (check_memory now ss m).0 ≡ ok allowed
      → All
          (λ s.
            let after = used_at now s.counter (check_memory now ss m).1.counters in
            (after ≡ used_at now s.counter m.counters +ℤ s.increment) × (after ≤ℤ s.limit))
          ss
  check_memory-charged h d v w passed =
      let total = λ (j : CounterKey). check_memory-total j h passed in
      let (r, e, after) = check_memory-charge passed in
      let room =
        (check_specs-allowed now ss pruned.counters).0
          (ap (λ (x : Outcome × List (CounterKey × Counter)). x.0) e) in
      let once = charged_once ss (λ j. used_at now j m.counters) d in
      let sound : All (λ s. IsWorth (used_at now s.counter m.counters) × IsValidSpec s) ss =
        All-map2 ss (λ s x y. (x, y)) w v in
      let passes : All (λ s. over (used_at now s.counter m.counters) s ≡ false) ss =
        All-map2 ss (λ s x p. ap (λ u. over u s) (sym (used_at-prune now s.counter m h)) ∙ p) sound
          room in
      let fits : All (Charged m.counters) ss =
        All-map2 ss
          (λ s x p. let k = (over_room _ s x.0 x.1).0 p in (k, (add_exact _ s x.0 x.1 k).0)) sound
          passes in
      All-map2 ss
        (λ s c fit.
          let exact = total s.counter ∙ c ∙ fit.1 in
          (exact, subst (λ u. u ≤ℤ s.limit) (sym exact) fit.0))
        once fits

  pub check_memory-outcome :
      full ss pruned ≡ false → (check_memory now ss m).0 ≡ ok (check_specs now ss pruned.counters).0
  unfolding check_memory
  check_memory-outcome room =
      rw (room, check_memory) (ap ok (settle-outcome now ss pruned.pruned_at _))

  -- Where the counters have the capacity, a check is allowed exactly when every limit has room for
  -- its increment, whatever the other limits.
  pub check_memory-allowed :
      IsMap m.counters
      → All IsValidSpec ss
      → All (λ s. IsWorth (used_at now s.counter m.counters)) ss
      → full ss (prune now m) ≡ false
      → ((check_memory now ss m).0 ≡ ok allowed)
        ↔ All (λ s. HasRoom (used_at now s.counter m.counters) s) ss
  check_memory-allowed h v w room =
      let sound : All (λ s. IsWorth (used_at now s.counter m.counters) × IsValidSpec s) ss =
        All-map2 ss (λ s x y. (x, y)) w v in
      let test = check_specs-allowed now ss pruned.counters in
      let same = λ (s : LimitSpec). ap (λ u. over u s) (used_at-prune now s.counter m h) in
      let forward = λ (k : All (Passes now pruned.counters) ss).
        All-map2 {R = λ s. HasRoom (used_at now s.counter m.counters) s} ss
          (λ s x p. (over_room _ s x.0 x.1).0 (sym (same s) ∙ p)) sound k in
      let backward = λ (k : All (λ s. HasRoom (used_at now s.counter m.counters) s) ss).
        All-map2 {R = Passes now pruned.counters} ss (λ s x p. same s ∙ (over_room _ s x.0 x.1).1 p)
          sound k in
      let outcome = check_memory-outcome room in
      (
        (λ k. forward (test.0 (ok-injective (sym outcome ∙ k)))),
        (λ k. outcome ∙ ap ok (test.1 (backward k))),
      )
