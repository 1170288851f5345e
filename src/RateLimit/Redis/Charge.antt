-- ===== src/RateLimit/Redis/Charge.antt =====
-- The two loops of `allowScript` of internal/ratelimit/limiter.go, one by one.
use gatemux.Common.{
  ℕ, suc, ◌-◌, ◌≤◌, ◌<◌, ◌≡◌, ◌≢◌, refl, ap, sym, ◌∙◌, subst, inl, inr, Bool-cases, Option, none,
  some, List, [], ◌∷◌, All, All-map2, if◌then◌else◌, ℤ, eqb_ℤ, wrap64, wrap64-id, ◌+ℤ◌, IsInt64,
  arith,
}
use gatemux.RateLimit.Specs.{Scope, Metric, CounterKey, LimitSpec}
use gatemux.RateLimit.Memory.{over, counter_eq, counter_equals}
use gatemux.RateLimit.Memory.Admit.{IsDistinct, charged, beq_ne}
use gatemux.RateLimit.Memory.Verdict.{first_over}
use gatemux.RateLimit.Redis.{
  RedisCounters, ScriptReply, granted, limited, failed, amount, replied_spec, spec_at, is_exceeded,
  check_counters, charge_counters,
}

module _ (r : RedisCounters) where
  abbrev pub worth_of : r.Store → CounterKey → ℤ
  worth_of s j = amount (r.get j s)

  -- A sum that INCRBY can make.
  abbrev pub Fits : r.Store → LimitSpec → Type 0
  Fits s x = IsInt64 (worth_of s x.counter +ℤ x.increment) × (r.number x.increment ≡ x.increment)

  module _ (time : ℕ) (later : 0 < time) where
    charged_store : LimitSpec → r.Store → r.Store
    charged_store x s =
        let s' = r.incrby x.counter x.increment s in
        if eqb_ℤ (r.number (worth_of s x.counter +ℤ x.increment)) x.increment
        then r.pexpire x.counter time s'
        else s'

    get-charged_store :
        (x : LimitSpec) (s : r.Store) (j : CounterKey)
        → IsInt64 (worth_of s x.counter +ℤ x.increment)
        → r.get j (charged_store x s) ≡ (
            if counter_equals x.counter j
            then some (worth_of s x.counter +ℤ x.increment)
            else r.get j s)
    unfolding charged_store
    get-charged_store x s j h =
        let added = r.get-incrby x.counter x.increment s j h in
        elim (Bool-cases (eqb_ℤ (r.number (worth_of s x.counter +ℤ x.increment)) x.increment)) [
          | inl fresh ↦
              rw fresh
                (r.get-pexpire x.counter time (r.incrby x.counter x.increment s) j later ∙ added)
          | inr old ↦ rw old added
        ]

    charge_counters-cons :
        (x : LimitSpec) (xs : List LimitSpec) (s : r.Store)
        → Fits s x
        → charge_counters r time (x ∷ xs) s ≡ charge_counters r time xs (charged_store x s)
    unfolding charge_counters charged_store
    charge_counters-cons x xs s h =
        ap
          (λ inc. elim (r.incrby_reply x.counter inc s) [
            | none ↦ (failed, s)
            | some current ↦ charge_counters r time xs (
                if eqb_ℤ (r.number current) inc
                then r.pexpire x.counter time (r.incrby x.counter inc s)
                else r.incrby x.counter inc s)
          ])
          h.1
        ∙ rw (r.incrby_reply_some x.counter x.increment s h.0) refl

    worth_of-charged_store :
        (x : LimitSpec) (s : r.Store) (j : CounterKey)
        → Fits s x
        → worth_of (charged_store x s) j ≡ (
            if counter_equals x.counter j
            then wrap64 (worth_of s j +ℤ x.increment)
            else worth_of s j)
    worth_of-charged_store x s j h = elim (Bool-cases (counter_equals x.counter j)) [
      | inl same ↦
          rw (get-charged_store x s j h.0, same)
            (subst (λ k. worth_of s x.counter +ℤ x.increment ≡ wrap64 (worth_of s k +ℤ x.increment))
              ((counter_eq.equals_iff x.counter j).0 same) (sym (wrap64-id _ h.0)))
      | inr other ↦ rw (get-charged_store x s j h.0, other) refl
    ]

    worth_of-charged_store_other :
        (x y : LimitSpec) (s : r.Store)
        → Fits s x
        → x.counter ≢ y.counter
        → worth_of s y.counter ≡ worth_of (charged_store x s) y.counter
    worth_of-charged_store_other x y s h apart =
        let e = worth_of-charged_store x s y.counter h in
        let other = beq_ne x.counter y.counter apart in ground (arith, e, other)

    -- The second loop succeeds, and charges each counter as `checkMemory` does.
    pub charge_counters-charged :
        (xs : List LimitSpec) (s : r.Store)
        → IsDistinct xs
        → All (Fits s) xs
        → ((charge_counters r time xs s).0 ≡ granted)
          × ((j : CounterKey)
              → worth_of (charge_counters r time xs s).1 j ≡ charged j xs (worth_of s j))
    unfolding charge_counters
    charge_counters-charged [] s d h = (refl, (λ j. refl))
    charge_counters-charged (x ∷ xs) s d h =
        let s' = charged_store x s in
        let fits : All (Fits s') xs =
          All-map2 {R = Fits s'} xs
            (λ y apart k. (
              subst (λ u. IsInt64 (u +ℤ y.increment)) (worth_of-charged_store_other x y s h.0 apart)
                  k.0,
              k.1,
            ))
            d.0 h.1 in
        let (ok, rest) = charge_counters-charged xs s' d.1 fits in
        let next = charge_counters-cons x xs s h.0 in
        (
          ap (λ (o : ScriptReply × r.Store). o.0) next ∙ ok,
          (λ j.
              ap (λ (o : ScriptReply × r.Store). worth_of o.1 j) next
              ∙ (rest j ∙ ap (charged j xs) (worth_of-charged_store x s j h.0))),
        )

  -- What the first loop's reply denies, when the loop starts at limit `i` of the list.
  abbrev pub denies : LimitSpec → ℕ → List LimitSpec → ScriptReply → Option (Scope × Metric)
  denies first i xs granted = none
  denies first i xs (limited j ttl) =
      let x = replied_spec first (suc j - i) xs in some (x.counter.scope, x.counter.metric)
  denies first i xs failed = none

  abbrev pub StartsAt : ℕ → ScriptReply → Type 0
  StartsAt i granted = Unit
  StartsAt i (limited j ttl) = i ≤ j
  StartsAt i failed = ⊥

  StartsAt-suc : (i : ℕ) (o : ScriptReply) → StartsAt (suc i) o → StartsAt i o
  StartsAt-suc i granted h = tt
  StartsAt-suc i (limited j ttl) h = omega arith
  StartsAt-suc i failed h = h

  denies-suc :
      (first x : LimitSpec) (xs : List LimitSpec) (i : ℕ) (o : ScriptReply)
      → StartsAt (suc i) o
      → denies first i (x ∷ xs) o ≡ denies first (suc i) xs o
  unfolding replied_spec spec_at
  denies-suc first x xs i granted h = refl
  denies-suc first x xs i (limited j ttl) h =
      let e : suc j - i ≡ suc (suc (j - suc i)) = omega arith in
      let e' : suc j - suc i ≡ suc (j - suc i) = omega arith in rw (e, e') refl
  denies-suc first x xs i failed h = refl

  pub check_counters-StartsAt :
      (time i : ℕ) (xs : List LimitSpec) (s : r.Store) → StartsAt i (check_counters r time i xs s)
  unfolding check_counters
  check_counters-StartsAt time i [] s = tt
  check_counters-StartsAt time i (x ∷ xs) s = elim (Bool-cases (is_exceeded r s x)) [
    | inl full ↦ rw full (omega arith)
    | inr room ↦ rw room (StartsAt-suc i _ (check_counters-StartsAt time (suc i) xs s))
  ]

  pub denies-check_counters :
      (first : LimitSpec) (time i : ℕ) (xs : List LimitSpec) (s : r.Store)
      → All (λ x. is_exceeded r s x ≡ over (worth_of s x.counter) x) xs
      → denies first i xs (check_counters r time i xs s) ≡ first_over (worth_of s) xs
  unfolding check_counters first_over replied_spec spec_at
  denies-check_counters first time i [] s h = refl
  denies-check_counters first time i (x ∷ xs) s h = elim (Bool-cases (is_exceeded r s x)) [
    | inl full ↦
        let e : suc i - i ≡ 1 = omega arith in
        let over_full = sym h.0 ∙ full in rw (full, over_full, e) refl
    | inr room ↦
        let over_room = sym h.0 ∙ room in
        rw (room, over_room)
          (denies-suc first x xs i _ (check_counters-StartsAt time (suc i) xs s)
            ∙ denies-check_counters first time (suc i) xs s h.1)
  ]
