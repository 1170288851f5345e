-- ===== src/RateLimit/Memory/Window.antt =====
-- Series of calls of `checkMemory` of internal/ratelimit/limiter.go, within one window.
use gatemux.Common.{
  ℕ, ◌/◌, ◌≡◌, ◌≢◌, ◌⊎◌, refl, ap, sym, ◌∙◌, subst, inl, inr, Bool, true, false, Bool-cases,
  Bool-apart, Option, none, some, List, [], ◌∷◌, All, Elem, All-Elem, arith, if◌then◌else◌, ltb, ℤ,
  pos, ◌≤ℤ◌, ◌+ℤ◌, leb_ℤ, +ℤ_assoc, zero-+ℤ, +ℤ-zero, ≤ℤ_trans, ok, err, Result,
}
use gatemux.RateLimit.Specs.{CounterKey, LimitSpec, window_size}
use gatemux.RateLimit.Memory.{
  Counter, Memory, Outcome, CheckError, allowed, denied, counter_eq, counter_equals, used_of,
  check_memory,
}
use gatemux.RateLimit.Memory.Used.{used_at}
use gatemux.RateLimit.Memory.Admit.{IsDistinct, increment_for, charged_other}
use gatemux.RateLimit.Memory.Exact.{
  IsValidSpec, check_memory-unchanged, check_memory-charged, check_memory-total,
}
use gatemux.RateLimit.Memory.Sound.{SoundCounter, IsSound, check_memory-IsSound, worths, ok-dec}

pub record Request : Type 0 where
  pub now : ℕ
  pub specs : List LimitSpec

abbrev is_allowed : Result CheckError Outcome → Bool
is_allowed (ok allowed) = true
is_allowed (ok (denied a b c)) = false
is_allowed (err e) = false

is_allowed-refused : (r : Result CheckError Outcome) → r ≢ ok allowed → is_allowed r ≡ false
is_allowed-refused (ok allowed) h = absurd (h refl)
is_allowed-refused (ok (denied a b c)) h = refl
is_allowed-refused (err e) h = refl

-- What a series of requests charges to a counter, those that are refused nothing.
pub admitted : CounterKey → List Request → Memory → ℤ
admitted k [] m = pos 0
admitted k (q ∷ qs) m =
    let r = check_memory q.now q.specs m in
    (if is_allowed r.0 then increment_for k q.specs else pos 0) +ℤ admitted k qs r.1

-- The limit that a spec puts on the counter is at most `cap`.
abbrev pub caps : CounterKey → ℤ → LimitSpec → Bool
caps k cap s = if counter_equals s.counter k then leb_ℤ s.limit cap else true

-- A request within the window, as `buildSpecs` makes it.
pub record InWindow (w : ℕ) (k : CounterKey) (cap : ℤ) (q : Request) : Type 0 where
  pub window : q.now / window_size ≡ w
  pub distinct : IsDistinct q.specs
  pub valid : All IsValidSpec q.specs
  pub capped : All (λ s. caps k cap s ≡ true) q.specs

find_spec :
    (k : CounterKey) (ss : List LimitSpec)
    → (All (λ t. k ≢ t.counter) ss × (increment_for k ss ≡ pos 0))
      ⊎ ((s : LimitSpec) × Elem s ss × (s.counter ≡ k) × (increment_for k ss ≡ s.increment))
find_spec k [] = inl (tt, refl)
find_spec k (s ∷ ss) = elim (Bool-cases (counter_equals s.counter k)) [
  | inl e ↦ inr (s, inl refl, (counter_eq.equals_iff s.counter k).0 e, rw e)
  | inr e ↦ elim (find_spec k ss) [
    | inl (apart, none_left) ↦ inl (
      ((λ q. Bool-apart e ((counter_eq.equals_iff s.counter k).1 (sym q))), apart),
      rw e none_left,
    )
    | inr (t, at, same, inc) ↦ inr (t, inr at, same, rw e inc)
  ]
]

-- Within one window time does not matter to a sound counter.
used_of-window :
    (t t' : ℕ) (o : Option Counter)
    → SoundCounter o
    → t / window_size ≡ t' / window_size
    → used_of t o ≡ used_of t' o
used_of-window t t' none h e = refl
used_of-window t t' (some c) h e =
    let same : ltb t c.expires_at ≡ ltb t' c.expires_at = ground arith in rw same

cap_le :
    (k : CounterKey) (cap : ℤ) (s : LimitSpec)
    → s.counter ≡ k
    → caps k cap s ≡ true
    → s.limit ≤ℤ cap
cap_le k cap s same h =
    let e : leb_ℤ s.limit cap ≡ true = rw ((counter_eq.equals_iff s.counter k).1 same) at h in
    ground arith

module _ (w : ℕ) (k : CounterKey) (cap : ℤ) where
  -- One allowed request: the counter grows by what is charged to it, and not past the cap.
  allowed_step :
      (q : Request) (m : Memory)
      → InWindow w k cap q
      → IsSound m.counters
      → (check_memory q.now q.specs m).0 ≡ ok allowed
      → used_at q.now k m.counters ≤ℤ cap
      → let after = used_at q.now k (check_memory q.now q.specs m).1.counters in
        (after ≡ used_at q.now k m.counters +ℤ increment_for k q.specs) × (after ≤ℤ cap)
  allowed_step q m v h passed below =
      let u = used_at q.now k m.counters in
      elim (find_spec k q.specs) [
        | inl (apart, nothing) ↦
            let same =
              check_memory-total q.now q.specs m k h.is_map passed
              ∙ charged_other k q.specs (used_at q.now k m.counters) apart in
            (
              same ∙ (sym (+ℤ-zero u) ∙ ap (λ x. u +ℤ x) (sym nothing)),
              subst (λ u. u ≤ℤ cap) (sym same) below,
            )
        | inr (s, at, same, inc) ↦
            let f =
              All-Elem _ q.specs
                (check_memory-charged q.now q.specs m h.is_map v.distinct v.valid
                  (worths q.now q.specs m.counters h) passed)
                at in
            let le =
              cap_le k cap s same (All-Elem (λ x. caps k cap x ≡ true) q.specs v.capped at) in
            let after = (check_memory q.now q.specs m).1.counters in
            let g =
              subst
                (λ c.
                  (used_at q.now c after ≡ used_at q.now c m.counters +ℤ s.increment)
                  × (used_at q.now c after ≤ℤ s.limit))
                same f in
            (g.0 ∙ ap (λ x. u +ℤ x) (sym inc), ≤ℤ_trans _ s.limit cap g.1 le)
      ]

  level :
      (qs : List Request) (m : Memory) (t : ℕ)
      → t / window_size ≡ w
      → All (InWindow w k cap) qs
      → IsSound m.counters
      → used_at t k m.counters ≤ℤ cap
      → used_at t k m.counters +ℤ admitted k qs m ≤ℤ cap
  unfolding admitted
  level [] m t e v h below = subst (λ x. x ≤ℤ cap) (sym (+ℤ-zero (used_at t k m.counters))) below
  level (q ∷ qs) m t e v h below =
      let u = used_at q.now k m.counters in
      let r = check_memory q.now q.specs m in
      let here : used_at t k m.counters ≡ u =
        used_of-window t q.now _ (h.counters k) (e ∙ sym v.0.window) in
      let sound = check_memory-IsSound q.now q.specs m v.0.distinct v.0.valid h in
      let under = subst (λ x. x ≤ℤ cap) here below in
      rw here (elim (ok-dec r.0) [
        | inl passed ↦
            let (grown, within) = allowed_step q m v.0 h passed under in
            let rest = level qs r.1 q.now v.0.window v.1 sound within in
            rw passed (
              subst (λ x. x ≤ℤ cap)
                (ap (λ x. x +ℤ admitted k qs r.1) grown
                  ∙ +ℤ_assoc u (increment_for k q.specs) (admitted k qs r.1))
                rest)
        | inr refused ↦
            let same = check_memory-unchanged q.now q.specs m k h.is_map refused in
            let rest =
              level qs r.1 q.now v.0.window v.1 sound (subst (λ x. x ≤ℤ cap) (sym same) under) in
            rw (is_allowed-refused r.0 refused) (
              subst (λ x. x ≤ℤ cap)
                (ap (λ x. x +ℤ admitted k qs r.1) same
                  ∙ ap (λ x. u +ℤ x) (sym (zero-+ℤ (admitted k qs r.1))))
                rest)
      ])

-- Take any series of requests, as `buildSpecs` makes them, that `checkMemory` handles one after
-- another within one window, in a memory that is sound, and any counter. When none of the requests'
-- limits on the counter is above `cap`, and the counter holds at most `cap` when the series starts,
-- then what the counter held and all that the allowed requests charge to it is together at most `cap`.
pub admitted-le-cap :
    (w : ℕ) (k : CounterKey) (cap : ℤ) (qs : List Request) (m : Memory) (t : ℕ)
    → t / window_size ≡ w
    → All (InWindow w k cap) qs
    → IsSound m.counters
    → used_at t k m.counters ≤ℤ cap
    → used_at t k m.counters +ℤ admitted k qs m ≤ℤ cap
admitted-le-cap = level
