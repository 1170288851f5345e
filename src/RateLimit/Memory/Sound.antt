-- ===== src/RateLimit/Memory/Sound.antt =====
-- The invariant of the in-process counters of internal/ratelimit/limiter.go.
use gatemux.Common.{
  ℕ, ◌+◌, ◌%◌, ◌≡◌, ◌≢◌, refl, ap, sym, ◌∙◌, subst, inl, inr, Bool, true, false, Bool-cases,
  Option-cases, Option, none, some, List, [], ◌∷◌, All, All-map2, arith, if◌then◌else◌, leb, ◌==◌,
  ◌||◌, pos, ok, err, Result, ◌⊎◌,
}
use gatemux.Common.Maps.{
  find, put, remove, kept, IsMap, find-put, find-remove, find-keep, put-IsMap, remove-IsMap,
  keep-IsMap,
}
use gatemux.RateLimit.Specs.{CounterKey, LimitSpec, window_size}
use gatemux.RateLimit.Memory.{
  Counter, Memory, Outcome, CheckError, allowed, denied, is_live, counter_eq, counter_equals, prune,
  expire, used_of, over, check_specs, charge, bump, check_memory,
}
use gatemux.RateLimit.Memory.Used.{used_at, used_at-check_specs}
use gatemux.RateLimit.Memory.Admit.{
  is_fresh, check_specs-allowed, check_specs-is_fresh, IsDistinct, used_at-put, All-is_fresh-put,
  beq_ne,
}
use gatemux.RateLimit.Memory.Exact.{
  IsValidSpec, IsWorth, HasRoom, add_exact, over_room, check_memory-charge, check_memory-refused,
}

-- A counter holds a non-negative int and runs out at the end of a window.
abbrev pub SoundCounter : Option Counter → Type 0
SoundCounter none = Unit
SoundCounter (some c) = IsWorth c.used × (c.expires_at % window_size ≡ 0)

pub record IsSound (m : List (CounterKey × Counter)) : Type 0 where
  pub is_map : IsMap m
  pub counters : (k : CounterKey) → SoundCounter (find k m)

pub used_of-IsWorth : (now : ℕ) (o : Option Counter) → SoundCounter o → IsWorth (used_of now o)
used_of-IsWorth now none h = omega arith
used_of-IsWorth now (some c) h = elim (Bool-cases (is_live now c)) [
  | inl e ↦ rw e h.0
  | inr e ↦ rw e (omega arith)
]

SoundCounter-kept :
    (p : Counter → Bool) (o : Option Counter) → SoundCounter o → SoundCounter (kept p o)
SoundCounter-kept p none h = tt
SoundCounter-kept p (some c) h = elim (Bool-cases (p c)) [ inl e ↦ rw e h | inr e ↦ rw e tt ]

prune-IsSound : (now : ℕ) (m : Memory) → IsSound m.counters → IsSound (prune now m).counters
unfolding prune
prune-IsSound now m h =
    elim (Bool-cases (m.pruned_at == 0 || leb (m.pruned_at + window_size) now)) [
      | inl e ↦
          rw (e, prune)
            (record {
              is_map = keep-IsMap (is_live now) m.counters h.is_map;
              counters = λ k.
                  rw (find-keep (is_live now) k m.counters h.is_map)
                    (SoundCounter-kept (is_live now) _ (h.counters k));
            })
      | inr e ↦ rw (e, prune) h
    ]

remove-IsSound :
    (k : CounterKey) (m : List (CounterKey × Counter)) → IsSound m → IsSound (remove k m)
remove-IsSound k m h = record {
  is_map = remove-IsMap k m h.is_map;
  counters = λ j. rw (find-remove k j m) (dropped (counter_equals k j) _ (h.counters j));
}
  where
    dropped :
        (b : Bool) (o : Option Counter) → SoundCounter o → SoundCounter (if b then none else o)
    dropped true o h = tt
    dropped false o h = h

expire-IsSound :
    (now : ℕ) (k : CounterKey) (m : List (CounterKey × Counter))
    → IsSound m
    → IsSound (expire now k m)
expire-IsSound now k m h = elim (Option-cases (find k m)) [
  | inl e ↦ rw (e, expire) h
  | inr (c, e) ↦ elim (Bool-cases (is_live now c)) [
    | inl l ↦ rw (e, expire) (rw l h)
    | inr l ↦ rw (e, expire) (rw l (remove-IsSound k m h))
  ]
]

check_specs-IsSound :
    (now : ℕ) (ss : List LimitSpec) (m : List (CounterKey × Counter))
    → IsSound m
    → IsSound (check_specs now ss m).1
unfolding check_specs
check_specs-IsSound now [] m h = h
check_specs-IsSound now (s ∷ ss) m h =
    let f = expire-IsSound now s.counter m h in
    elim (Bool-cases (over (used_of now (find s.counter m)) s)) [
      | inl e ↦ rw (e, check_specs) f
      | inr e ↦ rw (e, check_specs) (check_specs-IsSound now ss (expire now s.counter m) f)
    ]

-- The sum that a charge writes is a worth, and it runs out at the end of a window.
bump-SoundCounter :
    (now : ℕ) (s : LimitSpec) (o : Option Counter)
    → SoundCounter o
    → is_fresh now o ≡ true
    → IsValidSpec s
    → HasRoom (used_of now o) s
    → SoundCounter (some (bump now s.increment o))
bump-SoundCounter now s none h f v r =
    let (e, w) = add_exact (pos 0) s (omega arith) v r in (rw e w, omega arith)
bump-SoundCounter now s (some c) h f v r =
    let worth : HasRoom c.used s = rw f at r in
    let (e, w) = add_exact c.used s h.0 v worth in (rw e w, omega arith)

put-IsSound :
    (k : CounterKey) (c : Counter) (m : List (CounterKey × Counter))
    → SoundCounter (some c)
    → IsSound m
    → IsSound (put k c m)
put-IsSound k c m g h = record {
  is_map = put-IsMap k c m h.is_map;
  counters = λ j. rw (find-put k j c m) (chosen (counter_equals k j) _ (h.counters j));
}
  where
    chosen :
        (b : Bool) (o : Option Counter) → SoundCounter o → SoundCounter (if b then some c else o)
    chosen true o k = g
    chosen false o k = k

charge-IsSound :
    (now : ℕ) (ss : List LimitSpec) (m : List (CounterKey × Counter))
    → IsDistinct ss
    → All IsValidSpec ss
    → All (λ s. is_fresh now (find s.counter m) ≡ true) ss
    → All (λ s. HasRoom (used_at now s.counter m) s) ss
    → IsSound m
    → IsSound (charge now ss m)
unfolding charge
charge-IsSound now [] m d v f r h = h
charge-IsSound now (s ∷ ss) m d v f r h =
    let o = find s.counter m in
    let m' = put s.counter (bump now s.increment o) m in
    let room : All (λ t. HasRoom (used_at now t.counter m') t) ss =
      All-map2 ss
        (λ t apart x.
          let same : used_at now t.counter m' ≡ used_at now t.counter m =
            used_at-put now s t.counter m f.0 ∙ rw (beq_ne s.counter t.counter apart) in
          subst (λ u. HasRoom u t) (sym same) x)
        d.0 r.1 in
    charge-IsSound now ss m' d.1 v.1 (All-is_fresh-put now s ss m o f.1) room (
      put-IsSound s.counter (bump now s.increment o) m
        (bump-SoundCounter now s o (h.counters s.counter) f.0 v.0 r.0) h)

pub worths :
    (now : ℕ) (ss : List LimitSpec) (m : List (CounterKey × Counter))
    → IsSound m
    → All (λ s. IsWorth (used_at now s.counter m)) ss
worths now [] m h = tt
worths now (s ∷ ss) m h = (used_of-IsWorth now _ (h.counters s.counter), worths now ss m h)

pub ok-dec : (r : Result CheckError Outcome) → (r ≡ ok allowed) ⊎ (r ≢ ok allowed)
ok-dec (ok allowed) = inl refl
ok-dec (ok (denied a b c)) = inr (λ e. cc)
ok-dec (err e) = inr (λ e. cc)

module _ (now : ℕ) (ss : List LimitSpec) (m : Memory) where
  -- Every check, allowed or not, keeps the counters sound: one entry to a key, no negative or
  -- wrapped sum, and each entry running out at the end of a window.
  pub check_memory-IsSound :
      IsDistinct ss
      → All IsValidSpec ss
      → IsSound m.counters
      → IsSound (check_memory now ss m).1.counters
  check_memory-IsSound d v h =
      let p = prune-IsSound now m h in
      let q = check_specs-IsSound now ss (prune now m).counters p in
      elim (ok-dec (check_memory now ss m).0) [
        | inl passed ↦
            let (r, e, after) = check_memory-charge now ss m passed in
            let er : (check_specs now ss (prune now m).counters).1 ≡ r =
              ap (λ (x : Outcome × List (CounterKey × Counter)). x.1) e in
            let hr = subst IsSound er q in
            let tests =
              (check_specs-allowed now ss (prune now m).counters).0
                (ap (λ (x : Outcome × List (CounterKey × Counter)). x.0) e) in
            let sound : All (λ s. IsWorth (used_at now s.counter r) × IsValidSpec s) ss =
              All-map2 ss (λ s a b. (a, b)) (worths now ss r hr) v in
            let room : All (λ s. HasRoom (used_at now s.counter r) s) ss =
              All-map2 ss
                (λ s x t.
                  let same =
                    ap (used_at now s.counter) (sym er)
                    ∙ used_at-check_specs now ss s.counter (prune now m).counters in
                  (over_room _ s x.0 x.1).0 (ap (λ u. over u s) same ∙ t))
                sound tests in
            subst IsSound (sym after) (
              charge-IsSound now ss r d v (check_specs-is_fresh now ss (prune now m).counters r e)
                room hr)
        | inr refused ↦ elim (check_memory-refused now ss m refused) [
          | inl e ↦ subst IsSound (sym e) p
          | inr e ↦ subst IsSound (sym e) q
        ]
      ]
