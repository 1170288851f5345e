-- ===== src/Admission/Counter/Limit.antt =====
-- All interleavings of `TryAcquire`, `Release` and `SetLimit` on one counter of
-- internal/admission/gate.go.
use gatemux.Common.{
  ℕ, ◌≤◌, ◌≡◌, refl, ap, sym, inl, inr, some, List, [], ◌∷◌, All, Option-cases, arith, ℤ, pos, ◌≤ℤ◌,
  ◌<ℤ◌, ◌+ℤ◌, max_int64,
}
use gatemux.Common.Threads.{
  get_elem?, set, total, total-set, total-replicate, le-total, All-set, All-get_elem?,
  All-replicate,
}
use gatemux.Admission.Counter.{
  Counter, Pc, Event, Move, start, swapping, holding, thread, limit_set, full, step, System, move,
  run, initial, set_limit, new_counter,
}

abbrev pub holds : Pc → ℕ
holds holding = 1
holds _ = 0

-- One more than what a goroutine read is within the cap, where it is about to swap.
abbrev pub Below : ℕ → Pc → Type 0
Below cap (swapping current limit) = current <ℤ pos cap
Below cap _ = Unit

pub record IsSound (cap : ℕ) (s : System) : Type 0 where
  pub in_flight : s.counter.in_flight ≡ pos (total holds s.threads)
  pub limit_positive : pos 0 <ℤ s.counter.limit
  pub limit_bound : s.counter.limit ≤ℤ pos cap
  pub below : All (Below cap) s.threads
  pub bound : total holds s.threads ≤ cap

record Balanced (cap : ℕ) (c : Counter) (p : Pc) (c' : Counter) (p' : Pc) : Type 0 where
  in_flight : c'.in_flight +ℤ pos (holds p) ≡ c.in_flight +ℤ pos (holds p')
  limit : c'.limit ≡ c.limit
  below : Below cap p'
  bound : c'.in_flight ≤ℤ pos cap

step-Balanced :
    (cap : ℕ) (e : Event) (c : Counter) (p : Pc) {c' : Counter} {p' : Pc}
    → cap ≤ max_int64
    → pos 0 <ℤ c.limit
    → c.limit ≤ℤ pos cap
    → pos (holds p) ≤ℤ c.in_flight
    → c.in_flight ≤ℤ pos cap
    → Below cap p
    → step e c p ≡ some (c', p')
    → Balanced cap c p c' p'
unfolding step full
step-Balanced cap e c p m l lc h hc b q = ground arith

-- Every limit that is set is positive and at most the cap.
abbrev pub IsCapped : ℕ → Move → Type 0
IsCapped cap (thread n e) = Unit
IsCapped cap (limit_set l) = (pos 0 <ℤ l) × (l ≤ℤ pos cap)

module _ (cap : ℕ) (machine : cap ≤ max_int64) where
  moved :
      (s : System) (n : ℕ) (p : Pc) (c' : Counter) (p' : Pc)
      → get_elem? s.threads n ≡ some p
      → Balanced cap s.counter p c' p'
      → IsSound cap s
      → IsSound cap (record { counter = c'; threads = set s.threads n p' })
  moved s n p c' p' at b h =
      let moves = total-set holds s.threads n p p' at in
      let exact : c'.in_flight ≡ pos (total holds (set s.threads n p')) =
        ground (arith, b.in_flight, moves, h.in_flight) in
      record {
        in_flight = exact;
        limit_positive = ground (arith, b.limit, h.limit_positive);
        limit_bound = ground (arith, b.limit, h.limit_bound);
        below = All-set (Below cap) s.threads n p' h.below b.below;
        bound = ground (arith, exact, b.bound);
      }

  thread-IsSound :
      (s : System) (n : ℕ) (e : Event) → IsSound cap s → IsSound cap (move (thread n e) s)
  unfolding move
  thread-IsSound s n e h = elim (Option-cases (get_elem? s.threads n)) [
    | inl absent ↦ rw (absent, move) h
    | inr (p, at) ↦ elim (Option-cases (step e s.counter p)) [
      | inl blocked ↦ rw (at, blocked, move) h
      | inr ((c', p'), moves) ↦
          let own = le-total holds s.threads n p at in
          let b =
            step-Balanced cap e s.counter p machine h.limit_positive h.limit_bound
              (ground (arith, own, h.in_flight)) (ground (arith, h.in_flight, h.bound))
              (All-get_elem? (Below cap) s.threads n p h.below at) moves in
          rw (at, moves, move) (moved s n p c' p' at b h)
    ]
  ]

  move-IsSound : (s : System) (m : Move) → IsCapped cap m → IsSound cap s → IsSound cap (move m s)
  unfolding move set_limit
  move-IsSound s (thread n e) k h = thread-IsSound s n e h
  move-IsSound s (limit_set l) k h = record {
    in_flight = h.in_flight;
    limit_positive = ground (arith, k);
    limit_bound = ground (arith, k);
    below = h.below;
    bound = h.bound;
  }

  run-IsSound :
      (s : System) (ms : List Move) → All (IsCapped cap) ms → IsSound cap s → IsSound cap (run s ms)
  unfolding run
  run-IsSound s [] k h = h
  run-IsSound s (m ∷ ms) k h = run-IsSound (move m s) ms k.1 (move-IsSound s m k.0 h)

  initial-IsSound :
      (limit : ℤ) (n : ℕ) → pos 0 <ℤ limit → limit ≤ℤ pos cap → IsSound cap (initial limit n)
  unfolding new_counter set_limit
  initial-IsSound limit n l lc = record {
    in_flight = ap pos (sym (total-replicate holds n start refl));
    limit_positive = ground arith;
    limit_bound = ground arith;
    below = All-replicate (Below cap) n start tt;
    bound = omega (arith, total-replicate holds n start refl);
  }

-- However many goroutines call `TryAcquire` and `Release` on a new counter, in whatever order their
-- loads and swaps interleave, and whatever limits between 1 and the cap are set meanwhile: the number
-- in flight is exactly the number of permits that are held, and never more than the cap.
pub run-le-cap :
    (cap : ℕ) (limit : ℤ) (n : ℕ) (ms : List Move)
    → cap ≤ max_int64
    → pos 0 <ℤ limit
    → limit ≤ℤ pos cap
    → All (IsCapped cap) ms
    → let s = run (initial limit n) ms in
      (s.counter.in_flight ≡ pos (total holds s.threads)) × (total holds s.threads ≤ cap)
run-le-cap cap limit n ms m l lc k =
    let h = run-IsSound cap m (initial limit n) ms k (initial-IsSound cap m limit n l lc) in
    (h.in_flight, h.bound)
