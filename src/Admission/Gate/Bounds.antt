-- ===== src/Admission/Gate/Bounds.antt =====
-- All interleavings of `Acquire` and `Release` on one gate of internal/admission/gate.go.
use gatemux.Common.{
  ℕ, ◌+◌, ◌≤◌, ◌≡◌, ◌≢◌, ◌⊎◌, refl, ap, ◌∙◌, subst, inl, inr, none, some, List, [], ◌∷◌, All, arith,
  pos, ◌≤ℤ◌,
}
use gatemux.Common.Threads.{get_elem?, total, le-total}
use gatemux.Admission.Gate.{
  Gate, Pc, Event, Outcome, waiting, leave, returned, releasing, count_released, released, admitted,
  queue_full, queue_timed_out, canceled, advance, step, run, initial,
}
use gatemux.Admission.Gate.Invariant.{
  in_slots, in_queue, counted, counted_queued, IsFresh, initial-IsSound, run-IsSound, run-caps,
}

-- A goroutine with a permit that it has not released.
abbrev pub holds : Pc → ℕ
holds (returned admitted) = 1
holds _ = 0

abbrev pub waits : Pc → ℕ
waits waiting = 1
waits _ = 0

total_le : (v w : Pc → ℕ) (ps : List Pc) → ((p : Pc) → v p ≤ w p) → total v ps ≤ total w ps
total_le v w [] h = omega arith
total_le v w (p ∷ ps) h = omega (arith, h p, total_le v w ps h)

-- However many goroutines call `Acquire` and `Release` on a new gate, and in whatever order their
-- operations interleave, never do more of them than its capacity hold a permit, and never do more of
-- them than its queue capacity wait.
pub run-bounded :
    (g : Gate) (n : ℕ) (es : List (ℕ × Event))
    → IsFresh g
    → (total holds (run (initial g n) es).threads ≤ g.capacity)
      × (total waits (run (initial g n) es).threads ≤ g.queue_cap)
run-bounded g n es fresh =
    let s = run (initial g n) es in
    let h = run-IsSound (initial g n) es (initial-IsSound g n fresh) in
    let c = run-caps (initial g n) es in
    (
      omega (
        arith,
        total_le holds in_slots s.threads (λ p. ground arith),
        h.slots,
        h.slots_bound,
        c.0,
      ),
      omega (
        arith,
        total_le waits in_queue s.threads (λ p. ground arith),
        h.queue,
        h.queue_bound,
        c.1,
      ),
    )

-- In every such interleaving a goroutine that is to give back its slot, or its place in the queue,
-- is never blocked, so that `Release` and the deferred part of `Acquire` never wait.
pub release-ne-blocked :
    (g : Gate) (n : ℕ) (es : List (ℕ × Event)) (i : ℕ) (p : Pc)
    → IsFresh g
    → get_elem? (run (initial g n) es).threads i ≡ some p
    → (p ≡ releasing) ⊎ ((o : Outcome) × (p ≡ leave o))
    → step advance (run (initial g n) es).gate p ≢ none
unfolding step
release-ne-blocked g n es i p fresh at which blocked =
    let s = run (initial g n) es in
    let h = run-IsSound (initial g n) es (initial-IsSound g n fresh) in
    elim which [
      | inl e ↦
          let mine : 1 ≤ s.gate.slots =
            omega (arith, le-total in_slots s.threads i releasing (at ∙ ap some e), h.slots) in
          let none_left : step advance s.gate releasing ≡ none =
            subst (λ x. step advance s.gate x ≡ none) e blocked in
          ground (arith, mine, none_left)
      | inr (o, e) ↦
          let mine : 1 ≤ s.gate.queue =
            omega (arith, le-total in_queue s.threads i (leave o) (at ∙ ap some e), h.queue) in
          let none_left : step advance s.gate (leave o) ≡ none =
            subst (λ x. step advance s.gate x ≡ none) e blocked in
          ground (arith, mine, none_left)
    ]

abbrev pub IsDone : Pc → Type 0
IsDone released = Unit
IsDone (returned queue_full) = Unit
IsDone (returned queue_timed_out) = Unit
IsDone (returned canceled) = Unit
IsDone _ = ⊥

total_done :
    (w : Pc → ℕ) (ps : List Pc) → ((p : Pc) → IsDone p → w p ≡ 0) → All IsDone ps → total w ps ≡ 0
total_done w [] free done = refl
total_done w (p ∷ ps) free done = omega (arith, free p done.0, total_done w ps free done.1)

-- When every call has come to its end, with no permit left to release, all counts are back at zero.
pub run-drained :
    (g : Gate) (n : ℕ) (es : List (ℕ × Event))
    → IsFresh g
    → All IsDone (run (initial g n) es).threads
    → IsFresh (run (initial g n) es).gate
run-drained g n es fresh done =
    let s = run (initial g n) es in
    let h = run-IsSound (initial g n) es (initial-IsSound g n fresh) in
    let gone =
      λ (w : Pc → ℕ) (free : (p : Pc) → IsDone p → w p ≡ 0). total_done w s.threads free done in
    (
      h.slots ∙ gone in_slots (λ p d. ground arith),
      h.queue ∙ gone in_queue (λ p d. ground arith),
      h.in_flight ∙ ap pos (gone counted (λ p d. ground arith)),
      h.queued ∙ ap pos (gone counted_queued (λ p d. ground arith)),
    )

-- Between the receive from the slots and the decrement in `Release`.
abbrev pub lags : Pc → ℕ
lags count_released = 1
lags _ = 0

total_sum :
    (u v w : Pc → ℕ) (ps : List Pc)
    → ((p : Pc) → u p ≤ v p + w p)
    → total u ps ≤ total v ps + total w ps
total_sum u v w [] h = omega arith
total_sum u v w (p ∷ ps) h = omega (arith, h p, total_sum u v w ps h)

-- In every such interleaving the number of requests in flight that `Stats` reports is never negative,
-- and is above the capacity by at most the number of goroutines that have freed their slot in
-- `Release` and not yet counted down.
pub run-in_flight :
    (g : Gate) (n : ℕ) (es : List (ℕ × Event))
    → IsFresh g
    → let s = run (initial g n) es in
      (pos 0 ≤ℤ s.gate.in_flight) × (s.gate.in_flight ≤ℤ pos (g.capacity + total lags s.threads))
run-in_flight g n es fresh =
    let s = run (initial g n) es in
    let h = run-IsSound (initial g n) es (initial-IsSound g n fresh) in
    let c = run-caps (initial g n) es in
    let sum = total_sum counted in_slots lags s.threads (λ p. ground arith) in
    let bound : total counted s.threads ≤ g.capacity + total lags s.threads =
      omega (arith, sum, h.slots, h.slots_bound, c.0) in
    rw h.in_flight (ground (arith, bound))
