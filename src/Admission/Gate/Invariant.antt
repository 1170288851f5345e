-- ===== src/Admission/Gate/Invariant.antt =====
-- The invariant of one gate of internal/admission/gate.go under all interleavings.
use gatemux.Common.{
  ℕ, ◌+◌, ◌≤◌, ◌≡◌, refl, ap, sym, ◌∙◌, inl, inr, some, List, [], ◌∷◌, Option-cases, arith, ℤ, pos,
  ◌+ℤ◌,
}
use gatemux.Common.Threads.{get_elem?, set, total, total-set, total-replicate}
use gatemux.Admission.Gate.{
  Gate, Pc, Event, start, count_direct, count_queued, waiting, count_granted, leave, count_left,
  returned, releasing, count_released, admitted, step, System, schedule, run, initial,
}

-- Whether a goroutine's element is in the channel of slots, or of the queue, and whether it counts
-- in `inFlight`, or in `queued`.
abbrev pub in_slots : Pc → ℕ
in_slots count_direct = 1
in_slots count_granted = 1
in_slots (leave admitted) = 1
in_slots (count_left admitted) = 1
in_slots (returned admitted) = 1
in_slots releasing = 1
in_slots _ = 0

abbrev pub in_queue : Pc → ℕ
in_queue count_queued = 1
in_queue waiting = 1
in_queue count_granted = 1
in_queue (leave o) = 1
in_queue _ = 0

abbrev pub counted : Pc → ℕ
counted (leave admitted) = 1
counted (count_left admitted) = 1
counted (returned admitted) = 1
counted releasing = 1
counted count_released = 1
counted _ = 0

abbrev pub counted_queued : Pc → ℕ
counted_queued waiting = 1
counted_queued count_granted = 1
counted_queued (leave o) = 1
counted_queued (count_left o) = 1
counted_queued _ = 0

pub record IsSound (s : System) : Type 0 where
  pub slots : s.gate.slots ≡ total in_slots s.threads
  pub queue : s.gate.queue ≡ total in_queue s.threads
  pub in_flight : s.gate.in_flight ≡ pos (total counted s.threads)
  pub queued : s.gate.queued ≡ pos (total counted_queued s.threads)
  pub slots_bound : s.gate.slots ≤ s.gate.capacity
  pub queue_bound : s.gate.queue ≤ s.gate.queue_cap

-- What a step of one goroutine does to the gate is what it does to the goroutine's parts.
record Balanced (g : Gate) (p : Pc) (g' : Gate) (p' : Pc) : Type 0 where
  slots : g'.slots + in_slots p ≡ g.slots + in_slots p'
  queue : g'.queue + in_queue p ≡ g.queue + in_queue p'
  in_flight : g'.in_flight +ℤ pos (counted p) ≡ g.in_flight +ℤ pos (counted p')
  queued : g'.queued +ℤ pos (counted_queued p) ≡ g.queued +ℤ pos (counted_queued p')
  capacity : g'.capacity ≡ g.capacity
  queue_cap : g'.queue_cap ≡ g.queue_cap
  slots_bound : g.slots ≤ g.capacity → g'.slots ≤ g'.capacity
  queue_bound : g.queue ≤ g.queue_cap → g'.queue ≤ g'.queue_cap

step-Balanced :
    (e : Event) (g : Gate) (p : Pc) {g' : Gate} {p' : Pc}
    → step e g p ≡ some (g', p')
    → Balanced g p g' p'
unfolding step
step-Balanced e g p h = ground arith

carry : (a b : ℤ) (t t' x y : ℕ) → a +ℤ pos x ≡ b +ℤ pos y → t' + x ≡ t + y → b ≡ pos t → a ≡ pos t'
carry a b t t' x y h k e = ground (arith, h, k, e)

moved :
    (s : System) (n : ℕ) (p : Pc) (g' : Gate) (p' : Pc)
    → get_elem? s.threads n ≡ some p
    → Balanced s.gate p g' p'
    → IsSound s
    → IsSound (record { gate = g'; threads = set s.threads n p' })
moved s n p g' p' at b h =
    let moves = λ (w : Pc → ℕ). total-set w s.threads n p p' at in
    record {
      slots = omega (arith, moves in_slots, b.slots, h.slots);
      queue = omega (arith, moves in_queue, b.queue, h.queue);
      in_flight = carry _ _ _ _ (counted p) (counted p') b.in_flight (moves counted) h.in_flight;
      queued =
          carry _ _ _ _ (counted_queued p) (counted_queued p') b.queued (moves counted_queued)
            h.queued;
      slots_bound = b.slots_bound h.slots_bound;
      queue_bound = b.queue_bound h.queue_bound;
    }

schedule-IsSound : (s : System) (n : ℕ) (e : Event) → IsSound s → IsSound (schedule s n e)
unfolding schedule
schedule-IsSound s n e h = elim (Option-cases (get_elem? s.threads n)) [
  | inl absent ↦ rw (absent, schedule) h
  | inr (p, at) ↦ elim (Option-cases (step e s.gate p)) [
    | inl blocked ↦ rw (at, blocked, schedule) h
    | inr ((g', p'), moves) ↦
        rw (at, moves, schedule) (moved s n p g' p' at (step-Balanced e s.gate p moves) h)
  ]
]

-- A gate as `New` makes it.
abbrev pub IsFresh : Gate → Type 0
IsFresh g = (g.slots ≡ 0) × (g.queue ≡ 0) × (g.in_flight ≡ pos 0) × (g.queued ≡ pos 0)

pub initial-IsSound : (g : Gate) (n : ℕ) → IsFresh g → IsSound (initial g n)
initial-IsSound g n h = record {
  slots = h.0 ∙ sym (total-replicate in_slots n start refl);
  queue = h.1 ∙ sym (total-replicate in_queue n start refl);
  in_flight = h.2 ∙ ap pos (sym (total-replicate counted n start refl));
  queued = h.3 ∙ ap pos (sym (total-replicate counted_queued n start refl));
  slots_bound = omega (arith, h.0);
  queue_bound = omega (arith, h.1);
}

pub run-IsSound : (s : System) (es : List (ℕ × Event)) → IsSound s → IsSound (run s es)
unfolding run
run-IsSound s [] h = h
run-IsSound s ((n, e) ∷ es) h = run-IsSound (schedule s n e) es (schedule-IsSound s n e h)

schedule-caps :
    (s : System) (n : ℕ) (e : Event)
    → ((schedule s n e).gate.capacity ≡ s.gate.capacity)
      × ((schedule s n e).gate.queue_cap ≡ s.gate.queue_cap)
unfolding schedule
schedule-caps s n e = elim (Option-cases (get_elem? s.threads n)) [
  | inl absent ↦ rw (absent, schedule) (refl, refl)
  | inr (p, at) ↦ elim (Option-cases (step e s.gate p)) [
    | inl blocked ↦ rw (at, blocked, schedule) (refl, refl)
    | inr ((g', p'), moves) ↦
        let b = step-Balanced e s.gate p moves in rw (at, moves, schedule) (b.capacity, b.queue_cap)
  ]
]

pub run-caps :
    (s : System) (es : List (ℕ × Event))
    → ((run s es).gate.capacity ≡ s.gate.capacity) × ((run s es).gate.queue_cap ≡ s.gate.queue_cap)
unfolding run
run-caps s [] = (refl, refl)
run-caps s ((n, e) ∷ es) =
    let rest = run-caps (schedule s n e) es in
    let once = schedule-caps s n e in (rest.0 ∙ once.0, rest.1 ∙ once.1)
