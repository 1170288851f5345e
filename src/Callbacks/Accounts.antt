-- ===== src/Callbacks/Accounts.antt =====
-- The counters of a callback in internal/callbacks/callbacks.go.
use Prim.Native.String.{String}
use gatemux.Common.{
  map, ℕ, ◌+◌, ◌≤◌, ◌≡◌, refl, sym, ap, inl, inr, Bool, some, List, [], ◌∷◌, length, length-append,
  if◌then◌else◌, Option-cases, List-cases, arith,
}
use gatemux.Common.Threads.{get_elem?, set, total, total-set, le-total}
use gatemux.Callbacks.{
  Event, Pc, outside, sending, displacing, retrying, skipped, finished, Runner, holding, ended, Bus,
  Step, emit, take, send_returns, cancel, runner_ends, stops, drains, queue_capacity, emit_step,
  take_event, sent, end_runner, inside, stop, drain, emit_at, bus_step, run_bus, registered,
}

-- A call of `Emit` that has returned, for a callback that subscribed.
abbrev pub done : Pc → ℕ
done finished = 1
done _ = 0

-- The event that the worker is sending.
abbrev pub in_hand : Runner → ℕ
in_hand (holding e) = 1
in_hand _ = 0

-- Where the events are that a callback has got.
abbrev pub accounted : Bus → ℕ
accounted b = b.delivered + b.failed + b.dropped + length b.queue + in_hand b.runner

record IsSound (b : Bus) : Type 0 where
  balance : accounted b ≡ total done b.emitters
  bound : length b.queue ≤ queue_capacity
  quiet : (if b.stopped then total inside b.emitters else 0) ≡ 0
  closed :
      (if b.closed then (if b.stopped then length b.queue + in_hand b.runner else 1) else 0) ≡ 0
  over : (if b.closed then b.runner else ended) ≡ ended

-- One operation of `Emit`.
record Moved (b : Bus) (p : Pc) (b' : Bus) (p' : Pc) : Type 0 where
  balance : accounted b' + done p ≡ accounted b + done p'
  bound : length b'.queue ≤ queue_capacity
  quiet : (if b.stopped then inside p' else 0) ≡ 0
  stopped : b'.stopped ≡ b.stopped
  closed : b'.closed ≡ b.closed
  runner : b'.runner ≡ b.runner
  queue : (if b.stopped then length b'.queue else 0) ≤ length b.queue

emit_step-Moved :
    (p : Pc) (b : Bus)
    → length b.queue ≤ queue_capacity
    → (if b.stopped then inside p else 0) ≡ 0
    → Moved b p (emit_step p b).0 (emit_step p b).1
unfolding emit_step
emit_step-Moved (outside e) b h q = record {
  balance = ground arith;
  bound = ground arith;
  quiet = ground arith;
  stopped = ground arith;
  closed = ground arith;
  runner = ground arith;
  queue = ground arith;
}
emit_step-Moved (sending e) b h q =
    let size = length-append b.queue (e ∷ []) in
    record {
      balance = ground (arith, size);
      bound = ground (arith, size);
      quiet = ground arith;
      stopped = ground arith;
      closed = ground arith;
      runner = ground arith;
      queue = ground (arith, size);
    }
emit_step-Moved (displacing e) b h q = elim (List-cases b.queue) [
  | inl empty ↦
      let size = ap (λ q. length q) empty in
      rw (empty, emit_step)
        (record {
          balance = ground (arith, size);
          bound = h;
          quiet = q;
          stopped = refl;
          closed = refl;
          runner = refl;
          queue = ground arith;
        })
  | inr (oldest, rest, full) ↦
      let size = ap (λ q. length q) full in
      rw (full, emit_step)
        (record {
          balance = ground arith;
          bound = ground (arith, size);
          quiet = q;
          stopped = refl;
          closed = refl;
          runner = refl;
          queue = ground arith;
        })
]
emit_step-Moved (retrying e) b h q =
    let size = length-append b.queue (e ∷ []) in
    record {
      balance = ground (arith, size);
      bound = ground (arith, size);
      quiet = ground arith;
      stopped = ground arith;
      closed = ground arith;
      runner = ground arith;
      queue = ground (arith, size);
    }
emit_step-Moved skipped b h q = record {
  balance = refl;
  bound = h;
  quiet = ground arith;
  stopped = refl;
  closed = refl;
  runner = refl;
  queue = ground arith;
}
emit_step-Moved finished b h q = record {
  balance = refl;
  bound = h;
  quiet = ground arith;
  stopped = refl;
  closed = refl;
  runner = refl;
  queue = ground arith;
}

moved :
    (b : Bus) (n : ℕ) (p : Pc) (b' : Bus) (p' : Pc)
    → get_elem? b.emitters n ≡ some p
    → Moved b p b' p'
    → IsSound b
    → IsSound (record b' { emitters = set b.emitters n p' })
moved b n p b' p' at m h =
    let finishes = total-set done b.emitters n p p' at in
    let leaves = total-set inside b.emitters n p p' at in
    record {
      balance = ground (arith, m.balance, finishes, h.balance);
      bound = m.bound;
      quiet = ground (arith, m.stopped, m.quiet, leaves, h.quiet);
      closed = ground (arith, m.stopped, m.closed, m.runner, m.queue, h.closed);
      over = ground (arith, m.closed, m.runner, h.over);
    }

emit_at-IsSound : (n : ℕ) (b : Bus) → IsSound b → IsSound (emit_at n b)
unfolding emit_at
emit_at-IsSound n b h = elim (Option-cases (get_elem? b.emitters n)) [
  | inl absent ↦ rw (absent, emit_at) h
  | inr (p, at) ↦
      let own = le-total inside b.emitters n p at in
      let m = emit_step-Moved p b h.bound (ground (arith, own, h.quiet)) in
      rw (at, emit_at) (moved b n p (emit_step p b).0 (emit_step p b).1 at m h)
]

take_event-IsSound : (now : ℕ) (b : Bus) → IsSound b → IsSound (take_event now b)
unfolding take_event
take_event-IsSound now b h = record {
  balance = ground (arith, h.balance);
  bound = ground (arith, h.bound);
  quiet = ground (arith, h.quiet);
  closed = ground (arith, h.closed, h.over);
  over = ground (arith, h.over);
}

sent-IsSound : (now : ℕ) (success : Bool) (b : Bus) → IsSound b → IsSound (sent now success b)
unfolding sent
sent-IsSound now success b h = record {
  balance = ground (arith, h.balance);
  bound = ground (arith, h.bound);
  quiet = ground (arith, h.quiet);
  closed = ground (arith, h.closed, h.over);
  over = ground (arith, h.over);
}

end_runner-IsSound : (b : Bus) → IsSound b → IsSound (end_runner b)
unfolding end_runner
end_runner-IsSound b h = record {
  balance = ground (arith, h.balance);
  bound = ground (arith, h.bound);
  quiet = ground (arith, h.quiet);
  closed = ground (arith, h.closed, h.over);
  over = ground (arith, h.over);
}

stop-IsSound : (b : Bus) → IsSound b → IsSound (stop b)
unfolding stop
stop-IsSound b h = record {
  balance = ground (arith, h.balance);
  bound = ground (arith, h.bound);
  quiet = ground (arith, h.quiet);
  closed = ground (arith, h.closed, h.over);
  over = ground (arith, h.over);
}

drain-IsSound : (b : Bus) → IsSound b → IsSound (drain b)
unfolding drain
drain-IsSound b h = record {
  balance = ground (arith, h.balance);
  bound = ground (arith, h.bound);
  quiet = ground (arith, h.quiet);
  closed = ground (arith, h.closed, h.over);
  over = ground (arith, h.over);
}

bus_step-IsSound : (s : Step) (b : Bus) → IsSound b → IsSound (bus_step s b)
unfolding bus_step
bus_step-IsSound (emit n) b h = emit_at-IsSound n b h
bus_step-IsSound (take now) b h = take_event-IsSound now b h
bus_step-IsSound (send_returns now success) b h = sent-IsSound now success b h
bus_step-IsSound cancel b h = record {
  balance = h.balance;
  bound = h.bound;
  quiet = h.quiet;
  closed = h.closed;
  over = h.over;
}
bus_step-IsSound runner_ends b h = end_runner-IsSound b h
bus_step-IsSound stops b h = stop-IsSound b h
bus_step-IsSound drains b h = drain-IsSound b h

run_bus-IsSound : (b : Bus) (ss : List Step) → IsSound b → IsSound (run_bus b ss)
unfolding run_bus
run_bus-IsSound b [] h = h
run_bus-IsSound b (s ∷ ss) h = run_bus-IsSound (bus_step s b) ss (bus_step-IsSound s b h)

total-outside :
    (w : Pc → ℕ) (es : List Event)
    → ((e : Event) → w (outside e) ≡ 0)
    → total w (map outside es) ≡ 0
total-outside w [] h = refl
total-outside w (e ∷ es) h = omega (arith, h e, total-outside w es h)

registered-IsSound :
    (types : List String) (es : List Event) → IsSound (registered types (map outside es))
registered-IsSound types es = record {
  balance = sym (total-outside done es (λ e. refl));
  bound = omega arith;
  quiet = refl;
  closed = refl;
  over = refl;
}

-- However the calls of `Emit`, the worker and the shutdown interleave, every event that a callback has
-- got is accounted for once: it was delivered, failed or dropped, or it waits in the queue or with the
-- worker. The queue never holds more than 10,000 events, and once the bus is done, nothing waits.
pub run_bus-accounted :
    (types : List String) (es : List Event) (ss : List Step)
    → let b = run_bus (registered types (map outside es)) ss in
      (accounted b ≡ total done b.emitters)
      × (length b.queue ≤ queue_capacity)
      × ((if b.closed then length b.queue + in_hand b.runner else 0) ≡ 0)
run_bus-accounted types es ss =
    let b = run_bus (registered types (map outside es)) ss in
    let h = run_bus-IsSound (registered types (map outside es)) ss (registered-IsSound types es) in
    (h.balance, h.bound, ground (arith, h.closed))
