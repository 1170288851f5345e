-- ===== src/Callbacks.antt =====
-- The event bus of internal/callbacks/callbacks.go, as one of its callbacks sees it: `Emit` by any number
-- of goroutines, the callback's worker, and the shutdown of `Start`. Each channel operation is one step.
pub mod Accounts
mod Examples
use Prim.Native.String.{String}
use text.Mathlib.Text.{◌==◌ as str_eq}
use gatemux.Common.{
  ℕ, suc, ◌+◌, Bool, true, false, ◌&&◌, ◌||◌, Option, none, some, List, [], ◌∷◌, ◌++◌, length, ltb,
  ◌==◌, if◌then◌else◌,
}
use gatemux.Common.Threads.{get_elem?, set, total}

-- What the bus reads of an event.
pub record Event : Type 0 where
  pub id : String
  pub type : String

-- Where a goroutine is in the loop of `Emit`.
pub data Pc : Type 0 where
  outside : Event → Pc  -- before the read lock
  sending : Event → Pc
  displacing : Event → Pc  -- the queue was full
  retrying : Event → Pc
  skipped : Pc  -- the callback did not subscribe
  finished : Pc

-- Where the worker is in its loop.
pub data Runner : Type 0 where
  idle : Runner
  holding : Event → Runner
  ended : Runner

pub record Bus : Type 0 where
  pub types : List String  -- none is all
  pub queue : List Event
  pub delivered : ℕ
  pub failed : ℕ
  pub dropped : ℕ
  pub circuit : ℕ
  pub open_until : ℕ
  pub cancelled : Bool
  pub stopped : Bool
  pub closed : Bool  -- `done`
  pub runner : Runner
  pub emitters : List Pc

abbrev pub queue_capacity : ℕ
queue_capacity = 10000

has_type : String → List String → Bool
has_type t [] = false
has_type t (u ∷ us) = str_eq u t || has_type t us

pub wants : Event → List String → Bool
unfolding has_type
wants e types = length types == 0 || has_type e.type types

-- The state of a `select` with a default case: a full channel takes nothing.
abbrev queue_full : List Event → Bool
queue_full queue = if ltb (length queue) queue_capacity then false else true

-- One operation of a goroutine in `Emit`.
pub emit_step : Pc → Bus → Bus × Pc
unfolding wants
emit_step (outside e) b =
    if wants e b.types
    then if b.stopped then (record b { dropped = b.dropped + 1 }, finished) else (b, sending e)
    else (b, skipped)
emit_step (sending e) b =
    if queue_full b.queue
    then (b, displacing e)
    else (record b { queue = b.queue ++ e ∷ [] }, finished)
emit_step (displacing e) b = elim b.queue [
  | [] ↦ (b, retrying e)
  | oldest ∷ rest ↦ (record b { queue = rest; dropped = b.dropped + 1 }, retrying e)
]
emit_step (retrying e) b =
    if queue_full b.queue
    then (record b { dropped = b.dropped + 1 }, finished)
    else (record b { queue = b.queue ++ e ∷ [] }, finished)
emit_step skipped b = (b, skipped)
emit_step finished b = (b, finished)

abbrev circuit_open : ℕ → Bus → Bool
circuit_open now b = ltb 0 b.open_until && ltb now b.open_until

-- The worker takes an event, and drops it while its circuit is open.
pub take_event : ℕ → Bus → Bus
take_event now b = elim b.runner [
  | idle ↦ elim b.queue [
    | [] ↦ b
    | e ∷ rest ↦
        if circuit_open now b
        then record b { queue = rest; dropped = b.dropped + 1 }
        else record b { queue = rest; runner = holding e }
  ]
  | _ ↦ b
]

-- `Send` returns: more than ten failures in a row open the circuit for a minute.
pub sent : ℕ → Bool → Bus → Bus
sent now success b = elim b.runner [
  | holding e ↦
      if success
      then record b { runner = idle; delivered = b.delivered + 1; circuit = 0 }
      else if ltb 10 (b.circuit + 1)
      then record b {
        runner = idle;
        failed = b.failed + 1;
        circuit = 0;
        open_until = now + 60000000000;
      }
      else record b { runner = idle; failed = b.failed + 1; circuit = b.circuit + 1 }
  | _ ↦ b
]

-- The worker returns once the context is cancelled.
pub end_runner : Bus → Bus
end_runner b = elim b.runner [
  | idle ↦ if b.cancelled then record b { runner = ended } else b
  | _ ↦ b
]

-- A goroutine between `RLock` and `RUnlock`.
abbrev pub inside : Pc → ℕ
inside (sending e) = 1
inside (displacing e) = 1
inside (retrying e) = 1
inside _ = 0

-- `Lock` waits until no goroutine reads.
pub stop : Bus → Bus
stop b = if b.cancelled && total inside b.emitters == 0 then record b { stopped = true } else b

-- The last loop of `Start`, behind `running.Wait`.
pub drain : Bus → Bus
drain b = elim b.runner [
  | ended ↦
      if b.stopped
      then elim b.queue [
        | [] ↦ record b { closed = true }
        | e ∷ rest ↦ record b { queue = rest; dropped = b.dropped + 1 }
      ]
      else b
  | _ ↦ b
]

-- A callback that has been registered, and the calls of `Emit` to come.
abbrev pub registered : List String → List Pc → Bus
registered types calls = record {
  types = types;
  queue = [];
  delivered = 0;
  failed = 0;
  dropped = 0;
  circuit = 0;
  open_until = 0;
  cancelled = false;
  stopped = false;
  closed = false;
  runner = idle;
  emitters = calls;
}

pub data Step : Type 0 where
  emit : ℕ → Step
  take : ℕ → Step
  send_returns : (now : ℕ) (success : Bool) → Step
  cancel : Step
  runner_ends : Step
  stops : Step
  drains : Step

pub emit_at : ℕ → Bus → Bus
unfolding emit_step
emit_at n b = elim (get_elem? b.emitters n) [
  | none ↦ b
  | some p ↦ let (b', p') = emit_step p b in record b' { emitters = set b.emitters n p' }
]

pub bus_step : Step → Bus → Bus
unfolding take_event sent end_runner stop drain emit_at
bus_step (emit n) b = emit_at n b
bus_step (take now) b = take_event now b
bus_step (send_returns now success) b = sent now success b
bus_step cancel b = record b { cancelled = true }
bus_step runner_ends b = end_runner b
bus_step stops b = stop b
bus_step drains b = drain b

pub run_bus : Bus → List Step → Bus
unfolding bus_step
run_bus b [] = b
run_bus b (s ∷ ss) = run_bus (bus_step s b) ss
