-- ===== src/Admission/Gate.antt =====
-- The `Gate` of internal/admission/gate.go. Its channels are counts of their elements; goroutines
-- interleave at each operation on a channel or an atomic counter, which is one step. How long a
-- request waited is left out.
pub mod Invariant
pub mod Bounds
mod Examples
use gatemux.Common.{
  ℕ, zero, suc, ◌+◌, ◌-◌, Bool, true, false, ◌||◌, Option, none, some, List, [], ◌∷◌, ◌==◌, ltb,
  if◌then◌else◌, ℤ, pos, negsuc, ◌+ℤ◌, ◌-ℤ◌, leb_ℤ, ltb_ℤ, pos_part,
}
use gatemux.Common.Threads.{get_elem?, set, replicate}

pub record Config : Type 0 where
  pub max_in_flight : ℤ
  pub max_queued : ℤ
  pub queue_timeout : ℤ

pub data Outcome : Type 0 where
  admitted queue_full queue_timed_out canceled : Outcome

pub record Gate : Type 0 where
  pub capacity : ℕ  -- cap(slots)
  pub queue_cap : ℕ  -- cap(queue)
  pub queue_timeout : ℤ
  pub slots : ℕ  -- len(slots)
  pub queue : ℕ  -- len(queue)
  pub in_flight : ℤ
  pub queued : ℤ

-- Without a limit there is no gate.
pub new_gate : Config → Option Gate
new_gate c =
    if leb_ℤ c.max_in_flight (pos 0)
    then none
    else some (record {
      capacity = pos_part c.max_in_flight;
      queue_cap = if ltb_ℤ c.max_queued (pos 0) then 0 else pos_part c.max_queued;
      queue_timeout = c.queue_timeout;
      slots = 0;
      queue = 0;
      in_flight = pos 0;
      queued = pos 0;
    })

-- Where a goroutine is in `Acquire` and, with its permit, in `Release`.
pub data Pc : Type 0 where
  start : Pc  -- before the first select
  count_direct : Pc  -- a slot was free
  saturated : Pc  -- no slot was free
  count_queued : Pc  -- in the queue, not yet counted
  waiting : Pc  -- in the select on slot, timer and context
  count_granted : Pc  -- a slot came free
  leave : Outcome → Pc  -- in the deferred function
  count_left : Outcome → Pc  -- out of the queue, still counted
  returned : Outcome → Pc
  releasing : Pc  -- the first call of `Release`
  count_released : Pc  -- the slot is free, still counted
  released : Pc

-- What the scheduler and the environment may choose.
pub data Event : Type 0 where
  advance : Event  -- the next operation of the goroutine
  time_out : Event  -- the timer fires
  cancel : Event  -- the context is done
  release : Event  -- the holder calls `Release`

-- Send to slots, if there is room.
abbrev try_slot : Gate → Pc → Option (Gate × Pc) → Option (Gate × Pc)
try_slot g next otherwise =
    if ltb g.slots g.capacity then some (record g { slots = suc g.slots }, next) else otherwise

abbrev try_queue : Gate → Option (Gate × Pc)
try_queue g =
    if g.queue_cap == 0 || leb_ℤ g.queue_timeout (pos 0)
    then some (g, returned queue_full)
    else if ltb g.queue g.queue_cap
    then some (record g { queue = suc g.queue }, count_queued)
    else some (g, returned queue_full)

-- A receive waits for an element.
abbrev take_slot : Gate → Option (Gate × Pc)
take_slot g = elim g.slots [ zero ↦ none | suc n ↦ some (record g { slots = n }, count_released) ]

abbrev take_queue : Gate → Outcome → Option (Gate × Pc)
take_queue g o = elim g.queue [ zero ↦ none | suc n ↦ some (record g { queue = n }, count_left o) ]

-- One operation of a goroutine, or none where it is blocked or the event does not concern it.
pub step : Event → Gate → Pc → Option (Gate × Pc)
step advance g start = try_slot g count_direct (some (g, saturated))
step advance g count_direct =
    some (record g { in_flight = g.in_flight +ℤ pos 1 }, returned admitted)
step advance g saturated = try_queue g
step advance g count_queued = some (record g { queued = g.queued +ℤ pos 1 }, waiting)
step advance g waiting = try_slot g count_granted none
step advance g count_granted = some (record g { in_flight = g.in_flight +ℤ pos 1 }, leave admitted)
step advance g (leave o) = take_queue g o
step advance g (count_left o) = some (record g { queued = g.queued -ℤ pos 1 }, returned o)
step advance g releasing = take_slot g
step advance g count_released = some (record g { in_flight = g.in_flight -ℤ pos 1 }, released)
step time_out g waiting = some (g, leave queue_timed_out)
step cancel g waiting = some (g, leave canceled)
step release g (returned admitted) = some (g, releasing)
step release g released = some (g, released)
step _ g _ = none

pub record System : Type 0 where
  pub gate : Gate
  pub threads : List Pc

-- The goroutine at a position makes a step, if there is one and it can.
pub schedule : System → ℕ → Event → System
schedule s n e = elim (get_elem? s.threads n) [
  | none ↦ s
  | some p ↦ elim (step e s.gate p) [
    | none ↦ s
    | some r ↦ record { gate = r.0; threads = set s.threads n r.1 }
  ]
]

pub run : System → List (ℕ × Event) → System
run s [] = s
run s ((n, e) ∷ es) = run (schedule s n e) es

-- Any number of goroutines about to call `Acquire`.
abbrev pub initial : Gate → ℕ → System
initial g n = record { gate = g; threads = replicate n start }
