-- ===== src/Admission/Counter.antt =====
-- The `Counter` of internal/admission/gate.go: a limit that may change at any time, and the loop of
-- `TryAcquire` around a compare-and-swap. Each load, store and swap is one step.
pub mod Limit
mod Examples
use gatemux.Common.{
  ℕ, Bool, true, false, ◌&&◌, Option, none, some, List, [], ◌∷◌, if◌then◌else◌, ℤ, pos, ◌+ℤ◌, ◌-ℤ◌,
  leb_ℤ, ltb_ℤ, eqb_ℤ, wrap64,
}
use gatemux.Common.Threads.{get_elem?, set, replicate}

pub record Counter : Type 0 where
  pub limit : ℤ
  pub in_flight : ℤ

-- A negative limit is stored as 0, which is no limit.
unfoldable pub set_limit : ℤ → Counter → Counter
set_limit l c = record c { limit = if ltb_ℤ l (pos 0) then pos 0 else l }

unfoldable pub new_counter : ℤ → Counter
unfolding set_limit
new_counter l = set_limit l (record { limit = pos 0; in_flight = pos 0 })

-- Where a goroutine is in `TryAcquire` and `Release`, with its local variables.
pub data Pc : Type 0 where
  start : Pc
  loaded : (current : ℤ) → Pc
  swapping : (current limit : ℤ) → Pc
  refused : Pc
  holding : Pc
  released : Pc

pub data Event : Type 0 where
  advance : Event
  release : Event

pub full : ℤ → ℤ → Bool
full current limit = ltb_ℤ (pos 0) limit && leb_ℤ limit current

-- One operation of a goroutine on the shared counter.
pub step : Event → Counter → Pc → Option (Counter × Pc)
step advance c start = some (c, loaded c.in_flight)
step advance c (loaded current) =
    some (c, if full current c.limit then refused else swapping current c.limit)
step advance c (swapping current limit) = some (
    if eqb_ℤ c.in_flight current
    then (record c { in_flight = wrap64 (current +ℤ pos 1) }, holding)
    else (c, start))
step release c holding = some (record c { in_flight = wrap64 (c.in_flight -ℤ pos 1) }, released)
step release c released = some (c, released)
step _ c _ = none

pub record System : Type 0 where
  pub counter : Counter
  pub threads : List Pc

-- A goroutine goes on, or the limit changes.
pub data Move : Type 0 where
  thread : ℕ → Event → Move
  limit_set : ℤ → Move

pub move : Move → System → System
move (limit_set l) s = record s { counter = set_limit l s.counter }
move (thread n e) s = elim (get_elem? s.threads n) [
  | none ↦ s
  | some p ↦ elim (step e s.counter p) [
    | none ↦ s
    | some r ↦ record { counter = r.0; threads = set s.threads n r.1 }
  ]
]

pub run : System → List Move → System
run s [] = s
run s (m ∷ ms) = run (move m s) ms

abbrev pub initial : ℤ → ℕ → System
initial limit n = record { counter = new_counter limit; threads = replicate n start }
