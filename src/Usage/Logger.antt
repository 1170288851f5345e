-- ===== src/Usage/Logger.antt =====
-- `Record`, `run`, `reconcile` and `Ready` of internal/usage/logger.go beside the journal that
-- `AccountingCheckpoint` of internal/store/accounting.go asks. Each atomic operation and each query is
-- one step; an intent is named by its place in the journal.
pub mod Known
pub mod Clients
pub mod Worker
pub mod Recovered
pub mod Quiet
pub mod Stages
pub mod Rounds
pub mod Recovers
mod Examples
use gatemux.Common.{
  ℕ, zero, suc, ◌+◌, ◌%◌, Bool, true, false, ◌&&◌, ◌||◌, not, Option, none, some, List, [], ◌∷◌,
  ◌++◌, ltb, leb, ◌==◌, if◌then◌else◌,
}

pub record Intent : Type 0 where
  pub created_at : ℕ
  pub pending : Bool
  pub counted : ℕ  -- the count of failures once its completion had failed, or 0

-- Where the worker is in `run`.
pub data Place : Type 0 where
  waiting : Place
  reconciled : Place
  loaded : (epoch : ℕ) → Place
  answered : (epoch cutoff : ℕ) (pending : Bool) → Place
  failing : Place

pub record Logger : Type 0 where
  pub clock : ℕ  -- the clock of the database
  pub journal : List Intent
  pub failures : ℕ
  pub healthy : ℕ
  pub observed : ℕ
  pub cutoff : Option ℕ
  pub worker : Place

-- Add(1) on a uint64.
abbrev pub add_failure : ℕ → ℕ
add_failure n = (n + 1) % 18446744073709551616

unfoldable pub ready : Logger → Bool
ready l = l.failures == l.healthy

-- The query of `AccountingCheckpoint`.
abbrev pub cutoff_of : ℕ → Option ℕ → ℕ
cutoff_of clock none = clock
cutoff_of clock (some before) = before

unfoldable pub is_pending : ℕ → List Intent → Bool
is_pending cutoff [] = false
is_pending cutoff (x ∷ xs) = x.pending && leb x.created_at cutoff || is_pending cutoff xs

unfoldable pub update_intent : ℕ → (Intent → Intent) → List Intent → List Intent
update_intent i f [] = []
update_intent zero f (x ∷ xs) = f x ∷ xs
update_intent (suc i) f (x ∷ xs) = x ∷ update_intent i f xs

abbrev pub mark_settled : Intent → Intent
mark_settled x = record x { pending = false }

-- An intent is written before the call of a provider.
unfoldable pub begin_intent : Logger → Logger
begin_intent l = record l {
  journal = l.journal ++ record { created_at = l.clock; pending = true; counted = 0 } ∷ [];
}

-- `FinalizeUsage`, or `ReconcileAccounting`, settles an intent.
unfoldable pub settle_intent : ℕ → Logger → Logger
unfolding update_intent
settle_intent i l = record l { journal = update_intent i mark_settled l.journal }

-- `Record` of an intent that could not be finalized.
unfoldable pub completion_fails : ℕ → Logger → Logger
unfolding update_intent
completion_fails i l =
    let n = add_failure l.failures in
    record l { failures = n; journal = update_intent i (λ x. record x { counted = n }) l.journal }

-- `reconcile`: the answer of `ReconcileAccounting`.
unfoldable pub reconcile_answers : Bool → Logger → Logger
reconcile_answers error l = elim l.worker [
  | waiting ↦ record l { worker = if error then failing else reconciled }
  | _ ↦ l
]

-- The epoch is loaded, and a new one drops the watermark.
unfoldable pub load_epoch : Logger → Logger
load_epoch l = elim l.worker [
  | reconciled ↦
      if l.failures == l.healthy
      then record l { worker = waiting }
      else if l.failures == l.observed
      then record l { worker = loaded l.failures }
      else record l { worker = loaded l.failures; observed = l.failures; cutoff = none }
  | _ ↦ l
]

unfoldable pub checkpoint : Bool → Logger → Logger
unfolding is_pending
checkpoint error l = elim l.worker [
  | loaded epoch ↦
      let c = cutoff_of l.clock l.cutoff in
      record l { worker = if error then failing else answered epoch c (is_pending c l.journal) }
  | _ ↦ l
]

unfoldable pub acknowledge : Logger → Logger
acknowledge l = elim l.worker [
  | answered epoch c pending ↦
      if pending
      then record l { worker = waiting; cutoff = some c }
      else record l { worker = waiting; cutoff = some c; healthy = epoch }
  | _ ↦ l
]

-- `run` counts an error, except at the shutdown.
unfoldable pub note_error : Bool → Logger → Logger
note_error cancelled l = elim l.worker [
  | failing ↦
      if cancelled
      then record l { worker = waiting }
      else record l { worker = waiting; failures = add_failure l.failures }
  | _ ↦ l
]

pub data LoggerStep : Type 0 where
  tick : LoggerStep
  begin : LoggerStep
  settled : (intent : ℕ) → LoggerStep
  fails : (intent : ℕ) → LoggerStep
  reconciles : (error : Bool) → LoggerStep
  loads : LoggerStep
  checks : (error : Bool) → LoggerStep
  acknowledges : LoggerStep
  notes : (cancelled : Bool) → LoggerStep

unfoldable pub logger_step : LoggerStep → Logger → Logger
unfolding begin_intent settle_intent completion_fails reconcile_answers load_epoch checkpoint
    acknowledge note_error
logger_step tick l = record l { clock = l.clock + 1 }
logger_step begin l = begin_intent l
logger_step (settled i) l = settle_intent i l
logger_step (fails i) l = completion_fails i l
logger_step (reconciles error) l = reconcile_answers error l
logger_step loads l = load_epoch l
logger_step (checks error) l = checkpoint error l
logger_step acknowledges l = acknowledge l
logger_step (notes cancelled) l = note_error cancelled l

unfoldable pub run_logger : Logger → List LoggerStep → Logger
unfolding logger_step
run_logger l [] = l
run_logger l (t ∷ ts) = run_logger (logger_step t l) ts

-- `NewLogger`
abbrev pub new_logger : ℕ → Logger
new_logger clock = record {
  clock = clock;
  journal = [];
  failures = 0;
  healthy = 0;
  observed = 0;
  cutoff = none;
  worker = waiting;
}
