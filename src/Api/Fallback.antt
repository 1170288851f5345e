-- ===== src/Api/Fallback.antt =====
-- `runChatWithFallback`, `runEmbeddingsWithFallback` and `openStreamWithFallback` of internal/api/v1.go,
-- with `tryAcquireUpstream` of internal/api/routing_concurrency.go. What a loop meets in each of its
-- rounds is an argument: the registry as all requests have left it, the clock, the capacity of the
-- deployment, the answer of the upstream, and whether the request has been given up.
pub mod Ends
pub mod History
pub mod Answers
mod Examples
use Prim.Native.String.{String}
use gatemux.Common.{
  ℕ, zero, suc, Bool, true, false, not, ◌&&◌, ◌||◌, Option, none, some, List, [], ◌∷◌, ◌++◌, ok,
  err, if◌then◌else◌,
}
use gatemux.Router.Types.{Capability, chat, stream_chat, embeddings, ResolveContext}
use gatemux.Router.Breaker.{UpstreamFailure, no_error, is_retryable}
use gatemux.Router.Select.{Registry, Request, Resolved, ResolveError, resolve}

-- Which of the three loops.
pub data Kind : Type 0 where
  chat_kind embeddings_kind stream_kind : Kind

abbrev pub capability_of : Kind → Capability
capability_of chat_kind = chat
capability_of embeddings_kind = embeddings
capability_of stream_kind = stream_chat

abbrev pub is_stream : Kind → Bool
is_stream stream_kind = true
is_stream _ = false

-- `tryAcquireUpstream`: a permit, no room at the deployment, or an error, which is one of a full scope
-- or another.
pub data Capacity : Type 0 where
  admitted : Capacity
  saturated : Capacity
  scope_full : Capacity
  capacity_failed : Capacity

pub data LoopError : Type 0 where
  resolve_failed : ResolveError → LoopError
  all_saturated : LoopError
  scope_error : LoopError
  capacity_error : LoopError
  call_error : UpstreamFailure → LoopError
  given_up : LoopError

pub record Round : Type 0 where
  pub registry : Registry
  pub now : ℕ
  pub given_up_before : Bool
  pub capacity : String → Capacity
  pub upstream : String → UpstreamFailure  -- `no_error` is an answer
  pub given_up_after : Bool

-- What the loop does to others.
pub data Action : Type 0 where
  acquires : String → Action
  calls : String → Action
  releases : String → Action
  records_success : String → Action
  records_failure : String → UpstreamFailure → Action

pub data Outcome : Type 0 where
  answered : String → Outcome
  failed : LoopError → Outcome
  out_of_fuel : Outcome

-- `tried`, `lastErr` and `saturated`.
pub record Locals : Type 0 where
  pub tried : List String
  pub last_error : Option LoopError
  pub any_saturated : Bool

pub data Turn : Type 0 where
  stops : Outcome → Turn
  continues : Locals → Turn

abbrev pub failure_of : ResolveError → Locals → LoopError
failure_of e l = elim l.last_error [
  | some last ↦ last
  | none ↦ if l.any_saturated then all_saturated else resolve_failed e
]

-- `callErr == nil`
abbrev pub is_answer : UpstreamFailure → Bool
is_answer no_error = true
is_answer _ = false

-- The actions up to the return of the call: an opened stream keeps its permit.
abbrev pub on_answer : Kind → String → List Action
on_answer stream_kind name = acquires name ∷ calls name ∷ []
on_answer _ name = acquires name ∷ calls name ∷ releases name ∷ records_success name ∷ []

abbrev pub on_error : String → UpstreamFailure → List Action
on_error name e = acquires name ∷ calls name ∷ releases name ∷ records_failure name e ∷ []

-- A call with a permit.
pub call_upstream : Kind → Round → String → Locals → Turn × List Action
unfolding is_retryable
call_upstream kind round name l =
    let e = round.upstream name in
    if is_answer e
    then (stops (answered name), on_answer kind name)
    else if not (is_retryable e) || round.given_up_after
    then (stops (failed (call_error e)), on_error name e)
    else (continues (record l { last_error = some (call_error e) }), on_error name e)

-- The target of the round has been added to `tried`.
pub try_upstream : Kind → Round → String → Locals → Capacity → Turn × List Action
unfolding call_upstream
try_upstream kind round name l admitted = call_upstream kind round name l
try_upstream kind round name l saturated = (continues (record l { any_saturated = true }), [])
try_upstream kind round name l scope_full =
    (continues (record l { last_error = some scope_error }), [])
try_upstream kind round name l capacity_failed = (stops (failed capacity_error), [])

module _ (getenv : String → String) (kind : Kind) (alias : String) (context : ResolveContext) where
  abbrev pub request_of : Round → Locals → Request
  request_of round l = record {
    tried = l.tried;
    capability = capability_of kind;
    context = context;
    now = round.now;
  }

  -- One round of the loop.
  pub turn : Round → Locals → Turn × List Action
  unfolding try_upstream
  turn round l =
      if is_stream kind && round.given_up_before
      then (stops (failed given_up), [])
      else elim (resolve getenv round.registry (request_of round l) alias) [
        | err e ↦ (stops (failed (failure_of e l)), [])
        | ok (x, r) ↦
            try_upstream kind round x.deployment_name
              (record l { tried = x.deployment_name ∷ l.tried }) (round.capacity x.deployment_name)
      ]

  pub loop : ℕ → (ℕ → Round) → ℕ → Locals → Outcome × List Action
  unfolding turn
  loop zero rounds i l = (out_of_fuel, [])
  loop (suc fuel) rounds i l =
      let (t, log) = turn (rounds i) l in
      elim t [
        | stops o ↦ (o, log)
        | continues l' ↦ let (o, rest) = loop fuel rounds (suc i) l' in (o, log ++ rest)
      ]

  abbrev pub no_locals : Locals
  no_locals = record { tried = []; last_error = none; any_saturated = false }

  pub run_with_fallback : ℕ → (ℕ → Round) → Outcome × List Action
  unfolding loop
  run_with_fallback fuel rounds = loop fuel rounds 0 no_locals
