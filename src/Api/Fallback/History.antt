-- ===== src/Api/Fallback/History.antt =====
-- What the rounds of the fallback loops of internal/api/v1.go have met, and what follows from it.
use Prim.Native.String.{String}
use gatemux.Common.{
  ℕ, ◌≡◌, true, false, not, ◌&&◌, ◌||◌, Option, none, some, List, [], ◌∷◌, ◌++◌, length, ok, err,
  ◌⊎◌,
}
use gatemux.Router.Types.{ResolveContext}
use gatemux.Router.Breaker.{UpstreamFailure, is_retryable}
use gatemux.Router.Select.{Request, ResolveError, Registry, Resolved, resolve}
use gatemux.Api.Fallback.{
  Kind, capability_of, admitted, saturated, scope_full, capacity_failed, Round, Action, Outcome,
  answered, failed, out_of_fuel, resolve_failed, all_saturated, scope_error, capacity_error,
  call_error, given_up, LoopError, is_answer, is_stream, on_answer, on_error,
}

-- A round that went on to the next one: the deployment was full, a scope was full, or a call failed.
pub data Met : Type 0 where
  met_saturated : String → Met
  met_scope : String → Met
  met_error : String → UpstreamFailure → Met

abbrev pub name_of : Met → String
name_of (met_saturated name) = name
name_of (met_scope name) = name
name_of (met_error name e) = name

-- The rounds before this one, the latest first.
abbrev pub History : Type 0
History = List Met

abbrev pub names : History → List String
names [] = []
names (m ∷ past) = name_of m ∷ names past

-- The error of the latest round that had one.
abbrev pub latest_error : History → Option LoopError
latest_error [] = none
latest_error (met_saturated name ∷ past) = latest_error past
latest_error (met_scope name ∷ past) = some scope_error
latest_error (met_error name e ∷ past) = some (call_error e)

-- What is returned where no target is left: the latest error, and without one that all were full, or
-- that there was none from the start.
abbrev pub reported : History → ResolveError → LoopError
reported past e = elim (latest_error past) [
  | some last ↦ last
  | none ↦ elim past [ [] ↦ resolve_failed e | m ∷ ms ↦ all_saturated ]
]

-- The calls of the rounds, each with its permit given back and its failure recorded.
abbrev pub calls_of : History → List Action
calls_of [] = []
calls_of (met_saturated name ∷ past) = calls_of past
calls_of (met_scope name ∷ past) = calls_of past
calls_of (met_error name e ∷ past) = calls_of past ++ on_error name e

module _ (getenv : String → String) (kind : Kind) (alias : String) (context : ResolveContext)
    (rounds : ℕ → Round) where
  -- What the router answers to the round behind a history, which has tried each of its deployments.
  abbrev pub asked : History → Request
  asked past = record {
    tried = names past;
    capability = capability_of kind;
    context = context;
    now = (rounds (length past)).now;
  }

  abbrev pub here : History → Round
  here past = rounds (length past)

  -- A round comes to a deployment.
  pub record Comes (past : History) (name : String) : Type 0 where
    pub here_still : (is_stream kind && (here past).given_up_before) ≡ false
    pub target : Resolved
    pub registry_after : Registry
    pub resolves :
        resolve getenv (here past).registry (asked past) alias ≡ ok (target, registry_after)
    pub named : target.deployment_name ≡ name

  -- The round behind a history is what it is told to be: a call of it has failed with an error that
  -- may be retried, of a request that was not given up.
  abbrev pub IsMet : History → Met → Type 0
  IsMet past (met_saturated name) = Comes past name × ((here past).capacity name ≡ saturated)
  IsMet past (met_scope name) = Comes past name × ((here past).capacity name ≡ scope_full)
  IsMet past (met_error name e) =
      Comes past name
      × ((here past).capacity name ≡ admitted)
      × ((here past).upstream name ≡ e)
      × (is_answer e ≡ false)
      × (is_retryable e ≡ true)
      × ((here past).given_up_after ≡ false)

  abbrev pub IsTrue : History → Type 0
  IsTrue [] = Unit
  IsTrue (m ∷ past) = IsMet past m × IsTrue past

  -- The round behind a history, and what the loop returns there.
  pub data Last (past : History) : Outcome → List Action → Type 0 where
    gives_up :
        (is_stream kind && (here past).given_up_before) ≡ true → Last past (failed given_up) []
    lacks :
        (e : ResolveError)
        → (is_stream kind && (here past).given_up_before) ≡ false
        → resolve getenv (here past).registry (asked past) alias ≡ err e
        → Last past (failed (reported past e)) []
    breaks :
        (name : String)
        → Comes past name
        → (here past).capacity name ≡ capacity_failed
        → Last past (failed capacity_error) []
    answers :
        (name : String)
        → Comes past name
        → (here past).capacity name ≡ admitted
        → is_answer ((here past).upstream name) ≡ true
        → Last past (answered name) (on_answer kind name)
    refuses :
        (name : String)
        → Comes past name
        → (here past).capacity name ≡ admitted
        → is_answer ((here past).upstream name) ≡ false
        → (not (is_retryable ((here past).upstream name)) || (here past).given_up_after) ≡ true
        → Last past
            (failed (call_error ((here past).upstream name)))
            (on_error name ((here past).upstream name))

  -- An outcome and its actions, told by a history of as many rounds as the loop went on, unless it ran
  -- out of fuel.
  pub record Leads (fuel : ℕ) (o : Outcome) (log : List Action) : Type 0 where
    pub past : History
    pub is_true : IsTrue past
    pub last : List Action
    pub ends : Last past o last ⊎ ((length past ≡ fuel) × (o ≡ out_of_fuel) × (last ≡ []))
    pub log_eq : log ≡ calls_of past ++ last
