-- ===== src/Lib.antt =====
-- gatemux, a gateway in front of language-model providers: a model of the parts of it that decide
-- what a request may cost and how much of it may run, with proofs about them.
--
-- A request names a virtual key of a team, and perhaps a user, a service account and a customer. The
-- rate limiter (internal/ratelimit) counts it and its tokens against limits per minute; the budget
-- service (internal/budget) reserves its estimated cost, priced by token_cost.go in exact micro-cents
-- (internal/store/microcents.go), against spend limits; the gate (internal/admission) lets it in or
-- queues it; the router (internal/router) resolves its alias to a deployment; the accounting
-- (internal/usage, internal/store/accounting.go) records what it cost.
--
-- Common holds what all modules share: tests, lists, integers with the wrap-around of int64, results,
-- sorting by a key, maps as association lists.
-- Cost is the money. Cost/Microcents: CeilCents, LimitMicrocents, EffectiveMicrocents, AddMicrocents.
-- Cost/Tokens: CostUsage, weightedMicrocents, estimatedTierCost.
-- Budget is the budget service. Budget/Limits: scopeExceeded and what it reports. Budget/Admit:
-- Service.Admit and maxEstimatedCost, over a record of what it asks of Postgres (Database).
-- Budget/Settle: Settle and SettleEstimated over the rows of budget_reservations.
-- RateLimit is the rate limiter. RateLimit/Specs: buildSpecs. RateLimit/Memory: Check and checkMemory
-- with the in-process counters; a check runs under one lock, so that a series of checks is a list.
-- RateLimit/Redis: allowScript and checkRedis over a record of what they use of Redis and Lua
-- (RedisCounters); a script runs as one step, and the errors of the network are left out.
--
-- Admission bounds concurrent work (internal/admission/gate.go). Admission/Gate: Gate.Acquire and
-- Permit.Release as program counters of goroutines, a schedule being a list of (goroutine, event).
-- Admission/Counter: Counter.TryAcquire with its compare-and-swap, and SetLimit at any time.
-- Router chooses the deployment (internal/router/router.go). Router/Types: its data. Router/Strategy:
-- capabilities, strategies and tags. Router/Weighted: the round robin of pickLocked. Router/Breaker:
-- RecordSuccess, RecordFailure, isOpenLocked. Router/Select: ResolveWithContext,
-- candidatesForPriorityLocked, pickLocked; Router/Select/Listed: TargetsFor. Router/Refresh: Refresh, buildProvider,
-- DefaultCapabilities. Router/Policies: RefreshConcurrencyPolicies, ConcurrencyScope.
-- Guardrails is the text policies (internal/guardrails/guardrails.go): Validate, New and Results;
-- Guardrails/Match the search for terms, Guardrails/Push Push, Guardrails/Stream a text in chunks.
-- Concurrency is the distributed leases (internal/concurrency/limiter.go): Concurrency/Redis the sorted
-- sets that it needs, as an interface; Concurrency/Script the two scripts, Concurrency/Limiter Acquire and
-- Release, Concurrency/Spec a table of leases, Concurrency/Bound series of calls.
-- Callbacks is the event bus (internal/callbacks/callbacks.go) as one callback sees it: Emit, run, and the
-- shutdown of Start; Callbacks/Accounts its counters.
-- Usage/Logger is what a replica knows of failed usage writes (internal/usage/logger.go): Record, the worker of
-- run and reconcile, and Ready, with the query of AccountingCheckpoint (internal/store/accounting.go).
-- Usage/Journal is FinalizeUsage for an admitted request (internal/store/accounting.go): finalizeJournal over
-- the request's journal record, its budget reservation and the rows of usage_log.
-- Api/Fallback is the loops that try the deployments of an alias in turn (internal/api/v1.go).
-- Server/Throttle is loginThrottle.allow (internal/server/login_throttle.go).
--
-- Integers are unbounded, and each operation of the source on int or int64 is wrapped to 64 bits where
-- the source can wrap. Loops are structural recursion over the lists that the source ranges over.
-- A panic is a value of the result.
--
-- Outside the model: the SQL itself, the Redis server, HTTP and JSON, the clock (an argument), the
-- prices in the database (a function), the hash behind an advisory lock (a function).
pub mod Admission
pub mod Api
pub mod Budget
pub mod Callbacks
pub mod Common
pub mod Concurrency
pub mod Cost
pub mod Guardrails
pub mod RateLimit
pub mod Router
pub mod Server
pub mod Usage
