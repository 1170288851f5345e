-- ===== src/Concurrency/Limiter.antt =====
-- `Acquire` and `Release` of internal/concurrency/limiter.go, for a limiter that has Redis.
use Prim.Native.String.{String}
use text.Mathlib.Text.{◌==◌ as str_eq}
use gatemux.Common.{
  ℕ, ◌-◌, ◌/◌, max, Bool, true, false, not, ◌||◌, Option, none, some, List, [], ◌∷◌, map, length,
  ltb, ◌==◌, if◌then◌else◌, ℤ, pos, negsuc, leb_ℤ, Result, ok, err, ◌>>◌, reject_if,
}
use gatemux.Common.Threads.{get_elem?}
use gatemux.Concurrency.{LeaseKey, LeaseScope}
use gatemux.Concurrency.Redis.{SortedSets}
use gatemux.Concurrency.Script.{Reply, granted, denied, acquire_script, release_script}

-- A time to live in nanoseconds.
pub record LeaseRequest : Type 0 where
  pub id : String
  pub partition : ℤ
  pub ttl : ℤ
  pub scopes : List LeaseScope

pub data AcquireError : Type 0 where
  no_id no_partition no_ttl too_many_scopes invalid_scope unavailable : AcquireError

-- A scope is refused with the kind that is full; a retry is in milliseconds.
pub data LeaseResult : Type 0 where
  allowed : LeaseResult
  refused : (kind : String) (retry_after : ℕ) → LeaseResult

pub record Lease : Type 0 where
  pub member : String
  pub keys : List LeaseKey
  pub released : Bool  -- `once`
  pub failed : Bool  -- whether `err` is set

-- What becomes of a call to Redis: it may fail on the way there or on the way back.
pub data Link : Type 0 where
  answered lost_call lost_reply : Link

abbrev pub max_scopes : ℕ
max_scopes = 8

-- The lower-case names, which `ToLower` leaves as they are.
pub valid_scope_kind : String → Bool
valid_scope_kind kind =
    str_eq kind "team"
    || str_eq kind "key"
    || str_eq kind "user"
    || str_eq kind "service_account"
    || str_eq kind "customer"
    || str_eq kind "provider"
    || str_eq kind "model"

abbrev bad_scope : LeaseScope → Bool
bad_scope c = not (valid_scope_kind c.key.kind) || leb_ℤ c.key.id (pos 0) || leb_ℤ c.limit (pos 0)

any_bad : List LeaseScope → Bool
unfolding valid_scope_kind
any_bad [] = false
any_bad (c ∷ cs) = bad_scope c || any_bad cs

-- `maxInt64(req.TTL.Milliseconds(), 1)` of a positive time to live.
unfoldable pub ttl_ms : ℤ → ℕ
ttl_ms (pos ns) = max (ns / 1000000) 1
ttl_ms (negsuc n) = 1

-- The guards in front of the call.
pub check_request : LeaseRequest → Result AcquireError (Unit {0})
unfolding any_bad
check_request req = do
  reject_if (str_eq req.id "") no_id
  reject_if (leb_ℤ req.partition (pos 0)) no_partition
  reject_if (leb_ℤ req.ttl (pos 0)) no_ttl
  reject_if (ltb max_scopes (length req.scopes)) too_many_scopes
  reject_if (any_bad req.scopes) invalid_scope
  ok tt

first_kind : List LeaseScope → String
first_kind [] = ""
first_kind (c ∷ cs) = c.key.kind

-- The kind at an index from 1; an index out of range counts as the first.
kind_at : ℕ → List LeaseScope → String
unfolding first_kind
kind_at i scopes = elim (get_elem? scopes (i - 1)) [
  | none ↦ first_kind scopes
  | some c ↦ c.key.kind
]

unfoldable pub to_result : LeaseRequest → Reply → Option Lease × LeaseResult
unfolding kind_at
to_result req granted = (
  some (record {
    member = req.id;
    keys = map (λ c. c.key) req.scopes;
    released = false;
    failed = false;
  }),
  allowed,
)
to_result req (denied i retry) = (none, refused (kind_at i req.scopes) (max retry 1))

module _ (r : SortedSets) where
  unfoldable pub acquire :
      Link → ℕ → LeaseRequest → r.Store → Result AcquireError (Option Lease × LeaseResult) × r.Store
  unfolding acquire_script check_request ttl_ms to_result
  acquire link now req s =
      if length req.scopes == 0 then (ok (none, allowed), s) else elim (check_request req) [
        | err e ↦ (err e, s)
        | ok _ ↦
            let (reply, s') =
              acquire_script r now (ttl_ms req.ttl) req.id req.scopes (r.pass now s) in
            elim link [
              | answered ↦ (ok (to_result req reply), s')
              | lost_call ↦ (err unavailable, s)
              | lost_reply ↦ (err unavailable, s')
            ]
      ]

  -- Only the first call of a lease reaches Redis; each call returns the error of the first.
  unfoldable pub release : Link → ℕ → Lease → r.Store → Bool × Lease × r.Store
  unfolding release_script
  release link now lease s =
      if lease.released
      then (lease.failed, lease, s)
      else let s' = release_script r lease.member lease.keys (r.pass now s) in
        elim link [
          | answered ↦ (false, record lease { released = true }, s')
          | lost_call ↦ (true, record lease { released = true; failed = true }, s)
          | lost_reply ↦ (true, record lease { released = true; failed = true }, s')
        ]
