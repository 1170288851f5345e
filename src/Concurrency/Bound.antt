-- ===== src/Concurrency/Bound.antt =====
-- Clients of internal/concurrency/limiter.go on one Redis: series of `Acquire` and `Release` in the order
-- in which Redis runs their scripts, and the leases of one scope that the clients hold.
pub mod Invariant
pub mod Scripts
pub mod Cap
use Prim.Native.String.{String}
use gatemux.Common.{
  ℕ, ◌+◌, ◌≤◌, ◌≡◌, Bool, true, false, not, ◌&&◌, ◌||◌, ◌⊎◌, Option, none, some, List, [], ◌∷◌, All,
  if◌then◌else◌, ℤ, pos, ◌≤ℤ◌, Result, ok, err,
}
use gatemux.Common.Maps.{put, remove}
use gatemux.Concurrency.{LeaseKey, LeaseScope, lease_key_equals, member_eq}
use gatemux.Concurrency.Redis.{SortedSets, Members}
use gatemux.Concurrency.Limiter.{
  LeaseRequest, Lease, LeaseResult, AcquireError, Link, ttl_ms, acquire, release,
}
use gatemux.Concurrency.Spec.{live, is_listed}

pub data Call : Type 0 where
  acquire_call : Link → LeaseRequest → Call
  release_call : Link → Lease → Call

pub has_key : LeaseKey → List LeaseKey → Bool
has_key k [] = false
has_key k (j ∷ js) = lease_key_equals j k || has_key k js

-- The clock of Redis does not go back.
abbrev pub IsAscending : ℕ → List (ℕ × Call) → Type 0
IsAscending from [] = Unit
IsAscending from ((now, c) ∷ cs) = (from ≤ now) × IsAscending now cs

-- A limit of the key is at most the cap.
abbrev pub IsCapped : LeaseKey → ℕ → LeaseScope → Type 0
IsCapped k cap c = (lease_key_equals c.key k ≡ false) ⊎ (c.limit ≤ℤ pos cap)

-- The leases of the key last equally long.
abbrev pub Fits : LeaseKey → ℕ → ℕ → ℕ × Call → Type 0
Fits k cap ttl (now, acquire_call link req) =
    (ttl_ms req.ttl ≡ ttl) × All (IsCapped k cap) req.scopes
Fits k cap ttl (now, release_call link lease) = Unit

module _ (r : SortedSets) (k : LeaseKey) where
  pub record System : Type 0 where
    pub clock : ℕ
    pub store : r.Store
    pub held : Members  -- leases of `k` that were given out and not given back, with their ends

  -- A lease that a client has got.
  pub gained :
      ℕ → LeaseRequest → Result AcquireError (Option Lease × LeaseResult) → Members → Members
  unfolding is_listed
  gained now req (ok (some lease, result)) held =
      if is_listed k req.scopes then put req.id (now + ttl_ms req.ttl) held else held
  gained now req _ held = held

  pub call : ℕ → Call → System → System
  unfolding acquire release has_key gained
  call now (acquire_call link req) s =
      let (result, store) = acquire r link now req s.store in
      record { clock = now; store = store; held = gained now req result s.held }
  call now (release_call link lease) s = record {
    clock = now;
    store = (release r link now lease s.store).2;
    held = if has_key k lease.keys then remove lease.member s.held else s.held;
  }

  unfoldable pub run : System → List (ℕ × Call) → System
  unfolding call
  run s [] = s
  run s ((now, c) ∷ cs) = run (call now c s) cs

  abbrev pub fresh : ℕ → r.Store → System
  fresh clock store = record { clock = clock; store = store; held = [] }
