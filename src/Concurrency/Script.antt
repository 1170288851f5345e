-- ===== src/Concurrency/Script.antt =====
-- `acquireScript` and `releaseScript` of internal/concurrency/limiter.go. Redis runs a script as one step.
use Prim.Native.String.{String}
use gatemux.Common.{
  ℕ, suc, ◌+◌, ◌-◌, max, Bool, true, false, ◌&&◌, Option, none, some, List, [], ◌∷◌, if◌then◌else◌,
  pos, leb_ℤ,
}
use gatemux.Concurrency.{LeaseKey, LeaseScope}
use gatemux.Concurrency.Redis.{SortedSets}

abbrev pub is_absent : Option ℕ → Bool
is_absent none = true
is_absent (some score) = false

abbrev retry_ms : ℕ → Option ℕ → ℕ
retry_ms now none = 1000
retry_ms now (some oldest) = max 1 (oldest - now)

-- `{1, 0, 0}`, or `{0, i, retry_ms}` with the number of the scope from 1.
pub data Reply : Type 0 where
  granted : Reply
  denied : (index retry_after : ℕ) → Reply

abbrev pub is_granted : Reply → Bool
is_granted granted = true
is_granted (denied i retry) = false

module _ (r : SortedSets) where
  unfoldable pub is_full : String → LeaseScope → r.Store → Bool
  is_full member c s = is_absent (r.zscore c.key member s) && leb_ℤ c.limit (pos (r.zcard c.key s))

  -- The first loop: leases that have run out go, and a scope that is full denies.
  unfoldable pub check_scopes : ℕ → String → ℕ → List LeaseScope → r.Store → Reply × r.Store
  unfolding is_full
  check_scopes now member i [] s = (granted, s)
  check_scopes now member i (c ∷ cs) s =
      let s' = r.zremrangebyscore c.key now s in
      let rest = check_scopes now member (suc i) cs s' in
      if is_full member c s' then (denied i (retry_ms now (r.zrange_first c.key s')), s') else rest

  -- The second loop.
  unfoldable pub add_scopes : ℕ → ℕ → String → List LeaseScope → r.Store → r.Store
  add_scopes now ttl member [] s = s
  add_scopes now ttl member (c ∷ cs) s =
      add_scopes now ttl member cs
        (r.pexpire now c.key (ttl + 60000) (r.zadd c.key (now + ttl) member s))

  unfoldable pub acquire_script : ℕ → ℕ → String → List LeaseScope → r.Store → Reply × r.Store
  unfolding check_scopes add_scopes
  acquire_script now ttl member scopes s =
      let (reply, s') = check_scopes now member 1 scopes s in
      elim reply [
        | granted ↦ (granted, add_scopes now ttl member scopes s')
        | denied i retry ↦ (denied i retry, s')
      ]

  unfoldable pub release_script : String → List LeaseKey → r.Store → r.Store
  release_script member [] s = s
  release_script member (k ∷ ks) s = release_script member ks (r.zrem k member s)
