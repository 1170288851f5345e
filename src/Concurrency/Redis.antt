-- ===== src/Concurrency/Redis.antt =====
-- What internal/concurrency/limiter.go uses of Redis: sorted sets, and keys with a deadline. The laws are
-- the documented effect of each command on the members of every key and on their deadlines.
use Prim.Native.String.{String}
use gatemux.Common.{
  ℕ, ◌+◌, ◌≡◌, ◌⊎◌, Bool, false, Option, none, some, List, [], ltb, leb, if◌then◌else◌,
}
use gatemux.Common.Maps.{find, put, remove, keep, size, IsMap}
use gatemux.Concurrency.{LeaseKey, lease_key_equals, lease_key_eq, member_eq}

-- Members with their scores.
abbrev pub Members : Type 0
Members = List (String × ℕ)

-- Whether a deadline has come.
abbrev pub is_due : ℕ → Option ℕ → Bool
is_due now none = false
is_due now (some deadline) = leb deadline now

pub record SortedSets : Type 1 where
  pub Store : Type 0
  pub members : Store → LeaseKey → Members
  pub deadline : Store → LeaseKey → Option ℕ
  pub pass : ℕ → Store → Store  -- the clock has come to this time
  pub zremrangebyscore : LeaseKey → ℕ → Store → Store  -- from -inf to a score
  pub zscore : LeaseKey → String → Store → Option ℕ
  pub zcard : LeaseKey → Store → ℕ
  pub zrange_first : LeaseKey → Store → Option ℕ  -- the lowest score
  pub zadd : LeaseKey → ℕ → String → Store → Store
  pub zrem : LeaseKey → String → Store → Store
  pub pexpire : ℕ → LeaseKey → ℕ → Store → Store  -- now, and how long from now
  pub members-IsMap : (s : Store) (k : LeaseKey) → IsMap (members s k)
  pub members-pass :
      (now : ℕ) (s : Store) (k : LeaseKey)
      → members (pass now s) k ≡ (if is_due now (deadline s k) then [] else members s k)
  pub members-zremrangebyscore :
      (k : LeaseKey) (top : ℕ) (s : Store) (j : LeaseKey)
      → members (zremrangebyscore k top s) j
        ≡ (if lease_key_equals k j then keep (ltb top) (members s j) else members s j)
  pub zscore_eq : (k : LeaseKey) (m : String) (s : Store) → zscore k m s ≡ find m (members s k)
  pub zcard_eq : (k : LeaseKey) (s : Store) → zcard k s ≡ size (members s k)
  pub members-zadd :
      (k : LeaseKey) (score : ℕ) (m : String) (s : Store) (j : LeaseKey)
      → members (zadd k score m s) j
        ≡ (if lease_key_equals k j then put m score (members s j) else members s j)
  pub members-zrem :
      (k : LeaseKey) (m : String) (s : Store) (j : LeaseKey)
      → members (zrem k m s) j
        ≡ (if lease_key_equals k j then remove m (members s j) else members s j)
  pub members-pexpire :
      (now : ℕ) (k : LeaseKey) (time : ℕ) (s : Store) (j : LeaseKey)
      → members (pexpire now k time s) j ≡ members s j
  -- A key that is emptied loses its deadline, and a new one has none.
  pub deadline-pass :
      (now : ℕ) (s : Store) (k : LeaseKey)
      → deadline (pass now s) k ≡ (if is_due now (deadline s k) then none else deadline s k)
  pub deadline-zremrangebyscore :
      (k : LeaseKey) (top : ℕ) (s : Store) (j : LeaseKey)
      → (deadline (zremrangebyscore k top s) j ≡ deadline s j)
        ⊎ (deadline (zremrangebyscore k top s) j ≡ none)
  pub deadline-zadd :
      (k : LeaseKey) (score : ℕ) (m : String) (s : Store) (j : LeaseKey)
      → deadline (zadd k score m s) j ≡ deadline s j
  pub deadline-zrem :
      (k : LeaseKey) (m : String) (s : Store) (j : LeaseKey)
      → (deadline (zrem k m s) j ≡ deadline s j) ⊎ (deadline (zrem k m s) j ≡ none)
  pub deadline-pexpire :
      (now : ℕ) (k : LeaseKey) (time : ℕ) (s : Store) (j : LeaseKey)
      → deadline (pexpire now k time s) j
        ≡ (if lease_key_equals k j then some (now + time) else deadline s j)
