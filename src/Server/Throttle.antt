-- ===== src/Server/Throttle.antt =====
-- `loginThrottle.allow` of internal/server/login_throttle.go with its process-local counts. Times are
-- nanoseconds since Go's zero time. The digest of an identity is a function.
pub mod Window
mod Examples
use Prim.Native.String.{String}
use text.Mathlib.Text.{◌==◌ as str_eq}
use gatemux.Common.{
  ℕ, suc, ◌+◌, ◌-◌, ◌%◌, Bool, true, false, not, Option, none, some, List, [], ◌∷◌, if◌then◌else◌,
  ltb, leb, ◌==◌,
}
use gatemux.Common.Maps.{find, put, size}
use gatemux.Router.Types.{string_eq}

-- 15 minutes
abbrev pub login_window : ℕ
login_window = 900000000000

abbrev pub login_capacity : ℕ
login_capacity = 10000

abbrev pub Counts : Type 0
Counts = List (String × ℕ)

-- The bucket is the start of the window that the counts are of; nothing is counted in bucket 0.
pub record Throttle : Type 0 where
  pub counts : Counts
  pub bucket : ℕ

pub data Answer : Type 0 where
  proceed too_many_requests service_unavailable : Answer

abbrev pub start_of : ℕ → ℕ
start_of now = now - now % login_window

abbrev pub count_of : Option ℕ → ℕ
count_of none = 0
count_of (some n) = n

-- A field and its limit.
pub record Attempt : Type 0 where
  pub field : String
  pub limit : ℕ

abbrev is_new : Option ℕ → ℕ
is_new none = 1
is_new (some n) = 0

-- The first loop: a field at its limit refuses, else how many fields are new.
pub check_fields : List Attempt → Counts → Option ℕ
check_fields [] m = some 0
check_fields (a ∷ as') m = elim (check_fields as' m) [
  | none ↦ none
  | some missing ↦
      if leb a.limit (count_of (find a.field m))
      then none
      else some (is_new (find a.field m) + missing)
]

-- The second loop.
pub count_fields : List Attempt → Counts → Counts
count_fields [] m = m
count_fields (a ∷ as') m = count_fields as' (put a.field (suc (count_of (find a.field m))) m)

-- Counts of another window are dropped.
abbrev pub renew : ℕ → Throttle → Throttle
renew start t = if t.bucket == start then t else record { counts = []; bucket = start }

pub allow_fields : ℕ → List Attempt → Throttle → Answer × Throttle
allow_fields now as' t =
    let t' = renew (start_of now) t in
    elim (check_fields as' t'.counts) [
      | none ↦ (too_many_requests, t')
      | some missing ↦
          if ltb login_capacity (size t'.counts + missing)
          then (service_unavailable, t')
          else (proceed, record t' { counts = count_fields as' t'.counts })
    ]

module _ (identity : String → String → String → String) where
  -- Twenty attempts for an address, five for an account.
  pub attempts_of : String → String → String → List Attempt
  attempts_of endpoint ip email =
      record { field = identity "ip" endpoint ip; limit = 20 }
      ∷ (if str_eq email ""
          then []
          else record { field = identity "account" endpoint email; limit = 5 } ∷ [])

  -- The answer, the time until the next window, and the counts.
  pub allow : ℕ → String → String → String → Throttle → Answer × ℕ × Throttle
  allow now endpoint ip email t =
      let r = allow_fields now (attempts_of endpoint ip email) t in
      (r.0, start_of now + login_window - now, r.1)
