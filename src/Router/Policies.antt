-- ===== src/Router/Policies.antt =====
-- internal/router/concurrency.go: the snapshot of the limits on concurrent requests, which goes stale.
-- Times are nanoseconds, 0 is the zero time. A failed query is `none`.
pub mod Latest
mod Examples
use Prim.Native.String.{String}
use text.Mathlib.Text.{◌==◌ as str_eq}
use text.Mathlib.TextEquality.{eq_iff}
use gatemux.Common.{
  ℕ, ◌+◌, ◌-◌, ◌≡◌, ◌↔◌, Bool, true, false, ◌&&◌, ◌||◌, Option, none, some, List, [], ◌∷◌, ◌++◌,
  ltb, ◌==◌, ℤ, arith, Result, ok, err, if◌then◌else◌,
}
use gatemux.Common.Maps.{Eq, find, put}

pub record ScopeKey : Type 0 where
  pub scope : String
  pub subject : String

pub scope_equals : ScopeKey → ScopeKey → Bool
scope_equals a b = str_eq a.scope b.scope && str_eq a.subject b.subject

pub scope_equals_iff : (a b : ScopeKey) → (scope_equals a b ≡ true) ↔ (a ≡ b)
unfolding scope_equals
scope_equals_iff a b = ground (arith, eq_iff a.scope b.scope, eq_iff a.subject b.subject)

instance abbrev pub scope_eq : Eq ScopeKey
scope_eq = record { equals = scope_equals; equals_iff = scope_equals_iff }

pub record PolicyRow : Type 0 where
  pub key : ScopeKey
  pub id : ℤ
  pub max_parallel_requests : Option ℤ

-- `concurrency.Scope`
pub record ConcurrencyScope : Type 0 where
  pub kind : String
  pub id : ℤ
  pub limit : ℤ

pub record Policies : Type 0 where
  pub by_scope : List (ScopeKey × ConcurrencyScope)
  pub loaded_at : ℕ

abbrev pub max_age : ℕ
max_age = 15000000000

abbrev pub scope_of : PolicyRow → ℤ → ConcurrencyScope
scope_of row limit = record { kind = row.key.scope; id = row.id; limit = limit }

-- Rows without a limit are passed over, and a later row replaces an earlier one.
pub load_rows :
    List PolicyRow → List (ScopeKey × ConcurrencyScope) → List (ScopeKey × ConcurrencyScope)
load_rows [] m = m
load_rows (row ∷ rows) m = elim row.max_parallel_requests [
  | none ↦ load_rows rows m
  | some limit ↦ load_rows rows (put row.key (scope_of row limit) m)
]

-- Whether the load succeeded, and the policies after it.
pub refresh_policies :
    ℕ → Option (List PolicyRow) → Option (List PolicyRow) → Policies → Bool × Policies
refresh_policies now none customers p = (false, p)
refresh_policies now (some rows) none p = (false, p)
refresh_policies now (some rows) (some customers) p =
    (true, record { by_scope = load_rows (rows ++ customers) []; loaded_at = now })

pub data PolicyError : Type 0 where
  stale_snapshot : PolicyError

abbrev pub is_stale : ℕ → Policies → Bool
is_stale now p = p.loaded_at == 0 || ltb max_age (now - p.loaded_at)

abbrev pub scopes_of : Option ConcurrencyScope → List ConcurrencyScope
scopes_of none = []
scopes_of (some s) = s ∷ []

pub concurrency_scope : ℕ → ScopeKey → Policies → Result PolicyError (List ConcurrencyScope)
concurrency_scope now key p =
    if is_stale now p then err stale_snapshot else ok (scopes_of (find key p.by_scope))
