-- ===== src/Concurrency.antt =====
-- The distributed leases of internal/concurrency/limiter.go: the scopes of a request, the two Redis
-- scripts, and the Go code around them. Times are milliseconds on the clock of Redis.
pub mod Redis
pub mod Script
pub mod Limiter
pub mod Spec
pub mod Bound
mod Examples
use Prim.Native.String.{String}
use text.Mathlib.Text.{◌==◌ as str_eq}
use text.Mathlib.TextEquality.{eq_iff}
use gatemux.Common.{◌≡◌, ◌↔◌, Bool, true, ◌&&◌, ℤ, eqb_ℤ, eqb_ℤ→eq, arith}
use gatemux.Common.Maps.{Eq}

-- The key of a scope: the prefix is the same for all.
pub record LeaseKey : Type 0 where
  pub kind : String
  pub id : ℤ

pub lease_key_equals : LeaseKey → LeaseKey → Bool
lease_key_equals a b = str_eq a.kind b.kind && eqb_ℤ a.id b.id

pub lease_key_equals_iff : (a b : LeaseKey) → (lease_key_equals a b ≡ true) ↔ (a ≡ b)
unfolding lease_key_equals
lease_key_equals_iff a b = ground (arith, eq_iff a.kind b.kind, eqb_ℤ→eq a.id b.id)

instance abbrev pub lease_key_eq : Eq LeaseKey
lease_key_eq = record { equals = lease_key_equals; equals_iff = lease_key_equals_iff }

instance abbrev pub member_eq : Eq String
member_eq = record { equals = str_eq; equals_iff = eq_iff }

-- `Scope`
pub record LeaseScope : Type 0 where
  pub key : LeaseKey
  pub limit : ℤ
