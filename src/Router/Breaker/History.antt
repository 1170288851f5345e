-- ===== src/Router/Breaker/History.antt =====
-- The breakers of internal/router/router.go against the history of the calls that were recorded.
use Prim.Native.String.{String}
use gatemux.Common.{
  ℕ, suc, ◌+◌, ◌≤◌, ◌<◌, ◌≡◌, ◌↔◌, refl, true, some, List, [], ◌∷◌, arith, if◌then◌else◌, leb,
}
use gatemux.Router.Breaker.{
  BreakerState, fresh_breaker, cooldown, failure_threshold, failed, succeeded, is_open_state,
}

-- A call to a deployment that succeeded, or failed at a time and may be retried.
pub data Call : Type 0 where
  success : Call
  failure : (at : ℕ) (message : String) → Call

-- The breaker after a history, the last call first.
pub replay : List Call → BreakerState
replay [] = fresh_breaker
replay (success ∷ h) = succeeded (replay h)
replay (failure at message ∷ h) = failed at message (replay h)

-- The time of the last failure, or 0.
abbrev pub last_failure : List Call → ℕ
last_failure [] = 0
last_failure (success ∷ h) = last_failure h
last_failure (failure at message ∷ h) = at

-- How many failures, with no success between them, each within the cooldown after the one before.
abbrev pub streak : List Call → ℕ
streak [] = 0
streak (success ∷ h) = 0
streak (failure at message ∷ h) = if leb at (last_failure h + cooldown) then suc (streak h) else 1

-- Failures come in the order of their times, none at 0.
abbrev pub IsOrdered : List Call → Type 0
IsOrdered [] = Unit
IsOrdered (success ∷ h) = IsOrdered h
IsOrdered (failure at message ∷ h) = (0 < at) × (last_failure h ≤ at) × IsOrdered h

record Told (b : BreakerState) (last count : ℕ) : Type 0 where
  last_exact : b.last_failure ≡ last
  count_exact : b.consecutive_failures ≡ count
  opened : 3 ≤ count → b.open_until ≡ last + cooldown
  past : count < 3 → b.open_until ≤ last

streak_none : (h : List Call) → IsOrdered h → last_failure h ≡ 0 → streak h ≡ 0
streak_none [] o e = refl
streak_none (success ∷ h) o e = refl
streak_none (failure at message ∷ h) o e = absurd (omega (arith, o.0))

failed_lem :
    (at : ℕ) (message : String) (b : BreakerState) (last count : ℕ)
    → 0 < at
    → last ≤ at
    → (last ≡ 0 → count ≡ 0)
    → Told b last count
    → Told (failed at message b) at (if leb at (last + cooldown) then suc count else 1)
unfolding failed
failed_lem at message b last count pos order none_before h = ground arith

replay-Told : (h : List Call) → IsOrdered h → Told (replay h) (last_failure h) (streak h)
unfolding replay succeeded
replay-Told [] o = ground arith
replay-Told (success ∷ h) o = let k = replay-Told h o in ground arith
replay-Told (failure at message ∷ h) o =
    failed_lem at message (replay h) (last_failure h) (streak h) o.0 o.1 (streak_none h o.2)
      (replay-Told h o.2)

-- After any history of successes and of failures in the order of their times, and at any time from
-- the last failure on, the breaker is open exactly when the history ends in three or more failures,
-- no success between them and each within the cooldown after the one before, and the cooldown since
-- the last of them is not over.
pub replay-is_open :
    (h : List Call) (now : ℕ)
    → IsOrdered h
    → last_failure h ≤ now
    → (is_open_state now (some (replay h)) ≡ true)
      ↔ ((failure_threshold ≤ streak h) × (now < last_failure h + cooldown))
replay-is_open h now o le = let k = replay-Told h o in ground (arith, k.opened, k.past)
