-- ===== src/Guardrails/Push.antt =====
-- `Push` of internal/guardrails/guardrails.go. The byte mask of the source is a mask of the runes, since
-- every match starts and ends between runes.
pub mod Mask
use Prim.Native.String.{String}
use text.Mathlib.Text.{◌==◌ as str_eq}
use gatemux.Common.{
  ℕ, zero, suc, ◌+◌, ◌-◌, Bool, true, false, ◌&&◌, none, some, List, [], ◌∷◌, ◌++◌, length, ltb,
  if◌then◌else◌, Result, ok, err,
}
use gatemux.Common.Split.{drop}
use gatemux.Guardrails.{Text, Policy, Rule, Filter, byte_length}
use gatemux.Guardrails.Match.{spans}

pub data PushError : Type 0 where
  blocked unsupported output_limit lookbehind_limit : PushError

abbrev pub max_payload : ℕ
max_payload = 2097152

-- `cut` goes back over `hold` runes, to the start of the text at most.
unfoldable pub step_back : ℕ → ℕ → ℕ
step_back zero cut = cut
step_back (suc hold) zero = zero
step_back (suc hold) (suc cut) = step_back hold cut

unfoldable pub clear_mask : List ℕ → List Bool
clear_mask [] = []
clear_mask (c ∷ cs) = false ∷ clear_mask cs

-- Sets the mask from `first` to before `last`.
pub mark : ℕ → ℕ → List Bool → List Bool
mark first last [] = []
mark first zero (m ∷ ms) = m ∷ ms
mark zero (suc last) (m ∷ ms) = true ∷ mark zero last ms
mark (suc first) (suc last) (m ∷ ms) = m ∷ mark first last ms

unfoldable pub mark_all : List (ℕ × ℕ) → List Bool → List Bool
unfolding mark
mark_all [] mask = mask
mark_all (s ∷ ss) mask = mark_all ss (mark s.0 s.1 mask)

unfoldable pub is_masked : ℕ → List Bool → Bool
is_masked n [] = false
is_masked zero (m ∷ ms) = m
is_masked (suc n) (m ∷ ms) = is_masked n ms

-- A run of masked runes is not cut in two.
unfoldable pub retract : List Bool → ℕ → ℕ
unfolding is_masked
retract mask zero = zero
retract mask (suc cut) =
    let lower = retract mask cut in
    if ltb (suc cut) (length mask) && is_masked cut mask && is_masked (suc cut) mask
    then lower
    else suc cut

-- "[REDACTED]"
abbrev pub redacted : List ℕ
redacted = 91 ∷ 82 ∷ 69 ∷ 68 ∷ 65 ∷ 67 ∷ 84 ∷ 69 ∷ 68 ∷ 93 ∷ []

-- The text before the cut, with one mark for each run of masked runes: `inside` is the inner loop.
unfoldable pub emitted : Bool → ℕ → List ℕ → List Bool → List ℕ
emitted inside (suc cut) (c ∷ cs) (true ∷ ms) =
    let rest = emitted true cut cs ms in if inside then rest else redacted ++ rest
emitted inside (suc cut) (c ∷ cs) (false ∷ ms) = c ∷ emitted false cut cs ms
emitted inside _ _ _ = []

-- What the loops over rules and patterns carry.
pub record Progress : Type 0 where
  pub mask : List Bool
  pub rules : List Rule

abbrev pub started : String → String
started result = if str_eq result "not_evaluated" then "allow" else result

module _ (folds : ℕ → ℕ → Bool) where
  -- The patterns of one rule: the mask and the result, or `ErrBlocked` with the result.
  unfoldable pub run_patterns :
      List ℕ → String → List (List ℕ) → List Bool → String → Result String (List Bool × String)
  unfolding mark_all spans
  run_patterns s mode [] mask result = ok (mask, result)
  run_patterns s mode (t ∷ ts) mask result = elim (spans folds (length s) t 0 s) [
    | [] ↦ run_patterns s mode ts mask result
    | span ∷ more ↦
        let masked = run_patterns s mode ts (mark_all (span ∷ more) mask) mode in
        let kept = run_patterns s mode ts mask mode in
        if str_eq mode "block" then err mode else if str_eq mode "redact" then masked else kept
  ]

  -- The rules in order. After a block the rules behind it keep their results.
  unfoldable pub run_rules : List ℕ → List Rule → List Bool → Result (List Rule) Progress
  unfolding run_patterns
  run_rules s [] mask = ok (record { mask = mask; rules = [] })
  run_rules s (r ∷ rs) mask =
      elim (run_patterns s r.policy.mode r.patterns mask (started r.result)) [
        | err result ↦ err (record r { result = result } ∷ rs)
        | ok (mask', result) ↦ elim (run_rules s rs mask') [
          | err rules ↦ err (record r { result = result } ∷ rules)
          | ok p ↦ ok (record p { rules = record r { result = result } ∷ p.rules })
        ]
      ]

  -- The output and what stays pending, once the rules have run. The output only grows, so that its
  -- limit is tested once.
  unfoldable pub let_out : Filter → List ℕ → List Bool → ℕ → Result PushError (List ℕ) × Filter
  unfolding byte_length retract emitted drop
  let_out f s mask cut =
      let last = retract mask cut in
      let out = emitted false last s mask in
      let held = drop last s in
      if ltb max_payload (byte_length out)
      then (err output_limit, f)
      else if ltb 1024 (byte_length held)
      then (err lookbehind_limit, record f { pending = held })
      else (ok out, record f { pending = held })

  unfoldable pub push : Filter → Text → Bool → Result PushError (List ℕ) × Filter
  unfolding byte_length run_rules step_back clear_mask let_out
  push f none final = (err unsupported, f)
  push f (some text) final =
      let s = f.pending ++ text in
      let cut = if final then length s else step_back f.hold (length s) in
      if ltb max_payload (byte_length text)
      then (err unsupported, f)
      else elim (run_rules s f.rules (clear_mask s)) [
        | err rules ↦ (err blocked, record f { rules = rules })
        | ok p ↦ let_out (record f { rules = p.rules }) s p.mask cut
      ]
