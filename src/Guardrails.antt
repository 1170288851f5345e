-- ===== src/Guardrails.antt =====
-- The text policies of internal/guardrails/guardrails.go: `Policy` with `Validate`, `Filter` with
-- `New` and `Results`. A text is its runes where it is valid UTF-8, and nothing where it is not.
pub mod Match
pub mod Push
pub mod Stream
mod Examples
use Prim.Native.Char.{code}
use Prim.Native.String.{String}
use text.Mathlib.Text.{◌==◌ as str_eq}
use gatemux.Common.{
  ℕ, ◌+◌, ◌-◌, max, Bool, true, false, not, ◌&&◌, ◌||◌, Option, none, some, List, [], ◌∷◌, ◌++◌,
  map, length, ltb, leb, ◌==◌, if◌then◌else◌, Result, ok, err, ◌>>◌, reject_if,
}

abbrev pub Text : Type 0
Text = Option (List ℕ)

-- The bytes of a rune in UTF-8.
abbrev pub width : ℕ → ℕ
width c = if ltb c 128 then 1 else if ltb c 2048 then 2 else if ltb c 65536 then 3 else 4

pub byte_length : List ℕ → ℕ
byte_length [] = 0
byte_length (c ∷ cs) = width c + byte_length cs

pub record Policy : Type 0 where
  pub name : String
  pub type : String
  pub mode : String
  pub phase : String
  pub terms : List Text

pub data PolicyError : Type 0 where
  invalid_name unsupported_type invalid_mode invalid_phase term_count invalid_term : PolicyError

abbrev codes : String → List ℕ
codes String.[] = []
codes (String.◌∷◌ c s) = code c ∷ codes s

between : ℕ → ℕ → ℕ → Bool
between low high c = leb low c && leb c high

is_alphanumeric : ℕ → Bool
unfolding between
is_alphanumeric c = between 97 122 c || between 65 90 c || between 48 57 c

-- `[a-zA-Z0-9_.-]`
is_name_rune : ℕ → Bool
unfolding is_alphanumeric
is_name_rune c = is_alphanumeric c || c == 95 || c == 46 || c == 45

all_runes : (ℕ → Bool) → List ℕ → Bool
all_runes p [] = true
all_runes p (c ∷ cs) = p c && all_runes p cs

-- `policyName`
pub is_policy_name : List ℕ → Bool
unfolding is_alphanumeric is_name_rune all_runes
is_policy_name [] = false
is_policy_name (c ∷ cs) = is_alphanumeric c && all_runes is_name_rune cs && leb (length cs) 63

-- The white space of Unicode, as `strings.TrimSpace` cuts it.
pub is_space : ℕ → Bool
unfolding between
is_space c =
    between 9 13 c
    || c == 32
    || c == 133
    || c == 160
    || c == 5760
    || between 8192 8202 c
    || c == 8232
    || c == 8233
    || c == 8239
    || c == 8287
    || c == 12288

pub is_bad_term : Text → Bool
unfolding all_runes is_space byte_length
is_bad_term none = true
is_bad_term (some t) = all_runes is_space t || ltb 128 (byte_length t)

pub has_bad_term : List Text → Bool
unfolding is_bad_term
has_bad_term [] = false
has_bad_term (t ∷ ts) = is_bad_term t || has_bad_term ts

pub validate : Policy → Result PolicyError (Unit {0})
unfolding is_policy_name has_bad_term
validate p = do
  reject_if (not (is_policy_name (codes p.name))) invalid_name
  reject_if (not (str_eq p.type "banned_terms")) unsupported_type
  reject_if
      (not (str_eq p.mode "block") && not (str_eq p.mode "redact") && not (str_eq p.mode "flag"))
      invalid_mode
  reject_if
      (not (str_eq p.phase "pre") && not (str_eq p.phase "post") && not (str_eq p.phase "both"))
      invalid_phase
  reject_if (length p.terms == 0 || ltb 32 (length p.terms)) term_count
  reject_if (has_bad_term p.terms) invalid_term
  ok tt

pub record Rule : Type 0 where
  pub policy : Policy
  pub patterns : List (List ℕ)
  pub result : String

-- The latency is the clock's.
pub record Filter : Type 0 where
  pub rules : List Rule
  pub phase : String
  pub hold : ℕ
  pub pending : List ℕ

-- `regexp.MustCompile` panics where the term is not UTF-8.
pub patterns_of : List Text → Option (List (List ℕ))
patterns_of [] = some []
patterns_of (none ∷ ts) = none
patterns_of (some t ∷ ts) = elim (patterns_of ts) [ none ↦ none | some ps ↦ some (t ∷ ps) ]

-- How many runes of the longest pattern may still be to come.
pub hold_of : List (List ℕ) → ℕ → ℕ
hold_of [] hold = hold
hold_of (t ∷ ts) hold = hold_of ts (max hold (length t - 1))

abbrev pub in_phase : String → Policy → Bool
in_phase phase p = str_eq p.phase phase || str_eq p.phase "both"

-- The loop of `New` over the policies.
pub add_policies : List Policy → Filter → Option Filter
unfolding patterns_of hold_of
add_policies [] f = some f
add_policies (p ∷ ps) f =
    let skipped = add_policies ps f in
    if in_phase f.phase p
    then elim (patterns_of p.terms) [
      | none ↦ none
      | some patterns ↦ add_policies ps (record f {
        rules =
            f.rules ++ record { policy = p; patterns = patterns; result = "not_evaluated" } ∷ [];
        hold = hold_of patterns f.hold;
      })
    ]
    else skipped

abbrev pub empty_filter : String → Filter
empty_filter phase = record { rules = []; phase = phase; hold = 0; pending = [] }

pub new_filter : List Policy → String → Option Filter
unfolding add_policies
new_filter policies phase = add_policies policies (empty_filter phase)

pub record Decision : Type 0 where
  pub name : String
  pub phase : String
  pub decision : String

-- `Results`
pub results : Filter → List Decision
results f = map (λ r. record { name = r.policy.name; phase = f.phase; decision = r.result }) f.rules

-- `Complete`: an error where text is left that no finish event has let out.
abbrev pub is_complete : Filter → Bool
is_complete f = length f.pending == 0
