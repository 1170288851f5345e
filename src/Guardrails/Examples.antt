-- ===== src/Guardrails/Examples.antt =====
-- Concrete policies and streams for internal/guardrails/guardrails.go.
use Prim.Native.String.{String}
use gatemux.Common.{
  ℕ, ◌+◌, ◌≡◌, refl, inl, Bool, true, false, ◌&&◌, some, none, List, [], ◌∷◌, ◌++◌, leb, ◌==◌,
  if◌then◌else◌, ok, err, arith,
}
use gatemux.Guardrails.{Text, Policy, Rule, Filter, validate, new_filter, results, is_policy_name}
use gatemux.Common.Split.{drop}
use gatemux.Guardrails.Match.{find_index}
use gatemux.Guardrails.Push.{push, emitted}
use gatemux.Guardrails.Stream.{concat, stream}
use gatemux.Guardrails.Stream.Transparent.{stream-transparent}
use gatemux.Guardrails.Stream.Policies.{new_filter-absent}
use gatemux.Guardrails.Stream.Redacted.{Covers, push-Covers}

abbrev lower : ℕ → ℕ
lower c = if leb 65 c && leb c 90 then c + 32 else c

abbrev ascii_folds : ℕ → ℕ → Bool
ascii_folds a b = lower a == lower b

-- "key" and "e"
abbrev key : List ℕ
key = 107 ∷ 101 ∷ 121 ∷ []

abbrev policy : String → Policy
policy mode = record {
  name = "no-keys";
  type = "banned_terms";
  mode = mode;
  phase = "both";
  terms = some key ∷ [];
}

abbrev rule : String → Rule
rule mode = record { policy = policy mode; patterns = key ∷ []; result = "not_evaluated" }

abbrev filter : String → Filter
filter mode = record { rules = rule mode ∷ []; phase = "post"; hold = 2; pending = [] }

policy_valid : validate (policy "block") ≡ ok tt
unfolding validate
policy_valid = refl

filter_made : (mode : String) → new_filter (policy mode ∷ []) "post" ≡ some (filter mode)
unfolding new_filter
filter_made mode = refl

-- "a k", "E" and "Y!" with the term over all three
blocked_at_last :
    stream ascii_folds (filter "block") ((97 ∷ 32 ∷ 107 ∷ []) ∷ (69 ∷ []) ∷ []) (89 ∷ 33 ∷ [])
    ≡ err gatemux.Guardrails.Push.blocked
unfolding stream
blocked_at_last = refl

-- "a k", "e" and "t!"
passes :
    stream ascii_folds (filter "block") ((97 ∷ 32 ∷ 107 ∷ []) ∷ (101 ∷ []) ∷ []) (116 ∷ 33 ∷ [])
    ≡ ok (97 ∷ 32 ∷ 107 ∷ 101 ∷ 116 ∷ 33 ∷ [])
unfolding stream
passes = refl

-- A text that is redacted across two chunks: "my KE" and "Y!"
redacts :
    stream ascii_folds (filter "redact") ((109 ∷ 121 ∷ 32 ∷ 75 ∷ 69 ∷ []) ∷ []) (89 ∷ 33 ∷ [])
    ≡ ok (109 ∷ 121 ∷ 32 ∷ 91 ∷ 82 ∷ 69 ∷ 68 ∷ 65 ∷ 67 ∷ 84 ∷ 69 ∷ 68 ∷ 93 ∷ 33 ∷ [])
unfolding stream
redacts = refl

flagged :
    (push ascii_folds (filter "flag") (some (107 ∷ 101 ∷ 121 ∷ [])) true).1.rules
    ≡ record (rule "flag") { result = "flag" } ∷ []
unfolding push
flagged = refl

new_filter-absent_example :
    find_index ascii_folds key (concat ((97 ∷ 32 ∷ 107 ∷ []) ∷ (101 ∷ []) ∷ []) ++ (116 ∷ 33 ∷ []))
    ≡ none
new_filter-absent_example =
    new_filter-absent key ascii_folds (policy "block" ∷ []) "post" (policy "block")
      ((97 ∷ 32 ∷ 107 ∷ []) ∷ (101 ∷ []) ∷ []) (116 ∷ 33 ∷ []) (filter_made "block") (inl refl)
      (record { mode = refl; applies = refl; term = inl refl }) (omega arith) passes

flags :
    stream ascii_folds (filter "flag") ((97 ∷ 107 ∷ 101 ∷ 121 ∷ []) ∷ []) (33 ∷ [])
    ≡ ok (97 ∷ 107 ∷ 101 ∷ 121 ∷ 33 ∷ [])
unfolding stream
flags = refl

stream-transparent_example :
    (97 ∷ 107 ∷ 101 ∷ 121 ∷ 33 ∷ []) ≡ [] ++ concat ((97 ∷ 107 ∷ 101 ∷ 121 ∷ []) ∷ []) ++ (33 ∷ [])
stream-transparent_example =
    stream-transparent ascii_folds (filter "flag") ((97 ∷ 107 ∷ 101 ∷ 121 ∷ []) ∷ []) (33 ∷ [])
      (refl, tt) flags

-- "aKey, b": the last two runes stay pending.
abbrev typed : List ℕ
typed = 97 ∷ 75 ∷ 101 ∷ 121 ∷ 44 ∷ 32 ∷ 98 ∷ []

abbrev typed_out : List ℕ
typed_out = 97 ∷ 91 ∷ 82 ∷ 69 ∷ 68 ∷ 65 ∷ 67 ∷ 84 ∷ 69 ∷ 68 ∷ 93 ∷ 44 ∷ []

typed_pushed : push ascii_folds (filter "redact") (some typed) false ≡ (
  ok typed_out,
  record (filter "redact") {
    rules = record (rule "redact") { result = "redact" } ∷ [];
    pending = 32 ∷ 98 ∷ [];
  },
)
unfolding push
typed_pushed = refl

push-Covers_example :
    (mask : List Bool) × (cut : ℕ) × (typed_out ≡ emitted false cut typed mask)
    × ((32 ∷ 98 ∷ []) ≡ drop cut typed)
    × Covers ascii_folds key typed mask
push-Covers_example =
    push-Covers ascii_folds (filter "redact") key typed false (omega arith) (inl (refl, inl refl))
      typed_pushed
