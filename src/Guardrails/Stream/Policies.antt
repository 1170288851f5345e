-- ===== src/Guardrails/Stream/Policies.antt =====
-- `New` of internal/guardrails/guardrails.go, and a stream through the filter that it makes.
use Prim.Native.String.{String}
use gatemux.Common.{
  ℕ, ◌+◌, ◌-◌, ◌≤◌, ◌<◌, ◌≡◌, sym, ap, subst, ◌⊎◌, inl, inr, Bool, true, false, some, none, List,
  [], ◌∷◌, ◌++◌, length, max, Elem, ok, Option-cases, Bool-cases, Bool-apart, arith,
}
use gatemux.Guardrails.{
  Text, Policy, Rule, Filter, patterns_of, hold_of, add_policies, new_filter, in_phase,
  empty_filter,
}
use gatemux.Guardrails.Match.{find_index}
use gatemux.Guardrails.Stream.{concat, stream}
use gatemux.Guardrails.Stream.Blocked.{Blocks, stream-absent}

Elem-patterns_of :
    (t : List ℕ) (ts : List Text) {ps : List (List ℕ)}
    → patterns_of ts ≡ some ps
    → Elem (some t) ts
    → Elem t ps
unfolding patterns_of
Elem-patterns_of t [] h e = absurd e
Elem-patterns_of t (none ∷ ts) h e = absurd (ground arith)
Elem-patterns_of t (some u ∷ ts) {ps} h e = elim (Option-cases (patterns_of ts)) [
  | inl failed ↦ absurd (ground arith)
  | inr (qs, made) ↦
      let same : u ∷ qs ≡ ps = ground arith in
      subst (Elem t) same (elim e [
        | inl here ↦ inl (ground arith)
        | inr later ↦ inr (Elem-patterns_of t ts made later)
      ])
]

hold_of-grows : (ps : List (List ℕ)) (hold : ℕ) → hold ≤ hold_of ps hold
unfolding hold_of
hold_of-grows [] hold = omega arith
hold_of-grows (p ∷ ps) hold = omega (arith, hold_of-grows ps (max hold (length p - 1)))

hold_of-fits :
    (t : List ℕ) (ps : List (List ℕ)) (hold : ℕ) → Elem t ps → length t ≤ hold_of ps hold + 1
unfolding hold_of
hold_of-fits t [] hold e = absurd e
hold_of-fits t (p ∷ ps) hold (inl here) =
    omega (arith, ap (λ u. length u) here, hold_of-grows ps (max hold (length p - 1)))
hold_of-fits t (p ∷ ps) hold (inr later) = hold_of-fits t ps (max hold (length p - 1)) later

record Guarded (t : List ℕ) (f : Filter) : Type 0 where
  rules : Blocks t f.rules
  fits : length t ≤ f.hold + 1

Blocks-append_front : (t : List ℕ) (rs new : List Rule) → Blocks t rs → Blocks t (rs ++ new)
Blocks-append_front t [] new b = absurd b
Blocks-append_front t (r ∷ rs) new (inl here) = inl here
Blocks-append_front t (r ∷ rs) new (inr later) = inr (Blocks-append_front t rs new later)

Blocks-append_back : (t : List ℕ) (rs new : List Rule) → Blocks t new → Blocks t (rs ++ new)
Blocks-append_back t [] new b = b
Blocks-append_back t (r ∷ rs) new b = inr (Blocks-append_back t rs new b)

abbrev rule_of : Policy → List (List ℕ) → Rule
rule_of p ps = record { policy = p; patterns = ps; result = "not_evaluated" }

abbrev with_rule : Policy → List (List ℕ) → Filter → Filter
with_rule p ps f = record f { rules = f.rules ++ rule_of p ps ∷ []; hold = hold_of ps f.hold }

-- One policy: skipped, or added as a rule.
record Added (p : Policy) (ps : List Policy) (f g : Filter) : Type 0 where
  patterns : List (List ℕ)
  made : patterns_of p.terms ≡ some patterns
  rest : add_policies ps (with_rule p patterns f) ≡ some g

add_policies-cases :
    (p : Policy) (ps : List Policy) (f : Filter) {g : Filter}
    → add_policies (p ∷ ps) f ≡ some g
    → (in_phase f.phase p ≡ true × Added p ps f g)
      ⊎ (in_phase f.phase p ≡ false × (add_policies ps f ≡ some g))
unfolding add_policies
add_policies-cases p ps f h = elim (Bool-cases (in_phase f.phase p)) [
  | inr skipped ↦ inr (skipped, ground arith)
  | inl used ↦ elim (Option-cases (patterns_of p.terms)) [
    | inl failed ↦ absurd (ground arith)
    | inr (patterns, made) ↦
        inl (used, record { patterns = patterns; made = made; rest = ground arith })
  ]
]

add_policies-pending :
    (ps : List Policy) (f : Filter) {g : Filter}
    → add_policies ps f ≡ some g
    → g.pending ≡ f.pending
unfolding add_policies
add_policies-pending [] f h = ground arith
add_policies-pending (p ∷ ps) f h = elim (add_policies-cases p ps f h) [
  | inl (used, a) ↦ add_policies-pending ps (with_rule p a.patterns f) a.rest
  | inr (skipped, rest) ↦ add_policies-pending ps f rest
]

module _ (t : List ℕ) where
  with_rule-Guarded :
      (p : Policy) (ps : List (List ℕ)) (f : Filter) → Guarded t f → Guarded t (with_rule p ps f)
  with_rule-Guarded p ps f k = record {
    rules = Blocks-append_front t f.rules (rule_of p ps ∷ []) k.rules;
    fits = omega (arith, k.fits, hold_of-grows ps f.hold);
  }

  add_policies-Guarded :
      (ps : List Policy) (f : Filter) {g : Filter}
      → add_policies ps f ≡ some g
      → Guarded t f
      → Guarded t g
  unfolding add_policies
  add_policies-Guarded [] f h k = subst (Guarded t) (ground arith) k
  add_policies-Guarded (p ∷ ps) f h k = elim (add_policies-cases p ps f h) [
    | inl (used, a) ↦
        add_policies-Guarded ps (with_rule p a.patterns f) a.rest
          (with_rule-Guarded p a.patterns f k)
    | inr (skipped, rest) ↦ add_policies-Guarded ps f rest k
  ]

  -- The policy has the term and blocks in the phase.
  pub record Bans (phase : String) (p : Policy) : Type 0 where
    pub mode : p.mode ≡ "block"
    pub applies : in_phase phase p ≡ true
    pub term : Elem (some t) p.terms

  add_policies-Bans :
      (ps : List Policy) (f : Filter) (p : Policy) {g : Filter}
      → add_policies ps f ≡ some g
      → Elem p ps
      → Bans f.phase p
      → Guarded t g
  add_policies-Bans [] f p h e b = absurd e
  add_policies-Bans (q ∷ ps) f p h (inl here) b = elim (add_policies-cases q ps f h) [
    | inr (skipped, rest) ↦
        absurd (Bool-apart (subst (λ w. in_phase f.phase w ≡ false) (sym here) skipped) b.applies)
    | inl (used, a) ↦
        let here' = subst (λ w. Bans f.phase w) here b in
        let listed = Elem-patterns_of t q.terms a.made here'.term in
        add_policies-Guarded ps (with_rule q a.patterns f) a.rest (record {
          rules =
              Blocks-append_back t f.rules (rule_of q a.patterns ∷ []) (inl (here'.mode, listed));
          fits = hold_of-fits t a.patterns f.hold listed;
        })
  ]
  add_policies-Bans (q ∷ ps) f p h (inr later) b = elim (add_policies-cases q ps f h) [
    | inl (used, a) ↦ add_policies-Bans ps (with_rule q a.patterns f) p a.rest later b
    | inr (skipped, rest) ↦ add_policies-Bans ps f p rest later b
  ]

  -- A text that contains a term of a blocking policy, whatever the case of its letters, never ends
  -- without an error, however it is cut into chunks: the filter that `New` makes of the policies finds
  -- a match that is spread over any number of them. The policy is for the phase of the filter, and the
  -- term is not empty.
  pub new_filter-absent :
      (folds : ℕ → ℕ → Bool) (policies : List Policy) (phase : String) (p : Policy)
      (ts : List (List ℕ)) (last : List ℕ) {f : Filter} {out : List ℕ}
      → new_filter policies phase ≡ some f
      → Elem p policies
      → Bans phase p
      → 0 < length t
      → stream folds f ts last ≡ ok out
      → find_index folds t (concat ts ++ last) ≡ none
  unfolding new_filter
  new_filter-absent folds policies phase p ts last {f} made e b nonempty h =
      let k = add_policies-Bans policies (empty_filter phase) p made e b in
      stream-absent folds t nonempty f ts last
        (add_policies-pending policies (empty_filter phase) made) k.rules k.fits h
