-- ===== src/Guardrails/Stream/Redacted.antt =====
-- Filters of internal/guardrails/guardrails.go with a policy that redacts.
use Prim.Native.String.{String}
use text.Mathlib.Text.{◌==◌ as str_eq}
use text.Mathlib.TextEquality.{eq_iff}
use gatemux.Common.{
  ℕ, suc, ◌<◌, ◌≡◌, refl, sym, ap, subst, ◌∙◌, ◌⊎◌, inl, inr, Bool, true, false, some, List, [],
  ◌∷◌, ◌++◌, length, Elem, ok, List-cases, Bool-cases, Bool-apart, arith,
}
use gatemux.Common.Split.{drop}
use gatemux.Guardrails.{Filter, Rule}
use gatemux.Guardrails.Match.{is_prefix, spans, spans-Covered}
use gatemux.Guardrails.Push.Mask.{
  Grown, Grown-refl, Grown-trans, mark_all-Grown, mark_all-sets, length-clear_mask,
}
use gatemux.Guardrails.Push.{
  push, run_rules, run_patterns, started, clear_mask, mark_all, is_masked, retract, emitted,
  Progress,
}
use gatemux.Guardrails.Stream.{cut_of, push-Pushed, run_rules-Ran}

-- Some rule redacts the term.
abbrev pub Redacts : List ℕ → List Rule → Type 0
Redacts t [] = ⊥
Redacts t (r ∷ rs) = ((r.policy.mode ≡ "redact") × Elem t r.patterns) ⊎ Redacts t rs

module _ (folds : ℕ → ℕ → Bool) where
  -- One pattern, in a run without an error.
  record Marked (s : List ℕ) (mode : String) (t : List ℕ) (ts : List (List ℕ)) (mask : List Bool)
      (end : List Bool × String) : Type 0 where
    after : List Bool
    result : String
    rest : run_patterns folds s mode ts after result ≡ ok end
    grown : Grown mask after
    marked : mode ≡ "redact" → after ≡ mark_all (spans folds (length s) t 0 s) mask

  run_patterns-Marked :
      (s : List ℕ) (mode : String) (t : List ℕ) (ts : List (List ℕ)) (mask : List Bool)
      (result : String) {end : List Bool × String}
      → run_patterns folds s mode (t ∷ ts) mask result ≡ ok end
      → Marked s mode t ts mask end
  unfolding run_patterns mark_all
  run_patterns-Marked s mode t ts mask result {end} h =
      elim (List-cases (spans folds (length s) t 0 s)) [
        | inl none ↦ record {
          after = mask;
          result = result;
          rest = ground arith;
          grown = Grown-refl mask;
          marked = λ e. rw (none, mark_all) refl;
        }
        | inr (span, more, found) ↦ elim (Bool-cases (str_eq mode "redact")) [
          | inl redacts ↦ record {
            after = mark_all (span ∷ more) mask;
            result = mode;
            rest = ground arith;
            grown = mark_all-Grown (span ∷ more) mask;
            marked = λ e. ap (λ ss. mark_all ss mask) (sym found);
          }
          | inr leaves ↦ record {
            after = mask;
            result = mode;
            rest = ground arith;
            grown = Grown-refl mask;
            marked = λ e. absurd (Bool-apart leaves ((eq_iff mode "redact").1 e));
          }
        ]
      ]

  run_patterns-Grown :
      (s : List ℕ) (mode : String) (ts : List (List ℕ)) (mask : List Bool) (result : String)
      {end : List Bool × String}
      → run_patterns folds s mode ts mask result ≡ ok end
      → Grown mask end.0
  unfolding run_patterns
  run_patterns-Grown s mode [] mask result {end} h =
      subst (Grown mask) (ground arith) (Grown-refl mask)
  run_patterns-Grown s mode (t ∷ ts) mask result {end} h =
      let m = run_patterns-Marked s mode t ts mask result h in
      Grown-trans m.grown (run_patterns-Grown s mode ts m.after m.result m.rest)

  run_patterns-masked :
      (s t : List ℕ) (n : ℕ) (ts : List (List ℕ)) (mask : List Bool) (result : String)
      {end : List Bool × String}
      → 0 < length t
      → length mask ≡ length s
      → n < length s
      → is_prefix folds t (drop n s) ≡ true
      → Elem t ts
      → run_patterns folds s "redact" ts mask result ≡ ok end
      → is_masked n end.0 ≡ true
  run_patterns-masked s t n [] mask result k size l p e h = absurd e
  run_patterns-masked s t n (u ∷ ts) mask result k size l p (inl here) h =
      let m = run_patterns-Marked s "redact" u ts mask result h in
      let c = spans-Covered folds (length s) t 0 s n (omega arith) k p in
      let hit =
        mark_all-sets (spans folds (length s) t 0 s) c.first c.last n mask c.span
          (omega (arith, c.after)) (omega (arith, c.before)) (omega (arith, size, l)) in
      let marked =
        subst (λ w. m.after ≡ mark_all (spans folds (length s) w 0 s) mask) (sym here)
          (m.marked refl) in
      (run_patterns-Grown s "redact" ts m.after m.result m.rest).grows n
        (subst (λ w. is_masked n w ≡ true) (sym marked) hit)
  run_patterns-masked s t n (u ∷ ts) mask result k size l p (inr later) h =
      let m = run_patterns-Marked s "redact" u ts mask result h in
      run_patterns-masked s t n ts m.after m.result k (m.grown.size ∙ size) l p later m.rest

  run_rules-Grown :
      (s : List ℕ) (rs : List Rule) (mask : List Bool) {p : Progress}
      → run_rules folds s rs mask ≡ ok p
      → Grown mask p.mask
  unfolding run_rules
  run_rules-Grown s [] mask h = subst (Grown mask) (ground arith) (Grown-refl mask)
  run_rules-Grown s (r ∷ rs) mask h =
      let d = run_rules-Ran folds s r rs mask h in
      subst (Grown mask) (sym d.masks) (
        Grown-trans (run_patterns-Grown s r.policy.mode r.patterns mask (started r.result) d.first)
          (run_rules-Grown s rs d.end.0 d.rest))

  run_rules-masked :
      (s t : List ℕ) (n : ℕ) (rs : List Rule) (mask : List Bool) {p : Progress}
      → 0 < length t
      → length mask ≡ length s
      → n < length s
      → is_prefix folds t (drop n s) ≡ true
      → Redacts t rs
      → run_rules folds s rs mask ≡ ok p
      → is_masked n p.mask ≡ true
  run_rules-masked s t n [] mask k size l at b h = absurd b
  run_rules-masked s t n (r ∷ rs) mask k size l at (inl (mode, listed)) h =
      let d = run_rules-Ran folds s r rs mask h in
      let first =
        subst (λ w. run_patterns folds s w r.patterns mask (started r.result) ≡ ok d.end) mode
          d.first in
      let hit =
        run_patterns-masked s t n r.patterns mask (started r.result) k size l at listed first in
      subst (λ w. is_masked n w ≡ true) (sym d.masks)
        ((run_rules-Grown s rs d.end.0 d.rest).grows n hit)
  run_rules-masked s t n (r ∷ rs) mask k size l at (inr later) h =
      let d = run_rules-Ran folds s r rs mask h in
      let grown = run_patterns-Grown s r.policy.mode r.patterns mask (started r.result) d.first in
      subst (λ w. is_masked n w ≡ true) (sym d.masks)
        (run_rules-masked s t n rs d.end.0 k (grown.size ∙ size) l at later d.rest)

  -- Every place where the term starts is masked.
  abbrev pub Covers : List ℕ → List ℕ → List Bool → Type 0
  Covers t [] ms = Unit
  Covers t (c ∷ cs) [] = ⊥
  Covers t (c ∷ cs) (m ∷ ms) = ((is_prefix folds t (c ∷ cs) ≡ false) ⊎ (m ≡ true)) × Covers t cs ms

  Covers-masked :
      (t s : List ℕ) (mask : List Bool)
      → length mask ≡ length s
      → ((n : ℕ) → n < length s → is_prefix folds t (drop n s) ≡ true → is_masked n mask ≡ true)
      → Covers t s mask
  unfolding drop is_masked
  Covers-masked t [] ms size h = tt
  Covers-masked t (c ∷ cs) [] size h = absurd (omega arith)
  Covers-masked t (c ∷ cs) (m ∷ ms) size h = (
    elim (Bool-cases (is_prefix folds t (c ∷ cs))) [
      | inl starts ↦ inr (h 0 (omega arith) starts)
      | inr other ↦ inl other
    ],
    Covers-masked t cs ms (omega arith) (λ n l at. h (suc n) (omega arith) at),
  )

  -- A push without an error puts out the buffered text up to a cut, with a mark for each run of masked
  -- runes, and keeps the text behind the cut. Every place of the buffered text where a term of a
  -- redacting rule starts is masked, whatever the case of its letters and whatever other matches it
  -- overlaps. The term is not empty.
  pub push-Covers :
      (f : Filter) (t text : List ℕ) (final : Bool) {out : List ℕ} {g : Filter}
      → 0 < length t
      → Redacts t f.rules
      → push folds f (some text) final ≡ (ok out, g)
      → (mask : List Bool) × (cut : ℕ) × (out ≡ emitted false cut (f.pending ++ text) mask)
        × (g.pending ≡ drop cut (f.pending ++ text))
        × Covers t (f.pending ++ text) mask
  push-Covers f t text final k b h =
      let s : List ℕ = f.pending ++ text in
      let d = push-Pushed folds f text final h in
      let size = (run_rules-Grown s f.rules (clear_mask s) d.ran).size in
      let covers = Covers-masked t s d.progress.mask (size ∙ length-clear_mask s) (λ n l at.
        run_rules-masked s t n f.rules (clear_mask s) k (length-clear_mask s) l at b d.ran) in
      (
        d.progress.mask,
        retract d.progress.mask (cut_of folds f s final),
        d.output,
        d.pending,
        covers,
      )
