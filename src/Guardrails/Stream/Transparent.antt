-- ===== src/Guardrails/Stream/Transparent.antt =====
-- Filters of internal/guardrails/guardrails.go with no policy that redacts.
use Prim.Native.String.{String}
use text.Mathlib.Text.{◌==◌ as str_eq}
use gatemux.Common.{
  ℕ, zero, suc, ◌≡◌, refl, sym, ap, subst, ◌∙◌, inl, inr, Bool, true, false, some, List, [], ◌∷◌,
  ◌++◌, All, ok, Result-cases, pair-eq, arith,
}
use gatemux.Common.Split.{take, drop, take-drop, drop_all, append_assoc, append-nil}
use gatemux.Guardrails.{Filter, Rule}
use gatemux.Guardrails.Push.{
  push, run_rules, run_patterns, started, clear_mask, is_masked, retract, emitted, Progress,
}
use gatemux.Guardrails.Stream.{concat, push_all, stream, cut_of, push-Pushed, run_rules-Ran}

-- The rule does not redact.
abbrev pub IsVerbatim : Rule → Type 0
IsVerbatim r = str_eq r.policy.mode "redact" ≡ false

-- No rune of a clear mask is masked, so that nothing is held back behind the cut.
clear : (n : ℕ) (s : List ℕ) → is_masked n (clear_mask s) ≡ false
unfolding is_masked clear_mask
clear n [] = refl
clear zero (c ∷ cs) = refl
clear (suc n) (c ∷ cs) = clear n cs

retract-clear_mask : (s : List ℕ) (cut : ℕ) → retract (clear_mask s) cut ≡ cut
unfolding retract
retract-clear_mask s zero = refl
retract-clear_mask s (suc cut) = ground (arith, clear cut s, clear (suc cut) s)

emitted-clear_mask : (cut : ℕ) (s : List ℕ) → emitted false cut s (clear_mask s) ≡ take cut s
unfolding emitted clear_mask take
emitted-clear_mask zero [] = refl
emitted-clear_mask zero (c ∷ cs) = refl
emitted-clear_mask (suc cut) [] = refl
emitted-clear_mask (suc cut) (c ∷ cs) = ap (λ rest. c ∷ rest) (emitted-clear_mask cut cs)

module _ (folds : ℕ → ℕ → Bool) where
  run_patterns-mask :
      (s : List ℕ) (mode : String) (ts : List (List ℕ)) (mask : List Bool) (result : String)
      {m : List Bool} {r : String}
      → str_eq mode "redact" ≡ false
      → run_patterns folds s mode ts mask result ≡ ok (m, r)
      → m ≡ mask
  unfolding run_patterns
  run_patterns-mask s mode [] mask result v h = ground arith
  run_patterns-mask s mode (t ∷ ts) mask result {m} {r} v h = ground (
    arith,
    run_patterns-mask s mode ts mask mode {m = m} {r = r} v,
    run_patterns-mask s mode ts mask result {m = m} {r = r} v,
  )

  record Unmasked (rs : List Rule) (mask : List Bool) (p : Progress) : Type 0 where
    same : p.mask ≡ mask
    rules : All IsVerbatim p.rules

  run_rules-Unmasked :
      (s : List ℕ) (rs : List Rule) (mask : List Bool) {p : Progress}
      → All IsVerbatim rs
      → run_rules folds s rs mask ≡ ok p
      → Unmasked rs mask p
  unfolding run_rules
  run_rules-Unmasked s [] mask v h = record { same = ground arith; rules = ground arith }
  run_rules-Unmasked s (r ∷ rs) mask v h =
      let d = run_rules-Ran folds s r rs mask h in
      let same = run_patterns-mask s r.policy.mode r.patterns mask (started r.result) v.0 d.first in
      let u = run_rules-Unmasked s rs d.end.0 v.1 d.rest in
      record {
        same = d.masks ∙ u.same ∙ same;
        rules = subst (All IsVerbatim) (sym d.rules) (v.0, u.rules);
      }

  record Kept (f : Filter) (t : List ℕ) (final : Bool) (out : List ℕ) (g : Filter) : Type 0 where
    kept : out ++ g.pending ≡ f.pending ++ t
    rules : All IsVerbatim g.rules
    flushed : final ≡ true → g.pending ≡ []

  push-Kept :
      (f : Filter) (t : List ℕ) (final : Bool) {out : List ℕ} {g : Filter}
      → All IsVerbatim f.rules
      → push folds f (some t) final ≡ (ok out, g)
      → Kept f t final out g
  push-Kept f t final {out} {g} v h =
      let s : List ℕ = f.pending ++ t in
      let cut = cut_of folds f s final in
      let d = push-Pushed folds f t final h in
      let u = run_rules-Unmasked s f.rules (clear_mask s) v d.ran in
      let uncut : retract d.progress.mask cut ≡ cut =
        ap (λ m. retract m cut) u.same ∙ retract-clear_mask s cut in
      let output : out ≡ take cut s = cc (d.output, uncut, u.same, emitted-clear_mask cut s) in
      let pending : g.pending ≡ drop cut s = d.pending ∙ ap (λ c. drop c s) uncut in
      record {
        kept = cc (output, pending, take-drop cut s);
        rules = subst (All IsVerbatim) (sym d.rules) u.rules;
        flushed = λ e. pending ∙ drop_all cut s (ground arith);
      }

  record KeptAll (f : Filter) (ts : List (List ℕ)) (out : List ℕ) (g : Filter) : Type 0 where
    kept : out ++ g.pending ≡ f.pending ++ concat ts
    rules : All IsVerbatim g.rules

  push_all-KeptAll :
      (f : Filter) (ts : List (List ℕ)) {out : List ℕ} {g : Filter}
      → All IsVerbatim f.rules
      → push_all folds f ts ≡ ok (out, g)
      → KeptAll f ts out g
  unfolding push_all concat
  push_all-KeptAll f [] {out} {g} v h =
      let same : f ≡ g = ground arith in
      let empty : [] ≡ out = ground arith in
      record {
        kept = cc (same, empty, append-nil f.pending);
        rules = subst (λ q. All IsVerbatim q.rules) same v;
      }
  push_all-KeptAll f (t ∷ ts) {out} {g} v h =
      let first = push folds f (some t) false in
      elim (Result-cases first.0) [
        | inr (e, failed) ↦ absurd (ground arith)
        | inl (o, went) ↦
            let k = push-Kept f t false v (pair-eq first went) in
            elim (Result-cases (push_all folds first.1 ts)) [
              | inr (e, failed) ↦ absurd (ground arith)
              | inl ((rest, g'), more) ↦
                  let ks = push_all-KeptAll first.1 ts k.rules more in
                  let last : g' ≡ g = ground arith in
                  let whole : o ++ rest ≡ out = ground arith in
                  record {
                    kept = cc (
                      whole,
                      last,
                      ks.kept,
                      k.kept,
                      append_assoc o rest g'.pending,
                      append_assoc o first.1.pending (concat ts),
                      append_assoc f.pending t (concat ts),
                    );
                    rules = subst (λ q. All IsVerbatim q.rules) last ks.rules;
                  }
            ]
      ]

  -- Through a filter that does not redact, a text that ends without an error comes out as it went in,
  -- rune for rune and in order, however it was cut into chunks and whatever was held back between them.
  pub stream-transparent :
      (f : Filter) (ts : List (List ℕ)) (last : List ℕ) {out : List ℕ}
      → All IsVerbatim f.rules
      → stream folds f ts last ≡ ok out
      → out ≡ f.pending ++ concat ts ++ last
  unfolding stream
  stream-transparent f ts last {out} v h = elim (Result-cases (push_all folds f ts)) [
    | inr (e, failed) ↦ absurd (ground arith)
    | inl ((front, g), went) ↦
        let ks = push_all-KeptAll f ts v went in
        let final = push folds g (some last) true in
        elim (Result-cases final.0) [
          | inr (e, failed) ↦ absurd (ground arith)
          | inl (back, ended) ↦
              let k = push-Kept g last true ks.rules (pair-eq final ended) in
              let whole : front ++ back ≡ out = ground arith in
              cc (
                whole,
                ks.kept,
                k.kept,
                k.flushed refl,
                append-nil back,
                append_assoc front g.pending last,
              )
        ]
  ]
