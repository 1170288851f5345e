-- ===== src/Guardrails/Stream.antt =====
-- A text that internal/guardrails/guardrails.go gets in chunks: each but the last is pushed with `final`
-- false, as `Response` does for a stream, and the first error ends it.
pub mod Blocked
pub mod Transparent
pub mod Policies
pub mod Redacted
use Prim.Native.String.{String}
use gatemux.Common.{
  ℕ, ◌≡◌, refl, inl, inr, Bool, true, false, some, List, [], ◌∷◌, ◌++◌, length, ltb, if◌then◌else◌,
  Result, ok, err, ◌>>=◌, Result-cases, Bool-cases, arith,
}
use gatemux.Common.Split.{drop}
use gatemux.Guardrails.{Filter, Rule, byte_length}
use gatemux.Guardrails.Push.{
  PushError, Progress, push, run_rules, run_patterns, started, let_out, step_back, clear_mask,
  retract, emitted, max_payload,
}

pub concat : List (List ℕ) → List ℕ
concat [] = []
concat (t ∷ ts) = t ++ concat ts

module _ (folds : ℕ → ℕ → Bool) where
  unfoldable pub push_all : Filter → List (List ℕ) → Result PushError (List ℕ × Filter)
  unfolding push
  push_all f [] = ok ([], f)
  push_all f (t ∷ ts) =
      let (result, g) = push folds f (some t) false in
      elim result [
        | err e ↦ err e
        | ok out ↦ elim (push_all g ts) [ err e ↦ err e | ok (rest, h) ↦ ok (out ++ rest, h) ]
      ]

  unfoldable pub stream : Filter → List (List ℕ) → List ℕ → Result PushError (List ℕ)
  unfolding push push_all
  stream f ts last = elim (push_all f ts) [
    | err e ↦ err e
    | ok (out, g) ↦
        let (result, h) = push folds g (some last) true in
        elim result [ err e ↦ err e | ok rest ↦ ok (out ++ rest) ]
  ]

  -- Where the cut is before masked runes are held back.
  abbrev pub cut_of : Filter → List ℕ → Bool → ℕ
  cut_of f s final = if final then length s else step_back f.hold (length s)

  -- One rule, in a run without an error.
  pub record Ran (s : List ℕ) (r : Rule) (rs : List Rule) (mask : List Bool) (p : Progress)
      : Type 0 where
    pub end : List Bool × String
    pub first : run_patterns folds s r.policy.mode r.patterns mask (started r.result) ≡ ok end
    pub progress : Progress
    pub rest : run_rules folds s rs end.0 ≡ ok progress
    pub masks : p.mask ≡ progress.mask
    pub rules : p.rules ≡ record r { result = end.1 } ∷ progress.rules

  pub run_rules-Ran :
      (s : List ℕ) (r : Rule) (rs : List Rule) (mask : List Bool) {p : Progress}
      → run_rules folds s (r ∷ rs) mask ≡ ok p
      → Ran s r rs mask p
  unfolding run_rules
  run_rules-Ran s r rs mask h =
      elim (Result-cases (run_patterns folds s r.policy.mode r.patterns mask (started r.result))) [
        | inr (e, ran) ↦ absurd (ground arith)
        | inl (end, ran) ↦ elim (Result-cases (run_rules folds s rs end.0)) [
          | inr (e, more) ↦ absurd (ground arith)
          | inl (q, more) ↦ record {
            end = end;
            first = ran;
            progress = q;
            rest = more;
            masks = ground arith;
            rules = ground arith;
          }
        ]
      ]

  -- What a push without an error does.
  pub record Pushed (f : Filter) (t : List ℕ) (final : Bool) (out : List ℕ) (g : Filter)
      : Type 0 where
    pub progress : Progress
    pub ran : run_rules folds (f.pending ++ t) f.rules (clear_mask (f.pending ++ t)) ≡ ok progress
    pub rules : g.rules ≡ progress.rules
    pub hold : g.hold ≡ f.hold
    pub output :
        out
        ≡ emitted false
            (retract progress.mask (cut_of f (f.pending ++ t) final))
            (f.pending ++ t)
            progress.mask
    pub pending :
        g.pending ≡ drop (retract progress.mask (cut_of f (f.pending ++ t) final)) (f.pending ++ t)

  pub push-Pushed :
      (f : Filter) (t : List ℕ) (final : Bool) {out : List ℕ} {g : Filter}
      → push folds f (some t) final ≡ (ok out, g)
      → Pushed f t final out g
  unfolding push let_out
  push-Pushed f t final h =
      elim (Result-cases (run_rules folds (f.pending ++ t) f.rules (clear_mask (f.pending ++ t)))) [
        | inl (p, ran) ↦ record {
          progress = p;
          ran = ran;
          rules = ground arith;
          hold = ground arith;
          output = ground arith;
          pending = ground arith;
        }
        | inr (e, ran) ↦ absurd (ground arith)
      ]
