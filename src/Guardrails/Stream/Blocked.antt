-- ===== src/Guardrails/Stream/Blocked.antt =====
-- Filters of internal/guardrails/guardrails.go with a policy that blocks.
use Prim.Native.String.{String}
use gatemux.Common.{
  ℕ, zero, suc, ◌+◌, ◌-◌, ◌≤◌, ◌<◌, ◌≡◌, sym, ap, subst, ◌∙◌, ◌⊎◌, inl, inr, Bool, true, false,
  some, none, List, [], ◌∷◌, ◌++◌, length, length-append, Elem, leb, ok, Result-cases, pair-eq,
  Bool-cases, Bool-apart, arith,
}
use gatemux.Common.Split.{
  take, drop, take-drop, length-drop, length-take-le, append-nil, drop-append_front,
  drop-append_back, append_assoc,
}
use gatemux.Guardrails.{Filter, Rule}
use gatemux.Guardrails.Match.{
  is_prefix, is_prefix-nil, find_index, spans, find_index-none, find_index-absent, is_prefix-front,
}
use gatemux.Guardrails.Push.{
  push, run_rules, run_patterns, started, step_back, clear_mask, retract, Progress,
}
use gatemux.Guardrails.Stream.{concat, push_all, stream, push-Pushed, run_rules-Ran}

-- Some rule blocks the term.
abbrev pub Blocks : List ℕ → List Rule → Type 0
Blocks t [] = ⊥
Blocks t (r ∷ rs) = ((r.policy.mode ≡ "block") × Elem t r.patterns) ⊎ Blocks t rs

retract-le : (mask : List Bool) (cut : ℕ) → retract mask cut ≤ cut
unfolding retract
retract-le mask zero = omega arith
retract-le mask (suc cut) = ground (arith, retract-le mask cut)

step_back-eq : (hold cut : ℕ) → step_back hold cut ≡ cut - hold
unfolding step_back
step_back-eq zero cut = omega arith
step_back-eq (suc hold) zero = omega arith
step_back-eq (suc hold) (suc cut) = omega (arith, step_back-eq hold cut)

module _ (folds : ℕ → ℕ → Bool) (t : List ℕ) (nonempty : 0 < length t) where
  -- The loop over the matches meets one, if there is one.
  spans-none : (s : List ℕ) → spans folds (length s) t 0 s ≡ [] → find_index folds t s ≡ none
  unfolding spans
  spans-none [] h =
      find_index-absent folds t [] (λ n p. Bool-apart (is_prefix-nil folds t n nonempty) p)
  spans-none (c ∷ cs) h = ground arith

  run_patterns-none :
      (s : List ℕ) (ts : List (List ℕ)) (mask : List Bool) (result : String)
      {r : List Bool × String}
      → Elem t ts
      → run_patterns folds s "block" ts mask result ≡ ok r
      → find_index folds t s ≡ none
  unfolding run_patterns
  run_patterns-none s [] mask result e h = absurd e
  run_patterns-none s (u ∷ ts) mask result {r} (inl e) h =
      spans-none s (subst (λ w. spans folds (length s) w 0 s ≡ []) (sym e) (ground arith))
  run_patterns-none s (u ∷ ts) mask result {r} (inr e) h =
      ground (arith, run_patterns-none s ts mask result {r = r} e)

  record Passed (s : List ℕ) (p : Progress) : Type 0 where
    absent : find_index folds t s ≡ none
    rules : Blocks t p.rules

  run_rules-Passed :
      (s : List ℕ) (rs : List Rule) (mask : List Bool) {p : Progress}
      → Blocks t rs
      → run_rules folds s rs mask ≡ ok p
      → Passed s p
  unfolding run_rules
  run_rules-Passed s [] mask b h = absurd b
  run_rules-Passed s (r ∷ rs) mask (inl (mode, here)) h =
      let d = run_rules-Ran folds s r rs mask h in
      let first =
        subst (λ w. run_patterns folds s w r.patterns mask (started r.result) ≡ ok d.end) mode
          d.first in
      record {
        absent = run_patterns-none s r.patterns mask (started r.result) here first;
        rules = subst (Blocks t) (sym d.rules) (inl (mode, here));
      }
  run_rules-Passed s (r ∷ rs) mask (inr later) h =
      let d = run_rules-Ran folds s r rs mask h in
      let k = run_rules-Passed s rs d.end.0 later d.rest in
      record { absent = k.absent; rules = subst (Blocks t) (sym d.rules) (inr k.rules) }

  -- What has been let out, and what of the text is kept for the next push.
  record Split (f : Filter) (gone : List ℕ) : Type 0 where
    absent : find_index folds t (gone ++ f.pending) ≡ none
    rules : Blocks t f.rules
    fits : length t ≤ f.hold + 1
    held : 0 < length gone → f.hold ≤ length f.pending

  -- A match that starts in what is gone would end in what was there before.
  absent-append :
      (gone kept new : List ℕ)
      → find_index folds t (gone ++ kept) ≡ none
      → find_index folds t (kept ++ new) ≡ none
      → (0 < length gone → length t ≤ length kept + 1)
      → find_index folds t (gone ++ (kept ++ new)) ≡ none
  absent-append gone kept new old fresh short =
      find_index-absent folds t (gone ++ (kept ++ new)) λ n p.
        elim (Bool-cases (leb (length gone) n)) [
          | inl behind ↦
              let at = drop-append_back n gone (kept ++ new) (ground arith) in
              Bool-apart (find_index-none folds t (kept ++ new) (n - length gone) nonempty fresh)
                (subst (λ s. is_prefix folds t s ≡ true) at p)
          | inr before ↦
              let both = length-append gone kept in
              let at =
                ap (drop n) (sym (append_assoc gone kept new))
                ∙ drop-append_front n (gone ++ kept) new (ground (arith, both)) in
              let size = length-drop n (gone ++ kept) in
              let room = short (ground arith) in
              Bool-apart (find_index-none folds t (gone ++ kept) n nonempty old) (
                is_prefix-front folds t (drop n (gone ++ kept)) new
                  (ground (arith, both, size, room)) (subst (λ s. is_prefix folds t s ≡ true) at p))
        ]

  record Moved (f : Filter) (gone new : List ℕ) (g : Filter) : Type 0 where
    out : List ℕ
    split : Split g (gone ++ out)
    whole : (gone ++ out) ++ g.pending ≡ (gone ++ f.pending) ++ new

  push-Moved :
      (f : Filter) (gone new : List ℕ) {out : List ℕ} {g : Filter}
      → Split f gone
      → push folds f (some new) false ≡ (ok out, g)
      → Moved f gone new g
  push-Moved f gone new {out} {g} k h =
      let s : List ℕ = f.pending ++ new in
      let d = push-Pushed folds f new false h in
      let passed = run_rules-Passed s f.rules (clear_mask s) k.rules d.ran in
      let back = step_back f.hold (length s) in
      let cut = retract d.progress.mask back in
      let pending : g.pending ≡ drop cut s = d.pending in
      let whole : (gone ++ take cut s) ++ g.pending ≡ gone ++ s =
        cc (pending, take-drop cut s, append_assoc gone (take cut s) g.pending) in
      let absent : find_index folds t (gone ++ s) ≡ none =
        absent-append gone f.pending new k.absent passed.absent
          (λ z. ground (arith, k.fits, k.held z)) in
      let size : length g.pending ≡ length s - cut = ap length pending ∙ length-drop cut s in
      record {
        out = take cut s;
        split = record {
          absent = subst (λ u. find_index folds t u ≡ none) (sym whole) absent;
          rules = subst (Blocks t) (sym d.rules) passed.rules;
          fits = ground (arith, k.fits, d.hold);
          held = λ z. ground (
            arith,
            z,
            d.hold,
            size,
            k.held,
            length-append gone (take cut s),
            length-take-le cut s,
            length-append f.pending new,
            retract-le d.progress.mask back,
            step_back-eq f.hold (length s),
          );
        };
        whole = cc (whole, append_assoc gone f.pending new);
      }

  push_all-Split :
      (f : Filter) (gone : List ℕ) (ts : List (List ℕ)) {out : List ℕ} {g : Filter}
      → Split f gone
      → push_all folds f ts ≡ ok (out, g)
      → (front : List ℕ) × Split g front × (front ++ g.pending ≡ (gone ++ f.pending) ++ concat ts)
  unfolding push_all concat
  push_all-Split f gone [] {out} {g} k h =
      let same : f ≡ g = ground arith in
      (gone, subst (λ q. Split q gone) same k, cc (same, append-nil (gone ++ f.pending)))
  push_all-Split f gone (u ∷ ts) {out} {g} k h =
      let first = push folds f (some u) false in
      elim (Result-cases first.0) [
        | inr (e, failed) ↦ absurd (ground arith)
        | inl (o, went) ↦
            let m = push-Moved f gone u k (pair-eq first went) in
            elim (Result-cases (push_all folds first.1 ts)) [
              | inr (e, failed) ↦ absurd (ground arith)
              | inl ((rest, g'), more) ↦
                  let (front, split, whole) =
                    push_all-Split first.1 (gone ++ m.out) ts m.split more in
                  let last : g' ≡ g = ground arith in
                  (
                    front,
                    subst (λ q. Split q front) last split,
                    cc (last, whole, m.whole, append_assoc (gone ++ f.pending) u (concat ts)),
                  )
            ]
      ]

  -- A text that contains a blocked term does not end without an error: a match that is spread over any
  -- number of chunks is found, whatever the filter has let out before. The term is not empty, and the
  -- filter holds back what a match of it may begin with.
  pub stream-absent :
      (f : Filter) (ts : List (List ℕ)) (last : List ℕ) {out : List ℕ}
      → f.pending ≡ []
      → Blocks t f.rules
      → length t ≤ f.hold + 1
      → stream folds f ts last ≡ ok out
      → find_index folds t (concat ts ++ last) ≡ none
  unfolding stream
  stream-absent f ts last {out} fresh b fits h = elim (Result-cases (push_all folds f ts)) [
    | inr (e, failed) ↦ absurd (ground arith)
    | inl ((front, g), went) ↦
        let empty : find_index folds t [] ≡ none =
          find_index-absent folds t [] (λ n p. Bool-apart (is_prefix-nil folds t n nonempty) p) in
        let start : Split f [] = record {
          absent = subst (λ u. find_index folds t u ≡ none) (sym fresh) empty;
          rules = b;
          fits = fits;
          held = λ z. absurd (omega arith);
        } in
        let (gone, k, whole) = push_all-Split f [] ts start went in
        let final = push folds g (some last) true in
        elim (Result-cases final.0) [
          | inr (e, failed) ↦ absurd (ground arith)
          | inl (back, ended) ↦
              let d = push-Pushed folds g last true (pair-eq final ended) in
              let s = g.pending ++ last in
              let passed = run_rules-Passed s g.rules (clear_mask s) k.rules d.ran in
              let absent : find_index folds t (gone ++ s) ≡ none =
                absent-append gone g.pending last k.absent passed.absent
                  (λ z. ground (arith, k.fits, k.held z)) in
              let text =
                sym (append_assoc gone g.pending last)
                ∙ ap (λ u. u ++ last) (whole ∙ ap (λ u. u ++ concat ts) fresh) in
              subst (λ u. find_index folds t u ≡ none) text absent
        ]
  ]
