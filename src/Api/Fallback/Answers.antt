-- ===== src/Api/Fallback/Answers.antt =====
-- The calls of the fallback loops of internal/api/v1.go and what they return.
use Prim.Native.String.{String}
use gatemux.Common.{
  ℕ, zero, suc, ◌+◌, ◌≡◌, refl, sym, ap, ◌∙◌, subst, ◌⊎◌, inl, inr, Bool, true, false, not, ◌&&◌,
  ◌||◌, List, [], ◌∷◌, ◌++◌, length, Option, none, some, Bool-cases, Result-cases, pair-eq, arith,
  if◌then◌else◌,
}
use gatemux.Common.Split.{append_assoc, append-nil}
use gatemux.Router.Types.{ResolveContext}
use gatemux.Router.Breaker.{is_retryable}
use gatemux.Router.Select.{ResolveError, resolve}
use gatemux.Api.Fallback.{
  Kind, Capacity, admitted, saturated, scope_full, capacity_failed, Round, Action, Outcome, failed,
  out_of_fuel, LoopError, all_saturated, Locals, Turn, stops, continues, is_answer, is_stream,
  call_upstream, try_upstream, turn, loop, failure_of, run_with_fallback, request_of,
}
use gatemux.Api.Fallback.Ends.{Turn-cases}
use gatemux.Api.Fallback.History.{
  Met, met_saturated, met_scope, met_error, History, names, latest_error, reported, calls_of, Comes,
  IsMet, IsTrue, Last, gives_up, lacks, breaks, answers, refuses, Leads,
}

abbrev is_saturation : Met → Bool
is_saturation (met_saturated name) = true
is_saturation _ = false

abbrev any_saturation : History → Bool
any_saturation [] = false
any_saturation (m ∷ past) = if is_saturation m then true else any_saturation past

-- The variables of the loop behind a history.
abbrev locals_of : History → Locals
locals_of past = record {
  tried = names past;
  last_error = latest_error past;
  any_saturated = any_saturation past;
}

all_saturated_lem :
    (e : ResolveError) (o : Option LoopError)
    → failure_of e (record { tried = []; last_error = o; any_saturated = true })
      ≡ elim o [ some last ↦ last | none ↦ all_saturated ]
all_saturated_lem e none = refl
all_saturated_lem e (some last) = refl

failure_of-reported :
    (e : ResolveError) (past : History) → failure_of e (locals_of past) ≡ reported past e
failure_of-reported e [] = refl
failure_of-reported e (met_saturated name ∷ past) = all_saturated_lem e (latest_error past)
failure_of-reported e (met_scope name ∷ past) = refl
failure_of-reported e (met_error name f ∷ past) = refl

module _ (getenv : String → String) (kind : Kind) (alias : String) (context : ResolveContext)
    (rounds : ℕ → Round) where
  abbrev Told : History → Turn × List Action → Type 0
  Told past (stops o, log) = Last getenv kind alias context rounds past o log
  Told past (continues l, log) =
      (m : Met) × (l ≡ locals_of (m ∷ past))
      × IsMet getenv kind alias context rounds past m
      × (calls_of past ++ log ≡ calls_of (m ∷ past))

  call_upstream-Told :
      (past : History) (name : String)
      → Comes getenv kind alias context rounds past name
      → (rounds (length past)).capacity name ≡ admitted
      → Told past (
          call_upstream kind
            (rounds (length past))
            name
            (record (locals_of past) { tried = name ∷ names past }))
  unfolding call_upstream
  call_upstream-Told past name c a =
      let round = rounds (length past) in
      let e = round.upstream name in
      elim (Bool-cases (is_answer e)) [
        | inl good ↦ rw (good, call_upstream) (answers name c a good)
        | inr bad ↦ elim (Bool-cases (not (is_retryable e) || round.given_up_after)) [
          | inl stop ↦ rw (bad, stop, call_upstream) (refuses name c a bad stop)
          | inr more ↦
              rw (bad, more, call_upstream)
                (
                  met_error name e,
                  refl,
                  (c, a, refl, bad, ground (arith, more), ground (arith, more)),
                  refl,
                )
        ]
      ]

  try_upstream-Told :
      (past : History) (name : String) (k : Capacity)
      → Comes getenv kind alias context rounds past name
      → (rounds (length past)).capacity name ≡ k
      → Told past (
          try_upstream kind
            (rounds (length past))
            name
            (record (locals_of past) { tried = name ∷ names past })
            k)
  unfolding try_upstream
  try_upstream-Told past name admitted c e = call_upstream-Told past name c e
  try_upstream-Told past name saturated c e =
      (met_saturated name, refl, (c, e), append-nil (calls_of past))
  try_upstream-Told past name scope_full c e =
      (met_scope name, refl, (c, e), append-nil (calls_of past))
  try_upstream-Told past name capacity_failed c e = breaks name c e

  turn-Told :
      (past : History)
      → Told past (turn getenv kind alias context (rounds (length past)) (locals_of past))
  unfolding turn
  turn-Told past =
      let round = rounds (length past) in
      let req = request_of getenv kind alias context round (locals_of past) in
      elim (Bool-cases (is_stream kind && round.given_up_before)) [
        | inl gone ↦ rw (gone, turn) (gives_up gone)
        | inr still ↦ elim (Result-cases (resolve getenv round.registry req alias)) [
          | inr (e, refused) ↦
              rw (still, refused, turn)
                (subst (λ f. Last getenv kind alias context rounds past (failed f) [])
                  (sym (failure_of-reported e past)) (lacks e still refused))
          | inl ((x, r), came) ↦
              rw (still, came, turn)
                (try_upstream-Told past x.deployment_name (round.capacity x.deployment_name)
                  (record {
                    here_still = still;
                    target = x;
                    registry_after = r;
                    resolves = came;
                    named = refl;
                  })
                  refl)
        ]
      ]

  -- The loop behind a history.
  record Follows (past : History) (fuel : ℕ) (o : Outcome) (log : List Action) : Type 0 where
    all : History
    is_true : IsTrue getenv kind alias context rounds all
    last : List Action
    ends :
        Last getenv kind alias context rounds all o last
        ⊎ ((length all ≡ length past + fuel) × (o ≡ out_of_fuel) × (last ≡ []))
    log_eq : calls_of past ++ log ≡ calls_of all ++ last

  Follows-cons :
      {o : Outcome} {rest : List Action} (past : History) (m : Met) (fuel : ℕ) (log : List Action)
      → calls_of past ++ log ≡ calls_of (m ∷ past)
      → Follows (m ∷ past) fuel o rest
      → Follows past (suc fuel) o (log ++ rest)
  Follows-cons {rest = rest} past m fuel log e f = record {
    all = f.all;
    is_true = f.is_true;
    last = f.last;
    ends = elim f.ends [
      | inl done ↦ inl done
      | inr (n, out, nothing) ↦ inr (omega arith, out, nothing)
    ];
    log_eq = sym (append_assoc (calls_of past) log rest) ∙ (ap (λ xs. xs ++ rest) e ∙ f.log_eq);
  }

  loop-Follows :
      (fuel : ℕ) (past : History)
      → IsTrue getenv kind alias context rounds past
      → let (o, log) = loop getenv kind alias context fuel rounds (length past) (locals_of past) in
        Follows past fuel o log
  unfolding loop
  loop-Follows zero past h = record {
    all = past;
    is_true = h;
    last = [];
    ends = inr (omega arith, refl, refl);
    log_eq = refl;
  }
  loop-Follows (suc fuel) past h =
      let r = turn getenv kind alias context (rounds (length past)) (locals_of past) in
      let w = turn-Told past in
      elim (Turn-cases r.0) [
        | inl (o, e) ↦
            let v : Told past (stops o, r.1) = subst (Told past) (pair-eq r e) w in
            rw (e, loop)
              (record { all = past; is_true = h; last = r.1; ends = inl v; log_eq = refl })
        | inr (l', e) ↦
            let v : Told past (continues l', r.1) = subst (Told past) (pair-eq r e) w in
            let (m, same, met, log) = v in
            let later = loop-Follows fuel (m ∷ past) (met, h) in
            let rest = loop getenv kind alias context fuel rounds (suc (length past)) in
            let next =
              subst (λ l. Follows past (suc fuel) (rest l).0 (r.1 ++ (rest l).1)) (sym same)
                (Follows-cons past m fuel r.1 log later) in
            rw (e, loop) next
      ]

  -- Whatever the loop meets, its outcome and its actions are told by the history of the rounds in which
  -- it went on. In each of these the router came, by what the earlier rounds have tried, to a
  -- deployment that was full, or to one with a scope that was full, or to one whose call failed with an
  -- error that may be retried while the request was not given up. It made exactly the calls of these
  -- rounds, each with its permit given back and its failure recorded, and then, within the fuel, its
  -- last round, which is one of these: a stream given up before it; no target left, which returns the
  -- latest error of the history, or that all were full, or, without a history, the router's error; an
  -- error of the capacity that is not of a full scope; a call that answers, of which only an opened
  -- stream keeps the permit; or a call whose error is not to be retried or whose request has been given
  -- up, which is returned at once.
  pub run_with_fallback-Leads :
      (fuel : ℕ)
      → let (o, log) = run_with_fallback getenv kind alias context fuel rounds in
        Leads getenv kind alias context rounds fuel o log
  unfolding run_with_fallback
  run_with_fallback-Leads fuel =
      let f = loop-Follows fuel [] tt in
      record {
        past = f.all;
        is_true = f.is_true;
        last = f.last;
        ends = elim f.ends [
          | inl done ↦ inl done
          | inr (n, out, nothing) ↦ inr (omega (arith, n), out, nothing)
        ];
        log_eq = f.log_eq;
      }
