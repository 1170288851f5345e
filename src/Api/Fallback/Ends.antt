-- ===== src/Api/Fallback/Ends.antt =====
-- The end of the fallback loops of internal/api/v1.go.
use Prim.Native.String.{String}
use text.Mathlib.TextEquality.{eq_iff}
use gatemux.Common.{
  ℕ, zero, suc, ◌+◌, ◌≤◌, ◌<◌, ◌≡◌, refl, sym, ap, subst, ◌∙◌, ◌⊎◌, inl, inr, false, not, ◌&&◌,
  ◌||◌, some, List, [], ◌∷◌, ◌++◌, length, All, Elem, if◌then◌else◌, Bool-cases, Result-cases,
  pair-eq, arith,
}
use gatemux.Common.Maps.{find}
use gatemux.Router.Types.{string_eq, AliasTarget, ResolveContext}
use gatemux.Router.Strategy.{has_strategy}
use gatemux.Router.Breaker.{is_retryable}
use gatemux.Router.Select.{resolve}
use gatemux.Router.Select.Untried.{resolve-untried}
use gatemux.Api.Fallback.{
  Kind, chat_kind, embeddings_kind, stream_kind, on_answer, is_answer, admitted, saturated,
  scope_full, capacity_failed, Capacity, Round, Action, acquires, calls, releases, records_success,
  records_failure, Outcome, out_of_fuel, Locals, Turn, stops, continues, call_upstream,
  try_upstream, turn, loop, no_locals, run_with_fallback, request_of, is_stream,
}

-- The deployments that the loop called, in order.
pub called : List Action → List String
called [] = []
called (calls name ∷ log) = name ∷ called log
called (_ ∷ log) = called log

abbrev pub IsFinal : Outcome → Type 0
IsFinal out_of_fuel = ⊥
IsFinal _ = Unit

abbrev pub IsDistinct : List String → Type 0
IsDistinct [] = Unit
IsDistinct (x ∷ xs) = (has_strategy xs x ≡ false) × IsDistinct xs

called-append : (a b : List Action) → called (a ++ b) ≡ called a ++ called b
unfolding called
called-append [] b = refl
called-append (calls name ∷ a) b = ap (λ ns. name ∷ ns) (called-append a b)
called-append (acquires name ∷ a) b = called-append a b
called-append (releases name ∷ a) b = called-append a b
called-append (records_success name ∷ a) b = called-append a b
called-append (records_failure name e ∷ a) b = called-append a b

-- How many targets are left to try.
left : List String → List AliasTarget → ℕ
left tried [] = 0
left tried (t ∷ ts) = (if has_strategy tried t.deployment_name then 0 else 1) + left tried ts

left-le :
    (tried : List String) (n : String) (ts : List AliasTarget) → left (n ∷ tried) ts ≤ left tried ts
unfolding left has_strategy
left-le tried n [] = omega arith
left-le tried n (t ∷ ts) = ground (arith, left-le tried n ts)

left-lt :
    (tried : List String) (t : AliasTarget) (ts : List AliasTarget)
    → Elem t ts
    → has_strategy tried t.deployment_name ≡ false
    → suc (left (t.deployment_name ∷ tried) ts) ≤ left tried ts
unfolding left has_strategy
left-lt tried t [] e h = absurd e
left-lt tried t (u ∷ ts) (inl here) h = ground (
  arith,
  left-le tried t.deployment_name ts,
  eq_iff t.deployment_name u.deployment_name,
  ap (λ (z : AliasTarget). z.deployment_name) here,
  h,
)
left-lt tried t (u ∷ ts) (inr later) h = ground (arith, left-lt tried t ts later h)

left-length : (tried : List String) (ts : List AliasTarget) → left tried ts ≤ length ts
unfolding left
left-length tried [] = omega arith
left-length tried (t ∷ ts) = ground (arith, left-length tried ts)

abbrev OneCall : List String → String → List Action → Type 0
OneCall tried n log = (has_strategy tried n ≡ false) × ((called log ≡ []) ⊎ (called log ≡ n ∷ []))

abbrev IsTurn : List String → List AliasTarget → Turn × List Action → Type 0
IsTurn tried ts (stops o, log) =
    IsFinal o × ((called log ≡ []) ⊎ ((n : String) × OneCall tried n log))
IsTurn tried ts (continues l, log) =
    (n : String) × (l.tried ≡ n ∷ tried)
    × (suc (left (n ∷ tried) ts) ≤ left tried ts)
    × OneCall tried n log

on_answer-called : (kind : Kind) (name : String) → called (on_answer kind name) ≡ name ∷ []
unfolding called
on_answer-called chat_kind name = refl
on_answer-called embeddings_kind name = refl
on_answer-called stream_kind name = refl

call_upstream-IsTurn :
    (kind : Kind) (round : Round) (name : String) (tried : List String) (ts : List AliasTarget)
    (l : Locals)
    → l.tried ≡ name ∷ tried
    → has_strategy tried name ≡ false
    → suc (left (name ∷ tried) ts) ≤ left tried ts
    → IsTurn tried ts (call_upstream kind round name l)
unfolding call_upstream called
call_upstream-IsTurn kind round name tried ts l e u less =
    elim (Bool-cases (is_answer (round.upstream name))) [
      | inl good ↦ rw (good, call_upstream) (tt, inr (name, (u, inr (on_answer-called kind name))))
      | inr bad ↦
          elim (Bool-cases (not (is_retryable (round.upstream name)) || round.given_up_after)) [
            | inl stop ↦ rw (bad, stop, call_upstream) (tt, inr (name, (u, inr refl)))
            | inr more ↦ rw (bad, more, call_upstream) (name, e, less, (u, inr refl))
          ]
    ]

try_upstream-IsTurn :
    (kind : Kind) (round : Round) (name : String) (tried : List String) (ts : List AliasTarget)
    (l : Locals) (c : Capacity)
    → l.tried ≡ name ∷ tried
    → has_strategy tried name ≡ false
    → suc (left (name ∷ tried) ts) ≤ left tried ts
    → IsTurn tried ts (try_upstream kind round name l c)
unfolding try_upstream called
try_upstream-IsTurn kind round name tried ts l admitted e u less =
    call_upstream-IsTurn kind round name tried ts l e u less
try_upstream-IsTurn kind round name tried ts l saturated e u less = (name, e, less, (u, inl refl))
try_upstream-IsTurn kind round name tried ts l scope_full e u less = (name, e, less, (u, inl refl))
try_upstream-IsTurn kind round name tried ts l capacity_failed e u less = (tt, inl refl)

-- Every deployment that the loop calls is new, and called once.
record Ran (tried : List String) (o : Outcome) (log : List Action) : Type 0 where
  final : IsFinal o
  untried : All (λ n. has_strategy tried n ≡ false) (called log)
  distinct : IsDistinct (called log)

pub Turn-cases : (t : Turn) → ((o : Outcome) × (t ≡ stops o)) ⊎ ((l : Locals) × (t ≡ continues l))
Turn-cases (stops o) = inl (o, refl)
Turn-cases (continues l) = inr (l, refl)

-- What is untried behind one more name.
untried-tail :
    (n : String) (tried ms : List String)
    → All (λ m. has_strategy (n ∷ tried) m ≡ false) ms
    → All (λ m. has_strategy tried m ≡ false) ms
unfolding has_strategy
untried-tail n tried [] h = tt
untried-tail n tried (m ∷ ms) h = (ground (arith, h.0), untried-tail n tried ms h.1)

untried-absent :
    (n : String) (tried ms : List String)
    → All (λ m. has_strategy (n ∷ tried) m ≡ false) ms
    → has_strategy ms n ≡ false
unfolding has_strategy
untried-absent n tried [] h = refl
untried-absent n tried (m ∷ ms) h =
    ground (arith, h.0, untried-absent n tried ms h.1, eq_iff n m, eq_iff m n)

stops-Ran :
    (tried : List String) (ts : List AliasTarget) (o : Outcome) (log : List Action)
    → IsTurn tried ts (stops o, log)
    → Ran tried o log
unfolding has_strategy
stops-Ran tried ts o log (f, inl none_called) = record {
  final = f;
  untried = subst (All (λ n. has_strategy tried n ≡ false)) (sym none_called) tt;
  distinct = subst IsDistinct (sym none_called) tt;
}
stops-Ran tried ts o log (f, inr (n, (new, inl none_called))) = record {
  final = f;
  untried = subst (All (λ n. has_strategy tried n ≡ false)) (sym none_called) tt;
  distinct = subst IsDistinct (sym none_called) tt;
}
stops-Ran tried ts o log (f, inr (n, (new, inr one))) = record {
  final = f;
  untried = subst (All (λ n. has_strategy tried n ≡ false)) (sym one) (new, tt);
  distinct = subst IsDistinct (sym one) (refl, tt);
}

continues-Ran :
    (tried : List String) (n : String) (log : List Action)
    → OneCall tried n log
    → (o : Outcome) (rest : List Action) → Ran (n ∷ tried) o rest
    → Ran tried o (log ++ rest)
continues-Ran tried n log (new, w) o rest h =
    let names = called-append log rest in
    let behind = untried-tail n tried (called rest) h.untried in
    elim w [
      | inl none_called ↦
          let same = names ∙ ap (λ ns. ns ++ called rest) none_called in
          record {
            final = h.final;
            untried = subst (All (λ n. has_strategy tried n ≡ false)) (sym same) behind;
            distinct = subst IsDistinct (sym same) h.distinct;
          }
      | inr one ↦
          let more = names ∙ ap (λ ns. ns ++ called rest) one in
          record {
            final = h.final;
            untried = subst (All (λ n. has_strategy tried n ≡ false)) (sym more) (new, behind);
            distinct =
                subst IsDistinct (sym more)
                  (untried-absent n tried (called rest) h.untried, h.distinct);
          }
    ]

module _ (getenv : String → String) (kind : Kind) (alias : String) (context : ResolveContext)
    (ts : List AliasTarget) where
  turn-IsTurn :
      (round : Round) (l : Locals)
      → find alias round.registry.aliases ≡ some ts
      → IsTurn l.tried ts (turn getenv kind alias context round l)
  unfolding turn called
  turn-IsTurn round l found =
      let req = request_of getenv kind alias context round l in
      elim (Bool-cases (is_stream kind && round.given_up_before)) [
        | inl gone ↦ rw (gone, turn) (tt, inl refl)
        | inr here ↦ elim (Result-cases (resolve getenv round.registry req alias)) [
          | inr (e, refused) ↦ rw (here, refused, turn) (tt, inl refl)
          | inl ((x, r), came) ↦
              let (t, name, at, new) =
                resolve-untried getenv round.registry req alias ts x r found came in
              let new' = subst (λ n. has_strategy l.tried n ≡ false) name new in
              let less = left-lt l.tried t ts at new' in
              rw (here, came, turn)
                (try_upstream-IsTurn kind round x.deployment_name l.tried ts
                  (record l { tried = x.deployment_name ∷ l.tried })
                  (round.capacity x.deployment_name) refl new
                  (subst (λ n. suc (left (n ∷ l.tried) ts) ≤ left l.tried ts) (sym name) less))
        ]
      ]

  loop-Ran :
      (fuel : ℕ) (rounds : ℕ → Round) (i : ℕ) (l : Locals)
      → ((n : ℕ) → find alias (rounds n).registry.aliases ≡ some ts)
      → left l.tried ts < fuel
      → let (o, log) = loop getenv kind alias context fuel rounds i l in Ran l.tried o log
  unfolding loop
  loop-Ran zero rounds i l found f = absurd (omega arith)
  loop-Ran (suc fuel) rounds i l found f =
      let r = turn getenv kind alias context (rounds i) l in
      let w = turn-IsTurn (rounds i) l (found i) in
      elim (Turn-cases r.0) [
        | inl (o, e) ↦
            let v : IsTurn l.tried ts (stops o, r.1) = subst (IsTurn l.tried ts) (pair-eq r e) w in
            rw (e, loop) (stops-Ran l.tried ts o r.1 v)
        | inr (l', e) ↦
            let v : IsTurn l.tried ts (continues l', r.1) =
              subst (IsTurn l.tried ts) (pair-eq r e) w in
            let rest =
              loop-Ran fuel rounds (suc i) l' found
                (ground (arith, ap (λ n. left n ts) v.1, v.2, f)) in
            let more = loop getenv kind alias context fuel rounds (suc i) l' in
            rw (e, loop)
              (continues-Ran l.tried v.0 r.1 v.3 more.0 more.1
                (subst (λ ns. Ran ns more.0 more.1) v.1 rest))
      ]

  -- However the upstreams, the capacity and the other requests behave, the loop comes to an end within
  -- one round more than the alias has targets, and it calls no deployment twice. The targets of the
  -- alias stay the same while it runs.
  pub run_with_fallback-IsFinal :
      (fuel : ℕ) (rounds : ℕ → Round)
      → ((n : ℕ) → find alias (rounds n).registry.aliases ≡ some ts)
      → length ts < fuel
      → let (o, log) = run_with_fallback getenv kind alias context fuel rounds in
        IsFinal o × IsDistinct (called log)
  unfolding run_with_fallback
  run_with_fallback-IsFinal fuel rounds found f =
      let h =
        loop-Ran fuel rounds 0 (no_locals getenv kind alias context) found
          (omega (arith, left-length [] ts)) in
      (h.final, h.distinct)
