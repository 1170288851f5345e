-- ===== src/Router/Policies/Latest.antt =====
-- What `ConcurrencyScope` of internal/router/concurrency.go answers after a refresh.
use gatemux.Common.{
  ℕ, ◌+◌, ◌<◌, ◌≡◌, refl, ap, sym, ◌∙◌, inl, inr, false, Bool-cases, Option, none, some,
  Option-cases, List, [], ◌∷◌, ◌++◌, arith, if◌then◌else◌, ltb, ok, err,
}
use gatemux.Common.Maps.{find, put, find-put}
use gatemux.Router.Policies.{
  ScopeKey, scope_equals, scope_eq, PolicyRow, ConcurrencyScope, Policies, max_age, scope_of,
  load_rows, refresh_policies, stale_snapshot, scopes_of, is_stale, concurrency_scope,
}

-- The limit of one row, if it is for the key and has one.
abbrev own : ScopeKey → PolicyRow → Option ConcurrencyScope
own key row = elim row.max_parallel_requests [
  | none ↦ none
  | some limit ↦ if scope_equals row.key key then some (scope_of row limit) else none
]

abbrev or_else : Option ConcurrencyScope → Option ConcurrencyScope → Option ConcurrencyScope
or_else (some s) o = some s
or_else none o = o

-- The last row for a key that has a limit.
abbrev pub last_limit : ScopeKey → List PolicyRow → Option ConcurrencyScope
last_limit key [] = none
last_limit key (row ∷ rows) = or_else (last_limit key rows) (own key row)

or_else-none : (o : Option ConcurrencyScope) → o ≡ or_else o none
or_else-none none = refl
or_else-none (some s) = refl

or_else-some :
    (o f : Option ConcurrencyScope) (s : ConcurrencyScope)
    → or_else o (some s) ≡ or_else (or_else o (some s)) f
or_else-some none f s = refl
or_else-some (some t) f s = refl

load_rows-find :
    (rows : List PolicyRow) (m : List (ScopeKey × ConcurrencyScope)) (key : ScopeKey)
    → find key (load_rows rows m) ≡ or_else (last_limit key rows) (find key m)
unfolding load_rows
load_rows-find [] m key = refl
load_rows-find (row ∷ rows) m key = elim (Option-cases row.max_parallel_requests) [
  | inl missing ↦
      let ih = load_rows-find rows m key in
      rw (missing, load_rows)
        (ih ∙ ap (λ o. or_else o (find key m)) (or_else-none (last_limit key rows)))
  | inr (limit, set) ↦
      let ih = load_rows-find rows (put row.key (scope_of row limit) m) key in
      let new = ap (or_else (last_limit key rows)) (find-put row.key key (scope_of row limit) m) in
      elim (Bool-cases (scope_equals row.key key)) [
        | inl e ↦
            let here =
              new ∙ rw e (or_else-some (last_limit key rows) (find key m) (scope_of row limit)) in
            rw (set, load_rows, e) (ih ∙ here)
        | inr e ↦
            let here =
              new ∙ rw e (ap (λ o. or_else o (find key m)) (or_else-none (last_limit key rows))) in
            rw (set, load_rows, e) (ih ∙ here)
      ]
]

-- After policies were loaded at a time that is not zero, a request sees the last row for its scope
-- and subject that has a limit, customers after the others, for as long as the snapshot is not older
-- than its maximum age, and an error from then on.
pub refresh_policies-latest :
    (loaded now : ℕ) (rows customers : List PolicyRow) (key : ScopeKey) (p : Policies)
    → 0 < loaded
    → concurrency_scope now key (refresh_policies loaded (some rows) (some customers) p).1 ≡ (
        if ltb (loaded + max_age) now
        then err stale_snapshot
        else ok (scopes_of (last_limit key (rows ++ customers))))
unfolding concurrency_scope refresh_policies
refresh_policies-latest loaded now rows customers key p nonzero =
    let all = rows ++ customers in
    let same : find key (load_rows all []) ≡ last_limit key all =
      load_rows-find all [] key ∙ (unfold find in sym (or_else-none (last_limit key all))) in
    elim (Bool-cases (ltb (loaded + max_age) now)) [
      | inl e ↦ ground (arith, e, nonzero)
      | inr e ↦
          let fresh : is_stale now (record { by_scope = load_rows all []; loaded_at = loaded })
              ≡ false =
            ground (arith, e, nonzero) in
          rw (fresh, e) (ap (λ o. ok (scopes_of o)) same)
    ]
