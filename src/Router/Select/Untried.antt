-- ===== src/Router/Select/Untried.antt =====
-- `ResolveWithContext` of internal/router/router.go for a caller that has tried deployments before.
use Prim.Native.String.{String}
use gatemux.Common.{◌≡◌, subst, sym, false, some, List, Elem, ok, true, arith}
use gatemux.Common.Maps.{find}
use gatemux.Router.Types.{string_eq, AliasTarget}
use gatemux.Router.Strategy.{has_strategy}
use gatemux.Router.Select.{Registry, Request, Query, Resolved, suits, query_of, resolve}
use gatemux.Router.Select.Best.{resolve-suits}

suits-untried :
    (r : Registry) (q : Query) (t : AliasTarget)
    → suits r q t ≡ true
    → has_strategy q.tried t.deployment_name ≡ false
unfolding suits
suits-untried r q t h = ground (arith, h)

-- What the router answers is a target of the alias that has not been tried.
pub resolve-untried :
    (getenv : String → String) (r : Registry) (req : Request) (alias : String)
    (ts : List AliasTarget) (x : Resolved) (r' : Registry)
    → find alias r.aliases ≡ some ts
    → resolve getenv r req alias ≡ ok (x, r')
    → (t : AliasTarget) × (x.deployment_name ≡ t.deployment_name)
      × Elem t ts
      × (has_strategy req.tried x.deployment_name ≡ false)
resolve-untried getenv r req alias ts x r' found h =
    let (t, name, at, good) = resolve-suits getenv r req alias ts x r' found h in
    (
      t,
      name,
      at,
      subst (λ n. has_strategy req.tried n ≡ false) (sym name)
          (suits-untried r (query_of r alias req) t good),
    )
