-- ===== src/Router/Refresh/Limits.antt =====
-- The counters of the deployments in `Refresh` of internal/router/router.go.
use Prim.Native.String.{String}
use gatemux.Common.{
  ◌≡◌, ◌⊎◌, refl, ap, sym, ◌∙◌, inl, inr, true, Bool-cases, Option, none, some, Option-cases, List,
  [], ◌∷◌, ℤ, pos, eqb_ℤ→eq, arith,
}
use gatemux.Common.Threads.{some-injective}
use gatemux.Common.Maps.{find, put, IsMap, find-put, put-IsMap}
use gatemux.Admission.Counter.{Counter, set_limit, new_counter}
use gatemux.Router.Types.{string_eq, Deployment}
use gatemux.Router.Refresh.{
  limit_of, updated, set_limits, is_known, drop_idle, refresh_limits, by_name,
}

-- The work that a counter has in flight; none is nothing.
abbrev pub in_flight_of : Option Counter → ℤ
in_flight_of none = pos 0
in_flight_of (some c) = c.in_flight

updated-in_flight : (l : ℤ) (o : Option Counter) → (updated l o).in_flight ≡ in_flight_of o
unfolding new_counter set_limit
updated-in_flight l none = refl
updated-in_flight l (some c) = refl

put-in_flight :
    (name j : String) (l : ℤ) (m : List (String × Counter))
    → in_flight_of (find j (put name (updated l (find name m)) m)) ≡ in_flight_of (find j m)
put-in_flight name j l m = elim (Bool-cases (string_eq.equals name j)) [
  | inl e ↦
      let same : name ≡ j = (string_eq.equals_iff name j).0 e in
      ap in_flight_of (find-put name j (updated l (find name m)) m)
      ∙ rw e (updated-in_flight l (find name m) ∙ ap (λ k. in_flight_of (find k m)) same)
  | inr e ↦ ap in_flight_of (find-put name j (updated l (find name m)) m) ∙ rw e refl
]

set_limits-in_flight :
    (ds : List (String × Deployment)) (m : List (String × Counter)) (j : String)
    → in_flight_of (find j (set_limits ds m)) ≡ in_flight_of (find j m)
unfolding set_limits
set_limits-in_flight [] m j = refl
set_limits-in_flight ((name, d) ∷ ds) m j =
    set_limits-in_flight ds (put name (updated (limit_of d) (find name m)) m) j
    ∙ put-in_flight name j (limit_of d) m

set_limits-IsMap :
    (ds : List (String × Deployment)) (m : List (String × Counter))
    → IsMap m
    → IsMap (set_limits ds m)
unfolding set_limits
set_limits-IsMap [] m h = h
set_limits-IsMap ((name, d) ∷ ds) m h =
    set_limits-IsMap ds (put name (updated (limit_of d) (find name m)) m) (put-IsMap name _ m h)

-- Only idle counters of unknown deployments go.
drop_idle-find-none :
    (ds : List (String × Deployment)) (m : List (String × Counter)) (j : String)
    → find j m ≡ none
    → find j (drop_idle ds m) ≡ none
unfolding find drop_idle
drop_idle-find-none ds [] j h = refl
drop_idle-find-none ds ((name, c) ∷ m) j h = ground (arith, drop_idle-find-none ds m j)

drop_idle-in_flight :
    (ds : List (String × Deployment)) (m : List (String × Counter)) (j : String)
    → IsMap m
    → in_flight_of (find j (drop_idle ds m)) ≡ in_flight_of (find j m)
unfolding find drop_idle
drop_idle-in_flight ds [] j h = refl
drop_idle-in_flight ds ((name, c) ∷ m) j h =
    let ih = drop_idle-in_flight ds m j h.1 in
    elim (Bool-cases (string_eq.equals name j)) [
      | inr e ↦ ground (arith, e, ih)
      | inl e ↦
          let same : name ≡ j = (string_eq.equals_iff name j).0 e in
          let gone = drop_idle-find-none ds m j (ap (λ k. find k m) (sym same) ∙ h.0) in
          ground (arith, e, gone, eqb_ℤ→eq c.in_flight (pos 0))
    ]

drop_idle-known :
    (ds : List (String × Deployment)) (m : List (String × Counter)) (j : String)
    → is_known (find j ds) ≡ true
    → find j (drop_idle ds m) ≡ find j m
unfolding find drop_idle
drop_idle-known ds [] j h = refl
drop_idle-known ds ((name, c) ∷ m) j h =
    let ih = drop_idle-known ds m j h in
    elim (Bool-cases (string_eq.equals name j)) [
      | inr e ↦ ground (arith, e, ih)
      | inl e ↦
          let same : name ≡ j = (string_eq.equals_iff name j).0 e in
          let here : is_known (find name ds) ≡ true = ap (λ k. is_known (find k ds)) same ∙ h in
          ground (arith, e, here)
    ]

-- Entries of other deployments are left.
set_limits_other :
    (ds : List (String × Deployment)) (m : List (String × Counter)) (j : String)
    → find j ds ≡ none
    → find j (set_limits ds m) ≡ find j m
unfolding find set_limits
set_limits_other [] m j h = refl
set_limits_other ((name, d) ∷ ds) m j h = elim (Bool-cases (string_eq.equals name j)) [
  | inl e ↦ absurd (ground (arith, e, h))
  | inr e ↦
      let rest : find j ds ≡ none = ground (arith, e, h) in
      set_limits_other ds (put name (updated (limit_of d) (find name m)) m) j rest
      ∙ (find-put name j (updated (limit_of d) (find name m)) m ∙ rw e refl)
]

updated-limit : (d : Deployment) (o : Option Counter) → (updated (limit_of d) o).limit ≡ limit_of d
unfolding new_counter set_limit
updated-limit d none = ground arith
updated-limit d (some c) = ground arith

set_limits-limit :
    (ds : List (String × Deployment)) (m : List (String × Counter)) (j : String) (d : Deployment)
    → IsMap ds
    → find j ds ≡ some d
    → (c : Counter) × (find j (set_limits ds m) ≡ some c) × (c.limit ≡ limit_of d)
unfolding find set_limits
set_limits-limit [] m j d h at = absurd (ground arith)
set_limits-limit ((name, x) ∷ ds) m j d h at = elim (Bool-cases (string_eq.equals name j)) [
  | inr e ↦
      set_limits-limit ds (put name (updated (limit_of x) (find name m)) m) j d h.1
        (ground (arith, e, at))
  | inl e ↦
      let same : name ≡ j = (string_eq.equals_iff name j).0 e in
      let own : x ≡ d = some-injective (rw (e, find) at at) in
      let c = updated (limit_of x) (find name m) in
      (
        c,
        set_limits_other ds (put name c m) j (ap (λ k. find k ds) (sym same) ∙ h.0)
            ∙ (find-put name j c m ∙ rw e refl),
        updated-limit x (find name m) ∙ ap limit_of own,
      )
]

by_name-IsMap :
    (ds : List Deployment) (m : List (String × Deployment)) → IsMap m → IsMap (by_name ds m)
unfolding by_name
by_name-IsMap [] m h = h
by_name-IsMap (d ∷ ds) m h = by_name-IsMap ds (put d.name d m) (put-IsMap d.name d m h)

-- After a refresh of the counters every deployment that is listed has one, with its configured limit
-- and the work that it had in flight; and the counter of any other deployment has not lost the work
-- it had in flight either.
pub refresh_limits-exact :
    (listed : List Deployment) (m : List (String × Counter)) (j : String)
    → IsMap m
    → let known = by_name listed [] in
      (in_flight_of (find j (refresh_limits known m)) ≡ in_flight_of (find j m))
      × ((find j known ≡ none)
          ⊎ ((d : Deployment) × (c : Counter) × (find j known ≡ some d)
              × (find j (refresh_limits known m) ≡ some c)
              × (c.limit ≡ limit_of d)))
unfolding refresh_limits
refresh_limits-exact listed m j h =
    let known = by_name listed [] in
    (
      drop_idle-in_flight known (set_limits known m) j (set_limits-IsMap known m h)
          ∙ set_limits-in_flight known m j,
      elim (Option-cases (find j known)) [
        | inl missing ↦ inl missing
        | inr (d, at) ↦
            let (c, here, limit) = set_limits-limit known m j d (by_name-IsMap listed [] tt) at in
            inr (
              d,
              c,
              at,
              drop_idle-known known (set_limits known m) j (ap is_known at) ∙ here,
              limit,
            )
      ],
    )
