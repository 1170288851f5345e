-- ===== src/Server/Throttle/Window.antt =====
-- Series of logins at `loginThrottle.allow` of internal/server/login_throttle.go, within one window.
use Prim.Native.String.{String}
use text.Mathlib.Text.{◌==◌ as str_eq}
use gatemux.Common.{
  ℕ, suc, ◌+◌, ◌≤◌, ◌<◌, ◌≡◌, ◌⊎◌, refl, ap, sym, ◌∙◌, subst, inl, inr, Bool, true, false,
  Bool-cases, some, Option-cases, List, [], ◌∷◌, All, arith, if◌then◌else◌, leb, ltb, ◌==◌,
}
use gatemux.Common.Maps.{find, put, size, find-put}
use gatemux.Router.Types.{string_eq}
use gatemux.Server.Throttle.{
  Throttle, Counts, Answer, proceed, Attempt, login_capacity, start_of, count_of, check_fields,
  count_fields, renew, allow_fields,
}

abbrev pub tried_at : String → Counts → ℕ
tried_at f m = count_of (find f m)

-- How often an attempt names a field.
abbrev pub names : String → List Attempt → ℕ
names f [] = 0
names f (a ∷ as') = (if str_eq a.field f then 1 else 0) + names f as'

count_fields-tried_at :
    (as' : List Attempt) (m : Counts) (f : String)
    → tried_at f (count_fields as' m) ≡ tried_at f m + names f as'
unfolding count_fields
count_fields-tried_at [] m f = omega arith
count_fields-tried_at (a ∷ as') m f =
    let n = suc (count_of (find a.field m)) in
    let ih = count_fields-tried_at as' (put a.field n m) f in
    elim (Bool-cases (string_eq.equals a.field f)) [
      | inl e ↦
          let same : a.field ≡ f = (string_eq.equals_iff a.field f).0 e in
          let now : tried_at f (put a.field n m) ≡ suc (tried_at f m) =
            ap count_of (find-put a.field f n m)
            ∙ (rw e (ap (λ k. suc (count_of (find k m))) same)) in
          ground (arith, e, ih, now)
      | inr e ↦
          let now : tried_at f (put a.field n m) ≡ tried_at f m =
            ap count_of (find-put a.field f n m) ∙ rw e refl in
          ground (arith, e, ih, now)
    ]

-- The limit that an attempt puts on the field is at most the cap.
abbrev pub caps : String → ℕ → Attempt → Bool
caps f cap a = if str_eq a.field f then leb a.limit cap else true

check_fields-below :
    (f : String) (cap : ℕ) (as' : List Attempt) (m : Counts) (missing : ℕ)
    → All (λ a. caps f cap a ≡ true) as'
    → names f as' ≤ 1
    → tried_at f m ≤ cap
    → check_fields as' m ≡ some missing
    → tried_at f m + names f as' ≤ cap
unfolding check_fields
check_fields-below f cap [] m missing k once below h = omega arith
check_fields-below f cap (a ∷ as') m missing k once below h =
    elim (Option-cases (check_fields as' m)) [
      | inl refused ↦ absurd (ground (arith, refused))
      | inr (rest, e) ↦ elim (Bool-cases (string_eq.equals a.field f)) [
        | inr other ↦
            let ih =
              check_fields-below f cap as' m rest k.1 (ground (arith, other, once)) below e in
            ground (arith, other, ih)
        | inl mine ↦
            let same : a.field ≡ f = (string_eq.equals_iff a.field f).0 mine in
            let limit : a.limit ≤ cap = ground (arith, mine, k.0) in
            let free : count_of (find a.field m) < a.limit = ground (arith, e, h) in
            let free' : tried_at f m < a.limit =
              subst (λ x. count_of (find x m) < a.limit) same free in
            ground (arith, mine, once, limit, free')
      ]
    ]

pub record Login : Type 0 where
  pub now : ℕ
  pub attempts : List Attempt

abbrev proceeds : Answer → Bool
proceeds proceed = true
proceeds _ = false

-- What is counted for a field in the window that starts at a time.
abbrev pub tried_in : ℕ → String → Throttle → ℕ
tried_in w f t = tried_at f (renew w t).counts

-- The attempts on a field that a series of logins is let through with.
pub let_through : String → List Login → Throttle → ℕ
let_through f [] t = 0
let_through f (q ∷ qs) t =
    let r = allow_fields q.now q.attempts t in
    (if proceeds r.0 then names f q.attempts else 0) + let_through f qs r.1

pub record InWindow (w : ℕ) (f : String) (cap : ℕ) (q : Login) : Type 0 where
  pub window : start_of q.now ≡ w
  pub capped : All (λ a. caps f cap a ≡ true) q.attempts
  pub once : names f q.attempts ≤ 1

renew-bucket : (w : ℕ) (t : Throttle) → (renew w t).bucket ≡ w
renew-bucket w t = ground arith

renew-same : (w : ℕ) (t : Throttle) → t.bucket ≡ w → renew w t ≡ t
renew-same w t e = let k : (t.bucket == w) ≡ true = ground (arith, e) in rw k refl

-- An answer lets the login through and has counted it, or leaves the counts of the window.
allow_fields-cases :
    (now : ℕ) (as' : List Attempt) (t : Throttle)
    → let u = renew (start_of now) t in
      let r = allow_fields now as' t in
      ((missing : ℕ) × (check_fields as' u.counts ≡ some missing)
        × (proceeds r.0 ≡ true)
        × (r.1 ≡ record u { counts = count_fields as' u.counts }))
      ⊎ ((proceeds r.0 ≡ false) × (r.1 ≡ u))
unfolding allow_fields
allow_fields-cases now as' t =
    let u = renew (start_of now) t in
    elim (Option-cases (check_fields as' u.counts)) [
      | inl refused ↦ inr (rw (refused, allow_fields) (refl, refl))
      | inr (missing, e) ↦ elim (Bool-cases (ltb login_capacity (size u.counts + missing))) [
        | inl no_room ↦ inr (rw (e, no_room, allow_fields) (refl, refl))
        | inr room ↦
            inl (missing, e, rw (e, room, allow_fields) refl, rw (e, room, allow_fields) refl)
      ]
    ]

allow_fields-below :
    (f : String) (cap now : ℕ) (as' : List Attempt) (t : Throttle)
    → All (λ a. caps f cap a ≡ true) as'
    → names f as' ≤ 1
    → tried_in (start_of now) f t ≤ cap
    → let r = allow_fields now as' t in
      (tried_in (start_of now) f r.1
        ≡ tried_in (start_of now) f t + (if proceeds r.0 then names f as' else 0))
      × (tried_in (start_of now) f r.1 ≤ cap)
allow_fields-below f cap now as' t k once below =
    let w = start_of now in
    let u = renew w t in
    let again = λ (x : Throttle) (e : x.bucket ≡ w).
      ap (λ (y : Throttle). tried_at f y.counts) (renew-same w x e) in
    elim (allow_fields-cases now as' t) [
      | inl (missing, e, through, same) ↦
          let after : tried_in w f (allow_fields now as' t).1 ≡ tried_at f u.counts + names f as' =
            ap (tried_in w f) same
            ∙ (again (record u { counts = count_fields as' u.counts }) (renew-bucket w t)
                ∙ count_fields-tried_at as' u.counts f) in
          let fits = check_fields-below f cap as' u.counts missing k once below e in
          (after ∙ rw through refl, subst (λ x. x ≤ cap) (sym after) fits)
      | inr (stopped, same) ↦
          let after : tried_in w f (allow_fields now as' t).1 ≡ tried_at f u.counts =
            ap (tried_in w f) same ∙ again u (renew-bucket w t) in
          (after ∙ rw stopped (omega arith), subst (λ x. x ≤ cap) (sym after) below)
    ]

-- Take any series of logins within one window, in which no login names the field twice or with a
-- limit above the cap. When the field has been counted at most the cap before, what was counted and
-- what is let through in the series is together at most the cap.
pub let_through-le-cap :
    (w : ℕ) (f : String) (cap : ℕ) (qs : List Login) (t : Throttle)
    → All (InWindow w f cap) qs
    → tried_in w f t ≤ cap
    → tried_in w f t + let_through f qs t ≤ cap
unfolding let_through
let_through-le-cap w f cap [] t h below = omega arith
let_through-le-cap w f cap (q ∷ qs) t h below =
    let step =
      allow_fields-below f cap q.now q.attempts t h.0.capped h.0.once
        (subst (λ x. tried_in x f t ≤ cap) (sym h.0.window) below) in
    let here =
      subst
        (λ x.
          let r = allow_fields q.now q.attempts t in
          (tried_in x f r.1 ≡ tried_in x f t + (if proceeds r.0 then names f q.attempts else 0))
          × (tried_in x f r.1 ≤ cap))
        h.0.window step in
    let ih = let_through-le-cap w f cap qs (allow_fields q.now q.attempts t).1 h.1 here.1 in
    omega (arith, ih, here.0)
