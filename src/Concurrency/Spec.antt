-- ===== src/Concurrency/Spec.antt =====
-- The acquire script of internal/concurrency/limiter.go against a table of leases: one check of all
-- scopes and one addition to all of them.
use Prim.Native.String.{String}
use gatemux.Common.{
  ℕ, suc, ◌+◌, ◌<◌, ◌≡◌, refl, sym, ap, ◌∙◌, inl, inr, ◌⊎◌, Bool, true, false, not, ◌&&◌, ◌||◌,
  List, [], ◌∷◌, ltb, if◌then◌else◌, pos, ltb_ℤ, Bool-cases, arith,
}
use gatemux.Common.Maps.{find, put, keep, size, keep-keep, keep-put, put-put}
use gatemux.Concurrency.{LeaseKey, LeaseScope, lease_key_equals, lease_key_equals_iff, member_eq}
use gatemux.Concurrency.Redis.{SortedSets, Members}
use gatemux.Concurrency.Script.{
  Reply, granted, denied, is_granted, is_absent, is_full, check_scopes, add_scopes, acquire_script,
}

-- The leases that have not run out.
abbrev pub live : ℕ → Members → Members
live now ms = keep (ltb now) ms

-- The member has its lease already, or there is room for one more.
abbrev pub has_room : ℕ → String → LeaseScope → Members → Bool
has_room now member c ms =
    not (is_absent (find member (live now ms))) || ltb_ℤ (pos (size (live now ms))) c.limit

unfoldable pub all_room : ℕ → String → List LeaseScope → (LeaseKey → Members) → Bool
all_room now member [] table = true
all_room now member (c ∷ cs) table =
    has_room now member c (table c.key) && all_room now member cs table

unfoldable pub is_listed : LeaseKey → List LeaseScope → Bool
is_listed k [] = false
is_listed k (c ∷ cs) = lease_key_equals c.key k || is_listed k cs

-- What a key holds after the call.
abbrev pub with_lease : ℕ → ℕ → String → Bool → Members → Members
with_lease now expires member added ms =
    if added then put member expires (live now ms) else live now ms

all_room-live :
    (now : ℕ) (member : String) (cs : List LeaseScope) (old new : LeaseKey → Members)
    → ((k : LeaseKey) → live now (new k) ≡ live now (old k))
    → all_room now member cs new ≡ all_room now member cs old
unfolding all_room
all_room-live now member [] old new h = refl
all_room-live now member (c ∷ cs) old new h = cc (h c.key, all_room-live now member cs old new h)

pub Reply-cases : (q : Reply) → (q ≡ granted) ⊎ ((i : ℕ) × (retry : ℕ) × (q ≡ denied i retry))
Reply-cases granted = inl refl
Reply-cases (denied i retry) = inr (i, retry, refl)

module _ (r : SortedSets) where
  purge-live :
      (k : LeaseKey) (now : ℕ) (s : r.Store) (j : LeaseKey)
      → live now (r.members (r.zremrangebyscore k now s) j) ≡ live now (r.members s j)
  purge-live k now s j = elim (Bool-cases (lease_key_equals k j)) [
    | inl same ↦
        rw (r.members-zremrangebyscore k now s j, same) (keep-keep (ltb now) (r.members s j))
    | inr other ↦ rw (r.members-zremrangebyscore k now s j, other) refl
  ]

  purge_self :
      (k : LeaseKey) (now : ℕ) (s : r.Store)
      → r.members (r.zremrangebyscore k now s) k ≡ live now (r.members s k)
  purge_self k now s =
      rw (r.members-zremrangebyscore k now s k, (lease_key_equals_iff k k).1 refl) refl

  -- After the purge the test of the script is that of the table.
  is_full-purge :
      (now : ℕ) (member : String) (c : LeaseScope) (s : r.Store)
      → is_full r member c (r.zremrangebyscore c.key now s)
        ≡ not (has_room now member c (r.members s c.key))
  unfolding is_full
  is_full-purge now member c s =
      let s' = r.zremrangebyscore c.key now s in
      rw (r.zscore_eq c.key member s', r.zcard_eq c.key s', purge_self c.key now s) (ground arith)

  -- The first loop leaves what is live as it was.
  check_scopes-live :
      (now : ℕ) (member : String) (i : ℕ) (cs : List LeaseScope) (s : r.Store) (k : LeaseKey)
      → live now (r.members (check_scopes r now member i cs s).1 k) ≡ live now (r.members s k)
  unfolding check_scopes
  check_scopes-live now member i [] s k = refl
  check_scopes-live now member i (c ∷ cs) s k =
      let s' = r.zremrangebyscore c.key now s in
      elim (Bool-cases (is_full r member c s')) [
        | inl full ↦ rw (full, check_scopes) (purge-live c.key now s k)
        | inr free ↦
            rw (free, check_scopes)
              (check_scopes-live now member (suc i) cs s' k ∙ purge-live c.key now s k)
      ]

  pub check_scopes-granted :
      (now : ℕ) (member : String) (i : ℕ) (cs : List LeaseScope) (s : r.Store)
      → is_granted (check_scopes r now member i cs s).0 ≡ all_room now member cs (r.members s)
  unfolding check_scopes all_room
  check_scopes-granted now member i [] s = refl
  check_scopes-granted now member i (c ∷ cs) s =
      let s' = r.zremrangebyscore c.key now s in
      let test = is_full-purge now member c s in
      elim (Bool-cases (is_full r member c s')) [
        | inl full ↦ rw (full, check_scopes) (ground (arith, test, full))
        | inr free ↦
            let rest = check_scopes-granted now member (suc i) cs s' in
            let same =
              all_room-live now member cs (r.members s) (r.members s') (purge-live c.key now s) in
            rw (free, check_scopes) (ground (arith, test, free, rest, same))
      ]

  -- A purge of one key on the way to another leaves a purged key as it is.
  check_scopes-purged :
      (now : ℕ) (member : String) (i : ℕ) (cs : List LeaseScope) (s : r.Store) (k : LeaseKey)
      (ms : Members)
      → r.members s k ≡ live now ms
      → r.members (check_scopes r now member i cs s).1 k ≡ live now ms
  unfolding check_scopes
  check_scopes-purged now member i [] s k ms h = h
  check_scopes-purged now member i (c ∷ cs) s k ms h =
      let s' = r.zremrangebyscore c.key now s in
      let still : r.members s' k ≡ live now ms = elim (Bool-cases (lease_key_equals c.key k)) [
        | inl same ↦
            rw (r.members-zremrangebyscore c.key now s k, same)
              (ap (live now) h ∙ keep-keep (ltb now) ms)
        | inr other ↦ rw (r.members-zremrangebyscore c.key now s k, other) h
      ] in
      elim (Bool-cases (is_full r member c s')) [
        | inl full ↦ rw (full, check_scopes) still
        | inr free ↦
            rw (free, check_scopes) (check_scopes-purged now member (suc i) cs s' k ms still)
      ]

  check_scopes_listed :
      (now : ℕ) (member : String) (i : ℕ) (cs : List LeaseScope) (s : r.Store) (k : LeaseKey)
      → is_granted (check_scopes r now member i cs s).0 ≡ true
      → is_listed k cs ≡ true
      → r.members (check_scopes r now member i cs s).1 k ≡ live now (r.members s k)
  unfolding check_scopes is_listed
  check_scopes_listed now member i [] s k g l = cc
  check_scopes_listed now member i (c ∷ cs) s k g l =
      let s' = r.zremrangebyscore c.key now s in
      elim (Bool-cases (is_full r member c s')) [
        | inl full ↦ absurd (ground (arith, g, full))
        | inr free ↦
            rw (free, check_scopes)
              (elim (Bool-cases (lease_key_equals c.key k)) [
                | inl same ↦
                    check_scopes-purged now member (suc i) cs s' k (r.members s k)
                      (rw (r.members-zremrangebyscore c.key now s k, same) refl)
                | inr other ↦
                    check_scopes_listed now member (suc i) cs s' k (ground (arith, g, free))
                      (ground (arith, l, other))
                    ∙ purge-live c.key now s k
              ])
      ]

  add_scopes-members :
      (now ttl : ℕ) (member : String) (cs : List LeaseScope) (s : r.Store) (k : LeaseKey)
      → r.members (add_scopes r now ttl member cs s) k
        ≡ (if is_listed k cs then put member (now + ttl) (r.members s k) else r.members s k)
  unfolding add_scopes is_listed
  add_scopes-members now ttl member [] s k = refl
  add_scopes-members now ttl member (c ∷ cs) s k =
      let added = r.zadd c.key (now + ttl) member s in
      let s' = r.pexpire now c.key (ttl + 60000) added in
      let rest = add_scopes-members now ttl member cs s' k in
      let first =
        r.members-pexpire now c.key (ttl + 60000) added k
        ∙ r.members-zadd c.key (now + ttl) member s k in
      ground (arith, rest, first, put-put member (now + ttl) (r.members s k))

  -- The script acts as one check and one addition on a table of leases, whichever way Redis keeps it:
  -- it grants the lease exactly if every scope has the member already or has room for one more, leases
  -- that have run out not counted; then the member has its lease in every scope, up to the same time,
  -- and otherwise no scope has changed. What is live in all other keys stays as it was.
  pub acquire_script_refines :
      (now ttl : ℕ) (member : String) (scopes : List LeaseScope) (s : r.Store) (k : LeaseKey)
      → 0 < ttl
      → let (reply, s') = acquire_script r now ttl member scopes s in
        let added = all_room now member scopes (r.members s) in
        (is_granted reply ≡ added)
        × (live now (r.members s' k)
            ≡ with_lease now (now + ttl) member (added && is_listed k scopes) (r.members s k))
  unfolding acquire_script
  acquire_script_refines now ttl member scopes s k h =
      let checked = check_scopes r now member 1 scopes s in
      let same = check_scopes-granted now member 1 scopes s in
      let kept = check_scopes-live now member 1 scopes s k in
      elim (Reply-cases checked.0) [
        | inr (i, retry, refused) ↦
            let no_room : all_room now member scopes (r.members s) ≡ false =
              sym same ∙ ap is_granted refused in
            rw (refused, no_room, acquire_script) (refl, kept)
        | inl went ↦
            let all : all_room now member scopes (r.members s) ≡ true =
              sym same ∙ ap is_granted went in
            let after = add_scopes-members now ttl member scopes checked.1 k in
            rw (went, all, acquire_script)
              (elim (Bool-cases (is_listed k scopes)) [
                | inr other ↦ rw (after, other) (refl, kept)
                | inl listed ↦
                    let purged =
                      check_scopes_listed now member 1 scopes s k (ap is_granted went) listed in
                    rw (after, listed, purged)
                      (refl, keep-put (ltb now) member (now + ttl) (r.members s k) (ground arith))
              ])
      ]
