-- ===== src/Concurrency/Bound/Scripts.antt =====
-- The scripts of internal/concurrency/limiter.go and the leases of one scope.
use Prim.Native.String.{String}
use gatemux.Common.{
  ℕ, suc, ◌+◌, ◌≤◌, ◌<◌, ◌≡◌, refl, sym, ap, subst, ◌∙◌, ◌⊎◌, inl, inr, Bool, true, false, ◌&&◌,
  none, some, List, [], ◌∷◌, All, ltb, if◌then◌else◌, pos, ◌≤ℤ◌, Bool-cases, Bool-apart,
  Option-cases, arith,
}
use gatemux.Common.Maps.{
  find, put, remove, keep, size, find-put_self, is_missing, keep-keep_sharper, keep-remove,
  remove-remove,
}
use gatemux.Concurrency.{LeaseKey, LeaseScope, lease_key_equals, lease_key_equals_iff, member_eq}
use gatemux.Concurrency.Redis.{SortedSets, Members, is_due}
use gatemux.Concurrency.Script.{
  Reply, is_granted, is_full, check_scopes, add_scopes, acquire_script, release_script,
}
use gatemux.Concurrency.Spec.{
  live, has_room, all_room, is_listed, with_lease, Reply-cases, acquire_script_refines,
}
use gatemux.Concurrency.Bound.{has_key, IsCapped}
use gatemux.Concurrency.Bound.Invariant.{
  IsSound, live-IsSound, due-IsSound, put-IsSound, lose-IsSound, remove-IsSound, none-IsSound,
}

live_if :
    (now : ℕ) (b : Bool) (ms : Members)
    → (if b then [] else live now ms) ≡ live now (if b then [] else ms)
unfolding keep
live_if now true ms = refl
live_if now false ms = refl

room_eq :
    (cap now : ℕ) (member : String) (c : LeaseScope) (ms : Members)
    → c.limit ≤ℤ pos cap
    → size (live now ms) ≤ cap
    → has_room now member c ms ≡ true
    → size (live now ms) + is_missing (find member (live now ms)) ≤ cap
room_eq cap now member c ms l b h = elim (Option-cases (find member (live now ms))) [
  | inl absent ↦ ground (arith, absent, h, l)
  | inr (score, at) ↦ ground (arith, at, b)
]

module _ (r : SortedSets) (k : LeaseKey) (cap ttl : ℕ) where
  abbrev pub Sound : ℕ → r.Store → Members → Type 0
  Sound now s held = IsSound cap ttl now (live now (r.members s k)) (r.deadline s k) held

  pub later-Sound :
      (clock now : ℕ) (s : r.Store) (held : Members)
      → clock ≤ now
      → Sound clock s held
      → Sound now s held
  later-Sound clock now s held le h =
      subst (λ ms. IsSound cap ttl now ms (r.deadline s k) held)
        (keep-keep_sharper (ltb clock) (ltb now) (r.members s k) (λ e p. ground arith))
        (live-IsSound cap ttl clock now (live clock (r.members s k)) (r.deadline s k) held le h)

  pub pass-Sound :
      (clock now : ℕ) (s : r.Store) (held : Members)
      → clock ≤ now
      → Sound clock s held
      → Sound now (r.pass now s) held
  pass-Sound clock now s held le h =
      let later = later-Sound clock now s held le h in
      let gone = due-IsSound cap ttl now (live now (r.members s k)) (r.deadline s k) held later in
      rw (r.members-pass now s k, r.deadline-pass now s k)
        (subst
          (λ ms.
            IsSound cap ttl now ms (if is_due now (r.deadline s k) then none else r.deadline s k)
              held)
          (live_if now (is_due now (r.deadline s k)) (r.members s k)) gone)

  abbrev Kept : r.Store → r.Store → Type 0
  Kept s s' = (r.deadline s' k ≡ r.deadline s k) ⊎ (r.deadline s' k ≡ none)

  Kept-trans : (a b c : r.Store) → Kept a b → Kept b c → Kept a c
  Kept-trans a b c f (inr gone) = inr gone
  Kept-trans a b c (inl same) (inl kept) = inl (kept ∙ same)
  Kept-trans a b c (inr gone) (inl kept) = inr (kept ∙ gone)

  check_scopes-Kept :
      (now : ℕ) (member : String) (i : ℕ) (cs : List LeaseScope) (s : r.Store)
      → Kept s (check_scopes r now member i cs s).1
  unfolding check_scopes
  check_scopes-Kept now member i [] s = inl refl
  check_scopes-Kept now member i (c ∷ cs) s =
      let s' = r.zremrangebyscore c.key now s in
      let first = r.deadline-zremrangebyscore c.key now s k in
      elim (Bool-cases (is_full r member c s')) [
        | inl full ↦ rw (full, check_scopes) first
        | inr free ↦
            rw (free, check_scopes)
              (Kept-trans s s' (check_scopes r now member (suc i) cs s').1 first
                (check_scopes-Kept now member (suc i) cs s'))
      ]

  add_scopes-deadline :
      (now : ℕ) (member : String) (cs : List LeaseScope) (s : r.Store)
      → r.deadline (add_scopes r now ttl member cs s) k
        ≡ (if is_listed k cs then some (now + (ttl + 60000)) else r.deadline s k)
  unfolding add_scopes is_listed
  add_scopes-deadline now member [] s = refl
  add_scopes-deadline now member (c ∷ cs) s =
      let added = r.zadd c.key (now + ttl) member s in
      let s' = r.pexpire now c.key (ttl + 60000) added in
      let rest = add_scopes-deadline now member cs s' in
      let first = r.deadline-pexpire now c.key (ttl + 60000) added k in
      let before = r.deadline-zadd c.key (now + ttl) member s k in
      ground (arith, rest, first, before)

  -- A scope of the key that has room keeps the key within the cap.
  room_le :
      (now : ℕ) (member : String) (cs : List LeaseScope) (s : r.Store)
      → All (IsCapped k cap) cs
      → size (live now (r.members s k)) ≤ cap
      → all_room now member cs (r.members s) ≡ true
      → is_listed k cs ≡ true
      → size (live now (r.members s k)) + is_missing (find member (live now (r.members s k))) ≤ cap
  unfolding all_room is_listed
  room_le now member [] s c b a l = cc
  room_le now member (c ∷ cs) s capped b a l = elim (Bool-cases (lease_key_equals c.key k)) [
    | inr other ↦ room_le now member cs s capped.1 b (ground (arith, a)) (ground (arith, l, other))
    | inl same ↦
        let limit : c.limit ≤ℤ pos cap = elim capped.0 [
          | inl other ↦ absurd (Bool-apart other same)
          | inr l ↦ l
        ] in
        let at : c.key ≡ k = (lease_key_equals_iff c.key k).0 same in
        room_eq cap now member c (r.members s k) limit b
          (subst (λ j. has_room now member c (r.members s j) ≡ true) at (ground (arith, a)))
  ]

  -- The script keeps the invariant, and a lease that it grants is there.
  pub record Acquired (now : ℕ) (member : String) (cs : List LeaseScope) (reply : Reply)
      (s' : r.Store) (held : Members) : Type 0 where
    pub sound : Sound now s' held
    pub lasts :
        (is_granted reply && is_listed k cs) ≡ true
        → find member (live now (r.members s' k)) ≡ some (now + ttl)

  acquire_script-deadline :
      (now : ℕ) (member : String) (cs : List LeaseScope) (s : r.Store)
      → let r' = acquire_script r now ttl member cs s in
        (((is_granted r'.0 && is_listed k cs) ≡ true)
          × (r.deadline r'.1 k ≡ some (now + (ttl + 60000))))
        ⊎ (((is_granted r'.0 && is_listed k cs) ≡ false) × Kept s r'.1)
  unfolding acquire_script
  acquire_script-deadline now member cs s =
      let checked = check_scopes r now member 1 cs s in
      let kept = check_scopes-Kept now member 1 cs s in
      let after = add_scopes-deadline now member cs checked.1 in
      let after_of =
        λ (b : Bool). if b then some (now + (ttl + 60000)) else r.deadline checked.1 k in
      elim (Reply-cases checked.0) [
        | inr (i, retry, refused) ↦ rw (refused, acquire_script) (inr (refl, kept))
        | inl went ↦
            rw (went, acquire_script)
              (elim (Bool-cases (is_listed k cs)) [
                | inl listed ↦ inl (listed, after ∙ ap after_of listed)
                | inr other ↦ inr (
                  other,
                  elim kept [
                    | inl same ↦ inl (after ∙ ap after_of other ∙ same)
                    | inr gone ↦ inr (after ∙ ap after_of other ∙ gone)
                  ],
                )
              ])
      ]

  pub acquire_script-Acquired :
      (now : ℕ) (member : String) (cs : List LeaseScope) (s : r.Store) (held : Members)
      → 0 < ttl
      → All (IsCapped k cap) cs
      → Sound now s held
      → let r' = acquire_script r now ttl member cs s in Acquired now member cs r'.0 r'.1 held
  acquire_script-Acquired now member cs s held t c h =
      let (same, view) = acquire_script_refines r now ttl member cs s k t in
      let reply = (acquire_script r now ttl member cs s).0 in
      elim (acquire_script-deadline now member cs s) [
        | inl (got, due) ↦
            let all : (all_room now member cs (r.members s) && is_listed k cs) ≡ true =
              ground (arith, same, got) in
            let ms : Members = live now (r.members s k) in
            let s' = (acquire_script r now ttl member cs s).1 in
            let put_in = view ∙ ap (λ b. with_lease now (now + ttl) member b (r.members s k)) all in
            let room =
              room_le now member cs s c h.bound (ground (arith, all)) (ground (arith, all)) in
            let after = put-IsSound cap ttl now ms (r.deadline s k) held member h room in
            record {
              sound =
                  subst (λ v. IsSound cap ttl now v (r.deadline s' k) held) (sym put_in)
                    (subst (λ d. IsSound cap ttl now (put member (now + ttl) ms) d held) (sym due)
                      after);
              lasts = λ e. ap (find member) put_in ∙ find-put_self member (now + ttl) ms;
            }
        | inr (refused, kept) ↦
            let no_room : (all_room now member cs (r.members s) && is_listed k cs) ≡ false =
              ground (arith, same, refused) in
            let s' = (acquire_script r now ttl member cs s).1 in
            let unchanged =
              view ∙ ap (λ b. with_lease now (now + ttl) member b (r.members s k)) no_room in
            record {
              sound =
                  subst (λ v. IsSound cap ttl now v (r.deadline s' k) held) (sym unchanged)
                    (none-IsSound cap ttl now (live now (r.members s k)) (r.deadline s k)
                      (r.deadline s' k) held kept h);
              lasts = λ e. absurd (Bool-apart refused e);
            }
      ]

  release_script-live :
      (now : ℕ) (m : String) (ks : List LeaseKey) (s : r.Store)
      → live now (r.members (release_script r m ks s) k)
        ≡ (if has_key k ks then remove m (live now (r.members s k)) else live now (r.members s k))
  unfolding release_script has_key
  release_script-live now m [] s = refl
  release_script-live now m (j ∷ ks) s =
      let rest = release_script-live now m ks (r.zrem j m s) in
      let first = r.members-zrem j m s k in
      let taken = λ (b : Bool). if b then remove m (r.members s k) else r.members s k in
      elim (Bool-cases (lease_key_equals j k)) [
        | inr other ↦
            let same_live = ap (live now) (first ∙ ap taken other) in
            ground (arith, rest, same_live, other)
        | inl same ↦
            let less =
              ap (live now) (first ∙ ap taken same) ∙ keep-remove (ltb now) m (r.members s k) in
            ground (arith, rest, less, same, remove-remove m (live now (r.members s k)))
      ]

  release_script-Kept :
      (m : String) (ks : List LeaseKey) (s : r.Store) → Kept s (release_script r m ks s)
  unfolding release_script
  release_script-Kept m [] s = inl refl
  release_script-Kept m (j ∷ ks) s =
      Kept-trans s (r.zrem j m s) (release_script r m ks (r.zrem j m s)) (r.deadline-zrem j m s k)
        (release_script-Kept m ks (r.zrem j m s))

  -- A client gives a lease back, and Redis takes it out.
  pub release_script-Sound :
      (now : ℕ) (m : String) (ks : List LeaseKey) (s : r.Store) (held : Members)
      → Sound now s held
      → Sound now (release_script r m ks s) (if has_key k ks then remove m held else held)
  release_script-Sound now m ks s held h =
      let view = release_script-live now m ks s in
      let s' = release_script r m ks s in
      let kept = release_script-Kept m ks s in
      let ms : Members = live now (r.members s k) in
      let taken = λ (b : Bool). if b then remove m ms else ms in
      elim (Bool-cases (has_key k ks)) [
        | inr other ↦ rw other (
            subst (λ v. IsSound cap ttl now v (r.deadline s' k) held) (sym (view ∙ ap taken other))
              (none-IsSound cap ttl now ms (r.deadline s k) (r.deadline s' k) held kept h))
        | inl listed ↦
            let lost = lose-IsSound cap ttl now ms (r.deadline s k) held m h in
            let out = remove-IsSound cap ttl now ms (r.deadline s k) held m lost in
            rw listed (
              subst (λ v. IsSound cap ttl now v (r.deadline s' k) (remove m held))
                (sym (view ∙ ap taken listed))
                (none-IsSound cap ttl now (remove m ms) (r.deadline s k) (r.deadline s' k)
                  (remove m held) kept out))
      ]
