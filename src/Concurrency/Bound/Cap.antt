-- ===== src/Concurrency/Bound/Cap.antt =====
-- The number of leases of one scope that the clients of internal/concurrency/limiter.go hold.
use Prim.Native.String.{String}
use gatemux.Common.{
  ℕ, ◌≤◌, ◌<◌, ◌≡◌, refl, sym, ap, subst, inl, inr, Bool, true, false, List, [], ◌∷◌, All,
  if◌then◌else◌, ok, ◌==◌, length, ℤ, pos, negsuc, Bool-cases, Result-cases, arith,
}
use gatemux.Common.Maps.{remove, keep, size}
use gatemux.Concurrency.{LeaseKey, member_eq}
use gatemux.Concurrency.Redis.{SortedSets, Members}
use gatemux.Concurrency.Script.{Reply, granted, denied}
use gatemux.Concurrency.Limiter.{
  LeaseRequest, Lease, Link, answered, lost_call, lost_reply, check_request, to_result, ttl_ms,
  acquire, release,
}
use gatemux.Concurrency.Spec.{live, is_listed}
use gatemux.Concurrency.Bound.{
  System, Call, acquire_call, release_call, has_key, fresh, run, call, gained, IsAscending,
  IsCapped, Fits,
}
use gatemux.Concurrency.Bound.Invariant.{
  IsSound, empty-IsSound, lose-IsSound, gain-IsSound, held-le,
}
use gatemux.Concurrency.Bound.Scripts.{
  Sound, Acquired, later-Sound, pass-Sound, acquire_script-Acquired, release_script-Sound,
}

module _ (r : SortedSets) (k : LeaseKey) (cap ttl : ℕ) where
  forget-Sound :
      (now : ℕ) (b : Bool) (m : String) (s : r.Store) (held : Members)
      → Sound r k cap ttl now s held
      → Sound r k cap ttl now s (if b then remove m held else held)
  forget-Sound now true m s held h =
      lose-IsSound cap ttl now (live now (r.members s k)) (r.deadline s k) held m h
  forget-Sound now false m s held h = h

  release-Sound :
      (clock now : ℕ) (link : Link) (lease : Lease) (s : r.Store) (held : Members)
      → clock ≤ now
      → Sound r k cap ttl clock s held
      → Sound r k cap ttl now
          (release r link now lease s).2
          (if has_key k lease.keys then remove lease.member held else held)
  unfolding release
  release-Sound clock now link lease s held le h =
      let passed = pass-Sound r k cap ttl clock now s held le h in
      let out =
        release_script-Sound r k cap ttl now lease.member lease.keys (r.pass now s) held passed in
      let lost =
        forget-Sound now (has_key k lease.keys) lease.member s held
          (later-Sound r k cap ttl clock now s held le h) in
      elim (Bool-cases lease.released) [
        | inl again ↦ rw (again, release) lost
        | inr first ↦
            elim link
              as (λ l.
                Sound r k cap ttl now (release r l now lease s).2
                  (if has_key k lease.keys then remove lease.member held else held)) [
                    | answered ↦ rw (first, release) out
                    | lost_call ↦ rw (first, release) lost
                    | lost_reply ↦ rw (first, release) out
                  ]
      ]

module _ (r : SortedSets) (k : LeaseKey) (cap : ℕ) where
  gained-Sound :
      (now : ℕ) (req : LeaseRequest) (reply : Reply) (s : r.Store) (held : Members)
      → Acquired r k cap (ttl_ms req.ttl) now req.id req.scopes reply s held
      → Sound r k cap (ttl_ms req.ttl) now s (gained r k now req (ok (to_result req reply)) held)
  unfolding gained to_result
  gained-Sound now req (denied i retry) s held a = a.sound
  gained-Sound now req granted s held a = elim (Bool-cases (is_listed k req.scopes)) [
    | inr other ↦ rw other a.sound
    | inl listed ↦ rw listed (
        gain-IsSound cap (ttl_ms req.ttl) now (live now (r.members s k)) (r.deadline s k) held
          req.id a.sound (a.lasts listed))
  ]

  ttl_ms-positive : (ttl : ℤ) → 0 < ttl_ms ttl
  unfolding ttl_ms
  ttl_ms-positive (pos ns) = omega arith
  ttl_ms-positive (negsuc n) = omega arith

  acquire-Sound :
      (clock now : ℕ) (link : Link) (req : LeaseRequest) (s : r.Store) (held : Members)
      → clock ≤ now
      → All (IsCapped k cap) req.scopes
      → Sound r k cap (ttl_ms req.ttl) clock s held
      → let (result, s') = acquire r link now req s in
        Sound r k cap (ttl_ms req.ttl) now s' (gained r k now req result held)
  unfolding acquire gained
  acquire-Sound clock now link req s held le c h =
      let ttl = ttl_ms req.ttl in
      let still = later-Sound r k cap ttl clock now s held le h in
      let passed = pass-Sound r k cap ttl clock now s held le h in
      let a =
        acquire_script-Acquired r k cap ttl now req.id req.scopes (r.pass now s) held
          (ttl_ms-positive req.ttl) c passed in
      elim (Bool-cases (length req.scopes == 0)) [
        | inl empty ↦ rw (empty, acquire) still
        | inr some_scopes ↦ elim (Result-cases (check_request req)) [
          | inr (e, bad) ↦ rw (some_scopes, bad, acquire) still
          | inl (u, good) ↦
              elim link
                as (λ l.
                  let (result, s') = acquire r l now req s in
                  Sound r k cap (ttl_ms req.ttl) now s' (gained r k now req result held)) [
                    | answered ↦ rw (some_scopes, good, acquire) (gained-Sound now req _ _ held a)
                    | lost_call ↦ rw (some_scopes, good, acquire) still
                    | lost_reply ↦ rw (some_scopes, good, acquire) a.sound
                  ]
        ]
      ]

module _ (r : SortedSets) (k : LeaseKey) (cap ttl : ℕ) where
  abbrev IsWell : System r k → Type 0
  IsWell s = Sound r k cap ttl s.clock s.store s.held

  call-IsWell :
      (now : ℕ) (c : Call) (s : System r k)
      → s.clock ≤ now
      → Fits k cap ttl (now, c)
      → IsWell s
      → IsWell (call r k now c s)
  unfolding call
  call-IsWell now (release_call link lease) s le f h =
      release-Sound r k cap ttl s.clock now link lease s.store s.held le h
  call-IsWell now (acquire_call link req) s le f h =
      subst
        (λ n.
          Sound r k cap n s.clock s.store s.held
          → Sound r k cap n now (acquire r link now req s.store).1
              (gained r k now req (acquire r link now req s.store).0 s.held))
        f.0 (acquire-Sound r k cap s.clock now link req s.store s.held le f.1) h

  call-clock : (now : ℕ) (c : Call) (s : System r k) → (call r k now c s).clock ≡ now
  unfolding call
  call-clock now (acquire_call link req) s = refl
  call-clock now (release_call link lease) s = refl

  run-IsWell :
      (s : System r k) (cs : List (ℕ × Call))
      → IsAscending s.clock cs
      → All (Fits k cap ttl) cs
      → IsWell s
      → IsWell (run r k s cs)
  unfolding run
  run-IsWell s [] a f h = h
  run-IsWell s ((now, c) ∷ cs) a f h =
      run-IsWell (call r k now c s) cs
        (subst (λ n. IsAscending n cs) (sym (call-clock now c s)) a.1) f.1
        (call-IsWell now c s a.0 f.0 h)

  -- Whatever clients on one Redis acquire and release, in whatever order their calls arrive and
  -- whichever calls or replies are lost: of the leases of one scope that they hold, at most the cap
  -- have not run out. The scope starts empty, its limit is at most the cap in every request, its leases
  -- last equally long, and the clock of Redis does not go back.
  pub run-le-cap_leases :
      (clock : ℕ) (store : r.Store) (cs : List (ℕ × Call))
      → r.members store k ≡ []
      → IsAscending clock cs
      → All (Fits k cap ttl) cs
      → let s = run r k (fresh r k clock store) cs in size (live s.clock s.held) ≤ cap
  unfolding keep
  run-le-cap_leases clock store cs empty a f =
      let start =
        subst (λ ms. IsSound cap ttl clock ms (r.deadline store k) []) (ap (live clock) (sym empty))
          (empty-IsSound cap ttl clock (r.deadline store k)) in
      let s = run r k (fresh r k clock store) cs in
      held-le cap ttl s.clock (live s.clock (r.members s.store k)) (r.deadline s.store k) s.held
        (run-IsWell (fresh r k clock store) cs a f start)
