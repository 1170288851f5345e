-- ===== src/Concurrency/Bound/Invariant.antt =====
-- The leases of one scope in Redis and with the clients of internal/concurrency/limiter.go.
use Prim.Native.String.{String}
use text.Mathlib.Text.{◌==◌ as str_eq}
use text.Mathlib.TextEquality.{eq_iff}
use gatemux.Common.{
  ℕ, ◌+◌, ◌≤◌, ◌<◌, ◌≡◌, refl, sym, ap, ◌∙◌, ◌⊎◌, inl, inr, Option, none, some, [], ltb, leb,
  if◌then◌else◌, Bool-cases, Option-cases, arith,
}
use gatemux.Common.Maps.{
  find, put, remove, size, IsMap, find-put, find-remove, find-keep, keep-IsMap, put-IsMap,
  remove-IsMap, size-put, size-remove-le, size-le, is_missing, size-keep-le,
}
use gatemux.Concurrency.{member_eq}
use gatemux.Concurrency.Redis.{Members, is_due}
use gatemux.Concurrency.Spec.{live}

-- The member has a lease until `end` at least.
pub record Lasts (ms : Members) (m : String) (end : ℕ) : Type 0 where
  pub score : ℕ
  pub at : find m ms ≡ some score
  pub until : end ≤ score

find-live :
    (now : ℕ) (ms : Members) (m : String) {e : ℕ}
    → IsMap ms
    → find m (live now ms) ≡ some e
    → find m ms ≡ some e
find-live now ms m u h =
    let k = find-keep (ltb now) m ms u in
    elim (Option-cases (find m ms)) [
      | inl absent ↦ ground (arith, k, h, absent)
      | inr (score, at) ↦ ground (arith, k, h, at)
    ]

live_later :
    (now : ℕ) (ms : Members) (m : String) {e : ℕ}
    → IsMap ms
    → find m (live now ms) ≡ some e
    → now < e
live_later now ms m u h =
    let k = find-keep (ltb now) m ms u in
    elim (Option-cases (find m ms)) [
      | inl absent ↦ absurd (ground (arith, k, h, absent))
      | inr (score, at) ↦ ground (arith, k, h, at)
    ]

find-live_kept :
    (now : ℕ) (ms : Members) (m : String) {e : ℕ}
    → IsMap ms
    → find m ms ≡ some e
    → now < e
    → find m (live now ms) ≡ some e
find-live_kept now ms m u h later = ground (arith, find-keep (ltb now) m ms u)

at_score : {ms : Members} {m : String} {e : ℕ} → Lasts ms m e → (e' : ℕ) × (find m ms ≡ some e')
at_score l = (l.score, l.at)

module _ (cap ttl : ℕ) where
  -- The live leases in Redis, the deadline of the key, and the leases of the clients.
  pub record IsSound (clock : ℕ) (ms : Members) (due : Option ℕ) (held : Members) : Type 0 where
    pub covered : (m : String) (e : ℕ) → find m held ≡ some e → clock < e → Lasts ms m e
    pub scores : (m : String) (e : ℕ) → find m ms ≡ some e → e ≤ clock + ttl
    pub bound : size ms ≤ cap
    pub deadline : (m : String) (e d : ℕ) → find m ms ≡ some e → due ≡ some d → e ≤ d
    pub ms-IsMap : IsMap ms
    pub held-IsMap : IsMap held

  pub empty-IsSound : (clock : ℕ) (due : Option ℕ) → IsSound clock [] due []
  unfolding find
  empty-IsSound clock due = record {
    covered = λ m e at later. absurd (ground (arith, at));
    scores = λ m e at. absurd (ground (arith, at));
    bound = omega arith;
    deadline = λ m e d at same. absurd (ground (arith, at));
    ms-IsMap = tt;
    held-IsMap = tt;
  }

  -- Time passes, and leases run out.
  pub live-IsSound :
      (clock now : ℕ) (ms : Members) (due : Option ℕ) (held : Members)
      → clock ≤ now
      → IsSound clock ms due held
      → IsSound now (live now ms) due held
  live-IsSound clock now ms due held le h = record {
    covered = λ m e at later.
        let l = h.covered m e at (omega arith) in
        record {
          score = l.score;
          at = find-live_kept now ms m h.ms-IsMap l.at (omega (arith, l.until));
          until = l.until;
        };
    scores = λ m e at. omega (arith, h.scores m e (find-live now ms m h.ms-IsMap at));
    bound = omega (arith, size-keep-le (ltb now) ms, h.bound);
    deadline = λ m e d at. h.deadline m e d (find-live now ms m h.ms-IsMap at);
    ms-IsMap = keep-IsMap (ltb now) ms h.ms-IsMap;
    held-IsMap = h.held-IsMap;
  }

  -- A key that goes at its deadline goes with leases that have run out.
  pub due-IsSound :
      (now : ℕ) (ms : Members) (due : Option ℕ) (held : Members)
      → IsSound now ms due held
      → IsSound now (if is_due now due then [] else ms) (if is_due now due then none else due) held
  unfolding find
  due-IsSound now ms none held h = h
  due-IsSound now ms (some d) held h = elim (Bool-cases (leb d now)) [
    | inr later ↦ rw later h
    | inl come ↦ rw come (record {
      covered = λ m e at later.
          let l = h.covered m e at later in
          absurd (ground (arith, h.deadline m l.score d l.at refl, l.until, come, later));
      scores = λ m e at. absurd (ground (arith, at));
      bound = omega arith;
      deadline = λ m e d' at. absurd (ground (arith, at));
      ms-IsMap = tt;
      held-IsMap = h.held-IsMap;
    })
  ]

  put-scores :
      (now : ℕ) (ms : Members) (due : Option ℕ) (held : Members) (m : String)
      → IsSound now ms due held
      → (n : String) (e : ℕ) → find n (put m (now + ttl) ms) ≡ some e
      → e ≤ now + ttl
  put-scores now ms due held m h n e at =
      ground (arith, find-put m n (now + ttl) ms, h.scores n e, at)

  -- A lease is granted where the member has one or there is room, and the deadline is set behind it.
  pub put-IsSound :
      (now : ℕ) (ms : Members) (due : Option ℕ) (held : Members) (m : String)
      → IsSound now ms due held
      → size ms + is_missing (find m ms) ≤ cap
      → IsSound now (put m (now + ttl) ms) (some (now + (ttl + 60000))) held
  put-IsSound now ms due held m h room = record {
    covered = λ n e at later.
        let l = h.covered n e at later in
        elim (Bool-cases (str_eq m n)) [
          | inl same ↦ record {
            score = now + ttl;
            at =
                find-put m n (now + ttl) ms
                ∙ ap (λ b. if b then some (now + ttl) else find n ms) same;
            until = omega (arith, l.until, h.scores n l.score l.at);
          }
          | inr other ↦ record {
            score = l.score;
            at =
                find-put m n (now + ttl) ms
                ∙ ap (λ b. if b then some (now + ttl) else find n ms) other
                ∙ l.at;
            until = l.until;
          }
        ];
    scores = put-scores now ms due held m h;
    bound = omega (arith, size-put m (now + ttl) ms, room);
    deadline = λ n e d at same. ground (arith, put-scores now ms due held m h n e at, same);
    ms-IsMap = put-IsMap m (now + ttl) ms h.ms-IsMap;
    held-IsMap = h.held-IsMap;
  }

  pub gain-IsSound :
      (now : ℕ) (ms : Members) (due : Option ℕ) (held : Members) (m : String)
      → IsSound now ms due held
      → find m ms ≡ some (now + ttl)
      → IsSound now ms due (put m (now + ttl) held)
  gain-IsSound now ms due held m h got = record {
    covered = λ n e at later. elim (Bool-cases (str_eq m n)) [
      | inl same ↦ record {
        score = now + ttl;
        at = ap (λ n. find n ms) (sym ((eq_iff m n).0 same)) ∙ got;
        until = ground (arith, find-put m n (now + ttl) held, at, same);
      }
      | inr other ↦ h.covered n e (ground (arith, find-put m n (now + ttl) held, at, other)) later
    ];
    scores = h.scores;
    bound = h.bound;
    deadline = h.deadline;
    ms-IsMap = h.ms-IsMap;
    held-IsMap = put-IsMap m (now + ttl) held h.held-IsMap;
  }

  pub lose-IsSound :
      (now : ℕ) (ms : Members) (due : Option ℕ) (held : Members) (m : String)
      → IsSound now ms due held
      → IsSound now ms due (remove m held)
  lose-IsSound now ms due held m h = record {
    covered = λ n e at later. h.covered n e (ground (arith, find-remove m n held, at)) later;
    scores = h.scores;
    bound = h.bound;
    deadline = h.deadline;
    ms-IsMap = h.ms-IsMap;
    held-IsMap = remove-IsMap m held h.held-IsMap;
  }

  pub remove-IsSound :
      (now : ℕ) (ms : Members) (due : Option ℕ) (held : Members) (m : String)
      → IsSound now ms due (remove m held)
      → IsSound now (remove m ms) due (remove m held)
  remove-IsSound now ms due held m h = record {
    covered = λ n e at later.
        let l = h.covered n e at later in
        record {
          score = l.score;
          at = ground (arith, find-remove m n held, find-remove m n ms, at, l.at);
          until = l.until;
        };
    scores = λ n e at. h.scores n e (ground (arith, find-remove m n ms, at));
    bound = omega (arith, size-remove-le m ms, h.bound);
    deadline = λ n e d at. h.deadline n e d (ground (arith, find-remove m n ms, at));
    ms-IsMap = remove-IsMap m ms h.ms-IsMap;
    held-IsMap = h.held-IsMap;
  }

  -- A deadline may go.
  pub none-IsSound :
      (now : ℕ) (ms : Members) (due due' : Option ℕ) (held : Members)
      → (due' ≡ due) ⊎ (due' ≡ none)
      → IsSound now ms due held
      → IsSound now ms due' held
  none-IsSound now ms due due' held w h = record {
    covered = h.covered;
    scores = h.scores;
    bound = h.bound;
    deadline = λ m e d at same. elim w [
      | inl kept ↦ h.deadline m e d at (sym kept ∙ same)
      | inr gone ↦ absurd (ground (arith, gone, same))
    ];
    ms-IsMap = h.ms-IsMap;
    held-IsMap = h.held-IsMap;
  }

-- What the clients hold is within the cap.
pub held-le :
    (cap ttl now : ℕ) (ms : Members) (due : Option ℕ) (held : Members)
    → IsSound cap ttl now ms due held
    → size (live now held) ≤ cap
held-le cap ttl now ms due held h =
    let covers = λ (m : String) (e : ℕ) (at : find m (live now held) ≡ some e).
      let l =
        h.covered m e (find-live now held m h.held-IsMap at)
          (live_later now held m h.held-IsMap at) in
      at_score l in
    omega
      (arith, size-le (live now held) ms (keep-IsMap (ltb now) held h.held-IsMap) covers, h.bound)
