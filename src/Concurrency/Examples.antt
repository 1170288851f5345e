-- ===== src/Concurrency/Examples.antt =====
-- A store of sorted sets as functions, and concrete calls for internal/concurrency/limiter.go.
use Prim.Native.String.{String}
use gatemux.Common.{
  ℕ, ◌+◌, ◌≤◌, ◌≡◌, refl, inl, inr, Bool, true, false, ◌&&◌, Option, none, some, List, [], ◌∷◌, All,
  ltb, min, if◌then◌else◌, pos, arith,
}
use gatemux.Common.Maps.{find, put, remove, keep, size, IsMap, put-IsMap, remove-IsMap, keep-IsMap}
use gatemux.Concurrency.{LeaseKey, LeaseScope, lease_key_equals, lease_key_eq, member_eq}
use gatemux.Concurrency.Redis.{SortedSets, Members, is_due}
use gatemux.Concurrency.Script.{is_granted, acquire_script}
use gatemux.Concurrency.Limiter.{LeaseRequest, Lease, ttl_ms, answered, lost_reply}
use gatemux.Concurrency.Spec.{live, all_room, is_listed, with_lease, acquire_script_refines}
use gatemux.Concurrency.Bound.{System, fresh, Call, acquire_call, release_call, IsCapped, run}
use gatemux.Concurrency.Bound.Cap.{run-le-cap_leases}

record Cell : Type 0 where
  members : Members
  due : Option ℕ
  one_each : IsMap members

abbrev Cells : Type 0
Cells = LeaseKey → Cell

abbrev at : LeaseKey → (Cell → Cell) → Cells → Cells
at k f s = λ j. if lease_key_equals k j then f (s j) else s j

abbrev with_members : (ms : Members) → IsMap ms → Cell → Cell
with_members ms u c = record { members = ms; due = c.due; one_each = u }

abbrev passed : ℕ → Cells → Cells
passed now s =
    λ j. if is_due now (s j).due then record { members = []; due = none; one_each = tt } else s j

members_if :
    (b : Bool) (x y : Cell) → (if b then x else y).members ≡ (if b then x.members else y.members)
members_if true x y = refl
members_if false x y = refl

due_if : (b : Bool) (x y : Cell) → (if b then x else y).due ≡ (if b then x.due else y.due)
due_if true x y = refl
due_if false x y = refl

due_same : (b : Bool) (x y : Cell) → x.due ≡ y.due → (if b then x else y).due ≡ y.due
due_same true x y h = h
due_same false x y h = refl

members_same :
    (b : Bool) (x y : Cell) → x.members ≡ y.members → (if b then x else y).members ≡ y.members
members_same true x y h = h
members_same false x y h = refl

abbrev lowest : Members → Option ℕ
lowest [] = none
lowest ((m, e) ∷ ms) = elim (lowest ms) [ none ↦ some e | some low ↦ some (min e low) ]

abbrev cells : SortedSets
cells = record {
  Store = Cells;
  members = λ s k. (s k).members;
  deadline = λ s k. (s k).due;
  pass = passed;
  zremrangebyscore = λ k top s.
      at k
        (λ c. with_members (keep (ltb top) c.members) (keep-IsMap (ltb top) c.members c.one_each) c)
        s;
  zscore = λ k m s. find m (s k).members;
  zcard = λ k s. size (s k).members;
  zrange_first = λ k s. lowest (s k).members;
  zadd = λ k score m s.
      at k (λ c. with_members (put m score c.members) (put-IsMap m score c.members c.one_each) c) s;
  zrem = λ k m s.
      at k (λ c. with_members (remove m c.members) (remove-IsMap m c.members c.one_each) c) s;
  pexpire = λ now k time s.
      at k (λ c. record { members = c.members; due = some (now + time); one_each = c.one_each }) s;
  members-IsMap = λ s k. (s k).one_each;
  members-pass = λ now s k. members_if (is_due now (s k).due) _ (s k);
  members-zremrangebyscore = λ k top s j. members_if (lease_key_equals k j) _ (s j);
  zscore_eq = λ k m s. refl;
  zcard_eq = λ k s. refl;
  members-zadd = λ k score m s j. members_if (lease_key_equals k j) _ (s j);
  members-zrem = λ k m s j. members_if (lease_key_equals k j) _ (s j);
  members-pexpire = λ now k time s j. members_same (lease_key_equals k j) _ (s j) refl;
  deadline-pass = λ now s k. due_if (is_due now (s k).due) _ (s k);
  deadline-zremrangebyscore = λ k top s j. inl (due_same (lease_key_equals k j) _ (s j) refl);
  deadline-zadd = λ k score m s j. due_same (lease_key_equals k j) _ (s j) refl;
  deadline-zrem = λ k m s j. inl (due_same (lease_key_equals k j) _ (s j) refl);
  deadline-pexpire = λ now k time s j. due_if (lease_key_equals k j) _ (s j);
}

abbrev no_cells : Cells
no_cells = λ k. record { members = []; due = none; one_each = tt }

abbrev the_team : LeaseKey
the_team = record { kind = "team"; id = pos 1 }

abbrev two : LeaseScope
two = record { key = the_team; limit = pos 2 }

abbrev request : String → LeaseRequest
request id = record { id = id; partition = pos 1; ttl = pos 120000000000; scopes = two ∷ [] }

abbrev fits : All (IsCapped the_team 2) (two ∷ [])
fits = (inr (ground arith), tt)

abbrev lease : String → Lease
lease id = record { member = id; keys = the_team ∷ []; released = false; failed = false }

-- The reply to "b" is lost, so that its slot stays taken until its lease runs out.
abbrev calls : List (ℕ × Call)
calls =
    (1000, acquire_call answered (request "a"))
    ∷ (2000, acquire_call lost_reply (request "b"))
    ∷ (3000, acquire_call answered (request "c"))
    ∷ (4000, release_call answered (lease "a"))
    ∷ (5000, acquire_call answered (request "d"))
    ∷ (122000, acquire_call answered (request "e"))
    ∷ []

abbrev end : System cells the_team
end = run cells the_team (fresh cells the_team 0 no_cells) calls

after_calls : end.held ≡ ("d", 125000) ∷ ("e", 242000) ∷ []
unfolding run find put keep remove lease_key_equals
after_calls = refl

run-le-cap_leases_example : size (live end.clock end.held) ≤ 2
unfolding ttl_ms
run-le-cap_leases_example =
    run-le-cap_leases cells the_team 2 120000 0 no_cells calls refl
      (omega arith, (omega arith, (omega arith, (omega arith, (omega arith, (omega arith, tt))))))
      ((refl, fits), ((refl, fits), ((refl, fits), (tt, ((refl, fits), ((refl, fits), tt))))))

acquire_script_refines_example :
    let (reply, s') = acquire_script cells 1000 120000 "a" (two ∷ []) no_cells in
    let added = all_room 1000 "a" (two ∷ []) (λ k. []) in
    (is_granted reply ≡ added)
    × (live 1000 (s' the_team).members
        ≡ with_lease 1000 121000 "a" (added && is_listed the_team (two ∷ [])) [])
acquire_script_refines_example =
    acquire_script_refines cells 1000 120000 "a" (two ∷ []) no_cells the_team (omega arith)
