-- ===== src/Usage/Journal/Again.antt =====
-- Calls of `FinalizeUsage` of internal/store/accounting.go for a request that is complete.
use gatemux.Common.{
  ℕ, ◌≡◌, ◌⊎◌, refl, ap, ◌∙◌, inl, inr, Bool, true, false, not, ◌&&◌, Option, some, List, ◌++◌,
  if◌then◌else◌, eqb_ℤ, ok,
}
use gatemux.Common.Threads.{get_elem?}
use gatemux.Usage.Journal.{
  UsageEntry, Cost, Receipt, Books, receipt_of, read_books, finalize_journal,
}
use gatemux.Usage.Journal.Billed.{IsConsistent}
use gatemux.Usage.Journal.Recorded.{
  IsRecorded, get_elem?-append, read_books-IsRecorded, finalize_pending-IsRecorded,
}

-- The branch that two tests take.
branch :
    {A : Type 0}
    → (g c : Bool) (x y z w : A) → (if g then x else if c then y else z) ≡ w
    → (x ≡ w) ⊎ (((c ≡ true) × (y ≡ w)) ⊎ (z ≡ w))
branch true c x y z w h = inl h
branch false true x y z w h = inr (inl (refl, h))
branch false false x y z w h = inr (inr h)

branch_complete :
    {A : Type 0}
    → (g c : Bool) (x y z : A) → g ≡ true
    → c ≡ true
    → (if not g then x else if c then y else z) ≡ y
branch_complete true true x y z h k = refl
branch_complete true false x y z h k = absurd (cc)
branch_complete false c x y z h k = absurd (cc)

read_books_lem :
    (b : Books) (o : Option ℕ) (id : ℕ) (row : Cost)
    → o ≡ some id
    → get_elem? b.usage_log id ≡ some row
    → read_books b o ≡ ok (receipt_of id row.cents row.microcents row.state, b)
unfolding read_books
read_books_lem b o id row h k = ap (read_books b) h ∙ rw (k, read_books) refl

finalize_journal-IsRecorded :
    (recovering : Bool) (e : UsageEntry) (b b' : Books) (r : Receipt)
    → IsConsistent b.reservation
    → finalize_journal recovering e b ≡ ok (r, b')
    → IsRecorded r b'
unfolding finalize_journal
finalize_journal-IsRecorded recovering e b b' r c h =
    elim (branch (not recovering && not (eqb_ℤ e.team_id b.record_of.base.team_id))
      b.record_of.complete _ _ _ _ h) [
        | inl mismatch ↦ absurd (cc)
        | inr (inl (done, k)) ↦ read_books-IsRecorded b b' r done k
        | inr (inr k) ↦ finalize_pending-IsRecorded recovering e b b' r c k
      ]

abbrev pub later : List Cost → Books → Books
later more b = record b { usage_log = b.usage_log ++ more }

-- A request that was finalized, by its own completion or by the recovery, is finalized once: a later
-- completion of its team gets the receipt of the first and changes nothing, whatever it reports and
-- whatever other requests were written meanwhile, where the reservation's columns agree.
pub finalize_journal-again :
    (recovering : Bool) (e f : UsageEntry) (b b' : Books) (r : Receipt) (more : List Cost)
    → IsConsistent b.reservation
    → finalize_journal recovering e b ≡ ok (r, b')
    → eqb_ℤ f.team_id b'.record_of.base.team_id ≡ true
    → finalize_journal false f (later more b') ≡ ok (r, later more b')
unfolding finalize_journal
finalize_journal-again recovering e f b b' r more c h team =
    let k = finalize_journal-IsRecorded recovering e b b' r c h in
    let at = get_elem?-append b'.usage_log more r.id k.row k.at in
    branch_complete (eqb_ℤ f.team_id b'.record_of.base.team_id) b'.record_of.complete _ _ _ team
      k.complete
    ∙ (read_books_lem (later more b') b'.record_of.usage_id r.id k.row k.usage_id at
        ∙ ap (λ (x : Receipt). ok (x, later more b')) k.same)
