-- ===== src/Usage/Journal/Recorded.antt =====
-- The books that `FinalizeUsage` of internal/store/accounting.go leaves.
use gatemux.Common.{
  ℕ, zero, suc, ◌≡◌, refl, subst, inl, inr, Bool, true, false, Bool-cases, Option, none, some,
  Option-cases, List, [], ◌∷◌, ◌++◌, length, Result, ok, err,
}
use gatemux.Common.Threads.{get_elem?}
use gatemux.Usage.Journal.{
  UsageEntry, Cost, Receipt, JournalReservation, Books, AccountingError, negative_cost,
  entry_removed, is_negative, billed_entry, settle_reservation, inserted_row, receipt_of,
  write_books, read_books, finalize_pending,
}
use gatemux.Usage.Journal.Billed.{
  IsConsistent, IsBilled, billed_entry-IsBilled, settle_reservation-IsBilled,
}

pub record IsRecorded (r : Receipt) (b : Books) : Type 0 where
  pub complete : b.record_of.complete ≡ true
  pub usage_id : b.record_of.usage_id ≡ some r.id
  pub row : Cost
  pub at : get_elem? b.usage_log r.id ≡ some row
  pub same : receipt_of r.id row.cents row.microcents row.state ≡ r

pub get_elem?-length : (xs : List Cost) (y : Cost) → get_elem? (xs ++ y ∷ []) (length xs) ≡ some y
unfolding get_elem?
get_elem?-length [] y = refl
get_elem?-length (x ∷ xs) y = get_elem?-length xs y

pub get_elem?-append :
    (xs ys : List Cost) (n : ℕ) (y : Cost)
    → get_elem? xs n ≡ some y
    → get_elem? (xs ++ ys) n ≡ some y
unfolding get_elem?
get_elem?-append [] ys n y h = absurd (cc)
get_elem?-append (x ∷ xs) ys zero y h = h
get_elem?-append (x ∷ xs) ys (suc n) y h = get_elem?-append xs ys n y h

pub ok-injective :
    {a b : Receipt × Books}
    → ◌≡◌ {A = Result AccountingError (Receipt × Books)} (ok a) (ok b)
    → a ≡ b
ok-injective h = cc

pub inserted_row_lem :
    (e : UsageEntry)
    → IsBilled e
    → is_negative e.cost_microcents ≡ false
    → inserted_row e
      ≡ some (record { cents = e.cost_cents; microcents = e.cost_microcents; state = e.accounting })
unfolding inserted_row
inserted_row_lem e g fine = rw (fine, g.agreed, g.named, inserted_row) refl

pub inserted_row_negative :
    (e : UsageEntry) → is_negative e.cost_microcents ≡ true → inserted_row e ≡ none
unfolding inserted_row
inserted_row_negative e bad = rw (bad, inserted_row) refl

pub write_books-IsRecorded :
    (b b' : Books) (e : UsageEntry) (v : Option JournalReservation) (r : Receipt)
    → IsBilled e
    → write_books b e v ≡ ok (r, b')
    → IsRecorded r b'
unfolding write_books
write_books-IsRecorded b b' e v r g h = elim (Bool-cases (is_negative e.cost_microcents)) [
  | inl bad ↦
      let k : ◌≡◌ {A = Result AccountingError (Receipt × Books)} (err negative_cost) (ok (r, b')) =
        rw (inserted_row_negative e bad, write_books) at h in
      absurd (cc)
  | inr fine ↦
      let k = ok-injective (rw (inserted_row_lem e g fine, write_books) at h) in
      subst (λ (p : Receipt × Books). IsRecorded p.0 p.1) k
        (record {
          complete = refl;
          usage_id = refl;
          row = record {
            cents = e.cost_cents;
            microcents = e.cost_microcents;
            state = e.accounting;
          };
          at = get_elem?-length b.usage_log _;
          same = refl;
        })
]

pub read_books-IsRecorded :
    (b b' : Books) (r : Receipt)
    → b.record_of.complete ≡ true
    → read_books b b.record_of.usage_id ≡ ok (r, b')
    → IsRecorded r b'
unfolding read_books
read_books-IsRecorded b b' r done h = elim (Option-cases b.record_of.usage_id) [
  | inl e ↦
      let k : ◌≡◌ {A = Result AccountingError (Receipt × Books)} (err entry_removed) (ok (r, b')) =
        rw e at h in
      absurd (cc)
  | inr (id, e) ↦ elim (Option-cases (get_elem? b.usage_log id)) [
    | inl f ↦
        let k : ◌≡◌ {A = Result AccountingError (Receipt × Books)} (err entry_removed)
            (ok (r, b')) =
          rw (e, f, read_books) at h in
        absurd (cc)
    | inr (row, f) ↦
        let k = ok-injective (rw (e, f, read_books) at h) in
        subst (λ (p : Receipt × Books). IsRecorded p.0 p.1) k
          (record { complete = done; usage_id = e; row = row; at = f; same = refl })
  ]
]

pub finalize_pending-IsRecorded :
    (recovering : Bool) (e : UsageEntry) (b b' : Books) (r : Receipt)
    → IsConsistent b.reservation
    → finalize_pending recovering e b ≡ ok (r, b')
    → IsRecorded r b'
unfolding finalize_pending
finalize_pending-IsRecorded recovering e b b' r c h =
    elim (Option-cases (billed_entry recovering e b.record_of)) [
      | inl f ↦
          let k : ◌≡◌ {A = Result AccountingError (Receipt × Books)} (err negative_cost)
              (ok (r, b')) =
            rw (f, finalize_pending) at h in
          absurd (cc)
      | inr (billed, f) ↦
          let s = settle_reservation b.record_of.started billed b.reservation in
          write_books-IsRecorded b b' s.0 s.1 r
            (settle_reservation-IsBilled b.record_of.started billed b.reservation
              (billed_entry-IsBilled recovering e billed b.record_of f) c)
            (rw (f, finalize_pending) at h)
    ]
