-- ===== src/Usage/Journal/Billed.antt =====
-- The cost of an entry in `finalizeJournal` of internal/store/accounting.go.
use gatemux.Common.{
  ◌≡◌, refl, subst, inl, inr, Bool, true, false, Bool-cases, ◌&&◌, ◌||◌, Option, none, some,
  Option-cases, if◌then◌else◌, ℤ, pos, ltb_ℤ, arith,
}
use gatemux.Common.Threads.{some-injective}
use gatemux.Usage.Journal.{
  Accounting, blank, unpriced, not_billable, priced, unknown, estimated, legacy, UsageEntry,
  JournalReservation, JournalRecord, classified, classify_accounting, unstarted, recovered_entry,
  is_negative, is_guessed, whole_cents, normalize_cost, billed_entry, settle_reservation,
  stored_state,
}

-- The cents of a cost are those of its exact amount.
abbrev pub IsAgreed : ℤ → Option ℤ → Type 0
IsAgreed cents exact = whole_cents cents exact ≡ some cents

abbrev pub IsConsistent : Option JournalReservation → Type 0
IsConsistent none = Unit
IsConsistent (some r) =
    IsAgreed r.estimated_cents r.estimated_microcents
    × IsAgreed r.settled_cents r.settled_microcents

abbrev pub IsNamed : Accounting → Type 0
IsNamed a = stored_state a ≡ a

pub classified-IsNamed : (e : UsageEntry) (a : Accounting) → IsNamed (classified e a)
unfolding classified stored_state
classified-IsNamed e blank = ground arith
classified-IsNamed e unpriced = refl
classified-IsNamed e not_billable = refl
classified-IsNamed e priced = refl
classified-IsNamed e unknown = refl
classified-IsNamed e estimated = refl
classified-IsNamed e legacy = refl

-- An entry whose columns agree, with a state.
pub record IsBilled (e : UsageEntry) : Type 0 where
  pub agreed : IsAgreed e.cost_cents e.cost_microcents
  pub named : IsNamed e.accounting

pub whole_cents-IsAgreed :
    (cents c : ℤ) (exact : Option ℤ) → whole_cents cents exact ≡ some c → IsAgreed c exact
unfolding whole_cents
whole_cents-IsAgreed cents c none h = refl
whole_cents-IsAgreed cents c (some x) h = h

pub normalize_cost-IsBilled :
    (e f : UsageEntry) → IsNamed e.accounting → normalize_cost e ≡ some f → IsBilled f
unfolding normalize_cost
normalize_cost-IsBilled e f n h =
    elim (Bool-cases (ltb_ℤ e.cost_cents (pos 0) || is_negative e.cost_microcents)) [
      | inl bad ↦ absurd (ground (arith, bad))
      | inr fine ↦ elim (Option-cases (whole_cents e.cost_cents e.cost_microcents)) [
        | inl nothing ↦ absurd (ground (arith, fine, nothing))
        | inr (c, cents) ↦
            let same : record e { cost_cents = c } ≡ f =
              some-injective (rw (fine, cents, normalize_cost) at h) in
            subst IsBilled same (record {
              agreed = whole_cents-IsAgreed e.cost_cents c e.cost_microcents cents;
              named = n;
            })
      ]
    ]

pub unstarted-IsNamed :
    (b : Bool) (e : UsageEntry)
    → IsNamed e.accounting
    → IsNamed (if b then e else unstarted e).accounting
unfolding stored_state
unstarted-IsNamed true e h = h
unstarted-IsNamed false e h = refl

pub billed_entry-IsBilled :
    (recovering : Bool) (e f : UsageEntry) (j : JournalRecord)
    → billed_entry recovering e j ≡ some f
    → IsBilled f
unfolding billed_entry
billed_entry-IsBilled recovering e f j h =
    let entry = if recovering then recovered_entry j.base else e in
    let known = record entry { accounting = classify_accounting entry } in
    normalize_cost-IsBilled (if j.started then known else unstarted known) f
      (unstarted-IsNamed j.started known (classified-IsNamed entry entry.accounting)) h

pub estimated-IsNamed :
    (b : Bool) (a : Accounting) → IsNamed a → IsNamed (if b then estimated else a)
unfolding stored_state
estimated-IsNamed true a h = refl
estimated-IsNamed false a h = h

pub settle_reservation-IsBilled :
    (started : Bool) (e : UsageEntry) (r : Option JournalReservation)
    → IsBilled e
    → IsConsistent r
    → IsBilled (settle_reservation started e r).0
unfolding settle_reservation stored_state
settle_reservation-IsBilled started e none h c = h
settle_reservation-IsBilled started e (some r) h c =
    let n = h.named in
    let a = h.agreed in
    elim (Bool-cases r.settled) [
      | inl old ↦
          rw (old, settle_reservation)
            (record { agreed = c.1; named = estimated-IsNamed _ e.accounting n })
      | inr reserved ↦ elim (Bool-cases (started && is_guessed e.accounting)) [
        | inl guessed ↦
            rw (reserved, guessed, settle_reservation) (record { agreed = c.0; named = refl })
        | inr known ↦ rw (reserved, known, settle_reservation) h
      ]
    ]
