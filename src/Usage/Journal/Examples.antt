-- ===== src/Usage/Journal/Examples.antt =====
-- A request of unknown cost, for `FinalizeUsage` of internal/store/accounting.go.
use gatemux.Common.{◌≡◌, refl, true, false, none, some, [], ◌∷◌, pos, ok}
use gatemux.Cost.Microcents.{ceil_cents, effective_microcents}
use gatemux.Usage.Journal.{
  whole_cents, blank, estimated, UsageEntry, Cost, Receipt, Books, finalize_journal,
}
use gatemux.Usage.Journal.Again.{later, finalize_journal-again}

abbrev entry : UsageEntry
entry = record {
  team_id = pos 3;
  status_code = pos 200;
  cached = false;
  has_unpriced = false;
  cost_cents = pos 0;
  cost_microcents = none;
  accounting = blank;
}

abbrev reserved : Books
reserved = record {
  record_of = record { base = entry; started = true; usage_id = none; complete = false };
  reservation = some (record {
    estimated_cents = pos 2;
    estimated_microcents = some (pos 1500000);
    settled_cents = pos 0;
    settled_microcents = none;
    settled = false;
  });
  usage_log = [];
}

abbrev charged : Cost
charged = record { cents = pos 2; microcents = some (pos 1500000); state = estimated }

-- The recovery charges the estimate.
abbrev after : Books
after = record {
  record_of = record { base = entry; started = true; usage_id = some 0; complete = true };
  reservation = some (record {
    estimated_cents = pos 2;
    estimated_microcents = some (pos 1500000);
    settled_cents = pos 2;
    settled_microcents = some (pos 1500000);
    settled = true;
  });
  usage_log = charged ∷ [];
}

abbrev receipt : Receipt
receipt = record { id = 0; cents = pos 2; microcents = pos 1500000; state = estimated }

recovered : finalize_journal true entry reserved ≡ ok (receipt, after)
unfolding finalize_journal whole_cents ceil_cents effective_microcents
recovered = refl

finalize_journal-again_example :
    finalize_journal false entry (later (charged ∷ []) after)
    ≡ ok (receipt, later (charged ∷ []) after)
finalize_journal-again_example =
    finalize_journal-again true entry entry reserved after receipt (charged ∷ [])
      (unfold whole_cents ceil_cents in refl, unfold whole_cents in refl) recovered refl
