-- ===== src/Usage/Logger/Known.antt =====
-- What the checkpoints show of each intent: `reconcile` of internal/usage/logger.go.
use gatemux.Common.{
  ℕ, zero, suc, ◌≤◌, ◌<◌, ◌≡◌, Bool, true, false, ◌&&◌, Option, none, some, List, [], ◌∷◌, All, ltb,
  leb, if◌then◌else◌, arith,
}
use gatemux.Usage.Logger.{
  Intent, Place, waiting, reconciled, loaded, answered, failing, Logger, cutoff_of, is_pending,
  update_intent, mark_settled,
}

-- Whether the completion of an intent had failed by an epoch.
abbrev pub failed_by : ℕ → Intent → Bool
failed_by epoch x = ltb 0 x.counted && leb x.counted epoch

-- An intent that had failed by an epoch is no longer pending.
abbrev pub IsSettled : ℕ → Intent → Type 0
IsSettled epoch x = (failed_by epoch x && x.pending) ≡ false

-- An intent that had failed by an epoch is as old as a watermark.
abbrev pub IsBefore : ℕ → ℕ → Intent → Type 0
IsBefore epoch cutoff x = (if failed_by epoch x then x.created_at else 0) ≤ cutoff

abbrev pub IsCovered : ℕ → Option ℕ → Intent → Type 0
IsCovered epoch none x = Unit
IsCovered epoch (some cutoff) x = IsBefore epoch cutoff x

abbrev pub IsSeen : ℕ → Place → Intent → Type 0
IsSeen observed waiting x = Unit
IsSeen observed reconciled x = Unit
IsSeen observed (loaded epoch) x = Unit
IsSeen observed (answered epoch cutoff true) x = IsBefore epoch cutoff x
IsSeen observed (answered epoch cutoff false) x = IsBefore epoch cutoff x × IsSettled epoch x
IsSeen observed failing x = Unit

-- The epoch that the worker holds.
abbrev pub epoch_of : ℕ → Place → ℕ
epoch_of observed (loaded epoch) = epoch
epoch_of observed (answered epoch cutoff pending) = epoch
epoch_of observed _ = observed

pub record IsKnown (l : Logger) (x : Intent) : Type 0 where
  pub created : x.created_at ≤ l.clock
  pub counted : x.counted ≤ l.failures
  pub healthy : IsSettled l.healthy x
  pub watermark : IsCovered l.observed l.cutoff x
  pub seen : IsSeen l.observed l.worker x

pub record IsSound (k : ℕ) (l : Logger) : Type 0 where
  pub intents : All (IsKnown l) l.journal
  pub few : l.failures ≤ k
  pub healthy_le : l.healthy ≤ l.failures
  pub observed_le : l.observed ≤ l.failures
  pub epoch_eq : epoch_of l.observed l.worker ≡ l.observed

pub All-every :
    {P Q : Intent → Type 0} → (xs : List Intent) → ((x : Intent) → P x → Q x) → All P xs → All Q xs
All-every [] f h = tt
All-every (x ∷ xs) f h = (f x h.0, All-every xs f h.1)

pub All-update_intent :
    {P Q : Intent → Type 0}
    → (i : ℕ) (f : Intent → Intent) (xs : List Intent) → ((x : Intent) → P x → Q x)
    → ((x : Intent) → P x → Q (f x))
    → All P xs
    → All Q (update_intent i f xs)
unfolding update_intent
All-update_intent i f [] g h a = tt
All-update_intent zero f (x ∷ xs) g h a = (h x a.0, All-every xs g a.1)
All-update_intent (suc i) f (x ∷ xs) g h a = (g x a.0, All-update_intent i f xs g h a.1)

-- Nothing as old as a watermark is pending when the query says so.
pub All-is_pending :
    (epoch cutoff : ℕ) (xs : List Intent)
    → All (IsBefore epoch cutoff) xs
    → is_pending cutoff xs ≡ false
    → All (IsSettled epoch) xs
unfolding is_pending
All-is_pending epoch cutoff [] b h = tt
All-is_pending epoch cutoff (x ∷ xs) b h =
    let here = b.0 in (ground arith, All-is_pending epoch cutoff xs b.1 (ground arith))

pub cutoff_of-IsBefore :
    (e clock : ℕ) (c : Option ℕ) (x : Intent)
    → x.created_at ≤ clock
    → IsCovered e c x
    → IsBefore e (cutoff_of clock c) x
cutoff_of-IsBefore e clock none x h k = ground arith
cutoff_of-IsBefore e clock (some c) x h k = k

-- What a later failure leaves to show of an intent.
pub IsCovered-later : (e : ℕ) (c : Option ℕ) (x : Intent) → e < x.counted → IsCovered e c x
IsCovered-later e none x h = tt
IsCovered-later e (some c) x h = ground arith

pub IsSeen-later : (o : ℕ) (w : Place) (x : Intent) → epoch_of o w < x.counted → IsSeen o w x
IsSeen-later o waiting x h = tt
IsSeen-later o reconciled x h = tt
IsSeen-later o (loaded e) x h = tt
IsSeen-later o (answered e c true) x h = ground arith
IsSeen-later o (answered e c false) x h = (ground arith, ground arith)
IsSeen-later o failing x h = tt

pub IsCovered-mark_settled :
    (e : ℕ) (c : Option ℕ) (x : Intent) → IsCovered e c x → IsCovered e c (mark_settled x)
IsCovered-mark_settled e none x h = tt
IsCovered-mark_settled e (some c) x h = h

pub IsSeen-mark_settled :
    (o : ℕ) (w : Place) (x : Intent) → IsSeen o w x → IsSeen o w (mark_settled x)
IsSeen-mark_settled o waiting x h = tt
IsSeen-mark_settled o reconciled x h = tt
IsSeen-mark_settled o (loaded e) x h = tt
IsSeen-mark_settled o (answered e c true) x h = h
IsSeen-mark_settled o (answered e c false) x h = (h.0, ground arith)
IsSeen-mark_settled o failing x h = tt

pub IsCovered-new :
    (e : ℕ) (c : Option ℕ) (clock : ℕ)
    → IsCovered e c (record { created_at = clock; pending = true; counted = 0 })
IsCovered-new e none clock = tt
IsCovered-new e (some c) clock = ground arith

pub IsSeen-new :
    (o : ℕ) (w : Place) (clock : ℕ)
    → IsSeen o w (record { created_at = clock; pending = true; counted = 0 })
IsSeen-new o waiting clock = tt
IsSeen-new o reconciled clock = tt
IsSeen-new o (loaded e) clock = tt
IsSeen-new o (answered e c true) clock = ground arith
IsSeen-new o (answered e c false) clock = (ground arith, ground arith)
IsSeen-new o failing clock = tt
