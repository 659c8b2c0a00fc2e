-- ===== src/Journal/Reconcile/Ends.antt =====
-- Each turn of the loop leaves less to report, so that the loop ends.
use moshu.Common.{◌≤◌, ◌<◌, ◌≡◌, ◌⊎◌, true, map, All}
use moshu.Common.JsMap.{has, values}
use moshu.Journal.Types.{JournalRecord, Journal}
use moshu.Journal.Receipts.{Receipts, receipts, receipts_error}
use moshu.Journal.Reconcile.{Batch, Turn, ended, goes_on, is_empty}
use moshu.Journal.Reconcile.Measure.{measure, is_awaited}
use moshu.Journal.Reconcile.Progress.{IsKeyedById}

-- What a call that returns leaves of the journal.
IsProgress : Journal → Journal × Receipts → Type 0
IsProgress j (j', receipts_error _) = Unit
IsProgress j (j', receipts ids) =
    IsKeyedById j'.records
    × (measure j' ≤ measure j)
    × ((is_empty ids ≡ true) ⊎ (measure j' < measure j))

IsConfirmed : Journal → Journal × Receipts → Type 0
IsConfirmed j (j', receipts_error e) = Unit
IsConfirmed j (j', receipts ids) = (j'.records ≡ j.records) × IsProgress j (j', receipts ids)

-- What holds of the journal with which the loop goes on.
IfGoes : (Journal → Type 0) → Turn → Type 0
IfGoes P (ended _ _) = Unit
IfGoes P (goes_on j) = P j

IsLess : Journal → Journal → Type 0
IsLess j j' = IsKeyedById j'.records × (measure j' < measure j)

-- The batch names records and tombstones that are there.
IsAskable : Journal → Batch → Type 0
IsAskable j b =
    All (λ id. has id j.records ≡ true) (map (λ (r : JournalRecord). r.invocation_id) b.items)
    × All (λ id. is_awaited id (values j.consumed_grants) ≡ true) b.acknowledged_invocation_ids
