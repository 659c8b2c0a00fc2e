-- ===== src/Journal/Reconcile.antt =====
-- apps/runtime-box/src/invocation-journal.ts: `nextReconciliationBatch` and the loop in which the Box
-- reports its evidence until the Agent Server has acknowledged everything. Whether a batch fits a frame
-- is an argument. Between the turns of the loop nothing else writes the journal.
pub mod Measure
pub mod Progress
pub mod Ends
mod Tests
use moshu.Common.{
  ℕ, zero, suc, ◌+◌, Bool, true, false, not, ◌&&◌, ◌||◌, ltb, leb, if◌then◌else◌, Option, none,
  some, List, [], ◌∷◌, ◌++◌, contains, length, map,
}
use moshu.Common.JsMap.{values}
use moshu.Journal.Types.{JournalRecord, ConsumedGrant, Journal, PersistOutcome}
use moshu.Journal.Receipts.{
  list_evidence, acknowledge, confirm_acknowledgements, Receipts, receipts, receipts_error,
}

pub record Batch : Type 0 where
  pub items : List JournalRecord
  pub acknowledged_invocation_ids : List ℕ

-- Whether a batch is within the frame's limit.
abbrev pub Fits : Type 0
Fits = List JournalRecord → List ℕ → Bool

abbrev pub is_empty {ℓ} : {A : Type ℓ} → List A → Bool
is_empty [] = true
is_empty (_ ∷ _) = false

-- The loop over the evidence; `none` where it throws.
unfoldable pub batch_items :
    Fits → List JournalRecord → List JournalRecord → Option (List JournalRecord)
batch_items fits batch [] = some batch
batch_items fits batch (evidence ∷ rest) =
    let more = batch ++ (evidence ∷ []) in
    let continued = batch_items fits more rest in
    if not (fits more [])
    then (if is_empty batch then none else some batch)
    else if leb 64 (length more)
    then some more
    else continued

-- The loop over the tombstones.
unfoldable pub batch_receipts : Fits → List JournalRecord → List ℕ → List ConsumedGrant → List ℕ
batch_receipts fits items ids [] = ids
batch_receipts fits items ids (consumed ∷ rest) =
    let more = ids ++ (consumed.invocation_id ∷ []) in
    let skipped = batch_receipts fits items ids rest in
    let continued = batch_receipts fits items more rest in
    if consumed.server_confirmed
    then skipped
    else if ltb 64 (length more) || not (fits items more)
    then ids
    else continued

unfoldable pub next_reconciliation_batch : Fits → Journal → Option Batch
unfolding batch_items batch_receipts
next_reconciliation_batch fits j = elim (batch_items fits [] (list_evidence (values j.records))) [
  | none ↦ none
  | some items ↦ some (record {
    items = items;
    acknowledged_invocation_ids = batch_receipts fits items [] (values j.consumed_grants);
  })
]

-- `assertResponseSubset`: whether it passes.
unfoldable pub is_response_subset : List ℕ → List ℕ → List ℕ → Bool
is_response_subset allowed seen [] = true
is_response_subset allowed seen (id ∷ ids) =
    let rest = is_response_subset allowed (id ∷ seen) ids in
    if not (contains id allowed) || contains id seen then false else rest

pub record Response : Type 0 where
  pub acked_invocation_ids : List ℕ
  pub confirmed_acknowledgement_ids : List ℕ

-- What a turn meets: the answer to its request, if one comes that the schema accepts, the ends of its
-- two writes, and the instant of the second.
pub record World : Type 0 where
  pub response : Batch → Option Response
  pub confirm_write : PersistOutcome
  pub acknowledge_write : PersistOutcome
  pub now : ℕ

pub data ReconcileEnd : Type 0 where
  reconciled evidence_too_large request_failed invalid_response write_failed not_acknowledged :
      ReconcileEnd

-- A turn ends the loop, by `return` or by an error, or the loop goes on.
pub data Turn : Type 0 where
  ended : Journal → ReconcileEnd → Turn
  goes_on : Journal → Turn

-- What follows each of the two calls.
abbrev pub after_acknowledged : List ℕ → Journal × Receipts → Turn
after_acknowledged confirmed_ids (j, receipts_error _) = ended j write_failed
after_acknowledged confirmed_ids (j, receipts acknowledged_ids) =
    if is_empty acknowledged_ids && is_empty confirmed_ids
    then ended j not_acknowledged
    else goes_on j

abbrev pub after_confirmed : World → Response → Journal × Receipts → Turn
after_confirmed w output (j, receipts_error _) = ended j write_failed
after_confirmed w output (j, receipts confirmed_ids) =
    after_acknowledged confirmed_ids
      (acknowledge w.now w.acknowledge_write j output.acked_invocation_ids)

unfoldable pub apply_response : World → Response → Journal → Turn
unfolding confirm_acknowledgements acknowledge
apply_response w output j =
    after_confirmed w output
      (confirm_acknowledgements w.confirm_write j output.confirmed_acknowledgement_ids)

unfoldable pub reconcile_turn : Fits → World → Journal → Turn
unfolding next_reconciliation_batch is_response_subset apply_response
reconcile_turn fits w j = elim (next_reconciliation_batch fits j) [
  | none ↦ ended j evidence_too_large
  | some batch ↦
      if is_empty batch.items && is_empty batch.acknowledged_invocation_ids
      then ended j reconciled
      else elim (w.response batch) [
        | none ↦ ended j request_failed
        | some output ↦
            if not (
                is_response_subset (map (λ (r : JournalRecord). r.invocation_id) batch.items) []
                  output.acked_invocation_ids)
              || not (
                  is_response_subset batch.acknowledged_invocation_ids []
                    output.confirmed_acknowledgement_ids)
            then ended j invalid_response
            else apply_response w output j
      ]
]

-- The loop, with fuel: `none` where the fuel does not last. Turn `n` of it meets `world n`.
unfoldable pub reconcile_invocation_journal :
    Fits → (ℕ → World) → (fuel turn : ℕ) → Journal → Option (Journal × ReconcileEnd)
unfolding reconcile_turn
reconcile_invocation_journal fits world zero turn j = none
reconcile_invocation_journal fits world (suc fuel) turn j =
    elim (reconcile_turn fits (world turn) j) [
      | ended j' e ↦ some (j', e)
      | goes_on j' ↦ reconcile_invocation_journal fits world fuel (suc turn) j'
    ]
