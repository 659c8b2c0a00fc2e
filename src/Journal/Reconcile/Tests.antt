-- ===== src/Journal/Reconcile/Tests.antt =====
-- The loop on one journal, with servers that answer differently.
use moshu.Journal.{prune_expired_grant_tombstones}
use moshu.Common.{ℕ, ◌≡◌, refl, false, ltb, Option, none, some, [], ◌∷◌, map, length}
use moshu.Common.JsMap.{size, get, set, delete, keep, values, map_values}
use moshu.Journal.Types.{
  JournalRecord, ConsumedGrant, Journal, succeeded, runtime_box_workspace, written,
}
use moshu.Journal.Receipts.{list_evidence, acknowledge_one}
use moshu.Journal.Reconcile.{
  Fits, Batch, Response, World, ReconcileEnd, reconciled, evidence_too_large, not_acknowledged,
  invalid_response, reconcile_invocation_journal,
}

abbrev done_record : JournalRecord
done_record = record {
  invocation_id = 7;
  action_id = 70;
  grant_id = 6;
  grant_token_hash = 0;
  parameter_digest = 0;
  origin_instance_id = 11;
  origin_generation = 3;
  target_runtime_box_id = 2;
  target_instance_id = 22;
  target_generation = 5;
  execution_scope = runtime_box_workspace;
  grant_expires_at = 100;
  state = succeeded;
  result = some 1;
  safe_error = none;
  started_at = 2;
  completed_at = some 3;
}

abbrev other : ConsumedGrant
other = record {
  grant_id = 4;
  invocation_id = 5;
  parameter_digest = 0;
  expires_at = 100;
  server_confirmed = false;
}

abbrev journal : Journal
journal = record { records = (7, done_record) ∷ []; consumed_grants = (4, other) ∷ []; file = none }

abbrev small : Fits
small items ids = ltb (length items) 3

abbrev answering : (Batch → Option Response) → ℕ → World
answering f turn = record {
  response = f;
  confirm_write = written;
  acknowledge_write = written;
  now = 10;
}

-- Acknowledges and confirms all that it is asked.
abbrev willing : Batch → Option Response
willing b = some (record {
  acked_invocation_ids = map (λ (r : JournalRecord). r.invocation_id) b.items;
  confirmed_acknowledgement_ids = b.acknowledged_invocation_ids;
})

abbrev silent : Batch → Option Response
silent b = some (record { acked_invocation_ids = []; confirmed_acknowledgement_ids = [] })

abbrev wrong : Batch → Option Response
wrong b = some (record { acked_invocation_ids = 8 ∷ []; confirmed_acknowledgement_ids = [] })

abbrev end_of : Option (Journal × ReconcileEnd) → Option ReconcileEnd
end_of none = none
end_of (some (j, e)) = some e

willing_server :
    end_of (reconcile_invocation_journal small (answering willing) 4 0 journal) ≡ some reconciled
unfolding reconcile_invocation_journal list_evidence values acknowledge_one get
    prune_expired_grant_tombstones keep map_values size delete set
willing_server = refl

silent_server :
    end_of (reconcile_invocation_journal small (answering silent) 4 0 journal)
    ≡ some not_acknowledged
unfolding reconcile_invocation_journal list_evidence values
silent_server = refl

wrong_server :
    end_of (reconcile_invocation_journal small (answering wrong) 4 0 journal)
    ≡ some invalid_response
unfolding reconcile_invocation_journal list_evidence values
wrong_server = refl

large_evidence :
    end_of (reconcile_invocation_journal (λ items ids. false) (answering willing) 4 0 journal)
    ≡ some evidence_too_large
unfolding reconcile_invocation_journal list_evidence values
large_evidence = refl
