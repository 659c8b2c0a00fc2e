-- ===== src/Approval/Policy.antt =====
-- packages/database/src/approval-repository.ts: `updatePolicy`, which sets the policy of a session
-- and, with it, may approve one request.
use moshu.Common.{
  ℕ, ◌+◌, Bool, false, not, ◌&&◌, ◌||◌, leb, ◌==◌, if◌then◌else◌, Option, none, some,
}
use moshu.Common.JsMap.{get, set}
use moshu.Common.Result.{Result, ok, err}
use moshu.Approval.Types.{
  approved, expired, approve_once, from_policy, ApprovalRow, IdempotencyKey, client_key, PolicyRow,
  Db, ApproveRequest, UpdatePolicyInput, DecideOutcome, applied, idempotent, superseded,
  UpdatePolicyResult, ApprovalError, not_found, revision_conflict, policy_revision_conflict,
  allow_all_cannot_approve,
}
use moshu.Approval.{is_pending, has_key, write_terminal, write_keyed}

abbrev pub is_client_key : ℕ → Option IdempotencyKey → Bool
is_client_key key (some (client_key k)) = k == key
is_client_key key _ = false

-- The request that the call names, which must be one of the session.
unfoldable pub named_request :
    Db → ℕ → Option ApproveRequest → Result ApprovalError (Option ApprovalRow)
named_request db session_id none = ok none
named_request db session_id (some q) = elim (get q.approval_id db.requests) [
  | none ↦ err (not_found q.approval_id)
  | some row ↦ if row.session_id == session_id then ok (some row) else err (not_found q.approval_id)
]

abbrev pub retry_outcome : ℕ → ApprovalRow → DecideOutcome
retry_outcome key row = if has_key key row.decision_idempotency_key then idempotent else superseded

abbrev pub new_policy : ℕ → ℕ → UpdatePolicyInput → PolicyRow
new_policy now revision input = record {
  session_id = input.session_id;
  allow_all = input.allow_all;
  revision = revision + 1;
  updated_by = some input.updated_by;
  last_idempotency_key = some (client_key input.idempotency_key);
  updated_at_ms = now;
}

abbrev pub put_policy : PolicyRow → Db → Db
put_policy p db = record db { policies = set p.session_id p db.policies }

abbrev pub expects : ℕ → Option ApproveRequest → Bool
expects revision none = false
expects revision (some q) = q.expected_revision == revision

-- Why `updatePolicy` refuses to go on with the request it names.
unfoldable pub request_refusal : ℕ → UpdatePolicyInput → ApprovalRow → Option ApprovalError
request_refusal now input row =
    if not input.allow_all || not row.risk.overridable
    then some allow_all_cannot_approve
    else if is_pending row.state
        && not (leb row.expires_at_ms now)
        && not (expects row.revision input.approve_request)
    then some (revision_conflict row.revision)
    else none

abbrev pub with_policy :
    PolicyRow
    → DecideOutcome
    → Result ApprovalError (Db × ApprovalRow)
    → Result ApprovalError (Db × UpdatePolicyResult)
with_policy p outcome (ok (db, row)) = ok (
  db,
  record { outcome = applied; policy = p; request_outcome = some outcome; request = some row },
)
with_policy p outcome (err e) = err e

-- What becomes of the request once the policy is written.
unfoldable pub settle_request :
    ℕ
    → Db
    → UpdatePolicyInput
    → PolicyRow
    → Option ApprovalRow
    → Result ApprovalError (Db × UpdatePolicyResult)
unfolding write_terminal write_keyed
settle_request now db input p none =
    ok (db, record { outcome = applied; policy = p; request_outcome = none; request = none })
settle_request now db input p (some row) =
    if not (is_pending row.state)
    then with_policy p superseded (ok (db, row))
    else if leb row.expires_at_ms now
    then with_policy p superseded (ok (write_terminal db row expired now none none none))
    else with_policy p applied (
        write_keyed db row approved now
          (record { kind = approve_once; source = from_policy; decided_at = now })
          input.idempotency_key (some p.revision))

unfoldable pub refused_request : ℕ → UpdatePolicyInput → Option ApprovalRow → Option ApprovalError
unfolding request_refusal
refused_request now input none = none
refused_request now input (some row) = request_refusal now input row

unfoldable pub retried_policy :
    Db → UpdatePolicyInput → PolicyRow → Result ApprovalError (Db × UpdatePolicyResult)
unfolding named_request
retried_policy db input p = elim (named_request db input.session_id input.approve_request) [
  | err e ↦ err e
  | ok request ↦ ok (
    db,
    record {
      outcome = idempotent;
      policy = p;
      request_outcome = elim request [
        | none ↦ none
        | some row ↦ some (retry_outcome input.idempotency_key row)
      ];
      request = request;
    },
  )
]

unfoldable pub write_policy :
    ℕ → Db → UpdatePolicyInput → ℕ → Result ApprovalError (Db × UpdatePolicyResult)
unfolding named_request refused_request settle_request
write_policy now db input revision =
    if not (input.expected_revision == revision)
    then err (policy_revision_conflict revision)
    else elim (named_request db input.session_id input.approve_request) [
      | err e ↦ err e
      | ok request ↦ elim (refused_request now input request) [
        | some e ↦ err e
        | none ↦
            let p = new_policy now revision input in
            settle_request now (put_policy p db) input p request
      ]
    ]

unfoldable pub update_policy :
    ℕ → Db → UpdatePolicyInput → Result ApprovalError (Db × UpdatePolicyResult)
unfolding retried_policy write_policy
update_policy now db input = elim (get input.session_id db.policies) [
  | none ↦ write_policy now db input 0
  | some p ↦
      if is_client_key input.idempotency_key p.last_idempotency_key
      then retried_policy db input p
      else write_policy now db input p.revision
]
