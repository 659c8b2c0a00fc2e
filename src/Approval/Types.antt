-- ===== src/Approval/Types.antt =====
-- packages/database/src/approval-repository.ts: the rows of its two tables, its inputs and errors.
-- Identifiers, clients' idempotency keys (which are UUIDs) and the texts that are only stored are
-- numbers; a column that holds JSON is the value; an instant is its number of milliseconds.
use moshu.Common.{ℕ, Bool, Option, List}
use moshu.Common.JsMap.{JsMap}

pub data ApprovalState : Type 0 where
  pending approved rejected expired cancelled : ApprovalState

pub data DecisionKind : Type 0 where
  approve_once reject : DecisionKind

pub data DecisionSource : Type 0 where
  from_client : (client_id : ℕ) → DecisionSource
  from_policy : DecisionSource
  from_system : DecisionSource
  from_system_restart : DecisionSource

pub record Decision : Type 0 where
  pub kind : DecisionKind
  pub source : DecisionSource
  pub decided_at : ℕ

pub record ActionRisk : Type 0 where
  pub tier : ℕ
  pub overridable : Bool

-- `policyEvidence` is the revision of the policy that allowed the request.
pub record ApprovalRow : Type 0 where
  pub id : ℕ
  pub session_id : ℕ
  pub run_id : ℕ
  pub action_id : ℕ
  pub tool_call_id : ℕ
  pub action : ℕ
  pub risk : ActionRisk
  pub state : ApprovalState
  pub revision : ℕ
  pub decision_idempotency_key : Option ℕ
  pub decision : Option Decision
  pub policy_evidence : Option ℕ
  pub created_at_ms : ℕ
  pub expires_at_ms : ℕ
  pub decided_at_ms : Option ℕ

-- A key that a client gave, or the key that a restart of the server writes.
pub data IdempotencyKey : Type 0 where
  client_key : ℕ → IdempotencyKey
  system_restart : (session_id revision : ℕ) → IdempotencyKey

pub record PolicyRow : Type 0 where
  pub session_id : ℕ
  pub allow_all : Bool
  pub revision : ℕ
  pub updated_by : Option DecisionSource
  pub last_idempotency_key : Option IdempotencyKey
  pub updated_at_ms : ℕ

pub data ToolStatus : Type 0 where
  queued waiting_approval denied tool_cancelled : ToolStatus

pub data SafeError : Type 0 where
  approval_expired approval_cancelled approval_denied : SafeError

-- What is enqueued in the timeline's outbox.
pub record TimelineEntry : Type 0 where
  pub run_id : ℕ
  pub tool_call_id : ℕ
  pub status : ToolStatus
  pub approval_id : ℕ
  pub safe_error : Option SafeError
  pub created_at_ms : ℕ

-- The two tables, and what was enqueued in the two outboxes, oldest first. An attention row is named
-- by its approval.
pub record Db : Type 0 where
  pub requests : JsMap ApprovalRow
  pub policies : JsMap PolicyRow
  pub attention : List ℕ
  pub timeline : List TimelineEntry

pub record CreateInput : Type 0 where
  pub id : ℕ
  pub session_id : ℕ
  pub run_id : ℕ
  pub action_id : ℕ
  pub tool_call_id : ℕ
  pub action : ℕ
  pub risk : ActionRisk
  pub created_at_ms : ℕ
  pub expires_at_ms : ℕ
  pub policy_approval : Option ℕ

pub record DecideInput : Type 0 where
  pub approval_id : ℕ
  pub expected_revision : ℕ
  pub decision : DecisionKind
  pub idempotency_key : ℕ
  pub source : DecisionSource

pub record ApproveRequest : Type 0 where
  pub approval_id : ℕ
  pub expected_revision : ℕ

pub record UpdatePolicyInput : Type 0 where
  pub session_id : ℕ
  pub allow_all : Bool
  pub expected_revision : ℕ
  pub idempotency_key : ℕ
  pub updated_by : DecisionSource
  pub approve_request : Option ApproveRequest

pub data DecideOutcome : Type 0 where
  applied idempotent superseded : DecideOutcome

pub record DecideResult : Type 0 where
  pub outcome : DecideOutcome
  pub request : ApprovalRow

pub record UpdatePolicyResult : Type 0 where
  pub outcome : DecideOutcome
  pub policy : PolicyRow
  pub request_outcome : Option DecideOutcome
  pub request : Option ApprovalRow

-- The errors that a method throws; `constraint_failed` is the database's, on a unique index.
pub data ApprovalError : Type 0 where
  not_found : (approval_id : ℕ) → ApprovalError
  revision_conflict : (current_revision : ℕ) → ApprovalError
  policy_revision_conflict : (current_revision : ℕ) → ApprovalError
  non_overridable_risk : ApprovalError
  allow_all_cannot_approve : ApprovalError
  constraint_failed : ApprovalError
