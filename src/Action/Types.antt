-- ===== src/Action/Types.antt =====
-- packages/database/src/action-repository.ts: the rows of its two tables, its inputs and errors.
-- Identifiers and the texts that are only stored and compared are numbers; a result is its number
-- together with what is read of it; an instant is its number of milliseconds.
use moshu.Common.{ℕ, Option, List}
use moshu.Common.JsMap.{JsMap}
use moshu.Common.Text.{Text}

pub data ActionState : Type 0 where
  granted running succeeded failed cancelled outcome_unknown : ActionState

pub data TargetKind : Type 0 where
  agent_server runtime_box : TargetKind

-- What should be a SHA-256 digest in hexadecimal.
pub data HashText : Type 0 where
  digest : ℕ → HashText
  malformed : HashText

-- `RuntimeBoxActionResult`; `tool` is its name, of an MCP tool with the server.
pub record ActionResult : Type 0 where
  pub invocation_id : ℕ
  pub tool : ℕ
  pub content : ℕ

pub record ActionRow : Type 0 where
  pub id : ℕ
  pub invocation_id : ℕ
  pub target_kind : TargetKind
  pub target_id : ℕ
  pub run_id : ℕ
  pub tool_call_id : ℕ
  pub tool : ℕ
  pub parameter_digest : ℕ
  pub origin_instance_id : ℕ
  pub origin_generation : ℕ
  pub target_instance_id : ℕ
  pub target_generation : ℕ
  pub state : ActionState
  pub result : Option ActionResult
  pub result_hash : Option ℕ
  pub safe_error : Option Text
  pub created_at_ms : ℕ
  pub updated_at_ms : ℕ
  pub completed_at_ms : Option ℕ
  pub server_acked_at_ms : Option ℕ
  pub box_receipt_confirmed_at_ms : Option ℕ

pub record GrantRow : Type 0 where
  pub id : ℕ
  pub action_id : ℕ
  pub token_hash : ℕ
  pub parameter_digest : ℕ
  pub expires_at_ms : ℕ
  pub created_at_ms : ℕ
  pub consumed_at_ms : Option ℕ

pub data ToolStatus : Type 0 where
  tool_running tool_completed tool_failed tool_cancelled tool_outcome_unknown : ToolStatus

-- What is enqueued in the timeline's outbox.
pub record TimelineEntry : Type 0 where
  pub run_id : ℕ
  pub tool_call_id : ℕ
  pub status : ToolStatus
  pub safe_error : Option Text
  pub public_output : Option ℕ
  pub created_at_ms : ℕ

-- The actions stand under their invocation, the grants under their action: both are unique indexes.
pub record Db : Type 0 where
  pub actions : JsMap ActionRow
  pub grants : JsMap GrantRow
  pub timeline : List TimelineEntry

-- The classes of risk, the rule and the scope of an action are only stored, and are left out here.
pub record CreateGrantInput : Type 0 where
  pub action_id : ℕ
  pub grant_id : ℕ
  pub grant_token_hash : HashText
  pub invocation_id : ℕ
  pub target_kind : TargetKind
  pub target_id : ℕ
  pub run_id : ℕ
  pub tool_call_id : ℕ
  pub tool : ℕ
  pub parameter_digest : ℕ
  pub origin_instance_id : ℕ
  pub origin_generation : ℕ
  pub target_instance_id : ℕ
  pub target_generation : ℕ
  pub expires_at_ms : ℕ

-- The states that a Box reports.
pub data EvidenceState : Type 0 where
  box_succeeded box_failed box_cancelled box_outcome_unknown : EvidenceState

pub record Evidence : Type 0 where
  pub invocation_id : ℕ
  pub action_id : ℕ
  pub grant_id : ℕ
  pub parameter_digest : ℕ
  pub origin_instance_id : ℕ
  pub origin_generation : ℕ
  pub target_runtime_box_id : ℕ
  pub target_instance_id : ℕ
  pub target_generation : ℕ
  pub state : EvidenceState
  pub result : Option ActionResult
  pub safe_error : Option Text
  pub completed_at : ℕ

-- The errors that a method throws, by their message; `constraint_failed` is the database's.
pub data ActionError : Type 0 where
  expiry_not_in_future malformed_hash constraint_failed : ActionError
  grant_rejected not_awaiting_execution grant_not_consumed : ActionError
  action_not_found intent_mismatch grant_mismatch result_mismatch : ActionError
  conflicting_evidence not_awaiting_result not_completed : ActionError
  receipt_mismatch receipt_before_acknowledgement : ActionError
