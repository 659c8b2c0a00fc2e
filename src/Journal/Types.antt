-- ===== src/Journal/Types.antt =====
-- apps/runtime-box/src/invocation-journal.ts: the records of the journal, the grant that comes with
-- a call, and the errors. Identifiers, digests and results are only compared and stored, so they are
-- numbers; an instant is its number of milliseconds. The schemas' JSON text is not modelled: a file
-- is the value that it parses to.
use moshu.Common.{ℕ, Bool, Option, List}
use moshu.Common.JsMap.{JsMap}
use moshu.Common.Text.{Text}

abbrev pub max_invocation_journal_records : ℕ
max_invocation_journal_records = 1024

abbrev pub max_consumed_grant_tombstones : ℕ
max_consumed_grant_tombstones = 4096

pub data InvocationState : Type 0 where
  prepared running succeeded failed cancelled outcome_unknown : InvocationState

pub data ExecutionScope : Type 0 where
  request_cwd runtime_box_workspace project_root : ExecutionScope

-- `RuntimeBoxToolDeployment | "runtime-box-workspace"`
pub data Deployment : Type 0 where
  on_local : (trusted_request_cwd : Bool) → Deployment
  on_remote : (workspace_path : Text) → Deployment
  mcp_workspace : Deployment

pub record Authorization : Type 0 where
  pub action_id : ℕ
  pub grant_id : ℕ
  pub grant_token : ℕ
  pub parameter_digest : ℕ
  pub origin_instance_id : ℕ
  pub origin_generation : ℕ
  pub target_runtime_box_id : ℕ
  pub target_instance_id : ℕ
  pub target_generation : ℕ
  pub execution_scope : ExecutionScope
  pub project_path_revision : ℕ
  pub expires_at : ℕ

-- What is left of the input without the grant: a built-in tool call or a call of an MCP tool.
pub data Parameters : Type 0 where
  executor_call : ℕ → Parameters
  mcp_call : ℕ → Parameters

pub record InvokeInput : Type 0 where
  pub invocation_id : ℕ
  pub parameters : Parameters
  pub authorization : Option Authorization

-- The texts that are hashed, before `JSON.stringify`. The revision of the project's path is part of
-- the payload under the scope `project-root` alone, and an MCP payload names no scope.
pub data Payload : Type 0 where
  executor_payload : ℕ → ℕ → ExecutionScope → Option ℕ → Payload
  mcp_payload : ℕ → ℕ → Payload
  token : ℕ → Payload

pub record JournalRecord : Type 0 where
  pub invocation_id : ℕ
  pub action_id : ℕ
  pub grant_id : ℕ
  pub grant_token_hash : ℕ
  pub parameter_digest : ℕ
  pub origin_instance_id : ℕ
  pub origin_generation : ℕ
  pub target_runtime_box_id : ℕ
  pub target_instance_id : ℕ
  pub target_generation : ℕ
  pub execution_scope : ExecutionScope
  pub grant_expires_at : ℕ
  pub state : InvocationState
  pub result : Option ℕ
  pub safe_error : Option Text
  pub started_at : ℕ
  pub completed_at : Option ℕ

pub record ConsumedGrant : Type 0 where
  pub grant_id : ℕ
  pub invocation_id : ℕ
  pub parameter_digest : ℕ
  pub expires_at : ℕ
  pub server_confirmed : Bool

pub record JournalFile : Type 0 where
  pub records : List JournalRecord
  pub consumed_grants : List ConsumedGrant

-- The two maps in memory, and the file on disk.
pub record Journal : Type 0 where
  pub records : JsMap JournalRecord
  pub consumed_grants : JsMap ConsumedGrant
  pub file : Option JournalFile

-- `InvocationGrantRejectedError`, by its message.
pub data Rejection : Type 0 where
  missing_grant origin_mismatch target_mismatch grant_expired digest_mismatch : Rejection
  scope_incompatible grant_consumed grant_used not_replayable journal_full not_running : Rejection

-- How an attempt to write the file ends: it is written, or it throws before or after the rename.
pub data PersistOutcome : Type 0 where
  written thrown_before_rename thrown_after_rename : PersistOutcome

-- `InvocationJournalPersistenceError` with its field `committed`.
pub data Persisted : Type 0 where
  persisted : Persisted
  persistence_error : (committed : Bool) → Persisted

-- How `begin` ends: the caller executes the call, or answers with a stored result, or an error is
-- thrown.
pub data Begun : Type 0 where
  execute : Begun
  replay_result : ℕ → Begun
  rejected : Rejection → Begun
  prepare_failed : Begun
  prepare_uncertain : Begun

-- How `succeed`, `fail`, `cancel` and `outcomeUnknown` end.
pub data Finished : Type 0 where
  finished : Finished
  finish_rejected : Rejection → Finished
  result_invalid : Finished
  finish_error : (committed : Bool) → Finished
