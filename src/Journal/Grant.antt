-- ===== src/Journal/Grant.antt =====
-- apps/runtime-box/src/invocation-journal.ts: the checks of `begin` that read the call and its grant
-- alone. SHA-256 is `node:crypto`'s: an argument of the functions that hash.
use moshu.Common.{ℕ, Bool, true, false, ◌&&◌, ltb, ◌==◌, Option, none, some, length}
use moshu.Common.Result.{Result, ok, ◌>>=◌, ◌>>◌, require, or_throw}
use moshu.Peer.{PeerRole, agents, runtime_box, PeerIdentity}
use moshu.Journal.Types.{
  ExecutionScope, request_cwd, runtime_box_workspace, project_root, Deployment, on_local, on_remote,
  mcp_workspace, Authorization, executor_call, mcp_call, Parameters, InvokeInput, Payload,
  executor_payload, mcp_payload, Rejection, missing_grant, origin_mismatch, target_mismatch,
  grant_expired, digest_mismatch, scope_incompatible,
}

abbrev pub is_agents : PeerRole → Bool
is_agents agents = true
is_agents _ = false

abbrev pub is_runtime_box : PeerRole → Bool
is_runtime_box runtime_box = true
is_runtime_box _ = false

abbrev pub scope_revision : ExecutionScope → ℕ → Option ℕ
scope_revision project_root revision = some revision
scope_revision _ revision = none

-- `createExecutorToolParameterPayload` and `createMcpToolParameterPayload`
abbrev pub payload_of : ℕ → Parameters → Authorization → Payload
payload_of invocation (executor_call p) a =
    executor_payload invocation p a.execution_scope
      (scope_revision a.execution_scope a.project_path_revision)
payload_of invocation (mcp_call p) a = mcp_payload invocation p

unfoldable pub is_compatible : ExecutionScope → Deployment → Bool
is_compatible runtime_box_workspace mcp_workspace = true
is_compatible _ mcp_workspace = false
is_compatible project_root (on_local trusted) = true
is_compatible project_root (on_remote path) = true
is_compatible request_cwd (on_local trusted) = trusted
is_compatible request_cwd (on_remote path) = false
is_compatible runtime_box_workspace (on_local trusted) = false
is_compatible runtime_box_workspace (on_remote path) = ltb 0 (length path)

unfoldable pub origin_matches : Authorization → PeerIdentity → Bool
origin_matches a authority =
    is_agents authority.role
    && a.origin_instance_id == authority.instance_id
    && a.origin_generation == authority.generation

unfoldable pub target_matches : Authorization → PeerIdentity → Bool
target_matches a target =
    is_runtime_box target.role
    && a.target_runtime_box_id == target.peer_id
    && a.target_instance_id == target.instance_id
    && a.target_generation == target.generation

unfoldable pub authorize :
    (Payload → ℕ)
    → ℕ
    → InvokeInput
    → PeerIdentity
    → PeerIdentity
    → Deployment
    → Result Rejection Authorization
authorize sha256 now input authority target deployment = do
  a ← or_throw input.authorization missing_grant
  require (origin_matches a authority) origin_mismatch
  require (target_matches a target) target_mismatch
  require (ltb now a.expires_at) grant_expired
  require (sha256 (payload_of input.invocation_id input.parameters a) == a.parameter_digest)
      digest_mismatch
  require (is_compatible a.execution_scope deployment) scope_incompatible
  ok a
