-- ===== src/ApprovalService/Tests.antt =====
-- The gate on concrete calls: an action waits, and a client approves it.
use moshu.Approval.Policy.{update_policy}
use moshu.Approval.Sessions.{get_policy, recover_on_startup}
use moshu.Common.{◌≡◌, refl, true, false, none, some, List, [], ◌∷◌}
use moshu.Common.JsMap.{map_values, get, set, find, keep, values}
use moshu.Approval.Types.{
  pending, approved, approve_once, from_client, ApprovalRow, Db, DecideInput, UpdatePolicyInput,
}
use moshu.Approval.{create, has_key, decide}
use moshu.ApprovalService.{Service, GateRequest, live_signal, Settlement}
use moshu.ApprovalService.Gate.{
  ServiceCall, require_call, decision_call, policy_call, restart_call, serve_all, told, new_service,
}

abbrev critical : GateRequest
critical = record {
  run_id = 9;
  action_id = 70;
  tool_call_id = 5;
  action = 0;
  risk = record { tier = 3; overridable = false };
}

abbrev harmless : GateRequest
harmless = record {
  run_id = 9;
  action_id = 71;
  tool_call_id = 6;
  action = 0;
  risk = record { tier = 1; overridable = true };
}

abbrev approval : DecideInput
approval = record {
  approval_id = 1;
  expected_revision = 1;
  decision = approve_once;
  idempotency_key = 40;
  source = from_client 3;
}

-- The process restarts, an action asks for approval, and later it is decided.
abbrev asked : List ServiceCall
asked = restart_call 5 ∷ require_call 10 1 (some 8) critical live_signal ∷ []

abbrev answered : List ServiceCall
answered =
    restart_call 5
    ∷ require_call 10 1 (some 8) critical live_signal
    ∷ decision_call 20 approval
    ∷ []

abbrev go : Settlement
go = record { approval_id = 1; state = approved }

answered_told : told answered (new_service 100) ≡ go ∷ []
unfolding told create get_policy get recover_on_startup map_values values keep find decide set
    has_key
answered_told = refl

asked_waits :
    get 1 (serve_all asked (new_service 100)).waiters
    ≡ some (record { session_id = 8; has_signal = true })
unfolding serve_all get create get_policy recover_on_startup map_values values keep find set
asked_waits = refl

abbrev waiting_service : Service
waiting_service = serve_all asked (new_service 100)

abbrev pending_row : ApprovalRow
pending_row = record {
  id = 1;
  session_id = 8;
  run_id = 9;
  action_id = 70;
  tool_call_id = 5;
  action = 0;
  risk = critical.risk;
  state = pending;
  revision = 1;
  decision_idempotency_key = none;
  decision = none;
  policy_evidence = none;
  created_at_ms = 10;
  expires_at_ms = 110;
  decided_at_ms = none;
}

abbrev approved_row : ApprovalRow
approved_row = record pending_row {
  state = approved;
  revision = 2;
  decision_idempotency_key = some 40;
  decision = some (record { kind = approve_once; source = from_client 3; decided_at = 20 });
  decided_at_ms = some 20;
}

abbrev waiting_db : Db
waiting_db = waiting_service.approvals

abbrev decided_db : Db
decided_db = record waiting_db { requests = (1, approved_row) ∷ [] }

-- A repeated change of the policy that names a request which is still pending: the action that waits
-- for it is refused, and the request stays pending.
abbrev allow_all : UpdatePolicyInput
allow_all = record {
  session_id = 8;
  allow_all = true;
  expected_revision = 0;
  idempotency_key = 50;
  updated_by = from_client 3;
  approve_request = none;
}

abbrev repeated : UpdatePolicyInput
repeated = record allow_all {
  approve_request = some (record { approval_id = 1; expected_revision = 1 });
}

refused_while_pending :
    told
      (require_call 10 1 (some 8) critical live_signal
        ∷ policy_call 20 allow_all
        ∷ policy_call 30 repeated
        ∷ [])
      (new_service 100)
    ≡ record { approval_id = 1; state = pending } ∷ []
unfolding told create get_policy get find update_policy set
refused_while_pending = refl
