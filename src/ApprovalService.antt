-- ===== src/ApprovalService.antt =====
-- apps/agents-server/src/approval-service.ts: the gate that lets an action through once a person or a
-- policy has approved it. A call is one step, since the service awaits nothing but the waiters. What
-- the run journal knows of a run is an argument, as is the new identifier; what goes to the listeners
-- of the timeline is left out.
pub mod Answers
pub mod PolicyAnswers
pub mod Served
pub mod Calls
pub mod Requests
pub mod Sweeps
pub mod Gate
mod Tests
use moshu.Common.{
  ℕ, ◌+◌, Bool, true, false, not, ◌&&◌, ◌==◌, if◌then◌else◌, Option, none, some, is_some, List, [],
  ◌∷◌, ◌++◌, length,
}
use moshu.Common.JsMap.{JsMap, get, has, set, delete, keep}
use moshu.Common.Result.{Result, ok, err}
use moshu.Approval.Types.{
  ApprovalState, pending, approved, ActionRisk, ApprovalRow, PolicyRow, Db, CreateInput,
  DecideInput, UpdatePolicyInput, from_system, ApprovalError, DecideOutcome, applied,
}
use moshu.Approval.{create, decide, cancel, is_pending}
use moshu.Approval.Sessions.{
  expire_due, expired_rows, recover_on_startup, reset_for_session, get_policy,
}
use moshu.Approval.Policy.{update_policy}

-- Of a waiter's promise, what settles it is in the reply of the step that does.
pub record Waiter : Type 0 where
  pub session_id : ℕ
  pub has_signal : Bool

pub record Service : Type 0 where
  pub approvals : Db
  pub waiters : JsMap Waiter
  pub expiry_ms : ℕ

pub record GateRequest : Type 0 where
  pub run_id : ℕ
  pub action_id : ℕ
  pub tool_call_id : ℕ
  pub action : ℕ
  pub risk : ActionRisk

pub data Signal : Type 0 where
  no_signal live_signal aborted_signal : Signal

pub data ServiceEvent : Type 0 where
  approval_created approval_updated : ApprovalRow → ServiceEvent
  policy_changed : PolicyRow → ServiceEvent

pub data ServiceError : Type 0 where
  run_unavailable : (run_id : ℕ) → ServiceError
  repository_error : ApprovalError → ServiceError

-- How the promise of one action ends: the action goes on if its request is `approved`, and is refused
-- in any other state.
pub record Settlement : Type 0 where
  pub approval_id : ℕ
  pub state : ApprovalState

pub record Reply : Type 0 where
  pub service : Service
  pub settled : List Settlement
  pub events : List ServiceEvent
  pub error : Option ServiceError

abbrev pub failed : Service → ServiceError → Reply
failed s e = record { service = s; settled = []; events = []; error = some e }

abbrev pub settlement : ApprovalRow → Settlement
settlement row = record { approval_id = row.id; state = row.state }

-- `#settleWaiter`: whether there was a waiter.
unfoldable pub settle_waiter : ApprovalRow → JsMap Waiter → JsMap Waiter × List Settlement
settle_waiter row waiters =
    if has row.id waiters then (delete row.id waiters, settlement row ∷ []) else (waiters, [])

-- The cancellation of a request whose action is aborted.
unfoldable pub cancel_aborted : ℕ → ℕ → Service → List ServiceEvent → Reply
cancel_aborted now id s events = elim (cancel now s.approvals id from_system) [
  | err e ↦ record { service = s; settled = []; events = events; error = some (repository_error e) }
  | ok (db, row) ↦ record {
    service = record s { approvals = db };
    settled = settlement row ∷ [];
    events = events ++ (approval_updated row ∷ []);
    error = none;
  }
]

abbrev pub gate_input : ℕ → ℕ → ℕ → GateRequest → Service → CreateInput
gate_input now id session_id request s =
    let policy = get_policy now s.approvals session_id in
    record {
      id = id;
      session_id = session_id;
      run_id = request.run_id;
      action_id = request.action_id;
      tool_call_id = request.tool_call_id;
      action = request.action;
      risk = request.risk;
      created_at_ms = now;
      expires_at_ms = now + s.expiry_ms;
      policy_approval =
          if policy.allow_all && request.risk.overridable then some policy.revision else none;
    }

-- `requireApproval` once the request is on record.
unfoldable pub await_decision : ℕ → Signal → ApprovalRow → Service → Reply
unfolding cancel_aborted
await_decision now signal row s =
    let created = approval_created row ∷ [] in
    let wait : Bool → Reply = λ has_signal. record {
      service = record s {
        waiters =
            set row.id (record { session_id = row.session_id; has_signal = has_signal }) s.waiters;
      };
      settled = [];
      events = created;
      error = none;
    } in
    if not (is_pending row.state)
    then record { service = s; settled = settlement row ∷ []; events = created; error = none }
    else elim signal [
      | no_signal ↦ wait false
      | live_signal ↦ wait true
      | aborted_signal ↦ cancel_aborted now row.id s created
    ]

unfoldable pub require_approval : ℕ → ℕ → Option ℕ → GateRequest → Signal → Service → Reply
unfolding await_decision
require_approval now id run_session request signal s = elim run_session [
  | none ↦ failed s (run_unavailable request.run_id)
  | some session_id ↦ elim (create s.approvals (gate_input now id session_id request s)) [
    | err e ↦ failed s (repository_error e)
    | ok (db, row) ↦ await_decision now signal row (record s { approvals = db })
  ]
]

-- The signal of a waiter's action fires.
unfoldable pub on_abort : ℕ → ℕ → Service → Reply
unfolding cancel_aborted
on_abort now id s =
    let nothing : Reply = record { service = s; settled = []; events = []; error = none } in
    elim (get id s.waiters) [
      | none ↦ nothing
      | some waiter ↦
          if waiter.has_signal
          then cancel_aborted now id (record s { waiters = delete id s.waiters }) []
          else nothing
    ]

abbrev pub is_applied : DecideOutcome → Bool
is_applied applied = true
is_applied _ = false

abbrev pub update_event : DecideOutcome → List Settlement → ApprovalRow → List ServiceEvent
update_event applied settled row = approval_updated row ∷ []
update_event outcome [] row = []
update_event outcome (_ ∷ _) row = approval_updated row ∷ []

unfoldable pub decide_approval : ℕ → DecideInput → Service → Reply
unfolding settle_waiter
decide_approval now input s = elim (decide now s.approvals input) [
  | err e ↦ failed s (repository_error e)
  | ok (db, result) ↦
      let after = settle_waiter result.request s.waiters in
      record {
        service = record s { approvals = db; waiters = after.0 };
        settled = after.1;
        events = update_event result.outcome after.1 result.request;
        error = none;
      }
]

unfoldable pub settle_named :
    Option (DecideOutcome × ApprovalRow)
    → JsMap Waiter
    → JsMap Waiter × (List Settlement × List ServiceEvent)
unfolding settle_waiter
settle_named none waiters = (waiters, ([], []))
settle_named (some (outcome, row)) waiters =
    let after = settle_waiter row waiters in (after.0, (after.1, update_event outcome after.1 row))

abbrev pub both : Option DecideOutcome → Option ApprovalRow → Option (DecideOutcome × ApprovalRow)
both (some outcome) (some row) = some (outcome, row)
both _ _ = none

unfoldable pub update_session_policy : ℕ → UpdatePolicyInput → Service → Reply
unfolding settle_named
update_session_policy now input s = elim (update_policy now s.approvals input) [
  | err e ↦ failed s (repository_error e)
  | ok (db, result) ↦
      let after = settle_named (both result.request_outcome result.request) s.waiters in
      record {
        service = record s { approvals = db; waiters = after.0 };
        settled = after.1.0;
        events =
            after.1.1
            ++ (if is_applied result.outcome then policy_changed result.policy ∷ [] else []);
        error = none;
      }
]

-- A loop that settles the waiter of each record and tells of it.
unfoldable pub settle_all : List ApprovalRow → Reply → Reply
unfolding settle_waiter
settle_all [] r = r
settle_all (row ∷ rows) r =
    let after = settle_waiter row r.service.waiters in
    settle_all rows (record r {
      service = record r.service { waiters = after.0 };
      settled = r.settled ++ after.1;
      events = r.events ++ (approval_updated row ∷ []);
    })

abbrev pub quiet : Service → Reply
quiet s = record { service = s; settled = []; events = []; error = none }

unfoldable pub sweep_expired : ℕ → Service → Reply
unfolding settle_all
sweep_expired now s =
    settle_all (expired_rows now s.approvals)
      (quiet (record s { approvals = expire_due now s.approvals }))

-- The records of the waiters that a reset affects, as they are after it.
unfoldable pub affected_rows : ℕ → JsMap Waiter → Db → List ApprovalRow
affected_rows session_id [] db = []
affected_rows session_id ((id, waiter) ∷ waiters) db =
    let rest = affected_rows session_id waiters db in
    if waiter.session_id == session_id
    then elim (get id db.requests) [ none ↦ rest | some row ↦ row ∷ rest ]
    else rest

unfoldable pub reset_session : ℕ → ℕ → Service → Reply
unfolding settle_all affected_rows
reset_session now session_id s =
    let db = reset_for_session now s.approvals session_id in
    let after =
      settle_all (affected_rows session_id s.waiters db) (quiet (record s { approvals = db })) in
    record after { events = after.events ++ (policy_changed (get_policy now db session_id) ∷ []) }

-- A new process with the database that the one before it left: nothing waits in it.
unfoldable pub restart : ℕ → Service → Reply
restart now s = quiet (record s { approvals = recover_on_startup now s.approvals; waiters = [] })
