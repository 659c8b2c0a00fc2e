-- ===== src/Action/Evidence.antt =====
-- packages/database/src/action-repository.ts: the methods of `SqliteActionRepository` that take the
-- evidence of a Box, its acknowledgement and its receipt, and the recovery on start. `sha256` hashes
-- the JSON text of a result.
use moshu.Common.{
  ℕ, Bool, true, false, not, ◌&&◌, ◌||◌, ◌==◌, if◌then◌else◌, Option, none, some, List, [], ◌∷◌,
  is_some, distinct,
}
use moshu.Common.JsMap.{get, set, find, keep, values, map_values}
use moshu.Common.Text.{Text, units}
use moshu.Common.Result.{Result, ok, err, ◌>>=◌, ◌>>◌, require, or_throw}
use moshu.Action.Types.{
  ActionState, granted, running, succeeded, failed, cancelled, outcome_unknown, ActionResult,
  ActionRow, GrantRow, ToolStatus, tool_completed, tool_failed, tool_cancelled,
  tool_outcome_unknown, TimelineEntry, Db, EvidenceState, box_succeeded, box_failed, box_cancelled,
  box_outcome_unknown, Evidence, ActionError, action_not_found, intent_mismatch, grant_mismatch,
  result_mismatch, conflicting_evidence, not_awaiting_result, not_completed, receipt_mismatch,
  receipt_before_acknowledgement, grant_not_consumed,
}
use moshu.Action.{
  is_terminal, is_running, is_granted, is_agent_server, enqueue, acked_if_local, undispatched_row,
}

abbrev pub evidence_state : EvidenceState → ActionState
evidence_state box_succeeded = succeeded
evidence_state box_failed = failed
evidence_state box_cancelled = cancelled
evidence_state box_outcome_unknown = outcome_unknown

abbrev pub to_tool_status : EvidenceState → ToolStatus
to_tool_status box_succeeded = tool_completed
to_tool_status box_failed = tool_failed
to_tool_status box_cancelled = tool_cancelled
to_tool_status box_outcome_unknown = tool_outcome_unknown

-- `action.state === evidence.state`
unfoldable pub same_state : ActionState → EvidenceState → Bool
same_state succeeded box_succeeded = true
same_state failed box_failed = true
same_state cancelled box_cancelled = true
same_state outcome_unknown box_outcome_unknown = true
same_state _ _ = false

unfoldable pub matches_intent : ℕ → Evidence → ActionRow → Bool
matches_intent runtime_box_id e a =
    not (is_agent_server a.target_kind)
    && a.target_id == runtime_box_id
    && a.id == e.action_id
    && a.parameter_digest == e.parameter_digest
    && a.origin_instance_id == e.origin_instance_id
    && a.origin_generation == e.origin_generation
    && a.target_id == e.target_runtime_box_id
    && a.target_instance_id == e.target_instance_id
    && a.target_generation == e.target_generation

unfoldable pub is_consumed : Option GrantRow → Bool
is_consumed none = false
is_consumed (some g) = is_some g.consumed_at_ms

unfoldable pub matches_grant : ℕ → Option GrantRow → Bool
matches_grant grant_id none = false
matches_grant grant_id (some g) = g.id == grant_id && is_some g.consumed_at_ms

unfoldable pub matches_result : ActionRow → Option ActionResult → Bool
matches_result a none = true
matches_result a (some r) = r.invocation_id == a.invocation_id && r.tool == a.tool

unfoldable pub same_hash : Option ℕ → Option ℕ → Bool
same_hash none none = true
same_hash (some h) (some k) = h == k
same_hash _ _ = false

abbrev pub is_succeeded : ActionState → Bool
is_succeeded succeeded = true
is_succeeded _ = false

unfoldable pub check_local : Db → ℕ → ℕ → ActionResult → Result ActionError ActionRow
check_local db target_id invocation_id r = do
  a ← or_throw (get invocation_id db.actions) action_not_found
  require (is_agent_server a.target_kind && a.target_id == target_id) intent_mismatch
  require (matches_result a (some r)) result_mismatch
  require (is_consumed (get a.id db.grants)) grant_not_consumed
  ok a

module _ (sha256 : ActionResult → ℕ) where
  abbrev pub hash_of : Option ActionResult → Option ℕ
  hash_of none = none
  hash_of (some r) = some (sha256 r)

  -- Evidence on an action that has ended may repeat its end and no other.
  unfoldable pub agrees : ActionRow → Evidence → Bool
  agrees a e =
      not (is_terminal a.state)
      || (same_state a.state e.state
          && (not (is_some a.result_hash) || same_hash a.result_hash (hash_of e.result)))

  abbrev pub completed_row : ℕ → ActionRow → Evidence → ActionRow
  completed_row now a e = record a {
    state = evidence_state e.state;
    result = e.result;
    result_hash = hash_of e.result;
    safe_error = e.safe_error;
    updated_at_ms = now;
    completed_at_ms = some e.completed_at;
  }

  -- The checks that the evidence passes, in their order.
  unfoldable pub check_evidence : Db → ℕ → Evidence → Result ActionError ActionRow
  check_evidence db runtime_box_id e = do
    a ← or_throw (get e.invocation_id db.actions) action_not_found
    require (matches_intent runtime_box_id e a) intent_mismatch
    require (matches_grant e.grant_id (get a.id db.grants)) grant_mismatch
    require (matches_result a e.result) result_mismatch
    require (agrees a e) conflicting_evidence
    ok a

  abbrev pub complete_row : ℕ → Db → Evidence → Option ℕ → ActionRow → Db
  complete_row now db e output a = record db {
    actions = set e.invocation_id (completed_row now a e) db.actions;
    timeline =
        if same_state a.state e.state
        then db.timeline
        else enqueue a (to_tool_status e.state) e.safe_error e.completed_at output db.timeline;
  }

  unfoldable pub complete : ℕ → Db → ℕ → Evidence → Option ℕ → Result ActionError Db
  unfolding check_evidence
  complete now db runtime_box_id e output = elim (check_evidence db runtime_box_id e) [
    | err error ↦ err error
    | ok a ↦ ok (complete_row now db e output a)
  ]

  abbrev pub local_row : ℕ → ActionRow → ActionResult → ActionRow
  local_row now a r = record a {
    state = succeeded;
    result = some r;
    result_hash = some (sha256 r);
    updated_at_ms = now;
    completed_at_ms = some now;
    server_acked_at_ms = some now;
  }

  unfoldable pub complete_local : ℕ → Db → ℕ → ℕ → ActionResult → Option ℕ → Result ActionError Db
  unfolding check_local
  complete_local now db target_id invocation_id r output =
      elim (check_local db target_id invocation_id r) [
        | err error ↦ err error
        | ok a ↦
            if is_terminal a.state
            then (if is_succeeded a.state && same_hash a.result_hash (some (sha256 r))
                then ok db
                else err conflicting_evidence)
            else if not (is_running a.state)
            then err not_awaiting_result
            else ok (record db {
              actions = set invocation_id (local_row now a r) db.actions;
              timeline = enqueue a tool_completed none now output db.timeline;
            })
      ]

-- A call is over, or its outcome is unknown.
abbrev pub is_over : ActionState → Bool
is_over granted = false
is_over running = false
is_over _ = true

abbrev pub acked_row : ℕ → ActionRow → ActionRow
acked_row now a = record a { server_acked_at_ms = some now; updated_at_ms = now }

-- The loop is not a transaction: what it wrote before it throws stays.
unfoldable pub acknowledge_all : ℕ → List ℕ → Db → Db × Option ActionError
acknowledge_all now [] db = (db, none)
acknowledge_all now (id ∷ ids) db = elim (get id db.actions) [
  | none ↦ (db, some action_not_found)
  | some a ↦ elim (is_over a.state) [
    | false ↦ (db, some not_completed)
    | true ↦ acknowledge_all now ids (record db { actions = set id (acked_row now a) db.actions })
  ]
]

abbrev pub mark_server_acked : ℕ → Db → List ℕ → Db × Option ActionError
mark_server_acked now db ids = acknowledge_all now (distinct ids) db

abbrev pub confirmed_row : ℕ → ActionRow → ActionRow
confirmed_row now a = record a { box_receipt_confirmed_at_ms = some now; updated_at_ms = now }

unfoldable pub receipt_error : ℕ → ActionRow → Option ActionError
receipt_error runtime_box_id a =
    if is_agent_server a.target_kind || not (a.target_id == runtime_box_id)
    then some receipt_mismatch
    else if not (is_some a.server_acked_at_ms)
    then some receipt_before_acknowledgement
    else none

unfoldable pub confirm_all : ℕ → ℕ → List ℕ → Db → Db × Option ActionError
unfolding receipt_error
confirm_all now runtime_box_id [] db = (db, none)
confirm_all now runtime_box_id (id ∷ ids) db = elim (get id db.actions) [
  | none ↦ confirm_all now runtime_box_id ids db
  | some a ↦ elim (receipt_error runtime_box_id a) [
    | some e ↦ (db, some e)
    | none ↦
        confirm_all now runtime_box_id ids
          (record db { actions = set id (confirmed_row now a) db.actions })
  ]
]

abbrev pub mark_receipt_confirmed : ℕ → Db → ℕ → List ℕ → Db × Option ActionError
mark_receipt_confirmed now db runtime_box_id ids = confirm_all now runtime_box_id (distinct ids) db

abbrev pub undispatched_error : Text
undispatched_error = units "Agent Server restarted before the execution grant was dispatched."

abbrev pub unconfirmed_error : Text
unconfirmed_error = units "Agent Server restarted before the Action outcome was confirmed."

abbrev pub unknown_row : ℕ → ActionRow → ActionRow
unknown_row now a = record a {
  state = outcome_unknown;
  safe_error = some unconfirmed_error;
  updated_at_ms = now;
  completed_at_ms = some now;
  server_acked_at_ms = acked_if_local now a;
}

unfoldable pub recovered_row : ℕ → ActionRow → ActionRow
recovered_row now a =
    if is_granted a.state
    then undispatched_row now a undispatched_error
    else if is_running a.state
    then unknown_row now a
    else a

-- What the loop over the open actions enqueues.
unfoldable pub recovery_timeline : ℕ → List ActionRow → List TimelineEntry → List TimelineEntry
recovery_timeline now [] timeline = timeline
recovery_timeline now (a ∷ rows) timeline = recovery_timeline now rows (
    if is_granted a.state
    then enqueue a tool_cancelled (some undispatched_error) now none timeline
    else enqueue a tool_outcome_unknown (some unconfirmed_error) now none timeline)

-- The loop updates each open action.
unfoldable pub recover_on_startup : ℕ → Db → Db
unfolding recovered_row recovery_timeline
recover_on_startup now db = record db {
  actions = map_values (recovered_row now) db.actions;
  timeline =
      recovery_timeline now
        (values (keep (λ a. is_granted a.state || is_running a.state) db.actions)) db.timeline;
}

-- What an action still waits for before its session or its project may go.
abbrev pub is_unacknowledged : ActionRow → Bool
is_unacknowledged a =
    if is_agent_server a.target_kind
    then not (is_some a.server_acked_at_ms)
    else not (is_some a.box_receipt_confirmed_at_ms)

-- `in_scope` tells the runs of the session, or of the project.
unfoldable pub has_unacknowledged : (ℕ → Bool) → Db → Bool
has_unacknowledged in_scope db =
    is_some (find (λ a. in_scope a.run_id && is_unacknowledged a) db.actions)
