-- ===== src/Action.antt =====
-- packages/database/src/action-repository.ts: the methods of `SqliteActionRepository` that grant an
-- action and end it. A method takes the instant at which it runs and the database, and returns the
-- database that it commits, or throws, and then its transaction is undone.
pub mod Types
pub mod Evidence
pub mod Changes
pub mod Calls
pub mod EvidenceCalls
pub mod History
pub mod Grants
pub mod Recovery
mod Tests
use moshu.Common.{
  ℕ, Bool, true, false, not, ◌&&◌, ◌||◌, leb, ◌==◌, if◌then◌else◌, Option, none, some, List, [],
  ◌∷◌, ◌++◌, is_some, length,
}
use moshu.Common.JsMap.{JsMap, get, has, set, find, map_values}
use moshu.Common.Text.{Text, units, trim, slice}
use moshu.Common.Result.{Result, ok, err}
use Types.{
  ActionState, granted, running, succeeded, failed, cancelled, outcome_unknown, TargetKind,
  agent_server, runtime_box, HashText, digest, malformed, ActionResult, ActionRow, GrantRow,
  ToolStatus, tool_running, tool_completed, tool_failed, tool_cancelled, tool_outcome_unknown,
  TimelineEntry, Db, CreateGrantInput, ActionError, expiry_not_in_future, malformed_hash,
  constraint_failed, grant_rejected, not_awaiting_execution, grant_not_consumed, action_not_found,
}

abbrev pub is_terminal : ActionState → Bool
is_terminal succeeded = true
is_terminal failed = true
is_terminal cancelled = true
is_terminal _ = false

abbrev pub is_granted : ActionState → Bool
is_granted granted = true
is_granted _ = false

abbrev pub is_running : ActionState → Bool
is_running running = true
is_running _ = false

abbrev pub is_agent_server : TargetKind → Bool
is_agent_server agent_server = true
is_agent_server runtime_box = false

abbrev pub new_action : ℕ → CreateGrantInput → ActionRow
new_action now input = record {
  id = input.action_id;
  invocation_id = input.invocation_id;
  target_kind = input.target_kind;
  target_id = input.target_id;
  run_id = input.run_id;
  tool_call_id = input.tool_call_id;
  tool = input.tool;
  parameter_digest = input.parameter_digest;
  origin_instance_id = input.origin_instance_id;
  origin_generation = input.origin_generation;
  target_instance_id = input.target_instance_id;
  target_generation = input.target_generation;
  state = granted;
  result = none;
  result_hash = none;
  safe_error = none;
  created_at_ms = now;
  updated_at_ms = now;
  completed_at_ms = none;
  server_acked_at_ms = none;
  box_receipt_confirmed_at_ms = none;
}

abbrev pub new_grant : ℕ → ℕ → CreateGrantInput → GrantRow
new_grant now hash input = record {
  id = input.grant_id;
  action_id = input.action_id;
  token_hash = hash;
  parameter_digest = input.parameter_digest;
  expires_at_ms = input.expires_at_ms;
  created_at_ms = now;
  consumed_at_ms = none;
}

-- The primary keys and the unique indexes of the two tables.
unfoldable pub is_taken : Db → CreateGrantInput → Bool
is_taken db input =
    is_some (find (λ r. r.id == input.action_id) db.actions)
    || has input.invocation_id db.actions
    || is_some (find (λ g. g.id == input.grant_id) db.grants)
    || has input.action_id db.grants

-- The hash is required after the action is inserted, so a taken key shows first; in either case
-- nothing is committed.
abbrev pub insert_grant : ℕ → Db → CreateGrantInput → HashText → Result ActionError Db
insert_grant now db input malformed = err malformed_hash
insert_grant now db input (digest h) = ok (record db {
  actions = set input.invocation_id (new_action now input) db.actions;
  grants = set input.action_id (new_grant now h input) db.grants;
})

unfoldable pub create_grant : ℕ → Db → CreateGrantInput → Result ActionError Db
unfolding is_taken
create_grant now db input =
    if leb input.expires_at_ms now
    then err expiry_not_in_future
    else if is_taken db input
    then err constraint_failed
    else insert_grant now db input input.grant_token_hash

-- `#enqueueTimeline`
abbrev pub enqueue :
    ActionRow → ToolStatus → Option Text → ℕ → Option ℕ → List TimelineEntry → List TimelineEntry
enqueue a status safe_error at output timeline =
    timeline
    ++ (record {
      run_id = a.run_id;
      tool_call_id = a.tool_call_id;
      status = status;
      safe_error = safe_error;
      public_output = output;
      created_at_ms = at;
    }
        ∷ [])

-- The grant that a call may consume: the action's, under the id given, not consumed, in time and with
-- the hash of the token.
abbrev pub is_hash : ℕ → HashText → Bool
is_hash h (digest d) = h == d
is_hash h malformed = false

abbrev pub token_error : HashText → ActionError
token_error malformed = malformed_hash
token_error (digest d) = grant_rejected

unfoldable pub consumable : ℕ → Db → ℕ → ℕ → HashText → Result ActionError GrantRow
consumable now db action_id grant_id token_hash = elim (get action_id db.grants) [
  | none ↦ err grant_rejected
  | some g ↦
      if not (g.id == grant_id) || is_some g.consumed_at_ms || leb g.expires_at_ms now
      then err grant_rejected
      else if is_hash g.token_hash token_hash
      then ok g
      else err (token_error token_hash)
]

abbrev pub consume_row : ℕ → Db → ActionRow → ℕ → GrantRow → Db
consume_row now db a action_id g = record {
  actions = set a.invocation_id (record a { state = running; updated_at_ms = now }) db.actions;
  grants = set action_id (record g { consumed_at_ms = some now }) db.grants;
  timeline = enqueue a tool_running none now none db.timeline;
}

unfoldable pub consume_grant : ℕ → Db → ℕ → ℕ → HashText → Result ActionError Db
unfolding consumable
consume_grant now db action_id grant_id token_hash =
    elim (consumable now db action_id grant_id token_hash) [
      | err e ↦ err e
      | ok g ↦ elim (find (λ a. a.id == action_id) db.actions) [
        | none ↦ err not_awaiting_execution
        | some a ↦
            if is_granted a.state
            then ok (consume_row now db a action_id g)
            else err not_awaiting_execution
      ]
    ]

unfoldable pub mark_running : Db → ℕ → Result ActionError Db
mark_running db invocation_id = elim (get invocation_id db.actions) [
  | none ↦ err action_not_found
  | some a ↦ if is_running a.state then ok db else err grant_not_consumed
]

abbrev pub put_action : ℕ → ActionRow → Db → Db
put_action invocation_id a db = record db { actions = set invocation_id a db.actions }

abbrev pub non_empty_error : Text → Text
non_empty_error [] = units "Action failed."
non_empty_error (c ∷ s) = slice 1024 (c ∷ s)

abbrev pub bound_safe_error : Text → Text
bound_safe_error value = non_empty_error (trim value)

-- The agents server's own actions need no acknowledgement by a Box.
abbrev pub acked_if_local : ℕ → ActionRow → Option ℕ
acked_if_local now a = if is_agent_server a.target_kind then some now else a.server_acked_at_ms

-- The ends that carry no result.
pub data Ending : Type 0 where
  as_failed as_cancelled as_outcome_unknown : Ending

abbrev pub ending_state : Ending → ActionState
ending_state as_failed = failed
ending_state as_cancelled = cancelled
ending_state as_outcome_unknown = outcome_unknown

abbrev pub ending_status : Ending → ToolStatus
ending_status as_failed = tool_failed
ending_status as_cancelled = tool_cancelled
ending_status as_outcome_unknown = tool_outcome_unknown

abbrev pub ended_row : ℕ → ActionRow → Ending → Text → ActionRow
ended_row now a ending e = record a {
  state = ending_state ending;
  safe_error = some e;
  updated_at_ms = now;
  completed_at_ms = some now;
  server_acked_at_ms = acked_if_local now a;
}

unfoldable pub mark_ended : ℕ → Db → ℕ → Ending → Text → Result ActionError Db
mark_ended now db invocation_id ending safe_error = elim (get invocation_id db.actions) [
  | none ↦ err action_not_found
  | some a ↦
      if is_terminal a.state
      then ok db
      else let e = bound_safe_error safe_error in
        ok (record db {
          actions = set invocation_id (ended_row now a ending e) db.actions;
          timeline = enqueue a (ending_status ending) (some e) now none db.timeline;
        })
]

abbrev pub mark_failed : ℕ → Db → ℕ → Text → Result ActionError Db
mark_failed now db invocation_id e = mark_ended now db invocation_id as_failed e

abbrev pub mark_cancelled : ℕ → Db → ℕ → Text → Result ActionError Db
mark_cancelled now db invocation_id e = mark_ended now db invocation_id as_cancelled e

abbrev pub mark_outcome_unknown : ℕ → Db → ℕ → Text → Result ActionError Db
mark_outcome_unknown now db invocation_id e = mark_ended now db invocation_id as_outcome_unknown e

abbrev pub undispatched_row : ℕ → ActionRow → Text → ActionRow
undispatched_row now a e = record a {
  state = cancelled;
  safe_error = some e;
  updated_at_ms = now;
  completed_at_ms = some now;
  server_acked_at_ms = some now;
  box_receipt_confirmed_at_ms = some now;
}

unfoldable pub cancel_undispatched : ℕ → Db → ℕ → Text → Result ActionError Db
cancel_undispatched now db invocation_id safe_error = elim (get invocation_id db.actions) [
  | none ↦ err action_not_found
  | some a ↦
      if is_terminal a.state
      then ok db
      else let e = bound_safe_error safe_error in
        ok (record db {
          actions = set invocation_id (undispatched_row now a e) db.actions;
          timeline = enqueue a tool_cancelled (some e) now none db.timeline;
        })
]
