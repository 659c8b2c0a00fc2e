-- ===== src/Approval.antt =====
-- packages/database/src/approval-repository.ts: the methods of `SqliteApprovalRepository` that write.
-- A method takes the instant at which it runs and the database. It returns the database that its
-- transaction commits beside what it returns, or throws, and then the transaction is undone. A record
-- that a method returns is its row.
pub mod Types
pub mod Sessions
pub mod Policy
pub mod Changes
pub mod Calls
pub mod PolicyCalls
pub mod History
pub mod Decisions
pub mod Recovery
pub mod Races
mod Tests
use moshu.Common.{
  ℕ, suc, ◌+◌, Bool, true, false, not, ◌&&◌, ◌||◌, leb, ◌==◌, if◌then◌else◌, Option, none, some,
  List, [], ◌∷◌, ◌++◌, map, length,
}
use moshu.Common.JsMap.{JsMap, get, has, set, delete, find, keep, values, map_values}
use moshu.Common.Result.{Result, ok, err}
use Types.{
  ApprovalState, pending, approved, rejected, expired, cancelled, DecisionKind, approve_once,
  reject, DecisionSource, from_policy, from_system_restart, Decision, ActionRisk, ApprovalRow,
  IdempotencyKey, client_key, system_restart, PolicyRow, ToolStatus, queued, waiting_approval,
  denied, tool_cancelled, SafeError, approval_expired, approval_cancelled, approval_denied,
  TimelineEntry, Db, CreateInput, DecideInput, ApproveRequest, UpdatePolicyInput, DecideOutcome,
  applied, idempotent, superseded, DecideResult, UpdatePolicyResult, ApprovalError, not_found,
  revision_conflict, policy_revision_conflict, non_overridable_risk, allow_all_cannot_approve,
  constraint_failed,
}

abbrev pub is_pending : ApprovalState → Bool
is_pending pending = true
is_pending _ = false

unfoldable pub has_key : ℕ → Option ℕ → Bool
has_key key none = false
has_key key (some k) = k == key

-- The unique indexes on `action_id` and on `decision_idempotency_key`.
pub action_taken : ℕ → Db → Bool
action_taken action_id db = elim (find (λ r. r.action_id == action_id) db.requests) [
  | none ↦ false
  | some _ ↦ true
]

pub key_taken : ℕ → ℕ → Db → Bool
key_taken key id db =
    elim (find (λ r. not (r.id == id) && has_key key r.decision_idempotency_key) db.requests) [
      | none ↦ false
      | some _ ↦ true
    ]

abbrev pub initial_state : Option ℕ → ApprovalState
initial_state none = pending
initial_state (some _) = approved

abbrev pub initial_decision : ℕ → Option ℕ → Option Decision
initial_decision at none = none
initial_decision at (some _) =
    some (record { kind = approve_once; source = from_policy; decided_at = at })

abbrev pub initial_decided_at : ℕ → Option ℕ → Option ℕ
initial_decided_at at none = none
initial_decided_at at (some _) = some at

abbrev pub created_row : CreateInput → ApprovalRow
created_row input = record {
  id = input.id;
  session_id = input.session_id;
  run_id = input.run_id;
  action_id = input.action_id;
  tool_call_id = input.tool_call_id;
  action = input.action;
  risk = input.risk;
  state = initial_state input.policy_approval;
  revision = 1;
  decision_idempotency_key = none;
  decision = initial_decision input.created_at_ms input.policy_approval;
  policy_evidence = input.policy_approval;
  created_at_ms = input.created_at_ms;
  expires_at_ms = input.expires_at_ms;
  decided_at_ms = initial_decided_at input.created_at_ms input.policy_approval;
}

-- `attentionOutbox` is told of a request that waits for a decision.
abbrev pub created_attention : CreateInput → List ℕ → List ℕ
created_attention input attention = elim input.policy_approval [
  | none ↦ attention ++ (input.id ∷ [])
  | some _ ↦ attention
]

abbrev pub created_status : Option ℕ → ToolStatus
created_status none = waiting_approval
created_status (some _) = queued

abbrev pub policy_covers : CreateInput → Bool
policy_covers input = elim input.policy_approval [ none ↦ true | some _ ↦ input.risk.overridable ]

unfoldable pub create : Db → CreateInput → Result ApprovalError (Db × ApprovalRow)
unfolding action_taken
create db input =
    if not (policy_covers input)
    then err non_overridable_risk
    else if has input.id db.requests || action_taken input.action_id db
    then err constraint_failed
    else ok (
      record db {
        requests = set input.id (created_row input) db.requests;
        attention = created_attention input db.attention;
        timeline =
            db.timeline
            ++ (record {
              run_id = input.run_id;
              tool_call_id = input.tool_call_id;
              status = created_status input.policy_approval;
              approval_id = input.id;
              safe_error = none;
              created_at_ms = input.created_at_ms;
            }
                ∷ []);
      },
      created_row input,
    )

-- `#applyTerminal`
abbrev pub or_else {ℓ} : {A : Type ℓ} → Option A → Option A → Option A
or_else none b = b
or_else (some a) b = some a

abbrev pub tool_status : ApprovalState → Option (ToolStatus × SafeError)
tool_status rejected = some (denied, approval_denied)
tool_status expired = some (denied, approval_expired)
tool_status cancelled = some (tool_cancelled, approval_cancelled)
tool_status _ = none

abbrev pub terminal_timeline : ApprovalRow → ApprovalState → ℕ → List TimelineEntry
terminal_timeline row state now = elim (tool_status state) [
  | none ↦ []
  | some (status, safe_error) ↦
      record {
        run_id = row.run_id;
        tool_call_id = row.tool_call_id;
        status = status;
        approval_id = row.id;
        safe_error = some safe_error;
        created_at_ms = now;
      }
      ∷ []
]

abbrev pub terminal_row :
    ApprovalRow → ApprovalState → ℕ → Option Decision → Option ℕ → Option ℕ → ApprovalRow
terminal_row row state now decision key evidence = record row {
  state = state;
  revision = row.revision + 1;
  decided_at_ms = some now;
  decision = or_else decision row.decision;
  decision_idempotency_key = or_else key row.decision_idempotency_key;
  policy_evidence = or_else evidence row.policy_evidence;
}

unfoldable pub write_terminal :
    Db → ApprovalRow → ApprovalState → ℕ → Option Decision → Option ℕ → Option ℕ → Db × ApprovalRow
write_terminal db row state now decision key evidence =
    let row' = terminal_row row state now decision key evidence in
    (
      record db {
        requests = set row.id row' db.requests;
        timeline = db.timeline ++ terminal_timeline row state now;
      },
      row',
    )

-- With a key, the update runs into the unique index on it.
unfoldable pub write_keyed :
    Db
    → ApprovalRow
    → ApprovalState
    → ℕ
    → Decision
    → ℕ
    → Option ℕ
    → Result ApprovalError (Db × ApprovalRow)
unfolding key_taken write_terminal
write_keyed db row state now decision key evidence =
    if key_taken key row.id db
    then err constraint_failed
    else ok (write_terminal db row state now (some decision) (some key) evidence)

abbrev pub decided_state : DecisionKind → ApprovalState
decided_state approve_once = approved
decided_state reject = rejected

abbrev pub with_outcome :
    DecideOutcome
    → Result ApprovalError (Db × ApprovalRow)
    → Result ApprovalError (Db × DecideResult)
with_outcome outcome (ok (db, row)) = ok (db, record { outcome = outcome; request = row })
with_outcome outcome (err e) = err e

-- `decide` once the row is read.
unfoldable pub decide_row :
    ℕ → Db → DecideInput → ApprovalRow → Result ApprovalError (Db × DecideResult)
unfolding write_keyed
decide_row now db input row =
    if has_key input.idempotency_key row.decision_idempotency_key
    then with_outcome idempotent (ok (db, row))
    else if not (is_pending row.state)
    then with_outcome superseded (ok (db, row))
    else if leb row.expires_at_ms now
    then with_outcome superseded (ok (write_terminal db row expired now none none none))
    else if not (input.expected_revision == row.revision)
    then err (revision_conflict row.revision)
    else with_outcome applied (
        write_keyed db row (decided_state input.decision) now
          (record { kind = input.decision; source = input.source; decided_at = now })
          input.idempotency_key none)

unfoldable pub decide : ℕ → Db → DecideInput → Result ApprovalError (Db × DecideResult)
unfolding decide_row
decide now db input = elim (get input.approval_id db.requests) [
  | none ↦ err (not_found input.approval_id)
  | some row ↦ decide_row now db input row
]

unfoldable pub cancel : ℕ → Db → ℕ → DecisionSource → Result ApprovalError (Db × ApprovalRow)
unfolding write_terminal
cancel now db approval_id source = elim (get approval_id db.requests) [
  | none ↦ err (not_found approval_id)
  | some row ↦
      if not (is_pending row.state)
      then ok (db, row)
      else ok (
          write_terminal db row cancelled now
            (some (record { kind = reject; source = source; decided_at = now })) none none)
]
