-- ===== src/Journal/Tests.antt =====
-- The theorems on the invocation journal, at the calls of one Box.
use moshu.Common.{ℕ, ◌≤◌, ◌<◌, ◌⊎◌, ◌≡◌, refl, none, some, List, [], ◌∷◌, count, length, arith}
use moshu.Common.Text.{units}
use moshu.Common.JsMap.{get, set, set_all, delete, keep, find, size, values}
use moshu.Peer.{agents, runtime_box, PeerIdentity}
use moshu.Journal.Types.{
  runtime_box_workspace, mcp_workspace, Authorization, mcp_call, InvokeInput, Payload, running,
  succeeded, failed, JournalRecord, finish_rejected, not_running, result_invalid, Journal, written,
  thrown_before_rename, thrown_after_rename,
}
use moshu.Journal.{
  Attempts, prepare, begin, final_failed, finish_without_result, succeed, bound_safe_error,
  max_safe_error_length,
}
use moshu.Journal.Receipts.{acknowledge, acknowledge_one, load}
use moshu.Journal.Grant.{authorize, origin_matches, target_matches, is_compatible}
use moshu.Journal.Process.{Event, begins, succeeds, acknowledges, restarts, installed, step, run}
use moshu.Journal.AtMostOnce.{executes_at_most_once}
use moshu.Journal.Begin.{BeginSpec, begin_lem}
use moshu.Journal.Ending.{
  finish_without_result_lem, succeed_lem, succeed_invalid, IsRefused, Settled,
}

abbrev server : PeerIdentity
server = record {
  role = agents;
  peer_id = 1;
  instance_id = 11;
  generation = 3;
  device_key_id = none;
}

abbrev box : PeerIdentity
box = record {
  role = runtime_box;
  peer_id = 2;
  instance_id = 22;
  generation = 5;
  device_key_id = none;
}

abbrev grant : Authorization
grant = record {
  action_id = 70;
  grant_id = 7;
  grant_token = 9;
  parameter_digest = 0;
  origin_instance_id = 11;
  origin_generation = 3;
  target_runtime_box_id = 2;
  target_instance_id = 22;
  target_generation = 5;
  execution_scope = runtime_box_workspace;
  project_path_revision = 0;
  expires_at = 100;
}

abbrev call : InvokeInput
call = record { invocation_id = 7; parameters = mcp_call 1; authorization = some grant }

abbrev no_hash : Payload → ℕ
no_hash p = 0

abbrev all_written : Attempts
all_written = record { first = written; second = written; third = written }

abbrev second_fails : Attempts
second_fails = record {
  first = written;
  second = thrown_before_rename;
  third = thrown_before_rename;
}

abbrev fresh : Journal
fresh = record { records = []; consumed_grants = []; file = none }

abbrev history : List (ℕ × Event)
history =
    (1, restarts written)
    ∷ (2, begins all_written call server box mcp_workspace)
    ∷ (3, begins all_written call server box mcp_workspace)
    ∷ (4, succeeds written 7 (some 5))
    ∷ (5, acknowledges written (7 ∷ []))
    ∷ (6, restarts written)
    ∷ (7, begins all_written call server box mcp_workspace)
    ∷ []

-- The one execution of the history.
history_executes : (run no_hash installed [] history).1 ≡ 7 ∷ []
unfolding run step load begin acknowledge acknowledge_one get succeed authorize origin_matches
    target_matches is_compatible keep find size prepare set values delete set_all
history_executes = refl

abbrev running_record : JournalRecord
running_record = record {
  invocation_id = 7;
  action_id = 70;
  grant_id = 7;
  grant_token_hash = 0;
  parameter_digest = 0;
  origin_instance_id = 11;
  origin_generation = 3;
  target_runtime_box_id = 2;
  target_instance_id = 22;
  target_generation = 5;
  execution_scope = runtime_box_workspace;
  grant_expires_at = 100;
  state = running;
  result = none;
  safe_error = none;
  started_at = 2;
  completed_at = none;
}

abbrev begun : Journal
begun = record { records = (7, running_record) ∷ []; consumed_grants = []; file = none }

issued :
    (a : Authorization)
    → call.authorization ≡ some a
    → (a.grant_id ≡ call.invocation_id) × (100 ≡ a.expires_at)
issued a e = ground arith

executes_at_most_once_example : count 7 (run no_hash installed [] history).1 ≤ 1
executes_at_most_once_example =
    executes_at_most_once (λ g. g) (λ g. 100) (λ g h e. e) no_hash history
      (
        omega arith,
        tt,
        (
          omega arith,
          issued,
          (
            omega arith,
            issued,
            (omega arith, tt, (omega arith, tt, (omega arith, tt, (omega arith, issued, tt)))),
          ),
        ),
      )
      7

begin_lem_example :
    BeginSpec no_hash 2 fresh call server box mcp_workspace
      (begin no_hash 2 second_fails fresh call server box mcp_workspace)
begin_lem_example = begin_lem no_hash 2 second_fails fresh call server box mcp_workspace

finish_without_result_lem_example :
    let x = finish_without_result 3 thrown_before_rename begun 7 final_failed (units "no") in
    IsRefused 7 begun x
    ⊎ ((r : JournalRecord) × (get 7 begun.records ≡ some r)
        × (r.state ≡ running)
        × ((0 < length (bound_safe_error (units "no")))
            × (length (bound_safe_error (units "no")) ≤ max_safe_error_length))
        × Settled 7
            (record r {
              state = failed;
              result = none;
              safe_error = some (bound_safe_error (units "no"));
              completed_at = some 3;
            })
            begun
            x)
finish_without_result_lem_example =
    finish_without_result_lem 3 thrown_before_rename begun 7 final_failed (units "no")

succeed_lem_example :
    let x = succeed 3 thrown_after_rename begun 7 (some 5) in
    IsRefused 7 begun x
    ⊎ ((r : JournalRecord) × (get 7 begun.records ≡ some r)
        × (r.state ≡ running)
        × Settled 7
            (record r {
              state = succeeded;
              result = some 5;
              safe_error = none;
              completed_at = some 3;
            })
            begun
            x)
succeed_lem_example = succeed_lem 3 thrown_after_rename begun 7 5

succeed_invalid_example :
    let (j', x) = succeed 3 written begun 7 none in
    (x ≡ result_invalid)
    × (get 7 j'.records ≡ some (record running_record { state = succeeded }))
    × (j'.file ≡ none)
    × (finish_without_result 4 written j' 7 final_failed (units "no")
        ≡ (j', finish_rejected not_running))
unfolding get
succeed_invalid_example =
    succeed_invalid 3 4 written written begun 7 running_record final_failed (units "no") refl refl
