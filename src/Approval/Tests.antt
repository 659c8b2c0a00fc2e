-- ===== src/Approval/Tests.antt =====
-- The theorems on approvals, at the requests of one session.
use moshu.Common.{◌⊎◌, ℕ, ◌≡◌, refl, ◌==◌, ◌&&◌, if◌then◌else◌, true, false, none, some, [], ◌∷◌}
use moshu.Common.JsMap.{get, set, find}
use moshu.Common.Result.{ok, err}
use moshu.Approval.Types.{
  applied, idempotent, PolicyRow, UpdatePolicyInput, UpdatePolicyResult, policy_revision_conflict,
  pending, approved, expired, cancelled, approve_once, reject, from_client, from_policy,
  ApprovalRow, Db, CreateInput, DecideInput, superseded,
}
use moshu.Approval.{is_pending, has_key, create, decide}
use moshu.Approval.Sessions.{
  restart_policy, recover_on_startup, get_policy, default_policy, reset_for_session,
}
use moshu.Approval.Changes.{Evolves, ending}
use moshu.Approval.Calls.{create_call, decide_call, recover_call, run, step}
use moshu.Approval.History.{run-Evolves, policy_covers_overridable_only}
use moshu.Approval.Decisions.{decide_wins_once, IsOpen, decided_row}
use moshu.Approval.Policy.{update_policy, put_policy, new_policy, is_client_key}
use moshu.Approval.Races.{IsWritten, revision_of, update_policy_lem, second_update_conflicts}
use moshu.Approval.Recovery.{
  recover_on_startup_lem, nothing_survives_restart, reset_for_session_lem,
}

abbrev request : CreateInput
request = record {
  id = 1;
  session_id = 8;
  run_id = 9;
  action_id = 70;
  tool_call_id = 5;
  action = 0;
  risk = record { tier = 1; overridable = true };
  created_at_ms = 10;
  expires_at_ms = 100;
  policy_approval = none;
}

abbrev approval : DecideInput
approval = record {
  approval_id = 1;
  expected_revision = 1;
  decision = approve_once;
  idempotency_key = 40;
  source = from_client 3;
}

abbrev refusal : DecideInput
refusal = record approval { decision = reject; idempotency_key = 41 }

abbrev waiting_row : ApprovalRow
waiting_row = record {
  id = 1;
  session_id = 8;
  run_id = 9;
  action_id = 70;
  tool_call_id = 5;
  action = 0;
  risk = record { tier = 1; overridable = true };
  state = pending;
  revision = 1;
  decision_idempotency_key = none;
  decision = none;
  policy_evidence = none;
  created_at_ms = 10;
  expires_at_ms = 100;
  decided_at_ms = none;
}

-- The session's policy is on, and one request waits.
abbrev waiting_db : Db
waiting_db = record {
  requests = (1, waiting_row) ∷ [];
  policies =
      (
        8,
        record {
          session_id = 8;
          allow_all = true;
          revision = 1;
          updated_by = none;
          last_idempotency_key = none;
          updated_at_ms = 5;
        },
      )
      ∷ [];
  attention = [];
  timeline = [];
}

abbrev approved_row : ApprovalRow
approved_row = decided_row 20 approval waiting_row

abbrev approved_db : Db
approved_db = record waiting_db { requests = (1, approved_row) ∷ [] }

decide_wins_once_example :
    ((row : ApprovalRow) × (get 1 waiting_db.requests ≡ some row)
      × IsOpen 20 approval row
      × (approved_row ≡ decided_row 20 approval row))
    × (decide 30 (run approved_db (recover_call 25 ∷ [])) refusal
        ≡ ok (
          run approved_db (recover_call 25 ∷ []),
          record { outcome = if 40 == 41 then idempotent else superseded; request = approved_row },
        ))
unfolding get decide has_key find set
decide_wins_once_example =
    decide_wins_once 20 30 waiting_db approved_db approval refusal approved_row
      (recover_call 25 ∷ []) ((refl, tt), (refl, tt), ((λ n e. refl), tt)) refl refl

run-Evolves_example :
    Evolves
      (get 1 waiting_db.requests)
      (get 1 (run waiting_db (decide_call 20 approval ∷ decide_call 21 refusal ∷ [])).requests)
unfolding get
run-Evolves_example =
    run-Evolves waiting_db (decide_call 20 approval ∷ decide_call 21 refusal ∷ []) 1
      ((refl, tt), (refl, tt), ((λ n e. refl), tt))

abbrev covered : CreateInput
covered = record request { policy_approval = some 1 }

policy_covers_overridable_only_example : covered.risk.overridable ≡ true
unfolding run step create get set find
policy_covers_overridable_only_example =
    policy_covers_overridable_only (create_call covered ∷ []) 1
      (record waiting_row {
        state = approved;
        decision = some (record { kind = approve_once; source = from_policy; decided_at = 10 });
        policy_evidence = some 1;
        decided_at_ms = some 10;
      })
      1 refl refl

nothing_survives_restart_example :
    let db' = recover_on_startup 50 waiting_db in
    ((session_id : ℕ) → (get_policy 60 db' session_id).allow_all ≡ false)
    × ((k : ℕ) (r : ApprovalRow) → get k db'.requests ≡ some r → is_pending r.state ≡ false)
unfolding get
nothing_survives_restart_example =
    nothing_survives_restart 50 60 waiting_db ((refl, tt), (refl, tt), ((λ n e. refl), tt))

recover_on_startup_lem_example :
    let db' = recover_on_startup 50 waiting_db in
    ((k : ℕ)
      → get k db'.requests ≡ elim (get k waiting_db.requests) [
        | none ↦ none
        | some r ↦ if is_pending r.state then some (ending expired 50 r) else some r
      ])
    × ((k : ℕ)
        → get k db'.policies ≡ elim (get k waiting_db.policies) [
          | none ↦ none
          | some p ↦ some (if p.allow_all then restart_policy 50 p else p)
        ])
unfolding get
recover_on_startup_lem_example =
    recover_on_startup_lem 50 waiting_db ((refl, tt), (refl, tt), ((λ n e. refl), tt))

reset_for_session_lem_example :
    let db' = reset_for_session 50 waiting_db 8 in
    ((k : ℕ)
      → get k db'.requests ≡ elim (get k waiting_db.requests) [
        | none ↦ none
        | some r ↦
            if r.session_id == 8 && is_pending r.state then some (ending cancelled 50 r) else some r
      ])
    × ((s : ℕ)
        → get_policy 60 db' s
          ≡ (if 8 == s then default_policy 60 s else get_policy 60 waiting_db s))
unfolding get
reset_for_session_lem_example =
    reset_for_session_lem 50 60 waiting_db 8 ((refl, tt), (refl, tt), ((λ n e. refl), tt))

abbrev turn_off : UpdatePolicyInput
turn_off = record {
  session_id = 8;
  allow_all = false;
  expected_revision = 1;
  idempotency_key = 50;
  updated_by = from_client 3;
  approve_request = none;
}

abbrev turn_off_too : UpdatePolicyInput
turn_off_too = record turn_off { idempotency_key = 51 }

abbrev off_db : Db
off_db = put_policy (new_policy 20 1 turn_off) waiting_db

abbrev off_result : UpdatePolicyResult
off_result = record {
  outcome = applied;
  policy = new_policy 20 1 turn_off;
  request_outcome = none;
  request = none;
}

update_policy_lem_example :
    ((p : PolicyRow) × (get 8 waiting_db.policies ≡ some p)
      × (is_client_key 50 p.last_idempotency_key ≡ true)
      × (off_db ≡ waiting_db)
      × (off_result.policy ≡ p)
      × (off_result.outcome ≡ idempotent))
    ⊎ IsWritten 20 waiting_db turn_off (revision_of (get 8 waiting_db.policies)) off_db off_result
unfolding update_policy get set
update_policy_lem_example = update_policy_lem 20 waiting_db turn_off off_db off_result refl

second_update_conflicts_example :
    update_policy 30 off_db turn_off_too ≡ err (policy_revision_conflict 2)
unfolding update_policy get set
second_update_conflicts_example =
    second_update_conflicts 20 30 waiting_db off_db turn_off turn_off_too off_result refl refl refl
      refl refl
