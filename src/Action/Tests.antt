-- ===== src/Action/Tests.antt =====
-- The theorems on actions, at one action of a Box.
use moshu.Common.{ℕ, ◌≡◌, refl, true, some, is_some, List, [], ◌∷◌, arith}
use moshu.Common.JsMap.{get, set, find, map_values}
use moshu.Common.Result.{err}
use moshu.Common.Text.{units}
use moshu.Action.Types.{
  runtime_box, digest, ActionResult, ActionRow, GrantRow, Db, CreateGrantInput, grant_rejected,
}
use moshu.Action.{
  consume_grant, consume_row, consumable, new_action, new_grant, as_failed, create_grant, is_taken,
  undispatched_row,
}
use moshu.Action.Evidence.{is_over, recovered_row, recover_on_startup, undispatched_error}
use moshu.Action.Changes.{Kept}
use moshu.Action.History.{
  Call, creates, ends, acknowledges, confirms, recovers, run, step, run-Kept, run-IsOrdered,
}
use moshu.Action.Grants.{grant_consumed_once}
use moshu.Action.Recovery.{IsRecovered, recovery_closes}

abbrev input : CreateGrantInput
input = record {
  action_id = 70;
  grant_id = 7;
  grant_token_hash = digest 9;
  invocation_id = 1;
  target_kind = runtime_box;
  target_id = 2;
  run_id = 3;
  tool_call_id = 4;
  tool = 5;
  parameter_digest = 6;
  origin_instance_id = 11;
  origin_generation = 3;
  target_instance_id = 22;
  target_generation = 5;
  expires_at_ms = 100;
}

abbrev action : ActionRow
action = new_action 10 input

abbrev grant : GrantRow
grant = new_grant 10 9 input

abbrev granted_db : Db
granted_db = record { actions = (1, action) ∷ []; grants = (70, grant) ∷ []; timeline = [] }

abbrev consumed_db : Db
consumed_db = consume_row 20 granted_db action 70 grant

abbrev no_hash : ActionResult → ℕ
no_hash r = 0

abbrev calls : List Call
calls = ends 30 1 as_failed (units "no") ∷ acknowledges 31 (1 ∷ []) ∷ confirms 32 2 (1 ∷ []) ∷ []

grant_consumed_once_example :
    consume_grant 40 (run no_hash consumed_db calls) 70 7 (digest 9) ≡ err grant_rejected
unfolding consume_grant consumable get find
grant_consumed_once_example =
    grant_consumed_once no_hash 20 40 granted_db consumed_db 70 7 7 (digest 9) (digest 9) calls refl

run-Kept_example : Kept (get 1 granted_db.actions) (get 1 (run no_hash granted_db calls).actions)
unfolding get
run-Kept_example =
    run-Kept no_hash granted_db calls 1
      ((refl, tt), (refl, tt), ((λ t. ground (arith, t), λ t. ground (arith, t)), tt))

abbrev withdrawn : ActionRow
withdrawn = undispatched_row 20 action undispatched_error

run-IsOrdered_example :
    (is_some withdrawn.server_acked_at_ms ≡ true → is_over withdrawn.state ≡ true)
    × (is_some withdrawn.box_receipt_confirmed_at_ms ≡ true
        → is_some withdrawn.server_acked_at_ms ≡ true)
unfolding run step create_grant is_taken get set find recover_on_startup recovered_row map_values
run-IsOrdered_example = run-IsOrdered no_hash (creates 10 input ∷ recovers 20 ∷ []) 1 withdrawn refl

recovery_closes_example :
    (b : ActionRow) × (get 1 (recover_on_startup 50 granted_db).actions ≡ some b)
    × IsRecovered action b
unfolding get
recovery_closes_example = recovery_closes 50 granted_db 1 action refl
