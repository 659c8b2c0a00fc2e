-- ===== src/Action/History.antt =====
-- packages/database/src/action-repository.ts: every method that writes, as one step, and what any
-- sequence of steps keeps. A call that throws in its transaction commits nothing.
use moshu.Common.{ℕ, ◌≡◌, true, Option, some, is_some, List, [], ◌∷◌, distinct}
use moshu.Common.JsMap.{get}
use moshu.Common.Text.{Text}
use moshu.Action.Types.{ActionResult, ActionRow, Db, CreateGrantInput, HashText, Evidence}
use moshu.Action.{create_grant, consume_grant, Ending, mark_ended, cancel_undispatched}
use moshu.Action.Evidence.{
  complete, complete_local, mark_server_acked, mark_receipt_confirmed, recover_on_startup, is_over,
}
use moshu.Action.Changes.{IsValid, Kept, row-IsOrdered}
use moshu.Action.Calls.{
  commit, create_grant-Changes, consume_grant-Changes, mark_ended-Changes,
  cancel_undispatched-Changes,
}
use moshu.Action.EvidenceCalls.{
  complete-Changes, complete_local-Changes, Leaves, Changes-Leaves, Leaves-trans, Leaves-refl,
  acknowledge_all-Leaves, confirm_all-Leaves, recover-Changes,
}

pub data Call : Type 0 where
  creates : ℕ → CreateGrantInput → Call
  consumes : ℕ → ℕ → ℕ → HashText → Call
  ends : ℕ → ℕ → Ending → Text → Call
  completes : ℕ → ℕ → Evidence → Option ℕ → Call
  completes_local : ℕ → ℕ → ℕ → ActionResult → Option ℕ → Call
  acknowledges : ℕ → List ℕ → Call
  confirms : ℕ → ℕ → List ℕ → Call
  withdraws : ℕ → ℕ → Text → Call
  recovers : ℕ → Call

abbrev pub initial_db : Db
initial_db = record { actions = []; grants = []; timeline = [] }

module _ (sha256 : ActionResult → ℕ) where
  unfoldable pub step : Db → Call → Db
  step db (creates now input) = commit db (create_grant now db input)
  step db (consumes now action_id grant_id token) =
      commit db (consume_grant now db action_id grant_id token)
  step db (ends now id ending e) = commit db (mark_ended now db id ending e)
  step db (completes now box e output) = commit db (complete sha256 now db box e output)
  step db (completes_local now target id r output) =
      commit db (complete_local sha256 now db target id r output)
  step db (acknowledges now ids) = (mark_server_acked now db ids).0
  step db (confirms now box ids) = (mark_receipt_confirmed now db box ids).0
  step db (withdraws now id e) = commit db (cancel_undispatched now db id e)
  step db (recovers now) = recover_on_startup now db

  unfoldable pub run : Db → List Call → Db
  run db [] = db
  run db (c ∷ cs) = run (step db c) cs

  step-Leaves : (db : Db) (c : Call) → IsValid db.actions → Leaves db (step db c)
  unfolding step
  step-Leaves db (creates now input) v =
      Changes-Leaves db (step db (creates now input)) v (create_grant-Changes now db input)
  step-Leaves db (consumes now action_id grant_id token) v =
      Changes-Leaves db (step db (consumes now action_id grant_id token)) v
        (consume_grant-Changes now db action_id grant_id token v)
  step-Leaves db (ends now id ending e) v =
      Changes-Leaves db (step db (ends now id ending e)) v (mark_ended-Changes now db id ending e)
  step-Leaves db (completes now box e output) v =
      Changes-Leaves db (step db (completes now box e output)) v
        (complete-Changes sha256 now db box e output)
  step-Leaves db (completes_local now target id r output) v =
      Changes-Leaves db (step db (completes_local now target id r output)) v
        (complete_local-Changes sha256 now db target id r output)
  step-Leaves db (acknowledges now ids) v = acknowledge_all-Leaves now (distinct ids) db v
  step-Leaves db (confirms now box ids) v = confirm_all-Leaves now box (distinct ids) db v
  step-Leaves db (withdraws now id e) v =
      Changes-Leaves db (step db (withdraws now id e)) v (cancel_undispatched-Changes now db id e)
  step-Leaves db (recovers now) v =
      Changes-Leaves db (step db (recovers now)) v (recover-Changes now db)

  run-Leaves : (db : Db) (cs : List Call) → IsValid db.actions → Leaves db (run db cs)
  unfolding run
  run-Leaves db [] v = Leaves-refl db v
  run-Leaves db (c ∷ cs) v =
      let one = step-Leaves db c v in
      Leaves-trans db (step db c) (run (step db c) cs) one (run-Leaves (step db c) cs one.0)

  -- Over any calls from a database whose actions are in order (no invocation twice, each action under
  -- its own, acknowledged only when over and with a receipt only when acknowledged), no action is lost; one that succeeded,
  -- failed or was cancelled keeps that state, and the hash of its result where it has one; a call that
  -- is over never runs again; and an acknowledgement and a confirmed receipt are never withdrawn.
  pub run-Kept :
      (db : Db) (cs : List Call) (k : ℕ)
      → IsValid db.actions
      → Kept (get k db.actions) (get k (run db cs).actions)
  run-Kept db cs k v = (run-Leaves db cs v).1 k

  -- Over any calls from the empty database, an action that is acknowledged is over, and an action with
  -- a confirmed receipt is acknowledged.
  pub run-IsOrdered :
      (cs : List Call) (k : ℕ) (a : ActionRow)
      → get k (run initial_db cs).actions ≡ some a
      → (is_some a.server_acked_at_ms ≡ true → is_over a.state ≡ true)
        × (is_some a.box_receipt_confirmed_at_ms ≡ true → is_some a.server_acked_at_ms ≡ true)
  run-IsOrdered cs k a e =
      row-IsOrdered (run initial_db cs).actions k a (run-Leaves initial_db cs (tt, tt, tt)).0 e
