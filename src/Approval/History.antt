-- ===== src/Approval/History.antt =====
-- packages/database/src/approval-repository.ts: what any sequence of calls does to a request. The
-- rows that a deleted session takes along are not deleted here.
use moshu.Common.{ℕ, ◌≡◌, refl, inl, inr, true, false, some, List, [], ◌∷◌, Option-cases}
use moshu.Common.JsMap.{get}
use moshu.Approval.Types.{ApprovalRow, Db}
use moshu.Approval.{is_pending}
use moshu.Approval.Changes.{
  IsValid, Change-IsValid, Change-Evolves, Evolves, Evolves-refl, Evolves-trans,
}
use moshu.Approval.Calls.{
  Call, create_call, decide_call, cancel_call, expire_call, recover_call, update_call, reset_call,
  step, run, initial_db, Changes, row-IsCovered, create-Changes, decide-Changes, cancel-Changes,
  expire-Changes, recover-Changes, reset-Changes,
}
use moshu.Approval.PolicyCalls.{update-Changes}

step-Changes : (db : Db) (c : Call) → IsValid db.requests → Changes db (step db c)
unfolding step
step-Changes db (create_call input) v = create-Changes db input
step-Changes db (decide_call now input) v = decide-Changes now db input v
step-Changes db (cancel_call now id source) v = cancel-Changes now db id source v
step-Changes db (expire_call now) v = expire-Changes now db
step-Changes db (recover_call now) v = recover-Changes now db
step-Changes db (update_call now input) v = update-Changes now db input v
step-Changes db (reset_call now session_id) v = reset-Changes now db session_id

pub step-IsValid : (db : Db) (c : Call) → IsValid db.requests → IsValid (step db c).requests
step-IsValid db c v = Change-IsValid db.requests (step db c).requests v (step-Changes db c v)

pub run-IsValid : (db : Db) (cs : List Call) → IsValid db.requests → IsValid (run db cs).requests
unfolding run
run-IsValid db [] v = v
run-IsValid db (c ∷ cs) v = run-IsValid (step db c) cs (step-IsValid db c v)

-- Over any calls from a database that is in order (no id twice, each request under its own, and none
-- with a policy's evidence but where its risk may be overridden), each request stays as it is, or it
-- was pending and has ended, once, with its revision one higher and its id, action, risk and expiry
-- kept. It is never lost.
pub run-Evolves :
    (db : Db) (cs : List Call) (k : ℕ)
    → IsValid db.requests
    → Evolves (get k db.requests) (get k (run db cs).requests)
unfolding run
run-Evolves db [] k v = Evolves-refl (get k db.requests)
run-Evolves db (c ∷ cs) k v =
    Evolves-trans (get k db.requests) (get k (step db c).requests)
      (get k (run (step db c) cs).requests)
      (Change-Evolves db.requests (step db c).requests k v (step-Changes db c v))
      (run-Evolves (step db c) cs k (step-IsValid db c v))

-- Over any calls from the empty database, a request that holds the evidence of an "Allow all" policy
-- has a risk that may be overridden.
pub policy_covers_overridable_only :
    (cs : List Call) (k : ℕ) (r : ApprovalRow) (revision : ℕ)
    → get k (run initial_db cs).requests ≡ some r
    → r.policy_evidence ≡ some revision
    → r.risk.overridable ≡ true
policy_covers_overridable_only cs k r revision e h =
    row-IsCovered (run initial_db cs) (run-IsValid initial_db cs (tt, tt, tt)) k r e revision h

-- What is left of a request that has ended: the same row, forever.
pub ended_stays :
    (db : Db) (cs : List Call) (k : ℕ) (r : ApprovalRow)
    → IsValid db.requests
    → get k db.requests ≡ some r
    → is_pending r.state ≡ false
    → get k (run db cs).requests ≡ some r
ended_stays db cs k r v e over = elim (Option-cases (get k (run db cs).requests)) [
  | inl n ↦ absurd (rw (e, n) at (run-Evolves db cs k v))
  | inr (r', f) ↦ elim (rw (e, f) at (run-Evolves db cs k v)) [
    | inl same ↦ rw (f, same) refl
    | inr ends ↦ cc
  ]
]
