-- ===== src/Approval/PolicyCalls.antt =====
-- packages/database/src/approval-repository.ts: what `updatePolicy` does to the table of requests.
use moshu.Common.{
  ℕ, ◌≡◌, refl, true, ◌==◌, leb, inl, inr, Option, none, some, Option-cases, Bool-cases, arith,
}
use moshu.Common.Result.{ok, Result-cases}
use moshu.Common.JsMap.{get}
use moshu.Approval.Types.{
  approved, expired, approve_once, from_policy, Decision, ApprovalRow, Db, ApproveRequest,
  UpdatePolicyInput, PolicyRow,
}
use moshu.Approval.{is_pending, write_terminal, terminal_row}
use moshu.Approval.Policy.{
  named_request, request_refusal, refused_request, settle_request, retried_policy, write_policy,
  update_policy, put_policy, new_policy, is_client_key,
}
use moshu.Approval.Changes.{IsValid, unchanged, ended}
use moshu.Approval.Calls.{commit, Changes, at_id, keyed_cases, write_terminal-Changes}

settle_request-Changes :
    (now : ℕ) (db : Db) (input : UpdatePolicyInput) (p : PolicyRow) (request : Option ApprovalRow)
    → IsValid db.requests
    → ((row : ApprovalRow)
        → request ≡ some row
        → (get row.id db.requests ≡ some row) × (row.risk.overridable ≡ true))
    → Changes db (commit db (settle_request now (put_policy p db) input p request))
unfolding settle_request
settle_request-Changes now db input p none v named = unchanged refl
settle_request-Changes now db input p (some row) v named =
    let d : Decision = record { kind = approve_once; source = from_policy; decided_at = now } in
    elim (Bool-cases (is_pending row.state)) [
      | inr over ↦ rw over (unchanged refl)
      | inl waiting ↦ elim (Bool-cases (leb row.expires_at_ms now)) [
        | inl late ↦
            rw (waiting, late)
              (write_terminal-Changes (put_policy p db) row expired now none none v
                (named row refl).0 waiting refl)
        | inr in_time ↦
            elim (keyed_cases (put_policy p db) row approved now d input.idempotency_key
              (some p.revision)) [
                | inl e ↦ rw (waiting, in_time, e) (unchanged refl)
                | inr e ↦
                    rw (waiting, in_time, e, write_terminal)
                      (ended row
                        (terminal_row row approved now (some d) (some input.idempotency_key)
                          (some p.revision))
                        (named row refl).0 (waiting, refl, refl, refl, refl, refl, refl)
                        (λ revision _. (named row refl).1) refl)
              ]
      ]
    ]

pub named_request_cases :
    (db : Db) (session_id : ℕ) (q : Option ApproveRequest) (request : Option ApprovalRow)
    → named_request db session_id q ≡ ok request
    → (row : ApprovalRow) → request ≡ some row
    → (a : ApproveRequest) × (q ≡ some a)
      × (get a.approval_id db.requests ≡ some row)
      × (row.session_id ≡ session_id)
unfolding named_request
named_request_cases db session_id none request h row e = ground arith
named_request_cases db session_id (some a) request h row e =
    elim (Option-cases (get a.approval_id db.requests)) [
      | inl n ↦ ground arith
      | inr (r, f) ↦ elim (Bool-cases (r.session_id == session_id)) [
        | inl own ↦ (a, refl, ground arith, ground arith)
        | inr other ↦ ground arith
      ]
    ]

allowed :
    (now : ℕ) (input : UpdatePolicyInput) (row : ApprovalRow)
    → refused_request now input (some row) ≡ none
    → row.risk.overridable ≡ true
unfolding refused_request request_refusal
allowed now input row h = ground arith

retried_policy-Changes :
    (db : Db) (input : UpdatePolicyInput) (p : PolicyRow)
    → Changes db (commit db (retried_policy db input p))
unfolding retried_policy
retried_policy-Changes db input p =
    elim (Result-cases (named_request db input.session_id input.approve_request)) [
      | inl (request, e) ↦ rw (e, retried_policy) (unchanged refl)
      | inr (error, e) ↦ rw (e, retried_policy) (unchanged refl)
    ]

write_policy-Changes :
    (now : ℕ) (db : Db) (input : UpdatePolicyInput) (revision : ℕ)
    → IsValid db.requests
    → Changes db (commit db (write_policy now db input revision))
unfolding write_policy
write_policy-Changes now db input revision v =
    elim (Bool-cases (input.expected_revision == revision)) [
      | inr stale ↦ rw stale (unchanged refl)
      | inl current ↦
          elim (Result-cases (named_request db input.session_id input.approve_request)) [
            | inr (error, e) ↦ rw (current, e, write_policy) (unchanged refl)
            | inl (request, e) ↦ elim (Option-cases (refused_request now input request)) [
              | inr (error, f) ↦ rw (current, e, f, write_policy) (unchanged refl)
              | inl f ↦
                  rw (current, e, f, write_policy)
                    (settle_request-Changes now db input (new_policy now revision input) request v
                      (λ row g.
                        let (a, _, here, _) =
                          named_request_cases db input.session_id input.approve_request request e
                            row g in
                        (at_id db v a.approval_id row here, allowed now input row (rw g at f))))
            ]
          ]
    ]

pub update-Changes :
    (now : ℕ) (db : Db) (input : UpdatePolicyInput)
    → IsValid db.requests
    → Changes db (commit db (update_policy now db input))
unfolding update_policy
update-Changes now db input v = elim (Option-cases (get input.session_id db.policies)) [
  | inl e ↦ rw (e, update_policy) (write_policy-Changes now db input 0 v)
  | inr (p, e) ↦ elim (Bool-cases (is_client_key input.idempotency_key p.last_idempotency_key)) [
    | inl same ↦ rw (e, update_policy, same) (retried_policy-Changes db input p)
    | inr other ↦ rw (e, update_policy, other) (write_policy-Changes now db input p.revision v)
  ]
]
