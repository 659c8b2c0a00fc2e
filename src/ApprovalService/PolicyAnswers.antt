-- ===== src/ApprovalService/PolicyAnswers.antt =====
-- packages/database/src/approval-repository.ts, as the service sees it: the request that `updatePolicy`
-- answers with.
use moshu.Common.{ℕ, ◌≡◌, refl, inl, inr, leb, ◌==◌, Option, none, some, Option-cases, Bool-cases}
use moshu.Common.Result.{Result, ok, err, Result-cases}
use moshu.Common.JsMap.{get}
use moshu.Approval.Types.{
  expired, approved, Decision, approve_once, from_policy, ApprovalRow, PolicyRow, Db,
  UpdatePolicyInput, ApprovalError, DecideOutcome, UpdatePolicyResult, applied, superseded,
}
use moshu.Approval.{is_pending}
use moshu.Approval.Policy.{
  update_policy, retried_policy, write_policy, settle_request, refused_request, named_request,
  put_policy, new_policy, with_policy, is_client_key,
}
use moshu.Approval.Changes.{IsValid}
use moshu.Approval.Calls.{at_id}
use moshu.Approval.PolicyCalls.{named_request_cases}
use moshu.ApprovalService.{both}
use moshu.ApprovalService.Answers.{
  Answers, IfOk, unchanged-Answers, write_terminal-Answers, write_keyed-Answers,
}

pub data Named (db db' : Db) : Option (DecideOutcome × ApprovalRow) → Type 0 where
  no_request : ((j : ℕ) → get j db'.requests ≡ get j db.requests) → Named db db' none
  request :
      (outcome : DecideOutcome) (row : ApprovalRow)
      → Answers db db' row
      → Named db db' (some (outcome, row))

abbrev IsNamed : Db → Db → UpdatePolicyResult → Type 0
IsNamed db db' r = Named db db' (both r.request_outcome r.request)

-- The policy is no part of a request.
unput :
    (db db' : Db) (p : PolicyRow) (row : ApprovalRow)
    → Answers (put_policy p db) db' row
    → Answers db db' row
unput db db' p row a = record { on_record = a.on_record; others = a.others }

with_policy-IsNamed :
    (db : Db) (p : PolicyRow) (outcome : DecideOutcome)
    (r : Result ApprovalError (Db × ApprovalRow))
    → IfOk (Answers (put_policy p db)) r
    → IfOk (IsNamed db) (with_policy p outcome r)
with_policy-IsNamed db p outcome (ok (db', row)) h = request outcome row (unput db db' p row h)
with_policy-IsNamed db p outcome (err e) h = tt

settle_request-IsNamed :
    (now : ℕ) (db : Db) (input : UpdatePolicyInput) (p : PolicyRow) (q : Option ApprovalRow)
    → ((row : ApprovalRow) → q ≡ some row → get row.id db.requests ≡ some row)
    → IfOk (IsNamed db) (settle_request now (put_policy p db) input p q)
unfolding settle_request
settle_request-IsNamed now db input p none h = no_request (λ j. refl)
settle_request-IsNamed now db input p (some row) h =
    let db1 = put_policy p db in
    let d : Decision = record { kind = approve_once; source = from_policy; decided_at = now } in
    elim (Bool-cases (is_pending row.state)) [
      | inr over ↦
          rw over (request superseded row (record { on_record = h row refl; others = λ j n. refl }))
      | inl waiting ↦ elim (Bool-cases (leb row.expires_at_ms now)) [
        | inl late ↦
            rw (waiting, late)
              (request superseded _
                (unput db _ p _ (write_terminal-Answers db1 row expired now none none none)))
        | inr in_time ↦
            rw (waiting, in_time)
              (with_policy-IsNamed db p applied _ (
                write_keyed-Answers db1 row approved now d input.idempotency_key (some p.revision)))
      ]
    ]

retried-IsNamed :
    (db : Db) (p : PolicyRow) (outcome : ApprovalRow → DecideOutcome) (q : Option ApprovalRow)
    → ((row : ApprovalRow) → q ≡ some row → get row.id db.requests ≡ some row)
    → Named db db (both (elim q [ none ↦ none | some row ↦ some (outcome row) ]) q)
retried-IsNamed db p outcome none h = no_request (λ j. refl)
retried-IsNamed db p outcome (some row) h =
    request (outcome row) row (unchanged-Answers db row (h row refl))

module _ (now : ℕ) (db : Db) (input : UpdatePolicyInput) (v : IsValid db.requests) where
  named_here :
      (q : Option ApprovalRow)
      → named_request db input.session_id input.approve_request ≡ ok q
      → (row : ApprovalRow) → q ≡ some row
      → get row.id db.requests ≡ some row
  named_here q e row g =
      let (a, _, here, _) =
        named_request_cases db input.session_id input.approve_request q e row g in
      at_id db v a.approval_id row here

  write_policy-IsNamed : (revision : ℕ) → IfOk (IsNamed db) (write_policy now db input revision)
  unfolding write_policy
  write_policy-IsNamed revision = elim (Bool-cases (input.expected_revision == revision)) [
    | inr stale ↦ rw stale tt
    | inl current ↦ elim (Result-cases (named_request db input.session_id input.approve_request)) [
      | inr (error, e) ↦ rw (current, e, write_policy) tt
      | inl (q, e) ↦ elim (Option-cases (refused_request now input q)) [
        | inr (error, f) ↦ rw (current, e, f, write_policy) tt
        | inl f ↦
            rw (current, e, f, write_policy)
              (settle_request-IsNamed now db input (new_policy now revision input) q
                (named_here q e))
      ]
    ]
  ]

  retried_policy-IsNamed : (p : PolicyRow) → IfOk (IsNamed db) (retried_policy db input p)
  unfolding retried_policy
  retried_policy-IsNamed p =
      elim (Result-cases (named_request db input.session_id input.approve_request)) [
        | inl (q, e) ↦ rw (e, retried_policy) (retried-IsNamed db p _ q (named_here q e))
        | inr (error, e) ↦ rw (e, retried_policy) tt
      ]

  pub update_policy-IsNamed :
      IfOk (λ db' r. Named db db' (both r.request_outcome r.request)) (update_policy now db input)
  unfolding update_policy
  update_policy-IsNamed = elim (Option-cases (get input.session_id db.policies)) [
    | inl e ↦ rw (e, update_policy) (write_policy-IsNamed 0)
    | inr (p, e) ↦ elim (Bool-cases (is_client_key input.idempotency_key p.last_idempotency_key)) [
      | inl same ↦ rw (e, update_policy, same) (retried_policy-IsNamed p)
      | inr other ↦ rw (e, update_policy, other) (write_policy-IsNamed p.revision)
    ]
  ]
