-- ===== src/Approval/Races.antt =====
-- packages/database/src/approval-repository.ts: two clients that set the policy of one session.
use moshu.Common.{
  ℕ, ◌+◌, ◌≡◌, refl, ◌⊎◌, inl, inr, true, false, ◌==◌, Option, none, some, Option-cases, Bool-cases,
  leb, arith,
}
use moshu.Common.Entries.{==_iff}
use moshu.Common.Result.{ok, err, Result-cases}
use moshu.Common.JsMap.{get, get-set}
use moshu.Approval.Types.{
  approved, approve_once, from_policy, Decision, ApprovalRow, Db, UpdatePolicyInput,
  UpdatePolicyResult, PolicyRow, applied, idempotent, policy_revision_conflict,
}
use moshu.Approval.{is_pending, write_terminal}
use moshu.Approval.Policy.{
  named_request, refused_request, settle_request, retried_policy, write_policy, update_policy,
  put_policy, new_policy, is_client_key,
}
use moshu.Approval.Calls.{keyed_cases}

-- The revision of a session's policy, 0 where it has none.
abbrev pub revision_of : Option PolicyRow → ℕ
revision_of none = 0
revision_of (some p) = p.revision

abbrev Settles : Db → PolicyRow → Db → UpdatePolicyResult → Type 0
Settles db p db' r = (db'.policies ≡ db.policies) × (r.policy ≡ p) × (r.outcome ≡ applied)

settle_request-Settles :
    (now : ℕ) (db : Db) (input : UpdatePolicyInput) (p : PolicyRow) (request : Option ApprovalRow)
    (db' : Db) (r : UpdatePolicyResult)
    → settle_request now db input p request ≡ ok (db', r)
    → Settles db p db' r
unfolding settle_request write_terminal
settle_request-Settles now db input p none db' r h = ground arith
settle_request-Settles now db input p (some row) db' r h =
    let d : Decision = record { kind = approve_once; source = from_policy; decided_at = now } in
    elim (Bool-cases (is_pending row.state)) [
      | inr over ↦ ground (arith, over, h)
      | inl waiting ↦ elim (Bool-cases (leb row.expires_at_ms now)) [
        | inl late ↦ ground (arith, waiting, late, h)
        | inr in_time ↦
            elim (keyed_cases db row approved now d input.idempotency_key (some p.revision)) [
              | inl e ↦ ground (arith, waiting, in_time, e, h)
              | inr e ↦ ground (arith, waiting, in_time, e, h)
            ]
      ]
    ]

abbrev pub IsWritten : ℕ → Db → UpdatePolicyInput → ℕ → Db → UpdatePolicyResult → Type 0
IsWritten now db input revision db' r =
    (input.expected_revision ≡ revision)
    × (r.outcome ≡ applied)
    × (r.policy ≡ new_policy now revision input)
    × (get input.session_id db'.policies ≡ some (new_policy now revision input))

write_policy-IsWritten :
    (now : ℕ) (db : Db) (input : UpdatePolicyInput) (revision : ℕ) (db' : Db)
    (r : UpdatePolicyResult)
    → write_policy now db input revision ≡ ok (db', r)
    → IsWritten now db input revision db' r
unfolding write_policy
write_policy-IsWritten now db input revision db' r h =
    elim (Bool-cases (input.expected_revision == revision)) [
      | inr stale ↦ absurd (ground (arith, stale, h))
      | inl current ↦
          elim (Result-cases (named_request db input.session_id input.approve_request)) [
            | inr (error, e) ↦ absurd (ground (arith, current, e, h))
            | inl (request, e) ↦ elim (Option-cases (refused_request now input request)) [
              | inr (error, f) ↦ absurd (ground (arith, current, e, f, h))
              | inl f ↦
                  let p = new_policy now revision input in
                  let (policies, policy, outcome) =
                    settle_request-Settles now (put_policy p db) input p request db' r
                      (rw (current, e, f, write_policy) at h) in
                  (
                    ground arith,
                    outcome,
                    policy,
                    rw
                        (
                          policies,
                          get-set input.session_id input.session_id p db.policies,
                          (==_iff input.session_id input.session_id).1 refl,
                        )
                        refl,
                  )
            ]
          ]
    ]

retried_same :
    (db : Db) (input : UpdatePolicyInput) (p : PolicyRow) (db' : Db) (r : UpdatePolicyResult)
    → retried_policy db input p ≡ ok (db', r)
    → (db' ≡ db) × (r.policy ≡ p) × (r.outcome ≡ idempotent)
unfolding retried_policy
retried_same db input p db' r h =
    elim (Result-cases (named_request db input.session_id input.approve_request)) [
      | inr (error, e) ↦ absurd (ground (arith, e, h))
      | inl (request, e) ↦ ground (arith, e, h)
    ]

-- An update of a policy that does not throw is either a retry, of the call that wrote the policy on
-- record, and changes nothing; or it expected the revision on record, and leaves the policy that it
-- asks for at the next revision.
pub update_policy_lem :
    (now : ℕ) (db : Db) (input : UpdatePolicyInput) (db' : Db) (r : UpdatePolicyResult)
    → update_policy now db input ≡ ok (db', r)
    → ((p : PolicyRow) × (get input.session_id db.policies ≡ some p)
        × (is_client_key input.idempotency_key p.last_idempotency_key ≡ true)
        × (db' ≡ db)
        × (r.policy ≡ p)
        × (r.outcome ≡ idempotent))
      ⊎ IsWritten now db input (revision_of (get input.session_id db.policies)) db' r
unfolding update_policy
update_policy_lem now db input db' r h = elim (Option-cases (get input.session_id db.policies)) [
  | inl e ↦ rw e (inr (write_policy-IsWritten now db input 0 db' r (rw (e, update_policy) at h)))
  | inr (p, e) ↦ elim (Bool-cases (is_client_key input.idempotency_key p.last_idempotency_key)) [
    | inl same ↦
        let (unchanged, policy, outcome) =
          retried_same db input p db' r (rw (e, update_policy, same) at h) in
        inl (p, e, same, unchanged, policy, outcome)
    | inr other ↦ rw e (
        inr (
          write_policy-IsWritten now db input p.revision db' r (rw (e, update_policy, other) at h)))
  ]
]

stale_refused :
    (now : ℕ) (db : Db) (input : UpdatePolicyInput) (p : PolicyRow)
    → get input.session_id db.policies ≡ some p
    → is_client_key input.idempotency_key p.last_idempotency_key ≡ false
    → (input.expected_revision == p.revision) ≡ false
    → update_policy now db input ≡ err (policy_revision_conflict p.revision)
unfolding update_policy write_policy
stale_refused now db input p e other stale = rw (e, update_policy, other, stale) refl

-- Of two clients that expect the same revision of a session's policy and have different keys, the
-- second fails with a conflict once the first is applied, and is told the new revision.
pub second_update_conflicts :
    (now later : ℕ) (db db' : Db) (input input' : UpdatePolicyInput) (r : UpdatePolicyResult)
    → update_policy now db input ≡ ok (db', r)
    → r.outcome ≡ applied
    → input'.session_id ≡ input.session_id
    → input'.expected_revision ≡ input.expected_revision
    → (input.idempotency_key == input'.idempotency_key) ≡ false
    → update_policy later db' input' ≡ err (policy_revision_conflict (input.expected_revision + 1))
second_update_conflicts now later db db' input input' r h a session expected differ =
    elim (update_policy_lem now db input db' r h) [
      | inl (p, _, _, _, _, outcome) ↦ absurd (ground (arith, outcome, a))
      | inr (current, _, _, left) ↦
          let revision = revision_of (get input.session_id db.policies) in
          rw current (
            stale_refused later db' input' (new_policy now revision input) (rw session left) differ
              (ground (arith, expected, current)))
    ]
