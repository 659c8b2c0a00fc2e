-- ===== src/Approval/Decisions.antt =====
-- packages/database/src/approval-repository.ts: `decide`, and what its answer is worth later.
use moshu.Common.{
  ℕ, ◌≡◌, refl, ap, sym, ◌<◌, inl, inr, true, false, leb, ◌==◌, if◌then◌else◌, none, some, List,
  Option-cases, Bool-cases, arith,
}
use moshu.Common.JsMap.{get, set, get-set}
use moshu.Common.Entries.{==_iff}
use moshu.Common.Result.{Result, ok, err}
use moshu.Approval.Types.{
  Decision, ApprovalRow, Db, DecideInput, DecideResult, applied, idempotent, superseded,
  ApprovalError, not_found, constraint_failed,
}
use moshu.Approval.{
  is_pending, has_key, decide_row, decide, write_terminal, terminal_row, decided_state,
  with_outcome,
}
use moshu.Approval.Changes.{IsValid}
use moshu.Approval.Calls.{Call, run, row_id, keyed_cases, step, decide_call, decided_final}
use moshu.Approval.History.{step-IsValid, ended_stays}

abbrev pub decision_of : ℕ → DecideInput → Decision
decision_of now input = record { kind = input.decision; source = input.source; decided_at = now }

abbrev pub decided_row : ℕ → DecideInput → ApprovalRow → ApprovalRow
decided_row now input row =
    terminal_row row (decided_state input.decision) now (some (decision_of now input))
      (some input.idempotency_key) none

-- What must hold of a request for a decision to be applied to it.
abbrev pub IsOpen : ℕ → DecideInput → ApprovalRow → Type 0
IsOpen now input row =
    (is_pending row.state ≡ true)
    × (now < row.expires_at_ms)
    × (input.expected_revision ≡ row.revision)

applied_failed :
    {db' : Db} {r : DecideResult} → with_outcome applied (err constraint_failed) ≡ ok (db', r) → ⊥
applied_failed h = ground (arith, h)

applied_injective :
    (x db' : Db) (row r : ApprovalRow)
    → with_outcome applied (ok (x, row)) ≡ ok (db', record { outcome = applied; request = r })
    → (r ≡ row) × (db' ≡ x)
applied_injective x db' row r h = ground (arith, h)

applied_row :
    (now : ℕ) (db : Db) (input : DecideInput) (row r : ApprovalRow) (db' : Db)
    → decide_row now db input row ≡ ok (db', record { outcome = applied; request = r })
    → IsOpen now input row
      × (r ≡ decided_row now input row)
      × (db'.requests ≡ set row.id (decided_row now input row) db.requests)
unfolding decide_row write_terminal
applied_row now db input row r db' h =
    elim (Bool-cases (has_key input.idempotency_key row.decision_idempotency_key)) [
      | inl same ↦ absurd (ground (arith, same, h))
      | inr other ↦ elim (Bool-cases (is_pending row.state)) [
        | inr over ↦ absurd (ground (arith, other, over, h))
        | inl waiting ↦ elim (Bool-cases (leb row.expires_at_ms now)) [
          | inl late ↦ absurd (ground (arith, other, waiting, late, h))
          | inr in_time ↦ elim (Bool-cases (input.expected_revision == row.revision)) [
            | inr stale ↦ absurd (ground (arith, other, waiting, in_time, stale, h))
            | inl current ↦
                elim (keyed_cases db row (decided_state input.decision) now (decision_of now input)
                  input.idempotency_key none) [
                    | inl e ↦
                        absurd (applied_failed (rw (other, waiting, in_time, current, e) at h))
                    | inr e ↦
                        let g =
                          applied_injective _ db' _ r
                            (rw (other, waiting, in_time, current, e) at h) in
                        (
                          (waiting, ground arith, ground arith),
                          g.0,
                          ap (λ (x : Db). x.requests) g.1,
                        )
                  ]
          ]
        ]
      ]
    ]

not_found_applied :
    (x : Result ApprovalError (Db × DecideResult)) (id : ℕ) (db' : Db) (r : DecideResult)
    → x ≡ err (not_found id)
    → x ≡ ok (db', r)
    → ⊥
not_found_applied x id db' r e h = ground arith

committed :
    (now : ℕ) (db : Db) (input : DecideInput) (r : ApprovalRow) (db' : Db)
    → decide now db input ≡ ok (db', record { outcome = applied; request = r })
    → db' ≡ step db (decide_call now input)
unfolding step
committed now db input r db' h = rw h refl

-- What an applied decision leaves on record.
applied_leaves :
    (now : ℕ) (db : Db) (input : DecideInput) (r : ApprovalRow) (db' : Db)
    → IsValid db.requests
    → decide now db input ≡ ok (db', record { outcome = applied; request = r })
    → (row : ApprovalRow) × (get input.approval_id db.requests ≡ some row)
      × IsOpen now input row
      × (r ≡ decided_row now input row)
      × (get input.approval_id db'.requests ≡ some r)
unfolding decide
applied_leaves now db input r db' v h = elim (Option-cases (get input.approval_id db.requests)) [
  | inl e ↦ absurd (
      not_found_applied (decide now db input) input.approval_id db'
        (record { outcome = applied; request = r }) (rw (e, decide) refl) h)
  | inr (row, e) ↦
      let (ready, same, left) = applied_row now db input row r db' (rw (e, decide) at h) in
      (
        row,
        e,
        ready,
        same,
        rw
            (
              left,
              get-set input.approval_id row.id (decided_row now input row) db.requests,
              (==_iff row.id input.approval_id).1 (row_id db v input.approval_id row e),
            )
            (ap some (sym same)),
      )
]

later_outcome :
    (later : ℕ) (db : Db) (input : DecideInput) (row : ApprovalRow) (key : ℕ)
    → row.decision_idempotency_key ≡ some key
    → is_pending row.state ≡ false
    → decide_row later db input row
      ≡ ok (
        db,
        record {
          outcome = if key == input.idempotency_key then idempotent else superseded;
          request = row;
        },
      )
unfolding decide_row has_key
later_outcome later db input row key e over = elim (Bool-cases (key == input.idempotency_key)) [
  | inl same ↦ rw (e, over, same, has_key) refl
  | inr other ↦ rw (e, over, other, has_key) refl
]

-- In a database that is in order, a decision that was applied was made on a request that was pending and in time, at the revision
-- that the client expected. It wins once and for all: after any further calls, a decision on that
-- request, at any later instant, changes nothing and answers with the row that the first one left, as
-- idempotent if it has the first one's key and as superseded if not.
pub decide_wins_once :
    (now later : ℕ) (db db' : Db) (input input' : DecideInput) (r : ApprovalRow) (cs : List Call)
    → IsValid db.requests
    → decide now db input ≡ ok (db', record { outcome = applied; request = r })
    → input'.approval_id ≡ input.approval_id
    → ((row : ApprovalRow) × (get input.approval_id db.requests ≡ some row)
        × IsOpen now input row
        × (r ≡ decided_row now input row))
      × (decide later (run db' cs) input'
          ≡ ok (
            run db' cs,
            record {
              outcome =
                  if input.idempotency_key == input'.idempotency_key
                  then idempotent
                  else superseded;
              request = r;
            },
          ))
unfolding decide run
decide_wins_once now later db db' input input' r cs v h same =
    let (row, e, ready, shape, left) = applied_leaves now db input r db' v h in
    let valid : IsValid db'.requests =
      rw (committed now db input r db' h) (step-IsValid db (decide_call now input) v) in
    let stays =
      ended_stays db' cs input.approval_id r valid left (rw shape (decided_final input.decision)) in
    (
      (row, e, ready, shape),
      rw (decide, same, stays)
          (later_outcome later (run db' cs) input' r input.idempotency_key (rw shape refl)
            (rw shape (decided_final input.decision))),
    )
