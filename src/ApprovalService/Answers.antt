-- ===== src/ApprovalService/Answers.antt =====
-- packages/database/src/approval-repository.ts, as the service sees it: what a method answers is the
-- row that is then on record, and no other request is touched.
use moshu.Common.{
  ℕ, ◌≡◌, refl, subst, inl, inr, false, leb, ◌==◌, Option, none, some, Option-cases, Bool-cases,
  arith,
}
use moshu.Common.Result.{Result, ok, err}
use moshu.Common.JsMap.{get, get-set}
use moshu.Common.Entries.{==_iff}
use moshu.Approval.Types.{
  ApprovalState, expired, cancelled, Decision, DecisionSource, reject, ApprovalRow, Db, CreateInput,
  DecideInput, ApprovalError, DecideOutcome, applied,
}
use moshu.Approval.{
  is_pending, has_key, action_taken, policy_covers, created_row, create, write_terminal,
  terminal_row, write_keyed, decided_state, decide_row, decide, cancel, with_outcome,
}
use moshu.Approval.Changes.{IsValid}
use moshu.Approval.Calls.{keyed_cases, at_id, row_id}

pub record Answers (db db' : Db) (row : ApprovalRow) : Type 0 where
  pub on_record : get row.id db'.requests ≡ some row
  pub others : (j : ℕ) → (row.id == j) ≡ false → get j db'.requests ≡ get j db.requests

abbrev pub IfOk : {A : Type 0} → (Db → A → Type 0) → Result ApprovalError (Db × A) → Type 0
IfOk P (ok (db, a)) = P db a
IfOk P (err e) = Unit

pub unchanged-Answers :
    (db : Db) (row : ApprovalRow) → get row.id db.requests ≡ some row → Answers db db row
unchanged-Answers db row e = record { on_record = e; others = λ j n. refl }

pub write_terminal-Answers :
    (db : Db) (row : ApprovalRow) (state : ApprovalState) (now : ℕ) (d : Option Decision)
    (key evidence : Option ℕ)
    → let after = write_terminal db row state now d key evidence in Answers db after.0 after.1
unfolding write_terminal
write_terminal-Answers db row state now d key evidence =
    let row' = terminal_row row state now d key evidence in
    record {
      on_record = rw (get-set row.id row.id row' db.requests, (==_iff row.id row.id).1 refl) refl;
      others = λ j n. rw (get-set j row.id row' db.requests, n) refl;
    }

pub write_keyed-Answers :
    (db : Db) (row : ApprovalRow) (state : ApprovalState) (now : ℕ) (d : Decision) (key : ℕ)
    (evidence : Option ℕ)
    → IfOk (Answers db) (write_keyed db row state now d key evidence)
write_keyed-Answers db row state now d key evidence =
    elim (keyed_cases db row state now d key evidence) [
      | inl e ↦ rw e tt
      | inr e ↦ rw e (write_terminal-Answers db row state now (some d) (some key) evidence)
    ]

decided :
    (db : Db) (outcome : DecideOutcome) (r : Result ApprovalError (Db × ApprovalRow))
    → IfOk (Answers db) r
    → IfOk (λ db' x. Answers db db' x.request) (with_outcome outcome r)
decided db outcome (ok (db', row)) h = h
decided db outcome (err e) h = tt

decide_row-Answers :
    (now : ℕ) (db : Db) (input : DecideInput) (row : ApprovalRow)
    → get row.id db.requests ≡ some row
    → IfOk (λ db' r. Answers db db' r.request) (decide_row now db input row)
unfolding decide_row
decide_row-Answers now db input row here =
    let d : Decision = record { kind = input.decision; source = input.source; decided_at = now } in
    elim (Bool-cases (has_key input.idempotency_key row.decision_idempotency_key)) [
      | inl same ↦ rw same (unchanged-Answers db row here)
      | inr other ↦ elim (Bool-cases (is_pending row.state)) [
        | inr over ↦ rw (other, over) (unchanged-Answers db row here)
        | inl waiting ↦ elim (Bool-cases (leb row.expires_at_ms now)) [
          | inl late ↦
              rw (other, waiting, late) (write_terminal-Answers db row expired now none none none)
          | inr in_time ↦ elim (Bool-cases (input.expected_revision == row.revision)) [
            | inr stale ↦ rw (other, waiting, in_time, stale) tt
            | inl current ↦
                rw (other, waiting, in_time, current)
                  (decided db applied
                    (write_keyed db row (decided_state input.decision) now d input.idempotency_key
                      none)
                    (write_keyed-Answers db row (decided_state input.decision) now d
                      input.idempotency_key none))
          ]
        ]
      ]
    ]

pub decide-Answers :
    (now : ℕ) (db : Db) (input : DecideInput)
    → IsValid db.requests
    → IfOk (λ db' r. Answers db db' r.request) (decide now db input)
unfolding decide
decide-Answers now db input v = elim (Option-cases (get input.approval_id db.requests)) [
  | inl e ↦ rw (e, decide) tt
  | inr (row, e) ↦
      rw (e, decide) (decide_row-Answers now db input row (at_id db v input.approval_id row e))
]

decide_row_id :
    (now : ℕ) (db : Db) (input : DecideInput) (row : ApprovalRow)
    → IfOk (λ db' r. r.request.id ≡ row.id) (decide_row now db input row)
unfolding decide_row write_keyed write_terminal
decide_row_id now db input row = ground arith

-- `decide` answers with the request it names.
pub decide_id :
    (now : ℕ) (db : Db) (input : DecideInput)
    → IsValid db.requests
    → IfOk (λ db' r. r.request.id ≡ input.approval_id) (decide now db input)
unfolding decide
decide_id now db input v = elim (Option-cases (get input.approval_id db.requests)) [
  | inl e ↦ rw (e, decide) tt
  | inr (row, e) ↦
      rw (e, decide)
        (subst (λ n. IfOk (λ db' r. r.request.id ≡ n) (decide_row now db input row))
          (row_id db v input.approval_id row e) (decide_row_id now db input row))
]

-- `cancel` answers with the request it names, which is over.
pub cancel-Answers :
    (now : ℕ) (db : Db) (id : ℕ) (source : DecisionSource)
    → IsValid db.requests
    → IfOk
        (λ db' row. Answers db db' row × (row.id ≡ id) × (is_pending row.state ≡ false))
        (cancel now db id source)
unfolding cancel write_terminal
cancel-Answers now db id source v = elim (Option-cases (get id db.requests)) [
  | inl e ↦ rw (e, cancel) tt
  | inr (row, e) ↦ elim (Bool-cases (is_pending row.state)) [
    | inr over ↦
        rw (e, cancel, over)
          (unchanged-Answers db row (at_id db v id row e), row_id db v id row e, over)
    | inl waiting ↦
        rw (e, cancel, waiting)
          (
            write_terminal-Answers db row cancelled now
                (some (record { kind = reject; source = source; decided_at = now })) none none,
            row_id db v id row e,
            refl,
          )
  ]
]

pub create-Answers :
    (db : Db) (input : CreateInput)
    → IfOk
        (λ db' row.
          Answers db db' row × (row ≡ created_row input) × (get row.id db.requests ≡ none))
        (create db input)
unfolding create
create-Answers db input = elim (Bool-cases (policy_covers input)) [
  | inr f ↦ rw f tt
  | inl t ↦ elim (Option-cases (get input.id db.requests)) [
    | inr (r, e) ↦ rw (t, e) tt
    | inl e ↦ elim (Bool-cases (action_taken input.action_id db)) [
      | inl taken ↦ rw (t, e, taken) tt
      | inr free ↦
          rw (t, e, free)
            (
              record {
                on_record =
                    rw
                      (
                        get-set input.id input.id (created_row input) db.requests,
                        (==_iff input.id input.id).1 refl,
                      )
                      refl;
                others = λ j n. rw (get-set j input.id (created_row input) db.requests, n) refl;
              },
              refl,
              e,
            )
    ]
  ]
]
