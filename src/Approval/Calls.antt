-- ===== src/Approval/Calls.antt =====
-- packages/database/src/approval-repository.ts: every method that writes, as one step, and what a
-- step does to the table of requests. A call that throws commits nothing.
use moshu.Common.{
  ℕ, ◌≡◌, refl, sym, subst, ◌⊎◌, inl, inr, Bool, true, false, ◌&&◌, leb, ◌==◌, Option, none, some,
  Option-cases, Bool-cases, List, [], ◌∷◌, arith,
}
use moshu.Common.Result.{Result, ok, err}
use moshu.Common.JsMap.{get}
use moshu.Common.Entries.{AllEntries-get}
use moshu.Approval.Types.{
  ApprovalState, expired, cancelled, DecisionKind, approve_once, reject, DecisionSource, Decision,
  ApprovalRow, Db, CreateInput, DecideInput, UpdatePolicyInput, ApprovalError, constraint_failed,
}
use moshu.Approval.{
  is_pending, has_key, key_taken, action_taken, policy_covers, created_row, create, write_terminal,
  write_keyed, terminal_row, decided_state, decide_row, decide, cancel,
}
use moshu.Approval.Sessions.{expire_due, restart_policies, recover_on_startup, reset_for_session}
use moshu.Approval.Policy.{update_policy}
use moshu.Approval.Changes.{
  IsCovered, IsValid, Change, unchanged, created, ended, swept_all, end_all-swept,
}

pub data Call : Type 0 where
  create_call : CreateInput → Call
  decide_call : ℕ → DecideInput → Call
  cancel_call : ℕ → ℕ → DecisionSource → Call
  expire_call : ℕ → Call
  recover_call : ℕ → Call
  update_call : ℕ → UpdatePolicyInput → Call
  reset_call : ℕ → ℕ → Call

abbrev pub commit : {A : Type 0} → Db → Result ApprovalError (Db × A) → Db
commit db (ok (db', _)) = db'
commit db (err e) = db

unfoldable pub step : Db → Call → Db
step db (create_call input) = commit db (create db input)
step db (decide_call now input) = commit db (decide now db input)
step db (cancel_call now id source) = commit db (cancel now db id source)
step db (expire_call now) = expire_due now db
step db (recover_call now) = recover_on_startup now db
step db (update_call now input) = commit db (update_policy now db input)
step db (reset_call now session_id) = reset_for_session now db session_id

unfoldable pub run : Db → List Call → Db
run db [] = db
run db (c ∷ cs) = run (step db c) cs

abbrev pub initial_db : Db
initial_db = record { requests = []; policies = []; attention = []; timeline = [] }

abbrev pub Changes : Db → Db → Type 0
Changes db db' = Change db.requests db'.requests

abbrev pub row_id :
    (db : Db)
    → IsValid db.requests
    → (k : ℕ) (r : ApprovalRow) → get k db.requests ≡ some r
    → r.id ≡ k
row_id db v k r e = AllEntries-get (λ (j : ℕ) (r : ApprovalRow). r.id ≡ j) k r db.requests v.1 e

pub row-IsCovered :
    (db : Db)
    → IsValid db.requests
    → (k : ℕ) (r : ApprovalRow) → get k db.requests ≡ some r
    → IsCovered r
row-IsCovered db v k r e =
    AllEntries-get (λ (j : ℕ) (r : ApprovalRow). IsCovered r) k r db.requests v.2 e

IsCovered-created :
    (input : CreateInput) → policy_covers input ≡ true → IsCovered (created_row input)
IsCovered-created input h revision e = ground (arith, h, e)

pub create-Changes : (db : Db) (input : CreateInput) → Changes db (step db (create_call input))
unfolding step create
create-Changes db input = elim (Bool-cases (policy_covers input)) [
  | inr f ↦ rw f (unchanged refl)
  | inl t ↦ elim (Option-cases (get input.id db.requests)) [
    | inr (r, e) ↦ rw (t, e) (unchanged refl)
    | inl e ↦ elim (Bool-cases (action_taken input.action_id db)) [
      | inl taken ↦ rw (t, e, taken) (unchanged refl)
      | inr free ↦ rw (t, e, free) (created (created_row input) e (IsCovered-created input t) refl)
    ]
  ]
]

-- The end of a request that is on record.
pub write_terminal-Changes :
    (db : Db) (row : ApprovalRow) (state : ApprovalState) (now : ℕ) (decision : Option Decision)
    (key : Option ℕ)
    → IsValid db.requests
    → get row.id db.requests ≡ some row
    → is_pending row.state ≡ true
    → is_pending state ≡ false
    → Changes db (write_terminal db row state now decision key none).0
unfolding write_terminal
write_terminal-Changes db row state now decision key v here waiting final =
    ended row (terminal_row row state now decision key none) here
      (waiting, final, refl, refl, refl, refl, refl) (row-IsCovered db v row.id row here) refl

pub decided_final : (kind : DecisionKind) → is_pending (decided_state kind) ≡ false
decided_final approve_once = refl
decided_final reject = refl

pub keyed_cases :
    (db : Db) (row : ApprovalRow) (state : ApprovalState) (now : ℕ) (decision : Decision) (key : ℕ)
    (evidence : Option ℕ)
    → (write_keyed db row state now decision key evidence ≡ err constraint_failed)
      ⊎ (write_keyed db row state now decision key evidence
          ≡ ok (write_terminal db row state now (some decision) (some key) evidence))
unfolding write_keyed
keyed_cases db row state now decision key evidence = elim (Bool-cases (key_taken key row.id db)) [
  | inl t ↦ inl (rw t refl)
  | inr f ↦ inr (rw f refl)
]

pub at_id :
    (db : Db)
    → IsValid db.requests
    → (k : ℕ) (r : ApprovalRow) → get k db.requests ≡ some r
    → get r.id db.requests ≡ some r
at_id db v k r e = subst (λ (j : ℕ). get j db.requests ≡ some r) (sym (row_id db v k r e)) e

decide_row-Changes :
    (now : ℕ) (db : Db) (input : DecideInput) (row : ApprovalRow)
    → IsValid db.requests
    → get row.id db.requests ≡ some row
    → Changes db (commit db (decide_row now db input row))
unfolding decide_row
decide_row-Changes now db input row v here =
    let d : Decision = record { kind = input.decision; source = input.source; decided_at = now } in
    elim (Bool-cases (has_key input.idempotency_key row.decision_idempotency_key)) [
      | inl same ↦ rw same (unchanged refl)
      | inr other ↦ elim (Bool-cases (is_pending row.state)) [
        | inr over ↦ rw (other, over) (unchanged refl)
        | inl waiting ↦ elim (Bool-cases (leb row.expires_at_ms now)) [
          | inl late ↦
              rw (other, waiting, late)
                (write_terminal-Changes db row expired now none none v here waiting refl)
          | inr in_time ↦ elim (Bool-cases (input.expected_revision == row.revision)) [
            | inr stale ↦ rw (other, waiting, in_time, stale) (unchanged refl)
            | inl current ↦
                elim (keyed_cases db row (decided_state input.decision) now d input.idempotency_key
                  none) [
                    | inl e ↦ rw (other, waiting, in_time, current, e) (unchanged refl)
                    | inr e ↦
                        rw (other, waiting, in_time, current, e)
                          (write_terminal-Changes db row (decided_state input.decision) now (some d)
                            (some input.idempotency_key) v here waiting
                            (decided_final input.decision))
                  ]
          ]
        ]
      ]
    ]

pub decide-Changes :
    (now : ℕ) (db : Db) (input : DecideInput)
    → IsValid db.requests
    → Changes db (step db (decide_call now input))
unfolding step decide
decide-Changes now db input v = elim (Option-cases (get input.approval_id db.requests)) [
  | inl e ↦ rw (e, decide) (unchanged refl)
  | inr (row, e) ↦
      rw (e, decide) (decide_row-Changes now db input row v (at_id db v input.approval_id row e))
]

pub cancel-Changes :
    (now : ℕ) (db : Db) (id : ℕ) (source : DecisionSource)
    → IsValid db.requests
    → Changes db (step db (cancel_call now id source))
unfolding step cancel
cancel-Changes now db id source v = elim (Option-cases (get id db.requests)) [
  | inl e ↦ rw (e, cancel) (unchanged refl)
  | inr (row, e) ↦ elim (Bool-cases (is_pending row.state)) [
    | inr over ↦ rw (e, cancel, over) (unchanged refl)
    | inl waiting ↦
        rw (e, cancel, waiting)
          (write_terminal-Changes db row cancelled now
            (some (record { kind = reject; source = source; decided_at = now })) none v
            (at_id db v id row e) waiting refl)
  ]
]

and_left : (a b : Bool) → (a && b) ≡ true → a ≡ true
and_left true b h = refl
and_left false b h = h

and_right : (a b : Bool) → (a && b) ≡ true → b ≡ true
and_right true b h = h
and_right false true h = refl
and_right false false h = h

pub expire-Changes : (now : ℕ) (db : Db) → Changes db (step db (expire_call now))
unfolding step expire_due
expire-Changes now db =
    swept_all expired now (λ r. is_pending r.state && leb r.expires_at_ms now) refl
      (λ r h. and_left (is_pending r.state) (leb r.expires_at_ms now) h)
      (end_all-swept now expired (λ r. is_pending r.state && leb r.expires_at_ms now) db)

pub recover-Changes : (now : ℕ) (db : Db) → Changes db (step db (recover_call now))
unfolding step recover_on_startup restart_policies
recover-Changes now db =
    swept_all expired now (λ r. is_pending r.state) refl (λ r h. h)
      (end_all-swept now expired (λ r. is_pending r.state) db)

pub reset-Changes :
    (now : ℕ) (db : Db) (session_id : ℕ) → Changes db (step db (reset_call now session_id))
unfolding step reset_for_session
reset-Changes now db session_id =
    swept_all cancelled now (λ r. r.session_id == session_id && is_pending r.state) refl
      (λ r h. and_right (r.session_id == session_id) (is_pending r.state) h)
      (end_all-swept now cancelled (λ r. r.session_id == session_id && is_pending r.state) db)
