-- ===== src/Action/Grants.antt =====
-- packages/database/src/action-repository.ts: a grant is consumed once.
use moshu.Common.{
  ℕ, ◌≡◌, refl, inl, inr, true, false, ◌==◌, leb, Option, none, some, is_some, List, [], ◌∷◌,
  Option-cases, Bool-cases, distinct, arith,
}
use moshu.Common.Entries.{==_iff}
use moshu.Common.Result.{ok, err, Result-cases}
use moshu.Common.JsMap.{get, set, get-set}
use moshu.Common.Text.{Text}
use moshu.Action.Types.{
  ActionResult, Db, CreateGrantInput, HashText, digest, malformed, Evidence, GrantRow,
  grant_rejected,
}
use moshu.Action.{
  new_grant, create_grant, insert_grant, is_taken, consumable, consume_grant, Ending, mark_ended,
  cancel_undispatched,
}
use moshu.Action.Evidence.{
  complete, complete_local, acked_row, acknowledge_all, confirmed_row, confirm_all, receipt_error,
  recover_on_startup, is_over,
}
use moshu.Action.Calls.{commit}
use moshu.Action.History.{
  Call, creates, consumes, ends, completes, completes_local, acknowledges, confirms, withdraws,
  recovers, step, run,
}

-- A grant that was consumed stays as it is.
abbrev pub IsKept : Db → Db → Type 0
IsKept db db' =
    (k : ℕ) (g : GrantRow)
    → get k db.grants ≡ some g
    → is_some g.consumed_at_ms ≡ true
    → get k db'.grants ≡ some g

same-IsKept : (db db' : Db) → db'.grants ≡ db.grants → IsKept db db'
same-IsKept db db' e k g h t = rw e h

set-IsKept :
    (db db' : Db) (j : ℕ) (g : GrantRow)
    → ((h : GrantRow) → get j db.grants ≡ some h → is_some h.consumed_at_ms ≡ false)
    → db'.grants ≡ set j g db.grants
    → IsKept db db'
set-IsKept db db' j g fresh e k h x t = elim (Bool-cases (j == k)) [
  | inl same ↦ absurd (clash h (fresh h (rw ((==_iff j k).0 same) x)) t)
  | inr other ↦ rw (e, get-set k j g db.grants, other) x
]
  where
    clash : (h : GrantRow) → is_some h.consumed_at_ms ≡ false → is_some h.consumed_at_ms ≡ true → ⊥
    clash h f t = cc

free_grant :
    (db : Db) (input : CreateGrantInput)
    → is_taken db input ≡ false
    → get input.action_id db.grants ≡ none
unfolding is_taken
free_grant db input h = ground arith

insert-IsKept :
    (now : ℕ) (db : Db) (input : CreateGrantInput) (h : HashText)
    → get input.action_id db.grants ≡ none
    → IsKept db (commit db (insert_grant now db input h))
insert-IsKept now db input malformed fresh = same-IsKept db db refl
insert-IsKept now db input (digest h) fresh =
    set-IsKept db (commit db (insert_grant now db input (digest h))) input.action_id
      (new_grant now h input) (λ g e. ground (arith, fresh, e)) refl

create-IsKept :
    (now : ℕ) (db : Db) (input : CreateGrantInput)
    → IsKept db (commit db (create_grant now db input))
unfolding create_grant
create-IsKept now db input = elim (Bool-cases (leb input.expires_at_ms now)) [
  | inl late ↦ rw late (same-IsKept db db refl)
  | inr in_time ↦ elim (Bool-cases (is_taken db input)) [
    | inl taken ↦ rw (in_time, taken) (same-IsKept db db refl)
    | inr free ↦
        rw (in_time, free)
          (insert-IsKept now db input input.grant_token_hash (free_grant db input free))
  ]
]

consumable_lem :
    (now : ℕ) (db : Db) (action_id grant_id : ℕ) (token : HashText) (g : GrantRow)
    → consumable now db action_id grant_id token ≡ ok g
    → (get action_id db.grants ≡ some g) × (is_some g.consumed_at_ms ≡ false)
unfolding consumable
consumable_lem now db action_id grant_id token g h = ground arith

consumed_refused :
    (now : ℕ) (db : Db) (action_id grant_id : ℕ) (token : HashText) (g : GrantRow)
    → get action_id db.grants ≡ some g
    → is_some g.consumed_at_ms ≡ true
    → consumable now db action_id grant_id token ≡ err grant_rejected
unfolding consumable
consumed_refused now db action_id grant_id token g e t = ground arith

ended_grants :
    (now : ℕ) (db : Db) (id : ℕ) (ending : Ending) (e : Text)
    → (commit db (mark_ended now db id ending e)).grants ≡ db.grants
unfolding mark_ended
ended_grants now db id ending e = ground arith

withdrawn_grants :
    (now : ℕ) (db : Db) (id : ℕ) (e : Text)
    → (commit db (cancel_undispatched now db id e)).grants ≡ db.grants
unfolding cancel_undispatched
withdrawn_grants now db id e = ground arith

acknowledged_grants :
    (now : ℕ) (ids : List ℕ) (db : Db) → (acknowledge_all now ids db).0.grants ≡ db.grants
unfolding acknowledge_all
acknowledged_grants now [] db = refl
acknowledged_grants now (id ∷ ids) db = elim (Option-cases (get id db.actions)) [
  | inl n ↦ rw (n, acknowledge_all) refl
  | inr (a, f) ↦ elim (Bool-cases (is_over a.state)) [
    | inr going ↦ rw (f, acknowledge_all, going) refl
    | inl over ↦
        rw (f, acknowledge_all, over)
          (acknowledged_grants now ids
            (record db { actions = set id (acked_row now a) db.actions }))
  ]
]

confirmed_grants :
    (now box : ℕ) (ids : List ℕ) (db : Db) → (confirm_all now box ids db).0.grants ≡ db.grants
unfolding confirm_all
confirmed_grants now box [] db = refl
confirmed_grants now box (id ∷ ids) db = elim (Option-cases (get id db.actions)) [
  | inl n ↦ rw (n, confirm_all) (confirmed_grants now box ids db)
  | inr (a, f) ↦ elim (Option-cases (receipt_error box a)) [
    | inr (error, e) ↦ rw (f, confirm_all, e) refl
    | inl e ↦
        rw (f, confirm_all, e)
          (confirmed_grants now box ids
            (record db { actions = set id (confirmed_row now a) db.actions }))
  ]
]

-- What a consumption that succeeds did: the action's grant was not consumed, and now is.
consumed :
    (now : ℕ) (db db' : Db) (action_id grant_id : ℕ) (token : HashText)
    → consume_grant now db action_id grant_id token ≡ ok db'
    → (g : GrantRow) × (get action_id db.grants ≡ some g)
      × (is_some g.consumed_at_ms ≡ false)
      × (db'.grants ≡ set action_id (record g { consumed_at_ms = some now }) db.grants)
unfolding consume_grant
consumed now db db' action_id grant_id token h =
    elim (Result-cases (consumable now db action_id grant_id token)) [
      | inr (error, e) ↦ absurd (ground (arith, e, h))
      | inl (g, e) ↦
          let (here, fresh) = consumable_lem now db action_id grant_id token g e in
          (g, here, fresh, ground (arith, e, h))
    ]

consume-IsKept :
    (now : ℕ) (db : Db) (action_id grant_id : ℕ) (token : HashText)
    → IsKept db (commit db (consume_grant now db action_id grant_id token))
consume-IsKept now db action_id grant_id token =
    elim (Result-cases (consume_grant now db action_id grant_id token)) [
      | inr (error, e) ↦ rw e (same-IsKept db db refl)
      | inl (db', e) ↦
          let (g, here, fresh, left) = consumed now db db' action_id grant_id token e in
          rw e (
            set-IsKept db db' action_id (record g { consumed_at_ms = some now })
              (λ h x. ground (arith, here, fresh, x)) left)
    ]

module _ (sha256 : ActionResult → ℕ) where
  completed_grants :
      (now : ℕ) (db : Db) (box : ℕ) (e : Evidence) (output : Option ℕ)
      → (commit db (complete sha256 now db box e output)).grants ≡ db.grants
  unfolding complete
  completed_grants now db box e output = ground arith

  local_grants :
      (now : ℕ) (db : Db) (target id : ℕ) (r : ActionResult) (output : Option ℕ)
      → (commit db (complete_local sha256 now db target id r output)).grants ≡ db.grants
  unfolding complete_local
  local_grants now db target id r output = ground arith

  step-IsKept : (db : Db) (c : Call) → IsKept db (step sha256 db c)
  unfolding step
  step-IsKept db (creates now input) = create-IsKept now db input
  step-IsKept db (consumes now action_id grant_id token) =
      consume-IsKept now db action_id grant_id token
  step-IsKept db (ends now id ending e) =
      same-IsKept db (step sha256 db (ends now id ending e)) (ended_grants now db id ending e)
  step-IsKept db (completes now box e output) =
      same-IsKept db (step sha256 db (completes now box e output))
        (completed_grants now db box e output)
  step-IsKept db (completes_local now target id r output) =
      same-IsKept db (step sha256 db (completes_local now target id r output))
        (local_grants now db target id r output)
  step-IsKept db (acknowledges now ids) =
      same-IsKept db (step sha256 db (acknowledges now ids))
        (acknowledged_grants now (distinct ids) db)
  step-IsKept db (confirms now box ids) =
      same-IsKept db (step sha256 db (confirms now box ids))
        (confirmed_grants now box (distinct ids) db)
  step-IsKept db (withdraws now id e) =
      same-IsKept db (step sha256 db (withdraws now id e)) (withdrawn_grants now db id e)
  step-IsKept db (recovers now) =
      same-IsKept db (step sha256 db (recovers now)) (unfold recover_on_startup in refl)

  run-IsKept : (db : Db) (cs : List Call) → IsKept db (run sha256 db cs)
  unfolding run
  run-IsKept db [] k g e t = e
  run-IsKept db (c ∷ cs) k g e t = run-IsKept (step sha256 db c) cs k g (step-IsKept db c k g e t) t

  -- Once the grant of an action was consumed, and after any calls, no attempt to consume the grant of
  -- that action succeeds, at any instant, under any id and with any token.
  pub grant_consumed_once :
      (now later : ℕ) (db db' : Db) (action_id grant_id grant_id' : ℕ) (token token' : HashText)
      (cs : List Call)
      → consume_grant now db action_id grant_id token ≡ ok db'
      → consume_grant later (run sha256 db' cs) action_id grant_id' token' ≡ err grant_rejected
  unfolding consume_grant
  grant_consumed_once now later db db' action_id grant_id grant_id' token token' cs h =
      let (g, here, fresh, left) = consumed now db db' action_id grant_id token h in
      let g' : GrantRow = record g { consumed_at_ms = some now } in
      let kept =
        run-IsKept db' cs action_id g'
          (rw (left, get-set action_id action_id g' db.grants, (==_iff action_id action_id).1 refl)
            refl)
          refl in
      rw
        (
          consume_grant,
          consumed_refused later (run sha256 db' cs) action_id grant_id' token' g' kept refl,
        )
        refl
