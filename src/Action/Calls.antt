-- ===== src/Action/Calls.antt =====
-- packages/database/src/action-repository.ts: what each method does to the actions.
use moshu.Common.{
  ℕ, ◌≡◌, refl, inl, inr, true, false, leb, ◌==◌, if◌then◌else◌, none, some, is_some, Option-cases,
  Bool-cases, arith,
}
use moshu.Common.Result.{Result, ok, err, Result-cases}
use moshu.Common.JsMap.{get, find}
use moshu.Common.Text.{Text}
use moshu.Action.Types.{
  running, HashText, digest, malformed, ActionRow, Db, CreateGrantInput, ActionError,
}
use moshu.Action.{
  is_terminal, is_granted, new_action, is_taken, insert_grant, create_grant, consumable,
  consume_grant, Ending, as_failed, as_cancelled, as_outcome_unknown, mark_ended, ended_row,
  undispatched_row, cancel_undispatched, bound_safe_error, is_agent_server,
}
use moshu.Action.Evidence.{is_over}
use moshu.Action.Changes.{
  IsOrdered, Follows, IsValid, Change, unchanged, created, updated, find-get_key,
}

abbrev pub commit : Db → Result ActionError Db → Db
commit db (ok db') = db'
commit db (err e) = db

abbrev pub Changes : Db → Db → Type 0
Changes db db' = Change db.actions db'.actions

insert_grant-Changes :
    (now : ℕ) (db : Db) (input : CreateGrantInput) (h : HashText)
    → get input.invocation_id db.actions ≡ none
    → Changes db (commit db (insert_grant now db input h))
insert_grant-Changes now db input malformed fresh = unchanged refl
insert_grant-Changes now db input (digest h) fresh =
    created input.invocation_id (new_action now input) fresh refl
      ((λ t. ground (arith, t)), (λ t. ground (arith, t))) refl

free_invocation :
    (db : Db) (input : CreateGrantInput)
    → is_taken db input ≡ false
    → get input.invocation_id db.actions ≡ none
unfolding is_taken
free_invocation db input h = ground arith

pub create_grant-Changes :
    (now : ℕ) (db : Db) (input : CreateGrantInput)
    → Changes db (commit db (create_grant now db input))
unfolding create_grant
create_grant-Changes now db input = elim (Bool-cases (leb input.expires_at_ms now)) [
  | inl late ↦ rw late (unchanged refl)
  | inr in_time ↦ elim (Bool-cases (is_taken db input)) [
    | inl taken ↦ rw (in_time, taken) (unchanged refl)
    | inr free ↦
        rw (in_time, free)
          (insert_grant-Changes now db input input.grant_token_hash (free_invocation db input free))
  ]
]

granted-Follows :
    (now : ℕ) (a : ActionRow)
    → is_granted a.state ≡ true
    → Follows a (record a { state = running; updated_at_ms = now })
granted-Follows now a g =
    (refl, refl, λ t. ground (arith, g, t), λ h t e. e, λ t. ground (arith, g, t), λ t. t, λ t. t)

granted-IsOrdered :
    (now : ℕ) (a : ActionRow)
    → is_granted a.state ≡ true
    → IsOrdered a
    → IsOrdered (record a { state = running; updated_at_ms = now })
granted-IsOrdered now a g h = (λ t. ground (arith, g, h.0 t), h.1)

pub consume_grant-Changes :
    (now : ℕ) (db : Db) (action_id grant_id : ℕ) (token : HashText)
    → IsValid db.actions
    → Changes db (commit db (consume_grant now db action_id grant_id token))
unfolding consume_grant
consume_grant-Changes now db action_id grant_id token v =
    elim (Result-cases (consumable now db action_id grant_id token)) [
      | inr (error, e) ↦ rw (e, consume_grant) (unchanged refl)
      | inl (g, e) ↦ elim (Option-cases (find (λ a. a.id == action_id) db.actions)) [
        | inl n ↦ rw (e, n, consume_grant) (unchanged refl)
        | inr (a, f) ↦ elim (Bool-cases (is_granted a.state)) [
          | inr other ↦ rw (e, f, consume_grant, other) (unchanged refl)
          | inl t ↦
              rw (e, f, consume_grant, t)
                (updated a.invocation_id a (record a { state = running; updated_at_ms = now })
                  (find-get_key (λ a. a.id == action_id) db.actions a v.0 v.1 f).0
                  (granted-Follows now a t) (granted-IsOrdered now a t) refl)
        ]
      ]
    ]

ended_over :
    (ending : Ending) (now : ℕ) (a : ActionRow) (e : Text)
    → is_over (ended_row now a ending e).state ≡ true
ended_over as_failed now a e = refl
ended_over as_cancelled now a e = refl
ended_over as_outcome_unknown now a e = refl

pub acked_stays :
    (now : ℕ) (a : ActionRow)
    → is_some a.server_acked_at_ms ≡ true
    → is_some (if is_agent_server a.target_kind then some now else a.server_acked_at_ms) ≡ true
acked_stays now a h = elim (Bool-cases (is_agent_server a.target_kind)) [
  | inl t ↦ rw t refl
  | inr f ↦ rw f h
]

pub mark_ended-Changes :
    (now : ℕ) (db : Db) (id : ℕ) (ending : Ending) (e : Text)
    → Changes db (commit db (mark_ended now db id ending e))
unfolding mark_ended
mark_ended-Changes now db id ending e = elim (Option-cases (get id db.actions)) [
  | inl n ↦ rw (n, mark_ended) (unchanged refl)
  | inr (a, f) ↦ elim (Bool-cases (is_terminal a.state)) [
    | inl over ↦ rw (f, mark_ended, over) (unchanged refl)
    | inr going ↦
        let b = ended_row now a ending (bound_safe_error e) in
        rw (f, mark_ended, going)
          (updated id a b f
            (
              refl,
              refl,
              λ t. ground (arith, going, t),
              λ h t e'. e',
              λ t. ended_over ending now a (bound_safe_error e),
              acked_stays now a,
              λ t. t,
            )
            (λ h.
              (λ t. ended_over ending now a (bound_safe_error e), λ t. acked_stays now a (h.1 t)))
            refl)
  ]
]

pub cancel_undispatched-Changes :
    (now : ℕ) (db : Db) (id : ℕ) (e : Text)
    → Changes db (commit db (cancel_undispatched now db id e))
unfolding cancel_undispatched
cancel_undispatched-Changes now db id e = elim (Option-cases (get id db.actions)) [
  | inl n ↦ rw (n, cancel_undispatched) (unchanged refl)
  | inr (a, f) ↦ elim (Bool-cases (is_terminal a.state)) [
    | inl over ↦ rw (f, cancel_undispatched, over) (unchanged refl)
    | inr going ↦
        rw (f, cancel_undispatched, going)
          (updated id a (undispatched_row now a (bound_safe_error e)) f
            (
              refl,
              refl,
              λ t. ground (arith, going, t),
              λ h t e'. e',
              λ t. refl,
              λ t. refl,
              λ t. refl,
            )
            (λ h. (λ t. refl, λ t. refl)) refl)
  ]
]
