-- ===== src/Action/EvidenceCalls.antt =====
-- packages/database/src/action-repository.ts: what evidence, acknowledgements, receipts and the
-- recovery do to the actions.
use moshu.Common.{
  ℕ, ◌≡◌, refl, inl, inr, true, ◌&&◌, Option, none, some, is_some, List, [], ◌∷◌, Option-cases,
  Bool-cases, arith,
}
use moshu.Common.Result.{ok, Result-cases}
use moshu.Common.JsMap.{get, set}
use moshu.Action.Types.{
  ActionState, ActionResult, ActionRow, Db, Evidence, EvidenceState, box_succeeded, box_failed,
  box_cancelled, box_outcome_unknown,
}
use moshu.Action.{is_terminal, is_granted, is_running}
use moshu.Action.Evidence.{
  evidence_state, same_state, agrees, same_hash, hash_of, completed_row, check_evidence, complete,
  check_local, local_row, complete_local, is_over, acked_row, acknowledge_all, confirmed_row,
  receipt_error, confirm_all, recovered_row, recover_on_startup, is_succeeded,
}
use moshu.Action.Changes.{
  IsOrdered, Follows, Follows-refl, IsValid, unchanged, updated, mapped, Change-IsValid,
  Change-Kept, Kept, Kept-refl, Kept-trans,
}
use moshu.Action.Calls.{commit, Changes, acked_stays}

evidence_over : (s : EvidenceState) → is_over (evidence_state s) ≡ true
evidence_over box_succeeded = refl
evidence_over box_failed = refl
evidence_over box_cancelled = refl
evidence_over box_outcome_unknown = refl

same_state_sound :
    (s : ActionState) (t : EvidenceState) → same_state s t ≡ true → evidence_state t ≡ s
unfolding same_state
same_state_sound s t h = ground arith

same_hash_sound : (h : ℕ) (o : Option ℕ) → same_hash (some h) o ≡ true → o ≡ some h
unfolding same_hash
same_hash_sound h none e = ground arith
same_hash_sound h (some k) e = ground arith

module _ (sha256 : ActionResult → ℕ) where
  agrees_sound :
      (a : ActionRow) (e : Evidence)
      → agrees sha256 a e ≡ true
      → is_terminal a.state ≡ true
      → (same_state a.state e.state ≡ true)
        × ((h : ℕ) → a.result_hash ≡ some h → same_hash (some h) (hash_of sha256 e.result) ≡ true)
  unfolding agrees
  agrees_sound a e g t = (ground arith, λ h x. ground (arith, g, t, x))

  checked :
      (db : Db) (box : ℕ) (e : Evidence) (a : ActionRow)
      → check_evidence sha256 db box e ≡ ok a
      → (get e.invocation_id db.actions ≡ some a) × (agrees sha256 a e ≡ true)
  unfolding check_evidence
  checked db box e a h = ground arith

  pub complete-Changes :
      (now : ℕ) (db : Db) (box : ℕ) (e : Evidence) (output : Option ℕ)
      → Changes db (commit db (complete sha256 now db box e output))
  unfolding complete
  complete-Changes now db box e output = elim (Result-cases (check_evidence sha256 db box e)) [
    | inr (error, x) ↦ rw (x, complete) (unchanged refl)
    | inl (a, x) ↦
        let (here, g) = checked db box e a x in
        rw (x, complete)
          (updated e.invocation_id a (completed_row sha256 now a e) here
            (
              refl,
              refl,
              λ t. same_state_sound a.state e.state (agrees_sound a e g t).0,
              λ h t y. same_hash_sound h (hash_of sha256 e.result) ((agrees_sound a e g t).1 h y),
              λ t. evidence_over e.state,
              λ t. t,
              λ t. t,
            )
            (λ h. (λ t. evidence_over e.state, h.1)) refl)
  ]

  checked_local :
      (db : Db) (target id : ℕ) (r : ActionResult) (a : ActionRow)
      → check_local db target id r ≡ ok a
      → get id db.actions ≡ some a
  unfolding check_local
  checked_local db target id r a h = ground arith

  pub complete_local-Changes :
      (now : ℕ) (db : Db) (target id : ℕ) (r : ActionResult) (output : Option ℕ)
      → Changes db (commit db (complete_local sha256 now db target id r output))
  unfolding complete_local
  complete_local-Changes now db target id r output =
      elim (Result-cases (check_local db target id r)) [
        | inr (error, x) ↦ rw (x, complete_local) (unchanged refl)
        | inl (a, x) ↦ elim (Bool-cases (is_terminal a.state)) [
          | inl over ↦
              elim (Bool-cases
                (is_succeeded a.state && same_hash a.result_hash (some (sha256 r)))) [
                  | inl same ↦ rw (x, complete_local, over, same) (unchanged refl)
                  | inr other ↦ rw (x, complete_local, over, other) (unchanged refl)
                ]
          | inr going ↦ elim (Bool-cases (is_running a.state)) [
            | inr idle ↦ rw (x, complete_local, going, idle) (unchanged refl)
            | inl busy ↦
                rw (x, complete_local, going, busy)
                  (updated id a (local_row sha256 now a r) (checked_local db target id r a x)
                    (
                      refl,
                      refl,
                      λ t. ground (arith, going, t),
                      λ h t y. ground (arith, going, t),
                      λ t. refl,
                      λ t. refl,
                      λ t. t,
                    )
                    (λ h. (λ t. refl, λ t. refl)) refl)
          ]
        ]
      ]

-- What a loop of changes leaves.
abbrev pub Leaves : Db → Db → Type 0
Leaves db db' = IsValid db'.actions × ((k : ℕ) → Kept (get k db.actions) (get k db'.actions))

pub Changes-Leaves : (db db' : Db) → IsValid db.actions → Changes db db' → Leaves db db'
Changes-Leaves db db' v c =
    (Change-IsValid db.actions db'.actions v c, λ k. Change-Kept db.actions db'.actions k c)

pub Leaves-trans : (db db' db'' : Db) → Leaves db db' → Leaves db' db'' → Leaves db db''
Leaves-trans db db' db'' (v, h) (v', h') =
    (v', λ k. Kept-trans (get k db.actions) (get k db'.actions) (get k db''.actions) (h k) (h' k))

pub Leaves-refl : (db : Db) → IsValid db.actions → Leaves db db
Leaves-refl db v = (v, λ k. Kept-refl (get k db.actions))

acked-Changes :
    (now : ℕ) (db : Db) (id : ℕ) (a : ActionRow)
    → get id db.actions ≡ some a
    → is_over a.state ≡ true
    → Changes db (record db { actions = set id (acked_row now a) db.actions })
acked-Changes now db id a here over =
    updated id a (acked_row now a) here
      (refl, refl, λ t. refl, λ h t e. e, λ t. t, λ t. refl, λ t. t) (λ h. (λ t. over, λ t. refl))
      refl

pub acknowledge_all-Leaves :
    (now : ℕ) (ids : List ℕ) (db : Db)
    → IsValid db.actions
    → Leaves db (acknowledge_all now ids db).0
unfolding acknowledge_all
acknowledge_all-Leaves now [] db v = Leaves-refl db v
acknowledge_all-Leaves now (id ∷ ids) db v = elim (Option-cases (get id db.actions)) [
  | inl n ↦ rw (n, acknowledge_all) (Leaves-refl db v)
  | inr (a, f) ↦ elim (Bool-cases (is_over a.state)) [
    | inr going ↦ rw (f, acknowledge_all, going) (Leaves-refl db v)
    | inl over ↦
        let db' : Db = record db { actions = set id (acked_row now a) db.actions } in
        let one = Changes-Leaves db db' v (acked-Changes now db id a f over) in
        rw (f, acknowledge_all, over)
          (Leaves-trans db db' (acknowledge_all now ids db').0 one
            (acknowledge_all-Leaves now ids db' one.0))
  ]
]

receipt_acked :
    (box : ℕ) (a : ActionRow) → receipt_error box a ≡ none → is_some a.server_acked_at_ms ≡ true
unfolding receipt_error
receipt_acked box a h = ground arith

confirmed-Changes :
    (now box : ℕ) (db : Db) (id : ℕ) (a : ActionRow)
    → get id db.actions ≡ some a
    → receipt_error box a ≡ none
    → Changes db (record db { actions = set id (confirmed_row now a) db.actions })
confirmed-Changes now box db id a here e =
    updated id a (confirmed_row now a) here
      (refl, refl, λ t. refl, λ h t e. e, λ t. t, λ t. t, λ t. refl)
      (λ h. (h.0, λ t. receipt_acked box a e)) refl

pub confirm_all-Leaves :
    (now box : ℕ) (ids : List ℕ) (db : Db)
    → IsValid db.actions
    → Leaves db (confirm_all now box ids db).0
unfolding confirm_all
confirm_all-Leaves now box [] db v = Leaves-refl db v
confirm_all-Leaves now box (id ∷ ids) db v = elim (Option-cases (get id db.actions)) [
  | inl n ↦ rw (n, confirm_all) (confirm_all-Leaves now box ids db v)
  | inr (a, f) ↦ elim (Option-cases (receipt_error box a)) [
    | inr (error, e) ↦ rw (f, confirm_all, e) (Leaves-refl db v)
    | inl e ↦
        let db' : Db = record db { actions = set id (confirmed_row now a) db.actions } in
        let one = Changes-Leaves db db' v (confirmed-Changes now box db id a f e) in
        rw (f, confirm_all, e)
          (Leaves-trans db db' (confirm_all now box ids db').0 one
            (confirm_all-Leaves now box ids db' one.0))
  ]
]

recovered-Follows :
    (now : ℕ) (a : ActionRow)
    → Follows a (recovered_row now a) × (IsOrdered a → IsOrdered (recovered_row now a))
unfolding recovered_row
recovered-Follows now a = elim (Bool-cases (is_granted a.state)) [
  | inl g ↦ rw g (
    (refl, refl, λ t. ground (arith, g, t), λ h t e. e, λ t. refl, λ t. refl, λ t. refl),
    λ h. (λ t. refl, λ t. refl),
  )
  | inr n ↦ elim (Bool-cases (is_running a.state)) [
    | inl r ↦
        rw (n, r)
          (
            (
              refl,
              refl,
              λ t. ground (arith, r, t),
              λ h t e. e,
              λ t. refl,
              acked_stays now a,
              λ t. t,
            ),
            λ h. (λ t. refl, λ t. acked_stays now a (h.1 t)),
          )
    | inr m ↦ rw (n, m) (Follows-refl a, λ h. h)
  ]
]

pub recover-Changes : (now : ℕ) (db : Db) → Changes db (recover_on_startup now db)
unfolding recover_on_startup
recover-Changes now db =
    mapped (recovered_row now) (λ a. (recovered-Follows now a).0)
      (λ a h. (recovered-Follows now a).1 h) refl
