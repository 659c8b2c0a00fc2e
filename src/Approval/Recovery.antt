-- ===== src/Approval/Recovery.antt =====
-- packages/database/src/approval-repository.ts: what a restart of the server and the reset of a
-- session leave.
use moshu.Common.{
  ℕ, ◌≡◌, refl, ap, ◌∙◌, inl, inr, Bool, false, ◌&&◌, ◌==◌, if◌then◌else◌, none, some, List, [],
  ◌∷◌, Option-cases, Bool-cases, arith,
}
use moshu.Common.JsMap.{get, keep, values, get-map_values, get-delete}
use moshu.Approval.Types.{expired, cancelled, ApprovalRow, PolicyRow, Db}
use moshu.Approval.{is_pending, write_terminal}
use moshu.Approval.Sessions.{
  end_all, restart_policy, restart_policies, recover_on_startup, reset_for_session, get_policy,
  default_policy,
}
use moshu.Approval.Changes.{IsValid, ending, get-swept, end_all-swept}

end_all_policies :
    (now : ℕ) (state : _) (rows : List ApprovalRow) (db : Db)
    → (end_all now state rows db).policies ≡ db.policies
unfolding end_all write_terminal
end_all_policies now state [] db = refl
end_all_policies now state (r ∷ rows) db =
    end_all_policies now state rows (write_terminal db r state now none none none).0

-- For a database that is in order: after a restart at `now`, each request that was pending is expired, one revision higher, and every
-- other request is untouched; each policy that allowed all is off, one revision higher, under the
-- server's own key, and every other policy is untouched.
pub recover_on_startup_lem :
    (now : ℕ) (db : Db)
    → IsValid db.requests
    → let db' = recover_on_startup now db in
      ((k : ℕ)
        → get k db'.requests ≡ elim (get k db.requests) [
          | none ↦ none
          | some r ↦ if is_pending r.state then some (ending expired now r) else some r
        ])
      × ((k : ℕ)
          → get k db'.policies ≡ elim (get k db.policies) [
            | none ↦ none
            | some p ↦ some (if p.allow_all then restart_policy now p else p)
          ])
unfolding recover_on_startup restart_policies
recover_on_startup_lem now db v =
    let rows = values (keep (λ r. is_pending r.state) db.requests) in
    (
      λ k.
          ap (get k) (end_all-swept now expired (λ r. is_pending r.state) db)
          ∙ get-swept expired now (λ r. is_pending r.state) db.requests v k,
      λ k. rw (end_all_policies now expired rows db) (
          get-map_values (λ (p : PolicyRow). if p.allow_all then restart_policy now p else p) k
            db.policies),
    )

-- "Allow all" never survives a restart on a database that is in order: under the policy of any session that is then in force, nothing
-- is allowed, and no request waits for a decision.
pub nothing_survives_restart :
    (now later : ℕ) (db : Db)
    → IsValid db.requests
    → let db' = recover_on_startup now db in
      ((session_id : ℕ) → (get_policy later db' session_id).allow_all ≡ false)
      × ((k : ℕ) (r : ApprovalRow) → get k db'.requests ≡ some r → is_pending r.state ≡ false)
unfolding get_policy
nothing_survives_restart now later db v =
    let (requests, policies) = recover_on_startup_lem now db v in
    (
      λ session_id. elim (Option-cases (get session_id db.policies)) [
        | inl e ↦ rw (get_policy, policies session_id, e) refl
        | inr (p, e) ↦ elim (Bool-cases p.allow_all) [
          | inl on ↦ rw (get_policy, policies session_id, e, on) refl
          | inr off ↦ rw (get_policy, policies session_id, e, off) refl
        ]
      ],
      λ k r e. elim (Option-cases (get k db.requests)) [
        | inl n ↦ ground (arith, requests k, n, e)
        | inr (r0, f) ↦ elim (Bool-cases (is_pending r0.state)) [
          | inl waiting ↦ ground (arith, requests k, f, waiting, e)
          | inr over ↦ ground (arith, requests k, f, over, e)
        ]
      ],
    )

-- For a database that is in order: after the reset of a session at `now`, its pending requests are cancelled, one revision higher, and
-- every other request is untouched; its policy is the default one and every other session's is as it
-- was.
pub reset_for_session_lem :
    (now later : ℕ) (db : Db) (session_id : ℕ)
    → IsValid db.requests
    → let db' = reset_for_session now db session_id in
      ((k : ℕ)
        → get k db'.requests ≡ elim (get k db.requests) [
          | none ↦ none
          | some r ↦
              if r.session_id == session_id && is_pending r.state
              then some (ending cancelled now r)
              else some r
        ])
      × ((s : ℕ)
          → get_policy later db' s
            ≡ (if session_id == s then default_policy later s else get_policy later db s))
unfolding reset_for_session get_policy
reset_for_session_lem now later db session_id v =
    let p : ApprovalRow → Bool = λ r. r.session_id == session_id && is_pending r.state in
    let rows = values (keep p db.requests) in
    (
      λ k.
          ap (get k) (end_all-swept now cancelled p db) ∙ get-swept cancelled now p db.requests v k,
      λ s. elim (Bool-cases (session_id == s)) [
        | inl own ↦
            rw
              (
                get_policy,
                end_all_policies now cancelled rows db,
                get-delete s session_id db.policies,
                own,
              )
              refl
        | inr other ↦
            rw
              (
                get_policy,
                end_all_policies now cancelled rows db,
                get-delete s session_id db.policies,
                other,
              )
              refl
      ],
    )
