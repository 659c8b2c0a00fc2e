-- ===== src/ApprovalService/Sweeps.antt =====
-- apps/agents-server/src/approval-service.ts: the sweep of what has expired, the reset of a session,
-- and a new process.
use moshu.Common.{
  ℕ, ◌<◌, ◌≡◌, refl, sym, subst, ap, ◌∙◌, inl, inr, Bool, true, false, ◌&&◌, leb, ◌==◌,
  if◌then◌else◌, none, some, Bool-cases, [], ◌∷◌, All, arith,
}
use moshu.Common.JsMap.{get}
use moshu.Common.Entries.{AllEntries-imp, entries-get}
use moshu.Approval.Types.{expired, cancelled, ApprovalRow, Db}
use moshu.Approval.{is_pending}
use moshu.Approval.Sessions.{expire_due, expired_rows, reset_for_session}
use moshu.Approval.Changes.{IsValid, ending, get-swept, end_all-swept}
use moshu.Approval.Calls.{expire_call, recover_call, reset_call, step, run, row_id}
use moshu.Approval.History.{step-IsValid}
use moshu.Approval.Recovery.{reset_for_session_lem}
use moshu.ApprovalService.{
  Waiter, Service, Reply, quiet, settle_all, affected_rows, sweep_expired, reset_session, restart,
}
use moshu.ApprovalService.Served.{
  IsServed, IsTrue, OnRecord, settle_all-SettlesAll, selected-All, All-selected,
  affected_rows-OnRecord, affected_rows-in,
}
use moshu.ApprovalService.Calls.{Serves}

abbrev is_due : ℕ → ApprovalRow → Bool
is_due now r = is_pending r.state && leb r.expires_at_ms now

module _ (now : ℕ) (db : Db) (v : IsValid db.requests) where
  get-expire_due :
      (k : ℕ)
      → get k (expire_due now db).requests ≡ elim (get k db.requests) [
        | none ↦ none
        | some r ↦ if is_due now r then some (ending expired now r) else some r
      ]
  unfolding expire_due
  get-expire_due k =
      ap (get k) (end_all-swept now expired (is_due now) db)
      ∙ get-swept expired now (is_due now) db.requests v k

  expired_rows-OnRecord : All (OnRecord (expire_due now db)) (expired_rows now db)
  unfolding expired_rows
  expired_rows-OnRecord =
      selected-All (is_due now) (ending expired now) (OnRecord (expire_due now db)) db.requests (
        AllEntries-imp (λ k r. get k db.requests ≡ some r)
          (λ k r. is_due now r ≡ true → OnRecord (expire_due now db) (ending expired now r))
          db.requests
          (λ k r e due.
            subst (λ j. get j (expire_due now db).requests ≡ some (ending expired now r))
              (sym (row_id db v k r e)) (rw (get-expire_due k, e, due) refl))
          (entries-get db.requests v.0))

  -- A request that the sweep does not name is not due.
  not_due :
      (k : ℕ) (r : ApprovalRow)
      → All (λ row. (row.id == k) ≡ false) (expired_rows now db)
      → get k db.requests ≡ some r
      → is_due now r ≡ false
  unfolding expired_rows
  not_due k r h e = elim (Bool-cases (is_due now r)) [
    | inr early ↦ early
    | inl due ↦
        let other =
          All-selected (is_due now) (ending expired now) (λ row. (row.id == k) ≡ false) db.requests
            k r h e due in
        absurd (ground (arith, other, row_id db v k r e))
  ]

-- After the sweep nothing waits for a request that is due.
pub record Sweeps (now : ℕ) (s : Service) (r : Reply) : Type 0 where
  pub serves : Serves s r
  pub in_time :
      (k : ℕ) (w : Waiter)
      → get k r.service.waiters ≡ some w
      → (row : ApprovalRow) × (get k r.service.approvals.requests ≡ some row)
        × (now < row.expires_at_ms)

pub sweep_expired-Sweeps : (now : ℕ) (s : Service) → IsServed s → Sweeps now s (sweep_expired now s)
unfolding sweep_expired step run
sweep_expired-Sweeps now s h =
    let db = s.approvals in
    let db' = expire_due now db in
    let all = settle_all-SettlesAll (expired_rows now db) (quiet (record s { approvals = db' })) in
    let r = settle_all (expired_rows now db) (quiet (record s { approvals = db' })) in
    let stays : (k : ℕ) (w : Waiter)
        → get k r.service.waiters ≡ some w
        → (row : ApprovalRow) × (get k db'.requests ≡ some row)
          × (now < row.expires_at_ms)
          × (is_pending row.state ≡ true)
          × (row.session_id ≡ w.session_id) =
      λ k w e.
        let left = all.left k w e in
        let i = h.waiting k w left.0 in
        let early = not_due now db h.valid k i.row left.1 i.here in
        (
          i.row,
          rw (get-expire_due now db h.valid k, i.here, early) refl,
          ground (arith, early, i.waits),
          i.waits,
          i.session,
        ) in
    record {
      serves = record {
        calls = expire_call now ∷ [];
        made = all.same_db;
        served = record {
          valid =
              subst (λ (d : Db). IsValid d.requests) (sym all.same_db)
                (step-IsValid db (expire_call now) h.valid);
          waiting = λ k w e.
              let (row, here, _, waits, session) = stays k w e in
              record {
                row = row;
                here = ap (λ (d : Db). get k d.requests) all.same_db ∙ here;
                waits = waits;
                session = session;
              };
        };
        truthful =
            subst (λ (d : Db). All (IsTrue d) r.settled) (sym all.same_db)
              (all.truthful db' (expired_rows-OnRecord now db h.valid) tt);
      };
      in_time = λ k w e.
          let (row, here, late, _, _) = stays k w e in
          (row, ap (λ (d : Db). get k d.requests) all.same_db ∙ here, late);
    }

pub reset_session-Serves :
    (now session_id : ℕ) (s : Service) → IsServed s → Serves s (reset_session now session_id s)
unfolding reset_session step run
reset_session-Serves now session_id s h =
    let db = s.approvals in
    let db' = reset_for_session now db session_id in
    let rows = affected_rows session_id s.waiters db' in
    let all = settle_all-SettlesAll rows (quiet (record s { approvals = db' })) in
    let r = settle_all rows (quiet (record s { approvals = db' })) in
    let v' = step-IsValid db (reset_call now session_id) h.valid in
    let requests = (reset_for_session_lem now now db session_id h.valid).0 in
    record {
      calls = reset_call now session_id ∷ [];
      made = all.same_db;
      served = record {
        valid = subst (λ (d : Db). IsValid d.requests) (sym all.same_db) v';
        waiting = λ k w e.
            let left = all.left k w e in
            let i = h.waiting k w left.0 in
            let kept : get k db'.requests ≡ some i.row =
              elim (Bool-cases (i.row.session_id == session_id)) [
                | inr other ↦ rw (requests k, i.here, other) refl
                | inl own ↦
                    let ended : get k db'.requests ≡ some (ending cancelled now i.row) =
                      rw (requests k, i.here, own, i.waits) refl in
                    let other =
                      affected_rows-in session_id s.waiters db' k w (ending cancelled now i.row)
                        left.1 left.0 ended (row_id db h.valid k i.row i.here) in
                    absurd (ground (arith, other, own, i.session))
              ] in
            record {
              row = i.row;
              here = ap (λ (d : Db). get k d.requests) all.same_db ∙ kept;
              waits = i.waits;
              session = i.session;
            };
      };
      truthful =
          subst (λ (d : Db). All (IsTrue d) r.settled) (sym all.same_db)
            (all.truthful db' (affected_rows-OnRecord session_id s.waiters db' v') tt);
    }

pub restart-Serves : (now : ℕ) (s : Service) → IsServed s → Serves s (restart now s)
unfolding restart step run get
restart-Serves now s h = record {
  calls = recover_call now ∷ [];
  made = refl;
  served = record {
    valid = step-IsValid s.approvals (recover_call now) h.valid;
    waiting = λ k w e. ground (arith, e);
  };
  truthful = tt;
}
