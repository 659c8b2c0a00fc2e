-- ===== src/Approval/Sessions.antt =====
-- packages/database/src/approval-repository.ts: the methods that end many requests at once, and the
-- policies of sessions: `expireDue`, `recoverOnStartup`, `getPolicy` and `resetForSession`.
use moshu.Common.{ℕ, ◌+◌, false, ◌&&◌, leb, ◌==◌, if◌then◌else◌, none, some, List, [], ◌∷◌, map}
use moshu.Common.JsMap.{get, delete, keep, values, map_values}
use moshu.Approval.Types.{
  ApprovalState, expired, cancelled, from_system_restart, ApprovalRow, system_restart, PolicyRow,
  Db,
}
use moshu.Approval.{is_pending, write_terminal, terminal_row}

-- The loops that end each of the rows that a query selected.
unfoldable pub end_all : ℕ → ApprovalState → List ApprovalRow → Db → Db
unfolding write_terminal
end_all now state [] db = db
end_all now state (row ∷ rows) db =
    end_all now state rows (write_terminal db row state now none none none).0

unfoldable pub expire_due : ℕ → Db → Db
unfolding end_all
expire_due now db =
    end_all now expired
      (values (keep (λ r. is_pending r.state && leb r.expires_at_ms now) db.requests)) db

-- What `expireDue` returns.
unfoldable pub expired_rows : ℕ → Db → List ApprovalRow
expired_rows now db =
    map (λ r. terminal_row r expired now none none none)
      (values (keep (λ r. is_pending r.state && leb r.expires_at_ms now) db.requests))

abbrev pub restart_policy : ℕ → PolicyRow → PolicyRow
restart_policy now p = record p {
  allow_all = false;
  revision = p.revision + 1;
  updated_by = some from_system_restart;
  last_idempotency_key = some (system_restart p.session_id (p.revision + 1));
  updated_at_ms = now;
}

-- The loop over the enabled policies updates each of them.
unfoldable pub restart_policies : ℕ → Db → Db
restart_policies now db = record db {
  policies = map_values (λ p. if p.allow_all then restart_policy now p else p) db.policies;
}

unfoldable pub recover_on_startup : ℕ → Db → Db
unfolding end_all restart_policies
recover_on_startup now db =
    restart_policies now
      (end_all now expired (values (keep (λ r. is_pending r.state) db.requests)) db)

abbrev pub default_policy : ℕ → ℕ → PolicyRow
default_policy now session_id = record {
  session_id = session_id;
  allow_all = false;
  revision = 0;
  updated_by = none;
  last_idempotency_key = none;
  updated_at_ms = now;
}

unfoldable pub get_policy : ℕ → Db → ℕ → PolicyRow
get_policy now db session_id = elim (get session_id db.policies) [
  | none ↦ default_policy now session_id
  | some p ↦ p
]

unfoldable pub reset_for_session : ℕ → Db → ℕ → Db
unfolding end_all
reset_for_session now db session_id =
    let rows = values (keep (λ r. r.session_id == session_id && is_pending r.state) db.requests) in
    let db' = end_all now cancelled rows db in
    record db' { policies = delete session_id db'.policies }
