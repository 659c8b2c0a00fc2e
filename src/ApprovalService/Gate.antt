-- ===== src/ApprovalService/Gate.antt =====
-- apps/agents-server/src/approval-service.ts: what the gate guarantees over any sequence of calls.
use moshu.Common.{
  ℕ, ◌≡◌, refl, ap, ◌∙◌, ◌⊎◌, false, Option, none, List, [], ◌∷◌, ◌++◌, All, All-append, All-imp,
  arith,
}
use moshu.Common.JsMap.{get}
use moshu.Approval.Types.{Db, DecideInput, UpdatePolicyInput}
use moshu.Approval.{is_pending}
use moshu.Approval.Changes.{IsValid}
use moshu.Approval.Calls.{Call, run, initial_db}
use moshu.Approval.History.{ended_stays}
use moshu.ApprovalService.{
  Service, GateRequest, Signal, Settlement, Reply, require_approval, on_abort, decide_approval,
  update_session_policy, sweep_expired, reset_session, restart,
}
use moshu.ApprovalService.Answers.{Answers}
use moshu.ApprovalService.Served.{IsServed, IsTrue}
use moshu.ApprovalService.Calls.{Serves, Serves-after, decide-Serves, update-Serves}
use moshu.ApprovalService.Requests.{require_approval-Serves, on_abort-Serves}
use moshu.ApprovalService.Sweeps.{sweep_expired-Sweeps, reset_session-Serves, restart-Serves}

pub data ServiceCall : Type 0 where
  require_call : (now id : ℕ) → Option ℕ → GateRequest → Signal → ServiceCall
  abort_call : (now id : ℕ) → ServiceCall
  decision_call : ℕ → DecideInput → ServiceCall
  policy_call : ℕ → UpdatePolicyInput → ServiceCall
  sweep_call : (now : ℕ) → ServiceCall
  reset_session_call : (now session_id : ℕ) → ServiceCall
  restart_call : (now : ℕ) → ServiceCall

unfoldable pub serve : ServiceCall → Service → Reply
unfolding require_approval on_abort decide_approval update_session_policy sweep_expired
    reset_session restart
serve (require_call now id run_session request signal) s =
    require_approval now id run_session request signal s
serve (abort_call now id) s = on_abort now id s
serve (decision_call now input) s = decide_approval now input s
serve (policy_call now input) s = update_session_policy now input s
serve (sweep_call now) s = sweep_expired now s
serve (reset_session_call now session_id) s = reset_session now session_id s
serve (restart_call now) s = restart now s

abbrev pub new_service : ℕ → Service
new_service expiry_ms = record { approvals = initial_db; waiters = []; expiry_ms = expiry_ms }

-- The service after some calls.
unfoldable pub serve_all : List ServiceCall → Service → Service
unfolding serve
serve_all [] s = s
serve_all (c ∷ calls) s = serve_all calls (serve c s).service

-- Everything that the actions were told on the way.
unfoldable pub told : List ServiceCall → Service → List Settlement
unfolding serve
told [] s = []
told (c ∷ calls) s = (serve c s).settled ++ told calls (serve c s).service

serve-Serves : (c : ServiceCall) (s : Service) → IsServed s → Serves s (serve c s)
unfolding serve
serve-Serves (require_call now id run_session request signal) s h =
    require_approval-Serves now id run_session request signal s h
serve-Serves (abort_call now id) s h = on_abort-Serves now id s h
serve-Serves (decision_call now input) s h = decide-Serves now input s h
serve-Serves (policy_call now input) s h = update-Serves now input s h
serve-Serves (sweep_call now) s h = (sweep_expired-Sweeps now s h).serves
serve-Serves (reset_session_call now session_id) s h = reset_session-Serves now session_id s h
serve-Serves (restart_call now) s h = restart-Serves now s h

-- What an action was told stays true once its request is over.
abbrev IsKept : Db → Settlement → Type 0
IsKept db x = is_pending x.state ≡ false → IsTrue db x

keep_told :
    (db db' : Db) (cs : List Call) (x : Settlement)
    → IsValid db.requests
    → db' ≡ run db cs
    → IsTrue db x
    → IsKept db' x
keep_told db db' cs x v e i over = record {
  row = i.row;
  here =
      ap (λ (d : Db). get x.approval_id d.requests) e
      ∙ ended_stays db cs x.approval_id i.row v i.here (rw i.told over);
  told = i.told;
}

record Lasts (s s' : Service) (settled : List Settlement) : Type 0 where
  calls : List Call
  made : s'.approvals ≡ run s.approvals calls
  served : IsServed s'
  kept : All (IsKept s'.approvals) settled

serve_all-Lasts :
    (calls : List ServiceCall) (s : Service)
    → IsServed s
    → Lasts s (serve_all calls s) (told calls s)
unfolding serve_all told run
serve_all-Lasts [] s h = record { calls = []; made = refl; served = h; kept = tt }
serve_all-Lasts (c ∷ calls) s h =
    let first = serve-Serves c s h in
    let s' = (serve c s).service in
    let rest = serve_all-Lasts calls s' first.served in
    let final = (serve_all calls s').approvals in
    let whole =
      Serves-after s s' first.calls
        (record { service = serve_all calls s'; settled = []; events = []; error = none })
        first.made
        (record { calls = rest.calls; made = rest.made; served = rest.served; truthful = tt }) in
    record {
      calls = whole.calls;
      made = whole.made;
      served = rest.served;
      kept =
          All-append (IsKept final) (serve c s).settled (told calls s')
            (All-imp (IsTrue s'.approvals) (IsKept final) (serve c s).settled
              (λ x i. keep_told s'.approvals final rest.calls x first.served.valid rest.made i)
              first.truthful)
            rest.kept;
    }

pub new_service-IsServed : (expiry_ms : ℕ) → IsServed (new_service expiry_ms)
unfolding get
new_service-IsServed expiry_ms = record {
  valid = (tt, tt, tt);
  waiting = λ k w e. ground (arith, e);
}

pub serve_all-IsServed :
    (expiry_ms : ℕ) (calls : List ServiceCall) → IsServed (serve_all calls (new_service expiry_ms))
serve_all-IsServed expiry_ms calls =
    (serve_all-Lasts calls (new_service expiry_ms) (new_service-IsServed expiry_ms)).served

abbrev pub Mem : Settlement → List Settlement → Type 0
Mem x [] = ⊥
Mem x (y ∷ ys) = (x ≡ y) ⊎ Mem x ys
