-- ===== src/ApprovalService/Calls.antt =====
-- apps/agents-server/src/approval-service.ts: every call of the service as a step, with the calls of
-- the repository that it makes.
use moshu.Common.{
  ℕ, ◌≡◌, refl, sym, subst, ap, ◌∙◌, inl, inr, false, Option, none, List, [], ◌∷◌, ◌++◌, All, arith,
}
use moshu.Common.JsMap.{JsMap, get}
use moshu.Common.Entries.{==_iff}
use moshu.Common.Result.{Result, ok, Result-cases}
use moshu.Approval.Types.{
  ApprovalRow, Db, DecideInput, UpdatePolicyInput, DecideOutcome, from_system, ApprovalError,
}
use moshu.Approval.{is_pending, decide, cancel}
use moshu.Approval.Policy.{update_policy}
use moshu.Approval.Changes.{IsValid}
use moshu.Approval.Calls.{Call, decide_call, cancel_call, update_call, step, run, commit}
use moshu.Approval.History.{step-IsValid}
use moshu.ApprovalService.{
  Waiter, Service, ServiceEvent, Reply, settle_named, both, cancel_aborted, decide_approval,
  update_session_policy,
}
use moshu.ApprovalService.Answers.{Answers, IfOk, decide-Answers, cancel-Answers}
use moshu.ApprovalService.PolicyAnswers.{Named, no_request, request, update_policy-IsNamed}
use moshu.ApprovalService.Served.{
  Waits, IsServed, IsTrue, still_waits, settle_waiter-Waits, settle_waiter-IsTrue,
}

-- What a step of the service does to the state that it starts from.
pub record Serves (s : Service) (r : Reply) : Type 0 where
  pub calls : List Call
  pub made : r.service.approvals ≡ run s.approvals calls
  pub served : IsServed r.service
  pub truthful : All (IsTrue r.service.approvals) r.settled

pub nothing-Serves :
    (s : Service) (r : Reply) → IsServed s → r.service ≡ s → r.settled ≡ [] → Serves s r
unfolding run
nothing-Serves s r h e n = record {
  calls = [];
  made = ap (λ (x : Service). x.approvals) e;
  served = subst IsServed (sym e) h;
  truthful = subst (All (IsTrue r.service.approvals)) (sym n) tt;
}

pub commit-IsValid :
    {A : Type 0} (db db' : Db) (a : A) (c : Call) (x : Result ApprovalError (Db × A))
    → IsValid db.requests
    → step db c ≡ commit db x
    → x ≡ ok (db', a)
    → (db' ≡ step db c) × IsValid db'.requests
commit-IsValid db db' a c x v e f =
    let it : db' ≡ step db c = sym (e ∙ ap (commit db) f) in
    (it, subst (λ (y : Db). IsValid y.requests) (sym it) (step-IsValid db c v))

pub decide-Serves :
    (now : ℕ) (input : DecideInput) (s : Service)
    → IsServed s
    → Serves s (decide_approval now input s)
unfolding decide_approval step run
decide-Serves now input s h = elim (Result-cases (decide now s.approvals input)) [
  | inr (e, f) ↦ rw (f, decide_approval) (nothing-Serves s _ h refl refl)
  | inl ((db, result), f) ↦
      let a =
        subst (IfOk (λ db' r. Answers s.approvals db' r.request)) f
          (decide-Answers now s.approvals input h.valid) in
      let c =
        commit-IsValid s.approvals db result (decide_call now input) (decide now s.approvals input)
          h.valid refl f in
      rw (f, decide_approval)
        (record {
          calls = decide_call now input ∷ [];
          made = c.0;
          served = record {
            valid = c.1;
            waiting = settle_waiter-Waits s.approvals db result.request s.waiters h.waiting a;
          };
          truthful = settle_waiter-IsTrue db result.request s.waiters a.on_record;
        })
]

settle_named-Waits :
    (db db' : Db) (q : Option (DecideOutcome × ApprovalRow)) (ws : JsMap Waiter)
    → Waits db ws
    → Named db db' q
    → Waits db' (settle_named q ws).0 × All (IsTrue db') (settle_named q ws).1.0
unfolding settle_named
settle_named-Waits db db' _ ws h (no_request same) =
    (λ k w e. still_waits db db' k w (same k) (h k w e), tt)
settle_named-Waits db db' _ ws h (request outcome row a) =
    (settle_waiter-Waits db db' row ws h a, settle_waiter-IsTrue db' row ws a.on_record)

pub update-Serves :
    (now : ℕ) (input : UpdatePolicyInput) (s : Service)
    → IsServed s
    → Serves s (update_session_policy now input s)
unfolding update_session_policy step run
update-Serves now input s h = elim (Result-cases (update_policy now s.approvals input)) [
  | inr (e, f) ↦ rw (f, update_session_policy) (nothing-Serves s _ h refl refl)
  | inl ((db, result), f) ↦
      let n =
        subst (IfOk (λ db' r. Named s.approvals db' (both r.request_outcome r.request))) f
          (update_policy-IsNamed now s.approvals input h.valid) in
      let c =
        commit-IsValid s.approvals db result (update_call now input)
          (update_policy now s.approvals input) h.valid refl f in
      let after =
        settle_named-Waits s.approvals db (both result.request_outcome result.request) s.waiters
          h.waiting n in
      rw (f, update_session_policy)
        (record {
          calls = update_call now input ∷ [];
          made = c.0;
          served = record { valid = c.1; waiting = after.0 };
          truthful = after.1;
        })
]

-- The cancellation of a request for which nothing waits any more.
pub cancel_aborted-Serves :
    (now id : ℕ) (s : Service) (events : List ServiceEvent)
    → IsServed s
    → get id s.waiters ≡ none
    → Serves s (cancel_aborted now id s events)
unfolding cancel_aborted step run
cancel_aborted-Serves now id s events h free =
    elim (Result-cases (cancel now s.approvals id from_system)) [
      | inr (e, f) ↦ rw (f, cancel_aborted) (nothing-Serves s _ h refl refl)
      | inl ((db, row), f) ↦
          let a =
            subst
              (IfOk (λ db' row.
                Answers s.approvals db' row × (row.id ≡ id) × (is_pending row.state ≡ false)))
              f (cancel-Answers now s.approvals id from_system h.valid) in
          let c =
            commit-IsValid s.approvals db row (cancel_call now id from_system)
              (cancel now s.approvals id from_system) h.valid refl f in
          rw (f, cancel_aborted)
            (record {
              calls = cancel_call now id from_system ∷ [];
              made = c.0;
              served = record {
                valid = c.1;
                waiting = λ k w e.
                    still_waits s.approvals db k w
                      (a.0.others k (ground (arith, a.1, free, e, ==_iff row.id k)))
                      (h.waiting k w e);
              };
              truthful = (record { row = row; here = a.0.on_record; told = refl }, tt);
            })
    ]

run-append : (db : Db) (cs ds : List Call) → run (run db cs) ds ≡ run db (cs ++ ds)
unfolding run
run-append db [] ds = refl
run-append db (c ∷ cs) ds = run-append (step db c) cs ds

-- A step that goes on from where some calls of the repository have led.
pub Serves-after :
    (s s' : Service) (cs : List Call) (r : Reply)
    → s'.approvals ≡ run s.approvals cs
    → Serves s' r
    → Serves s r
Serves-after s s' cs r e h = record {
  calls = cs ++ h.calls;
  made = h.made ∙ ap (λ db. run db h.calls) e ∙ run-append s.approvals cs h.calls;
  served = h.served;
  truthful = h.truthful;
}
