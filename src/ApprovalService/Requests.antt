-- ===== src/ApprovalService/Requests.antt =====
-- apps/agents-server/src/approval-service.ts: `requireApproval` and the abort of a waiting action.
use moshu.Common.{
  ℕ, ◌≡◌, refl, subst, ap, ◌∙◌, inl, inr, true, ◌==◌, Option, none, some, some-injective,
  Option-cases, Bool-cases, [], ◌∷◌, arith,
}
use moshu.Common.JsMap.{get, set, delete, get-delete, get-set}
use moshu.Common.Entries.{==_iff}
use moshu.Common.Result.{Result-cases}
use moshu.Approval.Types.{ApprovalRow}
use moshu.Approval.{is_pending, create, created_row}
use moshu.Approval.Calls.{create_call, step, run}
use moshu.ApprovalService.{
  Waiter, Service, GateRequest, Signal, no_signal, live_signal, aborted_signal, approval_created,
  gate_input, await_decision, require_approval, on_abort,
}
use moshu.ApprovalService.Answers.{Answers, IfOk, create-Answers}
use moshu.ApprovalService.Served.{IsServed, OnRecord, still_waits}
use moshu.ApprovalService.Calls.{
  Serves, nothing-Serves, cancel_aborted-Serves, Serves-after, commit-IsValid,
}

pub on_abort-Serves : (now id : ℕ) (s : Service) → IsServed s → Serves s (on_abort now id s)
unfolding on_abort run
on_abort-Serves now id s h = elim (Option-cases (get id s.waiters)) [
  | inl e ↦ rw (e, on_abort) (nothing-Serves s _ h refl refl)
  | inr (w, e) ↦ elim (Bool-cases w.has_signal) [
    | inr deaf ↦ rw (e, deaf, on_abort) (nothing-Serves s _ h refl refl)
    | inl hears ↦
        let s' : Service = record s { waiters = delete id s.waiters } in
        let gone : get id s'.waiters ≡ none = ground (arith, get-delete id id s.waiters) in
        let h' : IsServed s' = record {
          valid = h.valid;
          waiting = λ k x f. h.waiting k x (ground (arith, f, get-delete k id s.waiters));
        } in
        rw (e, hears, on_abort)
          (Serves-after s s' [] _ refl (cancel_aborted-Serves now id s' [] h' gone))
  ]
]

-- A request that is on record, and for which nothing waits yet.
module _ (row : ApprovalRow) (s : Service) (h : IsServed s) (here : OnRecord s.approvals row)
    (free : get row.id s.waiters ≡ none) where
  with_waiter-IsServed :
      (w : Waiter)
      → row.session_id ≡ w.session_id
      → is_pending row.state ≡ true
      → IsServed (record s { waiters = set row.id w s.waiters })
  with_waiter-IsServed w session waiting = record {
    valid = h.valid;
    waiting = λ k x e. elim (Bool-cases (row.id == k)) [
      | inl same ↦
          let it : w ≡ x =
            some-injective w x (ground (arith, e, same, get-set k row.id w s.waiters)) in
          record {
            row = row;
            here =
                subst (λ j. get j s.approvals.requests ≡ some row) ((==_iff row.id k).0 same) here;
            waits = waiting;
            session = session ∙ ap (λ (y : Waiter). y.session_id) it;
          }
      | inr other ↦ h.waiting k x (ground (arith, e, other, get-set k row.id w s.waiters))
    ];
  }

  wait-Serves :
      (now : ℕ) (signal : Signal)
      → is_pending row.state ≡ true
      → Serves s (await_decision now signal row s)
  unfolding await_decision run
  wait-Serves now no_signal waiting =
      rw (waiting, await_decision)
        (record {
          calls = [];
          made = refl;
          served = with_waiter-IsServed _ refl waiting;
          truthful = tt;
        })
  wait-Serves now live_signal waiting =
      rw (waiting, await_decision)
        (record {
          calls = [];
          made = refl;
          served = with_waiter-IsServed _ refl waiting;
          truthful = tt;
        })
  wait-Serves now aborted_signal waiting =
      rw (waiting, await_decision)
        (cancel_aborted-Serves now row.id s (approval_created row ∷ []) h free)

  await_decision-Serves : (now : ℕ) (signal : Signal) → Serves s (await_decision now signal row s)
  unfolding await_decision run
  await_decision-Serves now signal = elim (Bool-cases (is_pending row.state)) [
    | inl waiting ↦ wait-Serves now signal waiting
    | inr over ↦
        rw (over, await_decision)
          (record {
            calls = [];
            made = refl;
            served = h;
            truthful = (record { row = row; here = here; told = refl }, tt);
          })
  ]

pub require_approval-Serves :
    (now id : ℕ) (run_session : Option ℕ) (request : GateRequest) (abort : Signal) (s : Service)
    → IsServed s
    → Serves s (require_approval now id run_session request abort s)
unfolding require_approval step run
require_approval-Serves now id none request abort s h = nothing-Serves s _ h refl refl
require_approval-Serves now id (some session) request abort s h =
    let input = gate_input now id session request s in
    elim (Result-cases (create s.approvals input)) [
      | inr (e, f) ↦ rw (f, require_approval) (nothing-Serves s _ h refl refl)
      | inl ((db, row), f) ↦
          let a =
            subst
              (IfOk (λ db' row.
                Answers s.approvals db' row
                × (row ≡ created_row input)
                × (get row.id s.approvals.requests ≡ none)))
              f (create-Answers s.approvals input) in
          let c =
            commit-IsValid s.approvals db row (create_call input) (create s.approvals input) h.valid
              refl f in
          let s' : Service = record s { approvals = db } in
          let free : get row.id s.waiters ≡ none = elim (Option-cases (get row.id s.waiters)) [
            | inl e ↦ e
            | inr (w, e) ↦ let i = h.waiting row.id w e in absurd (ground (arith, i.here, a.2))
          ] in
          let h' : IsServed s' = record {
            valid = c.1;
            waiting = λ k w e.
                still_waits s.approvals db k w
                  (a.0.others k (ground (arith, e, free, ==_iff row.id k))) (h.waiting k w e);
          } in
          rw (f, require_approval)
            (Serves-after s s' (create_call input ∷ []) _ c.0
              (await_decision-Serves row s' h' a.0.on_record free now abort))
    ]
