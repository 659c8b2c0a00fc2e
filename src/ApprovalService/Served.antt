-- ===== src/ApprovalService/Served.antt =====
-- apps/agents-server/src/approval-service.ts: who waits, and what the loops over waiters settle.
use moshu.Common.{
  ℕ, ◌≡◌, refl, sym, subst, ◌∙◌, inl, inr, Bool, true, false, ◌==◌, some, some-injective,
  Option-cases, Bool-cases, List, [], ◌∷◌, map, All, All-append, arith,
}
use moshu.Common.JsMap.{JsMap, get, has, keep, values, get-delete}
use moshu.Common.Entries.{==_iff, AllEntries}
use moshu.Approval.Types.{ApprovalRow, Db}
use moshu.Approval.{is_pending}
use moshu.Approval.Changes.{IsValid}
use moshu.Approval.Calls.{at_id}
use moshu.ApprovalService.{
  Waiter, Service, Settlement, Reply, settle_waiter, settle_all, affected_rows,
}
use moshu.ApprovalService.Answers.{Answers}

-- The request of a waiter is pending, and of the waiter's session.
pub record IsWaiting (db : Db) (k : ℕ) (w : Waiter) : Type 0 where
  pub row : ApprovalRow
  pub here : get k db.requests ≡ some row
  pub waits : is_pending row.state ≡ true
  pub session : row.session_id ≡ w.session_id

abbrev pub Waits : Db → JsMap Waiter → Type 0
Waits db ws = (k : ℕ) (w : Waiter) → get k ws ≡ some w → IsWaiting db k w

pub record IsServed (s : Service) : Type 0 where
  pub valid : IsValid s.approvals.requests
  pub waiting : Waits s.approvals s.waiters

-- What an action is told is the state of its request on record.
pub record IsTrue (db : Db) (x : Settlement) : Type 0 where
  pub row : ApprovalRow
  pub here : get x.approval_id db.requests ≡ some row
  pub told : row.state ≡ x.state

abbrev pub OnRecord : Db → ApprovalRow → Type 0
OnRecord db row = get row.id db.requests ≡ some row

pub still_waits :
    (db db' : Db) (k : ℕ) (w : Waiter)
    → get k db'.requests ≡ get k db.requests
    → IsWaiting db k w
    → IsWaiting db' k w
still_waits db db' k w same i = record {
  row = i.row;
  here = same ∙ i.here;
  waits = i.waits;
  session = i.session;
}

-- A waiter that is left was there before, and is not the one that was settled.
left_waiter :
    (row : ApprovalRow) (ws : JsMap Waiter) (k : ℕ) (w : Waiter)
    → get k (settle_waiter row ws).0 ≡ some w
    → (get k ws ≡ some w) × ((row.id == k) ≡ false)
unfolding settle_waiter
left_waiter row ws k w h = elim (Bool-cases (has row.id ws)) [
  | inl present ↦ ground (arith, present, h, get-delete k row.id ws)
  | inr absent ↦ ground (arith, absent, h)
]

pub settle_waiter-Waits :
    (db db' : Db) (row : ApprovalRow) (ws : JsMap Waiter)
    → Waits db ws
    → Answers db db' row
    → Waits db' (settle_waiter row ws).0
settle_waiter-Waits db db' row ws h a k w e =
    let left = left_waiter row ws k w e in still_waits db db' k w (a.others k left.1) (h k w left.0)

pub settle_waiter-IsTrue :
    (db : Db) (row : ApprovalRow) (ws : JsMap Waiter)
    → OnRecord db row
    → All (IsTrue db) (settle_waiter row ws).1
unfolding settle_waiter
settle_waiter-IsTrue db row ws h = elim (Bool-cases (has row.id ws)) [
  | inl present ↦ rw (present, settle_waiter) (record { row = row; here = h; told = refl }, tt)
  | inr absent ↦ rw (absent, settle_waiter) tt
]

pub record SettlesAll (rows : List ApprovalRow) (r r' : Reply) : Type 0 where
  pub same_db : r'.service.approvals ≡ r.service.approvals
  pub left :
      (k : ℕ) (w : Waiter)
      → get k r'.service.waiters ≡ some w
      → (get k r.service.waiters ≡ some w) × All (λ row. (row.id == k) ≡ false) rows
  pub truthful :
      (db : Db) → All (OnRecord db) rows → All (IsTrue db) r.settled → All (IsTrue db) r'.settled

pub settle_all-SettlesAll :
    (rows : List ApprovalRow) (r : Reply) → SettlesAll rows r (settle_all rows r)
unfolding settle_all
settle_all-SettlesAll [] r = record {
  same_db = refl;
  left = λ k w e. (e, tt);
  truthful = λ db h t. t;
}
settle_all-SettlesAll (row ∷ rows) r =
    let after = settle_waiter row r.service.waiters in
    let rest = settle_all-SettlesAll rows _ in
    record {
      same_db = rest.same_db;
      left = λ k w e.
          let l = rest.left k w e in
          let one = left_waiter row r.service.waiters k w l.0 in (one.0, (one.1, l.1));
      truthful = λ db h t. rest.truthful db h.1 (
          All-append (IsTrue db) r.settled after.1 t
            (settle_waiter-IsTrue db row r.service.waiters h.0));
    }

-- The rows that a query selects, and what becomes of each.
module _ (p : ApprovalRow → Bool) (f : ApprovalRow → ApprovalRow) where
  pub selected-All {κ} :
      (Q : ApprovalRow → Type κ) (m : JsMap ApprovalRow)
      → AllEntries (λ k r. p r ≡ true → Q (f r)) m
      → All Q (map f (values (keep p m)))
  unfolding keep values
  selected-All Q [] h = tt
  selected-All Q ((k, r) ∷ m) h = elim (Bool-cases (p r)) [
    | inl t ↦ rw t (h.0 t, selected-All Q m h.1)
    | inr e ↦ rw e (selected-All Q m h.1)
  ]

  pub All-selected {κ} :
      (Q : ApprovalRow → Type κ) (m : JsMap ApprovalRow) (k : ℕ) (r : ApprovalRow)
      → All Q (map f (values (keep p m)))
      → get k m ≡ some r
      → p r ≡ true
      → Q (f r)
  unfolding keep values get
  All-selected Q [] k r h e t = cc
  All-selected Q ((i, x) ∷ m) k r h e t = elim (Bool-cases (i == k)) [
    | inl same ↦
        let it = some-injective x r (rw same at e) in
        let chosen : p x ≡ true = subst (λ y. p y ≡ true) (sym it) t in
        subst (λ y. Q (f y)) it ((rw chosen at h).0)
    | inr other ↦ elim (Bool-cases (p x)) [
      | inl s ↦ All-selected Q m k r ((rw s at h).1) (rw other at e) t
      | inr s ↦ All-selected Q m k r (rw s at h) (rw other at e) t
    ]
  ]

pub affected_rows-OnRecord :
    (session_id : ℕ) (ws : JsMap Waiter) (db : Db)
    → IsValid db.requests
    → All (OnRecord db) (affected_rows session_id ws db)
unfolding affected_rows
affected_rows-OnRecord session_id [] db v = tt
affected_rows-OnRecord session_id ((id, w) ∷ ws) db v =
    let rest = affected_rows-OnRecord session_id ws db v in
    elim (Bool-cases (w.session_id == session_id)) [
      | inr other ↦ rw other rest
      | inl own ↦ elim (Option-cases (get id db.requests)) [
        | inl e ↦ rw (own, e) rest
        | inr (row, e) ↦ rw (own, e) (at_id db v id row e, rest)
      ]
    ]

pub affected_rows-in :
    (session_id : ℕ) (ws : JsMap Waiter) (db : Db) (k : ℕ) (w : Waiter) (row : ApprovalRow)
    → All (λ row. (row.id == k) ≡ false) (affected_rows session_id ws db)
    → get k ws ≡ some w
    → get k db.requests ≡ some row
    → row.id ≡ k
    → (w.session_id == session_id) ≡ false
unfolding affected_rows get
affected_rows-in session_id [] db k w row h e g same = cc
affected_rows-in session_id ((id, x) ∷ ws) db k w row h e g same = elim (Bool-cases (id == k)) [
  | inl here ↦ elim (Bool-cases (w.session_id == session_id)) [
    | inr other ↦ other
    | inl own ↦
        let it = some-injective x w (rw here at e) in
        let x_own = subst (λ (y : Waiter). (y.session_id == session_id) ≡ true) (sym it) own in
        let found = subst (λ j. get j db.requests ≡ some row) (sym ((==_iff id k).0 here)) g in
        let refuted = (rw (x_own, found, affected_rows) at h).0 in
        absurd (ground (arith, refuted, same))
  ]
  | inr there ↦
      let tail = affected_rows-in session_id ws db k w row in
      elim (Bool-cases (x.session_id == session_id)) [
        | inr other ↦ tail (rw (other, affected_rows) at h) (rw there at e) g same
        | inl own ↦ elim (Option-cases (get id db.requests)) [
          | inl gone ↦ tail (rw (own, gone, affected_rows) at h) (rw there at e) g same
          | inr (other, found) ↦
              tail ((rw (own, found, affected_rows) at h).1) (rw there at e) g same
        ]
      ]
]
