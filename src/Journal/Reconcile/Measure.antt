-- ===== src/Journal/Reconcile/Measure.antt =====
-- What is left to report: twice the records, and the tombstones that the server has not confirmed.
use moshu.Common.{
  ℕ, suc, ◌+◌, ◌*◌, ◌≤◌, ◌<◌, ◌≡◌, refl, inl, inr, ◌⊎◌, Bool, true, false, not, ◌&&◌, leb, ◌==◌,
  if◌then◌else◌, is_some, some, Option-cases, Bool-cases, List, [], ◌∷◌, All, arith,
}
use moshu.Common.JsMap.{JsMap, get, has, set, delete, size, keep, map_values, find}
use moshu.Journal.Types.{JournalRecord, ConsumedGrant, Journal, max_consumed_grant_tombstones}
use moshu.Journal.Receipts.{
  is_open, tombstone, Acknowledging, acknowledge_one, acknowledge_record, acknowledge_all,
  remove_record, set_confirmed,
}

unfoldable pub unconfirmed : JsMap ConsumedGrant → ℕ
unconfirmed [] = 0
unconfirmed ((_, c) ∷ m) = let rest = unconfirmed m in if c.server_confirmed then rest else suc rest

unfoldable pub measure : Journal → ℕ
measure j = 2 * size j.records + unconfirmed j.consumed_grants

set-unconfirmed :
    (k : ℕ) (r : JournalRecord) (m : JsMap ConsumedGrant)
    → unconfirmed (set k (tombstone r) m) ≤ suc (unconfirmed m)
unfolding unconfirmed set
set-unconfirmed k r [] = omega arith
set-unconfirmed k r ((i, c) ∷ m) = ground (arith, set-unconfirmed k r m)

pub keep-unconfirmed :
    (p : ConsumedGrant → Bool) (m : JsMap ConsumedGrant) → unconfirmed (keep p m) ≤ unconfirmed m
unfolding unconfirmed keep
keep-unconfirmed p [] = omega arith
keep-unconfirmed p ((i, c) ∷ m) = ground (arith, keep-unconfirmed p m)

pub confirm-unconfirmed :
    (ids : List ℕ) (m : JsMap ConsumedGrant)
    → unconfirmed (map_values (set_confirmed true ids) m) ≤ unconfirmed m
unfolding unconfirmed map_values
confirm-unconfirmed ids [] = omega arith
confirm-unconfirmed ids ((i, c) ∷ m) = ground (arith, confirm-unconfirmed ids m)

-- A tombstone of the invocation that the server has not confirmed.
unfoldable pub is_awaited : ℕ → List ConsumedGrant → Bool
is_awaited id [] = false
is_awaited id (c ∷ cs) =
    let rest = is_awaited id cs in
    if not c.server_confirmed && c.invocation_id == id then true else rest

size-delete-le : (k : ℕ) (m : JsMap JournalRecord) → size (delete k m) ≤ size m
unfolding delete size
size-delete-le k [] = omega arith
size-delete-le k ((i, r) ∷ m) = ground (arith, size-delete-le k m)

size-delete-less : (k : ℕ) (m : JsMap JournalRecord) → has k m ≡ true → size (delete k m) < size m
unfolding delete size get
size-delete-less k [] h = cc
size-delete-less k ((i, r) ∷ m) h = elim (Bool-cases (i == k)) [
  | inl same ↦ ground (arith, same, size-delete-le k m)
  | inr other ↦ ground (arith, other, h, size-delete-less k m)
]

-- A record gives way to its tombstone.
acknowledge_record-measure :
    (r : JournalRecord) (id : ℕ) (s : Acknowledging)
    → has id s.journal.records ≡ true
    → (acknowledge_record r id s ≡ s)
      ⊎ (measure (acknowledge_record r id s).journal < measure s.journal)
unfolding acknowledge_record remove_record measure
acknowledge_record-measure r id s h = elim (Bool-cases (is_open r.state)) [
  | inl o ↦ inl (rw (o, acknowledge_record) refl)
  | inr over ↦
      elim (Bool-cases (
        not (has r.grant_id s.journal.consumed_grants)
        && leb max_consumed_grant_tombstones (size s.journal.consumed_grants))) [
          | inl full ↦ inl (rw (over, full, acknowledge_record) refl)
          | inr room ↦ inr (
              rw (over, room, acknowledge_record)
                (omega (
                  arith,
                  set-unconfirmed r.grant_id r s.journal.consumed_grants,
                  size-delete-less id s.journal.records h,
                )))
        ]
]

has-some :
    (id : ℕ) (m : JsMap JournalRecord) (r : JournalRecord) → get id m ≡ some r → has id m ≡ true
has-some id m r e = rw e refl

acknowledge_one-measure :
    (id : ℕ) (s : Acknowledging) → measure (acknowledge_one id s).journal ≤ measure s.journal
unfolding acknowledge_one
acknowledge_one-measure id s = elim (Option-cases (get id s.journal.records)) [
  | inr (r, e) ↦ elim (acknowledge_record-measure r id s (has-some id s.journal.records r e)) [
    | inl same ↦ rw (e, acknowledge_one, same) (omega arith)
    | inr less ↦ rw (e, acknowledge_one) (omega (arith, less))
  ]
  | inl e ↦
      elim (Bool-cases (is_some (find (λ c. c.invocation_id == id) s.journal.consumed_grants))) [
        | inl known ↦ rw (e, known, acknowledge_one) (omega arith)
        | inr unknown ↦ rw (e, unknown, acknowledge_one) (omega arith)
      ]
]

acknowledge_all-measure :
    (ids : List ℕ) (s : Acknowledging) → measure (acknowledge_all ids s).journal ≤ measure s.journal
unfolding acknowledge_all
acknowledge_all-measure [] s = omega arith
acknowledge_all-measure (id ∷ ids) s =
    omega (arith, acknowledge_all-measure ids (acknowledge_one id s), acknowledge_one-measure id s)

-- Where each identifier has a record, the loop does nothing at all or leaves less to report.
pub acknowledge_all-less :
    (ids : List ℕ) (s : Acknowledging)
    → All (λ id. has id s.journal.records ≡ true) ids
    → (acknowledge_all ids s ≡ s) ⊎ (measure (acknowledge_all ids s).journal < measure s.journal)
unfolding acknowledge_all acknowledge_one
acknowledge_all-less [] s h = inl refl
acknowledge_all-less (id ∷ ids) s h = elim (Option-cases (get id s.journal.records)) [
  | inl e ↦ absurd (ground (arith, e, h.0))
  | inr (r, e) ↦ elim (acknowledge_record-measure r id s h.0) [
    | inl same ↦ rw (acknowledge_all, acknowledge_one, e, same) (acknowledge_all-less ids s h.1)
    | inr less ↦ inr (
        rw (acknowledge_all, acknowledge_one, e)
          (omega (arith, less, acknowledge_all-measure ids (acknowledge_record r id s))))
  ]
]
