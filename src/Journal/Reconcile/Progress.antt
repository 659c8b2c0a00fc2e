-- ===== src/Journal/Reconcile/Progress.antt =====
-- What a batch asks for is there, so that an answer to it makes progress.
use moshu.Common.{
  ℕ, ◌<◌, ◌≡◌, subst, inl, inr, ◌⊎◌, true, not, ◌&&◌, ◌||◌, leb, ltb, ◌==◌, is_some, Option, none,
  some, Option-cases, Bool-cases, List, [], ◌∷◌, ◌++◌, map, length, contains, distinct,
  distinct_from, All, All-append, All-imp, arith,
}
use moshu.Common.JsMap.{JsMap, get, has, size, find, values, map_values}
use moshu.Common.Entries.{==_iff, AllEntries-delete, IsKeyed}
use moshu.Journal.Types.{JournalRecord, ConsumedGrant, max_consumed_grant_tombstones}
use moshu.Journal.Receipts.{
  is_open, list_evidence, set_confirmed, Acknowledging, acknowledge_one, acknowledge_record,
  acknowledge_all, remove_record,
}
use moshu.Journal.Reconcile.{Fits, batch_items, batch_receipts, is_response_subset, is_empty}
use moshu.Journal.Reconcile.Measure.{unconfirmed, confirm-unconfirmed, is_awaited}

pub contains-All : (P : ℕ → Type 0) (a : ℕ) (xs : List ℕ) → All P xs → contains a xs ≡ true → P a
contains-All P a [] h e = cc
contains-All P a (x ∷ xs) h e = elim (Bool-cases (x == a)) [
  | inl same ↦ subst P ((==_iff x a).0 same) h.0
  | inr other ↦ contains-All P a xs h.1 (rw other at e)
]

pub is_response_subset-All :
    (P : ℕ → Type 0) (allowed seen ids : List ℕ)
    → All P allowed
    → is_response_subset allowed seen ids ≡ true
    → All P ids
unfolding is_response_subset
is_response_subset-All P allowed seen [] h e = tt
is_response_subset-All P allowed seen (id ∷ ids) h e = elim (Bool-cases (contains id allowed)) [
  | inr out ↦ absurd (ground (arith, e, out))
  | inl within ↦ elim (Bool-cases (contains id seen)) [
    | inl again ↦ absurd (ground (arith, e, within, again))
    | inr new ↦ (
      contains-All P id allowed h within,
      is_response_subset-All P allowed (id ∷ seen) ids h (rw (within, new) at e),
    )
  ]
]

distinct_from-All :
    (P : ℕ → Type 0) (seen ids : List ℕ) → All P ids → All P (distinct_from seen ids)
distinct_from-All P seen [] h = tt
distinct_from-All P seen (id ∷ ids) h = elim (Bool-cases (contains id seen)) [
  | inl again ↦ rw (distinct_from, again) (distinct_from-All P seen ids h.1)
  | inr new ↦ rw (distinct_from, new) (h.0, distinct_from-All P (id ∷ seen) ids h.1)
]

pub distinct-All : (P : ℕ → Type 0) (ids : List ℕ) → All P ids → All P (distinct ids)
distinct-All P ids h = distinct_from-All P [] ids h

-- The records of a batch.
abbrev pub IsKeyedById : JsMap JournalRecord → Type 0
IsKeyedById = IsKeyed (λ (r : JournalRecord). r.invocation_id)

pub values-has :
    (m : JsMap JournalRecord) → IsKeyedById m → All (λ r. has r.invocation_id m ≡ true) (values m)
unfolding values get
values-has [] h = tt
values-has ((k, r) ∷ m) h = (
  ground (arith, h.0),
  All-imp (λ (x : JournalRecord). has x.invocation_id m ≡ true)
      (λ (x : JournalRecord). has x.invocation_id ((k, r) ∷ m) ≡ true) (values m)
      (λ x e. ground (arith, e)) (values-has m h.1),
)

pub list_evidence-All :
    (P : JournalRecord → Type 0) (rs : List JournalRecord) → All P rs → All P (list_evidence rs)
unfolding list_evidence
list_evidence-All P [] h = tt
list_evidence-All P (r ∷ rs) h = elim (Bool-cases (is_open r.state)) [
  | inl o ↦ rw o (list_evidence-All P rs h.1)
  | inr over ↦ rw over (h.0, list_evidence-All P rs h.1)
]

abbrev pub IfSome : {A : Type 0} → (A → Type 0) → Option A → Type 0
IfSome P none = Unit
IfSome P (some a) = P a

pub batch_items-All :
    (P : JournalRecord → Type 0) (fits : Fits) (batch rest : List JournalRecord)
    → All P batch
    → All P rest
    → IfSome (All P) (batch_items fits batch rest)
unfolding batch_items
batch_items-All P fits batch [] h k = h
batch_items-All P fits batch (r ∷ rest) h k =
    let more = batch ++ (r ∷ []) in
    let all = All-append P batch (r ∷ []) h (k.0, tt) in
    elim (Bool-cases (fits more [])) [
      | inr large ↦ elim (Bool-cases (is_empty batch)) [
        | inl none_yet ↦ rw (large, none_yet) tt
        | inr some_yet ↦ rw (large, some_yet) h
      ]
      | inl small ↦ elim (Bool-cases (leb 64 (length more))) [
        | inl full ↦ rw (small, full) all
        | inr room ↦ rw (small, room) (batch_items-All P fits more rest all k.1)
      ]
    ]

pub ids_of :
    (P : ℕ → Type 0) (rs : List JournalRecord)
    → All (λ r. P r.invocation_id) rs
    → All P (map (λ (r : JournalRecord). r.invocation_id) rs)
ids_of P [] h = tt
ids_of P (r ∷ rs) h = (h.0, ids_of P rs h.1)

-- The receipts of a batch.
abbrev IsSettled : List ConsumedGrant → ConsumedGrant → Type 0
IsSettled cs c = (c.server_confirmed ≡ true) ⊎ (is_awaited c.invocation_id cs ≡ true)

All-IsSettled : (cs : List ConsumedGrant) → All (IsSettled cs) cs
unfolding is_awaited
All-IsSettled [] = tt
All-IsSettled (c ∷ cs) = (
  ground (arith, Bool-cases c.server_confirmed),
  All-imp (IsSettled cs) (IsSettled (c ∷ cs)) cs (λ x h. ground (arith, h)) (All-IsSettled cs),
)

batch_receipts-All :
    (fits : Fits) (items : List JournalRecord) (all : List ConsumedGrant) (ids : List ℕ)
    (cs : List ConsumedGrant)
    → All (λ id. is_awaited id all ≡ true) ids
    → All (IsSettled all) cs
    → All (λ id. is_awaited id all ≡ true) (batch_receipts fits items ids cs)
unfolding batch_receipts
batch_receipts-All fits items all ids [] h k = h
batch_receipts-All fits items all ids (c ∷ cs) h k =
    let more = ids ++ (c.invocation_id ∷ []) in
    elim (Bool-cases c.server_confirmed) [
      | inl confirmed ↦ rw confirmed (batch_receipts-All fits items all ids cs h k.1)
      | inr waiting ↦ elim (Bool-cases (ltb 64 (length more) || not (fits items more))) [
        | inl full ↦ rw (waiting, full) h
        | inr room ↦
            rw (waiting, room)
              (batch_receipts-All fits items all more cs
                (All-append (λ id. is_awaited id all ≡ true) ids (c.invocation_id ∷ []) h
                  (ground (arith, k.0, waiting), tt))
                k.1)
      ]
    ]

pub batch_receipts-awaited :
    (fits : Fits) (items : List JournalRecord) (cs : List ConsumedGrant)
    → All (λ id. is_awaited id cs ≡ true) (batch_receipts fits items [] cs)
batch_receipts-awaited fits items cs = batch_receipts-All fits items cs [] cs tt (All-IsSettled cs)

-- A confirmation of an awaited tombstone leaves fewer of them.
pub confirm-less :
    (id : ℕ) (ids : List ℕ) (m : JsMap ConsumedGrant)
    → is_awaited id (values m) ≡ true
    → contains id ids ≡ true
    → unconfirmed (map_values (set_confirmed true ids) m) < unconfirmed m
unfolding unconfirmed map_values values is_awaited
confirm-less id ids [] h e = cc
confirm-less id ids ((i, c) ∷ m) h e =
    elim (Bool-cases (not c.server_confirmed && c.invocation_id == id)) [
      | inl it ↦
          let named : c.invocation_id ≡ id = ground arith in
          ground (arith, it, confirm-unconfirmed ids m, e, ==_iff c.invocation_id id, named)
      | inr other ↦ ground (arith, other, h, confirm-less id ids m)
    ]

-- The records that are left stand under their identifiers.
acknowledge_one-IsKeyed :
    (id : ℕ) (s : Acknowledging)
    → IsKeyedById s.journal.records
    → IsKeyedById (acknowledge_one id s).journal.records
unfolding acknowledge_one acknowledge_record remove_record
acknowledge_one-IsKeyed id s h = elim (Option-cases (get id s.journal.records)) [
  | inl e ↦
      elim (Bool-cases (is_some (find (λ c. c.invocation_id == id) s.journal.consumed_grants))) [
        | inl known ↦ rw (e, known, acknowledge_one) h
        | inr unknown ↦ rw (e, unknown, acknowledge_one) h
      ]
  | inr (r, e) ↦ elim (Bool-cases (is_open r.state)) [
    | inl o ↦ rw (e, acknowledge_one, o) h
    | inr over ↦
        elim (Bool-cases (
          not (has r.grant_id s.journal.consumed_grants)
          && leb max_consumed_grant_tombstones (size s.journal.consumed_grants))) [
            | inl full ↦ rw (e, acknowledge_one, over, full) h
            | inr room ↦
                rw (e, acknowledge_one, over, room)
                  (AllEntries-delete (λ (k : ℕ) (x : JournalRecord). x.invocation_id ≡ k) id
                    s.journal.records h)
          ]
  ]
]

pub acknowledge_all-IsKeyed :
    (ids : List ℕ) (s : Acknowledging)
    → IsKeyedById s.journal.records
    → IsKeyedById (acknowledge_all ids s).journal.records
unfolding acknowledge_all
acknowledge_all-IsKeyed [] s h = h
acknowledge_all-IsKeyed (id ∷ ids) s h =
    acknowledge_all-IsKeyed ids (acknowledge_one id s) (acknowledge_one-IsKeyed id s h)
