-- ===== src/Journal/Safety/Acknowledged.antt =====
-- Taking and confirming acknowledgements keeps the journal safe, however the attempt to write the
-- file ends.
use moshu.Common.{
  is_some, ◌==◌, not, ◌&&◌, leb, ℕ, ◌≡◌, refl, Bool, true, false, Bool-cases, Option, Option-cases,
  inl, inr, List, [], ◌∷◌, ◌++◌, All, distinct, arith,
}
use moshu.Common.JsMap.{JsMap, get, has, find, size}
use moshu.Common.Entries.{AllEntries, AllEntries-get, AllEntries-set}
use moshu.Journal.Types.{
  JournalRecord, ConsumedGrant, Journal, PersistOutcome, written, thrown_before_rename,
  thrown_after_rename, max_consumed_grant_tombstones,
}
use moshu.Journal.Receipts.{
  Acknowledging, remove_record, acknowledge_record, acknowledge_one, acknowledge_all, roll_back,
  previous_of, commit_acknowledged, commit_if_any, start_acknowledging, acknowledge, set_confirmed,
  mark_confirmed, confirm_if_any, confirm_acknowledgements, tombstone, is_open,
}
use moshu.Journal.{persist}
use moshu.Journal.Tracking.{IsIssued, IsPrevious}
use moshu.Journal.Tracking.Writes.{Tracks-map_consumed, Tracks-consume, Tracks-restore}
use moshu.Journal.Safety.{IsSafe, persist-IsSafe, prune-IsSafe}

-- The test that keeps a record for want of room among the tombstones.
abbrev is_full : JournalRecord → Acknowledging → Bool
is_full r s =
    not (has r.grant_id s.journal.consumed_grants)
    && leb max_consumed_grant_tombstones (size s.journal.consumed_grants)

module _ {ℓ κ} {A : Type ℓ} (P : A → Type κ) where
  All-concat : (xs : List A) {x : A} → All P xs → P x → All P (xs ++ x ∷ [])
  All-concat [] h p = (p, tt)
  All-concat (y ∷ xs) h p = (h.0, All-concat xs h.1 p)

module _ (invocation_of expiry_of : ℕ → ℕ)
    (injective : (g h : ℕ) → invocation_of g ≡ invocation_of h → g ≡ h) where
  abbrev IsOwn : JournalRecord → Type 0
  IsOwn r = IsIssued invocation_of expiry_of r.invocation_id r

  -- What holds between two turns of the loop of `acknowledge`.
  record IsAcknowledging (t : ℕ) (xs : List ℕ) (s : Acknowledging) : Type 0 where
    safe : IsSafe invocation_of expiry_of t xs s.journal
    removed : All IsOwn s.removed_records
    previous : AllEntries (IsPrevious invocation_of expiry_of) s.previous_consumed

  get-IsPrevious :
      {t : ℕ} {xs : List ℕ} (g : ℕ) (j : Journal)
      → IsSafe invocation_of expiry_of t xs j
      → IsPrevious invocation_of expiry_of g (get g j.consumed_grants)
  get-IsPrevious g j h = elim (Option-cases (get g j.consumed_grants)) [
    | inl e ↦ rw e tt
    | inr (c, e) ↦ rw e (AllEntries-get _ g c j.consumed_grants h.in_memory.tombstones e)
  ]

  remove_record-IsAcknowledging :
      {t : ℕ} {xs : List ℕ} (r : JournalRecord) (id : ℕ) (s : Acknowledging)
      → IsIssued invocation_of expiry_of id r
      → IsAcknowledging t xs s
      → IsAcknowledging t xs (remove_record r id s)
  unfolding remove_record
  remove_record-IsAcknowledging r id s i h = record {
    safe = record {
      in_memory =
          Tracks-consume invocation_of expiry_of injective id r (tombstone r) i (refl, ground arith)
            h.safe.in_memory;
      on_disk = h.safe.on_disk;
    };
    removed = All-concat IsOwn s.removed_records h.removed (refl, ground arith, i.2);
    previous =
        AllEntries-set _ r.grant_id (get r.grant_id s.journal.consumed_grants) s.previous_consumed
          h.previous (get-IsPrevious r.grant_id s.journal h.safe);
  }

  acknowledge_record-IsAcknowledging :
      {t : ℕ} {xs : List ℕ} (r : JournalRecord) (id : ℕ) (s : Acknowledging)
      → IsIssued invocation_of expiry_of id r
      → IsAcknowledging t xs s
      → IsAcknowledging t xs (acknowledge_record r id s)
  unfolding acknowledge_record
  acknowledge_record-IsAcknowledging r id s i h = elim (Bool-cases (is_open r.state)) [
    | inl e ↦ rw e h
    | inr e ↦ elim (Bool-cases (is_full r s)) [
      | inl f ↦ rw (e, f) h
      | inr f ↦ rw (e, f) (remove_record-IsAcknowledging r id s i h)
    ]
  ]

  acknowledge_one-IsAcknowledging :
      {t : ℕ} {xs : List ℕ} (id : ℕ) (s : Acknowledging)
      → IsAcknowledging t xs s
      → IsAcknowledging t xs (acknowledge_one id s)
  unfolding acknowledge_one
  acknowledge_one-IsAcknowledging id s h = elim (Option-cases (get id s.journal.records)) [
    | inr (r, e) ↦
        rw (e, acknowledge_one)
          (acknowledge_record-IsAcknowledging r id s
            (AllEntries-get _ id r s.journal.records h.safe.in_memory.issued e) h)
    | inl e ↦
        elim (Bool-cases (is_some (find (λ c. c.invocation_id == id) s.journal.consumed_grants))) [
          | inl f ↦
              rw (e, f, acknowledge_one)
                (record { safe = h.safe; removed = h.removed; previous = h.previous })
          | inr f ↦ rw (e, f, acknowledge_one) h
        ]
  ]

  acknowledge_all-IsAcknowledging :
      {t : ℕ} {xs : List ℕ} (ids : List ℕ) (s : Acknowledging)
      → IsAcknowledging t xs s
      → IsAcknowledging t xs (acknowledge_all ids s)
  unfolding acknowledge_all
  acknowledge_all-IsAcknowledging [] s h = h
  acknowledge_all-IsAcknowledging (id ∷ ids) s h =
      acknowledge_all-IsAcknowledging ids (acknowledge_one id s)
        (acknowledge_one-IsAcknowledging id s h)

  previous_of-IsPrevious :
      (g : ℕ) (m : JsMap (Option ConsumedGrant))
      → AllEntries (IsPrevious invocation_of expiry_of) m
      → IsPrevious invocation_of expiry_of g (previous_of g m)
  previous_of-IsPrevious g m h = elim (Option-cases (get g m)) [
    | inl e ↦ rw (e, previous_of) tt
    | inr (c, e) ↦ rw (e, previous_of) (AllEntries-get _ g c m h e)
  ]

  roll_back-IsSafe :
      {t : ℕ} {xs : List ℕ} (rs : List JournalRecord) (m : JsMap (Option ConsumedGrant))
      (j : Journal)
      → All IsOwn rs
      → AllEntries (IsPrevious invocation_of expiry_of) m
      → IsSafe invocation_of expiry_of t xs j
      → IsSafe invocation_of expiry_of t xs (roll_back rs m j)
  unfolding roll_back
  roll_back-IsSafe [] m j i p h = h
  roll_back-IsSafe (r ∷ rs) m j i p h = roll_back-IsSafe rs m _ i.1 p (record {
    in_memory =
        Tracks-restore invocation_of expiry_of injective r.invocation_id r
          (previous_of r.grant_id m) i.0 (previous_of-IsPrevious r.grant_id m p) h.in_memory;
    on_disk = h.on_disk;
  })

  commit-IsSafe :
      {t : ℕ} {xs : List ℕ} (o : PersistOutcome) (s : Acknowledging)
      → IsAcknowledging t xs s
      → IsSafe invocation_of expiry_of t xs (commit_acknowledged o s).0
  unfolding commit_acknowledged
  commit-IsSafe written s h = persist-IsSafe invocation_of expiry_of written s.journal h.safe
  commit-IsSafe thrown_before_rename s h =
      roll_back-IsSafe s.removed_records s.previous_consumed s.journal h.removed h.previous h.safe
  commit-IsSafe thrown_after_rename s h =
      persist-IsSafe invocation_of expiry_of thrown_after_rename s.journal h.safe

  commit_if_any-IsSafe :
      {t : ℕ} {xs : List ℕ} (o : PersistOutcome) (s : Acknowledging) (ids : List ℕ)
      → IsAcknowledging t xs s
      → IsSafe invocation_of expiry_of t xs (commit_if_any o s ids).0
  commit_if_any-IsSafe o s [] h = h.safe
  commit_if_any-IsSafe o s (i ∷ is) h = commit-IsSafe o s h

  pub acknowledge-IsSafe :
      {t : ℕ} {xs : List ℕ} (o : PersistOutcome) (j : Journal) (ids : List ℕ)
      → IsSafe invocation_of expiry_of t xs j
      → IsSafe invocation_of expiry_of t xs (acknowledge t o j ids).0
  unfolding acknowledge
  acknowledge-IsSafe {t} o j ids h = commit_if_any-IsSafe o _ _ (
      acknowledge_all-IsAcknowledging (distinct ids) (start_acknowledging t j) (record {
        safe = prune-IsSafe invocation_of expiry_of injective h;
        removed = tt;
        previous = tt;
      }))

module _ (invocation_of expiry_of : ℕ → ℕ) where
  same_grant :
      (b : Bool) (ids : List ℕ) (c : ConsumedGrant)
      → ((set_confirmed b ids c).grant_id ≡ c.grant_id)
        × ((set_confirmed b ids c).expires_at ≡ c.expires_at)
  same_grant b ids c = ground arith

  mark-IsSafe :
      {t : ℕ} {xs : List ℕ} (b : Bool) (ids : List ℕ) (j : Journal)
      → IsSafe invocation_of expiry_of t xs j
      → IsSafe invocation_of expiry_of t xs (mark_confirmed b ids j)
  mark-IsSafe b ids j h = record {
    in_memory =
        Tracks-map_consumed invocation_of expiry_of (set_confirmed b ids) (same_grant b ids)
          h.in_memory;
    on_disk = h.on_disk;
  }

  confirm_if_any-IsSafe :
      {t : ℕ} {xs : List ℕ} (o : PersistOutcome) (ids : List ℕ) (j : Journal) (is : List ℕ)
      → IsSafe invocation_of expiry_of t xs j
      → IsSafe invocation_of expiry_of t xs (confirm_if_any o ids j is).0
  unfolding persist
  confirm_if_any-IsSafe o ids j [] h = h
  confirm_if_any-IsSafe written ids j (i ∷ is) h =
      persist-IsSafe invocation_of expiry_of written _ (mark-IsSafe true ids j h)
  confirm_if_any-IsSafe thrown_before_rename ids j (i ∷ is) h =
      mark-IsSafe false ids _ (mark-IsSafe true ids j h)
  confirm_if_any-IsSafe thrown_after_rename ids j (i ∷ is) h =
      persist-IsSafe invocation_of expiry_of thrown_after_rename _ (mark-IsSafe true ids j h)

  pub confirm-IsSafe :
      {t : ℕ} {xs : List ℕ} (o : PersistOutcome) (j : Journal) (ids : List ℕ)
      → IsSafe invocation_of expiry_of t xs j
      → IsSafe invocation_of expiry_of t xs (confirm_acknowledgements o j ids).0
  unfolding confirm_acknowledgements
  confirm-IsSafe o j ids h = confirm_if_any-IsSafe o ids j _ h
