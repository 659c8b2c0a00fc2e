-- ===== src/Journal/Tracking/Writes.antt =====
-- The writes of the journal's methods that take something from a map.
use moshu.Common.{
  ℕ, ◌≡◌, refl, sym, ap, ◌∙◌, ◌≢◌, inl, inr, true, false, ◌==◌, Bool-cases, Option, none, some,
  List, contains, arith,
}
use moshu.Common.JsMap.{
  JsMap, get, set, delete, keep, map_values, NodupKeys, get-set, get-delete, get-keep,
  get-map_values, set-NodupKeys, delete-NodupKeys, keep-NodupKeys, map_values-NodupKeys,
}
use moshu.Common.Entries.{
  AllEntries, AllEntries-get, AllEntries-set, AllEntries-delete, AllEntries-keep,
  AllEntries-map_values, ==_iff,
}
use moshu.Journal.Types.{JournalRecord, ConsumedGrant}
use moshu.Journal.Receipts.{restore_consumed}
use moshu.Journal.Tracking.{
  is_kept, IsIssued, IsTombstone, IsPrevious, IsSpent, Tracks, IsSpent-set,
}

module _ (invocation_of expiry_of : ℕ → ℕ) where
  -- A tombstone that goes leaves an expired grant.
  IsSpent-keep :
      (now g : ℕ) (rs : JsMap JournalRecord) (cs : JsMap ConsumedGrant)
      → NodupKeys cs
      → AllEntries (IsTombstone invocation_of expiry_of) cs
      → IsSpent invocation_of expiry_of now g rs cs
      → IsSpent invocation_of expiry_of now g rs (keep (is_kept now) cs)
  IsSpent-keep now g rs cs u h (inl r) = inl r
  IsSpent-keep now g rs cs u h (inr (inr p)) = inr (inr p)
  IsSpent-keep now g rs cs u h (inr (inl (c, e))) = elim (Bool-cases (is_kept now c)) [
    | inl kept ↦ inr (inl (c, rw (get-keep (is_kept now) g cs u, e, kept) refl))
    | inr gone ↦
        inr (inr (ground (arith, AllEntries-get (IsTombstone invocation_of expiry_of) g c cs h e)))
  ]

  pub Tracks-keep :
      {t : ℕ} {xs : List ℕ} {rs : JsMap JournalRecord} {cs : JsMap ConsumedGrant}
      → Tracks invocation_of expiry_of t xs rs cs
      → Tracks invocation_of expiry_of t xs rs (keep (is_kept t) cs)
  Tracks-keep {t} {rs = rs} {cs = cs} h = record {
    issued = h.issued;
    tombstones = AllEntries-keep _ (is_kept t) cs h.tombstones;
    records_nodup = h.records_nodup;
    consumed_nodup = keep-NodupKeys (is_kept t) cs h.consumed_nodup;
    spent = λ g e. IsSpent-keep t g rs cs h.consumed_nodup h.tombstones (h.spent g e);
  }

  IsSpent-map_values :
      (t g : ℕ) (f : ConsumedGrant → ConsumedGrant) (rs : JsMap JournalRecord)
      (cs : JsMap ConsumedGrant)
      → IsSpent invocation_of expiry_of t g rs cs
      → IsSpent invocation_of expiry_of t g rs (map_values f cs)
  IsSpent-map_values t g f rs cs (inl r) = inl r
  IsSpent-map_values t g f rs cs (inr (inr p)) = inr (inr p)
  IsSpent-map_values t g f rs cs (inr (inl (c, e))) =
      inr (inl (f c, rw (get-map_values f g cs, e) refl))

  pub Tracks-map_consumed :
      {t : ℕ} {xs : List ℕ} {rs : JsMap JournalRecord} {cs : JsMap ConsumedGrant}
      (f : ConsumedGrant → ConsumedGrant)
      → ((c : ConsumedGrant) → ((f c).grant_id ≡ c.grant_id) × ((f c).expires_at ≡ c.expires_at))
      → Tracks invocation_of expiry_of t xs rs cs
      → Tracks invocation_of expiry_of t xs rs (map_values f cs)
  Tracks-map_consumed {t} {rs = rs} {cs = cs} f same h = record {
    issued = h.issued;
    tombstones =
        AllEntries-map_values (IsTombstone invocation_of expiry_of) f cs
          (λ k v p. ((same v).0 ∙ p.0, (same v).1 ∙ p.1)) h.tombstones;
    records_nodup = h.records_nodup;
    consumed_nodup = map_values-NodupKeys f cs h.consumed_nodup;
    spent = λ g e. IsSpent-map_values t g f rs cs (h.spent g e);
  }

module _ (invocation_of expiry_of : ℕ → ℕ)
    (injective : (g h : ℕ) → invocation_of g ≡ invocation_of h → g ≡ h) where
  -- Another grant has another invocation.
  other_grant :
      (k g : ℕ) (r : JournalRecord)
      → IsIssued invocation_of expiry_of k r
      → (k == invocation_of g) ≡ true
      → r.grant_id ≡ g
  other_grant k g r i e = injective r.grant_id g (i.1 ∙ (==_iff k (invocation_of g)).0 e)

  IsSpent-delete :
      (t g k : ℕ) (r : JournalRecord) (rs : JsMap JournalRecord) (cs : JsMap ConsumedGrant)
      → IsIssued invocation_of expiry_of k r
      → r.grant_id ≢ g
      → IsSpent invocation_of expiry_of t g rs cs
      → IsSpent invocation_of expiry_of t g (delete k rs) cs
  IsSpent-delete t g k r rs cs i n (inr s) = inr s
  IsSpent-delete t g k r rs cs i n (inl (r0, e, eg)) = elim (Bool-cases (k == invocation_of g)) [
    | inl same ↦ absurd (n (other_grant k g r i same))
    | inr other ↦ inl (r0, rw (get-delete (invocation_of g) k rs, other) e, eg)
  ]

  pub Tracks-delete :
      {t : ℕ} {xs : List ℕ} {rs : JsMap JournalRecord} {cs : JsMap ConsumedGrant} (k : ℕ)
      (r : JournalRecord)
      → IsIssued invocation_of expiry_of k r
      → contains r.grant_id xs ≡ false
      → Tracks invocation_of expiry_of t xs rs cs
      → Tracks invocation_of expiry_of t xs (delete k rs) cs
  Tracks-delete {t} {xs} {rs} {cs} k r i fresh h = record {
    issued = AllEntries-delete _ k rs h.issued;
    tombstones = h.tombstones;
    records_nodup = delete-NodupKeys k rs h.records_nodup;
    consumed_nodup = h.consumed_nodup;
    spent = λ g e.
        IsSpent-delete t g k r rs cs i
          (λ (same : r.grant_id ≡ g). cc (ap (λ n. contains n xs) same)) (h.spent g e);
  }

  IsSpent-consume :
      (t g k : ℕ) (r : JournalRecord) (c : ConsumedGrant) (rs : JsMap JournalRecord)
      (cs : JsMap ConsumedGrant)
      → IsIssued invocation_of expiry_of k r
      → IsSpent invocation_of expiry_of t g rs cs
      → IsSpent invocation_of expiry_of t g (delete k rs) (set r.grant_id c cs)
  IsSpent-consume t g k r c rs cs i s = elim (Bool-cases (r.grant_id == g)) [
    | inl same ↦ inr (inl (c, rw (get-set g r.grant_id c cs, same) refl))
    | inr other ↦ elim (IsSpent-delete t g k r rs cs i (λ e. ground arith) s) [
      | inl x ↦ inl x
      | inr (inl (c0, e)) ↦ inr (inl (c0, rw (get-set g r.grant_id c cs, other) e))
      | inr (inr p) ↦ inr (inr p)
    ]
  ]

  -- A record gives way to the tombstone of its grant.
  pub Tracks-consume :
      {t : ℕ} {xs : List ℕ} {rs : JsMap JournalRecord} {cs : JsMap ConsumedGrant} (k : ℕ)
      (r : JournalRecord) (c : ConsumedGrant)
      → IsIssued invocation_of expiry_of k r
      → IsTombstone invocation_of expiry_of r.grant_id c
      → Tracks invocation_of expiry_of t xs rs cs
      → Tracks invocation_of expiry_of t xs (delete k rs) (set r.grant_id c cs)
  Tracks-consume {t} {xs} {rs} {cs} k r c i ic h = record {
    issued = AllEntries-delete _ k rs h.issued;
    tombstones = AllEntries-set _ r.grant_id c cs h.tombstones ic;
    records_nodup = delete-NodupKeys k rs h.records_nodup;
    consumed_nodup = set-NodupKeys r.grant_id c cs h.consumed_nodup;
    spent = λ g e. IsSpent-consume t g k r c rs cs i (h.spent g e);
  }

  get-restore_ne :
      (g h : ℕ) (o : Option ConsumedGrant) (cs : JsMap ConsumedGrant)
      → (h == g) ≡ false
      → get g (restore_consumed h o cs) ≡ get g cs
  get-restore_ne g h none cs n = rw (get-delete g h cs, n) refl
  get-restore_ne g h (some c) cs n = rw (get-set g h c cs, n) refl

  IsSpent-restore :
      (t g k : ℕ) (r : JournalRecord) (o : Option ConsumedGrant) (rs : JsMap JournalRecord)
      (cs : JsMap ConsumedGrant)
      → IsIssued invocation_of expiry_of k r
      → IsSpent invocation_of expiry_of t g rs cs
      → IsSpent invocation_of expiry_of t g (set k r rs) (restore_consumed r.grant_id o cs)
  IsSpent-restore t g k r o rs cs i s = elim (Bool-cases (r.grant_id == g)) [
    | inl same ↦
        let eg : r.grant_id ≡ g = (==_iff r.grant_id g).0 same in
        let ek : (k == invocation_of g) ≡ true =
          (==_iff k (invocation_of g)).1 (sym i.1 ∙ ap invocation_of eg) in
        inl (r, rw (get-set (invocation_of g) k r rs, ek) refl, eg)
    | inr other ↦ elim (IsSpent-set invocation_of expiry_of injective t g k r rs cs i s) [
      | inl x ↦ inl x
      | inr (inl (c0, e)) ↦ inr (inl (c0, rw (get-restore_ne g r.grant_id o cs other) e))
      | inr (inr p) ↦ inr (inr p)
    ]
  ]

  restore-tombstones :
      (g : ℕ) (o : Option ConsumedGrant) (cs : JsMap ConsumedGrant)
      → IsPrevious invocation_of expiry_of g o
      → AllEntries (IsTombstone invocation_of expiry_of) cs
      → AllEntries (IsTombstone invocation_of expiry_of) (restore_consumed g o cs)
  restore-tombstones g none cs p h = AllEntries-delete _ g cs h
  restore-tombstones g (some c) cs p h = AllEntries-set _ g c cs h p

  restore-NodupKeys :
      (g : ℕ) (o : Option ConsumedGrant) (cs : JsMap ConsumedGrant)
      → NodupKeys cs
      → NodupKeys (restore_consumed g o cs)
  restore-NodupKeys g none cs h = delete-NodupKeys g cs h
  restore-NodupKeys g (some c) cs h = set-NodupKeys g c cs h

  -- One step of a roll back.
  pub Tracks-restore :
      {t : ℕ} {xs : List ℕ} {rs : JsMap JournalRecord} {cs : JsMap ConsumedGrant} (k : ℕ)
      (r : JournalRecord) (o : Option ConsumedGrant)
      → IsIssued invocation_of expiry_of k r
      → IsPrevious invocation_of expiry_of r.grant_id o
      → Tracks invocation_of expiry_of t xs rs cs
      → Tracks invocation_of expiry_of t xs (set k r rs) (restore_consumed r.grant_id o cs)
  Tracks-restore {t} {xs} {rs} {cs} k r o i io h = record {
    issued = AllEntries-set _ k r rs h.issued i;
    tombstones = restore-tombstones r.grant_id o cs io h.tombstones;
    records_nodup = set-NodupKeys k r rs h.records_nodup;
    consumed_nodup = restore-NodupKeys r.grant_id o cs h.consumed_nodup;
    spent = λ g e. IsSpent-restore t g k r o rs cs i (h.spent g e);
  }
