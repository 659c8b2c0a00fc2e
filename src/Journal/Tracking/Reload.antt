-- ===== src/Journal/Tracking/Reload.antt =====
-- The maps that the journal's constructor builds from the values of two maps.
use moshu.Common.{ℕ, ◌≡◌, refl, inl, inr, none, some, List, [], ◌∷◌, ◌∙◌, map}
use moshu.Common.JsMap.{
  JsMap, get, values, map_values, set_all, NodupKeys, get-map_values, map_values-NodupKeys,
  set_all-NodupKeys, values-map_values,
}
use moshu.Common.Entries.{
  AllEntries, AllEntries-map_values, AllEntries-set_all, IsKeyed, get-set_all_nil,
}
use moshu.Journal.Types.{JournalRecord, ConsumedGrant}
use moshu.Journal.Tracking.{IsIssued, IsTombstone, IsSpent, Tracks}

abbrev reload_records : (JournalRecord → JournalRecord) → JsMap JournalRecord → JsMap JournalRecord
reload_records f rs = set_all (λ r. r.invocation_id) (map f (values rs)) []

abbrev reload_consumed : JsMap ConsumedGrant → JsMap ConsumedGrant
reload_consumed cs = set_all (λ c. c.grant_id) (values cs) []

module _ (invocation_of expiry_of : ℕ → ℕ) (f : JournalRecord → JournalRecord)
    (same : (r : JournalRecord)
      → ((f r).invocation_id ≡ r.invocation_id)
        × ((f r).grant_id ≡ r.grant_id)
        × ((f r).grant_expires_at ≡ r.grant_expires_at)) where
  IsIssued-map :
      (rs : JsMap JournalRecord)
      → AllEntries (IsIssued invocation_of expiry_of) rs
      → AllEntries (IsIssued invocation_of expiry_of) (map_values f rs)
  IsIssued-map rs h =
      AllEntries-map_values (IsIssued invocation_of expiry_of) f rs
        (λ k r i. rw ((same r).0, (same r).1, (same r).2) i) h

  issued-IsKeyed :
      (rs : JsMap JournalRecord)
      → AllEntries (IsIssued invocation_of expiry_of) rs
      → IsKeyed (λ r. r.invocation_id) rs
  issued-IsKeyed [] h = tt
  issued-IsKeyed ((k, r) ∷ rs) h = (h.0.0, issued-IsKeyed rs h.1)

  tombstones-IsKeyed :
      (cs : JsMap ConsumedGrant)
      → AllEntries (IsTombstone invocation_of expiry_of) cs
      → IsKeyed (λ c. c.grant_id) cs
  tombstones-IsKeyed [] h = tt
  tombstones-IsKeyed ((k, r) ∷ cs) h = (h.0.0, tombstones-IsKeyed cs h.1)

  get-reload_records :
      (k : ℕ) (rs : JsMap JournalRecord)
      → NodupKeys rs
      → AllEntries (IsIssued invocation_of expiry_of) rs
      → get k (reload_records f rs) ≡ elim (get k rs) [ none ↦ none | some r ↦ some (f r) ]
  get-reload_records k rs u h = rw (← values-map_values f rs) (
      get-set_all_nil (λ r. r.invocation_id) k (map_values f rs) (map_values-NodupKeys f rs u)
        (issued-IsKeyed (map_values f rs) (IsIssued-map rs h))
      ∙ get-map_values f k rs)

  get-reload_consumed :
      (k : ℕ) (cs : JsMap ConsumedGrant)
      → NodupKeys cs
      → AllEntries (IsTombstone invocation_of expiry_of) cs
      → get k (reload_consumed cs) ≡ get k cs
  get-reload_consumed k cs u h = get-set_all_nil (λ c. c.grant_id) k cs u (tombstones-IsKeyed cs h)

  IsSpent-reload :
      (t g : ℕ) (rs : JsMap JournalRecord) (cs : JsMap ConsumedGrant)
      → NodupKeys rs
      → AllEntries (IsIssued invocation_of expiry_of) rs
      → NodupKeys cs
      → AllEntries (IsTombstone invocation_of expiry_of) cs
      → IsSpent invocation_of expiry_of t g rs cs
      → IsSpent invocation_of expiry_of t g (reload_records f rs) (reload_consumed cs)
  IsSpent-reload t g rs cs u h v k (inl (r, e, eg)) =
      inl (f r, rw (get-reload_records (invocation_of g) rs u h, e) refl, rw (same r).1 eg)
  IsSpent-reload t g rs cs u h v k (inr (inl (c, e))) =
      inr (inl (c, rw (get-reload_consumed g cs v k) e))
  IsSpent-reload t g rs cs u h v k (inr (inr p)) = inr (inr p)

  pub Tracks-reload :
      {t : ℕ} {xs : List ℕ} {rs : JsMap JournalRecord} {cs : JsMap ConsumedGrant}
      → Tracks invocation_of expiry_of t xs rs cs
      → Tracks invocation_of expiry_of t xs
          (set_all (λ r. r.invocation_id) (map f (values rs)) [])
          (set_all (λ c. c.grant_id) (values cs) [])
  Tracks-reload {t} {rs = rs} {cs = cs} h = record {
    issued = rw (← values-map_values f rs) (
        AllEntries-set_all (λ r. r.invocation_id) _ (map_values f rs) []
          (issued-IsKeyed (map_values f rs) (IsIssued-map rs h.issued)) (IsIssued-map rs h.issued)
          tt);
    tombstones =
        AllEntries-set_all (λ c. c.grant_id) _ cs [] (tombstones-IsKeyed cs h.tombstones)
          h.tombstones tt;
    records_nodup = set_all-NodupKeys (λ r. r.invocation_id) (map f (values rs)) [] tt;
    consumed_nodup = set_all-NodupKeys (λ c. c.grant_id) (values cs) [] tt;
    spent = λ g e.
        IsSpent-reload t g rs cs h.records_nodup h.issued h.consumed_nodup h.tombstones
          (h.spent g e);
  }
