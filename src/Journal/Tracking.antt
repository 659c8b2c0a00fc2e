-- ===== src/Journal/Tracking.antt =====
-- What the two maps of the journal keep of the grants that were executed, and how one write to a
-- map changes it. `invocation_of` and `expiry_of` say which invocation the Agent Server issued a
-- grant for, and until when.
pub mod Writes
pub mod Reload
use moshu.Common.{
  ℕ, ◌≤◌, ◌≡◌, refl, sym, ap, ◌∙◌, ◌⊎◌, inl, inr, Bool, true, false, not, ◌&&◌, leb, ◌==◌,
  if◌then◌else◌, Bool-cases, Option, none, some, Option-cases, List, [], contains, arith,
}
use moshu.Common.JsMap.{
  JsMap, get, set, delete, keep, map_values, NodupKeys, get-set, get-delete, get-keep,
  get-map_values, set-NodupKeys, delete-NodupKeys, keep-NodupKeys, map_values-NodupKeys,
}
use moshu.Common.Entries.{
  AllEntries, AllEntries-get, AllEntries-set, AllEntries-delete, AllEntries-keep,
  AllEntries-map_values, ==_iff,
}
use moshu.Journal.Types.{JournalRecord, ConsumedGrant}

-- A tombstone that is kept at `now`, by the test of the pruning loop.
abbrev pub is_kept : ℕ → ConsumedGrant → Bool
is_kept now c = not (c.server_confirmed && leb c.expires_at now)

module _ (invocation_of expiry_of : ℕ → ℕ) where
  abbrev pub IsIssued : ℕ → JournalRecord → Type 0
  IsIssued k r =
      (r.invocation_id ≡ k)
      × (invocation_of r.grant_id ≡ k)
      × (expiry_of r.grant_id ≡ r.grant_expires_at)

  abbrev pub IsTombstone : ℕ → ConsumedGrant → Type 0
  IsTombstone g c = (c.grant_id ≡ g) × (c.expires_at ≡ expiry_of g)

  -- What a grant had for a tombstone, if any.
  abbrev pub IsPrevious : ℕ → Option ConsumedGrant → Type 0
  IsPrevious g none = Unit
  IsPrevious g (some c) = IsTombstone g c

  -- A grant that can not be executed again: a record or a tombstone bars it, or it is past its expiry.
  abbrev pub IsSpent : ℕ → ℕ → JsMap JournalRecord → JsMap ConsumedGrant → Type 0
  IsSpent t g rs cs =
      ((r : JournalRecord) × (get (invocation_of g) rs ≡ some r) × (r.grant_id ≡ g))
      ⊎ ((c : ConsumedGrant) × (get g cs ≡ some c))
      ⊎ (expiry_of g ≤ t)

  -- At the instant `t`, when the grants of `xs` were executed.
  pub record Tracks (t : ℕ) (xs : List ℕ) (rs : JsMap JournalRecord) (cs : JsMap ConsumedGrant)
      : Type 0 where
    pub issued : AllEntries IsIssued rs
    pub tombstones : AllEntries IsTombstone cs
    pub records_nodup : NodupKeys rs
    pub consumed_nodup : NodupKeys cs
    pub spent : (g : ℕ) → contains g xs ≡ true → IsSpent t g rs cs

module _ (invocation_of expiry_of : ℕ → ℕ)
    (injective : (g h : ℕ) → invocation_of g ≡ invocation_of h → g ≡ h) where
  pub Tracks-later :
      {t t' : ℕ} {xs : List ℕ} {rs : JsMap JournalRecord} {cs : JsMap ConsumedGrant}
      → t ≤ t'
      → Tracks invocation_of expiry_of t xs rs cs
      → Tracks invocation_of expiry_of t' xs rs cs
  Tracks-later later h = record {
    issued = h.issued;
    tombstones = h.tombstones;
    records_nodup = h.records_nodup;
    consumed_nodup = h.consumed_nodup;
    spent = λ g e. elim (h.spent g e) [
      | inl r ↦ inl r
      | inr (inl c) ↦ inr (inl c)
      | inr (inr p) ↦ inr (inr (omega arith))
    ];
  }

  -- A record under its own identifier bars the grants that it barred before.
  pub IsSpent-set :
      (t g k : ℕ) (r : JournalRecord) (rs : JsMap JournalRecord) (cs : JsMap ConsumedGrant)
      → IsIssued invocation_of expiry_of k r
      → IsSpent invocation_of expiry_of t g rs cs
      → IsSpent invocation_of expiry_of t g (set k r rs) cs
  IsSpent-set t g k r rs cs i (inr s) = inr s
  IsSpent-set t g k r rs cs i (inl (r0, e, eg)) = elim (Bool-cases (k == invocation_of g)) [
    | inl same ↦ inl (
      r,
      rw (get-set (invocation_of g) k r rs, same),
      injective r.grant_id g (i.1 ∙ (==_iff k (invocation_of g)).0 same),
    )
    | inr other ↦ inl (r0, rw (get-set (invocation_of g) k r rs, other) e, eg)
  ]

  pub Tracks-set :
      {t : ℕ} {xs : List ℕ} {rs : JsMap JournalRecord} {cs : JsMap ConsumedGrant} (k : ℕ)
      (r : JournalRecord)
      → IsIssued invocation_of expiry_of k r
      → Tracks invocation_of expiry_of t xs rs cs
      → Tracks invocation_of expiry_of t xs (set k r rs) cs
  Tracks-set {t} {rs = rs} {cs = cs} k r i h = record {
    issued = AllEntries-set _ k r rs h.issued i;
    tombstones = h.tombstones;
    records_nodup = set-NodupKeys k r rs h.records_nodup;
    consumed_nodup = h.consumed_nodup;
    spent = λ g e. IsSpent-set t g k r rs cs i (h.spent g e);
  }
