-- ===== src/Journal/Safety.antt =====
-- The maps in memory and the file on disk both keep track of the executed grants. The children say
-- that every method keeps it so.
pub mod Beginning
pub mod Closing
pub mod Acknowledged
pub mod Restart
use moshu.Common.{
  ℕ, ◌≤◌, ◌<◌, ◌≡◌, refl, sym, ◌∙◌, ap, ◌≢◌, ◌⊎◌, inl, inr, Bool, true, false, ◌&&◌, ltb, leb, ◌==◌,
  if◌then◌else◌, Bool-cases, Option, none, some, Option-cases, is_some, List, [], ◌∷◌, contains,
  arith,
}
use moshu.Common.JsMap.{JsMap, get, has, set, delete, values, find, find-get, get-set, size}
use moshu.Common.Entries.{==_iff}
use moshu.Common.Result.{ok, err, Result-cases}
use moshu.Peer.{PeerIdentity}
use moshu.Journal.Types.{
  Deployment, Authorization, InvokeInput, Payload, JournalRecord, ConsumedGrant, JournalFile,
  Journal, PersistOutcome, written, thrown_before_rename, thrown_after_rename, Persisted, persisted,
  persistence_error, Begun, execute, replay_result, rejected, prepare_failed, prepare_uncertain,
  running, max_invocation_journal_records,
}
use moshu.Journal.Grant.{authorize, payload_of}
use moshu.Journal.{
  Attempts, persist, put_record, prune_expired_grant_tombstones, admit, reuse, recover,
  after_running, start_running, after_prepared, prepare, begin_authorized, begin, new_record,
  mark_prepare_outcome_unknown,
}
use moshu.Journal.Tracking.{IsIssued, IsTombstone, IsSpent, Tracks, Tracks-later, Tracks-set}
use moshu.Journal.Tracking.Writes.{Tracks-keep, Tracks-delete}

-- The maps whose values the file holds; no file stands for two empty maps.
abbrev pub IsFileOf : Option JournalFile → JsMap JournalRecord → JsMap ConsumedGrant → Type 0
IsFileOf f rs cs =
    ((f ≡ none) × (rs ≡ []) × (cs ≡ []))
    ⊎ (f ≡ some (record { records = values rs; consumed_grants = values cs }))

-- The grants that were executed, once `begin` has returned.
abbrev pub executed_by : Option Authorization → Begun → List ℕ → List ℕ
executed_by (some a) execute xs = a.grant_id ∷ xs
executed_by _ _ xs = xs

module _ (invocation_of expiry_of : ℕ → ℕ) where
  abbrev pub OnDisk : ℕ → List ℕ → Option JournalFile → Type 0
  OnDisk t xs f =
      (rs : JsMap JournalRecord) × (cs : JsMap ConsumedGrant) × IsFileOf f rs cs
      × Tracks invocation_of expiry_of t xs rs cs

  pub record IsSafe (t : ℕ) (xs : List ℕ) (j : Journal) : Type 0 where
    pub in_memory : Tracks invocation_of expiry_of t xs j.records j.consumed_grants
    pub on_disk : OnDisk t xs j.file

  -- The call carries the grant as the Agent Server issued it.
  abbrev pub IsIssuedInput : InvokeInput → Type 0
  IsIssuedInput input =
      (a : Authorization)
      → input.authorization ≡ some a
      → (invocation_of a.grant_id ≡ input.invocation_id) × (expiry_of a.grant_id ≡ a.expires_at)

  pub persist-IsSafe :
      {t : ℕ} {xs : List ℕ} (o : PersistOutcome) (j : Journal)
      → IsSafe t xs j
      → IsSafe t xs (persist o j).0
  unfolding persist
  persist-IsSafe written j h = record {
    in_memory = h.in_memory;
    on_disk = (j.records, j.consumed_grants, inr refl, h.in_memory);
  }
  persist-IsSafe thrown_before_rename j h = h
  persist-IsSafe thrown_after_rename j h = record {
    in_memory = h.in_memory;
    on_disk = (j.records, j.consumed_grants, inr refl, h.in_memory);
  }

  pub OnDisk-later :
      {t t' : ℕ} {xs : List ℕ} (f : Option JournalFile)
      → ((g h : ℕ) → invocation_of g ≡ invocation_of h → g ≡ h)
      → t ≤ t'
      → OnDisk t xs f
      → OnDisk t' xs f
  OnDisk-later f injective later (rs, cs, e, h) =
      (rs, cs, e, Tracks-later invocation_of expiry_of injective later h)

module _ (invocation_of expiry_of : ℕ → ℕ)
    (injective : (g h : ℕ) → invocation_of g ≡ invocation_of h → g ≡ h) where
  pub IsSafe-later :
      {t t' : ℕ} {xs : List ℕ} {j : Journal}
      → t ≤ t'
      → IsSafe invocation_of expiry_of t xs j
      → IsSafe invocation_of expiry_of t' xs j
  IsSafe-later {j = j} later h = record {
    in_memory = Tracks-later invocation_of expiry_of injective later h.in_memory;
    on_disk = OnDisk-later invocation_of expiry_of j.file injective later h.on_disk;
  }

  pub prune-IsSafe :
      {t : ℕ} {xs : List ℕ} {j : Journal}
      → IsSafe invocation_of expiry_of t xs j
      → IsSafe invocation_of expiry_of t xs (prune_expired_grant_tombstones t j)
  unfolding prune_expired_grant_tombstones
  prune-IsSafe h = record {
    in_memory = Tracks-keep invocation_of expiry_of h.in_memory;
    on_disk = h.on_disk;
  }
