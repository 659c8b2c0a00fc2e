-- ===== src/Journal/Safety/Beginning.antt =====
-- `begin` keeps the journal safe, however its attempts to write the file end.
use moshu.Common.{
  ℕ, ◌≤◌, ◌<◌, ◌≡◌, refl, sym, ◌∙◌, ◌≢◌, inl, inr, false, ◌==◌, Bool-cases, Option, none, some,
  Option-cases, List, ◌∷◌, contains, arith,
}
use moshu.Common.JsMap.{JsMap, get, find, find-get, get-set}
use moshu.Common.Entries.{==_iff}
use moshu.Common.Result.{ok, Result-cases}
use moshu.Peer.{PeerIdentity}
use moshu.Journal.Types.{
  Deployment, Authorization, InvokeInput, Payload, JournalRecord, ConsumedGrant, Journal,
  PersistOutcome, written, thrown_before_rename, thrown_after_rename, Begun, execute, rejected,
  running,
}
use moshu.Journal.Grant.{authorize, payload_of}
use moshu.Journal.{
  Attempts, persist, put_record, prune_expired_grant_tombstones, admit, reuse, recover,
  after_running, start_running, after_prepared, prepare, begin_authorized, begin, new_record,
  mark_prepare_outcome_unknown,
}
use moshu.Journal.Tracking.{IsIssued, Tracks, Tracks-set}
use moshu.Journal.Tracking.Writes.{Tracks-delete}
use moshu.Journal.Safety.{IsSafe, IsIssuedInput, persist-IsSafe, IsSafe-later, prune-IsSafe}

authorize-ok :
    (sha256 : Payload → ℕ) (now : ℕ) (input : InvokeInput) (authority target : PeerIdentity)
    (deployment : Deployment) (a : Authorization)
    → authorize sha256 now input authority target deployment ≡ ok a
    → (input.authorization ≡ some a) × (now < a.expires_at)
unfolding authorize
authorize-ok sha256 now input authority target deployment a h = ground arith

admit-none :
    (j : Journal) (input : InvokeInput) (a : Authorization) (digest : ℕ)
    → admit j input a digest ≡ none
    → (get a.grant_id j.consumed_grants ≡ none)
      × (find (λ r. r.grant_id == a.grant_id) j.records ≡ none)
unfolding admit
admit-none j input a digest h = ground arith

admit-ne-execute :
    (j : Journal) (input : InvokeInput) (a : Authorization) (digest : ℕ) (b : Begun)
    → admit j input a digest ≡ some b
    → b ≢ execute
unfolding admit reuse
admit-ne-execute j input a digest b h e = ground arith

module _ (invocation_of expiry_of : ℕ → ℕ) where
  Tracks-execute :
      {t : ℕ} {xs : List ℕ} {rs : JsMap JournalRecord} {cs : JsMap ConsumedGrant} (g : ℕ)
      (r : JournalRecord)
      → get (invocation_of g) rs ≡ some r
      → r.grant_id ≡ g
      → Tracks invocation_of expiry_of t xs rs cs
      → Tracks invocation_of expiry_of t (g ∷ xs) rs cs
  Tracks-execute {xs = xs} g r e eg h = record {
    issued = h.issued;
    tombstones = h.tombstones;
    records_nodup = h.records_nodup;
    consumed_nodup = h.consumed_nodup;
    spent = λ g' m. elim (Bool-cases (g == g')) [
      | inl same ↦ let eq : g ≡ g' = (==_iff g g').0 same in inl (r, rw (← eq) e, eg ∙ eq)
      | inr other ↦ h.spent g' (rw other at m)
    ];
  }

module _ (invocation_of expiry_of : ℕ → ℕ)
    (injective : (g h : ℕ) → invocation_of g ≡ invocation_of h → g ≡ h) where
  put_record-IsSafe :
      {t : ℕ} {xs : List ℕ} {j : Journal} (r : JournalRecord)
      → IsIssued invocation_of expiry_of r.invocation_id r
      → IsSafe invocation_of expiry_of t xs j
      → IsSafe invocation_of expiry_of t xs (put_record r j)
  put_record-IsSafe r i h = record {
    in_memory = Tracks-set invocation_of expiry_of injective r.invocation_id r i h.in_memory;
    on_disk = h.on_disk;
  }

  -- What `prepare` leaves: it returns `execute` only with the grant tracked on disk and in memory.
  abbrev IsPrepared : ℕ → List ℕ → ℕ → Journal × Begun → Type 0
  IsPrepared t xs g (j, execute) = IsSafe invocation_of expiry_of t (g ∷ xs) j
  IsPrepared t xs g (j, _) = IsSafe invocation_of expiry_of t xs j

  recover-IsPrepared :
      {t : ℕ} {xs : List ℕ} {j : Journal} (now g : ℕ) (o : PersistOutcome) (r : JournalRecord)
      → IsIssued invocation_of expiry_of r.invocation_id r
      → IsSafe invocation_of expiry_of t xs j
      → IsPrepared t xs g (recover now o r j)
  recover-IsPrepared now g o r i h =
      persist-IsSafe invocation_of expiry_of o _
        (put_record-IsSafe (mark_prepare_outcome_unknown now r) i h)

  executed-IsSafe :
      {t : ℕ} {xs : List ℕ} (r : JournalRecord) (j : Journal)
      → get (invocation_of r.grant_id) j.records ≡ some r
      → IsSafe invocation_of expiry_of t xs j
      → IsSafe invocation_of expiry_of t (r.grant_id ∷ xs) (persist written j).0
  unfolding persist
  executed-IsSafe {t} {xs} r j e h =
      let m : Tracks invocation_of expiry_of t (r.grant_id ∷ xs) j.records j.consumed_grants =
        Tracks-execute invocation_of expiry_of r.grant_id r e refl h.in_memory in
      record { in_memory = m; on_disk = (j.records, j.consumed_grants, inr refl, m) }

  after_running-IsPrepared :
      {t : ℕ} {xs : List ℕ} (now : ℕ) (o : Attempts) (p : PersistOutcome) (r : JournalRecord)
      (j : Journal)
      → IsIssued invocation_of expiry_of r.invocation_id r
      → get (invocation_of r.grant_id) j.records ≡ some r
      → IsSafe invocation_of expiry_of t xs j
      → IsPrepared t xs r.grant_id (after_running now o r (persist p j).0 (persist p j).1)
  unfolding persist
  after_running-IsPrepared now o written r j i e h = executed-IsSafe r j e h
  after_running-IsPrepared now o thrown_before_rename r j i e h =
      recover-IsPrepared now r.grant_id o.third r i h
  after_running-IsPrepared now o thrown_after_rename r j i e h =
      recover-IsPrepared now r.grant_id o.third r i
        (persist-IsSafe invocation_of expiry_of thrown_after_rename j h)

  start_running-IsPrepared :
      {t : ℕ} {xs : List ℕ} (now : ℕ) (o : Attempts) (r : JournalRecord) (j : Journal)
      → IsIssued invocation_of expiry_of r.invocation_id r
      → IsSafe invocation_of expiry_of t xs j
      → IsPrepared t xs r.grant_id (start_running now o r j)
  start_running-IsPrepared now o r j i h =
      let r' : JournalRecord = record r { state = running } in
      after_running-IsPrepared now o o.second r' (put_record r' j) i
        (rw
          (
            get-set (invocation_of r.grant_id) r.invocation_id r' j.records,
            (==_iff r.invocation_id (invocation_of r.grant_id)).1 (sym i.1),
          )
          refl)
        (put_record-IsSafe r' i h)

  prepare-IsPrepared :
      {t : ℕ} {xs : List ℕ} (now : ℕ) (o : Attempts) (p : PersistOutcome) (r : JournalRecord)
      (j : Journal)
      → IsIssued invocation_of expiry_of r.invocation_id r
      → contains r.grant_id xs ≡ false
      → IsSafe invocation_of expiry_of t xs j
      → IsPrepared t xs r.grant_id (after_prepared now o r (persist p j).0 (persist p j).1)
  unfolding persist
  prepare-IsPrepared now o written r j i fresh h =
      start_running-IsPrepared now o r _ i (persist-IsSafe invocation_of expiry_of written j h)
  prepare-IsPrepared now o thrown_before_rename r j i fresh h = record {
    in_memory =
        Tracks-delete invocation_of expiry_of injective r.invocation_id r i fresh h.in_memory;
    on_disk = h.on_disk;
  }
  prepare-IsPrepared now o thrown_after_rename r j i fresh h =
      recover-IsPrepared now r.grant_id o.second r i
        (persist-IsSafe invocation_of expiry_of thrown_after_rename j h)

  -- A grant that nothing bars was not executed.
  not_executed :
      {t : ℕ} {xs : List ℕ} {rs : JsMap JournalRecord} {cs : JsMap ConsumedGrant} (g : ℕ)
      → get g cs ≡ none
      → find (λ r. r.grant_id == g) rs ≡ none
      → t < expiry_of g
      → Tracks invocation_of expiry_of t xs rs cs
      → contains g xs ≡ false
  not_executed {t} {xs} {rs} {cs} g c f p h = elim (Bool-cases (contains g xs)) [
    | inr e ↦ e
    | inl e ↦ elim (h.spent g e) [
      | inl (r, er, eg) ↦
          let (w, ew, _) =
            find-get (λ (r : JournalRecord). r.grant_id == g) (invocation_of g) r rs er
              ((==_iff r.grant_id g).1 eg) in
          cc
      | inr (inl (c0, ec)) ↦ cc
      | inr (inr q) ↦ absurd (omega arith)
    ]
  ]

  -- What `begin` leaves, and that what it lets execute was not executed before.
  abbrev pub IsBegun : ℕ → List ℕ → Journal → Begun → Option Authorization → Type 0
  IsBegun t xs j execute (some a) =
      IsSafe invocation_of expiry_of t (a.grant_id ∷ xs) j × (contains a.grant_id xs ≡ false)
  IsBegun t xs j execute none = ⊥
  IsBegun t xs j _ _ = IsSafe invocation_of expiry_of t xs j

  of_not_execute :
      {t : ℕ} {xs : List ℕ} (j : Journal) (b : Begun) (o : Option Authorization)
      → b ≢ execute
      → IsSafe invocation_of expiry_of t xs j
      → IsBegun t xs j b o
  of_not_execute j execute o n h = absurd (n refl)
  of_not_execute j (rejected e) o n h = h
  of_not_execute j _ o n h = h

  of_prepared :
      (t : ℕ) (xs : List ℕ) (a : Authorization) (j : Journal) (b : Begun)
      → contains a.grant_id xs ≡ false
      → IsPrepared t xs a.grant_id (j, b)
      → IsBegun t xs j b (some a)
  of_prepared t xs a j execute fresh h = (h, fresh)
  of_prepared t xs a j (rejected e) fresh h = h
  of_prepared t xs a j _ fresh h = h

  begin_authorized-IsBegun :
      {t : ℕ} {xs : List ℕ} (sha256 : Payload → ℕ) (o : Attempts) (j : Journal)
      (input : InvokeInput) (a : Authorization)
      → (invocation_of a.grant_id ≡ input.invocation_id) × (expiry_of a.grant_id ≡ a.expires_at)
      → t < a.expires_at
      → IsSafe invocation_of expiry_of t xs j
      → let (j', b) = begin_authorized sha256 t o j input a in IsBegun t xs j' b (some a)
  unfolding begin_authorized
  begin_authorized-IsBegun {t} {xs} sha256 o j input a i p h =
      let d : ℕ = sha256 (payload_of input.invocation_id input.parameters a) in
      elim (Option-cases (admit j input a d)) [
        | inr (b, e) ↦
            rw (e, begin_authorized)
              (of_not_execute j b (some a) (admit-ne-execute j input a d b e) h)
        | inl e ↦
            let (c, f) = admit-none j input a d e in
            let fresh : contains a.grant_id xs ≡ false =
              not_executed a.grant_id c f (rw i.1 p) h.in_memory in
            let r : JournalRecord = new_record sha256 t input a d in
            rw (e, begin_authorized)
              (unfold prepare in
                of_prepared t xs a _ _ fresh (
                  prepare-IsPrepared t o o.first r (put_record r j) (refl, i.0, i.1) fresh
                    (put_record-IsSafe r (refl, i.0, i.1) h)))
      ]

  -- `begin` keeps the journal safe however its attempts end, and never executes a grant twice.
  pub begin-IsBegun :
      {t : ℕ} {xs : List ℕ} (sha256 : Payload → ℕ) (now : ℕ) (o : Attempts) (j : Journal)
      (input : InvokeInput) (authority target : PeerIdentity) (deployment : Deployment)
      → t ≤ now
      → IsIssuedInput invocation_of expiry_of input
      → IsSafe invocation_of expiry_of t xs j
      → let (j', b) = begin sha256 now o j input authority target deployment in
        IsBegun now xs j' b input.authorization
  unfolding begin
  begin-IsBegun sha256 now o j input authority target deployment later i h =
      elim (Result-cases (authorize sha256 now input authority target deployment)) [
        | inr (e, p) ↦ rw (p, begin) (IsSafe-later invocation_of expiry_of injective later h)
        | inl (a, p) ↦
            let (ea, unexpired) = authorize-ok sha256 now input authority target deployment a p in
            rw (p, ea, begin)
              (begin_authorized-IsBegun sha256 o (prune_expired_grant_tombstones now j) input a
                (i a ea) unexpired
                (prune-IsSafe invocation_of expiry_of injective
                  (IsSafe-later invocation_of expiry_of injective later h)))
      ]
