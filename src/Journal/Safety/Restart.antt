-- ===== src/Journal/Safety/Restart.antt =====
-- A start from the file keeps the journal safe, also where the constructor throws.
use mathlib.Core.Option.{some-injective}
use moshu.Common.{ℕ, ◌≡◌, refl, Bool-cases, Option, none, some, inl, inr, List, [], arith}
use moshu.Common.JsMap.{values}
use moshu.Journal.Types.{
  JournalRecord, JournalFile, Journal, PersistOutcome, written, thrown_before_rename,
  thrown_after_rename,
}
use moshu.Journal.{persist, prune_expired_grant_tombstones}
use moshu.Journal.Receipts.{
  recover_record, any_open, fits_schema, load_maps, Loaded, loaded, load_error, load_result,
  load_file, load,
}
use moshu.Journal.Tracking.{Tracks}
use moshu.Journal.Tracking.Reload.{Tracks-reload}
use moshu.Journal.Safety.{OnDisk, IsSafe, persist-IsSafe, prune-IsSafe}

module _ (invocation_of expiry_of : ℕ → ℕ) where
  abbrev pub IsSafeLoad : ℕ → List ℕ → Loaded → Type 0
  IsSafeLoad t xs (loaded j) = IsSafe invocation_of expiry_of t xs j
  IsSafeLoad t xs (load_error f) = OnDisk invocation_of expiry_of t xs f

  same_record :
      (now : ℕ) (r : JournalRecord)
      → ((recover_record now r).invocation_id ≡ r.invocation_id)
        × ((recover_record now r).grant_id ≡ r.grant_id)
        × ((recover_record now r).grant_expires_at ≡ r.grant_expires_at)
  same_record now r = ground arith

  load_result-IsSafeLoad :
      {t : ℕ} {xs : List ℕ} (o : PersistOutcome) (j : Journal)
      → IsSafe invocation_of expiry_of t xs j
      → IsSafeLoad t xs (load_result (persist o j))
  unfolding persist
  load_result-IsSafeLoad written j h = persist-IsSafe invocation_of expiry_of written j h
  load_result-IsSafeLoad thrown_before_rename j h = h.on_disk
  load_result-IsSafeLoad thrown_after_rename j h =
      (persist-IsSafe invocation_of expiry_of thrown_after_rename j h).on_disk

  load_maps-Tracks :
      {t : ℕ} {xs : List ℕ} (now : ℕ) (f : JournalFile)
      → OnDisk invocation_of expiry_of t xs (some f)
      → Tracks invocation_of expiry_of t xs (load_maps now f).0 (load_maps now f).1
  unfolding load_maps
  load_maps-Tracks now f (rs, cs, inl (e, _, _), h) = cc
  load_maps-Tracks {t} {xs} now f (rs, cs, inr e, h) =
      let ef : f ≡ record { records = values rs; consumed_grants = values cs } =
        some-injective _ _ e in
      rw ef (Tracks-reload invocation_of expiry_of (recover_record now) (same_record now) h)

module _ (invocation_of expiry_of : ℕ → ℕ)
    (injective : (g h : ℕ) → invocation_of g ≡ invocation_of h → g ≡ h) where
  load_file-IsSafeLoad :
      {t : ℕ} {xs : List ℕ} (o : PersistOutcome) (f : JournalFile)
      → OnDisk invocation_of expiry_of t xs (some f)
      → IsSafeLoad invocation_of expiry_of t xs (load_file t o f)
  unfolding load_file
  load_file-IsSafeLoad {t} {xs} o f d =
      let (rs, cs) = load_maps t f in
      let j : Journal =
        prune_expired_grant_tombstones t
          (record { records = rs; consumed_grants = cs; file = some f }) in
      let safe : IsSafe invocation_of expiry_of t xs j =
        prune-IsSafe invocation_of expiry_of injective
          (record { in_memory = load_maps-Tracks invocation_of expiry_of t f d; on_disk = d }) in
      elim (Bool-cases (fits_schema f)) [
        | inr e ↦ rw (e, load_file) d
        | inl e ↦ elim (Bool-cases (any_open f.records)) [
          | inl open_record ↦
              rw (e, open_record, load_file)
                (load_result-IsSafeLoad invocation_of expiry_of o j safe)
          | inr settled ↦ rw (e, settled, load_file) safe
        ]
      ]

  pub load-IsSafeLoad :
      {t : ℕ} {xs : List ℕ} (o : PersistOutcome) (f : Option JournalFile)
      → OnDisk invocation_of expiry_of t xs f
      → IsSafeLoad invocation_of expiry_of t xs (load t o f)
  unfolding load
  load-IsSafeLoad {t} {xs} o none (rs, cs, inl (e, er, ec), h) = record {
    in_memory = rw (er, ec) at h;
    on_disk = ([], [], inl (refl, refl, refl), rw (er, ec) at h);
  }
  load-IsSafeLoad o none (rs, cs, inr e, h) = cc
  load-IsSafeLoad o (some f) d = load_file-IsSafeLoad o f d
