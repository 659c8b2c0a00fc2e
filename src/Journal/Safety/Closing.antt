-- ===== src/Journal/Safety/Closing.antt =====
-- The methods that end a call keep the journal safe, however their attempt to write the file ends.
use moshu.Common.{ℕ, ◌≡◌, Option, none, some, Option-cases, inl, inr, List, arith}
use moshu.Common.JsMap.{get, set}
use moshu.Common.Entries.{AllEntries-get}
use moshu.Common.Text.{Text}
use moshu.Journal.Types.{
  JournalRecord, Journal, PersistOutcome, written, thrown_before_rename, thrown_after_rename,
  running, succeeded,
}
use moshu.Journal.{settle, require_running, succeed, finish_without_result, FinalState}
use moshu.Journal.Tracking.{IsIssued, Tracks-set}
use moshu.Journal.Safety.{IsSafe, persist-IsSafe}

module _ (invocation_of expiry_of : ℕ → ℕ)
    (injective : (g h : ℕ) → invocation_of g ≡ invocation_of h → g ≡ h) where
  set-IsSafe :
      {t : ℕ} {xs : List ℕ} (k : ℕ) (r : JournalRecord) (j : Journal)
      → IsIssued invocation_of expiry_of k r
      → IsSafe invocation_of expiry_of t xs j
      → IsSafe invocation_of expiry_of t xs (record j { records = set k r j.records })
  set-IsSafe k r j i h = record {
    in_memory = Tracks-set invocation_of expiry_of injective k r i h.in_memory;
    on_disk = h.on_disk;
  }

  settle-IsSafe :
      {t : ℕ} {xs : List ℕ} (o : PersistOutcome) (id : ℕ) (previous next : JournalRecord)
      (j : Journal)
      → IsIssued invocation_of expiry_of id previous
      → IsIssued invocation_of expiry_of id next
      → IsSafe invocation_of expiry_of t xs j
      → IsSafe invocation_of expiry_of t xs (settle o id previous next j).0
  unfolding settle
  settle-IsSafe written id previous next j i n h =
      persist-IsSafe invocation_of expiry_of written _ (set-IsSafe id next j n h)
  settle-IsSafe thrown_before_rename id previous next j i n h =
      set-IsSafe id previous _ i (set-IsSafe id next j n h)
  settle-IsSafe thrown_after_rename id previous next j i n h =
      persist-IsSafe invocation_of expiry_of thrown_after_rename _ (set-IsSafe id next j n h)

  running-record :
      (id : ℕ) (j : Journal) (r : JournalRecord)
      → require_running id j ≡ some r
      → (get id j.records ≡ some r) × (r.state ≡ running)
  running-record id j r e = ground arith

  running-IsIssued :
      {t : ℕ} {xs : List ℕ} (id : ℕ) (j : Journal) (r : JournalRecord)
      → require_running id j ≡ some r
      → IsSafe invocation_of expiry_of t xs j
      → IsIssued invocation_of expiry_of id r
  running-IsIssued id j r e h =
      AllEntries-get _ id r j.records h.in_memory.issued (running-record id j r e).0

  pub succeed-IsSafe :
      {t : ℕ} {xs : List ℕ} (now : ℕ) (o : PersistOutcome) (j : Journal) (id : ℕ)
      (parsed : Option ℕ)
      → IsSafe invocation_of expiry_of t xs j
      → IsSafe invocation_of expiry_of t xs (succeed now o j id parsed).0
  unfolding succeed
  succeed-IsSafe now o j id none h = elim (Option-cases (require_running id j)) [
    | inl e ↦ rw (e, succeed) h
    | inr (r, e) ↦
        rw (e, succeed)
          (set-IsSafe id (record r { state = succeeded }) j (running-IsIssued id j r e h) h)
  ]
  succeed-IsSafe now o j id (some v) h = elim (Option-cases (require_running id j)) [
    | inl e ↦ rw (e, succeed) h
    | inr (r, e) ↦
        let i = running-IsIssued id j r e h in rw (e, succeed) (settle-IsSafe o id r _ j i i h)
  ]

  pub finish-IsSafe :
      {t : ℕ} {xs : List ℕ} (now : ℕ) (o : PersistOutcome) (j : Journal) (id : ℕ)
      (final : FinalState) (e : Text)
      → IsSafe invocation_of expiry_of t xs j
      → IsSafe invocation_of expiry_of t xs (finish_without_result now o j id final e).0
  unfolding finish_without_result
  finish-IsSafe now o j id final text h = elim (Option-cases (require_running id j)) [
    | inl e ↦ rw (e, finish_without_result) h
    | inr (r, e) ↦
        let i = running-IsIssued id j r e h in
        rw (e, finish_without_result) (settle-IsSafe o id r _ j i i h)
  ]
