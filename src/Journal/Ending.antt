-- ===== src/Journal/Ending.antt =====
-- What the methods that end a call promise, and what a restart makes of the calls that had not ended.
use moshu.Common.{
  ℕ, ◌<◌, ◌≤◌, ◌≡◌, refl, ◌⊎◌, inl, inr, true, false, none, some, Option-cases, [], ◌∷◌, length,
  arith,
}
use moshu.Common.JsMap.{JsMap, get, set, get-set}
use moshu.Common.Entries.{==_iff}
use moshu.Common.Text.{Text, trim, length-slice-le, slice_pos}
use moshu.Journal.Types.{
  JournalRecord, Journal, PersistOutcome, written, thrown_before_rename, thrown_after_rename,
  Finished, finished, finish_rejected, not_running, finish_error, result_invalid, succeeded,
  running,
}
use moshu.Journal.{
  snapshot, require_running, settle, succeed, non_empty_error, bound_safe_error,
  max_safe_error_length, FinalState, final_state, finish_without_result,
}

non_empty_error_bounds :
    (t : Text)
    → (0 < length (non_empty_error t)) × (length (non_empty_error t) ≤ max_safe_error_length)
non_empty_error_bounds [] = (omega arith, omega arith)
non_empty_error_bounds (c ∷ s) = (
  slice_pos max_safe_error_length (c ∷ s) (omega arith) (omega arith),
  length-slice-le max_safe_error_length (c ∷ s),
)

pub bound_safe_error_bounds :
    (e : Text)
    → (0 < length (bound_safe_error e)) × (length (bound_safe_error e) ≤ max_safe_error_length)
unfolding bound_safe_error
bound_safe_error_bounds e = non_empty_error_bounds (trim e)

running-record :
    (id : ℕ) (j : Journal) (r : JournalRecord)
    → require_running id j ≡ some r
    → (get id j.records ≡ some r) × (r.state ≡ running)
running-record id j r e = ground arith

-- The call's record under `id` has become `r`, and the file holds the whole journal.
abbrev pub IsStored : ℕ → JournalRecord → Journal → Type 0
IsStored id r j = (get id j.records ≡ some r) × (j.file ≡ some (snapshot j))

-- Nothing that can be read from the journal has changed.
abbrev pub IsRestored : Journal → Journal → Type 0
IsRestored j j' = ((k : ℕ) → get k j'.records ≡ get k j.records) × (j'.file ≡ j.file)

abbrev pub Settled : ℕ → JournalRecord → Journal → Journal × Finished → Type 0
Settled id r j (j', finished) = IsStored id r j'
Settled id r j (j', finish_error true) = IsStored id r j'
Settled id r j (j', finish_error false) = IsRestored j j'
Settled id r j (j', _) = ⊥

settle-Settled :
    (o : PersistOutcome) (id : ℕ) (previous next : JournalRecord) (j : Journal)
    → get id j.records ≡ some previous
    → Settled id next j (settle o id previous next j)
unfolding settle
settle-Settled written id previous next j e =
    (rw (get-set id id next j.records, (==_iff id id).1 refl) refl, refl)
settle-Settled thrown_after_rename id previous next j e =
    (rw (get-set id id next j.records, (==_iff id id).1 refl) refl, refl)
settle-Settled thrown_before_rename id previous next j e = (
  λ k. ground (arith, get-set k id previous (set id next j.records), get-set k id next j.records),
  refl,
)

abbrev pub IsRefused : ℕ → Journal → Journal × Finished → Type 0
IsRefused id j x = (require_running id j ≡ none) × (x ≡ (j, finish_rejected not_running))

-- `fail`, `cancel` and `outcomeUnknown`: a call that is not running is refused and the journal is as
-- it was. A running call ends in the state asked for, without a result and with an error of 1 to 1024
-- code units, in memory and in the file that holds the whole journal, also where the write throws
-- after the rename; where it throws before, every record and the file are as they were.
pub finish_without_result_lem :
    (now : ℕ) (o : PersistOutcome) (j : Journal) (id : ℕ) (final : FinalState) (e : Text)
    → let x = finish_without_result now o j id final e in
      IsRefused id j x
      ⊎ ((r : JournalRecord) × (get id j.records ≡ some r)
          × (r.state ≡ running)
          × ((0 < length (bound_safe_error e))
              × (length (bound_safe_error e) ≤ max_safe_error_length))
          × Settled id
              (record r {
                state = final_state final;
                result = none;
                safe_error = some (bound_safe_error e);
                completed_at = some now;
              })
              j
              x)
unfolding finish_without_result
finish_without_result_lem now o j id final e = elim (Option-cases (require_running id j)) [
  | inl n ↦ inl (n, rw (n, finish_without_result))
  | inr (r, n) ↦
      let (g, s) = running-record id j r n in
      inr (
        r,
        g,
        s,
        bound_safe_error_bounds e,
        rw (n, finish_without_result) (settle-Settled o id r _ j g),
      )
]

-- `succeed` with a result that the schema accepts: likewise, in the state `succeeded` with the result.
pub succeed_lem :
    (now : ℕ) (o : PersistOutcome) (j : Journal) (id v : ℕ)
    → let x = succeed now o j id (some v) in
      IsRefused id j x
      ⊎ ((r : JournalRecord) × (get id j.records ≡ some r)
          × (r.state ≡ running)
          × Settled id
              (record r {
                state = succeeded;
                result = some v;
                safe_error = none;
                completed_at = some now;
              })
              j
              x)
unfolding succeed
succeed_lem now o j id v = elim (Option-cases (require_running id j)) [
  | inl n ↦ inl (n, rw (n, succeed))
  | inr (r, n) ↦
      let (g, s) = running-record id j r n in
      inr (r, g, s, rw (n, succeed) (settle-Settled o id r _ j g))
]

-- A running call whose result the schema refuses: the error leaves the call's record as succeeded
-- without a result in memory while the file keeps what it had, and whatever the handler then reports
-- is refused, since the call is no longer running.
pub succeed_invalid :
    (now later : ℕ) (o p : PersistOutcome) (j : Journal) (id : ℕ) (r : JournalRecord)
    (final : FinalState) (e : Text)
    → get id j.records ≡ some r
    → r.state ≡ running
    → let (j', x) = succeed now o j id none in
      (x ≡ result_invalid)
      × (get id j'.records ≡ some (record r { state = succeeded }))
      × (j'.file ≡ j.file)
      × (finish_without_result later p j' id final e ≡ (j', finish_rejected not_running))
unfolding succeed finish_without_result
succeed_invalid now later o p j id r final e g s =
    ground (arith, get-set id id (record r { state = succeeded }) j.records)
