-- ===== src/Journal.antt =====
-- apps/runtime-box/src/invocation-journal.ts: the methods of `RuntimeBoxInvocationJournal`.
-- A method takes the instant at which it runs and how each of its attempts to write the file ends,
-- and returns the journal that it leaves, on disk and in memory, beside what it returns or throws.
pub mod Types
pub mod Grant
pub mod Receipts
pub mod Tracking
pub mod Begin
pub mod Ending
pub mod Safety
pub mod Process
pub mod AtMostOnce
pub mod Reconcile
mod Tests
use moshu.Common.{
  ℕ, Bool, true, false, not, ◌&&◌, ltb, leb, ◌==◌, if◌then◌else◌, Option, none, some, List, [], ◌∷◌,
  ◌++◌, contains, distinct, length, is_some,
}
use moshu.Common.JsMap.{JsMap, get, has, set, delete, size, values, find, keep, map_values, set_all}
use moshu.Common.Text.{Text, units, trim, slice}
use moshu.Common.Result.{ok, err}
use moshu.Peer.{PeerIdentity}
use Types.{
  InvocationState, prepared, running, succeeded, failed, cancelled, outcome_unknown, Deployment,
  Authorization, InvokeInput, Payload, token, JournalRecord, ConsumedGrant, JournalFile, Journal,
  Rejection, grant_consumed, grant_used, not_replayable, journal_full, not_running, PersistOutcome,
  written, thrown_before_rename, thrown_after_rename, Persisted, persisted, persistence_error,
  Begun, execute, replay_result, rejected, prepare_failed, prepare_uncertain, Finished, finished,
  finish_rejected, result_invalid, finish_error, max_invocation_journal_records,
  max_consumed_grant_tombstones,
}
use Grant.{payload_of, authorize}

-- A loop over the tombstones that deletes those that are confirmed and past their expiry.
unfoldable pub prune_expired_grant_tombstones : ℕ → Journal → Journal
prune_expired_grant_tombstones now j = record j {
  consumed_grants = keep (λ c. not (c.server_confirmed && leb c.expires_at now)) j.consumed_grants;
}

abbrev pub snapshot : Journal → JournalFile
snapshot j = record { records = values j.records; consumed_grants = values j.consumed_grants }

unfoldable pub persist : PersistOutcome → Journal → Journal × Persisted
persist written j = (record j { file = some (snapshot j) }, persisted)
persist thrown_before_rename j = (j, persistence_error false)
persist thrown_after_rename j = (record j { file = some (snapshot j) }, persistence_error true)

abbrev pub put_record : JournalRecord → Journal → Journal
put_record r j = record j { records = set r.invocation_id r j.records }

abbrev pub prepare_error : Text
prepare_error = units "Runtime Box could not confirm journal preparation before execution."

abbrev pub mark_prepare_outcome_unknown : ℕ → JournalRecord → JournalRecord
mark_prepare_outcome_unknown now r = record r {
  state = outcome_unknown;
  safe_error = some prepare_error;
  completed_at = some now;
}

-- `begin` once the call is authorized: the loop over the records, and its two ways to end early.
abbrev pub replay : InvocationState → Option ℕ → Begun
replay succeeded (some result) = replay_result result
replay _ _ = rejected not_replayable

pub reuse : JournalRecord → InvokeInput → Authorization → ℕ → Begun
reuse r input a digest =
    if r.invocation_id == input.invocation_id
      && r.action_id == a.action_id
      && r.parameter_digest == digest
    then replay r.state r.result
    else rejected grant_used

pub admit : Journal → InvokeInput → Authorization → ℕ → Option Begun
admit j input a digest =
    if has a.grant_id j.consumed_grants
    then some (rejected grant_consumed)
    else elim (find (λ r. r.grant_id == a.grant_id) j.records) [
      | some r ↦ some (reuse r input a digest)
      | none ↦
          if leb max_invocation_journal_records (size j.records)
          then some (rejected journal_full)
          else none
    ]

abbrev pub new_record : (Payload → ℕ) → ℕ → InvokeInput → Authorization → ℕ → JournalRecord
new_record sha256 now input a digest = record {
  invocation_id = input.invocation_id;
  action_id = a.action_id;
  grant_id = a.grant_id;
  grant_token_hash = sha256 (token a.grant_token);
  parameter_digest = digest;
  origin_instance_id = a.origin_instance_id;
  origin_generation = a.origin_generation;
  target_runtime_box_id = a.target_runtime_box_id;
  target_instance_id = a.target_instance_id;
  target_generation = a.target_generation;
  execution_scope = a.execution_scope;
  grant_expires_at = a.expires_at;
  state = prepared;
  result = none;
  safe_error = none;
  started_at = now;
  completed_at = none;
}

-- How the attempts of one `begin` to write the file end, in their order.
pub record Attempts : Type 0 where
  pub first : PersistOutcome
  pub second : PersistOutcome
  pub third : PersistOutcome

-- Whether the second attempt succeeds or not, the error is `InvocationJournalPrepareUncertainError`.
abbrev pub recover : ℕ → PersistOutcome → JournalRecord → Journal → Journal × Begun
recover now o r j =
    ((persist o (put_record (mark_prepare_outcome_unknown now r) j)).0, prepare_uncertain)

abbrev pub after_running : ℕ → Attempts → JournalRecord → Journal → Persisted → Journal × Begun
after_running now o r j persisted = (j, execute)
after_running now o r j (persistence_error committed) = recover now o.third r j

abbrev pub start_running : ℕ → Attempts → JournalRecord → Journal → Journal × Begun
start_running now o r j =
    let r' = record r { state = running } in
    let (j', p) = persist o.second (put_record r' j) in after_running now o r' j' p

abbrev pub after_prepared : ℕ → Attempts → JournalRecord → Journal → Persisted → Journal × Begun
after_prepared now o r j persisted = start_running now o r j
after_prepared now o r j (persistence_error true) = recover now o.second r j
after_prepared now o r j (persistence_error false) =
    (record j { records = delete r.invocation_id j.records }, prepare_failed)

pub prepare : ℕ → Attempts → JournalRecord → Journal → Journal × Begun
unfolding persist
prepare now o r j = let (j', p) = persist o.first (put_record r j) in after_prepared now o r j' p

pub begin_authorized :
    (Payload → ℕ) → ℕ → Attempts → Journal → InvokeInput → Authorization → Journal × Begun
unfolding admit reuse
begin_authorized sha256 now o j input a =
    let digest = sha256 (payload_of input.invocation_id input.parameters a) in
    elim (admit j input a digest) [
      | some b ↦ (j, b)
      | none ↦ prepare now o (new_record sha256 now input a digest) j
    ]

unfoldable pub begin :
    (Payload → ℕ)
    → ℕ
    → Attempts
    → Journal
    → InvokeInput
    → PeerIdentity
    → PeerIdentity
    → Deployment
    → Journal × Begun
unfolding begin_authorized prune_expired_grant_tombstones
begin sha256 now o j input authority target deployment =
    elim (authorize sha256 now input authority target deployment) [
      | err e ↦ (j, rejected e)
      | ok a ↦ begin_authorized sha256 now o (prune_expired_grant_tombstones now j) input a
    ]

-- `#requireRunning`
abbrev pub is_running : InvocationState → Bool
is_running running = true
is_running _ = false

abbrev pub require_running : ℕ → Journal → Option JournalRecord
require_running id j = elim (get id j.records) [
  | none ↦ none
  | some r ↦ if is_running r.state then some r else none
]

-- The `try` that ends the methods below: a write that was not committed is undone in memory.
unfoldable pub settle :
    PersistOutcome → ℕ → JournalRecord → JournalRecord → Journal → Journal × Finished
unfolding persist
settle o id previous next j =
    let (j', p) = persist o (record j { records = set id next j.records }) in
    elim p [
      | persisted ↦ (j', finished)
      | persistence_error true ↦ (j', finish_error true)
      | persistence_error false ↦
          (record j' { records = set id previous j'.records }, finish_error false)
    ]

-- The schema's verdict on the result is an argument, `none` where its `parse` throws. By then the
-- state of the record is set, and the record is left so.
unfoldable pub succeed : ℕ → PersistOutcome → Journal → ℕ → Option ℕ → Journal × Finished
unfolding settle
succeed now o j id parsed = elim (require_running id j) [
  | none ↦ (j, finish_rejected not_running)
  | some r ↦ elim parsed [
    | none ↦
        (record j { records = set id (record r { state = succeeded }) j.records }, result_invalid)
    | some v ↦
        settle o id r
          (record r {
            state = succeeded;
            result = some v;
            safe_error = none;
            completed_at = some now;
          })
          j
  ]
]

abbrev pub max_safe_error_length : ℕ
max_safe_error_length = 1024

abbrev pub non_empty_error : Text → Text
non_empty_error [] = units "Action failed."
non_empty_error (c ∷ s) = slice max_safe_error_length (c ∷ s)

pub bound_safe_error : Text → Text
bound_safe_error value = non_empty_error (trim value)

-- The terminal states that carry no result.
pub data FinalState : Type 0 where
  final_failed final_cancelled final_outcome_unknown : FinalState

abbrev pub final_state : FinalState → InvocationState
final_state final_failed = failed
final_state final_cancelled = cancelled
final_state final_outcome_unknown = outcome_unknown

unfoldable pub finish_without_result :
    ℕ → PersistOutcome → Journal → ℕ → FinalState → Text → Journal × Finished
unfolding settle bound_safe_error
finish_without_result now o j id final safe_error = elim (require_running id j) [
  | none ↦ (j, finish_rejected not_running)
  | some r ↦
      settle o id r
        (record r {
          state = final_state final;
          result = none;
          safe_error = some (bound_safe_error safe_error);
          completed_at = some now;
        })
        j
]

abbrev pub fail : ℕ → PersistOutcome → Journal → ℕ → Text → Journal × Finished
fail now o j id e = finish_without_result now o j id final_failed e

abbrev pub cancel : ℕ → PersistOutcome → Journal → ℕ → Text → Journal × Finished
cancel now o j id e = finish_without_result now o j id final_cancelled e

abbrev pub finish_outcome_unknown : ℕ → PersistOutcome → Journal → ℕ → Text → Journal × Finished
finish_outcome_unknown now o j id e = finish_without_result now o j id final_outcome_unknown e
