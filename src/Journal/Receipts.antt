-- ===== src/Journal/Receipts.antt =====
-- apps/runtime-box/src/invocation-journal.ts: acknowledgements, their confirmations, the start from
-- the file, and the evidence that the Box reports to the Agent Server.
use moshu.Common.{
  ℕ, Bool, true, false, not, ◌&&◌, ltb, leb, ◌==◌, if◌then◌else◌, Option, none, some, List, [], ◌∷◌,
  ◌++◌, contains, distinct, length, is_some, map,
}
use moshu.Common.JsMap.{JsMap, get, has, set, delete, size, values, find, map_values, set_all}
use moshu.Common.Text.{Text, units}
use moshu.Journal.Types.{
  InvocationState, prepared, running, outcome_unknown, JournalRecord, ConsumedGrant, JournalFile,
  Journal, PersistOutcome, Persisted, persisted, persistence_error, max_invocation_journal_records,
  max_consumed_grant_tombstones,
}
use moshu.Journal.{max_safe_error_length, persist, prune_expired_grant_tombstones}

-- `prepared` or `running`: the call may still be executing.
abbrev pub is_open : InvocationState → Bool
is_open prepared = true
is_open running = true
is_open _ = false

abbrev pub tombstone : JournalRecord → ConsumedGrant
tombstone r = record {
  grant_id = r.grant_id;
  invocation_id = r.invocation_id;
  parameter_digest = r.parameter_digest;
  expires_at = r.grant_expires_at;
  server_confirmed = false;
}

-- The local variables of `acknowledge`, beside the journal.
pub record Acknowledging : Type 0 where
  pub journal : Journal
  pub acknowledged : List ℕ
  pub removed_records : List JournalRecord
  pub previous_consumed : JsMap (Option ConsumedGrant)

unfoldable pub remove_record : JournalRecord → ℕ → Acknowledging → Acknowledging
remove_record r id s = record s {
  journal = record j {
    records = delete id j.records;
    consumed_grants = set r.grant_id (tombstone r) j.consumed_grants;
  };
  acknowledged = s.acknowledged ++ id ∷ [];
  removed_records = s.removed_records ++ r ∷ [];
  previous_consumed = set r.grant_id (get r.grant_id j.consumed_grants) s.previous_consumed;
}
  where
    open s use {journal as j}

unfoldable pub acknowledge_record : JournalRecord → ℕ → Acknowledging → Acknowledging
unfolding remove_record
acknowledge_record r id s =
    if is_open r.state
    then s
    else if not (has r.grant_id s.journal.consumed_grants)
        && leb max_consumed_grant_tombstones (size s.journal.consumed_grants)
    then s
    else remove_record r id s

unfoldable pub acknowledge_one : ℕ → Acknowledging → Acknowledging
unfolding acknowledge_record
acknowledge_one id s = elim (get id s.journal.records) [
  | some r ↦ acknowledge_record r id s
  | none ↦
      if is_some (find (λ c. c.invocation_id == id) s.journal.consumed_grants)
      then record s { acknowledged = s.acknowledged ++ id ∷ [] }
      else s
]

unfoldable pub acknowledge_all : List ℕ → Acknowledging → Acknowledging
acknowledge_all [] s = s
acknowledge_all (id ∷ ids) s = acknowledge_all ids (acknowledge_one id s)

-- `previousConsumed.get(record.grantId)`: `undefined` where the grant had no tombstone.
abbrev pub previous_of : ℕ → JsMap (Option ConsumedGrant) → Option ConsumedGrant
previous_of g m = elim (get g m) [ none ↦ none | some c ↦ c ]

abbrev pub restore_consumed : ℕ → Option ConsumedGrant → JsMap ConsumedGrant → JsMap ConsumedGrant
restore_consumed g none m = delete g m
restore_consumed g (some c) m = set g c m

-- The `catch` of an attempt that was not committed.
unfoldable pub roll_back : List JournalRecord → JsMap (Option ConsumedGrant) → Journal → Journal
roll_back [] previous j = j
roll_back (r ∷ rs) previous j = roll_back rs previous (record j {
  records = set r.invocation_id r j.records;
  consumed_grants = restore_consumed r.grant_id (previous_of r.grant_id previous) j.consumed_grants;
})

-- The identifiers that a method returns, or its error.
pub data Receipts : Type 0 where
  receipts : List ℕ → Receipts
  receipts_error : (committed : Bool) → Receipts

abbrev pub start_acknowledging : ℕ → Journal → Acknowledging
start_acknowledging now j = record {
  journal = prune_expired_grant_tombstones now j;
  acknowledged = [];
  removed_records = [];
  previous_consumed = [];
}

unfoldable pub commit_acknowledged : PersistOutcome → Acknowledging → Journal × Receipts
unfolding persist
commit_acknowledged o s =
    let (j', p) = persist o s.journal in
    elim p [
      | persisted ↦ (j', receipts s.acknowledged)
      | persistence_error true ↦ (j', receipts_error true)
      | persistence_error false ↦
          (roll_back s.removed_records s.previous_consumed j', receipts_error false)
    ]

abbrev pub commit_if_any : PersistOutcome → Acknowledging → List ℕ → Journal × Receipts
commit_if_any o s [] = (s.journal, receipts [])
commit_if_any o s (_ ∷ _) = commit_acknowledged o s

unfoldable pub acknowledge : ℕ → PersistOutcome → Journal → List ℕ → Journal × Receipts
unfolding acknowledge_all commit_acknowledged
acknowledge now o j ids =
    let s = acknowledge_all (distinct ids) (start_acknowledging now j) in
    commit_if_any o s s.acknowledged

abbrev pub set_confirmed : Bool → List ℕ → ConsumedGrant → ConsumedGrant
set_confirmed b ids c =
    if contains c.invocation_id ids then record c { server_confirmed = b } else c

-- The identifiers of the tombstones that are requested, in the order of iteration.
unfoldable pub confirmed_ids : List ℕ → List ConsumedGrant → List ℕ
confirmed_ids ids [] = []
confirmed_ids ids (c ∷ cs) =
    let rest = confirmed_ids ids cs in
    if contains c.invocation_id ids then c.invocation_id ∷ rest else rest

abbrev pub mark_confirmed : Bool → List ℕ → Journal → Journal
mark_confirmed b ids j = record j {
  consumed_grants = map_values (set_confirmed b ids) j.consumed_grants;
}

-- A write that was not committed sets `serverConfirmed` of all that were requested to `false`.
abbrev pub confirm_if_any : PersistOutcome → List ℕ → Journal → List ℕ → Journal × Receipts
confirm_if_any o ids j [] = (j, receipts [])
confirm_if_any o ids j (i ∷ is) =
    let (j', p) = persist o (mark_confirmed true ids j) in
    elim p [
      | persisted ↦ (j', receipts (i ∷ is))
      | persistence_error true ↦ (j', receipts_error true)
      | persistence_error false ↦ (mark_confirmed false ids j', receipts_error false)
    ]

unfoldable pub confirm_acknowledgements : PersistOutcome → Journal → List ℕ → Journal × Receipts
unfolding confirmed_ids persist
confirm_acknowledgements o j ids =
    confirm_if_any o ids j (confirmed_ids ids (values j.consumed_grants))

abbrev pub restart_error : Text
restart_error = units "Runtime Box restarted before the Action outcome was confirmed."

abbrev pub recover_record : ℕ → JournalRecord → JournalRecord
recover_record now r =
    if is_open r.state
    then record r {
      state = outcome_unknown;
      safe_error = some restart_error;
      completed_at = some now;
    }
    else r

unfoldable pub any_open : List JournalRecord → Bool
any_open [] = false
any_open (r ∷ rs) = let rest = any_open rs in if is_open r.state then true else rest

abbrev pub error_fits : Option Text → Bool
error_fits none = true
error_fits (some e) = ltb 0 (length e) && leb (length e) max_safe_error_length

unfoldable pub errors_fit : List JournalRecord → Bool
errors_fit [] = true
errors_fit (r ∷ rs) = let rest = errors_fit rs in if error_fits r.safe_error then rest else false

-- What the schema of the file asks of the number of its entries and of the length of an error.
unfoldable pub fits_schema : JournalFile → Bool
unfolding errors_fit
fits_schema f =
    leb (length f.records) max_invocation_journal_records
    && errors_fit f.records
    && leb (length f.consumed_grants) max_consumed_grant_tombstones

unfoldable pub load_maps : ℕ → JournalFile → JsMap JournalRecord × JsMap ConsumedGrant
load_maps now f = (
  set_all (λ r. r.invocation_id) (map (recover_record now) f.records) [],
  set_all (λ c. c.grant_id) f.consumed_grants [],
)

-- The constructor: `none` where it throws, beside the file that it leaves.
pub data Loaded : Type 0 where
  loaded : Journal → Loaded
  load_error : Option JournalFile → Loaded

abbrev pub load_result : Journal × Persisted → Loaded
load_result (j, persisted) = loaded j
load_result (j, persistence_error committed) = load_error j.file

unfoldable pub load_file : ℕ → PersistOutcome → JournalFile → Loaded
unfolding load_maps any_open fits_schema persist prune_expired_grant_tombstones
load_file now o f =
    let (rs, cs) = load_maps now f in
    let j =
      prune_expired_grant_tombstones now
        (record { records = rs; consumed_grants = cs; file = some f }) in
    if fits_schema f
    then (if any_open f.records then load_result (persist o j) else loaded j)
    else load_error (some f)

unfoldable pub load : ℕ → PersistOutcome → Option JournalFile → Loaded
unfolding load_file
load now o none = loaded (record { records = []; consumed_grants = []; file = none })
load now o (some f) = load_file now o f

-- `listEvidence` reports the records whose call is over.
unfoldable pub list_evidence : List JournalRecord → List JournalRecord
list_evidence [] = []
list_evidence (r ∷ rs) = let rest = list_evidence rs in if is_open r.state then rest else r ∷ rest
