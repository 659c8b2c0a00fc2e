-- ===== src/Journal/Begin.antt =====
-- What `begin` promises on each of its ways out.
use moshu.Common.{
  ℕ, ◌<◌, ◌≡◌, refl, ◌∙◌, ◌⊎◌, inl, inr, true, ◌==◌, if◌then◌else◌, none, some, Option-cases, arith,
}
use moshu.Common.JsMap.{get, set, find, get-set, get-delete}
use moshu.Common.Entries.{==_iff}
use moshu.Common.Result.{ok, Result-cases}
use moshu.Peer.{PeerIdentity}
use moshu.Journal.Types.{
  Deployment, Authorization, InvokeInput, Payload, JournalRecord, Journal, PersistOutcome, written,
  thrown_before_rename, thrown_after_rename, Rejection, Begun, execute, replay_result, rejected,
  prepare_failed, prepare_uncertain, running, succeeded, outcome_unknown,
}
use moshu.Journal.Grant.{authorize, payload_of, origin_matches, target_matches, is_compatible}
use moshu.Journal.{
  Attempts, snapshot, persist, put_record, prune_expired_grant_tombstones, admit, reuse,
  after_running, after_prepared, prepare, begin_authorized, begin, new_record,
  mark_prepare_outcome_unknown,
}

-- What a grant must show before its call is looked up.
pub record IsAuthorized (sha256 : Payload → ℕ) (now : ℕ) (input : InvokeInput)
    (authority target : PeerIdentity) (deployment : Deployment) (a : Authorization) : Type 0 where
  pub carried : input.authorization ≡ some a
  pub origin : origin_matches a authority ≡ true
  pub targeted : target_matches a target ≡ true
  pub unexpired : now < a.expires_at
  pub digest : sha256 (payload_of input.invocation_id input.parameters a) ≡ a.parameter_digest
  pub scope : is_compatible a.execution_scope deployment ≡ true

pub authorize-IsAuthorized :
    (sha256 : Payload → ℕ) (now : ℕ) (input : InvokeInput) (authority target : PeerIdentity)
    (deployment : Deployment) (a : Authorization)
    → authorize sha256 now input authority target deployment ≡ ok a
    → IsAuthorized sha256 now input authority target deployment a
unfolding authorize
authorize-IsAuthorized sha256 now input authority target deployment a h = ground arith

-- The record of a call that is executing, in memory and on disk.
pub record IsExecuting (a : Authorization) (id : ℕ) (j : Journal) : Type 0 where
  pub stored :
      (r : JournalRecord) × (get id j.records ≡ some r)
      × (r.grant_id ≡ a.grant_id)
      × (r.action_id ≡ a.action_id)
      × (r.state ≡ running)
  pub durable : j.file ≡ some (snapshot j)

-- A result that an earlier call under the same grant, invocation, action and parameters left.
pub record IsReplay (v : ℕ) (a : Authorization) (id : ℕ) (j : Journal) : Type 0 where
  pub found :
      (r : JournalRecord) × (find (λ r. r.grant_id == a.grant_id) j.records ≡ some r)
      × (r.invocation_id ≡ id)
      × (r.action_id ≡ a.action_id)
      × (r.parameter_digest ≡ a.parameter_digest)
      × (r.state ≡ succeeded)
      × (r.result ≡ some v)

abbrev pub IsUnchanged : Journal → Journal → Type 0
IsUnchanged j j' = (j'.records ≡ j.records) × (j'.file ≡ j.file)

-- What an admitted call leaves, on each way out of `begin`.
abbrev pub Outcome : Authorization → ℕ → Journal → Journal → Begun → Type 0
Outcome a id j j' execute = IsExecuting a id j'
Outcome a id j j' (replay_result v) = IsReplay v a id j × IsUnchanged j j'
Outcome a id j j' (rejected e) = IsUnchanged j j'
Outcome a id j j' prepare_failed =
    ((k : ℕ) → get k j'.records ≡ (if id == k then none else get k j.records)) × (j'.file ≡ j.file)
Outcome a id j j' prepare_uncertain =
    (r : JournalRecord) × (get id j'.records ≡ some r)
    × (r.grant_id ≡ a.grant_id)
    × (r.state ≡ outcome_unknown)

get-set_self :
    (r : JournalRecord) (j : Journal)
    → get r.invocation_id (set r.invocation_id r j.records) ≡ some r
get-set_self r j =
    rw
      (
        get-set r.invocation_id r.invocation_id r j.records,
        (==_iff r.invocation_id r.invocation_id).1 refl,
      )
      refl

recover-Outcome :
    (now : ℕ) (o p : PersistOutcome) (a : Authorization) (r : JournalRecord) (j0 j : Journal)
    → r.grant_id ≡ a.grant_id
    → Outcome a r.invocation_id j0
        (persist p (put_record (mark_prepare_outcome_unknown now r) j)).0
        prepare_uncertain
unfolding persist
recover-Outcome now o written a r j0 j g = (
  mark_prepare_outcome_unknown now r,
  get-set_self (mark_prepare_outcome_unknown now r) j,
  g,
  refl,
)
recover-Outcome now o thrown_before_rename a r j0 j g = (
  mark_prepare_outcome_unknown now r,
  get-set_self (mark_prepare_outcome_unknown now r) j,
  g,
  refl,
)
recover-Outcome now o thrown_after_rename a r j0 j g = (
  mark_prepare_outcome_unknown now r,
  get-set_self (mark_prepare_outcome_unknown now r) j,
  g,
  refl,
)

abbrev OutcomeOf : Authorization → ℕ → Journal → Journal × Begun → Type 0
OutcomeOf a id j (j', b) = Outcome a id j j' b

running-Outcome :
    (now : ℕ) (o : Attempts) (p : PersistOutcome) (a : Authorization) (r : JournalRecord)
    (j0 j : Journal)
    → r.grant_id ≡ a.grant_id
    → r.action_id ≡ a.action_id
    → r.state ≡ running
    → get r.invocation_id j.records ≡ some r
    → OutcomeOf a r.invocation_id j0 (after_running now o r (persist p j).0 (persist p j).1)
unfolding persist
running-Outcome now o written a r j0 j g i s e = record { stored = (r, e, g, i, s); durable = refl }
running-Outcome now o thrown_before_rename a r j0 j g i s e =
    recover-Outcome now o.third o.third a r j0 j g
running-Outcome now o thrown_after_rename a r j0 j g i s e =
    recover-Outcome now o.third o.third a r j0 _ g

prepared-Outcome :
    (now : ℕ) (o : Attempts) (p : PersistOutcome) (a : Authorization) (r : JournalRecord)
    (j : Journal)
    → r.grant_id ≡ a.grant_id
    → r.action_id ≡ a.action_id
    → OutcomeOf a r.invocation_id j
        (after_prepared now o r (persist p (put_record r j)).0 (persist p (put_record r j)).1)
unfolding persist
prepared-Outcome now o written a r j g i =
    running-Outcome now o o.second a (record r { state = running }) j _ g i refl
      (get-set_self (record r { state = running }) (put_record r j))
prepared-Outcome now o thrown_before_rename a r j g i = (
  λ k. ground (
    arith,
    get-delete k r.invocation_id (set r.invocation_id r j.records),
    get-set k r.invocation_id r j.records,
  ),
  refl,
)
prepared-Outcome now o thrown_after_rename a r j g i =
    recover-Outcome now o.second o.second a r j _ g

reuse-replay :
    (r : JournalRecord) (input : InvokeInput) (a : Authorization) (digest v : ℕ)
    → reuse r input a digest ≡ replay_result v
    → (r.invocation_id ≡ input.invocation_id)
      × (r.action_id ≡ a.action_id)
      × (r.parameter_digest ≡ digest)
      × (r.state ≡ succeeded)
      × (r.result ≡ some v)
unfolding reuse
reuse-replay r input a digest v h = ground arith

admit-reuse :
    (j : Journal) (input : InvokeInput) (a : Authorization) (digest v : ℕ)
    → admit j input a digest ≡ some (replay_result v)
    → (r : JournalRecord) × (find (λ r. r.grant_id == a.grant_id) j.records ≡ some r)
      × (reuse r input a digest ≡ replay_result v)
unfolding admit
admit-reuse j input a digest v h = ground arith

admit-Outcome :
    (j : Journal) (input : InvokeInput) (a : Authorization) (digest : ℕ) (b : Begun)
    → digest ≡ a.parameter_digest
    → admit j input a digest ≡ some b
    → Outcome a input.invocation_id j j b
unfolding admit reuse
admit-Outcome j input a digest execute d h = ground arith
admit-Outcome j input a digest (replay_result v) d h =
    let (r, f, e) = admit-reuse j input a digest v h in
    let (x, y, z, s, t) = reuse-replay r input a digest v e in
    (record { found = (r, f, x, y, z ∙ d, s, t) }, (refl, refl))
admit-Outcome j input a digest (rejected e) d h = (refl, refl)
admit-Outcome j input a digest prepare_failed d h = ground arith
admit-Outcome j input a digest prepare_uncertain d h = ground arith

-- `begin` as its callers see it. A call that is refused before its grant is known to be good leaves
-- the journal as it was.
abbrev pub BeginSpec :
    (Payload → ℕ)
    → ℕ
    → Journal
    → InvokeInput
    → PeerIdentity
    → PeerIdentity
    → Deployment
    → Journal × Begun
    → Type 0
BeginSpec sha256 now j input authority target deployment (j', b) =
    ((e : Rejection) × (b ≡ rejected e) × (j' ≡ j))
    ⊎ ((a : Authorization) × IsAuthorized sha256 now input authority target deployment a
        × Outcome a input.invocation_id (prune_expired_grant_tombstones now j) j' b)

-- For every call and however the attempts to write the file end: either the call is refused and the
-- journal is as it was; or the call's grant is authorized for these peers, these parameters and this
-- deployment, and has not expired, and then: `execute` comes only with the call's record stored as
-- running and the file on disk holding the whole journal; a replayed result is that of a succeeded
-- record of the same grant, invocation, action and parameters; a rejection and a replay change
-- neither the records nor the file; a failed preparation leaves no record under the invocation and
-- the file as it was; and an uncertain one leaves the call's record as of unknown outcome.
pub begin_lem :
    (sha256 : Payload → ℕ) (now : ℕ) (o : Attempts) (j : Journal) (input : InvokeInput)
    (authority target : PeerIdentity) (deployment : Deployment)
    → BeginSpec sha256 now j input authority target deployment
        (begin sha256 now o j input authority target deployment)
unfolding begin begin_authorized
begin_lem sha256 now o j input authority target deployment =
    elim (Result-cases (authorize sha256 now input authority target deployment)) [
      | inr (e, p) ↦ rw (p, begin) (inl (e, refl, refl))
      | inl (a, p) ↦
          let auth = authorize-IsAuthorized sha256 now input authority target deployment a p in
          let j0 = prune_expired_grant_tombstones now j in
          let d = sha256 (payload_of input.invocation_id input.parameters a) in
          elim (Option-cases (admit j0 input a d)) [
            | inr (b, e) ↦
                rw (p, e, begin, begin_authorized)
                  (inr (a, auth, admit-Outcome j0 input a d b auth.digest e))
            | inl e ↦
                rw (p, e, begin, begin_authorized)
                  (inr (
                    a,
                    auth,
                    unfold prepare in
                        prepared-Outcome now o o.first a (new_record sha256 now input a d) j0 refl
                          refl,
                  ))
          ]
    ]
