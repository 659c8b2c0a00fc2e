-- ===== src/DurableFence.antt =====
-- The fences that remember generations in the database: packages/database/src/runtime-box-repository.ts
-- and packages/database/src/mobile-device-repository.ts (`acceptGeneration`), and the fences over them
-- in apps/agents-server/src/runtime-box-generation-fence.ts and mobile-ingress-generation-fence.ts.
-- How many characters an instance's identifier has is an argument.
pub mod Stored
pub mod Restarts
mod Tests
use moshu.Common.{
  ℕ, suc, ◌+◌, Bool, true, false, not, ◌&&◌, ◌||◌, ltb, leb, ◌==◌, if◌then◌else◌, Option, none,
  some, List, [], ◌∷◌,
}
use moshu.Common.JsMap.{JsMap, get, set, delete}
use moshu.Peer.{PeerRole, runtime_box, mobile_client, PeerIdentity, same_role}
use moshu.Fence.{
  ActiveGeneration, Fence, Lease, FenceCode, stale_generation, generation_conflict, FenceResult,
  accepted, refused, empty, acquire, release, notify, has_token,
}

pub record StoredGeneration : Type 0 where
  pub accepted_generation : ℕ
  pub accepted_instance_id : ℕ
  pub updated_at_ms : ℕ

-- `retired` has an entry for each box or device there is: whether it is archived or revoked.
pub record GenerationStore : Type 0 where
  pub retired : JsMap Bool
  pub generations : JsMap StoredGeneration
  pub last_seen : JsMap ℕ

pub data StoreError : Type 0 where
  bad_generation bad_instance not_found is_retired : StoreError

pub data Acceptance : Type 0 where
  taken : GenerationStore → Acceptance
  denied : FenceCode → (current_generation : ℕ) → Acceptance
  threw : StoreError → Acceptance

-- What the checks of the arguments throw: `Number.isSafeInteger`, and the length of the identifier.
unfoldable pub bad_argument : (generation instance_length : ℕ) → Option StoreError
bad_argument generation instance_length =
    if leb 0x20000000000000 generation
    then some bad_generation
    else if instance_length == 0 || ltb 256 instance_length
    then some bad_instance
    else none

unfoldable pub stored_refusal :
    (generation instance_id : ℕ) → Option StoredGeneration → Option FenceCode
stored_refusal generation instance_id none = none
stored_refusal generation instance_id (some existing) =
    if ltb generation existing.accepted_generation
    then some stale_generation
    else if generation == existing.accepted_generation
        && not (instance_id == existing.accepted_instance_id)
    then some generation_conflict
    else none

abbrev pub stored_generation : Option StoredGeneration → ℕ
stored_generation none = 0
stored_generation (some existing) = existing.accepted_generation

abbrev pub put_generation : (now id generation instance_id : ℕ) → GenerationStore → GenerationStore
put_generation now id generation instance_id store = record store {
  generations =
      set id
        (record {
          accepted_generation = generation;
          accepted_instance_id = instance_id;
          updated_at_ms = now;
        })
        store.generations;
}

-- `#acceptGeneration` of the Runtime Boxes.
unfoldable pub accept_stored : (now id generation instance_id : ℕ) → GenerationStore → Acceptance
unfolding stored_refusal
accept_stored now id generation instance_id store = elim (get id store.retired) [
  | none ↦ threw not_found
  | some true ↦ threw is_retired
  | some false ↦
      let existing = get id store.generations in
      elim (stored_refusal generation instance_id existing) [
        | some code ↦ denied code (stored_generation existing)
        | none ↦ taken (put_generation now id generation instance_id store)
      ]
]

unfoldable pub accept_runtime_box_generation :
    (length_of : ℕ → ℕ) → (now id instance_id generation : ℕ) → GenerationStore → Acceptance
unfolding bad_argument accept_stored
accept_runtime_box_generation length_of now id instance_id generation store =
    elim (bad_argument generation (length_of instance_id)) [
      | some e ↦ threw e
      | none ↦ accept_stored now id generation instance_id store
    ]

-- A device that is accepted was seen.
abbrev pub mark_seen : (now id : ℕ) → Acceptance → Acceptance
mark_seen now id (taken store) = taken (record store { last_seen = set id now store.last_seen })
mark_seen now id (denied code generation) = denied code generation
mark_seen now id (threw e) = threw e

unfoldable pub accept_mobile_device_generation :
    (length_of : ℕ → ℕ) → (now id instance_id generation : ℕ) → GenerationStore → Acceptance
unfolding bad_argument accept_stored
accept_mobile_device_generation length_of now id instance_id generation store =
    elim (bad_argument generation (length_of instance_id)) [
      | some e ↦ threw e
      | none ↦ mark_seen now id (accept_stored now id generation instance_id store)
    ]

-- `runtime_boxes` is the fence of the Boxes' connections, `mobile_devices` that of the phones'.
pub data FenceKind : Type 0 where
  runtime_boxes mobile_devices : FenceKind

abbrev pub default_local_runtime_box_id : ℕ
default_local_runtime_box_id = 0

-- A fence in a process; the callbacks that it calls are gathered, newest first.
pub record DurableFence : Type 0 where
  pub other_roles : Fence
  pub active : JsMap ActiveGeneration
  pub store : GenerationStore
  pub next_token : ℕ
  pub fenced : List (ℕ × PeerIdentity)

pub data DurableLease : Type 0 where
  other_lease : Lease → DurableLease
  own_lease : (peer_id token : ℕ) → DurableLease

pub data DurableResult : Type 0 where
  granted : DurableLease → DurableResult
  fence_denied : FenceCode → (current_generation : ℕ) → DurableResult
  fence_threw : StoreError → DurableResult

abbrev pub other_result : FenceResult → DurableResult
other_result (accepted l) = granted (other_lease l)
other_result (refused code generation) = fence_denied code generation

unfoldable pub acquire_other : DurableFence → PeerIdentity → ℕ → DurableFence × DurableResult
unfolding acquire
acquire_other f identity on_fenced =
    let after = acquire f.other_roles identity on_fenced in
    (record f { other_roles = after.0 }, other_result after.1)

-- What follows the answer of the store.
unfoldable pub admit_accepted :
    DurableFence → PeerIdentity → ℕ → Acceptance → DurableFence × DurableResult
admit_accepted f identity on_fenced (threw e) = (f, fence_threw e)
admit_accepted f identity on_fenced (denied code generation) = (f, fence_denied code generation)
admit_accepted f identity on_fenced (taken store) = (
  record f {
    store = store;
    active = set identity.peer_id (record { token = f.next_token; on_fenced = on_fenced }) f.active;
    next_token = suc f.next_token;
    fenced = notify (get identity.peer_id f.active) identity f.fenced;
  },
  granted (own_lease identity.peer_id f.next_token),
)

unfoldable pub acquire_runtime_box :
    (ℕ → ℕ) → ℕ → DurableFence → PeerIdentity → ℕ → DurableFence × DurableResult
unfolding acquire_other admit_accepted accept_runtime_box_generation
acquire_runtime_box length_of now f identity on_fenced =
    if not (same_role identity.role runtime_box) || identity.peer_id == default_local_runtime_box_id
    then acquire_other f identity on_fenced
    else admit_accepted f identity on_fenced (
        accept_runtime_box_generation length_of now identity.peer_id identity.instance_id
          identity.generation f.store)

unfoldable pub acquire_mobile :
    (ℕ → ℕ) → ℕ → DurableFence → PeerIdentity → ℕ → DurableFence × DurableResult
unfolding acquire_other admit_accepted accept_mobile_device_generation
acquire_mobile length_of now f identity on_fenced =
    if not (same_role identity.role mobile_client)
    then acquire_other f identity on_fenced
    else admit_accepted f identity on_fenced (
        accept_mobile_device_generation length_of now identity.peer_id identity.instance_id
          identity.generation f.store)

unfoldable pub release_lease : DurableFence → DurableLease → DurableFence
unfolding release
release_lease f (other_lease l) = record f { other_roles = release f.other_roles l }
release_lease f (own_lease peer_id token) =
    if has_token token (get peer_id f.active)
    then record f { active = delete peer_id f.active }
    else f

-- A new process has the store of the one before it.
abbrev pub start : GenerationStore → DurableFence
start store = record {
  other_roles = empty;
  active = [];
  store = store;
  next_token = 0;
  fenced = [];
}
