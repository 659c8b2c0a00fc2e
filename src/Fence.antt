-- ===== src/Fence.antt =====
-- packages/process-rpc-core/src/generation-fence.ts: the in-memory fence that admits the connections
-- of a peer. An object's identity (`token`) is a number that is given once; a callback is the number
-- of its connection, and `fenced` gathers the calls of callbacks, newest first.
pub mod Acquire
pub mod Laws
mod Tests
use moshu.Common.{
  ℕ, suc, ◌+◌, ◌*◌, Bool, true, false, ◌&&◌, not, ltb, ◌==◌, if◌then◌else◌, Option, none, some,
  List, [], ◌∷◌,
}
use moshu.Common.JsMap.{JsMap, get, set}
use moshu.Peer.{PeerRole, agents, client, runtime_box, mobile_client, PeerIdentity}

pub record ActiveGeneration : Type 0 where
  pub token : ℕ
  pub on_fenced : ℕ

pub record GenerationRecord : Type 0 where
  pub generation : ℕ
  pub instance_id : ℕ
  pub active : Option ActiveGeneration

pub record Fence : Type 0 where
  pub records : JsMap GenerationRecord
  pub next_token : ℕ
  pub fenced : List (ℕ × PeerIdentity)

pub record Lease : Type 0 where
  pub key : ℕ
  pub token : ℕ

pub data FenceCode : Type 0 where
  stale_generation generation_conflict : FenceCode

pub data FenceResult : Type 0 where
  accepted : Lease → FenceResult
  refused : FenceCode → (current_generation : ℕ) → FenceResult

abbrev pub empty : Fence
empty = record { records = []; next_token = 0; fenced = [] }

abbrev role_index : PeerRole → ℕ
role_index agents = 0
role_index client = 1
role_index runtime_box = 2
role_index mobile_client = 3

-- `${role}\u0000${peerId}`: one key for each role and peer.
abbrev pub peer_key : PeerRole → ℕ → ℕ
peer_key role peer_id = peer_id * 4 + role_index role

abbrev pub create_peer_key : PeerIdentity → ℕ
create_peer_key identity = peer_key identity.role identity.peer_id

-- Why the fence refuses a connection, if it does.
unfoldable pub refusal : PeerIdentity → Option GenerationRecord → Option FenceCode
refusal identity none = none
refusal identity (some existing) =
    if ltb identity.generation existing.generation
    then some stale_generation
    else if identity.generation == existing.generation
        && not (identity.instance_id == existing.instance_id)
    then some generation_conflict
    else none

abbrev pub active_of : Option GenerationRecord → Option ActiveGeneration
active_of none = none
active_of (some r) = r.active

abbrev pub generation_of : Option GenerationRecord → ℕ
generation_of none = 0
generation_of (some r) = r.generation

-- `previousActive?.onFenced(identity)`
abbrev pub notify :
    Option ActiveGeneration → PeerIdentity → List (ℕ × PeerIdentity) → List (ℕ × PeerIdentity)
notify none identity log = log
notify (some a) identity log = (a.on_fenced, identity) ∷ log

unfoldable pub admit : Fence → PeerIdentity → ℕ → Fence × FenceResult
admit f identity on_fenced =
    let key = create_peer_key identity in
    (
      record {
        records =
            set key
              (record {
                generation = identity.generation;
                instance_id = identity.instance_id;
                active = some (record { token = f.next_token; on_fenced = on_fenced });
              })
              f.records;
        next_token = suc f.next_token;
        fenced = notify (active_of (get key f.records)) identity f.fenced;
      },
      accepted (record { key = key; token = f.next_token }),
    )

unfoldable pub acquire : Fence → PeerIdentity → ℕ → Fence × FenceResult
unfolding admit refusal
acquire f identity on_fenced =
    let existing = get (create_peer_key identity) f.records in
    elim (refusal identity existing) [
      | some code ↦ (f, refused code (generation_of existing))
      | none ↦ admit f identity on_fenced
    ]

abbrev pub has_token : ℕ → Option ActiveGeneration → Bool
has_token t none = false
has_token t (some a) = a.token == t

abbrev pub clear_active : Lease → Fence → Option GenerationRecord → Fence
clear_active l f none = f
clear_active l f (some r) =
    if has_token l.token r.active
    then record f { records = set l.key (record r { active = none }) f.records }
    else f

unfoldable pub release : Fence → Lease → Fence
release f l = clear_active l f (get l.key f.records)

abbrev pub get_high_water_mark : Fence → PeerRole → ℕ → Option ℕ
get_high_water_mark f role peer_id = elim (get (peer_key role peer_id) f.records) [
  | none ↦ none
  | some r ↦ some r.generation
]
