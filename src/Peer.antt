-- ===== src/Peer.antt =====
-- packages/process-rpc-core/src/protocol.ts: who stands at the ends of a connection. Identifiers are
-- only compared, so they are numbers.
use moshu.Common.{ℕ, Bool, true, false, ◌&&◌, ◌==◌, Option, none, some}

pub data PeerRole : Type 0 where
  agents client runtime_box mobile_client : PeerRole

pub record PeerIdentity : Type 0 where
  pub role : PeerRole
  pub peer_id : ℕ
  pub instance_id : ℕ
  pub generation : ℕ
  pub device_key_id : Option ℕ

abbrev pub same_role : PeerRole → PeerRole → Bool
same_role agents agents = true
same_role client client = true
same_role runtime_box runtime_box = true
same_role mobile_client mobile_client = true
same_role _ _ = false

abbrev pub same_key : Option ℕ → Option ℕ → Bool
same_key none none = true
same_key (some a) (some b) = a == b
same_key _ _ = false

unfoldable pub is_same_rpc_peer_identity : PeerIdentity → PeerIdentity → Bool
is_same_rpc_peer_identity left right =
    same_role left.role right.role
    && left.peer_id == right.peer_id
    && left.instance_id == right.instance_id
    && left.generation == right.generation
    && same_key left.device_key_id right.device_key_id
