-- ===== src/EventRouter.antt =====
-- apps/agents-server/src/product-event-hub.ts: the router that decides which clients an event of a
-- chat reaches. A binding is compared by reference, so it has the number under which it was created.
-- A `Set` is a map into `Unit`.
pub mod Tables
pub mod View
pub mod Index
pub mod Views
pub mod Routes
pub mod Refinement
pub mod Bindings
pub mod Delivery
mod Tests
use moshu.Common.{
  ℕ, ◌+◌, ◌-◌, Bool, true, false, not, ◌&&◌, ◌||◌, leb, ◌==◌, if◌then◌else◌, is_some, Option, none,
  some, List, [], ◌∷◌,
}
use moshu.Common.JsMap.{JsMap, get, has, set, delete, size, keep}
use moshu.Common.Result.{Result, ok, err, ◌>>=◌, ◌>>◌, require}
use moshu.Peer.{PeerRole, client, mobile_client, PeerIdentity, is_same_rpc_peer_identity}

unfoldable pub is_product_client_role : PeerRole → Bool
is_product_client_role client = true
is_product_client_role mobile_client = true
is_product_client_role _ = false

abbrev pub max_active_request_owners : ℕ
max_active_request_owners = 1024

abbrev pub max_subscriptions_per_peer : ℕ
max_subscriptions_per_peer = 256

abbrev pub max_total_subscriptions : ℕ
max_total_subscriptions = 8192

pub record RouteBinding : Type 0 where
  pub token : ℕ
  pub peer_id : ℕ
  pub peer_identity : PeerIdentity

pub record RouteLease : Type 0 where
  pub request_id : ℕ
  pub binding : RouteBinding
  pub created : Bool
  pub previous_binding : Option RouteBinding

pub data RouterError : Type 0 where
  request_owner_mismatch request_owner_limit client_identity_required : RouterError
  session_subscription_peer_limit session_subscription_limit : RouterError

-- A map of maps: by session and peer, or by peer and session.
abbrev pub Table : Type 0 → Type 0
Table V = JsMap (JsMap V)

pub record Router : Type 0 where
  pub bindings_by_request_id : JsMap RouteBinding
  pub subscriptions_by_session : Table PeerIdentity
  pub sessions_by_peer : Table (Unit {0})
  pub total_subscriptions : ℕ
  pub next_binding : ℕ

abbrev pub new_router : Router
new_router = record {
  bindings_by_request_id = [];
  subscriptions_by_session = [];
  sessions_by_peer = [];
  total_subscriptions = 0;
  next_binding = 0;
}

-- `===` on bindings
abbrev pub same_binding : Option RouteBinding → Option RouteBinding → Bool
same_binding none none = true
same_binding (some a) (some b) = a.token == b.token
same_binding _ _ = false

abbrev pub create_route_binding : ℕ → PeerIdentity → RouteBinding
create_route_binding token peer = record {
  token = token;
  peer_id = peer.peer_id;
  peer_identity = peer;
}

unfoldable pub bind : ℕ → PeerIdentity → Router → Result RouterError (Router × RouteLease)
bind request_id peer r =
    let binding = create_route_binding r.next_binding peer in
    elim (get request_id r.bindings_by_request_id) [
      | some existing ↦
          if not (existing.peer_id == peer.peer_id)
          then err request_owner_mismatch
          else ok (
            record r { next_binding = r.next_binding + 1 },
            record {
              request_id = request_id;
              binding = binding;
              created = false;
              previous_binding = some existing;
            },
          )
      | none ↦
          if leb max_active_request_owners (size r.bindings_by_request_id)
          then err request_owner_limit
          else ok (
            record r {
              bindings_by_request_id = set request_id binding r.bindings_by_request_id;
              next_binding = r.next_binding + 1;
            },
            record {
              request_id = request_id;
              binding = binding;
              created = true;
              previous_binding = none;
            },
          )
    ]

unfoldable pub commit : RouteLease → Router → Router × Bool
commit lease r =
    let current = get lease.request_id r.bindings_by_request_id in
    if lease.created
    then (r, same_binding current (some lease.binding))
    else if same_binding current lease.previous_binding
    then (
      record r {
        bindings_by_request_id = set lease.request_id lease.binding r.bindings_by_request_id;
      },
      true,
    )
    else (r, same_binding current (some lease.binding))

unfoldable pub delete_binding : ℕ → RouteBinding → Router → Router
delete_binding request_id binding r =
    if same_binding (get request_id r.bindings_by_request_id) (some binding)
    then record r { bindings_by_request_id = delete request_id r.bindings_by_request_id }
    else r

unfoldable pub rollback : RouteLease → Router → Router
unfolding delete_binding
rollback lease r = if lease.created then delete_binding lease.request_id lease.binding r else r

unfoldable pub release : RouteLease → Router → Router
unfolding delete_binding
release lease r = delete_binding lease.request_id lease.binding r

-- The inner map under a key, a new one where there is none.
unfoldable pub inner {ℓ} : {V : Type ℓ} → ℕ → JsMap (JsMap V) → JsMap V
inner k t = elim (get k t) [ none ↦ [] | some m ↦ m ]

-- Writes an inner map back, or deletes its key where it is empty.
unfoldable pub put_back {ℓ} : {V : Type ℓ} → ℕ → JsMap V → JsMap (JsMap V) → JsMap (JsMap V)
put_back k m t = if size m == 0 then delete k t else set k m t

unfoldable pub subscribe : PeerIdentity → ℕ → Router → Result RouterError Router
unfolding inner
subscribe peer session_id r =
    let subscriptions = inner session_id r.subscriptions_by_session in
    let peer_sessions = inner peer.peer_id r.sessions_by_peer in
    let subscribed =
      set session_id (set peer.peer_id peer subscriptions) r.subscriptions_by_session in
    if not (is_product_client_role peer.role)
    then err client_identity_required
    else if has peer.peer_id subscriptions
    then ok (record r { subscriptions_by_session = subscribed })
    else if leb max_subscriptions_per_peer (size peer_sessions)
    then err session_subscription_peer_limit
    else if leb max_total_subscriptions r.total_subscriptions
    then err session_subscription_limit
    else ok (record r {
      subscriptions_by_session = subscribed;
      sessions_by_peer = set peer.peer_id (set session_id tt peer_sessions) r.sessions_by_peer;
      total_subscriptions = r.total_subscriptions + 1;
    })

unfoldable pub detach_peer_session : ℕ → ℕ → Table (Unit {0}) → Table (Unit {0})
unfolding put_back
detach_peer_session peer_id session_id t = elim (get peer_id t) [
  | none ↦ t
  | some sessions ↦ put_back peer_id (delete session_id sessions) t
]

unfoldable pub remove_subscription : ℕ → ℕ → Router → Router
unfolding put_back detach_peer_session
remove_subscription peer_id session_id r = elim (get session_id r.subscriptions_by_session) [
  | none ↦ r
  | some subscriptions ↦ if not (has peer_id subscriptions) then r else record r {
    total_subscriptions = r.total_subscriptions - 1;
    subscriptions_by_session =
        put_back session_id (delete peer_id subscriptions) r.subscriptions_by_session;
    sessions_by_peer = detach_peer_session peer_id session_id r.sessions_by_peer;
  }
]

unfoldable pub unsubscribe : PeerIdentity → ℕ → Router → Router
unfolding remove_subscription
unsubscribe peer session_id r = remove_subscription peer.peer_id session_id r

-- The loop over the subscribers of a session.
unfoldable pub detach_all {ℓ} : {V : Type ℓ} → JsMap V → ℕ → Table (Unit {0}) → Table (Unit {0})
unfolding detach_peer_session
detach_all [] session_id t = t
detach_all ((peer_id, _) ∷ rest) session_id t =
    detach_all rest session_id (detach_peer_session peer_id session_id t)

unfoldable pub retire_session : ℕ → Router → Router
unfolding detach_all
retire_session session_id r = elim (get session_id r.subscriptions_by_session) [
  | none ↦ r
  | some subscriptions ↦ record r {
    sessions_by_peer = detach_all subscriptions session_id r.sessions_by_peer;
    total_subscriptions = r.total_subscriptions - size subscriptions;
    subscriptions_by_session = delete session_id r.subscriptions_by_session;
  }
]

unfoldable pub retire_sessions : List ℕ → Router → Router
unfolding retire_session
retire_sessions [] r = r
retire_sessions (session_id ∷ rest) r = retire_sessions rest (retire_session session_id r)

-- One turn of the loop over the sessions of a peer that is gone.
unfoldable pub release_session : PeerIdentity → ℕ → Router → Router
unfolding inner remove_subscription
release_session peer session_id r =
    elim (get peer.peer_id (inner session_id r.subscriptions_by_session)) [
      | none ↦ r
      | some identity ↦
          if is_same_rpc_peer_identity identity peer
          then remove_subscription peer.peer_id session_id r
          else r
    ]

unfoldable pub release_sessions : PeerIdentity → JsMap (Unit {0}) → Router → Router
unfolding release_session
release_sessions peer [] r = r
release_sessions peer ((session_id, _) ∷ rest) r =
    release_sessions peer rest (release_session peer session_id r)

unfoldable pub release_peer : PeerIdentity → Router → Router
unfolding release_sessions inner
release_peer peer r = release_sessions peer (inner peer.peer_id r.sessions_by_peer) (record r {
  bindings_by_request_id =
      keep (λ b. not (is_same_rpc_peer_identity b.peer_identity peer)) r.bindings_by_request_id;
})
