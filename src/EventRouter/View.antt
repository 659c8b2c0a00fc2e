-- ===== src/EventRouter/View.antt =====
-- What the router promises: who subscribes to what, and how each call changes it.
use moshu.Common.{
  ℕ, Bool, true, false, ◌&&◌, ◌||◌, ◌==◌, if◌then◌else◌, is_some, contains, Option, none, some,
  List, [], ◌∷◌,
}
use moshu.Common.JsMap.{get, has}
use moshu.Common.Result.{ok, err}
use moshu.Peer.{PeerIdentity, is_same_rpc_peer_identity}
use moshu.EventRouter.{
  Router, RouteBinding, RouteLease, is_product_client_role, bind, commit, rollback, release,
  subscribe, unsubscribe, retire_sessions, release_peer, delete_binding,
}
use moshu.EventRouter.Tables.{at}

pub data RunStatus : Type 0 where
  queued running cancelling completed failed cancelled : RunStatus

-- Of an event only its session is read, and the status if it is a `run.status`.
pub record ChatRunEvent : Type 0 where
  pub session_id : ℕ
  pub run_status : Option RunStatus

abbrev pub ends_run : Option RunStatus → Bool
ends_run (some completed) = true
ends_run (some failed) = true
ends_run (some cancelled) = true
ends_run _ = false

unfoldable pub filter_peers : (PeerIdentity → Bool) → List PeerIdentity → List PeerIdentity
filter_peers p [] = []
filter_peers p (peer ∷ peers) =
    let rest = filter_peers p peers in if p peer then peer ∷ rest else rest

-- `#bindingsByRequestId.get` of an id that may be undefined
abbrev pub origin_binding : Option ℕ → Router → Option RouteBinding
origin_binding none r = none
origin_binding (some id) r = get id r.bindings_by_request_id

abbrev pub matches_origin : Option RouteBinding → PeerIdentity → Bool
matches_origin none peer = false
matches_origin (some b) peer = is_same_rpc_peer_identity peer b.peer_identity

unfoldable pub receives : Option RouteBinding → ℕ → Router → PeerIdentity → Bool
receives origin session_id r peer =
    is_product_client_role peer.role
    && (matches_origin origin peer
        || is_some (at session_id peer.peer_id r.subscriptions_by_session))

-- The router afterwards and the peers to which the event is sent.
unfoldable pub publish :
    List PeerIdentity → ChatRunEvent → Option ℕ → Router → Router × List PeerIdentity
unfolding receives filter_peers delete_binding
publish peers event client_request_id r =
    let origin = origin_binding client_request_id r in
    let recipients =
      if is_some origin || has event.session_id r.subscriptions_by_session
      then filter_peers (receives origin event.session_id r) peers
      else [] in
    (
      elim client_request_id [
        | none ↦ r
        | some id ↦ elim origin [
          | none ↦ r
          | some b ↦ if ends_run event.run_status then delete_binding id b r else r
        ]
      ],
      recipients,
    )

unfoldable pub session_recipients : List PeerIdentity → ℕ → Router → List PeerIdentity
unfolding filter_peers
session_recipients peers session_id r = elim (get session_id r.subscriptions_by_session) [
  | none ↦ []
  | some subscriptions ↦
      filter_peers (λ peer. is_product_client_role peer.role && has peer.peer_id subscriptions)
        peers
]

pub data RouterCall : Type 0 where
  call_bind : ℕ → PeerIdentity → RouterCall
  call_commit call_rollback call_release : RouteLease → RouterCall
  call_subscribe call_unsubscribe : PeerIdentity → ℕ → RouterCall
  call_retire_sessions : List ℕ → RouterCall
  call_release_peer : PeerIdentity → RouterCall
  call_publish : List PeerIdentity → ChatRunEvent → Option ℕ → RouterCall

-- The router after a call; one that throws changes nothing.
unfoldable pub call : RouterCall → Router → Router
unfolding bind commit rollback release subscribe unsubscribe retire_sessions release_peer publish
call (call_bind id peer) r = elim (bind id peer r) [ ok (r', _) ↦ r' | err _ ↦ r ]
call (call_commit lease) r = (commit lease r).0
call (call_rollback lease) r = rollback lease r
call (call_release lease) r = release lease r
call (call_subscribe peer session_id) r = elim (subscribe peer session_id r) [
  | ok r' ↦ r'
  | err _ ↦ r
]
call (call_unsubscribe peer session_id) r = unsubscribe peer session_id r
call (call_retire_sessions session_ids) r = retire_sessions session_ids r
call (call_release_peer peer) r = release_peer peer r
call (call_publish peers event id) r = (publish peers event id r).0

unfoldable pub run : List RouterCall → Router → Router
unfolding call
run [] r = r
run (c ∷ calls) r = run calls (call c r)

-- The connection under which a peer subscribes to a session, as a function of the two.
abbrev pub Subscriptions : Type 0
Subscriptions = ℕ → ℕ → Option PeerIdentity

abbrev pub subscriptions : Router → Subscriptions
subscriptions r session_id peer_id = at session_id peer_id r.subscriptions_by_session

-- What a call makes of the subscriptions; `accepted` says that it did not throw.
unfoldable pub change : Bool → RouterCall → Subscriptions → Subscriptions
change accepted (call_subscribe peer session_id) v s p =
    if accepted && session_id == s && peer.peer_id == p then some peer else v s p
change accepted (call_unsubscribe peer session_id) v s p =
    if session_id == s && peer.peer_id == p then none else v s p
change accepted (call_retire_sessions session_ids) v s p =
    if contains s session_ids then none else v s p
change accepted (call_release_peer peer) v s p = elim (v s p) [
  | none ↦ none
  | some identity ↦
      if peer.peer_id == p && is_same_rpc_peer_identity identity peer then none else some identity
]
change accepted _ v s p = v s p
