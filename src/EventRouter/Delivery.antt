-- ===== src/EventRouter/Delivery.antt =====
-- Which peers receive an event.
use moshu.Common.{
  ℕ, ◌≡◌, refl, sym, ◌∙◌, inl, inr, Bool, false, ◌&&◌, ◌||◌, is_some, Option, none, List, [], ◌∷◌,
  Bool-cases, Option-cases, arith,
}
use moshu.Common.JsMap.{get, has, get-nil}
use moshu.Peer.{PeerIdentity}
use moshu.EventRouter.{Router, is_product_client_role, new_router}
use moshu.EventRouter.Tables.{inner-none, inner-some}
use moshu.EventRouter.View.{
  subscriptions, ChatRunEvent, RouterCall, filter_peers, receives, matches_origin, origin_binding,
  publish, session_recipients, run,
}
use moshu.EventRouter.Refinement.{expected, run-Refines}

filter_peers-cong :
    (p q : PeerIdentity → Bool) (peers : List PeerIdentity)
    → ((peer : PeerIdentity) → p peer ≡ q peer)
    → filter_peers p peers ≡ filter_peers q peers
unfolding filter_peers
filter_peers-cong p q [] h = refl
filter_peers-cong p q (peer ∷ peers) h = ground (arith, h peer, filter_peers-cong p q peers h)

filter_peers-none :
    (p : PeerIdentity → Bool) (peers : List PeerIdentity)
    → ((peer : PeerIdentity) → p peer ≡ false)
    → filter_peers p peers ≡ []
unfolding filter_peers
filter_peers-none p [] h = refl
filter_peers-none p (peer ∷ peers) h = ground (arith, h peer, filter_peers-none p peers h)

-- The peers of a list who are product clients and pass a test.
unfoldable pub clients : (PeerIdentity → Bool) → List PeerIdentity → List PeerIdentity
clients p peers = filter_peers (λ peer. is_product_client_role peer.role && p peer) peers

publish-receives :
    (peers : List PeerIdentity) (event : ChatRunEvent) (id : Option ℕ) (r : Router)
    → (publish peers event id r).1
      ≡ filter_peers (receives (origin_binding id r) event.session_id r) peers
unfolding publish receives
publish-receives peers event id r =
    let origin = origin_binding id r in
    elim (Bool-cases (is_some origin || has event.session_id r.subscriptions_by_session)) [
      | inl some_one ↦ rw (some_one, publish) refl
      | inr no_one ↦
          let unbound : origin ≡ none = ground arith in
          let unknown : get event.session_id r.subscriptions_by_session ≡ none = ground arith in
          rw (no_one, publish)
            (sym (
              filter_peers-none (receives origin event.session_id r) peers (λ peer. ground (
                arith,
                unbound,
                inner-none event.session_id r.subscriptions_by_session unknown,
                get-nil {V = PeerIdentity} peer.peer_id,
              ))))
    ]

session_recipients-clients :
    (peers : List PeerIdentity) (s : ℕ) (r : Router)
    → session_recipients peers s r
      ≡ clients (λ peer. is_some (subscriptions r s peer.peer_id)) peers
unfolding session_recipients clients
session_recipients-clients peers s r = elim (Option-cases (get s r.subscriptions_by_session)) [
  | inl e ↦
      rw (e, session_recipients)
        (sym (
          filter_peers-none _ peers (λ peer. ground (
            arith,
            inner-none s r.subscriptions_by_session e,
            get-nil {V = PeerIdentity} peer.peer_id,
          ))))
  | inr (m, e) ↦
      rw (e, session_recipients)
        (filter_peers-cong _ _ peers
          (λ peer. ground (arith, inner-some s r.subscriptions_by_session m e)))
]

-- After any calls of a new router, an event of a chat goes to exactly those of the peers, in their
-- order, that are product clients and are either the connection to which the event's request is bound
-- or subscribed to its session by the calls; an approval's event or a policy's goes to exactly those
-- that are product clients and subscribed to its session.
pub delivery_lem :
    (calls : List RouterCall) (peers : List PeerIdentity) (event : ChatRunEvent) (id : Option ℕ)
    (session_id : ℕ)
    → let r = run calls new_router in
      let v = expected calls new_router (λ s p. none) in
      ((publish peers event id r).1
        ≡ clients
            (λ peer.
              matches_origin (origin_binding id r) peer
              || is_some (v event.session_id peer.peer_id))
            peers)
      × (session_recipients peers session_id r
          ≡ clients (λ peer. is_some (v session_id peer.peer_id)) peers)
unfolding clients receives
delivery_lem calls peers event id session_id =
    let r = run calls new_router in
    let seen = (run-Refines calls).seen in
    (
      publish-receives peers event id r
          ∙ filter_peers-cong _ _ peers
              (λ peer. ground (arith, seen event.session_id peer.peer_id)),
      session_recipients-clients peers session_id r
          ∙ filter_peers-cong _ _ peers (λ peer. ground (arith, seen session_id peer.peer_id)),
    )
