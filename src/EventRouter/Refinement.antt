-- ===== src/EventRouter/Refinement.antt =====
-- Every run of the router's methods implements a plain table of subscriptions.
use moshu.Common.{
  ℕ, ◌≡◌, refl, ◌∙◌, inl, inr, Bool, true, not, ◌&&◌, ◌||◌, leb, ◌==◌, if◌then◌else◌, is_some, none,
  some, List, [], ◌∷◌, Bool-cases, arith,
}
use moshu.Common.JsMap.{get, set, keep, size, get-set, set-NodupKeys}
use moshu.Peer.{PeerIdentity, is_same_rpc_peer_identity}
use moshu.EventRouter.{
  Router, RouteBinding, new_router, inner, subscribe, unsubscribe, release_peer,
  is_product_client_role, max_subscriptions_per_peer, max_total_subscriptions,
}
use moshu.EventRouter.Tables.{
  at, IsTable, total_size, inner-NodupKeys, inner-set, set-IsTable, total_size-set, size-pos,
  size-set,
}
use moshu.EventRouter.View.{
  Subscriptions, subscriptions, RouterCall, call_bind, call_commit, call_rollback, call_release,
  call_subscribe, call_unsubscribe, call_retire_sessions, call_release_peer, call_publish, call,
  run, change,
}
use moshu.EventRouter.Index.{IsIndexed}
use moshu.EventRouter.Views.{
  Shows, remove_subscription-Shows, retire_sessions-Shows, release_sessions-Shows,
}
use moshu.EventRouter.Routes.{
  same-Shows, with_bindings-IsIndexed, bind-Shows, delete_binding-Shows, commit-Shows,
  rollback-Shows, publish-Shows,
}

release_peer-Shows :
    (peer : PeerIdentity) (r : Router)
    → IsIndexed r
    → Shows (release_peer peer r) (change true (call_release_peer peer) (subscriptions r))
unfolding release_peer change
release_peer-Shows peer r h =
    let b =
      keep (λ (b : RouteBinding). not (is_same_rpc_peer_identity b.peer_identity peer))
        r.bindings_by_request_id in
    let after =
      release_sessions-Shows peer (inner peer.peer_id r.sessions_by_peer)
        (record r { bindings_by_request_id = b }) (with_bindings-IsIndexed r b r.next_binding h) in
    record {
      indexed = after.indexed;
      seen = λ s p. ground (arith, after.seen s p, h.agree s p, h.agree s peer.peer_id);
    }

-- The methods' own test of a subscription.
abbrev pub accepts : PeerIdentity → ℕ → Router → Bool
accepts peer session_id r =
    is_product_client_role peer.role
    && (is_some (subscriptions r session_id peer.peer_id)
        || (not (leb max_subscriptions_per_peer (size (inner peer.peer_id r.sessions_by_peer)))
            && not (leb max_total_subscriptions r.total_subscriptions)))

subscribe-Shows :
    (peer : PeerIdentity) (s : ℕ) (r : Router)
    → IsIndexed r
    → Shows
        (call (call_subscribe peer s) r)
        (change (accepts peer s r) (call_subscribe peer s) (subscriptions r))
unfolding call subscribe change
subscribe-Shows peer s r h = elim (Bool-cases (is_product_client_role peer.role)) [
  | inr other ↦ rw (other, subscribe, call, change) (same-Shows r h)
  | inl product ↦
      let m = inner s r.subscriptions_by_session in
      let n = inner peer.peer_id r.sessions_by_peer in
      let m' = set peer.peer_id peer m in
      let subs = set s m' r.subscriptions_by_session in
      let in_size = size-set peer.peer_id peer m in
      let seen : (s' p' : ℕ)
          → at s' p' subs
            ≡ (if s == s' && peer.peer_id == p' then some peer else subscriptions r s' p') =
        λ s' p'.
          ground
            (arith, inner-set s s' m' r.subscriptions_by_session, get-set p' peer.peer_id peer m) in
      let by_session : IsTable subs =
        set-IsTable s m' r.subscriptions_by_session h.by_session
          (set-NodupKeys peer.peer_id peer m
            (inner-NodupKeys s r.subscriptions_by_session h.by_session))
          (size-pos m' peer.peer_id (ground (arith, get-set peer.peer_id peer.peer_id peer m))) in
      let sum = total_size-set s m' r.subscriptions_by_session in
      elim (Bool-cases (is_some (subscriptions r s peer.peer_id))) [
        | inl present ↦
            rw (product, present, subscribe, call, change)
              (record {
                indexed = record {
                  by_session = by_session;
                  by_peer = h.by_peer;
                  agree =
                      λ s' p'. ground (arith, seen s' p', h.agree s' p', h.agree s peer.peer_id);
                  counted = ground (arith, h.counted, sum, in_size);
                  few = h.few;
                  few_each = h.few_each;
                };
                seen = seen;
              })
        | inr absent ↦ elim (Bool-cases (leb max_subscriptions_per_peer (size n))) [
          | inl full ↦ rw (product, absent, full, subscribe, call, change) (same-Shows r h)
          | inr room ↦ elim (Bool-cases (leb max_total_subscriptions r.total_subscriptions)) [
            | inl full ↦ rw (product, absent, room, full, subscribe, call, change) (same-Shows r h)
            | inr room_in_all ↦
                let n' = set s tt n in
                rw (product, absent, room, room_in_all, subscribe, call, change)
                  (record {
                    indexed = record {
                      by_session = by_session;
                      by_peer =
                          set-IsTable peer.peer_id n' r.sessions_by_peer h.by_peer
                            (set-NodupKeys s tt n
                              (inner-NodupKeys peer.peer_id r.sessions_by_peer h.by_peer))
                            (size-pos n' s (ground (arith, get-set s s tt n)));
                      agree = λ s' p'. ground (
                        arith,
                        seen s' p',
                        h.agree s' p',
                        inner-set peer.peer_id p' n' r.sessions_by_peer,
                        get-set s' s tt n,
                      );
                      counted = ground (arith, h.counted, sum, in_size);
                      few = ground arith;
                      few_each = λ j. ground (
                        arith,
                        h.few_each j,
                        inner-set peer.peer_id j n' r.sessions_by_peer,
                        size-set s tt n,
                      );
                    };
                    seen = seen;
                  })
          ]
        ]
      ]
]

abbrev pub accepted : RouterCall → Router → Bool
accepted (call_subscribe peer session_id) r = accepts peer session_id r
accepted _ r = true

-- The subscriptions after a run, by what each call promises; the router only says which calls to
-- `subscribe` it accepts.
unfoldable pub expected : List RouterCall → Router → Subscriptions → Subscriptions
expected [] r v = v
expected (c ∷ calls) r v = expected calls (call c r) (change (accepted c r) c v)

call-Shows :
    (c : RouterCall) (r : Router)
    → IsIndexed r
    → Shows (call c r) (change (accepted c r) c (subscriptions r))
unfolding call change unsubscribe
call-Shows (call_bind id peer) r h = bind-Shows id peer r h
call-Shows (call_commit lease) r h = commit-Shows lease r h
call-Shows (call_rollback lease) r h = rollback-Shows lease r h
call-Shows (call_release lease) r h = delete_binding-Shows lease.request_id lease.binding r h
call-Shows (call_subscribe peer s) r h = subscribe-Shows peer s r h
call-Shows (call_unsubscribe peer s) r h = remove_subscription-Shows peer.peer_id s r h
call-Shows (call_retire_sessions ss) r h = retire_sessions-Shows ss r h
call-Shows (call_release_peer peer) r h = release_peer-Shows peer r h
call-Shows (call_publish peers event id) r h = publish-Shows peers event id r h

change-cong :
    (b : Bool) (c : RouterCall) (v w : Subscriptions) (s p : ℕ)
    → v s p ≡ w s p
    → change b c v s p ≡ change b c w s p
unfolding change
change-cong b (call_bind id peer) v w s p e = e
change-cong b (call_commit lease) v w s p e = e
change-cong b (call_rollback lease) v w s p e = e
change-cong b (call_release lease) v w s p e = e
change-cong b (call_subscribe peer session) v w s p e = rw e refl
change-cong b (call_unsubscribe peer session) v w s p e = rw e refl
change-cong b (call_retire_sessions ss) v w s p e = rw e refl
change-cong b (call_release_peer peer) v w s p e = rw (change, e) refl
change-cong b (call_publish peers event id) v w s p e = e

run-Shows :
    (calls : List RouterCall) (r : Router) (v : Subscriptions)
    → Shows r v
    → Shows (run calls r) (expected calls r v)
unfolding run expected
run-Shows [] r v h = h
run-Shows (c ∷ calls) r v h =
    let step = call-Shows c r h.indexed in
    run-Shows calls (call c r) (change (accepted c r) c v) (record {
      indexed = step.indexed;
      seen =
          λ s p. step.seen s p ∙ change-cong (accepted c r) c (subscriptions r) v s p (h.seen s p);
    })

new_router-IsIndexed : IsIndexed new_router
unfolding inner get size total_size
new_router-IsIndexed = record {
  by_session = record { keys = tt; inners = tt };
  by_peer = record { keys = tt; inners = tt };
  agree = λ s p. refl;
  counted = refl;
  few = omega arith;
  few_each = λ p. omega arith;
}

-- After any calls of a new router its index is sound - its two maps of subscriptions agree, neither
-- holds an empty entry, the total is the number of subscriptions and at most 8,192, and no peer has
-- more than 256 - and a peer is subscribed to a session, under the connection that is recorded,
-- exactly where the calls leave it so: an accepted `subscribe` records the connection, `unsubscribe`
-- removes it, `retireSessions` removes all of its sessions, `releasePeer` those of the very connection
-- that closes, and the other methods leave the subscriptions as they are.
pub run-Refines :
    (calls : List RouterCall)
    → Shows (run calls new_router) (expected calls new_router (λ s p. none))
unfolding inner get
run-Refines calls =
    run-Shows calls new_router (λ s p. none)
      (record { indexed = new_router-IsIndexed; seen = λ s p. refl })
