-- ===== src/EventRouter/Routes.antt =====
-- The methods that route the events of a request leave the subscriptions as they are.
use moshu.Common.{ℕ, refl, inl, inr, leb, ◌==◌, Option, none, some, List, Bool-cases, Option-cases}
use moshu.Common.JsMap.{JsMap, get, size}
use moshu.Peer.{PeerIdentity}
use moshu.EventRouter.{
  Router, RouteBinding, RouteLease, bind, commit, rollback, delete_binding, same_binding,
  max_active_request_owners,
}
use moshu.EventRouter.View.{subscriptions, call_bind, ChatRunEvent, call, publish, ends_run}
use moshu.EventRouter.Index.{IsIndexed}
use moshu.EventRouter.Views.{Shows}

-- The bindings have no part in the index.
module _ (r : Router) (b : JsMap RouteBinding) (n : ℕ) (h : IsIndexed r) where
  pub with_bindings-IsIndexed :
      IsIndexed (record r { bindings_by_request_id = b; next_binding = n })
  with_bindings-IsIndexed = record {
    by_session = h.by_session;
    by_peer = h.by_peer;
    agree = h.agree;
    counted = h.counted;
    few = h.few;
    few_each = h.few_each;
  }

  with_bindings-Shows :
      Shows (record r { bindings_by_request_id = b; next_binding = n }) (subscriptions r)
  with_bindings-Shows = record { indexed = with_bindings-IsIndexed; seen = λ s p. refl }

pub same-Shows : (r : Router) → IsIndexed r → Shows r (subscriptions r)
same-Shows r h = record { indexed = h; seen = λ s p. refl }

pub bind-Shows :
    (id : ℕ) (peer : PeerIdentity) (r : Router)
    → IsIndexed r
    → Shows (call (call_bind id peer) r) (subscriptions r)
unfolding call bind
bind-Shows id peer r h = elim (Option-cases (get id r.bindings_by_request_id)) [
  | inl e ↦ elim (Bool-cases (leb max_active_request_owners (size r.bindings_by_request_id))) [
    | inl full ↦ rw (e, full, bind, call) (same-Shows r h)
    | inr room ↦ rw (e, room, bind, call) (with_bindings-Shows r _ _ h)
  ]
  | inr (b, e) ↦ elim (Bool-cases (b.peer_id == peer.peer_id)) [
    | inl same ↦ rw (e, same, bind, call) (with_bindings-Shows r _ _ h)
    | inr other ↦ rw (e, other, bind, call) (same-Shows r h)
  ]
]

pub delete_binding-Shows :
    (id : ℕ) (b : RouteBinding) (r : Router)
    → IsIndexed r
    → Shows (delete_binding id b r) (subscriptions r)
unfolding delete_binding
delete_binding-Shows id b r h =
    elim (Bool-cases (same_binding (get id r.bindings_by_request_id) (some b))) [
      | inl same ↦ rw (same, delete_binding) (with_bindings-Shows r _ _ h)
      | inr other ↦ rw (other, delete_binding) (same-Shows r h)
    ]

pub commit-Shows :
    (lease : RouteLease) (r : Router) → IsIndexed r → Shows (commit lease r).0 (subscriptions r)
unfolding commit
commit-Shows lease r h = elim (Bool-cases lease.created) [
  | inl e ↦ rw (e, commit) (same-Shows r h)
  | inr e ↦
      elim (Bool-cases
        (same_binding (get lease.request_id r.bindings_by_request_id) lease.previous_binding)) [
          | inl same ↦ rw (e, same, commit) (with_bindings-Shows r _ _ h)
          | inr other ↦ rw (e, other, commit) (same-Shows r h)
        ]
]

pub rollback-Shows :
    (lease : RouteLease) (r : Router) → IsIndexed r → Shows (rollback lease r) (subscriptions r)
unfolding rollback
rollback-Shows lease r h = elim (Bool-cases lease.created) [
  | inl e ↦ rw (e, rollback) (delete_binding-Shows lease.request_id lease.binding r h)
  | inr e ↦ rw (e, rollback) (same-Shows r h)
]

pub publish-Shows :
    (peers : List PeerIdentity) (event : ChatRunEvent) (id : Option ℕ) (r : Router)
    → IsIndexed r
    → Shows (publish peers event id r).0 (subscriptions r)
unfolding publish
publish-Shows peers event none r h = same-Shows r h
publish-Shows peers event (some id) r h = elim (Option-cases (get id r.bindings_by_request_id)) [
  | inl e ↦ rw (e, publish) (same-Shows r h)
  | inr (b, e) ↦ elim (Bool-cases (ends_run event.run_status)) [
    | inl ends ↦ rw (e, ends, publish) (delete_binding-Shows id b r h)
    | inr goes ↦ rw (e, goes, publish) (same-Shows r h)
  ]
]
