-- ===== src/EventRouter/Bindings.antt =====
-- The leases on the live stream of a request.
use moshu.Common.{
  ℕ, suc, ◌≡◌, refl, sym, subst, inl, inr, not, ◌&&◌, leb, ◌==◌, if◌then◌else◌, is_some, some,
  Bool-cases, Option-cases, arith,
}
use moshu.Common.JsMap.{get, size, get-set, get-delete}
use moshu.Common.Result.{Result, ok, err}
use moshu.Peer.{PeerIdentity}
use moshu.EventRouter.{
  Router, RouteLease, RouterError, bind, rollback, delete_binding, create_route_binding,
  max_active_request_owners,
}

-- `bind`, where it does not throw.
record Bound (id : ℕ) (peer : PeerIdentity) (r r' : Router) (lease : RouteLease) : Type 0 where
  request : lease.request_id ≡ id
  binding : lease.binding ≡ create_route_binding r.next_binding peer
  next : r'.next_binding ≡ suc r.next_binding
  previous : lease.previous_binding ≡ get id r.bindings_by_request_id
  is_created : lease.created ≡ not (is_some (get id r.bindings_by_request_id))
  after :
      (j : ℕ)
      → get j r'.bindings_by_request_id
        ≡ (if id == j && lease.created then some lease.binding else get j r.bindings_by_request_id)

abbrev IfBound : ℕ → PeerIdentity → Router → Result RouterError (Router × RouteLease) → Type 0
IfBound id peer r (ok (r', lease)) = Bound id peer r r' lease
IfBound id peer r (err e) = Unit

bind-IfBound : (id : ℕ) (peer : PeerIdentity) (r : Router) → IfBound id peer r (bind id peer r)
unfolding bind
bind-IfBound id peer r = elim (Option-cases (get id r.bindings_by_request_id)) [
  | inl e ↦ elim (Bool-cases (leb max_active_request_owners (size r.bindings_by_request_id))) [
    | inl full ↦ rw (e, full, bind, IfBound) tt
    | inr room ↦
        rw (e, room, bind, IfBound)
          (record {
            request = refl;
            binding = refl;
            next = omega arith;
            previous = sym e;
            is_created = ground (arith, e);
            after = λ j. ground (
              arith,
              get-set j id (create_route_binding r.next_binding peer) r.bindings_by_request_id,
            );
          })
  ]
  | inr (b, e) ↦ elim (Bool-cases (b.peer_id == peer.peer_id)) [
    | inl same ↦
        rw (e, same, bind, IfBound)
          (record {
            request = refl;
            binding = refl;
            next = omega arith;
            previous = sym e;
            is_created = ground (arith, e);
            after = λ j. ground arith;
          })
    | inr other ↦ rw (e, other, bind, IfBound) tt
  ]
]

bind-Bound :
    (id : ℕ) (peer : PeerIdentity) (r r' : Router) (lease : RouteLease)
    → bind id peer r ≡ ok (r', lease)
    → Bound id peer r r' lease
bind-Bound id peer r r' lease h = subst (IfBound id peer r) h (bind-IfBound id peer r)

-- A `bind` that is rolled back leaves the binding of every request as it was before.
pub bind_rollback_lem :
    (id : ℕ) (peer : PeerIdentity) (r r' : Router) (lease : RouteLease)
    → bind id peer r ≡ ok (r', lease)
    → (j : ℕ) → get j (rollback lease r').bindings_by_request_id ≡ get j r.bindings_by_request_id
unfolding rollback delete_binding
bind_rollback_lem id peer r r' lease h j =
    let b = bind-Bound id peer r r' lease h in
    ground (
      arith,
      b.after j,
      b.after lease.request_id,
      b.request,
      b.is_created,
      get-delete j lease.request_id r'.bindings_by_request_id,
    )
