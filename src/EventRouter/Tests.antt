-- ===== src/EventRouter/Tests.antt =====
-- The router on concrete calls: a phone reconnects and its old connection closes late.
use moshu.Common.{◌≡◌, refl, none, some, true, false, is_some, ◌||◌, List, [], ◌∷◌}
use moshu.Common.JsMap.{get, set, delete, size}
use moshu.Peer.{PeerIdentity, mobile_client, client, is_same_rpc_peer_identity}
use moshu.EventRouter.{
  Router, RouteLease, is_product_client_role, new_router, create_route_binding, bind, rollback,
}
use moshu.EventRouter.View.{
  RouterCall, call_subscribe, call_release_peer, ChatRunEvent, run, publish, session_recipients,
  matches_origin, origin_binding,
}
use moshu.EventRouter.Views.{Shows}
use moshu.EventRouter.Refinement.{expected, run-Refines}
use moshu.EventRouter.Bindings.{bind_rollback_lem}
use moshu.EventRouter.Delivery.{clients, delivery_lem}

abbrev old_phone : PeerIdentity
old_phone = record {
  role = mobile_client;
  peer_id = 7;
  instance_id = 70;
  generation = 1;
  device_key_id = some 5;
}

abbrev phone : PeerIdentity
phone = record {
  role = mobile_client;
  peer_id = 7;
  instance_id = 71;
  generation = 2;
  device_key_id = some 5;
}

abbrev desktop : PeerIdentity
desktop = record {
  role = client;
  peer_id = 8;
  instance_id = 80;
  generation = 1;
  device_key_id = none;
}

abbrev calls : List RouterCall
calls =
    call_subscribe old_phone 100
    ∷ call_subscribe old_phone 101
    ∷ call_subscribe desktop 100
    ∷ call_subscribe phone 100
    ∷ call_release_peer old_phone
    ∷ []

abbrev peers : List PeerIdentity
peers = phone ∷ desktop ∷ []

abbrev text_delta : ChatRunEvent
text_delta = record { session_id = 101; run_status = none }

reconnected : session_recipients peers 100 (run calls new_router) ≡ phone ∷ desktop ∷ []
unfolding session_recipients run get is_product_client_role size set is_same_rpc_peer_identity
    delete
reconnected = refl

not_renewed : session_recipients peers 101 (run calls new_router) ≡ []
unfolding session_recipients run get is_product_client_role size set is_same_rpc_peer_identity
    delete
not_renewed = refl

run-Refines_example : Shows (run calls new_router) (expected calls new_router (λ s p. none))
run-Refines_example = run-Refines calls

delivery_lem_example :
    let r = run calls new_router in
    let v = expected calls new_router (λ s p. none) in
    ((publish peers text_delta (some 3) r).1
      ≡ clients
          (λ peer. matches_origin (origin_binding (some 3) r) peer || is_some (v 101 peer.peer_id))
          peers)
    × (session_recipients peers 100 r ≡ clients (λ peer. is_some (v 100 peer.peer_id)) peers)
delivery_lem_example = delivery_lem calls peers text_delta (some 3) 100

abbrev first_lease : RouteLease
first_lease = record {
  request_id = 3;
  binding = create_route_binding 0 old_phone;
  created = true;
  previous_binding = none;
}

abbrev second_lease : RouteLease
second_lease = record {
  request_id = 3;
  binding = create_route_binding 1 phone;
  created = false;
  previous_binding = some (create_route_binding 0 old_phone);
}

abbrev bound : Router
bound = record new_router {
  bindings_by_request_id = (3, create_route_binding 0 old_phone) ∷ [];
  next_binding = 1;
}

abbrev bound_again : Router
bound_again = record bound { next_binding = 2 }

bind_rollback_lem_example :
    get 3 (rollback first_lease bound).bindings_by_request_id
    ≡ get 3 new_router.bindings_by_request_id
unfolding bind get set size
bind_rollback_lem_example = bind_rollback_lem 3 old_phone new_router bound first_lease refl 3
