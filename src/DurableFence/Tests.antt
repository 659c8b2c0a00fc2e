-- ===== src/DurableFence/Tests.antt =====
-- A Runtime Box reconnects to a server that has restarted.
use moshu.Common.{ℕ, ◌≡◌, refl, inl, false, none, [], ◌∷◌, List, arith}
use moshu.Common.JsMap.{get}
use moshu.Peer.{PeerIdentity, runtime_box}
use moshu.DurableFence.{GenerationStore, runtime_boxes, own_lease, start}
use moshu.DurableFence.Stored.{acquire_durable}
use moshu.DurableFence.Restarts.{
  DurableCall, call_restart, call_acquire, run, IsRefusal, restart_refuses_older,
}

abbrev box : PeerIdentity
box = record {
  role = runtime_box;
  peer_id = 2;
  instance_id = 23;
  generation = 5;
  device_key_id = none;
}

abbrev old_box : PeerIdentity
old_box = record {
  role = runtime_box;
  peer_id = 2;
  instance_id = 22;
  generation = 4;
  device_key_id = none;
}

abbrev store : GenerationStore
store = record { retired = (2, false) ∷ []; generations = []; last_seen = [] }

abbrev short : ℕ → ℕ
short id = 36

abbrev calls : List DurableCall
calls = call_restart ∷ call_acquire 20 old_box 200 ∷ call_restart ∷ []

restart_refuses_older_example :
    let f' =
      run runtime_boxes short
        (acquire_durable runtime_boxes short 10 (start store) box 100).0
        calls in
    let x = acquire_durable runtime_boxes short 30 f' old_box 300 in (x.0 ≡ f') × IsRefusal 5 x.1
unfolding acquire_durable get
restart_refuses_older_example =
    restart_refuses_older runtime_boxes short 10 30 (start store) box old_box 100 300
      (own_lease 2 0) calls refl refl refl (inl (omega arith)) refl
