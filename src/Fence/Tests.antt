-- ===== src/Fence/Tests.antt =====
-- The theorems on the generation fence, at connections of one Runtime Box and one agents server.
use moshu.Common.{none, ℕ, ◌<◌, ◌≡◌, refl, ◌≢◌, ◌⊎◌, some, List, [], ◌∷◌}
use moshu.Common.JsMap.{get, set}
use moshu.Peer.{agents, runtime_box, PeerIdentity}
use moshu.Fence.{
  Lease, empty, acquire, release, refused, accepted, stale_generation, generation_conflict,
  create_peer_key, active_of, notify, GenerationRecord,
}
use moshu.Fence.Acquire.{IsBelow, acquire_lem}
use moshu.Fence.Laws.{Call, acquires, run, IsRaised, run-IsRaised, release_replaced}

abbrev old_box : PeerIdentity
old_box = record {
  role = runtime_box;
  peer_id = 2;
  instance_id = 22;
  generation = 4;
  device_key_id = none;
}

abbrev new_box : PeerIdentity
new_box = record {
  role = runtime_box;
  peer_id = 2;
  instance_id = 23;
  generation = 5;
  device_key_id = none;
}

abbrev server : PeerIdentity
server = record {
  role = agents;
  peer_id = 1;
  instance_id = 11;
  generation = 1;
  device_key_id = none;
}

-- The key of the two boxes is 2 * 4 + 2.
abbrev first_lease : Lease
first_lease = record { key = 10; token = 0 }

abbrev third_lease : Lease
third_lease = record { key = 10; token = 2 }

abbrev calls : List Call
calls = acquires server 101 ∷ []

acquire_lem_example :
    let f = (acquire empty new_box 100).0 in
    let key = create_peer_key old_box in
    let (f', x) = acquire f old_box 101 in
    ((r : GenerationRecord) × (get key f.records ≡ some r)
      × (f' ≡ f)
      × (((4 < r.generation) × (x ≡ refused stale_generation r.generation))
          ⊎ ((4 ≡ r.generation)
              × (22 ≢ r.instance_id)
              × (x ≡ refused generation_conflict r.generation))))
    ⊎ (IsBelow (get key f.records) 4 22
        × (x ≡ accepted (record { key = key; token = f.next_token }))
        × (f'.fenced ≡ notify (active_of (get key f.records)) old_box f.fenced)
        × (get key f'.records
            ≡ some (record {
              generation = 4;
              instance_id = 22;
              active = some (record { token = f.next_token; on_fenced = 101 });
            }))
        × ((k : ℕ) → k ≢ key → get k f'.records ≡ get k f.records))
acquire_lem_example = acquire_lem (acquire empty new_box 100).0 old_box 101

run-IsRaised_example :
    let f = (acquire empty old_box 100).0 in
    IsRaised (get 10 f.records) (get 10 (run f (acquires new_box 101 ∷ [])).records)
run-IsRaised_example = run-IsRaised (acquire empty old_box 100).0 (acquires new_box 101 ∷ []) 10

release_replaced_example :
    let f' = run (acquire empty old_box 100).0 calls in
    let f'' = (acquire f' new_box 102).0 in release f'' first_lease ≡ f''
unfolding acquire run get set
release_replaced_example =
    release_replaced empty old_box new_box 100 102 first_lease third_lease calls refl refl refl
