-- ===== src/DurableFence/Stored.antt =====
-- What a fence with a store answers a peer whose generations are stored.
use moshu.Common.{
  ℕ, ◌<◌, ◌≡◌, refl, ◌⊎◌, inl, inr, Bool, true, false, not, ◌&&◌, ◌==◌, Option, none, some,
  Option-cases, arith,
}
use moshu.Common.JsMap.{get, get-set}
use moshu.Common.Entries.{==_iff}
use moshu.Peer.{runtime_box, mobile_client, PeerIdentity, same_role}
use moshu.DurableFence.{
  StoredGeneration, GenerationStore, Acceptance, taken, denied, threw, bad_argument, stored_refusal,
  stored_generation, accept_stored, accept_runtime_box_generation, mark_seen,
  accept_mobile_device_generation, FenceKind, runtime_boxes, mobile_devices,
  default_local_runtime_box_id, DurableFence, DurableResult, acquire_other, admit_accepted,
  acquire_runtime_box, acquire_mobile,
}

unfoldable pub acquire_durable :
    FenceKind → (ℕ → ℕ) → ℕ → DurableFence → PeerIdentity → ℕ → DurableFence × DurableResult
unfolding acquire_runtime_box acquire_mobile
acquire_durable runtime_boxes = acquire_runtime_box
acquire_durable mobile_devices = acquire_mobile

-- The peers whose generations the fence stores.
abbrev pub is_stored : FenceKind → PeerIdentity → Bool
is_stored runtime_boxes identity =
    same_role identity.role runtime_box && not (identity.peer_id == default_local_runtime_box_id)
is_stored mobile_devices identity = same_role identity.role mobile_client

abbrev pub accept : FenceKind → (ℕ → ℕ) → (now : ℕ) → PeerIdentity → GenerationStore → Acceptance
accept runtime_boxes length_of now i store =
    accept_runtime_box_generation length_of now i.peer_id i.instance_id i.generation store
accept mobile_devices length_of now i store =
    accept_mobile_device_generation length_of now i.peer_id i.instance_id i.generation store

-- Nothing newer is stored than this generation, and nothing of it but this instance.
abbrev pub IsBelow : Option StoredGeneration → (generation instance_id : ℕ) → Type 0
IsBelow none generation instance_id = Unit
IsBelow (some s) generation instance_id =
    (s.accepted_generation < generation)
    ⊎ ((s.accepted_generation ≡ generation) × (s.accepted_instance_id ≡ instance_id))

pub stored_refusal-none :
    (g i : ℕ) (o : Option StoredGeneration) → stored_refusal g i o ≡ none → IsBelow o g i
unfolding stored_refusal
stored_refusal-none g i none h = tt
stored_refusal-none g i (some s) h = ground arith

-- What an acceptance leaves in the store.
pub record Stores (i : PeerIdentity) (store store' : GenerationStore) : Type 0 where
  pub below : IsBelow (get i.peer_id store.generations) i.generation i.instance_id
  pub written :
      (s : StoredGeneration) × (get i.peer_id store'.generations ≡ some s)
      × (s.accepted_generation ≡ i.generation)
      × (s.accepted_instance_id ≡ i.instance_id)
  pub others :
      (k : ℕ) → (i.peer_id == k) ≡ false → get k store'.generations ≡ get k store.generations

-- What each answer of the store says.
abbrev pub IsAnswer : PeerIdentity → GenerationStore → Acceptance → Type 0
IsAnswer i store (taken store') = Stores i store store'
IsAnswer i store (denied code g) = g ≡ stored_generation (get i.peer_id store.generations)
IsAnswer i store (threw e) = Unit

accept_stored-IsAnswer :
    (now : ℕ) (i : PeerIdentity) (store : GenerationStore)
    → IsAnswer i store (accept_stored now i.peer_id i.generation i.instance_id store)
unfolding accept_stored
accept_stored-IsAnswer now i store = elim (Option-cases (get i.peer_id store.retired)) [
  | inl e ↦ rw (e, accept_stored) tt
  | inr (true, e) ↦ rw (e, accept_stored) tt
  | inr (false, e) ↦
      elim (Option-cases
        (stored_refusal i.generation i.instance_id (get i.peer_id store.generations))) [
          | inr (code, f) ↦ rw (e, f, accept_stored) refl
          | inl f ↦
              let s : StoredGeneration = record {
                accepted_generation = i.generation;
                accepted_instance_id = i.instance_id;
                updated_at_ms = now;
              } in
              rw (e, f, accept_stored)
                (record {
                  below =
                      stored_refusal-none i.generation i.instance_id
                        (get i.peer_id store.generations) f;
                  written = (
                    s,
                    rw
                        (
                          get-set i.peer_id i.peer_id s store.generations,
                          (==_iff i.peer_id i.peer_id).1 refl,
                        )
                        refl,
                    refl,
                    refl,
                  );
                  others = λ k n. rw (get-set k i.peer_id s store.generations, n) refl;
                })
        ]
]

mark_seen-IsAnswer :
    (now : ℕ) (i : PeerIdentity) (store : GenerationStore) (a : Acceptance)
    → IsAnswer i store a
    → IsAnswer i store (mark_seen now i.peer_id a)
mark_seen-IsAnswer now i store (taken s) h = record {
  below = h.below;
  written = h.written;
  others = h.others;
}
mark_seen-IsAnswer now i store (denied code g) h = h
mark_seen-IsAnswer now i store (threw e) h = tt

pub accept-IsAnswer :
    (kind : FenceKind) (length_of : ℕ → ℕ) (now : ℕ) (i : PeerIdentity) (store : GenerationStore)
    → IsAnswer i store (accept kind length_of now i store)
unfolding accept_runtime_box_generation accept_mobile_device_generation
accept-IsAnswer runtime_boxes length_of now i store =
    elim (Option-cases (bad_argument i.generation (length_of i.instance_id))) [
      | inr (e, f) ↦ rw (f, accept_runtime_box_generation) tt
      | inl f ↦ rw (f, accept_runtime_box_generation) (accept_stored-IsAnswer now i store)
    ]
accept-IsAnswer mobile_devices length_of now i store =
    elim (Option-cases (bad_argument i.generation (length_of i.instance_id))) [
      | inr (e, f) ↦ rw (f, accept_mobile_device_generation) tt
      | inl f ↦
          rw (f, accept_mobile_device_generation)
            (mark_seen-IsAnswer now i store
              (accept_stored now i.peer_id i.generation i.instance_id store)
              (accept_stored-IsAnswer now i store))
    ]

-- A peer whose generations are stored is answered as the store says; any other leaves the store as it
-- is.
pub acquire_stored :
    (kind : FenceKind) (length_of : ℕ → ℕ) (now : ℕ) (f : DurableFence) (i : PeerIdentity)
    (on_fenced : ℕ)
    → is_stored kind i ≡ true
    → acquire_durable kind length_of now f i on_fenced
      ≡ admit_accepted f i on_fenced (accept kind length_of now i f.store)
unfolding acquire_durable acquire_runtime_box acquire_mobile
acquire_stored runtime_boxes length_of now f i on_fenced h = ground arith
acquire_stored mobile_devices length_of now f i on_fenced h = ground arith

pub acquire_not_stored :
    (kind : FenceKind) (length_of : ℕ → ℕ) (now : ℕ) (f : DurableFence) (i : PeerIdentity)
    (on_fenced : ℕ)
    → is_stored kind i ≡ false
    → acquire_durable kind length_of now f i on_fenced ≡ acquire_other f i on_fenced
unfolding acquire_durable acquire_runtime_box acquire_mobile
acquire_not_stored runtime_boxes length_of now f i on_fenced h = ground arith
acquire_not_stored mobile_devices length_of now f i on_fenced h = ground arith
