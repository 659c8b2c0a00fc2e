-- ===== src/Fence/Acquire.antt =====
-- packages/process-rpc-core/src/generation-fence.ts: `acquire` on each of its ways out.
use moshu.Common.{
  ℕ, ◌<◌, ◌≡◌, refl, ◌≢◌, ◌⊎◌, inl, inr, ◌==◌, ltb, Option, none, some, Bool-cases, arith,
}
use moshu.Common.JsMap.{get, get-set}
use moshu.Common.Entries.{==_iff}
use moshu.Peer.{PeerIdentity}
use moshu.Fence.{
  GenerationRecord, Fence, stale_generation, generation_conflict, accepted, refused,
  create_peer_key, refusal, acquire, active_of, notify,
}

-- Whether a peer may come back: the record of its key is at most at the generation, and of the same
-- instance where it is at the generation.
abbrev pub IsBelow : Option GenerationRecord → ℕ → ℕ → Type 0
IsBelow none g i = Unit
IsBelow (some r) g i = (r.generation < g) ⊎ ((r.generation ≡ g) × (r.instance_id ≡ i))

abbrev pub fresh : Fence → PeerIdentity → ℕ → GenerationRecord
fresh f identity on_fenced = record {
  generation = identity.generation;
  instance_id = identity.instance_id;
  active = some (record { token = f.next_token; on_fenced = on_fenced });
}

refusal_cases :
    (identity : PeerIdentity) (o : Option GenerationRecord)
    → ((r : GenerationRecord) × (o ≡ some r)
        × (((identity.generation < r.generation) × (refusal identity o ≡ some stale_generation))
            ⊎ ((identity.generation ≡ r.generation)
                × (identity.instance_id ≢ r.instance_id)
                × (refusal identity o ≡ some generation_conflict))))
      ⊎ (IsBelow o identity.generation identity.instance_id × (refusal identity o ≡ none))
unfolding refusal
refusal_cases identity none = inr (tt, refl)
refusal_cases identity (some r) = elim (Bool-cases (ltb identity.generation r.generation)) [
  | inl older ↦ inl (r, refl, inl (ground arith, rw older))
  | inr not_older ↦ elim (Bool-cases (identity.generation == r.generation)) [
    | inr newer ↦ inr (inl (ground arith), ground arith)
    | inl level ↦ elim (Bool-cases (identity.instance_id == r.instance_id)) [
      | inl own ↦ inr (inr (ground arith, ground arith), ground arith)
      | inr other ↦ inl (r, refl, inr (ground arith, ground arith, ground arith))
    ]
  ]
]

-- `acquire` on each of its ways out. A connection is refused exactly when a newer generation of the
-- peer was accepted, or the same generation of another instance, and then the fence does not change
-- and its generation is reported. Otherwise the peer's record takes the connection's generation and
-- instance with the lease's token as the active one, the callback of the connection that was active
-- is called with the new identity and no other callback, and other peers' records stay.
pub acquire_lem :
    (f : Fence) (identity : PeerIdentity) (on_fenced : ℕ)
    → let key = create_peer_key identity in
      let (f', x) = acquire f identity on_fenced in
      ((r : GenerationRecord) × (get key f.records ≡ some r)
        × (f' ≡ f)
        × (((identity.generation < r.generation) × (x ≡ refused stale_generation r.generation))
            ⊎ ((identity.generation ≡ r.generation)
                × (identity.instance_id ≢ r.instance_id)
                × (x ≡ refused generation_conflict r.generation))))
      ⊎ (IsBelow (get key f.records) identity.generation identity.instance_id
          × (x ≡ accepted (record { key = key; token = f.next_token }))
          × (f'.fenced ≡ notify (active_of (get key f.records)) identity f.fenced)
          × (get key f'.records
              ≡ some (record {
                generation = identity.generation;
                instance_id = identity.instance_id;
                active = some (record { token = f.next_token; on_fenced = on_fenced });
              }))
          × ((k : ℕ) → k ≢ key → get k f'.records ≡ get k f.records))
unfolding acquire
acquire_lem f identity on_fenced =
    elim (refusal_cases identity (get (create_peer_key identity) f.records)) [
      | inl (r, e, inl (older, c)) ↦ inl (r, e, rw (c, acquire), inl (older, rw (c, e, acquire)))
      | inl (r, e, inr (level, other, c)) ↦
          inl (r, e, rw (c, acquire), inr (level, other, rw (c, e, acquire)))
      | inr (below, c) ↦ inr (
        below,
        rw (c, acquire),
        rw (c, acquire),
        rw
            (
              c,
              acquire,
              get-set (create_peer_key identity) (create_peer_key identity) _ f.records,
              (==_iff (create_peer_key identity) (create_peer_key identity)).1 refl,
            )
            refl,
        λ k n.
            rw (c, acquire)
              (ground (
                arith,
                get-set k (create_peer_key identity) (fresh f identity on_fenced) f.records,
              )),
      )
    ]
