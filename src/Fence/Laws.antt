-- ===== src/Fence/Laws.antt =====
-- What the in-memory fence promises: generations of a peer never fall, one generation has one
-- instance, and a lease that was replaced changes nothing when it is released.
use moshu.Common.{
  ℕ, suc, ◌≤◌, ◌<◌, ◌≡◌, refl, ◌≢◌, ◌⊎◌, inl, inr, true, ℕ_discrete, Option, none, some,
  Option-cases, Bool-cases, List, [], ◌∷◌, arith,
}
use moshu.Common.JsMap.{JsMap, get, set, get-set}
use moshu.Common.Entries.{==_iff}
use moshu.Peer.{PeerIdentity}
use moshu.Fence.{
  GenerationRecord, Fence, Lease, accepted, create_peer_key, acquire, release, clear_active,
  has_token,
}
use moshu.Fence.Acquire.{IsBelow, fresh, acquire_lem}

pub data Call : Type 0 where
  acquires : PeerIdentity → ℕ → Call
  releases : Lease → Call

abbrev pub step : Fence → Call → Fence
step f (acquires identity on_fenced) = (acquire f identity on_fenced).0
step f (releases l) = release f l

unfoldable pub run : Fence → List Call → Fence
run f [] = f
run f (c ∷ cs) = run (step f c) cs

-- Time only raises the record of a key.
abbrev pub IsRaised : Option GenerationRecord → Option GenerationRecord → Type 0
IsRaised none o = Unit
IsRaised (some r) none = ⊥
IsRaised (some r) (some r') = IsBelow (some r) r'.generation r'.instance_id

IsRaised-refl : (o : Option GenerationRecord) → IsRaised o o
IsRaised-refl none = tt
IsRaised-refl (some r) = inr (refl, refl)

IsRaised-trans : (o p q : Option GenerationRecord) → IsRaised o p → IsRaised p q → IsRaised o q
IsRaised-trans none p q h k = tt
IsRaised-trans (some r) none q h k = absurd h
IsRaised-trans (some r) (some r') none h k = absurd k
IsRaised-trans (some r) (some r') (some r'') h k = ground arith

untouched :
    (k j : ℕ) (r : GenerationRecord) (m : JsMap GenerationRecord)
    → k ≢ j
    → get k (set j r m) ≡ get k m
untouched k j r m n = ground (arith, get-set k j r m)

raised :
    (o : Option GenerationRecord) (r : GenerationRecord)
    → IsBelow o r.generation r.instance_id
    → IsRaised o (some r)
raised none r h = tt
raised (some r0) r h = h

acquire-IsRaised :
    (f : Fence) (identity : PeerIdentity) (on_fenced k : ℕ)
    → IsRaised (get k f.records) (get k (acquire f identity on_fenced).0.records)
acquire-IsRaised f identity on_fenced k = elim (acquire_lem f identity on_fenced) [
  | inl (r, e, same, _) ↦ rw same (IsRaised-refl (get k f.records))
  | inr (below, _, _, own, others) ↦ elim (ℕ_discrete k (create_peer_key identity)) [
    | yes here ↦ rw (here, own) (raised (get (create_peer_key identity) f.records) _ below)
    | no away ↦ rw (others k away) (IsRaised-refl (get k f.records))
  ]
]

release_cases :
    (f : Fence) (l : Lease)
    → (release f l ≡ f)
      ⊎ ((r : GenerationRecord) × (get l.key f.records ≡ some r)
          × (has_token l.token r.active ≡ true)
          × (release f l ≡ record f { records = set l.key (record r { active = none }) f.records }))
unfolding release
release_cases f l = elim (Option-cases (get l.key f.records)) [
  | inl e ↦ inl (rw (e, clear_active))
  | inr (r, e) ↦ elim (Bool-cases (has_token l.token r.active)) [
    | inl own ↦ inr (r, e, own, rw (e, clear_active, own))
    | inr other ↦ inl (rw (e, clear_active, other))
  ]
]

release-IsRaised :
    (f : Fence) (l : Lease) (k : ℕ) → IsRaised (get k f.records) (get k (release f l).records)
release-IsRaised f l k = elim (release_cases f l) [
  | inl same ↦ rw same (IsRaised-refl (get k f.records))
  | inr (r, e, _, cleared) ↦ elim (ℕ_discrete k l.key) [
    | yes here ↦
        rw
          (
            here,
            cleared,
            get-set l.key l.key (record r { active = none }) f.records,
            e,
            (==_iff l.key l.key).1 refl,
          )
          (inr (refl, refl))
    | no away ↦
        rw (cleared, untouched k l.key (record r { active = none }) f.records away)
          (IsRaised-refl (get k f.records))
  ]
]

step-IsRaised :
    (f : Fence) (c : Call) (k : ℕ) → IsRaised (get k f.records) (get k (step f c).records)
step-IsRaised f (acquires identity on_fenced) k = acquire-IsRaised f identity on_fenced k
step-IsRaised f (releases l) k = release-IsRaised f l k

-- Over any calls, of any peers, the generation on record for a peer never falls, and while it stays
-- the same so does the instance.
pub run-IsRaised :
    (f : Fence) (cs : List Call) (k : ℕ) → IsRaised (get k f.records) (get k (run f cs).records)
unfolding run
run-IsRaised f [] k = IsRaised-refl (get k f.records)
run-IsRaised f (c ∷ cs) k =
    IsRaised-trans (get k f.records) (get k (step f c).records) (get k (run f (c ∷ cs)).records)
      (step-IsRaised f c k) (run-IsRaised (step f c) cs k)

acquire_next :
    (f : Fence) (identity : PeerIdentity) (on_fenced : ℕ)
    → f.next_token ≤ (acquire f identity on_fenced).0.next_token
unfolding acquire
acquire_next f identity on_fenced = ground arith

accepted_next :
    (f : Fence) (identity : PeerIdentity) (on_fenced : ℕ) (l : Lease)
    → (acquire f identity on_fenced).1 ≡ accepted l
    → (acquire f identity on_fenced).0.next_token ≡ suc f.next_token
unfolding acquire
accepted_next f identity on_fenced l a = ground arith

-- What an accepted connection leaves under its key.
accepted_leaves :
    (f : Fence) (identity : PeerIdentity) (on_fenced : ℕ) (l : Lease)
    → (acquire f identity on_fenced).1 ≡ accepted l
    → let f' = (acquire f identity on_fenced).0 in
      (get (create_peer_key identity) f'.records ≡ some (fresh f identity on_fenced))
      × (l.key ≡ create_peer_key identity)
      × (l.token ≡ f.next_token)
      × (f'.next_token ≡ suc f.next_token)
accepted_leaves f identity on_fenced l a = elim (acquire_lem f identity on_fenced) [
  | inl (r, _, _, inl (_, x)) ↦ cc
  | inl (r, _, _, inr (_, _, x)) ↦ cc
  | inr (_, x, _, own, _) ↦
      (own, ground arith, ground arith, accepted_next f identity on_fenced l a)
]

next_token-step : (f : Fence) (c : Call) → f.next_token ≤ (step f c).next_token
next_token-step f (acquires identity on_fenced) = acquire_next f identity on_fenced
next_token-step f (releases l) = elim (release_cases f l) [
  | inl e ↦ rw e (omega arith)
  | inr (r, _, _, e) ↦ rw e (omega arith)
]

next_token-run : (f : Fence) (cs : List Call) → f.next_token ≤ (run f cs).next_token
unfolding run
next_token-run f [] = omega arith
next_token-run f (c ∷ cs) = omega (arith, next_token-step f c, next_token-run (step f c) cs)

replaced_token :
    (f : Fence) (second : PeerIdentity) (on_fenced : ℕ) (l : Lease) (r : GenerationRecord)
    → some r ≡ some (fresh f second on_fenced)
    → l.token < f.next_token
    → has_token l.token r.active ≡ true
    → ⊥
replaced_token f second on_fenced l r e older held = ground arith

-- A lease that was replaced: after its peer's connection was accepted and any further calls, another
-- connection is accepted under the same key, and the first lease is released. The record of the key
-- is as the second acceptance left it, with the second connection active.
pub release_replaced :
    (f : Fence) (first second : PeerIdentity) (on_fenced on_fenced' : ℕ) (l l' : Lease)
    (cs : List Call)
    → (acquire f first on_fenced).1 ≡ accepted l
    → let f' = run (acquire f first on_fenced).0 cs in
      (acquire f' second on_fenced').1 ≡ accepted l'
      → l'.key ≡ l.key
      → let f'' = (acquire f' second on_fenced').0 in release f'' l ≡ f''
release_replaced f first second on_fenced on_fenced' l l' cs a a' same =
    let f1 = (acquire f first on_fenced).0 in
    let f2 = run f1 cs in
    let (_, _, token, next) = accepted_leaves f first on_fenced l a in
    let (own, key, _, _) = accepted_leaves f2 second on_fenced' l' a' in
    elim (release_cases (acquire f2 second on_fenced').0 l) [
      | inl e ↦ e
      | inr (r, e, held, _) ↦ absurd (
          replaced_token f2 second on_fenced' l r (rw (← key, same, e) at own)
            (omega (arith, next_token-run f1 cs)) held)
    ]
