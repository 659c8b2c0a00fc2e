-- ===== src/DurableFence/Restarts.antt =====
-- What the stored generations are worth over any calls, with restarts among them.
use moshu.Common.{
  ℕ, ◌≤◌, ◌<◌, ◌≡◌, ◌≢◌, refl, sym, subst, ap, ◌∙◌, ◌⊎◌, inl, inr, Bool, true, ◌==◌, Option, none,
  some, Option-cases, Bool-cases, List, [], ◌∷◌, arith,
}
use moshu.Common.JsMap.{JsMap, get}
use moshu.Common.Entries.{==_iff}
use moshu.Peer.{PeerIdentity}
use moshu.Fence.{FenceCode, has_token}
use moshu.DurableFence.{
  StoredGeneration, GenerationStore, StoreError, Acceptance, taken, denied, threw, FenceKind,
  DurableFence, DurableLease, DurableResult, own_lease, granted, other_lease, fence_denied,
  fence_threw, acquire_other, admit_accepted, release_lease, start,
}
use moshu.DurableFence.Stored.{
  acquire_durable, is_stored, accept, IsBelow, Stores, IsAnswer, accept-IsAnswer, acquire_stored,
  acquire_not_stored,
}

-- `set_owners` stands for what other methods make of the table of boxes or of devices.
pub data DurableCall : Type 0 where
  call_acquire : (now : ℕ) → PeerIdentity → (on_fenced : ℕ) → DurableCall
  call_release : DurableLease → DurableCall
  call_restart : DurableCall
  set_owners : JsMap Bool → DurableCall

module _ (kind : FenceKind) (length_of : ℕ → ℕ) where
  unfoldable pub step : DurableFence → DurableCall → DurableFence
  unfolding release_lease
  step f (call_acquire now i on_fenced) = (acquire_durable kind length_of now f i on_fenced).0
  step f (call_release l) = release_lease f l
  step f call_restart = start f.store
  step f (set_owners owners) = record f { store = record f.store { retired = owners } }

  unfoldable pub run : DurableFence → List DurableCall → DurableFence
  unfolding step
  run f [] = f
  run f (c ∷ cs) = run (step f c) cs

-- Time only raises what is stored of a peer.
abbrev pub IsStoredLater : Option StoredGeneration → Option StoredGeneration → Type 0
IsStoredLater none o = Unit
IsStoredLater (some s) none = ⊥
IsStoredLater (some s) (some s') = IsBelow (some s) s'.accepted_generation s'.accepted_instance_id

IsStoredLater-refl : (o : Option StoredGeneration) → IsStoredLater o o
IsStoredLater-refl none = tt
IsStoredLater-refl (some s) = inr (refl, refl)

IsStoredLater-trans :
    (o p q : Option StoredGeneration) → IsStoredLater o p → IsStoredLater p q → IsStoredLater o q
IsStoredLater-trans none p q h k = tt
IsStoredLater-trans (some s) none q h k = absurd h
IsStoredLater-trans (some s) (some s') none h k = absurd k
IsStoredLater-trans (some s) (some s') (some s'') h k = ground arith

IsBelow-IsStoredLater :
    (o : Option StoredGeneration) (s : StoredGeneration)
    → IsBelow o s.accepted_generation s.accepted_instance_id
    → IsStoredLater o (some s)
IsBelow-IsStoredLater none s h = tt
IsBelow-IsStoredLater (some r) s h = h

Stores-IsStoredLater :
    (i : PeerIdentity) (store store' : GenerationStore) (k : ℕ)
    → Stores i store store'
    → IsStoredLater (get k store.generations) (get k store'.generations)
Stores-IsStoredLater i store store' k h = elim (Bool-cases (i.peer_id == k)) [
  | inr other ↦ rw (h.others k other) (IsStoredLater-refl (get k store.generations))
  | inl same ↦
      let (s, e, g, n) = h.written in
      subst (λ j. IsStoredLater (get j store.generations) (get j store'.generations))
        ((==_iff i.peer_id k).0 same)
        (rw e (IsBelow-IsStoredLater (get i.peer_id store.generations) s (rw (g, n) h.below)))
]

admit_accepted-IsStoredLater :
    (f : DurableFence) (i : PeerIdentity) (on_fenced k : ℕ) (a : Acceptance)
    → IsAnswer i f.store a
    → IsStoredLater
        (get k f.store.generations)
        (get k (admit_accepted f i on_fenced a).0.store.generations)
unfolding admit_accepted
admit_accepted-IsStoredLater f i on_fenced k (taken store') h =
    Stores-IsStoredLater i f.store store' k h
admit_accepted-IsStoredLater f i on_fenced k (denied code g) h =
    IsStoredLater-refl (get k f.store.generations)
admit_accepted-IsStoredLater f i on_fenced k (threw e) h =
    IsStoredLater-refl (get k f.store.generations)

module _ (kind : FenceKind) (length_of : ℕ → ℕ) where
  acquire-IsStoredLater :
      (now : ℕ) (f : DurableFence) (i : PeerIdentity) (on_fenced k : ℕ)
      → IsStoredLater
          (get k f.store.generations)
          (get k (acquire_durable kind length_of now f i on_fenced).0.store.generations)
  unfolding acquire_other
  acquire-IsStoredLater now f i on_fenced k = elim (Bool-cases (is_stored kind i)) [
    | inr not_stored ↦
        rw (acquire_not_stored kind length_of now f i on_fenced not_stored)
          (IsStoredLater-refl (get k f.store.generations))
    | inl stored ↦ rw (acquire_stored kind length_of now f i on_fenced stored) (
        admit_accepted-IsStoredLater f i on_fenced k (accept kind length_of now i f.store)
          (accept-IsAnswer kind length_of now i f.store))
  ]

  step-IsStoredLater :
      (f : DurableFence) (c : DurableCall) (k : ℕ)
      → IsStoredLater
          (get k f.store.generations)
          (get k (step kind length_of f c).store.generations)
  unfolding step release_lease
  step-IsStoredLater f (call_acquire now i on_fenced) k = acquire-IsStoredLater now f i on_fenced k
  step-IsStoredLater f (call_release (other_lease l)) k =
      IsStoredLater-refl (get k f.store.generations)
  step-IsStoredLater f (call_release (own_lease peer_id token)) k =
      elim (Bool-cases (has_token token (get peer_id f.active))) [
        | inl own ↦ rw own (IsStoredLater-refl (get k f.store.generations))
        | inr other ↦ rw other (IsStoredLater-refl (get k f.store.generations))
      ]
  step-IsStoredLater f call_restart k = IsStoredLater-refl (get k f.store.generations)
  step-IsStoredLater f (set_owners owners) k = IsStoredLater-refl (get k f.store.generations)

  run-IsStoredLater :
      (f : DurableFence) (cs : List DurableCall) (k : ℕ)
      → IsStoredLater
          (get k f.store.generations)
          (get k (run kind length_of f cs).store.generations)
  unfolding run
  run-IsStoredLater f [] k = IsStoredLater-refl (get k f.store.generations)
  run-IsStoredLater f (c ∷ cs) k =
      IsStoredLater-trans (get k f.store.generations)
        (get k (step kind length_of f c).store.generations)
        (get k (run kind length_of f (c ∷ cs)).store.generations) (step-IsStoredLater f c k)
        (run-IsStoredLater (step kind length_of f c) cs k)

-- A connection that `first` leaves behind: an older generation, or another instance of the same one.
abbrev pub IsOlder : PeerIdentity → PeerIdentity → Type 0
IsOlder later first =
    (later.generation < first.generation)
    ⊎ ((later.generation ≡ first.generation) × (later.instance_id ≢ first.instance_id))

-- The answers that keep a connection out.
pub data IsRefusal (least : ℕ) : DurableResult → Type 0 where
  denies : (code : FenceCode) (g : ℕ) → least ≤ g → IsRefusal least (fence_denied code g)
  throws : (e : StoreError) → IsRefusal least (fence_threw e)

granted_stores :
    (f : DurableFence) (i : PeerIdentity) (on_fenced : ℕ) (l : DurableLease) (a : Acceptance)
    → IsAnswer i f.store a
    → (admit_accepted f i on_fenced a).1 ≡ granted l
    → (s : StoredGeneration) × (get i.peer_id (admit_accepted f i on_fenced a).0.store.generations
        ≡ some s)
      × (s.accepted_generation ≡ i.generation)
      × (s.accepted_instance_id ≡ i.instance_id)
unfolding admit_accepted
granted_stores f i on_fenced l (taken store) h e = h.written
granted_stores f i on_fenced l (denied code g) h e = absurd (ground (arith, e))
granted_stores f i on_fenced l (threw x) h e = absurd (ground (arith, e))

older_refused :
    (f : DurableFence) (first later : PeerIdentity) (on_fenced : ℕ) (s : StoredGeneration)
    (a : Acceptance)
    → IsAnswer later f.store a
    → get later.peer_id f.store.generations ≡ some s
    → (first.generation < s.accepted_generation)
      ⊎ ((first.generation ≡ s.accepted_generation) × (first.instance_id ≡ s.accepted_instance_id))
    → IsOlder later first
    → let x = admit_accepted f later on_fenced a in (x.0 ≡ f) × IsRefusal first.generation x.1
unfolding admit_accepted
older_refused f first later on_fenced s (taken store) h e b o =
    let below = rw e at h.below in absurd (ground (arith, below, b, o))
older_refused f first later on_fenced s (denied code g) h e b o =
    (refl, denies code g (ground (arith, h, e, b)))
older_refused f first later on_fenced s (threw x) h e b o = (refl, throws x)

-- Once a fence with a store has admitted a connection of a Runtime Box or of a phone, then after any
-- further calls, restarts of the server among them, a connection of the same peer with an older
-- generation, or of another instance with the same generation, is kept out: the store throws, or it
-- names a generation that is at least the admitted one; and nothing changes.
pub restart_refuses_older :
    (kind : FenceKind) (length_of : ℕ → ℕ) (now later_now : ℕ) (f : DurableFence)
    (first later : PeerIdentity) (on_fenced on_fenced' : ℕ) (l : DurableLease)
    (cs : List DurableCall)
    → is_stored kind first ≡ true
    → is_stored kind later ≡ true
    → later.peer_id ≡ first.peer_id
    → IsOlder later first
    → (acquire_durable kind length_of now f first on_fenced).1 ≡ granted l
    → let f' = run kind length_of (acquire_durable kind length_of now f first on_fenced).0 cs in
      let x = acquire_durable kind length_of later_now f' later on_fenced' in
      (x.0 ≡ f') × IsRefusal first.generation x.1
restart_refuses_older kind length_of now later_now f first later on_fenced on_fenced' l cs
      first_stored later_stored same older h =
    let f1 = (acquire_durable kind length_of now f first on_fenced).0 in
    let f' = run kind length_of f1 cs in
    let step1 = acquire_stored kind length_of now f first on_fenced first_stored in
    let (s, e, g, n) =
      granted_stores f first on_fenced l (accept kind length_of now first f.store)
        (accept-IsAnswer kind length_of now first f.store)
        (sym (ap (λ (x : DurableFence × DurableResult). x.1) step1) ∙ h) in
    let e1 : get first.peer_id f1.store.generations ≡ some s =
      ap (λ (x : DurableFence × DurableResult). get first.peer_id x.0.store.generations) step1
      ∙ e in
    let later_raised = run-IsStoredLater kind length_of f1 cs first.peer_id in
    let there : (s' : StoredGeneration) × (get first.peer_id f'.store.generations ≡ some s')
        × IsBelow (some s) s'.accepted_generation s'.accepted_instance_id =
      elim (Option-cases (get first.peer_id f'.store.generations)) [
        | inl gone ↦ absurd (rw (e1, gone) at later_raised)
        | inr (s', e') ↦ (s', e', rw (e1, e') at later_raised)
      ] in
    let (s', e', raised) = there in
    subst (λ (x : DurableFence × DurableResult). (x.0 ≡ f') × IsRefusal first.generation x.1)
      (sym (acquire_stored kind length_of later_now f' later on_fenced' later_stored))
      (older_refused f' first later on_fenced' s' (accept kind length_of later_now later f'.store)
        (accept-IsAnswer kind length_of later_now later f'.store)
        (ap (λ j. get j f'.store.generations) same ∙ e') (ground (arith, raised, g, n)) older)
