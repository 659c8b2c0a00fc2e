-- ===== src/EventRouter/Index.antt =====
-- The two maps of subscriptions agree, the total counts them, and the limits hold.
use moshu.Common.{
  ℕ, ◌≤◌, ◌≡◌, refl, subst, inl, inr, ◌&&◌, ◌==◌, if◌then◌else◌, is_some, none, [], ◌∷◌,
  Option-cases, arith,
}
use moshu.Common.JsMap.{
  JsMap, get, has, delete, size, NodupKeys, get-delete, get-nil, delete-NodupKeys,
}
use moshu.EventRouter.{
  Table, Router, inner, detach_peer_session, detach_all, max_subscriptions_per_peer,
  max_total_subscriptions,
}
use moshu.EventRouter.Tables.{
  at, IsTable, total_size, at-put_back, size-inner-put_back, put_back-IsTable, inner-NodupKeys,
  inner-some, inner-none, size-delete-le,
}

pub record IsIndexed (r : Router) : Type 0 where
  pub by_session : IsTable r.subscriptions_by_session
  pub by_peer : IsTable r.sessions_by_peer
  pub agree :
      (s p : ℕ) → is_some (at s p r.subscriptions_by_session) ≡ is_some (at p s r.sessions_by_peer)
  pub counted : r.total_subscriptions ≡ total_size r.subscriptions_by_session
  pub few : r.total_subscriptions ≤ max_total_subscriptions
  pub few_each : (p : ℕ) → size (inner p r.sessions_by_peer) ≤ max_subscriptions_per_peer

module _ (p s : ℕ) (t : Table (Unit {0})) where
  pub at-detach_peer_session :
      (j k : ℕ) → at j k (detach_peer_session p s t) ≡ (if p == j && s == k then none else at j k t)
  unfolding detach_peer_session
  at-detach_peer_session j k = elim (Option-cases (get p t)) [
    | inl e ↦
        rw (e, detach_peer_session) (ground (arith, inner-none p t e, get-nil {V = Unit {0}} k))
    | inr (m, e) ↦
        rw (e, detach_peer_session)
          (ground (arith, at-put_back p j k (delete s m) t, get-delete k s m, inner-some p t m e))
  ]

  pub detach_peer_session-IsTable : IsTable t → IsTable (detach_peer_session p s t)
  unfolding detach_peer_session
  detach_peer_session-IsTable h = elim (Option-cases (get p t)) [
    | inl e ↦ rw (e, detach_peer_session) h
    | inr (m, e) ↦
        rw (e, detach_peer_session)
          (put_back-IsTable p (delete s m) t h
            (delete-NodupKeys s m (subst NodupKeys (inner-some p t m e) (inner-NodupKeys p t h))))
  ]

  pub size-detach_peer_session :
      (j : ℕ) → size (inner j (detach_peer_session p s t)) ≤ size (inner j t)
  unfolding detach_peer_session
  size-detach_peer_session j = elim (Option-cases (get p t)) [
    | inl e ↦ rw (e, detach_peer_session) (omega arith)
    | inr (m, e) ↦
        rw (e, detach_peer_session)
          (ground
            (arith, size-inner-put_back p j (delete s m) t, size-delete-le s m, inner-some p t m e))
  ]

module _ {V : Type 0} (s : ℕ) where
  pub at-detach_all :
      (m : JsMap V) (t : Table (Unit {0})) (j k : ℕ)
      → at j k (detach_all m s t) ≡ (if has j m && s == k then none else at j k t)
  unfolding detach_all get
  at-detach_all [] t j k = refl
  at-detach_all ((p, v) ∷ m) t j k =
      ground
        (arith, at-detach_all m (detach_peer_session p s t) j k, at-detach_peer_session p s t j k)

  pub detach_all-IsTable :
      (m : JsMap V) (t : Table (Unit {0})) → IsTable t → IsTable (detach_all m s t)
  unfolding detach_all
  detach_all-IsTable [] t h = h
  detach_all-IsTable ((p, v) ∷ m) t h =
      detach_all-IsTable m (detach_peer_session p s t) (detach_peer_session-IsTable p s t h)

  pub size-detach_all :
      (m : JsMap V) (t : Table (Unit {0})) (j : ℕ)
      → size (inner j (detach_all m s t)) ≤ size (inner j t)
  unfolding detach_all
  size-detach_all [] t j = omega arith
  size-detach_all ((p, v) ∷ m) t j =
      omega
        (arith, size-detach_all m (detach_peer_session p s t) j, size-detach_peer_session p s t j)
