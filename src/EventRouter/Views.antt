-- ===== src/EventRouter/Views.antt =====
-- Each operation keeps the index and changes the subscriptions as it promises.
use moshu.Common.{
  ℕ, ◌≡◌, refl, ap, subst, inl, inr, Bool, ◌&&◌, ◌==◌, if◌then◌else◌, contains, none, some, List,
  [], ◌∷◌, Bool-cases, Option-cases, arith,
}
use moshu.Common.JsMap.{
  JsMap, get, has, delete, size, NodupKeys, get-delete, get-nil, delete-NodupKeys,
}
use moshu.Peer.{PeerIdentity, is_same_rpc_peer_identity}
use moshu.EventRouter.{
  Router, put_back, remove_subscription, retire_session, retire_sessions, release_session,
  release_sessions,
}
use moshu.EventRouter.Tables.{
  at, at-put_back, put_back-IsTable, inner-NodupKeys, inner-some, inner-none, size-delete,
  total_size-put_back, total_size-delete, delete-IsTable, inner-delete,
}
use moshu.EventRouter.View.{Subscriptions, subscriptions}
use moshu.EventRouter.Index.{
  IsIndexed, at-detach_peer_session, detach_peer_session-IsTable, size-detach_peer_session,
  at-detach_all, detach_all-IsTable, size-detach_all,
}

pub record Shows (r : Router) (v : Subscriptions) : Type 0 where
  pub indexed : IsIndexed r
  pub seen : (s p : ℕ) → subscriptions r s p ≡ v s p

pub remove_subscription-Shows :
    (p s : ℕ) (r : Router)
    → IsIndexed r
    → Shows
        (remove_subscription p s r)
        (λ s' p'. if s == s' && p == p' then none else subscriptions r s' p')
unfolding remove_subscription
remove_subscription-Shows p s r h = elim (Option-cases (get s r.subscriptions_by_session)) [
  | inl e ↦
      rw (e, remove_subscription)
        (record {
          indexed = h;
          seen = λ s' p'.
              ground
                (arith, inner-none s r.subscriptions_by_session e, get-nil {V = PeerIdentity} p');
        })
  | inr (m, e) ↦
      let is_inner = inner-some s r.subscriptions_by_session m e in
      elim (Bool-cases (has p m)) [
        | inr absent ↦
            rw (e, absent, remove_subscription)
              (record { indexed = h; seen = λ s' p'. ground (arith, is_inner) })
        | inl present ↦
            let u =
              subst NodupKeys is_inner
                (inner-NodupKeys s r.subscriptions_by_session h.by_session) in
            let seen : (s' p' : ℕ)
                → at s' p' (put_back s (delete p m) r.subscriptions_by_session)
                  ≡ (if s == s' && p == p' then none else subscriptions r s' p') =
              λ s' p'. ground (
                arith,
                at-put_back s s' p' (delete p m) r.subscriptions_by_session,
                get-delete p' p m,
                is_inner,
              ) in
            let less = size-delete p m u present in
            let sum =
              total_size-put_back s (delete p m) r.subscriptions_by_session h.by_session.keys in
            rw (e, present, remove_subscription)
              (record {
                indexed = record {
                  by_session =
                      put_back-IsTable s (delete p m) r.subscriptions_by_session h.by_session
                        (delete-NodupKeys p m u);
                  by_peer = detach_peer_session-IsTable p s r.sessions_by_peer h.by_peer;
                  agree = λ s' p'. ground (
                    arith,
                    seen s' p',
                    at-detach_peer_session p s r.sessions_by_peer p' s',
                    h.agree s' p',
                  );
                  counted = omega (
                    arith,
                    h.counted,
                    less,
                    sum,
                    ap (λ (x : JsMap PeerIdentity). size x) is_inner,
                  );
                  few = omega (arith, h.few);
                  few_each = λ j.
                      omega
                        (arith, h.few_each j, size-detach_peer_session p s r.sessions_by_peer j);
                };
                seen = seen;
              })
      ]
]

pub retire_session-Shows :
    (s : ℕ) (r : Router)
    → IsIndexed r
    → Shows (retire_session s r) (λ s' p'. if s == s' then none else subscriptions r s' p')
unfolding retire_session
retire_session-Shows s r h = elim (Option-cases (get s r.subscriptions_by_session)) [
  | inl e ↦
      rw (e, retire_session)
        (record {
          indexed = h;
          seen = λ s' p'.
              ground
                (arith, inner-none s r.subscriptions_by_session e, get-nil {V = PeerIdentity} p');
        })
  | inr (m, e) ↦
      let is_inner = inner-some s r.subscriptions_by_session m e in
      let seen : (s' p' : ℕ)
          → at s' p' (delete s r.subscriptions_by_session)
            ≡ (if s == s' then none else subscriptions r s' p') =
        λ s' p'.
          ground
            (arith, inner-delete s s' r.subscriptions_by_session, get-nil {V = PeerIdentity} p') in
      let sum = total_size-delete s r.subscriptions_by_session h.by_session.keys in
      rw (e, retire_session)
        (record {
          indexed = record {
            by_session = delete-IsTable s r.subscriptions_by_session h.by_session;
            by_peer = detach_all-IsTable s m r.sessions_by_peer h.by_peer;
            agree = λ s' p'. ground (
              arith,
              seen s' p',
              at-detach_all s m r.sessions_by_peer p' s',
              h.agree s' p',
              is_inner,
            );
            counted =
                omega (arith, h.counted, sum, ap (λ (x : JsMap PeerIdentity). size x) is_inner);
            few = omega (arith, h.few);
            few_each = λ j. omega (arith, h.few_each j, size-detach_all s m r.sessions_by_peer j);
          };
          seen = seen;
        })
]

pub retire_sessions-Shows :
    (ss : List ℕ) (r : Router)
    → IsIndexed r
    → Shows (retire_sessions ss r) (λ s' p'. if contains s' ss then none else subscriptions r s' p')
unfolding retire_sessions
retire_sessions-Shows [] r h = record { indexed = h; seen = λ s' p'. refl }
retire_sessions-Shows (s ∷ ss) r h =
    let first = retire_session-Shows s r h in
    let rest = retire_sessions-Shows ss (retire_session s r) first.indexed in
    record {
      indexed = rest.indexed;
      seen = λ s' p'. ground (arith, rest.seen s' p', first.seen s' p');
    }

-- What is left where `peer` gives up the sessions that pass the test.
abbrev pub without : PeerIdentity → (ℕ → Bool) → Subscriptions → Subscriptions
without peer q v s p = elim (v s p) [
  | none ↦ none
  | some identity ↦
      if peer.peer_id == p && (q s && is_same_rpc_peer_identity identity peer)
      then none
      else some identity
]

release_session-Shows :
    (peer : PeerIdentity) (s : ℕ) (r : Router)
    → IsIndexed r
    → Shows (release_session peer s r) (without peer (λ s'. s == s') (subscriptions r))
unfolding release_session
release_session-Shows peer s r h = elim (Option-cases (subscriptions r s peer.peer_id)) [
  | inl e ↦ rw (e, release_session) (record { indexed = h; seen = λ s' p'. ground (arith, e) })
  | inr (i, e) ↦ elim (Bool-cases (is_same_rpc_peer_identity i peer)) [
    | inr other ↦
        rw (e, other, release_session)
          (record { indexed = h; seen = λ s' p'. ground (arith, e, other) })
    | inl same ↦
        let after = remove_subscription-Shows peer.peer_id s r h in
        rw (e, same, release_session)
          (record {
            indexed = after.indexed;
            seen = λ s' p'. ground (arith, e, same, after.seen s' p');
          })
  ]
]

pub release_sessions-Shows :
    (peer : PeerIdentity) (m : JsMap (Unit {0})) (r : Router)
    → IsIndexed r
    → Shows (release_sessions peer m r) (without peer (λ s'. has s' m) (subscriptions r))
unfolding release_sessions get
release_sessions-Shows peer [] r h = record { indexed = h; seen = λ s' p'. ground arith }
release_sessions-Shows peer ((s, x) ∷ m) r h =
    let first = release_session-Shows peer s r h in
    let rest = release_sessions-Shows peer m (release_session peer s r) first.indexed in
    record {
      indexed = rest.indexed;
      seen = λ s' p'. ground (arith, rest.seen s' p', first.seen s' p');
    }
