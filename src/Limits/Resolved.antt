-- ===== src/Limits/Resolved.antt =====
-- The limits that `resolveRpcLimits` lets pass are usable together, and are what it makes of them.
use moshu.Common.{
  ℕ, ◌<◌, ◌≤◌, ◌≡◌, refl, subst, ◌⊎◌, inl, inr, Bool, true, false, not, ◌&&◌, ◌||◌, ltb, leb, ◌==◌,
  some, Bool-cases, arith,
}
use moshu.Common.Result.{Result, ok, err, ◌>>=◌, ◌>>◌, require, Result-cases}
use moshu.Limits.{
  Number, integer, other_number, RpcLimits, ResolvedRpcLimits, LimitError, max_safe_integer,
  max_rpc_frame_bytes, min_rpc_frame_bytes, max_rpc_timer_ms, or_default, default_buffer,
  default_rpc_limits, assert_positive_integer, assert_nonnegative_integer, assert_timer_range,
  check_ranges, read_limits, resolve_rpc_limits,
}

abbrev pub IsPositive : ℕ → Type 0
IsPositive n = (0 < n) × (n ≤ max_safe_integer)

pub record IsUsable (l : ResolvedRpcLimits) : Type 0 where
  pub frame : (min_rpc_frame_bytes ≤ l.max_frame_bytes) × (l.max_frame_bytes ≤ max_rpc_frame_bytes)
  pub buffer :
      (l.max_frame_bytes ≤ l.max_buffered_outbound_bytes)
      × (l.max_buffered_outbound_bytes ≤ max_rpc_frame_bytes)
  pub pending : IsPositive l.max_pending_requests
  pub requests : IsPositive l.max_concurrent_requests
  pub events : IsPositive l.max_concurrent_events
  pub request_timeout :
      (0 < l.request_timeout_ms)
      × (l.request_timeout_ms ≤ l.max_request_timeout_ms)
      × (l.max_request_timeout_ms ≤ max_rpc_timer_ms)
  pub handshake : (0 < l.handshake_timeout_ms) × (l.handshake_timeout_ms ≤ max_rpc_timer_ms)
  pub heartbeat :
      (0 < l.heartbeat_timeout_ms)
      × (l.heartbeat_timeout_ms ≤ max_rpc_timer_ms)
      × (l.heartbeat_interval_ms ≤ max_rpc_timer_ms)
      × ((l.heartbeat_interval_ms ≡ 0) ⊎ (l.heartbeat_interval_ms < l.heartbeat_timeout_ms))

-- The limits as they are given to another connection.
abbrev pub given : ResolvedRpcLimits → RpcLimits
given l = record {
  max_frame_bytes = some (integer l.max_frame_bytes);
  max_buffered_outbound_bytes = some (integer l.max_buffered_outbound_bytes);
  max_pending_requests = some (integer l.max_pending_requests);
  max_concurrent_requests = some (integer l.max_concurrent_requests);
  max_concurrent_events = some (integer l.max_concurrent_events);
  request_timeout_ms = some (integer l.request_timeout_ms);
  max_request_timeout_ms = some (integer l.max_request_timeout_ms);
  handshake_timeout_ms = some (integer l.handshake_timeout_ms);
  heartbeat_interval_ms = some (integer l.heartbeat_interval_ms);
  heartbeat_timeout_ms = some (integer l.heartbeat_timeout_ms);
}

bind_ok :
    {A B : Type 0} (r : Result LimitError A) (f : A → Result LimitError B) (b : B)
    → (r >>= f) ≡ ok b
    → (a : A) × (r ≡ ok a) × (f a ≡ ok b)
bind_ok (ok a) f b h = (a, refl, h)
bind_ok (err e) f b h = absurd (ground (arith, h))

-- The last of some checks passes, and those before it.
then_ok :
    (x : Result LimitError (Unit {0})) (t : Bool) (e : LimitError) (b : Unit {0})
    → (x >> require t e) ≡ ok b
    → (x ≡ ok tt) × (t ≡ true)
then_ok (ok u) true e b h = (refl, refl)
then_ok (ok u) false e b h = absurd (ground (arith, h))
then_ok (err e') t e b h = absurd (ground (arith, h))

IsPositive-ok : (x : Number) (n : ℕ) → assert_positive_integer x ≡ ok n → IsPositive n
unfolding assert_positive_integer
IsPositive-ok (integer m) n h = elim (Bool-cases (leb m max_safe_integer && not (m == 0))) [
  | inl t ↦ ground (arith, h, t)
  | inr f ↦ absurd (ground (arith, h, f))
]
IsPositive-ok other_number n h = absurd (ground (arith, h))

passes : (n : ℕ) → IsPositive n → (leb n max_safe_integer && not (n == 0)) ≡ true
passes n h = ground (arith, h)

at_most : (m n : ℕ) → m ≤ n → leb m n ≡ true
at_most m n h = ground (arith, h)

record IsRead (l : ResolvedRpcLimits) : Type 0 where
  frame : IsPositive l.max_frame_bytes
  buffer : IsPositive l.max_buffered_outbound_bytes
  pending : IsPositive l.max_pending_requests
  requests : IsPositive l.max_concurrent_requests
  events : IsPositive l.max_concurrent_events
  timeout : IsPositive l.request_timeout_ms
  max_timeout : IsPositive l.max_request_timeout_ms
  handshake : IsPositive l.handshake_timeout_ms
  heartbeat : IsPositive l.heartbeat_timeout_ms

abbrev IfOk : Result LimitError ResolvedRpcLimits → Type 0
IfOk (ok l) = IsRead l
IfOk (err e) = Unit

read_limits-IsRead : (input : RpcLimits) → IfOk (read_limits input)
unfolding read_limits
read_limits-IsRead input =
    let d = default_rpc_limits in
    let x0 = or_default input.max_frame_bytes d.max_frame_bytes in
    let x1 =
      or_default input.max_buffered_outbound_bytes
        (default_buffer (or_default input.max_frame_bytes d.max_frame_bytes)) in
    let x2 = or_default input.max_pending_requests d.max_pending_requests in
    let x3 = or_default input.max_concurrent_requests d.max_concurrent_requests in
    let x4 = or_default input.max_concurrent_events d.max_concurrent_events in
    let x5 = or_default input.request_timeout_ms d.request_timeout_ms in
    let x6 = or_default input.max_request_timeout_ms d.max_request_timeout_ms in
    let x7 = or_default input.handshake_timeout_ms d.handshake_timeout_ms in
    let x8 = or_default input.heartbeat_interval_ms d.heartbeat_interval_ms in
    let x9 = or_default input.heartbeat_timeout_ms d.heartbeat_timeout_ms in
    elim (Result-cases (assert_positive_integer x0)) [
      | inr (_, e) ↦ rw (e, read_limits) tt
      | inl (frame, e0) ↦ elim (Result-cases (assert_positive_integer x1)) [
        | inr (_, e) ↦ rw (e0, e, read_limits) tt
        | inl (buffered, e1) ↦ elim (Result-cases (assert_positive_integer x2)) [
          | inr (_, e) ↦ rw (e0, e1, e, read_limits) tt
          | inl (pending, e2) ↦ elim (Result-cases (assert_positive_integer x3)) [
            | inr (_, e) ↦ rw (e0, e1, e2, e, read_limits) tt
            | inl (requests, e3) ↦ elim (Result-cases (assert_positive_integer x4)) [
              | inr (_, e) ↦ rw (e0, e1, e2, e3, e, read_limits) tt
              | inl (events, e4) ↦ elim (Result-cases (assert_positive_integer x5)) [
                | inr (_, e) ↦ rw (e0, e1, e2, e3, e4, e, read_limits) tt
                | inl (timeout, e5) ↦ elim (Result-cases (assert_positive_integer x6)) [
                  | inr (_, e) ↦ rw (e0, e1, e2, e3, e4, e5, e, read_limits) tt
                  | inl (max_timeout, e6) ↦ elim (Result-cases (assert_positive_integer x7)) [
                    | inr (_, e) ↦ rw (e0, e1, e2, e3, e4, e5, e6, e, read_limits) tt
                    | inl (handshake, e7) ↦ elim (Result-cases (assert_nonnegative_integer x8)) [
                      | inr (_, e) ↦ rw (e0, e1, e2, e3, e4, e5, e6, e7, e, read_limits) tt
                      | inl (interval, e8) ↦ elim (Result-cases (assert_positive_integer x9)) [
                        | inr (_, e) ↦ rw (e0, e1, e2, e3, e4, e5, e6, e7, e8, e, read_limits) tt
                        | inl (heartbeat, e9) ↦
                            rw (e0, e1, e2, e3, e4, e5, e6, e7, e8, e9, read_limits)
                              (record {
                                frame = IsPositive-ok x0 frame e0;
                                buffer = IsPositive-ok x1 buffered e1;
                                pending = IsPositive-ok x2 pending e2;
                                requests = IsPositive-ok x3 requests e3;
                                events = IsPositive-ok x4 events e4;
                                timeout = IsPositive-ok x5 timeout e5;
                                max_timeout = IsPositive-ok x6 max_timeout e6;
                                handshake = IsPositive-ok x7 handshake e7;
                                heartbeat = IsPositive-ok x9 heartbeat e9;
                              })
                      ]
                    ]
                  ]
                ]
              ]
            ]
          ]
        ]
      ]
    ]

check_ranges-IsUsable : (l : ResolvedRpcLimits) → IsRead l → check_ranges l ≡ ok tt → IsUsable l
unfolding check_ranges assert_timer_range
check_ranges-IsUsable l r h =
    let (h1, heartbeat) = then_ok _ _ _ tt h in
    let (h2, request) = then_ok _ _ _ tt h1 in
    let (h3, heartbeat_timer) = then_ok _ _ _ tt h2 in
    let (h4, interval_timer) = then_ok _ _ _ tt h3 in
    let (h5, handshake_timer) = then_ok _ _ _ tt h4 in
    let (h6, max_timer) = then_ok _ _ _ tt h5 in
    let (h7, request_timer) = then_ok _ _ _ tt h6 in
    let (h8, buffer_high) = then_ok _ _ _ tt h7 in
    let (h9, buffer_low) = then_ok _ _ _ tt h8 in
    let (h10, frame_high) = then_ok _ _ _ tt h9 in
    let frame_low = then_ok (ok tt) _ _ tt h10 in
    record {
      frame = (ground (arith, frame_low), ground (arith, frame_high));
      buffer = (ground (arith, buffer_low), ground (arith, buffer_high));
      pending = r.pending;
      requests = r.requests;
      events = r.events;
      request_timeout = (r.timeout.0, ground (arith, request), ground (arith, max_timer));
      handshake = (r.handshake.0, ground (arith, handshake_timer));
      heartbeat = (
        r.heartbeat.0,
        ground (arith, heartbeat_timer),
        ground (arith, interval_timer),
        ground (arith, heartbeat),
      );
    }

given_passes : (l : ResolvedRpcLimits) → IsUsable l → resolve_rpc_limits (given l) ≡ ok l
unfolding resolve_rpc_limits read_limits check_ranges assert_timer_range assert_positive_integer
    assert_nonnegative_integer
given_passes l u =
    let (frame_low, frame_high) = u.frame in
    let (buffer_low, buffer_high) = u.buffer in
    let (request_pos, request_le, max_timer) = u.request_timeout in
    let (handshake_pos, handshake_timer) = u.handshake in
    let (heartbeat_pos, heartbeat_timer, interval_timer, heartbeat) = u.heartbeat in
    let beats : (l.heartbeat_interval_ms == 0 || ltb l.heartbeat_interval_ms l.heartbeat_timeout_ms)
        ≡ true =
      ground (arith, heartbeat) in
    rw
      (
        resolve_rpc_limits,
        passes l.max_frame_bytes (omega arith, omega arith),
        passes l.max_buffered_outbound_bytes (omega arith, omega arith),
        passes l.max_pending_requests u.pending,
        passes l.max_concurrent_requests u.requests,
        passes l.max_concurrent_events u.events,
        passes l.request_timeout_ms (omega arith, omega arith),
        passes l.max_request_timeout_ms (omega arith, omega arith),
        passes l.handshake_timeout_ms (omega arith, omega arith),
        at_most l.heartbeat_interval_ms max_safe_integer (omega arith),
        passes l.heartbeat_timeout_ms (omega arith, omega arith),
        at_most min_rpc_frame_bytes l.max_frame_bytes frame_low,
        at_most l.max_frame_bytes max_rpc_frame_bytes frame_high,
        at_most l.max_frame_bytes l.max_buffered_outbound_bytes buffer_low,
        at_most l.max_buffered_outbound_bytes max_rpc_frame_bytes buffer_high,
        at_most l.request_timeout_ms max_rpc_timer_ms (omega arith),
        at_most l.max_request_timeout_ms max_rpc_timer_ms max_timer,
        at_most l.handshake_timeout_ms max_rpc_timer_ms handshake_timer,
        at_most l.heartbeat_interval_ms max_rpc_timer_ms interval_timer,
        at_most l.heartbeat_timeout_ms max_rpc_timer_ms heartbeat_timer,
        at_most l.request_timeout_ms l.max_request_timeout_ms request_le,
        beats,
      )
      refl

-- Limits that `resolveRpcLimits` returns are usable together: a frame has 8 KiB to 64 MiB and fits the
-- buffer, which has at most 64 MiB; the numbers of requests and events are positive; every timer is in
-- the range of a timer, a request's is at most the longest, and a heartbeat that is on times out after
-- its interval. And resolving them again gives them back.
pub resolve_rpc_limits_lem :
    (input : RpcLimits) (l : ResolvedRpcLimits)
    → resolve_rpc_limits input ≡ ok l
    → IsUsable l × (resolve_rpc_limits (given l) ≡ ok l)
unfolding resolve_rpc_limits
resolve_rpc_limits_lem input l h =
    let (limits, read, h1) = bind_ok (read_limits input) _ l h in
    let (checked, ranges, same) = bind_ok (check_ranges limits) _ l h1 in
    let usable = check_ranges-IsUsable limits (subst IfOk read (read_limits-IsRead input)) ranges in
    let same' : ok limits ≡ ok l = same in
    let u =
      subst (λ r. elim r as (λ _. Type 0) [ ok x ↦ IsUsable x | err _ ↦ Unit ]) same' usable in
    (u, given_passes l u)
