-- ===== src/Limits.antt =====
-- packages/process-rpc-core/src/limits.ts: the limits of a connection, from the ones that are given. A
-- given limit is any JavaScript number; of those that are no nonnegative safe integer it matters only
-- that they are none.
pub mod Resolved
mod Tests
use moshu.Common.{
  ℕ, ◌*◌, max, Bool, true, false, not, ◌&&◌, ◌||◌, ltb, leb, ◌==◌, if◌then◌else◌, Option, none,
  some,
}
use moshu.Common.Result.{Result, ok, err, ◌>>=◌, ◌>>◌, require}

-- `integer` is a nonnegative safe integer; `other_number` is negative, too large, fractional or NaN.
pub data Number : Type 0 where
  integer : ℕ → Number
  other_number : Number

pub record RpcLimits : Type 0 where
  pub max_frame_bytes : Option Number
  pub max_buffered_outbound_bytes : Option Number
  pub max_pending_requests : Option Number
  pub max_concurrent_requests : Option Number
  pub max_concurrent_events : Option Number
  pub request_timeout_ms : Option Number
  pub max_request_timeout_ms : Option Number
  pub handshake_timeout_ms : Option Number
  pub heartbeat_interval_ms : Option Number
  pub heartbeat_timeout_ms : Option Number

pub record ResolvedRpcLimits : Type 0 where
  pub max_frame_bytes : ℕ
  pub max_buffered_outbound_bytes : ℕ
  pub max_pending_requests : ℕ
  pub max_concurrent_requests : ℕ
  pub max_concurrent_events : ℕ
  pub request_timeout_ms : ℕ
  pub max_request_timeout_ms : ℕ
  pub handshake_timeout_ms : ℕ
  pub heartbeat_interval_ms : ℕ
  pub heartbeat_timeout_ms : ℕ

pub data LimitError : Type 0 where
  not_positive_integer not_nonnegative_integer frame_too_small frame_too_large buffer_too_small
        buffer_too_large :
      LimitError
  timer_too_long request_timeout_too_long heartbeat_timeout_too_short : LimitError

abbrev pub max_safe_integer : ℕ
max_safe_integer = 0x1fffffffffffff

abbrev pub max_rpc_frame_bytes : ℕ
max_rpc_frame_bytes = 64 * 1024 * 1024

abbrev pub min_rpc_frame_bytes : ℕ
min_rpc_frame_bytes = 8 * 1024

abbrev pub max_rpc_timer_ms : ℕ
max_rpc_timer_ms = 0x7fffffff

abbrev pub default_rpc_limits : ResolvedRpcLimits
default_rpc_limits = record {
  max_frame_bytes = 1024 * 1024;
  max_buffered_outbound_bytes = 4 * 1024 * 1024;
  max_pending_requests = 256;
  max_concurrent_requests = 128;
  max_concurrent_events = 128;
  request_timeout_ms = 30000;
  max_request_timeout_ms = 5 * 60000;
  handshake_timeout_ms = 5000;
  heartbeat_interval_ms = 15000;
  heartbeat_timeout_ms = 45000;
}

-- `value ?? default`
abbrev pub or_default : Option Number → ℕ → Number
or_default none d = integer d
or_default (some x) d = x

unfoldable pub assert_positive_integer : Number → Result LimitError ℕ
assert_positive_integer (integer n) =
    if leb n max_safe_integer && not (n == 0) then ok n else err not_positive_integer
assert_positive_integer other_number = err not_positive_integer

unfoldable pub assert_nonnegative_integer : Number → Result LimitError ℕ
assert_nonnegative_integer (integer n) =
    if leb n max_safe_integer then ok n else err not_nonnegative_integer
assert_nonnegative_integer other_number = err not_nonnegative_integer

-- `Math.max(default, maxFrameBytes)`; what comes of a frame that is no integer is refused with it.
abbrev pub default_buffer : Number → ℕ
default_buffer (integer frame) = max default_rpc_limits.max_buffered_outbound_bytes frame
default_buffer other_number = 0

unfoldable pub assert_timer_range : ℕ → Result LimitError (Unit {0})
assert_timer_range value = require (leb value max_rpc_timer_ms) timer_too_long

-- The checks of one limit against the others.
unfoldable pub check_ranges : ResolvedRpcLimits → Result LimitError (Unit {0})
unfolding assert_timer_range
check_ranges l =
    require (leb min_rpc_frame_bytes l.max_frame_bytes) frame_too_small
    >> require (leb l.max_frame_bytes max_rpc_frame_bytes) frame_too_large
    >> require (leb l.max_frame_bytes l.max_buffered_outbound_bytes) buffer_too_small
    >> require (leb l.max_buffered_outbound_bytes max_rpc_frame_bytes) buffer_too_large
    >> assert_timer_range l.request_timeout_ms
    >> assert_timer_range l.max_request_timeout_ms
    >> assert_timer_range l.handshake_timeout_ms
    >> assert_timer_range l.heartbeat_interval_ms
    >> assert_timer_range l.heartbeat_timeout_ms
    >> require (leb l.request_timeout_ms l.max_request_timeout_ms) request_timeout_too_long
    >> require (l.heartbeat_interval_ms == 0 || ltb l.heartbeat_interval_ms l.heartbeat_timeout_ms)
        heartbeat_timeout_too_short

unfoldable pub read_limits : RpcLimits → Result LimitError ResolvedRpcLimits
read_limits input =
    let d = default_rpc_limits in
    let frame = or_default input.max_frame_bytes d.max_frame_bytes in
    do
      frame_bytes ← assert_positive_integer frame
      buffered ←
          assert_positive_integer
            (or_default input.max_buffered_outbound_bytes (default_buffer frame))
      pending ←
          assert_positive_integer (or_default input.max_pending_requests d.max_pending_requests)
      requests ←
          assert_positive_integer
            (or_default input.max_concurrent_requests d.max_concurrent_requests)
      events ←
          assert_positive_integer (or_default input.max_concurrent_events d.max_concurrent_events)
      timeout ← assert_positive_integer (or_default input.request_timeout_ms d.request_timeout_ms)
      max_timeout ←
          assert_positive_integer (or_default input.max_request_timeout_ms d.max_request_timeout_ms)
      handshake ←
          assert_positive_integer (or_default input.handshake_timeout_ms d.handshake_timeout_ms)
      interval ←
          assert_nonnegative_integer
            (or_default input.heartbeat_interval_ms d.heartbeat_interval_ms)
      heartbeat ←
          assert_positive_integer (or_default input.heartbeat_timeout_ms d.heartbeat_timeout_ms)
      ok (record {
        max_frame_bytes = frame_bytes;
        max_buffered_outbound_bytes = buffered;
        max_pending_requests = pending;
        max_concurrent_requests = requests;
        max_concurrent_events = events;
        request_timeout_ms = timeout;
        max_request_timeout_ms = max_timeout;
        handshake_timeout_ms = handshake;
        heartbeat_interval_ms = interval;
        heartbeat_timeout_ms = heartbeat;
      })

unfoldable pub resolve_rpc_limits : RpcLimits → Result LimitError ResolvedRpcLimits
unfolding read_limits check_ranges
resolve_rpc_limits input = do limits ← read_limits input; checked ← check_ranges limits; ok limits
