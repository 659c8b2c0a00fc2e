-- ===== src/Limits/Tests.antt =====
-- The limits that are taken where none are given.
use moshu.Common.{◌≡◌, refl, none}
use moshu.Common.Result.{ok}
use moshu.Limits.{
  assert_nonnegative_integer, assert_positive_integer, RpcLimits, default_rpc_limits,
  resolve_rpc_limits,
}
use moshu.Limits.Resolved.{IsUsable, given, resolve_rpc_limits_lem}

abbrev nothing_given : RpcLimits
nothing_given = record {
  max_frame_bytes = none;
  max_buffered_outbound_bytes = none;
  max_pending_requests = none;
  max_concurrent_requests = none;
  max_concurrent_events = none;
  request_timeout_ms = none;
  max_request_timeout_ms = none;
  handshake_timeout_ms = none;
  heartbeat_interval_ms = none;
  heartbeat_timeout_ms = none;
}

resolve_rpc_limits_lem_example :
    IsUsable default_rpc_limits
    × (resolve_rpc_limits (given default_rpc_limits) ≡ ok default_rpc_limits)
unfolding resolve_rpc_limits assert_positive_integer assert_nonnegative_integer
resolve_rpc_limits_lem_example = resolve_rpc_limits_lem nothing_given default_rpc_limits refl
