-- ===== src/Errors.antt =====
-- core/error.cpp: what the failure classes are called, and which class a system error belongs to.
use easy_uds.Prelude.{
  ℕ, String, ErrorCode, system, timeout, closed, protocol, busy, too_large, invalid_request,
  unavailable, cancelled, Exception, error,
}

-- The conditions of `std::errc` that the code tells apart; `other` is any further code.
pub data Errc : Type 0 where
  timed_out connection_aborted connection_reset broken_pipe not_connected : Errc
  address_in_use device_or_resource_busy resource_unavailable_try_again : Errc
  no_such_file_or_directory connection_refused network_unreachable host_unreachable : Errc
  message_size operation_canceled : Errc
  other : ℕ → Errc

unfoldable pub classify_system_error : Errc → ErrorCode
classify_system_error timed_out = timeout
classify_system_error connection_aborted = closed
classify_system_error connection_reset = closed
classify_system_error broken_pipe = closed
classify_system_error not_connected = closed
classify_system_error address_in_use = busy
classify_system_error device_or_resource_busy = busy
classify_system_error resource_unavailable_try_again = busy
classify_system_error no_such_file_or_directory = unavailable
classify_system_error connection_refused = unavailable
classify_system_error network_unreachable = unavailable
classify_system_error host_unreachable = unavailable
classify_system_error message_size = too_large
classify_system_error operation_canceled = cancelled
classify_system_error (other n) = system

-- `throw_system_error`: the exception that it throws.
unfoldable pub system_error : String → Errc → Exception
unfolding classify_system_error
system_error operation code = error (classify_system_error code) operation

-- `EasyUdsErrorCategory::message`, of a value that names a class.
unfoldable pub message : ErrorCode → String
message system = "system error"
message timeout = "operation timed out"
message closed = "connection closed"
message protocol = "protocol error"
message busy = "resource busy"
message too_large = "message too large"
message invalid_request = "invalid request"
message unavailable = "service unavailable"
message cancelled = "operation cancelled"
