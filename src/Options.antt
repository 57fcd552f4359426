-- ===== src/Options.antt =====
-- easy_uds/options.hpp and the option checks of transport/io.hpp.
pub mod Laws
mod Tests
use easy_uds.Prelude.{
  ℕ, String, ◌+◌, ◌-◌, ◌^◌, ◌*◌, Bool, true, false, not, ◌&&◌, ◌||◌, List, [], ◌∷◌, ltb, leb, ◌==◌,
  ◌++◌, Exception, invalid_argument, Result, checks,
}
use easy_uds.Protocol.{max_wire_field, header_size}

-- `StatsMode`; a cast can make other values.
pub data StatsMode : Type 0 where
  disabled basic : StatsMode
  unnamed : ℕ → StatsMode

-- A signed count: `std::chrono::milliseconds`, or an `int`. `negsuc n` is -(n + 1).
pub data Count : Type 0 where
  pos : ℕ → Count
  negsuc : ℕ → Count

abbrev pub is_negative : Count → Bool
is_negative (pos n) = false
is_negative (negsuc n) = true

abbrev pub is_positive : Count → Bool
is_positive (pos n) = ltb 0 n
is_positive (negsuc n) = false

abbrev pub valid_stats : StatsMode → Bool
valid_stats disabled = true
valid_stats basic = true
valid_stats (unnamed n) = false

abbrev pub max_size : ℕ
max_size = 2 ^ 64 - 1

-- The callback `authorize_request` is left out.
pub record ServerOptions : Type 0 where
  pub worker_threads : ℕ
  pub max_connections : ℕ
  pub max_message_size : ℕ
  pub stream_chunk_size : ℕ
  pub max_stream_size : ℕ
  pub max_total_inflight_bytes : ℕ
  pub max_total_output_bytes : ℕ
  pub max_inflight_requests_per_connection : ℕ
  pub max_inflight_request_bytes_per_connection : ℕ
  pub max_output_bytes_per_connection : ℕ
  pub max_concurrent_streams : ℕ
  pub max_concurrent_serialized_domains : ℕ
  pub io_timeout : Count
  pub request_timeout : Count
  pub stream_timeout : Count
  pub session_idle_grace : Count
  pub stale_socket_grace_period : Count
  pub listen_backlog : Count
  pub socket_permissions : ℕ
  pub include_handler_error_messages : Bool
  pub stats : StatsMode

abbrev pub default_max_message_size : ℕ
default_max_message_size = 1024 * 1024

abbrev pub default_server_options : ServerOptions
default_server_options = record {
  worker_threads = 4;
  max_connections = 64;
  max_message_size = default_max_message_size;
  stream_chunk_size = 64 * 1024;
  max_stream_size = 1024 * 1024 * 1024;
  max_total_inflight_bytes = 0;
  max_total_output_bytes = 0;
  max_inflight_requests_per_connection = 64;
  max_inflight_request_bytes_per_connection = 4 * 1024 * 1024;
  max_output_bytes_per_connection = 4 * 1024 * 1024;
  max_concurrent_streams = 0;
  max_concurrent_serialized_domains = 0;
  io_timeout = pos 5000;
  request_timeout = pos 30000;
  stream_timeout = pos 0;
  session_idle_grace = pos 1;
  stale_socket_grace_period = pos 250;
  listen_backlog = pos 64;
  socket_permissions = 0o600;
  include_handler_error_messages = true;
  stats = disabled;
}

pub record ClientOptions : Type 0 where
  pub max_message_size : ℕ
  pub stream_chunk_size : ℕ
  pub max_stream_size : ℕ
  pub connect_timeout : Count
  pub io_timeout : Count
  pub request_timeout : Count
  pub stream_timeout : Count
  pub stats : StatsMode
  pub protocol_version : ℕ

abbrev pub default_client_options : ClientOptions
default_client_options = record {
  max_message_size = default_max_message_size;
  stream_chunk_size = 64 * 1024;
  max_stream_size = 1024 * 1024 * 1024;
  connect_timeout = pos 2000;
  io_timeout = pos 5000;
  request_timeout = pos 30000;
  stream_timeout = pos 0;
  stats = disabled;
  protocol_version = 2;
}

abbrev max_message_size_check : ℕ → Bool × Exception
max_message_size_check size = (
  size == 0 || ltb max_wire_field size,
  invalid_argument "max_message_size must be between 1 and UINT32_MAX bytes",
)

abbrev nonnegative_check : Count → String → Bool × Exception
nonnegative_check timeout message = (is_negative timeout, invalid_argument message)

abbrev stream_options_checks : ℕ → Count → List (Bool × Exception)
stream_options_checks chunk_size stream_timeout =
    (
      chunk_size == 0 || ltb max_wire_field chunk_size,
      invalid_argument "stream_chunk_size must be between 1 and UINT32_MAX bytes",
    )
    ∷ nonnegative_check stream_timeout "stream_timeout must not be negative"
    ∷ []

abbrev stats_check : StatsMode → Bool × Exception
stats_check mode = (
  not (valid_stats mode),
  invalid_argument "stats must be StatsMode::disabled or StatsMode::basic",
)

-- The statements of `validate_server_options`, in their order.
abbrev pub server_option_checks : ServerOptions → List (Bool × Exception)
server_option_checks o =
    max_message_size_check o.max_message_size
      ∷ (o.worker_threads == 0, invalid_argument "worker_threads must be greater than zero")
      ∷ stats_check o.stats
      ∷ (o.max_connections == 0, invalid_argument "max_connections must be greater than zero")
      ∷ (
        o.max_inflight_requests_per_connection == 0,
        invalid_argument "max_inflight_requests_per_connection must be greater than zero",
      )
      ∷ (
        ltb o.max_inflight_request_bytes_per_connection o.max_message_size,
        invalid_argument
            "max_inflight_request_bytes_per_connection must be at least max_message_size",
      )
      ∷ (
        ltb (max_size - header_size) o.max_message_size
            || ltb o.max_output_bytes_per_connection (o.max_message_size + header_size),
        invalid_argument "max_output_bytes_per_connection must fit one maximum response frame",
      )
      ∷ (
        not (o.max_total_inflight_bytes == 0) && ltb o.max_total_inflight_bytes o.max_message_size,
        invalid_argument "max_total_inflight_bytes must be zero or at least max_message_size",
      )
      ∷ (
        not (o.max_total_output_bytes == 0)
            && (ltb (max_wire_field - header_size) o.max_message_size
                || ltb o.max_total_output_bytes (o.max_message_size + header_size)),
        invalid_argument
            "max_total_output_bytes must be zero or large enough for one maximum response frame",
      )
      ∷ (
        ltb o.max_connections o.worker_threads,
        invalid_argument "worker_threads must not exceed max_connections",
      )
      ∷ (
        ltb o.worker_threads o.max_concurrent_streams,
        invalid_argument "max_concurrent_streams must not exceed worker_threads",
      )
      ∷ (
        not (is_positive o.listen_backlog),
        invalid_argument "listen_backlog must be greater than zero",
      )
      ∷ nonnegative_check o.io_timeout "io_timeout must not be negative"
      ∷ nonnegative_check o.request_timeout "request_timeout must not be negative"
      ∷ stream_options_checks o.stream_chunk_size o.stream_timeout
    ++ nonnegative_check o.session_idle_grace "session_idle_grace must not be negative"
      ∷ nonnegative_check o.stale_socket_grace_period
          "stale_socket_grace_period must not be negative"
      ∷ (
        ltb 0o777 o.socket_permissions,
        invalid_argument "socket_permissions must be an octal permission mask from 0000 to 0777",
      )
      ∷ []

unfoldable pub validate_server_options : ServerOptions → Result (Unit {0})
validate_server_options o = checks (server_option_checks o)

-- The statements of `validate_client_options`, in their order.
abbrev pub client_option_checks : ClientOptions → List (Bool × Exception)
client_option_checks o =
    max_message_size_check o.max_message_size
      ∷ nonnegative_check o.connect_timeout "connect_timeout must not be negative"
      ∷ nonnegative_check o.io_timeout "io_timeout must not be negative"
      ∷ nonnegative_check o.request_timeout "request_timeout must not be negative"
      ∷ stream_options_checks o.stream_chunk_size o.stream_timeout
    ++ (
      not (o.protocol_version == 2) && not (o.protocol_version == 3),
      invalid_argument "protocol_version must be 2 or 3",
    )
      ∷ stats_check o.stats
      ∷ []

unfoldable pub validate_client_options : ClientOptions → Result (Unit {0})
validate_client_options o = checks (client_option_checks o)
