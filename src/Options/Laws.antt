-- ===== src/Options/Laws.antt =====
-- What the option checks are for.
use easy_uds.Prelude.{
  ◌+◌, ◌≤◌, ◌<◌, ◌≡◌, ◌↔◌, ◌⊎◌, true, false, ok, arith, checks-pass, pass-checks,
}
use easy_uds.Protocol.{max_wire_field, header_size}
use easy_uds.Options.{
  is_negative, is_positive, valid_stats, ServerOptions, validate_server_options,
  server_option_checks, ClientOptions, validate_client_options, client_option_checks,
}

-- The size limits of a server, each in terms of the largest message.
pub record HasSizes (o : ServerOptions) : Type 0 where
  pub message_positive : 0 < o.max_message_size
  pub message_on_wire : o.max_message_size ≤ max_wire_field
  pub connection_fits_message : o.max_message_size ≤ o.max_inflight_request_bytes_per_connection
  pub output_fits_frame : o.max_message_size + header_size ≤ o.max_output_bytes_per_connection
  pub total_fits_message :
      (o.max_total_inflight_bytes ≡ 0) ⊎ (o.max_message_size ≤ o.max_total_inflight_bytes)
  pub total_output_fits_frame :
      (o.max_total_output_bytes ≡ 0)
      ⊎ ((o.max_message_size + header_size ≤ max_wire_field)
          × (o.max_message_size + header_size ≤ o.max_total_output_bytes))
  pub chunk_positive : 0 < o.stream_chunk_size
  pub chunk_on_wire : o.stream_chunk_size ≤ max_wire_field

-- The counts of a server.
pub record HasCounts (o : ServerOptions) : Type 0 where
  pub workers : 0 < o.worker_threads
  pub connections : o.worker_threads ≤ o.max_connections
  pub requests : 0 < o.max_inflight_requests_per_connection
  pub streams : o.max_concurrent_streams ≤ o.worker_threads
  pub permissions : o.socket_permissions ≤ 0o777
  pub backlog : is_positive o.listen_backlog ≡ true
  pub stats_known : valid_stats o.stats ≡ true

-- The timeouts of a server.
pub record HasTimeouts (o : ServerOptions) : Type 0 where
  pub io : is_negative o.io_timeout ≡ false
  pub request : is_negative o.request_timeout ≡ false
  pub stream : is_negative o.stream_timeout ≡ false
  pub grace : is_negative o.session_idle_grace ≡ false
  pub stale : is_negative o.stale_socket_grace_period ≡ false

pub record IsValid (o : ServerOptions) : Type 0 where
  pub sizes : HasSizes o
  pub counts : HasCounts o
  pub timeouts : HasTimeouts o

-- The checks accept the options of a server exactly when all that the fields of `IsValid` promise
-- holds.
pub validate_server_options_iff :
    (o : ServerOptions) → (validate_server_options o ≡ ok tt) ↔ IsValid o
unfolding validate_server_options
validate_server_options_iff o = (
  (λ h.
      let pass = checks-pass (server_option_checks o) h in
      record { sizes = ground arith; counts = ground arith; timeouts = ground arith }),
  (λ v. pass-checks (server_option_checks o) (ground arith)),
)

pub record IsValidClient (o : ClientOptions) : Type 0 where
  pub message_positive : 0 < o.max_message_size
  pub message_on_wire : o.max_message_size ≤ max_wire_field
  pub chunk_positive : 0 < o.stream_chunk_size
  pub chunk_on_wire : o.stream_chunk_size ≤ max_wire_field
  pub connect : is_negative o.connect_timeout ≡ false
  pub io : is_negative o.io_timeout ≡ false
  pub request : is_negative o.request_timeout ≡ false
  pub stream : is_negative o.stream_timeout ≡ false
  pub known_version : (o.protocol_version ≡ 2) ⊎ (o.protocol_version ≡ 3)
  pub stats_known : valid_stats o.stats ≡ true

-- The checks accept the options of a client exactly when all that the fields of `IsValidClient`
-- promise holds.
pub validate_client_options_iff :
    (o : ClientOptions) → (validate_client_options o ≡ ok tt) ↔ IsValidClient o
unfolding validate_client_options
validate_client_options_iff o = (
  (λ h. let pass = checks-pass (client_option_checks o) h in ground arith),
  (λ v. pass-checks (client_option_checks o) (ground arith)),
)
