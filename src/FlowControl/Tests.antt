-- ===== src/FlowControl/Tests.antt =====
-- Flow control at concrete values: the default options, with a budget of 1000 bytes where a test
-- needs a global one.
use easy_uds.Prelude.{◌≡◌, ◌⊎◌, refl, arith, true, false, [], ◌∷◌, ok}
use easy_uds.Options.{ServerOptions, default_server_options, validate_server_options}
use easy_uds.Options.Laws.{validate_server_options_iff}
use easy_uds.FlowControl.{
  Inflight, Flow, Budget, below_resume_watermark, above_pause_watermark,
  try_reserve_connection_request_bytes, pause_connection_reads, release_connection_request,
}
use easy_uds.FlowControl.Reservation.{IsWithin, Fits, reserved, try_reserve-exact}
use easy_uds.FlowControl.Resume.{watermarks-Disjoint}
use easy_uds.FlowControl.Race.{reading, one_in_flight, pause-after-release-Stuck}

abbrev tight : ServerOptions
tight = record default_server_options { max_total_inflight_bytes = 1000 }

abbrev some_used : Budget
some_used = record { connection_bytes = 300; global_bytes = 400 }

try_reserve_run : try_reserve_connection_request_bytes tight 700 some_used ≡ (false, some_used)
unfolding try_reserve_connection_request_bytes
try_reserve_run = refl

try_reserve-exact_example :
    (Fits tight 600 some_used
      × (try_reserve_connection_request_bytes tight 600 some_used ≡ (true, reserved 600 some_used))
      × IsWithin tight (reserved 600 some_used))
    ⊎ ((¬ Fits tight 600 some_used)
        × (try_reserve_connection_request_bytes tight 600 some_used ≡ (false, some_used)))
try_reserve-exact_example = try_reserve-exact tight 600 some_used (omega arith) (record {
  connection_within = omega arith;
  global_within = omega arith;
  connection_size = omega arith;
  global_size = omega arith;
})

-- All the requests that a connection may have.
abbrev full : Inflight
full = record {
  inflight_requests = default_server_options.max_inflight_requests_per_connection;
  inflight_request_bytes = 0;
}

above_full : above_pause_watermark default_server_options 0 full ≡ true
unfolding above_pause_watermark
above_full = refl

default_valid : validate_server_options default_server_options ≡ ok tt
unfolding validate_server_options
default_valid = refl

watermarks-Disjoint_example : below_resume_watermark default_server_options 0 full ≡ false
watermarks-Disjoint_example =
    watermarks-Disjoint default_server_options 0 full
      ((validate_server_options_iff default_server_options).0 default_valid) above_full

abbrev paused_peer : Flow
paused_peer = pause_connection_reads true 2 (one_in_flight 1 2 900)

pause-after-release-Stuck_example :
    (try_reserve_connection_request_bytes tight 500
        (record { connection_bytes = 0; global_bytes = 900 })
      ≡ (false, record { connection_bytes = 0; global_bytes = 900 }))
    × (release_connection_request tight 1 900
          (pause_connection_reads true 2 (one_in_flight 1 2 900))
        ≡ record {
          total_inflight_request_bytes = 0;
          peers = reading 1 0 0 ∷ reading 2 0 0 ∷ [];
          resumed_connections = 2 ∷ [];
          has_wakeup_fd = true;
          wake_pending = true;
          signals = 1;
        })
    × (pause_connection_reads true 2
          (release_connection_request tight 1 900 (one_in_flight 1 2 900))
        ≡ record {
          total_inflight_request_bytes = 0;
          peers = reading 1 0 0 ∷ (record (reading 2 0 0) { read_paused = true }) ∷ [];
          resumed_connections = [];
          has_wakeup_fd = true;
          wake_pending = false;
          signals = 0;
        })
pause-after-release-Stuck_example =
    pause-after-release-Stuck tight 1 2 900 500 (omega arith) (omega arith) (omega arith)
      (omega arith) (omega arith) (omega arith) (omega arith) (omega arith)
