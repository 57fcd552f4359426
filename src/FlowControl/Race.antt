-- ===== src/FlowControl/Race.antt =====
-- The pause of a connection after its reservation was refused, as begin_request_payload and
-- begin_stream_route of parser.cpp order the two, with a release on another thread in between.
use easy_uds.Prelude.{ℕ, ◌+◌, ◌^◌, ◌≡◌, ◌≢◌, ◌≤◌, ◌<◌, arith, true, false, [], ◌∷◌}
use easy_uds.Options.{ServerOptions}
use easy_uds.FlowControl.{
  Peer, Flow, pause_connection_reads, release_connection_request,
  try_reserve_connection_request_bytes,
}

-- A connection with these counters that is open and reads.
abbrev pub reading : ℕ → ℕ → ℕ → Peer
reading k requests bytes = record {
  key = k;
  registered = true;
  closing = false;
  read_paused = false;
  inflight = record { inflight_requests = requests; inflight_request_bytes = bytes };
  pending_serialized = 0;
}

-- Connection `a` has one request of `n` bytes in flight, all that the server has, and `b` has none.
abbrev pub one_in_flight : ℕ → ℕ → ℕ → Flow
one_in_flight a b n = record {
  total_inflight_request_bytes = n;
  peers = reading a 1 n ∷ reading b 0 0 ∷ [];
  resumed_connections = [];
  has_wakeup_fd = true;
  wake_pending = false;
  signals = 0;
}

-- Under a global budget, `b` asks for `m` bytes that fit its own budget but not beside the `n` bytes
-- of `a`, and is refused. If it pauses before `a` releases its bytes, then the release queues it
-- and signals the reactor. If it pauses after that release, it stays paused, unqueued and without a
-- signal, though nothing is in flight any more.
pub pause-after-release-Stuck :
    (options : ServerOptions) (a b n m : ℕ)
    → a ≢ b
    → 0 < n
    → n < 2 ^ 64
    → 0 < m
    → n ≤ options.max_total_inflight_bytes
    → options.max_total_inflight_bytes < n + m
    → m ≤ options.max_inflight_request_bytes_per_connection
    → options.max_inflight_request_bytes_per_connection < 2 ^ 64
    → let s = one_in_flight a b n in
      (try_reserve_connection_request_bytes options m
          (record { connection_bytes = 0; global_bytes = n })
        ≡ (false, record { connection_bytes = 0; global_bytes = n }))
      × (release_connection_request options a n (pause_connection_reads true b s) ≡ record {
        total_inflight_request_bytes = 0;
        peers = reading a 0 0 ∷ reading b 0 0 ∷ [];
        resumed_connections = b ∷ [];
        has_wakeup_fd = true;
        wake_pending = true;
        signals = 1;
      })
      × (pause_connection_reads true b (release_connection_request options a n s) ≡ record {
        total_inflight_request_bytes = 0;
        peers = reading a 0 0 ∷ (record (reading b 0 0) { read_paused = true }) ∷ [];
        resumed_connections = [];
        has_wakeup_fd = true;
        wake_pending = false;
        signals = 0;
      })
unfolding pause_connection_reads release_connection_request try_reserve_connection_request_bytes
pause-after-release-Stuck options a b n m distinct some_bytes small m_positive held over fits
      limit =
    (ground arith, ground arith, ground arith)
