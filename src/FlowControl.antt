-- ===== src/FlowControl.antt =====
-- reactor/flow_control.cpp: the request budgets of the connections and of the server, the two
-- watermarks, and the pause and the resumption of reads. One call runs as a whole, between those
-- of the other threads. `size_t` wraps. `readiness::signal` counts its calls.
pub mod Reservation
pub mod Resume
pub mod Race
mod Tests
use easy_uds.Prelude.{
  ℕ, ◌+◌, ◌-◌, ◌/◌, ◌%◌, ◌^◌, ◌≡◌, Bool, true, false, not, ◌&&◌, ◌||◌, List, [], ◌∷◌, ◌++◌, map,
  ◌==◌, ltb, leb, min, if◌then◌else◌,
}
use easy_uds.Options.{ServerOptions}

abbrev pub size_modulus : ℕ
size_modulus = 2 ^ 64

abbrev pub fetch_add : ℕ → ℕ → ℕ
fetch_add a n = (a + n) % size_modulus

abbrev pub fetch_sub : ℕ → ℕ → ℕ
fetch_sub a n = (a + size_modulus - n) % size_modulus

-- The counters of one connection.
pub record Inflight : Type 0 where
  pub inflight_requests : ℕ
  pub inflight_request_bytes : ℕ

-- A connection: `key` stands for its identity, and `registered` says that the map of the
-- connections still holds it.
pub record Peer : Type 0 where
  pub key : ℕ
  pub registered : Bool
  pub closing : Bool
  pub read_paused : Bool
  pub inflight : Inflight
  pub pending_serialized : ℕ

pub record Flow : Type 0 where
  pub total_inflight_request_bytes : ℕ
  pub peers : List Peer
  pub resumed_connections : List ℕ
  pub has_wakeup_fd : Bool
  pub wake_pending : Bool
  pub signals : ℕ

abbrev pub inflight_byte_limit : ServerOptions → ℕ
inflight_byte_limit options = options.max_inflight_request_bytes_per_connection

unfoldable pub below_resume_watermark : ServerOptions → ℕ → Inflight → Bool
below_resume_watermark options total inflight =
    (options.max_total_inflight_bytes == 0 || leb total (options.max_total_inflight_bytes / 2))
    && leb inflight.inflight_requests (options.max_inflight_requests_per_connection / 2)
    && leb inflight.inflight_request_bytes (inflight_byte_limit options / 2)

unfoldable pub above_pause_watermark : ServerOptions → ℕ → Inflight → Bool
above_pause_watermark options total inflight =
    (not (options.max_total_inflight_bytes == 0) && leb options.max_total_inflight_bytes total)
    || leb options.max_inflight_requests_per_connection inflight.inflight_requests
    || leb (inflight_byte_limit options) inflight.inflight_request_bytes

-- The budgets that `try_reserve_connection_request_bytes` moves: the connection's and the server's.
pub record Budget : Type 0 where
  pub connection_bytes : ℕ
  pub global_bytes : ℕ

-- What the test after the first loop decides, and then the second loop and the rollback.
unfoldable pub try_reserve_global : ServerOptions → ℕ → Budget → Bool × Budget
try_reserve_global options request_bytes b =
    if leb b.global_bytes options.max_total_inflight_bytes
      && leb request_bytes (options.max_total_inflight_bytes - b.global_bytes)
    then (true, record b { global_bytes = fetch_add b.global_bytes request_bytes })
    else (false, record b { connection_bytes = fetch_sub b.connection_bytes request_bytes })

unfoldable pub try_reserve_connection_request_bytes : ServerOptions → ℕ → Budget → Bool × Budget
unfolding try_reserve_global
try_reserve_connection_request_bytes options request_bytes b =
    let connection_limit = inflight_byte_limit options in
    let exchanged =
      if leb request_bytes (connection_limit - min b.connection_bytes connection_limit)
      then record b { connection_bytes = fetch_add b.connection_bytes request_bytes }
      else b in
    if request_bytes == 0
    then (true, b)
    else if ltb connection_limit b.connection_bytes
        || ltb (connection_limit - b.connection_bytes) request_bytes
    then (false, exchanged)
    else try_reserve_global options request_bytes exchanged

abbrev pub update : ℕ → (Peer → Peer) → List Peer → List Peer
update k f [] = []
update k f (p ∷ ps) = (if p.key == k then f p else p) ∷ update k f ps

unfoldable pub wake_reactor : Flow → Flow
wake_reactor s =
    if not s.has_wakeup_fd
    then s
    else if s.wake_pending
    then s
    else record s { wake_pending = true; signals = s.signals + 1 }

-- The connections that `resume_paused_connections` looks at: without a global budget the released
-- one, if the map holds it, and else all of the map.
abbrev pub considered : ServerOptions → ℕ → Peer → Bool
considered options released p =
    p.registered && (not (options.max_total_inflight_bytes == 0) || p.key == released)

-- The test of `queue_if_ready`.
unfoldable pub is_ready : ServerOptions → ℕ → Peer → Bool
unfolding below_resume_watermark
is_ready options total p =
    not (not p.read_paused || p.closing || not (below_resume_watermark options total p.inflight))

unfoldable pub resume_peers : ServerOptions → ℕ → ℕ → List Peer → List Peer
unfolding is_ready
resume_peers options released total [] = []
resume_peers options released total (p ∷ ps) =
    (if considered options released p && is_ready options total p
      then record p { read_paused = false }
      else p)
    ∷ resume_peers options released total ps

-- The list's order stands for the order of the map.
unfoldable pub resumed_keys : ServerOptions → ℕ → ℕ → List Peer → List ℕ
unfolding is_ready
resumed_keys options released total [] = []
resumed_keys options released total (p ∷ ps) =
    let rest = resumed_keys options released total ps in
    if considered options released p && is_ready options total p then p.key ∷ rest else rest

abbrev pub is_empty : List ℕ → Bool
is_empty [] = true
is_empty (x ∷ xs) = false

unfoldable pub resume_paused_connections : ServerOptions → ℕ → Flow → Flow
unfolding resume_peers resumed_keys wake_reactor
resume_paused_connections options released s =
    let refresh = resumed_keys options released s.total_inflight_request_bytes s.peers in
    let resumed = record s {
      peers = resume_peers options released s.total_inflight_request_bytes s.peers;
      resumed_connections = s.resumed_connections ++ refresh;
    } in
    if is_empty refresh then resumed else wake_reactor resumed

abbrev pub sub_bytes : ℕ → Peer → Peer
sub_bytes n p = record p {
  inflight = record (p.inflight) {
    inflight_request_bytes = fetch_sub p.inflight.inflight_request_bytes n;
  };
}

abbrev pub sub_request : ℕ → Peer → Peer
sub_request n p = record p {
  inflight = record {
    inflight_requests = fetch_sub p.inflight.inflight_requests 1;
    inflight_request_bytes = fetch_sub p.inflight.inflight_request_bytes n;
  };
}

abbrev pub add_request : ℕ → Peer → Peer
add_request n p = record p {
  inflight = record {
    inflight_requests = fetch_add p.inflight.inflight_requests 1;
    inflight_request_bytes = fetch_add p.inflight.inflight_request_bytes n;
  };
}

unfoldable pub release_connection_request_bytes : ServerOptions → ℕ → ℕ → Flow → Flow
unfolding resume_paused_connections
release_connection_request_bytes options k n s =
    if n == 0
    then s
    else resume_paused_connections options k (record s {
      total_inflight_request_bytes = fetch_sub s.total_inflight_request_bytes n;
      peers = update k (sub_bytes n) s.peers;
    })

unfoldable pub account_connection_request : ℕ → ℕ → Flow → Flow
account_connection_request k n s = record s {
  total_inflight_request_bytes = fetch_add s.total_inflight_request_bytes n;
  peers = update k (add_request n) s.peers;
}

abbrev pub add_count : Peer → Peer
add_count p = record p {
  inflight = record (p.inflight) { inflight_requests = fetch_add p.inflight.inflight_requests 1 };
}

unfoldable pub account_connection_request_count : ℕ → Flow → Flow
account_connection_request_count k s = record s { peers = update k add_count s.peers }

unfoldable pub release_connection_request : ServerOptions → ℕ → ℕ → Flow → Flow
unfolding resume_paused_connections
release_connection_request options k n s = resume_paused_connections options k (record s {
  total_inflight_request_bytes = fetch_sub s.total_inflight_request_bytes n;
  peers = update k (sub_request n) s.peers;
})

-- `refreshed` is the answer of `refresh_connection_events`.
unfoldable pub pause_peer : Bool → Peer → Peer
pause_peer refreshed p =
    if p.registered && not p.read_paused
    then record p { read_paused = true; closing = p.closing || not refreshed }
    else p

unfoldable pub pause_connection_reads : Bool → ℕ → Flow → Flow
unfolding pause_peer
pause_connection_reads refreshed k s = record s { peers = update k (pause_peer refreshed) s.peers }

-- The caller holds the connection `p`, which the flow has under its key. The second test, under the
-- mutex, is the first one again where no other thread runs in between.
unfoldable pub pause_connection_reads_if_needed : ServerOptions → Bool → Peer → Flow → Bool × Flow
unfolding pause_connection_reads above_pause_watermark
pause_connection_reads_if_needed options refreshed p s =
    if not (above_pause_watermark options s.total_inflight_request_bytes p.inflight)
    then (false, s)
    else if p.registered && above_pause_watermark options s.total_inflight_request_bytes p.inflight
    then (true, pause_connection_reads refreshed p.key s)
    else (false, s)
