-- ===== src/Parser/Clients.antt =====
-- The requests that clients write with `write_request_frame` of transport/transport.hpp, and what the
-- server's host sees of them.
use easy_uds.Prelude.{
  ℕ, ◌+◌, ◌^◌, ◌≡◌, ◌⊎◌, ◌≤◌, ◌<◌, refl, arith, true, false, List, [], ◌∷◌, ◌++◌, none,
  if◌then◌else◌, length, ok,
}
use easy_uds.Options.{ServerOptions}
use easy_uds.Deadlines.{deadline_from}
use easy_uds.Protocol.{
  HeaderBytes, header_size, max_wire_field, request, DecodedHeader, encode_header, decode_header,
}
use easy_uds.Protocol.RoundTrip.{decode-encode}
use easy_uds.Routes.{Route}
use easy_uds.Output.{Bytes, gathered}
use easy_uds.Transfer.{request_parts}
use easy_uds.Frames.{header, Frame, Host, Parser, milliseconds}
use easy_uds.Parser.{strict_budget}

-- A request as a client hands it to `write_request_frame`, and its bytes.
pub record Sending : Type 0 where
  pub request_id : ℕ
  pub route : Route
  pub body : Bytes

abbrev pub wire : ℕ → Sending → Bytes
wire version r = gathered (request_parts r.request_id r.route r.body version)

abbrev pub wire_all : ℕ → List Sending → Bytes
wire_all version [] = []
wire_all version (r ∷ rs) = wire version r ++ wire_all version rs

-- The request fits the server's limit and the header's fields.
pub record IsSendable (options : ServerOptions) (r : Sending) : Type 0 where
  pub route_some : 0 < length r.route
  pub message_fits : length r.route + length r.body ≤ options.max_message_size
  pub route_fits : length r.route ≤ max_wire_field
  pub body_fits : length r.body ≤ max_wire_field
  pub id_fits : r.request_id < 2 ^ 32

abbrev pub AllSendable : ServerOptions → List Sending → Type 0
AllSendable options [] = Unit {0}
AllSendable options (r ∷ rs) = IsSendable options r × AllSendable options rs

abbrev pub said : ℕ → Sending → DecodedHeader
said version r = record {
  type = request;
  request_id = r.request_id;
  arg1 = length r.route;
  arg2 = length r.body;
  flags = 0;
  version = version;
}

pub decode_said :
    (options : ServerOptions) (version : ℕ) (r : Sending)
    → (version ≡ 2) ⊎ (version ≡ 3)
    → IsSendable options r
    → decode_header (encode_header request r.request_id (length r.route) (length r.body) 0 version)
      ≡ ok (said version r)
decode_said options version r v w = decode-encode (said version r) (record {
  known_version = v;
  id_fits = w.id_fits;
  arg1_fits = let f = w.route_fits in omega arith;
  arg2_fits = let f = w.body_fits in omega arith;
  known_flags = omega arith;
  flagged = λ h. (refl, absurd (h refl));
  cancels = λ h. cc;
})

abbrev pub said_bytes : ℕ → Sending → HeaderBytes
said_bytes version r = encode_header request r.request_id (length r.route) (length r.body) 0 version

pub length-encode_header :
    (id a b version : ℕ) → length (encode_header request id a b 0 version) ≡ header_size
unfolding encode_header
length-encode_header id a b version = refl

-- A host that grants all reservations and takes each request without pausing.
pub record IsOpen {W : Type 0} (host : Host W) : Type 0 where
  pub grants : (n : ℕ) (w : W) → (host.try_reserve n w).0 ≡ true
  pub never_pauses : (f : Frame) (w : W) → (host.hand_over f w).0 ≡ ok false

-- Between two frames.
module _ {W : Type 0} where
  abbrev pub between_frames : Parser W → Parser W
  between_frames s = record s {
    phase = header;
    header_bytes = [];
    arrival_time = 0;
    received_fd = none;
  }

module _ {W : Type 0} (host : Host W) (options : ServerOptions) (now version : ℕ) where
  -- What the host sees of a request.
  abbrev pub handed : Sending → Frame
  handed r = record {
    request_id = r.request_id;
    route = r.route;
    body = r.body;
    received_fd = none;
    arrival_time = now;
    deadline = deadline_from now (milliseconds options.request_timeout);
    wire_version = version;
  }

  abbrev pub reserved : ℕ → W → W
  reserved n w = if strict_budget host options then (host.try_reserve n w).1 else w

  abbrev pub served : List Sending → W → W
  served [] w = w
  served (r ∷ rs) w =
      served rs (host.hand_over (handed r) (reserved (length r.route + length r.body) w)).1
