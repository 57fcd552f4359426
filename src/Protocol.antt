-- ===== src/Protocol.antt =====
-- protocol/codec.hpp: the twenty-byte header of protocol versions 2 and 3, and the length check
-- of a request.
pub mod RoundTrip
pub mod Lengths
mod Tests
use easy_uds.Prelude.{
  ℕ, zero, suc, ◌+◌, ◌-◌, ◌*◌, ◌/◌, ◌%◌, ◌^◌, ◌≡◌, refl, Bool, true, false, not, ◌&&◌, ◌||◌, List,
  [], ◌∷◌, arith, ltb, leb, ◌==◌, if◌then◌else◌, get_or, set, replicate, Exception, error,
  invalid_argument, length_error, Result, ok, err, ◌>>=◌, ◌>>◌, checks,
}
use easy_uds.Prelude

abbrev pub magic : List ℕ
magic = b'E' ∷ b'U' ∷ b'D' ∷ b'S' ∷ []

abbrev pub version : ℕ
version = 2

abbrev pub cancellable_version : ℕ
cancellable_version = 3

abbrev pub header_size : ℕ
header_size = 20

abbrev pub header_field_offset : ℕ
header_field_offset = 8

abbrev pub arg1_offset : ℕ
arg1_offset = 12

abbrev pub arg2_offset : ℕ
arg2_offset = 16

abbrev pub max_wire_field : ℕ
max_wire_field = 0xffff_ffff

-- `std::array<unsigned char, header_size>`: a list of `header_size` numbers below 256.
abbrev pub HeaderBytes : Type 0
HeaderBytes = List ℕ

pub data WireType : Type 0 where
  request response stream_request stream_request_chunk stream_request_end : WireType
  stream_response stream_response_chunk stream_response_end cancel_request : WireType

-- `static_cast<std::uint8_t>(type)`
abbrev pub wire_byte : WireType → ℕ
wire_byte request = 1
wire_byte response = 2
wire_byte stream_request = 3
wire_byte stream_request_chunk = 4
wire_byte stream_request_end = 5
wire_byte stream_response = 6
wire_byte stream_response_chunk = 7
wire_byte stream_response_end = 8
wire_byte cancel_request = 9

-- `static_cast<WireType>(raw)`, which the code makes only of 1 to 9.
abbrev pub wire_type : ℕ → WireType
wire_type raw =
    if raw == 1
    then request
    else if raw == 2
    then response
    else if raw == 3
    then stream_request
    else if raw == 4
    then stream_request_chunk
    else if raw == 5
    then stream_request_end
    else if raw == 6
    then stream_response
    else if raw == 7
    then stream_response_chunk
    else if raw == 8
    then stream_response_end
    else cancel_request

pub record DecodedHeader : Type 0 where
  pub type : WireType
  pub request_id : ℕ
  pub arg1 : ℕ
  pub arg2 : ℕ
  pub flags : ℕ
  pub version : ℕ

-- `(flags & carries_fd_flag) != 0`, bit 0
abbrev pub carries_fd : ℕ → Bool
carries_fd flags = flags % 2 == 1

-- `(flags & carries_windows_handle_flag) != 0`, bit 1
abbrev pub carries_windows_handle : ℕ → Bool
carries_windows_handle flags = flags / 2 % 2 == 1

unfoldable pub put_u32 : HeaderBytes → ℕ → ℕ → HeaderBytes
put_u32 header offset value =
    set
      (set (set (set header offset (value / 2 ^ 24 % 256)) (offset + 1) (value / 2 ^ 16 % 256))
        (offset + 2) (value / 2 ^ 8 % 256))
      (offset + 3) (value % 256)

-- The four operands of `|` share no bit, so that it is a sum.
unfoldable pub get_u32 : HeaderBytes → ℕ → ℕ
get_u32 header offset =
    get_or header offset 0 * 2 ^ 24
    + get_or header (offset + 1) 0 * 2 ^ 16
    + get_or header (offset + 2) 0 * 2 ^ 8
    + get_or header (offset + 3) 0

-- Bytes 4 to 7, over the zeroed array with the magic copied to its front.
fill_front : WireType → ℕ → ℕ → HeaderBytes
fill_front type flags wire_version =
    b'E'
    ∷ b'U'
    ∷ b'D'
    ∷ b'S'
    ∷ wire_version
    ∷ wire_byte type
    ∷ flags / 2 ^ 8 % 256
    ∷ flags % 256
    ∷ replicate 12 0

unfoldable pub encode_header : WireType → ℕ → ℕ → ℕ → ℕ → ℕ → HeaderBytes
unfolding put_u32 fill_front
encode_header type request_id arg1 arg2 flags wire_version =
    put_u32
      (put_u32 (put_u32 (fill_front type flags wire_version) header_field_offset request_id)
        arg1_offset arg1)
      arg2_offset arg2

abbrev protocol_error : Prelude.String → Exception
protocol_error what = error Prelude.ErrorCode.protocol what

-- `std::equal(magic.begin(), magic.end(), header.begin())`
abbrev has_magic : HeaderBytes → Bool
has_magic h =
    get_or h 0 0 == b'E' && get_or h 1 0 == b'U' && get_or h 2 0 == b'D' && get_or h 3 0 == b'S'

abbrev header_flags : HeaderBytes → ℕ
header_flags h = get_or h 6 0 * 2 ^ 8 + get_or h 7 0

-- The `throw` statements of `decode_header`, in their order.
abbrev pub header_checks : HeaderBytes → List (Bool × Exception)
header_checks h =
    (not (has_magic h), protocol_error "invalid protocol magic")
    ∷ (
      not (get_or h 4 0 == version) && not (get_or h 4 0 == cancellable_version),
      protocol_error "unsupported protocol version",
    )
    ∷ (not (header_flags h / 4 == 0), protocol_error "unsupported protocol flags")
    ∷ (ltb (get_or h 5 0) 1 || ltb 9 (get_or h 5 0), protocol_error "unknown protocol message type")
    ∷ (
      carries_fd (header_flags h)
          && (not (get_or h 5 0 == 1)
              || not (get_u32 h header_field_offset == 0)
              || carries_windows_handle (header_flags h)),
      protocol_error "descriptor flag is only valid on one-shot fixed requests",
    )
    ∷ (
      carries_windows_handle (header_flags h)
          && (not (get_or h 5 0 == 1) || not (get_u32 h header_field_offset == 0)),
      protocol_error "Windows handle flag is only valid on one-shot fixed requests",
    )
    ∷ (
      get_or h 5 0 == 9
          && (not (get_or h 4 0 == cancellable_version)
              || get_u32 h header_field_offset == 0
              || not (header_flags h == 0)
              || not (get_u32 h arg1_offset == 0)
              || not (get_u32 h arg2_offset == 0)),
      protocol_error "invalid cancellation frame",
    )
    ∷ []

abbrev pub header_fields : HeaderBytes → DecodedHeader
header_fields h = record {
  type = wire_type (get_or h 5 0);
  request_id = get_u32 h header_field_offset;
  arg1 = get_u32 h arg1_offset;
  arg2 = get_u32 h arg2_offset;
  flags = header_flags h;
  version = get_or h 4 0;
}

unfoldable pub decode_header : HeaderBytes → Result DecodedHeader
unfolding get_u32
decode_header h = checks (header_checks h) >> ok (header_fields h)

-- The overload with an expected type.
unfoldable pub decode_header_as : HeaderBytes → WireType → Result DecodedHeader
decode_header_as h expected = do
  decoded ← decode_header h
  checks (
      (
        not (wire_byte decoded.type == wire_byte expected),
        protocol_error "unexpected protocol message type",
      )
      ∷ [])
  ok decoded

-- The sizes are of type `std::size_t`; the subtraction is made only where it cannot wrap.
abbrev pub length_checks : ℕ → ℕ → ℕ → List (Bool × Exception)
length_checks route_size body_size max_message_size =
    (route_size == 0, invalid_argument "route must not be empty")
    ∷ (
      ltb max_wire_field route_size
          || ltb max_wire_field body_size
          || ltb max_message_size route_size
          || ltb (max_message_size - route_size) body_size,
      length_error "request exceeds max_message_size",
    )
    ∷ []

unfoldable pub validate_request_lengths : ℕ → ℕ → ℕ → Result (Unit {0})
validate_request_lengths route_size body_size max_message_size =
    checks (length_checks route_size body_size max_message_size)
