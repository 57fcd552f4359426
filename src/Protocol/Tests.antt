-- ===== src/Protocol/Tests.antt =====
-- Headers at concrete values.
use easy_uds.Prelude.{◌≡◌, ◌<◌, ◌≤◌, ◌+◌, refl, [], ◌∷◌, ok, arith}
use easy_uds.Protocol.{
  cancel_request, DecodedHeader, HeaderBytes, encode_header, decode_header,
  validate_request_lengths,
}
use easy_uds.Protocol.RoundTrip.{
  IsWellFormed, IsHeader, decode-encode, encode-decode, decode-IsWellFormed,
}
use easy_uds.Protocol.Lengths.{validate_request_lengths_iff}

-- A cancellation of request 7 over protocol version 3.
abbrev cancel_seven : DecodedHeader
cancel_seven = record {
  type = cancel_request;
  request_id = 7;
  arg1 = 0;
  arg2 = 0;
  flags = 0;
  version = 3;
}

abbrev cancel_seven_bytes : HeaderBytes
cancel_seven_bytes =
    b'E' ∷ b'U' ∷ b'D' ∷ b'S' ∷ 3 ∷ 9 ∷ 0 ∷ 0 ∷ 0 ∷ 0 ∷ 0 ∷ 7 ∷ 0 ∷ 0 ∷ 0 ∷ 0 ∷ 0 ∷ 0 ∷ 0 ∷ 0 ∷ []

encode_cancel : encode_header cancel_request 7 0 0 0 3 ≡ cancel_seven_bytes
unfolding encode_header
encode_cancel = refl

cancel_seven-IsWellFormed : IsWellFormed cancel_seven
cancel_seven-IsWellFormed = ground arith

decode-encode_example : decode_header (encode_header cancel_request 7 0 0 0 3) ≡ ok cancel_seven
decode-encode_example = decode-encode cancel_seven cancel_seven-IsWellFormed

cancel_seven_bytes-IsHeader : IsHeader cancel_seven_bytes
cancel_seven_bytes-IsHeader = omega arith

decodes : decode_header cancel_seven_bytes ≡ ok cancel_seven
unfolding decode_header
decodes = refl

encode-decode_example : encode_header cancel_request 7 0 0 0 3 ≡ cancel_seven_bytes
encode-decode_example =
    encode-decode cancel_seven_bytes cancel_seven cancel_seven_bytes-IsHeader decodes

decode-IsWellFormed_example : IsWellFormed cancel_seven
decode-IsWellFormed_example =
    decode-IsWellFormed cancel_seven_bytes cancel_seven cancel_seven_bytes-IsHeader decodes

validate_request_lengths_iff_example :
    (0 < 5) × (5 + 100 ≤ 1024) × (5 ≤ 0xffff_ffff) × (100 ≤ 0xffff_ffff)
unfolding validate_request_lengths
validate_request_lengths_iff_example = (validate_request_lengths_iff 5 100 1024).0 refl
