-- ===== src/Streams.antt =====
-- `IncomingStream` of reactor/stream.cpp: the body of a stream request, which its handler reads. The
-- bytes come from a source, a `StreamByteSource` in the code, which is an argument here.
pub mod Limit
pub mod RoundTrip
mod Tests
use easy_uds.Prelude.{
  ℕ, ◌+◌, ◌-◌, ◌≡◌, Bool, true, false, not, ◌&&◌, ◌||◌, List, [], ◌∷◌, ◌++◌, ◌==◌, ltb, min,
  if◌then◌else◌, length, Exception, length_error, runtime_error, Result, ok, err, checks, ◌>>=◌,
  ◌>>◌,
}
use easy_uds.FlowControl.{size_modulus}
use easy_uds.Protocol.{
  HeaderBytes, header_size, WireType, wire_byte, stream_request_chunk, stream_request_end,
  DecodedHeader, decode_header, encode_header,
}
use easy_uds.Output.{Bytes}

-- What the stream calls, and what it relies on: a read that does not throw fills the buffer.
pub record ByteSource (S : Type 0) : Type 0 where
  pub read : ℕ → S → Result Bytes × S
  pub read-exact : (n : ℕ) (s : S) (bytes : Bytes) → (read n s).0 ≡ ok bytes → length bytes ≡ n

pub record IncomingStream : Type 0 where
  pub max_size : ℕ
  pub total_size : ℕ
  pub frame_remaining : ℕ
  pub request_id : ℕ
  pub ended : Bool

-- A stream before its first frame.
abbrev pub opened : ℕ → ℕ → IncomingStream
opened max_size request_id = record {
  max_size = max_size;
  total_size = 0;
  frame_remaining = 0;
  request_id = request_id;
  ended = false;
}

abbrev pub is_type : DecodedHeader → WireType → Bool
is_type d type = wire_byte d.type == wire_byte type

-- The `throw` statements for an end frame, and for a chunk.
abbrev pub end_checks : DecodedHeader → IncomingStream → List (Bool × Exception)
end_checks d s =
    (
      not (d.request_id == s.request_id) || not (d.arg1 == 0) || not (d.arg2 == 0),
      runtime_error "invalid stream end frame",
    )
    ∷ []

abbrev pub chunk_checks : DecodedHeader → IncomingStream → List (Bool × Exception)
chunk_checks d s =
    (
      not (is_type d stream_request_chunk)
          || not (d.request_id == s.request_id)
          || d.arg1 == 0
          || not (d.arg2 == 0),
      runtime_error "invalid stream chunk frame",
    )
    ∷ (
      ltb (size_modulus - 1 - s.total_size) d.arg1
          || not (s.max_size == 0) && ltb (s.max_size - s.total_size) d.arg1,
      length_error "stream exceeds max_stream_size",
    )
    ∷ []

abbrev pub chunk_begun : DecodedHeader → IncomingStream → IncomingStream
chunk_begun d s = record s { total_size = s.total_size + d.arg1; frame_remaining = d.arg1 }

abbrev pub frame_begun : IncomingStream → DecodedHeader → Result IncomingStream
frame_begun s d =
    if is_type d stream_request_end
    then checks (end_checks d s) >> ok (record s { ended = true })
    else checks (chunk_checks d s) >> ok (chunk_begun d s)

-- What a read comes to, the stream after it, and the source.
pub record StreamRead (S : Type 0) : Type 0 where
  pub answer : Result Bytes
  pub stream : IncomingStream
  pub source : S

module _ {S : Type 0} (source : ByteSource S) where
  abbrev pub gave : IncomingStream → S → Result Bytes → StreamRead S
  gave s src answer = record { answer = answer; stream = s; source = src }

  abbrev pub payload_read : IncomingStream → ℕ → Result Bytes × S → StreamRead S
  payload_read s size (ok bytes, src) =
      gave (record s { frame_remaining = s.frame_remaining - size }) src (ok bytes)
  payload_read s size (err e, src) = gave s src (err e)

  abbrev pub read_payload : ℕ → IncomingStream → S → StreamRead S
  read_payload capacity s src =
      payload_read s (min capacity s.frame_remaining)
        (source.read (min capacity s.frame_remaining) src)

  -- After the header of a frame.
  abbrev pub after_frame : ℕ → IncomingStream → S → Result IncomingStream → StreamRead S
  after_frame capacity s src (err e) = gave s src (err e)
  after_frame capacity s src (ok t) =
      if t.ended then gave t src (ok []) else read_payload capacity t src

  abbrev pub after_header : ℕ → IncomingStream → Result Bytes × S → StreamRead S
  after_header capacity s (err e, src) = gave s src (err e)
  after_header capacity s (ok h, src) =
      after_frame capacity s src (decode_header h >>= frame_begun s)

  -- `IncomingStream::read`
  unfoldable pub read_stream : ℕ → IncomingStream → S → StreamRead S
  unfolding decode_header
  read_stream capacity s src =
      if s.ended
      then gave s src (ok [])
      else if s.frame_remaining == 0
      then after_header capacity s (source.read header_size src)
      else read_payload capacity s src

-- The client's side, the loop of `write_stream_request` of transport/transport.cpp: what its body
-- reader returns, what it writes, and how it ends.
abbrev pub chunk_frame : ℕ → ℕ → Bytes → Bytes
chunk_frame version id chunk =
    encode_header stream_request_chunk id (length chunk) 0 0 version ++ chunk

abbrev pub end_frame : ℕ → ℕ → Bytes
end_frame version id = encode_header stream_request_end id 0 0 0 version

abbrev pub too_long : ℕ → ℕ → ℕ → Bool
too_long max_stream_size total size =
    ltb (size_modulus - 1 - total) size
    || not (max_stream_size == 0) && ltb (max_stream_size - total) size

unfoldable pub write_stream_body : ℕ → ℕ → ℕ → ℕ → ℕ → List Bytes → Bytes × Result (Unit {0})
write_stream_body version id chunk_size max_stream_size total [] = (end_frame version id, ok tt)
write_stream_body version id chunk_size max_stream_size total (chunk ∷ later) =
    let rest =
      write_stream_body version id chunk_size max_stream_size (total + length chunk) later in
    if length chunk == 0
    then (end_frame version id, ok tt)
    else if ltb chunk_size (length chunk)
    then ([], err (runtime_error "stream reader returned more bytes than its capacity"))
    else if too_long max_stream_size total (length chunk)
    then ([], err (length_error "stream exceeds max_stream_size"))
    else (chunk_frame version id chunk ++ rest.0, rest.1)
