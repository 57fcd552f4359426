-- ===== src/Streams/RoundTrip.antt =====
-- The chunks that a client writes, in the reads of the server's handler.
use easy_uds.Prelude.{
  ℕ, ◌+◌, ◌-◌, ◌^◌, ◌≡◌, ◌≢◌, ◌⊎◌, ◌≤◌, ◌<◌, suc, refl, sym, ◌∙◌, ap, arith, inl, inr, true, false,
  not, ◌||◌, List, [], ◌∷◌, ◌++◌, ◌==◌, ltb, leb, min, map, replicate, if◌then◌else◌, length,
  length-append, length-take, drop, take, Bool-cases, error, closed, Result, ok, err, checks,
  pass-checks,
}
use easy_uds.Protocol.{
  header_size, DecodedHeader, WireType, stream_request_chunk, stream_request_end, encode_header,
  decode_header,
}
use easy_uds.Protocol.RoundTrip.{decode-encode}
use easy_uds.Output.{Bytes}
use easy_uds.Output.Stream.{append_assoc, append-nil}
use easy_uds.Parser.Buffers.{take-exact, drop-exact}
use easy_uds.Streams.{
  ByteSource, IncomingStream, opened, chunk_checks, end_checks, read_stream, chunk_frame, end_frame,
  too_long, write_stream_body,
}

-- A source of all the bytes of a list.
abbrev pub read_list : ℕ → Bytes → Result Bytes × Bytes
read_list n s =
    if leb n (length s)
    then (ok (take n s), drop n s)
    else (err (error closed "peer closed connection"), [])

pub read_list-exact : (n : ℕ) (s bytes : Bytes) → (read_list n s).0 ≡ ok bytes → length bytes ≡ n
read_list-exact n s bytes h = elim (Bool-cases (leb n (length s))) [
  | inl enough ↦
      let same : ok (take n s) ≡ ok bytes = rw enough at h in
      let taken : take n s ≡ bytes = cc in
      let size = length-take n s in let sized = ap (λ (b : Bytes). length b) taken in ground arith
  | inr short ↦ let bad = rw short at h in cc
]

abbrev pub of_list : ByteSource Bytes
of_list = record { read = read_list; read-exact = read_list-exact }

-- What some reads return, one after the other.
abbrev pub answers : List ℕ → IncomingStream → Bytes → List (Result Bytes)
answers [] s src = []
answers (capacity ∷ later) s src =
    let r = read_stream of_list capacity s src in r.answer ∷ answers later r.stream r.source

read_list-front : (n : ℕ) (xs ys : Bytes) → length xs ≡ n → read_list n (xs ++ ys) ≡ (ok xs, ys)
read_list-front n xs ys h =
    let sum = length-append xs ys in
    let enough : leb n (length (xs ++ ys)) ≡ true = ground arith in
    rw (enough, take-exact n xs ys h, drop-exact n xs ys h) refl

abbrev at_frame : ℕ → ℕ → ℕ → IncomingStream
at_frame max_size id total = record (opened max_size id) { total_size = total }

length-header :
    (type : WireType) (id a version : ℕ)
    → length (encode_header type id a 0 0 version) ≡ header_size
unfolding encode_header
length-header type id a version = refl

abbrev said : WireType → ℕ → ℕ → ℕ → DecodedHeader
said type id size version = record {
  type = type;
  request_id = id;
  arg1 = size;
  arg2 = 0;
  flags = 0;
  version = version;
}

chunk_tests : (id n : ℕ) → 0 < n → (not (id == id) || n == 0 || false) ≡ false
chunk_tests id n h = ground arith

end_tests : (id : ℕ) → (not (id == id) || false || false) ≡ false
end_tests id = ground arith

-- What passes the limit of the client passes one that is not stricter.
too_long-limits :
    (client server total n : ℕ)
    → (server ≡ 0) ⊎ ((client ≢ 0) × (client ≤ server))
    → too_long client total n ≡ false
    → too_long server total n ≡ false
too_long-limits client server total n (inl none_set) h = ground arith
too_long-limits client server total n (inr (set, looser)) h = ground arith

module _ (version id chunk_size client_max max_size : ℕ) (known : (version ≡ 2) ⊎ (version ≡ 3))
    (id_fits : id < 2 ^ 32) (chunk_fits : chunk_size < 2 ^ 32)
    (looser : (max_size ≡ 0) ⊎ ((client_max ≢ 0) × (client_max ≤ max_size))) where
  read_chunk :
      (total : ℕ) (chunk later : Bytes)
      → 0 < length chunk
      → length chunk ≤ chunk_size
      → too_long max_size total (length chunk) ≡ false
      → read_stream of_list chunk_size
          (at_frame max_size id total)
          (chunk_frame version id chunk ++ later)
        ≡ record {
          answer = ok chunk;
          stream = at_frame max_size id (total + length chunk);
          source = later;
        }
  unfolding read_stream
  read_chunk total chunk later some' small fits =
      let n = length chunk in
      let d = said stream_request_chunk id n version in
      let flat = append_assoc (encode_header stream_request_chunk id n 0 0 version) chunk later in
      let first =
        read_list-front header_size (encode_header stream_request_chunk id n 0 0 version)
          (chunk ++ later) (length-header stream_request_chunk id n version) in
      let decoded : decode_header (encode_header stream_request_chunk id n 0 0 version) ≡ ok d =
        decode-encode d (record {
          known_version = known;
          id_fits = id_fits;
          arg1_fits = omega arith;
          arg2_fits = omega arith;
          known_flags = omega arith;
          flagged = λ h. absurd (h refl);
          cancels = λ h. cc;
        }) in
      let s = at_frame max_size id total in
      let passes : checks (chunk_checks d s) ≡ ok tt =
        pass-checks (chunk_checks d s) (chunk_tests id n some', (fits, tt)) in
      let size : min chunk_size n ≡ n = omega arith in
      let payload = read_list-front n chunk later refl in
      let none_left : n - n ≡ 0 = omega arith in
      rw (flat, first, decoded, passes, size, payload, none_left) refl

  read_end :
      (total : ℕ)
      → (read_stream of_list chunk_size (at_frame max_size id total) (end_frame version id)).answer
        ≡ ok []
  unfolding read_stream
  read_end total =
      let d = said stream_request_end id 0 version in
      let h = end_frame version id in
      let first : read_list header_size h ≡ (ok h, []) =
        ap (λ (b : Bytes). read_list header_size b) (sym (append-nil h))
        ∙ read_list-front header_size h [] (length-header stream_request_end id 0 version) in
      let decoded : decode_header h ≡ ok d = decode-encode d (record {
        known_version = known;
        id_fits = id_fits;
        arg1_fits = omega arith;
        arg2_fits = omega arith;
        known_flags = omega arith;
        flagged = λ h. absurd (h refl);
        cancels = λ h. cc;
      }) in
      let passes : checks (end_checks d (at_frame max_size id total)) ≡ ok tt =
        pass-checks (end_checks d (at_frame max_size id total)) (end_tests id, tt) in
      rw (first, decoded, passes) refl

  abbrev pub NonEmpty : List Bytes → Type 0
  NonEmpty [] = Unit {0}
  NonEmpty (chunk ∷ later) = (0 < length chunk) × NonEmpty later

  chunks-answers :
      (chunks : List Bytes) (total : ℕ)
      → NonEmpty chunks
      → (write_stream_body version id chunk_size client_max total chunks).1 ≡ ok tt
      → answers
          (replicate (suc (length chunks)) chunk_size)
          (at_frame max_size id total)
          (write_stream_body version id chunk_size client_max total chunks).0
        ≡ map ok chunks ++ (ok [] ∷ [])
  unfolding write_stream_body
  chunks-answers [] total w h = ap (λ a. a ∷ []) (read_end total)
  chunks-answers (chunk ∷ later) total w h =
      let some' : (length chunk == 0) ≡ false = let p = w.0 in ground arith in
      elim (Bool-cases (ltb chunk_size (length chunk))) [
        | inl big ↦ let bad = rw (some', big) at h in cc
        | inr small ↦ elim (Bool-cases (too_long client_max total (length chunk))) [
          | inl long ↦ let bad = rw (some', small, long) at h in cc
          | inr fits ↦
              let rest =
                (write_stream_body version id chunk_size client_max (total + length chunk)
                  later).0 in
              let h' = rw (some', small, fits) at h in
              let one =
                read_chunk total chunk rest w.0 (ground arith)
                  (too_long-limits client_max max_size total (length chunk) looser fits) in
              rw (some', small, fits, one)
                (ap (λ r. ok chunk ∷ r) (chunks-answers later (total + length chunk) w.1 h'))
        ]
      ]

  -- What a client writes as the body of a stream is what the handler reads, with the protocol version
  -- 2 or 3, an id and a chunk size below 2 ^ 32, and where the server's limit on the size of a stream
  -- is 0, or at least the client's and the client's is not 0. Where the client got through within its
  -- limit, with chunks that are not empty, the reads of the handler with the same chunk size return
  -- exactly the client's chunks in their order, and then the end.
  pub write_stream_body-answers :
      (chunks : List Bytes)
      → NonEmpty chunks
      → (write_stream_body version id chunk_size client_max 0 chunks).1 ≡ ok tt
      → answers
          (replicate (suc (length chunks)) chunk_size)
          (opened max_size id)
          (write_stream_body version id chunk_size client_max 0 chunks).0
        ≡ map ok chunks ++ (ok [] ∷ [])
  write_stream_body-answers chunks w h = chunks-answers chunks 0 w h
