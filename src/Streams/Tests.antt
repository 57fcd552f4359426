-- ===== src/Streams/Tests.antt =====
-- A stream of a chunk of three bytes and its end, from a source that is a list.
use easy_uds.Prelude.{inr, ℕ, ◌≡◌, ◌⊎◌, ◌≤◌, refl, arith, inl, List, [], ◌∷◌, ◌++◌, ok}
use easy_uds.Protocol.{encode_header, stream_request_chunk, stream_request_end}
use easy_uds.Output.{Bytes}
use easy_uds.Streams.{opened, read_stream, write_stream_body}
use easy_uds.Streams.RoundTrip.{of_list, answers, write_stream_body-answers}
use easy_uds.Streams.Limit.{read_all, read_all-Limited}

abbrev body : Bytes
body =
    encode_header stream_request_chunk 7 3 0 0 2
    ++ (1 ∷ 2 ∷ 3 ∷ [])
    ++ encode_header stream_request_end 7 0 0 0 2

reads_three : read_all of_list (2 ∷ 2 ∷ 2 ∷ []) (opened 10 7) body ≡ 3
unfolding read_stream encode_header
reads_three = refl

abbrev limit : ℕ
limit = 10

read_all-Limited_example :
    (limit ≡ 0) ⊎ (read_all of_list (2 ∷ 2 ∷ 2 ∷ []) (opened limit 7) body ≤ limit)
read_all-Limited_example = read_all-Limited of_list (2 ∷ 2 ∷ 2 ∷ []) limit 7 body

abbrev chunks : List Bytes
chunks = (1 ∷ 2 ∷ []) ∷ (3 ∷ []) ∷ []

chunks_written : (write_stream_body 2 7 2 10 0 chunks).1 ≡ ok tt
unfolding write_stream_body
chunks_written = refl

write_stream_body-answers_example :
    answers (2 ∷ 2 ∷ 2 ∷ []) (opened 12 7) (write_stream_body 2 7 2 10 0 chunks).0
    ≡ ok (1 ∷ 2 ∷ []) ∷ ok (3 ∷ []) ∷ ok [] ∷ []
write_stream_body-answers_example =
    write_stream_body-answers 2 7 2 10 12 (inl refl) (omega arith) (omega arith)
      (inr (omega arith, omega arith)) chunks (omega arith, (omega arith, tt)) chunks_written
