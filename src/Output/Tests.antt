-- ===== src/Output/Tests.antt =====
-- Output at concrete frames and answers.
use easy_uds.Prelude.{
  ℕ, ◌≡◌, ◌⊎◌, refl, arith, Bool, true, false, [], ◌∷◌, some, error, closed, Exception,
}
use easy_uds.Options.{ServerOptions, negsuc, default_server_options}
use easy_uds.Deadlines.{max_time}
use easy_uds.Output.{
  OutgoingFrame, Output, took, interrupted, would_block, Response, resolve_response, write_frame,
}
use easy_uds.Output.Calls.{refreshed, refused, flush_connection_output}
use easy_uds.Output.Stream.{IsQueued, stream}
use easy_uds.Output.Flush.{flush_connection_output-stream}
use easy_uds.Output.Account.{Writes, write_frame-Writes}
use easy_uds.Output.Choice.{Fits, resolve_response-Fits}

abbrev bad : Response
bad = record { status = negsuc 0; body = b'x' ∷ [] }

resolve_response-Fits_example :
    (chosen : Response) × (resolve_response 2 default_server_options bad ≡ some chosen)
    × Fits default_server_options chosen
    × ((chosen ≡ bad) ⊎ (¬ Fits default_server_options bad))
resolve_response-Fits_example = resolve_response-Fits default_server_options bad

abbrev quiet : Output
quiet = record {
  output_queue = [];
  queued_output_bytes = 0;
  total_queued_output_bytes = 0;
  last_output_progress = 0;
  closing = false;
  wire = [];
}

quiet-IsQueued : IsQueued quiet
quiet-IsQueued = record {
  unfinished = tt;
  queued_exact = refl;
  queued_within = omega arith;
  total_size = omega arith;
}

abbrev short : OutgoingFrame
short = record { header = 1 ∷ 2 ∷ []; body = 3 ∷ 4 ∷ 5 ∷ []; offset = 0; deadline = max_time }

abbrev reset : Exception
reset = error closed "send failed"

-- The socket takes three of the five bytes.
write_frame-Writes_example :
    Writes true reset short quiet
      (write_frame default_server_options true 7 reset short quiet (interrupted ∷ took 3 ∷ []))
write_frame-Writes_example =
    write_frame-Writes default_server_options true 7 reset short quiet (interrupted ∷ took 3 ∷ [])
      quiet-IsQueued refl (omega arith) (omega arith)

abbrev one_queued : Output
one_queued = record quiet {
  output_queue = record short { offset = 3 } ∷ [];
  queued_output_bytes = 2;
  total_queued_output_bytes = 2;
  wire = 1 ∷ 2 ∷ 3 ∷ [];
}

one_queued-IsQueued : IsQueued one_queued
one_queued-IsQueued = record {
  unfinished = (omega arith, tt);
  queued_exact = refl;
  queued_within = omega arith;
  total_size = omega arith;
}

abbrev steady : ℕ → ℕ
steady left = 9

flush_run :
    flush_connection_output steady refreshed one_queued (took 1 ∷ took 4 ∷ [])
    ≡ some (true, record quiet { last_output_progress = 9; wire = 1 ∷ 2 ∷ 3 ∷ 4 ∷ 5 ∷ [] })
unfolding flush_connection_output
flush_run = refl

flush_connection_output-stream_example :
    (b : Bool) × (t : Output) × (flush_connection_output steady refreshed one_queued
        (took 1 ∷ would_block ∷ [])
      ≡ some (b, t))
    × IsQueued t
    × (stream t ≡ stream one_queued)
    × ((b ≡ true) ⊎ (t.closing ≡ true) ⊎ ((t.output_queue ≡ []) × (refreshed ≡ refused)))
flush_connection_output-stream_example =
    flush_connection_output-stream steady refreshed one_queued (took 1 ∷ would_block ∷ [])
      one_queued-IsQueued

-- A second frame does not fit: the connection is closed and the server gets its bytes back.
abbrev narrow : ServerOptions
narrow = record default_server_options { max_output_bytes_per_connection = 4 }

overflow_clears : (write_frame narrow true 7 reset short one_queued []).output ≡ record one_queued {
  closing = true;
  output_queue = [];
  queued_output_bytes = 0;
  total_queued_output_bytes = 0;
}
unfolding write_frame
overflow_clears = refl
