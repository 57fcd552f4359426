-- ===== src/Output/Calls.antt =====
-- `write_fixed_response`, `flush_connection_output` and `connection_output_deadline`.
use easy_uds.Prelude.{
  ℕ, ◌+◌, zero, suc, Bool, true, false, not, ◌&&◌, List, [], ◌∷◌, ◌++◌, Option, none, some, ◌==◌,
  ltb, leb, if◌then◌else◌, length, Exception, error, timeout, runtime_error, Result, ok, err,
}
use easy_uds.Options.{ServerOptions}
use easy_uds.Deadlines.{max_time, inactivity_deadline, earlier_deadline, check_absolute_deadline}
use easy_uds.FlowControl.{fetch_sub}
use easy_uds.Output.{
  OutgoingFrame, Output, Answer, took, would_block, Response, max_flush_bytes, Sent,
  send_frame_once, resolve_response, frame_size, Written, is_idle, write_frame, new_frame,
}

abbrev pub send_timed_out : Exception
send_timed_out = error timeout "send timed out"

abbrev pub not_enabled : Exception
not_enabled = runtime_error "failed to enable connection output"

-- How `refresh_connection_events` ends: the events are right, the connection is not one to refresh,
-- or the control of the readiness set fails, which closes the connection.
pub data Refresh : Type 0 where
  refreshed refused control_failed : Refresh

abbrev pub is_refreshed : Refresh → Bool
is_refreshed refreshed = true
is_refreshed refused = false
is_refreshed control_failed = false

abbrev pub after_refresh : Refresh → Output → Output
after_refresh refreshed o = o
after_refresh refused o = o
after_refresh control_failed o = record o { closing = true }

-- The refresh of `write_fixed_response`, which is asked when the frame was queued.
abbrev pub with_refresh : Refresh → Written → Written
with_refresh answer w = elim w.result [
  | ok u ↦
      if not (is_idle w.output.output_queue)
      then (if is_refreshed answer
          then w
          else record w { result = err not_enabled; output = after_refresh answer w.output })
      else w
  | err e ↦ w
]

abbrev pub write_checked :
    ServerOptions
    → Bool
    → ℕ
    → Refresh
    → Exception
    → OutgoingFrame
    → Output
    → List Answer
    → Result (Unit {0})
    → Written
write_checked options registered now answer send_failed frame o script (ok u) =
    with_refresh answer (write_frame options registered now send_failed frame o script)
write_checked options registered now answer send_failed frame o script (err e) = record {
  result = err e;
  output = o;
  rest = script;
}

-- `none` is for the recursion on the response, which is shown to end. `send_failed` is what
-- `throw_system_error` makes of the error of the socket.
unfoldable pub write_fixed_response :
    ServerOptions
    → Bool
    → ℕ
    → Refresh
    → Exception
    → ℕ
    → ℕ
    → ℕ
    → Response
    → Output
    → List Answer
    → Option Written
unfolding resolve_response check_absolute_deadline write_frame new_frame
write_fixed_response options registered now answer send_failed wire_version request_id deadline r o
      script =
    elim (resolve_response 2 options r) [
      | none ↦ none
      | some chosen ↦ some (
          write_checked options registered now answer send_failed
            (new_frame wire_version request_id deadline chosen) o script
            (check_absolute_deadline now deadline send_timed_out))
    ]

-- The queue after the front frame moved by what was sent of it.
abbrev pub advance : OutgoingFrame → ℕ → List OutgoingFrame → List OutgoingFrame
advance frame n later =
    if frame.offset + n == frame_size frame
    then later
    else record frame { offset = frame.offset + n } ∷ later

abbrev pub sent_of_front : ℕ → OutgoingFrame → List OutgoingFrame → ℕ → Sent → Output → Output
sent_of_front now frame later n sent o = record o {
  output_queue = advance frame n later;
  queued_output_bytes = fetch_sub o.queued_output_bytes n;
  total_queued_output_bytes = fetch_sub o.total_queued_output_bytes n;
  last_output_progress = now;
  wire = o.wire ++ sent.taken;
}

abbrev pub is_expired : ℕ → OutgoingFrame → Bool
is_expired now frame = not (frame.deadline == max_time) && leb frame.deadline now

-- The loop, on fuel: `some (false, …)` is the return of `false`.
unfoldable pub flush_loop : ℕ → (ℕ → ℕ) → ℕ → Output → List Answer → Option (Bool × Output)
unfolding send_frame_once
flush_loop zero clock flushed o script = none
flush_loop (suc fuel) clock flushed o script = elim o.output_queue [
  | [] ↦ some (true, o)
  | frame ∷ later ↦
      let now = clock (length script) in
      let sent = send_frame_once script frame in
      let again = λ (n : ℕ).
        flush_loop fuel clock (flushed + n) (sent_of_front now frame later n sent o) sent.rest in
      if not (ltb flushed max_flush_bytes)
      then some (true, o)
      else if is_expired now frame
      then some (false, record o { closing = true })
      else elim sent.answer [
        | took (suc n) ↦ again (suc n)
        | would_block ↦ some (true, o)
        | other ↦ some (false, record o { closing = true })
      ]
]

-- The end of a flush whose loop was left with the queue empty or not.
unfoldable pub end_flush : Refresh → Output → Bool × Output
end_flush answer t =
    let u = after_refresh answer t in
    if is_idle t.output_queue
    then (not (not (is_refreshed answer) && not u.closing), u)
    else (true, t)

-- Each round but the last uses up an answer.
unfoldable pub flush_connection_output :
    (ℕ → ℕ) → Refresh → Output → List Answer → Option (Bool × Output)
unfolding flush_loop end_flush
flush_connection_output clock answer o script =
    elim (flush_loop (length script + 1) clock 0 o script) [
      | none ↦ none
      | some (false, t) ↦ some (false, t)
      | some (true, t) ↦ some (end_flush answer t)
    ]

abbrev pub earliest : ℕ → List OutgoingFrame → ℕ
earliest deadline [] = deadline
earliest deadline (frame ∷ frames) = earliest (earlier_deadline deadline frame.deadline) frames

unfoldable pub connection_output_deadline : ℕ → Output → ℕ
unfolding inactivity_deadline earlier_deadline
connection_output_deadline io_timeout o =
    if o.queued_output_bytes == 0
    then max_time
    else if is_idle o.output_queue
    then max_time
    else earliest (inactivity_deadline o.last_output_progress io_timeout) o.output_queue
