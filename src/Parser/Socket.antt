-- ===== src/Parser/Socket.antt =====
-- The first loop of `consume` of reactor/parser.cpp, which reads ahead, and `consume` itself, with the
-- sizes of reactor/common.hpp.
use easy_uds.Prelude.{
  ℕ, ◌+◌, ◌-◌, ◌*◌, not, ◌&&◌, ◌||◌, List, [], ◌∷◌, ◌++◌, Option, none, some, ◌==◌, ltb, min,
  if◌then◌else◌, length, drop, take, Exception,
}
use easy_uds.Options.{ServerOptions}
use easy_uds.Output.{Bytes}
use easy_uds.Frames.{
  ParsePhase, header, request_budget, request_payload, stream_budget, stream_route, Host, Parser,
  Verdict, goes_on, stopped, throws, Round,
}
use easy_uds.Parser.{
  strict_budget, header_need, payload_need, route_need, begin_request_payload, begin_stream_route,
  parse_pending,
}

abbrev pub reactor_read_scratch_size : ℕ
reactor_read_scratch_size = 64 * 1024

abbrev pub reactor_read_batch_size : ℕ
reactor_read_batch_size = 256 * 1024

-- What a call of `recv_with_fds` comes to: the first bytes of the socket, at most so many and at most
-- as many as are asked for, with a descriptor or without, where no bytes stand for the end of the
-- stream; `EINTR`; `EAGAIN`; another error; or an exception for the ancillary data.
pub data Answer : Type 0 where
  gives : ℕ → Option ℕ → Answer
  interrupted would_block failed : Answer
  refused : Exception → Answer

-- How the loop ends: with `break`, with a return, or with an exception.
pub data ReadEnd : Type 0 where
  ready closing : ReadEnd
  threw : Exception → ReadEnd

-- How the loop ended, the bytes that were read ahead, those that the socket still has, and the state.
pub record ReadAhead (W : Type 0) : Type 0 where
  pub end_of_read : ReadEnd
  pub pending : Bytes
  pub socket : Bytes
  pub parser : Parser W

module _ {W : Type 0} where
  abbrev pub ended : ReadEnd → Bytes → Bytes → Parser W → ReadAhead W
  ended e pending socket s = record {
    end_of_read = e;
    pending = pending;
    socket = socket;
    parser = s;
  }

  abbrev pub keep_fd : Option ℕ → Parser W → Parser W
  keep_fd none s = s
  keep_fd (some fd) s = record s { received_fds = s.received_fds ++ (fd ∷ []) }

  -- What the frame at hand bounds a call to; a phase with no bound of its own keeps the size.
  abbrev pub bounded : ParsePhase → ℕ → Bytes → Parser W → ℕ
  bounded header size pending s = min size (header_need s - length pending)
  bounded request_payload size pending s = min size (payload_need s - length pending)
  bounded stream_route size pending s = min size (route_need s - length pending)
  bounded _ size pending s = size

module _ {W : Type 0} (host : Host W) (options : ServerOptions) where
  abbrev pub request_size : ℕ → Bytes → Parser W → ℕ
  request_size read_ahead pending s =
      let size = min reactor_read_scratch_size (reactor_read_batch_size - read_ahead) in
      if strict_budget host options then bounded s.phase size pending s else size

  abbrev pub closed : Parser W → Parser W
  closed s = record s { world = host.close s.world }

  -- Some bytes came. The strict budget parses them before it reads again.
  abbrev pub gained :
      Bytes → Option ℕ → Bytes → Bytes → Parser W → (Bytes → Parser W → ReadAhead W) → ReadAhead W
  gained [] fd pending socket s further = ended closing pending socket (closed s)
  gained (b ∷ bytes) fd pending socket s further =
      let marked = keep_fd fd (record s { world = host.mark_io_progress s.world }) in
      if strict_budget host options
      then ended ready (pending ++ (b ∷ bytes)) socket marked
      else further (pending ++ (b ∷ bytes)) marked

  abbrev pub on_answer :
      Answer
      → ℕ
      → Bytes
      → Bytes
      → Parser W
      → (ℕ → Bytes → Bytes → Parser W → ReadAhead W)
      → ReadAhead W
  on_answer (gives k fd) size pending socket s further =
      let n = min k size in
      gained (take n socket) fd pending (drop n socket) s
        (λ pending' s'. further (length (take n socket)) pending' (drop n socket) s')
  on_answer interrupted size pending socket s further = further 0 pending socket s
  on_answer would_block size pending socket s further = ended ready pending socket s
  on_answer failed size pending socket s further = ended closing pending socket (closed s)
  on_answer (refused e) size pending socket s further = ended (threw e) pending socket s

  unfoldable pub read_loop : List Answer → ℕ → Bytes → Bytes → Parser W → ReadAhead W
  read_loop [] read_ahead pending socket s = ended ready pending socket s
  read_loop (answer ∷ script) read_ahead pending socket s =
      let size = request_size read_ahead pending s in
      let further = λ (n : ℕ) (pending' socket' : Bytes) (s' : Parser W).
        read_loop script (read_ahead + n) pending' socket' s' in
      if not (ltb read_ahead reactor_read_batch_size) || strict_budget host options && size == 0
      then ended ready pending socket s
      else on_answer answer size pending socket s further

  -- What `consume` does after the loop.
  abbrev pub parse_after : ℕ → ReadAhead W → Option (Round W)
  parse_after now r = elim r.end_of_read [
    | ready ↦ parse_pending host options now r.pending r.parser
    | closing ↦ some (stopped r.parser, r.pending)
    | threw e ↦ some (throws e r.parser, r.pending)
  ]

  -- The reservation that a paused connection still waits for.
  abbrev pub begun : ParsePhase → Parser W → Verdict W
  begun request_budget s = begin_request_payload host options s
  begun stream_budget s = begin_stream_route host options s
  begun _ s = goes_on s

  abbrev pub consume_begun : ℕ → List Answer → Bytes → Bytes → Verdict W → Option (Round W)
  consume_begun now script pending socket (goes_on s) =
      parse_after now (read_loop script 0 pending socket s)
  consume_begun now script pending socket v = some (v, pending)

  unfoldable pub consume : ℕ → List Answer → Bytes → Bytes → Parser W → Option (Round W)
  unfolding read_loop parse_pending
  consume now script pending socket s = consume_begun now script pending socket (begun s.phase s)
