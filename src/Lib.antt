-- ===== src/Lib.antt =====
-- easy-uds: a verification library of the C++ core in src/system and src/user/cpp/core.
--
-- easy-uds is a request server over Unix domain sockets. A reactor thread reads frames, parses them
-- and dispatches requests to worker threads; each connection has budgets for the bytes of its
-- requests, and a queue for the responses that the socket does not take at once. A file models one
-- part:
--   Protocol     src/system/protocol/codec.hpp: the header and the request length check
--   Options      src/user/cpp/core/easy_uds/options.hpp and the checks of src/system/transport/io.hpp
--   Deadlines    the deadlines of src/system/transport/io.hpp and src/system/reactor/common.hpp
--   Errors       src/system/core/error.cpp: the classes of system errors
--   Retry        Client::request_idempotent of src/user/cpp/core/client.cpp
--   Routes       the tables that the lookups of src/system/reactor/dispatch.cpp search
--   Registry     src/system/runtime/server_registration.cpp and the lookups of dispatch.cpp
--   FlowControl  src/system/reactor/flow_control.cpp: request budgets, pause and resumption
--   Scheduler    the serialized jobs of src/system/reactor/workers.cpp
--   Output       src/system/reactor/output.cpp: the output queue of a connection
--   Transfer     the blocking writes of src/system/transport/io.hpp and the request frame of
--                src/system/transport/transport.hpp
--   Reads        the blocking reads of src/system/transport/io.hpp and
--                src/system/reactor/stream_io.hpp
--   Streams      IncomingStream of src/system/reactor/stream.cpp and the loop over a body in
--                src/system/transport/transport.cpp
--   Session      src/user/cpp/core/session.cpp and src/system/runtime/session_engine.cpp
--   Frames       what src/system/reactor/parser.cpp keeps of a connection and hands over
--   Parser       src/system/reactor/parser.cpp: the loops that read and parse frames
-- A function of the model has the name of the function of the code; a state is a record with the
-- code's field names, and an operation takes the state and returns the new one. A `throw` is a
-- `Result`. The parser calls flow control and dispatch through a record of operations over a state of
-- their own. FlowControl and Scheduler use the checked options and the registry's scheduling;
-- Scheduler and Output use FlowControl's counters, and Output encodes with Protocol.
--
-- Numbers are natural numbers; `size_t` arithmetic that can wrap is written out modulo 2 ^ 64. A time
-- is a number of nanosecond ticks. User callbacks, the clock, the socket's answers, the standard sort
-- and the answer of the readiness set are parameters. Loops that are not over a list run on fuel: the
-- retry loop has one unit for each attempt, the flush one more than the socket has answers, since
-- each round but the last uses one up, and the choice of a response two, since the response to an
-- error is not replaced again; a blocking read has two for each byte, since each round copies a byte
-- or fills an empty buffer, and the parser one for each byte and one more, since each round but the
-- last uses up a byte. The critical sections of the scheduler and of a session are steps of a
-- relation.
--
-- Not modelled: the platform layer, which is system calls; the branches for Windows; the event loop,
-- the regular workers, the response of a stream exchange, the server's life cycle, and of a session
-- its counters, its construction and its shutdown; of the closing of a connection all but its effect
-- on the output; the statistics; memory orders weaker than one total order of the atomic operations;
-- the bindings.
pub mod Prelude
pub mod Errors
pub mod Protocol
pub mod Options
pub mod Deadlines
pub mod Retry
pub mod Routes
pub mod Registry
pub mod FlowControl
pub mod Scheduler
pub mod Output
pub mod Transfer
pub mod Reads
pub mod Frames
pub mod Parser
pub mod Session
pub mod Streams
