-- ===== src/Lib.antt =====
-- A model of libapostol, a C++20 framework for HTTP and PostgreSQL services, and theorems about it.
--
-- The framework serves HTTP and WebSocket connections from one event loop and passes requests to
-- modules. Thirteen of its parts are here. They are called by the servers and the modules; among
-- themselves, the reading of an `Authorization` header calls the Base64 decoder, a query of a
-- request is decoded as a URL, the pool and the lock of a leader drive connections to PostgreSQL, and
-- the subscriber of a channel quotes the texts of its statements.
--
-- Prelude has the shared names: byte strings as lists of numbers, lists, Boolean tests, bit
-- operations. A C++ string is the list of its bytes; theorems that need it assume that they are
-- below 256. Sizes and counters of the program are natural numbers, except where the code keeps a
-- number of fixed width: the accumulator of the Base64 decoder, the fields of a frame, a mask byte.
--
-- Base64 is src/core/base64.cpp: base64_encode and base64_decode, with the exception as `none`.
-- RoundTrip and Errors have the proofs.
--
-- Websocket is src/net/websocket.cpp and include/apostol/websocket.hpp.
--   Frame: ws_build_frame and ws_build_client_frame; the word of the random generator is an argument.
--   Parser: the class WsParser, its states, buffer and reassembly, as one function for each case of
--     the switch in process(); the handler appends to the list of the delivered messages. The loop
--     of process() runs on a number of rounds, two for each byte of the buffer and two more.
--     Parser/Conversation describes what a peer may send and is no code of the program.
--   Connection: the sending side of WsConnection, send_raw and on_writable. A socket is the list of
--     what its next writes answer, and the event loop says whether the write interest was armed. A
--     loop over the pending bytes runs on the answers, one for each write.
--   Connection/KeepAlive: WsKeepAlive::step, with the clock as an argument.
-- Not in it: reading from the socket, the handshake with its SHA-1, and the configuration.
--
-- FetchPolicy is src/core/fetch_policy.cpp: to_addr, prefix_match, the tables of internal networks,
-- is_internal and check. An address comes as the operating system has it, its port in host order.
-- FetchPolicy/Parse has parse, with inet_pton and inet_aton as parameters and the exceptions as the
-- values of a type. Not in it: the default of the process.
--
-- RouteManager is src/core/route_manager.cpp: split_path, match_route, dispatch, has_route, add_route
-- and set_base_path. A handler is a function from the request, the response and the parameters to the
-- response; a map of parameters is a list of pairs. The loop of split_path runs on the length of the
-- path, since each round drops a character at least. Not in it: the OpenAPI document and the fields
-- of a route that only it reads.
--
-- HttpUtils is src/core/http_utils.cpp: url_encode, url_decode and json_escape; Authorization has
-- parse_authorization; Headers has clean_element, first_forwarded and get_real_ip, which take the
-- values of the headers and two parameters, what inet_pton accepts. The loop of first_forwarded runs
-- on the length of the header. Not in it: patterns of paths, private addresses, forms, replies.
--
-- Http is src/net/http.cpp and include/apostol/http.hpp: Status the statuses, Response the class
-- HttpResponse with its setters and `serialize`, Request the lookups of HttpRequest, keep_alive,
-- content_length, parse_query and parse_cookies, whose loops run on the length of their text. The
-- reader of a response, in Response/Reading, is a description of a client and no code of the program.
-- Not in it: the parsers around llhttp, and HttpConnection.
--
-- Pg is the part of src/pg/pg.cpp and include/apostol/pg.hpp that a lock and a pool call: PgResult, and
-- the operations of PgConnection. What libpq answers is an argument of the operation. Not in it: cancel
-- requests themselves, the clocks of the handshake, withheld error texts.
--
-- PgPool is the class PgPool in the same files, as it is by default. The queries in the queue, in flight
-- on connections and lost are lists; a query is known by its number, a connection by a key.
--   Opening, Restoring: start, new_connection, ensure_min_connections, grow_for_queue, close_idle, the
--     backoff; try_reconnect and replace_connection. The loops run on the connections that are missing
--     and on the free slots: each round takes one, or is the last.
--   Queries: send_query, dispatch_queue, and execute with its loop over the connections.
--   Losses, Calls, Sockets: fail_inflight_query, cancel and detach; the handlers of a query, with what
--     they call of the pool; on_io, by the state of the connection.
--   Events: deliver_lost, end_cancel, the steps of heartbeat, the reconnect timer, and sequences.
--   Counts: how often a query is in each place.
-- Not in it: lifetimes and retirement, the stall timeout, the watch over handshakes, fail_stranded, the
-- listener, the texts of errors.
--
-- Notify is src/dbplatform/notify_subscriber.cpp and include/apostol/notify_subscriber.hpp, the class
-- NotifySubscriber: rows of a channel of the database are taken, given to a module, and confirmed or
-- given back. Statements, subscriptions and the calls of handlers are a list of effects in their order.
--   Timers, Rows, Events, Steps: the delays; complete, refuse, drain and stop; what comes from the
--     database and the module; the timers, and sequences. A handler comes with the calls that it makes.
--   Statements: the texts of ack_sql and of the batch of stop.
--   Ledger, Registered, Stopped, Stopping: proofs on rows, on numbers, and after a stop.
-- Not in it: the names and deadlines of the statements, the handlers of a completion, the log.
--
-- PgLeader is src/pg/pg_leader.cpp and include/apostol/pg_leader.hpp, the class PgLeaderLock: one
-- leader among the processes that share a database. An event of the loop comes with what the clock,
-- libpq and the kernel answer during it. The calls of the handlers, the queries and the ends of
-- sessions are a list of effects in their order; Events has the operations that the loop and the owner
-- call, and their sequences. Not in it: the SQL texts, the log, handlers that call the lock again.
--
-- PgUtils is the part of src/pg/pg_utils.cpp without JSON: pq_quote_literal, pq_quote_ident and
-- error_code_to_status. The readers in PgUtils/Quoting describe the lexer of PostgreSQL and are no
-- code of the program.
--
-- ModuleManager is src/core/module.cpp and include/apostol/module.hpp. The modules are code of the
-- applications: functions on a world that they share, a type of any choice. The calls of modules are a
-- list in their order. Latches has the sequences of operations, Telling and Busy what the loops do.
-- Not in it: what a module throws outside on_stopping, and modules that call the manager.
--
-- EventLoop is the I/O side of src/core/event_loop.cpp and include/apostol/event_loop.hpp, in the
-- level-triggered build, which is the default. What a handler does comes with its event, as a list of
-- operations on the loop, and what the kernel answers with each operation; so does what the callbacks
-- of timers and signals do. Not in it: timers and signals themselves, run and run_for, the log.
--
-- The other parts of the framework are not modelled: processes, HttpConnection, the clients, the
-- sessions of bots and services, the dispatch of ApostolModule, the YAML writer, mail, and what reads
-- configuration and files, which is mostly calls of the operating system and of other libraries.
pub mod Prelude
pub mod EventLoop
pub mod Base64
pub mod Websocket
pub mod FetchPolicy
pub mod RouteManager
pub mod HttpUtils
pub mod Http
pub mod Pg
pub mod PgLeader
pub mod Notify
pub mod PgUtils
pub mod PgPool
pub mod ModuleManager
