-- ===== src/Pg.antt =====
-- src/pg/pg.cpp, include/apostol/pg.hpp: a connection to PostgreSQL. What libpq answers to a call is an
-- argument of the operation that makes it. Clocks of the handshake and withheld error texts are left
-- out.
use libapostol.Prelude.{
  ℕ, Bool, true, false, Option, none, some, List, [], ◌++◌, Bytes, if◌then◌else◌,
}

-- A result: whether its status is a success, the text of its error, its columns and its rows, with
-- `none` for a null.
pub record PgResult : Type 0 where
  pub ok : Bool
  pub error_message : Bytes
  pub columns : ℕ
  pub rows : List (List (Option Bytes))

pub data PgConnState : Type 0 where
  connecting ready busy failed : PgConnState

-- `fd` is PQsocket, with `none` for -1.
pub record PgConnection : Type 0 where
  pub state : PgConnState
  pub fd : Option ℕ
  pub pending_results : List PgResult
  pub needs_flush : Bool

abbrev pub new_connection : PgConnection
new_connection = record { state = connecting; fd = none; pending_results = []; needs_flush = false }

-- PQconnectStart and PQsetnonblocking
pub data Started : Type 0 where
  not_started : Started
  started : ℕ → Started

unfoldable pub connect_start : Started → PgConnection → PgConnection × Bool
connect_start not_started c = (record c { state = failed }, false)
connect_start (started fd) c = (record c { fd = some fd }, true)

-- PQconnectPoll, and the socket after it
pub data Polling : Type 0 where
  polling_failed polling_reading polling_writing polling_ok polling_active : Polling

abbrev polled_state : Polling → PgConnState → PgConnState
polled_state polling_ok s = ready
polled_state polling_failed s = failed
polled_state _ s = s

unfoldable pub connect_poll : Polling → Option ℕ → PgConnection → PgConnection
connect_poll ps fd c = record c { state = polled_state ps c.state; fd = fd }

-- PQstatus, PQconsumeInput twice, PQsendQuery and PQflush; a failed read closes the socket.
pub data Sent : Type 0 where
  not_connected lost_connection not_sent not_flushed : Sent
  sent : Bool → Sent

unfoldable pub send_query : Sent → PgConnection → PgConnection × Bool
send_query not_connected c = (c, false)
send_query lost_connection c = (record c { state = failed; fd = none }, false)
send_query not_sent c = (c, false)
send_query not_flushed c = (c, false)
send_query (sent more) c = (record c { needs_flush = more; state = busy }, true)

-- PQconsumeInput, then the results of PQgetResult while PQisBusy is 0, and whether they ended in null.
pub data Read : Type 0 where
  broken : Read
  results : List PgResult → Bool → Read

abbrev is_ready : PgConnState → Bool
is_ready ready = true
is_ready _ = false

unfoldable pub collect_results : Read → PgConnection → PgConnection × List PgResult
collect_results broken c = (record c { state = failed; fd = none; pending_results = [] }, [])
collect_results (results rs complete) c =
    let state = if complete then ready else c.state in
    if is_ready state
    then (record c { state = state; pending_results = [] }, c.pending_results ++ rs)
    else (record c { state = state; pending_results = c.pending_results ++ rs }, [])

-- PQflush returns 0, or not
unfoldable pub flush : Bool → PgConnection → PgConnection × Bool
flush true c = (record c { needs_flush = false }, true)
flush false c = (c, false)

-- Whether the reads of `consume_notify` succeed; it returns -1 when they do not.
unfoldable pub consume_notify : Bool → PgConnection → PgConnection × Bool
consume_notify true c = (c, true)
consume_notify false c = (record c { state = failed; fd = none }, false)
