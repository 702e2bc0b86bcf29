-- ===== src/PgLeader/Events.antt =====
-- The events of a PgLeaderLock: its timer, its socket, the question whether it is fresh, its start and
-- its end.
use libapostol.Prelude.{
  ℕ, ◌-◌, ltb, leb, Bool, true, false, not, ◌&&◌, none, some, List, [], ◌∷◌, ◌++◌, Bytes, codes,
  decimal, is_empty, if◌then◌else◌,
}
use libapostol.Pg.{
  PgConnState, connecting, ready, busy, failed, PgConnection, new_connection, connect_start,
  Polling, polling_failed, polling_ok, connect_poll, collect_results, flush, consume_notify,
}
use libapostol.PgLeader.{
  PgLeaderLock, Answers, nothing, try_lock, probe, answer_timeout, emit, finish, unwatch, watch,
  close, drop_session, has_fd, send, handle,
}

-- The bits of an epoll event that the code tests.
pub record Events : Type 0 where
  pub writable : Bool
  pub hung_up : Bool

abbrev pub or_text : Bytes → Bytes → Bytes
or_text text default = if is_empty text then default else text

unfoldable pub connect : Answers → PgLeaderLock → PgLeaderLock
connect a l =
    let (c, begun) = connect_start a.start new_connection in
    let fresh = record l { conn = some c; since = a.now; set_up = false; asked = nothing } in
    if not begun
    then drop_session (codes "connect failed: " ++ a.error_message)
        (emit finish (record fresh { conn = none }))
    else elim c.fd [ none ↦ fresh | some fd ↦ watch fd fresh ]

abbrev pub is_failed : Polling → Bool
is_failed polling_failed = true
is_failed _ = false

abbrev pub is_ok : Polling → Bool
is_ok polling_ok = true
is_ok _ = false

-- A step of the handshake.
unfoldable pub poll_handshake : Answers → PgConnection → PgLeaderLock → PgLeaderLock
poll_handshake a c l =
    let polled = connect_poll a.polling a.polled_fd c in
    let next = record (unwatch c.fd l) { conn = some polled } in
    if is_failed a.polling then drop_session a.error_message next else elim polled.fd [
      | none ↦ drop_session a.error_message next
      | some fd ↦ if is_ok a.polling then send try_lock a polled (watch fd next) else watch fd next
    ]

-- The answers of a query that is under way.
unfoldable pub read_answer : Answers → PgConnection → PgLeaderLock → PgLeaderLock
read_answer a c l =
    let (read, results) = collect_results a.reading c in
    let next = record l { conn = some read } in
    elim results [
      | [] ↦ elim read.state [ failed ↦ drop_session a.error_message next | _ ↦ next ]
      | r ∷ rs ↦ handle r rs a next
    ]

-- A socket event while a query is under way.
unfoldable pub on_busy : Events → Answers → PgConnection → PgLeaderLock → PgLeaderLock
on_busy ev a c l =
    if ev.writable && c.needs_flush
    then (let (flushed, all_sent) = flush a.flushed c in
        if all_sent && not a.modified
        then drop_session (codes "the socket is no longer watched")
            (record l { conn = some flushed })
        else read_answer a flushed (record l { conn = some flushed }))
    else read_answer a c l

-- A socket event while nothing is asked: the server may have closed the session.
unfoldable pub on_ready : Answers → PgConnection → PgLeaderLock → PgLeaderLock
on_ready a c l =
    let (c', alive) = consume_notify a.alive c in
    let next = record l { conn = some c' } in
    if not alive then drop_session a.error_message next else next

-- A socket event by the state of the connection; `rearm_io` at its end changes nothing here.
unfoldable pub on_conn : Events → Answers → PgConnection → PgLeaderLock → PgLeaderLock
on_conn ev a c l = elim c.state [
  | connecting ↦ poll_handshake a c l
  | busy ↦ on_busy ev a c l
  | ready ↦ on_ready a c l
  | failed ↦ drop_session a.error_message l
]

abbrev pub is_connecting : PgConnState → Bool
is_connecting connecting = true
is_connecting _ = false

-- The server has closed the session: what it said last is read for the log.
abbrev pub hang_up : Answers → PgConnection → PgLeaderLock → PgLeaderLock
hang_up a c l =
    let (c', _) = collect_results a.reading c in
    drop_session (or_text a.error_message (codes "connection closed")) (record l { conn = some c' })

unfoldable pub on_io : Events → Answers → PgLeaderLock → PgLeaderLock
on_io ev a l = elim l.conn [
  | none ↦ l
  | some c ↦
      if l.inert
      then l
      else if ev.hung_up && not (is_connecting c.state)
      then hang_up a c l
      else on_conn ev a c l
]

abbrev pub seconds : Bytes → ℕ → Bytes
seconds text n = text ++ (decimal n ++ codes "s")

-- The answer is overdue, after what has come in was read.
unfoldable pub give_up : PgLeaderLock → PgLeaderLock
give_up l = elim l.conn [
  | none ↦ l
  | some c ↦ elim c.state [
    | busy ↦ drop_session (seconds (codes "no answer from the server in ") (answer_timeout l)) l
    | _ ↦ l
  ]
]

abbrev pub readable : Events
readable = record { writable = false; hung_up = false }

-- The timer, with a session, by the state of its connection.
unfoldable pub tick_conn : Answers → PgConnection → PgLeaderLock → PgLeaderLock
tick_conn a c l =
    let overdue = ltb (answer_timeout l) (a.now - l.since) in
    elim c.state [
      | connecting ↦
          if overdue
          then drop_session (seconds (codes "no connection in ") (answer_timeout l)) l
          else l
      | busy ↦ if not overdue then l else give_up (on_io readable a l)
      | ready ↦ send (if l.held then probe else try_lock) a c l
      | failed ↦ drop_session a.error_message l
    ]

unfoldable pub tick : Answers → PgLeaderLock → PgLeaderLock
tick a l = if l.inert then l else elim l.conn [ none ↦ connect a l | some c ↦ tick_conn a c l ]

-- The socket of the session was closed by the server; up to four reads, of which one fails when
-- `alive` is false, find the end, which closes the socket on this side.
abbrev pub find_closed : Answers → PgConnection → PgLeaderLock → PgLeaderLock
find_closed a c l =
    let (c', _) = consume_notify a.alive c in
    let seen = record l { conn = some c' } in
    drop_session (or_text a.error_message (codes "connection closed by the server"))
      (if has_fd c' then seen else unwatch c.fd seen)

abbrev pub recent : Answers → PgLeaderLock → Bool
recent a l = leb (a.now - l.confirmed) (answer_timeout l)

unfoldable pub fresh : Answers → PgLeaderLock → PgLeaderLock × Bool
fresh a l = if not l.held then (l, false) else elim l.conn [
  | none ↦ (l, recent a l)
  | some c ↦ if has_fd c && a.closed_by_server then (find_closed a c l, false) else (l, recent a l)
]

unfoldable pub start : Answers → PgLeaderLock → PgLeaderLock
start a l = connect a (record l { timer = true })

-- The destructor.
unfoldable pub destroy : PgLeaderLock → PgLeaderLock
destroy l = close (record l { timer = false })

-- What may happen to a lock, in any order.
pub data Event : Type 0 where
  ticks asks_fresh : Event
  on_socket : Events → Event

abbrev pub step : Event × Answers → PgLeaderLock → PgLeaderLock
step (ticks, a) l = tick a l
step (asks_fresh, a) l = (fresh a l).0
step (on_socket ev, a) l = on_io ev a l

abbrev pub run : List (Event × Answers) → PgLeaderLock → PgLeaderLock
run [] l = l
run (e ∷ es) l = run es (step e l)
