-- ===== src/PgLeader.antt =====
-- src/pg/pg_leader.cpp, include/apostol/pg_leader.hpp: the class PgLeaderLock, one leader among the
-- processes that share a database. Each event of the loop comes with what the clock, libpq and the
-- kernel answer during it; every operation asks each of them once at most. The texts of the SQL and
-- the lines of the log are left out.
pub mod Events
pub mod Fresh
pub mod Role
mod Tests
use libapostol.Prelude.{
  ℕ, zero, suc, ◌+◌, ◌-◌, ◌*◌, ◌%◌, ◌^◌, bit_xor, max, ltb, leb, ◌==◌, Bool, true, false, not, ◌&&◌,
  ◌||◌, Option, none, some, List, [], ◌∷◌, ◌++◌, Bytes, codes, bytes_eq, decimal, length, get_or,
  all, is_empty, if◌then◌else◌,
}
use libapostol.Pg.{
  PgResult, PgConnState, connecting, ready, busy, failed, PgConnection, new_connection, Started,
  connect_start, Polling, polling_failed, polling_reading, polling_writing, polling_ok,
  polling_active, connect_poll, Sent, send_query, Read, collect_results, flush, consume_notify,
}

abbrev pub is_space : ℕ → Bool
is_space c = c == b'\n' || c == b'\r' || c == b'\t' || c == b' '

unfoldable pub one_space : Bytes → Bytes → Bytes
one_space out [] = out
one_space out (c ∷ cs) =
    one_space
      (if not (is_space c)
        then out ++ (c ∷ [])
        else if not (is_empty out) && not (get_or out (length out - 1) 0 == b' ')
        then out ++ (b' ' ∷ [])
        else out)
      cs

unfoldable pub pop_blanks : Bytes → Bytes
pop_blanks [] = []
pop_blanks (c ∷ cs) =
    let rest = pop_blanks cs in if c == b' ' && is_empty rest then [] else c ∷ rest

abbrev pub one_line : Bytes → Bytes
one_line text = pop_blanks (one_space [] text)

-- 64-bit FNV-1a
unfoldable pub hash_from : ℕ → Bytes → ℕ
hash_from h [] = h
hash_from h (c ∷ cs) = hash_from (bit_xor h c * 1099511628211 % 2 ^ 64) cs

abbrev pub key_hash : Bytes → ℕ
key_hash key = hash_from 14695981039346656037 key

pub data Ask : Type 0 where
  nothing try_lock probe : Ask

-- What the lock does to the world outside, in order: the two handlers, the end of a session by
-- PQfinish, and its queries, each with whether the settings of the session go first.
pub data Effect : Type 0 where
  on_acquired finish : Effect
  on_lost : Bytes → Effect
  query : Bool → Ask → Effect

-- `watched` holds the sockets that are registered with the loop, `timer` whether its timer runs.
pub record PgLeaderLock : Type 0 where
  pub interval : ℕ
  pub conn : Option PgConnection
  pub timer : Bool
  pub asked : Ask
  pub set_up : Bool
  pub since : ℕ
  pub confirmed : ℕ
  pub held : Bool
  pub inert : Bool
  pub last_holder : Bytes
  pub waiting_logged : Bool
  pub last_error : Bytes
  pub session_pid : Bytes
  pub watched : List ℕ
  pub effects : List Effect

-- The constructor; an interval is one second at least.
abbrev pub new_lock : ℕ → PgLeaderLock
new_lock interval = record {
  interval = max interval 1;
  conn = none;
  timer = false;
  asked = nothing;
  set_up = false;
  since = 0;
  confirmed = 0;
  held = false;
  inert = false;
  last_holder = [];
  waiting_logged = false;
  last_error = [];
  session_pid = [];
  watched = [];
  effects = [];
}

-- What one event finds: the time, the answers of libpq (with the text of its error and whether it
-- reads what is left of a closed session), and those of the kernel: whether a socket could be watched
-- for other events, and whether poll() finds it closed by the server.
pub record Answers : Type 0 where
  pub now : ℕ
  pub start : Started
  pub polling : Polling
  pub polled_fd : Option ℕ
  pub sending : Sent
  pub reading : Read
  pub flushed : Bool
  pub alive : Bool
  pub error_message : Bytes
  pub modified : Bool
  pub closed_by_server : Bool

abbrev pub answer_timeout : PgLeaderLock → ℕ
answer_timeout l = max (l.interval * 3) 15

abbrev pub server_timeout : PgLeaderLock → ℕ
server_timeout l = answer_timeout l * 4

abbrev pub emit : Effect → PgLeaderLock → PgLeaderLock
emit e l = record l { effects = l.effects ++ (e ∷ []) }

unfoldable pub without : ℕ → List ℕ → List ℕ
without fd [] = []
without fd (x ∷ xs) = let rest = without fd xs in if x == fd then rest else x ∷ rest

-- `remove_io` for the socket of a connection, if it has one.
abbrev pub unwatch : Option ℕ → PgLeaderLock → PgLeaderLock
unwatch none l = l
unwatch (some fd) l = record l { watched = without fd l.watched }

abbrev pub watch : ℕ → PgLeaderLock → PgLeaderLock
watch fd l = record l { watched = fd ∷ l.watched }

abbrev pub unwatch_conn : Option PgConnection → PgLeaderLock → PgLeaderLock
unwatch_conn none l = l
unwatch_conn (some c) l = unwatch c.fd l

-- Ending the session of a connection, if there is one.
abbrev pub finish_conn : Option PgConnection → PgLeaderLock → PgLeaderLock
finish_conn none l = l
finish_conn (some c) l = emit finish (record (unwatch c.fd l) { conn = none })

unfoldable pub close : PgLeaderLock → PgLeaderLock
close l = record (finish_conn l.conn l) { asked = nothing; set_up = false; session_pid = [] }

unfoldable pub lose : Bytes → PgLeaderLock → PgLeaderLock
lose reason l =
    emit (on_lost reason)
      (unwatch_conn l.conn (record l { held = false; inert = true; timer = false }))

unfoldable pub drop_session : Bytes → PgLeaderLock → PgLeaderLock
drop_session why l =
    if l.held then lose (one_line why) l else record (close l) { last_error = one_line why }

abbrev pub has_fd : PgConnection → Bool
has_fd c = elim c.fd [ none ↦ false | some fd ↦ true ]

-- The end of `send`, after the query went out on the connection.
abbrev pub after_send : Ask → Answers → PgConnection → PgLeaderLock → PgLeaderLock
after_send what a c l =
    let asked = record l { conn = some c; asked = what; since = a.now } in
    if c.needs_flush && has_fd c && not a.modified
    then drop_session (codes "the socket is no longer watched") asked
    else asked

unfoldable pub send : Ask → Answers → PgConnection → PgLeaderLock → PgLeaderLock
send what a c l =
    let out = send_query a.sending c in
    let ready = emit (query (not l.set_up) what) (record l { conn = some out.0; set_up = true }) in
    if not out.1
    then drop_session (codes "cannot send the query: " ++ a.error_message) ready
    else after_send what a out.0 ready

unfoldable pub acquired : Answers → PgLeaderLock → PgLeaderLock
acquired a l = emit on_acquired (record l { held = true; confirmed = a.now })

-- The first cell of a result, if it is there and no null.
unfoldable pub cell : PgResult → ℕ → Option Bytes
cell r col = elim r.rows [
  | [] ↦ none
  | row ∷ rows ↦ if leb r.columns col then none else get_or row col none
]

unfoldable pub refused : List PgResult → Option Bytes
refused [] = none
refused (r ∷ rs) = let rest = refused rs in if not r.ok then some r.error_message else rest

unfoldable pub last_result : PgResult → List PgResult → PgResult
last_result r [] = r
last_result r (s ∷ rs) = last_result s rs

abbrev pub text_of : Option Bytes → Bytes
text_of none = []
text_of (some text) = text

-- The backend's process id, in the last of several columns.
abbrev pub answer_pid : PgResult → Option Bytes
answer_pid r = if ltb 1 r.columns then cell r (r.columns - 1) else none

abbrev pub session_changed : Bytes → Bytes → Bytes
session_changed old new =
    codes "the server session changed ("
    ++ (old
        ++ (codes " "
            ++ (0xe2
                ∷ 0x86
                ∷ 0x92
                ∷ (codes " "
                    ++ (new
                        ++ codes
                            "): the lock connection is pooled per transaction, and a session lock needs a session")))))

-- A standby learns who holds the role.
abbrev pub note_holder : Bytes → PgLeaderLock → PgLeaderLock
note_holder holder l =
    if not l.waiting_logged || not (bytes_eq holder l.last_holder)
    then record l { last_error = []; waiting_logged = true; last_holder = holder }
    else record l { last_error = [] }

-- The answer, agreement or not, from a session that is the same as before.
unfoldable pub decide : Ask → Bool → PgResult → Answers → PgLeaderLock → PgLeaderLock
decide probe agreed r a l =
    if not agreed
    then lose
        (codes
          "the session is alive but no longer holds the lock (transaction pooling between here and PostgreSQL?)")
        l
    else record l { confirmed = a.now }
decide what agreed r a l =
    if agreed
    then acquired a l
    else note_holder (if ltb 1 r.columns then text_of (cell r 1) else []) l

-- The answer, when it has a cell.
unfoldable pub judge : Ask → Bytes → PgResult → Answers → PgLeaderLock → PgLeaderLock
judge what answer r a l =
    let agreed = get_or answer 0 0 == b't' in
    elim (answer_pid r) [
      | none ↦ decide what agreed r a l
      | some pid ↦
          if is_empty l.session_pid
          then decide what agreed r a (record l { session_pid = pid })
          else if not (bytes_eq pid l.session_pid)
          then drop_session (session_changed l.session_pid pid) l
          else decide what agreed r a l
    ]

unfoldable pub handle : PgResult → List PgResult → Answers → PgLeaderLock → PgLeaderLock
handle r rs a l =
    let what = l.asked in
    let heard = record l { asked = nothing } in
    elim (refused (r ∷ rs)) [
      | some why ↦ drop_session (codes "the server refused: " ++ why) heard
      | none ↦ elim (cell (last_result r rs) 0) [
        | none ↦ drop_session (codes "unexpected answer from the server") heard
        | some answer ↦ judge what answer (last_result r rs) a heard
      ]
    ]
